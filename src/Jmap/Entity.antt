-- ===== src/Jmap/Entity.antt =====
-- services/collector-jmap/entity.go: the entity of a thread. The message has the types of
-- services/collector-rss/entity.go, which the file repeats.
use ice_hive.Prelude.{◌∷◌, [], ◌++◌, none}
use ice_hive.Prelude.Int.{ℤ, pos}
use ice_hive.Text.{Bytes, codes}
use ice_hive.Rss.Entity.{EntityMessage, string, int64}
use ice_hive.Jmap.Threads.{EmailThreadFields}

abbrev pub entity_type_email_thread : Bytes
entity_type_email_thread = codes "EmailThread"

abbrev pub collector_jmap_type : Bytes
collector_jmap_type = codes "collector-jmap"

-- With NFC, sha256 in hexadecimal digits, and the time in milliseconds.
unfoldable pub build_email_thread_entity :
    (Bytes → Bytes) → (Bytes → Bytes) → ℤ → EmailThreadFields → EntityMessage
build_email_thread_entity nfc sha256_hex now row =
    let unique_id = nfc (row.account_id ++ (b'|' ∷ row.thread_id)) in
    record {
      type = codes "Entity";
      schema_version = codes "v1";
      metadata = record {
        recollect_spec = none;
        entity_type = entity_type_email_thread;
        source_system = codes "jmap";
        source_collector_type = collector_jmap_type;
        source_unique_id = unique_id;
        source_hash = record {
          hash_value = sha256_hex (unique_id ++ (codes ":" ++ nfc collector_jmap_type));
          hash_type = codes "sha256";
        };
        observed_unix_ms = now;
      };
      structure =
          (codes "thread_id", record { type = codes "string"; length = 512 })
          ∷ (codes "mailbox_id", record { type = codes "string"; length = 512 })
          ∷ (codes "jmap_account_id", record { type = codes "string"; length = 512 })
          ∷ (codes "message_count", record { type = codes "int64"; length = 0 })
          ∷ (codes "subject", record { type = codes "string"; length = 2048 })
          ∷ (codes "snippet", record { type = codes "string"; length = 8192 })
          ∷ (codes "last_received_unix_ms", record { type = codes "int64"; length = 0 })
          ∷ [];
      values =
          (codes "thread_id", string row.thread_id)
          ∷ (codes "mailbox_id", string row.mailbox_id)
          ∷ (codes "jmap_account_id", string row.account_id)
          ∷ (codes "message_count", int64 (pos row.message_count))
          ∷ (codes "subject", string row.subject)
          ∷ (codes "snippet", string row.snippet)
          ∷ (codes "last_received_unix_ms", int64 row.last_received_unix_ms)
          ∷ [];
    }
