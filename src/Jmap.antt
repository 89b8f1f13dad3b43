-- ===== src/Jmap.antt =====
-- services/collector-jmap/spec.go: the source_spec of a JMAP mailbox.
pub mod Named
pub mod Api
pub mod Threads
pub mod Entity
use ice_hive.Prelude.{Bool, true, false, [], ◌∷◌, if◌then◌else◌, length, drop, Result, ok, err, not}
use ice_hive.Text.{Bytes, codes, is_nil, trim_space, to_lower, has_prefix, equal_fold}

pub data SpecError : Type 0 where
  unsupported_spec : Bytes → SpecError
  missing_value : SpecError

-- The id of the mailbox, and whether the mailbox of the role inbox is to be found.
pub record Mailbox : Type 0 where
  pub mailbox_id : Bytes
  pub resolve_rfc_inbox : Bool

abbrev pub prefix_mailbox_lower : Bytes
prefix_mailbox_lower = codes "mailbox:"

-- With NFC of the text library, and ICEHIVE_JMAP_MAILBOX_ID.
module _ (nfc : Bytes → Bytes) (mailbox_variable : Bytes) where
  -- mailboxOrInboxFromEnv
  unfoldable pub mailbox_or_inbox_from_env : Mailbox
  mailbox_or_inbox_from_env =
      let id = trim_space mailbox_variable in
      if is_nil id
      then record { mailbox_id = []; resolve_rfc_inbox = true }
      else record { mailbox_id = nfc id; resolve_rfc_inbox = false }

  -- The part behind the prefix
  unfoldable pub parse_rest : Bytes → Result SpecError Mailbox
  parse_rest rest =
      if is_nil rest
      then err missing_value
      else if equal_fold rest (codes "inbox")
      then ok (record { mailbox_id = []; resolve_rfc_inbox = true })
      else if equal_fold rest (codes "env")
      then ok mailbox_or_inbox_from_env
      else ok (record { mailbox_id = nfc rest; resolve_rfc_inbox = false })

  -- parseJmapMailboxSourceSpec
  unfoldable pub parse_jmap_mailbox_source_spec : Bytes → Result SpecError Mailbox
  parse_jmap_mailbox_source_spec source_spec =
      let s = trim_space source_spec in
      if is_nil s
      then ok mailbox_or_inbox_from_env
      else if not (has_prefix (to_lower s) prefix_mailbox_lower)
      then err (unsupported_spec s)
      else parse_rest (trim_space (drop (length prefix_mailbox_lower) s))
