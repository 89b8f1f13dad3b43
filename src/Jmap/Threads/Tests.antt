-- ===== src/Jmap/Threads/Tests.antt =====
-- Three emails of two threads; the second email of the first thread is the newest.
use ice_hive.Prelude.{ℕ, ◌≡◌, refl, [], ◌∷◌, none, some, ok, length}
use ice_hive.Prelude.Int.{pos}
use ice_hive.Text.{Bytes, codes}
use ice_hive.Jmap.Api.{
  Library, Row, JmapRuntime, Call, email_query, email_get, thread_get, mailbox_query,
}
use ice_hive.Jmap.Threads.{EmailThreadFields, list_email_threads}
use ice_hive.Jmap.Threads.Listed.{IsListing, list_email_threads-Listed}

abbrev row : Bytes → Bytes → Row
row thread date = record {
  thread_id = some thread;
  subject = some date;
  preview = none;
  received_at = some date;
}

abbrev l : Library
l = record {
  World = ℕ;
  Raw = ℕ;
  post = λ w url token call. (w, ok (200, []));
  decode_envelope = λ s. ok (0 ∷ []);
  decode_tuple = λ r. ok (0 ∷ 1 ∷ []);
  decode_string = λ r. ok (codes "answer");
  decode_ids = λ r. ok (codes "m" ∷ []);
  decode_query = λ r. ok (codes "e1" ∷ codes "e2" ∷ codes "e3" ∷ []);
  decode_emails = λ r. ok (
      row (codes "t1") (codes "1")
      ∷ row (codes "t2") (codes "22")
      ∷ row (codes "t1") (codes "333")
      ∷ []);
  decode_threads = λ r. ok ((codes "t1", codes "e1" ∷ codes "e3" ∷ []) ∷ []);
  raw_text = λ r. [];
  parse_time = λ layout s. some (pos (length s));
  nfc = λ s. s;
}

abbrev rt : JmapRuntime
rt = record { api_url = codes "https://h/jmap/api/"; account_id = codes "a"; bearer = codes "x" }

list_email_threads-Listed_example :
    IsListing l rt (codes "m") 0 (list_email_threads l rt 0 (codes "m")).1
list_email_threads-Listed_example = list_email_threads-Listed l rt (codes "m") 0

abbrev thread : Bytes → Bytes → ℕ → ℕ → EmailThreadFields
thread id subject messages received = record {
  thread_id = id;
  mailbox_id = codes "m";
  account_id = codes "a";
  subject = subject;
  snippet = [];
  message_count = messages;
  last_received_unix_ms = pos received;
}

two_threads :
    (list_email_threads l rt 0 (codes "m")).1
    ≡ ok (thread (codes "t1") (codes "333") 2 3 ∷ thread (codes "t2") (codes "22") 0 2 ∷ [])
unfolding list_email_threads ice_hive.Jmap.Api.invoke_jmap ice_hive.Jmap.Api.read_tuples
    ice_hive.Jmap.Api.parse_email_query_response ice_hive.Jmap.Api.parse_response
    ice_hive.Text.str_eq ice_hive.Jmap.Api.parse_email_get_list ice_hive.Jmap.Threads.thread_order
    ice_hive.Jmap.Api.normal_id ice_hive.Text.trim_space ice_hive.Text.trim ice_hive.Text.trim_right
    ice_hive.Text.trim_left ice_hive.Jmap.Api.parsed_email ice_hive.Text.is_space
    ice_hive.Jmap.Threads.seen ice_hive.Jmap.Api.parse_thread_get_counts ice_hive.Dict.insert
    ice_hive.Dict.lookup ice_hive.Jmap.Api.count_messages ice_hive.Jmap.Api.parse_utc_date_string
    ice_hive.Jmap.Threads.digest ice_hive.Jmap.Threads.newer_than
    ice_hive.Jmap.Threads.pick_previews ice_hive.Jmap.Threads.preview_of
    ice_hive.Jmap.Threads.thread_fields
two_threads = refl
