-- ===== src/Jmap/Threads.antt =====
-- services/collector-jmap/jmap_client.go and entity.go: the newest threads of a mailbox, and the
-- entity of each.
pub mod Order
pub mod Best
pub mod Digest
pub mod Listed
mod Tests
use ice_hive.Prelude.{
  ℕ, Bool, true, false, not, ◌&&◌, ◌||◌, List, [], ◌∷◌, ◌++◌, Option, none, some, if◌then◌else◌,
  Result, ok, err, ◌>>=◌, map,
}
use ice_hive.Prelude.Int.{ℤ, pos, ltb_ℤ}
use ice_hive.Text.{Bytes, codes, is_nil, str_eq}
use ice_hive.Dict.{Dict, lookup, insert}
use ice_hive.Jmap.Api.{
  Library, Response, ApiError, empty_responses, panicked, JmapRuntime, ParsedEmail, email_query,
  email_get, thread_get, inbox_email_thread_limit, invoke_jmap, normal_id,
  parse_email_query_response, parse_email_get_list, parse_thread_get_counts,
}

pub record EmailPreview : Type 0 where
  pub subject : Bytes
  pub snippet : Bytes
  pub received_unix_ms : ℤ

pub record EmailThreadFields : Type 0 where
  pub thread_id : Bytes
  pub mailbox_id : Bytes
  pub account_id : Bytes
  pub subject : Bytes
  pub snippet : Bytes
  pub message_count : ℕ
  pub last_received_unix_ms : ℤ

-- Membership in the map threadSeen
unfoldable pub seen : Bytes → List Bytes → Bool
seen id [] = false
seen id (j ∷ ids) = str_eq j id || seen id ids

abbrev no_preview : EmailPreview
no_preview = record { subject = []; snippet = []; received_unix_ms = pos 0 }

abbrev pub preview_or_zero : Option EmailPreview → EmailPreview
preview_or_zero none = no_preview
preview_or_zero (some p) = p

abbrev pub count_or_zero : Option ℕ → ℕ
count_or_zero none = 0
count_or_zero (some n) = n

module _ (l : Library) where
  open l use {World}

  -- The loop that collects the ids; threadSeen holds those of threadOrder.
  unfoldable pub thread_order : List Bytes → List ParsedEmail → List Bytes
  thread_order order [] = order
  thread_order order (e ∷ emails) =
      let id = normal_id l e.thread_id in
      thread_order (if is_nil id || seen id order then order else order ++ (id ∷ [])) emails

  unfoldable pub preview_of : ParsedEmail → EmailPreview
  preview_of e = record {
    subject = l.nfc e.subject;
    snippet = l.nfc e.preview;
    received_unix_ms = e.received_unix_ms;
  }

  -- !ok || e.ReceivedUnixMs > prev.ReceivedUnixMs
  unfoldable pub newer_than : ParsedEmail → Option EmailPreview → Bool
  newer_than e none = true
  newer_than e (some prev) = ltb_ℤ prev.received_unix_ms e.received_unix_ms

  -- The loop that picks the newest email of each thread
  unfoldable pub pick_previews : Dict EmailPreview → List ParsedEmail → Dict EmailPreview
  pick_previews rep [] = rep
  pick_previews rep (e ∷ emails) =
      let id = normal_id l e.thread_id in
      pick_previews
        (if is_nil id
          then rep
          else if newer_than e (lookup id rep)
          then insert id (preview_of e) rep
          else rep)
        emails

  unfoldable pub thread_fields :
      JmapRuntime → Bytes → Dict EmailPreview → Dict ℕ → Bytes → EmailThreadFields
  thread_fields rt mailbox_id rep counts id =
      let p = preview_or_zero (lookup id rep) in
      record {
        thread_id = id;
        mailbox_id = l.nfc mailbox_id;
        account_id = rt.account_id;
        subject = p.subject;
        snippet = p.snippet;
        message_count = count_or_zero (lookup id counts);
        last_received_unix_ms = p.received_unix_ms;
      }

  -- What is made of the answers of Email/get and Thread/get
  unfoldable pub digest : JmapRuntime → Bytes → List ParsedEmail → Dict ℕ → List EmailThreadFields
  digest rt mailbox_id emails counts =
      map (thread_fields rt mailbox_id (pick_previews [] emails) counts) (thread_order [] emails)

  -- responses[0], where the program does not look at the length
  pub first_or_panic :
      {A : Type 0} → (Response l → Result ApiError A) → List (Response l) → Result ApiError A
  first_or_panic parse [] = err panicked
  first_or_panic parse (r ∷ rs) = parse r

  pub first_answer : List (Response l) → Result ApiError (List Bytes)
  first_answer [] = err empty_responses
  first_answer (r ∷ rs) = parse_email_query_response l r

  with_counts :
      JmapRuntime
      → Bytes
      → List ParsedEmail
      → World × Result ApiError (List (Response l))
      → World × Result ApiError (List EmailThreadFields)
  unfolding first_or_panic
  with_counts rt mailbox_id emails (w, responses) = (
    w,
    responses >>= first_or_panic (parse_thread_get_counts l) >>= λ counts.
        ok (digest rt mailbox_id emails counts),
  )

  with_order :
      JmapRuntime
      → Bytes
      → List ParsedEmail
      → World
      → List Bytes
      → World × Result ApiError (List EmailThreadFields)
  unfolding with_counts
  with_order rt mailbox_id emails w [] = (w, ok [])
  with_order rt mailbox_id emails w (id ∷ ids) =
      with_counts rt mailbox_id emails (invoke_jmap l rt w (thread_get rt.account_id (id ∷ ids)))

  with_emails :
      JmapRuntime
      → Bytes
      → World
      → Result ApiError (List ParsedEmail)
      → World × Result ApiError (List EmailThreadFields)
  unfolding with_order
  with_emails rt mailbox_id w (err e) = (w, err e)
  with_emails rt mailbox_id w (ok emails) =
      with_order rt mailbox_id emails w (thread_order [] emails)

  with_ids :
      JmapRuntime
      → Bytes
      → World
      → Result ApiError (List Bytes)
      → World × Result ApiError (List EmailThreadFields)
  unfolding with_emails first_or_panic
  with_ids rt mailbox_id w (err e) = (w, err e)
  with_ids rt mailbox_id w (ok []) = (w, ok [])
  with_ids rt mailbox_id w (ok (id ∷ ids)) =
      let (w', responses) = invoke_jmap l rt w (email_get rt.account_id (id ∷ ids)) in
      with_emails rt mailbox_id w' (responses >>= first_or_panic (parse_email_get_list l))

  -- listEmailThreads
  unfoldable pub list_email_threads :
      JmapRuntime → World → Bytes → World × Result ApiError (List EmailThreadFields)
  unfolding with_ids first_answer
  list_email_threads rt w mailbox_id =
      let (w', responses) =
        invoke_jmap l rt w (email_query rt.account_id mailbox_id inbox_email_thread_limit) in
      with_ids rt mailbox_id w' (responses >>= first_answer)
