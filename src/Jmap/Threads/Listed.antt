-- ===== src/Jmap/Threads/Listed.antt =====
-- What listEmailThreads returns.
use ice_hive.Prelude.{ℕ, ◌≡◌, refl, ap, ◌∙◌, List, [], ◌∷◌, map, Result, ok, err, ◌>>=◌}
use mathlib.Core.Path.{subst}
use ice_hive.Text.{Bytes}
use ice_hive.Dict.{Dict}
use ice_hive.Jmap.Api.{
  Library, Response, ApiError, JmapRuntime, ParsedEmail, email_get, email_query, thread_get,
  inbox_email_thread_limit, invoke_jmap, parse_email_get_list, parse_thread_get_counts,
}
use ice_hive.Jmap.Threads.{
  EmailThreadFields, thread_order, digest, first_or_panic, first_answer, pick_previews, with_counts,
  with_order, with_emails, with_ids, list_email_threads,
}
use ice_hive.Jmap.Threads.Digest.{thread_id_of, map-ids, IsDigest, digest-IsDigest}

module _ (l : Library) (rt : JmapRuntime) (mailbox_id : Bytes) where
  open l use {World}

  -- The calls, each in the world that the one before it leaves.
  abbrev pub queried : World → World × Result ApiError (List (Response l))
  queried w = invoke_jmap l rt w (email_query rt.account_id mailbox_id inbox_email_thread_limit)

  abbrev pub got : World → List Bytes → World × Result ApiError (List (Response l))
  got w ids = invoke_jmap l rt (queried w).0 (email_get rt.account_id ids)

  abbrev pub counted : World → List Bytes → List Bytes → World × Result ApiError (List (Response l))
  counted w ids threads = invoke_jmap l rt (got w ids).0 (thread_get rt.account_id threads)

  -- What the answers say.
  abbrev pub ids_of : World → Result ApiError (List Bytes)
  ids_of w = (queried w).1 >>= first_answer l

  abbrev pub emails_of : World → List Bytes → Result ApiError (List ParsedEmail)
  emails_of w ids = (got w ids).1 >>= first_or_panic l (parse_email_get_list l)

  abbrev pub counts_of : World → List Bytes → List Bytes → Result ApiError (Dict ℕ)
  counts_of w ids threads =
      (counted w ids threads).1 >>= first_or_panic l (parse_thread_get_counts l)

  -- The threads of a mailbox as the server's answers give them, or the error of the call that fails.
  pub data IsListing (w : World) : Result ApiError (List EmailThreadFields) → Type 0 where
    query_fails : (e : ApiError) → ids_of w ≡ err e → IsListing w (err e)
    empty_mailbox : ids_of w ≡ ok [] → IsListing w (ok [])
    get_fails :
        (id : Bytes) (ids : List Bytes) (e : ApiError)
        → ids_of w ≡ ok (id ∷ ids)
        → emails_of w (id ∷ ids) ≡ err e
        → IsListing w (err e)
    no_threads :
        (id : Bytes) (ids : List Bytes) (emails : List ParsedEmail)
        → ids_of w ≡ ok (id ∷ ids)
        → emails_of w (id ∷ ids) ≡ ok emails
        → IsDigest l rt mailbox_id emails [] []
        → IsListing w (ok [])
    count_fails :
        (id : Bytes) (ids threads : List Bytes) (e : ApiError)
        → ids_of w ≡ ok (id ∷ ids)
        → counts_of w (id ∷ ids) threads ≡ err e
        → IsListing w (err e)
    listed :
        (id : Bytes) (ids : List Bytes) (emails : List ParsedEmail) (counts : Dict ℕ)
        (threads : List EmailThreadFields)
        → ids_of w ≡ ok (id ∷ ids)
        → emails_of w (id ∷ ids) ≡ ok emails
        → counts_of w (id ∷ ids) (map (thread_id_of l) threads) ≡ ok counts
        → IsDigest l rt mailbox_id emails counts threads
        → IsListing w (ok threads)

  counts-IsListing :
      (w : World) (id : Bytes) (ids : List Bytes) (emails : List ParsedEmail)
      (r : Result ApiError (Dict ℕ))
      → ids_of w ≡ ok (id ∷ ids)
      → emails_of w (id ∷ ids) ≡ ok emails
      → counts_of w (id ∷ ids) (thread_order l [] emails) ≡ r
      → IsListing w (r >>= λ counts. ok (digest l rt mailbox_id emails counts))
  unfolding digest
  counts-IsListing w id ids emails (err e) q g c =
      count_fails id ids (thread_order l [] emails) e q c
  counts-IsListing w id ids emails (ok counts) q g c =
      let same =
        map-ids l rt mailbox_id (pick_previews l [] emails) counts (thread_order l [] emails) in
      listed id ids emails counts (digest l rt mailbox_id emails counts) q g
        (ap (counts_of w (id ∷ ids)) same ∙ c) (digest-IsDigest l rt mailbox_id emails counts)

  order-IsListing :
      (w : World) (id : Bytes) (ids : List Bytes) (emails : List ParsedEmail) (order : List Bytes)
      → ids_of w ≡ ok (id ∷ ids)
      → emails_of w (id ∷ ids) ≡ ok emails
      → thread_order l [] emails ≡ order
      → IsListing w (with_order l rt mailbox_id emails (got w (id ∷ ids)).0 order).1
  unfolding with_order with_counts digest
  order-IsListing w id ids emails [] q g e = no_threads id ids emails q g (
      subst (IsDigest l rt mailbox_id emails []) (ap (map _) e)
        (digest-IsDigest l rt mailbox_id emails []))
  order-IsListing w id ids emails (t ∷ ts) q g e =
      counts-IsListing w id ids emails (counts_of w (id ∷ ids) (t ∷ ts)) q g
        (ap (counts_of w (id ∷ ids)) e)

  emails-IsListing :
      (w : World) (id : Bytes) (ids : List Bytes) (r : Result ApiError (List ParsedEmail))
      → ids_of w ≡ ok (id ∷ ids)
      → emails_of w (id ∷ ids) ≡ r
      → IsListing w (with_emails l rt mailbox_id (got w (id ∷ ids)).0 r).1
  unfolding with_emails
  emails-IsListing w id ids (err e) q g = get_fails id ids e q g
  emails-IsListing w id ids (ok emails) q g =
      order-IsListing w id ids emails (thread_order l [] emails) q g refl

  ids-IsListing :
      (w : World) (r : Result ApiError (List Bytes))
      → ids_of w ≡ r
      → IsListing w (with_ids l rt mailbox_id (queried w).0 r).1
  unfolding with_ids
  ids-IsListing w (err e) q = query_fails e q
  ids-IsListing w (ok []) q = empty_mailbox q
  ids-IsListing w (ok (id ∷ ids)) q = emails-IsListing w id ids (emails_of w (id ∷ ids)) q refl

  -- Listing the threads of a mailbox fails exactly with the error of the call that fails. Else it
  -- returns no thread where Email/query answers no id, or else the threads of the emails that
  -- Email/get answers for the ids of Email/query: no two of them have one id, every email with a
  -- usable thread id belongs to one of them, and each carries the subject, the preview and the time
  -- of one of its emails, such that no email of the thread is later, with the count that Thread/get
  -- answers for these threads, or 0.
  pub list_email_threads-Listed : (w : World) → IsListing w (list_email_threads l rt w mailbox_id).1
  unfolding list_email_threads
  list_email_threads-Listed w = ids-IsListing w (ids_of w) refl
