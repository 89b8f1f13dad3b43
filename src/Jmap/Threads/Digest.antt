-- ===== src/Jmap/Threads/Digest.antt =====
-- The rows that are made of the emails: one for each thread, with its newest email.
use ice_hive.Prelude.{
  ℕ, ◌≡◌, refl, sym, ap, List, [], ◌∷◌, Option, none, some, map, inl, inr, arith, All, Any,
}
use mathlib.Core.Path.{subst}
use ice_hive.Text.{Bytes}
use ice_hive.Dict.{Dict, lookup}
use ice_hive.Jmap.Api.{Library, JmapRuntime, ParsedEmail}
use ice_hive.Jmap.Threads.{
  EmailPreview, EmailThreadFields, thread_order, preview_of, pick_previews, preview_or_zero,
  count_or_zero, thread_fields, digest,
}
use ice_hive.Jmap.Threads.Order.{
  Distinct, id_of, IsCovered, IsFrom, order-All-IsCovered, order-Distinct, order-All-IsFrom,
}
use ice_hive.Jmap.Threads.Best.{NoLater, IsBest, pick_previews-IsBest}

module _ (l : Library) where
  -- A row of a thread: its newest email, and as many messages as Thread/get has counted.
  pub record IsDigestOf (rt : JmapRuntime) (mailbox_id : Bytes) (emails : List ParsedEmail)
      (counts : Dict ℕ) (t : EmailThreadFields) : Type 0 where
    pub newest : EmailPreview
    pub from : Any (λ e. (id_of l e ≡ t.thread_id) × (newest ≡ preview_of l e)) emails
    pub no_later : All (NoLater l t.thread_id newest.received_unix_ms) emails
    pub subject : t.subject ≡ newest.subject
    pub snippet : t.snippet ≡ newest.snippet
    pub received : t.last_received_unix_ms ≡ newest.received_unix_ms
    pub messages : t.message_count ≡ count_or_zero (lookup t.thread_id counts)
    pub mailbox : t.mailbox_id ≡ l.nfc mailbox_id
    pub account : t.account_id ≡ rt.account_id

  from_best :
      (rt : JmapRuntime) (mailbox_id : Bytes) (emails : List ParsedEmail) (counts : Dict ℕ)
      (i : Bytes) (o : Option EmailPreview)
      → lookup i (pick_previews l [] emails) ≡ o
      → IsBest l i none emails o
      → Any (λ e. id_of l e ≡ i) emails
      → IsDigestOf rt mailbox_id emails counts
          (thread_fields l rt mailbox_id (pick_previews l [] emails) counts i)
  unfolding thread_fields
  from_best rt mailbox_id emails counts i none q (_, n) a = absurd (none_has emails n a)
    where
      none_has :
          (es : List ParsedEmail)
          → All (λ e. ¬ (id_of l e ≡ i)) es
          → Any (λ e. id_of l e ≡ i) es
          → ⊥
      none_has [] n x = elim x [ ]
      none_has (e ∷ es) (n, ns) (inl x) = n x
      none_has (e ∷ es) (n, ns) (inr y) = none_has es ns y
  from_best rt mailbox_id emails counts i (some p) q (inl x, _, n) a = absurd (ground (arith, x))
  from_best rt mailbox_id emails counts i (some p) q (inr f, _, n) a = record {
    newest = p;
    from = f;
    no_later = n;
    subject = ap (λ r. (preview_or_zero r).subject) q;
    snippet = ap (λ r. (preview_or_zero r).snippet) q;
    received = ap (λ r. (preview_or_zero r).received_unix_ms) q;
    messages = refl;
    mailbox = refl;
    account = refl;
  }

  row-IsDigestOf :
      (rt : JmapRuntime) (mailbox_id : Bytes) (emails : List ParsedEmail) (counts : Dict ℕ)
      (i : Bytes)
      → IsFrom l emails i
      → IsDigestOf rt mailbox_id emails counts
          (thread_fields l rt mailbox_id (pick_previews l [] emails) counts i)
  row-IsDigestOf rt mailbox_id emails counts i (h, a) =
      from_best rt mailbox_id emails counts i (lookup i (pick_previews l [] emails)) refl
        (pick_previews-IsBest l i emails h) a

  map-All :
      (f : Bytes → EmailThreadFields) (P : Bytes → Type 0) (Q : EmailThreadFields → Type 0)
      → ((i : Bytes) → P i → Q (f i))
      → (ids : List Bytes) → All P ids
      → All Q (map f ids)
  map-All f P Q h [] a = tt
  map-All f P Q h (i ∷ ids) (p, a) = (h i p, map-All f P Q h ids a)

  abbrev pub thread_id_of : EmailThreadFields → Bytes
  thread_id_of t = t.thread_id

  pub map-ids :
      (rt : JmapRuntime) (mailbox_id : Bytes) (rep : Dict EmailPreview) (counts : Dict ℕ)
      (ids : List Bytes)
      → map thread_id_of (map (thread_fields l rt mailbox_id rep counts) ids) ≡ ids
  unfolding thread_fields
  map-ids rt mailbox_id rep counts [] = refl
  map-ids rt mailbox_id rep counts (i ∷ ids) = ap (◌∷◌ i) (map-ids rt mailbox_id rep counts ids)

  pub record IsDigest (rt : JmapRuntime) (mailbox_id : Bytes) (emails : List ParsedEmail)
      (counts : Dict ℕ) (threads : List EmailThreadFields) : Type 0 where
    pub distinct : Distinct (map thread_id_of threads)
    pub covered : All (IsCovered l (map thread_id_of threads)) emails
    pub rows : All (IsDigestOf rt mailbox_id emails counts) threads

  pub digest-IsDigest :
      (rt : JmapRuntime) (mailbox_id : Bytes) (emails : List ParsedEmail) (counts : Dict ℕ)
      → IsDigest rt mailbox_id emails counts (digest l rt mailbox_id emails counts)
  unfolding digest
  digest-IsDigest rt mailbox_id emails counts =
      let ids = thread_order l [] emails in
      let rep = pick_previews l [] emails in
      let e = map-ids rt mailbox_id rep counts ids in
      record {
        distinct = subst Distinct (sym e) (order-Distinct l [] emails tt);
        covered = subst (λ x. All (IsCovered l x) emails) (sym e) (order-All-IsCovered l [] emails);
        rows =
            map-All (thread_fields l rt mailbox_id rep counts) (IsFrom l emails)
              (IsDigestOf rt mailbox_id emails counts) (row-IsDigestOf rt mailbox_id emails counts)
              ids (order-All-IsFrom l emails);
      }
