-- ===== src/Jmap/Threads/Best.antt =====
-- The preview that a thread ends up with, over the emails in their order.
use ice_hive.Prelude.{
  ◌≡◌, refl, sym, ap, ◌∙◌, true, false, ◌&&◌, List, [], ◌∷◌, Option, none, some, if◌then◌else◌,
  Bool-cases, inl, inr, ◌⊎◌, arith, All, Any,
}
use mathlib.Core.Path.{subst}
use ice_hive.Prelude.Int.{ℤ, ◌≤ℤ◌}
use ice_hive.Text.{Bytes, is_nil, str_eq}
use ice_hive.Text.Trim.{str_eq_iff}
use ice_hive.Dict.{Dict, lookup, insert, lookup-insert}
use ice_hive.Jmap.Api.{Library, ParsedEmail}
use ice_hive.Jmap.Threads.{EmailPreview, preview_of, newer_than, pick_previews}
use ice_hive.Jmap.Threads.Order.{id_of}

module _ (l : Library) where
  -- What becomes of the preview of the thread `i` with one email more
  abbrev better : Bytes → ParsedEmail → Option EmailPreview → Option EmailPreview
  better i e o = if str_eq (id_of l e) i && newer_than l e o then some (preview_of l e) else o

  best : Bytes → Option EmailPreview → List ParsedEmail → Option EmailPreview
  best i o [] = o
  best i o (e ∷ emails) = best i (better i e o) emails

  abbrev rep_step : ParsedEmail → Dict EmailPreview → Dict EmailPreview
  rep_step e rep =
      let id = id_of l e in
      if is_nil id
      then rep
      else if newer_than l e (lookup id rep)
      then insert id (preview_of l e) rep
      else rep

  lookup-rep_step :
      (i : Bytes) (e : ParsedEmail) (rep : Dict EmailPreview)
      → is_nil i ≡ false
      → lookup i (rep_step e rep) ≡ better i e (lookup i rep)
  lookup-rep_step i e rep h = elim (Bool-cases (str_eq (id_of l e) i)) [
    | inl s ↦
        let s' = (str_eq_iff (id_of l e) i).0 s in
        let n : is_nil (id_of l e) ≡ false = rw s' h in
        elim (Bool-cases (newer_than l e (lookup (id_of l e) rep))) [
          | inl q ↦ rw (n, q, lookup-insert (id_of l e) i (preview_of l e) rep, s, ← s', q) refl
          | inr q ↦ rw (n, q, s, ← s', q) refl
        ]
    | inr s ↦ elim (Bool-cases (is_nil (id_of l e))) [
      | inl n ↦ rw (n, s) refl
      | inr n ↦ elim (Bool-cases (newer_than l e (lookup (id_of l e) rep))) [
        | inl q ↦ rw (n, q, lookup-insert (id_of l e) i (preview_of l e) rep, s) refl
        | inr q ↦ rw (n, q, s) refl
      ]
    ]
  ]

  lookup-pick_previews :
      (i : Bytes) (rep : Dict EmailPreview) (emails : List ParsedEmail)
      → is_nil i ≡ false
      → lookup i (pick_previews l rep emails) ≡ best i (lookup i rep) emails
  unfolding pick_previews best
  lookup-pick_previews i rep [] h = refl
  lookup-pick_previews i rep (e ∷ emails) h =
      lookup-pick_previews i (rep_step e rep) emails h
      ∙ ap (λ o. best i o emails) (lookup-rep_step i e rep h)

  -- Every email of the thread `i` is received at `t` or before.
  abbrev pub NoLater : Bytes → ℤ → ParsedEmail → Type 0
  NoLater i t e = id_of l e ≡ i → e.received_unix_ms ≤ℤ t

  abbrev pub After : Option EmailPreview → ℤ → Type 0
  After none t = Unit
  After (some p) t = p.received_unix_ms ≤ℤ t

  -- `r` is the newest of `o` and of the emails of the thread `i`.
  abbrev pub IsBest : Bytes → Option EmailPreview → List ParsedEmail → Option EmailPreview → Type 0
  IsBest i o emails none = (o ≡ none) × All (λ e. ¬ (id_of l e ≡ i)) emails
  IsBest i o emails (some p) =
      ((o ≡ some p) ⊎ Any (λ e. (id_of l e ≡ i) × (p ≡ preview_of l e)) emails)
      × After o p.received_unix_ms
      × All (NoLater i p.received_unix_ms) emails

  After-trans : (o : Option EmailPreview) (s t : ℤ) → s ≤ℤ t → After o s → After o t
  After-trans none s t h k = tt
  After-trans (some p) s t h k = omega arith

  newer-After :
      (e : ParsedEmail) (o : Option EmailPreview)
      → newer_than l e o ≡ true
      → After o e.received_unix_ms
  unfolding newer_than
  newer-After e none h = tt
  newer-After e (some p) h = ground (arith, h)

  older-le :
      (e : ParsedEmail) (o : Option EmailPreview) (t : ℤ)
      → newer_than l e o ≡ false
      → After o t
      → e.received_unix_ms ≤ℤ t
  unfolding newer_than
  older-le e none t h k = absurd (ground (arith, h))
  older-le e (some p) t h k = ground (arith, h, k)

  older-ne-none :
      (e : ParsedEmail) (o : Option EmailPreview) → newer_than l e o ≡ false → ¬ (o ≡ none)
  unfolding newer_than
  older-ne-none e none h q = absurd (ground (arith, h))
  older-ne-none e (some p) h q = absurd (ground (arith, q))

  -- An email more that is of another thread
  other-IsBest :
      (i : Bytes) (o : Option EmailPreview) (e : ParsedEmail) (emails : List ParsedEmail)
      (r : Option EmailPreview)
      → IsBest i o emails r
      → ¬ (id_of l e ≡ i)
      → IsBest i o (e ∷ emails) r
  other-IsBest i o e emails none (q, a) n = (q, (n, a))
  other-IsBest i o e emails (some p) (f, af, a) n =
      (elim f [ inl x ↦ inl x | inr y ↦ inr (inr y) ], af, (λ x. absurd (n x), a))

  -- An email more that becomes the newest
  taken-IsBest :
      (i : Bytes) (o : Option EmailPreview) (e : ParsedEmail) (emails : List ParsedEmail)
      (r : Option EmailPreview)
      → IsBest i (some (preview_of l e)) emails r
      → id_of l e ≡ i
      → newer_than l e o ≡ true
      → IsBest i o (e ∷ emails) r
  unfolding preview_of
  taken-IsBest i o e emails none (q, a) s h = absurd (ground (arith, q))
  taken-IsBest i o e emails (some p) (f, af, a) s h = (
    inr (elim f [ inl x ↦ inl (s, cc) | inr y ↦ inr y ]),
    After-trans o e.received_unix_ms p.received_unix_ms af (newer-After e o h),
    (λ x. af, a),
  )

  -- An email more that is not newer
  kept-IsBest :
      (i : Bytes) (o : Option EmailPreview) (e : ParsedEmail) (emails : List ParsedEmail)
      (r : Option EmailPreview)
      → IsBest i o emails r
      → newer_than l e o ≡ false
      → IsBest i o (e ∷ emails) r
  kept-IsBest i o e emails none (q, a) h = absurd (older-ne-none e o h q)
  kept-IsBest i o e emails (some p) (f, af, a) h = (
    elim f [ inl x ↦ inl x | inr y ↦ inr (inr y) ],
    af,
    (λ x. older-le e o p.received_unix_ms h af, a),
  )

  cons-IsBest :
      (i : Bytes) (o : Option EmailPreview) (e : ParsedEmail) (emails : List ParsedEmail)
      (r : Option EmailPreview)
      → IsBest i (better i e o) emails r
      → IsBest i o (e ∷ emails) r
  cons-IsBest i o e emails r h = elim (Bool-cases (str_eq (id_of l e) i)) [
    | inr s ↦
        other-IsBest i o e emails r (rw s at h)
          (λ x. absurd (ground (arith, s, (str_eq_iff (id_of l e) i).1 x)))
    | inl s ↦ elim (Bool-cases (newer_than l e o)) [
      | inl q ↦ taken-IsBest i o e emails r (rw (s, q) at h) ((str_eq_iff (id_of l e) i).0 s) q
      | inr q ↦ kept-IsBest i o e emails r (rw (s, q) at h) q
    ]
  ]

  best-IsBest :
      (i : Bytes) (o : Option EmailPreview) (emails : List ParsedEmail)
      → IsBest i o emails (best i o emails)
  unfolding best
  best-IsBest i none [] = (refl, tt)
  best-IsBest i (some p) [] = (inl refl, omega arith, tt)
  best-IsBest i o (e ∷ emails) =
      cons-IsBest i o e emails (best i (better i e o) emails) (best-IsBest i (better i e o) emails)

  -- The preview kept for a thread is of its newest email.
  pub pick_previews-IsBest :
      (i : Bytes) (emails : List ParsedEmail)
      → is_nil i ≡ false
      → IsBest i none emails (lookup i (pick_previews l [] emails))
  unfolding lookup
  pick_previews-IsBest i emails h =
      subst (IsBest i none emails) (sym (lookup-pick_previews i [] emails h))
        (best-IsBest i none emails)
