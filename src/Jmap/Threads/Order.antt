-- ===== src/Jmap/Threads/Order.antt =====
-- The ids of the threads of a list of emails: distinct, and of every email that has one.
use ice_hive.Prelude.{
  ◌≡◌, refl, true, false, ◌||◌, List, [], ◌∷◌, ◌++◌, if◌then◌else◌, Bool-cases, inl, inr, ◌⊎◌,
  arith, All, Any,
}
use mathlib.Core.Path.{subst}
use ice_hive.Text.{Bytes, is_nil, str_eq}
use ice_hive.Text.Trim.{str_eq_iff, str_eq_refl}
use ice_hive.Jmap.Api.{Library, ParsedEmail, normal_id}
use ice_hive.Jmap.Threads.{seen, thread_order}

abbrev pub Distinct : List Bytes → Type 0
Distinct [] = Unit
Distinct (id ∷ ids) = (seen id ids ≡ false) × Distinct ids

seen-append :
    (i : Bytes) (ids : List Bytes) (id : Bytes)
    → seen i (ids ++ (id ∷ [])) ≡ (seen i ids || str_eq id i)
unfolding seen
seen-append i [] id = ground arith
seen-append i (j ∷ ids) id = ground (arith, seen-append i ids id)

append-Distinct :
    (ids : List Bytes) (id : Bytes)
    → Distinct ids
    → seen id ids ≡ false
    → Distinct (ids ++ (id ∷ []))
unfolding seen
append-Distinct [] id h k = (refl, tt)
append-Distinct (j ∷ ids) id (h, hs) k = (
  ground (arith, h, k, seen-append j ids id, str_eq_iff j id, str_eq_iff id j),
  append-Distinct ids id hs (ground (arith, k)),
)

module _ (l : Library) where
  abbrev pub id_of : ParsedEmail → Bytes
  id_of e = normal_id l e.thread_id

  abbrev order_step : ParsedEmail → List Bytes → List Bytes
  order_step e order =
      let id = id_of e in if is_nil id || seen id order then order else order ++ (id ∷ [])

  order_step-keeps :
      (e : ParsedEmail) (i : Bytes) (order : List Bytes)
      → seen i order ≡ true
      → seen i (order_step e order) ≡ true
  order_step-keeps e i order h = elim (Bool-cases (is_nil (id_of e) || seen (id_of e) order)) [
    | inl q ↦ rw q h
    | inr q ↦ rw (q, seen-append i order (id_of e)) (rw h refl)
  ]

  order-keeps :
      (i : Bytes) (order : List Bytes) (emails : List ParsedEmail)
      → seen i order ≡ true
      → seen i (thread_order l order emails) ≡ true
  unfolding thread_order
  order-keeps i order [] h = h
  order-keeps i order (e ∷ emails) h =
      order-keeps i (order_step e order) emails (order_step-keeps e i order h)

  -- An email has no thread, or its thread is among the ids.
  abbrev pub IsCovered : List Bytes → ParsedEmail → Type 0
  IsCovered ids e = (is_nil (id_of e) ≡ true) ⊎ (seen (id_of e) ids ≡ true)

  order_step-IsCovered : (e : ParsedEmail) (order : List Bytes) → IsCovered (order_step e order) e
  order_step-IsCovered e order = elim (Bool-cases (is_nil (id_of e))) [
    | inl q ↦ inl q
    | inr q ↦ inr (elim (Bool-cases (seen (id_of e) order)) [
      | inl k ↦ rw (q, k) k
      | inr k ↦ rw (q, k, seen-append (id_of e) order (id_of e), k, str_eq_refl (id_of e)) refl
    ])
  ]

  pub order-All-IsCovered :
      (order : List Bytes) (emails : List ParsedEmail)
      → All (IsCovered (thread_order l order emails)) emails
  unfolding thread_order
  order-All-IsCovered order [] = tt
  order-All-IsCovered order (e ∷ emails) = (
    elim (order_step-IsCovered e order) [
      | inl q ↦ inl q
      | inr k ↦ inr (order-keeps (id_of e) (order_step e order) emails k)
    ],
    order-All-IsCovered (order_step e order) emails,
  )

  pub order-Distinct :
      (order : List Bytes) (emails : List ParsedEmail)
      → Distinct order
      → Distinct (thread_order l order emails)
  unfolding thread_order
  order-Distinct order [] h = h
  order-Distinct order (e ∷ emails) h =
      order-Distinct (order_step e order) emails
        (elim (Bool-cases (is_nil (id_of e) || seen (id_of e) order)) [
          | inl q ↦ rw q h
          | inr q ↦ rw q (append-Distinct order (id_of e) h (ground (arith, q)))
        ])

  -- An id that is not empty, and one of the emails has it.
  abbrev pub IsFrom : List ParsedEmail → Bytes → Type 0
  IsFrom emails i = (is_nil i ≡ false) × Any (λ e. id_of e ≡ i) emails

  -- An id is among the first ones, or one of the emails has it.
  order-Any :
      (order : List Bytes) (emails : List ParsedEmail) (i : Bytes)
      → seen i (thread_order l order emails) ≡ true
      → (seen i order ≡ true) ⊎ IsFrom emails i
  unfolding thread_order
  order-Any order [] i h = inl h
  order-Any order (e ∷ emails) i h = elim (order-Any (order_step e order) emails i h) [
    | inr (k, a) ↦ inr (k, inr a)
    | inl k ↦ elim (Bool-cases (is_nil (id_of e) || seen (id_of e) order)) [
      | inl q ↦ inl (subst (λ b. seen i (if b then order else order ++ (id_of e ∷ [])) ≡ true) q k)
      | inr q ↦
          let k' = subst (λ b. seen i (if b then order else order ++ (id_of e ∷ [])) ≡ true) q k in
          elim (Bool-cases (str_eq (id_of e) i)) [
            | inl s ↦
                let s' = (str_eq_iff (id_of e) i).0 s in
                inr (subst (λ j. is_nil j ≡ false) s' (ground (arith, q)), inl s')
            | inr s ↦ inl (ground (arith, s, k', seen-append i order (id_of e)))
          ]
    ]
  ]

  seen-All :
      (P : Bytes → Type 0) (ids : List Bytes)
      → Distinct ids
      → ((i : Bytes) → seen i ids ≡ true → P i)
      → All P ids
  unfolding seen
  seen-All P [] d h = tt
  seen-All P (i ∷ ids) (n, d) h =
      (h i (rw (str_eq_refl i) refl), seen-All P ids d (λ j k. h j (ground (arith, k))))

  pub order-All-IsFrom :
      (emails : List ParsedEmail) → All (IsFrom emails) (thread_order l [] emails)
  unfolding seen
  order-All-IsFrom emails =
      seen-All (IsFrom emails) (thread_order l [] emails) (order-Distinct [] emails tt)
        (λ i h. elim (order-Any [] emails i h) [ inl k ↦ absurd (ground (arith, k)) | inr k ↦ k ])
