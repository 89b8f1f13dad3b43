-- ===== src/Sorting.antt =====
-- Go's stable sort of a slice by a comparison, which several packages use: its result is in order and
-- has the same elements.
use ice_hive.Prelude.{
  ◌≡◌, refl, ap, ◌∙◌, suc, Bool, true, false, List, [], ◌∷◌, if◌then◌else◌, Bool-cases, inl, inr,
  length, All,
}
use mathlib.Core.List.{Perm}
use mathlib.Core.List.Perm

module _ {ℓ} {A : Type ℓ} (before : A → A → Bool) where
  unfoldable pub insert_in_order : A → List A → List A
  insert_in_order a [] = a ∷ []
  insert_in_order a (b ∷ bs) =
      let rest = insert_in_order a bs in if before b a then b ∷ rest else a ∷ b ∷ bs

  unfoldable pub sort_with : List A → List A
  sort_with [] = []
  sort_with (a ∷ l) = insert_in_order a (sort_with l)

  abbrev pub Heads : A → List A → Type 0
  Heads a [] = Unit
  Heads a (b ∷ l) = before b a ≡ false

  -- No element goes before the one in front of it.
  abbrev pub InOrder : List A → Type 0
  InOrder [] = Unit
  InOrder (a ∷ l) = Heads a l × InOrder l

  Heads-insert :
      (a b : A) (l : List A) → before a b ≡ false → Heads b l → Heads b (insert_in_order a l)
  unfolding insert_in_order
  Heads-insert a b [] h k = h
  Heads-insert a b (c ∷ l) h k = elim (Bool-cases (before c a)) [ inl e ↦ rw e k | inr e ↦ rw e h ]

  module _ (asym : (a b : A) → before a b ≡ true → before b a ≡ false) where
    insert-InOrder : (a : A) (l : List A) → InOrder l → InOrder (insert_in_order a l)
    unfolding insert_in_order
    insert-InOrder a [] h = (tt, tt)
    insert-InOrder a (b ∷ l) (k, h) = elim (Bool-cases (before b a)) [
      | inl e ↦ rw e (Heads-insert a b l (asym b a e) k, insert-InOrder a l h)
      | inr e ↦ rw e (e, (k, h))
    ]

    pub sort_with-InOrder : (l : List A) → InOrder (sort_with l)
    unfolding sort_with
    sort_with-InOrder [] = tt
    sort_with-InOrder (a ∷ l) = insert-InOrder a (sort_with l) (sort_with-InOrder l)

  -- No element goes before any of those in front of it.
  abbrev pub AllInOrder : List A → Type 0
  AllInOrder [] = Unit
  AllInOrder (a ∷ l) = All (λ b. before b a ≡ false) l × AllInOrder l

  module _
      (trans : (a b c : A) → before b a ≡ false → before c b ≡ false → before c a ≡ false) where
    All-InOrder :
        (a b : A) (l : List A)
        → before b a ≡ false
        → InOrder (b ∷ l)
        → All (λ c. before c a ≡ false) l
    All-InOrder a b [] h k = tt
    All-InOrder a b (c ∷ l) h (k, m) = (trans a b c h k, All-InOrder a c l (trans a b c h k) m)

    pub InOrder-AllInOrder : (l : List A) → InOrder l → AllInOrder l
    InOrder-AllInOrder [] h = tt
    InOrder-AllInOrder (a ∷ []) h = (tt, tt)
    InOrder-AllInOrder (a ∷ b ∷ l) (h, k) =
        ((h, All-InOrder a b l h k), InOrder-AllInOrder (b ∷ l) k)

  length-insert : (a : A) (l : List A) → length (insert_in_order a l) ≡ suc (length l)
  unfolding insert_in_order
  length-insert a [] = refl
  length-insert a (b ∷ l) = elim (Bool-cases (before b a)) [
    | inl e ↦ rw e (ap suc (length-insert a l))
    | inr e ↦ rw e refl
  ]

  pub length-sort_with : (l : List A) → length (sort_with l) ≡ length l
  unfolding sort_with
  length-sort_with [] = refl
  length-sort_with (a ∷ l) = length-insert a (sort_with l) ∙ ap suc (length-sort_with l)

  insert-Perm : (a : A) (l : List A) → Perm (insert_in_order a l) (a ∷ l)
  unfolding insert_in_order
  insert-Perm a [] = Perm.refl (a ∷ [])
  insert-Perm a (b ∷ l) = elim (Bool-cases (before b a)) [
    | inl e ↦ rw e (Perm.trans (Perm.cons b (insert-Perm a l)) (Perm.swap a b l))
    | inr e ↦ rw e (Perm.refl (a ∷ b ∷ l))
  ]

  pub sort_with-Perm : (l : List A) → Perm (sort_with l) l
  unfolding sort_with
  sort_with-Perm [] = Perm.refl []
  sort_with-Perm (a ∷ l) = Perm.trans (insert-Perm a (sort_with l)) (Perm.cons a (sort_with-Perm l))
