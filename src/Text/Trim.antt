-- ===== src/Text/Trim.antt =====
-- Laws of string equality and of the trimming functions.
use ice_hive.Prelude.{
  ℕ, ◌≡◌, refl, ◌≢◌, ◌↔◌, inl, inr, Bool, true, false, ◌&&◌, [], ◌∷◌, ◌++◌, arith, ◌==◌, ==_refl,
  Bool-cases, All,
}
use ice_hive.Text.{
  Bytes, is_nil, str_eq, is_space, trim_left, trim_right, trim, trim_space, contains_byte,
  contains_any, less,
}

pub str_eq_refl : (s : Bytes) → str_eq s s ≡ true
unfolding str_eq
str_eq_refl [] = refl
str_eq_refl (c ∷ s) = rw (==_refl c, str_eq_refl s)

pub str_eq→eq : (s t : Bytes) → str_eq s t ≡ true → s ≡ t
unfolding str_eq
str_eq→eq [] [] h = refl
str_eq→eq [] (d ∷ t) h = cc
str_eq→eq (c ∷ s) [] h = cc
str_eq→eq (c ∷ s) (d ∷ t) h = ground (arith, str_eq→eq s t)

pub str_eq_iff : (s t : Bytes) → (str_eq s t ≡ true) ↔ (s ≡ t)
str_eq_iff s t = (str_eq→eq s t, λ e. rw e (str_eq_refl t))

pub str_eq_ne : (s t : Bytes) → s ≢ t → str_eq s t ≡ false
str_eq_ne s t h = elim (Bool-cases (str_eq s t)) [
  | inl e ↦ absurd (h (str_eq→eq s t e))
  | inr e ↦ e
]

pub is_nil→nil : (s : Bytes) → is_nil s ≡ true → s ≡ []
is_nil→nil [] h = refl
is_nil→nil (c ∷ s) h = cc

pub ne_nil→is_nil : (s : Bytes) → s ≢ [] → is_nil s ≡ false
ne_nil→is_nil [] h = absurd (h refl)
ne_nil→is_nil (c ∷ s) h = refl

pub is_nil→ne_nil : (s : Bytes) → is_nil s ≡ false → s ≢ []
is_nil→ne_nil [] h = cc
is_nil→ne_nil (c ∷ s) h = λ e. cc

module _ (p : ℕ → Bool) where
  pub trim_right_idem : (s : Bytes) → trim_right p (trim_right p s) ≡ trim_right p s
  unfolding trim_right
  trim_right_idem [] = refl
  trim_right_idem (c ∷ s) = elim (Bool-cases (p c && is_nil (trim_right p s))) [
    | inl e ↦ rw e
    | inr e ↦ rw (e, trim_right_idem s, e)
  ]

  -- Text that starts with no byte of the set is left alone.
  abbrev pub Starts : Bytes → Type 0
  Starts [] = Unit
  Starts (c ∷ s) = p c ≡ false

  pub trim_left-Starts : (s : Bytes) → Starts (trim_left p s)
  unfolding trim_left
  trim_left-Starts [] = tt
  trim_left-Starts (c ∷ s) = elim (Bool-cases (p c)) [
    | inl e ↦ rw e (trim_left-Starts s)
    | inr e ↦ rw e e
  ]

  pub trim_left_of_Starts : (s : Bytes) → Starts s → trim_left p s ≡ s
  unfolding trim_left
  trim_left_of_Starts [] h = refl
  trim_left_of_Starts (c ∷ s) h = rw h

  pub trim_right-Starts : (s : Bytes) → Starts s → Starts (trim_right p s)
  unfolding trim_right
  trim_right-Starts [] h = tt
  trim_right-Starts (c ∷ s) h = rw h h

  pub trim_idem : (s : Bytes) → trim p (trim p s) ≡ trim p s
  unfolding trim
  trim_idem s =
      rw
        (trim_left_of_Starts (trim_right p (trim_left p s))
          (trim_right-Starts (trim_left p s) (trim_left-Starts s)))
        (trim_right_idem (trim_left p s))

  -- Text with a trimmed, non-empty end keeps whatever stands before that end.
  pub trim_right-append :
      (s t : Bytes) → t ≢ [] → trim_right p t ≡ t → trim_right p (s ++ t) ≡ s ++ t
  unfolding trim_right
  trim_right-append [] t h e = e
  trim_right-append (c ∷ []) t h e = rw e (ground (arith, ne_nil→is_nil t h))
  trim_right-append (c ∷ d ∷ s) t h e = rw (trim_right-append (d ∷ s) t h e) (ground arith)

  pub trim_right_of_All : (s : Bytes) → All (λ c. p c ≡ false) s → trim_right p s ≡ s
  unfolding trim_right
  trim_right_of_All [] h = refl
  trim_right_of_All (c ∷ s) (hc, hs) = rw (hc, trim_right_of_All s hs)

  pub trim_of_Starts :
      (s t : Bytes) → Starts s → s ≢ [] → t ≢ [] → trim_right p t ≡ t → trim p (s ++ t) ≡ s ++ t
  unfolding trim trim_left
  trim_of_Starts [] t h n m e = absurd (n refl)
  trim_of_Starts (c ∷ s) t h n m e = rw h (trim_right-append (c ∷ s) t m e)

  pub trim_of_All : (s : Bytes) → All (λ c. p c ≡ false) s → trim p s ≡ s
  unfolding trim trim_left
  trim_of_All [] h = unfold trim_right in refl
  trim_of_All (c ∷ s) (hc, hs) = rw hc (trim_right_of_All (c ∷ s) (hc, hs))

-- Text with no space in it.
abbrev pub NoSpace : Bytes → Type 0
NoSpace = All (λ c. is_space c ≡ false)

pub trim_space_idem : (s : Bytes) → trim_space (trim_space s) ≡ trim_space s
unfolding trim_space
trim_space_idem s = trim_idem is_space s

pub trim_space_of_NoSpace : (s : Bytes) → NoSpace s → trim_space s ≡ s
unfolding trim_space
trim_space_of_NoSpace s h = trim_of_All is_space s h

-- Text without a byte.
abbrev pub Lacks : ℕ → Bytes → Type 0
Lacks b = All (λ c. (c == b) ≡ false)

pub contains_byte-Lacks : (b : ℕ) (s : Bytes) → contains_byte b s ≡ false → Lacks b s
unfolding contains_byte
contains_byte-Lacks b [] h = tt
contains_byte-Lacks b (c ∷ s) h = ground (arith, contains_byte-Lacks b s)

pub Lacks-contains_byte : (b : ℕ) (s : Bytes) → Lacks b s → contains_byte b s ≡ false
unfolding contains_byte
Lacks-contains_byte b [] h = refl
Lacks-contains_byte b (c ∷ s) (hc, hs) = rw hc (Lacks-contains_byte b s hs)

-- What holds of every byte of a text holds of every byte that trimming leaves.
module _ {ℓ} (P : ℕ → Type ℓ) (p : ℕ → Bool) where
  trim_left-All : (s : Bytes) → All P s → All P (trim_left p s)
  unfolding trim_left
  trim_left-All [] h = tt
  trim_left-All (c ∷ s) h = elim (Bool-cases (p c)) [
    | inl e ↦ rw e (trim_left-All s h.1)
    | inr e ↦ rw e h
  ]

  trim_right-All : (s : Bytes) → All P s → All P (trim_right p s)
  unfolding trim_right
  trim_right-All [] h = tt
  trim_right-All (c ∷ s) h = elim (Bool-cases (p c && is_nil (trim_right p s))) [
    | inl e ↦ rw e tt
    | inr e ↦ rw e (h.0, trim_right-All s h.1)
  ]

  pub trim-All : (s : Bytes) → All P s → All P (trim p s)
  unfolding trim
  trim-All s h = trim_right-All (trim_left p s) (trim_left-All s h)

pub trim_space-Lacks : (b : ℕ) (s : Bytes) → Lacks b s → Lacks b (trim_space s)
unfolding trim_space
trim_space-Lacks b s h = trim-All (λ c. (c == b) ≡ false) is_space s h

pub contains_any-Lacks : (b : ℕ) (s : Bytes) → contains_any s (b ∷ []) ≡ false → Lacks b s
unfolding contains_any contains_byte
contains_any-Lacks b [] h = tt
contains_any-Lacks b (c ∷ s) h = ground (arith, contains_any-Lacks b s)

pub Lacks-contains_any : (b : ℕ) (s : Bytes) → Lacks b s → contains_any s (b ∷ []) ≡ false
unfolding contains_any contains_byte
Lacks-contains_any b [] h = refl
Lacks-contains_any b (c ∷ s) (hc, hs) = ground (arith, Lacks-contains_any b s)

pub less_asym : (s t : Bytes) → less s t ≡ true → less t s ≡ false
unfolding less
less_asym [] [] h = refl
less_asym [] (d ∷ t) h = refl
less_asym (c ∷ s) [] h = absurd (ground (arith, h))
less_asym (c ∷ s) (d ∷ t) h = ground (arith, h, less_asym s t)

pub less_trans : (s t u : Bytes) → less t s ≡ false → less u t ≡ false → less u s ≡ false
unfolding less
less_trans [] t [] h k = refl
less_trans (c ∷ s) [] [] h k = absurd (ground (arith, h))
less_trans (c ∷ s) (d ∷ t) [] h k = absurd (ground (arith, k))
less_trans [] t (e ∷ u) h k = refl
less_trans (c ∷ s) [] (e ∷ u) h k = absurd (ground (arith, h))
less_trans (c ∷ s) (d ∷ t) (e ∷ u) h k = ground (arith, h, k, less_trans s t u)
