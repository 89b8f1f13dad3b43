-- ===== src/Text/Within.antt =====
-- strings.Contains behind strings.ToLower: a word that stands in a text, in whatever case.
use ice_hive.Prelude.{
  ℕ, ◌≡◌, refl, sym, ap, ap₂, ◌∙◌, true, [], ◌∷◌, ◌++◌, arith, Bool-cases, inl, inr, length, take,
  ◌==◌, ==_refl,
}
use ice_hive.Text.{Bytes, to_lower, lower, has_prefix, contains}

-- A part of the text is the word when its letters are made small.
pub record Within (word s : Bytes) : Type 0 where
  pub before : Bytes
  pub part : Bytes
  pub behind : Bytes
  pub split : s ≡ before ++ (part ++ behind)
  pub is_word : to_lower part ≡ word

prefix-Within :
    (s t : Bytes)
    → has_prefix (to_lower s) t ≡ true
    → (b : Bytes) × (c : Bytes) × (s ≡ b ++ c) × (to_lower b ≡ t)
unfolding has_prefix to_lower
prefix-Within s [] h = ([], s, refl, refl)
prefix-Within [] (d ∷ t) h = absurd (ground (arith, h))
prefix-Within (x ∷ s) (d ∷ t) h = elim (Bool-cases (lower x == d)) [
  | inr e ↦ absurd (ground (arith, rw e at h))
  | inl e ↦
      let (b, c, p, q) = prefix-Within s t (rw e at h) in
      (x ∷ b, c, ap (◌∷◌ x) p, ap₂ ◌∷◌ (ground (arith, e)) q)
]

has_prefix-word : (b c : Bytes) → has_prefix (to_lower (b ++ c)) (to_lower b) ≡ true
unfolding has_prefix to_lower
has_prefix-word [] c = refl
has_prefix-word (x ∷ b) c = rw (==_refl (lower x)) (has_prefix-word b c)

pub contains-Within :
    (s : Bytes) (c : ℕ) (t : Bytes) → contains (to_lower s) (c ∷ t) ≡ true → Within (c ∷ t) s
unfolding contains to_lower
contains-Within [] c t h = absurd (ground (arith, h))
contains-Within (x ∷ s) c t h = elim (Bool-cases (has_prefix (to_lower (x ∷ s)) (c ∷ t))) [
  | inl e ↦
      let (b, r, p, q) = prefix-Within (x ∷ s) (c ∷ t) e in
      record { before = []; part = b; behind = r; split = p; is_word = q }
  | inr e ↦
      let w = contains-Within s c t (rw e at h) in
      record {
        before = x ∷ w.before;
        part = w.part;
        behind = w.behind;
        split = ap (◌∷◌ x) w.split;
        is_word = w.is_word;
      }
]

contains-word : (a b c : Bytes) → contains (to_lower (a ++ (b ++ c))) (to_lower b) ≡ true
unfolding contains to_lower has_prefix
contains-word [] [] [] = refl
contains-word [] [] (y ∷ c) = refl
contains-word [] (x ∷ b) c = rw (has_prefix-word (x ∷ b) c) refl
contains-word (y ∷ a) b c =
    elim (Bool-cases (has_prefix (to_lower (y ∷ (a ++ (b ++ c)))) (to_lower b))) [
      | inl e ↦ rw e refl
      | inr e ↦ rw e (contains-word a b c)
    ]

pub Within-contains : (word s : Bytes) → Within word s → contains (to_lower s) word ≡ true
Within-contains word s w =
    ap₂ (λ x y. contains (to_lower x) y) w.split (sym w.is_word)
    ∙ contains-word w.before w.part w.behind

-- A text that begins with the word has it as its first bytes.
pub take-word : (s t : Bytes) → has_prefix (to_lower s) t ≡ true → to_lower (take (length t) s) ≡ t
unfolding has_prefix to_lower
take-word s [] h = refl
take-word [] (d ∷ t) h = absurd (ground (arith, h))
take-word (x ∷ s) (d ∷ t) h = elim (Bool-cases (lower x == d)) [
  | inr e ↦ absurd (ground (arith, rw e at h))
  | inl e ↦ ap₂ ◌∷◌ (ground (arith, e)) (take-word s t (rw e at h))
]
