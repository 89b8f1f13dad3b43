-- ===== src/Text/Parts.antt =====
-- Laws of splitting.
use ice_hive.Prelude.{
  ℕ, ◌≡◌, refl, ap, inl, inr, true, false, Option, none, some, List, [], ◌∷◌, ◌++◌, arith, ◌==◌,
  ==_iff, Bool-cases,
}
use ice_hive.Text.{Bytes, has_prefix, split_from, split_two, push_before, codes}
use ice_hive.Text.Trim.{Lacks}

pub has_prefix-append : (s t : Bytes) → has_prefix (s ++ t) s ≡ true
unfolding has_prefix
has_prefix-append [] t = refl
has_prefix-append (c ∷ s) t = ground (arith, has_prefix-append s t)

-- A cut at a byte gives the text before its first place and the text behind it.
pub split_two-append : (p q : Bytes) (b : ℕ) → Lacks b p → split_two (p ++ b ∷ q) b ≡ some (p, q)
unfolding split_two
split_two-append [] q b h = ground arith
split_two-append (c ∷ p) q b (hc, hp) = rw (split_two-append p q b hp, hc)

-- What a cut of `s` at `b` returns: the parts spell the text, and the first lacks the byte.
abbrev pub IsCut : Bytes → ℕ → Option (Bytes × Bytes) → Type 0
IsCut s b none = Lacks b s
IsCut s b (some (p, q)) = (s ≡ p ++ b ∷ q) × Lacks b p

push_before-IsCut :
    (c b : ℕ) (s : Bytes) (r : Option (Bytes × Bytes))
    → (c == b) ≡ false
    → IsCut s b r
    → IsCut (c ∷ s) b (push_before c r)
push_before-IsCut c b s none e h = (e, h)
push_before-IsCut c b s (some (p, q)) e (h, l) = (ap (◌∷◌ c) h, (e, l))

pub split_two-IsCut : (s : Bytes) (b : ℕ) → IsCut s b (split_two s b)
unfolding split_two
split_two-IsCut [] b = tt
split_two-IsCut (c ∷ s) b = elim (Bool-cases (c == b)) [
  | inl e ↦ rw e (ap (λ d. d ∷ s) ((==_iff c b).0 e), tt)
  | inr e ↦ rw e (push_before-IsCut c b s (split_two s b) e (split_two-IsCut s b))
]

-- The separator " +" of source specs.
abbrev pub plus : Bytes
plus = codes " +"

abbrev pub push_all : Bytes → Bytes × List Bytes → Bytes × List Bytes
push_all s r = (s ++ r.0, r.1)

-- Text without a space is never cut at " +".
pub split_from-append :
    (s t : Bytes) → Lacks 32 s → split_from plus 0 (s ++ t) ≡ push_all s (split_from plus 0 t)
unfolding split_from has_prefix
split_from-append [] t h = refl
split_from-append (c ∷ s) t (hc, hs) = ground (arith, split_from-append s t hs)

pub split_from_at_plus :
    (t : Bytes)
    → split_from plus 0 (plus ++ t) ≡ ([], (split_from plus 0 t).0 ∷ (split_from plus 0 t).1)
unfolding split_from has_prefix
split_from_at_plus t = refl
