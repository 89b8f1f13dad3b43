-- ===== src/Github/Spec/Options.antt =====
-- The modifiers: what the options are, and which list is refused.
use ice_hive.Prelude.{
  ◌≡◌, sym, ◌∙◌, inl, inr, Bool, true, false, ◌||◌, List, [], ◌∷◌, Option, none, some, arith,
  if◌then◌else◌, Bool-cases, Option-cases, Result, ok, err,
}
use mathlib.Core.Path.{subst}
use ice_hive.Text.{Bytes, codes, str_eq}
use ice_hive.Text.Trim.{str_eq→eq}
use ice_hive.Github.Spec.{
  SpecError, SourceOpts, no_opts, set_option, seen_before, set_options, options_from_modifiers,
  unknown_modifier,
}

abbrev pub is_known : Bytes → Bool
is_known m =
    str_eq m (codes "dependabot")
    || str_eq m (codes "pr")
    || str_eq m (codes "issue")
    || str_eq m (codes "packages")

-- The first modifier that is none of the four.
abbrev pub first_unknown : List Bytes → Option Bytes
first_unknown [] = none
first_unknown (m ∷ ms) = if is_known m then first_unknown ms else some m

-- The word stands in the list.
abbrev pub mentions : Bytes → List Bytes → Bool
mentions w [] = false
mentions w (m ∷ ms) = str_eq m w || mentions w ms

abbrev pub join_opts : List Bytes → SourceOpts → SourceOpts
join_opts ms o = record {
  dependabot = o.dependabot || mentions (codes "dependabot") ms;
  prs = o.prs || mentions (codes "pr") ms;
  issues = o.issues || mentions (codes "issue") ms;
  packages = o.packages || mentions (codes "packages") ms;
}

abbrev pub finish : List Bytes → SourceOpts → Option Bytes → Result SpecError SourceOpts
finish ms o none = ok (join_opts ms o)
finish ms o (some m) = err (unknown_modifier m)

-- What the options are to be: each is set exactly if its word stands in the list, whatever the
-- order and however often.
abbrev pub Options : List Bytes → SourceOpts → Result SpecError SourceOpts
Options ms o = finish ms o (first_unknown ms)

abbrev Unknown : Bytes → Type 0
Unknown m =
    (str_eq m (codes "dependabot") ≡ false)
    × (str_eq m (codes "pr") ≡ false)
    × (str_eq m (codes "issue") ≡ false)
    × (str_eq m (codes "packages") ≡ false)

-- To prove a property of every modifier, prove it of the four words and of any other.
word_cases {ℓ} :
    (P : Bytes → Type ℓ) (m : Bytes)
    → P (codes "dependabot")
    → P (codes "pr")
    → P (codes "issue")
    → P (codes "packages")
    → (Unknown m → P m)
    → P m
word_cases P m d p i k u = elim (Bool-cases (str_eq m (codes "dependabot"))) [
  | inl e ↦ subst P (sym (str_eq→eq m _ e)) d
  | inr e1 ↦ elim (Bool-cases (str_eq m (codes "pr"))) [
    | inl e ↦ subst P (sym (str_eq→eq m _ e)) p
    | inr e2 ↦ elim (Bool-cases (str_eq m (codes "issue"))) [
      | inl e ↦ subst P (sym (str_eq→eq m _ e)) i
      | inr e3 ↦ elim (Bool-cases (str_eq m (codes "packages"))) [
        | inl e ↦ subst P (sym (str_eq→eq m _ e)) k
        | inr e4 ↦ u (e1, e2, e3, e4)
      ]
    ]
  ]
]

abbrev Sets : List Bytes → SourceOpts → Bytes → Option SourceOpts → Type 0
Sets ms o m none = Options (m ∷ ms) o ≡ err (unknown_modifier m)
Sets ms o m (some o') = Options (m ∷ ms) o ≡ Options ms o'

set_option-Sets : (ms : List Bytes) (o : SourceOpts) (m : Bytes) → Sets ms o m (set_option m o)
unfolding set_option str_eq
set_option-Sets ms o m =
    word_cases (λ w. Sets ms o w (set_option w o)) m (ground arith) (ground arith) (ground arith)
      (ground arith) (λ u. ground arith)

set_option_twice :
    (m : Bytes) (o o' : SourceOpts) → set_option m o ≡ some o' → set_option m o' ≡ some o'
unfolding set_option
set_option_twice m o o' h = ground arith

set_option_keeps :
    (w m : Bytes) (o o' : SourceOpts)
    → set_option w o ≡ some o
    → set_option m o ≡ some o'
    → set_option w o' ≡ some o'
unfolding set_option
set_option_keeps w m o o' h k = ground arith

-- A word that is in `seen` has set its option before.
abbrev Recorded : SourceOpts → List Bytes → Type 0
Recorded o [] = Unit
Recorded o (n ∷ seen) = (set_option n o ≡ some o) × Recorded o seen

Recorded-lookup :
    (m : Bytes) (o : SourceOpts) (seen : List Bytes)
    → Recorded o seen
    → seen_before m seen ≡ true
    → set_option m o ≡ some o
unfolding seen_before
Recorded-lookup m o [] r h = cc
Recorded-lookup m o (n ∷ seen) (rn, r) h = elim (Bool-cases (str_eq m n)) [
  | inl e ↦ subst (λ w. set_option w o ≡ some o) (sym (str_eq→eq m n e)) rn
  | inr e ↦ Recorded-lookup m o seen r (rw e at h)
]

Recorded-keeps :
    (m : Bytes) (o o' : SourceOpts) (seen : List Bytes)
    → set_option m o ≡ some o'
    → Recorded o seen
    → Recorded o' seen
Recorded-keeps m o o' [] h r = tt
Recorded-keeps m o o' (n ∷ seen) h (rn, r) =
    (set_option_keeps n m o o' rn h, Recorded-keeps m o o' seen h r)

set_options-Options :
    (ms seen : List Bytes) (o : SourceOpts) → Recorded o seen → set_options ms seen o ≡ Options ms o
unfolding set_options
set_options-Options [] seen o h = ground arith
set_options-Options (m ∷ ms) seen o h = elim (Bool-cases (seen_before m seen)) [
  | inl e ↦
      rw (e, set_options)
        (set_options-Options ms seen o h
          ∙ sym (rw (Recorded-lookup m o seen h e) at (set_option-Sets ms o m)))
  | inr e ↦ elim (Option-cases (set_option m o)) [
    | inl n ↦ rw (e, set_options, n) (sym (rw n at (set_option-Sets ms o m)))
    | inr (o', n) ↦
        rw (e, set_options, n)
          (set_options-Options ms (m ∷ seen) o'
              (set_option_twice m o o' n, Recorded-keeps m o o' seen n h)
            ∙ sym (rw n at (set_option-Sets ms o m)))
  ]
]

-- The options of a list of modifiers: each of the four is set exactly if its word stands in the
-- list, whatever the order and the repetitions; a list with another word is refused, and the error
-- names the first such word.
pub options_from_modifiers_lem : (ms : List Bytes) → options_from_modifiers ms ≡ Options ms no_opts
unfolding options_from_modifiers
options_from_modifiers_lem ms = set_options-Options ms [] no_opts tt
