-- ===== src/SourceSchema/Agree.antt =====
-- services/common/pkg/sourceschema/schema.go against services/collector-github/spec.go: the document
-- and the parser know the same modifiers.
use ice_hive.Prelude.{
  ◌≡◌, refl, sym, ap, ◌∙◌, Bool, true, false, ◌&&◌, ◌||◌, List, [], ◌∷◌, Option, none, some, Result,
  ok, err, arith, Bool-cases, inl, inr,
}
use ice_hive.Text.{Bytes, str_eq}
use ice_hive.Github.Spec.{SourceOpts, no_opts, options_from_modifiers}
use ice_hive.Github.Spec.Options.{finish, first_unknown, is_known, options_from_modifiers_lem}
use ice_hive.SourceSchema.{Modifier, github_v1}

abbrev pub is_ok {ℓ κ} : {E : Type ℓ} {A : Type κ} → Result E A → Bool
is_ok (ok a) = true
is_ok (err e) = false

-- The word is the token of a modifier of the list.
abbrev pub offers : List Modifier → Bytes → Bool
offers [] m = false
offers (x ∷ xs) m = str_eq m x.syntax_suffix || offers xs m

abbrev pub offers_all : List Modifier → List Bytes → Bool
offers_all xs [] = true
offers_all xs (m ∷ ms) = offers xs m && offers_all xs ms

known_offered : (m : Bytes) → is_known m ≡ offers github_v1.modifiers m
known_offered m = ground arith

finish_ok :
    (ms : List Bytes) (o : SourceOpts) (x : Option Bytes)
    → is_ok (finish ms o x) ≡ (elim x [ none ↦ true | some m ↦ false ])
finish_ok ms o none = refl
finish_ok ms o (some m) = refl

unknown_free :
    (ms : List Bytes)
    → (elim (first_unknown ms) as (λ _. Bool) [ none ↦ true | some m ↦ false ])
      ≡ offers_all github_v1.modifiers ms
unknown_free [] = refl
unknown_free (m ∷ ms) = elim (Bool-cases (is_known m)) [
  | inl e ↦
      let offered : offers github_v1.modifiers m ≡ true = sym (known_offered m) ∙ e in
      rw (e, offered, unknown_free ms) refl
  | inr e ↦
      let missing : offers github_v1.modifiers m ≡ false = sym (known_offered m) ∙ e in
      rw (e, missing) refl
]

-- The collector accepts a list of modifiers exactly if the document that it announces offers each of
-- them.
pub github_v1_offers_lem :
    (ms : List Bytes) → is_ok (options_from_modifiers ms) ≡ offers_all github_v1.modifiers ms
github_v1_offers_lem ms =
    ap is_ok (options_from_modifiers_lem ms)
    ∙ finish_ok ms no_opts (first_unknown ms)
    ∙ unknown_free ms
