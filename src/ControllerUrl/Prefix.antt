-- ===== src/ControllerUrl/Prefix.antt =====
-- The prefix is put on once.
use ice_hive.Prelude.{
  ◌≡◌, ◌≢◌, refl, sym, ap, ◌∙◌, inl, inr, true, false, ◌||◌, ◌∷◌, ◌++◌, [], arith, if_both, ◌&&◌,
  Bool-cases,
}
use mathlib.Core.Path.{subst}
use ice_hive.Text.{
  Bytes, is_nil, is_space, str_eq, trim_space, trim, trim_left, trim_right, has_suffix,
}
use ice_hive.Text.Trim.{
  str_eq→eq, str_eq_refl, is_nil→nil, Starts, trim_right-append, trim_left-Starts,
  trim_left_of_Starts, trim_right-Starts,
}
use ice_hive.ControllerUrl.{api_prefix, is_slash, trim_base, has_api_prefix, with_api_prefix}

has_suffix-parts : (s t : Bytes) → has_suffix s t ≡ true → (p : Bytes) × (s ≡ p ++ t)
unfolding has_suffix
has_suffix-parts [] t h = ([], sym (is_nil→nil t h))
has_suffix-parts (c ∷ s) t h = elim (Bool-cases (str_eq (c ∷ s) t)) [
  | inl e ↦ ([], str_eq→eq (c ∷ s) t e)
  | inr e ↦ let (p, q) = has_suffix-parts s t (rw e at h) in (c ∷ p, ap (◌∷◌ c) q)
]

pub has_suffix-append : (p t : Bytes) → t ≢ [] → has_suffix (p ++ t) t ≡ true
unfolding has_suffix
has_suffix-append [] [] n = absurd (n refl)
has_suffix-append [] (c ∷ t) n = rw (str_eq_refl (c ∷ t)) refl
has_suffix-append (c ∷ p) t n = ground (arith, has_suffix-append p t n)

-- Text that starts with no space does so without the slashes at its end.
trim_slashes-Starts : (s : Bytes) → Starts is_space s → Starts is_space (trim_right is_slash s)
unfolding trim_right
trim_slashes-Starts [] h = tt
trim_slashes-Starts (c ∷ s) h =
    if_both (Starts is_space) (is_slash c && is_nil (trim_right is_slash s)) tt h

trim_base-Starts : (s : Bytes) → Starts is_space (trim_base s)
unfolding trim_base trim_space trim
trim_base-Starts s =
    trim_slashes-Starts (trim_right is_space (trim_left is_space s))
      (trim_right-Starts is_space (trim_left is_space s) (trim_left-Starts is_space s))

api_no_space : trim_right is_space api_prefix ≡ api_prefix
unfolding trim_right is_space
api_no_space = refl

-- A base that starts with no space and ends in the prefix is left alone.
trim_base_of_prefixed :
    (p : Bytes) → Starts is_space (p ++ api_prefix) → trim_base (p ++ api_prefix) ≡ p ++ api_prefix
unfolding trim_base trim_space trim
trim_base_of_prefixed p h =
    let space = trim_right-append is_space p api_prefix (λ e. cc) api_no_space in
    let slash = trim_right-append is_slash p api_prefix (λ e. cc) (unfold trim_right in refl) in
    rw (trim_left_of_Starts is_space (p ++ api_prefix) h, space) slash

-- What with_api_prefix makes of a base that ends in the prefix, or of none.
prefixed_once :
    (p : Bytes)
    → Starts is_space (p ++ api_prefix)
    → (with_api_prefix (p ++ api_prefix) ≡ p ++ api_prefix)
      × (has_api_prefix (p ++ api_prefix) ≡ true)
unfolding with_api_prefix has_api_prefix
prefixed_once p h =
    let t = trim_base_of_prefixed p h in
    let s = has_suffix-append p api_prefix (λ e. cc) in (rw (t, t, s) (ground (arith)), rw t s)

Starts-append : (s t : Bytes) → is_nil s ≡ false → Starts is_space s → Starts is_space (s ++ t)
Starts-append [] t n h = absurd (ground (arith, n))
Starts-append (c ∷ s) t n h = h

with_prefix_of :
    (base : Bytes)
    → (is_nil (trim_base base) || has_api_prefix (trim_base base)) ≡ true
    → with_api_prefix base ≡ trim_base base
unfolding with_api_prefix
with_prefix_of base h = rw h refl

with_prefix_added :
    (base : Bytes)
    → (is_nil (trim_base base) || has_api_prefix (trim_base base)) ≡ false
    → with_api_prefix base ≡ trim_base base ++ api_prefix
unfolding with_api_prefix
with_prefix_added base h = rw h refl

blank_stays : with_api_prefix [] ≡ []
unfolding with_api_prefix trim_base trim_space trim trim_left trim_right
blank_stays = refl

Once : Bytes → Bytes → Type 0
Once base c = (with_api_prefix c ≡ c) × ((is_nil (trim_base base) || has_api_prefix c) ≡ true)

-- Putting the prefix on a second time changes nothing, and a base that is not blank then has it; if
-- no space stands in front of the base's last slashes.
pub with_api_prefix_once :
    (base : Bytes)
    → trim_base (trim_base base) ≡ trim_base base
    → (with_api_prefix (with_api_prefix base) ≡ with_api_prefix base)
      × ((is_nil (trim_base base) || has_api_prefix (with_api_prefix base)) ≡ true)
unfolding Once has_api_prefix
with_api_prefix_once base clean =
    let b = trim_base base in
    elim (Bool-cases (is_nil b)) [
      | inl e ↦
          let v = with_prefix_of base (rw e refl) ∙ is_nil→nil b e in
          subst (Once base) (sym v) (blank_stays, rw e refl)
      | inr n ↦ elim (Bool-cases (has_suffix b api_prefix)) [
        | inl e ↦
            let (p, q) = has_suffix-parts b api_prefix e in
            let v = with_prefix_of base (rw (n, clean) e) ∙ q in
            let (once, has_it) =
              prefixed_once p (subst (Starts is_space) q (trim_base-Starts base)) in
            subst (Once base) (sym v) (once, rw (n) has_it)
        | inr e ↦
            let v = with_prefix_added base (rw (n, clean) e) in
            let (once, has_it) =
              prefixed_once b (Starts-append b api_prefix n (trim_base-Starts base)) in
            subst (Once base) (sym v) (once, rw (n) has_it)
      ]
    ]
