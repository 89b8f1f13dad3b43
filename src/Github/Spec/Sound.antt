-- ===== src/Github/Spec/Sound.antt =====
-- What an accepted source_spec gives.
use ice_hive.Prelude.{
  ◌≡◌, refl, inl, inr, false, ◌||◌, [], ◌∷◌, Option, none, some, arith, Bool-cases, Result, ok, err,
  Result-cases,
}
use ice_hive.Text.{
  Bytes, is_nil, str_eq, trim_space, trim, trim_left, trim_right, to_lower, has_prefix,
  contains_byte, contains_any, split_two,
}
use ice_hive.Text.Trim.{
  trim_space_idem, Lacks, contains_byte-Lacks, contains_any-Lacks, trim_space-Lacks,
}
use ice_hive.Text.Parts.{IsCut, split_two-IsCut}
use mathlib.Core.Path.{subst}
use ice_hive.Github.Spec.{
  SpecError, SourceOpts, Target, parse_login, check_slug, read_halves, parse_slug,
  parse_repo_primary, parse_github_source_spec, split_source_spec, options_from_modifiers,
  org_prefix, repo_prefix,
}

abbrev pub IsTrimmed : Bytes → Type 0
IsTrimmed s = trim_space s ≡ s

-- A name that the GitHub API can be asked for: an owner with no slash in it, and either every
-- repository, or one with a name that holds no wildcard; both names are trimmed.
pub record IsTarget (t : Target) : Type 0 where
  pub owner_trimmed : IsTrimmed t.owner
  pub repo_trimmed : IsTrimmed t.repo
  pub owner_given : is_nil t.owner ≡ false
  pub repo_given : is_nil t.repo ≡ t.all_repos
  pub no_slash : Lacks b'/' t.owner
  pub no_wildcard : Lacks b'*' t.repo

abbrev pub Accepts : Result SpecError Target → Type 0
Accepts (ok t) = IsTarget t
Accepts (err e) = Unit

nil-IsTrimmed : IsTrimmed []
unfolding trim_space trim trim_right trim_left
nil-IsTrimmed = refl

parse_login-Accepts : (s : Bytes) → IsTrimmed s → Accepts (parse_login s)
unfolding parse_login
parse_login-Accepts s h = elim (Bool-cases (is_nil s)) [
  | inl e ↦ rw e tt
  | inr e ↦ elim (Bool-cases (contains_any s (b'/' ∷ []))) [
    | inl f ↦ rw (e, f) tt
    | inr f ↦
        rw (e, f)
          (record {
            owner_trimmed = h;
            repo_trimmed = nil-IsTrimmed;
            owner_given = e;
            repo_given = refl;
            no_slash = contains_any-Lacks b'/' s f;
            no_wildcard = tt;
          })
  ]
]

check_slug-Accepts :
    (rest p q : Bytes) → IsTrimmed p → IsTrimmed q → Lacks b'/' p → Accepts (check_slug rest p q)
unfolding check_slug
check_slug-Accepts rest p q hp hq l = elim (Bool-cases (is_nil p || is_nil q)) [
  | inl e ↦ rw e tt
  | inr e ↦ elim (Bool-cases (str_eq q (b'*' ∷ []))) [
    | inl f ↦ rw (e, f) tt
    | inr f ↦ elim (Bool-cases (contains_byte b'*' q)) [
      | inl g ↦ rw (e, f, g) tt
      | inr g ↦
          rw (e, f, g)
            (record {
              owner_trimmed = hp;
              repo_trimmed = hq;
              owner_given = ground arith;
              repo_given = ground arith;
              no_slash = l;
              no_wildcard = contains_byte-Lacks b'*' q g;
            })
    ]
  ]
]

read_halves-Accepts :
    (s rest : Bytes) (r : Option (Bytes × Bytes)) → IsCut s b'/' r → Accepts (read_halves rest r)
unfolding read_halves
read_halves-Accepts s rest none h = tt
read_halves-Accepts s rest (some (p, q)) (h, l) =
    check_slug-Accepts rest (trim_space p) (trim_space q) (trim_space_idem p) (trim_space_idem q)
      (trim_space-Lacks b'/' p l)

parse_slug-Accepts : (s : Bytes) → Accepts (parse_slug s)
unfolding parse_slug
parse_slug-Accepts s = elim (Bool-cases (is_nil s)) [
  | inl e ↦ rw e tt
  | inr e ↦ rw e (read_halves-Accepts s s (split_two s b'/') (split_two-IsCut s b'/'))
]

parse_repo_primary-Accepts : (s : Bytes) → Accepts (parse_repo_primary s)
unfolding parse_repo_primary
parse_repo_primary-Accepts s = elim (Bool-cases (is_nil (trim_space s))) [
  | inl e ↦ rw e tt
  | inr e ↦ elim (Bool-cases (has_prefix (to_lower (trim_space s)) org_prefix)) [
    | inl f ↦ rw (e, f) (parse_login-Accepts _ (trim_space_idem _))
    | inr f ↦ elim (Bool-cases (has_prefix (to_lower (trim_space s)) repo_prefix)) [
      | inl g ↦ rw (e, f, g) (parse_slug-Accepts _)
      | inr g ↦ rw (e, f, g) tt
    ]
  ]
]

-- Every source_spec that the parser accepts names a target: a trimmed owner that is not empty and
-- holds no slash, and exactly if all repositories are not meant a trimmed repository name, which
-- holds no wildcard.
pub parse_github_source_spec-IsTarget :
    (s : Bytes) (t : Target) (o : SourceOpts) → parse_github_source_spec s ≡ ok (t, o) → IsTarget t
unfolding parse_github_source_spec
parse_github_source_spec-IsTarget s t o h = elim (Result-cases (split_source_spec s)) [
  | inr (e, k) ↦ cc (rw k at h)
  | inl (r, k) ↦ elim (Result-cases (options_from_modifiers r.1)) [
    | inr (e, l) ↦ cc (rw (k, l) at h)
    | inl (o', l) ↦ elim (Result-cases (parse_repo_primary r.0)) [
      | inr (e, m) ↦ cc (rw (k, l, m) at h)
      | inl (t', m) ↦ target (rw (k, l, m) at h) (rw m at (parse_repo_primary-Accepts r.0))
    ]
  ]
]
  where
    target :
        {t' : Target} {o' : SourceOpts}
        → ◌≡◌ {A = Result SpecError (Target × SourceOpts)} (ok (t', o')) (ok (t, o))
        → IsTarget t'
        → IsTarget t
    target e v = subst IsTarget (ground arith) v
