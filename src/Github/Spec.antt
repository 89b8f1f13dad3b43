-- ===== src/Github/Spec.antt =====
-- services/collector-github/spec.go: the syntax of a GitHub source_spec.
pub mod Options
pub mod Sound
pub mod RoundTrip
mod Tests
use ice_hive.Prelude.{
  ℕ, Bool, true, false, ◌&&◌, ◌||◌, List, [], ◌∷◌, Option, none, some, if◌then◌else◌, length, drop,
  Result, ok, err, ◌>>=◌,
}
use ice_hive.Text.{
  Bytes, codes, is_nil, str_eq, trim_space, to_lower, has_prefix, contains_byte, contains_any,
  split, split_two,
}

pub data SpecError : Type 0 where
  empty_spec empty_primary empty_modifier missing_login missing_slug : SpecError
  modifier_not_token unknown_modifier invalid_login invalid_slug : Bytes → SpecError
  use_org_repos wildcard_repo unsupported_primary : Bytes → SpecError

pub record SourceOpts : Type 0 where
  pub dependabot : Bool
  pub prs : Bool
  pub issues : Bool
  pub packages : Bool

-- What `parseRepoPrimary` returns.
pub record Target : Type 0 where
  pub owner : Bytes
  pub repo : Bytes
  pub all_repos : Bool

abbrev pub no_opts : SourceOpts
no_opts = record { dependabot = false; prs = false; issues = false; packages = false }

abbrev pub repo_prefix : Bytes
repo_prefix = codes "repo:"

abbrev pub org_prefix : Bytes
org_prefix = codes "org.repos:"

abbrev pub blanks : Bytes
blanks = 32 ∷ 9 ∷ 10 ∷ []

-- The loop over `parts[1:]`.
read_modifiers : List Bytes → Result SpecError (List Bytes)
read_modifiers [] = ok []
read_modifiers (p ∷ ps) =
    let rest = read_modifiers ps in
    let m = trim_space p in
    if is_nil m
    then err empty_modifier
    else if contains_any m blanks
    then err (modifier_not_token m)
    else (rest >>= λ ms. ok (to_lower m ∷ ms))

unfoldable pub split_source_spec : Bytes → Result SpecError (Bytes × List Bytes)
unfolding read_modifiers
split_source_spec source_spec =
    let s = trim_space source_spec in
    let (first, others) = split s (codes " +") in
    let primary = trim_space first in
    if is_nil s
    then err empty_spec
    else if is_nil primary
    then err empty_primary
    else (read_modifiers others >>= λ ms. ok (primary, ms))

-- The `switch` on a modifier; `none` is its default case.
unfoldable pub set_option : Bytes → SourceOpts → Option SourceOpts
set_option m o =
    if str_eq m (codes "dependabot")
    then some (record o { dependabot = true })
    else if str_eq m (codes "pr")
    then some (record o { prs = true })
    else if str_eq m (codes "issue")
    then some (record o { issues = true })
    else if str_eq m (codes "packages")
    then some (record o { packages = true })
    else none

unfoldable pub seen_before : Bytes → List Bytes → Bool
seen_before m [] = false
seen_before m (n ∷ ns) = str_eq m n || seen_before m ns

-- The loop over the modifiers; `seen` is the map of those met.
set_options : List Bytes → List Bytes → SourceOpts → Result SpecError SourceOpts
set_options [] seen out = ok out
set_options (m ∷ ms) seen out = elim (seen_before m seen) [
  | true ↦ set_options ms seen out
  | false ↦ elim (set_option m out) [
    | none ↦ err (unknown_modifier m)
    | some o ↦ set_options ms (m ∷ seen) o
  ]
]

unfoldable pub options_from_modifiers : List Bytes → Result SpecError SourceOpts
unfolding set_options
options_from_modifiers ms = set_options ms [] no_opts

-- The part behind `org.repos:`.
parse_login : Bytes → Result SpecError Target
parse_login login =
    if is_nil login
    then err missing_login
    else if contains_any login (b'/' ∷ [])
    then err (invalid_login login)
    else ok (record { owner = login; repo = []; all_repos = true })

-- The tests on the two halves of a slug.
check_slug : Bytes → Bytes → Bytes → Result SpecError Target
check_slug rest owner repo =
    if is_nil owner || is_nil repo
    then err (invalid_slug rest)
    else if str_eq repo (b'*' ∷ [])
    then err (use_org_repos owner)
    else if contains_byte b'*' repo
    then err (wildcard_repo owner)
    else ok (record { owner = owner; repo = repo; all_repos = false })

-- What `SplitN(rest, "/", 2)` gave; it has one part when there is no slash.
read_halves : Bytes → Option (Bytes × Bytes) → Result SpecError Target
unfolding check_slug
read_halves rest none = err (invalid_slug rest)
read_halves rest (some (p, q)) = check_slug rest (trim_space p) (trim_space q)

-- The part behind `repo:`.
parse_slug : Bytes → Result SpecError Target
unfolding read_halves
parse_slug rest = if is_nil rest then err missing_slug else read_halves rest (split_two rest b'/')

unfoldable pub parse_repo_primary : Bytes → Result SpecError Target
unfolding parse_login parse_slug
parse_repo_primary primary =
    let s = trim_space primary in
    let lowered = to_lower s in
    if is_nil s
    then err empty_primary
    else if has_prefix lowered org_prefix
    then parse_login (trim_space (drop (length org_prefix) s))
    else if has_prefix lowered repo_prefix
    then parse_slug (trim_space (drop (length repo_prefix) s))
    else err (unsupported_primary primary)

unfoldable pub parse_github_source_spec : Bytes → Result SpecError (Target × SourceOpts)
parse_github_source_spec source_spec = split_source_spec source_spec >>= λ r.
    options_from_modifiers r.1 >>= λ o. parse_repo_primary r.0 >>= λ t. ok (t, o)
