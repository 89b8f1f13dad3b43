-- ===== src/Github/Spec/RoundTrip.antt =====
-- Specs as the source schema's value templates spell them, and what the parser makes of them.
use ice_hive.Prelude.{
  ◌≡◌, ◌≢◌, refl, true, false, List, [], ◌∷◌, ◌++◌, append-nil, map, arith, ok, none, All-append,
}
use ice_hive.Text.{
  Bytes, codes, str_eq, is_space, trim, trim_left, trim_right, trim_space, lower, to_lower,
  has_prefix, contains_byte, contains_any, split, split_from,
}
use ice_hive.Text.Trim.{
  NoSpace, Lacks, trim_right-append, trim_right_of_All, trim_space_of_NoSpace, Lacks-contains_byte,
  ne_nil→is_nil, Lacks-contains_any,
}
use ice_hive.Text.Parts.{plus, split_from-append, split_from_at_plus, split_two-append}
use ice_hive.Github.Spec.{
  no_opts, repo_prefix, org_prefix, read_modifiers, split_source_spec, options_from_modifiers,
  parse_login, parse_slug, parse_repo_primary, parse_github_source_spec,
}
use ice_hive.Github.Spec.Options.{first_unknown, options_from_modifiers_lem, join_opts}

-- The modifiers that a source schema offers.
pub data Modifier : Type 0 where
  dependabot pr issue packages : Modifier

abbrev pub word : Modifier → Bytes
word dependabot = codes "dependabot"
word pr = codes "pr"
word issue = codes "issue"
word packages = codes "packages"

abbrev pub render_modifiers : List Modifier → Bytes
render_modifiers [] = []
render_modifiers (m ∷ ms) = plus ++ (word m ++ render_modifiers ms)

-- `repo:{owner}/{name}` and `org.repos:{login}`, with the modifiers behind.
abbrev pub render_repo : Bytes → Bytes → List Modifier → Bytes
render_repo owner repo ms = (repo_prefix ++ (owner ++ b'/' ∷ repo)) ++ render_modifiers ms

abbrev pub render_org : Bytes → List Modifier → Bytes
render_org login ms = (org_prefix ++ login) ++ render_modifiers ms

word-NoSpace : (m : Modifier) → NoSpace (word m)
unfolding is_space
word-NoSpace dependabot = ground arith
word-NoSpace pr = ground arith
word-NoSpace issue = ground arith
word-NoSpace packages = ground arith

NoSpace-Lacks : (s : Bytes) → NoSpace s → Lacks 32 s
unfolding is_space
NoSpace-Lacks [] h = tt
NoSpace-Lacks (c ∷ s) (hc, hs) = (ground arith, NoSpace-Lacks s hs)

ne-nil-append : (s t : Bytes) → s ≢ [] → s ++ t ≢ []
ne-nil-append [] t h = absurd (h refl)
ne-nil-append (c ∷ s) t h = λ e. cc

word-ne-nil : (m : Modifier) (s : Bytes) → word m ++ s ≢ []
word-ne-nil dependabot s = λ e. cc
word-ne-nil pr s = λ e. cc
word-ne-nil issue s = λ e. cc
word-ne-nil packages s = λ e. cc

trim_right-render :
    (p : Bytes) (ms : List Modifier)
    → NoSpace p
    → trim_right is_space (p ++ render_modifiers ms) ≡ p ++ render_modifiers ms
trim_right-render p [] h = rw append-nil (trim_right_of_All is_space p h)
trim_right-render p (m ∷ ms) h =
    trim_right-append is_space p (plus ++ (word m ++ render_modifiers ms)) (λ e. cc)
      (trim_right-append is_space plus (word m ++ render_modifiers ms) (word-ne-nil m _)
        (trim_right-render (word m) ms (word-NoSpace m)))

split-render :
    (p : Bytes) (ms : List Modifier)
    → NoSpace p
    → split_from plus 0 (p ++ render_modifiers ms) ≡ (p, map word ms)
split-render p [] h =
    rw (split_from-append p [] (NoSpace-Lacks p h)) (unfold split_from in rw append-nil)
split-render p (m ∷ ms) h =
    rw
      (
        split_from-append p (render_modifiers (m ∷ ms)) (NoSpace-Lacks p h),
        split_from_at_plus (word m ++ render_modifiers ms),
        split-render (word m) ms (word-NoSpace m),
      )
      (rw append-nil)

read_modifiers-words : (ms : List Modifier) → read_modifiers (map word ms) ≡ ok (map word ms)
unfolding read_modifiers is_space trim_space trim trim_left trim_right contains_any contains_byte
    to_lower lower
read_modifiers-words [] = refl
read_modifiers-words (dependabot ∷ ms) = rw (read_modifiers-words ms)
read_modifiers-words (pr ∷ ms) = rw (read_modifiers-words ms)
read_modifiers-words (issue ∷ ms) = rw (read_modifiers-words ms)
read_modifiers-words (packages ∷ ms) = rw (read_modifiers-words ms)

trim_space-render :
    (p : Bytes) (ms : List Modifier)
    → NoSpace p
    → p ≢ []
    → trim_space (p ++ render_modifiers ms) ≡ p ++ render_modifiers ms
unfolding trim_space trim trim_left
trim_space-render [] ms h n = absurd (n refl)
trim_space-render (c ∷ p) ms h n = rw h.0 (trim_right-render (c ∷ p) ms h)

-- The text before the modifiers is the primary part.
split_source_spec-render :
    (p : Bytes) (ms : List Modifier)
    → NoSpace p
    → p ≢ []
    → split_source_spec (p ++ render_modifiers ms) ≡ ok (p, map word ms)
unfolding split_source_spec split
split_source_spec-render p ms h n = rw (
  trim_space-render p ms h n,
  split-render p ms h,
  trim_space_of_NoSpace p h,
  read_modifiers-words ms,
  ne_nil→is_nil p n,
  ne_nil→is_nil (p ++ render_modifiers ms) (ne-nil-append p (render_modifiers ms) n),
)

first_unknown-words : (ms : List Modifier) → first_unknown (map word ms) ≡ none
unfolding str_eq
first_unknown-words [] = refl
first_unknown-words (dependabot ∷ ms) = first_unknown-words ms
first_unknown-words (pr ∷ ms) = first_unknown-words ms
first_unknown-words (issue ∷ ms) = first_unknown-words ms
first_unknown-words (packages ∷ ms) = first_unknown-words ms

options-words :
    (ms : List Modifier)
    → options_from_modifiers (map word ms) ≡ ok (join_opts (map word ms) no_opts)
options-words ms = rw (options_from_modifiers_lem (map word ms), first_unknown-words ms)

-- A name as GitHub allows: not empty, no space.
abbrev pub IsName : Bytes → Type 0
IsName s = NoSpace s × (s ≢ [])

slug-NoSpace : (owner repo : Bytes) → NoSpace owner → NoSpace repo → NoSpace (owner ++ b'/' ∷ repo)
slug-NoSpace owner repo ho hr = All-append _ owner (b'/' ∷ repo) ho (unfold is_space in refl, hr)

repo-NoSpace : (s : Bytes) → NoSpace s → NoSpace (repo_prefix ++ s)
unfolding is_space
repo-NoSpace s h = ground arith

org-NoSpace : (s : Bytes) → NoSpace s → NoSpace (org_prefix ++ s)
unfolding is_space
org-NoSpace s h = ground arith

star-ne : (s : Bytes) → Lacks b'*' s → str_eq s (b'*' ∷ []) ≡ false
unfolding str_eq
star-ne [] h = refl
star-ne (c ∷ s) (hc, hs) = rw hc

parse_slug-slug :
    (owner repo : Bytes)
    → IsName owner
    → IsName repo
    → Lacks b'/' owner
    → Lacks b'*' repo
    → parse_slug (owner ++ b'/' ∷ repo)
      ≡ ok (record { owner = owner; repo = repo; all_repos = false })
unfolding parse_slug
parse_slug-slug owner repo ho hr lo lr = rw (
  ne_nil→is_nil (owner ++ b'/' ∷ repo) (ne-nil-append owner (b'/' ∷ repo) ho.1),
  split_two-append owner repo b'/' lo,
  trim_space_of_NoSpace owner ho.0,
  trim_space_of_NoSpace repo hr.0,
  ne_nil→is_nil owner ho.1,
  ne_nil→is_nil repo hr.1,
  star-ne repo lr,
  Lacks-contains_byte b'*' repo lr,
)

parse_repo_primary-repo :
    (s : Bytes) → NoSpace s → parse_repo_primary (repo_prefix ++ s) ≡ parse_slug s
unfolding parse_repo_primary to_lower lower has_prefix
parse_repo_primary-repo s h =
    rw (trim_space_of_NoSpace (repo_prefix ++ s) (repo-NoSpace s h), trim_space_of_NoSpace s h)

parse_repo_primary-org :
    (s : Bytes) → NoSpace s → parse_repo_primary (org_prefix ++ s) ≡ parse_login s
unfolding parse_repo_primary to_lower lower has_prefix
parse_repo_primary-org s h =
    rw (trim_space_of_NoSpace (org_prefix ++ s) (org-NoSpace s h), trim_space_of_NoSpace s h)

-- A spec of one repository, written as the source schema's template says with any list of
-- modifiers, is parsed to that owner, that repository and exactly those options, if both names are
-- non-empty and without spaces, the owner has no slash and the repository no star.
pub parse-render_repo :
    (owner repo : Bytes) (ms : List Modifier)
    → IsName owner
    → IsName repo
    → Lacks b'/' owner
    → Lacks b'*' repo
    → parse_github_source_spec (render_repo owner repo ms)
      ≡ ok (
        record { owner = owner; repo = repo; all_repos = false },
        join_opts (map word ms) no_opts,
      )
unfolding parse_github_source_spec
parse-render_repo owner repo ms ho hr lo lr =
    let slug = slug-NoSpace owner repo ho.0 hr.0 in
    rw (
      split_source_spec-render (repo_prefix ++ (owner ++ b'/' ∷ repo)) ms (repo-NoSpace _ slug)
          (λ e. cc),
      options-words ms,
      parse_repo_primary-repo (owner ++ b'/' ∷ repo) slug,
      parse_slug-slug owner repo ho hr lo lr,
    )

-- A spec of all repositories of a login is parsed to that login and exactly its options, if the
-- login is non-empty, without spaces and without a slash.
pub parse-render_org :
    (login : Bytes) (ms : List Modifier)
    → IsName login
    → Lacks b'/' login
    → parse_github_source_spec (render_org login ms)
      ≡ ok (record { owner = login; repo = []; all_repos = true }, join_opts (map word ms) no_opts)
unfolding parse_github_source_spec parse_login
parse-render_org login ms h l = rw (
  split_source_spec-render (org_prefix ++ login) ms (org-NoSpace login h.0) (λ e. cc),
  options-words ms,
  parse_repo_primary-org login h.0,
  ne_nil→is_nil login h.1,
  Lacks-contains_any b'/' login l,
)
