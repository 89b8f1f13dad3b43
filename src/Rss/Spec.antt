-- ===== src/Rss/Spec.antt =====
-- services/collector-rss/spec.go and rss_spec.go: the source_spec of a feed, as JSON or as a URL,
-- and how many articles of it are published.
pub mod Sound
mod Tests
use ice_hive.Prelude.{
  ℕ, Bool, true, false, not, ◌&&◌, ◌||◌, [], ◌∷◌, ◌++◌, Option, none, some, if◌then◌else◌, Result,
  ok, err, ◌>>=◌, drop, length,
}
use ice_hive.Prelude.Int.{ℤ, pos, ltb_ℤ, leb_ℤ}
use ice_hive.Text.{Bytes, codes, is_nil, str_eq, trim_space, to_lower, has_prefix}

abbrev pub default_articles_max : ℤ
default_articles_max = pos 25

abbrev pub prefix_feed_lower : Bytes
prefix_feed_lower = codes "feed:"

pub record RssSourceSpec : Type 0 where
  pub feed_url : Bytes
  pub articles_max : ℤ
  pub explicit_articles_max : Bool

-- A parsed URL: its scheme, its host, and what its String returns.
pub record Url : Type 0 where
  pub scheme : Bytes
  pub host : Bytes
  pub text : Bytes

-- The members of the JSON form that are read.
pub record Fields : Type 0 where
  pub articles_max : Option ℤ
  pub feed : Bytes
  pub feed_url : Bytes

-- net/url, encoding/json and x/text.
pub record Library : Type 1 where
  pub Failure : Type 0
  pub parse_url : Bytes → Result Failure Url
  pub decode : Bytes → Result Failure Fields
  pub nfc : Bytes → Bytes

unfoldable pub is_http : Bytes → Bool
is_http s =
    let scheme = to_lower (trim_space s) in
    str_eq scheme (codes "http") || str_eq scheme (codes "https")

module _ (l : Library) where
  open l use {Failure}

  pub data Error : Type 0 where
    empty_source_spec missing_url missing_feed : Error
    invalid_url invalid_json : Failure → Error
    bad_scheme missing_host : Bytes → Error

  -- What is left behind an optional `feed:`.
  unfoldable pub strip_feed : Bytes → Bytes
  strip_feed s =
      if has_prefix (to_lower s) prefix_feed_lower
      then trim_space (drop (length prefix_feed_lower) s)
      else s

  check_url : Bytes → Result Failure Url → Result Error Bytes
  check_url spec (err e) = err (invalid_url e)
  check_url spec (ok u) =
      if not (is_http u.scheme)
      then err (bad_scheme u.scheme)
      else if is_nil (trim_space u.host)
      then err (missing_host spec)
      else ok (l.nfc u.text)

  unfoldable pub parse_feed_source_spec : Bytes → Result Error Bytes
  unfolding check_url
  parse_feed_source_spec spec =
      let s = trim_space spec in
      let t = strip_feed s in
      if is_nil s
      then err empty_source_spec
      else if is_nil t
      then err missing_url
      else check_url spec (l.parse_url t)

  abbrev plain_spec : Bytes → RssSourceSpec
  plain_spec url = record { feed_url = url; articles_max = pos 0; explicit_articles_max = false }

  with_max : Option ℤ → Bytes → RssSourceSpec
  with_max none url = plain_spec url
  with_max (some n) url = record { feed_url = url; articles_max = n; explicit_articles_max = true }

  read_fields : Result Failure Fields → Result Error RssSourceSpec
  unfolding with_max
  read_fields (err e) = err (invalid_json e)
  read_fields (ok j) =
      let raw = if is_nil (trim_space j.feed) then trim_space j.feed_url else trim_space j.feed in
      if is_nil raw
      then err missing_feed
      else parse_feed_source_spec raw >>= λ url. ok (with_max j.articles_max url)

  unfoldable pub parse_rss_source_spec : Bytes → Result Error RssSourceSpec
  unfolding read_fields
  parse_rss_source_spec source_spec =
      let s = trim_space source_spec in
      if is_nil s
      then err empty_source_spec
      else if has_prefix s (b'{' ∷ [])
      then read_fields (l.decode s)
      else parse_feed_source_spec s >>= λ url. ok (plain_spec url)

unfoldable pub effective_articles_max : RssSourceSpec → ℤ → ℤ
effective_articles_max spec yaml_cap =
    let n = if leb_ℤ spec.articles_max (pos 0) then default_articles_max else spec.articles_max in
    let capped = ltb_ℤ (pos 0) yaml_cap in
    if spec.explicit_articles_max
    then if capped && ltb_ℤ yaml_cap n then yaml_cap else n
    else if capped
    then yaml_cap
    else default_articles_max
