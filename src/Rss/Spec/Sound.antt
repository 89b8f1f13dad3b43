-- ===== src/Rss/Spec/Sound.antt =====
-- What is accepted and what it gives, and how many articles it asks for.
use ice_hive.Prelude.{
  ◌≡◌, ◌⊎◌, refl, sym, ap, inl, inr, true, false, ◌&&◌, [], ◌∷◌, ◌++◌, Option, none, some, arith,
  if_both, Bool-cases, Result, ok, err, ◌>>=◌, Result-cases, length, take, drop, take-drop,
}
use mathlib.Core.Path.{subst}
use ice_hive.Prelude.Int.{ℤ, pos, ltb_ℤ, ◌≤ℤ◌}
use ice_hive.Text.{Bytes, codes, is_nil, str_eq, to_lower, trim_space, has_prefix}
use ice_hive.Text.Trim.{str_eq_iff}
use ice_hive.Text.Within.{take-word}
use ice_hive.Rss.Spec.{
  Library, Url, Fields, RssSourceSpec, Error, prefix_feed_lower, is_http, check_url, strip_feed,
  parse_feed_source_spec, plain_spec, with_max, read_fields, parse_rss_source_spec,
  effective_articles_max,
}

-- The number of articles is at least one, and at most the cap where there is one.
pub effective_articles_max_lem :
    (spec : RssSourceSpec) (yaml_cap : ℤ)
    → (pos 1 ≤ℤ effective_articles_max spec yaml_cap)
      × ((ltb_ℤ (pos 0) yaml_cap && ltb_ℤ yaml_cap (effective_articles_max spec yaml_cap)) ≡ false)
unfolding effective_articles_max
effective_articles_max_lem spec yaml_cap = (ground arith, ground arith)

-- The scheme of a web address, in whatever case and with spaces around it
abbrev pub IsWeb : Bytes → Type 0
IsWeb scheme =
    (to_lower (trim_space scheme) ≡ codes "http") ⊎ (to_lower (trim_space scheme) ≡ codes "https")

-- The address in a text without spaces at its ends: what stands behind a first `feed:`, in whatever
-- case, or else the text.
pub data IsAddress (s : Bytes) : Bytes → Type 0 where
  behind_feed : (p r : Bytes) → s ≡ p ++ r → to_lower p ≡ codes "feed:" → IsAddress s (trim_space r)
  whole : has_prefix (to_lower s) (codes "feed:") ≡ false → IsAddress s s

is_http-IsWeb : (s : Bytes) → is_http s ≡ true → IsWeb s
unfolding is_http
is_http-IsWeb s h = elim (Bool-cases (str_eq (to_lower (trim_space s)) (codes "http"))) [
  | inl e ↦ inl ((str_eq_iff (to_lower (trim_space s)) (codes "http")).0 e)
  | inr e ↦ inr ((str_eq_iff (to_lower (trim_space s)) (codes "https")).0 (rw e at h))
]

module _ (l : Library) where
  -- The text holds an address that parses as the URL of a web site, with a host; `url` is that URL's
  -- text in normal form.
  pub record IsFeed (s url : Bytes) : Type 0 where
    pub address : Bytes
    pub parsed : Url
    pub in_text : IsAddress (trim_space s) address
    pub is_parsed : l.parse_url address ≡ ok parsed
    pub web : IsWeb parsed.scheme
    pub host_given : ¬ (trim_space parsed.host ≡ [])
    pub normal : url ≡ l.nfc parsed.text

  -- The number of articles: the member of the JSON form, if it is there.
  abbrev pub HasMax : Option ℤ → RssSourceSpec → Type 0
  HasMax none spec = (spec.articles_max ≡ pos 0) × (spec.explicit_articles_max ≡ false)
  HasMax (some n) spec = (spec.articles_max ≡ n) × (spec.explicit_articles_max ≡ true)

  -- The member `feed`, or where that is blank `feed_url`
  pub data IsRaw (j : Fields) : Bytes → Type 0 where
    from_feed : ¬ (trim_space j.feed ≡ []) → IsRaw j (trim_space j.feed)
    from_feed_url :
        trim_space j.feed ≡ [] → ¬ (trim_space j.feed_url ≡ []) → IsRaw j (trim_space j.feed_url)

  -- The source_spec asks for the feed.
  pub data Asks (s : Bytes) (spec : RssSourceSpec) : Type 0 where
    as_json :
        (j : Fields) (raw : Bytes)
        → has_prefix (trim_space s) (codes "{") ≡ true
        → l.decode (trim_space s) ≡ ok j
        → IsRaw j raw
        → IsFeed raw spec.feed_url
        → HasMax j.articles_max spec
        → Asks s spec
    as_url :
        has_prefix (trim_space s) (codes "{") ≡ false
        → IsFeed (trim_space s) spec.feed_url
        → HasMax none spec
        → Asks s spec

  abbrev pub Accepts : Bytes → Result (Error l) RssSourceSpec → Type 0
  Accepts s (err e) = Unit
  Accepts s (ok spec) = Asks s spec

  abbrev AcceptsUrl : Bytes → Result (Error l) Bytes → Type 0
  AcceptsUrl s (err e) = Unit
  AcceptsUrl s (ok url) = IsFeed s url

  not_nil : (s : Bytes) → is_nil s ≡ false → ¬ (s ≡ [])
  not_nil s h e = absurd (ground (arith, h, ap is_nil e))

  nil : (s : Bytes) → is_nil s ≡ true → s ≡ []
  nil [] h = refl
  nil (c ∷ s) h = absurd (ground (arith, h))

  check_url-AcceptsUrl :
      (s t : Bytes) → IsAddress (trim_space s) t → AcceptsUrl s (check_url l s (l.parse_url t))
  unfolding check_url
  check_url-AcceptsUrl s t a = elim (Result-cases (l.parse_url t)) [
    | inr (e, q) ↦ rw q tt
    | inl (u, q) ↦ elim (Bool-cases (is_http u.scheme)) [
      | inr h ↦ rw (q, h) tt
      | inl h ↦ elim (Bool-cases (is_nil (trim_space u.host))) [
        | inl n ↦ rw (q, h, n) tt
        | inr n ↦
            rw (q, h, n)
              (record {
                address = t;
                parsed = u;
                in_text = a;
                is_parsed = q;
                web = is_http-IsWeb u.scheme h;
                host_given = not_nil (trim_space u.host) n;
                normal = refl;
              })
      ]
    ]
  ]

  strip_feed-IsAddress : (s : Bytes) → IsAddress s (strip_feed l s)
  unfolding strip_feed
  strip_feed-IsAddress s = elim (Bool-cases (has_prefix (to_lower s) prefix_feed_lower)) [
    | inr e ↦ rw e (whole e)
    | inl e ↦ rw e (
        behind_feed (take (length prefix_feed_lower) s) (drop (length prefix_feed_lower) s)
          (sym (take-drop (length prefix_feed_lower) s)) (take-word s prefix_feed_lower e))
  ]

  parse_feed_source_spec-AcceptsUrl : (s : Bytes) → AcceptsUrl s (parse_feed_source_spec l s)
  unfolding parse_feed_source_spec
  parse_feed_source_spec-AcceptsUrl s = if_both (AcceptsUrl s) (is_nil (trim_space s)) tt (
      if_both (AcceptsUrl s) (is_nil (strip_feed l (trim_space s))) tt
        (check_url-AcceptsUrl s _ (strip_feed-IsAddress (trim_space s))))

  with_max-HasMax : (m : Option ℤ) (u : Bytes) → HasMax m (with_max l m u)
  unfolding with_max
  with_max-HasMax none u = (refl, refl)
  with_max-HasMax (some n) u = (refl, refl)

  with_max-feed_url : (m : Option ℤ) (u : Bytes) → (with_max l m u).feed_url ≡ u
  unfolding with_max
  with_max-feed_url none u = refl
  with_max-feed_url (some n) u = refl

  url-Accepts :
      (s : Bytes) (r : Result (Error l) Bytes)
      → has_prefix (trim_space s) (codes "{") ≡ false
      → AcceptsUrl (trim_space s) r
      → Accepts s (r >>= λ url. ok (plain_spec l url))
  url-Accepts s (err e) h a = tt
  url-Accepts s (ok u) h a = as_url h a (refl, refl)

  raw-Accepts :
      (s raw : Bytes) (j : Fields) (r : Result (Error l) Bytes)
      → has_prefix (trim_space s) (codes "{") ≡ true
      → l.decode (trim_space s) ≡ ok j
      → IsRaw j raw
      → AcceptsUrl raw r
      → Accepts s (r >>= λ url. ok (with_max l j.articles_max url))
  raw-Accepts s raw j (err e) h q i a = tt
  raw-Accepts s raw j (ok u) h q i a =
      as_json j raw h q i (subst (IsFeed raw) (sym (with_max-feed_url j.articles_max u)) a)
        (with_max-HasMax j.articles_max u)

  json-Accepts :
      (s : Bytes) (r : Result l.Failure Fields)
      → has_prefix (trim_space s) (codes "{") ≡ true
      → l.decode (trim_space s) ≡ r
      → Accepts s (read_fields l r)
  unfolding read_fields
  json-Accepts s (err e) h q = tt
  json-Accepts s (ok j) h q = elim (Bool-cases (is_nil (trim_space j.feed))) [
    | inr e ↦
        rw (e, e)
          (raw-Accepts s (trim_space j.feed) j (parse_feed_source_spec l (trim_space j.feed)) h q
            (from_feed (not_nil (trim_space j.feed) e))
            (parse_feed_source_spec-AcceptsUrl (trim_space j.feed)))
    | inl e ↦ elim (Bool-cases (is_nil (trim_space j.feed_url))) [
      | inl f ↦ rw (e, f) tt
      | inr f ↦
          rw (e, f)
            (raw-Accepts s (trim_space j.feed_url) j
              (parse_feed_source_spec l (trim_space j.feed_url)) h q
              (from_feed_url (nil (trim_space j.feed) e) (not_nil (trim_space j.feed_url) f))
              (parse_feed_source_spec-AcceptsUrl (trim_space j.feed_url)))
    ]
  ]

  -- A source_spec that is accepted asks for the feed that it gives. Where it begins with a brace, it
  -- decodes as JSON, and the address stands in the member `feed`, or where that is blank in
  -- `feed_url`; the number of articles is the member's, if it is there. Else the address stands in
  -- the text. The address, behind a first `feed:` if there is one, parses as a URL with the scheme
  -- http or https and a host, and the feed's URL is its text in normal form.
  pub parse_rss_source_spec-Accepts : (s : Bytes) → Accepts s (parse_rss_source_spec l s)
  unfolding parse_rss_source_spec
  parse_rss_source_spec-Accepts s =
      if_both (Accepts s) (is_nil (trim_space s)) tt
        (elim (Bool-cases (has_prefix (trim_space s) (codes "{"))) [
          | inl e ↦ rw e (json-Accepts s (l.decode (trim_space s)) e refl)
          | inr e ↦ rw e (
              url-Accepts s (parse_feed_source_spec l (trim_space s)) e
                (parse_feed_source_spec-AcceptsUrl (trim_space s)))
        ])
