-- ===== src/Github/IssueCache/Publish.antt =====
-- What a merge publishes: exactly the issues that the cache does not know, or knows differently.
use ice_hive.Prelude.{
  ℕ, ◌+◌, ◌≡◌, refl, sym, ap, ◌∙◌, inl, inr, Bool, true, false, not, ◌&&◌, ◌||◌, List, [], ◌∷◌,
  ◌++◌, append_assoc, append-nil, Option, none, some, arith, if◌then◌else◌, Bool-cases, All, length,
  if_both, ◌==◌,
}
use ice_hive.Text.{Bytes, is_nil, str_eq}
use ice_hive.Text.Trim.{str_eq_refl, str_eq_iff}
use ice_hive.Dict.{Dict, lookup, lookup-insert, lookup-insert_self}
use ice_hive.Github.IssueCache.{
  Library, Entry, CacheFile, Merge, source_unique_id, updated_at_text, is_current, merge_new,
  refresh_latest_issue_marker, with_marker, cached_issues, merge_known, merge_one, merge_all,
  merge_issue_cache,
}

module _ (l : Library) (uid : Bytes) where
  open l use {Issue, Raw}

  abbrev pub marshals : Option Raw → Bool
  marshals none = false
  marshals (some r) = true

  -- The id that an issue is kept under; none for a nil issue and a pull request.
  abbrev pub key : Option Issue → Bytes
  key none = []
  key (some i) = if l.is_pull_request i then [] else source_unique_id l uid i

  abbrev pub text_of : Option Issue → Bytes
  text_of none = []
  text_of (some i) = updated_at_text l i

  abbrev pub encodes : Option Issue → Bool
  encodes none = false
  encodes (some i) = marshals (l.marshal i)

  -- The issue has an id that these entries do not have with its time, and it can be encoded.
  unfoldable pub is_news : Dict (Entry l) → Option Issue → Bool
  is_news d f =
      not (is_nil (key f)) && (not (is_current l (lookup (key f) d) (text_of f)) && encodes f)

  unfoldable pub is_known : Dict (Entry l) → Option Issue → Bool
  is_known d f = not (is_nil (key f)) && is_current l (lookup (key f) d) (text_of f)

  abbrev pub issue_list : Option Issue → List Issue
  issue_list none = []
  issue_list (some i) = i ∷ []

  -- The news of a list, and how many of it are known.
  unfoldable pub news : Dict (Entry l) → List (Option Issue) → List Issue
  news d [] = []
  news d (f ∷ fs) = (if is_news d f then issue_list f else []) ++ news d fs

  unfoldable pub known : Dict (Entry l) → List (Option Issue) → ℕ
  known d [] = 0
  known d (f ∷ fs) = (if is_known d f then 1 else 0) + known d fs

  -- Two issues are not kept under one id.
  abbrev pub Apart : Option Issue → Option Issue → Type 0
  Apart f g = (is_nil (key f) || not (str_eq (key f) (key g))) ≡ true

  abbrev pub OnceEach : List (Option Issue) → Type 0
  OnceEach [] = Unit
  OnceEach (f ∷ fs) = All (Apart f) fs × OnceEach fs

  -- What one turn of the loop does.
  record Turn (m : Merge l) (f : Option Issue) : Type 0 where
    pub publishes :
        (merge_one l uid m f).to_publish
        ≡ m.to_publish ++ (if is_news m.issues f then issue_list f else [])
    pub skips : (merge_one l uid m f).skipped ≡ m.skipped + (if is_known m.issues f then 1 else 0)
    pub leaves :
        (g : Option Issue)
        → Apart f g
        → lookup (key g) (merge_one l uid m f).issues ≡ lookup (key g) m.issues
    pub settles : is_news (merge_one l uid m f).issues f ≡ false

  leaves_new :
      (m : Merge l) (i : Issue) (id updated : Bytes) (raw : Option Raw) (k : Bytes)
      → str_eq id k ≡ false
      → lookup k (merge_new l m i id updated raw).issues ≡ lookup k m.issues
  unfolding merge_new
  leaves_new m i id updated none k h = refl
  leaves_new m i id updated (some raw) k h = lookup-insert id k _ m.issues ∙ ground (arith, h)

  -- Once it is merged, an issue that can be encoded is known.
  settles_new :
      (m : Merge l) (i : Issue) (id updated : Bytes) (raw : Option Raw)
      → marshals raw ≡ true
      → is_current l (lookup id (merge_new l m i id updated raw).issues) updated ≡ true
  unfolding merge_new is_current
  settles_new m i id updated none h = absurd (ground (arith, h))
  settles_new m i id updated (some raw) h =
      ap (λ o. is_current l o updated) (lookup-insert_self id _ m.issues) ∙ str_eq_refl updated

  publishes_new :
      (m : Merge l) (i : Issue) (id updated : Bytes) (raw : Option Raw)
      → (merge_new l m i id updated raw).to_publish
        ≡ m.to_publish ++ (if marshals raw then i ∷ [] else [])
  unfolding merge_new
  publishes_new m i id updated none = sym (append-nil m.to_publish)
  publishes_new m i id updated (some raw) = refl

  skips_new :
      (m : Merge l) (i : Issue) (id updated : Bytes) (raw : Option Raw)
      → (merge_new l m i id updated raw).skipped ≡ m.skipped
  unfolding merge_new
  skips_new m i id updated none = refl
  skips_new m i id updated (some raw) = refl

  turn : (m : Merge l) (f : Option Issue) → Turn m f
  unfolding merge_one merge_known is_news is_known is_current
  turn m none = record {
    publishes = sym (append-nil m.to_publish);
    skips = omega arith;
    leaves = λ g a. refl;
    settles = refl;
  }
  turn m (some i) =
      let id = source_unique_id l uid i in
      let up = updated_at_text l i in
      let raw = l.marshal i in
      record {
        publishes = ground (arith, append-nil m.to_publish, publishes_new m i id up raw);
        skips = ground (arith, skips_new m i id up raw);
        leaves = λ g a. ground (arith, a, leaves_new m i id up raw (key g));
        settles = ground (arith, settles_new m i id up raw);
      }

  -- Two sets of entries that agree on the keys of a list.
  Agree : Dict (Entry l) → Dict (Entry l) → List (Option Issue) → Type 0
  Agree d e fs = All (λ g. lookup (key g) d ≡ lookup (key g) e) fs

  news_same :
      (d e : Dict (Entry l)) (fs : List (Option Issue))
      → Agree d e fs
      → (news d fs ≡ news e fs) × (known d fs ≡ known e fs)
  unfolding Agree news known is_news is_known
  news_same d e [] a = (refl, refl)
  news_same d e (f ∷ fs) (h, a) =
      let (n, k) = news_same d e fs a in (rw (h, n) refl, rw (h, k) refl)

  others_stay :
      (m : Merge l) (f : Option Issue) (fs : List (Option Issue))
      → All (Apart f) fs
      → Agree (merge_one l uid m f).issues m.issues fs
  unfolding Agree
  others_stay m f [] a = tt
  others_stay m f (g ∷ fs) (h, a) = ((turn m f).leaves g h, others_stay m f fs a)

  merge_all_lem :
      (m : Merge l) (fs : List (Option Issue))
      → OnceEach fs
      → ((merge_all l uid m fs).to_publish ≡ m.to_publish ++ news m.issues fs)
        × ((merge_all l uid m fs).skipped ≡ m.skipped + known m.issues fs)
  unfolding merge_all news known
  merge_all_lem m [] h = (sym (append-nil m.to_publish), omega arith)
  merge_all_lem m (f ∷ fs) (a, h) =
      let m' = merge_one l uid m f in
      let t = turn m f in
      let (p, s) = merge_all_lem m' fs h in
      let (n, k) = news_same m'.issues m.issues fs (others_stay m f fs a) in
      (p ∙ rw (t.publishes, n) (append_assoc m.to_publish _ _), omega (arith, s, t.skips, k))

  Apart-sym : (f g : Option Issue) → is_nil (key f) ≡ false → Apart f g → Apart g f
  Apart-sym f g n h = ground (arith, str_eq_iff (key f) (key g), str_eq_iff (key g) (key f))

  -- The rest of the list does not touch the entry of an issue before it.
  rest_leaves :
      (m : Merge l) (f : Option Issue) (fs : List (Option Issue))
      → is_nil (key f) ≡ false
      → All (Apart f) fs
      → lookup (key f) (merge_all l uid m fs).issues ≡ lookup (key f) m.issues
  unfolding merge_all
  rest_leaves m f [] n a = refl
  rest_leaves m f (g ∷ fs) n (h, a) =
      rest_leaves (merge_one l uid m g) f fs n a ∙ (turn m g).leaves f (Apart-sym f g n h)

  no_news_without_key :
      (d : Dict (Entry l)) (f : Option Issue) → is_nil (key f) ≡ true → is_news d f ≡ false
  unfolding is_news
  no_news_without_key d f h = ground (arith, h)

  is_news_same :
      (d e : Dict (Entry l)) (f : Option Issue)
      → lookup (key f) d ≡ lookup (key f) e
      → is_news d f ≡ is_news e f
  unfolding is_news
  is_news_same d e f h = rw h refl

  each_settled :
      (m : Merge l) (fs : List (Option Issue))
      → OnceEach fs
      → All (λ f. is_news (merge_all l uid m fs).issues f ≡ false) fs
  unfolding merge_all
  each_settled m [] h = tt
  each_settled m (f ∷ fs) (a, h) =
      let m' = merge_one l uid m f in
      let d = (merge_all l uid m' fs).issues in
      let own : is_news d f ≡ false = elim (Bool-cases (is_nil (key f))) [
        | inl e ↦ no_news_without_key d f e
        | inr e ↦ is_news_same d m'.issues f (rest_leaves m' f fs e a) ∙ (turn m f).settles
      ] in
      (own, each_settled m' fs h)

  no_news :
      (d : Dict (Entry l)) (fs : List (Option Issue))
      → All (λ f. is_news d f ≡ false) fs
      → news d fs ≡ []
  unfolding news
  no_news d [] h = refl
  no_news d (f ∷ fs) (e, h) = rw (e, no_news d fs h) refl

  marker-issues : (c : CacheFile l) → (refresh_latest_issue_marker l c).issues ≡ c.issues
  unfolding refresh_latest_issue_marker with_marker
  marker-issues c =
      if_both {A = CacheFile l} (λ x. x.issues ≡ c.issues) (length c.issues == 0) refl refl

  -- A merge of issues that each stand once publishes exactly those that the old cache does not have
  -- with their time, in their order, and counts the ones that it has as skipped; by the new cache
  -- none of them is news.
  pub merge_issue_cache_lem :
      (cache : Option (CacheFile l)) (fetched : List (Option Issue))
      → OnceEach fetched
      → ((merge_issue_cache l cache fetched uid).0 ≡ news (cached_issues l cache) fetched)
        × ((merge_issue_cache l cache fetched uid).2 ≡ known (cached_issues l cache) fetched)
        × (news (merge_issue_cache l cache fetched uid).1.issues fetched ≡ [])
  unfolding merge_issue_cache
  merge_issue_cache_lem cache fetched h =
      let start : Merge l = record {
        to_publish = [];
        issues = cached_issues l cache;
        skipped = 0;
      } in
      let (p, s) = merge_all_lem start fetched h in
      (p, omega (arith, s), rw (marker-issues _) (no_news _ fetched (each_settled start fetched h)))
