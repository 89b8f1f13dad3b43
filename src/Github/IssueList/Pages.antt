-- ===== src/Github/IssueList/Pages.antt =====
-- What comes of the pages: the first issues of all of them together.
use ice_hive.Prelude.{
  if◌then◌else◌, ℕ, zero, suc, ◌<◌, ◌≤◌, ◌≡◌, refl, sym, ap, ◌∙◌, inl, inr, Bool, true, false, List,
  [], ◌∷◌, ◌++◌, append-nil, append_assoc, Option, none, some, arith, leb, ◌⊎◌, ◌==◌, Bool-cases,
  Result, ok, length, length-append, take, take_all,
}
use ice_hive.Text.{Bytes}
use ice_hive.Github.IssueCache.{Library, Time}
use ice_hive.Github.IssueCache.Collect.{Snapshot}
use ice_hive.Github.IssueList.{
  max_issues_fetch, Cursor, after, page, Options, Page, next_cursor, add_issues, listed,
  after_response, after_page, after_call, fetch_pages, fetch_issues_for_repo_since,
}

take_prefix {ℓ} : {A : Type ℓ} (n : ℕ) (xs ys : List A) → length xs ≡ n → take n (xs ++ ys) ≡ xs
take_prefix zero [] ys h = refl
take_prefix zero (x ∷ xs) ys h = absurd (omega arith)
take_prefix (suc n) [] ys h = absurd (omega arith)
take_prefix (suc n) (x ∷ xs) ys h = ap (◌∷◌ x) (take_prefix n xs ys (omega arith))

module _ (l : Library) where
  open l use {Issue}

  -- A pull request or a nil issue is passed over.
  unfoldable pub eligible : Option Issue → List Issue
  eligible none = []
  eligible (some i) = if l.is_pull_request i then [] else i ∷ []

  -- The issues of a page that are no pull requests, and those of a list of pages.
  unfoldable pub issues_of : List (Option Issue) → List Issue
  issues_of [] = []
  issues_of (f ∷ fs) = eligible f ++ issues_of fs

  unfoldable pub all_issues : List (List (Option Issue)) → List Issue
  all_issues [] = []
  all_issues (p ∷ ps) = issues_of p ++ all_issues ps

  -- The first issues, up to the cap, and whether there are as many.
  abbrev pub capped_to : ℕ → List Issue → List Issue × Bool
  capped_to n xs = (take n xs, leb n (length xs))

  capped_stop : (n : ℕ) (xs ys : List Issue) → length xs ≡ n → (xs, true) ≡ capped_to n (xs ++ ys)
  capped_stop n xs ys h =
      let t = take_prefix n xs ys h in
      rw t (ap (λ b. (xs, b)) (ground (arith, h, length-append xs ys)))

  below_cap : (n : ℕ) (xs : List Issue) → length xs < n → (xs, false) ≡ capped_to n xs
  below_cap n xs h = rw (take_all n xs (omega arith)) (ap (λ b. (xs, b)) (ground (arith, h)))

  -- Behind a stop at the cap nothing counts.
  capped_stays :
      (n : ℕ) (xs ys : List Issue)
      → leb n (length xs) ≡ true
      → (take n xs, true) ≡ capped_to n (xs ++ ys)
  capped_stays zero xs ys h = ap (λ b. ([], b)) (ground arith)
  capped_stays (suc n) [] ys h = absurd (ground (arith, h))
  capped_stays (suc n) (x ∷ xs) ys h =
      let r = capped_stays n xs ys (ground (arith, h)) in
      ap (λ q. (x ∷ q.0, q.1)) r ∙ ap (λ b. (x ∷ take n (xs ++ ys), b)) (ground arith)

  add_issues_lem :
      (all : List Issue) (fs : List (Option Issue))
      → length all < max_issues_fetch
      → add_issues l all fs ≡ capped_to max_issues_fetch (all ++ issues_of fs)
  unfolding add_issues issues_of eligible
  add_issues_lem all [] h = rw (append-nil all) (below_cap max_issues_fetch all h)
  add_issues_lem all (none ∷ fs) h = add_issues_lem all fs h
  add_issues_lem all (some i ∷ fs) h = elim (Bool-cases (l.is_pull_request i)) [
    | inl e ↦ rw e (add_issues_lem all fs h)
    | inr e ↦ elim (Bool-cases (leb max_issues_fetch (length (all ++ i ∷ [])))) [
      | inl c ↦
          rw (e, c)
            (capped_stop max_issues_fetch (all ++ i ∷ []) (issues_of fs)
                (ground (arith, c, h, length-append all (i ∷ [])))
              ∙ ap (capped_to max_issues_fetch) (append_assoc all (i ∷ []) (issues_of fs)))
      | inr c ↦
          rw (e, c)
            (add_issues_lem (all ++ i ∷ []) fs (ground (arith, c))
              ∙ ap (capped_to max_issues_fetch) (append_assoc all (i ∷ []) (issues_of fs)))
    ]
  ]

  -- The API's answers, from one request on to the last page; these are their issues.
  pub data Chain (api : Options → Result Bytes (Page l))
      : Options → List (List (Option Issue)) → Type 0 where
    last :
        (o : Options) (p : Page l)
        → api o ≡ ok p
        → (p.response ≡ none) ⊎ (p.response ≡ some ([], 0))
        → Chain api o (p.issues ∷ [])
    by_token :
        (o : Options) (p : Page l) (c : ℕ) (cs : Bytes) (n : ℕ) (ps : List (List (Option Issue)))
        → api o ≡ ok p
        → p.response ≡ some (c ∷ cs, n)
        → Chain api (record o { cursor = after (c ∷ cs) }) ps
        → Chain api o (p.issues ∷ ps)
    by_number :
        (o : Options) (p : Page l) (n : ℕ) (ps : List (List (Option Issue)))
        → api o ≡ ok p
        → p.response ≡ some ([], n)
        → (n == 0) ≡ false
        → Chain api (record o { cursor = page n }) ps
        → Chain api o (p.issues ∷ ps)

  next_none : (r : Option (Bytes × ℕ)) → (r ≡ none) ⊎ (r ≡ some ([], 0)) → next_cursor l r ≡ none
  unfolding next_cursor
  next_none r (inl e) = rw e refl
  next_none r (inr e) = rw e refl

  next_token :
      (r : Option (Bytes × ℕ)) (c : ℕ) (cs : Bytes) (n : ℕ)
      → r ≡ some (c ∷ cs, n)
      → next_cursor l r ≡ some (after (c ∷ cs))
  unfolding next_cursor
  next_token r c cs n e = rw e refl

  next_number :
      (r : Option (Bytes × ℕ)) (n : ℕ)
      → r ≡ some ([], n)
      → (n == 0) ≡ false
      → next_cursor l r ≡ some (page n)
  unfolding next_cursor
  next_number r n e z = rw (e, z) refl

  abbrev pub snapshot_of : List Issue × Bool → Snapshot l
  snapshot_of r = listed l r.0 r.1

  step :
      (api : Options → Result Bytes (Page l)) (n : ℕ) (o : Options) (all : List Issue) (p : Page l)
      → api o ≡ ok p
      → length all < max_issues_fetch
      → fetch_pages l api (suc n) o all
        ≡ after_page l
            (fetch_pages l api n)
            o
            (next_cursor l p.response)
            (capped_to max_issues_fetch (all ++ issues_of p.issues))
  unfolding fetch_pages after_call
  step api n o all p e h =
      let below : leb max_issues_fetch (length all) ≡ false = ground (arith, h) in
      rw (below, e)
        (ap (after_page l (fetch_pages l api n) o (next_cursor l p.response))
          (add_issues_lem all p.issues h))

  ending :
      (k : Options → List Issue → Option (Snapshot l)) (o : Options) (xs : List Issue)
      (next : Option Cursor)
      → next ≡ none
      → after_page l k o next (capped_to max_issues_fetch xs)
        ≡ some (snapshot_of (capped_to max_issues_fetch xs))
  unfolding after_page after_response
  ending k o xs next e = elim (Bool-cases (leb max_issues_fetch (length xs))) [
    | inl c ↦ rw (e, c) refl
    | inr c ↦ rw (e, c) refl
  ]

  going_on :
      (k : Options → List Issue → Option (Snapshot l)) (o : Options) (c : Cursor)
      (xs ys : List Issue) (next : Option Cursor)
      → next ≡ some c
      → (length xs < max_issues_fetch
          → k (record o { cursor = c }) xs
            ≡ some (snapshot_of (capped_to max_issues_fetch (xs ++ ys))))
      → after_page l k o next (capped_to max_issues_fetch xs)
        ≡ some (snapshot_of (capped_to max_issues_fetch (xs ++ ys)))
  unfolding after_page after_response
  going_on k o c xs ys next e rest = elim (Bool-cases (leb max_issues_fetch (length xs))) [
    | inl full ↦
        rw (e, full) (ap (λ r. some (snapshot_of r)) (capped_stays max_issues_fetch xs ys full))
    | inr room ↦
        let small : length xs < max_issues_fetch = ground (arith, room) in
        rw (e, room, take_all max_issues_fetch xs (omega arith)) (rest small)
  ]

  -- A page that names another one.
  turn :
      (api : Options → Result Bytes (Page l)) (n : ℕ) (o : Options) (all : List Issue) (p : Page l)
      (c : Cursor) (ps : List (List (Option Issue)))
      → api o ≡ ok p
      → next_cursor l p.response ≡ some c
      → length all < max_issues_fetch
      → (length (all ++ issues_of p.issues) < max_issues_fetch
          → fetch_pages l api n (record o { cursor = c }) (all ++ issues_of p.issues)
            ≡ some (
                snapshot_of
                  (capped_to max_issues_fetch ((all ++ issues_of p.issues) ++ all_issues ps))))
      → fetch_pages l api (suc n) o all
        ≡ some (snapshot_of (capped_to max_issues_fetch (all ++ all_issues (p.issues ∷ ps))))
  unfolding all_issues
  turn api n o all p c ps e x h rest =
      step api n o all p e h
      ∙ going_on (fetch_pages l api n) o c (all ++ issues_of p.issues) (all_issues ps) _ x rest
      ∙ ap (λ xs. some (snapshot_of (capped_to max_issues_fetch xs)))
          (append_assoc all (issues_of p.issues) (all_issues ps))

  fetch_pages_lem :
      (api : Options → Result Bytes (Page l)) (n : ℕ) (o : Options) (all : List Issue)
      (ps : List (List (Option Issue)))
      → Chain api o ps
      → length ps ≤ n
      → length all < max_issues_fetch
      → fetch_pages l api n o all
        ≡ some (snapshot_of (capped_to max_issues_fetch (all ++ all_issues ps)))
  unfolding after_page after_response all_issues
  fetch_pages_lem api zero _ all _ (last o p e x) b h = absurd (omega arith)
  fetch_pages_lem api zero _ all _ (by_token o p c cs m ps e x k) b h = absurd (omega arith)
  fetch_pages_lem api zero _ all _ (by_number o p m ps e x z k) b h = absurd (omega arith)
  fetch_pages_lem api (suc n) _ all _ (last o p e x) b h =
      step api n o all p e h
      ∙ ending (fetch_pages l api n) o (all ++ issues_of p.issues) _ (next_none p.response x)
      ∙ ap (λ xs. some (snapshot_of (capped_to max_issues_fetch (all ++ xs))))
          (sym (append-nil (issues_of p.issues)))
  fetch_pages_lem api (suc n) _ all _ (by_token o p c cs m ps e x k) b h =
      turn api n o all p (after (c ∷ cs)) ps e (next_token p.response c cs m x) h (
        fetch_pages_lem api n (record o { cursor = after (c ∷ cs) }) (all ++ issues_of p.issues) ps
          k (omega arith))
  fetch_pages_lem api (suc n) _ all _ (by_number o p m ps e x z k) b h =
      turn api n o all p (page m) ps e (next_number p.response m x z) h (
        fetch_pages_lem api n (record o { cursor = page m }) (all ++ issues_of p.issues) ps k
          (omega arith))

  -- When the pages of the API, from the first one on, come to an end, as many turns as there are
  -- pages are enough: the fetch returns the first 500 issues of all pages that are no pull requests,
  -- in their order, and it says that it was capped exactly if there are 500 or more.
  pub fetch_issues_for_repo_since_lem :
      (api : Options → Result Bytes (Page l)) (fuel : ℕ) (since : Time)
      (ps : List (List (Option Issue)))
      → Chain api (record { since = since; cursor = page 1 }) ps
      → length ps ≤ fuel
      → fetch_issues_for_repo_since l api fuel since
        ≡ some (snapshot_of (capped_to max_issues_fetch (all_issues ps)))
  unfolding fetch_issues_for_repo_since
  fetch_issues_for_repo_since_lem api fuel since ps k b =
      fetch_pages_lem api fuel (record { since = since; cursor = page 1 }) [] ps k b (omega arith)
