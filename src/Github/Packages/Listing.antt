-- ===== src/Github/Packages/Listing.antt =====
-- What the listing of a namespace's packages gives: the first ones of all types together.
use ice_hive.Prelude.{
  ℕ, zero, suc, ◌+◌, ◌-◌, ◌≤◌, ◌<◌, ◌≡◌, refl, sym, ap, ◌∙◌, Bool, true, false, List, [], ◌∷◌, ◌++◌,
  some, ltb, leb, if◌then◌else◌, Bool-cases, inl, inr, arith, Result, ok, length, take, All,
  take_all, append-nil, append_assoc, take-append, take-append_take, take-append_left,
}
use ice_hive.Text.{Bytes}
use ice_hive.Github.Packages.{
  Api, GhRepoPackage, max_packages_fetch, github_package_types, cap_packages, Loaded,
  list_namespace_packages_page, after_page, load_pages, load_namespace_packages_of_type, after_type,
  load_types, capped, load_namespace_packages,
}

-- The pages of a type behind a first one, all together.
abbrev pub concat : List (List GhRepoPackage) → List GhRepoPackage
concat [] = []
concat (p ∷ ps) = p ++ concat ps

module _ (api : Api) where
  open api use {Failure}

  abbrev Pages : Type 0
  Pages = ℕ → Result Failure (List GhRepoPackage × Bool)

  -- From page `k` on the API answers with `p` and then with `ps`, and each but the last page says that
  -- there is another one.
  abbrev pub Answers : Pages → ℕ → List GhRepoPackage → List (List GhRepoPackage) → Type 0
  Answers pages k p [] = pages k ≡ ok (p, false)
  Answers pages k p (q ∷ ps) = (pages k ≡ ok (p, true)) × Answers pages (k + 1) q ps

  -- The loop has given packages of which the first `limit` are those of `all`.
  abbrev Gives : ℕ → List GhRepoPackage → Loaded api → Type 0
  Gives limit all y = (r : List GhRepoPackage) × (y ≡ some (ok r)) × (take limit r ≡ take limit all)

  stop-Gives :
      (limit : ℕ) (out rest : List GhRepoPackage) (y : Loaded api)
      → ltb (length out) limit ≡ false
      → Gives limit (out ++ rest) (if ltb (length out) limit then y else some (ok out))
  stop-Gives limit out rest y e =
      rw e (out, refl, sym (take-append limit out rest (ground (arith, e))))

  load_pages-Gives :
      (pages : Pages) (limit n k : ℕ) (out p : List GhRepoPackage) (ps : List (List GhRepoPackage))
      → Answers pages k p ps
      → length ps < n
      → Gives limit (out ++ concat (p ∷ ps)) (load_pages api pages limit n k out)
  unfolding load_pages after_page
  load_pages-Gives pages limit zero k out p ps a h = absurd (omega arith)
  load_pages-Gives pages limit (suc n) k out p [] a h = elim (Bool-cases (ltb (length out) limit)) [
    | inr e ↦ stop-Gives limit out (p ++ []) _ e
    | inl e ↦ rw (e, a) (out ++ p, refl, ap (λ l. take limit (out ++ l)) (sym (append-nil p)))
  ]
  load_pages-Gives pages limit (suc n) k out p (q ∷ ps) (a, b) h =
      elim (Bool-cases (ltb (length out) limit)) [
        | inr e ↦ stop-Gives limit out (concat (p ∷ q ∷ ps)) _ e
        | inl e ↦
            let (r, x, t) =
              load_pages-Gives pages limit n (k + 1) (out ++ p) q ps b (omega arith) in
            rw (e, a) (r, x, t ∙ ap (take limit) (append_assoc out p (concat (q ∷ ps))))
      ]

  module _ (login type : Bytes) (first : Bytes → List GhRepoPackage)
      (others : Bytes → List (List GhRepoPackage)) where
    -- What the API answers for a type, with a bound on the number of pages.
    abbrev pub AnswersType : ℕ → Bytes → Type 0
    AnswersType n t =
        Answers (list_namespace_packages_page api login type t) 1 (first t) (others t)
        × (length (others t) < n)

    -- All packages of the types
    abbrev pub packages_of : List Bytes → List GhRepoPackage
    packages_of [] = []
    packages_of (t ∷ types) = concat (first t ∷ others t) ++ packages_of types

    -- Where `r` and `ps` agree as far as `all` leaves room, they may be exchanged behind `all`.
    exchange :
        (n : ℕ) (all r ps rest : List GhRepoPackage)
        → length all ≤ n
        → take (n - length all) r ≡ take (n - length all) ps
        → take n ((all ++ r) ++ rest) ≡ take n (all ++ (ps ++ rest))
    exchange n all r ps rest h e =
        sym (take-append_take n (all ++ r) rest)
        ∙ ap (λ l. take n (l ++ rest))
            (take-append_left n all r h ∙ ap (λ l. all ++ l) e ∙ sym (take-append_left n all ps h))
        ∙ take-append_take n (all ++ ps) rest
        ∙ ap (take n) (append_assoc all ps rest)

    load_types-Gives :
        (n : ℕ) (types : List Bytes) (all : List GhRepoPackage)
        → All (AnswersType n) types
        → Gives max_packages_fetch
            (all ++ packages_of types)
            (load_types api n login type types all)
    unfolding load_types after_type load_namespace_packages_of_type
    load_types-Gives n [] all h = (all, refl, ap (take max_packages_fetch) (sym (append-nil all)))
    load_types-Gives n (t ∷ types) all ((a, b), h) =
        elim (Bool-cases (leb max_packages_fetch (length all))) [
          | inl e ↦ rw e (all, refl, sym (take-append max_packages_fetch all _ (ground (arith, e))))
          | inr e ↦
              let (r, x, eq) =
                load_pages-Gives (list_namespace_packages_page api login type t)
                  (max_packages_fetch - length all) n 1 [] (first t) (others t) a b in
              let (s, y, eq') = load_types-Gives n types (all ++ r) h in
              rw (e, x)
                (
                  s,
                  y,
                  eq'
                      ∙ exchange max_packages_fetch all r (concat (first t ∷ others t))
                          (packages_of types) (ground (arith, e)) eq,
                )
        ]

    cap_packages_lem : (all : List GhRepoPackage) → cap_packages all ≡ take max_packages_fetch all
    unfolding cap_packages
    cap_packages_lem all = elim (Bool-cases (ltb max_packages_fetch (length all))) [
      | inl e ↦ rw e refl
      | inr e ↦ rw e (sym (take_all max_packages_fetch all (ground (arith, e))))
    ]

    -- When the API answers, for each type of package, with pages that come to an end, and the fuel is at
    -- least their number, the listing returns the first 100 packages of all pages of all types, in
    -- the order of the types.
    pub load_namespace_packages_lem :
        (fuel : ℕ)
        → All (AnswersType fuel) github_package_types
        → load_namespace_packages api fuel login type
          ≡ some (ok (take max_packages_fetch (packages_of github_package_types)))
    unfolding load_namespace_packages capped
    load_namespace_packages_lem fuel h =
        let (r, x, e) = load_types-Gives fuel github_package_types [] h in
        rw x (ap (λ l. some (ok l)) (cap_packages_lem r ∙ e))
