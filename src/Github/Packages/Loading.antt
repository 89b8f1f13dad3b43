-- ===== src/Github/Packages/Loading.antt =====
-- The listing of a namespace's packages comes to an end, and what it gives.
use ice_hive.Prelude.{
  ℕ, zero, suc, ◌+◌, ◌-◌, ◌≤◌, ◌<◌, ◌≡◌, refl, Bool, true, false, List, [], ◌∷◌, ◌++◌, none, some,
  ltb, leb, Bool-cases, inl, inr, arith, Result, ok, err, length, length-append, length-take,
}
use ice_hive.Text.{Bytes}
use ice_hive.Github.Packages.{
  Api, GhRepoPackage, max_packages_fetch, github_package_types, cap_packages, Loaded,
  list_namespace_packages_page, after_page, load_pages, load_namespace_packages_of_type, after_type,
  load_types, capped, load_namespace_packages,
}

pub cap_packages-le : (all : List GhRepoPackage) → length (cap_packages all) ≤ max_packages_fetch
unfolding cap_packages
cap_packages-le all = elim (Bool-cases (ltb max_packages_fetch (length all))) [
  | inl e ↦ rw e (omega (arith, length-take max_packages_fetch all))
  | inr e ↦ rw e (ground (arith, e))
]

module _ (api : Api) where
  open api use {Failure}

  abbrev Pages : Type 0
  Pages = ℕ → Result Failure (List GhRepoPackage × Bool)

  -- The listing has come to an end.
  abbrev IsSome : Loaded api → Type 0
  IsSome none = ⊥
  IsSome (some r) = Unit

  -- A page that says that there is another one holds a package.
  abbrev Grows : Pages → Type 0
  Grows pages =
      (page : ℕ) (pkgs : List GhRepoPackage) → pages page ≡ ok (pkgs, true) → 0 < length pkgs

  after_page-IsSome :
      (k : List GhRepoPackage → Loaded api) (out : List GhRepoPackage)
      (y : Result Failure (List GhRepoPackage × Bool))
      → ((pkgs : List GhRepoPackage) → y ≡ ok (pkgs, true) → IsSome (k (out ++ pkgs)))
      → IsSome (after_page api k out y)
  unfolding after_page
  after_page-IsSome k out (err e) h = tt
  after_page-IsSome k out (ok (pkgs, true)) h = h pkgs refl
  after_page-IsSome k out (ok (pkgs, false)) h = tt

  -- As many turns as packages may be missing, and one more, are enough.
  load_pages-IsSome :
      (pages : Pages) (limit n page : ℕ) (out : List GhRepoPackage)
      → Grows pages
      → limit ≤ n + length out
      → IsSome (load_pages api pages limit (suc n) page out)
  unfolding load_pages
  load_pages-IsSome pages limit zero page out g h = rw (stops limit out h) tt
    where
      stops :
          (limit : ℕ) (out : List GhRepoPackage)
          → limit ≤ 0 + length out
          → ltb (length out) limit ≡ false
      stops limit out h = ground (arith, h)
  load_pages-IsSome pages limit (suc n) page out g h = elim (Bool-cases (ltb (length out) limit)) [
    | inr e ↦ rw e tt
    | inl e ↦ rw e (
        after_page-IsSome (load_pages api pages limit (suc n) (page + 1)) out (pages page)
          (λ pkgs q.
            load_pages-IsSome pages limit n (page + 1) (out ++ pkgs) g
              (omega (arith, g page pkgs q, length-append out pkgs))))
  ]

  -- The listing has ended, with an error or with at most 100 packages.
  abbrev pub Ends : Loaded api → Type 0
  Ends none = ⊥
  Ends (some (err e)) = Unit
  Ends (some (ok all)) = length all ≤ max_packages_fetch

  capped-Ends : (y : Loaded api) → IsSome y → Ends (capped api y)
  unfolding capped
  capped-Ends none h = absurd h
  capped-Ends (some (err e)) h = tt
  capped-Ends (some (ok all)) h = cap_packages-le all

  module _ (login type : Bytes)
      (productive : (t : Bytes) (page : ℕ) (pkgs : List GhRepoPackage)
        → list_namespace_packages_page api login type t page ≡ ok (pkgs, true)
        → 0 < length pkgs) where
    after_type-IsSome :
        (k : List GhRepoPackage → Loaded api) (all : List GhRepoPackage) (y : Loaded api)
        → IsSome y
        → ((pkgs : List GhRepoPackage) → IsSome (k (all ++ pkgs)))
        → IsSome (after_type api k all y)
    unfolding after_type
    after_type-IsSome k all none h f = absurd h
    after_type-IsSome k all (some (err e)) h f = tt
    after_type-IsSome k all (some (ok pkgs)) h f = f pkgs

    load_types-IsSome :
        (n : ℕ) (types : List Bytes) (all : List GhRepoPackage)
        → max_packages_fetch ≤ n
        → IsSome (load_types api (suc n) login type types all)
    unfolding load_types load_namespace_packages_of_type
    load_types-IsSome n [] all h = tt
    load_types-IsSome n (t ∷ types) all h =
        elim (Bool-cases (leb max_packages_fetch (length all))) [
          | inl e ↦ rw e tt
          | inr e ↦ rw e (
              after_type-IsSome (load_types api (suc n) login type types) all _
                (load_pages-IsSome (list_namespace_packages_page api login type t)
                  (max_packages_fetch - length all) n 1 [] (productive t) (omega (arith, h)))
                (λ pkgs. load_types-IsSome n types (all ++ pkgs) h))
        ]

    -- If no page of a namespace that names a next page is empty, then 101 requests for each type of
    -- package are enough: the listing ends, with the error of a request or with at most 100 packages.
    pub load_namespace_packages-Ends :
        (fuel : ℕ) → 101 ≤ fuel → Ends (load_namespace_packages api fuel login type)
    unfolding load_namespace_packages
    load_namespace_packages-Ends zero h = absurd (omega arith)
    load_namespace_packages-Ends (suc n) h =
        capped-Ends _ (load_types-IsSome n github_package_types [] (omega arith))
