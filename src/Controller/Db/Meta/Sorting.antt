-- ===== src/Controller/Db/Meta/Sorting.antt =====
-- services/controller/internal/db/meta.go: what is sorted by a text is in order, and nothing is lost.
use ice_hive.Prelude.{List}
use mathlib.Core.List.{Perm}
use ice_hive.Text.{Bytes, less}
use ice_hive.Text.Trim.{less_asym}
use ice_hive.Sorting.{Heads, InOrder, sort_with-InOrder, sort_with-Perm}
use ice_hive.Controller.Db.Meta.{sort_by}

module _ {ℓ} {A : Type ℓ} (key : A → Bytes) where
  abbrev pub Leads : A → List A → Type 0
  Leads = Heads (λ a b. less (key a) (key b))

  -- No element's key is less than that of the one before it.
  abbrev pub Sorted : List A → Type 0
  Sorted = InOrder (λ a b. less (key a) (key b))

  pub sort_by-Sorted : (l : List A) → Sorted (sort_by key l)
  sort_by-Sorted =
      sort_with-InOrder (λ a b. less (key a) (key b)) (λ a b. less_asym (key a) (key b))

  pub sort_by-Perm : (l : List A) → Perm (sort_by key l) l
  sort_by-Perm = sort_with-Perm (λ a b. less (key a) (key b))
