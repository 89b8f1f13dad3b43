-- ===== src/Rss/Items/Newest.antt =====
-- The items that a run publishes are the newest, in order.
use ice_hive.Prelude.{ℕ, ◌≡◌, false, List, [], ◌∷◌, ◌++◌, Option, length, min, All}
use ice_hive.Prelude.Int.{◌≤ℤ◌}
use ice_hive.Text.{less}
use ice_hive.Rss.Items.{Library, Item, item_recency_unix_ms, entry_link}
use mathlib.Core.List.{Perm}

module _ (l : Library) where
  -- `b` is no newer than `a`, and at the same time it does not have the smaller link.
  abbrev pub MayFollow : Option (Item l) → Option (Item l) → Type 0
  MayFollow a b =
      (item_recency_unix_ms l b ≤ℤ item_recency_unix_ms l a)
      × (item_recency_unix_ms l b ≡ item_recency_unix_ms l a
          → less (entry_link l b) (entry_link l a) ≡ false)

  abbrev pub NewestFirst : List (Option (Item l)) → Type 0
  NewestFirst [] = Unit
  NewestFirst (a ∷ items) = All (MayFollow a) items × NewestFirst items

  -- `selected` are the first of the items in order, as many as `n` allows.
  pub record Newest (n : ℕ) (items selected : List (Option (Item l))) : Type 0 where
    pub left_out : List (Option (Item l))
    pub in_order : NewestFirst (selected ++ left_out)
    pub same_items : Perm (selected ++ left_out) items
    pub count : length selected ≡ min n (length items)
