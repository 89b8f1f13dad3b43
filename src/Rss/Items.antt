-- ===== src/Rss/Items.antt =====
-- services/collector-rss/feed_items.go, the parts of entity.go it reads, and the choice of items in
-- main.go: the newest entries of a feed. A pointer that may be nil is an option.
pub mod Newest
mod Tests
use ice_hive.Prelude.{
  Bool, not, ◌&&◌, List, [], ◌∷◌, Option, none, some, if◌then◌else◌, length, take,
}
use ice_hive.Prelude.Int.{ℤ, pos, pos_part, ltb_ℤ, eq_ℤ}
use ice_hive.Text.{Bytes, is_nil, trim_space, less}
use ice_hive.Sorting.{sort_with}
use ice_hive.Rss.Spec.{RssSourceSpec, effective_articles_max}

-- time, x/text and sha256 with hexadecimal digits. `format_utc` is the text of RFC3339Nano.
pub record Library : Type 1 where
  pub Time : Type 0
  pub unix_ms : Time → ℤ
  pub format_utc : Time → Bytes
  pub nfc : Bytes → Bytes
  pub sha256_hex : Bytes → Bytes

module _ (l : Library) where
  -- The members of an Item of github.com/mmcdole/gofeed that are read; of a person, the name.
  pub record Item : Type 0 where
    pub title : Bytes
    pub description : Bytes
    pub content : Bytes
    pub guid : Bytes
    pub link : Bytes
    pub links : List Bytes
    pub author : Option Bytes
    pub authors : List (Option Bytes)
    pub categories : List Bytes
    pub published : Bytes
    pub published_parsed : Option l.Time
    pub updated_parsed : Option l.Time

  unfoldable pub first_non_empty_normalized_link : List Bytes → Bytes
  first_non_empty_normalized_link [] = []
  first_non_empty_normalized_link (u ∷ us) =
      let rest = first_non_empty_normalized_link us in
      let t = trim_space u in if not (is_nil t) then l.nfc t else rest

  unfoldable pub entry_link : Option Item → Bytes
  entry_link none = []
  entry_link (some item) =
      let u = trim_space item.link in
      if not (is_nil u) then l.nfc u else first_non_empty_normalized_link item.links

  ms_or_zero : Option l.Time → ℤ
  ms_or_zero none = pos 0
  ms_or_zero (some t) = l.unix_ms t

  unfoldable pub entry_published_unix_ms : Option Item → ℤ
  unfolding ms_or_zero
  entry_published_unix_ms none = pos 0
  entry_published_unix_ms (some item) = ms_or_zero item.published_parsed

  unfoldable pub entry_updated_unix_ms : Option Item → ℤ
  unfolding ms_or_zero
  entry_updated_unix_ms none = pos 0
  entry_updated_unix_ms (some item) = ms_or_zero item.updated_parsed

  unfoldable pub item_recency_unix_ms : Option Item → ℤ
  item_recency_unix_ms none = pos 0
  item_recency_unix_ms (some item) =
      let p = entry_published_unix_ms (some item) in
      let u = entry_updated_unix_ms (some item) in if ltb_ℤ p u then u else p

  -- Whether `a` goes before `b`.
  unfoldable pub newer : Option Item → Option Item → Bool
  newer a b =
      let s = item_recency_unix_ms a in
      let t = item_recency_unix_ms b in
      if not (eq_ℤ s t) then ltb_ℤ t s else less (entry_link a) (entry_link b)

  abbrev pub sort_feed_items_newest_first : List (Option Item) → List (Option Item)
  sort_feed_items_newest_first items = sort_with newer items

  -- The items of which a run publishes articles, with the configured maximum `items_max`.
  unfoldable pub selected_items : RssSourceSpec → ℤ → List (Option Item) → List (Option Item)
  selected_items spec items_max feed_items =
      let max_articles = effective_articles_max spec items_max in
      let items = sort_feed_items_newest_first feed_items in
      if ltb_ℤ (pos 0) max_articles && ltb_ℤ max_articles (pos (length items))
      then take (pos_part max_articles) items
      else items
