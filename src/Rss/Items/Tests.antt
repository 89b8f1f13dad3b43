-- ===== src/Rss/Items/Tests.antt =====
-- Three entries of a feed, of which two are published.
use ice_hive.Prelude.{false, List, [], ◌∷◌, Option, none, some}
use ice_hive.Prelude.Int.{ℤ, pos}
use ice_hive.Text.{Bytes, codes}
use ice_hive.Rss.Spec.{RssSourceSpec}
use ice_hive.Rss.Items.{Library, Item, selected_items}
use ice_hive.Rss.Items.Newest.{Newest}
use mathlib.Core.Path.{◌≡◌, refl}

abbrev toy : Library
toy = record { Time = ℤ; unix_ms = λ t. t; format_utc = λ t. []; nfc = λ s. s; sha256_hex = λ s. s }

abbrev entry : Bytes → Option ℤ → Option (Item toy)
entry url time = some (record {
  title = [];
  description = [];
  content = [];
  guid = [];
  author = none;
  authors = [];
  categories = [];
  published = [];
  link = url;
  links = [];
  published_parsed = time;
  updated_parsed = none;
})

abbrev entries : List (Option (Item toy))
entries =
    entry (codes "b") (some (pos 7))
    ∷ entry (codes "c") none
    ∷ entry (codes "a") (some (pos 7))
    ∷ []

abbrev plain : RssSourceSpec
plain = record { feed_url = codes "http://h"; articles_max = pos 0; explicit_articles_max = false }

two_newest :
    selected_items toy plain (pos 2) entries
    ≡ entry (codes "a") (some (pos 7)) ∷ entry (codes "b") (some (pos 7)) ∷ []
unfolding selected_items ice_hive.Rss.Spec.effective_articles_max ice_hive.Sorting.sort_with
    ice_hive.Sorting.insert_in_order ice_hive.Rss.Items.newer
    ice_hive.Rss.Items.item_recency_unix_ms ice_hive.Rss.Items.entry_published_unix_ms
    ice_hive.Rss.Items.entry_updated_unix_ms ice_hive.Text.less ice_hive.Rss.Items.entry_link
    ice_hive.Text.trim_space ice_hive.Text.trim ice_hive.Text.trim_right ice_hive.Text.trim_left
    ice_hive.Text.is_space
two_newest = refl
