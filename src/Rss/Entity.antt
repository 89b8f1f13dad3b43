-- ===== src/Rss/Entity.antt =====
-- services/collector-rss/entity.go: the entities that a feed and its items are published as.
use ice_hive.Prelude.{
  ℕ, not, List, [], ◌∷◌, ◌++◌, Option, none, some, ltb, if◌then◌else◌, length, take,
}
use ice_hive.Prelude.Int.{ℤ, pos}
use ice_hive.Text.{Bytes, codes, is_nil, trim_space}
use ice_hive.Dict.{Dict}
use ice_hive.Rss.Items.{
  Library, Item, first_non_empty_normalized_link, entry_link, entry_published_unix_ms,
  entry_updated_unix_ms,
}

abbrev pub entity_type_rss_feed : Bytes
entity_type_rss_feed = codes "RssFeed"

abbrev pub entity_type_rss_article : Bytes
entity_type_rss_article = codes "RssArticle"

abbrev pub collector_rss_type : Bytes
collector_rss_type = codes "collector-rss"

pub record SourceHash : Type 0 where
  pub hash_value : Bytes
  pub hash_type : Bytes

pub record CollectorMetadata : Type 0 where
  pub recollect_spec : Option Bytes
  pub entity_type : Bytes
  pub source_system : Bytes
  pub source_collector_type : Bytes
  pub source_unique_id : Bytes
  pub source_hash : SourceHash
  pub observed_unix_ms : ℤ

pub record FieldDescriptor : Type 0 where
  pub type : Bytes
  pub length : ℕ

pub data Value : Type 0 where
  string : Bytes → Value
  int64 : ℤ → Value

pub record EntityMessage : Type 0 where
  pub type : Bytes
  pub schema_version : Bytes
  pub structure : Dict FieldDescriptor
  pub values : Dict Value
  pub metadata : CollectorMetadata

abbrev string_field : ℕ → FieldDescriptor
string_field n = record { type = codes "string"; length = n }

abbrev int64_field : FieldDescriptor
int64_field = record { type = codes "int64"; length = 0 }

-- truncStr
unfoldable pub trunc_str : Bytes → ℕ → Bytes
trunc_str s max = let t = trim_space s in if ltb max (length t) then take max t else t

-- strings.Join(parts, ", ")
unfoldable pub join_comma : List Bytes → Bytes
join_comma [] = []
join_comma (s ∷ []) = s
join_comma (s ∷ t ∷ ts) = s ++ (codes ", " ++ join_comma (t ∷ ts))

module _ (l : Library) where
  -- The members of a Feed of gofeed that are read.
  pub record Feed : Type 0 where
    pub title : Bytes
    pub description : Bytes
    pub link : Bytes
    pub feed_link : Bytes
    pub links : List Bytes
    pub updated_parsed : Option l.Time
    pub language : Bytes
    pub feed_type : Bytes
    pub items : List (Option (Item l))

  unfoldable pub source_hash_for : Bytes → SourceHash
  source_hash_for unique_id = record {
    hash_value = l.sha256_hex (l.nfc unique_id ++ (codes ":" ++ l.nfc collector_rss_type));
    hash_type = codes "sha256";
  }

  unfoldable pub append_author_name : List Bytes → Option Bytes → List Bytes
  append_author_name parts none = parts
  append_author_name parts (some author) =
      let name = trim_space author in if is_nil name then parts else parts ++ (l.nfc name ∷ [])

  append_author_names : List Bytes → List (Option Bytes) → List Bytes
  append_author_names parts [] = parts
  append_author_names parts (a ∷ authors) = append_author_names (append_author_name parts a) authors

  unfoldable pub entry_authors : Option (Item l) → Bytes
  unfolding append_author_names
  entry_authors none = []
  entry_authors (some item) =
      let parts = append_author_name (append_author_names [] item.authors) item.author in
      if ltb 0 (length parts) then trunc_str (join_comma parts) 1024 else []

  pub_key : Bytes → Option l.Time → Bytes
  pub_key published none = l.nfc (trim_space published)
  pub_key published (some t) = l.format_utc t

  unfoldable pub entry_pub_key_string : Option (Item l) → Bytes
  unfolding pub_key
  entry_pub_key_string none = []
  entry_pub_key_string (some item) = pub_key item.published item.published_parsed

  unfoldable pub entry_summary : Option (Item l) → ℕ → Bytes
  entry_summary none max = []
  entry_summary (some item) max =
      let content = trim_space item.content in
      let body = if is_nil content then trim_space item.description else content in
      trunc_str (l.nfc body) max

  unfoldable pub feed_recollect_spec : Bytes → Option Bytes
  feed_recollect_spec feed_url =
      let u = trim_space feed_url in if is_nil u then none else some (l.nfc (codes "feed:" ++ u))

  unfoldable pub feed_entry_source_unique_id : Bytes → Bytes → Option (Item l) → Bytes
  feed_entry_source_unique_id source_id feed_url none = []
  feed_entry_source_unique_id source_id feed_url (some item) =
      let guid = l.nfc (trim_space item.guid) in
      let link = entry_link l (some item) in
      let key = entry_pub_key_string (some item) in
      l.nfc (
        l.sha256_hex
          (l.nfc source_id ++ (0 ∷ (l.nfc feed_url ++ (0 ∷ (guid ++ (0 ∷ (link ++ (0 ∷ key)))))))))

  unfoldable pub rss_feed_source_unique_id : Bytes → Bytes → Bytes
  rss_feed_source_unique_id source_id feed_url =
      l.nfc (l.sha256_hex (l.nfc source_id ++ (0 ∷ (l.nfc feed_url ++ (0 ∷ codes "rss_feed_v1")))))

  updated_ms : Option l.Time → ℤ
  updated_ms none = pos 0
  updated_ms (some t) = l.unix_ms t

  unfoldable pub feed_updated_unix_ms : Option Feed → ℤ
  unfolding updated_ms
  feed_updated_unix_ms none = pos 0
  feed_updated_unix_ms (some feed) = updated_ms feed.updated_parsed

  unfoldable pub feed_site_link : Option Feed → Bytes
  feed_site_link none = []
  feed_site_link (some feed) =
      let u = trim_space feed.link in
      let v = trim_space feed.feed_link in
      if not (is_nil u)
      then l.nfc u
      else if not (is_nil v)
      then l.nfc v
      else first_non_empty_normalized_link l feed.links

  -- The message of either kind of entity, observed at `now`
  unfoldable pub entity_message :
      Bytes → Bytes → ℤ → Bytes → Dict FieldDescriptor → Dict Value → EntityMessage
  entity_message entity_type unique_id now feed_url structure values = record {
    type = codes "Entity";
    schema_version = codes "v1";
    structure = structure;
    values = values;
    metadata = record {
      recollect_spec = feed_recollect_spec feed_url;
      entity_type = entity_type;
      source_system = codes "http_feed";
      source_collector_type = collector_rss_type;
      source_unique_id = unique_id;
      source_hash = source_hash_for unique_id;
      observed_unix_ms = now;
    };
  }

  feed_structure : Dict FieldDescriptor
  feed_structure =
      (codes "collection_source_id", string_field 255)
      ∷ (codes "feed_url", string_field 2048)
      ∷ (codes "feed_title", string_field 2048)
      ∷ (codes "feed_format", string_field 32)
      ∷ (codes "feed_site_link", string_field 2048)
      ∷ (codes "feed_description", string_field 8192)
      ∷ (codes "feed_language", string_field 64)
      ∷ (codes "articles_selected_count", int64_field)
      ∷ (codes "feed_updated_unix_ms", int64_field)
      ∷ []

  feed_values : Bytes → Bytes → Feed → Bytes → ℕ → Dict Value
  feed_values source_id feed_url feed format articles_selected =
      (codes "collection_source_id", string (l.nfc source_id))
      ∷ (codes "feed_url", string feed_url)
      ∷ (codes "feed_title", string (trunc_str (l.nfc (trim_space feed.title)) 2048))
      ∷ (codes "feed_format", string (trunc_str (l.nfc format) 32))
      ∷ (codes "feed_site_link", string (trunc_str (feed_site_link (some feed)) 2048))
      ∷ (codes "feed_description", string (trunc_str (l.nfc (trim_space feed.description)) 8192))
      ∷ (codes "feed_language", string (trunc_str (l.nfc (trim_space feed.language)) 64))
      ∷ (codes "articles_selected_count", int64 (pos articles_selected))
      ∷ (codes "feed_updated_unix_ms", int64 (feed_updated_unix_ms (some feed)))
      ∷ []

  unfoldable pub build_rss_feed_entity :
      ℤ → Bytes → Bytes → Option Feed → Bytes → ℕ → Option EntityMessage
  unfolding feed_structure feed_values
  build_rss_feed_entity now source_id feed_url none feed_type articles_selected = none
  build_rss_feed_entity now source_id feed_url (some feed) feed_type articles_selected =
      let unique_id = rss_feed_source_unique_id source_id feed_url in
      let given = trim_space feed_type in
      let format = if is_nil given then codes "unknown" else given in
      if is_nil unique_id
      then none
      else some (
          entity_message entity_type_rss_feed unique_id now feed_url feed_structure
            (feed_values source_id feed_url feed format articles_selected))

  article_structure : Dict FieldDescriptor
  article_structure =
      (codes "collection_source_id", string_field 255)
      ∷ (codes "feed_url", string_field 2048)
      ∷ (codes "feed_title", string_field 2048)
      ∷ (codes "feed_format", string_field 32)
      ∷ (codes "entry_guid", string_field 2048)
      ∷ (codes "entry_link", string_field 2048)
      ∷ (codes "title", string_field 2048)
      ∷ (codes "entry_summary", string_field 16384)
      ∷ (codes "author", string_field 1024)
      ∷ (codes "categories", string_field 4096)
      ∷ (codes "published_unix_ms", int64_field)
      ∷ (codes "updated_unix_ms", int64_field)
      ∷ []

  categories_joined : List Bytes → Bytes
  categories_joined [] = []
  categories_joined (c ∷ cs) = trunc_str (l.nfc (join_comma (c ∷ cs))) 4096

  article_values : Bytes → Bytes → Bytes → Bytes → Item l → Dict Value
  unfolding categories_joined
  article_values source_id feed_url feed_title feed_type item =
      (codes "collection_source_id", string (l.nfc source_id))
      ∷ (codes "feed_url", string feed_url)
      ∷ (codes "feed_title", string (trunc_str (l.nfc feed_title) 2048))
      ∷ (codes "feed_format", string (trunc_str (l.nfc feed_type) 32))
      ∷ (codes "entry_guid", string (trunc_str (l.nfc (trim_space item.guid)) 2048))
      ∷ (codes "entry_link", string (trunc_str (entry_link l (some item)) 2048))
      ∷ (codes "title", string (trunc_str (l.nfc (trim_space item.title)) 2048))
      ∷ (codes "entry_summary", string (entry_summary (some item) 16384))
      ∷ (codes "author", string (entry_authors (some item)))
      ∷ (codes "categories", string (categories_joined item.categories))
      ∷ (codes "published_unix_ms", int64 (entry_published_unix_ms l (some item)))
      ∷ (codes "updated_unix_ms", int64 (entry_updated_unix_ms l (some item)))
      ∷ []

  unfoldable pub build_rss_article_entity :
      ℤ → Bytes → Bytes → Bytes → Bytes → Option (Item l) → Option EntityMessage
  unfolding article_structure article_values
  build_rss_article_entity now source_id feed_url feed_title feed_type none = none
  build_rss_article_entity now source_id feed_url feed_title feed_type (some item) =
      let unique_id = feed_entry_source_unique_id source_id feed_url (some item) in
      if is_nil unique_id
      then none
      else some (
          entity_message entity_type_rss_article unique_id now feed_url article_structure
            (article_values source_id feed_url feed_title feed_type item))
