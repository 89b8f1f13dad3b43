-- ===== src/PersisterYaml.antt =====
-- services/persister-yaml/store.go: an entity as one YAML file. The store's mutex makes a write one
-- step.
pub mod GitSync
pub mod Inside
pub mod Whole
mod Tests
use ice_hive.Prelude.{
  ℕ, ◌≡◌, ◌⊎◌, Bool, true, false, not, ◌&&◌, ◌||◌, [], ◌∷◌, ◌++◌, Option, none, some, leb, ◌==◌,
  if◌then◌else◌, Result, ok, err, ◌>>=◌,
}
use ice_hive.Text.{Bytes, codes, is_nil, str_eq, trim_space, trim, contains_byte}

-- The class that unsafePathSegment leaves alone.
unfoldable pub is_safe : ℕ → Bool
is_safe c =
    (leb b'a' c && leb c b'z')
    || (leb b'A' c && leb c b'Z')
    || (leb b'0' c && leb c b'9')
    || c == b'.'
    || c == b'_'
    || c == b'-'

-- ReplaceAllString: each longest run of other bytes becomes one underscore. The flag tells that the
-- run has begun.
unfoldable pub replace_unsafe : Bool → Bytes → Bytes
replace_unsafe in_run [] = []
replace_unsafe in_run (c ∷ s) =
    let inside = replace_unsafe true s in
    let outside = replace_unsafe false s in
    if is_safe c then c ∷ outside else if in_run then inside else b'_' ∷ inside

-- The cutset of strings.Trim(stem, "._-").
unfoldable pub is_mark : ℕ → Bool
is_mark c = c == b'.' || c == b'_' || c == b'-'

pub data NameError : Type 0 where
  empty_entity_type empty_entity_name : NameError
  invalid_entity_type : Bytes → NameError

unfoldable pub reserved_entity_dir_name : Bytes → Bool
reserved_entity_dir_name dir =
    str_eq dir (b'.' ∷ []) || str_eq dir (b'.' ∷ b'.' ∷ []) || contains_byte b'/' dir

unfoldable pub entity_dir_name : Bytes → Result NameError Bytes
entity_dir_name entity_type =
    let dir = trim_space entity_type in
    if is_nil dir
    then err empty_entity_type
    else if reserved_entity_dir_name dir
    then err (invalid_entity_type entity_type)
    else ok dir

unfoldable pub entity_stem : Bytes → Bytes → Bytes
entity_stem source_unique_id hash_value =
    let uid = trim_space source_unique_id in
    let name = if is_nil uid then trim_space hash_value else uid in
    trim is_mark (replace_unsafe false name)

unfoldable pub entity_file_name : Bytes → Bytes → Result NameError Bytes
entity_file_name source_unique_id hash_value =
    let stem = entity_stem source_unique_id hash_value in
    if is_nil stem then err empty_entity_name else ok (stem ++ codes ".yaml")

-- filepath.Join of the store's root, which filepath.Abs has cleaned, and of two names without a
-- slash that are neither `.` nor `..`.
unfoldable pub join : Bytes → Bytes → Bytes → Bytes
join root dir name =
    let base = if str_eq root (b'/' ∷ []) then [] else root in
    base ++ (b'/' ∷ (dir ++ (b'/' ∷ name)))

pub record Target : Type 0 where
  pub dir : Bytes
  pub path : Bytes

-- entityFilePath, with the directory of the path
unfoldable pub entity_file_path : Bytes → Bytes → Bytes → Bytes → Result NameError Target
entity_file_path root entity_type source_unique_id hash_value =
    entity_dir_name entity_type >>= λ dir. entity_file_name source_unique_id hash_value >>= λ name.
    ok (record {
      dir = (if str_eq root (b'/' ∷ []) then [] else root) ++ (b'/' ∷ dir);
      path = join root dir name;
    })

pub record Message (V : Type 0) : Type 0 where
  pub type : Bytes
  pub schema_version : Bytes
  pub entity_type : Bytes
  pub source_unique_id : Bytes
  pub hash_value : Bytes
  pub content : V

-- What the store uses of package os and of the YAML library.
pub record Files (V : Type 0) : Type 1 where
  pub World : Type 0
  pub Failure : Type 0
  pub marshal : Message V → Result Failure Bytes
  pub mkdir_all : World → Bytes → World × Option Failure
  pub write_file : World → Bytes → Bytes → World × Option Failure
  pub rename : World → Bytes → Bytes → World × Option Failure
  pub remove : World → Bytes → World × Option Failure

module _ {V : Type 0} (f : Files V) where
  open f use {World, Failure}

  pub data Error : Type 0 where
    unsupported_envelope : Error
    bad_name : NameError → Error
    marshal_failed mkdir_failed write_failed rename_failed : Failure → Error

  abbrev pub Outcome : Type 0
  Outcome = World × Result Error Bytes

  after_rename : Bytes → Bytes → World × Option Failure → Outcome
  after_rename tmp path (w, none) = (w, ok path)
  after_rename tmp path (w, some e) = ((f.remove w tmp).0, err (rename_failed e))

  after_write : Bytes → Bytes → World × Option Failure → Outcome
  unfolding after_rename
  after_write tmp path (w, some e) = (w, err (write_failed e))
  after_write tmp path (w, none) = after_rename tmp path (f.rename w tmp path)

  after_mkdir : Bytes → Bytes → Bytes → World × Option Failure → Outcome
  unfolding after_write
  after_mkdir tmp path body (w, some e) = (w, err (mkdir_failed e))
  after_mkdir tmp path body (w, none) = after_write tmp path (f.write_file w tmp body)

  after_marshal : World → Target → Result Failure Bytes → Outcome
  unfolding after_mkdir
  after_marshal w t (err e) = (w, err (marshal_failed e))
  after_marshal w t (ok body) =
      after_mkdir (t.path ++ codes ".tmp") t.path body (f.mkdir_all w t.dir)

  after_path : World → Message V → Result NameError Target → Outcome
  unfolding after_marshal
  after_path w m (err e) = (w, err (bad_name e))
  after_path w m (ok t) = after_marshal w t (f.marshal m)

  -- writeEntityLocked
  unfoldable pub write_entity_locked : Bytes → World → Message V → Outcome
  unfolding after_path
  write_entity_locked root w m =
      if not (str_eq m.type (codes "Entity")) || not (str_eq m.schema_version (codes "v1"))
      then (w, err unsupported_envelope)
      else after_path w m (entity_file_path root m.entity_type m.source_unique_id m.hash_value)
