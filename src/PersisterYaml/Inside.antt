-- ===== src/PersisterYaml/Inside.antt =====
-- A file's name cannot lead out of the directory of its entity type.
use ice_hive.Prelude.{
  ◌≡◌, refl, inl, inr, Bool, true, false, [], ◌∷◌, ◌++◌, arith, if_both, Bool-cases, Result, ok,
  err, All,
}
use ice_hive.Text.{Bytes, codes, is_nil, str_eq, trim_space, trim, contains_byte}
use ice_hive.Text.Trim.{Starts, trim-All, trim_right-Starts, trim_left-Starts}
use ice_hive.PersisterYaml.{
  is_safe, is_mark, replace_unsafe, entity_dir_name, entity_file_name, entity_stem,
  reserved_entity_dir_name, NameError,
}

abbrev pub IsSafe : Bytes → Type 0
IsSafe = All (λ c. is_safe c ≡ true)

replace_unsafe-IsSafe : (r : Bool) (s : Bytes) → IsSafe (replace_unsafe r s)
unfolding replace_unsafe
replace_unsafe-IsSafe r [] = tt
replace_unsafe-IsSafe r (c ∷ s) = elim (Bool-cases (is_safe c)) [
  | inl e ↦ rw e (e, replace_unsafe-IsSafe false s)
  | inr e ↦ rw e (
      if_both IsSafe r (replace_unsafe-IsSafe true s)
        (unfold is_safe in refl, replace_unsafe-IsSafe true s))
]

-- The name of a directory for an entity type.
abbrev pub DirSafe : Result NameError Bytes → Type 0
DirSafe (err e) = Unit
DirSafe (ok dir) =
    (is_nil dir ≡ false)
    × (str_eq dir (b'.' ∷ []) ≡ false)
    × (str_eq dir (b'.' ∷ b'.' ∷ []) ≡ false)
    × (contains_byte b'/' dir ≡ false)

-- The name of a file: a stem that is not empty, is of safe bytes and starts with no mark, then the
-- extension.
abbrev pub FileSafe : Result NameError Bytes → Type 0
FileSafe (err e) = Unit
FileSafe (ok name) =
    (stem : Bytes) × (name ≡ stem ++ codes ".yaml")
    × (is_nil stem ≡ false)
    × IsSafe stem
    × Starts is_mark stem

entity_stem-IsSafe :
    (uid hash : Bytes) → IsSafe (entity_stem uid hash) × Starts is_mark (entity_stem uid hash)
unfolding entity_stem trim
entity_stem-IsSafe uid hash = (
  trim-All (λ c. is_safe c ≡ true) is_mark _ (replace_unsafe-IsSafe false _),
  trim_right-Starts is_mark _ (trim_left-Starts is_mark _),
)

entity_dir_name-DirSafe : (s : Bytes) → DirSafe (entity_dir_name s)
unfolding entity_dir_name reserved_entity_dir_name
entity_dir_name-DirSafe s =
    let dir = trim_space s in
    elim (Bool-cases (is_nil dir)) [
      | inl e ↦ rw e tt
      | inr e ↦ elim (Bool-cases (reserved_entity_dir_name dir)) [
        | inl r ↦ rw (e, r) tt
        | inr r ↦ rw (e, r) (e, ground (arith, r), ground (arith, r), ground (arith, r))
      ]
    ]

entity_file_name-FileSafe : (uid hash : Bytes) → FileSafe (entity_file_name uid hash)
unfolding entity_file_name
entity_file_name-FileSafe uid hash =
    let stem = entity_stem uid hash in
    elim (Bool-cases (is_nil stem)) [
      | inl e ↦ rw e tt
      | inr e ↦
          let (safe, starts) = entity_stem-IsSafe uid hash in rw e (stem, refl, e, safe, starts)
    ]

-- Whatever an entity's type and id are, it is refused, or its file has a name of letters, digits,
-- dots, dashes and underscores, the first of which is a letter or a digit, in a directory whose name
-- is one step below the root.
pub entity_names-Inside :
    (entity_type source_unique_id hash_value : Bytes)
    → DirSafe (entity_dir_name entity_type)
      × FileSafe (entity_file_name source_unique_id hash_value)
entity_names-Inside entity_type source_unique_id hash_value =
    (entity_dir_name-DirSafe entity_type, entity_file_name-FileSafe source_unique_id hash_value)
