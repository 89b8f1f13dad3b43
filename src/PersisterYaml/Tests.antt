-- ===== src/PersisterYaml/Tests.antt =====
-- Files as a function of their path.
use ice_hive.Prelude.{
  ◌≡◌, refl, Bool, [], Option, none, some, arith, if◌then◌else◌, Result, ok, err,
}
use ice_hive.Text.{
  Bytes, codes, str_eq, trim_space, trim, trim_left, trim_right, is_space, contains_byte,
}
use ice_hive.Text.Trim.{str_eq_refl, str_eq_ne}
use ice_hive.PersisterYaml.{
  Files, Error, after_path, after_marshal, after_mkdir, after_write, after_rename, entity_file_path,
  entity_stem, reserved_entity_dir_name, replace_unsafe, is_safe, is_mark, join, Message,
  write_entity_locked, entity_dir_name, entity_file_name,
}
use ice_hive.PersisterYaml.Inside.{DirSafe, FileSafe, entity_names-Inside}
use ice_hive.PersisterYaml.Whole.{Laws, Whole, write_entity_locked-Whole}

abbrev toy : Files Bytes
toy = record {
  World = Bytes → Option Bytes;
  Failure = Bool;
  marshal = λ m. ok m.content;
  mkdir_all = λ w dir. (w, none);
  write_file = λ w p b. (λ q. if str_eq p q then some b else w q, none);
  rename =
      λ w from to. (λ q. if str_eq to q then w from else if str_eq from q then none else w q, none);
  remove = λ w p. (λ q. if str_eq p q then none else w q, none);
}

toy_laws : Laws toy
toy_laws = record {
  read = λ w p. w p;
  mkdir_keeps = λ w dir p. refl;
  write_keeps = λ w path body p n. rw (str_eq_ne path p n) refl;
  write_lem = λ w path body e. rw (str_eq_refl path) refl;
  rename_lem = λ w from to e. rw (str_eq_refl to) refl;
  rename_keeps = λ w from to p n m. rw (str_eq_ne to p m, str_eq_ne from p n) refl;
  rename_fails = λ w from to p e h. absurd (ground (arith, h));
  remove_keeps = λ w path p n. rw (str_eq_ne path p n) refl;
}

issue : Message Bytes
issue = record {
  type = codes "Entity";
  schema_version = codes "v1";
  entity_type = codes "GitHubIssue";
  source_unique_id = codes "../o/r#7";
  hash_value = codes "ff";
  content = codes "title: x";
}

no_files : Bytes → Option Bytes
no_files p = none

write_entity_locked-Whole_example :
    Whole toy toy_laws no_files
      (codes "title: x")
      (write_entity_locked toy (codes "/data") no_files issue)
unfolding issue
write_entity_locked-Whole_example =
    write_entity_locked-Whole toy toy_laws (codes "/data") no_files issue (codes "title: x") refl

path_of : Result (Error toy) Bytes → Bytes
path_of (ok p) = p
path_of (err e) = []

written_path :
    path_of (write_entity_locked toy (codes "/data") no_files issue).1
    ≡ codes "/data/GitHubIssue/o_r_7.yaml"
unfolding path_of issue write_entity_locked after_path after_marshal after_mkdir after_write
    after_rename entity_file_path entity_file_name entity_dir_name entity_stem
    reserved_entity_dir_name replace_unsafe is_safe is_mark join trim_space trim trim_left
    trim_right is_space str_eq contains_byte
written_path = refl

entity_names-Inside_example :
    DirSafe (entity_dir_name (codes "GitHubIssue"))
    × FileSafe (entity_file_name (codes "../o/r#7") (codes "ff"))
entity_names-Inside_example =
    entity_names-Inside (codes "GitHubIssue") (codes "../o/r#7") (codes "ff")
