-- ===== src/PersisterYaml/Whole.antt =====
-- Behind a write an entity's file holds the old entity or the new one, never a part.
use ice_hive.Prelude.{
  ◌≡◌, ◌≢◌, refl, ◌∙◌, Bool, false, not, ◌||◌, ◌++◌, Option, none, some, if_both, Result, ok, err,
}
use ice_hive.Text.{Bytes, codes, str_eq, has_suffix}
use ice_hive.ControllerUrl.Prefix.{has_suffix-append}
use ice_hive.PersisterYaml.{
  Message, Files, Target, NameError, Outcome, after_rename, after_write, after_mkdir, after_marshal,
  after_path, write_entity_locked,
}

-- What the store relies on: no call changes another file than the one it names, a write that
-- succeeds has written everything, and a rename moves the content or changes nothing.
pub record Laws {V : Type 0} (f : Files V) : Type 0 where
  pub read : f.World → Bytes → Option Bytes
  pub mkdir_keeps : (w : f.World) (dir p : Bytes) → read (f.mkdir_all w dir).0 p ≡ read w p
  pub write_keeps :
      (w : f.World) (path body p : Bytes)
      → path ≢ p
      → read (f.write_file w path body).0 p ≡ read w p
  pub write_lem :
      (w : f.World) (path body : Bytes)
      → (f.write_file w path body).1 ≡ none
      → read (f.write_file w path body).0 path ≡ some body
  pub rename_lem :
      (w : f.World) (from to : Bytes)
      → (f.rename w from to).1 ≡ none
      → read (f.rename w from to).0 to ≡ read w from
  pub rename_keeps :
      (w : f.World) (from to p : Bytes)
      → from ≢ p
      → to ≢ p
      → read (f.rename w from to).0 p ≡ read w p
  pub rename_fails :
      (w : f.World) (from to p : Bytes) (e : f.Failure)
      → (f.rename w from to).1 ≡ some e
      → read (f.rename w from to).0 p ≡ read w p
  pub remove_keeps :
      (w : f.World) (path p : Bytes) → path ≢ p → read (f.remove w path).0 p ≡ read w p

abbrev pub tmp_of : Bytes → Bytes
tmp_of path = path ++ codes ".tmp"

abbrev pub is_tmp : Bytes → Bool
is_tmp p = has_suffix p (codes ".tmp")

tmp_of-ne : (path p : Bytes) → is_tmp p ≡ false → tmp_of path ≢ p
tmp_of-ne path p h = λ e. let t = has_suffix-append path (codes ".tmp") (λ q. cc) in cc

module _ {V : Type 0} (f : Files V) (laws : Laws f) where
  open f use {World, Failure}

  -- No file but temporary ones has changed.
  abbrev pub Keeps : World → World → Type 0
  Keeps w w' = (p : Bytes) → is_tmp p ≡ false → laws.read w' p ≡ laws.read w p

  -- The file has the whole text, and no other file but temporary ones has changed.
  pub record Stored (w : World) (path body : Bytes) (w' : World) : Type 0 where
    pub stored : laws.read w' path ≡ some body
    pub others : (p : Bytes) → is_tmp p ≡ false → path ≢ p → laws.read w' p ≡ laws.read w p

  abbrev pub Whole : World → Bytes → Outcome f → Type 0
  Whole w body (w', err e) = Keeps w w'
  Whole w body (w', ok path) = Stored w path body w'

  renamed-Whole :
      (w0 : World) (body path : Bytes) (r : World × Option Failure)
      → (r.1 ≡ none → Stored w0 path body r.0)
      → ((e : Failure) → r.1 ≡ some e → Keeps w0 r.0)
      → Whole w0 body (after_rename f (tmp_of path) path r)
  unfolding after_rename
  renamed-Whole w0 body path (w, none) s k = s refl
  renamed-Whole w0 body path (w, some e) s k =
      λ p t. laws.remove_keeps w (tmp_of path) p (tmp_of-ne path p t) ∙ k e refl p t

  after_rename-Whole :
      (w0 w : World) (body path : Bytes)
      → Keeps w0 w
      → laws.read w (tmp_of path) ≡ some body
      → Whole w0 body (after_rename f (tmp_of path) path (f.rename w (tmp_of path) path))
  after_rename-Whole w0 w body path keep full =
      let tmp = tmp_of path in
      renamed-Whole w0 body path (f.rename w tmp path)
        (λ e. record {
          stored = laws.rename_lem w tmp path e ∙ full;
          others = λ p t n. laws.rename_keeps w tmp path p (tmp_of-ne path p t) n ∙ keep p t;
        })
        (λ e q p t. laws.rename_fails w tmp path p e q ∙ keep p t)

  after_write-Whole :
      (w0 : World) (body path : Bytes) (r : World × Option Failure)
      → (r.1 ≡ none → laws.read r.0 (tmp_of path) ≡ some body)
      → Keeps w0 r.0
      → Whole w0 body (after_write f (tmp_of path) path r)
  unfolding after_write
  after_write-Whole w0 body path (w, none) s k = after_rename-Whole w0 w body path k (s refl)
  after_write-Whole w0 body path (w, some e) s k = k

  after_mkdir-Whole :
      (w0 : World) (body path : Bytes) (r : World × Option Failure)
      → Keeps w0 r.0
      → Whole w0 body (after_mkdir f (tmp_of path) path body r)
  unfolding after_mkdir
  after_mkdir-Whole w0 body path (w, none) k =
      let tmp = tmp_of path in
      after_write-Whole w0 body path (f.write_file w tmp body) (laws.write_lem w tmp body)
        (λ p t. laws.write_keeps w tmp body p (tmp_of-ne path p t) ∙ k p t)
  after_mkdir-Whole w0 body path (w, some e) k = k

  after_path-Whole :
      (w : World) (m : Message V) (body : Bytes) (r : Result NameError Target)
      → f.marshal m ≡ ok body
      → Whole w body (after_path f w m r)
  unfolding after_path after_marshal
  after_path-Whole w m body (err e) h = λ p t. refl
  after_path-Whole w m body (ok t) h =
      rw h
        (after_mkdir-Whole w body t.path (f.mkdir_all w t.dir) (λ p q. laws.mkdir_keeps w t.dir p))

  -- Writing an entity with a YAML text: if a path is returned, the file there holds this text whole,
  -- and no other file has changed; if an error is, no file has changed. Files whose names end in
  -- `.tmp` are not counted.
  pub write_entity_locked-Whole :
      (root : Bytes) (w : World) (m : Message V) (body : Bytes)
      → f.marshal m ≡ ok body
      → Whole w body (write_entity_locked f root w m)
  unfolding write_entity_locked
  write_entity_locked-Whole root w m body h =
      if_both (Whole w body)
        (not (str_eq m.type (codes "Entity")) || not (str_eq m.schema_version (codes "v1")))
        (λ p t. refl) (after_path-Whole w m body _ h)
