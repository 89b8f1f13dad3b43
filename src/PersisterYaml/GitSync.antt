-- ===== src/PersisterYaml/GitSync.antt =====
-- services/persister-yaml/git_commit.go: the commit of new files and the push, over an interface of the
-- git command. The store's mutex makes a sync one step.
use ice_hive.Prelude.{
  ℕ, Bool, true, false, not, ◌&&◌, ◌||◌, List, [], ◌∷◌, ◌++◌, Option, none, some, length,
  if◌then◌else◌, Result, ok, err,
}
use ice_hive.Text.{
  Bytes, codes, is_nil, is_space, trim_space, str_eq, equal_fold, has_suffix, contains, split,
}

-- A command is run in the store's directory; its output is the text beside an error.
pub record Git : Type 1 where
  pub World : Type 0
  -- os.Stat of .git, the text of its error
  pub stat : World → Option Bytes
  -- git ls-files --others --exclude-standard: what it prints, or the text of the error
  pub ls_files : World → World × Result Bytes Bytes
  -- git add --, git commit -m and git push: the output and whether the command failed
  pub add : World → List Bytes → World × Option (Bytes × Bytes)
  pub commit : World → Bytes → World × Option (Bytes × Bytes)
  pub push : World → List Bytes → World × Option (Bytes × Bytes)

-- GIT_COMMIT and GIT_PUSH
pub record Variables : Type 0 where
  pub git_commit : Bytes
  pub git_push : Bytes

pub record GitSyncResult : Type 0 where
  pub committed_files : ℕ
  pub pushed : Bool

unfoldable pub git_commit_enabled : Variables → Bool
git_commit_enabled v = not (is_nil (trim_space v.git_commit))

unfoldable pub git_push_enabled : Variables → Bool
git_push_enabled v = not (is_nil (trim_space v.git_push))

unfoldable pub git_periodic_enabled : Variables → Bool
git_periodic_enabled v = git_commit_enabled v || git_push_enabled v

unfoldable pub git_commit_message : Variables → Bytes
git_commit_message v =
    let msg = trim_space v.git_commit in
    if is_nil msg then codes "persister-yaml: entity snapshot" else codes "persister-yaml: " ++ msg

-- strings.Fields: the word that is read, and the words behind it
abbrev close_word : Bytes × List Bytes → List Bytes
close_word ([], ws) = ws
close_word (c ∷ w, ws) = (c ∷ w) ∷ ws

words : Bytes → Bytes × List Bytes
words [] = ([], [])
words (c ∷ s) =
    let rest = words s in if is_space c then ([], close_word rest) else (c ∷ rest.0, rest.1)

unfoldable pub fields : Bytes → List Bytes
unfolding words
fields s = close_word (words s)

unfoldable pub git_push_args : Variables → List Bytes
git_push_args env =
    let v = trim_space env.git_push in
    if is_nil v || (str_eq v (codes "1") || equal_fold v (codes "true"))
    then codes "push" ∷ []
    else codes "push" ∷ fields v

-- strings.Join with a space
join_words : List Bytes → Bytes
join_words [] = []
join_words (w ∷ []) = w
join_words (w ∷ v ∷ ws) = w ++ (32 ∷ join_words (v ∷ ws))

-- A line of the list of files, if it is a YAML file
unfoldable pub is_yaml : Bytes → Bool
is_yaml line =
    not (is_nil line) && (has_suffix line (codes ".yaml") || has_suffix line (codes ".yml"))

unfoldable pub yaml_lines : List Bytes → List Bytes
yaml_lines [] = []
yaml_lines (l ∷ ls) =
    let line = trim_space l in
    let rest = yaml_lines ls in if is_yaml line then line ∷ rest else rest

lines_of : Bytes × List Bytes → List Bytes
lines_of (first, others) = yaml_lines (first ∷ others)

-- The loop of listUntrackedYAML over what git prints
unfoldable pub untracked_yaml : Bytes → List Bytes
unfolding lines_of
untracked_yaml out = lines_of (split (trim_space out) (10 ∷ []))

module _ (g : Git) where
  open g use {World}

  -- The number of files, or the text of the error
  abbrev pub Counted : Type 0
  Counted = World × Result Bytes ℕ

  failed : Bytes → Bytes × Bytes → Bytes
  failed label (e, out) = label ++ codes ": " ++ e ++ codes " (" ++ trim_space out ++ codes ")"

  after_commit : ℕ → World × Option (Bytes × Bytes) → Counted
  unfolding failed
  after_commit n (w, none) = (w, ok n)
  after_commit n (w, some (e, out)) =
      let msg = trim_space out in
      if contains msg (codes "nothing to commit") || contains msg (codes "nothing added to commit")
      then (w, ok 0)
      else (w, err (failed (codes "git commit") (e, out)))

  after_add : Bytes → ℕ → World × Option (Bytes × Bytes) → Counted
  unfolding failed after_commit
  after_add message n (w, some x) = (w, err (failed (codes "git add") x))
  after_add message n (w, none) = after_commit n (g.commit w message)

  after_list : Bytes → World × Result Bytes Bytes → Counted
  unfolding after_add
  after_list message (w, err e) = (w, err (codes "git ls-files: " ++ e))
  after_list message (w, ok out) = let files = untracked_yaml out in add_files files
    where
      add_files : List Bytes → Counted
      add_files [] = (w, ok 0)
      add_files (f ∷ fs) = after_add message (length (f ∷ fs)) (g.add w (f ∷ fs))

  after_stat : Bytes → World → Option Bytes → Counted
  unfolding after_list
  after_stat message w (some e) = (w, err (codes "data_dir is not a git repository: " ++ e))
  after_stat message w none = after_list message (g.ls_files w)

  -- commitUntrackedYAMLLocked
  unfoldable pub commit_untracked_yaml_locked : World → Bytes → Counted
  unfolding after_stat
  commit_untracked_yaml_locked w message = after_stat message w (g.stat w)

  -- commitIfEnabled
  unfoldable pub commit_if_enabled : Variables → World → Bytes → Counted
  commit_if_enabled v w message =
      if git_commit_enabled v then commit_untracked_yaml_locked w message else (w, ok 0)

  after_push : List Bytes → World × Option (Bytes × Bytes) → World × Result Bytes Bool
  unfolding failed join_words
  after_push args (w, none) = (w, ok true)
  after_push args (w, some x) = (w, err (failed (codes "git " ++ join_words args) x))

  -- pushIfEnabled, with gitPushLocked
  unfoldable pub push_if_enabled : Variables → World → World × Result Bytes Bool
  unfolding after_push
  push_if_enabled v w =
      if git_push_enabled v
      then after_push (git_push_args v) (g.push w (git_push_args v))
      else (w, ok false)

  synced : ℕ → World × Result Bytes Bool → World × GitSyncResult × Option Bytes
  synced n (w, ok p) = (w, record { committed_files = n; pushed = p }, none)
  synced n (w, err e) = (w, record { committed_files = n; pushed = false }, some e)

  after_commit_step : Variables → Counted → World × GitSyncResult × Option Bytes
  unfolding synced
  after_commit_step v (w, err e) = (w, record { committed_files = 0; pushed = false }, some e)
  after_commit_step v (w, ok n) = synced n (push_if_enabled v w)

  -- syncGitYAML
  unfoldable pub sync_git_yaml : Variables → World → Bytes → World × GitSyncResult × Option Bytes
  unfolding after_commit_step
  sync_git_yaml v w message = after_commit_step v (commit_if_enabled v w message)
