-- ===== src/Fuse/Entries.antt =====
-- The handlers of src/fs/fuse.rs on entries: lookup, attributes, making, removing and renaming.
use cryptomator_rs.Common.{ℕ, List, [], ◌∷◌, Option, none, some}
use cryptomator_rs.DirTree
use cryptomator_rs.DirTree.{fuse_root_id}
use cryptomator_rs.Disk.{FileTimes, Metadata}
use cryptomator_rs.FileSystem.Attributes.{change_permissions, change_times}
use cryptomator_rs.FileSystem.Making
use cryptomator_rs.FileSystem.Removing
use cryptomator_rs.FileSystem.Renaming
use cryptomator_rs.FileSystem.{
  DirEntry, directory, dir_entry, dir_entries, link_target, root_metadata,
}
use cryptomator_rs.FilePath.{Name, FilePath, join, parent}
use cryptomator_rs.Fuse.Attributes.{file_attr}
use cryptomator_rs.Fuse.{
  Reply, entry, attr, bytes, done, error, enoent, eio, enotsup, enotempty, Handler, reply, on_disk,
  with_path, with_inode,
}
use cryptomator_rs.Primitives.{Primitives}
use cryptomator_rs.Vault.{Vault}

-- `fuser::TimeOrNow`.
pub data TimeOrNow : Type 0 where
  specific_time : ℕ → TimeOrNow
  now : TimeOrNow

-- The time to set, if any, where the clock shows this much.
abbrev pub time_at : ℕ → Option TimeOrNow → Option ℕ
time_at clock none = none
time_at clock (some (specific_time t)) = some t
time_at clock (some now) = some clock

module _ (p : Primitives) (v : Vault) where
  -- The attributes of a path under a number.
  abbrev pub reply_attr : ℕ → FilePath → Handler
  reply_attr inode path = on_disk eio (dir_entry p v path) (λ e. reply (attr (file_attr inode e)))

  -- An entry's path gets a number.
  abbrev pub reply_entry : FilePath → DirEntry → Handler
  reply_entry path e = with_inode path (λ inode. reply (entry (file_attr inode e)))

  unfoldable pub lookup : ℕ → Name → Handler
  unfolding dir_entry
  lookup parent name = with_path parent (λ parent_path.
      on_disk enoent (dir_entry p v (join parent_path name))
        (λ e. reply_entry (join parent_path name) e))

  -- The root has no entry: its attributes are those of its directory in the vault.
  abbrev root_attr : Metadata → Reply
  root_attr meta =
      attr (file_attr fuse_root_id (record { kind = directory; size = meta.len; metadata = meta }))

  unfoldable pub getattr : ℕ → Handler
  unfolding dir_entry root_metadata
  getattr inode = with_path inode (λ path. elim (parent path) [
    | none ↦ on_disk eio (root_metadata p v) (λ meta. reply (root_attr meta))
    | some _ ↦ reply_attr inode path
  ])

  -- The mode first, if it is given.
  abbrev pub set_mode : Option ℕ → FilePath → Handler → Handler
  set_mode none path next = next
  set_mode (some mode) path next = on_disk eio (change_permissions p v path mode) (λ _. next)

  -- The clock is read twice: for the two times that may be "now".
  unfoldable pub setattr : ℕ × ℕ → ℕ → Option ℕ → Option TimeOrNow → Option TimeOrNow → Handler
  setattr clocks inode mode atime mtime =
      let times : FileTimes = record {
        set_accessed = time_at clocks.0 atime;
        set_modified = time_at clocks.1 mtime;
      } in
      with_path inode (λ path. elim (parent path) [
        | none ↦ reply (error enotsup)
        | some _ ↦
            set_mode mode path
              (on_disk eio (change_times p v path times) (λ _. reply_attr inode path))
      ])

  unfoldable pub readlink : ℕ → Handler
  unfolding link_target
  readlink inode =
      with_path inode (λ path. on_disk eio (link_target p v path) (λ target. reply (bytes target)))

  unfoldable pub mknod : ℕ → Name → ℕ → Handler
  unfolding Making.mknod
  mknod parent name mode =
      with_path parent (λ path.
        on_disk eio (Making.mknod p v path name mode) (λ e. reply_entry (join path name) e))

  unfoldable pub mkdir : (List ℕ → Name) → ℕ → Name → ℕ → Handler
  unfolding Making.mkdir
  mkdir uuid parent name mode = with_path parent (λ path.
      on_disk eio (Making.mkdir p v uuid path name mode) (λ e. reply_entry (join path name) e))

  unfoldable pub symlink : ℕ → Name → Name → Handler
  unfolding Making.symlink
  symlink parent link_name target = with_path parent (λ path.
      on_disk eio (Making.symlink p v path link_name target)
        (λ e. reply_entry (join path link_name) e))

  -- `self.tree.remove(parent, name)`, and then the reply.
  abbrev forget_entry : ℕ → Name → Handler
  forget_entry parent name m = (done, record m { tree = DirTree.remove parent name m.tree })

  unfoldable pub unlink : ℕ → Name → Handler
  unfolding Removing.unlink
  unlink parent name =
      with_path parent
        (λ path. on_disk eio (Removing.unlink p v path name) (λ _. forget_entry parent name))

  -- Only an empty directory goes.
  abbrev pub remove_empty : ℕ → FilePath → Name → List (FilePath × DirEntry) → Handler
  remove_empty parent path name (_ ∷ _) = reply (error enotempty)
  remove_empty parent path name [] =
      on_disk eio (Removing.rmdir p v path name) (λ _. forget_entry parent name)

  unfoldable pub rmdir : ℕ → Name → Handler
  unfolding dir_entries Removing.rmdir
  rmdir parent name = with_path parent (λ path.
      on_disk eio (dir_entries p v (join path name))
        (λ entries. remove_empty parent path name entries))

  unfoldable pub rename : ℕ → Name → ℕ → Name → Handler
  unfolding Renaming.rename
  rename parent name new_parent new_name = with_path parent (λ old_path.
      with_path new_parent (λ new_path.
        on_disk eio (Renaming.rename p v old_path name new_path new_name) (λ _ m.
          (done, record m { tree = DirTree.rename parent name new_parent new_name m.tree }))))
