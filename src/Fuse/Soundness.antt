-- ===== src/Fuse/Soundness.antt =====
-- Every handler of src/fs/fuse.rs keeps the tables of handles sound.
use cryptomator_rs.Common.{
  ℕ, suc, ◌+◌, ◌<◌, ◌==◌, refl, inl, inr, List, [], ◌∷◌, ◌++◌, length, Option, none, some, Bool,
  true, false, if◌then◌else◌, panic, arith, u64_limit, Option-cases, ℤ, pos, negsuc,
}
use cryptomator_rs.DirTree
use cryptomator_rs.DirTree.{DirTree}
use cryptomator_rs.Disk.Handles.{OpenFile}
use cryptomator_rs.Fuse.Attributes.{file_attr}
use cryptomator_rs.EncryptedFile.{start, seek_file}
use cryptomator_rs.FileSystem.{DirEntry, cipher}
use cryptomator_rs.FilePath.{Name, FilePath, file_name, parent, join}
use cryptomator_rs.Fuse.Dirs
use cryptomator_rs.Fuse.Dirs.{list_from, offset_of}
use cryptomator_rs.Fuse.Entries
use cryptomator_rs.Fuse.Entries.{TimeOrNow}
use cryptomator_rs.Fuse.Files
use cryptomator_rs.Fuse.Files.{seek_to_offset, at_handle}
use cryptomator_rs.Fuse.Handles.{
  IsFree, GivesFree, Keeps, Good, AtOpen, error-Good, on_disk-Good, with_path-Good, with_inode-Good,
  reply-Good, on_open-AtOpen, reply-AtOpen, at_handle-Good,
}
use cryptomator_rs.Fuse.Requests.{Request, serve, serve_all}
use cryptomator_rs.Fuse.Tables.{
  Sound, set_file-Table, set_dir-Table, add_file-Sound, add_dir-Sound, next_of-le,
}
use cryptomator_rs.Fuse.{
  Mount, Reply, enotsup, enotempty, opened, created, add_file, Listed, on_open, Handler, reply,
  entry, attr, bytes, done, written, listed, died,
}
use cryptomator_rs.Primitives.{Primitives}
use cryptomator_rs.Vault.{Vault}

-- A test between two replies, and a change of the tree.
if-AtOpen :
    (fh : ℕ) (b : Bool) (x y : Handler) → AtOpen fh x → AtOpen fh y → AtOpen fh (if b then x else y)
if-AtOpen fh true x y gx gy = gx
if-AtOpen fh false x y gx gy = gy

if-Keeps :
    (m : Mount) (b : Bool) (x y : Reply × Mount)
    → Keeps m x
    → Keeps m y
    → Keeps m (if b then x else y)
if-Keeps m true x y kx ky = kx
if-Keeps m false x y kx ky = ky

module _ (p : Primitives) (v : Vault) where
  seek_to_offset-AtOpen :
      (fh : ℕ) (offset : ℤ) (e : OpenFile) (next : OpenFile → Handler)
      → ((e : OpenFile) → AtOpen fh (next e))
      → AtOpen fh (seek_to_offset p v fh offset e next)
  unfolding seek_to_offset on_open
  seek_to_offset-AtOpen fh (negsuc n) e next good = reply-AtOpen fh (died panic) (λ _ _. tt)
  seek_to_offset-AtOpen fh (pos n) e next good =
      on_open-AtOpen fh e (seek_file (cipher p v) (start n)) _ (λ position e'.
        if-AtOpen fh (position == n) (next e') (reply (died panic)) (good e')
          (reply-AtOpen fh (died panic) (λ _ _. tt)))

  reply_attr-Good : (inode : ℕ) (path : FilePath) → Good (Entries.reply_attr p v inode path)
  reply_attr-Good inode path = on_disk-Good _ _ _ (λ e. reply-Good (attr _) (λ _ _. tt))

  reply_entry-Good : (path : FilePath) (e : DirEntry) → Good (Entries.reply_entry p v path e)
  reply_entry-Good path e = with_inode-Good _ _ (λ inode. reply-Good (entry _) (λ _ _. tt))

  lookup-Good : (parent : ℕ) (name : Name) → Good (Entries.lookup p v parent name)
  unfolding Entries.lookup
  lookup-Good parent name =
      with_path-Good _ _ (λ path. on_disk-Good _ _ _ (λ e. reply_entry-Good (join path name) e))

  getattr-Good : (inode : ℕ) → Good (Entries.getattr p v inode)
  unfolding Entries.getattr
  getattr-Good inode = with_path-Good _ _ (λ path. elim (Option-cases (parent path)) [
    | inl top ↦ rw top (on_disk-Good _ _ _ (λ meta. reply-Good (attr _) (λ _ _. tt)))
    | inr (above, below) ↦ rw below (reply_attr-Good inode path)
  ])

  set_mode-Good :
      (mode : Option ℕ) (path : FilePath) (next : Handler)
      → Good next
      → Good (Entries.set_mode p v mode path next)
  set_mode-Good none path next good = good
  set_mode-Good (some mode) path next good = on_disk-Good _ _ _ (λ _. good)

  setattr-Good :
      (clocks : ℕ × ℕ) (inode : ℕ) (mode : Option ℕ) (atime mtime : Option TimeOrNow)
      → Good (Entries.setattr p v clocks inode mode atime mtime)
  unfolding Entries.setattr
  setattr-Good clocks inode mode atime mtime = with_path-Good _ _ (λ path.
      elim (Option-cases (parent path)) [
        | inl top ↦ rw top (error-Good enotsup)
        | inr (above, below) ↦
            rw below
              (set_mode-Good mode path _ (on_disk-Good _ _ _ (λ _. reply_attr-Good inode path)))
      ])

  readlink-Good : (inode : ℕ) → Good (Entries.readlink p v inode)
  unfolding Entries.readlink
  readlink-Good inode =
      with_path-Good _ _
        (λ path. on_disk-Good _ _ _ (λ target. reply-Good (bytes target) (λ _ _. tt)))

  mknod-Good : (parent : ℕ) (name : Name) (mode : ℕ) → Good (Entries.mknod p v parent name mode)
  unfolding Entries.mknod
  mknod-Good parent name mode =
      with_path-Good _ _ (λ path. on_disk-Good _ _ _ (λ e. reply_entry-Good (join path name) e))

  mkdir-Good :
      (uuid : List ℕ → Name) (parent : ℕ) (name : Name) (mode : ℕ)
      → Good (Entries.mkdir p v uuid parent name mode)
  unfolding Entries.mkdir
  mkdir-Good uuid parent name mode =
      with_path-Good _ _ (λ path. on_disk-Good _ _ _ (λ e. reply_entry-Good (join path name) e))

  symlink-Good : (parent : ℕ) (name target : Name) → Good (Entries.symlink p v parent name target)
  unfolding Entries.symlink
  symlink-Good parent name target =
      with_path-Good _ _ (λ path. on_disk-Good _ _ _ (λ e. reply_entry-Good (join path name) e))

  done-Good : (next : Mount → DirTree) → Good (λ m. (done, record m { tree = next m }))
  done-Good next m s room = record { sound = s; near = omega arith; gives_free = tt }

  unlink-Good : (parent : ℕ) (name : Name) → Good (Entries.unlink p v parent name)
  unfolding Entries.unlink
  unlink-Good parent name =
      with_path-Good _ _
        (λ path. on_disk-Good _ _ _ (λ _. done-Good (λ m. DirTree.remove parent name m.tree)))

  remove_empty-Good :
      (parent : ℕ) (path : FilePath) (name : Name) (entries : List (FilePath × DirEntry))
      → Good (Entries.remove_empty p v parent path name entries)
  remove_empty-Good parent path name (e ∷ es) = error-Good enotempty
  remove_empty-Good parent path name [] =
      on_disk-Good _ _ _ (λ _. done-Good (λ m. DirTree.remove parent name m.tree))

  rmdir-Good : (parent : ℕ) (name : Name) → Good (Entries.rmdir p v parent name)
  unfolding Entries.rmdir
  rmdir-Good parent name =
      with_path-Good _ _
        (λ path. on_disk-Good _ _ _ (λ entries. remove_empty-Good parent path name entries))

  rename-Good :
      (parent : ℕ) (name : Name) (new_parent : ℕ) (new_name : Name)
      → Good (Entries.rename p v parent name new_parent new_name)
  unfolding Entries.rename
  rename-Good parent name new_parent new_name = with_path-Good _ _ (λ path.
      with_path-Good _ _ (λ new_path.
        on_disk-Good _ _ _
          (λ _. done-Good (λ m. DirTree.rename parent name new_parent new_name m.tree))))

  add_file-Good :
      (e : OpenFile) (r : Mount → Reply)
      → ((m : Mount)
          → (files : ℕ → Option OpenFile) → (dirs : ℕ → Option (List (FilePath × DirEntry)))
          → IsFree files dirs m.next_handle
          → GivesFree files dirs (r m))
      → Good (λ m. (r m, add_file e m))
  add_file-Good e r gives m s room = record {
    sound = add_file-Sound e m room s;
    near = next_of-le m room;
    gives_free = gives m m.open_files m.open_dirs (s.unused m.next_handle (omega arith));
  }

  open_inode-Good : (inode flags : ℕ) → Good (Files.open_inode p v inode flags)
  unfolding Files.open_inode
  open_inode-Good inode flags = with_path-Good _ _ (λ path.
      on_disk-Good _ _ _
        (λ e. add_file-Good e (λ m. opened m.next_handle flags) (λ m files dirs free. free)))

  create-Good :
      (parent : ℕ) (name : Name) (mode umask flags : ℕ)
      → Good (Files.create p v parent name mode umask flags)
  unfolding Files.create
  create-Good parent name mode umask flags = with_path-Good _ _ (λ path.
      on_disk-Good _ _ _ (λ entry. with_inode-Good _ _ (λ inode. on_disk-Good _ _ _ (λ e.
        add_file-Good e (λ m. created (file_attr inode entry) m.next_handle flags)
          (λ m files dirs free. free)))))

  read-Good : (fh : ℕ) (offset : ℤ) (size : ℕ) → Good (Files.read p v fh offset size)
  unfolding Files.read
  read-Good fh offset size = at_handle-Good fh _ (λ e.
      seek_to_offset-AtOpen fh offset e _
        (λ e. on_open-AtOpen fh e _ _ (λ (_, buf) _. reply-AtOpen fh (bytes buf) (λ _ _. tt))))

  write-Good : (fh : ℕ) (offset : ℤ) (content : List ℕ) → Good (Files.write p v fh offset content)
  unfolding Files.write
  write-Good fh offset content = at_handle-Good fh _ (λ e.
      seek_to_offset-AtOpen fh offset e _
        (λ e. on_open-AtOpen fh e _ _ (λ _ _. reply-AtOpen fh (written _) (λ _ _. tt))))

  flush-Good : (fh : ℕ) → Good (Files.flush p v fh)
  unfolding Files.flush
  flush-Good fh =
      at_handle-Good fh _ (λ e. on_open-AtOpen fh e _ _ (λ _ _. reply-AtOpen fh done (λ _ _. tt)))

  fsync-Good : (fh : ℕ) → Good (Files.fsync p v fh)
  unfolding Files.fsync
  fsync-Good fh =
      at_handle-Good fh _ (λ e. on_open-AtOpen fh e _ _ (λ _ _. reply-AtOpen fh done (λ _ _. tt)))

  release-Good : (fh : ℕ) → Good (Files.release p v fh)
  unfolding Files.release
  release-Good fh m s room = record {
    sound = set_file-Table fh none (λ _. refl) (inl refl) s;
    near = omega arith;
    gives_free = tt;
  }

  opendir-Good : (inode flags : ℕ) → Good (Dirs.opendir p v inode flags)
  unfolding Dirs.opendir
  opendir-Good inode flags = with_path-Good _ _ (λ path. on_disk-Good _ _ _ (λ entries m s room.
      record {
        sound = add_dir-Sound entries m room s;
        near = next_of-le m room;
        gives_free = s.unused m.next_handle (omega arith);
      }))

list_from-Good :
    (fits : List Listed → Listed → Bool) (i : ℕ) (before : List Listed)
    → (entries : List (FilePath × DirEntry)) → Good (list_from fits i before entries)
unfolding list_from
list_from-Good fits i before [] m s room = record { sound = s; near = omega arith; gives_free = tt }
list_from-Good fits i before ((path, e) ∷ rest) m s room = elim (Option-cases (file_name path)) [
  | inl nameless ↦
      rw (list_from, nameless) (record { sound = s; near = omega arith; gives_free = tt })
  | inr (name, named) ↦
      rw (list_from, named)
        (with_inode-Good path _
          (λ inode m s room.
            if-Keeps m _ _ (listed before, m)
              (list_from-Good fits (suc i)
                (before
                  ++ ((record { inode = inode; next_offset = suc i; kind = e.kind; name = name }
                      ∷ [])))
                rest m s room)
              (record { sound = s; near = omega arith; gives_free = tt }))
          m s room)
]

readdir-Good :
    (fits : List Listed → Listed → Bool) (fh : ℕ) (offset : ℤ) → Good (Dirs.readdir fits fh offset)
unfolding Dirs.readdir
readdir-Good fits fh offset m s room = elim (Option-cases (m.open_dirs fh)) [
  | inl closed ↦
      rw (Dirs.readdir, closed) (record { sound = s; near = omega arith; gives_free = tt })
  | inr (entries, in_table) ↦ rw (Dirs.readdir, in_table) (list_from-Good fits _ _ _ m s room)
]

releasedir-Good : (fh : ℕ) → Good (Dirs.releasedir fh)
unfolding Dirs.releasedir
releasedir-Good fh m s room = elim (Option-cases (m.open_dirs fh)) [
  | inl closed ↦
      rw (Dirs.releasedir, closed) (record { sound = s; near = omega arith; gives_free = tt })
  | inr (entries, in_table) ↦
      rw (Dirs.releasedir, in_table)
        (record {
          sound = set_dir-Table fh none (λ _. refl) (inl refl) s;
          near = omega arith;
          gives_free = tt;
        })
]

module _ (p : Primitives) (v : Vault) (uuid : List ℕ → Name)
    (fits : List Listed → Listed → Bool) where
  -- On a mount where no handle from the next one on is in use and none is both a file's and a
  -- directory's, while the numbers last, every request keeps this so and uses at most one number,
  -- and a handle that the reply gives out was free before.
  pub serve-Good :
      (r : Request) (m : Mount)
      → Sound m
      → suc m.next_handle < u64_limit
      → Keeps m (serve p v uuid fits r m)
  unfolding serve
  serve-Good (Request.lookup parent name) = lookup-Good p v parent name
  serve-Good (Request.getattr inode) = getattr-Good p v inode
  serve-Good (Request.setattr clocks inode mode atime mtime) =
      setattr-Good p v clocks inode mode atime mtime
  serve-Good (Request.readlink inode) = readlink-Good p v inode
  serve-Good (Request.mknod parent name mode) = mknod-Good p v parent name mode
  serve-Good (Request.mkdir parent name mode) = mkdir-Good p v uuid parent name mode
  serve-Good (Request.unlink parent name) = unlink-Good p v parent name
  serve-Good (Request.rmdir parent name) = rmdir-Good p v parent name
  serve-Good (Request.symlink parent link_name target) = symlink-Good p v parent link_name target
  serve-Good (Request.rename parent name new_parent new_name) =
      rename-Good p v parent name new_parent new_name
  serve-Good (Request.open_inode inode flags) = open_inode-Good p v inode flags
  serve-Good (Request.read fh offset size) = read-Good p v fh offset size
  serve-Good (Request.write fh offset content) = write-Good p v fh offset content
  serve-Good (Request.flush fh) = flush-Good p v fh
  serve-Good (Request.release fh) = release-Good p v fh
  serve-Good (Request.fsync fh) = fsync-Good p v fh
  serve-Good (Request.opendir inode flags) = opendir-Good p v inode flags
  serve-Good (Request.readdir fh offset) = readdir-Good fits fh offset
  serve-Good (Request.releasedir fh) = releasedir-Good fh
  serve-Good (Request.create parent name mode umask flags) =
      create-Good p v parent name mode umask flags

  -- From a mount where no handle from the next one on is in use and none is both a file's and a
  -- directory's, every sequence of fewer requests than numbers are left keeps this so.
  pub serve_all-Sound :
      (rs : List Request) (m : Mount)
      → Sound m
      → m.next_handle + length rs < u64_limit
      → Sound (serve_all p v uuid fits rs m)
  unfolding serve_all
  serve_all-Sound [] m s room = s
  serve_all-Sound (r ∷ rs) m s room =
      let k : Keeps m (serve p v uuid fits r m) = serve-Good r m s (omega arith) in
      serve_all-Sound rs (serve p v uuid fits r m).1 k.sound (omega (arith, k.near))
