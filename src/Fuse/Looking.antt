-- ===== src/Fuse/Looking.antt =====
-- The requests to src/fs/fuse.rs that only look.
use cryptomator_rs.Common.{
  ℕ, suc, ◌≡◌, refl, ◌∙◌, List, [], ◌∷◌, ◌++◌, drop, ℤ, Option, none, some, Bool, true, false,
  if◌then◌else◌, Result, ok, err, Option-cases, inl, inr,
}
use cryptomator_rs.DirTree.{DirTree, get_path, insert_path}
use cryptomator_rs.Disk.ReadOnly.{ReadOnly}
use cryptomator_rs.Disk.{World, Io}
use cryptomator_rs.FileSystem.ReadOnly.{
  dir_entry-ReadOnly, dir_entries-ReadOnly, root_metadata-ReadOnly,
}
use cryptomator_rs.FileSystem.{DirEntry}
use cryptomator_rs.FilePath.{Name, FilePath, file_name, parent, join}
use cryptomator_rs.Fuse.Dirs
use cryptomator_rs.Fuse.Dirs.{list_from, offset_of}
use cryptomator_rs.Fuse.Entries
use cryptomator_rs.Fuse.Requests.{Request, serve}
use cryptomator_rs.Fuse.{
  Mount, Reply, Errno, Listed, Handler, on_disk, served, with_path, with_inode, found_path,
  numbered,
}
use cryptomator_rs.Primitives.{Primitives}
use cryptomator_rs.Vault.{Vault}

abbrev Looks : Handler → Type 0
Looks h = (m : Mount) → (h m).1.disk ≡ m.disk

served-same :
    {A : Type 0} (code : Errno) (next : A → Handler) (m : Mount) (out : Result A × World)
    → ((a : A) → Looks (next a))
    → (served code next m out).1.disk ≡ out.1
served-same code next m (ok a, w) looks = looks a (record m { disk = w })
served-same code next m (err e, w) looks = refl

on_disk-Looks :
    {A : Type 0} (code : Errno) (action : Io A) (next : A → Handler)
    → ReadOnly action
    → ((a : A) → Looks (next a))
    → Looks (on_disk code action next)
unfolding on_disk
on_disk-Looks code action next same looks m =
    served-same code next m (action m.disk) looks ∙ same m.disk

found_path-same :
    (next : FilePath → Handler) (m : Mount) (out : Result (Option FilePath))
    → ((path : FilePath) → Looks (next path))
    → (found_path next m out).1.disk ≡ m.disk
found_path-same next m (ok (some path)) looks = looks path m
found_path-same next m (ok none) looks = refl
found_path-same next m (err e) looks = refl

with_path-Looks :
    (inode : ℕ) (next : FilePath → Handler)
    → ((path : FilePath) → Looks (next path))
    → Looks (with_path inode next)
unfolding with_path
with_path-Looks inode next looks m =
    found_path-same next m (get_path (suc m.tree.next_inode) inode m.tree) looks

numbered-same :
    (next : ℕ → Handler) (m : Mount) (out : Result (ℕ × DirTree))
    → ((inode : ℕ) → Looks (next inode))
    → (numbered next m out).1.disk ≡ m.disk
numbered-same next m (ok (inode, t)) looks = looks inode (record m { tree = t })
numbered-same next m (err e) looks = refl

with_inode-Looks :
    (path : FilePath) (next : ℕ → Handler)
    → ((inode : ℕ) → Looks (next inode))
    → Looks (with_inode path next)
unfolding with_inode
with_inode-Looks path next looks m = numbered-same next m (insert_path path m.tree) looks

if-same :
    (m : Mount) (b : Bool) (x y : Reply × Mount)
    → x.1.disk ≡ m.disk
    → y.1.disk ≡ m.disk
    → (if b then x else y).1.disk ≡ m.disk
if-same m true x y first second = first
if-same m false x y first second = second

list_from-Looks :
    (fits : List Listed → Listed → Bool) (i : ℕ) (before : List Listed)
    → (entries : List (FilePath × DirEntry)) → Looks (list_from fits i before entries)
unfolding list_from
list_from-Looks fits i before [] m = refl
list_from-Looks fits i before ((path, e) ∷ rest) m = elim (Option-cases (file_name path)) [
  | inl nameless ↦ rw (list_from, nameless) refl
  | inr (name, named) ↦
      rw (list_from, named)
        (with_inode-Looks path _
          (λ inode m.
            if-same m _ _ _
              (list_from-Looks fits (suc i)
                (before
                  ++ ((record { inode = inode; next_offset = suc i; kind = e.kind; name = name })
                      ∷ []))
                rest m)
              refl)
          m)
]

readdir-Looks :
    (fits : List Listed → Listed → Bool) (fh : ℕ) (offset : ℤ) → Looks (Dirs.readdir fits fh offset)
unfolding Dirs.readdir
readdir-Looks fits fh offset m = elim (Option-cases (m.open_dirs fh)) [
  | inl closed ↦ rw (Dirs.readdir, closed) refl
  | inr (entries, in_table) ↦
      rw (Dirs.readdir, in_table)
        (list_from-Looks fits (offset_of fits offset) [] (drop (offset_of fits offset) entries) m)
]

-- The requests that ask about entries and directories.
abbrev pub IsLook : Request → Type 0
IsLook (Request.lookup parent name) = Unit {0}
IsLook (Request.getattr inode) = Unit {0}
IsLook (Request.opendir inode flags) = Unit {0}
IsLook (Request.readdir fh offset) = Unit {0}
IsLook (Request.releasedir fh) = Unit {0}
IsLook _ = ⊥

releasedir-Looks : (fh : ℕ) → Looks (Dirs.releasedir fh)
unfolding Dirs.releasedir
releasedir-Looks fh m = elim (Option-cases (m.open_dirs fh)) [
  | inl closed ↦ rw (Dirs.releasedir, closed) refl
  | inr (entries, in_table) ↦ rw (Dirs.releasedir, in_table) refl
]

module _ (p : Primitives) (v : Vault) (uuid : List ℕ → Name)
    (fits : List Listed → Listed → Bool) where
  getattr-Looks : (inode : ℕ) → Looks (Entries.getattr p v inode)
  unfolding Entries.getattr
  getattr-Looks inode = with_path-Looks _ _ (λ path. elim (Option-cases (parent path)) [
    | inl top ↦ rw top (on_disk-Looks _ _ _ (root_metadata-ReadOnly p v) (λ meta m. refl))
    | inr (above, below) ↦
        rw below (on_disk-Looks _ _ _ (dir_entry-ReadOnly p v path) (λ e m. refl))
  ])

  -- The requests `lookup`, `getattr`, `opendir`, `readdir` and `releasedir` leave the disk as it
  -- was, whatever they are answered.
  pub serve-IsLook :
      (r : Request) (m : Mount) → IsLook r → (serve p v uuid fits r m).1.disk ≡ m.disk
  unfolding serve Entries.lookup Dirs.opendir
  serve-IsLook (Request.lookup parent name) m look =
      with_path-Looks _ _
        (λ path.
          on_disk-Looks _ _ _ (dir_entry-ReadOnly p v (join path name))
            (λ e. with_inode-Looks _ _ (λ inode m. refl)))
        m
  serve-IsLook (Request.getattr inode) m look = getattr-Looks inode m
  serve-IsLook (Request.setattr clocks inode mode atime mtime) m look = absurd look
  serve-IsLook (Request.readlink inode) m look = absurd look
  serve-IsLook (Request.mknod parent name mode) m look = absurd look
  serve-IsLook (Request.mkdir parent name mode) m look = absurd look
  serve-IsLook (Request.unlink parent name) m look = absurd look
  serve-IsLook (Request.rmdir parent name) m look = absurd look
  serve-IsLook (Request.symlink parent link_name target) m look = absurd look
  serve-IsLook (Request.rename parent name new_parent new_name) m look = absurd look
  serve-IsLook (Request.open_inode inode flags) m look = absurd look
  serve-IsLook (Request.create parent name mode umask flags) m look = absurd look
  serve-IsLook (Request.read fh offset size) m look = absurd look
  serve-IsLook (Request.write fh offset content) m look = absurd look
  serve-IsLook (Request.flush fh) m look = absurd look
  serve-IsLook (Request.fsync fh) m look = absurd look
  serve-IsLook (Request.release fh) m look = absurd look
  serve-IsLook (Request.opendir inode flags) m look =
      with_path-Looks _ _
        (λ path. on_disk-Looks _ _ _ (dir_entries-ReadOnly p v path) (λ entries m. refl)) m
  serve-IsLook (Request.readdir fh offset) m look = readdir-Looks fits fh offset m
  serve-IsLook (Request.releasedir fh) m look = releasedir-Looks fh m
