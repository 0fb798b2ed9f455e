-- ===== src/Fuse.antt =====
-- src/fs/fuse.rs: the mounted file system. A handler takes the mount and the request to the reply and
-- the mount behind it; the disk under the vault is part of the mount. The children have the handlers.
pub mod Attributes
pub mod Entries
pub mod Files
pub mod Dirs
pub mod Tables
pub mod Requests
pub mod Looking
pub mod Made
mod MadeTests
mod DirTests
pub mod Soundness
pub mod ReadWrite
pub mod Handles
mod Tests
use cryptomator_rs.Common.{
  ℕ, suc, ◌+◌, ◌%◌, ◌==◌, ◌≡◌, List, [], Option, none, some, Bool, true, false, if◌then◌else◌,
  Result, ok, err, Error, panic, out_of_fuel, io_invalid_data, u64_limit,
}
use cryptomator_rs.DirTree
use cryptomator_rs.DirTree.{DirTree, get_path, insert_path}
use cryptomator_rs.Disk.Handles.{OpenFile, run_file}
use cryptomator_rs.Disk.{World, Io}
use cryptomator_rs.FileSystem.{DirEntry, FileKind}
use cryptomator_rs.FilePath.{Name, FilePath}
use cryptomator_rs.Fuse.Attributes.{FileAttr}
use cryptomator_rs.Os.{Os}

-- The maps are functions. The vault, which does not change, is a parameter of the handlers.
pub record Mount : Type 0 where
  pub tree : DirTree
  pub open_dirs : ℕ → Option (List (FilePath × DirEntry))
  pub open_files : ℕ → Option OpenFile
  pub next_handle : ℕ
  pub disk : World

unfoldable pub new_mount : World → Mount
new_mount w = record {
  tree = DirTree.new;
  open_dirs = λ _. none;
  open_files = λ _. none;
  next_handle = 0;
  disk = w;
}

pub data Errno : Type 0 where
  enoent eio enotsup enotempty : Errno

-- An entry of a directory: inode, offset of the next entry, kind and name.
pub record Listed : Type 0 where
  pub inode : ℕ
  pub next_offset : ℕ
  pub kind : FileKind
  pub name : Name

-- `died` is no reply: the handler panicked. Replies with attributes say that these hold for `TTL`.
pub data Reply : Type 0 where
  entry attr : FileAttr → Reply
  bytes : List ℕ → Reply
  done : Reply
  -- handle, flags
  opened : ℕ → ℕ → Reply
  created : FileAttr → ℕ → ℕ → Reply
  written : ℕ → Reply
  listed : List Listed → Reply
  error : Errno → Reply
  died : Error → Reply

abbrev pub Handler : Type 0
Handler = Mount → Reply × Mount

abbrev pub reply : Reply → Handler
reply r m = (r, m)

-- A panic is no error value: it leaves the handler.
abbrev pub is_panic : Error → Bool
is_panic panic = true
is_panic out_of_fuel = true
is_panic (io_invalid_data e) = is_panic e
is_panic _ = false

abbrev pub failure : Errno → Error → Reply
failure code e = if is_panic e then died e else error code

-- A call on the file system; its failure is answered by a code.
abbrev pub served : {A : Type 0} → Errno → (A → Handler) → Mount → Result A × World → Reply × Mount
served code next m (ok a, w) = next a (record m { disk = w })
served code next m (err e, w) = (failure code e, record m { disk = w })

unfoldable pub on_disk : {A : Type 0} → Errno → Io A → (A → Handler) → Handler
on_disk code action next m = served code next m (action m.disk)

-- The path of an inode that the tree knows. The rounds are enough where every number is used once.
abbrev pub found_path : (FilePath → Handler) → Mount → Result (Option FilePath) → Reply × Mount
found_path next m (ok (some path)) = next path m
found_path next m (ok none) = (error enoent, m)
found_path next m (err e) = (died e, m)

unfoldable pub with_path : ℕ → (FilePath → Handler) → Handler
unfolding get_path
with_path inode next m = found_path next m (get_path (suc m.tree.next_inode) inode m.tree)

abbrev pub numbered : (ℕ → Handler) → Mount → Result (ℕ × DirTree) → Reply × Mount
numbered next m (ok (inode, t)) = next inode (record m { tree = t })
numbered next m (err e) = (died e, m)

-- `self.tree.insert_path(path)`.
unfoldable pub with_inode : FilePath → (ℕ → Handler) → Handler
unfolding insert_path
with_inode path next m = numbered next m (insert_path path m.tree)

-- A map with a new value for a key.
abbrev pub set_key {ℓ} : {A : Type ℓ} → ℕ → Option A → (ℕ → Option A) → ℕ → Option A
set_key key value map k = if k == key then value else map k

-- `fetch_add` wraps.
abbrev pub next_of : Mount → ℕ
next_of m = (m.next_handle + 1) % u64_limit

abbrev pub add_file : OpenFile → Mount → Mount
add_file e m = record m {
  open_files = set_key m.next_handle (some e) m.open_files;
  next_handle = next_of m;
}

abbrev pub add_dir : List (FilePath × DirEntry) → Mount → Mount
add_dir entries m = record m {
  open_dirs = set_key m.next_handle (some entries) m.open_dirs;
  next_handle = next_of m;
}

-- A computation on the open file of a handle, which stays in the table whatever comes out.
abbrev pub ran :
    {A : Type 0}
    → ℕ
    → (A → OpenFile → Handler)
    → Mount
    → (Result A × OpenFile) × World
    → Reply × Mount
ran fh next m ((ok a, e), w) =
    next a e (record m { open_files = set_key fh (some e) m.open_files; disk = w })
ran fh next m ((err failed, e), w) =
    (failure eio failed, record m { open_files = set_key fh (some e) m.open_files; disk = w })

unfoldable pub on_open :
    {A : Type 0} → ℕ → OpenFile → (Os → Result A × Os) → (A → OpenFile → Handler) → Handler
on_open fh e action next m = ran fh next m (run_file e action m.disk)
