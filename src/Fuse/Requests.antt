-- ===== src/Fuse/Requests.antt =====
-- The requests that the kernel sends to src/fs/fuse.rs, and the handlers that answer them.
use cryptomator_rs.Common.{ℕ, List, [], ◌∷◌, Option, Bool, ℤ}
use cryptomator_rs.FilePath.{Name}
use cryptomator_rs.Fuse.Dirs
use cryptomator_rs.Fuse.Entries
use cryptomator_rs.Fuse.Entries.{TimeOrNow}
use cryptomator_rs.Fuse.Files
use cryptomator_rs.Fuse.{Mount, Listed, Handler}
use cryptomator_rs.Primitives.{Primitives}
use cryptomator_rs.Vault.{Vault}

-- Without what the handlers ignore. `setattr` comes with the clock's two answers.
pub data Request : Type 0 where
  lookup : ℕ → Name → Request
  getattr : ℕ → Request
  setattr : ℕ × ℕ → ℕ → Option ℕ → Option TimeOrNow → Option TimeOrNow → Request
  readlink : ℕ → Request
  mknod : ℕ → Name → ℕ → Request
  mkdir : ℕ → Name → ℕ → Request
  unlink rmdir : ℕ → Name → Request
  symlink : ℕ → Name → Name → Request
  rename : ℕ → Name → ℕ → Name → Request
  open_inode : ℕ → ℕ → Request
  read : ℕ → ℤ → ℕ → Request
  write : ℕ → ℤ → List ℕ → Request
  flush release fsync : ℕ → Request
  opendir : ℕ → ℕ → Request
  readdir : ℕ → ℤ → Request
  releasedir : ℕ → Request
  create : ℕ → Name → ℕ → ℕ → ℕ → Request

module _ (p : Primitives) (v : Vault) (uuid : List ℕ → Name)
    (fits : List Listed → Listed → Bool) where
  unfoldable pub serve : Request → Handler
  unfolding Entries.lookup Entries.getattr Entries.setattr Entries.readlink Entries.mknod
      Entries.mkdir Entries.unlink Entries.rmdir Entries.symlink Entries.rename Files.open_inode
      Files.read Files.write Files.flush Files.release Files.fsync Dirs.opendir Dirs.readdir
      Dirs.releasedir Files.create
  serve (lookup parent name) = Entries.lookup p v parent name
  serve (getattr inode) = Entries.getattr p v inode
  serve (setattr clocks inode mode atime mtime) = Entries.setattr p v clocks inode mode atime mtime
  serve (readlink inode) = Entries.readlink p v inode
  serve (mknod parent name mode) = Entries.mknod p v parent name mode
  serve (mkdir parent name mode) = Entries.mkdir p v uuid parent name mode
  serve (unlink parent name) = Entries.unlink p v parent name
  serve (rmdir parent name) = Entries.rmdir p v parent name
  serve (symlink parent link_name target) = Entries.symlink p v parent link_name target
  serve (rename parent name new_parent new_name) =
      Entries.rename p v parent name new_parent new_name
  serve (open_inode inode flags) = Files.open_inode p v inode flags
  serve (read fh offset size) = Files.read p v fh offset size
  serve (write fh offset content) = Files.write p v fh offset content
  serve (flush fh) = Files.flush p v fh
  serve (release fh) = Files.release p v fh
  serve (fsync fh) = Files.fsync p v fh
  serve (opendir inode flags) = Dirs.opendir p v inode flags
  serve (readdir fh offset) = Dirs.readdir fits fh offset
  serve (releasedir fh) = Dirs.releasedir fh
  serve (create parent name mode umask flags) = Files.create p v parent name mode umask flags

  -- One after the other; the replies are gone.
  unfoldable pub serve_all : List Request → Mount → Mount
  unfolding serve
  serve_all [] m = m
  serve_all (r ∷ rs) m = serve_all rs (serve r m).1
