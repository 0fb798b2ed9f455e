-- ===== src/Fuse/Made.antt =====
-- Looking up what src/fs/fuse.rs has just made.
use cryptomator_rs.Common.{
  ℕ, suc, ◌+◌, ◌≤◌, ◌<◌, ◌≡◌, refl, List, [], ◌∷◌, ◌++◌, length, take, some, true, ok, arith,
  u64_limit,
}
use cryptomator_rs.DirTree.Again.{insert_path_again, get_path-Spells}
use cryptomator_rs.DirTree.Inserting.{IsTree}
use cryptomator_rs.DirTree.Paths.{Spells, get_path_lem}
use cryptomator_rs.DirTree.{DirTree, fuse_root_id, get_path, insert_path}
use cryptomator_rs.Crypto.Cryptor.{hash_dir_id}
use cryptomator_rs.Crypto.{FileHeader}
use cryptomator_rs.Disk.Growing.{Grows}
use cryptomator_rs.Disk.Making.{Clear}
use cryptomator_rs.Disk.{World, Io, node_at, is_dir_node}
use cryptomator_rs.FileSystem.Directories.{IsDirectory, IsFree}
use cryptomator_rs.FileSystem.Making
use cryptomator_rs.FileSystem.NewDirectory.{mkdir_lem}
use cryptomator_rs.FileSystem.NewFile.{mknod_lem}
use cryptomator_rs.Os.Reading.{NoFault}
use cryptomator_rs.Os.{Lock}
use cryptomator_rs.Rng.{Rng}
use cryptomator_rs.FileSystem.{DirEntry, FileKind, cipher, dir_entry}
use cryptomator_rs.FilePath.Equality.{length-join}
use cryptomator_rs.FilePath.{Name, FilePath, d, join}
use cryptomator_rs.Fuse.Attributes.{file_attr}
use cryptomator_rs.Fuse.Entries
use cryptomator_rs.Fuse.Entries.{reply_entry}
use cryptomator_rs.Fuse.{Mount, Reply, Errno, Handler, on_disk, with_path, with_inode, found_path}
use cryptomator_rs.Primitives.{Primitives, Laws, TextLaws}
use cryptomator_rs.Vault.{Vault, cryptor}

-- A handler that makes an entry: the parent's path, the call on the file system, and the number.
module _ (p : Primitives) (v : Vault) (parent : ℕ) (up : FilePath) (name : Name) (m : Mount)
    (action : FilePath → Io DirEntry) (entry : DirEntry) (w : World) where
  abbrev making : Handler
  making =
      with_path parent
        (λ path. on_disk Errno.eio (action path) (λ e. reply_entry p v (join path name) e))

  -- The mount behind it.
  abbrev mount_behind : DirTree → Mount
  mount_behind t = record m { tree = t; disk = w }

  making_lem :
      (inode : ℕ) (t : DirTree)
      → get_path (suc m.tree.next_inode) parent m.tree ≡ ok (some up)
      → action up m.disk ≡ (ok entry, w)
      → insert_path (join up name) m.tree ≡ ok (inode, t)
      → making m ≡ (Reply.entry (file_attr inode entry), mount_behind t)
  unfolding with_path on_disk with_inode
  making_lem inode t known made inserted =
      rw (with_path, known) (rw (found_path, made) (rw inserted refl))

  lookup_lem :
      (inode : ℕ) (t : DirTree)
      → get_path (suc t.next_inode) parent t ≡ ok (some up)
      → dir_entry p v (join up name) w ≡ (ok entry, w)
      → insert_path (join up name) t ≡ ok (inode, t)
      → Entries.lookup p v parent name (mount_behind t)
        ≡ (Reply.entry (file_attr inode entry), mount_behind t)
  unfolding Entries.lookup with_path on_disk with_inode
  lookup_lem inode t known found inserted =
      rw (Entries.lookup, known) (rw (found_path, found) (rw inserted refl))

  pub made_then_looked_up :
      IsTree m.tree
      → Spells m.tree fuse_root_id []
      → m.tree.next_inode + length up + 1 < u64_limit
      → get_path (suc m.tree.next_inode) parent m.tree ≡ ok (some up)
      → action up m.disk ≡ (ok entry, w)
      → dir_entry p v (join up name) w ≡ (ok entry, w)
      → (inode : ℕ) × (m' : Mount) × (making m ≡ (Reply.entry (file_attr inode entry), m'))
        × (Entries.lookup p v parent name m' ≡ (Reply.entry (file_attr inode entry), m'))
        × (m'.disk ≡ w)
  made_then_looked_up tree rooted room known made found =
      let (inode, t, inserted, again, spells, more) =
        insert_path_again (join up name) m.tree tree rooted (omega (arith, length-join up name)) in
      let (s, short) = get_path-Spells (suc m.tree.next_inode) parent m.tree up known in
      (
        inode,
        mount_behind t,
        making_lem inode t known made inserted,
        lookup_lem inode t
            (get_path_lem t parent up (suc t.next_inode) (spells parent up s) (omega arith)) found
            again,
        refl,
      )

module _ (p : Primitives) (laws : Laws p) (texts : TextLaws p) (v : Vault) (parent : ℕ)
    (up : FilePath) (name id a b : Name) (c : FilePath) (mode : ℕ) (m : Mount) where
  -- With lawful primitives, on a mount with a well-formed inode tree whose root spells the empty
  -- path and whose numbers do not run out, for a parent whose path is `up`, where `up` is the root
  -- or has its chain of "dir.c9r" files and the name is free in it (it is not "..", it and its
  -- whole path are within the message limit, nothing is at or directly below its ciphertext path,
  -- no file is on the way to that, and every number of a file has been given out), with 16 bytes of
  -- entropy, whose UUID is a text with a hash, and with no file on the way to the directory of this
  -- hash: the `mkdir` request is answered by the entry of a directory, a `lookup` request of the
  -- name right behind it is answered by the same inode and attributes and changes nothing, the new
  -- path is a directory with the drawn id, and the disk keeps all that it had.
  pub lookup-mkdir :
      (uuid : List ℕ → Name) (a' b' : Name)
      → IsTree m.tree
      → Spells m.tree fuse_root_id []
      → m.tree.next_inode + length up + 1 < u64_limit
      → get_path (suc m.tree.next_inode) parent m.tree ≡ ok (some up)
      → IsFree p v m.disk up name id a b c
      → 16 ≤ length m.disk.entropy
      → p.from_utf8 (uuid (take 16 m.disk.entropy)) ≡ some (uuid (take 16 m.disk.entropy))
      → hash_dir_id p (cryptor v) (uuid (take 16 m.disk.entropy)) ≡ ok (a' ∷ b' ∷ [])
      → Clear (v.path ++ (d ∷ a' ∷ b' ∷ [])) m.disk
      → (inode : ℕ) × (entry : DirEntry) × (m' : Mount) × (Entries.mkdir p v uuid parent name mode m
          ≡ (Reply.entry (file_attr inode entry), m'))
        × (Entries.lookup p v parent name m' ≡ (Reply.entry (file_attr inode entry), m'))
        × (entry.kind ≡ FileKind.directory)
        × IsDirectory p v m'.disk (join up name) (uuid (take 16 m.disk.entropy))
        × Grows m.disk m'.disk
  unfolding Entries.mkdir
  lookup-mkdir uuid a' b' tree rooted room known free random text hash' clear' =
      let (entry, w, made, kind, found, here, grows, _) =
        mkdir_lem p laws texts v uuid up name id a b a' b' c mode m.disk free random text hash'
          clear' in
      let (inode, m', replied, again, same) =
        made_then_looked_up p v parent up name m (λ path. Making.mkdir p v uuid path name mode)
          entry w tree rooted room known made found in
      (inode, entry, m', replied, again, kind, rw same here, rw same grows)

  -- With lawful primitives, on a mount with a well-formed inode tree whose root spells the empty
  -- path and whose numbers do not run out, for a parent whose path is `up`, where `up` is the root
  -- or has its chain of "dir.c9r" files and the name is free in it (it is not "..", it and its
  -- whole path are within the message limit, nothing is at or directly below its ciphertext path,
  -- no file is on the way to that, and every number of a file has been given out), the directory of
  -- the id's hash is there, the entropy gives a header, the numbers to come are not locked and
  -- reads do not fail: the `mknod` request is answered by the entry of a regular file of size 0, a
  -- `lookup` request of the name right behind it is answered by the same inode and attributes and
  -- changes nothing, and the disk keeps all that it had.
  pub lookup-mknod :
      (h : FileHeader) (rng : Rng)
      → IsTree m.tree
      → Spells m.tree fuse_root_id []
      → m.tree.next_inode + length up + 1 < u64_limit
      → get_path (suc m.tree.next_inode) parent m.tree ≡ ok (some up)
      → IsFree p v m.disk up name id a b c
      → is_dir_node (node_at (v.path ++ (d ∷ a ∷ b ∷ [])) m.disk) ≡ true
      → (cipher p v).new_header m.disk.entropy ≡ ok (h, rng)
      → ((n : ℕ) → m.disk.next_number ≤ n → m.disk.locks n ≡ Lock.free)
      → NoFault m.disk.read_events
      → (inode : ℕ) × (entry : DirEntry) × (m' : Mount) × (Entries.mknod p v parent name mode m
          ≡ (Reply.entry (file_attr inode entry), m'))
        × (Entries.lookup p v parent name m' ≡ (Reply.entry (file_attr inode entry), m'))
        × (entry.kind ≡ FileKind.regular_file)
        × (entry.size ≡ 0)
        × Grows m.disk m'.disk
  unfolding Entries.mknod
  lookup-mknod h rng tree rooted room known free home fresh unlocked nf =
      let (entry, w, made, kind, size, found, _, grows, _) =
        mknod_lem p laws texts v up name id a b c mode h rng m.disk free home fresh unlocked nf in
      let (inode, m', replied, again, same) =
        made_then_looked_up p v parent up name m (λ path. Making.mknod p v path name mode) entry w
          tree rooted room known made found in
      (inode, entry, m', replied, again, kind, size, rw same grows)
