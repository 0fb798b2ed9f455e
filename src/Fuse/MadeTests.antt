-- ===== src/Fuse/MadeTests.antt =====
-- The theorems on what src/fs/fuse.rs has just made, applied to a new mount of an empty vault.
use cryptomator_rs.Common.{
  ℕ, ◌+◌, ◌<◌, ◌≡◌, refl, [], length, replicate, some, ok, arith, u64_limit, eq_bytes,
}
use cryptomator_rs.DirTree
use cryptomator_rs.DirTree.RoundTrip.{new-IsTree}
use cryptomator_rs.DirTree.{fuse_root_id, get_path}
use cryptomator_rs.Disk.Growing.{Grows}
use cryptomator_rs.Disk.{node_at}
use cryptomator_rs.FilePath.{join, eq_path}
use cryptomator_rs.FileSystem.Directories.{IsDirectory}
use cryptomator_rs.FileSystem.Toy.{
  vault, name, uid, name_path, uid_hash, world, name-IsFree, uid-Clear, header, header_test,
}
use cryptomator_rs.FileSystem.{DirEntry, FileKind}
use cryptomator_rs.Fuse.Attributes.{file_attr}
use cryptomator_rs.Fuse.Entries
use cryptomator_rs.Fuse.Made.{lookup-mkdir, lookup-mknod}
use cryptomator_rs.Fuse.{Mount, Reply, new_mount}
use cryptomator_rs.Primitives.Toy.{toy, toy-Laws, toy-TextLaws}

abbrev mount : Mount
mount = new_mount world

room : DirTree.new.next_inode + length (replicate 0 name) + 1 < u64_limit
unfolding DirTree.new replicate
room = omega arith

root_test : get_path 3 fuse_root_id DirTree.new ≡ ok (some [])
unfolding DirTree.new get_path
root_test = refl

lookup-mkdir_example :
    (inode : ℕ) × (entry : DirEntry) × (m' : Mount) × (Entries.mkdir toy vault
        (λ _. uid)
        fuse_root_id
        name
        493
        mount
      ≡ (Reply.entry (file_attr inode entry), m'))
    × (Entries.lookup toy vault fuse_root_id name m' ≡ (Reply.entry (file_attr inode entry), m'))
    × (entry.kind ≡ FileKind.directory)
    × IsDirectory toy vault m'.disk (join [] name) uid
    × Grows world m'.disk
unfolding new_mount DirTree.new replicate
lookup-mkdir_example =
    lookup-mkdir toy toy-Laws toy-TextLaws vault fuse_root_id [] name [] (replicate 2 7168)
      (replicate 18 7168) name_path 493 mount (λ _. uid) (replicate 2 99715) (replicate 18 99715)
      new-IsTree.0 new-IsTree.1 (omega arith) root_test name-IsFree (omega arith) refl uid_hash
      uid-Clear

lookup-mknod_example :
    (inode : ℕ) × (entry : DirEntry) × (m' : Mount) × (Entries.mknod toy vault fuse_root_id name 420
        mount
      ≡ (Reply.entry (file_attr inode entry), m'))
    × (Entries.lookup toy vault fuse_root_id name m' ≡ (Reply.entry (file_attr inode entry), m'))
    × (entry.kind ≡ FileKind.regular_file)
    × (entry.size ≡ 0)
    × Grows world m'.disk
unfolding new_mount DirTree.new node_at eq_path eq_bytes replicate
lookup-mknod_example =
    lookup-mknod toy toy-Laws toy-TextLaws vault fuse_root_id [] name [] (replicate 2 7168)
      (replicate 18 7168) name_path 420 mount header (replicate 8 5) new-IsTree.0 new-IsTree.1
      (omega arith) root_test name-IsFree refl header_test (λ n h. refl) tt
