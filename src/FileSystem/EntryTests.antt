-- ===== src/FileSystem/EntryTests.antt =====
-- The theorems on the entries of src/fs.rs, applied to a vault that shortens names above 10 bytes.
use cryptomator_rs.Common.{
  ℕ, ◌≡◌, refl, [], ◌∷◌, take, drop, replicate, none, some, Bool, if◌then◌else◌, ok, err,
  invalid_file_type, arith, eq_bytes,
}
use cryptomator_rs.Crypto.Cryptor.{hash_dir_id}
use cryptomator_rs.Crypto.Names.{hashed_path, siv_encrypt, siv_key}
use cryptomator_rs.Crypto.SivGcm
use cryptomator_rs.Disk.Growing.{Numbered, Grows}
use cryptomator_rs.Disk.Handles.{os_of}
use cryptomator_rs.Disk.{World, file, directory, lookup, node_at, is_below, remove_tree}
use cryptomator_rs.EncryptedFile.Layout.{Holds}
use cryptomator_rs.FileSystem.Directories.{IsDirectory, root, child}
use cryptomator_rs.FileSystem.Making.{mkdir, mknod}
use cryptomator_rs.FileSystem.NewDirectory.{mkdir_lem}
use cryptomator_rs.FileSystem.NewFile.{mknod_lem}
use cryptomator_rs.FileSystem.EmptyFiles.{file_place}
use cryptomator_rs.FileSystem.Removing.{unlink, rmdir}
use cryptomator_rs.FileSystem.Unlinking.{unlink_lem, rmdir_lem}
use cryptomator_rs.FileSystem.{DirEntry, FileKind, cipher, directory_path, dir_entry}
use cryptomator_rs.FilePath.{FilePath, dir_c9r, join, eq_path, strip_prefix, path_bytes}
use cryptomator_rs.Key.{mac_key, enc_key}
use cryptomator_rs.Os.{read_only}
use cryptomator_rs.Primitives.Toy.{toy, toy-Laws, toy-TextLaws, tag_of}
use cryptomator_rs.Translator.Naming.{hashed_dir_path}
use cryptomator_rs.Vault.{cryptor}
use cryptomator_rs.FileSystem.Toy.{
  vault, name, uid, root_path, uid_path, name_path, uid_hash, name_test, world_of, world,
  name-IsFree, uid-Clear, header, header_test,
}

mkdir_example :
    (entry : DirEntry) × (w' : World) × (mkdir toy vault (λ _. uid) [] name 493 world
      ≡ (ok entry, w'))
    × (entry.kind ≡ FileKind.directory)
    × (dir_entry toy vault (name ∷ []) w' ≡ (ok entry, w'))
    × IsDirectory toy vault w' (name ∷ []) uid
    × Grows world w'
    × Numbered w'
unfolding node_at lookup eq_path eq_bytes replicate path_bytes
mkdir_example =
    mkdir_lem toy toy-Laws toy-TextLaws vault (λ _. uid) [] name [] (replicate 2 7168)
      (replicate 18 7168) (replicate 2 99715) (replicate 18 99715) name_path 493 world name-IsFree
      (omega arith) refl uid_hash uid-Clear

mknod_example :
    (entry : DirEntry) × (w' : World) × (mknod toy vault [] name 420 world ≡ (ok entry, w'))
    × (entry.kind ≡ FileKind.regular_file)
    × (entry.size ≡ 0)
    × (dir_entry toy vault (name ∷ []) w' ≡ (ok entry, w'))
    × ((short : Bool) × (n : ℕ) × (node_at (file_place short name_path) w' ≡ some (file n))
        × Holds
            (cipher toy vault)
            header
            (os_of (record { inode = n; pos = 0; writable = read_only }) w')
            [])
    × Grows world w'
    × Numbered w'
unfolding node_at lookup eq_path eq_bytes replicate path_bytes
mknod_example =
    mknod_lem toy toy-Laws toy-TextLaws vault [] name [] (replicate 2 7168) (replicate 18 7168)
      name_path 420 header (replicate 8 5) world name-IsFree refl header_test (λ n h. refl) tt

-- A disk with the directory "a".
abbrev with_directory : World
with_directory = world_of (
    (root_path, directory 1)
    ∷ (name_path, directory 2)
    ∷ (join name_path dir_c9r, file 3)
    ∷ (uid_path, directory 4)
    ∷ [])

unlink_example :
    (unlink toy vault [] name with_directory ≡ (ok tt, remove_tree name_path with_directory))
    × (dir_entry toy vault (name ∷ []) (remove_tree name_path with_directory)
        ≡ (err invalid_file_type, remove_tree name_path with_directory))
    × ((q : FilePath)
        → node_at q (remove_tree name_path with_directory)
          ≡ (if is_below name_path q then none else node_at q with_directory))
unfolding node_at lookup eq_path eq_bytes replicate
unlink_example =
    unlink_lem toy vault [] name [] name_path (directory 2) with_directory root name_test refl tt

uid_path_test : directory_path toy vault uid ≡ ok uid_path
unfolding hashed_dir_path hash_dir_id SivGcm.hash_dir_id hashed_path siv_encrypt siv_key cryptor
    tag_of replicate take drop mac_key enc_key
uid_path_test = refl

rmdir_example :
    (w' : World) × (rmdir toy vault [] name with_directory ≡ (ok tt, w'))
    × (dir_entry toy vault (name ∷ []) w' ≡ (err invalid_file_type, w'))
    × ((q : FilePath)
        → node_at q w' ≡ (
            if is_below name_path q
            then none
            else if is_below uid_path q
            then none
            else node_at q with_directory))
unfolding node_at lookup eq_path eq_bytes replicate strip_prefix
rmdir_example =
    rmdir_lem toy vault [] name [] uid name_path uid_path with_directory root
      (child [] (name ∷ []) name [] uid name_path root name_test 3 refl refl refl) name_test refl
      uid_path_test refl refl tt tt
