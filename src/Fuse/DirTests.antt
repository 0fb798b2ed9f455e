-- ===== src/Fuse/DirTests.antt =====
-- Setting the attributes of the directory "a" of a vault with src/fs/fuse.rs.
use cryptomator_rs.Common.{
  ℕ, ◌≡◌, refl, [], ◌∷◌, ◌++◌, take, drop, replicate, none, some, Result, ok, err, eq_bytes,
}
use cryptomator_rs.Crypto.Cryptor.{hash_dir_id, encrypt_name}
use cryptomator_rs.Crypto.Names.{hashed_path, siv_encrypt, siv_key, name_to_ciphertext}
use cryptomator_rs.Crypto.SivGcm
use cryptomator_rs.Disk.{World, Attr, Metadata, file, lookup, node_at, ◌>>=◌}
use cryptomator_rs.Disk
use cryptomator_rs.DirTree
use cryptomator_rs.DirTree.{
  DirTree, insert_path, insert_from, insert_component, add_child, get_path,
}
use cryptomator_rs.FilePath.{
  Name, FilePath, dot_c9r, dir_c9r, d, join, file_name, parent, parent_of, eq_path,
}
use cryptomator_rs.FileSystem.{DirEntry, directory, dir_entry, ciphertext_path_of, entry_at}
use cryptomator_rs.FileSystem.Attributes.{change_times, kind_times}
use cryptomator_rs.Fuse.Entries.{now, setattr}
use cryptomator_rs.Fuse.{Mount, error, eio, with_path, on_disk}
use cryptomator_rs.Key.{mac_key, enc_key}
use cryptomator_rs.Os.{Lock}
use cryptomator_rs.Primitives.Toy.{toy, tag_of}
use cryptomator_rs.Translator.Naming.{
  get_full_ciphertext_name, final_name, hashed_dir_path, get_ciphertext_path,
}
use cryptomator_rs.Translator.{get_dir_id, dir_id_along, dir_id_below}
use cryptomator_rs.Vault.{Vault, siv_gcm_combo, cryptor}

abbrev vault : Vault
vault = record {
  path = (118 ∷ []) ∷ [];
  config = record {
    jti = [];
    format = 8;
    shortening_threshold = 220;
    cipher_combo = siv_gcm_combo;
  };
  master_key = record { bytes = replicate 64 1 };
}

abbrev name : Name
name = 97 ∷ []

-- The ciphertext directory of "a" under the hashed id of the root, and the directory of its id "i".
abbrev entry_dir : FilePath
entry_dir =
    (118 ∷ [])
    ∷ d
    ∷ replicate 2 7168
    ∷ replicate 18 7168
    ∷ (replicate 16 843 ++ (197 ∷ dot_c9r))
    ∷ []

abbrev own_dir : FilePath
own_dir = (118 ∷ []) ∷ d ∷ replicate 2 90223 ∷ replicate 18 90223 ∷ []

abbrev attributes : Attr
attributes = record {
  mode = 493;
  accessed = none;
  modified = none;
  created = none;
  blocks = 1;
  nlink = 1;
  uid = 0;
  gid = 0;
  rdev = 0;
  blksize = 4096;
}

abbrev world : World
world = record {
  entries =
      (join entry_dir dir_c9r, file 6)
      ∷ (entry_dir, Disk.directory 5)
      ∷ (own_dir, Disk.directory 7)
      ∷ [];
  inodes = λ _. record { bytes = 105 ∷ []; attr = attributes };
  next_number = 8;
  fresh = attributes;
  dir_len = λ _. 4096;
  entropy = [];
  read_events = [];
  locks = λ _. Lock.free;
}

abbrev entry_of_a : DirEntry
entry_of_a = record {
  kind = directory;
  size = 4096;
  metadata = record { len = 4096; attr = attributes };
}

dir_entry_test : dir_entry toy vault (name ∷ []) world ≡ (ok entry_of_a, world)
unfolding dir_entry ciphertext_path_of entry_at get_dir_id dir_id_along dir_id_below
    get_ciphertext_path get_full_ciphertext_name final_name hashed_dir_path hash_dir_id encrypt_name
    SivGcm.hash_dir_id SivGcm.encrypt_name hashed_path name_to_ciphertext siv_encrypt siv_key
    cryptor mac_key enc_key tag_of replicate take drop file_name parent parent_of eq_path eq_bytes
    node_at lookup ◌>>=◌
dir_entry_test = refl

abbrev tree_of : Result (ℕ × DirTree) → DirTree
tree_of (ok r) = r.1
tree_of (err e) = DirTree.new

abbrev mount : Mount
mount = record {
  tree = tree_of (insert_path (name ∷ []) DirTree.new);
  open_dirs = λ _. none;
  open_files = λ _. none;
  next_handle = 0;
  disk = world;
}

-- Setting no mode and both times is answered by EIO.
setattr_test : setattr toy vault (7, 8) 2 none (some now) (some now) mount ≡ (error eio, mount)
unfolding setattr with_path on_disk insert_path insert_from insert_component add_child DirTree.new
    get_path parent parent_of change_times kind_times ◌>>=◌
setattr_test = rw (dir_entry_test) refl
