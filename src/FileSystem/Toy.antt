-- ===== src/FileSystem/Toy.antt =====
-- A vault that shortens names above 10 bytes, and a disk with its root's directory.
use cryptomator_rs.Common.{
  ◌≡◌, refl, List, [], ◌∷◌, ◌++◌, take, drop, replicate, none, Bool-cases, inl, inr, ok, arith,
  eq_bytes,
}
use cryptomator_rs.Crypto
use cryptomator_rs.Crypto.Cryptor.{hash_dir_id, encrypt_name, new_header}
use cryptomator_rs.Crypto.Names.{hashed_path, siv_encrypt, siv_key, name_to_ciphertext}
use cryptomator_rs.Crypto.SivGcm
use cryptomator_rs.Crypto.{FileHeader}
use cryptomator_rs.Disk.Growing.{Numbered}
use cryptomator_rs.Disk.{World, Attr, Node, directory, lookup, node_at}
use cryptomator_rs.FileSystem.Directories.{root}
use cryptomator_rs.FileSystem.{cipher}
use cryptomator_rs.FilePath.{Name, FilePath, d, dot_c9s, join, file_name, eq_path, path_bytes}
use cryptomator_rs.Key.{mac_key, enc_key}
use cryptomator_rs.Os.{Lock}
use cryptomator_rs.Primitives.Toy.{toy, tag_of}
use cryptomator_rs.Rng.{try_fill_bytes}
use cryptomator_rs.Translator.Naming.{
  get_full_ciphertext_name, final_name, get_ciphertext_path, hashed_dir_path,
}
use cryptomator_rs.Vault.{Vault, siv_gcm_combo, cryptor}
use cryptomator_rs.Disk.Making.{Clear}
use cryptomator_rs.FileSystem.Directories.{IsFree}

abbrev pub vault : Vault
vault = record {
  path = (118 ∷ []) ∷ [];
  config = record { jti = []; format = 8; shortening_threshold = 10; cipher_combo = siv_gcm_combo };
  master_key = record { bytes = replicate 64 1 };
}

-- The names "a" and "u", the second as an id.
abbrev pub name : Name
name = 97 ∷ []

abbrev pub uid : Name
uid = 117 ∷ []

-- The directories of the root and of "u", and the path of "a" in the root.
abbrev pub root_path : FilePath
root_path = (118 ∷ []) ∷ d ∷ replicate 2 7168 ∷ replicate 18 7168 ∷ []

abbrev pub uid_path : FilePath
uid_path = (118 ∷ []) ∷ d ∷ replicate 2 99715 ∷ replicate 18 99715 ∷ []

abbrev pub name_path : FilePath
name_path = join root_path (replicate 20 98107 ++ dot_c9s)

pub root_hash : hash_dir_id toy (cryptor vault) [] ≡ ok (replicate 2 7168 ∷ replicate 18 7168 ∷ [])
unfolding hash_dir_id SivGcm.hash_dir_id hashed_path siv_encrypt siv_key cryptor tag_of replicate
    take drop mac_key enc_key
root_hash = refl

pub uid_hash :
    hash_dir_id toy (cryptor vault) uid ≡ ok (replicate 2 99715 ∷ replicate 18 99715 ∷ [])
unfolding hash_dir_id SivGcm.hash_dir_id hashed_path siv_encrypt siv_key cryptor tag_of replicate
    take drop mac_key enc_key
uid_hash = refl

pub name_test : get_ciphertext_path toy vault (name ∷ []) [] ≡ ok name_path
unfolding get_ciphertext_path get_full_ciphertext_name hashed_dir_path final_name encrypt_name
    SivGcm.encrypt_name name_to_ciphertext hash_dir_id SivGcm.hash_dir_id hashed_path siv_encrypt
    siv_key cryptor tag_of replicate take drop mac_key enc_key file_name eq_bytes
name_test = refl

abbrev pub attributes : Attr
attributes = record {
  mode = 493;
  accessed = none;
  modified = none;
  created = none;
  blocks = 1;
  nlink = 1;
  uid = 0;
  gid = 0;
  rdev = 0;
  blksize = 4096;
}

abbrev pub world_of : List (FilePath × Node) → World
world_of entries = record {
  entries = entries;
  inodes = λ _. record { bytes = uid; attr = attributes };
  next_number = 9;
  fresh = attributes;
  dir_len = λ _. 4096;
  entropy = replicate 60 5;
  read_events = [];
  locks = λ _. Lock.free;
}

-- A disk with the root's directory.
abbrev pub world : World
world = world_of ((root_path, directory 1) ∷ [])

world-Numbered : Numbered world
unfolding node_at lookup
world-Numbered [] n e = cc
world-Numbered (x ∷ path) n e = elim (Bool-cases (eq_path (x ∷ path) root_path)) [
  | inl same ↦ cc (rw same at e)
  | inr other ↦ cc (rw other at e)
]

-- Nothing of the name "a" is there.
pub name-IsFree : IsFree toy vault world [] name [] (replicate 2 7168) (replicate 18 7168) name_path
unfolding node_at lookup eq_path eq_bytes replicate path_bytes
name-IsFree = record {
  above = root;
  plain = refl;
  small = omega arith;
  small_path = omega arith;
  hash = root_hash;
  at = name_test;
  numbers = world-Numbered;
  clear = (refl, (refl, (refl, (refl, (refl, tt)))));
  nothing = refl;
  empty = λ name. refl;
}

-- The place of the directory "u" is clear.
pub uid-Clear : Clear uid_path world
unfolding node_at lookup eq_path eq_bytes replicate
uid-Clear = (refl, (refl, (refl, (refl, tt))))

abbrev pub header : FileHeader
header = record { nonce = replicate 12 5; payload = replicate 8 255 ++ replicate 32 5 }

pub header_test : (cipher toy vault).new_header world.entropy ≡ ok (header, replicate 8 5)
unfolding new_header SivGcm.new_header Crypto.new cryptor try_fill_bytes replicate take drop
header_test = refl
