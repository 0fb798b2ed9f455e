-- ===== src/FileSystem/Tests.antt =====
-- The full name that src/fs.rs stores beside a shortened name, in a subdirectory.
use cryptomator_rs.Common.{◌≡◌, refl, [], ◌∷◌, take, drop, replicate, none, ok, eq_bytes}
use cryptomator_rs.Crypto.Cryptor.{encrypt_name, decrypt_name}
use cryptomator_rs.Crypto.Names.{
  siv_encrypt, siv_decrypt, siv_key, name_to_ciphertext, name_to_cleartext,
}
use cryptomator_rs.Crypto.SivGcm
use cryptomator_rs.Disk.{World, Attr, directory, lookup, node_at, keep, write, ◌>>=◌}
use cryptomator_rs.FileSystem.Making.{write_full_name}
use cryptomator_rs.FilePath.Extension.{split_name, split_dot}
use cryptomator_rs.FilePath.{
  FilePath, d, dot_c9s, join, file_name, parent_of, eq_path, path_bytes, components, split_slash,
  keep_components,
}
use cryptomator_rs.Key.{mac_key, enc_key}
use cryptomator_rs.Os.{Lock}
use cryptomator_rs.Primitives.Toy.{toy, tag_of}
use cryptomator_rs.Translator.Naming.{get_full_ciphertext_name}
use cryptomator_rs.Translator.{get_cleartext_name, decrypt_text, without_extension}
use cryptomator_rs.Vault.{Vault, siv_gcm_combo, cryptor}

abbrev vault : Vault
vault = record {
  path = [];
  config = record { jti = []; format = 8; shortening_threshold = 10; cipher_combo = siv_gcm_combo };
  master_key = record { bytes = replicate 64 1 };
}

abbrev attributes : Attr
attributes = record {
  mode = 493;
  accessed = none;
  modified = none;
  created = none;
  blocks = 1;
  nlink = 1;
  uid = 0;
  gid = 0;
  rdev = 0;
  blksize = 4096;
}

-- The directory of a shortened name, "h.c9s".
abbrev shortened : FilePath
shortened = join (d ∷ []) (104 ∷ dot_c9s)

abbrev world : World
world = record {
  entries = (shortened, directory 5) ∷ [];
  inodes = λ _. record { bytes = []; attr = attributes };
  next_number = 6;
  fresh = attributes;
  dir_len = λ _. 4096;
  entropy = [];
  read_events = [];
  locks = λ _. Lock.free;
}

-- The name "b" in "a" comes back as "a/b".
full_name_test :
    (get_cleartext_name toy vault shortened []
      (write_full_name toy vault ((97 ∷ []) ∷ (98 ∷ []) ∷ []) shortened [] world).1).0
    ≡ ok (97 ∷ 47 ∷ 98 ∷ [])
unfolding get_cleartext_name write_full_name get_full_ciphertext_name encrypt_name decrypt_name
    SivGcm.encrypt_name SivGcm.decrypt_name name_to_ciphertext name_to_cleartext siv_encrypt
    siv_decrypt siv_key cryptor mac_key enc_key tag_of replicate take drop file_name parent_of
    eq_path eq_bytes node_at lookup keep write path_bytes components split_slash keep_components
    split_name split_dot without_extension decrypt_text ◌>>=◌
full_name_test = refl
