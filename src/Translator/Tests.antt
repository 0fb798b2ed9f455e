-- ===== src/Translator/Tests.antt =====
-- The theorems on src/fs/translator.rs, applied to a vault that shortens names above 10 bytes.
use cryptomator_rs.Common.{
  ◌≡◌, refl, List, [], ◌∷◌, ◌++◌, take, drop, replicate, none, some, ok, arith, eq_bytes,
}
use cryptomator_rs.Crypto.Cryptor.{hash_dir_id, encrypt_name}
use cryptomator_rs.Crypto.Names.{hashed_path, siv_encrypt, siv_key, name_to_ciphertext}
use cryptomator_rs.Crypto.SivGcm
use cryptomator_rs.Disk.{World, Attr, file, lookup, node_at}
use cryptomator_rs.FilePath.{Name, d, dot_c9r, join, name_c9s, file_name, eq_path}
use cryptomator_rs.Key.{MasterKey, mac_key, enc_key}
use cryptomator_rs.Os.{Lock}
use cryptomator_rs.Primitives.Toy.{toy, toy-Laws, toy-TextLaws, tag_of}
use cryptomator_rs.Translator.Naming.{
  get_full_ciphertext_name, final_name, get_ciphertext_path, extension_text,
}
use cryptomator_rs.Translator.RoundTrip.{IsStored, get_cleartext_name_lem}
use cryptomator_rs.Translator.Shortening.{expected_extension, get_ciphertext_path_lem}
use cryptomator_rs.FilePath.Extension.{split_name, split_dot}
use cryptomator_rs.FilePath.{components, split_slash, keep_components}
use cryptomator_rs.Translator.{get_cleartext_name, cut_parts, without_extension}
use cryptomator_rs.Vault.{Vault, siv_gcm_combo, cryptor}

abbrev key : MasterKey
key = record { bytes = replicate 64 1 }

abbrev vault : Vault
vault = record {
  path = (118 ∷ []) ∷ [];
  config = record { jti = []; format = 8; shortening_threshold = 10; cipher_combo = siv_gcm_combo };
  master_key = key;
}

-- "a"
abbrev name : Name
name = 97 ∷ []

-- The id of the root is empty.
abbrev hashed : List Name
hashed = replicate 2 7168 ∷ replicate 18 7168 ∷ []

hash_test : hash_dir_id toy (cryptor vault) [] ≡ ok hashed
unfolding hash_dir_id SivGcm.hash_dir_id hashed_path siv_encrypt siv_key cryptor tag_of replicate
    take drop mac_key enc_key
hash_test = refl

named : file_name (name ∷ []) ≡ some name
unfolding file_name eq_bytes
named = refl

abbrev full : Name
full = replicate 16 843 ++ (197 ∷ dot_c9r)

full_test : get_full_ciphertext_name toy vault name [] ≡ ok full
unfolding get_full_ciphertext_name encrypt_name SivGcm.encrypt_name name_to_ciphertext siv_encrypt
    siv_key cryptor tag_of replicate take drop mac_key enc_key
full_test = refl

get_ciphertext_path_example :
    (f : Name) × (get_full_ciphertext_name toy vault name [] ≡ ok f)
    × (get_ciphertext_path toy vault (name ∷ []) []
        ≡ ok (join (vault.path ++ (d ∷ hashed)) (final_name toy vault f)))
    × (extension_text toy vault (join (vault.path ++ (d ∷ hashed)) (final_name toy vault f))
        ≡ ok (expected_extension toy toy-Laws toy-TextLaws vault f))
get_ciphertext_path_example =
    get_ciphertext_path_lem toy toy-Laws toy-TextLaws vault (name ∷ []) name [] hashed named
      (omega arith) hash_test

abbrev attributes : Attr
attributes = record {
  mode = 420;
  accessed = none;
  modified = none;
  created = none;
  blocks = 1;
  nlink = 1;
  uid = 0;
  gid = 0;
  rdev = 0;
  blksize = 4096;
}

-- The full name is in the file beside the shortened name.
abbrev world : World
world = record {
  entries = (join (join (d ∷ []) (final_name toy vault full)) name_c9s, file 5) ∷ [];
  inodes = λ _. record { bytes = full; attr = attributes };
  next_number = 6;
  fresh = attributes;
  dir_len = λ _. 4096;
  entropy = [];
  read_events = [];
  locks = λ _. Lock.free;
}

stored : IsStored toy toy-Laws toy-TextLaws vault (d ∷ []) full world
unfolding node_at lookup final_name eq_path eq_bytes tag_of replicate
stored = λ long. refl

get_cleartext_name_example :
    get_cleartext_name toy vault (join (d ∷ []) (final_name toy vault full)) [] world
    ≡ (ok name, world)
get_cleartext_name_example =
    get_cleartext_name_lem toy toy-Laws toy-TextLaws vault (d ∷ []) name [] full world (omega arith)
      full_test stored

-- A leading separator and doubled ones stay, and what is behind the stem goes: "/a//b.c9r/".
without_extension_test :
    without_extension (47 ∷ 97 ∷ 47 ∷ 47 ∷ 98 ∷ (dot_c9r ++ (47 ∷ [])))
    ≡ 47 ∷ 97 ∷ 47 ∷ 47 ∷ 98 ∷ []
unfolding without_extension components cut_parts split_slash keep_components file_name split_name
    split_dot eq_bytes
without_extension_test = refl
