-- ===== src/Vault/Tests.antt =====
-- The theorem on src/vault.rs, applied to a small vault.
use cryptomator_rs.Common.{
  ℕ, ◌≡◌, refl, if◌then◌else◌, [], ◌∷◌, ◌++◌, Option, none, some, ok, eq_bytes, true, replicate,
}
use cryptomator_rs.Disk.{World, Attr, file, lookup, node_at, ◌>>=◌, text_of}
use cryptomator_rs.FilePath.{
  Name, FilePath, parent, parent_of, eq_path, join_text, components, split_slash, keep_components,
}
use cryptomator_rs.Key.Wrapped.{Kek, from_wrapped}
use cryptomator_rs.Key.Fields.{KeyLibraries, wrapped_of, without_padding, ilog2, halvings}
use cryptomator_rs.Key.File.{from_file}
use cryptomator_rs.Util.Jwt.{Tokens, verify_jwt}
use cryptomator_rs.Util.Kek.{derive_kek}
use cryptomator_rs.Key.{raw_key}
use cryptomator_rs.Os.{Lock}
use cryptomator_rs.Primitives.Toy.{toy}
use cryptomator_rs.Vault.Opening.{IsVerified, open_vault-IsVerified}
use cryptomator_rs.Vault.{
  Vault, VaultConfig, siv_gcm_combo, Unlocking, masterkeyfile, strip_text, unlock, open_vault,
}

abbrev kek : Kek
kek = record { wrap_key = λ k. some k; unwrap_key = λ w n. some w }

abbrev config : VaultConfig
config = record { jti = []; format = 8; shortening_threshold = 220; cipher_combo = siv_gcm_combo }

-- The key's file is "k", beside the configuration "c" in the directory "v".
abbrev tokens : Tokens ℕ ℕ VaultConfig
tokens = record {
  encode = λ header claims secret. none;
  decode = λ jwt secret validation.
      if eq_bytes secret (1 ∷ 2 ∷ []) then some (validation.algorithm, config) else none;
  new_validation = λ alg. record {
    algorithm = alg;
    validate_exp = true;
    required_spec_claims = (101 ∷ []) ∷ [];
  };
}

-- The cost of the key is 2^15.
abbrev keys : KeyLibraries Name ℕ
keys = record {
  from_json = λ text. some (record {
    version = 999;
    scrypt_salt = 55 ∷ 61 ∷ [];
    scrypt_cost_param = 32768;
    scrypt_block_size = 8;
    primary_master_key = 1 ∷ [];
    hmac_master_key = 2 ∷ [];
    version_mac = [];
  });
  salt_from_b64 = λ text. some text;
  new_params = λ log_n r p len. some log_n;
  recommended_p = 1;
  base64_decode = λ text. some text;
  hash_password = λ password params salt. some (some (replicate 32 params));
  kek = λ hash. kek;
}

abbrev unlocking : Unlocking ℕ ℕ Name ℕ
unlocking = record {
  decode_header = λ jwt. some (256, some (masterkeyfile ++ (107 ∷ [])));
  tokens = tokens;
  keys = keys;
  canonicalize = λ path w. ok path;
}

abbrev attributes : Attr
attributes = record {
  mode = 420;
  accessed = none;
  modified = none;
  created = none;
  blocks = 1;
  nlink = 1;
  uid = 0;
  gid = 0;
  rdev = 0;
  blksize = 4096;
}

abbrev config_path : FilePath
config_path = (118 ∷ []) ∷ (99 ∷ []) ∷ []

abbrev world : World
world = record {
  entries = (config_path, file 5) ∷ ((118 ∷ []) ∷ (107 ∷ []) ∷ [], file 6) ∷ [];
  inodes = λ _. record { bytes = 123 ∷ []; attr = attributes };
  next_number = 7;
  fresh = attributes;
  dir_len = λ _. 4096;
  entropy = [];
  read_events = [];
  locks = λ _. Lock.free;
}

abbrev vault : Vault
vault = record {
  path = (118 ∷ []) ∷ [];
  config = config;
  master_key = record { bytes = 1 ∷ 2 ∷ [] };
}

opens : open_vault toy unlocking config_path [] world ≡ (ok vault, world)
unfolding open_vault unlock from_file wrapped_of without_padding ilog2 halvings derive_kek
    verify_jwt replicate strip_text from_wrapped raw_key ◌>>=◌ node_at lookup eq_path eq_bytes
    parent parent_of join_text components split_slash keep_components
opens = refl

open_vault_example :
    (jwt : Name) × (alg : ℕ) × (kid : Option Name) × (text_of toy (node_at config_path world) world
      ≡ ok jwt)
    × (unlocking.decode_header jwt ≡ some (alg, kid))
    × IsVerified toy unlocking jwt alg vault
open_vault_example = open_vault-IsVerified toy unlocking config_path [] world world vault opens
