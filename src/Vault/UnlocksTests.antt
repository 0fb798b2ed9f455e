-- ===== src/Vault/UnlocksTests.antt =====
-- The theorem on a vault that was made, applied to one whose tokens spell their header and claims.
use cryptomator_rs.Common.{
  ℕ, zero, suc, ◌≡◌, refl, ap, ◌∙◌, [], ◌∷◌, ◌++◌, length, take, drop, replicate, Option, none,
  some, true, ok, take-append, drop-append, length-replicate, eq_bytes, to_be_bytes,
}
use cryptomator_rs.Disk.{World, Attr, file, lookup, node_at}
use cryptomator_rs.FilePath.{
  Name, FilePath, parent, parent_of, eq_path, join_text, components, split_slash, keep_components,
}
use cryptomator_rs.Key.Fields.{wrapped_of, without_padding, ilog2, halvings}
use cryptomator_rs.Key.Toy.{toy_kek, toy_kek-IsKek, toy_raw, toy_keys}
use cryptomator_rs.Key.Wrapped.{WrappedKey, wrap}
use cryptomator_rs.Key.{MasterKey, IsValid, enc_key, mac_key}
use cryptomator_rs.Os.{Lock}
use cryptomator_rs.Primitives.Toy.{toy, tag_of}
use cryptomator_rs.Util.Hmac.{hmac}
use cryptomator_rs.Util.Jwt.{Tokens, sign_jwt}
use cryptomator_rs.Util.Kek.{derive_kek}
use cryptomator_rs.Vault.Unlocks.{TokenLaws, open_vault_lem}
use cryptomator_rs.Vault.{
  VaultConfig, CipherCombo, siv_ctr_mac_combo, siv_gcm_combo, Unlocking, masterkeyfile, open_vault,
}

abbrev combo_number : CipherCombo → ℕ
combo_number siv_ctr_mac_combo = 0
combo_number siv_gcm_combo = 1

abbrev combo_of : ℕ → CipherCombo
combo_of zero = siv_ctr_mac_combo
combo_of (suc n) = siv_gcm_combo

-- A header is its `kid`.
abbrev token_of : Name → VaultConfig → Name
token_of kid c =
    c.format ∷ c.shortening_threshold ∷ combo_number c.cipher_combo ∷ length kid ∷ (kid ++ c.jti)

abbrev kid_in : Name → Name
kid_in (f ∷ t ∷ k ∷ n ∷ rest) = take n rest
kid_in _ = []

abbrev claims_in : Name → Option (Name × VaultConfig)
claims_in (f ∷ t ∷ k ∷ n ∷ rest) = some (
  take n rest,
  record { jti = drop n rest; format = f; shortening_threshold = t; cipher_combo = combo_of k },
)
claims_in _ = none

abbrev tokens : Tokens Name ℕ VaultConfig
tokens = record {
  encode = λ header claims secret. some (token_of header claims);
  decode = λ token secret validation. claims_in token;
  new_validation = λ alg. record {
    algorithm = alg;
    validate_exp = true;
    required_spec_claims = (101 ∷ []) ∷ [];
  };
}

abbrev unlocking : Unlocking Name ℕ Name (ℕ × ℕ)
unlocking = record {
  decode_header = λ jwt. some (256, some (kid_in jwt));
  tokens = tokens;
  keys = toy_keys;
  canonicalize = λ path w. ok path;
}

combo_of-combo_number : (c : CipherCombo) → combo_of (combo_number c) ≡ c
combo_of-combo_number siv_ctr_mac_combo = refl
combo_of-combo_number siv_gcm_combo = refl

claims_in-token_of : (kid : Name) (c : VaultConfig) → claims_in (token_of kid c) ≡ some (kid, c)
claims_in-token_of kid c =
    rw
      (
        take-append (length kid) kid c.jti refl,
        drop-append (length kid) kid c.jti refl,
        combo_of-combo_number c.cipher_combo,
      )
      refl

token_of_some : (a b : Name) → some a ≡ some b → b ≡ a
token_of_some a b e = cc

unlocking-TokenLaws : TokenLaws unlocking
unlocking-TokenLaws = record {
  alg_of = λ header. 256;
  kid_of = λ header. some header;
  header_decodes = λ header claims secret e.
      ap (λ t. some (256, some (kid_in t))) (token_of_some (token_of header claims) _ e)
      ∙ ap (λ h. some (256, some h)) (take-append (length header) header claims.jti refl);
  token_decodes = λ header claims secret validation e a b c.
      ap claims_in (token_of_some (token_of header claims) _ e) ∙ claims_in-token_of header claims;
  new_algorithm = λ alg. refl;
}

abbrev key : MasterKey
key = record { bytes = replicate 64 1 }

key-IsValid : IsValid key
key-IsValid = record { size = length-replicate {A = ℕ} 64 1 }

abbrev config : VaultConfig
config = record { jti = []; format = 8; shortening_threshold = 220; cipher_combo = siv_gcm_combo }

-- The key's file is "k", beside the configuration "c" in the directory "v".
abbrev header : Name
header = masterkeyfile ++ (107 ∷ [])

abbrev attributes : Attr
attributes = record {
  mode = 420;
  accessed = none;
  modified = none;
  created = none;
  blocks = 1;
  nlink = 1;
  uid = 0;
  gid = 0;
  rdev = 0;
  blksize = 4096;
}

abbrev dir : FilePath
dir = (118 ∷ []) ∷ []

abbrev config_path : FilePath
config_path = (118 ∷ []) ∷ (99 ∷ []) ∷ []

abbrev world : World
world = record {
  entries = (config_path, file 5) ∷ ((118 ∷ []) ∷ (107 ∷ []) ∷ [], file 6) ∷ [];
  inodes = λ _. record { bytes = token_of header config; attr = attributes };
  next_number = 7;
  fresh = attributes;
  dir_len = λ _. 4096;
  entropy = [];
  read_events = [];
  locks = λ _. Lock.free;
}

abbrev wrapped : WrappedKey Name (ℕ × ℕ)
wrapped = record {
  scrypt_salt = 55 ∷ [];
  scrypt_params = (15, 32);
  enc_key = replicate 32 1 ++ replicate 8 0xa6;
  mac_key = replicate 32 1 ++ replicate 8 0xa6;
  version_mac = hmac toy (to_be_bytes 4 8) key;
}

open_vault_lem_example :
    open_vault toy unlocking config_path [] world
    ≡ (ok (record { path = dir; config = config; master_key = key }), world)
unfolding wrap enc_key mac_key sign_jwt parent parent_of node_at lookup eq_path eq_bytes join_text
    components split_slash keep_components wrapped_of without_padding ilog2 halvings derive_kek
    replicate take drop hmac tag_of unlocking-TokenLaws to_be_bytes
open_vault_lem_example =
    open_vault_lem toy unlocking unlocking-TokenLaws header config key toy_kek (15, 32) (55 ∷ []) 8
      config_path dir dir (107 ∷ []) [] (token_of header config) (token_of header config) toy_raw
      wrapped world key-IsValid toy_kek-IsKek refl refl refl refl refl refl refl refl refl refl refl
