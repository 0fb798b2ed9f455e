-- ===== src/Vault.antt =====
-- src/vault.rs: a vault's configuration, and the cryptor that it chooses. `Unlocking` has the crates
-- for tokens, keys and JSON as parameters.
pub mod Opening
pub mod Unlocks
mod Tests
mod UnlocksTests
use cryptomator_rs.Common.{
  ℕ, ◌==◌, List, [], ◌∷◌, Option, none, some, Result, or_fail, missing_kid, unsupported_key_uri,
  unsupported_format, jwt_failed, panic, false, if◌then◌else◌,
}
use cryptomator_rs.Crypto.Cryptor.{Cryptor, siv_ctr_mac, siv_gcm}
use cryptomator_rs.Disk.{World, Io, return, fail_with, ◌>>=◌, from, ask, read_to_string}
use cryptomator_rs.FilePath.{Name, FilePath, parent, join_text}
use cryptomator_rs.Key.Fields.{KeyLibraries}
use cryptomator_rs.Key.File.{from_file}
use cryptomator_rs.Key.Wrapped.{from_wrapped}
use cryptomator_rs.Util.Jwt.{Tokens, Validation, verify_jwt}
use cryptomator_rs.Util.Kek.{derive_kek}
use cryptomator_rs.Key.{MasterKey}
use cryptomator_rs.Primitives.{Primitives}

pub data CipherCombo : Type 0 where
  siv_ctr_mac_combo siv_gcm_combo : CipherCombo

pub record VaultConfig : Type 0 where
  pub jti : List ℕ
  pub format : ℕ
  pub shortening_threshold : ℕ
  pub cipher_combo : CipherCombo

pub record Vault : Type 0 where
  pub path : FilePath
  pub config : VaultConfig
  pub master_key : MasterKey

abbrev pub cryptor_of : CipherCombo → MasterKey → Cryptor
cryptor_of siv_ctr_mac_combo k = siv_ctr_mac k
cryptor_of siv_gcm_combo k = siv_gcm k

unfoldable pub cryptor : Vault → Cryptor
cryptor v = cryptor_of v.config.cipher_combo v.master_key

-- "masterkeyfile:"
abbrev pub masterkeyfile : Name
masterkeyfile = 109 ∷ 97 ∷ 115 ∷ 116 ∷ 101 ∷ 114 ∷ 107 ∷ 101 ∷ 121 ∷ 102 ∷ 105 ∷ 108 ∷ 101 ∷ 58 ∷ []

-- What is behind a prefix: `starts_with`, and then `split_once` at the text's first place.
unfoldable pub strip_text : Name → Name → Option Name
strip_text [] text = some text
strip_text (x ∷ xs) [] = none
strip_text (x ∷ xs) (y ∷ ys) = let rest = strip_text xs ys in if x == y then rest else none

-- The libraries: the token's header (its algorithm and its `kid`), the tokens, the wrapped key's
-- file and the derivation of its key, and the absolute form of a path.
pub record Unlocking (Header Algorithm Salt Params : Type 0) : Type 0 where
  pub decode_header : Name → Option (Algorithm × Option Name)
  pub tokens : Tokens Header Algorithm VaultConfig
  pub keys : KeyLibraries Salt Params
  pub canonicalize : FilePath → World → Result FilePath

module _ (p : Primitives) {Header Algorithm Salt Params : Type 0}
    (u : Unlocking Header Algorithm Salt Params) where
  -- A token may have expired, and no claim is required.
  abbrev pub vault_validation : Algorithm → Validation Algorithm
  vault_validation alg = record (u.tokens.new_validation alg) {
    validate_exp = false;
    required_spec_claims = [];
  }

  -- Behind the check of the URI, whose rest is the path of the key's file.
  unfoldable pub unlock : FilePath → Name → Algorithm → Name → Name → Io Vault
  unfolding from_file derive_kek verify_jwt
  unlock config_path jwt alg password key_file = do
    config_dir ← from (or_fail (parent config_path) panic)
    wrapped_key ← from_file p u.keys (join_text config_dir key_file)
    kek ← from (derive_kek u.keys password wrapped_key.scrypt_params wrapped_key.scrypt_salt)
    key ← from (from_wrapped p wrapped_key kek)
    (_, config) ← from (verify_jwt u.tokens jwt (vault_validation alg) key)
    let opened = do
      path ← ask (u.canonicalize config_dir)
      return (record { path = path; config = config; master_key = key })
    if config.format == 8 then opened else fail_with unsupported_format

  -- What follows "masterkeyfile:" in the URI, if it begins with that.
  abbrev pub by_key_file : FilePath → Name → Algorithm → Name → Option Name → Io Vault
  by_key_file config_path jwt alg password none = fail_with unsupported_key_uri
  by_key_file config_path jwt alg password (some key_file) =
      unlock config_path jwt alg password key_file

  unfoldable pub open_vault : FilePath → Name → Io Vault
  unfolding unlock strip_text
  open_vault config_path password = do
    jwt ← read_to_string p config_path
    (alg, kid) ← from (or_fail (u.decode_header jwt) jwt_failed)
    master_key_uri ← from (or_fail kid missing_kid)
    by_key_file config_path jwt alg password (strip_text masterkeyfile master_key_uri)
