-- ===== src/Key/Fields.antt =====
-- The fields of a wrapped key's file in src/key.rs. The serde_json, base64ct and scrypt crates are parameters.
use cryptomator_rs.Common.{
  ℕ, zero, suc, ◌/◌, ◌==◌, ltb, List, [], ◌∷◌, Option, Result, ok, err, ◌>>=◌, or_fail, panic,
  decode_failed, kdf_failed, if◌then◌else◌,
}
use cryptomator_rs.FilePath.{Name}
use cryptomator_rs.Key.{subkey_len}
use cryptomator_rs.Key.Wrapped.{Kek, WrappedKey}

-- The fields of the JSON.
pub record RawWrappedKey : Type 0 where
  pub version : ℕ
  pub scrypt_salt : Name
  pub scrypt_cost_param : ℕ
  pub scrypt_block_size : ℕ
  pub primary_master_key : Name
  pub hmac_master_key : Name
  pub version_mac : Name

-- `new_params` takes the logarithm of the cost, the block size, the parallelism and the length of
-- the output; `hash_password` gives a hash, if the result has one; `kek` is `Kek::from`.
pub record KeyLibraries (Salt Params : Type 0) : Type 0 where
  pub from_json : Name → Option RawWrappedKey
  pub salt_from_b64 : Name → Option Salt
  pub new_params : ℕ → ℕ → ℕ → ℕ → Option Params
  pub recommended_p : ℕ
  pub base64_decode : Name → Option (List ℕ)
  pub hash_password : Name → Params → Salt → Option (Option (List ℕ))
  pub kek : List ℕ → Kek

-- `replace('=', "")`
unfoldable pub without_padding : Name → Name
without_padding [] = []
without_padding (b ∷ text) = let rest = without_padding text in if b == 61 then rest else b ∷ rest

-- `u32::ilog2`: how often a number of 32 bits can be halved until it is 1. It panics at zero.
unfoldable pub halvings : ℕ → ℕ → ℕ
halvings zero n = 0
halvings (suc rounds) n = let rest = halvings rounds (n / 2) in if ltb n 2 then 0 else suc rest

unfoldable pub ilog2 : ℕ → Result ℕ
unfolding halvings
ilog2 n = if n == 0 then err panic else ok (halvings 32 n)

module _ {Salt Params : Type 0} (l : KeyLibraries Salt Params) where
  unfoldable pub wrapped_of : RawWrappedKey → Result (WrappedKey Salt Params)
  unfolding without_padding ilog2
  wrapped_of raw = do
    salt ← or_fail (l.salt_from_b64 (without_padding raw.scrypt_salt)) decode_failed
    log_n ← ilog2 raw.scrypt_cost_param
    params ←
        or_fail (l.new_params log_n raw.scrypt_block_size l.recommended_p subkey_len) kdf_failed
    enc_key ← or_fail (l.base64_decode raw.primary_master_key) decode_failed
    mac_key ← or_fail (l.base64_decode raw.hmac_master_key) decode_failed
    version_mac ← or_fail (l.base64_decode raw.version_mac) decode_failed
    ok (record {
      scrypt_salt = salt;
      scrypt_params = params;
      enc_key = enc_key;
      mac_key = mac_key;
      version_mac = version_mac;
    })
