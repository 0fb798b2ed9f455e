-- ===== src/Key/Wrapped.antt =====
-- Wrapping the master key under a key encryption key (src/key.rs). `Kek` stands for `KekAes256` of
-- the aes-kw crate; the salt and the parameters of scrypt are only passed on.
use cryptomator_rs.Common.{
  ℕ, ◌+◌, ◌≡◌, refl, ap, List, ◌++◌, length, take, drop, Option, some, Result, ok, ◌>>=◌, or_fail,
  key_wrap_failed, to_be_bytes, arith, length-take, length-drop, take-append-drop, length-append,
  Option-cases, inl, inr,
}
use cryptomator_rs.Key.{MasterKey, IsValid, subkey_len, enc_key, mac_key}
use cryptomator_rs.Primitives.{Primitives}
use cryptomator_rs.Util.Hmac.{hmac}

-- The wrapped form of a key is 8 bytes longer. Unwrapping is told how many bytes the buffer has.
pub record Kek : Type 0 where
  pub wrap_key : List ℕ → Option (List ℕ)
  pub unwrap_key : List ℕ → ℕ → Option (List ℕ)

-- What the crate documents for keys of 32 bytes.
pub record IsKek (kek : Kek) : Type 0 where
  pub wraps :
      (k : List ℕ)
      → length k ≡ subkey_len
      → (w : List ℕ) × (kek.wrap_key k ≡ some w) × (length w ≡ subkey_len + 8)
  pub unwraps :
      (k : List ℕ) {w : List ℕ}
      → length k ≡ subkey_len
      → kek.wrap_key k ≡ some w
      → kek.unwrap_key w subkey_len ≡ some k
  pub unwrapped_size :
      (w : List ℕ) (n : ℕ) {k : List ℕ} → kek.unwrap_key w n ≡ some k → length k ≡ n

pub record WrappedKey (Salt Params : Type 0) : Type 0 where
  pub scrypt_salt : Salt
  pub scrypt_params : Params
  pub enc_key : List ℕ
  pub mac_key : List ℕ
  pub version_mac : List ℕ

module _ (p : Primitives) {Salt Params : Type 0} where
  unfoldable pub wrap : MasterKey → Kek → Params → Salt → ℕ → Result (WrappedKey Salt Params)
  wrap key kek scrypt_params scrypt_salt format_version = do
    wrapped_enc ← or_fail (kek.wrap_key (enc_key key)) key_wrap_failed
    wrapped_mac ← or_fail (kek.wrap_key (mac_key key)) key_wrap_failed
    ok (record {
      scrypt_salt = scrypt_salt;
      scrypt_params = scrypt_params;
      enc_key = wrapped_enc;
      mac_key = wrapped_mac;
      version_mac = hmac p (to_be_bytes 4 format_version) key;
    })

  unfoldable pub from_wrapped : WrappedKey Salt Params → Kek → Result MasterKey
  from_wrapped wrapped_key kek = do
    enc ← or_fail (kek.unwrap_key wrapped_key.enc_key subkey_len) key_wrap_failed
    mac ← or_fail (kek.unwrap_key wrapped_key.mac_key subkey_len) key_wrap_failed
    ok (record { bytes = enc ++ mac })

  -- Under a lawful key encryption key, a master key of 64 bytes wraps, with the salt and the
  -- parameters given and the MAC of the version, and unwraps to itself.
  pub from_wrapped-wrap :
      (key : MasterKey) (kek : Kek) (scrypt_params : Params) (scrypt_salt : Salt) (version : ℕ)
      → IsValid key
      → IsKek kek
      → (w : WrappedKey Salt Params) × (wrap key kek scrypt_params scrypt_salt version ≡ ok w)
        × (w.scrypt_params ≡ scrypt_params)
        × (w.scrypt_salt ≡ scrypt_salt)
        × (w.version_mac ≡ hmac p (to_be_bytes 4 version) key)
        × (from_wrapped w kek ≡ ok key)
  unfolding wrap from_wrapped enc_key mac_key
  from_wrapped-wrap key kek scrypt_params scrypt_salt version valid lawful =
      let enc : length (take subkey_len key.bytes) ≡ subkey_len =
        omega (arith, length-take subkey_len key.bytes, valid.size) in
      let mac : length (drop subkey_len key.bytes) ≡ subkey_len =
        omega (arith, length-drop subkey_len key.bytes, valid.size) in
      let (wrapped_enc, e, size) = lawful.wraps (take subkey_len key.bytes) enc in
      let (wrapped_mac, e', size') = lawful.wraps (drop subkey_len key.bytes) mac in
      (
        record {
          scrypt_salt = scrypt_salt;
          scrypt_params = scrypt_params;
          enc_key = wrapped_enc;
          mac_key = wrapped_mac;
          version_mac = hmac p (to_be_bytes 4 version) key;
        },
        rw (e, e') refl,
        refl,
        refl,
        refl,
        rw
            (
              lawful.unwraps (take subkey_len key.bytes) enc e,
              lawful.unwraps (drop subkey_len key.bytes) mac e',
            )
            (ap (λ b. ok (record { bytes = b })) (take-append-drop subkey_len key.bytes)),
      )

  -- Under a lawful key encryption key, whatever unwraps is a master key of 64 bytes.
  pub from_wrapped-IsValid :
      (w : WrappedKey Salt Params) (kek : Kek) {key : MasterKey}
      → IsKek kek
      → from_wrapped w kek ≡ ok key
      → IsValid key
  unfolding from_wrapped
  from_wrapped-IsValid w kek {key} lawful e =
      elim (Option-cases (kek.unwrap_key w.enc_key subkey_len)) [
        | inr (enc, e1) ↦ elim (Option-cases (kek.unwrap_key w.mac_key subkey_len)) [
          | inr (mac, e2) ↦ record {
            size = ground (
              arith,
              lawful.unwrapped_size w.enc_key subkey_len e1,
              lawful.unwrapped_size w.mac_key subkey_len e2,
              length-append enc mac,
            );
          }
          | inl none2 ↦ record { size = ground arith }
        ]
        | inl none1 ↦ record { size = ground arith }
      ]
