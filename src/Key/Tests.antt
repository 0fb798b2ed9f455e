-- ===== src/Key/Tests.antt =====
-- The theorems on src/key.rs, applied to a concrete key.
use cryptomator_rs.Common.{
  ℕ, ◌*◌, ◌^◌, ◌≤◌, ◌<◌, ◌⊎◌, err, panic, kdf_failed, ◌∷◌, ◌≡◌, refl, List, [], length, take,
  replicate, some, ok, to_be_bytes, arith, length-replicate,
}
use cryptomator_rs.FilePath.{Name}
use cryptomator_rs.Key.Cost.{wrapped_of_lem, derive_kek_lem}
use cryptomator_rs.Key.Fields.{without_padding, halvings, ilog2, wrapped_of}
use cryptomator_rs.Key.Toy.{toy_kek, toy_kek-IsKek, toy_raw, toy_keys, toy_keys-KeyLaws}
use cryptomator_rs.Util.Kek.{derive_kek}
use cryptomator_rs.Key.Wrapped.{WrappedKey, wrap, from_wrapped, from_wrapped-wrap}
use cryptomator_rs.Key.{MasterKey, IsValid, subkey_len}
use cryptomator_rs.Primitives.Toy.{toy}
use cryptomator_rs.Util.Hmac.{hmac}

abbrev key : MasterKey
key = record { bytes = replicate 64 1 }

key-IsValid : IsValid key
key-IsValid = record { size = length-replicate {A = ℕ} 64 1 }

from_wrapped-wrap_example :
    (w : WrappedKey ℕ ℕ) × (wrap toy key toy_kek 15 77 8 ≡ ok w)
    × (w.scrypt_params ≡ 15)
    × (w.scrypt_salt ≡ 77)
    × (w.version_mac ≡ hmac toy (to_be_bytes 4 8) key)
    × (from_wrapped toy w toy_kek ≡ ok key)
from_wrapped-wrap_example = from_wrapped-wrap toy key toy_kek 15 77 8 key-IsValid toy_kek-IsKek

abbrev wrapped : WrappedKey ℕ ℕ
wrapped = record {
  scrypt_salt = 77;
  scrypt_params = 15;
  enc_key = replicate 40 1;
  mac_key = replicate 40 1;
  version_mac = [];
}

from_wrapped_test : from_wrapped toy wrapped toy_kek ≡ ok key
unfolding from_wrapped replicate take
from_wrapped_test = refl

abbrev wrapped_key : WrappedKey Name (ℕ × ℕ)
wrapped_key = record {
  scrypt_salt = 55 ∷ [];
  scrypt_params = (15, 32);
  enc_key = toy_raw.primary_master_key;
  mac_key = toy_raw.hmac_master_key;
  version_mac = toy_raw.version_mac;
}

wrapped_of_test : wrapped_of toy_keys toy_raw ≡ ok wrapped_key
unfolding wrapped_of without_padding ilog2 halvings
wrapped_of_test = refl

wrapped_of_example :
    (log_n : ℕ) × (2 ^ log_n ≤ 32768)
    × (32768 < 2 * 2 ^ log_n)
    × (toy_keys.new_params log_n 8 1 subkey_len ≡ some (15, 32))
wrapped_of_example = wrapped_of_lem toy_keys toy_raw (omega arith) wrapped_of_test

derive_kek_example :
    (derive_kek toy_keys [] (15, 32) (55 ∷ []) ≡ err kdf_failed)
    ⊎ ((hash : List ℕ) × (derive_kek toy_keys [] (15, 32) (55 ∷ []) ≡ ok (toy_keys.kek hash))
        × (length hash ≡ subkey_len))
derive_kek_example =
    derive_kek_lem toy_keys toy_keys-KeyLaws toy_raw [] (omega arith) wrapped_of_test

-- A cost of zero panics.
zero_cost_test : wrapped_of toy_keys (record toy_raw { scrypt_cost_param = 0 }) ≡ err panic
unfolding wrapped_of ilog2
zero_cost_test = refl
