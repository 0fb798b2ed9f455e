-- ===== src/Key/Toy.antt =====
-- Concrete functions that meet the laws of the libraries for keys: a wrapping that only adds a check
-- value, and a scrypt that repeats its parameter.
use cryptomator_rs.Common.{
  ℕ, ◌+◌, ◌≡◌, refl, List, [], ◌∷◌, ◌++◌, length, take, replicate, some, none, if◌then◌else◌, ◌==◌,
  arith, length-append, length-replicate, take-append, length-take,
}
use cryptomator_rs.FilePath.{Name}
use cryptomator_rs.Key.Cost.{KeyLaws}
use cryptomator_rs.Key.Fields.{RawWrappedKey, KeyLibraries}
use cryptomator_rs.Key.Wrapped.{Kek, IsKek}
use cryptomator_rs.Key.{subkey_len}

abbrev pub toy_kek : Kek
toy_kek = record {
  wrap_key = λ k. some (k ++ replicate 8 0xa6);
  unwrap_key = λ w n. if n + 8 == length w then some (take n w) else none;
}

unwrap_toy :
    (k : List ℕ) {w : List ℕ}
    → length k ≡ subkey_len
    → toy_kek.wrap_key k ≡ some w
    → toy_kek.unwrap_key w subkey_len ≡ some k
unwrap_toy k e h = ground (
  arith,
  length-append k (replicate 8 0xa6),
  length-replicate {A = ℕ} 8 0xa6,
  take-append subkey_len k (replicate 8 0xa6) e,
)

pub toy_kek-IsKek : IsKek toy_kek
toy_kek-IsKek = record {
  wraps = λ k e. (
    k ++ replicate 8 0xa6,
    refl,
    omega (arith, length-append k (replicate 8 0xa6), length-replicate {A = ℕ} 8 0xa6),
  );
  unwraps = λ k e h. unwrap_toy k e h;
  unwrapped_size = λ w n h. ground (arith, length-take n w);
}

-- The file of the key whose bytes are ones, under the cost 2^15.
abbrev pub toy_raw : RawWrappedKey
toy_raw = record {
  version = 999;
  scrypt_salt = 55 ∷ 61 ∷ [];
  scrypt_cost_param = 32768;
  scrypt_block_size = 8;
  primary_master_key = replicate 32 1 ++ replicate 8 0xa6;
  hmac_master_key = replicate 32 1 ++ replicate 8 0xa6;
  version_mac = replicate 32 88;
}

-- Parameters are the logarithm of the cost and the length of the output.
abbrev pub toy_keys : KeyLibraries Name (ℕ × ℕ)
toy_keys = record {
  from_json = λ text. some toy_raw;
  salt_from_b64 = λ text. some text;
  new_params = λ log_n r parallel len. some (log_n, len);
  recommended_p = 1;
  base64_decode = λ text. some text;
  hash_password = λ password params salt. some (some (replicate params.1 params.0));
  kek = λ hash. toy_kek;
}

pub toy_keys-KeyLaws : KeyLaws toy_keys
toy_keys-KeyLaws = record {
  hash_length = λ log_n r parallel len password salt given hashed.
      (replicate len log_n, cc, length-replicate len log_n);
}
