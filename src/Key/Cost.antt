-- ===== src/Key/Cost.antt =====
-- The parameters of scrypt that a wrapped key's file gives (src/key.rs), and the key encryption key
-- behind them (src/util.rs).
use native.Mathlib.Nat.{pow-succ'}
use cryptomator_rs.Common.{
  ℕ, zero, suc, ◌*◌, ◌/◌, ◌^◌, ◌≤◌, ◌<◌, ◌≡◌, refl, ◌∙◌, ap, ◌==◌, ltb, ◌⊎◌, inl, inr, List, length,
  Option, some, true, Bool-cases, Option-cases, ok, err, or_fail, decode_failed, kdf_failed,
  >>=-eq-ok, arith,
}
use cryptomator_rs.Disk.Inversion.{or_fail-eq-ok}
use cryptomator_rs.FilePath.{Name}
use cryptomator_rs.Key.Fields.{
  RawWrappedKey, KeyLibraries, without_padding, halvings, ilog2, wrapped_of,
}
use cryptomator_rs.Key.Wrapped.{WrappedKey}
use cryptomator_rs.Key.{subkey_len}
use cryptomator_rs.Util.Kek.{derive_kek}

-- The power of two below a number.
halvings_bounds :
    (rounds n : ℕ)
    → 0 < n
    → n < 2 ^ rounds
    → (2 ^ halvings rounds n ≤ n) × (n < 2 * 2 ^ halvings rounds n)
unfolding halvings
halvings_bounds zero n pos small = (omega arith, omega arith)
halvings_bounds (suc rounds) n pos small = elim (Bool-cases (ltb n 2)) [
  | inl one ↦ rw (halvings, one) (ground arith, ground arith)
  | inr more ↦
      let two : 2 ≤ n = ground arith in
      let (low, high) =
        halvings_bounds rounds (n / 2) (omega arith) (omega (arith, pow-succ' 2 rounds)) in
      let low2 : 2 * 2 ^ halvings rounds (n / 2) ≤ n = omega (arith, low) in
      let high2 : n < 2 * (2 * 2 ^ halvings rounds (n / 2)) = omega (arith, high) in
      let step : 2 ^ suc (halvings rounds (n / 2)) ≡ 2 * 2 ^ halvings rounds (n / 2) =
        pow-succ' 2 (halvings rounds (n / 2)) in
      let e : halvings (suc rounds) n ≡ suc (halvings rounds (n / 2)) = rw more refl in
      rw (e, step) (low2, high2)
]

value_of_ok : {A : Type 0} (a b : A) → ok a ≡ ok b → a ≡ b
value_of_ok a b e = cc

-- What the crates document: scrypt gives a hash, of the length that its parameters say.
pub record KeyLaws {Salt Params : Type 0} (l : KeyLibraries Salt Params) : Type 0 where
  pub hash_length :
      (log_n r parallel len : ℕ) (password : Name) (salt : Salt) {params : Params}
      {password_hash : Option (List ℕ)}
      → l.new_params log_n r parallel len ≡ some params
      → l.hash_password password params salt ≡ some password_hash
      → (hash : List ℕ) × (password_hash ≡ some hash) × (length hash ≡ len)

module _ {Salt Params : Type 0} (l : KeyLibraries Salt Params) where
  ilog2_lem :
      (n log_n : ℕ) → n < 2 ^ 32 → ilog2 n ≡ ok log_n → (2 ^ log_n ≤ n) × (n < 2 * 2 ^ log_n)
  unfolding ilog2
  ilog2_lem n log_n small e = elim (Bool-cases (n == 0)) [
    | inl nothing ↦ absurd (ground arith)
    | inr some_bits ↦
        let same : halvings 32 n ≡ log_n = ground arith in
        rw (← same) (halvings_bounds 32 n (ground arith) small)
  ]

  -- If the fields of a key's file, with a cost of 32 bits, give a wrapped key, then its scrypt
  -- parameters are those for a `log_n` with `2 ^ log_n` at most the cost and more than half of it,
  -- the block size of the file, the recommended parallelism and a length of 32 bytes.
  pub wrapped_of_lem :
      (raw : RawWrappedKey) {k : WrappedKey Salt Params}
      → raw.scrypt_cost_param < 2 ^ 32
      → wrapped_of l raw ≡ ok k
      → (log_n : ℕ) × (2 ^ log_n ≤ raw.scrypt_cost_param)
        × (raw.scrypt_cost_param < 2 * 2 ^ log_n)
        × (l.new_params log_n raw.scrypt_block_size l.recommended_p subkey_len
            ≡ some k.scrypt_params)
  unfolding wrapped_of
  wrapped_of_lem raw {k} small e =
      let (salt, _, e1) =
        >>=-eq-ok (or_fail (l.salt_from_b64 (without_padding raw.scrypt_salt)) decode_failed) _ e in
      let (log_n, logs, e2) = >>=-eq-ok (ilog2 raw.scrypt_cost_param) _ e1 in
      let (params, given, e3) =
        >>=-eq-ok
          (or_fail (l.new_params log_n raw.scrypt_block_size l.recommended_p subkey_len) kdf_failed)
          _ e2 in
      let (enc, _, e4) =
        >>=-eq-ok (or_fail (l.base64_decode raw.primary_master_key) decode_failed) _ e3 in
      let (mac, _, e5) =
        >>=-eq-ok (or_fail (l.base64_decode raw.hmac_master_key) decode_failed) _ e4 in
      let (version, _, e6) =
        >>=-eq-ok (or_fail (l.base64_decode raw.version_mac) decode_failed) _ e5 in
      let (low, high) = ilog2_lem raw.scrypt_cost_param log_n small logs in
      let same : params ≡ k.scrypt_params = ap (λ x. x.scrypt_params) (value_of_ok _ k e6) in
      (log_n, low, high, or_fail-eq-ok _ kdf_failed given ∙ ap some same)

  -- If scrypt gives a hash of the length of its parameters: for the parameters and the salt that a
  -- key's file with a cost of 32 bits gives, and any password, `derive_kek` reports that scrypt
  -- fails or gives the key encryption key of a hash of 32 bytes. It does not panic.
  pub derive_kek_lem :
      (laws : KeyLaws l) (raw : RawWrappedKey) {k : WrappedKey Salt Params} (password : Name)
      → raw.scrypt_cost_param < 2 ^ 32
      → wrapped_of l raw ≡ ok k
      → (derive_kek l password k.scrypt_params k.scrypt_salt ≡ err kdf_failed)
        ⊎ ((hash : List ℕ) × (derive_kek l password k.scrypt_params k.scrypt_salt ≡ ok (l.kek hash))
            × (length hash ≡ subkey_len))
  unfolding derive_kek
  derive_kek_lem laws raw {k} password small e =
      let (log_n, low, high, params) = wrapped_of_lem raw small e in
      elim (Option-cases (l.hash_password password k.scrypt_params k.scrypt_salt)) [
        | inl failed ↦ inl (rw failed refl)
        | inr (password_hash, hashed) ↦
            let (hash, there, size) =
              laws.hash_length log_n raw.scrypt_block_size l.recommended_p subkey_len password
                k.scrypt_salt params hashed in
            let right : (length hash == subkey_len) ≡ true = ground arith in
            inr (hash, rw (hashed, there, right) refl, size)
      ]
