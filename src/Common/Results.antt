-- ===== src/Common/Results.antt =====
-- Errors as values (`color_eyre::Result`, `std::io::Result`), and the checked arithmetic of Rust.
use Prim.Native.Nat.{ℕ, ◌+◌, ◌-◌, ◌*◌, ◌^◌, ◌≤◌, ◌<◌}
use mathlib.Core.Path.{◌≡◌, refl}
use mathlib.Core.Bool.{Bool, true, false}
use mathlib.Core.Option.{Option, none, some}
use native.Mathlib.Omega.{arith}
use cryptomator_rs.Common.Tests.{ltb, leb, if◌then◌else◌}

-- `std::io::ErrorKind`, as far as the code produces or tests it.
pub data IoKind : Type 0 where
  interrupted would_block invalid_data unexpected_eof write_zero already_exists not_found other :
      IoKind

-- `panic` is an overflow, a slice out of range or a failed assertion of a debug build. A `failed`
-- operation is an error of a library the code calls; the rest are the code's own `bail!`s.
pub data Error : Type 0 where
  panic : Error
  io : IoKind → Error
  io_invalid_data : Error → Error
  rng_failed aead_failed stream_failed siv_failed key_wrap_failed : Error
  decode_failed not_utf8 : Error
  invalid_header_length : ℕ → Error
  header_mac_mismatch : Error
  invalid_cleartext_chunk_length : ℕ → Error
  invalid_ciphertext_chunk_length : ℕ → Error
  chunk_mac_mismatch : Error
  missing_extension invalid_file_type not_yet_implemented : Error
  missing_kid unsupported_key_uri unsupported_format jwt_failed kdf_failed wrapped_key_failed :
      Error
  -- A bounded loop of the model ran out of rounds; the theorems show that it does not.
  out_of_fuel : Error

pub data Result {ℓ} (T : Type ℓ) : Type ℓ where
  ok : T → Result T
  err : Error → Result T

-- `?`: goes on with the value, or returns the error.
infixl 5 ◌>>=◌ ◌>>◌
abbrev pub ◌>>=◌ {ℓ ℓ'} : {S : Type ℓ} {T : Type ℓ'} → Result S → (S → Result T) → Result T
ok value >>= next = next value
err failure >>= next = err failure

abbrev pub ◌>>◌ {ℓ} : {T : Type ℓ} → Result (Unit {0}) → Result T → Result T
step >> next = step >>= λ _. next

-- `if !test { bail!(failure) }`.
abbrev pub guard : Bool → Error → Result (Unit {0})
guard false failure = err failure
guard true failure = ok tt

-- A library call that fails without a value.
abbrev pub or_fail {ℓ} : {A : Type ℓ} → Option A → Error → Result A
or_fail (some a) e = ok a
or_fail none e = err e

abbrev pub map_err {ℓ} : {A : Type ℓ} → (Error → Error) → Result A → Result A
map_err f (ok a) = ok a
map_err f (err e) = err (f e)

-- `u64` and (on 64-bit targets) `usize`: what does not fit panics.
abbrev pub u64_limit : ℕ
u64_limit = 2 ^ 64

unfoldable pub add_u64 : ℕ → ℕ → Result ℕ
add_u64 a b = if ltb (a + b) u64_limit then ok (a + b) else err panic

unfoldable pub mul_u64 : ℕ → ℕ → Result ℕ
mul_u64 a b = if ltb (a * b) u64_limit then ok (a * b) else err panic

unfoldable pub sub_u64 : ℕ → ℕ → Result ℕ
sub_u64 a b = if leb b a then ok (a - b) else err panic

pub add_u64_lem : (a b : ℕ) → a + b < u64_limit → add_u64 a b ≡ ok (a + b)
unfolding add_u64
add_u64_lem a b h = ground arith

pub mul_u64_lem : (a b : ℕ) → a * b < u64_limit → mul_u64 a b ≡ ok (a * b)
unfolding mul_u64
mul_u64_lem a b h = ground arith

pub sub_u64_lem : (a b : ℕ) → b ≤ a → sub_u64 a b ≡ ok (a - b)
unfolding sub_u64
sub_u64_lem a b h = ground arith

-- A chain that succeeds has succeeded in its first step.
pub >>=-eq-ok {ℓ ℓ'} :
    {S : Type ℓ} {T : Type ℓ'} (step : Result S) (next : S → Result T) {out : T}
    → step >>= next ≡ ok out
    → (value : S) × (step ≡ ok value) × (next value ≡ ok out)
>>=-eq-ok (err failure) next done = cc
>>=-eq-ok (ok value) next done = (value, refl, done)

pub map_err-eq-ok {ℓ} :
    {A : Type ℓ} (f : Error → Error) (m : Result A) {a : A} → map_err f m ≡ ok a → m ≡ ok a
map_err-eq-ok f (ok a) h = h
map_err-eq-ok f (err e) h = cc
