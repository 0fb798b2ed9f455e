-- ===== src/Key.antt =====
-- The master key (src/key.rs): 64 bytes, the encryption key and then the MAC key.
pub mod Wrapped
pub mod Fields
pub mod File
pub mod Cost
pub mod Toy
mod Tests
use cryptomator_rs.Common.{ℕ, ◌*◌, ◌≡◌, List, length, take, drop, Result, ok, ◌>>=◌}
use cryptomator_rs.Rng.{Rng, try_fill_bytes}

abbrev pub subkey_len : ℕ
subkey_len = 32

pub record MasterKey : Type 0 where
  pub bytes : List ℕ

-- The array's length, which Rust's type fixes.
pub record IsValid (k : MasterKey) : Type 0 where
  pub size : length k.bytes ≡ subkey_len * 2

unfoldable pub new : Rng → Result (MasterKey × Rng)
new rng = do
  (bytes, rng') ← try_fill_bytes rng (subkey_len * 2)
  ok (record { bytes = bytes }, rng')

unfoldable pub from_bytes : List ℕ → MasterKey
from_bytes bytes = record { bytes = bytes }

unfoldable pub enc_key : MasterKey → List ℕ
enc_key k = take subkey_len k.bytes

unfoldable pub mac_key : MasterKey → List ℕ
mac_key k = drop subkey_len k.bytes

unfoldable pub raw_key : MasterKey → List ℕ
raw_key k = k.bytes
