-- ===== src/Util/Kek.antt =====
-- `derive_kek` of src/util.rs: the key encryption key of a password. (Erasing the password has no
-- counterpart.)
use cryptomator_rs.Common.{◌==◌, length, Result, ok, ◌>>=◌, ◌>>◌, guard, or_fail, panic, kdf_failed}
use cryptomator_rs.FilePath.{Name}
use cryptomator_rs.Key.Fields.{KeyLibraries}
use cryptomator_rs.Key.Wrapped.{Kek}
use cryptomator_rs.Key.{subkey_len}

module _ {Salt Params : Type 0} (l : KeyLibraries Salt Params) where
  -- A hash of another length fails the assertion, and `copy_from_slice` too.
  unfoldable pub derive_kek : Name → Params → Salt → Result Kek
  derive_kek password params salt = do
    password_hash ← or_fail (l.hash_password password params salt) kdf_failed
    hash ← or_fail password_hash panic
    guard (length hash == subkey_len) panic
    ok (l.kek hash)
