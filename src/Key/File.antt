-- ===== src/Key/File.antt =====
-- `WrappedKey::from_file` of src/key.rs.
use cryptomator_rs.Common.{or_fail, wrapped_key_failed}
use cryptomator_rs.Disk.{Io, ◌>>=◌, from, read_to_string}
use cryptomator_rs.FilePath.{FilePath}
use cryptomator_rs.Key.Fields.{KeyLibraries, wrapped_of}
use cryptomator_rs.Key.Wrapped.{WrappedKey}
use cryptomator_rs.Primitives.{Primitives}

module _ (p : Primitives) {Salt Params : Type 0} (l : KeyLibraries Salt Params) where
  unfoldable pub from_file : FilePath → Io (WrappedKey Salt Params)
  unfolding wrapped_of
  from_file path = do
    json ← read_to_string p path
    raw ← from (or_fail (l.from_json json) wrapped_key_failed)
    from (wrapped_of l raw)
