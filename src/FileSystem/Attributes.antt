-- ===== src/FileSystem/Attributes.antt =====
-- Permissions and times in src/fs.rs.
use cryptomator_rs.Common.{ℕ, ◌&&◌, if◌then◌else◌, not_yet_implemented}
use cryptomator_rs.Disk.{
  FileTimes, Io, return, fail_with, ◌>>=◌, from, is_file, is_dir, set_permissions, set_times,
}
use cryptomator_rs.FileSystem.{
  FileKind, regular_file, directory, symbolic_link, dir_entry, ciphertext_path_of, directory_path,
}
use cryptomator_rs.FilePath.{FilePath, contents_c9r, symlink_c9r, join}
use cryptomator_rs.Primitives.{Primitives}
use cryptomator_rs.Translator.{get_dir_id}
use cryptomator_rs.Vault.{Vault}

module _ (p : Primitives) (v : Vault) where
  -- The ciphertext file of a regular file, with a full or a shortened name.
  unfoldable pub content_path : FilePath → Io FilePath
  unfolding ciphertext_path_of
  content_path cleartext_path = do
    ciphertext_path ← ciphertext_path_of p v cleartext_path
    is_directory ← is_dir ciphertext_path
    has_contents ← is_file (join ciphertext_path contents_c9r)
    return (
        if is_directory && has_contents then join ciphertext_path contents_c9r else ciphertext_path)

  unfoldable pub kind_permissions : FileKind → FilePath → ℕ → Io (Unit {0})
  unfolding content_path ciphertext_path_of get_dir_id set_permissions
  kind_permissions regular_file cleartext_path permissions = do
    path ← content_path cleartext_path
    set_permissions path permissions
  kind_permissions directory cleartext_path permissions = do
    dir_id ← get_dir_id p v cleartext_path
    path ← from (directory_path p v dir_id)
    set_permissions path permissions
  kind_permissions symbolic_link cleartext_path permissions = do
    path ← ciphertext_path_of p v cleartext_path
    set_permissions (join path symlink_c9r) permissions

  unfoldable pub change_permissions : FilePath → ℕ → Io (Unit {0})
  unfolding dir_entry kind_permissions
  change_permissions cleartext_path permissions = do
    entry ← dir_entry p v cleartext_path
    kind_permissions entry.kind cleartext_path permissions

  unfoldable pub kind_times : FileKind → FilePath → FileTimes → Io (Unit {0})
  unfolding content_path ciphertext_path_of set_times
  kind_times regular_file cleartext_path times = do
    path ← content_path cleartext_path
    set_times path times
  kind_times directory cleartext_path times = fail_with not_yet_implemented
  kind_times symbolic_link cleartext_path times = do
    path ← ciphertext_path_of p v cleartext_path
    set_times (join path symlink_c9r) times

  unfoldable pub change_times : FilePath → FileTimes → Io (Unit {0})
  unfolding dir_entry kind_times
  change_times cleartext_path times = do
    entry ← dir_entry p v cleartext_path
    kind_times entry.kind cleartext_path times
