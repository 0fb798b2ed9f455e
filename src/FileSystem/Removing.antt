-- ===== src/FileSystem/Removing.antt =====
-- Removing in src/fs.rs.
use cryptomator_rs.Common.{if◌then◌else◌}
use cryptomator_rs.Disk.{Io, ◌>>=◌, ◌>>◌, from, is_file, remove_file, remove_dir_all}
use cryptomator_rs.FileSystem.{directory_path}
use cryptomator_rs.FilePath.{Name, FilePath, join}
use cryptomator_rs.Primitives.{Primitives}
use cryptomator_rs.Translator.Naming.{get_ciphertext_path}
use cryptomator_rs.Translator.{get_dir_id}
use cryptomator_rs.Vault.{Vault}

module _ (p : Primitives) (v : Vault) where
  unfoldable pub unlink : FilePath → Name → Io (Unit {0})
  unfolding get_dir_id remove_file remove_dir_all
  unlink parent name = do
    parent_dir_id ← get_dir_id p v parent
    ciphertext_path ← from (get_ciphertext_path p v (join parent name) parent_dir_id)
    full_file ← is_file ciphertext_path
    if full_file then remove_file ciphertext_path else remove_dir_all ciphertext_path

  unfoldable pub rmdir : FilePath → Name → Io (Unit {0})
  unfolding get_dir_id remove_dir_all
  rmdir parent name = do
    dir_id ← get_dir_id p v (join parent name)
    hashed_dir ← from (directory_path p v dir_id)
    remove_dir_all hashed_dir
    parent_dir_id ← get_dir_id p v parent
    ciphertext_path ← from (get_ciphertext_path p v (join parent name) parent_dir_id)
    remove_dir_all ciphertext_path
