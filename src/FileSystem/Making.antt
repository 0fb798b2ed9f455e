-- ===== src/FileSystem/Making.antt =====
-- Making files, directories and links in src/fs.rs.
use cryptomator_rs.Common.{ℕ, List, if◌then◌else◌, eq_bytes}
use cryptomator_rs.Disk.Handles.{create_path, use_file, metadata_file}
use cryptomator_rs.Disk.{
  Io, return, ◌>>=◌, ◌>>◌, from, create_dir_all, write, set_permissions, random_bytes,
}
use cryptomator_rs.EncryptedFile.WriteWhole.{write_cleartext}
use cryptomator_rs.EncryptedFile.{len_file}
use cryptomator_rs.FileSystem.{
  DirEntry, regular_file, symbolic_link, cipher, directory_path, directory_entry,
}
use cryptomator_rs.FilePath.{
  Name, FilePath, contents_c9r, dir_c9r, symlink_c9r, name_c9s, c9s, join, path_bytes,
}
use cryptomator_rs.Os.{try_write}
use cryptomator_rs.Primitives.{Primitives}
use cryptomator_rs.Translator.Naming.{extension_text, get_full_ciphertext_name, get_ciphertext_path}
use cryptomator_rs.Translator.{get_dir_id}
use cryptomator_rs.Vault.{Vault}

module _ (p : Primitives) (v : Vault) where
  -- `get_full_ciphertext_name(parent.join(name), dir_id)` gives the whole path to the cryptor, and
  -- the name that results goes to "name.c9s".
  unfoldable pub write_full_name : FilePath → FilePath → Name → Io (Unit {0})
  unfolding write
  write_full_name cleartext_path dir_id_path dir_id = do
    full_name ← from (get_full_ciphertext_name p v (path_bytes cleartext_path) dir_id)
    write (join dir_id_path name_c9s) full_name

  unfoldable pub mknod : FilePath → Name → ℕ → Io DirEntry
  unfolding get_dir_id extension_text write_full_name create_path set_permissions metadata_file
  mknod parent name permissions = do
    parent_dir_id ← get_dir_id p v parent
    ciphertext_path ← from (get_ciphertext_path p v (join parent name) parent_dir_id)
    extension ← from (extension_text p v ciphertext_path)
    let shortened = do
      create_dir_all ciphertext_path
      write_full_name (join parent name) ciphertext_path parent_dir_id
      return (join ciphertext_path contents_c9r)
    path ← if eq_bytes extension c9s then shortened else return ciphertext_path
    e ← create_path (cipher p v) path
    set_permissions path permissions
    meta ← metadata_file e
    return (record { kind = regular_file; size = 0; metadata = meta })

  -- `uuid` is the text that the uuid crate gives a version-4 UUID of 16 random bytes.
  module _ (uuid : List ℕ → Name) where
    unfoldable pub mkdir : FilePath → Name → ℕ → Io DirEntry
    unfolding get_dir_id extension_text write_full_name write set_permissions random_bytes
    mkdir parent name permissions = do
      parent_dir_id ← get_dir_id p v parent
      ciphertext_path ← from (get_ciphertext_path p v (join parent name) parent_dir_id)
      create_dir_all ciphertext_path
      random ← random_bytes 16
      write (join ciphertext_path dir_c9r) (uuid random)
      extension ← from (extension_text p v ciphertext_path)
      if eq_bytes extension c9s
          then write_full_name (join parent name) ciphertext_path parent_dir_id
          else return tt
      hashed_dir ← from (directory_path p v (uuid random))
      create_dir_all hashed_dir
      set_permissions hashed_dir permissions
      directory_entry p v hashed_dir

  unfoldable pub symlink : FilePath → Name → Name → Io DirEntry
  unfolding get_dir_id extension_text write_full_name create_path write_cleartext len_file
      metadata_file
  symlink parent link_name target = do
    parent_dir_id ← get_dir_id p v parent
    ciphertext_path ← from (get_ciphertext_path p v (join parent link_name) parent_dir_id)
    create_dir_all ciphertext_path
    extension ← from (extension_text p v ciphertext_path)
    if eq_bytes extension c9s
        then write_full_name (join parent link_name) ciphertext_path parent_dir_id
        else return tt
    made ← create_path (cipher p v) (join ciphertext_path symlink_c9r)
    (_, written) ← use_file made (write_cleartext (cipher p v) made.header made.append target)
    (_, flushed) ← use_file written try_write
    (size, measured) ← use_file flushed (len_file (cipher p v))
    meta ← metadata_file measured
    return (record { kind = symbolic_link; size = size; metadata = meta })
