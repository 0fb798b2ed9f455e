-- ===== src/Translator.antt =====
-- src/fs/translator.rs: cleartext names and paths, and the ciphertext names and paths they have.
pub mod Naming
pub mod Shortening
pub mod RoundTrip
mod Tests
pub mod DirIds
use cryptomator_rs.Common.{
  ℕ, ◌+◌, List, [], ◌∷◌, ◌++◌, length, Option, none, some, Bool, true, false, ltb, if◌then◌else◌,
  eq_bytes, Result, ok, err, or_fail, panic, missing_extension,
}
use cryptomator_rs.Crypto.Cryptor.{hash_dir_id, encrypt_name, decrypt_name}
use cryptomator_rs.Disk.{World, Io, return, fail_with, ◌>>=◌, ◌>>◌, from, is_file, read_to_string}
use cryptomator_rs.FilePath.Extension.{file_stem, extension}
use cryptomator_rs.FilePath.{
  Name, FilePath, dotdot, c9s, dot_c9r, dot_c9s, dir_c9r, name_c9s, d, join, file_name, parent_of,
  components, slash, split_slash, keep_components,
}
use cryptomator_rs.Primitives.{Primitives}
use cryptomator_rs.Translator.Naming.{path_extension, path_stem, get_ciphertext_path}
use cryptomator_rs.Vault.{Vault, cryptor}

-- The text up to the stem of its last component, of the parts between its separators.
unfoldable pub cut_parts : List Name → Option Name
cut_parts [] = none
cut_parts (part ∷ parts) = elim (cut_parts parts) [
  | some text ↦ some (part ++ (slash ∷ text))
  | none ↦ elim (keep_components (part ∷ [])) [ [] ↦ none | name ∷ names ↦ some (file_stem name) ]
]

-- `set_extension("")` on the path that a text spells: it is cut behind the stem of its file's name.
unfoldable pub without_extension : Name → Name
unfolding components cut_parts
without_extension text = elim (file_name (components text)) [
  | none ↦ text
  | some name ↦ elim (cut_parts (split_slash text)) [ none ↦ text | some cut ↦ cut ]
]

module _ (p : Primitives) (v : Vault) where
  -- `get_dir_id` on a path whose parent has this id.
  unfoldable pub dir_id_below : FilePath → Name → Io Name
  unfolding get_ciphertext_path
  dir_id_below cleartext_path parent_dir_id = do
    ciphertext_path ← from (get_ciphertext_path p v cleartext_path parent_dir_id)
    is_directory ← is_file (join ciphertext_path dir_c9r)
    if is_directory then read_to_string p (join ciphertext_path dir_c9r) else return parent_dir_id

  -- Down the rest of a path, below a directory with this id. The source's recursion goes up to the
  -- root first, and so does the same work in the same order.
  unfoldable pub dir_id_along : FilePath → Name → List Name → Io Name
  unfolding dir_id_below
  dir_id_along above dir_id [] = return dir_id
  dir_id_along above dir_id (name ∷ names) = do
    below ← dir_id_below (join above name) dir_id
    dir_id_along (join above name) below names

  unfoldable pub get_dir_id : FilePath → Io Name
  unfolding dir_id_along
  get_dir_id cleartext_path = dir_id_along [] [] cleartext_path

  unfoldable pub decrypt_text : Name → Name → Result Name
  decrypt_text text dir_id = decrypt_name p (cryptor v) (p.to_string_lossy text) dir_id

  unfoldable pub get_cleartext_name : FilePath → Name → Io Name
  unfolding decrypt_text without_extension
  get_cleartext_name ciphertext_path dir_id =
      let shortened = (do
        ciphertext_name ← read_to_string p (join ciphertext_path name_c9s)
        from (decrypt_text (without_extension ciphertext_name) dir_id)) in
      elim (path_extension ciphertext_path) [
        | none ↦ fail_with missing_extension
        | some extension ↦
            if eq_bytes extension c9s
            then shortened
            else from (decrypt_text (path_stem ciphertext_path) dir_id)
      ]
