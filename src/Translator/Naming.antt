-- ===== src/Translator/Naming.antt =====
-- The names and paths of ciphertext files in src/fs/translator.rs, which need no disk.
use cryptomator_rs.Common.{
  [], ◌∷◌, ◌++◌, length, Option, none, some, ltb, if◌then◌else◌, Result, ok, ◌>>=◌, or_fail, panic,
}
use cryptomator_rs.Crypto.Cryptor.{hash_dir_id, encrypt_name}
use cryptomator_rs.FilePath.Extension.{file_stem, extension}
use cryptomator_rs.FilePath.{Name, FilePath, dot_c9r, dot_c9s, d, join, file_name}
use cryptomator_rs.Primitives.{Primitives}
use cryptomator_rs.Vault.{Vault, cryptor}

-- The extension of a path.
abbrev name_extension : Option Name → Option Name
name_extension none = none
name_extension (some name) = extension name

abbrev pub path_extension : FilePath → Option Name
path_extension path = name_extension (file_name path)

abbrev name_stem : Option Name → Name
name_stem none = []
name_stem (some name) = file_stem name

abbrev pub path_stem : FilePath → Name
path_stem path = name_stem (file_name path)

module _ (p : Primitives) (v : Vault) where
  unfoldable pub get_full_ciphertext_name : Name → Name → Result Name
  get_full_ciphertext_name cleartext_name dir_id = do
    encrypted ← encrypt_name p (cryptor v) cleartext_name dir_id
    ok (encrypted ++ dot_c9r)

  -- A name above the threshold is replaced by its hash.
  unfoldable pub final_name : Name → Name
  final_name ciphertext_name =
      if ltb v.config.shortening_threshold (length ciphertext_name)
      then p.base64_url_encode (p.sha1 ciphertext_name) ++ dot_c9s
      else ciphertext_name

  -- The directory of the vault that holds the entries of the directory with this id.
  unfoldable pub hashed_dir_path : Name → Result FilePath
  hashed_dir_path dir_id = do hashed ← hash_dir_id p (cryptor v) dir_id; ok (v.path ++ (d ∷ hashed))

  unfoldable pub get_ciphertext_path : FilePath → Name → Result FilePath
  unfolding get_full_ciphertext_name hashed_dir_path final_name
  get_ciphertext_path cleartext_path dir_id = do
    cleartext_name ← or_fail (file_name cleartext_path) panic
    ciphertext_name ← get_full_ciphertext_name cleartext_name dir_id
    path ← hashed_dir_path dir_id
    ok (join path (final_name ciphertext_name))

  -- `path.extension().unwrap().to_str().unwrap()`, as src/fs.rs has it.
  unfoldable pub extension_text : FilePath → Result Name
  extension_text path = do
    bytes ← or_fail (path_extension path) panic
    or_fail (p.from_utf8 bytes) panic
