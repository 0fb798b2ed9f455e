-- ===== src/FileSystem.antt =====
-- src/fs.rs: the encrypted file system, from cleartext paths to the ciphertext files of the vault.
-- The children have the operations that change the disk.
pub mod Making
pub mod Renaming
pub mod Removing
pub mod Attributes
pub mod ReadOnly
pub mod Directories
pub mod MakingDirs
pub mod NewDirectory
pub mod EmptyFiles
pub mod NewFile
pub mod Toy
pub mod Unlinking
mod Tests
mod EntryTests
use cryptomator_rs.Common.{
  ℕ, suc, List, [], ◌∷◌, ◌++◌, length, Option, none, some, Bool, true, false, ◌&&◌, if◌then◌else◌,
  eq_bytes, Result, ok, err, IoKind, io, or_fail, map_err, panic, invalid_file_type,
}
use cryptomator_rs.Crypto.Cryptor.{file_cryptor}
use cryptomator_rs.Crypto.{FileCryptor}
use cryptomator_rs.Disk.Handles.{OpenFile, open_path, use_file}
use cryptomator_rs.Disk.{
  World, Metadata, Io, return, fail_with, ◌>>=◌, ◌>>◌, from, ask, is_file, is_dir, metadata,
  read_dir,
}
use cryptomator_rs.EncryptedFile.ReadWhole.{fill_cleartext}
use cryptomator_rs.FilePath.{
  Name, FilePath, contents_c9r, dir_c9r, symlink_c9r, dirid_c9r, join, join_text, parent, eq_path,
  lt_path,
}
use cryptomator_rs.Os.{WriteMode, read_only}
use cryptomator_rs.Primitives.{Primitives}
use cryptomator_rs.Translator.Naming.{hashed_dir_path, get_ciphertext_path}
use cryptomator_rs.Translator.{get_dir_id, get_cleartext_name}
use cryptomator_rs.Util.Size.{get_cleartext_size}
use cryptomator_rs.Vault.{Vault, cryptor}

pub data FileKind : Type 0 where
  regular_file directory symbolic_link : FileKind

pub record DirEntry : Type 0 where
  pub kind : FileKind
  pub size : ℕ
  pub metadata : Metadata

-- `BTreeMap::insert`, on the entries in the order of their paths.
unfoldable pub insert_entry :
    FilePath → DirEntry → List (FilePath × DirEntry) → List (FilePath × DirEntry)
unfolding lt_path
insert_entry path entry [] = (path, entry) ∷ []
insert_entry path entry ((q, old) ∷ rest) =
    let behind = insert_entry path entry rest in
    if eq_path path q
    then (path, entry) ∷ rest
    else if lt_path path q
    then (path, entry) ∷ (q, old) ∷ rest
    else (q, old) ∷ behind

-- `unwrap`.
abbrev pub unwrap {ℓ} : {A : Type ℓ} → Result A → Result A
unwrap r = map_err (λ _. panic) r

module _ (p : Primitives) (v : Vault) where
  abbrev pub cipher : FileCryptor
  cipher = file_cryptor p (cryptor v)

  unfoldable pub root_dir : Result FilePath
  root_dir = unwrap (hashed_dir_path p v [])

  unfoldable pub root_metadata : Io Metadata
  unfolding root_dir
  root_metadata = do path ← from root_dir; metadata path

  -- `self.vault.path().join("d").join(self.vault.cryptor().hash_dir_id(..).unwrap())`
  abbrev pub directory_path : Name → Result FilePath
  directory_path dir_id = unwrap (hashed_dir_path p v dir_id)

  -- An entry whose cleartext is encrypted in the file at the path.
  abbrev pub encrypted_entry : FileKind → FilePath → Io DirEntry
  encrypted_entry kind path = do
    meta ← metadata path
    size ← from (get_cleartext_size cipher meta.len)
    return (record { kind = kind; size = size; metadata = meta })

  abbrev pub directory_entry : FilePath → Io DirEntry
  directory_entry path = do
    meta ← metadata path
    return (record { kind = directory; size = meta.len; metadata = meta })

  -- The tests one after the other, the first that holds deciding.
  unfoldable pub entry_at : FilePath → FilePath → Io DirEntry
  unfolding get_dir_id
  entry_at cleartext_path ciphertext_path = do
    full_file ← is_file ciphertext_path
    is_directory ← is_dir ciphertext_path
    has_contents ← is_file (join ciphertext_path contents_c9r)
    has_id ← is_file (join ciphertext_path dir_c9r)
    has_target ← is_file (join ciphertext_path symlink_c9r)
    let directory_there = do
      dir_id ← get_dir_id p v cleartext_path
      path ← from (directory_path dir_id)
      directory_entry path
    if full_file
        then encrypted_entry regular_file ciphertext_path
        else if is_directory && has_contents
        then encrypted_entry regular_file (join ciphertext_path contents_c9r)
        else if is_directory && has_id
        then directory_there
        else if is_directory && has_target
        then encrypted_entry symbolic_link (join ciphertext_path symlink_c9r)
        else fail_with invalid_file_type

  -- Where the ciphertext of a path is: its parent's id, and the path below that directory.
  unfoldable pub ciphertext_path_of : FilePath → Io FilePath
  unfolding get_dir_id
  ciphertext_path_of cleartext_path = do
    parent_path ← from (or_fail (parent cleartext_path) panic)
    parent_dir_id ← get_dir_id p v parent_path
    from (get_ciphertext_path p v cleartext_path parent_dir_id)

  unfoldable pub dir_entry : FilePath → Io DirEntry
  unfolding ciphertext_path_of entry_at
  dir_entry cleartext_path = do
    ciphertext_path ← ciphertext_path_of cleartext_path
    entry_at cleartext_path ciphertext_path

  -- One round of the loop in `dir_entries`.
  unfoldable pub add_entry :
      FilePath
      → FilePath
      → Name
      → Name
      → List (FilePath × DirEntry)
      → Io (List (FilePath × DirEntry))
  unfolding dir_entry get_cleartext_name insert_entry
  add_entry cleartext_dir hashed_dir dir_id name entries =
      let round = (do
        cleartext_name ← get_cleartext_name p v (join hashed_dir name) dir_id
        let cleartext_path = join_text cleartext_dir cleartext_name
        entry ← dir_entry cleartext_path
        return (insert_entry cleartext_path entry entries)) in
      if eq_bytes name dirid_c9r then return entries else round

  unfoldable pub add_entries :
      FilePath
      → FilePath
      → Name
      → List Name
      → List (FilePath × DirEntry)
      → Io (List (FilePath × DirEntry))
  unfolding add_entry
  add_entries cleartext_dir hashed_dir dir_id [] entries = return entries
  add_entries cleartext_dir hashed_dir dir_id (name ∷ names) entries = do
    added ← add_entry cleartext_dir hashed_dir dir_id name entries
    add_entries cleartext_dir hashed_dir dir_id names added

  unfoldable pub dir_entries : FilePath → Io (List (FilePath × DirEntry))
  unfolding get_dir_id add_entries
  dir_entries cleartext_dir = do
    dir_id ← get_dir_id p v cleartext_dir
    hashed_dir ← from (directory_path dir_id)
    names ← read_dir hashed_dir
    add_entries cleartext_dir hashed_dir dir_id names []

  -- `read_to_string` on an open file: reads until nothing more comes, which a buffer of the size of
  -- the ciphertext has room for, and checks the bytes.
  unfoldable pub read_text : OpenFile → Io Name
  unfolding fill_cleartext
  read_text e = do
    ((_, bytes), _) ← λ w.
        use_file e (fill_cleartext cipher e.header (suc (length (w.inodes e.handle.inode).bytes))) w
    from (or_fail (p.from_utf8 bytes) (io IoKind.invalid_data))

  unfoldable pub link_target : FilePath → Io Name
  unfolding get_dir_id open_path read_text
  link_target cleartext_path = do
    dir_id ← get_dir_id p v cleartext_path
    ciphertext_path ← from (get_ciphertext_path p v cleartext_path dir_id)
    is_link ← is_file (join ciphertext_path symlink_c9r)
    let read_link = do
      e ← open_path cipher (join ciphertext_path symlink_c9r) read_only
      read_text e
    if is_link then read_link else fail_with (io IoKind.invalid_data)

  -- Opens for reading, and for writing as the options say.
  unfoldable pub open_file : FilePath → WriteMode → Bool → Io OpenFile
  unfolding get_dir_id open_path
  open_file cleartext_path writable append = do
    dir_id ← get_dir_id p v cleartext_path
    ciphertext_path ← from (get_ciphertext_path p v cleartext_path dir_id)
    has_contents ← is_file (join ciphertext_path contents_c9r)
    e ←
        open_path cipher
          (if has_contents then join ciphertext_path contents_c9r else ciphertext_path) writable
    return (record e { append = append })
