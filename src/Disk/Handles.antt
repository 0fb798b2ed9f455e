-- ===== src/Disk/Handles.antt =====
-- Open files: what src/fs/encrypted_file.rs does on a file (`Os`), run on an inode of the disk.
use cryptomator_rs.Common.{ℕ, length, Option, none, some, Bool, Result, ok, err, IoKind, io}
use cryptomator_rs.Crypto.{FileCryptor, FileHeader}
use cryptomator_rs.Disk.{
  World, Node, Io, return, ◌>>=◌, ◌>>◌, node_at, file, directory, set_inode, add_node, in_directory,
  Metadata,
}
use cryptomator_rs.EncryptedFile.Opening.{open_file, create_new}
use cryptomator_rs.EncryptedFile.{EncryptedFile}
use cryptomator_rs.FilePath.{FilePath}
use cryptomator_rs.Os.{WriteMode, anywhere, Os, try_read}

-- A `File`: another handle on the same inode sees the same bytes.
pub record Handle : Type 0 where
  pub inode : ℕ
  pub pos : ℕ
  pub writable : WriteMode

abbrev pub os_of : Handle → World → Os
os_of f w = record {
  bytes = (w.inodes f.inode).bytes;
  pos = f.pos;
  read_events = w.read_events;
  lock = w.locks f.inode;
  writable = f.writable;
  entropy = w.entropy;
}

abbrev pub store : Handle → Os → World → World
store f s w =
    set_inode f.inode (record (w.inodes f.inode) { bytes = s.bytes })
      (record w { entropy = s.entropy; read_events = s.read_events })

-- A computation on a file's state, run on the handle.
abbrev pub finish {ℓ} : {A : Type ℓ} → Handle → World → Result A × Os → (Result A × Handle) × World
finish f w (r, s) = ((r, record f { pos = s.pos }), store f s w)

abbrev pub run_on {ℓ} :
    {A : Type ℓ} → Handle → (Os → Result A × Os) → World → (Result A × Handle) × World
run_on f m w = finish f w (m (os_of f w))

-- An `EncryptedFile` that is open on the disk.
pub record OpenFile : Type 0 where
  pub handle : Handle
  pub header : FileHeader
  pub append : Bool

abbrev opened : (Result EncryptedFile × Handle) × World → Result OpenFile × World
opened ((err failure, f), w) = (err failure, w)
opened ((ok e, f), w) = (ok (record { handle = f; header = e.header; append = e.append }), w)

-- `OpenOptions::open` for reading, and for writing as asked for. A directory opens only to fail at
-- the first read, before anything else happens.
abbrev open_node : WriteMode → Option Node → Result Handle
open_node writable none = err (io IoKind.not_found)
open_node writable (some (directory n)) = err (io IoKind.other)
open_node writable (some (file n)) = ok (record { inode = n; pos = 0; writable = writable })

-- `File::create_new`, for writing.
create_node : FilePath → Option Node → Io Handle
create_node path (some _) w = (err (io IoKind.already_exists), w)
create_node path none w =
    (do
      in_directory path (add_node path file)
      return (record { inode = w.next_number; pos = 0; writable = anywhere }))
      w

module _ (c : FileCryptor) where
  -- `EncryptedFile::open` and `EncryptedFile::create_new`.
  unfoldable pub open_path : FilePath → WriteMode → Io OpenFile
  unfolding open_file
  open_path path writable = do
    f ← λ w. (open_node writable (node_at path w), w)
    λ w. opened (run_on f (open_file c) w)

  unfoldable pub create_path : FilePath → Io OpenFile
  unfolding create_node create_new
  create_path path = do
    f ← λ w. create_node path (node_at path w) w
    λ w. opened (run_on f (create_new c) w)

-- A computation on an open file. It keeps its header and its mode.
abbrev put_back {ℓ} :
    {A : Type ℓ} → OpenFile → (Result A × Handle) × World → (Result A × OpenFile) × World
put_back e ((r, f), w) = ((r, record e { handle = f }), w)

abbrev pub run_file {ℓ} :
    {A : Type ℓ} → OpenFile → (Os → Result A × Os) → World → (Result A × OpenFile) × World
run_file e m w = put_back e (run_on e.handle m w)

-- The same where an error drops the file.
abbrev kept_file : {A : Type 0} → (Result A × OpenFile) × World → Result (A × OpenFile) × World
kept_file ((err failure, e), w) = (err failure, w)
kept_file ((ok value, e), w) = (ok (value, e), w)

abbrev pub use_file : {A : Type 0} → OpenFile → (Os → Result A × Os) → Io (A × OpenFile)
use_file e m w = kept_file (run_file e m w)

-- `EncryptedFile::metadata`.
unfoldable pub metadata_file : OpenFile → Io Metadata
metadata_file e = do
  _ ← use_file e try_read
  λ w. (
    ok (record {
      len = length (w.inodes e.handle.inode).bytes;
      attr = (w.inodes e.handle.inode).attr;
    }),
    w,
  )
