-- ===== src/Lib.antt =====
-- A verification library for cryptomator-rs, which reads and writes Cryptomator vaults:
-- directories of encrypted files with encrypted names.
--
-- The parts of the program, and the files that model them:
--   * src/key.rs: the master key of 64 bytes and its wrapped form. Key, Key/Wrapped. Key/Fields
--     and Key/File read a wrapped key from its file; Key/Cost is about the parameters of scrypt
--     in it.
--   * src/crypto.rs, src/crypto/siv_gcm.rs, src/crypto/siv_ctrmac.rs: file headers, and the trait
--     `FileCryptor` with two ciphers behind the enum `Cryptor`. Crypto has the header, the trait
--     as a record of operations and the record `IsLawful` of what clients may rely on;
--     Crypto/SivGcm and Crypto/SivCtrMac are the ciphers, each with RoundTrip and Bounds;
--     Crypto/Names has the name encryption that both share; Crypto/Cryptor the dispatch.
--   * src/util.rs: `derive_kek`, `hmac`, `sign_jwt`, `verify_jwt`, `try_read_exact` and
--     `get_cleartext_size`. Util/Kek, Util/Hmac, Util/Jwt, Util/ReadExact, Util/Size.
--     Util/Size/Position says where a cleartext position stands in the file.
--   * src/fs/encrypted_file.rs: `EncryptedFile`, a cleartext file over a file of encrypted
--     chunks. EncryptedFile has the operations under the names of the source (`seek_start` is the
--     case `SeekFrom::Start` of `seek_inner`; `read_file`, `write_file` and `seek_file` are
--     `read`, `write` and `seek` on the inner file). Its children go from the layout of a file
--     (Layout, Slot, Present) over seeking (Target, Seeking, SeekTarget), reading (Loading,
--     Reading) and writing (Splice, Text, Merging, Replacing, Storing, WriteChunk, Writing,
--     WriteRead) to opening and creating (Opening, Creating).
--   * src/fs/fuse/dir_tree.rs: the tree of inodes. DirTree has its operations, DirTree/Paths the
--     path that an inode spells, DirTree/Inserting, DirTree/RoundTrip and DirTree/Again what
--     `insert_path` does. DirTree/Renaming and DirTree/Removing say which paths `rename` and
--     `remove` change, from DirTree/Through on the paths through an inode and the steps in
--     DirTree/Linking, DirTree/Keeping and DirTree/Changing.
--   * src/vault.rs: a vault's configuration. Vault has `open` (`open_vault` and, behind the check
--     of the key's URI, `unlock`) and `cryptor`; the record `Unlocking` has the libraries that it
--     calls. Opening says what a vault that opens has passed, Unlocks which vaults open.
--   * src/fs/translator.rs: Translator/Naming has the functions that need no disk, Translator the
--     others (`get_dir_id` goes down the path, `dir_id_below` being one round of the source's
--     recursion). Shortening, RoundTrip and DirIds are about them.
--   * src/fs.rs: FileSystem has the entries, links and opening of the encrypted file system, and
--     its children Making, Renaming, Removing and Attributes the operations that change the disk
--     (`change_permissions` and `change_times` are `set_permissions` and `set_times`;
--     `rename_dir` and `rename_link` share `rename_holder`). ReadOnly is about the operations
--     that only look, Directories, MakingDirs, NewDirectory, EmptyFiles and NewFile about the
--     entries that `mkdir` and `mknod` make, Unlinking about those that `unlink` and `rmdir`
--     remove.
--   * src/fs/fuse.rs: Fuse has the state of the mounted file system with its disk, the replies,
--     and the parts that handlers are made of; Fuse/Entries, Fuse/Files and Fuse/Dirs have the
--     handlers under their names (`open_inode` is `open`), Fuse/Requests the requests and their
--     dispatch. ReadWrite is about open files, Made about entries that are made and then looked
--     up, Tables, Handles and Soundness about the handle tables, Looking about requests that only
--     look.
-- What lies below is a parameter or a state: Primitives is a record of the functions of the
-- cryptographic and encoding crates, with the laws that these document; Rng is the entropy of the
-- operating system as a tape of bytes; Os is an open file with its bytes, its position, its lock
-- and a script of short reads, interruptions and failures to come. FilePath and Disk model
-- `std::path` and `std::fs`: paths are lists of names, and the disk is a list of paths with
-- inodes behind them, which Disk/Handles runs the operations of open files on. Disk/Growing,
-- Disk/Making, Disk/Creating and Disk/Removing say what these operations leave as it was. Common
-- has what all share.
--
-- A file relies on its cryptor by `IsLawful` only, which both ciphers fill. `Holds` says that the
-- bytes of a file are a header and chunks that decrypt to a cleartext, all full but the last one;
-- `Ready` adds a position. The abstract file is this cleartext with a position, and `splice` is
-- the abstract write.
--
-- Bounds and fuel: `u64` and `usize` have 64 bits, and what does not fit is the error `panic`, as
-- in a debug build. Files are below 2^63 bytes. `try_read_exact` runs on fuel, one more than the
-- buffer's length and the coming events together: each round uses up an event or delivers a byte.
-- `get_path` runs on fuel, one more than the components of the path.
--
-- A handler runs `get_path` with one round more than the next inode's number.
--
-- Not modelled: the command line (src/main.rs). The libraries for scrypt, tokens and JSON are
-- parameters: records of functions, with laws of what they document. Erasing secrets from memory
-- has no counterpart. The operating system denies no permission but that of the open file, has
-- room and does not change files or times by itself; other handles act between operations, not
-- within one. The kernel keeps the flags for creating and truncating to itself, so that of the
-- flags that `open` hands to the system the access mode and O_APPEND count. Logging and the
-- lifetime of replies are left out.
pub mod Common
pub mod Rng
pub mod Primitives
pub mod Key
pub mod Crypto
pub mod Util
pub mod Os
pub mod EncryptedFile
pub mod DirTree
pub mod FilePath
pub mod Disk
pub mod Vault
pub mod Translator
pub mod FileSystem
pub mod Fuse
