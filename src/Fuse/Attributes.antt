-- ===== src/Fuse/Attributes.antt =====
-- The attributes that src/fs/fuse.rs replies with, and the bits of modes and flags.
use cryptomator_rs.Common.{
  ℕ, zero, suc, ◌+◌, ◌*◌, ◌/◌, ◌%◌, ◌^◌, ◌==◌, Option, none, some, Bool, ◌&&◌, ◌||◌, not,
  if◌then◌else◌,
}
use cryptomator_rs.FileSystem.{FileKind, DirEntry}
use cryptomator_rs.Os.{WriteMode, read_only, anywhere, at_end_only}

pub record FileAttr : Type 0 where
  pub ino : ℕ
  pub size : ℕ
  pub blocks : ℕ
  pub atime : ℕ
  pub mtime : ℕ
  pub ctime : ℕ
  pub crtime : ℕ
  pub kind : FileKind
  pub perm : ℕ
  pub nlink : ℕ
  pub uid : ℕ
  pub gid : ℕ
  pub rdev : ℕ
  pub blksize : ℕ
  pub flags : ℕ

-- `unwrap_or(UNIX_EPOCH)`.
abbrev or_epoch : Option ℕ → ℕ
or_epoch none = 0
or_epoch (some t) = t

-- `FileAttr::from(Attributes { inode, entry })`; the casts cut.
unfoldable pub file_attr : ℕ → DirEntry → FileAttr
file_attr inode entry =
    let a = entry.metadata.attr in
    record {
      ino = inode;
      size = entry.size;
      blocks = a.blocks;
      atime = or_epoch a.accessed;
      mtime = or_epoch a.modified;
      ctime = or_epoch a.created;
      crtime = or_epoch a.created;
      kind = entry.kind;
      perm = a.mode % 2 ^ 16;
      nlink = a.nlink % 2 ^ 32;
      uid = a.uid;
      gid = a.gid;
      rdev = a.rdev % 2 ^ 32;
      blksize = a.blksize % 2 ^ 32;
      flags = 0;
    }

-- Bit `k` of a word; flags are the word of their `i32`.
abbrev pub bit : ℕ → ℕ → Bool
bit k word = (word / 2 ^ k) % 2 == 1

-- `flags & O_WRONLY > 0 || flags & O_RDWR > 0`, and `flags & O_APPEND > 0`: the values 1, 2, 0x400.
abbrev pub wants_write : ℕ → Bool
wants_write flags = bit 0 flags || bit 1 flags

abbrev pub wants_append : ℕ → Bool
wants_append flags = bit 10 flags

-- What the options of `open` make of the flags: all of these go to the system as custom flags, which
-- has O_APPEND among them, and the kernel keeps the flags for creating and truncating to itself.
unfoldable pub open_mode : ℕ → WriteMode
open_mode flags =
    if wants_write flags then if wants_append flags then at_end_only else anywhere else read_only

-- The options of `create` have no custom flags.
unfoldable pub create_mode : ℕ → WriteMode
create_mode flags = if wants_write flags then anywhere else read_only

-- `a & !b` on words of so many bits.
unfoldable pub and_not : ℕ → ℕ → ℕ → ℕ
and_not zero a b = 0
and_not (suc bits) a b =
    let above = and_not bits (a / 2) (b / 2) in
    (if (a % 2 == 1) && not (b % 2 == 1) then 1 else 0) + 2 * above
