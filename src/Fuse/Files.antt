-- ===== src/Fuse/Files.antt =====
-- The handlers of src/fs/fuse.rs on open files.
use cryptomator_rs.Common.{
  ℕ, ◌%◌, ◌^◌, ◌==◌, List, length, none, some, if◌then◌else◌, panic, ℤ, pos, negsuc,
}
use cryptomator_rs.Disk.Handles.{OpenFile}
use cryptomator_rs.EncryptedFile.ReadWhole.{fill_cleartext}
use cryptomator_rs.EncryptedFile.WriteWhole.{write_cleartext}
use cryptomator_rs.EncryptedFile.{start, seek_file}
use cryptomator_rs.FileSystem.Making
use cryptomator_rs.FileSystem.{cipher, open_file}
use cryptomator_rs.FilePath.{Name, join}
use cryptomator_rs.Fuse.Attributes.{file_attr, open_mode, create_mode, wants_append, and_not}
use cryptomator_rs.Fuse.{
  bytes, done, opened, created, written, error, died, enoent, eio, Handler, reply, on_disk,
  with_path, with_inode, set_key, add_file, on_open,
}
use cryptomator_rs.Os.{try_write}
use cryptomator_rs.Primitives.{Primitives}
use cryptomator_rs.Vault.{Vault}

-- What a handle's request does on the open file, if there is one.
unfoldable pub at_handle : ℕ → (OpenFile → Handler) → Handler
at_handle fh next m = elim (m.open_files fh) [ none ↦ (error enoent, m) | some e ↦ next e m ]

module _ (p : Primitives) (v : Vault) where
  unfoldable pub open_inode : ℕ → ℕ → Handler
  unfolding open_file open_mode
  open_inode inode flags = with_path inode (λ path.
      on_disk eio (open_file p v path (open_mode flags) (wants_append flags))
        (λ e m. (opened m.next_handle flags, add_file e m)))

  -- Makes the file, numbers it and opens it.
  unfoldable pub create : ℕ → Name → ℕ → ℕ → ℕ → Handler
  unfolding open_file Making.mknod and_not create_mode
  create parent name mode umask flags = with_path parent (λ path.
      on_disk eio (Making.mknod p v path name (and_not 32 mode umask)) (λ entry.
        with_inode (join path name) (λ inode.
          on_disk eio (open_file p v (join path name) (create_mode flags) (wants_append flags))
            (λ e m. (created (file_attr inode entry) m.next_handle flags, add_file e m)))))

  -- The assertions of a debug build on the offset, around the seek.
  unfoldable pub seek_to_offset : ℕ → ℤ → OpenFile → (OpenFile → Handler) → Handler
  unfolding seek_file
  seek_to_offset fh (negsuc _) e next = reply (died panic)
  seek_to_offset fh (pos n) e next =
      on_open fh e (seek_file (cipher p v) (start n))
        (λ position e'. if position == n then next e' else reply (died panic))

  abbrev pub from_offset : ℕ → ℤ → (OpenFile → Handler) → Handler
  from_offset fh offset next = at_handle fh (λ e. seek_to_offset fh offset e next)

  -- Behind the seek.
  abbrev pub read_here : ℕ → ℕ → OpenFile → Handler
  read_here fh size e =
      on_open fh e (fill_cleartext (cipher p v) e.header size) (λ (_, buf) _. reply (bytes buf))

  abbrev pub write_here : ℕ → List ℕ → OpenFile → Handler
  write_here fh content e =
      on_open fh e (write_cleartext (cipher p v) e.header e.append content)
        (λ _ _. reply (written (length content % 2 ^ 32)))

  unfoldable pub read : ℕ → ℤ → ℕ → Handler
  unfolding fill_cleartext
  read fh offset size = from_offset fh offset (read_here fh size)

  unfoldable pub write : ℕ → ℤ → List ℕ → Handler
  unfolding write_cleartext
  write fh offset content = from_offset fh offset (write_here fh content)

  unfoldable pub flush : ℕ → Handler
  unfolding try_write
  flush fh = at_handle fh (λ e. on_open fh e try_write (λ _ _. reply done))

  -- `sync_data` and `sync_all` show no difference.
  unfoldable pub fsync : ℕ → Handler
  unfolding try_write
  fsync fh = at_handle fh (λ e. on_open fh e try_write (λ _ _. reply done))

  unfoldable pub release : ℕ → Handler
  release fh m = (done, record m { open_files = set_key fh none m.open_files })
