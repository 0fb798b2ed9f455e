-- ===== src/EncryptedFile/Opening.antt =====
-- Opening and creating in src/fs/encrypted_file.rs.
use cryptomator_rs.Common.{ℕ, List, false, Result, ok, err, IoKind, io}
use cryptomator_rs.Crypto.{FileCryptor, FileHeader}
use cryptomator_rs.Os.{Os, M, pure, ◌>>=◌, ◌>>◌, lift, guard, write_all, try_read, try_write}
use cryptomator_rs.EncryptedFile.{EncryptedFile, fill}

-- `Read::read_exact`, of the standard library: an end of the file is an error.
unfoldable pub read_exact : ℕ → M (List ℕ)
unfolding fill
read_exact n = do (full, bytes) ← fill n; guard full (io IoKind.unexpected_eof); pure bytes

-- `open`, on the file that the options gave.
unfoldable pub open_file : FileCryptor → Os → Result EncryptedFile × Os
unfolding read_exact
open_file c = do
  try_read
  encrypted_header ← read_exact c.encrypted_header_len
  header ← lift (c.decrypt_header encrypted_header)
  λ s. (ok (record { cryptor = c; file = s; header = header; append = false }), s)

-- `new_header` with the operating system's entropy.
unfoldable pub fresh_header : FileCryptor → M FileHeader
fresh_header c s = elim (c.new_header s.entropy) [
  | ok (header, rng) ↦ (ok header, record s { entropy = rng })
  | err e ↦ (err e, s)
]

-- `options.open(path)` on the same path: another handle, at the start of the same bytes.
unfoldable pub reopen : M (Unit {0})
reopen s = (ok tt, record s { pos = 0 })

-- `create_new`, on the empty file that `File::create_new` gave.
unfoldable pub create_new : FileCryptor → Os → Result EncryptedFile × Os
unfolding fresh_header reopen open_file
create_new c = do
  try_write
  header ← fresh_header c
  header_bytes ← lift (c.encrypt_header header)
  write_all header_bytes
  reopen
  open_file c
