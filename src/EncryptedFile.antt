-- ===== src/EncryptedFile.antt =====
-- src/fs/encrypted_file.rs: a cleartext file over a ciphertext file of chunks. The operations are
-- computations on the file's state in the operating system (`Os`); `read`, `write` and `seek` of an
-- `EncryptedFile` run them on its own file.
pub mod Target
pub mod Splice
pub mod Layout
pub mod Slot
pub mod Seeking
pub mod Loading
pub mod Present
pub mod Reading
pub mod Text
pub mod Merging
pub mod Storing
pub mod Replacing
pub mod WriteChunk
pub mod Writing
pub mod SeekTarget
pub mod ReadWhole
pub mod WriteWhole
pub mod WriteRead
pub mod Opening
pub mod Creating
mod Tests
use cryptomator_rs.Common.{
  ℕ, zero, ◌+◌, ◌-◌, ◌*◌, ◌/◌, ◌%◌, ◌^◌, ◌==◌, suc, List, [], ◌∷◌, ◌++◌, length, take, drop,
  replicate, min, max, Bool, true, false, not, ◌&&◌, ◌||◌, ltb, leb, if◌then◌else◌, Option, some,
  none, Result, ok, err, Error, IoKind, panic, io, io_invalid_data, map_err, sub_u64, mul_u64,
  add_u64, u64_limit, ℤ, pos, negsuc,
}
use cryptomator_rs.Crypto.{FileCryptor, FileHeader}
use cryptomator_rs.EncryptedFile.Splice.{overwrite, at_end, within_last}
use cryptomator_rs.EncryptedFile.Target.{desired_pos}
use cryptomator_rs.Os.{
  Os, Lock, M, pure, fail, continue, ◌>>=◌, ◌>>◌, lift, guard, gets, ciphertext_pos, ciphertext_len,
  seek_to, write_all, try_read, try_write,
}
use cryptomator_rs.Os
use cryptomator_rs.Rng.{Rng}
use cryptomator_rs.Util.ReadExact.{try_read_exact}
use cryptomator_rs.Util.Size.{get_cleartext_size}

pub record EncryptedFile : Type 0 where
  pub cryptor : FileCryptor
  pub file : Os
  pub header : FileHeader
  pub append : Bool

-- `std::io::SeekFrom`; the signed offsets are `i64`s.
pub data SeekFrom : Type 0 where
  start : ℕ → SeekFrom
  from_end : ℤ → SeekFrom
  current : ℤ → SeekFrom

-- `util::try_read_exact` on the file, with fuel for the buffer and the coming events.
unfoldable pub fill : ℕ → M (Bool × List ℕ)
fill n s = try_read_exact Os.read (length s.read_events + n + 1) n s

-- `-n.max(0) as u64`: the method call binds first, so nothing is left of a negative offset, and a
-- positive one is negated and wraps.
unfoldable pub from_end_distance : ℤ → ℕ
from_end_distance (pos n) = (2 ^ 64 - n) % 2 ^ 64
from_end_distance (negsuc n) = 0

module _ (c : FileCryptor) where
  unfoldable pub cleartext_pos : M ℕ
  cleartext_pos = do n ← ciphertext_pos; lift (get_cleartext_size c n)

  unfoldable pub cleartext_len : M ℕ
  cleartext_len = do n ← ciphertext_len; lift (get_cleartext_size c n)

  -- `seek_inner` at `SeekFrom::Start(n)`.
  unfoldable pub seek_start : ℕ → M ℕ
  unfolding cleartext_pos
  seek_start n = do
    here ← cleartext_pos
    let move = do
      desired ← lift (desired_pos c n)
      len ← ciphertext_len
      seek_to (min desired len)
      cleartext_pos
    if here == n then pure n else move

  -- What `SeekFrom::Current(n)` asks for; nothing at 0. Negating the least `i64` overflows.
  unfoldable pub seek_current : ℤ → M ℕ
  unfolding cleartext_pos cleartext_len seek_start
  seek_current (pos zero) = cleartext_pos
  seek_current (pos (suc n)) = do
    here ← cleartext_pos
    len ← cleartext_len
    seek_start (min (min (here + suc n) (u64_limit - 1)) len)
  seek_current (negsuc n) = do
    here ← cleartext_pos
    guard (ltb (suc n) (2 ^ 63)) panic
    seek_start (here - suc n)

  unfoldable pub seek_inner : SeekFrom → M ℕ
  unfolding cleartext_len from_end_distance seek_start seek_current
  seek_inner (start n) = seek_start n
  seek_inner (from_end n) = do len ← cleartext_len; seek_start (len - from_end_distance n)
  seek_inner (current n) = seek_current n

  unfoldable pub seek_file : SeekFrom → M ℕ
  unfolding seek_inner
  seek_file p = do try_read; seek_inner p

  unfoldable pub len_file : M ℕ
  unfolding cleartext_len
  len_file = do try_read; cleartext_len

  module _ (header : FileHeader) where
    -- A failure of the cryptor becomes an I/O error of kind `InvalidData`.
    unfoldable pub decrypt : List ℕ → ℕ → M (List ℕ)
    decrypt bytes chunk_number =
        lift (map_err io_invalid_data (c.decrypt_chunk bytes header chunk_number))

    -- Takes the nonce from the operating system.
    unfoldable pub encrypt : List ℕ → ℕ → M (List ℕ)
    encrypt chunk chunk_number s =
        elim (map_err io_invalid_data (c.encrypt_chunk s.entropy chunk header chunk_number)) [
          | ok (bytes, rng) ↦ (ok bytes, record s { entropy = rng })
          | err e ↦ (err e, s)
        ]

    -- Goes to the start of the chunk that holds the position.
    unfoldable pub align : ℕ → M (Unit {0})
    unfolding seek_start
    align position =
        let back = (do _ ← seek_start (position / c.max_chunk_len * c.max_chunk_len); pure tt) in
        if ltb 0 (position % c.max_chunk_len) then back else pure tt

    -- The body of `Read::read` behind its early return. `&chunk[chunk_offset..]` panics on a chunk
    -- that is too short.
    unfoldable pub read_chunk : ℕ → M (List ℕ)
    unfolding cleartext_pos align fill decrypt seek_start
    read_chunk n = do
      current_pos ← cleartext_pos
      let chunk_offset = current_pos % c.max_chunk_len
      align current_pos
      (_, ciphertext_chunk) ← fill c.max_encrypted_chunk_len
      chunk ← decrypt ciphertext_chunk (current_pos / c.max_chunk_len)
      guard (leb chunk_offset (length chunk)) panic
      let out = take n (drop chunk_offset chunk)
      _ ← seek_start (current_pos + length out)
      pure out

    -- `Read::read` with a buffer of `n` bytes.
    unfoldable pub read_file : ℕ → M (List ℕ)
    unfolding read_chunk
    read_file n = do
      try_read
      position ← ciphertext_pos
      len ← ciphertext_len
      let chunk = read_chunk n
      if n == 0 || position == len then pure [] else chunk

    -- What `write` puts in the place of the chunk that it read.
    unfoldable pub replacement : Bool → List ℕ → ℕ → ℕ → List ℕ → M (List ℕ × ℕ)
    unfolding decrypt overwrite at_end within_last
    replacement false [] chunk_number chunk_offset buf = pure (at_end c.max_chunk_len buf)
    replacement false (x ∷ xs) chunk_number chunk_offset buf = do
      old ← decrypt (x ∷ xs) chunk_number
      pure (within_last c.max_chunk_len old chunk_offset buf)
    replacement true bytes chunk_number chunk_offset buf =
        let merge = (do
          old ← decrypt bytes chunk_number
          guard (leb chunk_offset (length old)) panic
          pure (overwrite old chunk_offset buf)) in
        if chunk_offset == 0 && leb c.max_chunk_len (length buf)
        then pure (take c.max_chunk_len buf, length (take c.max_chunk_len buf))
        else merge

    -- The body of `Write::write` behind its early return, at the position.
    unfoldable pub write_chunk : List ℕ → M ℕ
    unfolding cleartext_pos align fill replacement encrypt seek_start
    write_chunk buf = do
      current_pos ← cleartext_pos
      let chunk_number = current_pos / c.max_chunk_len
      align current_pos
      (full, ciphertext_chunk) ← fill c.max_encrypted_chunk_len
      (chunk, bytes_written) ←
          replacement full ciphertext_chunk chunk_number (current_pos % c.max_chunk_len) buf
      replacement_chunk ← encrypt chunk chunk_number
      _ ← seek_start (chunk_number * c.max_chunk_len)
      write_all replacement_chunk
      _ ← seek_start (current_pos + bytes_written)
      pure bytes_written

    -- `Write::write`. In append mode the file is first put to its end.
    unfoldable pub write_file : Bool → List ℕ → M ℕ
    unfolding write_chunk
    write_file append buf = do
      try_write
      let write_here = write_chunk buf
      let write_there = do len ← ciphertext_len; seek_to len; write_chunk buf
      if length buf == 0 then pure 0 else if append then write_there else write_here

-- The operations of the object: its file is the only part that changes.
abbrev pub on_file {ℓ} : {A : Type ℓ} → EncryptedFile → Result A × Os → Result A × EncryptedFile
on_file e (r, s) = (r, record e { file = s })

unfoldable pub read : ℕ → EncryptedFile → Result (List ℕ) × EncryptedFile
unfolding read_file
read n e = on_file e (read_file e.cryptor e.header n e.file)

unfoldable pub write : List ℕ → EncryptedFile → Result ℕ × EncryptedFile
unfolding write_file
write buf e = on_file e (write_file e.cryptor e.header e.append buf e.file)

unfoldable pub seek : SeekFrom → EncryptedFile → Result ℕ × EncryptedFile
unfolding seek_file
seek p e = on_file e (seek_file e.cryptor p e.file)

unfoldable pub len : EncryptedFile → Result ℕ × EncryptedFile
unfolding len_file
len e = on_file e (len_file e.cryptor e.file)

unfoldable pub set_append : Bool → EncryptedFile → EncryptedFile
set_append append e = record e { append = append }

-- `sync_all` and `sync_data`, and `flush`: of these only the lock shows.
unfoldable pub sync : EncryptedFile → Result (Unit {0}) × EncryptedFile
sync e = on_file e (try_write e.file)

unfoldable pub flush : EncryptedFile → Result (Unit {0}) × EncryptedFile
flush e = on_file e (try_write e.file)
