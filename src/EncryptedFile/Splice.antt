-- ===== src/EncryptedFile/Splice.antt =====
-- How `write` of src/fs/encrypted_file.rs builds the cleartext of the chunk that it writes.
use cryptomator_rs.Common.{ℕ, ◌+◌, ◌-◌, List, ◌++◌, length, take, drop, replicate, min, max}

-- `(&mut chunk[offset..]).write(buf)`: the chunk, and how much of the buffer it took.
unfoldable pub overwrite : List ℕ → ℕ → List ℕ → List ℕ × ℕ
overwrite chunk offset buf =
    let written = min (length buf) (length chunk - offset) in
    (take offset chunk ++ (take written buf ++ drop (offset + written) chunk), written)

-- At the end of the file: the buffer, up to one chunk.
unfoldable pub at_end : ℕ → List ℕ → List ℕ × ℕ
at_end max_chunk_len buf =
    let chunk = take (min (length buf) max_chunk_len) buf in (chunk, length chunk)

-- Within the last chunk, which may grow up to one chunk: it is filled up by zeros, overwritten,
-- and cut to what it held or to the end of what was written.
unfoldable pub within_last : ℕ → List ℕ → ℕ → List ℕ → List ℕ × ℕ
unfolding overwrite
within_last max_chunk_len old offset buf =
    let resized = take max_chunk_len old ++ replicate (max_chunk_len - length old) 0 in
    let (chunk, written) = overwrite resized offset buf in
    (take (max (length old) (offset + written)) chunk, written)
