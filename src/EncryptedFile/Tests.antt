-- ===== src/EncryptedFile/Tests.antt =====
-- The theorems on src/fs/encrypted_file.rs, applied to a small file under AES-GCM.
use cryptomator_rs.Common.{
  ℕ, ◌+◌, ◌*◌, ◌^◌, ◌<◌, ◌≡◌, refl, inr, List, [], ◌∷◌, ◌++◌, length, take, drop, replicate, true,
  false, ok, arith, length-replicate, negsuc, to_be_bytes, eq_bytes, sub_u64,
}
use cryptomator_rs.Crypto.SivGcm
use cryptomator_rs.Crypto.{FileCryptor, FileHeader, IsHeader, IsLawful, content_key}
use cryptomator_rs.Crypto
use cryptomator_rs.EncryptedFile.Creating.{Opened, open_file_lem, create_new_lem}
use cryptomator_rs.EncryptedFile.Layout.{Holds, length-Holds}
use cryptomator_rs.EncryptedFile.Loading.{Ready}
use cryptomator_rs.EncryptedFile.WriteWhole.{
  CanWriteAll, DidWriteAll, write_cleartext, write_cleartext_lem,
}
use cryptomator_rs.EncryptedFile.Reading.{DidRead, read_file_lem}
use cryptomator_rs.EncryptedFile.SeekTarget.{seek_file_lem}
use cryptomator_rs.EncryptedFile.Seeking.{at}
use cryptomator_rs.EncryptedFile.WriteRead.{read_file-write_file}
use cryptomator_rs.EncryptedFile.WriteChunk.{CanWrite, DidWrite}
use cryptomator_rs.EncryptedFile.Writing.{write_file_lem}
use cryptomator_rs.EncryptedFile.Opening.{open_file, create_new}
use cryptomator_rs.EncryptedFile.{EncryptedFile, start, current, write_file, read_file, seek_file}
use cryptomator_rs.Key.{MasterKey, enc_key}
use cryptomator_rs.Os.{anywhere, Os, Lock, short, interrupted, try_read, try_write}
use cryptomator_rs.Rng.{try_fill_bytes}
use cryptomator_rs.Primitives.Toy.{toy, toy-Laws, tag_of}
use cryptomator_rs.Util.Size.Position.{encrypted_len, encrypted_pos}

abbrev key : MasterKey
key = record { bytes = replicate 64 1 }

abbrev gcm : FileCryptor
gcm = SivGcm.file_cryptor toy key

gcm-IsLawful : IsLawful 12 gcm
gcm-IsLawful = SivGcm.Bounds.file_cryptor-IsLawful toy toy-Laws key

abbrev header : FileHeader
header = record { nonce = replicate 12 2; payload = replicate 40 3 }

header-IsHeader : IsHeader 12 header
header-IsHeader = record {
  nonce_size = length-replicate {A = ℕ} 12 2;
  payload_size = length-replicate {A = ℕ} 40 3;
}

-- The header as it stands in the file.
abbrev header_bytes : List ℕ
header_bytes = replicate 12 2 ++ (replicate 40 3 ++ replicate 16 (32 + 3 * 24 + 7 * 120))

decrypt_header_test : gcm.decrypt_header header_bytes ≡ ok header
unfolding SivGcm.decrypt_header SivGcm.aes_gcm_decrypt replicate take drop eq_bytes enc_key tag_of
decrypt_header_test = refl

abbrev text : List ℕ
text = 10 ∷ 20 ∷ 30 ∷ []

-- The only chunk of the file, number 0: nonce, ciphertext and tag.
abbrev cipher : List ℕ
cipher = replicate 12 4 ++ (text ++ replicate 16 (32 * 3 + 3 * 48 + 5 * 24 + 7 * 60))

decrypt_chunk_test : gcm.decrypt_chunk cipher header 0 ≡ ok text
unfolding SivGcm.decrypt_chunk SivGcm.aes_gcm_decrypt SivGcm.associated_data content_key sub_u64
    to_be_bytes replicate take drop eq_bytes tag_of
decrypt_chunk_test = refl

-- A file that holds the text, opened for writing. Its coming reads deliver 8 bytes and are then
-- interrupted.
abbrev file_at : ℕ → Os
file_at n = record {
  bytes = header_bytes ++ (cipher ++ []);
  pos = n;
  read_events = short 7 ∷ interrupted ∷ [];
  lock = Lock.free;
  writable = anywhere;
  entropy = replicate 60 5;
}

length-header_bytes : length header_bytes ≡ 68
unfolding replicate
length-header_bytes = refl

length-file : (n : ℕ) → length (file_at n).bytes ≡ 99
unfolding replicate
length-file n = refl

abbrev file_holds : (n : ℕ) → Holds gcm header (file_at n) text
file_holds n = record {
  head = header_bytes;
  chunks = (cipher, text) ∷ [];
  layout = refl;
  head_size = length-header_bytes;
  are_chunks = (decrypt_chunk_test, inr refl, tt);
  content = refl;
  small = omega (arith, length-file n);
}

file-Ready : Ready gcm header text 1 (file_at 97)
unfolding encrypted_len
file-Ready = record { holds = file_holds 97; position = refl; inside = omega arith; no_fault = tt }

file-CanWrite : CanWrite gcm gcm-IsLawful header (file_at 97)
unfolding replicate
file-CanWrite = record { writable = refl; entropy = omega (arith, length-replicate {A = ℕ} 60 5) }

readable : try_read (file_at 97) ≡ (ok tt, file_at 97)
unfolding try_read
readable = refl

grantable : try_write (file_at 97) ≡ (ok tt, file_at 97)
unfolding try_write
grantable = refl

abbrev buf : List ℕ
buf = 40 ∷ 50 ∷ []

room : encrypted_pos gcm 5 < 2 ^ 63
unfolding encrypted_len
room = omega arith

write_file_example :
    (t : Os) × (write_file gcm header true buf (file_at 97) ≡ (ok 2, t))
    × DidWrite gcm gcm-IsLawful header text 3 buf (file_at 97) t
write_file_example =
    write_file_lem gcm gcm-IsLawful header true 1 buf (file_at 97) file-Ready file-CanWrite
      grantable header-IsHeader (omega arith) room

read_file_example :
    (t : Os) × (out : List ℕ) × (read_file gcm header 5 (file_at 97) ≡ (ok out, t))
    × DidRead gcm gcm-IsLawful header text 5 1 (file_at 97) t out
read_file_example = read_file_lem gcm gcm-IsLawful header text 5 1 (file_at 97) file-Ready readable

write_read_example :
    (n : ℕ) × (t : Os) × (t' : Os) × (t'' : Os) × (write_file gcm header false buf (file_at 97)
      ≡ (ok n, t))
    × (0 < n)
    × (seek_file gcm (start 1) t ≡ (ok 1, t'))
    × (read_file gcm header n t' ≡ (ok (take n buf), t''))
write_read_example =
    read_file-write_file gcm gcm-IsLawful header 1 buf (file_at 97) file-Ready file-CanWrite
      grantable header-IsHeader (omega arith) room

seek_file_example : seek_file gcm (current (negsuc 4)) (file_at 97) ≡ (ok 0, at gcm 0 (file_at 97))
seek_file_example =
    seek_file_lem gcm gcm-IsLawful header text (current (negsuc 4)) 1 (file_at 97) file-Ready
      readable (omega arith)

open_file_example :
    (t : Os) × (e : EncryptedFile) × (open_file gcm (file_at 0) ≡ (ok e, t))
    × (e.file ≡ t)
    × (t.lock ≡ Lock.free)
    × Opened gcm gcm-IsLawful header text 0 e
unfolding try_read
open_file_example =
    open_file_lem gcm gcm-IsLawful header text header_bytes (file_at 0) (file_holds 0) refl
      decrypt_header_test refl refl tt

abbrev new_file : Os
new_file = record {
  bytes = [];
  pos = 0;
  read_events = [];
  lock = Lock.free;
  writable = anywhere;
  entropy = replicate 60 5;
}

abbrev new_header : FileHeader
new_header = record { nonce = replicate 12 5; payload = replicate 8 255 ++ replicate 32 5 }

new_header_test : gcm.new_header new_file.entropy ≡ ok (new_header, replicate 8 5)
unfolding SivGcm.new_header Crypto.new try_fill_bytes replicate take drop
new_header_test = refl

create_new_example :
    (t : Os) × (e : EncryptedFile) × (create_new gcm new_file ≡ (ok e, t))
    × (e.file ≡ t)
    × (t.lock ≡ Lock.free)
    × Opened gcm gcm-IsLawful new_header [] 0 e
unfolding try_write
create_new_example =
    create_new_lem gcm gcm-IsLawful new_header (replicate 8 5) new_file new_header_test refl refl
      refl refl tt

length-Holds_example : length (file_at 97).bytes ≡ encrypted_pos gcm (length text)
length-Holds_example = length-Holds gcm header gcm-IsLawful (file_holds 97)

file-CanWriteAll : CanWriteAll gcm gcm-IsLawful header header-IsHeader 1 text 1 buf (file_at 97)
unfolding replicate encrypted_len
file-CanWriteAll = record {
  ready = file-Ready;
  granted = grantable;
  writable = refl;
  enough = λ given. omega arith;
  entropy = omega (arith, length-replicate {A = ℕ} 60 5);
  room = omega arith;
}

write_cleartext_example :
    (t : Os) × (write_cleartext gcm header false buf (file_at 97) ≡ (ok tt, t))
    × DidWriteAll gcm gcm-IsLawful header header-IsHeader text 1 buf (file_at 97) t
write_cleartext_example =
    write_cleartext_lem gcm gcm-IsLawful header header-IsHeader 1 text 1 buf (file_at 97)
      (omega arith) file-CanWriteAll
