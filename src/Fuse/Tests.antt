-- ===== src/Fuse/Tests.antt =====
-- The theorems on src/fs/fuse.rs, applied to a mount with an open file.
use cryptomator_rs.Common.{
  ℕ, ◌+◌, ◌*◌, ◌==◌, ◌≡◌, refl, inr, List, [], ◌∷◌, ◌++◌, length, take, drop, replicate, none, some,
  Bool, true, false, ok, panic, arith, length-replicate, to_be_bytes, eq_bytes, sub_u64,
  if◌then◌else◌, pos,
}
use cryptomator_rs.Crypto.Cryptor.{
  nonce_len, decrypt_chunk, encrypted_header_len, max_chunk_len, max_encrypted_chunk_len,
}
use cryptomator_rs.Crypto.SivGcm
use cryptomator_rs.Crypto.{FileHeader, IsHeader, content_key}
use cryptomator_rs.DirTree
use cryptomator_rs.DirTree.{get_path}
use cryptomator_rs.Disk.Handles.{OpenFile, os_of}
use cryptomator_rs.Disk.{World, Attr}
use cryptomator_rs.EncryptedFile.Layout.{Holds}
use cryptomator_rs.EncryptedFile.Loading.{Ready}
use cryptomator_rs.EncryptedFile.Text.{splice}
use cryptomator_rs.EncryptedFile.WriteWhole.{CanWriteAll}
use cryptomator_rs.FilePath.{Name}
use cryptomator_rs.FileSystem.{cipher}
use cryptomator_rs.Fuse.Files.{read, write}
use cryptomator_rs.Fuse.Handles.{Keeps}
use cryptomator_rs.Fuse.Looking.{serve-IsLook}
use cryptomator_rs.Fuse.ReadWrite.{
  Serves, lawful, seeked, seeked-Ready, read_lem, write_lem, read-write, beyond_end,
}
use cryptomator_rs.Fuse.Requests.{Request, serve}
use cryptomator_rs.Fuse.Soundness.{serve-Good}
use cryptomator_rs.Fuse.Tables.{Sound}
use cryptomator_rs.Fuse.{Mount, bytes, written, died, Listed}
use cryptomator_rs.Os.{anywhere, Lock, short, interrupted, try_read, try_write}
use cryptomator_rs.Primitives.Toy.{toy, toy-Laws, tag_of}
use cryptomator_rs.Util.Size.Position.{encrypted_len}
use cryptomator_rs.Vault.{Vault, siv_gcm_combo, cryptor}

abbrev vault : Vault
vault = record {
  path = [];
  config = record {
    jti = [];
    format = 8;
    shortening_threshold = 220;
    cipher_combo = siv_gcm_combo;
  };
  master_key = record { bytes = replicate 64 1 };
}

abbrev header : FileHeader
header = record { nonce = replicate 12 2; payload = replicate 40 3 }

abbrev text : List ℕ
text = 10 ∷ 20 ∷ 30 ∷ []

abbrev header_bytes : List ℕ
header_bytes = replicate 12 2 ++ (replicate 40 3 ++ replicate 16 (32 + 3 * 24 + 7 * 120))

-- The only chunk: nonce, ciphertext and tag.
abbrev chunk : List ℕ
chunk = replicate 12 4 ++ (text ++ replicate 16 (32 * 3 + 3 * 48 + 5 * 24 + 7 * 60))

decrypt_chunk_test : (cipher toy vault).decrypt_chunk chunk header 0 ≡ ok text
unfolding cryptor decrypt_chunk SivGcm.decrypt_chunk SivGcm.aes_gcm_decrypt SivGcm.associated_data
    content_key sub_u64 to_be_bytes replicate take drop eq_bytes tag_of
decrypt_chunk_test = refl

abbrev attributes : Attr
attributes = record {
  mode = 420;
  accessed = none;
  modified = none;
  created = none;
  blocks = 1;
  nlink = 1;
  uid = 0;
  gid = 0;
  rdev = 0;
  blksize = 4096;
}

abbrev world : World
world = record {
  entries = [];
  inodes = λ _. record { bytes = header_bytes ++ (chunk ++ []); attr = attributes };
  next_number = 6;
  fresh = attributes;
  dir_len = λ _. 4096;
  entropy = replicate 60 5;
  read_events = short 7 ∷ interrupted ∷ [];
  locks = λ _. Lock.free;
}

-- An open file that stands at the start of its chunk.
abbrev open_file : OpenFile
open_file = record {
  handle = record { inode = 5; pos = 68; writable = anywhere };
  header = header;
  append = false;
}

abbrev mount : Mount
mount = record {
  tree = DirTree.new;
  open_dirs = λ _. none;
  disk = world;
  open_files = λ k. if k == 0 then some open_file else none;
  next_handle = 1;
}

length-header_bytes : length header_bytes ≡ (cipher toy vault).encrypted_header_len
unfolding cryptor encrypted_header_len replicate
length-header_bytes = refl

length-file : length (header_bytes ++ (chunk ++ [])) ≡ 99
unfolding replicate
length-file = refl

file_holds : Holds (cipher toy vault) header (os_of open_file.handle world) text
file_holds = record {
  head = header_bytes;
  chunks = (chunk, text) ∷ [];
  layout = refl;
  head_size = length-header_bytes;
  are_chunks = (decrypt_chunk_test, inr refl, tt);
  content = refl;
  small = omega (arith, length-file);
}

file-Ready : Ready (cipher toy vault) header text 0 (os_of open_file.handle world)
unfolding encrypted_len cryptor encrypted_header_len max_chunk_len max_encrypted_chunk_len
file-Ready = record { holds = file_holds; position = refl; inside = omega arith; no_fault = tt }

readable : try_read (os_of open_file.handle world) ≡ (ok tt, os_of open_file.handle world)
unfolding try_read
readable = refl

abbrev served : Serves toy toy-Laws vault mount 0 text
served = record {
  file = open_file;
  found = refl;
  position = 0;
  ready = file-Ready;
  granted = readable;
}

read_example :
    (m' : Mount) × (read toy vault 0 (pos 1) 5 mount ≡ (bytes (take 5 (drop 1 text)), m'))
    × Serves toy toy-Laws vault m' 0 text
read_example = read_lem toy toy-Laws vault mount 0 text served 1 5 (omega arith)

beyond_end_example :
    (m' : Mount) × (read toy vault 0 (pos 4) 5 mount ≡ (died panic, m'))
    × (write toy vault 0 (pos 4) text mount ≡ (died panic, m'))
    × Serves toy toy-Laws vault m' 0 text
beyond_end_example =
    beyond_end toy toy-Laws vault mount 0 text text served 4 5 (omega arith) (omega arith)

header-IsHeader : IsHeader (nonce_len (cryptor vault)) header
unfolding cryptor
header-IsHeader = record {
  nonce_size = length-replicate {A = ℕ} 12 2;
  payload_size = length-replicate {A = ℕ} 40 3;
}

abbrev content : List ℕ
content = 40 ∷ 50 ∷ []

seeked-CanWriteAll :
    CanWriteAll
      (cipher toy vault)
      (lawful toy toy-Laws vault)
      header
      header-IsHeader
      1
      text
      1
      content
      (seeked toy toy-Laws vault 1 served)
unfolding encrypted_len cryptor encrypted_header_len max_chunk_len max_encrypted_chunk_len try_write
seeked-CanWriteAll = record {
  ready = seeked-Ready toy toy-Laws vault 1 served (omega arith);
  granted = refl;
  writable = refl;
  enough = λ given. omega arith;
  entropy = omega (arith, length-replicate {A = ℕ} 60 5);
  room = omega arith;
}

write_example :
    (m' : Mount) × (write toy vault 0 (pos 1) content mount ≡ (written 2, m'))
    × Serves toy toy-Laws vault m' 0 (splice text 1 content)
write_example =
    write_lem toy toy-Laws vault mount 0 text content served 1 1 header-IsHeader refl (omega arith)
      (omega arith) seeked-CanWriteAll

read-write_example :
    (m' : Mount) × (m'' : Mount) × (write toy vault 0 (pos 1) content mount ≡ (written 2, m'))
    × (read toy vault 0 (pos 1) 2 m' ≡ (bytes content, m''))
    × Serves toy toy-Laws vault m'' 0 (splice text 1 content)
read-write_example =
    read-write toy toy-Laws vault mount 0 text content served 1 1 header-IsHeader refl (omega arith)
      (omega arith) seeked-CanWriteAll

-- Only handle 0 is in use.
mount-Sound : Sound mount
mount-Sound = record { unused = λ k le. (ground arith, refl); apart = λ k. inr refl }

abbrev uuid : List ℕ → Name
uuid random = random

abbrev fits : List Listed → Listed → Bool
fits before one = true

serve-Good_example : Keeps mount (serve toy vault uuid fits (Request.write 0 (pos 1) content) mount)
serve-Good_example =
    serve-Good toy vault uuid fits (Request.write 0 (pos 1) content) mount mount-Sound (omega arith)

serve-IsLook_example : (serve toy vault uuid fits (Request.getattr 1) mount).1.disk ≡ world
serve-IsLook_example = serve-IsLook toy vault uuid fits (Request.getattr 1) mount tt
