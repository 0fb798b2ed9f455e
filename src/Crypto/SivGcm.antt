-- ===== src/Crypto/SivGcm.antt =====
-- src/crypto/siv_gcm.rs: chunks and headers under AES-GCM, `nonce ++ ciphertext ++ tag`.
pub mod RoundTrip
pub mod Bounds
use cryptomator_rs.Common.{
  ℕ, ◌+◌, ◌-◌, ◌*◌, ◌==◌, List, [], ◌++◌, length, take, drop, Result, ok, err, ◌>>=◌, ◌>>◌, guard,
  or_fail, Bool, not, ◌||◌, ltb, leb, panic, aead_failed, invalid_header_length,
  invalid_cleartext_chunk_length, invalid_ciphertext_chunk_length, to_be_bytes, if◌then◌else◌,
}
use cryptomator_rs.Crypto.{FileHeader, FileCryptor, header_reserved_len, content_key}
use cryptomator_rs.Crypto
use cryptomator_rs.Crypto.Names.{
  siv_encrypt, siv_decrypt, hashed_path, name_to_ciphertext, name_to_cleartext,
}
use cryptomator_rs.Key.{MasterKey, enc_key}
use cryptomator_rs.Primitives.{Primitives}
use cryptomator_rs.Rng.{Rng, try_fill_bytes}

abbrev pub nonce_len : ℕ
nonce_len = 12

abbrev pub tag_len : ℕ
tag_len = 16

abbrev pub content_key_len : ℕ
content_key_len = 32

abbrev pub payload_len : ℕ
payload_len = header_reserved_len + content_key_len

abbrev pub encrypted_header_len : ℕ
encrypted_header_len = nonce_len + payload_len + tag_len

abbrev pub max_chunk_len : ℕ
max_chunk_len = 32 * 1024

abbrev pub max_encrypted_chunk_len : ℕ
max_encrypted_chunk_len = nonce_len + max_chunk_len + tag_len

-- The chunk number (a `usize` of 64 bits), and the nonce of the file's header.
unfoldable pub associated_data : FileHeader → ℕ → List ℕ
associated_data header chunk_number = to_be_bytes 8 chunk_number ++ header.nonce

module _ (p : Primitives) (key : MasterKey) where
  -- A nonce of another length panics (`nonce.into()`).
  unfoldable pub aes_gcm_encrypt : List ℕ → List ℕ → List ℕ → List ℕ → Result (List ℕ × List ℕ)
  aes_gcm_encrypt plaintext k nonce ad = do
    guard (length nonce == nonce_len) panic
    or_fail (p.aes_gcm_seal k nonce ad plaintext) aead_failed

  unfoldable pub aes_gcm_decrypt : List ℕ → List ℕ → List ℕ → List ℕ → List ℕ → Result (List ℕ)
  aes_gcm_decrypt ciphertext k nonce ad tag = do
    guard (length nonce == nonce_len) panic
    guard (length tag == tag_len) panic
    or_fail (p.aes_gcm_open k nonce ad ciphertext tag) aead_failed

  unfoldable pub aes_siv_encrypt : List ℕ → List (List ℕ) → Result (List ℕ)
  unfolding siv_encrypt
  aes_siv_encrypt = siv_encrypt p key

  unfoldable pub aes_siv_decrypt : List ℕ → List (List ℕ) → Result (List ℕ)
  unfolding siv_decrypt
  aes_siv_decrypt = siv_decrypt p key

  -- The assertion at the end is on the length of what was built.
  unfoldable pub encrypt_chunk_with_nonce : List ℕ → List ℕ → FileHeader → ℕ → Result (List ℕ)
  encrypt_chunk_with_nonce nonce chunk header chunk_number = do
    k ← content_key header
    (ciphertext, tag) ← aes_gcm_encrypt chunk k nonce (associated_data header chunk_number)
    let buffer = nonce ++ (ciphertext ++ tag)
    guard (leb (length buffer) max_encrypted_chunk_len) panic
    ok buffer

  unfoldable pub new_header : Rng → Result (FileHeader × Rng)
  new_header rng = Crypto.new rng nonce_len payload_len

  unfoldable pub encrypt_header : FileHeader → Result (List ℕ)
  encrypt_header header = do
    (ciphertext, tag) ← aes_gcm_encrypt header.payload (enc_key key) header.nonce []
    let buffer = header.nonce ++ (ciphertext ++ tag)
    guard (length buffer == encrypted_header_len) panic
    ok buffer

  unfoldable pub decrypt_header : List ℕ → Result FileHeader
  decrypt_header bytes = do
    guard (length bytes == encrypted_header_len) (invalid_header_length (length bytes))
    let nonce = take nonce_len bytes
    let encrypted_payload = take payload_len (drop nonce_len bytes)
    let tag = drop (nonce_len + payload_len) bytes
    payload ← aes_gcm_decrypt encrypted_payload (enc_key key) nonce [] tag
    ok (record { nonce = nonce; payload = payload })

  unfoldable pub encrypt_chunk : Rng → List ℕ → FileHeader → ℕ → Result (List ℕ × Rng)
  encrypt_chunk rng chunk header chunk_number = do
    guard (not (length chunk == 0 || ltb max_chunk_len (length chunk)))
        (invalid_cleartext_chunk_length (length chunk))
    (nonce, rng') ← try_fill_bytes rng nonce_len
    buffer ← encrypt_chunk_with_nonce nonce chunk header chunk_number
    ok (buffer, rng')

  unfoldable pub decrypt_chunk : List ℕ → FileHeader → ℕ → Result (List ℕ)
  decrypt_chunk bytes header chunk_number = do
    guard
        (not
          (leb (length bytes) (nonce_len + tag_len) || ltb max_encrypted_chunk_len (length bytes)))
        (invalid_ciphertext_chunk_length (length bytes))
    let nonce_and_chunk = take (length bytes - tag_len) bytes
    let tag = drop (length bytes - tag_len) bytes
    let nonce = take nonce_len nonce_and_chunk
    let chunk = drop nonce_len nonce_and_chunk
    k ← content_key header
    aes_gcm_decrypt chunk k nonce (associated_data header chunk_number) tag

  unfoldable pub hash_dir_id : List ℕ → Result (List (List ℕ))
  hash_dir_id = hashed_path p key

  unfoldable pub encrypt_name : List ℕ → List ℕ → Result (List ℕ)
  encrypt_name = name_to_ciphertext p key

  unfoldable pub decrypt_name : List ℕ → List ℕ → Result (List ℕ)
  decrypt_name = name_to_cleartext p key

  -- `impl FileCryptor for Cryptor`.
  abbrev pub file_cryptor : FileCryptor
  file_cryptor = record {
    encrypted_header_len = encrypted_header_len;
    max_chunk_len = max_chunk_len;
    max_encrypted_chunk_len = max_encrypted_chunk_len;
    new_header = new_header;
    encrypt_header = encrypt_header;
    decrypt_header = decrypt_header;
    encrypt_chunk = encrypt_chunk;
    decrypt_chunk = decrypt_chunk;
    hash_dir_id = hash_dir_id;
    encrypt_name = encrypt_name;
    decrypt_name = decrypt_name;
  }
