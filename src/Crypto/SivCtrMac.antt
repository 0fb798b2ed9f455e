-- ===== src/Crypto/SivCtrMac.antt =====
-- src/crypto/siv_ctrmac.rs: chunks and headers under AES-CTR with HMAC-SHA256,
-- `nonce ++ ciphertext ++ mac`.
pub mod RoundTrip
pub mod Bounds
use cryptomator_rs.Common.{
  ℕ, ◌+◌, ◌-◌, ◌*◌, ◌==◌, List, [], ◌++◌, length, take, drop, Result, ok, ◌>>=◌, ◌>>◌, guard,
  or_fail, not, ◌||◌, ltb, leb, panic, stream_failed, invalid_header_length, header_mac_mismatch,
  chunk_mac_mismatch, invalid_cleartext_chunk_length, invalid_ciphertext_chunk_length, to_be_bytes,
  eq_bytes,
}
use cryptomator_rs.Crypto
use cryptomator_rs.Crypto.Names.{
  siv_encrypt, siv_decrypt, hashed_path, name_to_ciphertext, name_to_cleartext,
}
use cryptomator_rs.Crypto.{FileHeader, FileCryptor, header_reserved_len, content_key}
use cryptomator_rs.Key.{MasterKey, enc_key, mac_key}
use cryptomator_rs.Primitives.{Primitives}
use cryptomator_rs.Rng.{Rng, try_fill_bytes}
use cryptomator_rs.Util.Hmac.{hmac}

abbrev pub nonce_len : ℕ
nonce_len = 16

abbrev pub mac_len : ℕ
mac_len = 32

abbrev pub content_key_len : ℕ
content_key_len = 32

abbrev pub payload_len : ℕ
payload_len = header_reserved_len + content_key_len

abbrev pub encrypted_header_len : ℕ
encrypted_header_len = nonce_len + payload_len + mac_len

abbrev pub max_chunk_len : ℕ
max_chunk_len = 32 * 1024

abbrev pub max_encrypted_chunk_len : ℕ
max_encrypted_chunk_len = nonce_len + max_chunk_len + mac_len

-- What the MAC of a chunk covers, in the order of the updates.
unfoldable pub mac_input : List ℕ → FileHeader → ℕ → List ℕ
mac_input bytes header chunk_number = header.nonce ++ (to_be_bytes 8 chunk_number ++ bytes)

module _ (p : Primitives) (key : MasterKey) where
  -- An initial counter block of another length panics (`nonce.into()`).
  unfoldable pub aes_ctr : List ℕ → List ℕ → List ℕ → Result (List ℕ)
  aes_ctr message k nonce = do
    guard (length nonce == nonce_len) panic
    or_fail (p.aes_ctr_apply k nonce message) stream_failed

  unfoldable pub aes_siv_encrypt : List ℕ → List (List ℕ) → Result (List ℕ)
  unfolding siv_encrypt
  aes_siv_encrypt = siv_encrypt p key

  unfoldable pub aes_siv_decrypt : List ℕ → List (List ℕ) → Result (List ℕ)
  unfolding siv_decrypt
  aes_siv_decrypt = siv_decrypt p key

  unfoldable pub chunk_hmac : List ℕ → FileHeader → ℕ → List ℕ
  unfolding mac_input
  chunk_hmac bytes header chunk_number =
      p.hmac_sha256 (mac_key key) (mac_input bytes header chunk_number)

  unfoldable pub encrypt_chunk_with_nonce : List ℕ → List ℕ → FileHeader → ℕ → Result (List ℕ)
  encrypt_chunk_with_nonce nonce chunk header chunk_number = do
    k ← content_key header
    ciphertext ← aes_ctr chunk k nonce
    let mac = chunk_hmac (nonce ++ ciphertext) header chunk_number
    let buffer = nonce ++ (ciphertext ++ mac)
    guard (leb (length buffer) max_encrypted_chunk_len) panic
    ok buffer

  unfoldable pub new_header : Rng → Result (FileHeader × Rng)
  new_header rng = Crypto.new rng nonce_len payload_len

  unfoldable pub encrypt_header : FileHeader → Result (List ℕ)
  unfolding hmac
  encrypt_header header = do
    ciphertext ← aes_ctr header.payload (enc_key key) header.nonce
    let buffer = header.nonce ++ (ciphertext ++ hmac p (header.nonce ++ ciphertext) key)
    guard (length buffer == encrypted_header_len) panic
    ok buffer

  unfoldable pub decrypt_header : List ℕ → Result FileHeader
  unfolding hmac
  decrypt_header bytes = do
    guard (length bytes == encrypted_header_len) (invalid_header_length (length bytes))
    let expected_mac = drop (nonce_len + payload_len) bytes
    let actual_mac = hmac p (take (nonce_len + payload_len) bytes) key
    guard (eq_bytes actual_mac expected_mac) header_mac_mismatch
    let nonce = take nonce_len bytes
    let encrypted_payload = take payload_len (drop nonce_len bytes)
    payload ← aes_ctr encrypted_payload (enc_key key) nonce
    ok (record { nonce = nonce; payload = payload })

  unfoldable pub encrypt_chunk : Rng → List ℕ → FileHeader → ℕ → Result (List ℕ × Rng)
  encrypt_chunk rng chunk header chunk_number = do
    guard (not (length chunk == 0 || ltb max_chunk_len (length chunk)))
        (invalid_cleartext_chunk_length (length chunk))
    (nonce, rng') ← try_fill_bytes rng nonce_len
    buffer ← encrypt_chunk_with_nonce nonce chunk header chunk_number
    ok (buffer, rng')

  unfoldable pub decrypt_chunk : List ℕ → FileHeader → ℕ → Result (List ℕ)
  decrypt_chunk bytes header chunk_number = do
    guard
        (not
          (leb (length bytes) (nonce_len + mac_len) || ltb max_encrypted_chunk_len (length bytes)))
        (invalid_ciphertext_chunk_length (length bytes))
    let nonce_and_chunk = take (length bytes - mac_len) bytes
    let expected_mac = drop (length bytes - mac_len) bytes
    let actual_mac = chunk_hmac nonce_and_chunk header chunk_number
    guard (eq_bytes actual_mac expected_mac) chunk_mac_mismatch
    let nonce = take nonce_len nonce_and_chunk
    let chunk = drop nonce_len nonce_and_chunk
    k ← content_key header
    aes_ctr chunk k nonce

  unfoldable pub hash_dir_id : List ℕ → Result (List (List ℕ))
  hash_dir_id = hashed_path p key

  unfoldable pub encrypt_name : List ℕ → List ℕ → Result (List ℕ)
  encrypt_name = name_to_ciphertext p key

  unfoldable pub decrypt_name : List ℕ → List ℕ → Result (List ℕ)
  decrypt_name = name_to_cleartext p key

  -- `impl FileCryptor for Cryptor`.
  abbrev pub file_cryptor : FileCryptor
  file_cryptor = record {
    encrypted_header_len = encrypted_header_len;
    max_chunk_len = max_chunk_len;
    max_encrypted_chunk_len = max_encrypted_chunk_len;
    new_header = new_header;
    encrypt_header = encrypt_header;
    decrypt_header = decrypt_header;
    encrypt_chunk = encrypt_chunk;
    decrypt_chunk = decrypt_chunk;
    hash_dir_id = hash_dir_id;
    encrypt_name = encrypt_name;
    decrypt_name = decrypt_name;
  }
