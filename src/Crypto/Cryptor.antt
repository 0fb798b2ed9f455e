-- ===== src/Crypto/Cryptor.antt =====
-- The enum `Cryptor` of src/crypto.rs: the choice of a cipher, and the trait by dispatch.
use cryptomator_rs.Common.{ℕ, List, Result}
use cryptomator_rs.Crypto.{FileHeader, FileCryptor, IsLawful}
use cryptomator_rs.Crypto.SivCtrMac
use cryptomator_rs.Crypto.SivGcm
use cryptomator_rs.Key.{MasterKey}
use cryptomator_rs.Primitives.{Primitives, Laws}
use cryptomator_rs.Rng.{Rng}

pub data Cryptor : Type 0 where
  siv_ctr_mac : MasterKey → Cryptor
  siv_gcm : MasterKey → Cryptor

module _ (p : Primitives) where
  unfoldable pub encrypted_header_len : Cryptor → ℕ
  encrypted_header_len (siv_ctr_mac k) = (SivCtrMac.file_cryptor p k).encrypted_header_len
  encrypted_header_len (siv_gcm k) = (SivGcm.file_cryptor p k).encrypted_header_len

  unfoldable pub max_chunk_len : Cryptor → ℕ
  max_chunk_len (siv_ctr_mac k) = (SivCtrMac.file_cryptor p k).max_chunk_len
  max_chunk_len (siv_gcm k) = (SivGcm.file_cryptor p k).max_chunk_len

  unfoldable pub max_encrypted_chunk_len : Cryptor → ℕ
  max_encrypted_chunk_len (siv_ctr_mac k) = (SivCtrMac.file_cryptor p k).max_encrypted_chunk_len
  max_encrypted_chunk_len (siv_gcm k) = (SivGcm.file_cryptor p k).max_encrypted_chunk_len

  unfoldable pub new_header : Cryptor → Rng → Result (FileHeader × Rng)
  new_header (siv_ctr_mac k) = SivCtrMac.new_header p k
  new_header (siv_gcm k) = SivGcm.new_header p k

  unfoldable pub encrypt_header : Cryptor → FileHeader → Result (List ℕ)
  encrypt_header (siv_ctr_mac k) = SivCtrMac.encrypt_header p k
  encrypt_header (siv_gcm k) = SivGcm.encrypt_header p k

  unfoldable pub decrypt_header : Cryptor → List ℕ → Result FileHeader
  decrypt_header (siv_ctr_mac k) = SivCtrMac.decrypt_header p k
  decrypt_header (siv_gcm k) = SivGcm.decrypt_header p k

  unfoldable pub encrypt_chunk : Cryptor → Rng → List ℕ → FileHeader → ℕ → Result (List ℕ × Rng)
  encrypt_chunk (siv_ctr_mac k) = SivCtrMac.encrypt_chunk p k
  encrypt_chunk (siv_gcm k) = SivGcm.encrypt_chunk p k

  unfoldable pub decrypt_chunk : Cryptor → List ℕ → FileHeader → ℕ → Result (List ℕ)
  decrypt_chunk (siv_ctr_mac k) = SivCtrMac.decrypt_chunk p k
  decrypt_chunk (siv_gcm k) = SivGcm.decrypt_chunk p k

  unfoldable pub hash_dir_id : Cryptor → List ℕ → Result (List (List ℕ))
  hash_dir_id (siv_ctr_mac k) = SivCtrMac.hash_dir_id p k
  hash_dir_id (siv_gcm k) = SivGcm.hash_dir_id p k

  unfoldable pub encrypt_name : Cryptor → List ℕ → List ℕ → Result (List ℕ)
  encrypt_name (siv_ctr_mac k) = SivCtrMac.encrypt_name p k
  encrypt_name (siv_gcm k) = SivGcm.encrypt_name p k

  unfoldable pub decrypt_name : Cryptor → List ℕ → List ℕ → Result (List ℕ)
  decrypt_name (siv_ctr_mac k) = SivCtrMac.decrypt_name p k
  decrypt_name (siv_gcm k) = SivGcm.decrypt_name p k

  -- `impl FileCryptor for Cryptor`.
  abbrev pub file_cryptor : Cryptor → FileCryptor
  file_cryptor c = record {
    encrypted_header_len = encrypted_header_len c;
    max_chunk_len = max_chunk_len c;
    max_encrypted_chunk_len = max_encrypted_chunk_len c;
    new_header = new_header c;
    encrypt_header = encrypt_header c;
    decrypt_header = decrypt_header c;
    encrypt_chunk = encrypt_chunk c;
    decrypt_chunk = decrypt_chunk c;
    hash_dir_id = hash_dir_id c;
    encrypt_name = encrypt_name c;
    decrypt_name = decrypt_name c;
  }

abbrev pub nonce_len : Cryptor → ℕ
nonce_len (siv_ctr_mac k) = SivCtrMac.nonce_len
nonce_len (siv_gcm k) = SivGcm.nonce_len

-- With lawful primitives, whichever cipher the vault chose, the dispatch keeps the contract of the
-- trait: new headers are well-formed, well-formed headers and chunks within the limits (given
-- entropy for a nonce) encrypt, have the declared sizes and decrypt to what they were, and whatever
-- decrypts has these sizes.
pub file_cryptor-IsLawful :
    (p : Primitives) (laws : Laws p) (c : Cryptor) → IsLawful (nonce_len c) (file_cryptor p c)
unfolding encrypted_header_len max_chunk_len max_encrypted_chunk_len new_header encrypt_header
    decrypt_header encrypt_chunk decrypt_chunk hash_dir_id encrypt_name decrypt_name
file_cryptor-IsLawful p laws (siv_ctr_mac k) = SivCtrMac.Bounds.file_cryptor-IsLawful p laws k
file_cryptor-IsLawful p laws (siv_gcm k) = SivGcm.Bounds.file_cryptor-IsLawful p laws k
