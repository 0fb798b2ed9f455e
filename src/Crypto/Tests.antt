-- ===== src/Crypto/Tests.antt =====
-- The theorems on the ciphers of src/crypto, applied to concrete keys, headers and chunks.
use cryptomator_rs.Common.{
  ℕ, ◌+◌, ◌-◌, ◌*◌, ◌≡◌, refl, List, [], ◌∷◌, ◌++◌, length, take, drop, replicate, ok, arith,
  length-replicate, to_be_bytes, eq_bytes, sub_u64,
}
use cryptomator_rs.Crypto.Cryptor
use cryptomator_rs.Crypto.Names.{
  name_to_ciphertext, name_to_cleartext, name_to_cleartext-name_to_ciphertext,
}
use cryptomator_rs.Crypto.SivCtrMac
use cryptomator_rs.Crypto.SivGcm
use cryptomator_rs.Crypto.{FileHeader, IsHeader, IsLawful, content_key}
use cryptomator_rs.Key.{MasterKey, mac_key}
use cryptomator_rs.Primitives.Toy.{toy, toy-Laws, tag_of}
use cryptomator_rs.Rng.{Rng}

abbrev key : MasterKey
key = record { bytes = replicate 64 1 }

abbrev gcm_header : FileHeader
gcm_header = record { nonce = replicate 12 2; payload = replicate 40 3 }

gcm_header-IsHeader : IsHeader 12 gcm_header
gcm_header-IsHeader = record {
  nonce_size = length-replicate {A = ℕ} 12 2;
  payload_size = length-replicate {A = ℕ} 40 3;
}

abbrev ctr_header : FileHeader
ctr_header = record { nonce = replicate 16 2; payload = replicate 40 3 }

ctr_header-IsHeader : IsHeader 16 ctr_header
ctr_header-IsHeader = record {
  nonce_size = length-replicate {A = ℕ} 16 2;
  payload_size = length-replicate {A = ℕ} 40 3;
}

abbrev entropy : Rng
entropy = replicate 20 4

abbrev text : List ℕ
text = 10 ∷ 20 ∷ 30 ∷ []

gcm_chunk_example :
    (cipher : List ℕ) × (SivGcm.encrypt_chunk toy key entropy text gcm_header 7
      ≡ ok (cipher, drop 12 entropy))
    × (length cipher ≡ 31)
    × (SivGcm.decrypt_chunk toy key cipher gcm_header 7 ≡ ok text)
gcm_chunk_example =
    SivGcm.RoundTrip.decrypt_chunk-encrypt_chunk toy key toy-Laws entropy text gcm_header 7
      (omega (arith, length-replicate {A = ℕ} 20 4)) gcm_header-IsHeader (omega arith) (omega arith)

ctr_chunk_example :
    (cipher : List ℕ) × (SivCtrMac.encrypt_chunk toy key entropy text ctr_header 7
      ≡ ok (cipher, drop 16 entropy))
    × (length cipher ≡ 51)
    × (SivCtrMac.decrypt_chunk toy key cipher ctr_header 7 ≡ ok text)
ctr_chunk_example =
    SivCtrMac.RoundTrip.decrypt_chunk-encrypt_chunk_ctr toy key toy-Laws entropy text ctr_header 7
      (omega (arith, length-replicate {A = ℕ} 20 4)) ctr_header-IsHeader (omega arith) (omega arith)

-- A chunk as AES-GCM leaves it.
abbrev gcm_cipher : List ℕ
gcm_cipher = replicate 12 4 ++ (text ++ replicate 16 (32 * 3 + 3 * 48 + 5 * 24 + 7 * 60))

gcm_decrypt_test : SivGcm.decrypt_chunk toy key gcm_cipher gcm_header 0 ≡ ok text
unfolding SivGcm.decrypt_chunk SivGcm.aes_gcm_decrypt SivGcm.associated_data content_key sub_u64
    to_be_bytes replicate take drop eq_bytes tag_of
gcm_decrypt_test = refl

-- A chunk as AES-CTR and the HMAC leave it.
abbrev ctr_cipher : List ℕ
ctr_cipher = replicate 16 4 ++ (text ++ replicate 32 (32 + 7 * (32 + 64 + 60)))

ctr_decrypt_test : SivCtrMac.decrypt_chunk toy key ctr_cipher ctr_header 0 ≡ ok text
unfolding SivCtrMac.decrypt_chunk SivCtrMac.aes_ctr SivCtrMac.chunk_hmac SivCtrMac.mac_input
    content_key sub_u64 to_be_bytes replicate take drop eq_bytes tag_of mac_key
ctr_decrypt_test = refl

chunk_hmac_example :
    drop (length ctr_cipher - 32) ctr_cipher
    ≡ toy.hmac_sha256
        (mac_key key)
        (SivCtrMac.mac_input (take (length ctr_cipher - 32) ctr_cipher) ctr_header 0)
chunk_hmac_example =
    SivCtrMac.Bounds.decrypt_chunk-chunk_hmac toy key ctr_cipher ctr_header 0 ctr_decrypt_test

chunk_position_example : (◌≡◌ {A = ℕ} 0 0) × (ctr_header.nonce ≡ ctr_header.nonce)
chunk_position_example =
    SivCtrMac.Bounds.decrypt_chunk_position toy key ctr_cipher ctr_header ctr_header 0 0
      (λ same. refl) refl (omega arith) (omega arith) ctr_decrypt_test ctr_decrypt_test

dispatch_example : IsLawful 16 (Cryptor.file_cryptor toy (Cryptor.siv_ctr_mac key))
dispatch_example = Cryptor.file_cryptor-IsLawful toy toy-Laws (Cryptor.siv_ctr_mac key)

name_example :
    (encrypted : List ℕ) × (name_to_ciphertext toy key text (1 ∷ []) ≡ ok encrypted)
    × (name_to_cleartext toy key encrypted (1 ∷ []) ≡ ok text)
name_example = name_to_cleartext-name_to_ciphertext toy key toy-Laws text (1 ∷ []) (omega arith)
