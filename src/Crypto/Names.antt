-- ===== src/Crypto/Names.antt =====
-- Names and directory ids under AES-SIV: the code that src/crypto/siv_gcm.rs and
-- src/crypto/siv_ctrmac.rs share word for word.
use cryptomator_rs.Common.{
  ℕ, ◌≤◌, ◌≡◌, List, [], ◌∷◌, ◌++◌, length, take, drop, Result, ok, ◌>>=◌, ◌>>◌, guard, or_fail,
  leb, panic, siv_failed, decode_failed, not_utf8, arith,
}
use cryptomator_rs.Key.{MasterKey, enc_key, mac_key}
use cryptomator_rs.Primitives.{Primitives, Laws, message_limit}

module _ (p : Primitives) (key : MasterKey) where
  -- AES-SIV takes the MAC key first.
  unfoldable pub siv_key : List ℕ
  siv_key = mac_key key ++ enc_key key

  unfoldable pub siv_encrypt : List ℕ → List (List ℕ) → Result (List ℕ)
  siv_encrypt plaintext headers = or_fail (p.aes_siv_seal siv_key headers plaintext) siv_failed

  unfoldable pub siv_decrypt : List ℕ → List (List ℕ) → Result (List ℕ)
  siv_decrypt ciphertext headers = or_fail (p.aes_siv_open siv_key headers ciphertext) siv_failed

  -- `split_at(2)` panics on a shorter text.
  unfoldable pub hashed_path : List ℕ → Result (List (List ℕ))
  hashed_path dir_id = do
    ciphertext ← siv_encrypt dir_id []
    let base32 = p.base32_encode (p.sha1 ciphertext)
    guard (leb 2 (length base32)) panic
    ok (take 2 base32 ∷ drop 2 base32 ∷ [])

  unfoldable pub name_to_ciphertext : List ℕ → List ℕ → Result (List ℕ)
  name_to_ciphertext name parent_dir_id = do
    sealed ← siv_encrypt (p.to_string_lossy name) (parent_dir_id ∷ [])
    ok (p.base64_url_encode sealed)

  unfoldable pub name_to_cleartext : List ℕ → List ℕ → Result (List ℕ)
  name_to_cleartext encrypted_name parent_dir_id = do
    sealed ← or_fail (p.base64_url_decode encrypted_name) decode_failed
    name ← siv_decrypt sealed (parent_dir_id ∷ [])
    or_fail (p.from_utf8 name) not_utf8

  -- With lawful primitives, a name whose lossy UTF-8 form is within the ciphers' message limit
  -- encrypts, and what results decrypts in the same parent directory to the lossy form.
  pub name_to_cleartext-name_to_ciphertext :
      (laws : Laws p) (name parent_dir_id : List ℕ)
      → length (p.to_string_lossy name) ≤ message_limit
      → (encrypted : List ℕ) × (name_to_ciphertext name parent_dir_id ≡ ok encrypted)
        × (name_to_cleartext encrypted parent_dir_id ≡ ok (p.to_string_lossy name))
  unfolding name_to_ciphertext name_to_cleartext siv_encrypt siv_decrypt
  name_to_cleartext-name_to_ciphertext laws name parent_dir_id h =
      let (sealed, e) = laws.siv_seals siv_key (parent_dir_id ∷ []) (p.to_string_lossy name) h in
      (
        p.base64_url_encode sealed,
        rw e,
        ground (
          arith,
          laws.base64_url_decodes sealed,
          laws.siv_opens siv_key (parent_dir_id ∷ []) (p.to_string_lossy name) e,
          laws.lossy_utf8 name,
        ),
      )
