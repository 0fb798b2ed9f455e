-- ===== src/Primitives.antt =====
-- The cryptographic and encoding libraries that the code calls (aes-gcm, aes, ctr, hmac, aes-siv,
-- sha1, base32ct, base64ct, the UTF-8 check of the standard library), as parameters. Keys, nonces
-- and texts are byte strings; `none` is the library's error.
pub mod Toy
use cryptomator_rs.Common.{
  ℕ, ◌+◌, ◌^◌, ◌≤◌, ◌<◌, ◌==◌, ◌≡◌, false, List, [], ◌∷◌, length, Option, some,
}

pub record Primitives : Type 0 where
  -- key, nonce, associated data, plaintext: the ciphertext and the tag
  pub aes_gcm_seal : List ℕ → List ℕ → List ℕ → List ℕ → Option (List ℕ × List ℕ)
  -- key, nonce, associated data, ciphertext, tag
  pub aes_gcm_open : List ℕ → List ℕ → List ℕ → List ℕ → List ℕ → Option (List ℕ)
  -- key, initial counter block, message
  pub aes_ctr_apply : List ℕ → List ℕ → List ℕ → Option (List ℕ)
  -- key, message
  pub hmac_sha256 : List ℕ → List ℕ → List ℕ
  -- key, headers, text
  pub aes_siv_seal : List ℕ → List (List ℕ) → List ℕ → Option (List ℕ)
  pub aes_siv_open : List ℕ → List (List ℕ) → List ℕ → Option (List ℕ)
  pub sha1 : List ℕ → List ℕ
  pub base32_encode : List ℕ → List ℕ
  pub base64_url_encode : List ℕ → List ℕ
  pub base64_url_decode : List ℕ → Option (List ℕ)
  pub from_utf8 : List ℕ → Option (List ℕ)
  pub to_string_lossy : List ℕ → List ℕ

-- The longest message that every cipher takes (the limit of AES-GCM is 2^36 - 32 bytes).
abbrev pub message_limit : ℕ
message_limit = 2 ^ 35

-- What the libraries document.
pub record Laws (p : Primitives) : Type 0 where
  pub gcm_seals :
      (key nonce ad text : List ℕ)
      → length text ≤ message_limit
      → (out : List ℕ × List ℕ) × (p.aes_gcm_seal key nonce ad text ≡ some out)
  pub gcm_lengths :
      (key nonce ad text : List ℕ) {out : List ℕ × List ℕ}
      → p.aes_gcm_seal key nonce ad text ≡ some out
      → (length out.0 ≡ length text) × (length out.1 ≡ 16)
  pub gcm_opens :
      (key nonce ad text : List ℕ) {out : List ℕ × List ℕ}
      → p.aes_gcm_seal key nonce ad text ≡ some out
      → p.aes_gcm_open key nonce ad out.0 out.1 ≡ some text
  pub gcm_open_length :
      (key nonce ad cipher tag : List ℕ) {text : List ℕ}
      → p.aes_gcm_open key nonce ad cipher tag ≡ some text
      → length text ≡ length cipher
  pub ctr_applies :
      (key nonce text : List ℕ)
      → length text ≤ message_limit
      → (out : List ℕ) × (p.aes_ctr_apply key nonce text ≡ some out)
  pub ctr_length :
      (key nonce text : List ℕ) {out : List ℕ}
      → p.aes_ctr_apply key nonce text ≡ some out
      → length out ≡ length text
  pub ctr_involutive :
      (key nonce text : List ℕ) {out : List ℕ}
      → p.aes_ctr_apply key nonce text ≡ some out
      → p.aes_ctr_apply key nonce out ≡ some text
  pub hmac_length : (key text : List ℕ) → length (p.hmac_sha256 key text) ≡ 32
  pub siv_seals :
      (key : List ℕ) (headers : List (List ℕ)) (text : List ℕ)
      → length text ≤ message_limit
      → (out : List ℕ) × (p.aes_siv_seal key headers text ≡ some out)
  pub siv_opens :
      (key : List ℕ) (headers : List (List ℕ)) (text : List ℕ) {out : List ℕ}
      → p.aes_siv_seal key headers text ≡ some out
      → p.aes_siv_open key headers out ≡ some text
  pub base64_url_decodes : (b : List ℕ) → p.base64_url_decode (p.base64_url_encode b) ≡ some b
  -- A lossy conversion gives valid UTF-8.
  pub lossy_utf8 : (s : List ℕ) → p.from_utf8 (p.to_string_lossy s) ≡ some (p.to_string_lossy s)

-- No byte is '.' or '/', and no byte is above the ASCII ones.
abbrev pub IsPlain : List ℕ → Type 0
IsPlain [] = Unit {0}
IsPlain (b ∷ bytes) = ((b == 46) ≡ false) × ((b == 47) ≡ false) × IsPlain bytes

abbrev pub IsAscii : List ℕ → Type 0
IsAscii [] = Unit {0}
IsAscii (b ∷ bytes) = (b < 128) × IsAscii bytes

-- What they document of texts and lengths: AES-SIV puts a tag of 16 bytes in front.
pub record TextLaws (p : Primitives) : Type 0 where
  pub siv_length :
      (key : List ℕ) (headers : List (List ℕ)) (text : List ℕ) {out : List ℕ}
      → p.aes_siv_seal key headers text ≡ some out
      → length out ≡ 16 + length text
  pub sha1_length : (b : List ℕ) → length (p.sha1 b) ≡ 20
  pub encoded_plain : (b : List ℕ) → IsPlain (p.base64_url_encode b)
  pub encoded_length : (b : List ℕ) → 0 < length b → 0 < length (p.base64_url_encode b)
  pub encoded_lossy :
      (b : List ℕ) → p.to_string_lossy (p.base64_url_encode b) ≡ p.base64_url_encode b
  pub ascii_utf8 : (b : List ℕ) → IsAscii b → p.from_utf8 b ≡ some b
