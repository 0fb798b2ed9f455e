-- ===== src/Primitives/Toy.antt =====
-- Concrete functions that meet the laws of the libraries: the witnesses run on them.
use cryptomator_rs.Common.{
  ℕ, ◌+◌, ◌-◌, ◌*◌, ◌<◌, ◌≡◌, refl, ap, ◌∙◌, length-append, List, [], ◌∷◌, ◌++◌, length, none, some,
  if◌then◌else◌, eq_bytes, eq_bytes_self, replicate, length-replicate, drop, drop-append, arith,
}
use cryptomator_rs.Primitives.{Primitives, Laws, TextLaws, IsPlain}

abbrev sum : List ℕ → ℕ
sum [] = 0
sum (x ∷ xs) = x + sum xs

-- A tag that depends on the key, the nonce, the associated data and the text.
unfoldable pub tag_of : ℕ → List ℕ → List ℕ → List ℕ → List ℕ → List ℕ
tag_of n key nonce ad text = replicate n (sum key + 3 * sum nonce + 5 * sum ad + 7 * sum text)

-- A code without the bytes '.' and '/'.
abbrev pub shifted : List ℕ → List ℕ
shifted [] = []
shifted (x ∷ xs) = (x + 100) ∷ shifted xs

abbrev shifted_back : List ℕ → List ℕ
shifted_back [] = []
shifted_back (x ∷ xs) = (x - 100) ∷ shifted_back xs

shifted_back-shifted : (xs : List ℕ) → shifted_back (shifted xs) ≡ xs
shifted_back-shifted [] = refl
shifted_back-shifted (x ∷ xs) =
    ap (λ n. n ∷ shifted_back (shifted xs)) (let e : (x + 100) - 100 ≡ x = omega arith in e)
    ∙ ap (◌∷◌ x) (shifted_back-shifted xs)

shifted-IsPlain : (xs : List ℕ) → IsPlain (shifted xs)
shifted-IsPlain [] = tt
shifted-IsPlain (x ∷ xs) = (ground arith, ground arith, shifted-IsPlain xs)

shifted-length : (xs : List ℕ) → 0 < length xs → 0 < length (shifted xs)
shifted-length [] given = absurd (omega arith)
shifted-length (x ∷ xs) given = omega arith

abbrev pub toy : Primitives
toy = record {
  aes_gcm_seal = λ key nonce ad text. some (text, tag_of 16 key nonce ad text);
  aes_gcm_open = λ key nonce ad cipher tag.
      if eq_bytes tag (tag_of 16 key nonce ad cipher) then some cipher else none;
  aes_ctr_apply = λ key nonce text. some text;
  hmac_sha256 = λ key text. tag_of 32 key [] [] text;
  aes_siv_seal = λ key headers text. some (tag_of 16 key [] [] text ++ text);
  aes_siv_open = λ key headers cipher. some (drop 16 cipher);
  sha1 = λ text. tag_of 20 [] [] [] text;
  base32_encode = λ text. text;
  base64_url_encode = shifted;
  base64_url_decode = λ text. some (shifted_back text);
  from_utf8 = λ text. some text;
  to_string_lossy = λ text. text;
}

length-tag_of : (n : ℕ) (key nonce ad text : List ℕ) → length (tag_of n key nonce ad text) ≡ n
unfolding tag_of
length-tag_of n key nonce ad text = length-replicate n _

open-seal :
    (key nonce ad text : List ℕ) {out : List ℕ × List ℕ}
    → toy.aes_gcm_seal key nonce ad text ≡ some out
    → toy.aes_gcm_open key nonce ad out.0 out.1 ≡ some text
open-seal key nonce ad text h = ground (arith, eq_bytes_self (tag_of 16 key nonce ad text))

siv_open-siv_seal :
    (key : List ℕ) (headers : List (List ℕ)) (text : List ℕ) {out : List ℕ}
    → toy.aes_siv_seal key headers text ≡ some out
    → toy.aes_siv_open key headers out ≡ some text
siv_open-siv_seal key headers text h =
    ground (arith, drop-append 16 (tag_of 16 key [] [] text) text (length-tag_of 16 key [] [] text))

pub toy-Laws : Laws toy
toy-Laws = record {
  gcm_seals = λ key nonce ad text h. ((text, tag_of 16 key nonce ad text), refl);
  gcm_lengths = λ key nonce ad text h. ground (arith, length-tag_of 16 key nonce ad text);
  gcm_opens = λ key nonce ad text h. open-seal key nonce ad text h;
  gcm_open_length = λ key nonce ad cipher tag h. ground arith;
  ctr_applies = λ key nonce text h. (text, refl);
  ctr_length = λ key nonce text h. ground arith;
  ctr_involutive = λ key nonce text h. ground arith;
  hmac_length = λ key text. length-tag_of 32 key [] [] text;
  siv_seals = λ key headers text h. (tag_of 16 key [] [] text ++ text, refl);
  siv_opens = λ key headers text h. siv_open-siv_seal key headers text h;
  base64_url_decodes = λ b. ap some (shifted_back-shifted b);
  lossy_utf8 = λ s. refl;
}

pub toy-TextLaws : TextLaws toy
toy-TextLaws = record {
  siv_length = λ key headers text h.
      ground
        (arith, length-append (tag_of 16 key [] [] text) text, length-tag_of 16 key [] [] text);
  sha1_length = λ b. length-tag_of 20 [] [] [] b;
  encoded_plain = shifted-IsPlain;
  encoded_length = shifted-length;
  encoded_lossy = λ b. refl;
  ascii_utf8 = λ b a. refl;
}
