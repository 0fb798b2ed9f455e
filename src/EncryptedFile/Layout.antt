-- ===== src/EncryptedFile/Layout.antt =====
-- What a ciphertext file holds: its header and a sequence of chunks, of which only the last may be
-- shorter than a full one, standing for the cleartext that they decrypt to.
use cryptomator_rs.Common.{
  ℕ, zero, suc, ◌+◌, ◌*◌, ◌^◌, ◌≤◌, ◌<◌, ◌≡◌, refl, sym, ◌∙◌, ap, ◌⊎◌, inl, inr, List, [], ◌∷◌,
  ◌++◌, append_assoc, append-nil, length, ok, arith, length-append,
}
use cryptomator_rs.Crypto.{FileCryptor, FileHeader, IsLawful}
use cryptomator_rs.Os.{Os}
use cryptomator_rs.Util.Size.Position.{
  overhead, encrypted_len, encrypted_pos, encrypted_len-zero, encrypted_len-add,
  encrypted_len_short,
}

-- A chunk: its ciphertext, and its cleartext.
abbrev pub Chunk : Type 0
Chunk = List ℕ × List ℕ

abbrev pub ciphertext : List Chunk → List ℕ
ciphertext [] = []
ciphertext (x ∷ xs) = x.0 ++ ciphertext xs

abbrev pub cleartext : List Chunk → List ℕ
cleartext [] = []
cleartext (x ∷ xs) = x.1 ++ cleartext xs

pub cleartext-append : (xs ys : List Chunk) → cleartext (xs ++ ys) ≡ cleartext xs ++ cleartext ys
cleartext-append [] ys = refl
cleartext-append (x ∷ xs) ys =
    ap (◌++◌ x.1) (cleartext-append xs ys) ∙ sym (append_assoc x.1 (cleartext xs) (cleartext ys))

pub ciphertext-append :
    (xs ys : List Chunk) → ciphertext (xs ++ ys) ≡ ciphertext xs ++ ciphertext ys
ciphertext-append [] ys = refl
ciphertext-append (x ∷ xs) ys =
    ap (◌++◌ x.0) (ciphertext-append xs ys) ∙ sym (append_assoc x.0 (ciphertext xs) (ciphertext ys))

module _ (c : FileCryptor) (h : FileHeader) where
  -- Full chunks, numbered from `i`.
  abbrev pub AreFull : ℕ → List Chunk → Type 0
  AreFull i [] = Unit {0}
  AreFull i (x ∷ xs) =
      (c.decrypt_chunk x.0 h i ≡ ok x.1) × (length x.1 ≡ c.max_chunk_len) × AreFull (suc i) xs

  -- Chunks of a file, numbered from `i`: all but the last are full.
  abbrev pub AreChunks : ℕ → List Chunk → Type 0
  AreChunks i [] = Unit {0}
  AreChunks i (x ∷ xs) =
      (c.decrypt_chunk x.0 h i ≡ ok x.1)
      × ((length x.1 ≡ c.max_chunk_len) ⊎ (xs ≡ []))
      × AreChunks (suc i) xs

  pub AreChunks-append :
      (i : ℕ) (xs ys : List Chunk) (j : ℕ)
      → j ≡ i + length xs
      → AreFull i xs
      → AreChunks j ys
      → AreChunks i (xs ++ ys)
  AreChunks-append i [] ys j e f g = let q : j ≡ i = omega arith in rw (← q) g
  AreChunks-append i (x ∷ xs) ys j e f g =
      (f.0, inl f.1, AreChunks-append (suc i) xs ys j (omega arith) f.2 g)

  module _ {nonce_len : ℕ} (laws : IsLawful nonce_len c) where
    -- A file of chunks, cut before chunk number `k`.
    pub record Cut (i k : ℕ) (cs : List Chunk) : Type 0 where
      pub before : List Chunk
      pub after : List Chunk
      pub whole : cs ≡ before ++ after
      pub full : AreFull i before
      pub chunks : AreChunks (i + k) after
      pub count : length before ≡ k
      pub clear_size : length (cleartext before) ≡ k * c.max_chunk_len
      pub cipher_size : length (ciphertext before) ≡ k * c.max_encrypted_chunk_len

    Cut-cons :
        (i k : ℕ) (x : Chunk) (xs : List Chunk)
        → c.decrypt_chunk x.0 h i ≡ ok x.1
        → length x.1 ≡ c.max_chunk_len
        → Cut (suc i) k xs
        → Cut i (suc k) (x ∷ xs)
    Cut-cons i k x xs d l u = record {
      before = x ∷ u.before;
      after = u.after;
      whole = ap (◌∷◌ x) u.whole;
      full = (d, l, u.full);
      chunks = (let e : suc i + k ≡ i + suc k = omega arith in rw (← e) u.chunks);
      count = ap suc u.count;
      clear_size = omega (arith, length-append x.1 (cleartext u.before), u.clear_size);
      cipher_size = omega (
        arith,
        length-append x.0 (ciphertext u.before),
        u.cipher_size,
        (laws.chunk_decrypts x.0 h i d).0,
        laws.chunk_overhead,
      );
    }

    -- Every chunk boundary up to the end of the cleartext is a cut.
    pub cut :
        (i k : ℕ) (cs : List Chunk)
        → AreChunks i cs
        → k * c.max_chunk_len ≤ length (cleartext cs)
        → Cut i k cs
    cut i zero cs a le = record {
      before = [];
      after = cs;
      whole = refl;
      full = tt;
      chunks = (let e : i + 0 ≡ i = omega arith in rw e a);
      count = refl;
      clear_size = omega arith;
      cipher_size = omega arith;
    }
    cut i (suc k) [] a le = absurd (omega (arith, laws.chunk_positive))
    cut i (suc k) (x ∷ xs) (d, inl f, r) le =
        Cut-cons i k x xs d f (cut (suc i) k xs r (omega (arith, length-append x.1 (cleartext xs))))
    cut i (suc k) (x ∷ xs) (d, inr e, r) le =
        let last : length (cleartext xs) ≡ 0 = ap (λ t. length (cleartext t)) e in
        let size : (length x.0 ≡ length x.1 + overhead c)
            × (0 < length x.1)
            × (length x.1 ≤ c.max_chunk_len) =
          laws.chunk_decrypts x.0 h i d in
        let total : length (cleartext (x ∷ xs)) ≡ length x.1 + length (cleartext xs) =
          length-append x.1 (cleartext xs) in
        Cut-cons i k x xs d (omega arith) (cut (suc i) k xs r (omega arith))

    -- The ciphertext is as long as its cleartext wants.
    pub length-ciphertext :
        (i : ℕ) (cs : List Chunk)
        → AreChunks i cs
        → length (ciphertext cs) ≡ encrypted_len c (length (cleartext cs))
    length-ciphertext i [] a = sym (encrypted_len-zero c laws)
    length-ciphertext i (x ∷ xs) (d, inl f, r) = omega (
      arith,
      length-append x.1 (cleartext xs),
      length-append x.0 (ciphertext xs),
      (laws.chunk_decrypts x.0 h i d).0,
      laws.chunk_overhead,
      length-ciphertext (suc i) xs r,
      encrypted_len-add c laws (length (cleartext xs)),
      ap (λ n. encrypted_len c (n + length (cleartext xs))) f,
      ap (encrypted_len c) (length-append x.1 (cleartext xs)),
    )
    length-ciphertext i (x ∷ xs) (d, inr e, r) =
        let size : (length x.0 ≡ length x.1 + overhead c)
            × (0 < length x.1)
            × (length x.1 ≤ c.max_chunk_len) =
          laws.chunk_decrypts x.0 h i d in
        rw (e, append-nil x.0, append-nil x.1)
          (size.0 ∙ sym (encrypted_len_short c laws (length x.1) size.1 size.2))

  -- The file holds a cleartext.
  pub record Holds (s : Os) (text : List ℕ) : Type 0 where
    pub head : List ℕ
    pub chunks : List Chunk
    pub layout : s.bytes ≡ head ++ ciphertext chunks
    pub head_size : length head ≡ c.encrypted_header_len
    pub are_chunks : AreChunks 0 chunks
    pub content : text ≡ cleartext chunks
    -- File sizes are signed 64-bit numbers.
    pub small : length s.bytes < 2 ^ 63

  -- The length of the file is the position of the end of its cleartext.
  pub length-Holds :
      {nonce_len : ℕ} (laws : IsLawful nonce_len c) {s : Os} {text : List ℕ}
      → Holds s text
      → length s.bytes ≡ encrypted_pos c (length text)
  length-Holds laws {s} {text} v =
      rw (v.layout, v.content)
        (omega (
          arith,
          length-append v.head (ciphertext v.chunks),
          v.head_size,
          length-ciphertext laws 0 v.chunks v.are_chunks,
        ))
