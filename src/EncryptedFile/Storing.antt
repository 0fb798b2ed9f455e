-- ===== src/EncryptedFile/Storing.antt =====
-- The last steps of `write` in src/fs/encrypted_file.rs: encrypting the chunk and writing it over
-- its old ciphertext.
use cryptomator_rs.Common.{
  ℕ, ◌+◌, ◌-◌, ◌*◌, ◌^◌, ◌≤◌, ◌<◌, ◌≡◌, refl, sym, ◌∙◌, ap, inl, inr, ◌⊎◌, List, [], ◌∷◌, ◌++◌,
  append_assoc, append-nil, length, drop, replicate, ok, arith, length-append, take-append,
  drop-append, drop-append_ge, drop_of_length-le,
}
use cryptomator_rs.Crypto.{FileCryptor, FileHeader, IsHeader, IsLawful}
use cryptomator_rs.EncryptedFile.Layout.{
  Chunk, ciphertext, cleartext, AreChunks, AreChunks-append, Holds, ciphertext-append,
  cleartext-append, length-ciphertext,
}
use cryptomator_rs.EncryptedFile.Slot.{Slot}
use cryptomator_rs.EncryptedFile.{encrypt}
use cryptomator_rs.Os.{write_as, anywhere, Os, write_at, write_all}
use cryptomator_rs.Util.Size.Position.{overhead, encrypted_len, encrypted_pos}

-- Writing where a front part ends.
pub write_at-front :
    (front rest new : List ℕ) (n : ℕ)
    → length front ≡ n
    → write_at (front ++ rest) n new ≡ front ++ (new ++ drop (length new) rest)
unfolding write_at
write_at-front front rest new n e =
    let gap : n - length (front ++ rest) ≡ 0 = omega (arith, length-append front rest) in
    let q : n + length new - length front ≡ length new = omega arith in
    rw
      (take-append n front rest e, drop-append_ge (n + length new) front rest (omega arith), q, gap)
      (unfold replicate in refl)

pub write_all_lem :
    (new : List ℕ) (s : Os)
    → s.writable ≡ anywhere
    → write_all new s
      ≡ (ok tt, record s { bytes = write_at s.bytes s.pos new; pos = s.pos + length new })
unfolding write_all
write_all_lem new s can = ap (λ mode. write_as mode new s) can

module _ (c : FileCryptor) {nonce_len : ℕ} (laws : IsLawful nonce_len c) (h : FileHeader) where
  -- What stays of the chunks `after` when the first of them is written anew.
  abbrev pub others : List Chunk → List Chunk
  others [] = []
  others (x ∷ xs) = xs

  -- The new chunk covers the first of the chunks `after`, and no more: it is as long, or longer
  -- where no chunk follows.
  abbrev pub Covers : List ℕ → List Chunk → Type 0
  Covers w [] = Unit {0}
  Covers w (x ∷ xs) = (length w ≡ length x.1) ⊎ ((xs ≡ []) × (length x.1 ≤ length w))

  drop-Covers :
      (k : ℕ) (w cipher : List ℕ) (after : List Chunk)
      → AreChunks c h k after
      → Covers w after
      → length cipher ≡ length w + overhead c
      → drop (length cipher) (ciphertext after) ≡ ciphertext (others after)
  drop-Covers k w cipher [] a v e = drop_of_length-le {A = ℕ} (length cipher) [] (omega arith)
  drop-Covers k w cipher (x ∷ xs) a (inl same) e =
      drop-append (length cipher) x.0 (ciphertext xs)
        (omega (arith, (laws.chunk_decrypts x.0 h k a.0).0))
  drop-Covers k w cipher (x ∷ xs) a (inr (last, longer)) e =
      rw (last, append-nil x.0)
        (drop_of_length-le (length cipher) x.0 (omega (arith, (laws.chunk_decrypts x.0 h k a.0).0)))

  -- The new chunk, and those that follow it.
  new_chunks :
      (k : ℕ) (w cipher : List ℕ) (after : List Chunk)
      → AreChunks c h k after
      → Covers w after
      → c.decrypt_chunk cipher h k ≡ ok w
      → AreChunks c h k ((cipher, w) ∷ others after)
  new_chunks k w cipher [] a v d = (d, inr refl, tt)
  new_chunks k w cipher (x ∷ xs) (_, inl full, r) (inl same) d = (d, inl (same ∙ full), r)
  new_chunks k w cipher (x ∷ xs) (_, inr last, r) (inl same) d = (d, inr last, r)
  new_chunks k w cipher (x ∷ xs) (_, f, r) (inr (last, longer)) d = (d, inr last, r)

  -- The cleartext after the write.
  abbrev pub new_text : List Chunk → List ℕ → List Chunk → List ℕ
  new_text before w after = cleartext before ++ (w ++ cleartext (others after))

  pub write_all-Holds :
      (k : ℕ) (s t : Os) {text : List ℕ} (u : Slot c h k s text) (w cipher : List ℕ)
      → t.bytes ≡ s.bytes
      → Covers w u.after
      → c.decrypt_chunk cipher h k ≡ ok w
      → encrypted_pos c (length (new_text u.before w u.after)) < 2 ^ 63
      → Holds c h
          (record t {
            bytes = write_at t.bytes (encrypted_pos c (k * c.max_chunk_len)) cipher;
            pos = encrypted_pos c (k * c.max_chunk_len) + length cipher;
          })
          (new_text u.before w u.after)
  write_all-Holds k s t {text} u w cipher same v d small =
      let chunks : List Chunk = u.before ++ ((cipher, w) ∷ others u.after) in
      let are : AreChunks c h 0 chunks =
        AreChunks-append c h 0 u.before ((cipher, w) ∷ others u.after) k (omega (arith, u.count))
          u.full (new_chunks k w cipher u.after u.chunks v d) in
      let text_eq : new_text u.before w u.after ≡ cleartext chunks =
        sym (cleartext-append u.before ((cipher, w) ∷ others u.after)) in
      let bytes_eq : write_at t.bytes (encrypted_pos c (k * c.max_chunk_len)) cipher
          ≡ u.head ++ ciphertext chunks =
        ap (λ b. write_at b (encrypted_pos c (k * c.max_chunk_len)) cipher) (same ∙ u.layout)
        ∙ write_at-front (u.head ++ ciphertext u.before) (ciphertext u.after) cipher _ u.front_size
        ∙ ap (λ r. (u.head ++ ciphertext u.before) ++ (cipher ++ r))
            (drop-Covers k w cipher u.after u.chunks v
              (omega (arith, (laws.chunk_decrypts cipher h k d).0)))
        ∙ append_assoc u.head (ciphertext u.before) (cipher ++ ciphertext (others u.after))
        ∙ ap (◌++◌ u.head) (sym (ciphertext-append u.before ((cipher, w) ∷ others u.after))) in
      record {
        head = u.head;
        chunks = chunks;
        layout = bytes_eq;
        head_size = u.head_size;
        are_chunks = are;
        content = text_eq;
        small = omega (
          arith,
          ap length bytes_eq,
          length-append u.head (ciphertext chunks),
          u.head_size,
          length-ciphertext c h laws 0 chunks are,
          ap (λ x. encrypted_len c (length x)) text_eq,
        );
      }

  -- With entropy for a nonce, every chunk within the limits encrypts.
  pub encrypt_lem :
      (w : List ℕ) (k : ℕ) (s : Os)
      → nonce_len ≤ length s.entropy
      → IsHeader nonce_len h
      → 0 < length w
      → length w ≤ c.max_chunk_len
      → (cipher : List ℕ) × (encrypt c h w k s
          ≡ (ok cipher, record s { entropy = drop nonce_len s.entropy }))
        × (length cipher ≡ length w + overhead c)
        × (c.decrypt_chunk cipher h k ≡ ok w)
  unfolding encrypt
  encrypt_lem w k s entropy valid pos le =
      let (cipher, e, size, d) = laws.chunk_encrypts s.entropy w h k entropy valid pos le in
      (cipher, rw (e, encrypt), size, d)
