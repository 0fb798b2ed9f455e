-- ===== src/EncryptedFile/Slot.antt =====
-- The place of chunk number `k` in a file that holds a cleartext: what stands before it, and what
-- the file and the cleartext have from there on.
use mathlib.Core.Path.{subst}
use cryptomator_rs.Common.{
  ℕ, ◌+◌, ◌*◌, ◌≤◌, ◌<◌, ◌≡◌, sym, ◌∙◌, ap, inl, inr, List, [], ◌∷◌, ◌++◌, append_assoc, append-nil,
  length, take, ok, arith, length-append, take-append, take_of_length-le,
}
use cryptomator_rs.Crypto.{FileCryptor, FileHeader, IsLawful}
use cryptomator_rs.EncryptedFile.Layout.{
  Chunk, ciphertext, cleartext, AreFull, AreChunks, Cut, cut, Holds, cleartext-append,
  ciphertext-append,
}
use cryptomator_rs.Os.{Os}
use cryptomator_rs.Util.Size.Position.{overhead, encrypted_pos, encrypted_len-mul}

module _ (c : FileCryptor) (h : FileHeader) where
  pub record Slot (k : ℕ) (s : Os) (text : List ℕ) : Type 0 where
    pub head : List ℕ
    pub before : List Chunk
    pub after : List Chunk
    pub head_size : length head ≡ c.encrypted_header_len
    pub full : AreFull c h 0 before
    pub count : length before ≡ k
    pub chunks : AreChunks c h k after
    pub layout : s.bytes ≡ (head ++ ciphertext before) ++ ciphertext after
    pub front_size : length (head ++ ciphertext before) ≡ encrypted_pos c (k * c.max_chunk_len)
    pub content : text ≡ cleartext before ++ cleartext after
    pub clear_size : length (cleartext before) ≡ k * c.max_chunk_len

  pub Holds-same :
      {s s' : Os} {text : List ℕ} → s'.bytes ≡ s.bytes → Holds c h s text → Holds c h s' text
  Holds-same e v = record {
    head = v.head;
    chunks = v.chunks;
    layout = e ∙ v.layout;
    head_size = v.head_size;
    are_chunks = v.are_chunks;
    content = v.content;
    small = (rw e v.small);
  }

  module _ {nonce_len : ℕ} (laws : IsLawful nonce_len c) where
    Slot-of_Cut :
        (k : ℕ) {s : Os} {text : List ℕ} (v : Holds c h s text)
        → Cut c h laws 0 k v.chunks
        → Slot k s text
    Slot-of_Cut k {s} {text} v u = record {
      head = v.head;
      before = u.before;
      after = u.after;
      head_size = v.head_size;
      full = u.full;
      count = u.count;
      chunks = subst (λ j. AreChunks c h j u.after) (omega arith) u.chunks;
      layout =
          v.layout
          ∙ ap (λ cs. v.head ++ ciphertext cs) u.whole
          ∙ ap (◌++◌ v.head) (ciphertext-append u.before u.after)
          ∙ sym (append_assoc v.head (ciphertext u.before) (ciphertext u.after));
      front_size = omega (
        arith,
        length-append v.head (ciphertext u.before),
        v.head_size,
        u.cipher_size,
        encrypted_len-mul c laws k,
      );
      content = v.content ∙ ap cleartext u.whole ∙ cleartext-append u.before u.after;
      clear_size = u.clear_size;
    }

    pub slot :
        (k : ℕ) {s : Os} {text : List ℕ}
        → Holds c h s text
        → k * c.max_chunk_len ≤ length text
        → Slot k s text
    slot k v le =
        Slot-of_Cut k v
          (cut c h laws 0 k v.chunks v.are_chunks (omega (arith, ap length v.content)))

    -- The first of a row of chunks: its sizes, and that one read of a full chunk delivers it.
    pub record First (k : ℕ) (x : Chunk) (xs : List Chunk) : Type 0 where
      pub decrypts : c.decrypt_chunk x.0 h k ≡ ok x.1
      pub size : length x.0 ≡ length x.1 + overhead c
      pub positive : 0 < length x.1
      pub bounded : length x.1 ≤ c.max_chunk_len
      pub whole : take c.max_encrypted_chunk_len (x.0 ++ ciphertext xs) ≡ x.0
      pub last_or_full : length x.1 < c.max_chunk_len → xs ≡ []

    pub first : (k : ℕ) (x : Chunk) (xs : List Chunk) → AreChunks c h k (x ∷ xs) → First k x xs
    first k x xs (d, f, r) =
        let size : (length x.0 ≡ length x.1 + overhead c)
            × (0 < length x.1)
            × (length x.1 ≤ c.max_chunk_len) =
          laws.chunk_decrypts x.0 h k d in
        record {
          decrypts = d;
          size = size.0;
          positive = size.1;
          bounded = size.2;
          whole = elim f [
            | inl e ↦
                take-append c.max_encrypted_chunk_len x.0 (ciphertext xs)
                  (omega (arith, size.0, laws.chunk_overhead, e))
            | inr e ↦
                rw (e, append-nil x.0)
                  (take_of_length-le c.max_encrypted_chunk_len x.0
                    (omega (arith, size.0, size.2, laws.chunk_overhead)))
          ];
          last_or_full = λ lt. elim f [ inl e ↦ absurd (omega arith) | inr e ↦ e ];
        }
