-- ===== src/EncryptedFile/Reading.antt =====
-- `Read::read` of src/fs/encrypted_file.rs delivers the cleartext that the file holds.
use native.Mathlib.Nat.{div-add-mod'}
use native.Mathlib.Decide.{dec_lt}
use cryptomator_rs.Common.{
  ℕ, ◌+◌, ◌-◌, ◌*◌, ◌/◌, ◌%◌, ◌≤◌, ◌<◌, ◌≡◌, ◌≢◌, refl, sym, ◌∙◌, ap, ◌==◌, ◌||◌, ◌⊎◌, inl, inr,
  min, List, [], ◌∷◌, ◌++◌, append-nil, length, take, drop, Bool-cases, le→leb, ok, arith,
  u64_limit, length-append, length-take, length-drop, take-append_le, drop-append_le,
  drop-append_ge, take_of_length-le, length-eq-zero,
}
use cryptomator_rs.Crypto.{FileCryptor, FileHeader, IsLawful}
use cryptomator_rs.EncryptedFile.Layout.{Chunk, ciphertext, cleartext, Holds, length-Holds}
use cryptomator_rs.EncryptedFile.Loading.{Ready, chunk_start, align_lem, Loaded, load}
use cryptomator_rs.EncryptedFile.Present.{Present, present, behind-First}
use cryptomator_rs.EncryptedFile.Seeking.{at, cleartext_pos_lem, length-text-lt, seek_start_lem}
use cryptomator_rs.EncryptedFile.Slot.{Slot, slot, First, Holds-same}
use cryptomator_rs.EncryptedFile.{decrypt, seek_start, read_chunk, read_file}
use cryptomator_rs.Os.Reading.{Same}
use cryptomator_rs.Os.{Os, try_read, ciphertext_pos, ciphertext_len}
use cryptomator_rs.Util.Size.Position.{encrypted_pos, get_cleartext_size-encrypted_pos}
use cryptomator_rs.Util.Size.{get_cleartext_size}

take-min_self {ℓ} :
    {A : Type ℓ} (n m : ℕ) (xs : List A) → length xs ≤ m → take (min n m) xs ≡ take n xs
take-min_self n m xs le = elim (dec_lt m n) [
  | yes lt ↦
      take_of_length-le (min n m) xs (omega arith) ∙ sym (take_of_length-le n xs (omega arith))
  | no ge ↦ ap (λ k. take k xs) (omega arith)
]

-- A read that is cut at `m` sees nothing behind a part of `m` items, or behind a last part.
take-min {ℓ} :
    {A : Type ℓ} (n m : ℕ) (xs ys : List A)
    → length xs ≤ m
    → (length xs < m → ys ≡ [])
    → take (min n m) (xs ++ ys) ≡ take n xs
take-min n m xs ys le last = elim (dec_lt (length xs) m) [
  | yes lt ↦
      ap (λ t. take (min n m) (xs ++ t)) (last lt)
      ∙ ap (take (min n m)) (append-nil xs)
      ∙ take-min_self n m xs le
  | no ge ↦ take-append_le (min n m) xs ys (omega arith) ∙ take-min_self n m xs le
]

module _ (c : FileCryptor) {nonce_len : ℕ} (laws : IsLawful nonce_len c) (h : FileHeader)
    (text : List ℕ) where
  -- How many bytes a read or a write of at most `n` moves at position `p`: to the end of the chunk.
  abbrev pub span : ℕ → ℕ → ℕ
  span n p = min n (c.max_chunk_len - p % c.max_chunk_len)

  -- What is left of the cleartext at `p`, in chunk `k`.
  rest-Slot :
      (p : ℕ) (s : Os) (u : Slot c h (p / c.max_chunk_len) s text)
      → drop p text ≡ drop (p % c.max_chunk_len) (cleartext u.after)
  rest-Slot p s u =
      let q : p - length (cleartext u.before) ≡ p % c.max_chunk_len =
        omega (arith, div-add-mod' p c.max_chunk_len, u.clear_size) in
      ap (drop p) u.content
      ∙ drop-append_ge p (cleartext u.before) (cleartext u.after)
          (omega (arith, div-add-mod' p c.max_chunk_len, u.clear_size))
      ∙ ap (λ k. drop k (cleartext u.after)) q

  read-First :
      (n p : ℕ) (s : Os) (u : Slot c h (p / c.max_chunk_len) s text) (x : Chunk) (xs : List Chunk)
      → u.after ≡ x ∷ xs
      → First c h laws (p / c.max_chunk_len) x xs
      → p % c.max_chunk_len ≤ length x.1
      → take n (drop (p % c.max_chunk_len) x.1) ≡ take (span n p) (drop p text)
  read-First n p s u x xs e f le = sym (
      ap (take (span n p)) (rest-Slot p s u)
      ∙ ap (λ cs. take (span n p) (drop (p % c.max_chunk_len) (cleartext cs))) e
      ∙ ap (take (span n p)) (drop-append_le (p % c.max_chunk_len) x.1 (cleartext xs) le)
      ∙ take-min n (c.max_chunk_len - p % c.max_chunk_len) (drop (p % c.max_chunk_len) x.1)
          (cleartext xs) (omega (arith, f.bounded, length-drop (p % c.max_chunk_len) x.1))
          (λ lt.
            ap cleartext (f.last_or_full (omega (arith, length-drop (p % c.max_chunk_len) x.1)))))

  -- What a read has done: it delivered the cleartext at the position, moved behind it, and left
  -- the file's bytes alone.
  pub record DidRead (n p : ℕ) (s s' : Os) (out : List ℕ) : Type 0 where
    pub delivered : out ≡ take (span n p) (drop p text)
    pub ready : Ready c h text (p + length out) s'
    pub same : Same s s'

  read_chunk_of_Present :
      (n p : ℕ) (s s' : Os) (u : Slot c h (p / c.max_chunk_len) s text)
      → Ready c h text p s
      → Present c laws h p u.after
      → Loaded c laws h text (p / c.max_chunk_len) s s' u.after
      → (t : Os) × (out : List ℕ) × (read_chunk c h n s ≡ (ok out, t)) × DidRead n p s t out
  unfolding read_chunk decrypt
  read_chunk_of_Present n p s s' u r x l =
      let k : ℕ = p / c.max_chunk_len in
      let out : List ℕ = take n (drop (p % c.max_chunk_len) x.chunk.1) in
      let loaded : take c.max_encrypted_chunk_len (ciphertext u.after) ≡ x.chunk.0 =
        ap (λ cs. take c.max_encrypted_chunk_len (ciphertext cs)) x.shape ∙ x.is_first.whole in
      let spans : out ≡ take (span n p) (drop p text) =
        read-First n p s u x.chunk x.others x.shape x.is_first x.reaches in
      let fits : p + length out ≤ length text = omega (
        arith,
        ap length spans,
        length-take (span n p) (drop p text),
        length-drop p text,
        r.inside,
      ) in
      let holds : Holds c h s' text = Holds-same c h l.same.same_bytes r.holds in
      let stop : k * c.max_chunk_len + length x.chunk.1 ≤ length text = omega (
        arith,
        ap length u.content,
        length-append (cleartext u.before) (cleartext u.after),
        u.clear_size,
        ap (λ cs. length (cleartext cs)) x.shape,
        length-append x.chunk.1 (cleartext x.others),
      ) in
      let behind : s'.pos ≡ encrypted_pos c (k * c.max_chunk_len + length x.chunk.1) =
        l.moved
        ∙ ap (λ b. encrypted_pos c (k * c.max_chunk_len) + length b) loaded
        ∙ behind-First c laws h k x.chunk x.others x.is_first in
      let q : min (p + length out) (length text) ≡ p + length out = omega arith in
      let end : seek_start c (p + length out) s' ≡ (ok (p + length out), at c (p + length out) s') =
        seek_start_lem c laws s' holds (k * c.max_chunk_len + length x.chunk.1) (p + length out)
          behind stop (omega (arith, length-text-lt c laws s r.holds))
        ∙ ap (λ m. (ok m, at c m s')) q in
      (
        at c (p + length out) s',
        out,
        rw (
          cleartext_pos_lem c laws s p r.position
              (omega (arith, length-text-lt c laws s r.holds, r.inside)),
          align_lem c laws h text p s r,
          l.returned,
          loaded,
          x.is_first.decrypts,
          le→leb (p % c.max_chunk_len) (length x.chunk.1) x.reaches,
          end,
        ),
        record {
          delivered = spans;
          ready = record {
            holds = Holds-same c h l.same.same_bytes r.holds;
            position = refl;
            inside = fits;
            no_fault = l.no_fault;
          };
          same = record {
            same_bytes = l.same.same_bytes;
            same_lock = l.same.same_lock;
            same_writable = l.same.same_writable;
            same_entropy = l.same.same_entropy;
          };
        },
      )

  read_chunk_lem :
      (n p : ℕ) (s : Os)
      → Ready c h text p s
      → p < length text
      → (t : Os) × (out : List ℕ) × (read_chunk c h n s ≡ (ok out, t)) × DidRead n p s t out
  read_chunk_lem n p s r lt =
      let parts : chunk_start c p + p % c.max_chunk_len ≡ p = div-add-mod' p c.max_chunk_len in
      let u : Slot c h (p / c.max_chunk_len) s text =
        slot c h laws (p / c.max_chunk_len) r.holds (omega arith) in
      let (s', l) = load c laws h text (p / c.max_chunk_len) s u r.no_fault in
      read_chunk_of_Present n p s s' u r
        (present c laws h p u.after u.chunks (
          omega (
            arith,
            ap length u.content,
            length-append (cleartext u.before) (cleartext u.after),
            u.clear_size,
          )))
        l

  -- The early return of `read` is taken at the end of the cleartext only.
  position-injective :
      (p q : ℕ) → p < u64_limit → q < u64_limit → encrypted_pos c p ≡ encrypted_pos c q → p ≡ q
  position-injective p q hp hq e =
      let same : ok p ≡ ok q =
        sym (get_cleartext_size-encrypted_pos c laws p hp)
        ∙ ap (get_cleartext_size c) e
        ∙ get_cleartext_size-encrypted_pos c laws q hq in
      cc

  at_end_of : (p : ℕ) (s : Os) → Ready c h text p s → s.pos ≡ length s.bytes → p ≡ length text
  at_end_of p s r e =
      position-injective p (length text) (omega (arith, length-text-lt c laws s r.holds, r.inside))
        (omega (arith, length-text-lt c laws s r.holds))
        (sym r.position ∙ e ∙ length-Holds c h laws r.holds)

  before_end_of : (p : ℕ) (s : Os) → Ready c h text p s → s.pos ≢ length s.bytes → p < length text
  before_end_of p s r ne = elim (dec_lt p (length text)) [
    | yes lt ↦ lt
    | no ge ↦
        let e : p ≡ length text = omega (arith, r.inside) in
        absurd (ne (r.position ∙ ap (encrypted_pos c) e ∙ sym (length-Holds c h laws r.holds)))
  ]

  -- Nothing is delivered without a buffer, or at the end of the cleartext.
  DidRead-nothing :
      (n p : ℕ) (s : Os) → Ready c h text p s → (n ≡ 0) ⊎ (p ≡ length text) → DidRead n p s s []
  DidRead-nothing n p s r e =
      let stay : p + 0 ≡ p = omega arith in
      record {
        delivered = sym (
            length-eq-zero (take (span n p) (drop p text))
              (omega (arith, length-take (span n p) (drop p text), length-drop p text)));
        ready = rw stay r;
        same = record {
          same_bytes = refl;
          same_lock = refl;
          same_writable = refl;
          same_entropy = refl;
        };
      }

  -- With a lawful cryptor, on a file that holds `text`, at position `p`, whose lock is free to read
  -- and whose reads do not fail, `read` with a buffer of `n` bytes succeeds. It delivers the bytes
  -- of `text` from `p` on, up to `n` and to the end of the chunk, stands behind them, and leaves
  -- the file's bytes, lock, write permission and entropy alone. Short reads and interruptions of
  -- the system do not show.
  pub read_file_lem :
      (n p : ℕ) (s : Os)
      → Ready c h text p s
      → try_read s ≡ (ok tt, s)
      → (t : Os) × (out : List ℕ) × (read_file c h n s ≡ (ok out, t)) × DidRead n p s t out
  unfolding read_file ciphertext_pos ciphertext_len
  read_file_lem n p s r granted = elim (Bool-cases (n == 0 || s.pos == length s.bytes)) [
    | inl early ↦
        (s, [], rw (granted, early), DidRead-nothing n p s r (ground (arith, at_end_of p s r)))
    | inr late ↦
        let (t, out, e, d) = read_chunk_lem n p s r (ground (arith, before_end_of p s r)) in
        (t, out, rw (granted, late) e, d)
  ]
