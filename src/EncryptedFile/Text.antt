-- ===== src/EncryptedFile/Text.antt =====
-- The abstract file: a byte string. Writing at a position inside it replaces the bytes there, and
-- makes it longer where the new bytes reach behind its end.
use native.Mathlib.Decide.{dec_lt}
use cryptomator_rs.Common.{
  ℕ, ◌+◌, ◌-◌, ◌≤◌, ◌≡◌, sym, ◌∙◌, ap, ◌⊎◌, inl, inr, max, min, List, [], ◌++◌, append_assoc,
  append-nil, length, take, drop, arith, length-append, length-take, length-drop, drop-drop,
  take-append-drop, take-append, take-append_le, take-append_ge, drop-append_le, drop-append_ge,
  drop_of_length-le, take_of_length-le, replicate, length-replicate,
}
use cryptomator_rs.EncryptedFile.Splice.{overwrite, at_end, within_last}

unfoldable pub splice : List ℕ → ℕ → List ℕ → List ℕ
splice text o new = take o text ++ (new ++ drop (o + length new) text)

pub length-splice :
    (text : List ℕ) (o : ℕ) (new : List ℕ)
    → o ≤ length text
    → length (splice text o new) ≡ max (length text) (o + length new)
unfolding splice
length-splice text o new le = omega (
  arith,
  length-append (take o text) (new ++ drop (o + length new) text),
  length-append new (drop (o + length new) text),
  length-take o text,
  length-drop (o + length new) text,
)

-- Behind a part that is not touched.
pub splice-append_left :
    (xs ys : List ℕ) (p o : ℕ) (new : List ℕ)
    → length xs + o ≡ p
    → splice (xs ++ ys) p new ≡ xs ++ splice ys o new
unfolding splice
splice-append_left xs ys p o new e =
    let q : p - length xs ≡ o = omega arith in
    let q' : p + length new - length xs ≡ o + length new = omega arith in
    rw
      (
        take-append_ge p xs ys (omega arith),
        q,
        drop-append_ge (p + length new) xs ys (omega arith),
        q',
      )
      (append_assoc xs (take o ys) (new ++ drop (o + length new) ys))

-- In front of a part that is not touched, or of nothing.
pub splice-append_right :
    (xs ys : List ℕ) (o : ℕ) (new : List ℕ)
    → o ≤ length xs
    → (o + length new ≤ length xs) ⊎ (ys ≡ [])
    → splice (xs ++ ys) o new ≡ splice xs o new ++ ys
unfolding splice
splice-append_right xs ys o new le (inl inside) = rw (
  take-append_le o xs ys le,
  drop-append_le (o + length new) xs ys inside,
  append_assoc (take o xs) (new ++ drop (o + length new) xs) ys,
  append_assoc new (drop (o + length new) xs) ys,
)
splice-append_right xs ys o new le (inr e) =
    rw (e, append-nil xs) (sym (append-nil (take o xs ++ (new ++ drop (o + length new) xs))))

-- The cleartexts that `write` builds are splices of the chunk's old cleartext.
pub overwrite_lem :
    (chunk : List ℕ) (o : ℕ) (buf : List ℕ)
    → let written = min (length buf) (length chunk - o) in
      overwrite chunk o buf ≡ (splice chunk o (take written buf), written)
unfolding overwrite splice
overwrite_lem chunk o buf =
    let written = min (length buf) (length chunk - o) in
    let q : length (take written buf) ≡ written = omega (arith, length-take written buf) in
    ap (λ k. (take o chunk ++ (take written buf ++ drop (o + k) chunk), written)) (sym q)

pub at_end_lem :
    (max_len : ℕ) (buf : List ℕ)
    → let written = min (length buf) max_len in
      at_end max_len buf ≡ (splice [] 0 (take written buf), written)
unfolding at_end splice
at_end_lem max_len buf =
    let new : List ℕ = take (min (length buf) max_len) buf in
    let same : new ≡ take 0 [] ++ (new ++ drop (0 + length new) []) = sym (
      ap (λ t. t ++ (new ++ drop (0 + length new) []))
        (take_of_length-le {A = ℕ} 0 [] (omega arith))
      ∙ ap (λ t. new ++ t) (drop_of_length-le {A = ℕ} (0 + length new) [] (omega arith))
      ∙ append-nil new) in
    let size : length new ≡ min (length buf) max_len =
      omega (arith, length-take (min (length buf) max_len) buf) in
    λ i. (same i, size i)

take-splice :
    (old zeros : List ℕ) (o : ℕ) (new : List ℕ)
    → o ≤ length old
    → take (max (length old) (o + length new)) (splice (old ++ zeros) o new) ≡ splice old o new
take-splice old zeros o new le = elim (dec_lt (length old) (o + length new)) [
  | yes longer ↦
      let front : length (take o old ++ new) ≡ o + length new =
        omega (arith, length-append (take o old) new, length-take o old) in
      let q : max (length old) (o + length new) ≡ o + length new = omega arith in
      rw q (
        unfold splice in
        (ap (λ t. take (o + length new) (t ++ (new ++ drop (o + length new) (old ++ zeros))))
            (take-append_le o old zeros le)
          ∙ ap (take (o + length new))
              (sym (append_assoc (take o old) new (drop (o + length new) (old ++ zeros))))
          ∙ take-append (o + length new) (take o old ++ new) (drop (o + length new) (old ++ zeros))
              front
          ∙ ap (λ t. take o old ++ t) (sym (append-nil new))
          ∙ ap (λ t. take o old ++ (new ++ t))
              (sym (drop_of_length-le (o + length new) old (omega arith)))))
  | no shorter ↦
      let q : max (length old) (o + length new) ≡ length old = omega arith in
      rw (q, splice-append_right old zeros o new le (inl (omega arith)))
        (take-append (length old) (splice old o new) zeros
          (omega (arith, length-splice old o new le)))
]

-- Within a last chunk that fits into `max_len` bytes, at an offset inside it, filling up by zeros,
-- overwriting and cutting off gives the chunk with the part of the buffer that fits below `max_len`
-- spliced in: none of the zeros stays.
pub within_last_lem :
    (max_len : ℕ) (old : List ℕ) (o : ℕ) (buf : List ℕ)
    → o ≤ length old
    → length old ≤ max_len
    → let written = min (length buf) (max_len - o) in
      within_last max_len old o buf ≡ (splice old o (take written buf), written)
unfolding within_last
within_last_lem max_len old o buf le fits =
    let zeros : List ℕ = replicate (max_len - length old) 0 in
    let padded : length (old ++ zeros) ≡ max_len =
      omega (arith, length-append old zeros, length-replicate {A = ℕ} (max_len - length old) 0) in
    let written : ℕ = min (length buf) (max_len - o) in
    let size : length (take written buf) ≡ written = omega (arith, length-take written buf) in
    rw (take_of_length-le max_len old fits) (
      ap (λ w. (take (max (length old) (o + w.1)) w.0, w.1)) (overwrite_lem (old ++ zeros) o buf)
      ∙ ap
          (λ m. (
            take (max (length old) (o + min (length buf) (m - o)))
                (splice (old ++ zeros) o (take (min (length buf) (m - o)) buf)),
            min (length buf) (m - o),
          ))
          padded
      ∙ ap (λ t. (t, written))
          (ap (λ k. take (max (length old) (o + k)) (splice (old ++ zeros) o (take written buf)))
              (sym size)
            ∙ take-splice old zeros o (take written buf) le))

-- Writing on behind a write is one write.
pub splice-splice :
    (text : List ℕ) (o : ℕ) (a b : List ℕ)
    → o ≤ length text
    → splice (splice text o a) (o + length a) b ≡ splice text o (a ++ b)
unfolding splice take
splice-splice text o a b le =
    let front : List ℕ = take o text ++ a in
    let rest : List ℕ = drop (o + length a) text in
    let q : o + length a + length b ≡ o + length (a ++ b) = omega (arith, length-append a b) in
    ap (λ t. splice t (o + length a) b) (sym (append_assoc (take o text) a rest))
    ∙ splice-append_left front rest (o + length a) 0 b
        (omega (arith, length-append (take o text) a, length-take o text))
    ∙ ap (λ t. front ++ (b ++ t)) (drop-drop (0 + length b) (o + length a) text)
    ∙ append_assoc (take o text) a (b ++ drop (o + length a + (0 + length b)) text)
    ∙ ap (λ t. take o text ++ t)
        (sym (append_assoc a b (drop (o + length a + (0 + length b)) text)))
    ∙ ap (λ k. take o text ++ ((a ++ b) ++ drop k text)) (omega (arith, q))

pub splice_nothing : (text : List ℕ) (o : ℕ) → splice text o [] ≡ text
unfolding splice
splice_nothing text o = ap (λ k. take o text ++ drop k text) (omega arith) ∙ take-append-drop o text
