-- ===== src/Translator/RoundTrip.antt =====
-- From a cleartext name to its ciphertext path and back, in src/fs/translator.rs.
use mathlib.Core.Path.{subst}
use cryptomator_rs.Common.{
  ◌≤◌, ◌==◌, ◌≡◌, refl, sym, ◌∙◌, ap, inl, inr, [], ◌∷◌, ◌++◌, length, true, false, Bool-cases, ltb,
  eq_bytes, some, ok, arith,
}
use cryptomator_rs.Disk.{World, ◌>>=◌, text_of, node_at}
use cryptomator_rs.FilePath.Extension.{split_name}
use cryptomator_rs.FilePath.{
  Name, FilePath, slash, dot_c9r, name_c9s, join, split_slash, keep_components, components,
}
use cryptomator_rs.Primitives.{Primitives, Laws, TextLaws, IsPlain, message_limit}
use cryptomator_rs.Translator.Naming.{get_full_ciphertext_name, final_name}
use cryptomator_rs.Translator.Shortening.{
  IsStem, ok-injective, Encrypted, encrypted, split_name-stem, file_name-stem, final_extension,
  stem_of_stem,
}
use cryptomator_rs.Translator.{cut_parts, without_extension, decrypt_text, get_cleartext_name}
use cryptomator_rs.Vault.{Vault, cryptor}

abbrev NoSlash : Name → Type 0
NoSlash [] = Unit {0}
NoSlash (b ∷ bytes) = ((b == slash) ≡ false) × NoSlash bytes

split_slash-NoSlash : (text : Name) → NoSlash text → split_slash text ≡ text ∷ []
unfolding split_slash
split_slash-NoSlash [] n = refl
split_slash-NoSlash (b ∷ text) n = rw (n.0, split_slash-NoSlash text n.1) refl

plain-NoSlash : (text behind : Name) → IsPlain text → NoSlash behind → NoSlash (text ++ behind)
plain-NoSlash [] behind plain n = n
plain-NoSlash (b ∷ text) behind plain n = (plain.1, plain-NoSlash text behind plain.2 n)

-- A text and an extension are one component.
split_slash-stem :
    (text : Name) → IsStem text → split_slash (text ++ dot_c9r) ≡ (text ++ dot_c9r) ∷ []
split_slash-stem text s =
    split_slash-NoSlash (text ++ dot_c9r)
      (plain-NoSlash text dot_c9r s.plain (refl, (refl, (refl, (refl, tt)))))

keep_components-stem :
    (text : Name) → IsStem text → keep_components ((text ++ dot_c9r) ∷ []) ≡ (text ++ dot_c9r) ∷ []
unfolding keep_components eq_bytes
keep_components-stem [] s = absurd (ground (arith, ap length s.shape))
keep_components-stem (b ∷ text) s = rw s.plain.0 refl

components-stem :
    (text : Name) → IsStem text → components (text ++ dot_c9r) ≡ (text ++ dot_c9r) ∷ []
unfolding components
components-stem text s = ap keep_components (split_slash-stem text s) ∙ keep_components-stem text s

cut_parts-stem : (text : Name) → IsStem text → cut_parts ((text ++ dot_c9r) ∷ []) ≡ some text
unfolding cut_parts split_name
cut_parts-stem text s =
    rw (cut_parts, keep_components-stem text s)
      (ap (λ parts. some parts.0)
        (split_name-stem text 99 (57 ∷ 114 ∷ []) s (refl, (refl, (refl, tt)))))

without_extension-stem : (text : Name) → IsStem text → without_extension (text ++ dot_c9r) ≡ text
unfolding without_extension
without_extension-stem text s =
    rw
      (
        without_extension,
        components-stem text s,
        file_name-stem text dot_c9r s [],
        split_slash-stem text s,
        cut_parts-stem text s,
      )
      refl

module _ (p : Primitives) (laws : Laws p) (texts : TextLaws p) (v : Vault) where
  -- The file "name.c9s" beside a shortened name holds the full name.
  abbrev pub IsStored : FilePath → Name → World → Type 0
  IsStored dir full w =
      ltb v.config.shortening_threshold (length full) ≡ true
      → text_of p (node_at (join (join dir (final_name p v full)) name_c9s) w) w ≡ ok full

  -- How a stem with a full or a shortened name comes back.
  abbrev ComesBack : FilePath → Name → Name → World → Name → Type 0
  ComesBack dir name dir_id w full =
      IsStored dir full w
      → get_cleartext_name p v (join dir (final_name p v full)) dir_id w
        ≡ (ok (p.to_string_lossy name), w)

  final_name-short :
      (full : Name)
      → ltb v.config.shortening_threshold (length full) ≡ false
      → final_name p v full ≡ full
  unfolding final_name
  final_name-short full short = rw short refl

  comes_back :
      (dir : FilePath) (name dir_id : Name) (w : World)
      → (e : Encrypted p laws texts (cryptor v) name dir_id)
      → ComesBack dir name dir_id w (e.text ++ dot_c9r)
  unfolding get_cleartext_name ◌>>=◌ decrypt_text eq_bytes
  comes_back dir name dir_id w e stored =
      let full : Name = e.text ++ dot_c9r in
      elim (Bool-cases (ltb v.config.shortening_threshold (length full))) [
        | inl long ↦
            rw
              (
                get_cleartext_name,
                final_extension p laws texts v dir e.text e.stem,
                long,
                stored long,
                without_extension-stem e.text e.stem,
                e.lossy,
                e.decrypts,
              )
              refl
        | inr short ↦
            rw
              (
                get_cleartext_name,
                final_extension p laws texts v dir e.text e.stem,
                short,
                final_name-short full short,
                stem_of_stem p laws texts v dir e.text 99 (57 ∷ 114 ∷ []) e.stem
                    (refl, (refl, (refl, tt))),
                e.lossy,
                e.decrypts,
              )
              refl
      ]

  -- With lawful primitives, for a name whose lossy form is within the message limit and whose full
  -- ciphertext name is `full`, in a directory whose disk has `full` in the file "name.c9s" if
  -- `full` is above the vault's threshold: `get_cleartext_name` on the path that the name has in
  -- this directory gives the lossy form of the name, and changes nothing.
  pub get_cleartext_name_lem :
      (dir : FilePath) (name dir_id full : Name) (w : World)
      → length (p.to_string_lossy name) ≤ message_limit
      → get_full_ciphertext_name p v name dir_id ≡ ok full
      → IsStored dir full w
      → get_cleartext_name p v (join dir (final_name p v full)) dir_id w
        ≡ (ok (p.to_string_lossy name), w)
  unfolding get_full_ciphertext_name
  get_cleartext_name_lem dir name dir_id full w small encrypts =
      let e : Encrypted p laws texts (cryptor v) name dir_id =
        encrypted p laws texts (cryptor v) name dir_id small in
      let here : get_full_ciphertext_name p v name dir_id ≡ ok (e.text ++ dot_c9r) =
        rw e.encrypts refl in
      subst (ComesBack dir name dir_id w)
        (ok-injective p laws texts (e.text ++ dot_c9r) full (sym here ∙ encrypts))
        (comes_back dir name dir_id w e)
