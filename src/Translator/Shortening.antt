-- ===== src/Translator/Shortening.antt =====
-- Ciphertext names, full and shortened, in src/fs/translator.rs.
use cryptomator_rs.Common.{
  ℕ, ◌≤◌, ◌<◌, ◌≡◌, refl, sym, ◌∙◌, ap, inl, inr, List, [], ◌∷◌, ◌++◌, length, some, Bool-cases,
  ltb, if◌then◌else◌, eq_bytes, ok, arith,
}
use cryptomator_rs.Crypto.Cryptor.{
  Cryptor, siv_ctr_mac, siv_gcm, encrypt_name, decrypt_name, hash_dir_id,
}
use cryptomator_rs.Crypto.Names.{
  siv_key, siv_encrypt, name_to_ciphertext, name_to_cleartext, name_to_cleartext-name_to_ciphertext,
}
use cryptomator_rs.Crypto.SivCtrMac
use cryptomator_rs.Crypto.SivGcm
use cryptomator_rs.Key.{MasterKey}
use cryptomator_rs.FilePath.Extension.{NoDot, split_name, split_name_lem}
use cryptomator_rs.FilePath.{Name, FilePath, dot, c9r, c9s, dot_c9r, d, join, file_name}
use cryptomator_rs.Primitives.{Primitives, Laws, TextLaws, IsPlain, message_limit}
use cryptomator_rs.Translator.Naming.{
  path_extension, path_stem, get_full_ciphertext_name, final_name, hashed_dir_path,
  get_ciphertext_path, extension_text,
}
use cryptomator_rs.Vault.{Vault, cryptor}

-- A text that a name can begin with: some bytes, none of them '.' or '/'.
pub record IsStem (text : Name) : Type 0 where
  pub first : ℕ
  pub others : Name
  pub shape : text ≡ first ∷ others
  pub plain : IsPlain text

IsStem-of_IsPlain : (text : Name) → IsPlain text → 0 < length text → IsStem text
IsStem-of_IsPlain [] plain given = absurd (omega arith)
IsStem-of_IsPlain (x ∷ xs) plain given = record {
  first = x;
  others = xs;
  shape = refl;
  plain = plain;
}

-- The stem and the extension of a name in two parts.
pub split_name-stem :
    (text : Name) (x : ℕ) (behind : Name)
    → IsStem text
    → NoDot (x ∷ behind)
    → split_name (text ++ (dot ∷ x ∷ behind)) ≡ (text, some (x ∷ behind))
split_name-stem [] x behind s n = absurd (ground (arith, ap length s.shape))
split_name-stem (b ∷ text) x behind s n = split_name_lem b text x behind s.plain.0 n

pub file_name-stem :
    (text behind : Name)
    → IsStem text
    → (path : FilePath) → file_name (join path (text ++ behind)) ≡ some (text ++ behind)
unfolding file_name eq_bytes
file_name-stem [] behind s path = absurd (ground (arith, ap length s.shape))
file_name-stem (b ∷ text) behind s [] = rw s.plain.0 refl
file_name-stem (b ∷ text) behind s (x ∷ []) = rw s.plain.0 refl
file_name-stem (b ∷ text) behind s (x ∷ y ∷ path) = file_name-stem (b ∷ text) behind s (y ∷ path)

module _ (p : Primitives) (laws : Laws p) (texts : TextLaws p) where
  -- A name within the limit encrypts to a text that decrypts, in the same directory.
  pub record Encrypted (c : Cryptor) (name dir_id : Name) : Type 0 where
    pub text : Name
    pub encrypts : encrypt_name p c name dir_id ≡ ok text
    pub decrypts : decrypt_name p c text dir_id ≡ ok (p.to_string_lossy name)
    pub stem : IsStem text
    pub lossy : p.to_string_lossy text ≡ text

  pub ok-injective : {A : Type 0} (a b : A) → ok a ≡ ok b → a ≡ b
  ok-injective a b e = cc

  sealed_name :
      (k : MasterKey) (name dir_id : Name)
      → length (p.to_string_lossy name) ≤ message_limit
      → (sealed : List ℕ) × (name_to_ciphertext p k name dir_id ≡ ok (p.base64_url_encode sealed))
        × (name_to_cleartext p k (p.base64_url_encode sealed) dir_id ≡ ok (p.to_string_lossy name))
        × (0 < length sealed)
  unfolding name_to_ciphertext siv_encrypt
  sealed_name k name dir_id small =
      let (text, e, back) = name_to_cleartext-name_to_ciphertext p k laws name dir_id small in
      let (sealed, seals) =
        laws.siv_seals (siv_key p k) (dir_id ∷ []) (p.to_string_lossy name) small in
      let here : name_to_ciphertext p k name dir_id ≡ ok (p.base64_url_encode sealed) =
        rw seals refl in
      (
        sealed,
        here,
        ap (λ t. name_to_cleartext p k t dir_id)
              (ok-injective (p.base64_url_encode sealed) text (sym here ∙ e))
            ∙ back,
        omega (arith, texts.siv_length (siv_key p k) (dir_id ∷ []) (p.to_string_lossy name) seals),
      )

  pub encrypted :
      (c : Cryptor) (name dir_id : Name)
      → length (p.to_string_lossy name) ≤ message_limit
      → Encrypted c name dir_id
  unfolding encrypt_name decrypt_name SivGcm.encrypt_name SivGcm.decrypt_name SivCtrMac.encrypt_name
      SivCtrMac.decrypt_name
  encrypted (siv_gcm k) name dir_id small =
      let (sealed, e, back, given) = sealed_name k name dir_id small in
      record {
        text = p.base64_url_encode sealed;
        encrypts = e;
        decrypts = back;
        stem = IsStem-of_IsPlain _ (texts.encoded_plain sealed) (texts.encoded_length sealed given);
        lossy = texts.encoded_lossy sealed;
      }
  encrypted (siv_ctr_mac k) name dir_id small =
      let (sealed, e, back, given) = sealed_name k name dir_id small in
      record {
        text = p.base64_url_encode sealed;
        encrypts = e;
        decrypts = back;
        stem = IsStem-of_IsPlain _ (texts.encoded_plain sealed) (texts.encoded_length sealed given);
        lossy = texts.encoded_lossy sealed;
      }

  module _ (v : Vault) where
    -- The extension that the length of the full name decides.
    abbrev pub expected_extension : Name → Name
    expected_extension full = if ltb v.config.shortening_threshold (length full) then c9s else c9r

    pub hash_IsStem : (b : Name) → IsStem (p.base64_url_encode (p.sha1 b))
    hash_IsStem b =
        IsStem-of_IsPlain _ (texts.encoded_plain (p.sha1 b))
          (texts.encoded_length (p.sha1 b) (omega (arith, texts.sha1_length b)))

    extension_of_stem :
        (path : FilePath) (text : Name) (x : ℕ) (behind : Name)
        → IsStem text
        → NoDot (x ∷ behind)
        → path_extension (join path (text ++ (dot ∷ x ∷ behind))) ≡ some (x ∷ behind)
    extension_of_stem path text x behind s n =
        rw (file_name-stem text (dot ∷ x ∷ behind) s path)
          (ap (λ parts. parts.1) (split_name-stem text x behind s n))

    pub stem_of_stem :
        (path : FilePath) (text : Name) (x : ℕ) (behind : Name)
        → IsStem text
        → NoDot (x ∷ behind)
        → path_stem (join path (text ++ (dot ∷ x ∷ behind))) ≡ text
    stem_of_stem path text x behind s n =
        rw (file_name-stem text (dot ∷ x ∷ behind) s path)
          (ap (λ parts. parts.0) (split_name-stem text x behind s n))

    pub final_extension :
        (path : FilePath) (text : Name)
        → IsStem text
        → path_extension (join path (final_name p v (text ++ dot_c9r)))
          ≡ some (expected_extension (text ++ dot_c9r))
    unfolding final_name
    final_extension path text s =
        elim (Bool-cases (ltb v.config.shortening_threshold (length (text ++ dot_c9r)))) [
          | inl long ↦
              rw (final_name, long)
                (extension_of_stem path (p.base64_url_encode (p.sha1 (text ++ dot_c9r))) 99
                  (57 ∷ 115 ∷ []) (hash_IsStem (text ++ dot_c9r)) (refl, (refl, (refl, tt))))
          | inr short ↦
              rw (final_name, short)
                (extension_of_stem path text 99 (57 ∷ 114 ∷ []) s (refl, (refl, (refl, tt))))
        ]

    -- With lawful primitives, for a path with a file name whose lossy form is within the message
    -- limit, and an id whose hash is `hashed`: the full ciphertext name exists,
    -- `get_ciphertext_path` gives the vault's path, "d", `hashed` and the final name, and the
    -- extension of the result is a text, which is "c9s" if the full name is above the vault's
    -- threshold and "c9r" otherwise.
    pub get_ciphertext_path_lem :
        (path : FilePath) (name dir_id : Name) (hashed : List Name)
        → file_name path ≡ some name
        → length (p.to_string_lossy name) ≤ message_limit
        → hash_dir_id p (cryptor v) dir_id ≡ ok hashed
        → (full : Name) × (get_full_ciphertext_name p v name dir_id ≡ ok full)
          × (get_ciphertext_path p v path dir_id
              ≡ ok (join (v.path ++ (d ∷ hashed)) (final_name p v full)))
          × (extension_text p v (join (v.path ++ (d ∷ hashed)) (final_name p v full))
              ≡ ok (expected_extension full))
    unfolding get_full_ciphertext_name get_ciphertext_path hashed_dir_path extension_text
    get_ciphertext_path_lem path name dir_id hashed named small hash =
        let e : Encrypted (cryptor v) name dir_id = encrypted (cryptor v) name dir_id small in
        (
          e.text ++ dot_c9r,
          rw e.encrypts refl,
          rw (named, e.encrypts, hash) refl,
          rw (final_extension (v.path ++ (d ∷ hashed)) e.text e.stem)
              (elim (Bool-cases (ltb v.config.shortening_threshold (length (e.text ++ dot_c9r)))) [
                | inl long ↦
                    rw (long, texts.ascii_utf8 c9s (omega arith, (omega arith, (omega arith, tt))))
                      refl
                | inr short ↦
                    rw (short, texts.ascii_utf8 c9r (omega arith, (omega arith, (omega arith, tt))))
                      refl
              ]),
        )
