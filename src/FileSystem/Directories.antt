-- ===== src/FileSystem/Directories.antt =====
-- The directories of the vault, as the files "dir.c9r" spell them.
use cryptomator_rs.Common.{
  ℕ, ◌≡◌, refl, ◌∙◌, ap, [], some, ok, ◌<◌, length, or_fail, panic, >>=-eq-ok, arith, ◌≤◌, ◌∷◌,
  none, false, eq_bytes,
}
use cryptomator_rs.Disk.Growing.{Numbered, Grows}
use cryptomator_rs.Disk.Making.{>>=-ok, Clear}
use cryptomator_rs.Disk.{World, file, node_at, text_of, read_to_string, ◌>>=◌}
use cryptomator_rs.FilePath.{Name, FilePath, dotdot, dir_c9r, join, file_name, path_bytes}
use cryptomator_rs.FilePath.Equality.{length-join}
use cryptomator_rs.Primitives.{Primitives, message_limit}
use cryptomator_rs.Translator.DirIds.{get_dir_id-join}
use cryptomator_rs.Translator.Naming.{
  get_full_ciphertext_name, final_name, hashed_dir_path, get_ciphertext_path,
}
use cryptomator_rs.Translator.{dir_id_below, get_dir_id}
use cryptomator_rs.Vault.{Vault, cryptor}
use cryptomator_rs.Crypto.Cryptor.{hash_dir_id}

module _ (p : Primitives) (v : Vault) where
  -- The cleartext path is a directory with this id: the root has the empty id, and another one the
  -- text of the file "dir.c9r" in its ciphertext directory.
  pub data IsDirectory (w : World) : FilePath → Name → Type 0 where
    root : IsDirectory w [] []
    child :
        (parent whole : FilePath) (name id id' : Name) (ciphertext_path : FilePath)
        → IsDirectory w parent id
        → get_ciphertext_path p v (join parent name) id ≡ ok ciphertext_path
        → (n : ℕ) → node_at (join ciphertext_path dir_c9r) w ≡ some (file n)
        → p.from_utf8 (w.inodes n).bytes ≡ some id'
        → whole ≡ join parent name
        → IsDirectory w whole id'

  -- A ciphertext path is never the root.
  pub get_ciphertext_path-pos :
      (path : FilePath) (id : Name) (c : FilePath)
      → get_ciphertext_path p v path id ≡ ok c
      → 0 < length c
  unfolding get_ciphertext_path
  get_ciphertext_path-pos path id c e =
      let (name, _, e1) = >>=-eq-ok (or_fail (file_name path) panic) _ e in
      let (full, _, e2) = >>=-eq-ok (get_full_ciphertext_name p v name id) _ e1 in
      let (hashed, _, e3) = >>=-eq-ok (hashed_dir_path p v id) _ e2 in
      let same : join hashed (final_name p v full) ≡ c = cc in
      omega (arith, ap length same, length-join hashed (final_name p v full))

  dir_id_below_lem :
      (path : FilePath) (id id' : Name) (ciphertext_path : FilePath) (n : ℕ) (w : World)
      → get_ciphertext_path p v path id ≡ ok ciphertext_path
      → node_at (join ciphertext_path dir_c9r) w ≡ some (file n)
      → p.from_utf8 (w.inodes n).bytes ≡ some id'
      → dir_id_below p v path id w ≡ (ok id', w)
  unfolding dir_id_below ◌>>=◌
  dir_id_below_lem path id id' ciphertext_path n w e there text =
      rw (e, there, read_to_string, there, text_of, text) refl

  -- `get_dir_id` finds the id.
  pub get_dir_id-IsDirectory :
      (w : World) {path : FilePath} {id : Name}
      → IsDirectory w path id
      → get_dir_id p v path w ≡ (ok id, w)
  unfolding get_dir_id
  get_dir_id-IsDirectory w root = refl
  get_dir_id-IsDirectory w (child up whole name old id c s e n there text q) =
      ap (λ x. get_dir_id p v x w) q
      ∙ get_dir_id-join p v up name w
      ∙ >>=-ok (get_dir_id p v up) (λ x. dir_id_below p v (join up name) x) w w old
          (get_dir_id-IsDirectory w s)
      ∙ dir_id_below_lem (join up name) old id c n w e there text

  -- It stays a directory with this id when the disk grows.
  pub IsDirectory-Grows :
      (w w' : World) {path : FilePath} {id : Name}
      → Numbered w
      → Grows w w'
      → IsDirectory w path id
      → IsDirectory w' path id
  IsDirectory-Grows w w' numbers g root = root
  IsDirectory-Grows w w' numbers g (child up whole name old id c s e n there text q) =
      child up whole name old id c (IsDirectory-Grows w w' numbers g s) e n
        (g.kept (join c dir_c9r) (file n) there)
        (ap p.from_utf8 (g.same_bytes n (numbers (join c dir_c9r) n there)) ∙ text) q

  -- In the directory `up` with this id the name is free: nothing stands at or directly below its
  -- ciphertext path, and no file on the way to it. The name is one, and short enough to encrypt, as
  -- is its whole path.
  pub record IsFree (w : World) (up : FilePath) (name id a b : Name) (c : FilePath) : Type 0 where
    pub above : IsDirectory w up id
    pub plain : eq_bytes name dotdot ≡ false
    pub small : length (p.to_string_lossy name) ≤ message_limit
    pub small_path : length (p.to_string_lossy (path_bytes (join up name))) ≤ message_limit
    pub hash : hash_dir_id p (cryptor v) id ≡ ok (a ∷ b ∷ [])
    pub at : get_ciphertext_path p v (join up name) id ≡ ok c
    pub numbers : Numbered w
    pub clear : Clear c w
    pub nothing : node_at c w ≡ none
    pub empty : (name : Name) → node_at (join c name) w ≡ none
