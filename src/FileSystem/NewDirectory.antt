-- ===== src/FileSystem/NewDirectory.antt =====
-- `mkdir` of src/fs.rs, and the lookup behind it.
use cryptomator_rs.Common.{
  ℕ, ◌≤◌, ◌≡◌, refl, ◌∙◌, ap, List, [], ◌∷◌, ◌++◌, length, take, some, Option, true, false,
  eq_bytes, if◌then◌else◌, ok, arith, length-append,
}
use cryptomator_rs.Crypto.Cryptor.{hash_dir_id}
use cryptomator_rs.Disk.Growing.{Numbered, Grows, Grows-trans}
use cryptomator_rs.Disk.Making.{>>=-ok, is_dir_node-eq, parent_of-join, Clear}
use cryptomator_rs.Disk.{
  World, Node, file, directory, node_at, is_file_node, is_dir_node, ◌>>=◌, ◌>>◌, return, write,
  create_dir_all, random_bytes, set_permissions,
}
use cryptomator_rs.FileSystem.Directories.{
  IsDirectory, child, get_dir_id-IsDirectory, IsDirectory-Grows, IsFree,
}
use cryptomator_rs.FileSystem.Making.{mkdir, write_full_name}
use cryptomator_rs.FileSystem.MakingDirs.{
  place_lem, Built, Built-trans, Built-Clear, named_lem, hashed_dir_lem, dir_file_lem,
}
use cryptomator_rs.FileSystem.{
  DirEntry, FileKind, directory_path, directory_entry, entry_at, ciphertext_path_of, dir_entry,
}
use cryptomator_rs.FilePath.Equality.{eq_path-join, length-join}
use cryptomator_rs.FilePath.{Name, FilePath, d, dir_c9r, name_c9s, contents_c9r, c9s, join, parent}
use cryptomator_rs.Primitives.{Primitives, Laws, TextLaws}
use cryptomator_rs.Translator.{get_dir_id}
use cryptomator_rs.Translator.Naming.{get_ciphertext_path, extension_text, hashed_dir_path}
use cryptomator_rs.Vault.{Vault, cryptor}

pub parent-join : (path : FilePath) (name : Name) → parent (join path name) ≡ some path
unfolding parent
parent-join [] name = ap some (parent_of-join [] name)
parent-join (x ∷ path) name = ap some (parent_of-join (x ∷ path) name)

pub is_dir→not_file : (o : Option Node) → is_dir_node o ≡ true → is_file_node o ≡ false
is_dir→not_file o is = let (n, e) = is_dir_node-eq o is in ap is_file_node e

module _ (p : Primitives) (v : Vault) where
  entry_at-directory :
      (path c dir : FilePath) (id : Name) (w : World)
      → is_dir_node (node_at c w) ≡ true
      → is_file_node (node_at (join c contents_c9r) w) ≡ false
      → is_file_node (node_at (join c dir_c9r) w) ≡ true
      → get_dir_id p v path w ≡ (ok id, w)
      → directory_path p v id ≡ ok dir
      → entry_at p v path c w ≡ directory_entry p v dir w
  unfolding entry_at ◌>>=◌
  entry_at-directory path c dir id w is no_contents has e found =
      rw (is_dir→not_file (node_at c w) is, is, no_contents, has, e, found) refl

  -- A lookup of a directory's path.
  pub dir_entry-directory :
      (up : FilePath) (name : Name) (id id' : Name) (c dir : FilePath) (w : World)
      → IsDirectory p v w up id
      → get_ciphertext_path p v (join up name) id ≡ ok c
      → is_dir_node (node_at c w) ≡ true
      → is_file_node (node_at (join c contents_c9r) w) ≡ false
      → is_file_node (node_at (join c dir_c9r) w) ≡ true
      → IsDirectory p v w (join up name) id'
      → directory_path p v id' ≡ ok dir
      → dir_entry p v (join up name) w ≡ directory_entry p v dir w
  unfolding dir_entry ciphertext_path_of ◌>>=◌
  dir_entry-directory up name id id' c dir w above at is no_contents has here found =
      rw (parent-join up name, get_dir_id-IsDirectory p v w above, at)
        (entry_at-directory (join up name) c dir id' w is no_contents has
          (get_dir_id-IsDirectory p v w here) found)

module _ (p : Primitives) (laws : Laws p) (texts : TextLaws p) (v : Vault)
    (uuid : List ℕ → Name) where
  -- The steps of `mkdir`, one after the other.
  mkdir_steps :
      (up : FilePath) (name id r ext : Name) (c dir : FilePath) (permissions : ℕ) (entry : DirEntry)
      (w w1 w2 w3 w4 w5 : World)
      → get_dir_id p v up w ≡ (ok id, w)
      → get_ciphertext_path p v (join up name) id ≡ ok c
      → create_dir_all c w ≡ (ok tt, w1)
      → random_bytes 16 w1 ≡ (ok r, w2)
      → write (join c dir_c9r) (uuid r) w2 ≡ (ok tt, w3)
      → extension_text p v c ≡ ok ext
      → (if eq_bytes ext c9s then write_full_name p v (join up name) c id else return tt) w3
        ≡ (ok tt, w4)
      → directory_path p v (uuid r) ≡ ok dir
      → (do create_dir_all dir; set_permissions dir permissions; directory_entry p v dir) w4
        ≡ (ok entry, w5)
      → mkdir p v uuid up name permissions w ≡ (ok entry, w5)
  unfolding mkdir
  mkdir_steps up name id r ext c dir permissions entry w w1 w2 w3 w4 w5 above at made drawn written
        ends named hashed rest =
      >>=-ok _ _ w w id above
      ∙ >>=-ok _ _ w w c (ap (λ r. (r, w)) at)
      ∙ >>=-ok _ _ w w1 tt made
      ∙ >>=-ok _ _ w1 w2 r drawn
      ∙ >>=-ok _ _ w2 w3 tt written
      ∙ >>=-ok _ _ w3 w3 ext (ap (λ r. (r, w3)) ends)
      ∙ >>=-ok _ _ w3 w4 tt named
      ∙ >>=-ok _ _ w4 w4 dir (ap (λ r. (r, w4)) hashed)
      ∙ rest

  directory_path_lem :
      (id a b : Name)
      → hash_dir_id p (cryptor v) id ≡ ok (a ∷ b ∷ [])
      → directory_path p v id ≡ ok (v.path ++ (d ∷ a ∷ b ∷ []))
  unfolding hashed_dir_path
  directory_path_lem id a b e = rw e refl

  -- The directories of two hashes are as deep, and not deeper than what is in one of them.
  hashed_not_longer :
      (a b a' b' last : Name) {c : FilePath}
      → join (v.path ++ (d ∷ a ∷ b ∷ [])) last ≡ c
      → length (v.path ++ (d ∷ a' ∷ b' ∷ [])) ≤ length c
  hashed_not_longer a b a' b' last is_c = omega (
    arith,
    ap length is_c,
    length-join (v.path ++ (d ∷ a ∷ b ∷ [])) last,
    length-append {0} v.path (d ∷ a ∷ b ∷ []),
    length-append {0} v.path (d ∷ a' ∷ b' ∷ []),
  )

  -- With lawful primitives, in a directory `up` (the root, or one whose chain of "dir.c9r" files is
  -- there) in which the name is free, that is: it is not "..", it and its whole path are within the
  -- message limit, nothing is at or directly below its ciphertext path `c` and no file is on the
  -- way to it, and every number of a file has been given out, with 16 bytes of entropy, whose UUID
  -- is a text with a hash, and with no file on the way to the directory of this hash: `mkdir`
  -- succeeds with an entry that is a directory, `dir_entry` of the new path gives this entry and
  -- changes nothing, the new path is a directory whose id is the UUID, every file and directory
  -- that was there still is, with its bytes, and the numbers of files stay given out.
  pub mkdir_lem :
      (up : FilePath) (name id a b a' b' : Name) (c : FilePath) (permissions : ℕ) (w : World)
      → IsFree p v w up name id a b c
      → 16 ≤ length w.entropy
      → p.from_utf8 (uuid (take 16 w.entropy)) ≡ some (uuid (take 16 w.entropy))
      → hash_dir_id p (cryptor v) (uuid (take 16 w.entropy)) ≡ ok (a' ∷ b' ∷ [])
      → Clear (v.path ++ (d ∷ a' ∷ b' ∷ [])) w
      → (entry : DirEntry) × (w' : World) × (mkdir p v uuid up name permissions w ≡ (ok entry, w'))
        × (entry.kind ≡ FileKind.directory)
        × (dir_entry p v (join up name) w' ≡ (ok entry, w'))
        × IsDirectory p v w' (join up name) (uuid (take 16 w.entropy))
        × Grows w w'
        × Numbered w'
  unfolding eq_bytes
  mkdir_lem up name id a b a' b' c permissions w free room text hash' clear' =
      let uid : Name = uuid (take 16 w.entropy) in
      let dir : FilePath = v.path ++ (d ∷ a' ∷ b' ∷ []) in
      let (last, ext, is_c, ends) =
        place_lem p laws texts v up name id a b c free.plain free.small free.hash free.at in
      let short : length dir ≤ length c = hashed_not_longer a b a' b' last is_c in
      let (w1, w2, w3, f) = dir_file_lem c uid w free.clear (free.empty dir_c9r) room in
      let (w4, named, b4) =
        named_lem p laws texts v (eq_bytes ext c9s) (join up name) c id w3 free.small_path
          (f.unnamed (free.empty name_c9s)) f.there in
      let bw4 : Built c w w4 = Built-trans c w w3 w4 f.built b4 in
      let (entry, w5, made, found, kind, b5) =
        hashed_dir_lem p laws texts v c dir permissions w4
          (Built-Clear c w w4 dir bw4 short clear') in
      let bw : Built c w w5 = Built-trans c w w4 w5 bw4 b5 in
      let (n, there, bytes, given) = f.holds in
      let g35 : Grows w3 w5 = Grows-trans w3 w4 w5 b4.grows b5.grows in
      let has : node_at (join c dir_c9r) w5 ≡ some (file n) =
        g35.kept (join c dir_c9r) (file n) there in
      let above5 : IsDirectory p v w5 up id =
        IsDirectory-Grows p v w w5 free.numbers bw.grows free.above in
      let here : IsDirectory p v w5 (join up name) uid =
        child up (join up name) name id uid c above5 free.at n has
          (ap p.from_utf8 (g35.same_bytes n given ∙ bytes) ∙ text) refl in
      let (k, at_c) = is_dir_node-eq (node_at c w3) f.there in
      (
        entry,
        w5,
        mkdir_steps up name id (take 16 w.entropy) ext c dir permissions entry w w1 w2 w3 w4 w5
            (get_dir_id-IsDirectory p v w free.above) free.at f.made f.drawn f.written ends named
            (directory_path_lem uid a' b' hash') made,
        kind,
        dir_entry-directory p v up name id uid c dir w5 above5 free.at
              (ap is_dir_node (g35.kept c (directory k) at_c))
              (bw.no_file (join c contents_c9r) (eq_path-join c contents_c9r dir_c9r refl)
                (eq_path-join c contents_c9r name_c9s refl)
                (ap is_file_node (free.empty contents_c9r)))
              (ap is_file_node has) here (directory_path_lem uid a' b' hash')
            ∙ found,
        here,
        bw.grows,
        bw.grows.numbered free.numbers,
      )
