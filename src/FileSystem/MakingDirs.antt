-- ===== src/FileSystem/MakingDirs.antt =====
-- What `mkdir` of src/fs.rs makes.
use cryptomator_rs.Common.{
  ℕ, ◌≤◌, ◌<◌, ◌≡◌, refl, sym, ◌∙◌, ap, List, [], ◌∷◌, ◌++◌, length, take, drop, none, some, Bool,
  true, false, if◌then◌else◌, eq_bytes, ok, arith,
}
use cryptomator_rs.Crypto.Cryptor.{hash_dir_id}
use cryptomator_rs.Disk.Growing.{Grows, Grows-self, Grows-trans, same-Grows, node_at-same}
use cryptomator_rs.Disk.Making.{
  >>=-ok, is_dir_node-eq, parent_of-join, Clear, ClearFrom-NoNewFile, MadeDirs, create_dir_all_lem,
  MadeFile, write_lem, set_permissions_lem, random_bytes_lem,
}
use cryptomator_rs.Disk.{
  World, file, node_at, is_file_node, is_dir_node, number_of, create_dir_all, write, random_bytes,
  set_permissions, return, ◌>>=◌, ◌>>◌, Metadata, metadata_of,
}
use cryptomator_rs.FileSystem.Making.{write_full_name}
use cryptomator_rs.FileSystem.{DirEntry, FileKind, directory_entry}
use cryptomator_rs.FilePath.Equality.{eq_path-length, eq_path-join, length-join}
use cryptomator_rs.FilePath.{
  Name, FilePath, d, dotdot, dir_c9r, name_c9s, dot_c9r, join, file_name, eq_path, path_bytes,
}
use cryptomator_rs.Primitives.{Primitives, Laws, TextLaws, message_limit}
use cryptomator_rs.Translator.Naming.{
  get_full_ciphertext_name, get_ciphertext_path, extension_text, final_name,
}
use cryptomator_rs.Translator.Shortening.{
  encrypted, get_ciphertext_path_lem, expected_extension, ok-injective,
}
use cryptomator_rs.Vault.{Vault, cryptor}

pub file_name-join :
    (path : FilePath) (name : Name)
    → eq_bytes name dotdot ≡ false
    → file_name (join path name) ≡ some name
unfolding file_name
file_name-join [] name h = rw h refl
file_name-join (x ∷ []) name h = rw h refl
file_name-join (x ∷ y ∷ path) name h = file_name-join (y ∷ path) name h

-- The disk has grown, by directories and perhaps by the files "dir.c9r" and "name.c9s" below the
-- path.
pub record Built (path : FilePath) (w w' : World) : Type 0 where
  pub grows : Grows w w'
  pub no_file :
      (q : FilePath)
      → eq_path q (join path dir_c9r) ≡ false
      → eq_path q (join path name_c9s) ≡ false
      → is_file_node (node_at q w) ≡ false
      → is_file_node (node_at q w') ≡ false

module _ (path : FilePath) where
  pub Built-trans : (w w' w'' : World) → Built path w w' → Built path w' w'' → Built path w w''
  Built-trans w w' w'' b b' = record {
    grows = Grows-trans w w' w'' b.grows b'.grows;
    no_file = λ q x y e. b'.no_file q x y (b.no_file q x y e);
  }

  MadeDirs-Built : (bound : ℕ) (w w' : World) → MadeDirs bound w w' → Built path w w'
  MadeDirs-Built bound w w' m = record { grows = m.grows; no_file = λ q x y e. m.no_file q e }

  dir-Built :
      (new : List ℕ) (w w' : World) → MadeFile (join path dir_c9r) new w w' → Built path w w'
  dir-Built new w w' m = record {
    grows = m.grows;
    no_file = λ q x y e. ap is_file_node (m.elsewhere q x) ∙ e;
  }

  name-Built :
      (new : List ℕ) (w w' : World) → MadeFile (join path name_c9s) new w w' → Built path w w'
  name-Built new w w' m = record {
    grows = m.grows;
    no_file = λ q x y e. ap is_file_node (m.elsewhere q y) ∙ e;
  }

  -- What is not longer than the path is neither file.
  pub Built-Clear :
      (w w' : World) (q : FilePath)
      → Built path w w'
      → length q ≤ length path
      → Clear q w
      → Clear q w'
  Built-Clear w w' q b le clear =
      ClearFrom-NoNewFile (length path) w w' [] q (omega arith)
        (λ x short e.
          b.no_file x (eq_path-length x _ (omega (arith, length-join path dir_c9r)))
            (eq_path-length x _ (omega (arith, length-join path name_c9s))) e)
        clear

module _ (p : Primitives) (laws : Laws p) (texts : TextLaws p) (v : Vault) where
  -- Where the ciphertext of a name is, and the text of its extension.
  pub place_lem :
      (up : FilePath) (name id a b : Name) (c : FilePath)
      → eq_bytes name dotdot ≡ false
      → length (p.to_string_lossy name) ≤ message_limit
      → hash_dir_id p (cryptor v) id ≡ ok (a ∷ b ∷ [])
      → get_ciphertext_path p v (join up name) id ≡ ok c
      → (last : Name) × (ext : Name) × (join (v.path ++ (d ∷ a ∷ b ∷ [])) last ≡ c)
        × (extension_text p v c ≡ ok ext)
  place_lem up name id a b c plain small hash at =
      let (full, _, is_at, extension) =
        get_ciphertext_path_lem p laws texts v (join up name) name id (a ∷ b ∷ [])
          (file_name-join up name plain) small hash in
      let is_c : join (v.path ++ (d ∷ a ∷ b ∷ [])) (final_name p v full) ≡ c =
        ok-injective p laws texts _ c (sym is_at ∙ at) in
      (
        final_name p v full,
        expected_extension p laws texts v full,
        is_c,
        ap (extension_text p v) (sym is_c) ∙ extension,
      )

  -- The full name is written beside, where no file of its name is yet.
  pub write_full_name_lem :
      (cleartext_path path : FilePath) (id : Name) (w : World)
      → length (p.to_string_lossy (path_bytes cleartext_path)) ≤ message_limit
      → node_at (join path name_c9s) w ≡ none
      → is_dir_node (node_at path w) ≡ true
      → (new : Name) × (w' : World) × (write_full_name p v cleartext_path path id w ≡ (ok tt, w'))
        × MadeFile (join path name_c9s) new w w'
  unfolding write_full_name get_full_ciphertext_name
  write_full_name_lem cleartext_path path id w small empty in_dir =
      let e = encrypted p laws texts (cryptor v) (path_bytes cleartext_path) id small in
      let full : get_full_ciphertext_name p v (path_bytes cleartext_path) id
          ≡ ok (e.text ++ dot_c9r) =
        rw e.encrypts refl in
      let (w', done, made) =
        write_lem (join path name_c9s) (e.text ++ dot_c9r) w
          (omega (arith, length-join path name_c9s)) empty
          (ap (λ x. is_dir_node (node_at x w)) (parent_of-join path name_c9s) ∙ in_dir) in
      (
        e.text ++ dot_c9r,
        w',
        >>=-ok _ _ w w (e.text ++ dot_c9r) (ap (λ r. (r, w)) full) ∙ done,
        made,
      )

  -- The full name is written where the name is a shortened one.
  pub named_lem :
      (short : Bool) (cleartext_path path : FilePath) (id : Name) (w : World)
      → length (p.to_string_lossy (path_bytes cleartext_path)) ≤ message_limit
      → node_at (join path name_c9s) w ≡ none
      → is_dir_node (node_at path w) ≡ true
      → (w' : World) × ((if short then write_full_name p v cleartext_path path id else return tt) w
          ≡ (ok tt, w'))
        × Built path w w'
  named_lem true cleartext_path path id w small empty in_dir =
      let (new, w', done, made) = write_full_name_lem cleartext_path path id w small empty in_dir in
      (w', done, name-Built path new w w' made)
  named_lem false cleartext_path path id w small empty in_dir =
      (w, refl, record { grows = Grows-self w; no_file = λ q x y e. e })

  directory_entry_lem :
      (dir : FilePath) (w : World)
      → is_dir_node (node_at dir w) ≡ true
      → (entry : DirEntry) × (directory_entry p v dir w ≡ (ok entry, w))
        × (entry.kind ≡ FileKind.directory)
  unfolding ◌>>=◌
  directory_entry_lem dir w is =
      let (n, e) = is_dir_node-eq (node_at dir w) is in
      let meta : Metadata = record { len = w.dir_len dir; attr = (w.inodes n).attr } in
      (
        record { kind = FileKind.directory; size = meta.len; metadata = meta },
        rw (e, metadata_of) refl,
        refl,
      )

  -- The directory of an id is made, and gets its permissions.
  pub hashed_dir_lem :
      (path dir : FilePath) (permissions : ℕ) (w : World)
      → Clear dir w
      → (entry : DirEntry) × (w' : World) × ((do
        create_dir_all dir
        set_permissions dir permissions
        directory_entry p v dir)
            w
          ≡ (ok entry, w'))
        × (directory_entry p v dir w' ≡ (ok entry, w'))
        × (entry.kind ≡ FileKind.directory)
        × Built path w w'
  hashed_dir_lem path dir permissions w clear =
      let (w1, made, m, is) = create_dir_all_lem dir w clear in
      let (n, e) = is_dir_node-eq (node_at dir w1) is in
      let (w2, changed, g, same, _) = set_permissions_lem dir permissions n w1 (ap number_of e) in
      let (entry, found, kind) =
        directory_entry_lem dir w2 (ap is_dir_node (node_at-same dir w1 w2 same) ∙ is) in
      (
        entry,
        w2,
        >>=-ok _ _ w w1 tt made ∙ >>=-ok _ _ w1 w2 tt changed ∙ found,
        found,
        kind,
        record {
          grows = Grows-trans w w1 w2 m.grows g;
          no_file = λ q x y none_there.
              ap is_file_node (node_at-same q w1 w2 same) ∙ m.no_file q none_there;
        },
      )

-- The ciphertext directory of a new directory, up to its file "dir.c9r".
pub record DirFile (path : FilePath) (uid : Name) (w w1 w2 w3 : World) : Type 0 where
  pub made : create_dir_all path w ≡ (ok tt, w1)
  pub drawn : random_bytes 16 w1 ≡ (ok (take 16 w.entropy), w2)
  pub written : write (join path dir_c9r) uid w2 ≡ (ok tt, w3)
  pub built : Built path w w3
  pub there : is_dir_node (node_at path w3) ≡ true
  pub unnamed : node_at (join path name_c9s) w ≡ none → node_at (join path name_c9s) w3 ≡ none
  pub holds :
      (n : ℕ) × (node_at (join path dir_c9r) w3 ≡ some (file n))
      × ((w3.inodes n).bytes ≡ uid)
      × (n < w3.next_number)

pub dir_file_lem :
    (path : FilePath) (uid : Name) (w : World)
    → Clear path w
    → node_at (join path dir_c9r) w ≡ none
    → 16 ≤ length w.entropy
    → (w1 : World) × (w2 : World) × (w3 : World) × DirFile path uid w w1 w2 w3
unfolding eq_bytes
dir_file_lem path uid w clear empty room =
    let (w1, made, m, is) = create_dir_all_lem path w clear in
    let w2 : World = record w1 { entropy = drop 16 w1.entropy } in
    let same : (q : FilePath) → node_at q w2 ≡ node_at q w1 = λ q. node_at-same q w1 w2 refl in
    let longer : (name : Name) → node_at (join path name) w2 ≡ node_at (join path name) w = λ name.
      same (join path name) ∙ m.longer (join path name) (omega (arith, length-join path name)) in
    let (w3, written, f) =
      write_lem (join path dir_c9r) uid w2 (omega (arith, length-join path dir_c9r))
        (longer dir_c9r ∙ empty)
        (ap (λ x. is_dir_node (node_at x w2)) (parent_of-join path dir_c9r)
          ∙ ap is_dir_node (same path)
          ∙ is) in
    let other : eq_path (join path name_c9s) (join path dir_c9r) ≡ false =
      eq_path-join path name_c9s dir_c9r refl in
    (
      w1,
      w2,
      w3,
      record {
        made = made;
        drawn =
            random_bytes_lem 16 w1 (omega (arith, ap length m.rest.same_entropy))
            ∙ ap (λ e. (ok (take 16 e), w2)) m.rest.same_entropy;
        written = written;
        built =
            Built-trans path w w2 w3
              (record {
                grows = Grows-trans w w1 w2 m.grows (same-Grows w1 w2 refl refl refl);
                no_file = λ q x y e. ap is_file_node (same q) ∙ m.no_file q e;
              })
              (dir-Built path uid w2 w3 f);
        there =
            ap is_dir_node (
              f.elsewhere path (eq_path-length path _ (omega (arith, length-join path dir_c9r)))
              ∙ same path)
            ∙ is;
        unnamed = λ e. f.elsewhere (join path name_c9s) other ∙ longer name_c9s ∙ e;
        holds = f.there;
      },
    )
