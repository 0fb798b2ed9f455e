-- ===== src/FileSystem/EmptyFiles.antt =====
-- The steps of `mknod` of src/fs.rs: the place made ready, and the empty file there.
use cryptomator_rs.Common.{
  ℕ, ◌≤◌, ◌≡◌, refl, ◌∙◌, ap, [], length, none, some, Bool, true, false, if◌then◌else◌, eq_bytes,
  ok, arith,
}
use cryptomator_rs.Crypto.Cryptor.{file_cryptor-IsLawful}
use cryptomator_rs.Crypto.{FileHeader}
use cryptomator_rs.Disk.Creating.{create_path_lem, metadata_file_lem}
use cryptomator_rs.Disk.Growing.{Grows, Grows-self, Grows-trans, length-pos-of_none}
use cryptomator_rs.Disk.Handles.{os_of, create_path, metadata_file}
use cryptomator_rs.Disk.Making.{
  >>=-ok, is_dir_node-eq, parent_of-join, Clear, SameRest, SameRest-trans, create_dir_all_lem,
  set_permissions_lem,
}
use cryptomator_rs.Disk.{
  World, Io, Metadata, file, directory, node_at, is_file_node, is_dir_node, metadata_of, number_of,
  create_dir_all, set_permissions, return, ◌>>=◌, ◌>>◌,
}
use cryptomator_rs.EncryptedFile.Layout.{Holds, length-Holds}
use cryptomator_rs.EncryptedFile.Slot.{Holds-same}
use cryptomator_rs.FileSystem.Making.{write_full_name}
use cryptomator_rs.FileSystem.MakingDirs.{write_full_name_lem}
use cryptomator_rs.FileSystem.NewDirectory.{is_dir→not_file}
use cryptomator_rs.FileSystem.{DirEntry, FileKind, cipher, entry_at, encrypted_entry}
use cryptomator_rs.FilePath.Equality.{eq_path-length, eq_path-join, length-join}
use cryptomator_rs.FilePath.{Name, FilePath, name_c9s, contents_c9r, join, path_bytes, parent_of}
use cryptomator_rs.Os.Reading.{NoFault}
use cryptomator_rs.Os.{Lock, read_only}
use cryptomator_rs.Primitives.{Primitives, Laws, TextLaws, message_limit}
use cryptomator_rs.Rng.{Rng}
use cryptomator_rs.Util.Size.Position.{get_cleartext_size-encrypted_pos}
use cryptomator_rs.Util.Size.{get_cleartext_size}
use cryptomator_rs.Vault.{Vault, cryptor}

-- Where the file of a name goes: into the directory of a shortened name, or to the path itself.
abbrev pub file_place : Bool → FilePath → FilePath
file_place short c = if short then join c contents_c9r else c

-- The metadata of an inode with bytes.
abbrev pub meta_of : ℕ → World → Metadata
meta_of n w = record { len = length (w.inodes n).bytes; attr = (w.inodes n).attr }

abbrev pub empty_entry : ℕ → World → DirEntry
empty_entry n w = record { kind = FileKind.regular_file; size = 0; metadata = meta_of n w }

pub record Placed (short : Bool) (c : FilePath) (w w' : World) : Type 0 where
  pub grows : Grows w w'
  pub rest : SameRest w w'
  pub empty : node_at (file_place short c) w' ≡ none
  pub in_dir : is_dir_node (node_at (parent_of (file_place short c)) w') ≡ true
  pub around : (if short then is_dir_node (node_at c w') else true) ≡ true

module _ (p : Primitives) (v : Vault) where
  -- The place is made ready.
  abbrev pub place_made : Bool → FilePath → FilePath → Name → Io FilePath
  place_made short cleartext_path c id =
      let shortened = (do
        create_dir_all c
        write_full_name p v cleartext_path c id
        return (join c contents_c9r)) in
      if short then shortened else return c

  -- The file is made at its place, and measured.
  abbrev pub file_made : FilePath → ℕ → Io DirEntry
  file_made path permissions = do
    e ← create_path (cipher p v) path
    set_permissions path permissions
    meta ← metadata_file e
    return (record { kind = FileKind.regular_file; size = 0; metadata = meta })

  -- An empty file under the header is at the path.
  pub record IsEmptyFile (h : FileHeader) (path : FilePath) (n : ℕ) (w : World) : Type 0 where
    pub there : node_at path w ≡ some (file n)
    pub holds :
        Holds (cipher p v) h (os_of (record { inode = n; pos = 0; writable = read_only }) w) []

module _ (p : Primitives) (laws : Laws p) (texts : TextLaws p) (v : Vault) where
  pub place_made_lem :
      (short : Bool) (cleartext_path c : FilePath) (id : Name) (w : World)
      → length (p.to_string_lossy (path_bytes cleartext_path)) ≤ message_limit
      → Clear c w
      → node_at c w ≡ none
      → ((name : Name) → node_at (join c name) w ≡ none)
      → is_dir_node (node_at (parent_of c) w) ≡ true
      → (w' : World) × (place_made p v short cleartext_path c id w ≡ (ok (file_place short c), w'))
        × Placed short c w w'
  unfolding eq_bytes
  place_made_lem false cleartext_path c id w small clear nothing empty in_dir = (
    w,
    refl,
    record {
      grows = Grows-self w;
      rest = record { same_entropy = refl; same_locks = refl; same_events = refl };
      empty = nothing;
      in_dir = in_dir;
      around = refl;
    },
  )
  place_made_lem true cleartext_path c id w small clear nothing empty in_dir =
      let (w1, made, m, is) = create_dir_all_lem c w clear in
      let longer : (name : Name) → node_at (join c name) w1 ≡ none =
        λ name. m.longer (join c name) (omega (arith, length-join c name)) ∙ empty name in
      let (new, w2, done, f) =
        write_full_name_lem p laws texts v cleartext_path c id w1 small (longer name_c9s) is in
      let is2 : is_dir_node (node_at c w2) ≡ true =
        ap is_dir_node (f.elsewhere c (eq_path-length c _ (omega (arith, length-join c name_c9s))))
        ∙ is in
      (
        w2,
        >>=-ok _ _ w w1 tt made ∙ >>=-ok _ _ w1 w2 tt done,
        record {
          grows = Grows-trans w w1 w2 m.grows f.grows;
          rest = SameRest-trans w w1 w2 m.rest f.rest;
          empty =
              f.elsewhere (join c contents_c9r) (eq_path-join c contents_c9r name_c9s refl)
              ∙ longer contents_c9r;
          in_dir = ap (λ x. is_dir_node (node_at x w2)) (parent_of-join c contents_c9r) ∙ is2;
          around = is2;
        },
      )

  pub empty_size :
      (h : FileHeader) (path : FilePath) (n : ℕ) (w : World)
      → IsEmptyFile p v h path n w
      → get_cleartext_size (cipher p v) (length (w.inodes n).bytes) ≡ ok 0
  empty_size h path n w f =
      ap (get_cleartext_size (cipher p v))
        (length-Holds (cipher p v) h (file_cryptor-IsLawful p laws (cryptor v)) f.holds)
      ∙ get_cleartext_size-encrypted_pos (cipher p v) (file_cryptor-IsLawful p laws (cryptor v)) 0
          (omega arith)

  pub file_made_lem :
      (path : FilePath) (permissions : ℕ) (h : FileHeader) (rng : Rng) (w : World)
      → node_at path w ≡ none
      → is_dir_node (node_at (parent_of path) w) ≡ true
      → (cipher p v).new_header w.entropy ≡ ok (h, rng)
      → w.locks w.next_number ≡ Lock.free
      → NoFault w.read_events
      → (n : ℕ) × (w' : World) × (file_made p v path permissions w ≡ (ok (empty_entry n w'), w'))
        × IsEmptyFile p v h path n w'
        × Grows w w'
  file_made_lem path permissions h rng w empty in_dir fresh free nf =
      let (e, w2, created, g) =
        create_path_lem (cipher p v) (file_cryptor-IsLawful p laws (cryptor v)) h rng path w
          (length-pos-of_none path w empty) empty in_dir fresh free nf in
      let n : ℕ = e.handle.inode in
      let (w3, changed, g3, same3, r3) =
        set_permissions_lem path permissions n w2 (ap number_of g.there) in
      let (w4, measured, g4, same4) =
        metadata_file_lem e w3 (ap (λ l. l n) r3.same_locks ∙ g.unlocked) in
      let g24 : Grows w2 w4 = Grows-trans w2 w3 w4 g3 g4 in
      (
        n,
        w4,
        >>=-ok _ _ w w2 e created
            ∙ >>=-ok _ _ w2 w3 tt changed
            ∙ >>=-ok _ _ w3 w4 (meta_of n w4) measured,
        record {
          there = g24.kept path (file n) g.there;
          holds =
              Holds-same (cipher p v) h {s = os_of e.handle w2} (g24.same_bytes n g.given) g.holds;
        },
        Grows-trans w w2 w4 g.grows g24,
      )

  encrypted_entry_lem :
      (path : FilePath) (n : ℕ) (w : World)
      → node_at path w ≡ some (file n)
      → get_cleartext_size (cipher p v) (length (w.inodes n).bytes) ≡ ok 0
      → encrypted_entry p v FileKind.regular_file path w ≡ (ok (empty_entry n w), w)
  encrypted_entry_lem path n w there size =
      >>=-ok _ _ w w (meta_of n w) (ap (λ o. (metadata_of path o w, w)) there)
      ∙ >>=-ok _ _ w w 0 (ap (λ r. (r, w)) size)

  pub entry_at-file :
      (short : Bool) (path c : FilePath) (n : ℕ) (w : World)
      → node_at (file_place short c) w ≡ some (file n)
      → (if short then is_dir_node (node_at c w) else true) ≡ true
      → get_cleartext_size (cipher p v) (length (w.inodes n).bytes) ≡ ok 0
      → entry_at p v path c w ≡ (ok (empty_entry n w), w)
  unfolding entry_at ◌>>=◌
  entry_at-file false path c n w there around size =
      rw (ap is_file_node there) (encrypted_entry_lem c n w there size)
  entry_at-file true path c n w there around size =
      rw (is_dir→not_file (node_at c w) around, around, ap is_file_node there)
        (encrypted_entry_lem (join c contents_c9r) n w there size)

  pub around_kept :
      (short : Bool) (c : FilePath) (w w' : World)
      → Grows w w'
      → (if short then is_dir_node (node_at c w) else true) ≡ true
      → (if short then is_dir_node (node_at c w') else true) ≡ true
  around_kept false c w w' g e = refl
  around_kept true c w w' g e =
      let (k, at_c) = is_dir_node-eq (node_at c w) e in ap is_dir_node (g.kept c (directory k) at_c)
