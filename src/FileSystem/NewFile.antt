-- ===== src/FileSystem/NewFile.antt =====
-- `mknod` of src/fs.rs, and the lookup behind it.
use cryptomator_rs.Common.{
  ℕ, ◌≤◌, ◌≡◌, refl, sym, ◌∙◌, ap, [], ◌∷◌, ◌++◌, length, some, Bool, true, if◌then◌else◌, eq_bytes,
  ok,
}
use cryptomator_rs.Crypto.{FileHeader}
use cryptomator_rs.Disk.Growing.{Numbered, Grows, Grows-trans}
use cryptomator_rs.Disk.Handles.{os_of}
use cryptomator_rs.Disk.Making.{>>=-ok, parent_of-join}
use cryptomator_rs.Disk.{World, file, node_at, is_dir_node, ◌>>=◌}
use cryptomator_rs.EncryptedFile.Layout.{Holds}
use cryptomator_rs.FileSystem.Directories.{
  IsDirectory, get_dir_id-IsDirectory, IsDirectory-Grows, IsFree,
}
use cryptomator_rs.FileSystem.Making.{mknod}
use cryptomator_rs.FileSystem.MakingDirs.{place_lem}
use cryptomator_rs.FileSystem.NewDirectory.{parent-join}
use cryptomator_rs.FileSystem.{DirEntry, FileKind, cipher, ciphertext_path_of, dir_entry}
use cryptomator_rs.FilePath.{Name, FilePath, d, c9s, join, parent_of}
use cryptomator_rs.Os.Reading.{NoFault}
use cryptomator_rs.Os.{Lock, read_only}
use cryptomator_rs.Primitives.{Primitives, Laws, TextLaws}
use cryptomator_rs.Rng.{Rng}
use cryptomator_rs.Translator.Naming.{get_ciphertext_path, extension_text}
use cryptomator_rs.Translator.{get_dir_id}
use cryptomator_rs.Util.Size.{get_cleartext_size}
use cryptomator_rs.Vault.{Vault}
use cryptomator_rs.FileSystem.EmptyFiles.{
  file_place, place_made, place_made_lem, empty_entry, file_made, file_made_lem, empty_size,
  around_kept, entry_at-file,
}

module _ (p : Primitives) (laws : Laws p) (texts : TextLaws p) (v : Vault) where
  mknod_steps :
      (up : FilePath) (name id ext : Name) (c path : FilePath) (permissions : ℕ) (entry : DirEntry)
      (w w1 w2 : World)
      → get_dir_id p v up w ≡ (ok id, w)
      → get_ciphertext_path p v (join up name) id ≡ ok c
      → extension_text p v c ≡ ok ext
      → place_made p v (eq_bytes ext c9s) (join up name) c id w ≡ (ok path, w1)
      → file_made p v path permissions w1 ≡ (ok entry, w2)
      → mknod p v up name permissions w ≡ (ok entry, w2)
  unfolding mknod
  mknod_steps up name id ext c path permissions entry w w1 w2 above at ends placed made =
      >>=-ok _ _ w w id above
      ∙ >>=-ok _ _ w w c (ap (λ r. (r, w)) at)
      ∙ >>=-ok _ _ w w ext (ap (λ r. (r, w)) ends)
      ∙ >>=-ok _ _ w w1 path placed
      ∙ made

  dir_entry-file :
      (short : Bool) (up : FilePath) (name id : Name) (c : FilePath) (n : ℕ) (w : World)
      → IsDirectory p v w up id
      → get_ciphertext_path p v (join up name) id ≡ ok c
      → node_at (file_place short c) w ≡ some (file n)
      → (if short then is_dir_node (node_at c w) else true) ≡ true
      → get_cleartext_size (cipher p v) (length (w.inodes n).bytes) ≡ ok 0
      → dir_entry p v (join up name) w ≡ (ok (empty_entry n w), w)
  unfolding dir_entry ciphertext_path_of ◌>>=◌
  dir_entry-file short up name id c n w above at there around size =
      rw (parent-join up name, get_dir_id-IsDirectory p v w above, at)
        (entry_at-file p laws texts v short (join up name) c n w there around size)

  -- With lawful primitives, in a directory `up` (the root, or one whose chain of "dir.c9r" files is
  -- there) in which the name is free, that is: it is not "..", it and its whole path are within the
  -- message limit, nothing is at or directly below its ciphertext path `c` and no file is on the
  -- way to it, and every number of a file has been given out, where the directory of the id's hash
  -- is there, the entropy gives a header, the numbers to come are not locked and reads do not fail:
  -- `mknod` succeeds with the entry of a regular file of size 0, `dir_entry` of the new path gives
  -- this entry and changes nothing, the file at `c`, or at "contents.c9r" in it, holds the empty
  -- cleartext under the header, every file and directory that was there still is, with its bytes,
  -- and the numbers of files stay given out.
  pub mknod_lem :
      (up : FilePath) (name id a b : Name) (c : FilePath) (permissions : ℕ) (h : FileHeader)
      (rng : Rng) (w : World)
      → IsFree p v w up name id a b c
      → is_dir_node (node_at (v.path ++ (d ∷ a ∷ b ∷ [])) w) ≡ true
      → (cipher p v).new_header w.entropy ≡ ok (h, rng)
      → ((n : ℕ) → w.next_number ≤ n → w.locks n ≡ Lock.free)
      → NoFault w.read_events
      → (entry : DirEntry) × (w' : World) × (mknod p v up name permissions w ≡ (ok entry, w'))
        × (entry.kind ≡ FileKind.regular_file)
        × (entry.size ≡ 0)
        × (dir_entry p v (join up name) w' ≡ (ok entry, w'))
        × ((short : Bool) × (n : ℕ) × (node_at (file_place short c) w' ≡ some (file n))
            × Holds
                (cipher p v)
                h
                (os_of (record { inode = n; pos = 0; writable = read_only }) w')
                [])
        × Grows w w'
        × Numbered w'
  mknod_lem up name id a b c permissions h rng w free home fresh unlocked nf =
      let (last, ext, is_c, ends) =
        place_lem p laws texts v up name id a b c free.plain free.small free.hash free.at in
      let short : Bool = eq_bytes ext c9s in
      let in_dir : is_dir_node (node_at (parent_of c) w) ≡ true =
        ap (λ x. is_dir_node (node_at (parent_of x) w)) (sym is_c)
        ∙ ap (λ x. is_dir_node (node_at x w)) (parent_of-join _ last)
        ∙ home in
      let (w1, placed, f) =
        place_made_lem p laws texts v short (join up name) c id w free.small_path free.clear
          free.nothing free.empty in_dir in
      let (n, w2, made, f2, g) =
        file_made_lem p laws texts v (file_place short c) permissions h rng w1 f.empty f.in_dir
          (ap (cipher p v).new_header f.rest.same_entropy ∙ fresh)
          (ap (λ l. l w1.next_number) f.rest.same_locks ∙ unlocked w1.next_number f.grows.more)
          (rw f.rest.same_events nf) in
      let gw : Grows w w2 = Grows-trans w w1 w2 f.grows g in
      (
        empty_entry n w2,
        w2,
        mknod_steps up name id ext c (file_place short c) permissions (empty_entry n w2) w w1 w2
            (get_dir_id-IsDirectory p v w free.above) free.at ends placed made,
        refl,
        refl,
        dir_entry-file short up name id c n w2
            (IsDirectory-Grows p v w w2 free.numbers gw free.above) free.at f2.there
            (around_kept p laws texts v short c w1 w2 g f.around)
            (empty_size p laws texts v h _ n w2 f2),
        (short, n, f2.there, f2.holds),
        gw,
        gw.numbered free.numbers,
      )
