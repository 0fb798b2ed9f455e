-- ===== src/FileSystem/Unlinking.antt =====
-- `unlink` of src/fs.rs, and the lookup behind it.
use cryptomator_rs.Common.{
  ◌≡◌, refl, ◌∙◌, ap, [], ◌∷◌, none, some, true, false, Bool-cases, inl, inr, ok, err,
  invalid_file_type, ◌<◌, length, arith, if◌then◌else◌,
}
use cryptomator_rs.Disk.Making.{>>=-ok}
use cryptomator_rs.Disk.Removing.{
  is_below_self, node_at-remove_tree, node_at-remove_tree_other, remove_file_lem,
  remove_dir_all_lem,
}
use cryptomator_rs.Disk.{
  World, Node, file, directory, node_at, is_file_node, is_dir_node, is_below, remove_tree, ◌>>=◌,
  remove_file, remove_dir_all,
}
use cryptomator_rs.FileSystem.Directories.{
  IsDirectory, root, child, get_dir_id-IsDirectory, get_ciphertext_path-pos,
}
use cryptomator_rs.FileSystem.NewDirectory.{parent-join}
use cryptomator_rs.FileSystem.Removing.{unlink, rmdir}
use cryptomator_rs.FileSystem.{directory_path, entry_at, ciphertext_path_of, dir_entry}
use cryptomator_rs.FilePath.{Name, FilePath, dir_c9r, join, strip_prefix}
use cryptomator_rs.Primitives.{Primitives}
use cryptomator_rs.Translator.Naming.{get_ciphertext_path}
use cryptomator_rs.Vault.{Vault}

length-pos-of_not_below : (dir c : FilePath) → is_below dir c ≡ false → 0 < length dir
unfolding strip_prefix
length-pos-of_not_below [] c apart = absurd (cc)
length-pos-of_not_below (x ∷ dir) c apart = omega arith

node_at-removed :
    (c q : FilePath) (w : World)
    → 0 < length c
    → node_at q (remove_tree c w) ≡ (if is_below c q then none else node_at q w)
node_at-removed c q w room = elim (Bool-cases (is_below c q)) [
  | inl below ↦ rw below (node_at-remove_tree c q w room below)
  | inr other ↦ rw other (node_at-remove_tree_other c q w other)
]

module _ (p : Primitives) (v : Vault) where
  -- Neither the directory nor one above has its "dir.c9r" at or below the path.
  abbrev pub IsAway :
      (c : FilePath) (w : World) {path : FilePath} {id : Name} → IsDirectory p v w path id → Type 0
  IsAway c w root = Unit {0}
  IsAway c w (child up whole name old id at s e n there text q) =
      (is_below c (join at dir_c9r) ≡ false) × IsAway c w s

  pub IsDirectory-remove_tree :
      (c : FilePath) (w : World) {path : FilePath} {id : Name} (s : IsDirectory p v w path id)
      → IsAway c w s
      → IsDirectory p v (remove_tree c w) path id
  IsDirectory-remove_tree c w root away = root
  IsDirectory-remove_tree c w (child up whole name old id at s e n there text q) away =
      child up whole name old id at (IsDirectory-remove_tree c w s away.1) e n
        (node_at-remove_tree_other c (join at dir_c9r) w away.0 ∙ there) text q

  -- To be away is a matter of the ids and names.
  IsAway-remove_tree :
      (c dir : FilePath) (w : World) {path : FilePath} {id : Name} (s : IsDirectory p v w path id)
      (away : IsAway dir w s)
      → IsAway c w s
      → IsAway c (remove_tree dir w) (IsDirectory-remove_tree dir w s away)
  unfolding IsDirectory-remove_tree
  IsAway-remove_tree c dir w root away far = tt
  IsAway-remove_tree c dir w (child up whole name old id at s e n there text q) away far =
      (far.0, IsAway-remove_tree c dir w s away.1 far.1)

  dir_entry-none :
      (up : FilePath) (name id : Name) (c : FilePath) (w : World)
      → IsDirectory p v w up id
      → get_ciphertext_path p v (join up name) id ≡ ok c
      → node_at c w ≡ none
      → dir_entry p v (join up name) w ≡ (err invalid_file_type, w)
  unfolding dir_entry ciphertext_path_of entry_at ◌>>=◌
  dir_entry-none up name id c w above at nothing =
      rw (parent-join up name, get_dir_id-IsDirectory p v w above, at, nothing) refl

  remove_any :
      (c : FilePath) (node : Node) (w : World)
      → node_at c w ≡ some node
      → (if is_file_node (node_at c w) then remove_file c else remove_dir_all c) w
        ≡ (ok tt, remove_tree c w)
  remove_any c (file n) w there =
      rw (ap is_file_node there) (remove_file_lem c w (ap is_file_node there))
  remove_any c (directory n) w there =
      rw (ap is_file_node there) (remove_dir_all_lem c w (ap is_dir_node there))

  -- In a directory `up` whose chain of "dir.c9r" files is not at or below the ciphertext path `c`
  -- of the name, where something is at `c`: `unlink` succeeds and removes all that is at or below
  -- `c` and nothing else, and `dir_entry` of the path then reports an invalid file type.
  pub unlink_lem :
      (up : FilePath) (name id : Name) (c : FilePath) (node : Node) (w : World)
      (above : IsDirectory p v w up id)
      → get_ciphertext_path p v (join up name) id ≡ ok c
      → node_at c w ≡ some node
      → IsAway c w above
      → (unlink p v up name w ≡ (ok tt, remove_tree c w))
        × (dir_entry p v (join up name) (remove_tree c w)
            ≡ (err invalid_file_type, remove_tree c w))
        × ((q : FilePath)
            → node_at q (remove_tree c w) ≡ (if is_below c q then none else node_at q w))
  unfolding unlink
  unlink_lem up name id c node w above at there away =
      let room : 0 < length c = get_ciphertext_path-pos p v (join up name) id c at in
      (
        >>=-ok _ _ w w id (get_dir_id-IsDirectory p v w above)
            ∙ >>=-ok _ _ w w c (ap (λ r. (r, w)) at)
            ∙ >>=-ok _ _ w w _ refl
            ∙ remove_any c node w there,
        dir_entry-none up name id c (remove_tree c w) (IsDirectory-remove_tree c w above away) at
            (node_at-remove_tree c c w room (is_below_self c)),
        λ q. node_at-removed c q w room,
      )

  -- For a directory in `up` whose ciphertext path `c` and whose hashed directory `dir` are
  -- directories of the disk, where `c` is not at or below `dir` and the chain of "dir.c9r" files of
  -- `up` is at or below neither: `rmdir` succeeds and removes all that is at or below `c` or `dir`
  -- and nothing else, and `dir_entry` of the path then reports an invalid file type.
  pub rmdir_lem :
      (up : FilePath) (name id id' : Name) (c dir : FilePath) (w : World)
      (above : IsDirectory p v w up id)
      → IsDirectory p v w (join up name) id'
      → get_ciphertext_path p v (join up name) id ≡ ok c
      → is_dir_node (node_at c w) ≡ true
      → directory_path p v id' ≡ ok dir
      → is_dir_node (node_at dir w) ≡ true
      → is_below dir c ≡ false
      → IsAway c w above
      → IsAway dir w above
      → (w' : World) × (rmdir p v up name w ≡ (ok tt, w'))
        × (dir_entry p v (join up name) w' ≡ (err invalid_file_type, w'))
        × ((q : FilePath)
            → node_at q w'
              ≡ (if is_below c q then none else if is_below dir q then none else node_at q w))
  unfolding rmdir
  rmdir_lem up name id id' c dir w above here at is hashed is_dir apart away away' =
      let w1 : World = remove_tree dir w in
      let above1 : IsDirectory p v w1 up id = IsDirectory-remove_tree dir w above away' in
      let room : 0 < length c = get_ciphertext_path-pos p v (join up name) id c at in
      let is1 : is_dir_node (node_at c w1) ≡ true =
        ap is_dir_node (node_at-remove_tree_other dir c w apart) ∙ is in
      (
        remove_tree c w1,
        >>=-ok _ _ w w id' (get_dir_id-IsDirectory p v w here)
            ∙ >>=-ok _ _ w w dir (ap (λ r. (r, w)) hashed)
            ∙ >>=-ok _ _ w w1 tt (remove_dir_all_lem dir w is_dir)
            ∙ >>=-ok _ _ w1 w1 id (get_dir_id-IsDirectory p v w1 above1)
            ∙ >>=-ok _ _ w1 w1 c (ap (λ r. (r, w1)) at)
            ∙ remove_dir_all_lem c w1 is1,
        dir_entry-none up name id c (remove_tree c w1)
            (IsDirectory-remove_tree c w1 above1 (IsAway-remove_tree c dir w above away' away)) at
            (node_at-remove_tree c c w1 room (is_below_self c)),
        λ q.
            node_at-removed c q w1 room
            ∙ ap (λ o. if is_below c q then none else o)
                (node_at-removed dir q w (length-pos-of_not_below dir c apart)),
      )
