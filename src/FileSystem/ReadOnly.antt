-- ===== src/FileSystem/ReadOnly.antt =====
-- Looking at entries in src/fs.rs leaves the disk as it was.
use cryptomator_rs.Common.{refl, List, [], ◌∷◌, ◌&&◌, eq_bytes}
use cryptomator_rs.Disk.ReadOnly.{ReadOnly, >>=-ReadOnly, if-ReadOnly}
use cryptomator_rs.FileSystem.{
  FileKind, DirEntry, regular_file, symbolic_link, encrypted_entry, directory_entry, entry_at,
  ciphertext_path_of, dir_entry, add_entry, add_entries, dir_entries, root_metadata,
}
use cryptomator_rs.FilePath.{Name, FilePath, contents_c9r, symlink_c9r, dirid_c9r, join, join_text}
use cryptomator_rs.Primitives.{Primitives}
use cryptomator_rs.Translator.DirIds.{get_dir_id-ReadOnly, get_cleartext_name-ReadOnly}
use cryptomator_rs.Vault.{Vault}

module _ (p : Primitives) (v : Vault) where
  encrypted_entry-ReadOnly :
      (kind : FileKind) (path : FilePath) → ReadOnly (encrypted_entry p v kind path)
  encrypted_entry-ReadOnly kind path =
      >>=-ReadOnly _ _ (λ w. refl) (λ meta. >>=-ReadOnly _ _ (λ w. refl) (λ size w. refl))

  directory_entry-ReadOnly : (path : FilePath) → ReadOnly (directory_entry p v path)
  directory_entry-ReadOnly path = >>=-ReadOnly _ _ (λ w. refl) (λ meta w. refl)

  entry_at-ReadOnly :
      (path ciphertext_path : FilePath) → ReadOnly (entry_at p v path ciphertext_path)
  unfolding entry_at
  entry_at-ReadOnly path ciphertext_path =
      >>=-ReadOnly _ _ (λ w. refl)
        (λ full_file.
          >>=-ReadOnly _ _ (λ w. refl)
            (λ is_directory.
              >>=-ReadOnly _ _ (λ w. refl)
                (λ has_contents.
                  >>=-ReadOnly _ _ (λ w. refl)
                    (λ has_id.
                      >>=-ReadOnly _ _ (λ w. refl)
                        (λ has_target.
                          if-ReadOnly full_file _ _
                            (encrypted_entry-ReadOnly regular_file ciphertext_path)
                            (if-ReadOnly (is_directory && has_contents) _ _
                              (encrypted_entry-ReadOnly regular_file
                                (join ciphertext_path contents_c9r))
                              (if-ReadOnly (is_directory && has_id) _ _
                                (>>=-ReadOnly _ _ (get_dir_id-ReadOnly p v path) (λ dir_id.
                                  >>=-ReadOnly _ _ (λ w. refl)
                                    (λ dir. directory_entry-ReadOnly dir)))
                                (if-ReadOnly (is_directory && has_target) _ _
                                  (encrypted_entry-ReadOnly symbolic_link
                                    (join ciphertext_path symlink_c9r))
                                  (λ w. refl)))))))))

  ciphertext_path_of-ReadOnly : (path : FilePath) → ReadOnly (ciphertext_path_of p v path)
  unfolding ciphertext_path_of
  ciphertext_path_of-ReadOnly path =
      >>=-ReadOnly _ _ (λ w. refl)
        (λ above. >>=-ReadOnly _ _ (get_dir_id-ReadOnly p v above) (λ dir_id w. refl))

  pub dir_entry-ReadOnly : (path : FilePath) → ReadOnly (dir_entry p v path)
  unfolding dir_entry
  dir_entry-ReadOnly path =
      >>=-ReadOnly _ _ (ciphertext_path_of-ReadOnly path)
        (λ ciphertext_path. entry_at-ReadOnly path ciphertext_path)

  add_entry-ReadOnly :
      (dir hashed_dir : FilePath) (dir_id name : Name) (entries : List (FilePath × DirEntry))
      → ReadOnly (add_entry p v dir hashed_dir dir_id name entries)
  unfolding add_entry
  add_entry-ReadOnly dir hashed_dir dir_id name entries =
      if-ReadOnly (eq_bytes name dirid_c9r) _ _ (λ w. refl)
        (>>=-ReadOnly _ _ (get_cleartext_name-ReadOnly p v (join hashed_dir name) dir_id)
          (λ cleartext_name.
            >>=-ReadOnly _ _ (dir_entry-ReadOnly (join_text dir cleartext_name)) (λ e w. refl)))

  add_entries-ReadOnly :
      (dir hashed_dir : FilePath) (dir_id : Name) (names : List Name)
      → (entries : List (FilePath × DirEntry))
      → ReadOnly (add_entries p v dir hashed_dir dir_id names entries)
  unfolding add_entries
  add_entries-ReadOnly dir hashed_dir dir_id [] entries w = refl
  add_entries-ReadOnly dir hashed_dir dir_id (name ∷ names) entries w =
      >>=-ReadOnly _ _ (add_entry-ReadOnly dir hashed_dir dir_id name entries)
        (λ added. add_entries-ReadOnly dir hashed_dir dir_id names added) w

  pub dir_entries-ReadOnly : (dir : FilePath) → ReadOnly (dir_entries p v dir)
  unfolding dir_entries
  dir_entries-ReadOnly dir = >>=-ReadOnly _ _ (get_dir_id-ReadOnly p v dir) (λ dir_id.
      >>=-ReadOnly _ _ (λ w. refl)
        (λ hashed_dir.
          >>=-ReadOnly _ _ (λ w. refl)
            (λ names. add_entries-ReadOnly dir hashed_dir dir_id names [])))

  pub root_metadata-ReadOnly : ReadOnly (root_metadata p v)
  unfolding root_metadata
  root_metadata-ReadOnly = >>=-ReadOnly _ _ (λ w. refl) (λ path w. refl)
