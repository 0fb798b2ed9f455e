-- ===== src/Fuse/Dirs.antt =====
-- The handlers of src/fs/fuse.rs on open directories.
use cryptomator_rs.Common.{
  ℕ, suc, ◌-◌, List, [], ◌∷◌, ◌++◌, drop, none, some, Bool, if◌then◌else◌, panic, ℤ, pos, negsuc,
  u64_limit,
}
use cryptomator_rs.FileSystem.{DirEntry, dir_entries}
use cryptomator_rs.FilePath.{FilePath, file_name}
use cryptomator_rs.Fuse.{
  Listed, done, opened, listed, error, died, enoent, eio, Handler, on_disk, with_path, with_inode,
  set_key, add_dir,
}
use cryptomator_rs.Primitives.{Primitives}
use cryptomator_rs.Vault.{Vault}

module _ (p : Primitives) (v : Vault) where
  unfoldable pub opendir : ℕ → ℕ → Handler
  unfolding dir_entries
  opendir inode flags = with_path inode (λ path.
      on_disk eio (dir_entries p v path)
        (λ entries m. (opened m.next_handle flags, add_dir entries m)))

-- `fits` says whether the reply, which the fuser crate fills, has room for one more entry.
module _ (fits : List Listed → Listed → Bool) where
  -- The loop of `readdir` from entry `i`: the entry is numbered before it is known to fit.
  unfoldable pub list_from : ℕ → List Listed → List (FilePath × DirEntry) → Handler
  list_from i before [] m = (listed before, m)
  list_from i before ((path, e) ∷ rest) m = elim (file_name path) [
    | none ↦ (died panic, m)
    | some name ↦
        with_inode path
          (λ inode m.
            let one : Listed = record {
              inode = inode;
              next_offset = suc i;
              kind = e.kind;
              name = name;
            } in
            let more = list_from (suc i) (before ++ (one ∷ [])) rest m in
            if fits before one then more else (listed before, m))
          m
  ]

  -- `offset as usize`.
  abbrev pub offset_of : ℤ → ℕ
  offset_of (pos n) = n
  offset_of (negsuc n) = u64_limit - suc n

  unfoldable pub readdir : ℕ → ℤ → Handler
  unfolding list_from
  readdir fh offset m = elim (m.open_dirs fh) [
    | none ↦ (error enoent, m)
    | some entries ↦ list_from (offset_of offset) [] (drop (offset_of offset) entries) m
  ]

unfoldable pub releasedir : ℕ → Handler
releasedir fh m = elim (m.open_dirs fh) [
  | none ↦ (error enoent, m)
  | some _ ↦ (done, record m { open_dirs = set_key fh none m.open_dirs })
]
