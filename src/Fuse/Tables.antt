-- ===== src/Fuse/Tables.antt =====
-- The tables of open files and directories of src/fs/fuse.rs: what keeps them sound.
use cryptomator_rs.Common.{
  ℕ, suc, ◌≤◌, ◌<◌, ◌==◌, ◌≡◌, ap, ◌∙◌, ◌⊎◌, inl, inr, List, Option, none, some, arith, u64_limit,
  Bool-cases,
}
use cryptomator_rs.Disk.Handles.{OpenFile}
use cryptomator_rs.FileSystem.{DirEntry}
use cryptomator_rs.FilePath.{FilePath}
use cryptomator_rs.Fuse.{Mount, set_key, next_of, add_file, add_dir}

-- No handle from the next one on is in use, and none is both a file's and a directory's.
pub record Table (files : ℕ → Option OpenFile) (dirs : ℕ → Option (List (FilePath × DirEntry)))
    (next : ℕ) : Type 0 where
  pub unused : (k : ℕ) → next ≤ k → (files k ≡ none) × (dirs k ≡ none)
  pub apart : (k : ℕ) → (files k ≡ none) ⊎ (dirs k ≡ none)

abbrev pub Sound : Mount → Type 0
Sound m = Table m.open_files m.open_dirs m.next_handle

module _ {next : ℕ} {files : ℕ → Option OpenFile}
    {dirs : ℕ → Option (List (FilePath × DirEntry))} where
  -- A file stays open, or is closed.
  pub set_file-Table :
      (fh : ℕ) (value : Option OpenFile)
      → (next ≤ fh → value ≡ none)
      → (value ≡ none) ⊎ (dirs fh ≡ none)
      → Table files dirs next
      → Table (set_key fh value files) dirs next
  set_file-Table fh value closed exclusive t = record {
    unused = λ k le. elim (Bool-cases (k == fh)) [
      | inl same ↦ rw same (closed (ground arith), (t.unused k le).1)
      | inr other ↦ rw other (t.unused k le)
    ];
    apart = λ k. elim (Bool-cases (k == fh)) [
      | inl same ↦ rw same (elim exclusive [
        | inl gone ↦ inl gone
        | inr no_dir ↦ inr (let e : k ≡ fh = ground arith in ap dirs e ∙ no_dir)
      ])
      | inr other ↦ rw other (t.apart k)
    ];
  }

  pub set_dir-Table :
      (fh : ℕ) (value : Option (List (FilePath × DirEntry)))
      → (next ≤ fh → value ≡ none)
      → (value ≡ none) ⊎ (files fh ≡ none)
      → Table files dirs next
      → Table files (set_key fh value dirs) next
  set_dir-Table fh value closed exclusive t = record {
    unused = λ k le. elim (Bool-cases (k == fh)) [
      | inl same ↦ rw same ((t.unused k le).0, closed (ground arith))
      | inr other ↦ rw other (t.unused k le)
    ];
    apart = λ k. elim (Bool-cases (k == fh)) [
      | inl same ↦ rw same (elim exclusive [
        | inl gone ↦ inr gone
        | inr no_file ↦ inl (let e : k ≡ fh = ground arith in ap files e ∙ no_file)
      ])
      | inr other ↦ rw other (t.apart k)
    ];
  }

  later-Table : Table files dirs next → Table files dirs (suc next)
  later-Table t = record { unused = λ k le. t.unused k (omega arith); apart = t.apart }

next_of_lem : (m : Mount) → suc m.next_handle < u64_limit → next_of m ≡ suc m.next_handle
next_of_lem m room = ground arith

-- A fresh handle keeps the table sound.
pub add_file-Sound :
    (e : OpenFile) (m : Mount) → suc m.next_handle < u64_limit → Sound m → Sound (add_file e m)
add_file-Sound e m room t = rw (next_of_lem m room) (
    set_file-Table m.next_handle (some e) (λ le. absurd (omega arith))
      (inr (t.unused m.next_handle (omega arith)).1) (later-Table t))

pub add_dir-Sound :
    (entries : List (FilePath × DirEntry)) (m : Mount)
    → suc m.next_handle < u64_limit
    → Sound m
    → Sound (add_dir entries m)
add_dir-Sound entries m room t = rw (next_of_lem m room) (
    set_dir-Table m.next_handle (some entries) (λ le. absurd (omega arith))
      (inr (t.unused m.next_handle (omega arith)).0) (later-Table t))

pub next_of-le : (m : Mount) → suc m.next_handle < u64_limit → next_of m ≤ suc m.next_handle
next_of-le m room = omega (arith, next_of_lem m room)
