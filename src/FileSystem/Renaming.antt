-- ===== src/FileSystem/Renaming.antt =====
-- Renaming in src/fs.rs: between full-length and shortened names.
use cryptomator_rs.Common.{Bool, if◌then◌else◌, ◌&&◌, eq_bytes, Result, ok, panic}
use cryptomator_rs.Disk.{
  World, Io, return, fail_with, ◌>>=◌, ◌>>◌, from, create_dir_all, remove_dir_all,
}
use cryptomator_rs.Disk
use cryptomator_rs.FileSystem.Making.{write_full_name}
use cryptomator_rs.FileSystem.{FileKind, regular_file, directory, symbolic_link, dir_entry}
use cryptomator_rs.FilePath.{Name, FilePath, contents_c9r, dir_c9r, symlink_c9r, c9r, c9s, join}
use cryptomator_rs.Primitives.{Primitives}
use cryptomator_rs.Translator.Naming.{extension_text, get_ciphertext_path}
use cryptomator_rs.Translator.{get_dir_id}
use cryptomator_rs.Vault.{Vault}

-- `let _ = ...;`
abbrev ignored : Result (Unit {0}) × World → Result (Unit {0}) × World
ignored (_, w) = (ok tt, w)

abbrev pub ignore : Io (Unit {0}) → Io (Unit {0})
ignore m w = ignored (m w)

module _ (p : Primitives) (v : Vault) where
  -- Where an entry is and where it goes, and the id of the directory that it goes to.
  record Places : Type 0 where
    old_path : FilePath
    new_path : FilePath
    new_dir_id : Name
    old_extension : Name
    new_extension : Name

  unfoldable places : FilePath → Name → FilePath → Name → Io Places
  unfolding get_dir_id extension_text
  places old_parent old_name new_parent new_name = do
    old_dir_id ← get_dir_id p v old_parent
    old_ciphertext_path ← from (get_ciphertext_path p v (join old_parent old_name) old_dir_id)
    new_dir_id ← get_dir_id p v new_parent
    new_ciphertext_path ← from (get_ciphertext_path p v (join new_parent new_name) new_dir_id)
    from_extension ← from (extension_text p v old_ciphertext_path)
    to_extension ← from (extension_text p v new_ciphertext_path)
    return (record {
      old_path = old_ciphertext_path;
      new_path = new_ciphertext_path;
      new_dir_id = new_dir_id;
      old_extension = from_extension;
      new_extension = to_extension;
    })

  abbrev both : Places → Name → Name → Bool
  both q a b = eq_bytes q.old_extension a && eq_bytes q.new_extension b

  -- A shortened name has a directory, with the full name in it.
  unfoldable make_shortened : FilePath → Places → Io (Unit {0})
  unfolding write_full_name
  make_shortened cleartext_path q = do
    create_dir_all q.new_path
    write_full_name p v cleartext_path q.new_path q.new_dir_id

  unfoldable pub rename_file : FilePath → Name → FilePath → Name → Io (Unit {0})
  unfolding places make_shortened Disk.rename remove_dir_all
  rename_file old_parent old_name new_parent new_name = do
    q ← places old_parent old_name new_parent new_name
    let lengthened = do
      Disk.rename (join q.old_path contents_c9r) q.new_path
      remove_dir_all q.old_path
    let shortened = do
      make_shortened (join new_parent new_name) q
      Disk.rename q.old_path (join q.new_path contents_c9r)
    let stays_shortened = do
      make_shortened (join new_parent new_name) q
      Disk.rename (join q.old_path contents_c9r) (join q.new_path contents_c9r)
      remove_dir_all q.old_path
    if both q c9r c9r
        then Disk.rename q.old_path q.new_path
        else if both q c9r c9s
        then shortened
        else if both q c9s c9r
        then lengthened
        else if both q c9s c9s
        then stays_shortened
        else fail_with panic

  -- `rename_dir` and `rename_link` differ in the file that they move.
  unfoldable pub rename_holder : Name → FilePath → Name → FilePath → Name → Io (Unit {0})
  unfolding places make_shortened Disk.rename remove_dir_all
  rename_holder content old_parent old_name new_parent new_name = do
    q ← places old_parent old_name new_parent new_name
    let lengthened = do
      create_dir_all q.new_path
      Disk.rename (join q.old_path content) (join q.new_path content)
      remove_dir_all q.old_path
    let shortened = do
      make_shortened (join new_parent new_name) q
      Disk.rename (join q.old_path content) (join q.new_path content)
      ignore (remove_dir_all q.old_path)
    if both q c9r c9r
        then Disk.rename q.old_path q.new_path
        else if both q c9s c9r
        then lengthened
        else if eq_bytes q.new_extension c9s
        then shortened
        else fail_with panic

  unfoldable pub rename_dir : FilePath → Name → FilePath → Name → Io (Unit {0})
  unfolding rename_holder
  rename_dir = rename_holder dir_c9r

  unfoldable pub rename_link : FilePath → Name → FilePath → Name → Io (Unit {0})
  unfolding rename_holder
  rename_link = rename_holder symlink_c9r

  unfoldable pub rename_kind : FileKind → FilePath → Name → FilePath → Name → Io (Unit {0})
  unfolding rename_file rename_dir rename_link
  rename_kind regular_file = rename_file
  rename_kind directory = rename_dir
  rename_kind symbolic_link = rename_link

  unfoldable pub rename : FilePath → Name → FilePath → Name → Io (Unit {0})
  unfolding dir_entry rename_kind
  rename old_parent old_name new_parent new_name = do
    old_entry ← dir_entry p v (join old_parent old_name)
    rename_kind old_entry.kind old_parent old_name new_parent new_name
