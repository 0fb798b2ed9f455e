-- ===== src/Disk/Creating.antt =====
-- `EncryptedFile::create_new` on the disk: what a new file is.
use cryptomator_rs.Common.{
  ℕ, ◌<◌, ◌≡◌, refl, sym, ◌∙◌, ap, ◌==◌, [], length, none, some, true, ok, arith,
}
use cryptomator_rs.Crypto.{FileCryptor, FileHeader, IsLawful}
use cryptomator_rs.Disk.Growing.{
  Grows, Grows-trans, same-Grows, add_node-Grows, Grows-set_inode, set_inode-Grows,
  node_at-add_node, node_at-same,
}
use cryptomator_rs.Disk.Handles.{Handle, os_of, store, OpenFile, create_path, metadata_file}
use cryptomator_rs.Disk.{World, file, node_at, is_dir_node, add_node, ◌>>=◌}
use cryptomator_rs.EncryptedFile.{EncryptedFile}
use cryptomator_rs.EncryptedFile.Creating.{create_new_lem}
use cryptomator_rs.EncryptedFile.Layout.{Holds}
use cryptomator_rs.EncryptedFile.Opening.{create_new}
use cryptomator_rs.EncryptedFile.Slot.{Holds-same}
use cryptomator_rs.FilePath.{FilePath, parent_of}
use cryptomator_rs.Os.{anywhere, Os, Lock, try_read, try_write}
use cryptomator_rs.Os.Reading.{NoFault}
use cryptomator_rs.Rng.{Rng}

-- A new file at the path is open, with an empty cleartext under the header.
pub record Created (c : FileCryptor) (h : FileHeader) (path : FilePath) (e : OpenFile)
    (w w' : World) : Type 0 where
  pub grows : Grows w w'
  pub there : node_at path w' ≡ some (file e.handle.inode)
  pub given : e.handle.inode < w'.next_number
  pub same_header : e.header ≡ h
  pub holds : Holds c h (os_of e.handle w') []
  pub unlocked : w'.locks e.handle.inode ≡ Lock.free

module _ (c : FileCryptor) where
  -- The handle on the new inode, and what is open behind `create_new` on it.
  abbrev new_handle : World → Handle
  new_handle w = record { inode = w.next_number; pos = 0; writable = anywhere }

  abbrev open_behind : EncryptedFile → Os → World → OpenFile
  open_behind e t w = record {
    handle = record (new_handle w) { pos = t.pos };
    header = e.header;
    append = e.append;
  }

  create_path-create_new :
      (path : FilePath) (w : World) (e : EncryptedFile) (t : Os)
      → node_at path w ≡ none
      → is_dir_node (node_at (parent_of path) w) ≡ true
      → create_new c (os_of (new_handle w) (add_node path file w)) ≡ (ok e, t)
      → create_path c path w
        ≡ (ok (open_behind e t w), store (new_handle w) t (add_node path file w))
  unfolding create_path ◌>>=◌
  create_path-create_new path w e t empty in_dir made = rw (empty, create_path, in_dir, made) refl

  new-Created :
      (h : FileHeader) (path : FilePath) (w : World) (e : EncryptedFile) (t : Os)
      → 0 < length path
      → node_at path w ≡ none
      → w.locks w.next_number ≡ Lock.free
      → e.header ≡ h
      → Holds c h t []
      → Created c h path (open_behind e t w) w (store (new_handle w) t (add_node path file w))
  new-Created h path w e t room empty free same v =
      let w1 : World = add_node path file w in
      let w2 : World = record w1 { entropy = t.entropy; read_events = t.read_events } in
      let self : (w.next_number == w.next_number) ≡ true = ground arith in
      record {
        grows =
            Grows-set_inode w.next_number _ w w2
              (Grows-trans w w1 w2 (add_node-Grows path file w empty room (λ n m e. cc))
                (same-Grows w1 w2 refl refl refl))
              (omega arith);
        there =
            node_at-same path w1 (store (new_handle w) t w1) refl
            ∙ node_at-add_node path file w room;
        given = omega arith;
        same_header = same;
        holds = Holds-same c h (rw self refl) v;
        unlocked = free;
      }

module _ (c : FileCryptor) {nonce_len : ℕ} (laws : IsLawful nonce_len c) where
  pub create_path_lem :
      (h : FileHeader) (rng : Rng) (path : FilePath) (w : World)
      → 0 < length path
      → node_at path w ≡ none
      → is_dir_node (node_at (parent_of path) w) ≡ true
      → c.new_header w.entropy ≡ ok (h, rng)
      → w.locks w.next_number ≡ Lock.free
      → NoFault w.read_events
      → (e : OpenFile) × (w' : World) × (create_path c path w ≡ (ok e, w'))
        × Created c h path e w w'
  unfolding try_write
  create_path_lem h rng path w room empty in_dir fresh free nf =
      let self : (w.next_number == w.next_number) ≡ true = ground arith in
      let (t, e, made, same_file, same_lock, o) =
        create_new_lem c laws h rng (os_of (new_handle c w) (add_node path file w)) fresh
          (rw self refl) refl refl (rw free refl) nf in
      (
        open_behind c e t w,
        store (new_handle c w) t (add_node path file w),
        create_path-create_new c path w e t empty in_dir made,
        new-Created c h path w e t room empty free o.same_header
            (Holds-same c h (ap (λ s. s.bytes) (sym same_file)) o.ready.holds),
      )

-- The metadata of an open file that is not locked are those of its inode.
pub metadata_file_lem :
    (e : OpenFile) (w : World)
    → w.locks e.handle.inode ≡ Lock.free
    → (w' : World) × (metadata_file e w ≡ (
      ok (record {
        len = length (w'.inodes e.handle.inode).bytes;
        attr = (w'.inodes e.handle.inode).attr;
      }),
      w',
    ))
      × Grows w w'
      × (w'.entries ≡ w.entries)
unfolding metadata_file ◌>>=◌ try_read
metadata_file_lem e w free = (
  store e.handle (os_of e.handle w) w,
  rw free refl,
  set_inode-Grows e.handle.inode _ w refl,
  refl,
)
