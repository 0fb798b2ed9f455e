-- ===== src/Disk/Making.antt =====
-- `fs::create_dir_all`, `fs::write` of a new file and `fs::set_permissions`: that they succeed, and
-- what they make.
use cryptomator_rs.Common.{
  ℕ, suc, ◌+◌, ◌≤◌, ◌<◌, ◌≡◌, refl, sym, ◌∙◌, ap, ◌==◌, List, [], ◌∷◌, length, Option, none, some,
  true, false, Bool-cases, inl, inr, ok, arith, append_assoc, append-nil, ◌++◌, take, drop,
}
use cryptomator_rs.Disk.Growing.{
  node_at-add_node, node_at-add_node_other, node_at-same, Grows, Grows-self, Grows-trans,
  add_node-Grows, set_inode-Grows, Grows-set_inode,
}
use cryptomator_rs.Disk.{
  World, Io, Node, Inode, file, directory, node_at, is_file_node, is_dir_node, add_node, set_inode,
  create_dir, create_dirs_from, create_dir_all, write, set_permissions, ◌>>=◌, number_of,
  random_bytes,
}
use cryptomator_rs.FilePath.Equality.{eq_path-length, eq_path→eq, length-join}
use cryptomator_rs.FilePath.{Name, FilePath, eq_path, join, parent_of}
use cryptomator_rs.Rng.{try_fill_bytes_lem}

-- A step that succeeds goes on with its value.
pub >>=-ok :
    {A B : Type 0} (first : Io A) (next : A → Io B) (w w' : World) (a : A)
    → first w ≡ (ok a, w')
    → (first >>= next) w ≡ next a w'
unfolding ◌>>=◌
>>=-ok first next w w' a e = rw e refl

pub is_dir_node-eq : (o : Option Node) → is_dir_node o ≡ true → (n : ℕ) × (o ≡ some (directory n))
is_dir_node-eq none h = absurd (cc)
is_dir_node-eq (some (file n)) h = absurd (cc)
is_dir_node-eq (some (directory n)) h = (n, refl)

pub parent_of-join : (path : FilePath) (name : Name) → parent_of (join path name) ≡ path
unfolding parent_of
parent_of-join [] name = refl
parent_of-join (x ∷ []) name = refl
parent_of-join (x ∷ y ∷ path) name = ap (◌∷◌ x) (parent_of-join (y ∷ path) name)

-- No file stands on the way.
abbrev pub ClearFrom : FilePath → List Name → World → Type 0
ClearFrom made [] w = Unit {0}
ClearFrom made (name ∷ names) w =
    (is_file_node (node_at (join made name) w) ≡ false) × ClearFrom (join made name) names w

abbrev pub Clear : FilePath → World → Type 0
Clear path w = ClearFrom [] path w

-- A path that is not longer than this has no file, if it had none.
abbrev pub NoNewFile : ℕ → World → World → Type 0
NoNewFile bound w w' =
    (q : FilePath)
    → length q ≤ bound
    → is_file_node (node_at q w) ≡ false
    → is_file_node (node_at q w') ≡ false

pub ClearFrom-NoNewFile :
    (bound : ℕ) (w w' : World) (made : FilePath) (names : List Name)
    → length made + length names ≤ bound
    → NoNewFile bound w w'
    → ClearFrom made names w
    → ClearFrom made names w'
ClearFrom-NoNewFile bound w w' made [] h no_new clear = tt
ClearFrom-NoNewFile bound w w' made (name ∷ names) h no_new clear = (
  no_new (join made name) (omega (arith, length-join made name)) clear.0,
  ClearFrom-NoNewFile bound w w' (join made name) names (omega (arith, length-join made name))
      no_new clear.1,
)

-- The entropy, the locks and the coming reads are those of before.
pub record SameRest (w w' : World) : Type 0 where
  pub same_entropy : w'.entropy ≡ w.entropy
  pub same_locks : w'.locks ≡ w.locks
  pub same_events : w'.read_events ≡ w.read_events

pub SameRest-trans : (w w' w'' : World) → SameRest w w' → SameRest w' w'' → SameRest w w''
SameRest-trans w w' w'' r r' = record {
  same_entropy = r'.same_entropy ∙ r.same_entropy;
  same_locks = r'.same_locks ∙ r.same_locks;
  same_events = r'.same_events ∙ r.same_events;
}

-- Directories have been made, at paths up to this length.
pub record MadeDirs (bound : ℕ) (w w' : World) : Type 0 where
  pub grows : Grows w w'
  pub no_file :
      (q : FilePath) → is_file_node (node_at q w) ≡ false → is_file_node (node_at q w') ≡ false
  pub longer : (q : FilePath) → bound < length q → node_at q w' ≡ node_at q w
  pub rest : SameRest w w'

MadeDirs-self : (bound : ℕ) (w : World) → MadeDirs bound w w
MadeDirs-self bound w = record {
  grows = Grows-self w;
  no_file = λ q e. e;
  longer = λ q h. refl;
  rest = record { same_entropy = refl; same_locks = refl; same_events = refl };
}

MadeDirs-weaken :
    (bound bound' : ℕ) (w w' : World) → bound ≤ bound' → MadeDirs bound w w' → MadeDirs bound' w w'
MadeDirs-weaken bound bound' w w' le m = record {
  grows = m.grows;
  no_file = m.no_file;
  longer = λ q h. m.longer q (omega arith);
  rest = m.rest;
}

MadeDirs-trans :
    (bound : ℕ) (w w' w'' : World)
    → MadeDirs bound w w'
    → MadeDirs bound w' w''
    → MadeDirs bound w w''
MadeDirs-trans bound w w' w'' m m' = record {
  grows = Grows-trans w w' w'' m.grows m'.grows;
  no_file = λ q e. m'.no_file q (m.no_file q e);
  longer = λ q h. m'.longer q h ∙ m.longer q h;
  rest = SameRest-trans w w' w'' m.rest m'.rest;
}

new_dir-MadeDirs :
    (path : FilePath) (w : World)
    → 0 < length path
    → node_at path w ≡ none
    → MadeDirs (length path) w (add_node path directory w)
new_dir-MadeDirs path w room empty = record {
  grows = add_node-Grows path directory w empty room (λ n m e. absurd (cc));
  no_file = λ q e. elim (Bool-cases (eq_path q path)) [
    | inl same ↦
        ap (λ x. is_file_node (node_at x (add_node path directory w))) (eq_path→eq q path same)
        ∙ ap is_file_node (node_at-add_node path directory w room)
    | inr other ↦ ap is_file_node (node_at-add_node_other path q directory w other) ∙ e
  ];
  longer = λ q h. node_at-add_node_other path q directory w (eq_path-length q path (omega arith));
  rest = record { same_entropy = refl; same_locks = refl; same_events = refl };
}

create_dir_lem :
    (path : FilePath) (w : World) (o : Option Node)
    → node_at path w ≡ o
    → 0 < length path
    → is_file_node (node_at path w) ≡ false
    → (w' : World) × (create_dir path o w ≡ (ok tt, w'))
      × MadeDirs (length path) w w'
      × (is_dir_node (node_at path w') ≡ true)
create_dir_lem path w none e room clear = (
  add_node path directory w,
  refl,
  new_dir-MadeDirs path w room e,
  ap is_dir_node (node_at-add_node path directory w room),
)
create_dir_lem path w (some (directory n)) e room clear =
    (w, refl, MadeDirs-self (length path) w, ap is_dir_node e)
create_dir_lem path w (some (file n)) e room clear =
    let there : is_file_node (node_at path w) ≡ true = ap is_file_node e in absurd (cc)

create_dirs_from_lem :
    (names : List Name) (made : FilePath) (w : World)
    → ClearFrom made names w
    → is_dir_node (node_at made w) ≡ true
    → (w' : World) × (create_dirs_from made names w ≡ (ok tt, w'))
      × MadeDirs (length made + length names) w w'
      × (is_dir_node (node_at (made ++ names) w') ≡ true)
unfolding create_dirs_from
create_dirs_from_lem [] made w clear there = (
  w,
  refl,
  MadeDirs-self (length made + 0) w,
  ap (λ x. is_dir_node (node_at x w)) (append-nil made) ∙ there,
)
create_dirs_from_lem (name ∷ names) made w clear there =
    let here : FilePath = join made name in
    let (u, e, m, is) =
      create_dir_lem here w (node_at here w) refl (omega (arith, length-join made name)) clear.0 in
    let (w', e', m', is') =
      create_dirs_from_lem names here u
        (ClearFrom-NoNewFile (length here + length names) w u here names (omega arith)
          (λ q le. m.no_file q) clear.1)
        is in
    (
      w',
      >>=-ok _ _ w u tt e ∙ e',
      MadeDirs-trans (length made + suc (length names)) w u w'
          (MadeDirs-weaken (length here) (length made + suc (length names)) w u
            (omega (arith, length-join made name)) m)
          (MadeDirs-weaken (length here + length names) (length made + suc (length names)) u w'
            (omega (arith, length-join made name)) m'),
      ap (λ x. is_dir_node (node_at x w')) (sym (append_assoc made (name ∷ []) names)) ∙ is',
    )

-- Where no file stands on the way, the directory is made.
pub create_dir_all_lem :
    (path : FilePath) (w : World)
    → Clear path w
    → (w' : World) × (create_dir_all path w ≡ (ok tt, w'))
      × MadeDirs (length path) w w'
      × (is_dir_node (node_at path w') ≡ true)
unfolding node_at
create_dir_all_lem path w clear =
    let (w', e, m, is) = create_dirs_from_lem path [] w clear refl in
    (w', e, MadeDirs-weaken (0 + length path) (length path) w w' (omega arith) m, is)

-- A new file with these bytes has been made at the path, and nothing elsewhere.
pub record MadeFile (path : FilePath) (new : List ℕ) (w w' : World) : Type 0 where
  pub grows : Grows w w'
  pub there :
      (n : ℕ) × (node_at path w' ≡ some (file n))
      × ((w'.inodes n).bytes ≡ new)
      × (n < w'.next_number)
  pub elsewhere : (q : FilePath) → eq_path q path ≡ false → node_at q w' ≡ node_at q w
  pub rest : SameRest w w'

-- Where nothing stands at a path in a directory, the file is made.
pub write_lem :
    (path : FilePath) (new : List ℕ) (w : World)
    → 0 < length path
    → node_at path w ≡ none
    → is_dir_node (node_at (parent_of path) w) ≡ true
    → (w' : World) × (write path new w ≡ (ok tt, w')) × MadeFile path new w w'
unfolding write
write_lem path new w room empty in_dir =
    let added : World = add_node path file w in
    let inode : Inode = record { bytes = new; attr = w.fresh } in
    let self : (w.next_number == w.next_number) ≡ true = ground arith in
    let made : World = set_inode w.next_number inode added in
    (
      made,
      rw (empty, write, in_dir) refl,
      record {
        grows =
            Grows-set_inode w.next_number inode w added
              (add_node-Grows path file w empty room (λ n m e. cc)) (omega arith);
        there = (
          w.next_number,
          node_at-same path added made refl ∙ node_at-add_node path file w room,
          rw self refl,
          omega arith,
        );
        elsewhere =
            λ q other. node_at-same q added made refl ∙ node_at-add_node_other path q file w other;
        rest = record { same_entropy = refl; same_locks = refl; same_events = refl };
      },
    )

-- The permissions of what is there are set.
pub set_permissions_lem :
    (path : FilePath) (mode n : ℕ) (w : World)
    → number_of (node_at path w) ≡ ok n
    → (w' : World) × (set_permissions path mode w ≡ (ok tt, w'))
      × Grows w w'
      × (w'.entries ≡ w.entries)
      × SameRest w w'
unfolding set_permissions
set_permissions_lem path mode n w there =
    let inode : Inode = record (w.inodes n) { attr = record (w.inodes n).attr { mode = mode } } in
    (
      set_inode n inode w,
      rw (there, set_permissions) refl,
      set_inode-Grows n inode w refl,
      refl,
      record { same_entropy = refl; same_locks = refl; same_events = refl },
    )

pub random_bytes_lem :
    (n : ℕ) (w : World)
    → n ≤ length w.entropy
    → random_bytes n w ≡ (ok (take n w.entropy), record w { entropy = drop n w.entropy })
unfolding random_bytes
random_bytes_lem n w h = ground (arith, try_fill_bytes_lem w.entropy n h)
