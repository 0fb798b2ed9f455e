-- ===== src/Translator/DirIds.antt =====
-- Directory ids in src/fs/translator.rs.
use cryptomator_rs.Common.{
  ◌≡◌, refl, sym, ◌∙◌, ap, append-nil, append_assoc, List, [], ◌∷◌, ◌++◌, Result, ok, err, eq_bytes,
  Option-cases, inl, inr,
}
use cryptomator_rs.Disk.ReadOnly.{ReadOnly, >>=-ReadOnly, if-ReadOnly}
use cryptomator_rs.Disk.{World, return, resume, ◌>>=◌}
use cryptomator_rs.FilePath.{Name, FilePath, join, c9s}
use cryptomator_rs.Primitives.{Primitives}
use cryptomator_rs.Translator.Naming.{path_extension}
use cryptomator_rs.Translator.{dir_id_below, dir_id_along, get_dir_id, get_cleartext_name}
use cryptomator_rs.Vault.{Vault}

module _ (p : Primitives) (v : Vault) where
  dir_id_below-ReadOnly :
      (path : FilePath) (dir_id : Name) → ReadOnly (dir_id_below p v path dir_id)
  unfolding dir_id_below
  dir_id_below-ReadOnly path dir_id =
      >>=-ReadOnly _ _ (λ w. refl)
        (λ ciphertext_path.
          >>=-ReadOnly _ _ (λ w. refl)
            (λ is_directory. if-ReadOnly is_directory _ _ (λ w. refl) (λ w. refl)))

  dir_id_along-ReadOnly :
      (above : FilePath) (dir_id : Name) (names : List Name)
      → ReadOnly (dir_id_along p v above dir_id names)
  unfolding dir_id_along
  dir_id_along-ReadOnly above dir_id [] w = refl
  dir_id_along-ReadOnly above dir_id (name ∷ names) w =
      >>=-ReadOnly _ _ (dir_id_below-ReadOnly (join above name) dir_id)
        (λ below. dir_id_along-ReadOnly (join above name) below names) w

  pub get_dir_id-ReadOnly : (path : FilePath) → ReadOnly (get_dir_id p v path)
  unfolding get_dir_id
  get_dir_id-ReadOnly path = dir_id_along-ReadOnly [] [] path

  pub get_cleartext_name-ReadOnly :
      (path : FilePath) (dir_id : Name) → ReadOnly (get_cleartext_name p v path dir_id)
  unfolding get_cleartext_name
  get_cleartext_name-ReadOnly path dir_id = elim (Option-cases (path_extension path)) [
    | inl bare ↦ rw (get_cleartext_name, bare) (λ w. refl)
    | inr (extension, given) ↦
        rw (get_cleartext_name, given)
          (if-ReadOnly (eq_bytes extension c9s) _ _
            (>>=-ReadOnly _ _ (λ w. refl) (λ ciphertext_name w. refl)) (λ w. refl))
  ]

  -- Both go on alike from the first step's outcome.
  along-resume :
      (above : FilePath) (names : List Name) (name : Name) (out : Result Name × World)
      → ((dir_id : Name) (w : World)
          → dir_id_along p v above dir_id (names ++ (name ∷ [])) w
            ≡ resume
                (dir_id_below p v ((above ++ names) ++ (name ∷ [])))
                (dir_id_along p v above dir_id names w))
      → resume (λ dir_id. dir_id_along p v above dir_id (names ++ (name ∷ []))) out
        ≡ resume
            (dir_id_below p v ((above ++ names) ++ (name ∷ [])))
            (resume (λ dir_id. dir_id_along p v above dir_id names) out)
  along-resume above names name (ok dir_id, w) same = same dir_id w
  along-resume above names name (err e, w) same = refl

  resume-return : (out : Result Name × World) → resume (λ below. return below) out ≡ out
  resume-return (ok dir_id, w) = refl
  resume-return (err e, w) = refl

  dir_id_along-append :
      (above : FilePath) (dir_id : Name) (names : List Name) (name : Name) (w : World)
      → dir_id_along p v above dir_id (names ++ (name ∷ [])) w
        ≡ resume
            (dir_id_below p v ((above ++ names) ++ (name ∷ [])))
            (dir_id_along p v above dir_id names w)
  unfolding dir_id_along ◌>>=◌
  dir_id_along-append above dir_id [] name w =
      resume-return (dir_id_below p v (join above name) dir_id w)
      ∙ ap (λ path. dir_id_below p v (path ++ (name ∷ [])) dir_id w) (sym (append-nil above))
  dir_id_along-append above dir_id (x ∷ names) name w =
      along-resume (join above x) names name (dir_id_below p v (join above x) dir_id w)
        (λ below u. dir_id_along-append (join above x) below names name u)
      ∙ ap
          (λ path. resume (dir_id_below p v (path ++ (name ∷ []))) (
            resume (λ below. dir_id_along p v (join above x) below names)
              (dir_id_below p v (join above x) dir_id w)))
          (append_assoc above (x ∷ []) names)

  -- `get_dir_id` of a path with one more name is the id of the path, and then the step below it:
  -- the id in "dir.c9r" in the ciphertext directory if that file is there, and otherwise the id of
  -- the path. An error of the first is the error of the whole.
  pub get_dir_id-join :
      (path : FilePath) (name : Name) (w : World)
      → get_dir_id p v (join path name) w
        ≡ (get_dir_id p v path >>= λ parent_dir_id. dir_id_below p v (join path name) parent_dir_id)
            w
  unfolding get_dir_id ◌>>=◌
  get_dir_id-join path name w = dir_id_along-append [] [] path name w
