-- ===== src/Vault/Unlocks.antt =====
-- A vault whose token was signed and whose key was wrapped opens (src/vault.rs, with src/key.rs and
-- src/util.rs).
use cryptomator_rs.Common.{
  ℕ, ◌≡◌, refl, sym, ◌∙◌, ap, ap₂, ◌==◌, List, [], ◌++◌, true, false, Option, some, ok, or_fail,
  jwt_failed, wrapped_key_failed, panic, missing_kid, arith,
}
use cryptomator_rs.Disk.Inversion.{or_fail-eq-ok}
use cryptomator_rs.Disk.Making.{>>=-ok}
use cryptomator_rs.Disk.{World, node_at, text_of}
use cryptomator_rs.FilePath.{Name, FilePath, parent, join_text}
use cryptomator_rs.Key.Fields.{RawWrappedKey, wrapped_of}
use cryptomator_rs.Key.File.{from_file}
use cryptomator_rs.Key.Wrapped.{Kek, IsKek, WrappedKey, wrap, from_wrapped, from_wrapped-wrap}
use cryptomator_rs.Key.{MasterKey, IsValid, raw_key}
use cryptomator_rs.Primitives.{Primitives}
use cryptomator_rs.Util.Jwt.{Validation, sign_jwt, verify_jwt}
use cryptomator_rs.Util.Kek.{derive_kek}
use cryptomator_rs.Vault.{
  VaultConfig, Unlocking, vault_validation, masterkeyfile, strip_text, unlock, open_vault,
}

-- What the token library documents: a token has the algorithm and the `kid` of its header, and
-- decodes under its secret where this algorithm is asked for, nothing is required of the claims and
-- the expiry is not checked.
pub record TokenLaws {Header Algorithm Salt Params : Type 0}
    (u : Unlocking Header Algorithm Salt Params) : Type 0 where
  pub alg_of : Header → Algorithm
  pub kid_of : Header → Option Name
  pub header_decodes :
      (header : Header) (claims : VaultConfig) (secret : List ℕ) {token : Name}
      → u.tokens.encode header claims secret ≡ some token
      → u.decode_header token ≡ some (alg_of header, kid_of header)
  pub token_decodes :
      (header : Header) (claims : VaultConfig) (secret : List ℕ) (validation : Validation Algorithm)
      {token : Name}
      → u.tokens.encode header claims secret ≡ some token
      → validation.algorithm ≡ alg_of header
      → validation.validate_exp ≡ false
      → validation.required_spec_claims ≡ []
      → u.tokens.decode token secret validation ≡ some (header, claims)
  pub new_algorithm : (alg : Algorithm) → (u.tokens.new_validation alg).algorithm ≡ alg

module _ (p : Primitives) {Header Algorithm Salt Params : Type 0}
    (u : Unlocking Header Algorithm Salt Params) (laws : TokenLaws u) where
  verify_jwt-sign_jwt :
      (header : Header) (config : VaultConfig) (key : MasterKey) {token : Name}
      → sign_jwt u.tokens header config key ≡ ok token
      → verify_jwt u.tokens token (vault_validation p u (laws.alg_of header)) key
        ≡ ok (header, config)
  unfolding sign_jwt verify_jwt
  verify_jwt-sign_jwt header config key e =
      rw
        (laws.token_decodes header config (raw_key key) (vault_validation p u (laws.alg_of header))
          (or_fail-eq-ok (u.tokens.encode header config (raw_key key)) jwt_failed e)
          (laws.new_algorithm (laws.alg_of header)) refl refl)
        refl

  read_lem :
      (path : FilePath) (json : Name) (raw : RawWrappedKey) (wrapped : WrappedKey Salt Params)
      (w : World)
      → text_of p (node_at path w) w ≡ ok json
      → u.keys.from_json json ≡ some raw
      → wrapped_of u.keys raw ≡ ok wrapped
      → from_file p u.keys path w ≡ (ok wrapped, w)
  unfolding from_file
  read_lem path json raw wrapped w text decoded parts =
      >>=-ok _ _ w w json (ap (λ r. (r, w)) text)
      ∙ >>=-ok _ _ w w raw (ap (λ o. (or_fail o wrapped_key_failed, w)) decoded)
      ∙ ap (λ r. (r, w)) parts

  value_of_ok : (a b : WrappedKey Salt Params) → ok a ≡ ok b → a ≡ b
  value_of_ok a b e = cc

  -- What `wrap` made unwraps, and has the parameters and the salt that it was given.
  wrapped_lem :
      (key : MasterKey) (kek : Kek) (params : Params) (salt : Salt) (version : ℕ)
      (wrapped : WrappedKey Salt Params)
      → IsValid key
      → IsKek kek
      → wrap p key kek params salt version ≡ ok wrapped
      → (wrapped.scrypt_params ≡ params)
        × (wrapped.scrypt_salt ≡ salt)
        × (from_wrapped p wrapped kek ≡ ok key)
  wrapped_lem key kek params salt version wrapped valid lawful wraps =
      let (x, made, same_params, same_salt, _, back) =
        from_wrapped-wrap p key kek params salt version valid lawful in
      let same : wrapped ≡ x = value_of_ok wrapped x (sym wraps ∙ made) in
      (
        ap (λ y. y.scrypt_params) same ∙ same_params,
        ap (λ y. y.scrypt_salt) same ∙ same_salt,
        ap (λ y. from_wrapped p y kek) same ∙ back,
      )

  module _ (header : Header) (config : VaultConfig) (key : MasterKey) (kek : Kek) (params : Params)
      (salt : Salt) (version : ℕ) (config_path dir path : FilePath)
      (key_file password token json : Name) (raw : RawWrappedKey) (wrapped : WrappedKey Salt Params)
      (w : World) where
    unlock_lem :
        IsValid key
        → IsKek kek
        → wrap p key kek params salt version ≡ ok wrapped
        → sign_jwt u.tokens header config key ≡ ok token
        → config.format ≡ 8
        → parent config_path ≡ some dir
        → text_of p (node_at (join_text dir key_file) w) w ≡ ok json
        → u.keys.from_json json ≡ some raw
        → wrapped_of u.keys raw ≡ ok wrapped
        → derive_kek u.keys password params salt ≡ ok kek
        → u.canonicalize dir w ≡ ok path
        → unlock p u config_path token (laws.alg_of header) password key_file w
          ≡ (ok (record { path = path; config = config; master_key = key }), w)
    unfolding unlock
    unlock_lem valid lawful wraps signed eight up text decoded parts derives canonical =
        let (same_params, same_salt, back) =
          wrapped_lem key kek params salt version wrapped valid lawful wraps in
        let derived : derive_kek u.keys password wrapped.scrypt_params wrapped.scrypt_salt
            ≡ ok kek =
          ap₂ (derive_kek u.keys password) same_params same_salt ∙ derives in
        let is_eight : (config.format == 8) ≡ true = ground arith in
        >>=-ok _ _ w w dir (ap (λ o. (or_fail o panic, w)) up)
        ∙ >>=-ok _ _ w w wrapped
            (read_lem (join_text dir key_file) json raw wrapped w text decoded parts)
        ∙ >>=-ok _ _ w w kek (ap (λ r. (r, w)) derived)
        ∙ >>=-ok _ _ w w key (ap (λ r. (r, w)) back)
        ∙ >>=-ok _ _ w w (header, config)
            (ap (λ r. (r, w)) (verify_jwt-sign_jwt header config key signed))
        ∙ rw is_eight (>>=-ok _ _ w w path (ap (λ r. (r, w)) canonical))

    -- With a token library that decodes what it encoded (where this algorithm is asked for, no
    -- claim is required and the expiry is not checked): a vault opens with its configuration, its
    -- master key and its canonical path, if the key is valid, its wrapped form under a lawful key
    -- encryption key is what the key's file holds, the password derives this key encryption key,
    -- the token in the configuration's file was signed with the master key, its header names the
    -- key's file, and the format is 8.
    pub open_vault_lem :
        IsValid key
        → IsKek kek
        → wrap p key kek params salt version ≡ ok wrapped
        → sign_jwt u.tokens header config key ≡ ok token
        → laws.kid_of header ≡ some (masterkeyfile ++ key_file)
        → config.format ≡ 8
        → parent config_path ≡ some dir
        → text_of p (node_at config_path w) w ≡ ok token
        → text_of p (node_at (join_text dir key_file) w) w ≡ ok json
        → u.keys.from_json json ≡ some raw
        → wrapped_of u.keys raw ≡ ok wrapped
        → derive_kek u.keys password params salt ≡ ok kek
        → u.canonicalize dir w ≡ ok path
        → open_vault p u config_path password w
          ≡ (ok (record { path = path; config = config; master_key = key }), w)
    unfolding open_vault sign_jwt strip_text
    open_vault_lem valid lawful wraps signed uri eight up token_text text decoded parts derives
          canonical =
        >>=-ok _ _ w w token (ap (λ r. (r, w)) token_text)
        ∙ >>=-ok _ _ w w (laws.alg_of header, laws.kid_of header)
            (ap (λ o. (or_fail o jwt_failed, w))
              (laws.header_decodes header config (raw_key key)
                (or_fail-eq-ok (u.tokens.encode header config (raw_key key)) jwt_failed signed)))
        ∙ >>=-ok _ _ w w (masterkeyfile ++ key_file) (ap (λ o. (or_fail o missing_kid, w)) uri)
        ∙ unlock_lem valid lawful wraps signed eight up text decoded parts derives canonical
