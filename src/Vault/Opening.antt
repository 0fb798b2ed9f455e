-- ===== src/Vault/Opening.antt =====
-- What a vault that opens (src/vault.rs) has passed.
use mathlib.Core.Path.{subst}
use cryptomator_rs.Common.{
  ◌==◌, ◌≡◌, refl, Bool, ap, Option, none, some, Result, ok, jwt_failed, unsupported_format, arith,
  if◌then◌else◌, true, false,
}
use cryptomator_rs.Disk.Inversion.{>>=-eq-ok, or_fail-eq-ok}
use cryptomator_rs.Disk.{World, Io, return, ◌>>=◌, text_of, node_at, fail_with}
use cryptomator_rs.FilePath.{Name, FilePath}
use cryptomator_rs.Key.{MasterKey}
use cryptomator_rs.Util.Jwt.{verify_jwt}
use cryptomator_rs.Primitives.{Primitives}
use cryptomator_rs.Vault.{
  Vault, VaultConfig, Unlocking, vault_validation, by_key_file, unlock, open_vault, strip_text,
  masterkeyfile,
}

module _ (p : Primitives) {Header Algorithm Salt Params : Type 0}
    (u : Unlocking Header Algorithm Salt Params) where
  -- The vault's configuration is what the token says under the vault's own key.
  pub record IsVerified (jwt : Name) (alg : Algorithm) (v : Vault) : Type 0 where
    pub format_eight : v.config.format ≡ 8
    pub decoded :
        (header : Header) × (verify_jwt u.tokens jwt (vault_validation p u alg) v.master_key
          ≡ ok (header, v.config))

  checked-eq-ok :
      (b : Bool) (go : Io Vault) (w : World) {w' : World} {v : Vault}
      → (if b then go else fail_with unsupported_format) w ≡ (ok v, w')
      → (b ≡ true) × (go w ≡ (ok v, w'))
  checked-eq-ok true go w e = (refl, e)
  checked-eq-ok false go w e = cc

  same_value :
      (a b : Vault) (w w' : World) → ◌≡◌ {A = Result Vault × World} (ok a, w) (ok b, w') → a ≡ b
  same_value a b w w' e = cc

  opened-IsVerified :
      (jwt : Name) (alg : Algorithm) (key : MasterKey) (config : VaultConfig) (path : Io FilePath)
      (w w' : World) (v : Vault) (header : Header)
      → verify_jwt u.tokens jwt (vault_validation p u alg) key ≡ ok (header, config)
      → config.format ≡ 8
      → (path >>= λ q. return (record { path = q; config = config; master_key = key })) w
        ≡ (ok v, w')
      → IsVerified jwt alg v
  opened-IsVerified jwt alg key config path w w' v header decodes eight e =
      let (q, w1, e1, r1) = >>=-eq-ok path _ w e in
      subst (IsVerified jwt alg)
        (same_value (record { path = q; config = config; master_key = key }) v w1 w' r1)
        (record { format_eight = eight; decoded = (header, decodes) })

  unlock-IsVerified :
      (config_path : FilePath) (jwt : Name) (alg : Algorithm) (password key_file : Name)
      → (w w' : World) (v : Vault) → unlock p u config_path jwt alg password key_file w ≡ (ok v, w')
      → IsVerified jwt alg v
  unfolding unlock
  unlock-IsVerified config_path jwt alg password key_file w w' v e =
      let (config_dir, w1, e1, r1) = >>=-eq-ok _ _ w e in
      let (wrapped_key, w2, e2, r2) = >>=-eq-ok _ _ w1 r1 in
      let (kek, w3, e3, r3) = >>=-eq-ok _ _ w2 r2 in
      let (key, w4, e4, r4) = >>=-eq-ok _ _ w3 r3 in
      let (token_data, w5, e5, r5) = >>=-eq-ok _ _ w4 r4 in
      let (eight, r6) = checked-eq-ok (token_data.1.format == 8) _ w5 r5 in
      opened-IsVerified jwt alg key token_data.1 _ w5 w' v token_data.0 (ap (λ out. out.0) e5)
        (ground arith) r6

  by_uri :
      (rest : Option Name) (config_path : FilePath) (jwt : Name) (alg : Algorithm) (password : Name)
      → (w w' : World) (v : Vault)
      → by_key_file p u config_path jwt alg password rest w ≡ (ok v, w')
      → IsVerified jwt alg v
  by_uri none config_path jwt alg password w w' v e = cc
  by_uri (some key_file) config_path jwt alg password w w' v e =
      unlock-IsVerified config_path jwt alg password key_file w w' v e

  -- If `open` succeeds, then the file at the path is the text of a token whose header decodes, the
  -- vault's configuration is what the token library decodes from this token with the header's
  -- algorithm and the vault's master key as the secret, and its format is 8.
  pub open_vault-IsVerified :
      (config_path : FilePath) (password : Name) (w w' : World) (v : Vault)
      → open_vault p u config_path password w ≡ (ok v, w')
      → (jwt : Name) × (alg : Algorithm) × (kid : Option Name) × (text_of p
            (node_at config_path w)
            w
          ≡ ok jwt)
        × (u.decode_header jwt ≡ some (alg, kid))
        × IsVerified jwt alg v
  unfolding open_vault
  open_vault-IsVerified config_path password w w' v e =
      let (jwt, w1, e1, r1) = >>=-eq-ok _ _ w e in
      let (head, w2, e2, r2) = >>=-eq-ok _ _ w1 r1 in
      let (uri, w3, e3, r3) = >>=-eq-ok _ _ w2 r2 in
      (
        jwt,
        head.0,
        head.1,
        ap (λ out. out.0) e1,
        or_fail-eq-ok (u.decode_header jwt) jwt_failed (ap (λ out. out.0) e2),
        by_uri (strip_text masterkeyfile uri) config_path jwt head.0 password w3 w' v r3,
      )
