-- ===== src/Util/Jwt.antt =====
-- `sign_jwt` and `verify_jwt` of src/util.rs. The jsonwebtoken crate is a parameter.
use cryptomator_rs.Common.{ℕ, List, Bool, Option, Result, or_fail, jwt_failed}
use cryptomator_rs.FilePath.{Name}
use cryptomator_rs.Key.{MasterKey, raw_key}

-- What `Validation` asks of a token: its algorithm, whether it may have expired, and the claims
-- that it must have.
pub record Validation (Algorithm : Type 0) : Type 0 where
  pub algorithm : Algorithm
  pub validate_exp : Bool
  pub required_spec_claims : List Name

-- Encoding under a secret, and decoding with the checks. `new_validation` is `Validation::new`.
pub record Tokens (Header Algorithm Claims : Type 0) : Type 0 where
  pub encode : Header → Claims → List ℕ → Option Name
  pub decode : Name → List ℕ → Validation Algorithm → Option (Header × Claims)
  pub new_validation : Algorithm → Validation Algorithm

module _ {Header Algorithm Claims : Type 0} (t : Tokens Header Algorithm Claims) where
  unfoldable pub sign_jwt : Header → Claims → MasterKey → Result Name
  sign_jwt header claims key = or_fail (t.encode header claims (raw_key key)) jwt_failed

  unfoldable pub verify_jwt : Name → Validation Algorithm → MasterKey → Result (Header × Claims)
  verify_jwt token validation key = or_fail (t.decode token (raw_key key) validation) jwt_failed
