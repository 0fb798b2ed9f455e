-- ===== src/Util/Hmac.antt =====
-- `hmac` of src/util.rs: HMAC-SHA256 under the MAC half of the master key.
use cryptomator_rs.Common.{ℕ, List}
use cryptomator_rs.Key.{MasterKey, mac_key}
use cryptomator_rs.Primitives.{Primitives}

unfoldable pub hmac : Primitives → List ℕ → MasterKey → List ℕ
hmac p message key = p.hmac_sha256 (mac_key key) message
