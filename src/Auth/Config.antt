-- ===== src/Auth/Config.antt =====
-- `AuthConfig` and `AuthDecision` of src/auth/mod.rs.
use gmv_pjsip.Prelude.{ℕ, ◌*◌, Bool, true, false, Option, none, some}
use gmv_pjsip.Text.{Text}
use gmv_pjsip.Auth.{AuthAlgorithm, md5}
use gmv_pjsip.Auth.Verify.{PasswordProvider}

pub record AuthConfig : Type 0 where
  pub enabled : Bool
  pub realm : Text
  pub nonce_ttl : ℕ
  pub algorithm : AuthAlgorithm
  pub provider : Option PasswordProvider

-- 300 seconds
abbrev pub default_nonce_ttl : ℕ
default_nonce_ttl = 300 * 1000000000

abbrev pub disabled : Text → AuthConfig
disabled realm = record {
  enabled = false;
  realm = realm;
  nonce_ttl = default_nonce_ttl;
  algorithm = md5;
  provider = none;
}

abbrev pub digest : Text → PasswordProvider → AuthAlgorithm → AuthConfig
digest realm provider algorithm = record {
  enabled = true;
  realm = realm;
  nonce_ttl = default_nonce_ttl;
  algorithm = algorithm;
  provider = some provider;
}

pub data AuthDecision : Type 0 where
  no_authentication : AuthDecision
  challenge : Text → Text → AuthDecision
  authorized : Text → AuthDecision
  refusal : Text → AuthDecision
