-- ===== src/Auth.antt =====
-- src/auth/mod.rs: the data of SIP digest authentication.
pub mod Nonces
pub mod Digest
pub mod Verify
pub mod Config
pub mod Server
use gmv_pjsip.Prelude.{Option, none, some, ◌||◌, if◌then◌else◌}
use gmv_pjsip.Text.{Text, codes, eq_text, to_ascii_uppercase, trim_quotes}

pub data AuthAlgorithm : Type 0 where
  md5 sha256 sha512_256 : AuthAlgorithm

pub data CredentialKind : Type 0 where
  plain_password digest_ha1 : CredentialKind

pub data AuthRequirement : Type 0 where
  disabled required forbidden : AuthRequirement

pub record AuthCredential : Type 0 where
  pub username : Text
  pub realm : Text
  pub secret : Text
  pub kind : CredentialKind
  pub algorithm : AuthAlgorithm

unfoldable pub iana_name : AuthAlgorithm → Text
iana_name md5 = codes "MD5"
iana_name sha256 = codes "SHA-256"
iana_name sha512_256 = codes "SHA-512-256"

-- The `match` of `from_header`.
algorithm_named : Text → AuthAlgorithm → AuthAlgorithm
algorithm_named name default =
    if eq_text name (codes "SHA-256") || eq_text name (codes "SHA256")
    then sha256
    else if eq_text name (codes "SHA-512-256")
        || eq_text name (codes "SHA512-256")
        || eq_text name (codes "SHA512_256")
    then sha512_256
    else if eq_text name (codes "MD5")
    then md5
    else default

unfoldable pub from_header : Option Text → AuthAlgorithm → AuthAlgorithm
unfolding algorithm_named
from_header none default = default
from_header (some value) default = algorithm_named (to_ascii_uppercase (trim_quotes value)) default
