-- ===== src/Auth/Verify.antt =====
-- `create_digest_response` of src/auth/pjsip_digest.rs, and `verify_digest_response` and the
-- `PasswordProvider`s of src/auth/mod.rs. The digests are those of the C library.
use Prim.Native.String.{String}
pub mod Sound
use gmv_pjsip.Prelude.{ℕ, Bool, true, false, not, List, [], ◌∷◌, Option, none, some, if◌then◌else◌}
use gmv_pjsip.Prelude.Int.{ℤ, is_zero}
use gmv_pjsip.Error.{
  Result, ok, err, ◌>>=◌, ◌>>◌, fail_if, or_fail, auth_failed, contains_nul, unsupported_digest,
  digest_failed,
}
use gmv_pjsip.Text.{Text, codes, eq_text, eq_ignore_ascii_case}
use gmv_pjsip.TextMap.{TextMap, get}
use gmv_pjsip.Runtime.Checks.{has_nul}
use gmv_pjsip.Auth.{
  AuthAlgorithm, AuthRequirement, required, AuthCredential, CredentialKind, plain_password,
  from_header, iana_name,
}
use gmv_pjsip.Auth.Digest.{parse_digest_authorization}
use gmv_pjsip.Auth.Nonces.{NonceStore, valid}

-- The arguments of `gmv_pjsip_auth_create_digest2`.
pub record DigestInput : Type 0 where
  pub username : Text
  pub realm : Text
  pub secret : Text
  pub kind : CredentialKind
  pub method : Text
  pub uri : Text
  pub nonce : Text
  pub nc : Text
  pub cnonce : Text
  pub qop : Text
  pub algorithm : AuthAlgorithm

-- The C library: which algorithms it supports, and the status and the digest it computes.
pub record DigestLibrary : Type 0 where
  pub is_algorithm_supported : AuthAlgorithm → Bool
  pub create_digest2 : DigestInput → ℤ × Text

-- `CString::new`
unfoldable pub cstring : String → Text → Result Text
cstring name value = if has_nul value then err (contains_nul name) else ok value

-- `unwrap_or_default`
abbrev pub or_default : Option Text → Text
or_default none = []
or_default (some t) = t

pub record PasswordProvider : Type 0 where
  pub requirement_for : Text → Text → AuthRequirement
  pub password_for : Text → Text → Option Text
  pub credential_for : Text → Text → AuthAlgorithm → Option AuthCredential

-- The default methods of the trait.
abbrev pub requirement_default : Text → Text → AuthRequirement
requirement_default username realm = required

unfoldable pub credential_default :
    (Text → Text → Option Text) → Text → Text → AuthAlgorithm → Option AuthCredential
credential_default password_for username realm algorithm = elim (password_for username realm) [
  | none ↦ none
  | some password ↦ some (record {
    username = username;
    realm = realm;
    secret = password;
    kind = plain_password;
    algorithm = algorithm;
  })
]

pub record StaticPasswordProvider : Type 0 where
  pub username : Text
  pub password : Text

unfoldable pub static_password : StaticPasswordProvider → Text → Text → Option Text
static_password provider username realm =
    if eq_text username provider.username then some provider.password else none

abbrev pub static_provider : StaticPasswordProvider → PasswordProvider
static_provider provider = record {
  requirement_for = requirement_default;
  password_for = static_password provider;
  credential_for = credential_default (static_password provider);
}

pub record VerifyDigestRequest : Type 0 where
  pub method : Text
  pub uri : Text
  pub authorization : Text
  pub realm : Text
  pub default_algorithm : AuthAlgorithm
  pub nonce_store : NonceStore
  pub provider : PasswordProvider

-- `parts.get("uri").unwrap_or(req.uri)`
abbrev pub uri_or : Option Text → Text → Text
uri_or none uri = uri
uri_or (some u) uri = u

abbrev pub algorithm_of : VerifyDigestRequest → TextMap Text → AuthAlgorithm
algorithm_of req parts = from_header (get (codes "algorithm") parts) req.default_algorithm

module _ (library : DigestLibrary) where
  unfoldable pub digest_result : ℤ × Text → Result Text
  digest_result (status, digest) = if is_zero status then ok digest else err (digest_failed status)

  unfoldable pub create_digest_response :
      AuthCredential
      → Text
      → Text
      → Text
      → Option Text
      → Option Text
      → Option Text
      → AuthAlgorithm
      → Result Text
  unfolding digest_result cstring
  create_digest_response credential method uri nonce nc cnonce qop algorithm = do
    fail_if (not (library.is_algorithm_supported algorithm))
        (unsupported_digest "PJSIP does not support digest algorithm" (iana_name algorithm))
    username ← cstring "username" credential.username
    realm ← cstring "realm" credential.realm
    secret ← cstring "secret" credential.secret
    method' ← cstring "method" method
    uri' ← cstring "uri" uri
    nonce' ← cstring "nonce" nonce
    nc' ← cstring "nc" (or_default nc)
    cnonce' ← cstring "cnonce" (or_default cnonce)
    qop' ← cstring "qop" (or_default qop)
    digest_result (
        library.create_digest2 (record {
          username = username;
          realm = realm;
          secret = secret;
          kind = credential.kind;
          method = method';
          uri = uri';
          nonce = nonce';
          nc = nc';
          cnonce = cnonce';
          qop = qop';
          algorithm = algorithm;
        }))

  -- The end of `verify_digest_response`, with the credential found.
  unfoldable pub with_credential :
      VerifyDigestRequest
      → TextMap Text
      → AuthAlgorithm
      → Text
      → Text
      → Text
      → AuthCredential
      → Result Text
  with_credential req parts algorithm username nonce response credential = do
    expected ←
        create_digest_response credential req.method (uri_or (get (codes "uri") parts) req.uri)
          nonce (get (codes "nc") parts) (get (codes "cnonce") parts) (get (codes "qop") parts)
          algorithm
    fail_if (not (eq_ignore_ascii_case expected response)) (auth_failed "digest response mismatch")
    ok username

  -- What follows the three fields that have to be there.
  unfoldable pub with_fields :
      ℕ → VerifyDigestRequest → TextMap Text → AuthAlgorithm → Text → Text → Text → Result Text
  unfolding with_credential
  with_fields now req parts algorithm username nonce response = do
    fail_if (not (library.is_algorithm_supported algorithm))
        (unsupported_digest "digest algorithm" (iana_name algorithm))
    fail_if (not (valid req.nonce_store nonce now)) (auth_failed "nonce expired or unknown")
    credential ←
        or_fail (req.provider.credential_for username req.realm algorithm)
          (auth_failed "credential not found")
    with_credential req parts algorithm username nonce response credential

  -- The user's name, if the digest is right. `now` is the clock's reading.
  unfoldable pub verify_digest_response : ℕ → VerifyDigestRequest → Result Text
  unfolding with_fields
  verify_digest_response now req = do
    let parts = parse_digest_authorization req.authorization
    username ← or_fail (get (codes "username") parts) (auth_failed "missing username")
    nonce ← or_fail (get (codes "nonce") parts) (auth_failed "missing nonce")
    response ← or_fail (get (codes "response") parts) (auth_failed "missing response")
    with_fields now req parts (algorithm_of req parts) username nonce response
