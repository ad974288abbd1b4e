-- ===== src/Tests/Auth.antt =====
-- The digest authentication of src/auth/ over a library that answers every request alike.
use gmv_pjsip.Prelude.{ℕ, ◌+◌, ◌≤◌, ◌≡◌, ◌↔◌, refl, true, false, List, [], ◌∷◌, some, arith}
use gmv_pjsip.Prelude.Int.{pos}
use gmv_pjsip.Error.{ok}
use gmv_pjsip.Text.{
  Text, codes, as_bytes, split, strip_prefix, trim, split_once, eq_text, to_ascii_lowercase,
  trim_quotes, eq_ignore_ascii_case,
}
use gmv_pjsip.TextMap.{get, insert}
use gmv_pjsip.Auth.{md5}
use gmv_pjsip.Auth.Digest.{parse_digest_authorization}
use gmv_pjsip.Auth.Nonces.{new, issue, valid, Use, issuing, cleaning, uses}
use gmv_pjsip.Auth.Nonces.Lifetime.{uses-UniqueKeys, valid-issue, valid-issue_expired}
use gmv_pjsip.Auth.Nonces.Issued.{IssuedAt}
use gmv_pjsip.Auth.Verify.{
  DigestLibrary, VerifyDigestRequest, StaticPasswordProvider, static_provider,
  verify_digest_response, cstring, create_digest_response, credential_default, static_password,
}
use gmv_pjsip.Auth.Verify.Sound.{
  Authentic, verify_digest_response_iff, verify_digest_response-IssuedAt,
  verify_digest_response-static_provider,
}

abbrev library : DigestLibrary
library = record { is_algorithm_supported = λ _. true; create_digest2 = λ _. (pos 0, codes "00ff") }

abbrev account : StaticPasswordProvider
account = record { username = codes "camera"; password = codes "secret" }

abbrev before : List Use
before = issuing (codes "n0") 10 ∷ []

abbrev behind : List Use
behind = issuing (codes "n2") 40 ∷ cleaning 60 ∷ []

abbrev history : List Use
history = issuing (codes "n1") 20 ∷ []

abbrev register : VerifyDigestRequest
register = record {
  method = codes "REGISTER";
  uri = codes "sip:server";
  authorization = codes "Digest username=\"camera\", nonce=\"n1\", response=\"00FF\"";
  realm = codes "3402000000";
  default_algorithm = md5;
  nonce_store = uses (new 100) history;
  provider = static_provider account;
}

accepted : verify_digest_response library 120 register ≡ ok (codes "camera")
unfolding verify_digest_response create_digest_response cstring uses issue valid get
    parse_digest_authorization as_bytes credential_default static_password split strip_prefix trim
    split_once insert eq_text to_ascii_lowercase trim_quotes eq_ignore_ascii_case
accepted = refl

verify_digest_response_iff_example :
    (verify_digest_response library 120 register ≡ ok (codes "camera"))
    ↔ Authentic library 120 register
        (parse_digest_authorization register.authorization)
        (codes "camera")
verify_digest_response_iff_example =
    verify_digest_response_iff library 120 register (codes "camera")

verify_digest_response-IssuedAt_example :
    (nonce : Text) × (get (codes "nonce") (parse_digest_authorization register.authorization)
      ≡ some nonce)
    × ((at : ℕ) × (120 ≤ at + 100) × IssuedAt nonce at history)
verify_digest_response-IssuedAt_example =
    verify_digest_response-IssuedAt library 100 history 120 register (codes "camera") refl accepted

verify_digest_response-static_provider_example : codes "camera" ≡ account.username
verify_digest_response-static_provider_example =
    verify_digest_response-static_provider library account 120 register (codes "camera") refl
      accepted

valid-issue_example :
    valid (uses (issue (uses (new 100) before) (codes "n1") 20) behind) (codes "n1") 120 ≡ true
unfolding uses
valid-issue_example =
    valid-issue (uses (new 100) before) (codes "n1") 20 behind 120
      (uses-UniqueKeys (new 100) before tt) (λ e. ground arith, tt) (omega arith, tt)

valid-issue_expired_example :
    valid (uses (issue (uses (new 100) before) (codes "n1") 20) behind) (codes "n1") 121 ≡ false
unfolding uses
valid-issue_expired_example =
    valid-issue_expired (uses (new 100) before) (codes "n1") 20 behind 121
      (uses-UniqueKeys (new 100) before tt) (λ e. ground arith, tt) (omega arith)
