-- ===== src/Auth/Verify/Sound.antt =====
-- When src/auth/mod.rs accepts a digest.
use gmv_pjsip.Prelude.{
  ℕ, sym, ap, ◌∙◌, ◌+◌, ◌≤◌, ◌≡◌, ◌↔◌, refl, inl, inr, Bool, true, false, not, List, Option, none,
  some, arith, Bool-cases,
}
use gmv_pjsip.Error.{Result, ok, or_fail-ok, fail_if-ok, >>=-ok}
use gmv_pjsip.Text.{Text, codes, eq_text, eq_text_iff, eq_ignore_ascii_case}
use gmv_pjsip.TextMap.{TextMap, get}
use gmv_pjsip.Auth.{AuthAlgorithm, AuthCredential, plain_password}
use gmv_pjsip.Auth.Digest.{parse_digest_authorization}
use gmv_pjsip.Auth.Nonces.{new, valid, Use, uses}
use gmv_pjsip.Auth.Nonces.Issued.{IssuedAt, valid-IssuedAt}
use gmv_pjsip.Auth.Verify.{
  DigestLibrary, PasswordProvider, VerifyDigestRequest, uri_or, algorithm_of,
  StaticPasswordProvider, static_provider, static_password, credential_default,
  create_digest_response, with_credential, with_fields, verify_digest_response,
}

only_user :
    (provider : StaticPasswordProvider) (user realm : Text) (algorithm : AuthAlgorithm)
    (credential : AuthCredential)
    → (static_provider provider).credential_for user realm algorithm ≡ some credential
    → user ≡ provider.username
unfolding credential_default static_password
only_user provider user realm algorithm credential e =
    elim (Bool-cases (eq_text user provider.username)) [
      | inl y ↦ (eq_text_iff user provider.username).0 y
      | inr n ↦
          absurd (none_is (static_password provider user realm) (rw (n, static_password) refl) e)
    ]
  where
    none_is :
        (o : Option Text)
        → o ≡ none
        → (elim o [
          | none ↦ none
          | some password ↦ some (record {
            username = user;
            realm = realm;
            secret = password;
            kind = plain_password;
            algorithm = algorithm;
          })
        ])
          ≡ some credential
        → ⊥
    none_is none h y = ground arith
    none_is (some t) h y = ground arith

module _ (library : DigestLibrary) where
  -- The digest of the request under a credential.
  abbrev digest_of : VerifyDigestRequest → TextMap Text → Text → AuthCredential → Result Text
  digest_of req parts nonce credential =
      create_digest_response library credential req.method
        (uri_or (get (codes "uri") parts) req.uri) nonce (get (codes "nc") parts)
        (get (codes "cnonce") parts) (get (codes "qop") parts) (algorithm_of req parts)

  pub record Answered (req : VerifyDigestRequest) (parts : TextMap Text)
      (user nonce response : Text) (credential : AuthCredential) : Type 0 where
    pub expected : Text
    pub computed : digest_of req parts nonce credential ≡ ok expected
    pub equal : eq_ignore_ascii_case expected response ≡ true

  -- The header names the user and a nonce that is valid, and its response is, but for the case of
  -- letters, the digest that the credential of the user gives for the request.
  pub record Authentic (now : ℕ) (req : VerifyDigestRequest) (parts : TextMap Text) (user : Text)
      : Type 0 where
    pub nonce : Text
    pub response : Text
    pub credential : AuthCredential
    pub named : get (codes "username") parts ≡ some user
    pub nonced : get (codes "nonce") parts ≡ some nonce
    pub answered : get (codes "response") parts ≡ some response
    pub supported : library.is_algorithm_supported (algorithm_of req parts) ≡ true
    pub fresh : valid req.nonce_store nonce now ≡ true
    pub known :
        req.provider.credential_for user req.realm (algorithm_of req parts) ≡ some credential
    pub answer : Answered req parts user nonce response credential

  not-false : (b : Bool) → not b ≡ false → b ≡ true
  not-false b h = ground arith

  with_credential-Answered :
      (req : VerifyDigestRequest) (parts : TextMap Text) (user user' nonce response : Text)
      (credential : AuthCredential)
      → with_credential library req parts (algorithm_of req parts) user nonce response credential
        ≡ ok user'
      → (user ≡ user') × Answered req parts user nonce response credential
  unfolding with_credential
  with_credential-Answered req parts user user' nonce response credential z =
      let (expected, computed, y) = >>=-ok (digest_of req parts nonce credential) _ user' z in
      let (equal, x) =
        fail_if-ok (not (eq_ignore_ascii_case expected response)) _ (ok user) user' y in
      (cc, record { expected = expected; computed = computed; equal = not-false _ equal })

  with_fields-Authentic :
      (now : ℕ) (req : VerifyDigestRequest) (parts : TextMap Text)
      (user user' nonce response : Text)
      → get (codes "username") parts ≡ some user
      → get (codes "nonce") parts ≡ some nonce
      → get (codes "response") parts ≡ some response
      → with_fields library now req parts (algorithm_of req parts) user nonce response ≡ ok user'
      → (user ≡ user') × Authentic now req parts user
  unfolding with_fields
  with_fields-Authentic now req parts user user' nonce response named nonced answered z =
      let (supported, y) =
        fail_if-ok (not (library.is_algorithm_supported (algorithm_of req parts))) _ _ user' z in
      let (fresh, x) = fail_if-ok (not (valid req.nonce_store nonce now)) _ _ user' y in
      let (credential, known, w) =
        or_fail-ok (req.provider.credential_for user req.realm (algorithm_of req parts)) _
          (with_credential library req parts (algorithm_of req parts) user nonce response) user'
          x in
      let (same, answer) =
        with_credential-Answered req parts user user' nonce response credential w in
      (
        same,
        record {
          nonce = nonce;
          response = response;
          credential = credential;
          named = named;
          nonced = nonced;
          answered = answered;
          supported = not-false _ supported;
          fresh = not-false _ fresh;
          known = known;
          answer = answer;
        },
      )

  accepted :
      (now : ℕ) (req : VerifyDigestRequest) (user : Text)
      → verify_digest_response library now req ≡ ok user
      → Authentic now req (parse_digest_authorization req.authorization) user
  unfolding verify_digest_response
  accepted now req user z =
      let parts = parse_digest_authorization req.authorization in
      let (name, named, y) = or_fail-ok (get (codes "username") parts) _ _ user z in
      let (nonce, nonced, x) = or_fail-ok (get (codes "nonce") parts) _ _ user y in
      let (response, answered, w) = or_fail-ok (get (codes "response") parts) _ _ user x in
      let (same, a) =
        with_fields-Authentic now req parts name user nonce response named nonced answered w in
      rw (sym same) a

  accepts :
      (now : ℕ) (req : VerifyDigestRequest) (user : Text)
      → Authentic now req (parse_digest_authorization req.authorization) user
      → verify_digest_response library now req ≡ ok user
  unfolding verify_digest_response with_fields with_credential
  accepts now req user a =
      rw (a.named, a.nonced, a.answered, verify_digest_response)
        (rw (a.supported, a.fresh, a.known, with_fields)
          (rw (a.answer.computed, with_credential) (rw a.answer.equal refl)))

  -- A request is accepted for a user exactly when it is authentic: the header names the user, its nonce
  -- is valid now, the algorithm is supported, the provider knows a credential, and the response of the
  -- header equals, but for the case of letters, the digest of the request under that credential.
  pub verify_digest_response_iff :
      (now : ℕ) (req : VerifyDigestRequest) (user : Text)
      → (verify_digest_response library now req ≡ ok user)
        ↔ Authentic now req (parse_digest_authorization req.authorization) user
  verify_digest_response_iff now req user = (accepted now req user, accepts now req user)

  -- Whoever is accepted answers a challenge: the nonce of the header was issued by the store of the
  -- request, and not longer ago than its lifetime.
  pub verify_digest_response-IssuedAt :
      (ttl : ℕ) (us : List Use) (now : ℕ) (req : VerifyDigestRequest) (user : Text)
      → req.nonce_store ≡ uses (new ttl) us
      → verify_digest_response library now req ≡ ok user
      → (nonce : Text) × (get (codes "nonce") (parse_digest_authorization req.authorization)
          ≡ some nonce)
        × ((at : ℕ) × (now ≤ at + ttl) × IssuedAt nonce at us)
  verify_digest_response-IssuedAt ttl us now req user store z =
      let a = accepted now req user z in
      (a.nonce, a.nonced, valid-IssuedAt ttl us a.nonce now (rw (sym store) a.fresh))

  -- With a `StaticPasswordProvider`, nobody but the user of the provider is accepted.
  pub verify_digest_response-static_provider :
      (provider : StaticPasswordProvider) (now : ℕ) (req : VerifyDigestRequest) (user : Text)
      → req.provider ≡ static_provider provider
      → verify_digest_response library now req ≡ ok user
      → user ≡ provider.username
  unfolding credential_default static_password
  verify_digest_response-static_provider provider now req user e z =
      let a = accepted now req user z in
      only_user provider user req.realm
        (algorithm_of req (parse_digest_authorization req.authorization)) a.credential
        (sym (
            ap
              (λ (p : PasswordProvider).
                p.credential_for user req.realm
                  (algorithm_of req (parse_digest_authorization req.authorization)))
              e)
          ∙ a.known)
