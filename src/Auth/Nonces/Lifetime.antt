-- ===== src/Auth/Nonces/Lifetime.antt =====
-- How long a nonce of src/auth/mod.rs stays valid.
use gmv_pjsip.Prelude.{
  ℕ, ◌+◌, ◌<◌, ◌≡◌, ◌≢◌, ◌⊎◌, refl, inl, inr, false, List, [], ◌∷◌, none, some, arith, leb, ltb,
  ◌∙◌,
}
use gmv_pjsip.Text.{Text}
use gmv_pjsip.TextMap.{
  get, UniqueKeys, get-insert, get-insert_other, get-retain, insert-UniqueKeys, retain-UniqueKeys,
}
use gmv_pjsip.Auth.Nonces.{NonceStore, issue, valid, cleanup, Use, issuing, cleaning, uses}

-- The uses that do not issue the nonce once more.
abbrev pub NotReissued : Text → List Use → Type 0
NotReissued nonce [] = Unit {0}
NotReissued nonce (issuing other now ∷ us) = (nonce ≢ other) × NotReissued nonce us
NotReissued nonce (cleaning now ∷ us) = NotReissued nonce us

-- The uses that clean up do so before an instant.
abbrev pub CleanedBefore : ℕ → List Use → Type 0
CleanedBefore limit [] = Unit {0}
CleanedBefore limit (issuing other now ∷ us) = CleanedBefore limit us
CleanedBefore limit (cleaning now ∷ us) = (now < limit) × CleanedBefore limit us

-- The nonce is in the store with this instant, or is not there.
abbrev AtMost : Text → ℕ → NonceStore → Type 0
AtMost nonce v store =
    UniqueKeys store.items × ((get nonce store.items ≡ some v) ⊎ (get nonce store.items ≡ none))

-- No key stands twice, whatever is done with the store.
pub uses-UniqueKeys :
    (store : NonceStore) (us : List Use) → UniqueKeys store.items → UniqueKeys (uses store us).items
unfolding uses issue cleanup
uses-UniqueKeys store [] u = u
uses-UniqueKeys store (issuing other now ∷ us) u =
    uses-UniqueKeys (issue store other now) us
      (insert-UniqueKeys other (now + store.ttl) store.items u)
uses-UniqueKeys store (cleaning now ∷ us) u =
    uses-UniqueKeys (cleanup store now).1 us (retain-UniqueKeys (ltb now) store.items u)

kept :
    (nonce : Text) (v : ℕ) (store : NonceStore) (us : List Use)
    → UniqueKeys store.items
    → get nonce store.items ≡ some v
    → NotReissued nonce us
    → CleanedBefore v us
    → get nonce (uses store us).items ≡ some v
unfolding uses issue cleanup
kept nonce v store [] u e n c = e
kept nonce v store (issuing other now ∷ us) u e n c =
    kept nonce v (issue store other now) us
      (insert-UniqueKeys other (now + store.ttl) store.items u)
      (get-insert_other nonce other (now + store.ttl) store.items n.0 ∙ e) n.1 c
kept nonce v store (cleaning now ∷ us) u e n c =
    kept nonce v (cleanup store now).1 us (retain-UniqueKeys (ltb now) store.items u)
      (get-retain (ltb now) nonce store.items u ∙ (rw e (ground (arith, c.0)))) n c.1

at_most :
    (nonce : Text) (v : ℕ) (store : NonceStore) (us : List Use)
    → AtMost nonce v store
    → NotReissued nonce us
    → AtMost nonce v (uses store us)
unfolding uses issue cleanup
at_most nonce v store [] a n = a
at_most nonce v store (issuing other now ∷ us) a n =
    at_most nonce v (issue store other now) us
      (
        insert-UniqueKeys other (now + store.ttl) store.items a.0,
        rw (get-insert_other nonce other (now + store.ttl) store.items n.0) a.1,
      )
      n.1
at_most nonce v store (cleaning now ∷ us) a n =
    at_most nonce v (cleanup store now).1 us
      (
        retain-UniqueKeys (ltb now) store.items a.0,
        rw (get-retain (ltb now) nonce store.items a.0) (ground (arith, a.1)),
      )
      n

issue-UniqueKeys :
    (store : NonceStore) (nonce : Text) (at : ℕ)
    → UniqueKeys store.items
    → UniqueKeys (issue store nonce at).items
unfolding issue
issue-UniqueKeys store nonce at u = insert-UniqueKeys nonce (at + store.ttl) store.items u

get-issue :
    (store : NonceStore) (nonce : Text) (at : ℕ)
    → get nonce (issue store nonce at).items ≡ some (at + store.ttl)
unfolding issue
get-issue store nonce at = get-insert nonce (at + store.ttl) store.items

-- Let a nonce be issued at the instant `at` by a store in which no key stands twice, and not once
-- more. The store may issue others and clean
-- up in between, as long as it cleans up before the nonce expires. Then the nonce is valid up to the
-- instant `at` plus the lifetime, that one included, and no longer.
pub valid-issue :
    (store : NonceStore) (nonce : Text) (at : ℕ) (us : List Use) (now : ℕ)
    → UniqueKeys store.items
    → NotReissued nonce us
    → CleanedBefore (at + store.ttl) us
    → valid (uses (issue store nonce at) us) nonce now ≡ leb now (at + store.ttl)
unfolding valid
valid-issue store nonce at us now u n c =
    rw
      (
        kept nonce (at + store.ttl) (issue store nonce at) us (issue-UniqueKeys store nonce at u)
            (get-issue store nonce at) n c,
        valid,
      )
      refl

-- Once its lifetime is over, a nonce that was issued only once is not valid, whenever its store cleans
-- up.
pub valid-issue_expired :
    (store : NonceStore) (nonce : Text) (at : ℕ) (us : List Use) (now : ℕ)
    → UniqueKeys store.items
    → NotReissued nonce us
    → at + store.ttl < now
    → valid (uses (issue store nonce at) us) nonce now ≡ false
unfolding valid
valid-issue_expired store nonce at us now u n late =
    let a =
      at_most nonce (at + store.ttl) (issue store nonce at) us
        (issue-UniqueKeys store nonce at u, inl (get-issue store nonce at)) n in
    elim a.1 [ inl e ↦ rw (e, valid) (ground arith) | inr e ↦ rw (e, valid) refl ]
