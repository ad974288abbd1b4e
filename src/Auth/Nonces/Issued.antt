-- ===== src/Auth/Nonces/Issued.antt =====
-- Where the nonces in a store of src/auth/mod.rs come from.
use gmv_pjsip.Prelude.{
  ℕ, ◌+◌, ◌≤◌, ◌≡◌, ◌⊎◌, refl, sym, ◌∙◌, inl, inr, Bool, true, false, List, [], ◌∷◌, Option, none,
  some, arith, leb, ltb, Bool-cases,
}
use gmv_pjsip.Text.{Text, eq_text, eq_text_iff}
use gmv_pjsip.TextMap.{
  get, keep, UniqueKeys, get-insert, get-insert_other, get-retain, insert-UniqueKeys,
  retain-UniqueKeys,
}
use gmv_pjsip.Auth.Nonces.{NonceStore, new, issue, valid, cleanup, Use, issuing, cleaning, uses}

-- The nonce is issued at this instant.
abbrev pub IssuedAt : Text → ℕ → List Use → Type 0
IssuedAt nonce at [] = ⊥
IssuedAt nonce at (issuing other now ∷ us) = ((nonce ≡ other) × (at ≡ now)) ⊎ IssuedAt nonce at us
IssuedAt nonce at (cleaning now ∷ us) = IssuedAt nonce at us

keep-some : (p : ℕ → Bool) (o : Option ℕ) (v : ℕ) → keep p o ≡ some v → o ≡ some v
keep-some p none v e = ground arith
keep-some p (some w) v e = ground arith

get-IssuedAt :
    (store : NonceStore) (us : List Use) (nonce : Text) (v : ℕ)
    → UniqueKeys store.items
    → get nonce (uses store us).items ≡ some v
    → (get nonce store.items ≡ some v) ⊎ ((at : ℕ) × (v ≡ at + store.ttl) × IssuedAt nonce at us)
unfolding uses issue cleanup
get-IssuedAt store [] nonce v u e = inl e
get-IssuedAt store (cleaning now ∷ us) nonce v u e =
    elim (get-IssuedAt (cleanup store now).1 us nonce v (retain-UniqueKeys (ltb now) store.items u)
      e) [
        | inl f ↦ inl (keep-some (ltb now) _ v (sym (get-retain (ltb now) nonce store.items u) ∙ f))
        | inr (at, same, i) ↦ inr (at, same, i)
      ]
get-IssuedAt store (issuing other now ∷ us) nonce v u e =
    elim (get-IssuedAt (issue store other now) us nonce v
      (insert-UniqueKeys other (now + store.ttl) store.items u) e) [
        | inr (at, same, i) ↦ inr (at, same, inr i)
        | inl f ↦ elim (Bool-cases (eq_text nonce other)) [
          | inr n ↦ inl (
              sym (
                get-insert_other nonce other (now + store.ttl) store.items
                  (λ y. absurd (ground (arith, eq_text_iff nonce other))))
              ∙ f)
          | inl y ↦
              let same = (eq_text_iff nonce other).0 y in
              inr (now, now_some store other now v cc, inl (same, refl))
        ]
      ]
  where
    now_some :
        (store : NonceStore) (other : Text) (now v : ℕ)
        → get other (issue store other now).items ≡ some v
        → v ≡ now + store.ttl
    now_some store other now v f = let g = get-insert other (now + store.ttl) store.items in cc

alive :
    (o : Option ℕ) (now : ℕ)
    → (elim o [ none ↦ false | some v ↦ leb now v ]) ≡ true
    → (v : ℕ) × (o ≡ some v) × (now ≤ v)
alive none now z = absurd (ground arith)
alive (some v) now z = (v, refl, ground arith)

-- A nonce that a store finds valid was issued by it, and not longer ago than its lifetime.
pub valid-IssuedAt :
    (ttl : ℕ) (us : List Use) (nonce : Text) (now : ℕ)
    → valid (uses (new ttl) us) nonce now ≡ true
    → (at : ℕ) × (now ≤ at + ttl) × IssuedAt nonce at us
unfolding valid get
valid-IssuedAt ttl us nonce now z =
    let (v, e, in_time) = alive (get nonce (uses (new ttl) us).items) now z in
    elim (get-IssuedAt (new ttl) us nonce v tt e) [
      | inl f ↦ absurd (ground arith)
      | inr (at, same, i) ↦ (at, omega (arith, same, in_time), i)
    ]
