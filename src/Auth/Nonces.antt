-- ===== src/Auth/Nonces.antt =====
-- `NonceStore` of src/auth/mod.rs. The instants are nanoseconds of one clock; the clock's reading and
-- the random nonce are arguments.
use gmv_pjsip.Prelude.{
  ℕ, ◌+◌, ◌-◌, Bool, true, false, List, [], ◌∷◌, Option, none, some, leb, ltb, length,
}
pub mod Lifetime
pub mod Issued
use gmv_pjsip.Text.{Text}
use gmv_pjsip.TextMap.{TextMap, get, insert, retain}

pub record NonceStore : Type 0 where
  pub items : TextMap ℕ
  pub ttl : ℕ

abbrev pub new : ℕ → NonceStore
new ttl = record { items = []; ttl = ttl }

unfoldable pub issue : NonceStore → Text → ℕ → NonceStore
issue store nonce now = record store { items = insert nonce (now + store.ttl) store.items }

unfoldable pub valid : NonceStore → Text → ℕ → Bool
valid store nonce now = elim (get nonce store.items) [ none ↦ false | some v ↦ leb now v ]

-- The number of items removed, and the store.
unfoldable pub cleanup : NonceStore → ℕ → ℕ × NonceStore
cleanup store now =
    let items' = retain (ltb now) store.items in
    (length store.items - length items', record store { items = items' })

-- What callers do with the store.
pub data Use : Type 0 where
  issuing : Text → ℕ → Use
  cleaning : ℕ → Use

unfoldable pub uses : NonceStore → List Use → NonceStore
unfolding issue cleanup
uses store [] = store
uses store (issuing nonce now ∷ us) = uses (issue store nonce now) us
uses store (cleaning now ∷ us) = uses (cleanup store now).1 us
