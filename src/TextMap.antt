-- ===== src/TextMap.antt =====
-- Maps keyed by texts (`HashMap<String, V>`, `DashMap<String, V>`), as association lists in which no
-- key stands twice.
use gmv_pjsip.Prelude.{
  sym, ◌≡◌, ◌≢◌, refl, Bool, List, [], ◌∷◌, Option, none, some, arith, Bool-cases, inl, inr,
  if◌then◌else◌,
}
use gmv_pjsip.Text.{Text, eq_text, eq_text_iff}

abbrev pub TextMap {ℓ} : Type ℓ → Type ℓ
TextMap A = List (Text × A)

module _ {ℓ} {A : Type ℓ} where
  unfoldable pub get : Text → TextMap A → Option A
  get key [] = none
  get key ((k, v) ∷ m) = if eq_text k key then some v else get key m

  unfoldable pub erase : Text → TextMap A → TextMap A
  erase key [] = []
  erase key ((k, v) ∷ m) = let rest = erase key m in if eq_text k key then rest else (k, v) ∷ rest

  unfoldable pub insert : Text → A → TextMap A → TextMap A
  unfolding erase
  insert key v m = (key, v) ∷ erase key m

  -- `retain`, with a test on the values
  unfoldable pub retain : (A → Bool) → TextMap A → TextMap A
  retain p [] = []
  retain p ((k, v) ∷ m) = let rest = retain p m in if p v then (k, v) ∷ rest else rest

  abbrev pub keep : (A → Bool) → Option A → Option A
  keep p none = none
  keep p (some v) = if p v then some v else none

  abbrev pub UniqueKeys : TextMap A → Type ℓ
  UniqueKeys [] = Unit
  UniqueKeys ((k, v) ∷ m) = (get k m ≡ none) × UniqueKeys m

  pub get-erase : (key : Text) (m : TextMap A) → get key (erase key m) ≡ none
  unfolding get erase
  get-erase key [] = refl
  get-erase key ((k, v) ∷ m) = ground (arith, get-erase key m)

  pub get-erase_other :
      (key other : Text) (m : TextMap A) → key ≢ other → get key (erase other m) ≡ get key m
  unfolding get erase
  get-erase_other key other [] n = refl
  get-erase_other key other ((k, v) ∷ m) n =
      ground (arith, get-erase_other key other m n, eq_text_iff k key, eq_text_iff k other)

  pub get-insert : (key : Text) (v : A) (m : TextMap A) → get key (insert key v m) ≡ some v
  unfolding get insert
  get-insert key v m = ground (arith, eq_text_iff key key)

  pub get-insert_other :
      (key other : Text) (v : A) (m : TextMap A)
      → key ≢ other
      → get key (insert other v m) ≡ get key m
  unfolding get insert
  get-insert_other key other v m n =
      ground (arith, get-erase_other key other m n, eq_text_iff other key)

  get-retain-none :
      (p : A → Bool) (key : Text) (m : TextMap A) → get key m ≡ none → get key (retain p m) ≡ none
  unfolding get retain
  get-retain-none p key [] e = refl
  get-retain-none p key ((k, v) ∷ m) e = ground (arith, get-retain-none p key m)

  get-retain_same :
      (p : A → Bool) (k key : Text) (m : TextMap A)
      → get k m ≡ none
      → k ≡ key
      → get key (retain p m) ≡ none
  get-retain_same p k key m n e = get-retain-none p key m (rw (sym e) n)

  -- A key is found behind `retain` exactly if its value passes the test.
  pub get-retain :
      (p : A → Bool) (key : Text) (m : TextMap A)
      → UniqueKeys m
      → get key (retain p m) ≡ keep p (get key m)
  unfolding get retain
  get-retain p key [] u = refl
  get-retain p key ((k, v) ∷ m) u = ground (
    arith,
    get-retain p key m u.1,
    get-retain-none p key m,
    eq_text_iff k key,
    get-retain_same p k key m u.0,
  )

  get-erase-none :
      (key other : Text) (m : TextMap A) → get key m ≡ none → get key (erase other m) ≡ none
  unfolding get erase
  get-erase-none key other [] e = refl
  get-erase-none key other ((k, v) ∷ m) e = ground (arith, get-erase-none key other m)

  erase-UniqueKeys : (key : Text) (m : TextMap A) → UniqueKeys m → UniqueKeys (erase key m)
  unfolding erase
  erase-UniqueKeys key [] u = tt
  erase-UniqueKeys key ((k, v) ∷ m) u = elim (Bool-cases (eq_text k key)) [
    | inl e ↦ rw e (erase-UniqueKeys key m u.1)
    | inr e ↦ rw e (get-erase-none k key m u.0, erase-UniqueKeys key m u.1)
  ]

  pub insert-UniqueKeys :
      (key : Text) (v : A) (m : TextMap A) → UniqueKeys m → UniqueKeys (insert key v m)
  unfolding insert
  insert-UniqueKeys key v m u = (get-erase key m, erase-UniqueKeys key m u)

  pub retain-UniqueKeys : (p : A → Bool) (m : TextMap A) → UniqueKeys m → UniqueKeys (retain p m)
  unfolding retain
  retain-UniqueKeys p [] u = tt
  retain-UniqueKeys p ((k, v) ∷ m) u = elim (Bool-cases (p v)) [
    | inl e ↦ rw e (get-retain-none p k m u.0, retain-UniqueKeys p m u.1)
    | inr e ↦ rw e (retain-UniqueKeys p m u.1)
  ]
