-- ===== src/Build/Libraries/Sorting.antt =====
-- The list of the split libraries that gmv_pjsip_sys/build.rs collects.
use gmv_pjsip.Prelude.{
  ◌≡◌, refl, ap, sym, ◌∙◌, Bool, true, false, not, ◌&&◌, ◌||◌, List, [], ◌∷◌, Option, none, some,
  arith, Bool-cases, inl, inr,
}
use gmv_pjsip.Text.{Text, eq_text, eq_text_iff}
use gmv_pjsip.Build.Libraries.{
  less_text, insert_sorted, sort, dedup, split_libs, collect_split_pj_static_libs, has,
}

-- Each text is less than the next.
abbrev pub increasing : List Text → Bool
increasing [] = true
increasing (x ∷ []) = true
increasing (x ∷ y ∷ ys) = less_text x y && increasing (y ∷ ys)

abbrev rising : List Text → Bool
rising [] = true
rising (x ∷ []) = true
rising (x ∷ y ∷ ys) = not (less_text y x) && rising (y ∷ ys)

-- Of two texts, one is less or they are the same.
less_text-total : (s t : Text) → (less_text s t || less_text t s || eq_text s t) ≡ true
unfolding less_text eq_text
less_text-total [] [] = refl
less_text-total [] (d ∷ t) = refl
less_text-total (c ∷ s) [] = refl
less_text-total (c ∷ s) (d ∷ t) = ground (arith, less_text-total s t)

less_text-asym : (s t : Text) → less_text s t ≡ true → less_text t s ≡ false
unfolding less_text
less_text-asym [] [] h = refl
less_text-asym [] (d ∷ t) h = refl
less_text-asym (c ∷ s) [] h = absurd (ground arith)
less_text-asym (c ∷ s) (d ∷ t) h = ground (arith, less_text-asym s t)

insert_sorted-rising :
    (x : Text) (ys : List Text) → rising ys ≡ true → rising (insert_sorted x ys) ≡ true
unfolding insert_sorted
insert_sorted-rising x [] h = refl
insert_sorted-rising x (y ∷ []) h = ground (arith, less_text-asym y x)
insert_sorted-rising x (y ∷ z ∷ ys) h =
    ground (arith, insert_sorted-rising x (z ∷ ys), less_text-asym y x)

sort-rising : (xs : List Text) → rising (sort xs) ≡ true
unfolding sort
sort-rising [] = refl
sort-rising (x ∷ xs) = insert_sorted-rising x (sort xs) (sort-rising xs)

abbrev head : List Text → Option Text
head [] = none
head (x ∷ xs) = some x

dedup-head : (y : Text) (ys : List Text) → head (dedup (y ∷ ys)) ≡ some y
unfolding dedup
dedup-head y [] = refl
dedup-head y (z ∷ zs) = elim (Bool-cases (eq_text y z)) [
  | inl e ↦
      let same : y ≡ z = (eq_text_iff y z).0 e in
      rw (e, dedup) (dedup-head z zs ∙ ap some (sym same))
  | inr e ↦ rw (e, dedup)
]

increasing-cons :
    (x y : Text) (l : List Text)
    → head l ≡ some y
    → less_text x y ≡ true
    → increasing l ≡ true
    → increasing (x ∷ l) ≡ true
increasing-cons x y [] e s h = refl
increasing-cons x y (z ∷ l) e s h =
    let same : z ≡ y = ground arith in let below : less_text x z ≡ true = rw same s in rw below h

dedup-increasing : (xs : List Text) → rising xs ≡ true → increasing (dedup xs) ≡ true
unfolding dedup
dedup-increasing [] h = refl
dedup-increasing (x ∷ []) h = refl
dedup-increasing (x ∷ y ∷ ys) h =
    let later = dedup-increasing (y ∷ ys) (ground arith) in
    elim (Bool-cases (eq_text x y)) [
      | inl e ↦ rw (e, dedup) later
      | inr e ↦
          rw (e, dedup)
            (increasing-cons x y (dedup (y ∷ ys)) (dedup-head y ys)
              (ground (arith, less_text-total x y)) later)
    ]

insert_sorted-has :
    (a x : Text) (ys : List Text) → has a (insert_sorted x ys) ≡ (eq_text a x || has a ys)
unfolding insert_sorted
insert_sorted-has a x [] = refl
insert_sorted-has a x (y ∷ ys) = ground (arith, insert_sorted-has a x ys)

sort-has : (a : Text) (xs : List Text) → has a (sort xs) ≡ has a xs
unfolding sort
sort-has a [] = refl
sort-has a (x ∷ xs) = rw (insert_sorted-has a x (sort xs), sort-has a xs)

dedup-has : (a : Text) (xs : List Text) → has a (dedup xs) ≡ has a xs
unfolding dedup
dedup-has a [] = refl
dedup-has a (x ∷ []) = refl
dedup-has a (x ∷ y ∷ ys) = elim (Bool-cases (eq_text x y)) [
  | inl e ↦
      let same : x ≡ y = (eq_text_iff x y).0 e in
      rw (e, dedup) (rw (dedup-has a (y ∷ ys), same) (ground arith))
  | inr e ↦ rw (e, dedup, dedup-has a (y ∷ ys))
]

-- The libraries collected are in strictly rising order, so none of them comes twice; and they are the
-- libraries that the entries of the directory stand for, no more and no less.
pub collect_split_pj_static_libs-increasing :
    (entries : List Text)
    → (increasing (collect_split_pj_static_libs entries) ≡ true)
      × ((lib : Text)
          → has lib (collect_split_pj_static_libs entries) ≡ has lib (split_libs entries))
unfolding collect_split_pj_static_libs
collect_split_pj_static_libs-increasing entries = (
  dedup-increasing (sort (split_libs entries)) (sort-rising (split_libs entries)),
  (λ lib. dedup-has lib (sort (split_libs entries)) ∙ sort-has lib (split_libs entries)),
)
