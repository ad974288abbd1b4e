-- ===== src/Build/Libraries/Emission.antt =====
-- The order in which gmv_pjsip_sys/build.rs names the split libraries to the linker.
use gmv_pjsip.Prelude.{
  ℕ, suc, ◌+◌, ◌≤◌, ◌<◌, ◌≡◌, refl, ap, Bool, true, false, not, ◌&&◌, ◌||◌, List, [], ◌∷◌, ◌++◌,
  arith, ltb, leb, if◌then◌else◌, all, Bool-cases, inl, inr, ◌⊎◌, length,
}
use gmv_pjsip.Text.{Text, eq_text, eq_text_iff}
use gmv_pjsip.Build.Libraries.{
  matches_pj_lib, order, has, emit_new, emit_those, emit_bases, emit_ordered_static_pj_libs,
}

-- The position of the first base that a library matches; behind them all where there is none.
unfoldable pub rank_in : List Text → Text → ℕ
rank_in [] lib = 0
rank_in (base ∷ bases) lib =
    let rest = rank_in bases lib in if matches_pj_lib lib base then 0 else suc rest

abbrev pub distinct : List Text → Bool
distinct [] = true
distinct (x ∷ xs) = not (has x xs) && distinct xs

module _ (rank : Text → ℕ) where
  -- Each library stands before those of a higher rank.
  abbrev pub ranked : List Text → Bool
  ranked [] = true
  ranked (x ∷ xs) = all (λ y. leb (rank x) (rank y)) xs && ranked xs

  abbrev up_to : ℕ → List Text → Bool
  up_to n = all (λ x. leb (rank x) n)

  up_to-snoc :
      (n : ℕ) (xs : List Text) (x : Text)
      → up_to n (xs ++ (x ∷ [])) ≡ (up_to n xs && leb (rank x) n)
  up_to-snoc n [] x = ground arith
  up_to-snoc n (y ∷ xs) x = ground (arith, up_to-snoc n xs x)

  all-snoc :
      (m : ℕ) (xs : List Text) (x : Text)
      → all (λ y. leb m (rank y)) (xs ++ (x ∷ []))
        ≡ (all (λ y. leb m (rank y)) xs && leb m (rank x))
  all-snoc m [] x = ground arith
  all-snoc m (y ∷ xs) x = ground (arith, all-snoc m xs x)

  ranked-snoc :
      (xs : List Text) (x : Text)
      → ranked xs ≡ true
      → up_to (rank x) xs ≡ true
      → ranked (xs ++ (x ∷ [])) ≡ true
  ranked-snoc [] x h u = refl
  ranked-snoc (y ∷ xs) x h u = ground (arith, ranked-snoc xs x, all-snoc (rank y) xs x)

has-snoc :
    (a : Text) (xs : List Text) (x : Text) → has a (xs ++ (x ∷ [])) ≡ (has a xs || eq_text a x)
has-snoc a [] x = ground arith
has-snoc a (y ∷ xs) x = ground (arith, has-snoc a xs x)

eq_text_sym : (s t : Text) → eq_text s t ≡ eq_text t s
unfolding eq_text
eq_text_sym [] [] = refl
eq_text_sym [] (d ∷ t) = refl
eq_text_sym (c ∷ s) [] = refl
eq_text_sym (c ∷ s) (d ∷ t) = ground (arith, eq_text_sym s t)

distinct-snoc :
    (xs : List Text) (x : Text)
    → distinct xs ≡ true
    → has x xs ≡ false
    → distinct (xs ++ (x ∷ [])) ≡ true
distinct-snoc [] x h u = refl
distinct-snoc (y ∷ xs) x h u = ground (arith, distinct-snoc xs x, has-snoc y xs x, eq_text_sym x y)

eq_text_refl : (s : Text) → eq_text s s ≡ true
eq_text_refl s = (eq_text_iff s s).1 refl

all-has :
    (p : Text → Bool) (xs : List Text)
    → ((x : Text) → has x xs ≡ true → p x ≡ true)
    → all p xs ≡ true
all-has p [] h = refl
all-has p (x ∷ xs) h =
    let first = h x (ground (arith, eq_text_refl x)) in
    let later = all-has p xs (λ y e. h y (ground arith)) in ground arith

module _ (rank : Text → ℕ) where
  -- What was emitted so far, while the libraries of rank `n` are emitted.
  record Midway (n : ℕ) (emitted : List Text) : Type 0 where
    in_order : ranked rank emitted ≡ true
    once : distinct emitted ≡ true
    bounded : up_to rank n emitted ≡ true

  emit_new-Midway :
      (n : ℕ) (lib : Text) (emitted : List Text)
      → Midway n emitted
      → ((has lib emitted ≡ false) → rank lib ≡ n)
      → Midway n (emit_new lib emitted)
        × ((a : Text) → has a (emit_new lib emitted) ≡ (has a emitted || eq_text a lib))
  unfolding emit_new
  emit_new-Midway n lib emitted m h = elim (Bool-cases (has lib emitted)) [
    | inl e ↦ rw (e, emit_new) (m, already e)
    | inr e ↦
        rw (e, emit_new)
          (
            record {
              in_order = ranked-snoc rank emitted lib m.in_order (rw (h e) m.bounded);
              once = distinct-snoc emitted lib m.once e;
              bounded = rw (up_to-snoc rank n emitted lib) (ground (arith, h e, m.bounded));
            },
            (λ a. has-snoc a emitted lib),
          )
  ]
    where
      already :
          has lib emitted ≡ true → (a : Text) → has a emitted ≡ (has a emitted || eq_text a lib)
      already e a = elim (Bool-cases (eq_text a lib)) [
        | inl y ↦ let same : a ≡ lib = (eq_text_iff a lib).0 y in rw same (rw e)
        | inr n ↦ rw n (ground arith)
      ]

  same_test : (p : Text → Bool) (a b : Text) → eq_text a b ≡ true → p a ≡ p b
  same_test p a b e = ap p ((eq_text_iff a b).0 e)

  emit_those-Midway :
      (n : ℕ) (wanted : Text → Bool) (libs emitted : List Text)
      → Midway n emitted
      → ((x : Text) → wanted x ≡ true → has x libs ≡ true → has x emitted ≡ false → rank x ≡ n)
      → Midway n (emit_those wanted libs emitted)
        × ((a : Text)
            → has a (emit_those wanted libs emitted) ≡ (has a emitted || wanted a && has a libs))
  unfolding emit_those
  emit_those-Midway k wanted [] emitted m h = (m, (λ a. ground arith))
  emit_those-Midway k wanted (lib ∷ libs) emitted m h = elim (Bool-cases (wanted lib)) [
    | inl y ↦
        let (m', c) =
          emit_new-Midway k lib emitted m (λ e. h lib y (ground (arith, eq_text_refl lib)) e) in
        let (m'', c') =
          emit_those-Midway k wanted libs (emit_new lib emitted) m'
            (λ x w l e. h x w (ground arith) (ground (arith, c x))) in
        rw (y, emit_those) (m'', (λ a. ground (arith, c a, c' a, same_test wanted a lib, y)))
    | inr skip ↦
        let (m', c) =
          emit_those-Midway k wanted libs emitted m (λ x w l e. h x w (ground arith) e) in
        rw (skip, emit_those) (m', (λ a. ground (arith, c a, same_test wanted a lib, skip)))
  ]

  -- What was emitted once the libraries of a rank below `n` are done.
  record Stage (n : ℕ) (libs emitted : List Text) : Type 0 where
    in_order : ranked rank emitted ≡ true
    once : distinct emitted ≡ true
    content : (x : Text) → has x emitted ≡ (has x libs && ltb (rank x) n)

  -- One pass over the libraries: the test picks those of rank `n`, and no other that is not out yet.
  Stage-next :
      (n : ℕ) (wanted : Text → Bool) (libs emitted : List Text)
      → ((x : Text) → wanted x ≡ true → rank x ≤ n)
      → ((x : Text) → rank x ≡ n → wanted x ≡ true)
      → Stage n libs emitted
      → Stage (suc n) libs (emit_those wanted libs emitted)
  Stage-next n wanted libs emitted low high s =
      let (m, c) =
        emit_those-Midway n wanted libs emitted
          (record {
            in_order = s.in_order;
            once = s.once;
            bounded = all-has (λ x. leb (rank x) n) emitted (λ x e. ground (arith, s.content x));
          })
          (λ x w l e. ground (arith, s.content x, low x w)) in
      record {
        in_order = m.in_order;
        once = m.once;
        content = λ x. ground (arith, c x, s.content x, low x, high x);
      }

  emit_bases-Stage :
      (n : ℕ) (bases libs emitted : List Text)
      → ((x : Text) → (rank x < n) ⊎ (rank x ≡ n + rank_in bases x))
      → Stage n libs emitted
      → (k : ℕ) × (k ≡ n + length bases) × Stage k libs (emit_bases bases libs emitted)
  unfolding emit_bases rank_in
  emit_bases-Stage n [] libs emitted r s = (n, omega arith, s)
  emit_bases-Stage n (base ∷ bases) libs emitted r s =
      let s' =
        Stage-next n (λ x. matches_pj_lib x base) libs emitted (λ x w. ground (arith, r x))
          (λ x e. ground (arith, r x)) s in
      let (k, e, s'') =
        emit_bases-Stage (suc n) bases libs (emit_those (λ x. matches_pj_lib x base) libs emitted)
          (λ x. ground (arith, r x)) s' in
      (k, omega arith, s'')

rank_in-length : (bases : List Text) (x : Text) → rank_in bases x ≤ length bases
unfolding rank_in
rank_in-length [] x = omega arith
rank_in-length (b ∷ bases) x = ground (arith, rank_in-length bases x)

-- Every library that was found is named to the linker, nothing else is, and none is named twice; and a
-- library stands before every library whose base comes later in the list of the bases, those of no
-- base at the very end.
pub emit_ordered_static_pj_libs-ranked :
    (libs : List Text)
    → ((lib : Text) → has lib (emit_ordered_static_pj_libs libs) ≡ has lib libs)
      × (distinct (emit_ordered_static_pj_libs libs) ≡ true)
      × (ranked (rank_in order) (emit_ordered_static_pj_libs libs) ≡ true)
unfolding emit_ordered_static_pj_libs
emit_ordered_static_pj_libs-ranked libs =
    let start : Stage (rank_in order) 0 libs [] = record {
      in_order = refl;
      once = refl;
      content = λ x. ground arith;
    } in
    let (k, e, s) =
      emit_bases-Stage (rank_in order) 0 order libs [] (λ x. inr (omega arith)) start in
    let last =
      Stage-next (rank_in order) k (λ x. true) libs (emit_bases order libs [])
        (λ x w. omega (arith, rank_in-length order x)) (λ x f. refl) s in
    ((λ lib. ground (arith, last.content lib, rank_in-length order lib)), last.once, last.in_order)
