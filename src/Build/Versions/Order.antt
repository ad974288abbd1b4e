-- ===== src/Build/Versions/Order.antt =====
-- The comparison of versions in gmv_pjsip_sys/build.rs, against an order on triples of numbers.
use gmv_pjsip.Prelude.{
  ℕ, suc, zero, ◌+◌, ◌-◌, ◌≤◌, ◌<◌, ◌≡◌, refl, ◌⊎◌, ◌↔◌, true, false, List, [], ◌∷◌, arith, length,
  take, map,
}
use gmv_pjsip.Text.{Text}
use gmv_pjsip.Build.Versions.{front, behind, longer, parts_less, version_parts, version_less_than}

-- Major, minor and patch number; one that is missing is zero.
pub record Version : Type 0 where
  pub major : ℕ
  pub minor : ℕ
  pub patch : ℕ

abbrev pub numbers : List ℕ → Version
numbers ns = record {
  major = front ns;
  minor = front (behind ns);
  patch = front (behind (behind ns));
}

abbrev pub Earlier : Version → Version → Type 0
Earlier v w =
    (v.major < w.major)
    ⊎ ((v.major ≡ w.major) × ((v.minor < w.minor) ⊎ ((v.minor ≡ w.minor) × (v.patch < w.patch))))

length-take-map : {A B : Type 0} (f : A → B) (n : ℕ) (xs : List A) → length (map f (take n xs)) ≤ n
length-take-map f zero xs = omega arith
length-take-map f (suc n) [] = omega arith
length-take-map f (suc n) (x ∷ xs) = let h = length-take-map f n xs in omega arith

version_parts-length : (v : Text) → length (version_parts v) ≤ 3
unfolding version_parts
version_parts-length v = length-take-map _ 3 _

length-behind : (ns : List ℕ) (n : ℕ) → length ns ≤ suc n → length (behind ns) ≤ n
length-behind [] n h = omega arith
length-behind (x ∷ ns) n h = omega arith

parts_less-nil : (n : ℕ) → parts_less n [] [] ≡ false
unfolding parts_less
parts_less-nil zero = refl
parts_less-nil (suc n) = ground (arith, parts_less-nil n)

-- Rounds behind the end of both lists change nothing.
parts_less-enough :
    (n k : ℕ) (xs ys : List ℕ)
    → length xs ≤ n
    → length ys ≤ n
    → parts_less (n + k) xs ys ≡ parts_less n xs ys
unfolding parts_less
parts_less-enough zero k [] [] h l = let e : zero + k ≡ k = omega arith in rw e (parts_less-nil k)
parts_less-enough zero k (x ∷ xs) ys h l = absurd (omega arith)
parts_less-enough zero k [] (y ∷ ys) h l = absurd (omega arith)
parts_less-enough (suc n) k xs ys h l =
    let e : suc n + k ≡ suc (n + k) = omega arith in
    rw e (
      ground (
        arith,
        parts_less-enough n k (behind xs) (behind ys) (length-behind xs n h) (length-behind ys n l),
      ))

parts_less-three :
    (xs ys : List ℕ) → (parts_less 3 xs ys ≡ true) ↔ Earlier (numbers xs) (numbers ys)
unfolding parts_less
parts_less-three xs ys = ground arith

parts_less-Earlier :
    (xs ys : List ℕ)
    → length xs ≤ 3
    → length ys ≤ 3
    → (parts_less (longer (length xs) (length ys)) xs ys ≡ true) ↔ Earlier (numbers xs) (numbers ys)
parts_less-Earlier xs ys h k =
    let n = longer (length xs) (length ys) in
    let whole : n + (3 - n) ≡ 3 = ground arith in
    rw (← parts_less-enough n (3 - n) xs ys (ground arith) (ground arith))
      (rw whole (parts_less-three xs ys))

-- A version is less than another just when its major number is, or they are equal and the minor number
-- is, or those are equal too and the patch number is, where a number that is missing counts as zero.
pub version_less_than_iff :
    (found minimum : Text)
    → (version_less_than found minimum ≡ true)
      ↔ Earlier (numbers (version_parts found)) (numbers (version_parts minimum))
unfolding version_less_than
version_less_than_iff found minimum =
    parts_less-Earlier (version_parts found) (version_parts minimum) (version_parts-length found)
      (version_parts-length minimum)
