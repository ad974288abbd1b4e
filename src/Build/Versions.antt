-- ===== src/Build/Versions.antt =====
-- `version_parts` and `version_less_than` of gmv_pjsip_sys/build.rs.
pub mod Order
use gmv_pjsip.Prelude.{
  ℕ, zero, suc, ◌-◌, ◌^◌, Bool, true, false, not, List, [], ◌∷◌, Option, none, some, map, ltb,
  if◌then◌else◌, length, take,
}
use gmv_pjsip.Text.{Text, is_ascii_digit, split_by, non_empty, parse_uint}

-- `part.parse::<u32>().unwrap_or(0)`
abbrev part_value : Text → ℕ
part_value part = elim (parse_uint (2 ^ 32 - 1) part) [ none ↦ 0 | some n ↦ n ]

unfoldable pub version_parts : Text → List ℕ
unfolding split_by non_empty is_ascii_digit
version_parts version =
    map part_value (take 3 (non_empty (split_by (λ c. not (is_ascii_digit c)) version)))

-- `*parts.get(idx).unwrap_or(&0)` of the parts from `idx` on, and those behind it.
abbrev pub front : List ℕ → ℕ
front [] = 0
front (n ∷ ns) = n

abbrev pub behind : List ℕ → List ℕ
behind [] = []
behind (n ∷ ns) = ns

-- The loop over the indices that are left.
unfoldable pub parts_less : ℕ → List ℕ → List ℕ → Bool
parts_less zero found least = false
parts_less (suc n) found least =
    let rest = parts_less n (behind found) (behind least) in
    if ltb (front found) (front least)
    then true
    else if ltb (front least) (front found)
    then false
    else rest

abbrev pub longer : ℕ → ℕ → ℕ
longer m n = if ltb m n then n else m

unfoldable pub version_less_than : Text → Text → Bool
unfolding parts_less
version_less_than found minimum =
    let parts = version_parts found in
    let least = version_parts minimum in
    parts_less (longer (length parts) (length least)) parts least
