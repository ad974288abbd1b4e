-- ===== src/Build/Libraries.antt =====
-- `dynamic_library_name`, `find_single_project_library`, `collect_split_pj_static_libs`,
-- `is_pjproject_split_lib`, `emit_ordered_static_pj_libs` and `matches_pj_lib` of
-- gmv_pjsip_sys/build.rs. What the file system answers is an argument.
pub mod Sorting
pub mod Emission
use gmv_pjsip.Prelude.{
  ℕ, Bool, true, false, not, ◌&&◌, ◌||◌, List, [], ◌∷◌, ◌++◌, Option, none, some, ltb, ◌==◌,
  if◌then◌else◌, any,
}
use gmv_pjsip.Text.{Text, codes, eq_text, starts_with}

-- `name.strip_suffix(suffix)` for a suffix that is not empty
unfoldable pub strip_suffix : Text → Text → Option Text
unfolding eq_text
strip_suffix suffix [] = none
strip_suffix suffix (c ∷ s) =
    let rest = strip_suffix suffix s in
    if eq_text suffix (c ∷ s)
    then some []
    else elim rest [ none ↦ none | some front ↦ some (c ∷ front) ]

-- `trim_start_matches("lib")` takes off every "lib" in front.
unfoldable pub trim_start_lib : Text → Text
trim_start_lib (c ∷ d ∷ e ∷ s) =
    let rest = trim_start_lib s in
    if c == b'l' && d == b'i' && e == b'b' then rest else c ∷ d ∷ e ∷ s
trim_start_lib s = s

-- `trim_end_matches(".a")` takes off every ".a" at the end.
unfoldable pub trim_end_dot_a : Text → Text
unfolding eq_text
trim_end_dot_a [] = []
trim_end_dot_a (c ∷ s) =
    let rest = trim_end_dot_a s in if c == b'.' && eq_text rest (codes "a") then [] else c ∷ rest

-- The name without the first of the extensions that it ends in.
strip_extension : List Text → Text → Text
unfolding strip_suffix
strip_extension [] name = name
strip_extension (ext ∷ exts) name = elim (strip_suffix ext name) [
  | some stripped ↦ stripped
  | none ↦ strip_extension exts name
]

abbrev extensions : List Text
extensions =
    codes ".dll.a" ∷ codes ".so" ∷ codes ".dylib" ∷ codes ".dll" ∷ codes ".lib" ∷ codes ".a" ∷ []

unfoldable pub dynamic_library_name : Bool → Text → Text
unfolding strip_extension trim_start_lib
dynamic_library_name is_windows_target file_name =
    let name = strip_extension extensions file_name in
    if is_windows_target then name else trim_start_lib name

pub data LibraryKind : Type 0 where
  static dynamic : LibraryKind

pub record LibraryCandidate : Type 0 where
  pub name : Text
  pub kind : LibraryKind

-- The files in the order in which they are looked for.
abbrev candidates : List (Text × LibraryCandidate)
candidates =
    (codes "libpjproject.a", record { name = codes "pjproject"; kind = static })
    ∷ (codes "libpjproject.so", record { name = codes "pjproject"; kind = dynamic })
    ∷ (codes "libpjproject.dylib", record { name = codes "pjproject"; kind = dynamic })
    ∷ (codes "pjproject.lib", record { name = codes "pjproject"; kind = dynamic })
    ∷ (codes "pjproject.dll.lib", record { name = codes "pjproject"; kind = dynamic })
    ∷ (codes "libpjproject.dll.a", record { name = codes "pjproject"; kind = dynamic })
    ∷ []

first_existing : (Text → Bool) → List (Text × LibraryCandidate) → Option LibraryCandidate
first_existing exists [] = none
first_existing exists ((file, candidate) ∷ rest) =
    if exists file then some candidate else first_existing exists rest

-- `exists` says which files the directory has.
unfoldable pub find_single_project_library : (Text → Bool) → Option LibraryCandidate
unfolding first_existing
find_single_project_library exists = first_existing exists candidates

-- `lib == base`, or it begins with `base-`
unfoldable pub matches_pj_lib : Text → Text → Bool
unfolding eq_text starts_with
matches_pj_lib lib base = eq_text lib base || starts_with (base ++ (b'-' ∷ [])) lib

-- Higher-level libraries stand before lower-level ones.
abbrev pub order : List Text
order =
    codes "pjsua2"
    ∷ codes "pjsua"
    ∷ codes "pjsip-ua"
    ∷ codes "pjsip-simple"
    ∷ codes "pjsip"
    ∷ codes "pjmedia-codec"
    ∷ codes "pjmedia-videodev"
    ∷ codes "pjmedia-audiodev"
    ∷ codes "pjmedia"
    ∷ codes "pjnath"
    ∷ codes "pjlib-util"
    ∷ codes "pj"
    ∷ []

unfoldable pub is_pjproject_split_lib : Text → Bool
unfolding matches_pj_lib
is_pjproject_split_lib lib = any (matches_pj_lib lib) order

-- The order of `str`, which is that of the code points.
unfoldable pub less_text : Text → Text → Bool
less_text [] [] = false
less_text [] (d ∷ t) = true
less_text (c ∷ s) [] = false
less_text (c ∷ s) (d ∷ t) = ltb c d || (c == d && less_text s t)

-- `libs.sort()`
unfoldable pub insert_sorted : Text → List Text → List Text
unfolding less_text
insert_sorted x [] = x ∷ []
insert_sorted x (y ∷ ys) =
    let later = insert_sorted x ys in if less_text y x then y ∷ later else x ∷ y ∷ ys

unfoldable pub sort : List Text → List Text
unfolding insert_sorted
sort [] = []
sort (x ∷ xs) = insert_sorted x (sort xs)

-- `libs.dedup()`: a text that is the same as the one before it goes.
unfoldable pub dedup : List Text → List Text
unfolding eq_text
dedup [] = []
dedup (x ∷ []) = x ∷ []
dedup (x ∷ y ∷ ys) = let later = dedup (y ∷ ys) in if eq_text x y then later else x ∷ later

-- The library that a file of the directory stands for, if it is one of PJPROJECT.
unfoldable pub split_lib : Text → Option Text
unfolding strip_suffix trim_start_lib trim_end_dot_a is_pjproject_split_lib starts_with
split_lib name = elim (strip_suffix (codes ".a") name) [
  | none ↦ none
  | some front ↦
      let lib = trim_end_dot_a (trim_start_lib name) in
      if starts_with (codes "lib") name && is_pjproject_split_lib lib then some lib else none
]

unfoldable pub split_libs : List Text → List Text
unfolding split_lib
split_libs [] = []
split_libs (name ∷ names) = elim (split_lib name) [
  | none ↦ split_libs names
  | some lib ↦ lib ∷ split_libs names
]

-- `collect_split_pj_static_libs`, of the names of the entries of the directory
unfoldable pub collect_split_pj_static_libs : List Text → List Text
unfolding split_libs sort dedup
collect_split_pj_static_libs entries = dedup (sort (split_libs entries))

-- `emitted.contains(lib)`
abbrev pub has : Text → List Text → Bool
has lib emitted = any (eq_text lib) emitted

-- `if emitted.insert(lib.clone()) { println!(...) }`: what was emitted, in the order of the lines.
unfoldable pub emit_new : Text → List Text → List Text
unfolding eq_text
emit_new lib emitted = if has lib emitted then emitted else emitted ++ (lib ∷ [])

-- The inner loop over the libraries that satisfy a test.
unfoldable pub emit_those : (Text → Bool) → List Text → List Text → List Text
unfolding emit_new
emit_those wanted [] emitted = emitted
emit_those wanted (lib ∷ libs) emitted =
    emit_those wanted libs (if wanted lib then emit_new lib emitted else emitted)

unfoldable pub emit_bases : List Text → List Text → List Text → List Text
unfolding emit_those matches_pj_lib
emit_bases [] libs emitted = emitted
emit_bases (base ∷ bases) libs emitted =
    emit_bases bases libs (emit_those (λ lib. matches_pj_lib lib base) libs emitted)

-- The libraries that `emit_ordered_static_pj_libs` tells the linker to link, in order.
unfoldable pub emit_ordered_static_pj_libs : List Text → List Text
unfolding emit_bases emit_those
emit_ordered_static_pj_libs libs = emit_those (λ lib. true) libs (emit_bases order libs [])
