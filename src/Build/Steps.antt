-- ===== src/Build/Steps.antt =====
-- What gmv_pjsip_sys/build.rs does as it runs: a build is the list of its effects and its result, which
-- a panic cuts short. The host is a parameter: the environment, the file system, pkg-config, the C
-- compiler and bindgen.
pub mod Halves
use gmv_pjsip.Prelude.{ℕ, Bool, List, [], ◌∷◌, ◌++◌, Option, if◌then◌else◌}
use gmv_pjsip.Text.{Text}

-- The places at which the script panics, with the values in the message.
pub data Panic : Type 0 where
  out_dir_missing include_dir_required no_include_paths compile_failed : Panic
  no_bindgen_include_dir bindgen_failed bindgen_write_failed bindgen_disabled : Panic
  copy_failed : Text → Text → Panic
  header_missing dll_missing no_parent invalid_file_name libs_dir_missing : Text → Panic
  read_dir_failed no_library pkg_config_dir_missing version_too_old : Text → Panic
  probe_failed : Option Text → Panic

-- An option of the C compiler, or one that is left out where the compiler does not know it.
pub data Flag : Type 0 where
  flag flag_if_supported : Text → Flag

-- `cc::Build`
pub record CcBuild : Type 0 where
  pub files : List Text
  pub includes : List Text
  pub defines : List (Text × Text)
  pub flags : List Flag
  pub library : Text

-- `bindgen::Builder`
pub record Bindgen : Type 0 where
  pub header : Text
  pub clang_args : List Text
  pub functions : List Text
  pub types : List Text
  pub vars : List Text

pub data Effect : Type 0 where
  print : Text → Effect
  set_pkg_config_path : Text → Effect
  copy : Text → Text → Effect
  compile : CcBuild → Effect
  generate : Bindgen → Text → Effect

-- `pkg_config::Library`, as far as it is read.
pub record Library : Type 0 where
  pub version : Text
  pub include_paths : List Text

-- `bindgen_succeeds` says whether the bindings were generated, and whether they were written.
pub record Host : Type 0 where
  pub env_var : Text → Option Text
  pub is_env_var_set : Text → Bool
  pub os : Text
  pub join : Text → Text → Text
  pub parent : Text → Option Text
  pub file_name : Text → Option Text
  pub exists : Text → Bool
  pub is_dir : Text → Bool
  pub read_dir : Text → Option (List Text)
  pub copies : Text → Text → Bool
  pub probe : Option Text → Option Library
  pub compiles : CcBuild → Bool
  pub bindgen_feature : Bool
  pub bindgen_succeeds : Bindgen → Text → Bool × Bool

pub data Outcome (A : Type 0) : Type 0 where
  panicked : Panic → Outcome A
  done : A → Outcome A

abbrev pub Build : Type 0 → Type 0
Build A = List Effect × Outcome A

abbrev pub finish : {A : Type 0} → A → Build A
finish a = ([], done a)

abbrev pub panic : {A : Type 0} → Panic → Build A
panic p = ([], panicked p)

abbrev pub perform : Effect → Build (Unit {0})
perform e = (e ∷ [], done tt)

abbrev pub behind : {B : Type 0} → List Effect → Build B → Build B
behind effects (more, outcome) = (effects ++ more, outcome)

infixl 5 ◌>>=◌ ◌>>◌
abbrev pub ◌>>=◌ : {A B : Type 0} → Build A → (A → Build B) → Build B
(effects, panicked p) >>= rest = (effects, panicked p)
(effects, done a) >>= rest = behind effects (rest a)

abbrev pub ◌>>◌ : {B : Type 0} → Build (Unit {0}) → Build B → Build B
(effects, panicked p) >> rest = (effects, panicked p)
(effects, done _) >> rest = behind effects rest

-- `if condition { panic!(...) }`
abbrev pub panic_if : Bool → Panic → Build (Unit {0})
panic_if condition p = if condition then panic p else finish tt

-- `unwrap_or_else(|| panic!(...))`
abbrev pub or_panic : {A : Type 0} → Option A → Panic → Build A
or_panic Option.none p = panic p
or_panic (Option.some a) p = finish a

-- The effects in order.
abbrev pub perform_all : List Effect → Build (Unit {0})
perform_all effects = (effects, done tt)
