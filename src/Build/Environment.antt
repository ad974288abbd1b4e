-- ===== src/Build/Environment.antt =====
-- `EnvVars` of gmv_pjsip_sys/build.rs, what it reads of the target, and `emit_platform_system_libs`.
use gmv_pjsip.Prelude.{
  Bool, true, false, ◌&&◌, ◌||◌, List, [], ◌∷◌, ◌++◌, Option, none, some, if◌then◌else◌, map,
}
use gmv_pjsip.Text.{Text, codes, eq_text, strip_prefix}
use gmv_pjsip.Build.Steps.{
  out_dir_missing, Effect, print, Host, Build, finish, perform_all, or_panic, ◌>>=◌, ◌>>◌,
}

pub record EnvVars : Type 0 where
  pub docs_rs : Option Text
  pub out_dir : Option Text
  pub pjsip_include_dir : Option Text
  pub pjsip_dll_path : Option Text
  pub pjsip_pkg_config_path : Option Text
  pub pjsip_libs_dir : Option Text
  pub pjsip_binding_path : Option Text

-- The prefix `\\?\` is taken off.
unfoldable pub remove_verbatim : Text → Text
unfolding strip_prefix
remove_verbatim path = elim (strip_prefix (codes "\\\\?\\") path) [ none ↦ path | some rest ↦ rest ]

abbrev is_set : Option Text → Bool
is_set none = false
is_set (some value) = true

unfoldable pub has_prebuilt_binding : EnvVars → Bool
has_prebuilt_binding envs = is_set envs.pjsip_binding_path

abbrev watched_files : List Text
watched_files =
    codes "build.rs"
    ∷ codes "wrapper.h"
    ∷ codes "shim.h"
    ∷ codes "shim.c"
    ∷ codes "shim_commands.inc"
    ∷ codes "shim_command_dispatch.inc"
    ∷ codes "shim_transport.inc"
    ∷ codes "shim_auth.inc"
    ∷ codes "shim_message.inc"
    ∷ codes "shim_invite.inc"
    ∷ codes "shim_dialog.inc"
    ∷ codes "shim_subscription.inc"
    ∷ codes "src/bindings.rs"
    ∷ []

abbrev watched_vars : List Text
watched_vars =
    codes "DOCS_RS"
    ∷ codes "OUT_DIR"
    ∷ codes "PJSIP_INCLUDE_DIR"
    ∷ codes "PJSIP_DLL_PATH"
    ∷ codes "PJSIP_PKG_CONFIG_PATH"
    ∷ codes "PJSIP_LIBS_DIR"
    ∷ codes "PJSIP_BINDING_PATH"
    ∷ []

abbrev pub headers : List Text
headers = codes "pjlib.h" ∷ codes "pjlib-util.h" ∷ codes "pjsip.h" ∷ []

-- MIN_PJPROJECT_VERSION
abbrev pub minimum_version : Text
minimum_version = codes "2.15.1"

abbrev pub link_lib : Text → Effect
link_lib name = print (codes "cargo:rustc-link-lib=" ++ name)

-- The libraries of the operating system named.
system_libs : Text → List Text
unfolding eq_text
system_libs os =
    if eq_text os (codes "linux")
    then codes "pthread" ∷ codes "m" ∷ codes "dl" ∷ codes "rt" ∷ codes "uuid" ∷ []
    else if eq_text os (codes "freebsd")
        || eq_text os (codes "openbsd")
        || eq_text os (codes "netbsd")
        || eq_text os (codes "macos")
        || eq_text os (codes "ios")
    then codes "pthread" ∷ codes "m" ∷ []
    else if eq_text os (codes "windows")
    then codes "ws2_32" ∷ codes "wsock32" ∷ codes "ole32" ∷ codes "uuid" ∷ codes "winmm" ∷ []
    else []

module _ (host : Host) where
  -- `env::var(name).ok().map(remove_verbatim)`
  env_path : Text → Option Text
  unfolding remove_verbatim
  env_path name = elim (host.env_var name) [
    | none ↦ none
    | some value ↦ some (remove_verbatim value)
  ]

  unfoldable pub read_env : EnvVars
  unfolding env_path
  read_env = record {
    docs_rs = host.env_var (codes "DOCS_RS");
    out_dir = env_path (codes "OUT_DIR");
    pjsip_include_dir = env_path (codes "PJSIP_INCLUDE_DIR");
    pjsip_dll_path = env_path (codes "PJSIP_DLL_PATH");
    pjsip_pkg_config_path = env_path (codes "PJSIP_PKG_CONFIG_PATH");
    pjsip_libs_dir = env_path (codes "PJSIP_LIBS_DIR");
    pjsip_binding_path = env_path (codes "PJSIP_BINDING_PATH");
  }

  -- `EnvVars::init`
  unfoldable pub init : Build EnvVars
  unfolding read_env
  init = do
    perform_all (map (λ file. print (codes "cargo:rerun-if-changed=" ++ file)) watched_files)
    perform_all (map (λ name. print (codes "cargo:rerun-if-env-changed=" ++ name)) watched_vars)
    finish read_env

  unfoldable pub out_binding_path : EnvVars → Build Text
  out_binding_path envs = do
    dir ← or_panic envs.out_dir out_dir_missing
    finish (host.join dir (codes "bindings.rs"))

  unfoldable pub target_os : Text
  target_os = elim (host.env_var (codes "CARGO_CFG_TARGET_OS")) [ none ↦ host.os | some os ↦ os ]

  target_env : Text
  target_env = elim (host.env_var (codes "CARGO_CFG_TARGET_ENV")) [ none ↦ [] | some e ↦ e ]

  unfoldable pub is_windows_target : Bool
  unfolding eq_text target_os
  is_windows_target = eq_text target_os (codes "windows")

  unfoldable pub is_msvc_target : Bool
  unfolding eq_text target_env is_windows_target
  is_msvc_target = is_windows_target && eq_text target_env (codes "msvc")

  unfoldable pub emit_platform_system_libs : Build (Unit {0})
  unfolding system_libs target_os
  emit_platform_system_libs = perform_all (map link_lib (system_libs target_os))
