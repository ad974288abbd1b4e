-- ===== src/Build/Bindings.antt =====
-- `compile_shim_if_possible`, `write_bindings`, `generate_bindings` and `main` of
-- gmv_pjsip_sys/build.rs.
pub mod Written
use gmv_pjsip.Prelude.{
  ℕ, Bool, true, false, not, List, [], ◌∷◌, ◌++◌, Option, none, some, if◌then◌else◌, map, is_empty,
}
use gmv_pjsip.Text.{Text, codes}
use gmv_pjsip.Build.Steps.{
  compile_failed, no_bindgen_include_dir, bindgen_failed, bindgen_write_failed, bindgen_disabled,
  Flag, flag, flag_if_supported, CcBuild, Bindgen, print, compile, generate, Host, Build, finish,
  panic, perform, panic_if, ◌>>=◌, ◌>>◌,
}
use gmv_pjsip.Build.Environment.{EnvVars, init, out_binding_path, is_windows_target, is_msvc_target}
use gmv_pjsip.Build.Linking.{
  use_prebuilt_binding, verify_include_dir, collect_include_dirs_from_env, dynamic_linking,
  libs_dir_linking, pkg_config_linking,
}

abbrev allowed_functions : List Text
allowed_functions =
    codes "pj_.*"
    ∷ codes "pjlib_.*"
    ∷ codes "pjsip_.*"
    ∷ codes "gmv_pjsip_.*"
    ∷ codes "gmv_sip_.*"
    ∷ []

abbrev allowed_vars : List Text
allowed_vars = codes "GMV_SIP_.*" ∷ codes "PJ_.*" ∷ codes "PJLIB_.*" ∷ codes "PJSIP_.*" ∷ []

module _ (host : Host) where
  compiler_flags : List Flag
  unfolding is_msvc_target
  compiler_flags =
      if host.is_env_var_set (codes "GMV_PJSIP_SYS_SHOW_C_WARNINGS")
      then flag_if_supported (codes "-Wno-unused-parameter")
        ∷ flag_if_supported (codes "-Wno-macro-redefined")
        ∷ []
      else if is_msvc_target host
      then flag (codes "/W0") ∷ []
      else flag (codes "-w") ∷ []

  unfoldable pub shim_build : List Text → CcBuild
  unfolding compiler_flags is_windows_target
  shim_build include_dirs = record {
    files = codes "shim.c" ∷ [];
    includes = codes "." ∷ include_dirs;
    defines =
        ((if is_windows_target host then codes "PJ_WIN32" else codes "PJ_AUTOCONF"), codes "1")
        ∷ [];
    flags = compiler_flags;
    library = codes "gmv_pjsip_auth_shim";
  }

  unfoldable pub compile_shim_if_possible : List Text → Build (Unit {0})
  unfolding shim_build
  compile_shim_if_possible include_dirs =
      if is_empty include_dirs
      then perform (
          print (
            codes
              "cargo:warning=skip compiling PJSIP auth shim because no include dir is available"))
      else (perform (compile (shim_build include_dirs))
          >> panic_if (not (host.compiles (shim_build include_dirs))) compile_failed)

  unfoldable pub verify_include_dirs : List Text → Build (Unit {0})
  unfolding verify_include_dir
  verify_include_dirs [] = finish tt
  verify_include_dirs (dir ∷ dirs) = verify_include_dir host dir >> verify_include_dirs dirs

  unfoldable pub bindgen_builder : List Text → Bindgen
  unfolding is_windows_target
  bindgen_builder include_dirs = record {
    header = codes "wrapper.h";
    clang_args =
        (codes "-DPJ_AUTOCONF=1" ∷ [])
        ++ (if is_windows_target host then codes "-DPJ_WIN32=1" ∷ [] else [])
        ++ map (λ dir. codes "-I" ++ dir) include_dirs;
    functions = allowed_functions;
    types = allowed_functions;
    vars = allowed_vars;
  }

  -- The two panics behind a run of bindgen.
  unfoldable pub run_bindgen : Bindgen → Text → Build (Unit {0})
  run_bindgen builder output = do
    perform (generate builder output)
    panic_if (not (host.bindgen_succeeds builder output).0) bindgen_failed
    panic_if (not (host.bindgen_succeeds builder output).1) bindgen_write_failed

  -- With and without the feature `bindgen`.
  unfoldable pub generate_bindings : List Text → Text → Build (Unit {0})
  unfolding verify_include_dirs bindgen_builder run_bindgen
  generate_bindings include_dirs output =
      if host.bindgen_feature
      then (do
        panic_if (is_empty include_dirs) no_bindgen_include_dir
        verify_include_dirs include_dirs
        run_bindgen (bindgen_builder include_dirs) output)
      else panic bindgen_disabled

  unfoldable pub write_bindings : EnvVars → List Text → Text → Build (Unit {0})
  unfolding use_prebuilt_binding generate_bindings
  write_bindings envs include_dirs output = elim envs.pjsip_binding_path [
    | some binding_path ↦ use_prebuilt_binding host binding_path output
    | none ↦ generate_bindings include_dirs output
  ]

  unfoldable pub docs_rs_linking : Text → Build (Unit {0})
  unfolding use_prebuilt_binding
  docs_rs_linking output = use_prebuilt_binding host (codes "src/bindings.rs") output

  -- A library named by its path comes first, then a directory of libraries, then a search path for
  -- pkg-config, and pkg-config by itself comes last.
  unfoldable pub include_dirs_of : EnvVars → Build (List Text)
  unfolding dynamic_linking libs_dir_linking pkg_config_linking collect_include_dirs_from_env
  include_dirs_of envs = elim envs.pjsip_dll_path [
    | some dll_path ↦ dynamic_linking host dll_path >> collect_include_dirs_from_env host envs
    | none ↦ elim envs.pjsip_libs_dir [
      | some libs_dir ↦ libs_dir_linking host libs_dir >> collect_include_dirs_from_env host envs
      | none ↦ elim envs.pjsip_pkg_config_path [
        | some path ↦ pkg_config_linking host (some path) envs
        | none ↦ pkg_config_linking host none envs
      ]
    ]
  ]

  -- The rest of `main`, without and with docs.rs.
  unfoldable pub link_and_bind : EnvVars → Text → Build (Unit {0})
  unfolding include_dirs_of compile_shim_if_possible write_bindings
  link_and_bind envs output = do
    include_dirs ← include_dirs_of envs
    compile_shim_if_possible include_dirs
    write_bindings envs include_dirs output

  unfoldable pub build_with : EnvVars → Text → Build (Unit {0})
  unfolding docs_rs_linking link_and_bind
  build_with envs output = elim envs.docs_rs [
    | some value ↦ docs_rs_linking output
    | none ↦ link_and_bind envs output
  ]

  unfoldable pub main : Build (Unit {0})
  unfolding init out_binding_path build_with
  main = do envs ← init host; output ← out_binding_path host envs; build_with envs output
