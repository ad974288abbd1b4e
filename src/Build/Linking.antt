-- ===== src/Build/Linking.antt =====
-- How gmv_pjsip_sys/build.rs links PJPROJECT: by a library, a directory of libraries, or pkg-config.
pub mod Package
use gmv_pjsip.Prelude.{
  ℕ, Bool, true, false, not, ◌&&◌, ◌||◌, List, [], ◌∷◌, ◌++◌, Option, none, some, if◌then◌else◌,
  map, is_empty,
}
use gmv_pjsip.Text.{Text, codes, eq_text, strip_prefix}
use gmv_pjsip.Build.Versions.{version_less_than}
use gmv_pjsip.Build.Environment.{
  EnvVars, minimum_version, has_prebuilt_binding, headers, link_lib, is_windows_target,
  emit_platform_system_libs,
}
use gmv_pjsip.Build.Libraries.{
  LibraryCandidate, LibraryKind, static, dynamic, dynamic_library_name, find_single_project_library,
  collect_split_pj_static_libs, emit_ordered_static_pj_libs,
}
use gmv_pjsip.Build.Steps.{
  Panic, out_dir_missing, include_dir_required, no_include_paths, compile_failed,
  no_bindgen_include_dir, bindgen_failed, bindgen_write_failed, bindgen_disabled, copy_failed,
  header_missing, dll_missing, no_parent, invalid_file_name, libs_dir_missing, read_dir_failed,
  no_library, pkg_config_dir_missing, version_too_old, probe_failed, Flag, flag, flag_if_supported,
  CcBuild, Bindgen, Effect, print, set_pkg_config_path, copy, compile, generate, Library, Host,
  Build, finish, panic, perform, perform_all, panic_if, or_panic, ◌>>=◌, ◌>>◌,
}

module _ (host : Host) where
  unfoldable pub use_prebuilt_binding : Text → Text → Build (Unit {0})
  use_prebuilt_binding from to = do
    perform (copy from to)
    panic_if (not (host.copies from to)) (copy_failed from to)

  verify_headers : List Text → Text → Build (Unit {0})
  verify_headers [] dir = finish tt
  verify_headers (header ∷ rest) dir = do
    panic_if (not (host.exists (host.join dir header))) (header_missing (host.join dir header))
    verify_headers rest dir

  unfoldable pub verify_include_dir : Text → Build (Unit {0})
  unfolding verify_headers
  verify_include_dir = verify_headers headers

  unfoldable pub collect_include_dirs_from_env : EnvVars → Build (List Text)
  unfolding verify_include_dir has_prebuilt_binding
  collect_include_dirs_from_env envs = elim envs.pjsip_include_dir [
    | some dir ↦ verify_include_dir dir >> finish (dir ∷ [])
    | none ↦ if has_prebuilt_binding envs then finish [] else panic include_dir_required
  ]

  unfoldable pub dynamic_linking : Text → Build (Unit {0})
  unfolding dynamic_library_name is_windows_target emit_platform_system_libs
  dynamic_linking dll_path = do
    panic_if (not (host.exists dll_path)) (dll_missing dll_path)
    dll_dir ← or_panic (host.parent dll_path) (no_parent dll_path)
    file_name ← or_panic (host.file_name dll_path) (invalid_file_name dll_path)
    perform (print (codes "cargo:rustc-link-search=native=" ++ dll_dir))
    perform (link_lib (codes "dylib=" ++ dynamic_library_name (is_windows_target host) file_name))
    emit_platform_system_libs host

  single_library : LibraryCandidate → Build (Unit {0})
  unfolding emit_platform_system_libs
  single_library lib = do
    perform (
        link_lib (elim lib.kind [
          | static ↦ codes "static=" ++ lib.name
          | dynamic ↦ codes "dylib=" ++ lib.name
        ]))
    emit_platform_system_libs host

  split_libraries : Text → Build (Unit {0})
  unfolding collect_split_pj_static_libs emit_ordered_static_pj_libs emit_platform_system_libs
  split_libraries libs_dir = do
    entries ← or_panic (host.read_dir libs_dir) (read_dir_failed libs_dir)
    let libs = collect_split_pj_static_libs entries
    panic_if (is_empty libs) (no_library libs_dir)
    perform_all (map (λ lib. link_lib (codes "static=" ++ lib)) (emit_ordered_static_pj_libs libs))
    emit_platform_system_libs host

  unfoldable pub libs_dir_linking : Text → Build (Unit {0})
  unfolding find_single_project_library single_library split_libraries
  libs_dir_linking libs_dir = do
    panic_if (not (host.is_dir libs_dir)) (libs_dir_missing libs_dir)
    perform (print (codes "cargo:rustc-link-search=native=" ++ libs_dir))
    elim (find_single_project_library (λ file. host.exists (host.join libs_dir file))) [
      | some lib ↦ single_library lib
      | none ↦ split_libraries libs_dir
    ]

  -- The search path that was given is handed to pkg-config.
  search_path : Option Text → Build (Unit {0})
  search_path none = finish tt
  search_path (some path) = do
    panic_if (not (host.is_dir path)) (pkg_config_dir_missing path)
    perform (set_pkg_config_path path)

  -- PJSIP_INCLUDE_DIR stands in front of the directories of the package.
  with_include_dir : Option Text → List Text → Build (List Text)
  unfolding verify_include_dir
  with_include_dir none dirs = finish dirs
  with_include_dir (some dir) dirs = verify_include_dir dir >> finish (dir ∷ dirs)

  unfoldable pub pkg_config_linking : Option Text → EnvVars → Build (List Text)
  unfolding search_path version_less_than with_include_dir has_prebuilt_binding
  pkg_config_linking path envs = do
    search_path path
    library ← or_panic (host.probe path) (probe_failed path)
    panic_if (version_less_than library.version minimum_version) (version_too_old library.version)
    dirs ← with_include_dir envs.pjsip_include_dir library.include_paths
    panic_if (is_empty dirs && not (has_prebuilt_binding envs)) no_include_paths
    finish dirs
