-- ===== src/Tests/Build.antt =====
-- gmv_pjsip_sys/build.rs on a Linux host with an installed package.
use gmv_pjsip.Prelude.{
  ◌≡◌, ◌↔◌, refl, true, false, not, ◌||◌, List, [], ◌∷◌, ◌++◌, some, none, if◌then◌else◌, is_empty,
}
use gmv_pjsip.Text.{Text, codes, eq_text, parse_uint}
use gmv_pjsip.Build.Versions.{version_parts, version_less_than}
use gmv_pjsip.Build.Versions.Order.{numbers, Earlier, version_less_than_iff}
use gmv_pjsip.Build.Libraries.{order, has, emit_ordered_static_pj_libs}
use gmv_pjsip.Build.Libraries.Emission.{
  rank_in, distinct, ranked, emit_ordered_static_pj_libs-ranked,
}
use gmv_pjsip.Build.Steps.{Host, Library, Effect, done}
use gmv_pjsip.Build.Environment.{EnvVars, has_prebuilt_binding, read_env}
use gmv_pjsip.Build.Linking.{pkg_config_linking}
use gmv_pjsip.Build.Linking.Package.{pkg_config_linking-Library}
use gmv_pjsip.Build.Bindings.{main}
use gmv_pjsip.Build.Bindings.Written.{EndsInBinding, main-EndsInBinding}

version_less_than_iff_example :
    (version_less_than (codes "2.14-dev") (codes "2.15.1") ≡ true)
    ↔ Earlier
        (numbers (version_parts (codes "2.14-dev")))
        (numbers (version_parts (codes "2.15.1")))
version_less_than_iff_example = version_less_than_iff (codes "2.14-dev") (codes "2.15.1")

abbrev found : List Text
found = codes "pj-x86" ∷ codes "pjsip-x86" ∷ codes "pjsip-ua-x86" ∷ []

emit_ordered_static_pj_libs-ranked_example :
    ((lib : Text) → has lib (emit_ordered_static_pj_libs found) ≡ has lib found)
    × (distinct (emit_ordered_static_pj_libs found) ≡ true)
    × (ranked (rank_in order) (emit_ordered_static_pj_libs found) ≡ true)
emit_ordered_static_pj_libs-ranked_example = emit_ordered_static_pj_libs-ranked found

abbrev installed : Library
installed = record { version = codes "2.17"; include_paths = codes "/usr/include" ∷ [] }

-- Two variables are set, and everything succeeds.
abbrev host : Host
host = record {
  env_var = λ name.
      if eq_text name (codes "OUT_DIR")
      then some (codes "/out")
      else if eq_text name (codes "PJSIP_BINDING_PATH")
      then some (codes "/made/bindings.rs")
      else none;
  is_env_var_set = λ name. false;
  os = codes "linux";
  join = λ dir file. dir ++ codes "/" ++ file;
  parent = λ path. none;
  file_name = λ path. none;
  exists = λ path. true;
  is_dir = λ path. true;
  read_dir = λ path. some [];
  copies = λ from to. true;
  probe = λ path. some installed;
  compiles = λ build. true;
  bindgen_feature = true;
  bindgen_succeeds = λ builder output. (true, true);
}

abbrev envs : EnvVars
envs = record {
  docs_rs = none;
  out_dir = some (codes "/out");
  pjsip_include_dir = none;
  pjsip_dll_path = none;
  pjsip_pkg_config_path = none;
  pjsip_libs_dir = none;
  pjsip_binding_path = some (codes "/made/bindings.rs");
}

linked : pkg_config_linking host none envs ≡ ([], done (codes "/usr/include" ∷ []))
unfolding pkg_config_linking version_parts parse_uint
linked = refl

pkg_config_linking-Library_example :
    (library : Library) × (host.probe none ≡ some library)
    × (¬ Earlier
        (numbers (version_parts library.version))
        (record { major = 2; minor = 15; patch = 1 }))
    × (not (is_empty (codes "/usr/include" ∷ [])) || has_prebuilt_binding envs ≡ true)
pkg_config_linking-Library_example =
    pkg_config_linking-Library host none envs [] (codes "/usr/include" ∷ []) linked

abbrev effects : List Effect
effects = (main host).0

main_done : main host ≡ (effects, done tt)
unfolding main version_parts parse_uint
main_done = refl

main-EndsInBinding_example :
    (dir : Text) × ((read_env host).out_dir ≡ some dir)
    × EndsInBinding host (host.join dir (codes "bindings.rs")) effects
main-EndsInBinding_example = main-EndsInBinding host effects main_done
