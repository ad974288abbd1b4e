-- ===== src/Build/Linking/Package.antt =====
-- What pkg-config must have found for gmv_pjsip_sys/build.rs to go on.
use mathlib.Core.Path.{subst}
use gmv_pjsip.Prelude.{◌≡◌, refl, sym, true, not, ◌&&◌, ◌||◌, List, Option, some, arith, is_empty}
use gmv_pjsip.Text.{Text, parse_uint}
use gmv_pjsip.Build.Steps.{
  Effect, Host, Library, Build, done, finish, panic_if, or_panic, probe_failed, version_too_old,
  no_include_paths, ◌>>=◌, ◌>>◌,
}
use gmv_pjsip.Build.Steps.Halves.{>>=-Halves, >>-Halves}
use gmv_pjsip.Build.Versions.{version_parts, version_less_than}
use gmv_pjsip.Build.Versions.Order.{numbers, Earlier, version_less_than_iff}
use gmv_pjsip.Build.Environment.{EnvVars, has_prebuilt_binding, minimum_version}
use gmv_pjsip.Build.Linking.{search_path, with_include_dir, pkg_config_linking}

minimum_numbers :
    numbers (version_parts minimum_version) ≡ record { major = 2; minor = 15; patch = 1 }
unfolding version_parts parse_uint
minimum_numbers = refl

before_minimum :
    (v : Text)
    → Earlier (numbers (version_parts v)) (record { major = 2; minor = 15; patch = 1 })
    → version_less_than v minimum_version ≡ true
before_minimum v earlier =
    (version_less_than_iff v minimum_version).1
      (subst (λ w. Earlier (numbers (version_parts v)) w) (sym minimum_numbers) earlier)

module _ (host : Host) where
  -- pkg-config brings a build on only with a package whose version is not before 2.15.1, and with a
  -- directory of headers to compile against or bindings made in advance.
  pub pkg_config_linking-Library :
      (path : Option Text) (envs : EnvVars) (effects : List Effect) (dirs : List Text)
      → pkg_config_linking host path envs ≡ (effects, done dirs)
      → (library : Library) × (host.probe path ≡ some library)
        × (¬ Earlier
            (numbers (version_parts library.version))
            (record { major = 2; minor = 15; patch = 1 }))
        × (not (is_empty dirs) || has_prebuilt_binding envs ≡ true)
  unfolding pkg_config_linking
  pkg_config_linking-Library path envs effects dirs e =
      let h =
        >>-Halves (search_path host path)
          (or_panic (host.probe path) (probe_failed path) >>= checked) effects dirs e in
      let h' =
        >>=-Halves (or_panic (host.probe path) (probe_failed path)) checked h.rest dirs h.after in
      let old = version_less_than h'.value.version minimum_version in
      let h2 =
        >>-Halves (panic_if old (version_too_old h'.value.version)) (with_dirs h'.value) h'.rest
          dirs h'.after in
      let h3 =
        >>=-Halves (with_include_dir host envs.pjsip_include_dir h'.value.include_paths) usable
          h2.rest dirs h2.after in
      (
        h'.value,
        ground (arith, h'.before),
        (λ earlier.
            let is_old = before_minimum h'.value.version earlier in
            absurd (ground (arith, h2.before))),
        usable_dirs h3.value h3.rest h3.after,
      )
    where
      usable : List Text → Build (List Text)
      usable found = do
        panic_if (is_empty found && not (has_prebuilt_binding envs)) no_include_paths
        finish found

      with_dirs : Library → Build (List Text)
      with_dirs library = do
        found ← with_include_dir host envs.pjsip_include_dir library.include_paths
        usable found

      checked : Library → Build (List Text)
      checked library = do
        panic_if (version_less_than library.version minimum_version)
            (version_too_old library.version)
        with_dirs library

      usable_dirs :
          (found : List Text) (more : List Effect)
          → usable found ≡ (more, done dirs)
          → not (is_empty dirs) || has_prebuilt_binding envs ≡ true
      usable_dirs found more u = ground arith
