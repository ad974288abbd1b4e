-- ===== src/Build/Bindings/Written.antt =====
-- What a build of gmv_pjsip_sys/build.rs that runs to its end leaves behind.
use gmv_pjsip.Prelude.{
  ◌≡◌, refl, ap, sym, ◌∙◌, inl, inr, true, List, [], ◌∷◌, ◌++◌, some, arith, append_assoc,
  Bool-cases, Option-cases, is_empty,
}
use gmv_pjsip.Text.{Text, codes}
use gmv_pjsip.Build.Steps.{
  no_bindgen_include_dir, Effect, print, set_pkg_config_path, copy, compile, generate, Bindgen,
  Host, Build, done, ◌>>=◌, ◌>>◌, panic_if,
}
use gmv_pjsip.Build.Steps.Halves.{Halves, >>=-Halves, >>-Halves}
use gmv_pjsip.Build.Environment.{EnvVars, read_env, init, out_binding_path}
use gmv_pjsip.Build.Linking.{use_prebuilt_binding}
use gmv_pjsip.Build.Bindings.{
  run_bindgen, bindgen_builder, verify_include_dirs, include_dirs_of, compile_shim_if_possible,
  build_with, generate_bindings, write_bindings, docs_rs_linking, link_and_bind, main,
}

module _ (host : Host) where
  -- The bindings were put into the file.
  abbrev pub IsBinding : Text → Effect → Type 0
  IsBinding output (copy from to) = (to ≡ output) × (host.copies from to ≡ true)
  IsBinding output (generate builder to) =
      (to ≡ output) × (host.bindgen_succeeds builder to ≡ (true, true))
  IsBinding output (print line) = ⊥
  IsBinding output (set_pkg_config_path path) = ⊥
  IsBinding output (compile build) = ⊥

  pub record EndsInBinding (output : Text) (effects : List Effect) : Type 0 where
    pub front : List Effect
    pub last : Effect
    pub split : effects ≡ front ++ (last ∷ [])
    pub written : IsBinding output last

  after_more :
      (output : Text) (first effects : List Effect)
      → EndsInBinding output effects
      → EndsInBinding output (first ++ effects)
  after_more output first effects e = record {
    front = first ++ e.front;
    last = e.last;
    split = rw e.split (sym (append_assoc first e.front (e.last ∷ [])));
    written = e.written;
  }

  same_output :
      (output output' : Text) (effects : List Effect)
      → output ≡ output'
      → EndsInBinding output effects
      → EndsInBinding output' effects
  same_output output output' effects e w = rw (← e) w

  use_prebuilt_binding-EndsInBinding :
      (from to : Text) (effects : List Effect)
      → use_prebuilt_binding host from to ≡ (effects, done tt)
      → EndsInBinding to effects
  unfolding use_prebuilt_binding
  use_prebuilt_binding-EndsInBinding from to effects e = elim (Bool-cases (host.copies from to)) [
    | inl y ↦ record { front = []; last = copy from to; split = ground arith; written = (refl, y) }
    | inr n ↦ absurd (ground arith)
  ]

  run_bindgen-EndsInBinding :
      (builder : Bindgen) (output : Text) (effects : List Effect)
      → run_bindgen host builder output ≡ (effects, done tt)
      → EndsInBinding output effects
  unfolding run_bindgen
  run_bindgen-EndsInBinding builder output effects e = record {
    front = [];
    last = generate builder output;
    split = ground arith;
    written = (refl, ground arith);
  }

  -- What a second half ends in, the whole ends in.
  second_half :
      {A : Type 0} {m : Build A} {k : A → Build (Unit {0})} {effects : List Effect} (output : Text)
      (h : Halves m k effects tt)
      → EndsInBinding output h.rest
      → EndsInBinding output effects
  second_half output h e = rw h.whole (after_more output h.first h.rest e)

  generate_bindings-EndsInBinding :
      (dirs : List Text) (output : Text) (effects : List Effect)
      → generate_bindings host dirs output ≡ (effects, done tt)
      → EndsInBinding output effects
  unfolding generate_bindings
  generate_bindings-EndsInBinding dirs output effects e = elim (Bool-cases host.bindgen_feature) [
    | inl y ↦
        let run = run_bindgen host (bindgen_builder host dirs) output in
        let verify = verify_include_dirs host dirs in
        let h =
          >>-Halves (panic_if (is_empty dirs) no_bindgen_include_dir) (verify >> run) effects tt
            (rw (y, generate_bindings) at e) in
        let h' = >>-Halves verify run h.rest tt h.after in
        second_half output h (
          second_half output h'
            (run_bindgen-EndsInBinding (bindgen_builder host dirs) output h'.rest h'.after))
    | inr n ↦ absurd (ground arith)
  ]

  write_bindings-EndsInBinding :
      (envs : EnvVars) (dirs : List Text) (output : Text) (effects : List Effect)
      → write_bindings host envs dirs output ≡ (effects, done tt)
      → EndsInBinding output effects
  unfolding write_bindings
  write_bindings-EndsInBinding envs dirs output effects e =
      elim (Option-cases envs.pjsip_binding_path) [
        | inl n ↦ generate_bindings-EndsInBinding dirs output effects (rw (n, write_bindings) at e)
        | inr (path, y) ↦
            use_prebuilt_binding-EndsInBinding path output effects (rw (y, write_bindings) at e)
      ]

  link_and_bind-EndsInBinding :
      (envs : EnvVars) (output : Text) (effects : List Effect)
      → link_and_bind host envs output ≡ (effects, done tt)
      → EndsInBinding output effects
  unfolding link_and_bind
  link_and_bind-EndsInBinding envs output effects e =
      let h =
        >>=-Halves (include_dirs_of host envs)
          (λ dirs. compile_shim_if_possible host dirs >> write_bindings host envs dirs output)
          effects tt e in
      let h' =
        >>-Halves (compile_shim_if_possible host h.value) (write_bindings host envs h.value output)
          h.rest tt h.after in
      second_half output h
        (second_half output h' (write_bindings-EndsInBinding envs h.value output h'.rest h'.after))

  build_with-EndsInBinding :
      (envs : EnvVars) (output : Text) (effects : List Effect)
      → build_with host envs output ≡ (effects, done tt)
      → EndsInBinding output effects
  unfolding build_with docs_rs_linking
  build_with-EndsInBinding envs output effects e = elim (Option-cases envs.docs_rs) [
    | inl n ↦ link_and_bind-EndsInBinding envs output effects (rw (n, build_with) at e)
    | inr (value, y) ↦
        use_prebuilt_binding-EndsInBinding (codes "src/bindings.rs") output effects
          (rw (y, build_with) at e)
  ]

  out_binding_path-out_dir :
      (envs : EnvVars) (effects : List Effect) (output : Text)
      → out_binding_path host envs ≡ (effects, done output)
      → (dir : Text) × (envs.out_dir ≡ some dir) × (output ≡ host.join dir (codes "bindings.rs"))
  unfolding out_binding_path
  out_binding_path-out_dir envs effects output e = elim (Option-cases envs.out_dir) [
    | inl n ↦ absurd (ground arith)
    | inr (dir, y) ↦ (dir, y, ground arith)
  ]

  init-read_env :
      (effects : List Effect) (envs : EnvVars)
      → init host ≡ (effects, done envs)
      → envs ≡ read_env host
  unfolding init
  init-read_env effects envs e = ground arith

  -- A build that runs to its end has an output directory, and the last thing that it did was to put
  -- the bindings there: it copied a file, or it ran bindgen, and that succeeded.
  pub main-EndsInBinding :
      (effects : List Effect)
      → main host ≡ (effects, done tt)
      → (dir : Text) × ((read_env host).out_dir ≡ some dir)
        × EndsInBinding (host.join dir (codes "bindings.rs")) effects
  unfolding main
  main-EndsInBinding effects e =
      let h =
        >>=-Halves (init host)
          (λ envs. out_binding_path host envs >>= (λ output. build_with host envs output)) effects
          tt e in
      let h' =
        >>=-Halves (out_binding_path host h.value) (λ output. build_with host h.value output) h.rest
          tt h.after in
      let (dir, set, at_dir) = out_binding_path-out_dir h.value h'.first h'.value h'.before in
      let ended = build_with-EndsInBinding h.value h'.value h'.rest h'.after in
      (
        dir,
        ap (λ (v : EnvVars). v.out_dir) (sym (init-read_env h.first h.value h.before)) ∙ set,
        same_output h'.value (host.join dir (codes "bindings.rs")) effects at_dir
            (second_half h'.value h (second_half h'.value h' ended)),
      )
