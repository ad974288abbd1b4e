-- ===== src/Runtime/Start/Handles.antt =====
-- What becomes of the lock and of the handle when src/runtime.rs starts a runtime.
use gmv_pjsip.Prelude.{
  ◌≡◌, ◌⊎◌, inl, inr, refl, Bool, true, false, Option, none, some, [], ◌∷◌, Bool-cases,
}
use gmv_pjsip.Prelude.Int.{is_zero}
use gmv_pjsip.Error.{◌>>◌}
use gmv_pjsip.Runtime.Ffi.{Shim, ShimCall}
use gmv_pjsip.Runtime.Start.{
  RuntimeConfig, Started, refused, destroyed, running, Surroundings, with_started, with_handle,
  launch, start,
}

module _ (shim : Shim) where
  abbrev pub started : shim.State → shim.State
  started h = (shim.invoke ShimCall.start h).1

  abbrev pub starts : shim.State → Bool
  starts h = is_zero (shim.invoke ShimCall.start h).0

  abbrev pub stopped : shim.State → shim.State
  stopped h = (shim.invoke ShimCall.stop h).1

  abbrev pub destroyed_state : shim.State → shim.State
  destroyed_state h = (shim.invoke ShimCall.destroy h).1

module _ {shim : Shim} where
  -- The handle that `gmv_sip_runtime_create` made.
  abbrev Creates : Surroundings shim → RuntimeConfig → shim.State → Type 0
  Creates w config h = (is_zero (w.create config).0 ≡ true) × ((w.create config).1 ≡ some h)

  -- No handle was made; or one was made, and it was destroyed, after a stop where it had been
  -- started; or it was started, and is the one of an active runtime with an empty queue.
  abbrev pub Accounted : Surroundings shim → Bool → RuntimeConfig → Started shim → Type 0
  Accounted w io config (refused e) =
      (is_zero (w.create config).0 ≡ false) ⊎ ((w.create config).1 ≡ none)
  Accounted w io config (destroyed e raw) =
      (h : shim.State) × Creates w config h
      × (((starts shim h ≡ false) × (raw ≡ destroyed_state shim (started shim h)))
          ⊎ ((starts shim h ≡ true)
              × (io ≡ false)
              × (raw ≡ destroyed_state shim (stopped shim (started shim h)))))
  Accounted w io config (running rt) =
      (h : shim.State) × Creates w config h
      × (starts shim h ≡ true)
      × (io ≡ true)
      × (rt ≡ record {
        raw = started shim h;
        stopped = false;
        events = [];
        io_commands = [];
        sip_cseq = w.sip_cseq;
      })

  with_started-Accounted :
      (w : Surroundings shim) (io : Bool) (config : RuntimeConfig) (h : shim.State)
      → Creates w config h
      → starts shim h ≡ true
      → Accounted w io config (with_started w io (started shim h))
  unfolding with_started
  with_started-Accounted w true config h c done = (h, c, done, refl, refl)
  with_started-Accounted w false config h c done = (h, c, inr (done, refl, refl))

  with_handle-Accounted :
      (w : Surroundings shim) (io : Bool) (config : RuntimeConfig) (handle : Option shim.State)
      → is_zero (w.create config).0 ≡ true
      → (w.create config).1 ≡ handle
      → Accounted w io config (with_handle w io handle)
  unfolding with_handle with_started
  with_handle-Accounted w io config none z e = inr e
  with_handle-Accounted w io config (some h) z e = elim (Bool-cases (starts shim h)) [
    | inr failed ↦ rw failed (h, (z, e), inl (failed, refl))
    | inl done ↦ rw done (with_started-Accounted w io config h (z, e) done)
  ]

  -- However the start of a runtime ends once the lock is taken, no handle is left behind.
  pub launch-Accounted :
      (w : Surroundings shim) (io : Bool) (config : RuntimeConfig)
      → ((launch w io config).0 ≡ config ∷ []) × Accounted w io config (launch w io config).1
  unfolding launch
  launch-Accounted w io config = elim (Bool-cases (is_zero (w.create config).0)) [
    | inr failed ↦ (refl, rw failed (inl failed))
    | inl done ↦ (refl, rw done (with_handle-Accounted w io config (w.create config).1 done refl))
  ]
