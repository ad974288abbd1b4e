-- ===== src/Runtime/Sequence/Interleaving.antt =====
-- The loop of `next_atomic_value` in several threads at once: every load and every exchange is a
-- step, and steps of different threads come in any order. A weak exchange may fail although the
-- counter still has the value that was loaded.
use mathlib.Core.List.{Mem, Nodup, Nodup-nil, Nodup-cons, mem-cons, not-mem-nil}
use mathlib.Core.Logic.Or
use native.Mathlib.Bridge.{le_prop}
use gmv_pjsip.Prelude.{
  ℕ, zero, suc, ◌+◌, ◌%◌, ◌≤◌, ◌<◌, ◌≡◌, refl, List, [], ◌∷◌, Option, none, some, arith, ◌==◌,
  if◌then◌else◌, length,
}
use gmv_pjsip.Runtime.Sequence.{advance}

-- `threads i` is the `current` of thread `i`, while it is in the loop. `issued` are the values
-- returned so far, the last one first.
pub record Shared : Type 0 where
  pub sequence : ℕ
  pub threads : ℕ → Option ℕ
  pub issued : List ℕ

abbrev set_thread : (ℕ → Option ℕ) → ℕ → Option ℕ → ℕ → Option ℕ
set_thread threads i v j = if j == i then v else threads j

module _ (max : ℕ) where
  pub data Step (s : Shared) : Shared → Type 0 where
    load :
        (i : ℕ)
        → s.threads i ≡ none
        → Step s (record s { threads = set_thread s.threads i (some s.sequence) })
    exchange :
        (i current : ℕ)
        → s.threads i ≡ some current
        → s.sequence ≡ current
        → Step s (record {
          sequence = advance max current;
          threads = set_thread s.threads i none;
          issued = advance max current ∷ s.issued;
        })
    retry :
        (i current : ℕ)
        → s.threads i ≡ some current
        → Step s (record s { threads = set_thread s.threads i (some s.sequence) })

  pub data Reach (s : Shared) : Shared → Type 0 where
    here : Reach s s
    next : {t u : Shared} → Reach s t → Step t u → Reach s u

  abbrev pub started : Shared
  started = record { sequence = 0; threads = λ _. none; issued = [] }

  -- The n-th value of a single caller, counted from zero.
  abbrev pub nth_value : ℕ → ℕ
  nth_value n = n % max + 1

  abbrev pub values : ℕ → List ℕ
  values zero = []
  values (suc n) = nth_value n ∷ values n

  -- The counter after `n` values.
  abbrev counter : ℕ → ℕ
  counter zero = 0
  counter (suc n) = nth_value n

  module _ (positive : 0 < max) where
    advance-counter : (n : ℕ) → advance max (counter n) ≡ nth_value n
    unfolding advance
    advance-counter zero = grind arith
    advance-counter (suc n) = grind arith

    Reach-values :
        {s : Shared}
        → Reach started s
        → (s.sequence ≡ counter (length s.issued)) × (s.issued ≡ values (length s.issued))
    Reach-values here = (refl, refl)
    Reach-values (next r (load i idle)) = Reach-values r
    Reach-values (next r (retry i current busy)) = Reach-values r
    Reach-values (next {t = t} r (exchange i current busy same)) =
        let (c, v) = Reach-values r in
        let e = advance-counter (length t.issued) in (ground (arith, e), ground (arith, e))

    -- Whatever the order of the steps, the values handed out are those that a single caller would
    -- get: 1, 2, ... up to the largest, and then 1 again.
    pub issued-values : {s : Shared} → Reach started s → s.issued ≡ values (length s.issued)
    issued-values r = (Reach-values r).1

    mem-values-le : {a : ℕ} (k : ℕ) → k ≤ max → Mem a (values k) → a ≤ k
    mem-values-le zero h m = absurd (not-mem-nil m)
    mem-values-le (suc k) h m =
        Or.elim le_prop (mem-cons.0 m) (λ e. rw e (grind arith))
          (λ later. le_suc (mem-values-le k (omega arith) later))
      where
        le_suc : {a k : ℕ} → a ≤ k → a ≤ suc k
        le_suc h = omega arith

    values-Nodup : (k : ℕ) → k ≤ max → Nodup (values k)
    values-Nodup zero h = Nodup-nil
    values-Nodup (suc k) h =
        Nodup-cons.1
          ((λ m. grind (arith, mem-values-le k (omega arith) m)), values-Nodup k (omega arith))

    -- As long as no more than `max` values were handed out, no two of them are the same, whichever
    -- threads got them.
    pub issued-Nodup : {s : Shared} → Reach started s → length s.issued ≤ max → Nodup s.issued
    issued-Nodup r h = rw (issued-values r) (values-Nodup _ h)
