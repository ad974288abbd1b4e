-- ===== src/Build/Steps/Halves.antt =====
-- A build of gmv_pjsip_sys/build.rs that runs to its end, taken apart.
use gmv_pjsip.Prelude.{◌≡◌, refl, List, ◌++◌, arith}
use gmv_pjsip.Build.Steps.{Effect, Build, panicked, done, ◌>>=◌, ◌>>◌}

-- Both halves of a build that runs to its end run to theirs.
pub record Halves {A B : Type 0} (m : Build A) (k : A → Build B) (effects : List Effect) (b : B)
    : Type 0 where
  pub first : List Effect
  pub value : A
  pub rest : List Effect
  pub before : m ≡ (first, done value)
  pub after : k value ≡ (rest, done b)
  pub whole : effects ≡ first ++ rest

pub >>=-Halves :
    {A B : Type 0} (m : Build A) (k : A → Build B) (effects : List Effect) (b : B)
    → (m >>= k) ≡ (effects, done b)
    → Halves m k effects b
>>=-Halves (first, panicked p) k effects b e = absurd (ground arith)
>>=-Halves (first, done a) k effects b e = record {
  first = first;
  value = a;
  rest = (k a).0;
  before = refl;
  after = ground arith;
  whole = ground arith;
}

pub >>-Halves :
    {B : Type 0} (m : Build (Unit {0})) (k : Build B) (effects : List Effect) (b : B)
    → (m >> k) ≡ (effects, done b)
    → Halves m (λ _. k) effects b
>>-Halves (first, panicked p) k effects b e = absurd (ground arith)
>>-Halves (first, done a) k effects b e = record {
  first = first;
  value = a;
  rest = k.0;
  before = refl;
  after = ground arith;
  whole = ground arith;
}
