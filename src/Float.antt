-- ===== src/Float.antt =====
-- Go's float64 as far as gslb and httprps use it: a type with its order and sum. The order of IEEE 754
-- is strict and transitive on all values, a NaN included: a NaN is below nothing and above nothing.
use ncdn.Base.{◌≡◌, Bool, true, false}

pub record Float : Type 1 where
  pub F : Type 0
  pub ltf : F → F → Bool
  pub addf : F → F → F
  -- 0.0, `defaultLatency` and `math.MaxFloat64`
  pub zerof : F
  pub default_latency : F
  pub max_float : F

pub record IsOrdered (fl : Float) : Type 0 where
  pub lt_irrefl : (a : fl.F) → fl.ltf a a ≡ false
  pub lt_trans : (a b c : fl.F) → fl.ltf a b ≡ true → fl.ltf b c ≡ true → fl.ltf a c ≡ true
