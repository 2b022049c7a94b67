-- ===== src/Client/Introspect/Elapsed.antt =====
-- How long a request took, as the dashboard shows it.
use neutun.Base.{ℕ, ◌+◌, ◌-◌, ◌*◌, ◌/◌, ◌<◌, ◌≤◌, ◌≡◌, ◌⊎◌, inl, inr, codes, ◌++◌, arith}
use native.Mathlib.Decide.{dec_lt}
use neutun.Str.Numbers.{show}
use neutun.Client.Introspect.{Request, elapsed}

-- Unless the clock went backwards, a time below a second is shown in whole milliseconds, of which
-- there are less than a thousand, and any other in whole seconds, rounded down in both cases.
pub elapsed_bounds :
    (r : Request)
    → r.started ≤ r.completed
    → let nanos = r.completed - r.started in
      ((n : ℕ) × (elapsed r ≡ show n ++ codes "ms")
        × (n < 1000)
        × (n * 1000000 ≤ nanos)
        × (nanos < (n + 1) * 1000000))
      ⊎ ((n : ℕ) × (elapsed r ≡ show n ++ codes "s")
          × (1 ≤ n)
          × (n * 1000000000 ≤ nanos)
          × (nanos < (n + 1) * 1000000000))
unfolding elapsed
elapsed_bounds r h =
    let nanos = r.completed - r.started in
    elim (dec_lt nanos 1000000000) [
      | yes short ↦ inl (nanos / 1000000, ground arith, omega arith, omega arith, omega arith)
      | no long ↦ inr (nanos / 1000000000, ground arith, omega arith, omega arith, omega arith)
    ]
