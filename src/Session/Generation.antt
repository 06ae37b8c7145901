-- ===== src/Session/Generation.antt =====
-- The generation counter, a uint64 that skips 0 when it wraps.
use stripelink.Prelude.{ℕ, ◌≤◌, ◌≢◌, arith}
use stripelink.Session.{max_uint64, next_generation}

-- After a uint64 the next generation is a uint64, is never 0, and is never the current one: a flow that was
-- reserved before it can tell.
pub next_generation_fresh :
    (n : ℕ)
    → n ≤ max_uint64
    → (1 ≤ next_generation n) × (next_generation n ≤ max_uint64) × (next_generation n ≢ n)
unfolding next_generation
next_generation_fresh n h = ground arith
