-- ===== src/Diagnostics/Summary/Bounded.antt =====
-- The summary of a client's options is short, and shows two of them.
use stripelink.Prelude.{
  ℕ, zero, suc, ◌+◌, ◌^◌, ◌/◌, ◌%◌, ◌≤◌, ◌<◌, ◌≡◌, refl, inl, inr, Bool, Bool-cases, true, false,
  List, [], ◌∷◌, ◌++◌, ltb, lt→ltb, length, length-append, arith,
}
use stripelink.Prelude.Int.{ℤ, pos, negsuc, IsInt64}
use stripelink.World.{Env}
use stripelink.Client.Construction.{Options}
use stripelink.Diagnostics.{max_diagnostic_bytes}
use stripelink.Diagnostics.ErrorText.{bytes, decimal_from}
use stripelink.Diagnostics.Utf8.{utf8}
use stripelink.Diagnostics.Summary.{signed, truth, options_start, options_middle, options_summary}

-- A number under 10 ^ (k + 1) has at most k + 1 digits.
length-decimal_from : (fuel k n : ℕ) → n < 10 ^ suc k → length (decimal_from fuel n) ≤ suc k
unfolding decimal_from
length-decimal_from zero k n h = omega arith
length-decimal_from (suc fuel) zero n h = rw (lt→ltb n 10 (omega (arith, h))) (omega arith)
length-decimal_from (suc fuel) (suc k) n h = elim (Bool-cases (ltb n 10)) [
  | inl e ↦ rw e (omega arith)
  | inr e ↦
      let front = length-decimal_from fuel k (n / 10) (omega (arith, h)) in
      rw (e, length-append (decimal_from fuel (n / 10)) ((b'0' + n % 10) ∷ []))
        (omega (arith, front))
]

signed-IsShort : (z : ℤ) → IsInt64 z → length (signed z) ≤ 20
unfolding signed
signed-IsShort (pos n) h = omega (arith, h, length-decimal_from (n + 1) 18 n (omega (arith, h)))
signed-IsShort (negsuc n) h =
    omega (arith, h, length-decimal_from (n + 1 + 1) 18 (n + 1) (omega (arith, h)))

truth-IsShort : (b : Bool) → length (truth b) ≤ 5
unfolding truth utf8
truth-IsShort true = omega arith
truth-IsShort false = omega arith

length-around :
    (a b c x y : List ℕ)
    → length x ≤ 20
    → length y ≤ 5
    → length a + length b + length c ≤ 487
    → length (a ++ (x ++ (b ++ (y ++ c)))) ≤ max_diagnostic_bytes
length-around a b c x y hx hy h =
    rw
      (
        length-append a (x ++ (b ++ (y ++ c))),
        length-append x (b ++ (y ++ c)),
        length-append b (y ++ c),
        length-append y c,
      )
      (omega arith)

-- However fmt is asked for the options of a client, it prints at most 512 bytes, which depend on the bound
-- for bodies, an int64, and on the switch for the log alone: a token, a header or an URL is not among them.
options_summary-hides :
    {S : Type 0} {env : Env S} (o p : Options env)
    → IsInt64 o.max_response_body_bytes
    → o.max_response_body_bytes ≡ p.max_response_body_bytes
    → o.verbose ≡ p.verbose
    → (length (options_summary o) ≤ max_diagnostic_bytes) × (options_summary o ≡ options_summary p)
unfolding options_summary utf8
options_summary-hides o p h same verbose = (
  length-around options_start options_middle (bytes "}") _ _
      (signed-IsShort o.max_response_body_bytes h) (truth-IsShort o.verbose) (omega arith),
  rw (same, verbose) refl,
)
