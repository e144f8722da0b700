-- ===== src/Clock.antt =====
-- src/common/time.hpp on x86-64: the frequency of the time stamp counter, measured once. The
-- readings of the counter and of the steady clock are arguments.
use mockex.Prelude.{ℕ, ◌+◌, ◌-◌, ◌*◌, ◌/◌, ◌%◌, ◌^◌, ◌≡◌, ◌≢◌, refl, List, [], ◌∷◌, All, not, ◌==◌}
use mockex.Prelude.{if◌then◌else◌, ==_of_ne}
use mockex.Double.{Double}

-- `rdtsc`: the two halves that the instruction leaves, `((uint64_t)hi << 32) | lo`
unfoldable pub rdtsc : ℕ → ℕ → ℕ
rdtsc lo hi = hi * 2 ^ 32 + lo

-- What one measurement reads, before the loop that takes the time and behind it.
pub record Measurement : Type 0 where
  pub t0 : ℕ
  pub c0 : ℕ
  pub t1 : ℕ
  pub c1 : ℕ

module _ {D : Type 0} (d : Double D) where
  -- The cycles that went by over the nanoseconds that did, times 1e9. The loop between the readings
  -- leaves nothing, and the steady clock counts nanoseconds and does not run backwards.
  abbrev pub measured : Measurement → ℕ
  measured m =
      let cycles = d.of_nat ((m.c1 + 2 ^ 64 - m.c0) % 2 ^ 64) in
      d.to_u64 (d.mul (d.div cycles (d.of_nat (m.t1 - m.t0))) (d.of_nat (10 ^ 9)))

  -- `tsc_to_ns`, at the frequency that `tsc_frequency` returns
  abbrev pub tsc_to_ns : ℕ → ℕ → D
  tsc_to_ns freq cycles = d.div (d.mul (d.of_nat cycles) (d.of_nat (10 ^ 9))) (d.of_nat freq)

  -- `tsc_frequency` on its static `freq`; what it returns is what it leaves there.
  unfoldable pub tsc_frequency : ℕ → Measurement → ℕ
  tsc_frequency freq m = if not (freq == 0) then freq else measured m

  -- What a sequence of calls returns.
  unfoldable pub calls : ℕ → List Measurement → List ℕ
  unfolding tsc_frequency
  calls freq [] = []
  calls freq (m ∷ ms) = let next = tsc_frequency freq m in next ∷ calls next ms

  -- From a first frequency that is not 0 on, each call returns it, whatever it would measure.
  calls-settled :
      (freq : ℕ) (ms : List Measurement) → freq ≢ 0 → All (λ f. f ≡ freq) (calls freq ms)
  unfolding calls tsc_frequency
  calls-settled freq [] nz = tt
  calls-settled freq (m ∷ ms) nz = rw (==_of_ne nz) (refl, calls-settled freq ms nz)

-- `wall_now_ns`, of the count of the steady clock, and `wall_now_us`
unfoldable pub wall_now_ns : ℕ → ℕ
wall_now_ns count = count % 2 ^ 64

unfoldable pub wall_now_us : ℕ → ℕ
unfolding wall_now_ns
wall_now_us count = wall_now_ns count / 1000
