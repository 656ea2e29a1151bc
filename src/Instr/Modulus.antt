-- ===== src/Instr/Modulus.antt =====
-- The modulus of the MOD instruction.
use native.Mathlib.Nat.{mod-lt}
use linchpin.Base.{ℕ, ◌-◌, ◌%◌, ◌<◌, ◌≤◌, ◌≡◌, arith, ◌==◌, if◌then◌else◌}
use linchpin.Instr.{modulus}

-- For a positive 16-bit divisor the result lies between 0 and the divisor; it is the remainder of a
-- dividend that is not negative, and for a negative dividend of magnitude `n` it is 0 where the
-- divisor divides `n`, and otherwise the divisor less the remainder of `n`: the floored modulus.
pub modulus-floored :
    (dividend divisor : ℕ)
    → dividend < 65536
    → 0 < divisor
    → divisor < 32768
    → (modulus dividend divisor < divisor)
      × (dividend < 32768 → modulus dividend divisor ≡ dividend % divisor)
      × (32768 ≤ dividend
          → let r = (65536 - dividend) % divisor in
            modulus dividend divisor ≡ (if r == 0 then 0 else divisor - r))
unfolding modulus
modulus-floored dividend divisor word pos small =
    let near = mod-lt dividend pos in
    let far = mod-lt (65536 - dividend) pos in
    (ground (arith, near, far), λ plus. ground (arith, near), λ minus. ground (arith, far))
