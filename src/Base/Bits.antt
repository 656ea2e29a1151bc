-- ===== src/Base/Bits.antt =====
-- The binary digits of `&` and `|`, at every width.
use Prim.Native.Nat.{
  ℕ, zero, suc, ◌+◌, ◌*◌, ◌/◌, ◌%◌, ◌^◌, ◌≤◌, ◌<◌, min, max, bit_and, bit_or, digits, bitwise,
  bit_and-bitwise, bit_or-bitwise,
}
use mathlib.Core.Path.{◌≡◌, refl, ap}
use native.Mathlib.Decide.{dec_le}
use native.Mathlib.Nat.{pow-suc}
use native.Mathlib.Omega.{arith}

-- `digits` recurs on a bound of its first argument; any bound that suffices gives one result.
module _ (z : ℕ → ℕ) (op : ℕ → ℕ → ℕ) where
  one_more_round : (bound x y : ℕ) → x ≤ bound → digits z op (suc bound) x y ≡ digits z op bound x y
  one_more_round zero zero y le = refl
  one_more_round zero (suc x) y le = elim le [ ]
  one_more_round (suc bound) zero y le = refl
  one_more_round (suc bound) (suc x) y le =
      omega (arith, one_more_round bound (suc x / 2) (y / 2) (omega arith))

  enough_rounds :
      (large small x y : ℕ)
      → x ≤ small
      → small ≤ large
      → digits z op large x y ≡ digits z op small x y
  enough_rounds zero zero x y le up = refl
  enough_rounds zero (suc small) x y le up = elim up [ ]
  enough_rounds (suc large) small x y le up = elim (dec_le small large) [
    | yes within ↦
        omega
          (arith, one_more_round large x y (omega arith), enough_rounds large small x y le within)
    | no beyond ↦ let top : small ≡ suc large = omega arith in rw top
  ]

  lowest_digit :
      (x y : ℕ)
      → bitwise z op (suc x) y ≡ op (suc x % 2) (y % 2) + 2 * bitwise z op (suc x / 2) (y / 2)
  lowest_digit x y =
      omega (arith, enough_rounds x (suc x / 2) (suc x / 2) (y / 2) (omega arith) (omega arith))

-- The lowest digits of both, and the rest.
pub bit_and-halves : (x y : ℕ) → bit_and x y ≡ min (x % 2) (y % 2) + 2 * bit_and (x / 2) (y / 2)
bit_and-halves zero y = simp bit_and-bitwise (omega arith)
bit_and-halves (suc x) y = simp bit_and-bitwise (lowest_digit (λ t. 0) min x y)

pub bit_or-halves : (x y : ℕ) → bit_or x y ≡ max (x % 2) (y % 2) + 2 * bit_or (x / 2) (y / 2)
bit_or-halves zero y = simp bit_or-bitwise (omega arith)
bit_or-halves (suc x) y = simp bit_or-bitwise (lowest_digit (λ t. t) max x y)

-- Bit `i` of `x`.
abbrev pub bit : ℕ → ℕ → ℕ
bit x zero = x % 2
bit x (suc i) = bit (x / 2) i

pub bit-lt : (i x : ℕ) → bit x i < 2
bit-lt zero x = omega arith
bit-lt (suc i) x = bit-lt i (x / 2)

pub bit-bit_and : (i a b : ℕ) → bit (bit_and a b) i ≡ min (bit a i) (bit b i)
bit-bit_and zero a b = omega (arith, bit_and-halves a b)
bit-bit_and (suc i) a b = rw (half a b) (bit-bit_and i (a / 2) (b / 2))
  where
    half : (x y : ℕ) → bit_and x y / 2 ≡ bit_and (x / 2) (y / 2)
    half x y = omega (arith, bit_and-halves x y)

pub bit-bit_or : (i a b : ℕ) → bit (bit_or a b) i ≡ max (bit a i) (bit b i)
bit-bit_or zero a b = omega (arith, bit_or-halves a b)
bit-bit_or (suc i) a b = rw (half a b) (bit-bit_or i (a / 2) (b / 2))
  where
    half : (x y : ℕ) → bit_or x y / 2 ≡ bit_or (x / 2) (y / 2)
    half x y = omega (arith, bit_or-halves x y)

-- Two words of `n` bits with the same bits are the same.
pub eq_of_bits : (n a b : ℕ) → a < 2 ^ n → b < 2 ^ n → ((i : ℕ) → i < n → bit a i ≡ bit b i) → a ≡ b
eq_of_bits zero a b ha hb h = omega arith
eq_of_bits (suc n) a b ha hb h = omega (
  arith,
  h 0 (omega arith),
  eq_of_bits n (a / 2) (b / 2) (omega arith) (omega arith) (λ i lt. h (suc i) (omega arith)),
)

pub zero-bit_or : (q : ℕ) → bit_or 0 q ≡ q
zero-bit_or q = bit_or-bitwise 0 q

-- `r | (q << k)` is a sum when `r` fits `k` bits.
pub bit_or-shl : (k q r : ℕ) → r < 2 ^ k → bit_or r (q * 2 ^ k) ≡ q * 2 ^ k + r
bit_or-shl zero q zero fits = omega (arith, zero-bit_or (q * 1))
bit_or-shl zero q (suc r) fits = absurd (omega arith)
bit_or-shl (suc k) q r fits = ground (
  arith,
  bit_or-halves r (q * 2 ^ suc k),
  ap (λ (t : ℕ). q * t) (pow-suc 2 k),
  bit_or-shl k q (r / 2) (omega (arith, pow-suc 2 k)),
)

bit_or_comm_below : (bound a b : ℕ) → a ≤ bound → b ≤ bound → bit_or a b ≡ bit_or b a
bit_or_comm_below zero zero zero ha hb = refl
bit_or_comm_below zero zero (suc b) ha hb = elim hb [ ]
bit_or_comm_below zero (suc a) b ha hb = elim ha [ ]
bit_or_comm_below (suc bound) a b ha hb = omega (
  arith,
  bit_or-halves a b,
  bit_or-halves b a,
  bit_or_comm_below bound (a / 2) (b / 2) (omega arith) (omega arith),
)

pub bit_or_comm : (a b : ℕ) → bit_or a b ≡ bit_or b a
bit_or_comm a b = bit_or_comm_below (a + b) a b (omega arith) (omega arith)
