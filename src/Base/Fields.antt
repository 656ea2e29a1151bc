-- ===== src/Base/Fields.antt =====
-- The binary digits of shifts, masks, complements and casts.
use Prim.Native.Nat.{ℕ, zero, suc, ◌+◌, ◌-◌, ◌*◌, ◌/◌, ◌%◌, ◌^◌, ◌<◌}
use mathlib.Core.Path.{◌≡◌, refl, ◌∙◌, ap, sym}
use native.Mathlib.Nat.{
  pow-suc, two-pow-succ, one-le-pow, div-div-eq-div-mul, add-mul-mod_self_left, mod-eq_of_lt,
  div-add-mod,
}
use native.Mathlib.Omega.{arith}
use linchpin.Base.Tests.{ltb, if◌then◌else◌}
use linchpin.Base.Bits.{bit}

half_pow : (n x : ℕ) → x * 2 ^ suc n / 2 ≡ x * 2 ^ n
half_pow n x = omega (arith, ap (λ (t : ℕ). x * t) (pow-suc 2 n))

pub bit-zero : (i : ℕ) → bit 0 i ≡ 0
bit-zero zero = refl
bit-zero (suc i) = bit-zero i

-- `x << s`
pub bit-shl : (s i x : ℕ) → bit (x * 2 ^ s) i ≡ (if ltb i s then 0 else bit x (i - s))
bit-shl zero i x = ground arith
bit-shl (suc s) zero x = ground (arith, ap (λ (t : ℕ). x * t) (pow-suc 2 s))
bit-shl (suc s) (suc i) x = rw (half_pow s x) (bit-shl s i x ∙ ground arith)

deeper : (i s : ℕ) → i + suc s ≡ suc (i + s)
deeper i s = omega arith

half_shr : (s x : ℕ) → x / 2 ^ suc s ≡ x / 2 / 2 ^ s
half_shr s x =
    ap (λ (t : ℕ). x / t) (two-pow-succ s ∙ omega arith) ∙ sym (div-div-eq-div-mul x 2 (2 ^ s))

-- `x >> s`
pub bit-shr : (s i x : ℕ) → bit (x / 2 ^ s) i ≡ bit x (i + s)
bit-shr zero i x = ground arith
bit-shr (suc s) i x = rw (half_shr s x) (bit-shr s i (x / 2) ∙ ap (bit x) (sym (deeper i s)))

-- the low `n` bits
half_mod : (n x : ℕ) → x % 2 ^ suc n / 2 ≡ x / 2 % 2 ^ n
half_mod n x =
    let q = x / 2 ^ suc n in
    let r = x % 2 ^ suc n in
    let split : x / 2 ≡ r / 2 + 2 ^ n * q =
      omega (
        arith,
        two-pow-succ n,
        div-add-mod x (2 ^ suc n),
        ap (λ (t : ℕ). q * t) (two-pow-succ n),
      ) in
    rw (split, add-mul-mod_self_left (r / 2) (2 ^ n) q)
      (sym (mod-eq_of_lt (omega (arith, two-pow-succ n, one-le-pow n 2))))

pub bit-mod : (n i x : ℕ) → bit (x % 2 ^ n) i ≡ (if ltb i n then bit x i else 0)
bit-mod zero i x = ap (λ (t : ℕ). bit t i) (omega arith) ∙ bit-zero i ∙ ground arith
bit-mod (suc n) zero x = ground (
  arith,
  two-pow-succ n,
  div-add-mod x (2 ^ suc n),
  ap (λ (t : ℕ). x / 2 ^ suc n * t) (two-pow-succ n),
)
bit-mod (suc n) (suc i) x = rw (half_mod n x) (bit-mod n i (x / 2) ∙ ground arith)

-- a mask of `n` ones
pub bit-mask : (n i : ℕ) → bit (2 ^ n - 1) i ≡ (if ltb i n then 1 else 0)
bit-mask zero i = bit-zero i ∙ ground arith
bit-mask (suc n) zero = ground (arith, two-pow-succ n, one-le-pow n 2)
bit-mask (suc n) (suc i) = rw (half n) (bit-mask n i ∙ ground arith)
  where
    half : (m : ℕ) → (2 ^ suc m - 1) / 2 ≡ 2 ^ m - 1
    half m = omega (arith, two-pow-succ m, one-le-pow m 2)

-- the complement in `n` bits
pub bit-not : (n i x : ℕ) → x < 2 ^ n → i < n → bit (2 ^ n - 1 - x) i ≡ 1 - bit x i
bit-not zero i x fits lt = elim lt [ ]
bit-not (suc n) zero x fits lt = omega (arith, two-pow-succ n, one-le-pow n 2)
bit-not (suc n) (suc i) x fits lt =
    rw (half n x) (bit-not n i (x / 2) (omega (arith, two-pow-succ n)) (omega arith))
  where
    half : (m y : ℕ) → (2 ^ suc m - 1 - y) / 2 ≡ 2 ^ m - 1 - y / 2
    half m y = omega (arith, two-pow-succ m, one-le-pow m 2)
