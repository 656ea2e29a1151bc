-- ===== src/BitField/Laws.antt =====
-- What the bit-field operations do to each bit, and that a field that was put in comes out.
use native.Mathlib.Nat.{pow-le-pow_right, one-le-pow}
use linchpin.Base.{
  ℕ, zero, suc, ◌+◌, ◌-◌, ◌*◌, ◌/◌, ◌%◌, ◌^◌, ◌≤◌, ◌<◌, ◌≡◌, ◌∙◌, refl, ap, ◌&&◌, arith, ◌==◌, ltb,
  leb, bit_and, bit_or, if◌then◌else◌, u16,
}
use linchpin.Base.Bits.{bit, bit-lt, bit-bit_and, bit-bit_or, eq_of_bits}
use linchpin.Base.Fields.{bit-zero, bit-shl, bit-shr, bit-mod, bit-mask, bit-not}
use linchpin.BitField.{shift_of, width_of, value_mask, extracted, replaced, with_bit}

bit-u16 : (i x : ℕ) → i < 16 → bit (u16 x) i ≡ bit x i
bit-u16 i x lt = bit-mod 16 i x ∙ ground arith

bit-complement : (i x : ℕ) → x < 65536 → i < 16 → bit (65535 - x) i ≡ 1 - bit x i
bit-complement i x fits lt = bit-not 16 i x fits lt

one_mul : (w : ℕ) → 1 * 2 ^ w ≡ 2 ^ w
one_mul w = omega arith

bit-value_mask : (w i : ℕ) → i < 16 → bit (value_mask w) i ≡ (if ltb i w then 1 else 0)
unfolding value_mask
bit-value_mask w i lt = ground (
  arith,
  bit-zero i,
  bit-u16 i (1 * 2 ^ w - 1),
  ap (λ (t : ℕ). bit (t - 1) i) (one_mul w),
  bit-mask w i,
)

-- Bit `i` of what is extracted is bit `i + shift` of the word inside the field, and 0 beyond it.
pub bit-extracted :
    (word control i : ℕ)
    → i < 16
    → bit (extracted word control) i
      ≡ (if ltb i (width_of control) then bit word (i + shift_of control) else 0)
unfolding extracted
bit-extracted word control i lt =
    rw (bit-u16 i _ lt, bit-bit_and, bit-shr, bit-value_mask (width_of control) i lt)
      (ground (arith, bit-lt (i + shift_of control) word))

-- Inside the field, bit `i` of the new word is bit `i - shift` of the value; outside it is that of
-- the old word.
pub bit-replaced :
    (word control value i : ℕ)
    → i < 16
    → bit (replaced word control value) i ≡ (
        if leb (shift_of control) i && ltb i (shift_of control + width_of control)
        then bit value (i - shift_of control)
        else bit word i)
unfolding replaced
bit-replaced word control value i lt =
    let s = shift_of control in
    let w = width_of control in
    let mask = value_mask w in
    let word_mask = u16 (mask * 2 ^ s) in
    let kept = bit_and word (65535 - word_mask) in
    let put_in = bit_and value mask in
    rw (bit-u16 i (bit_or kept (put_in * 2 ^ s)) lt, bit-bit_or i kept (put_in * 2 ^ s))
      (ground (
        arith,
        bit-bit_and i word (65535 - word_mask),
        bit-complement i word_mask,
        bit-u16 i (mask * 2 ^ s),
        bit-shl s i mask,
        bit-shl s i put_in,
        bit-bit_and (i - s) value mask,
        bit-value_mask w (i - s),
        bit-lt i word,
        bit-lt (i - s) value,
      ))

bit-one : (j : ℕ) → bit 1 j ≡ (if j == 0 then 1 else 0)
bit-one zero = refl
bit-one (suc j) = bit-zero j ∙ ground arith

-- The bit whose number the control word names is set to its bit 8, and no other bit changes.
pub bit-with_bit :
    (word control i : ℕ)
    → i < 16
    → bit (with_bit word control) i
      ≡ (if i == shift_of control then control / 2 ^ 8 % 2 else bit word i)
unfolding with_bit
bit-with_bit word control i lt =
    let n = shift_of control in
    let mask = u16 (1 * 2 ^ n) in
    ground (
      arith,
      bit-u16 i (bit_or word mask),
      bit-u16 i (bit_and word (65535 - mask)),
      bit-bit_or i word mask,
      bit-bit_and i word (65535 - mask),
      bit-complement i mask,
      bit-u16 i (1 * 2 ^ n),
      bit-shl n i 1,
      bit-one (i - n),
      bit-lt i word,
    )

two-pow-lt : (w : ℕ) → w < 16 → 2 ^ w ≤ 32768
two-pow-lt w lt = pow-le-pow_right {n = 2} (omega arith) {i = w} {j = 15} (omega arith)

pub replaced-lt : (word control value : ℕ) → replaced word control value < 65536
unfolding replaced
replaced-lt word control value = omega arith

pub with_bit-lt : (word control : ℕ) → with_bit word control < 65536
unfolding with_bit
with_bit-lt word control = ground arith

extracted-lt : (word control : ℕ) → extracted word control < 65536
unfolding extracted
extracted-lt word control = omega arith

-- A field that lies inside the word gives back what was put into it, cut to its width.
pub extracted-replaced :
    (word control value : ℕ)
    → shift_of control + width_of control ≤ 16
    → extracted (replaced word control value) control ≡ value % 2 ^ width_of control
extracted-replaced word control value inside =
    let w = width_of control in
    let s = shift_of control in
    let narrow : w < 16 = omega arith in
    let new = replaced word control value in
    eq_of_bits 16 (extracted new control) (value % 2 ^ w) (extracted-lt new control)
      (omega (arith, two-pow-lt w narrow, one-le-pow w 2))
      λ i lt. ground (
        arith,
        bit-extracted new control i lt,
        bit-replaced word control value (i + s),
        bit-mod w i value,
      )
