-- ===== src/Ram/Zero.antt =====
-- `zero_ram_bytes` against its reference: one `memset` over the flat RAM.
use linchpin.Base.{
  ℕ, zero, suc, ◌+◌, ◌-◌, ◌/◌, ◌%◌, ◌≤◌, ◌<◌, ◌≡◌, refl, ◌&&◌, arith, ltb, leb, min, if◌then◌else◌,
}
use linchpin.Ram.{Ram, full_ram_bytes, clear, zero_loop, zero_ram_bytes}
use linchpin.Ram.Access.{byte_at, Holds}

-- The bytes from `o` on, `n` of them, are 0, and the others those of `ram`.
abbrev pub zeroed : Ram → ℕ → ℕ → ℕ → ℕ
zeroed ram o n p = if leb o p && ltb p (o + n) then 0 else byte_at ram p

-- The bytes that one round clears.
abbrev chunk : ℕ → ℕ → ℕ
chunk o n = min (0x8000 - o % 0x8000) n

-- One round: the chunk stays in its bank.
clear-zeroed :
    (ram : Ram) (o n p : ℕ)
    → byte_at (clear ram (o / 0x8000) (o % 0x8000) (chunk o n)) p ≡ zeroed ram o (chunk o n) p
clear-zeroed ram o n p = ground arith

zero_loop-suc :
    (fuel : ℕ) (ram : Ram) (o n : ℕ)
    → 0 < n
    → o + n ≤ full_ram_bytes
    → zero_loop (suc fuel) ram o n
      ≡ zero_loop fuel
          (clear ram (o / 0x8000) (o % 0x8000) (chunk o n))
          (o + chunk o n)
          (n - chunk o n)
unfolding zero_loop
zero_loop-suc fuel ram o n pos fits = ground arith

zero_loop-Holds :
    (fuel : ℕ) (ram : Ram) (o n : ℕ)
    → n < fuel
    → o + n ≤ full_ram_bytes
    → Holds (zero_loop fuel ram o n) (zeroed ram o n)
zero_loop-Holds zero ram o n enough fits = elim enough [ ]
zero_loop-Holds (suc fuel) ram o zero enough fits = record {
  ram = ram;
  made = unfold zero_loop in refl;
  bytes = λ p. ground arith;
}
zero_loop-Holds (suc fuel) ram o (suc n) enough fits =
    let c = chunk o (suc n) in
    let cleared = clear ram (o / 0x8000) (o % 0x8000) c in
    let rest = zero_loop-Holds fuel cleared (o + c) (suc n - c) (omega arith) (omega arith) in
    rw (zero_loop-suc fuel ram o (suc n) (omega arith) fits) (record {
      ram = rest.ram;
      made = rest.made;
      bytes = λ p. ground (arith, rest.bytes p, clear-zeroed ram o (suc n) p);
    })

-- Inside the RAM `zero_ram_bytes` reaches no byte outside a bank and stops: the bytes of the range
-- are 0 afterwards, and every other byte is as before.
pub zero_ram_bytes-Holds :
    (ram : Ram) (o n : ℕ) → o + n ≤ full_ram_bytes → Holds (zero_ram_bytes ram o n) (zeroed ram o n)
unfolding zero_ram_bytes
zero_ram_bytes-Holds ram o n fits = zero_loop-Holds (suc n) ram o n (omega arith) fits
