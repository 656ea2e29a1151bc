-- ===== src/Ram/Move.antt =====
-- `move_ram_bytes` against its reference: one `memmove` over the flat RAM, overlaps included.
use linchpin.Base.{
  ℕ, zero, suc, ◌+◌, ◌-◌, ◌/◌, ◌%◌, ◌≤◌, ◌<◌, ◌≡◌, refl, ◌&&◌, some, arith, ltb, leb, min,
  if◌then◌else◌, ◌∙◌, ◌⊎◌, inl, inr,
}
use linchpin.Ram.{Ram, full_ram_bytes, memmove, forward_loop, backward_loop, move_ram_bytes}
use linchpin.Ram.Access.{byte_at, Holds}

-- The `n` bytes from `d` on are the old ones from `s` on, and the others are as before.
abbrev pub shifted : (ℕ → ℕ) → ℕ → ℕ → ℕ → ℕ → ℕ
shifted f d s n p = if leb d p && ltb p (d + n) then f (s + (p - d)) else f p

abbrev pub moved : Ram → ℕ → ℕ → ℕ → ℕ → ℕ
moved ram d s n p = shifted (byte_at ram) d s n p

-- Two moves in the order of the loops make one: upwards when the destination lies below, and
-- downwards when it lies above.
module _ (f g : ℕ → ℕ) (d s c n : ℕ) (part : c ≤ n) where
  shifted_up :
      d < s
      → (p : ℕ) → g p ≡ shifted f d s c p
      → g (s + c + (p - (d + c))) ≡ shifted f d s c (s + c + (p - (d + c)))
      → shifted g (d + c) (s + c) (n - c) p ≡ shifted f d s n p
  shifted_up below p at_p at_source = ground arith

  shifted_down :
      s < d
      → (p : ℕ) → g p ≡ shifted f (d + (n - c)) (s + (n - c)) c p
      → g (s + (p - d)) ≡ shifted f (d + (n - c)) (s + (n - c)) c (s + (p - d))
      → shifted g d s (n - c) p ≡ shifted f d s n p
  shifted_down above p at_p at_source = ground arith

-- The bytes that one round of the forward loop moves.
abbrev up_chunk : ℕ → ℕ → ℕ → ℕ
up_chunk d s n = min (min (0x8000 - s % 0x8000) (0x8000 - d % 0x8000)) n

abbrev up_moved : Ram → ℕ → ℕ → ℕ → Ram
up_moved ram d s n =
    memmove ram (d / 0x8000) (d % 0x8000) (s / 0x8000) (s % 0x8000) (up_chunk d s n)

-- Within a chunk, bank and offset of both ranges run with the flat offset.
bank_run :
    (o i c : ℕ)
    → o % 0x8000 + c ≤ 0x8000
    → i < c
    → ((o + i) / 0x8000 ≡ o / 0x8000) × ((o + i) % 0x8000 ≡ o % 0x8000 + i)
bank_run o i c fits lt = omega arith

memmove-moved :
    (ram : Ram) (d s c p : ℕ)
    → d % 0x8000 + c ≤ 0x8000
    → s % 0x8000 + c ≤ 0x8000
    → byte_at (memmove ram (d / 0x8000) (d % 0x8000) (s / 0x8000) (s % 0x8000) c) p
      ≡ moved ram d s c p
memmove-moved ram d s c p df sf = ground (arith, bank_run s (p - d) c sf)

forward_loop-suc :
    (fuel : ℕ) (ram : Ram) (d s n : ℕ)
    → 0 < n
    → d + n ≤ full_ram_bytes
    → s + n ≤ full_ram_bytes
    → forward_loop (suc fuel) ram d s n
      ≡ forward_loop fuel
          (up_moved ram d s n)
          (d + up_chunk d s n)
          (s + up_chunk d s n)
          (n - up_chunk d s n)
unfolding forward_loop
forward_loop-suc fuel ram d s n pos df sf = ground arith

forward_loop-Holds :
    (fuel : ℕ) (ram : Ram) (d s n : ℕ)
    → n < fuel
    → d < s
    → s + n ≤ full_ram_bytes
    → Holds (forward_loop fuel ram d s n) (moved ram d s n)
forward_loop-Holds zero ram d s n enough below sf = elim enough [ ]
forward_loop-Holds (suc fuel) ram d s zero enough below sf = record {
  ram = ram;
  made = unfold forward_loop in refl;
  bytes = λ p. ground arith;
}
forward_loop-Holds (suc fuel) ram d s (suc n) enough below sf =
    let c = up_chunk d s (suc n) in
    let rest =
      forward_loop-Holds fuel (up_moved ram d s (suc n)) (d + c) (s + c) (suc n - c) (omega arith)
        (omega arith) (omega arith) in
    rw (forward_loop-suc fuel ram d s (suc n) (omega arith) (omega arith) sf) (record {
      ram = rest.ram;
      made = rest.made;
      bytes = λ p.
          rest.bytes p
          ∙ shifted_up (byte_at ram) (byte_at (up_moved ram d s (suc n))) d s c (suc n)
              (omega arith) below p (memmove-moved ram d s c p (omega arith) (omega arith))
              (memmove-moved ram d s c (s + c + (p - (d + c))) (omega arith) (omega arith));
    })

-- The bytes that one round of the backward loop moves, and the RAM after it.
abbrev down_chunk : ℕ → ℕ → ℕ → ℕ
down_chunk d s n = min (min ((s + n - 1) % 0x8000 + 1) ((d + n - 1) % 0x8000 + 1)) n

abbrev down_moved : Ram → ℕ → ℕ → ℕ → ℕ → Ram
down_moved ram d s n c =
    memmove ram ((d + (n - c)) / 0x8000) ((d + (n - c)) % 0x8000) ((s + (n - c)) / 0x8000)
      ((s + (n - c)) % 0x8000) c

-- Counted from its last byte, a chunk has the bank and offset of its first.
bank_back :
    (o n c : ℕ)
    → 0 < n
    → 0 < c
    → c ≤ n
    → c ≤ (o + n - 1) % 0x8000 + 1
    → ((o + n - 1) / 0x8000 ≡ (o + (n - c)) / 0x8000)
      × ((o + n - 1) % 0x8000 + 1 - c ≡ (o + (n - c)) % 0x8000)
bank_back o n c pos some_bytes le fits = omega arith

backward_loop-suc :
    (fuel : ℕ) (ram : Ram) (d s n : ℕ)
    → 0 < n
    → d + n ≤ full_ram_bytes
    → s + n ≤ full_ram_bytes
    → backward_loop (suc fuel) ram d s n
      ≡ backward_loop fuel (down_moved ram d s n (down_chunk d s n)) d s (n - down_chunk d s n)
unfolding backward_loop
backward_loop-suc fuel ram d s n pos df sf =
    ground (arith, bank_back d n (down_chunk d s n), bank_back s n (down_chunk d s n))

backward_loop-Holds :
    (fuel : ℕ) (ram : Ram) (d s n : ℕ)
    → n < fuel
    → s < d
    → d + n ≤ full_ram_bytes
    → Holds (backward_loop fuel ram d s n) (moved ram d s n)
backward_loop-Holds zero ram d s n enough above df = elim enough [ ]
backward_loop-Holds (suc fuel) ram d s zero enough above df = record {
  ram = ram;
  made = unfold backward_loop in refl;
  bytes = λ p. ground arith;
}
backward_loop-Holds (suc fuel) ram d s (suc n) enough above df =
    let c = down_chunk d s (suc n) in
    let k = suc n - c in
    let rest =
      backward_loop-Holds fuel (down_moved ram d s (suc n) c) d s k (omega arith) (omega arith)
        (omega arith) in
    rw (backward_loop-suc fuel ram d s (suc n) (omega arith) df (omega arith)) (record {
      ram = rest.ram;
      made = rest.made;
      bytes = λ p.
          rest.bytes p
          ∙ shifted_down (byte_at ram) (byte_at (down_moved ram d s (suc n) c)) d s c (suc n)
              (omega arith) above p
              (memmove-moved ram (d + k) (s + k) c p (omega arith) (omega arith))
              (memmove-moved ram (d + k) (s + k) c (s + (p - d)) (omega arith) (omega arith));
    })

-- The branches of `move_ram_bytes`.
module _ (ram : Ram) (d s n : ℕ) where
  move_nothing : (n ≡ 0) ⊎ (d ≡ s) → move_ram_bytes ram d s n ≡ some ram
  unfolding move_ram_bytes
  move_nothing h = ground arith

  move_up : 0 < n → d < s → move_ram_bytes ram d s n ≡ forward_loop (suc n) ram d s n
  unfolding move_ram_bytes
  move_up pos below = ground arith

  move_down : 0 < n → s < d → move_ram_bytes ram d s n ≡ backward_loop (suc n) ram d s n
  unfolding move_ram_bytes
  move_down pos above = ground arith

Order-cases : (n d s : ℕ) → ((n ≡ 0) ⊎ (d ≡ s)) ⊎ ((0 < n) × (d < s)) ⊎ ((0 < n) × (s < d))
Order-cases n d s = grind arith

-- Inside the RAM `move_ram_bytes` reaches no byte outside a bank and stops: each destination byte
-- is the source byte of before the call, also where the ranges overlap, and every byte outside the
-- destination is as before.
pub move_ram_bytes-Holds :
    (ram : Ram) (d s n : ℕ)
    → d + n ≤ full_ram_bytes
    → s + n ≤ full_ram_bytes
    → Holds (move_ram_bytes ram d s n) (moved ram d s n)
move_ram_bytes-Holds ram d s n df sf = elim (Order-cases n d s) [
  | inl nothing ↦ record {
    ram = ram;
    made = move_nothing ram d s n nothing;
    bytes = λ p. ground arith;
  }
  | inr (inl (pos, below)) ↦
      rw (move_up ram d s n pos below) (forward_loop-Holds (suc n) ram d s n (omega arith) below sf)
  | inr (inr (pos, above)) ↦
      rw (move_down ram d s n pos above)
        (backward_loop-Holds (suc n) ram d s n (omega arith) above df)
]
