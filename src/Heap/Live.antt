-- ===== src/Heap/Live.antt =====
-- No two live vectors overlap: the blocks in use beside those of the free list.
use mathlib.Core.Path.{subst, subst₂}
use linchpin.Base.{
  sym, ap, ℕ, ◌+◌, ◌-◌, ◌*◌, ◌≤◌, ◌<◌, ◌≡◌, ◌≢◌, ◌⊎◌, inl, inr, refl, List, [], ◌∷◌, some, arith,
  ◌==◌, leb, ◌||◌, ◌&&◌, update, Bool-cases,
}
use native.Mathlib.Decide.{ℕ_discrete}
use linchpin.Ram.{false_sentinel, segment_size_bytes}
use linchpin.Aggregate.{handle_to_byte_offset}
use linchpin.Heap.{Memory, size_of, free_list_buckets, allocate_vector, release_vector}
use linchpin.Heap.Invariant.{IsUsed, IsHeap}
use linchpin.Heap.Alloc.{Taken, slot, low_arena, high_arena, allocate_vector-Vector}

-- Offset and size in bytes of each vector in use.
abbrev pub Blocks : Type 0
Blocks = List (ℕ × ℕ)

abbrev pub Apart : ℕ → ℕ → ℕ → ℕ → Type 0
Apart o n p k = (o + n ≤ p) ⊎ (p + k ≤ o)

abbrev pub ApartFrom : ℕ → ℕ → Blocks → Type 0
ApartFrom o n [] = Unit
ApartFrom o n ((p, k) ∷ bs) = Apart o n p k × ApartFrom o n bs

abbrev pub Disjoint : Blocks → Type 0
Disjoint [] = Unit
Disjoint ((o, n) ∷ bs) = ApartFrom o n bs × Disjoint bs

abbrev pub AllUsed : Memory → Blocks → Type 0
AllUsed m [] = Unit
AllUsed m ((o, n) ∷ bs) = IsUsed m o n × AllUsed m bs

-- The blocks lie in the arenas, and they and the blocks of the free list do not overlap.
pub record IsLive (m : Memory) (bs : Blocks) : Type 0 where
  pub used : AllUsed m bs
  pub disjoint : Disjoint bs
  pub free :
      (i : ℕ)
      → i < free_list_buckets
      → m.free_list i ≢ 0
      → ApartFrom (m.free_list i) ((i + 1) * 2) bs
  pub slots :
      (i j : ℕ)
      → i < free_list_buckets
      → j < free_list_buckets
      → i ≢ j
      → m.free_list i ≢ 0
      → m.free_list j ≢ 0
      → Apart (m.free_list i) ((i + 1) * 2) (m.free_list j) ((j + 1) * 2)

-- What the arenas have handed out stays handed out when their next bytes rise.
AllUsed-mono :
    (m m' : Memory) (bs : Blocks)
    → m.next_low_arena_byte ≤ m'.next_low_arena_byte
    → m.next_high_arena_byte ≤ m'.next_high_arena_byte
    → AllUsed m bs
    → AllUsed m' bs
AllUsed-mono m m' [] low high all = tt
AllUsed-mono m m' ((o, n) ∷ bs) low high all = (ground arith, AllUsed-mono m m' bs low high all.1)

module _ {m : Memory} (h : IsHeap m) (n : ℕ) where
  low_apart :
      (bs : Blocks)
      → m.next_low_arena_byte + n ≤ segment_size_bytes
      → AllUsed m bs
      → ApartFrom m.next_low_arena_byte n bs
  low_apart [] fits all = tt
  low_apart ((o, k) ∷ bs) fits all = (ground arith, low_apart bs fits all.1)

  high_apart : (bs : Blocks) → AllUsed m bs → ApartFrom m.next_high_arena_byte n bs
  high_apart [] all = tt
  high_apart ((o, k) ∷ bs) all = (ground (arith, h.low, h.high), high_apart bs all.1)

Apart-sym : (o n p k : ℕ) → Apart o n p k → Apart p k o n
Apart-sym o n p k a = ground arith

module _ {m after : Memory} (wc : ℕ) (bs : Blocks) (h : IsHeap m) (heap : IsHeap after)
    (live : IsLive m bs) where
  -- The other slots of the free list are as before.
  left_alone :
      after.free_list ≡ update m.free_list (wc - 1) 0
      → (i : ℕ) → after.free_list i ≢ 0
      → (i ≢ wc - 1) × (after.free_list i ≡ m.free_list i)
  left_alone list i hit = ground (arith, ap (λ (f : ℕ → ℕ). f i) list)

  slot_apart :
      (o : ℕ)
      → 0 < wc
      → wc ≤ free_list_buckets
      → o ≢ 0
      → o ≡ m.free_list (wc - 1)
      → ApartFrom o (size_of wc) bs
  slot_apart o pos small ne from =
      let size : (wc - 1 + 1) * 2 ≡ size_of wc = ground arith in
      subst₂ (λ x n. ApartFrom x n bs) (sym from) size
        (live.free (wc - 1) (omega arith) (ground arith))

  Taken-IsLive :
      (o : ℕ)
      → IsUsed after o (size_of wc)
      → Taken m after wc o
      → IsLive after ((o, size_of wc) ∷ bs)
  Taken-IsLive o used (slot pos small ne from list low high) = record {
    used = (used, AllUsed-mono m after bs (omega arith) (omega arith) live.used);
    disjoint = (slot_apart o pos small ne from, live.disjoint);
    free = λ i lt hit.
        let (other, same) = left_alone list i hit in
        (
          ground (arith, live.slots i (wc - 1) lt),
          subst (λ x. ApartFrom x ((i + 1) * 2) bs) (sym same) (live.free i lt (ground arith)),
        );
    slots = λ i j lt lt' differ hit hit'.
        let (_, same) = left_alone list i hit in
        let (_, same') = left_alone list j hit' in
        rw (same, same') (live.slots i j lt lt' differ (ground arith) (ground arith));
  }
  Taken-IsLive o used (low_arena from low high list) = record {
    used = (used, AllUsed-mono m after bs (omega arith) (omega arith) live.used);
    disjoint = (
      subst (λ x. ApartFrom x (size_of wc) bs) (sym from)
          (low_apart h (size_of wc) bs (omega (arith, heap.low)) live.used),
      live.disjoint,
    );
    free = λ i lt hit. (
      ground (arith, h.freed i lt, h.low, heap.low),
      subst (λ f. ApartFrom (f i) ((i + 1) * 2) bs) (sym list) (live.free i lt (ground arith)),
    );
    slots = λ i j lt lt' differ hit hit'. ground (arith, live.slots i j lt lt' differ);
  }
  Taken-IsLive o used (high_arena from high low list) = record {
    used = (used, AllUsed-mono m after bs (omega arith) (omega arith) live.used);
    disjoint = (
      subst (λ x. ApartFrom x (size_of wc) bs) (sym from) (high_apart h (size_of wc) bs live.used),
      live.disjoint,
    );
    free = λ i lt hit. (
      ground (arith, h.freed i lt, h.low, h.high),
      subst (λ f. ApartFrom (f i) ((i + 1) * 2) bs) (sym list) (live.free i lt (ground arith)),
    );
    slots = λ i j lt lt' differ hit hit'. ground (arith, live.slots i j lt lt' differ);
  }

-- On a heap that meets the invariant and whose live vectors `bs` do not overlap, `allocate_vector`
-- for a 16-bit word count either adds a block that overlaps no live vector and no block of the free
-- list, or refuses with `LPST_FALSE_SENTINEL` and leaves the heap as it was.
pub allocate_vector-IsLive :
    (m : Memory) (word_count : ℕ) (bs : Blocks)
    → IsHeap m
    → word_count < 65536
    → IsLive m bs
    → (handle : ℕ) × (after : Memory) × (allocate_vector m word_count ≡ some (handle, after))
      × (IsLive after ((handle_to_byte_offset handle, size_of word_count) ∷ bs)
          ⊎ ((handle ≡ false_sentinel) × (after ≡ m)))
allocate_vector-IsLive m wc bs h word live =
    let v = allocate_vector-Vector m wc h word in
    (
      v.handle,
      v.after,
      v.made,
      elim v.outcome [
        | inl (g, used, from) ↦
            inl (rw (g.names) (Taken-IsLive wc bs h v.heap live g.offset used from))
        | inr refused ↦ inr refused
      ],
    )

module _ (m : Memory) (handle wc : ℕ) (bs : Blocks) (pos : 0 < wc)
    (live : IsLive m ((handle_to_byte_offset handle, wc * 2) ∷ bs)) where
  kept-IsLive : IsLive m bs
  kept-IsLive = record {
    used = live.used.1;
    disjoint = live.disjoint.1;
    free = λ i lt hit. (live.free i lt hit).1;
    slots = live.slots;
  }

  cached-IsLive :
      wc ≤ free_list_buckets
      → m.free_list (wc - 1) ≡ 0
      → IsLive
          (record m { free_list = update m.free_list (wc - 1) (handle_to_byte_offset handle) })
          bs
  cached-IsLive small empty = record {
    used =
        AllUsed-mono m
          (record m { free_list = update m.free_list (wc - 1) (handle_to_byte_offset handle) }) bs
          (omega arith) (omega arith) live.used.1;
    disjoint = live.disjoint.1;
    free = λ i lt hit. elim (ℕ_discrete i (wc - 1)) [
      | yes same ↦ subst₂ (λ x n. ApartFrom x n bs) (ground arith) (ground arith) live.disjoint.0
      | no other ↦
          subst (λ x. ApartFrom x ((i + 1) * 2) bs) (ground arith) (live.free i lt (ground arith)).1
    ];
    slots = λ i j lt lt' differ hit hit'.
        ground (arith, live.slots i j lt lt' differ, live.free i lt, live.free j lt');
  }

-- `release_vector` does nothing, or puts the block into the free slot of its size.
release_vector-cases :
    (m : Memory) (handle wc : ℕ)
    → (release_vector m handle wc ≡ m)
      ⊎ ((wc ≤ free_list_buckets)
          × (m.free_list (wc - 1) ≡ 0)
          × (release_vector m handle wc ≡ record m {
            free_list = update m.free_list (wc - 1) (handle_to_byte_offset handle);
          }))
unfolding release_vector
release_vector-cases m handle wc = elim (Bool-cases ((handle == false_sentinel) || (wc == 0))) [
  | inl nothing ↦ inl (rw nothing refl)
  | inr real ↦ elim (Bool-cases (leb wc free_list_buckets && (m.free_list (wc - 1) == 0))) [
    | inl room ↦ inr (ground arith, ground arith, rw (real, room) refl)
    | inr none_left ↦ inl (rw (real, none_left) refl)
  ]
]

-- A live vector that is released is no longer live: its block goes to the free list or is dropped,
-- and the other live vectors and the free list do not overlap.
pub release_vector-IsLive :
    (m : Memory) (handle word_count : ℕ) (bs : Blocks)
    → 0 < word_count
    → IsLive m ((handle_to_byte_offset handle, word_count * 2) ∷ bs)
    → IsLive (release_vector m handle word_count) bs
release_vector-IsLive m handle wc bs pos live = elim (release_vector-cases m handle wc) [
  | inl same ↦ subst (λ x. IsLive x bs) (sym same) (kept-IsLive m handle wc bs pos live)
  | inr (small, empty, stored) ↦
      subst (λ x. IsLive x bs) (sym stored) (cached-IsLive m handle wc bs pos live small empty)
]
