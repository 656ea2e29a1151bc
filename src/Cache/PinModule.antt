-- ===== src/Cache/PinModule.antt =====
-- PINM: all code pages of a module become resident and pinned, or a load has failed.
use linchpin.Base.{
  ℕ, zero, suc, ◌+◌, ◌-◌, ◌*◌, ◌%◌, ◌≤◌, ◌<◌, ◌≡◌, ◌∙◌, ◌⊎◌, inl, inr, refl, Bool, true, false,
  Option, none, some, ltb, ◌==◌, arith, Bool-cases, Option-cases, u16, u32,
}
use linchpin.Image.{CodeModule}
use linchpin.Cache.{ObjFile, CodeCache, set_entry, pinned, pin_from, load_code_page}
use linchpin.Cache.Pins.{Keeps, load_code_page-Keeps}

-- A valid and pinned slot holds the page at `base`.
abbrev pub Resident : CodeCache → ℕ → Type 0
Resident c base =
    (s : ℕ) × (s < c.entry_count)
    × ((c.entries s).valid ≡ true)
    × ((c.entries s).page_base ≡ base)
    × (0 < (c.entries s).pin_count)

-- The page that holds an offset of the module.
abbrev pub page_of : CodeModule → ℕ → ℕ
page_of mod_ offset = let abs = u32 (mod_.object_offset + offset) in abs - abs % 256

Resident-Keeps :
    {c : CodeCache} {b : ℕ} {result : CodeCache × Option ℕ} (base : ℕ)
    → Keeps c b result
    → Resident c base
    → Resident result.0 base
Resident-Keeps base k (s, lt, ok, at_base, held) =
    let same = k.kept s lt ok held in
    (s, omega (arith, k.count), same.valid ∙ ok, same.base ∙ at_base, omega (arith, same.pins))

abbrev pin_slot : CodeCache → ℕ → CodeCache
pin_slot c slot = set_entry c slot (pinned (c.entries slot))

Resident-pin : (c : CodeCache) (slot base : ℕ) → Resident c base → Resident (pin_slot c slot) base
Resident-pin c slot base (s, lt, ok, at_base, held) =
    (s, lt, ground arith, ground arith, ground arith)

Resident-pinned :
    (c : CodeCache) (s base : ℕ)
    → s < c.entry_count
    → (c.entries s).valid ≡ true
    → (c.entries s).page_base ≡ base
    → Resident (pin_slot c s) base
Resident-pinned c s base lt ok at_base = (s, lt, ground arith, ground arith, ground arith)

-- The rounds of the loop that succeed, from one offset to another: each loads the page of its offset
-- into the cache that the round before has left, and pins the slot that it got.
pub data Pinned (file : ObjFile) (mod_ : CodeModule) : CodeCache → ℕ → CodeCache → ℕ → Type 0 where
  no_round : {c : CodeCache} {o : ℕ} → Pinned file mod_ c o c o
  round :
      {c c' : CodeCache} {o k : ℕ} (slot : ℕ)
      → o < mod_.length
      → (load_code_page file c mod_ o).1 ≡ some slot
      → Pinned file mod_ (pin_slot (load_code_page file c mod_ o).0 slot) (o + 256) c' k
      → Pinned file mod_ c o c' k

-- The loop from offset `o` on has ended: what was resident still is, and either the rounds have
-- reached the end of the module, with all further pages resident, or they have reached an offset
-- inside the module whose page does not load into the cache that they left.
pub record PinsFrom (file : ObjFile) (mod_ : CodeModule) (c : CodeCache) (o : ℕ)
    (result : CodeCache × Bool) : Type 0 where
  pub kept : (base : ℕ) → Resident c base → Resident result.0 base
  pub outcome :
      ((result.1 ≡ true)
        × ((k : ℕ) × (mod_.length ≤ k) × Pinned file mod_ c o result.0 k)
        × ((k : ℕ) → o ≤ k → k < mod_.length → k % 256 ≡ 0 → Resident result.0 (page_of mod_ k)))
      ⊎ ((result.1 ≡ false)
          × ((c' : CodeCache) × (k : ℕ) × (k < mod_.length)
              × Pinned file mod_ c o c' k
              × ((load_code_page file c' mod_ k).1 ≡ none)
              × (result.0 ≡ (load_code_page file c' mod_ k).0)))

module _ (file : ObjFile) (mod_ : CodeModule) (short : mod_.length ≤ 65536) where
  -- One round that loads its page, and one that does not.
  pin_from-loaded :
      (fuel : ℕ) (c : CodeCache) (o s : ℕ)
      → o < mod_.length
      → (load_code_page file c mod_ o).1 ≡ some s
      → pin_from file mod_ (suc fuel) c o
        ≡ pin_from file mod_ fuel (pin_slot (load_code_page file c mod_ o).0 s) (o + 256)
  unfolding pin_from
  pin_from-loaded fuel c o s inside loaded =
      let here : u16 o ≡ o = omega arith in
      let next : u32 (o + 256) ≡ o + 256 = omega arith in ground arith

  pin_from-failed :
      (fuel : ℕ) (c : CodeCache) (o : ℕ)
      → o < mod_.length
      → (load_code_page file c mod_ o).1 ≡ none
      → pin_from file mod_ (suc fuel) c o ≡ ((load_code_page file c mod_ o).0, false)
  unfolding pin_from
  pin_from-failed fuel c o inside failed = let here : u16 o ≡ o = omega arith in ground arith

  pin_from-over :
      (fuel : ℕ) (c : CodeCache) (o : ℕ)
      → mod_.length ≤ o
      → pin_from file mod_ (suc fuel) c o ≡ (c, true)
  unfolding pin_from
  pin_from-over fuel c o over = ground arith

  pin_from-PinsFrom :
      (fuel : ℕ) (c : CodeCache) (o : ℕ)
      → o % 256 ≡ 0
      → o < mod_.length + 256
      → mod_.length + 256 ≤ 256 * fuel + o
      → PinsFrom file mod_ c o (pin_from file mod_ fuel c o)
  pin_from-PinsFrom zero c o page near enough = absurd (omega arith)
  pin_from-PinsFrom (suc fuel) c o page near enough = elim (Bool-cases (ltb o mod_.length)) [
    | inr over ↦ rw (pin_from-over fuel c o (ground arith)) (record {
      kept = λ base r. r;
      outcome = inl (refl, (o, ground arith, no_round), λ k le lt at_page. absurd (ground arith));
    })
    | inl below ↦
        let inside : o < mod_.length = ground arith in
        let loading = load_code_page-Keeps file c mod_ o in
        elim (Option-cases (load_code_page file c mod_ o).1) [
          | inl failed ↦ rw (pin_from-failed fuel c o inside failed) (record {
            kept = λ base r. Resident-Keeps base loading r;
            outcome = inr (refl, (c, o, inside, no_round, failed, refl));
          })
          | inr (slot, loaded) ↦
              let c' = (load_code_page file c mod_ o).0 in
              let (lt, ok, at_base) = loading.slot slot loaded in
              let rest =
                pin_from-PinsFrom fuel (pin_slot c' slot) (o + 256) (omega arith) (omega arith)
                  (omega arith) in
              rw (pin_from-loaded fuel c o slot inside loaded) (record {
                kept = λ base r.
                    rest.kept base (Resident-pin c' slot base (Resident-Keeps base loading r));
                outcome = elim rest.outcome [
                  | inl (done, (k', behind, pins), all) ↦ inl (
                    done,
                    (k', behind, round slot inside loaded pins),
                    λ k le lt' at_page. elim (Bool-cases (k == o)) [
                      | inl same ↦ rw (let e : k ≡ o = ground arith in e) (
                          rest.kept (page_of mod_ o) (
                            Resident-pinned c' slot (page_of mod_ o) (omega (arith, loading.count))
                              ok at_base))
                      | inr later ↦ all k (ground arith) lt' at_page
                    ],
                  )
                  | inr (over, (c'', k, below', pins, failed, is)) ↦
                      inr (over, (c'', k, below', round slot inside loaded pins, failed, is))
                ];
              })
        ]
  ]

-- For a module of at most 64 KB the loop of `pin_module_code_pages` ends within its fuel. Either it
-- answers true, having loaded and pinned the pages in order to the end of the module, and every page
-- of the module is resident and pinned; or it answers false, having loaded and pinned the pages in
-- order up to one that did not load into the cache it had then, and leaves the cache of that attempt.
-- Pages that were resident and pinned before the loop stay so.
pub pin_from-Resident :
    (file : ObjFile) (mod_ : CodeModule) (c : CodeCache)
    → mod_.length ≤ 65536
    → PinsFrom file mod_ c 0 (pin_from file mod_ (suc mod_.length) c 0)
pin_from-Resident file mod_ c short =
    pin_from-PinsFrom file mod_ short (suc mod_.length) c 0 (omega arith) (omega arith)
      (omega arith)
