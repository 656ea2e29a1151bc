-- ===== src/Exec/Tokens.antt =====
-- The slots of the jump snapshots: what `alloc_jump_snapshot` of
-- src/LinchpinST/src/lpst_run_runtime.c gives a token, `find_jump_snapshot` finds.
use linchpin.Base.{
  ℕ, zero, suc, ◌+◌, ◌≤◌, ◌<◌, ◌≡◌, ◌≢◌, ◌∙◌, refl, ap, arith, Bool, true, false, ◌&&◌, Option,
  none, some, ◌==◌, Array, update, Bool-cases, ◌⊎◌, inl, inr,
}
use mathlib.Core.Path.{subst}
use native.Mathlib.Decide.{ℕ_discrete}
use linchpin.Exec.{Snapshot}
use linchpin.Exec.Jumps.{
  find_token, find_jump_snapshot, find_free, free_jump_snapshot_storage, claim, reuse,
  alloc_jump_snapshot,
}

abbrev pub has : Array Snapshot → ℕ → ℕ → Bool
has a token i = (a i).in_use && ((a i).token == token)

-- What the search from `i` says: the first slot that has the token, or that none has it.
abbrev pub Search : Array Snapshot → ℕ → ℕ → ℕ → Option ℕ → Type 0
Search a token i left none = (j : ℕ) → i ≤ j → j < i + left → has a token j ≡ false
Search a token i left (some s) =
    (i ≤ s)
    × (s < i + left)
    × (has a token s ≡ true)
    × ((j : ℕ) → i ≤ j → j < s → has a token j ≡ false)

Search-later :
    (a : Array Snapshot) (token i left : ℕ) (o : Option ℕ)
    → has a token i ≡ false
    → Search a token (i + 1) left o
    → Search a token i (suc left) o
Search-later a token i left none here rest = λ j lo hi. elim (ℕ_discrete j i) [
  | yes same ↦ ap (has a token) same ∙ here
  | no other ↦ rest j (omega arith) (omega arith)
]
Search-later a token i left (some s) here rest = (
  omega (arith, rest.0),
  omega (arith, rest.1),
  rest.2,
  λ j lo hi. elim (ℕ_discrete j i) [
    | yes same ↦ ap (has a token) same ∙ here
    | no other ↦ rest.3 j (omega arith) hi
  ],
)

find_token-Search :
    (a : Array Snapshot) (token left i : ℕ) → Search a token i left (find_token a token left i)
unfolding find_token
find_token-Search a token zero i = λ j lo hi. absurd (omega arith)
find_token-Search a token (suc left) i = elim (Bool-cases (has a token i)) [
  | inl here ↦ rw here (omega arith, omega arith, here, λ j lo hi. absurd (omega arith))
  | inr there ↦ rw there (
      Search-later a token i left (find_token a token left (i + 1)) there
        (find_token-Search a token left (i + 1)))
]

-- The search finds a slot before which none has the token.
find_token-first :
    (a : Array Snapshot) (token left i s : ℕ)
    → i ≤ s
    → s < i + left
    → has a token s ≡ true
    → ((j : ℕ) → i ≤ j → j < s → has a token j ≡ false)
    → find_token a token left i ≡ some s
unfolding find_token
find_token-first a token zero i s lo hi at_s before = absurd (omega arith)
find_token-first a token (suc left) i s lo hi at_s before = elim (ℕ_discrete i s) [
  | yes same ↦ rw (ap (has a token) same ∙ at_s) (ap some same)
  | no other ↦ rw (before i (omega arith) (omega arith)) (
      find_token-first a token left (i + 1) s (omega arith) (omega arith) at_s
        (λ j lo' hi'. before j (omega arith) hi'))
]

find_free-IsFree :
    (a : Array Snapshot) (left i s : ℕ)
    → find_free a left i ≡ some s
    → (i ≤ s) × (s < i + left) × ((a s).in_use ≡ false)
unfolding find_free
find_free-IsFree a zero i s e = ground (arith)
find_free-IsFree a (suc left) i s e = elim (Bool-cases (a i).in_use) [
  | inl used ↦ ground (arith, find_free-IsFree a left (i + 1) s)
  | inr free ↦
      let here : s ≡ i = ground arith in
      (omega arith, omega arith, ap (λ k. (a k).in_use) here ∙ free)
]

update-here : (a : Array Snapshot) (i : ℕ) (t : Snapshot) → update a i t i ≡ t
update-here a i t = ground (arith)

update-there : (a : Array Snapshot) (i j : ℕ) (t : Snapshot) → j ≢ i → update a i t j ≡ a j
update-there a i j t h = ground (arith)

-- A slot that gets the token, where no slot before it has it, is what the search then finds.
found_after :
    (a : Array Snapshot) (token i : ℕ) (t : Snapshot)
    → i < 64
    → t.in_use ≡ true
    → t.token ≡ token
    → ((j : ℕ) → j < i → has a token j ≡ false)
    → find_jump_snapshot (update a i t) token ≡ some i
unfolding find_jump_snapshot
found_after a token i t lt used named before =
    find_token-first (update a i t) token 64 0 i (omega arith) lt
      (ap (λ x. x.in_use && (x.token == token)) (update-here a i t) ∙ ground (arith, used, named))
      (λ j lo hi.
        ap (λ x. x.in_use && (x.token == token)) (update-there a i j t (ground arith))
        ∙ before j hi)

-- The slot and the snapshots of an allocation for the token.
abbrev pub Claimed : Array Snapshot → ℕ → ℕ × Array Snapshot → Type 0
Claimed a token (slot, after) =
    (find_jump_snapshot after token ≡ some slot)
    × (slot < 64)
    × (((a slot).in_use ≡ false) ⊎ ((a slot).token ≡ token))
    × ((after slot).in_use ≡ true)
    × ((after slot).token ≡ token)
    × ((i : ℕ) → i ≢ slot → after i ≡ a i)

from_some : ℕ × Array Snapshot → Option (ℕ × Array Snapshot) → ℕ × Array Snapshot
from_some d none = d
from_some d (some p) = p

Claimed-update :
    (a : Array Snapshot) (token i : ℕ) (t : Snapshot) (p : ℕ × Array Snapshot)
    → i < 64
    → t.in_use ≡ true
    → t.token ≡ token
    → ((j : ℕ) → j < i → has a token j ≡ false)
    → ((a i).in_use ≡ false) ⊎ ((a i).token ≡ token)
    → some (i, update a i t) ≡ some p
    → Claimed a token p
unfolding from_some
Claimed-update a token i t p lt used named before free e =
    subst (Claimed a token) (ap (from_some p) e) (
      found_after a token i t lt used named before,
      lt,
      free,
      ap (λ x. x.in_use) (update-here a i t) ∙ used,
      ap (λ x. x.token) (update-here a i t) ∙ named,
      λ j other. update-there a i j t other,
    )

claim-Claimed :
    (a : Array Snapshot) (token : ℕ) (o : Option ℕ) (p : ℕ × Array Snapshot)
    → ((i : ℕ) → o ≡ some i → (i < 64) × ((a i).in_use ≡ false))
    → ((j : ℕ) → j < 64 → has a token j ≡ false)
    → claim a token o ≡ some p
    → Claimed a token p
unfolding claim
claim-Claimed a token none p bound nowhere e = cc
claim-Claimed a token (some i) p bound nowhere e =
    Claimed-update a token i _ p (bound i refl).0 refl refl
      (λ j lt. nowhere j (omega (arith, bound i refl))) (inl (bound i refl).1) e

reuse-Claimed :
    (a : Array Snapshot) (token : ℕ) (o : Option ℕ) (p : ℕ × Array Snapshot)
    → Search a token 0 64 o
    → reuse a token o ≡ some p
    → Claimed a token p
unfolding reuse free_jump_snapshot_storage
reuse-Claimed a token none p nowhere e =
    claim-Claimed a token (find_free a 64 0) p
      (λ i is. let (lo, hi, free) = find_free-IsFree a 64 0 i is in (omega arith, free))
      (λ j lt. nowhere j (omega arith) (omega arith)) e
reuse-Claimed a token (some i) p (lo, hi, here, before) e =
    Claimed-update a token i _ p (omega arith) (ground (arith, here)) (ground (arith, here))
      (λ j lt. before j (omega arith) lt) (inr (ground (arith, here))) e

-- When `alloc_jump_snapshot` gives a token a slot, it is one of the 64; before, it was free or had
-- that token, so no live snapshot of another token is overwritten; afterwards it is in use with the
-- token, the search for the token finds it, and all other slots are as before.
pub find_jump_snapshot-alloc_jump_snapshot :
    (snapshots after : Array Snapshot) (token slot : ℕ)
    → alloc_jump_snapshot snapshots token ≡ some (slot, after)
    → (find_jump_snapshot after token ≡ some slot)
      × (slot < 64)
      × (((snapshots slot).in_use ≡ false) ⊎ ((snapshots slot).token ≡ token))
      × ((after slot).in_use ≡ true)
      × ((after slot).token ≡ token)
      × ((i : ℕ) → i ≢ slot → after i ≡ snapshots i)
unfolding alloc_jump_snapshot find_jump_snapshot
find_jump_snapshot-alloc_jump_snapshot a after token slot e =
    reuse-Claimed a token (find_jump_snapshot a token) (slot, after)
      (find_token-Search a token 64 0) e
