-- ===== src/Exec/Tests.antt =====
-- Examples for the theorems on calls and the evaluation stack.
use linchpin.Base.{
  ◌⊎◌, ℕ, ◌+◌, ◌<◌, ◌≡◌, ◌≢◌, refl, true, false, some, [], ◌∷◌, arith, Array, update, ◌==◌,
  if◌then◌else◌,
}
use linchpin.Image.{ProcHeader}
use linchpin.Exec.{ExecState, Snapshot}
use linchpin.Exec.Calls.{
  no_snapshot, enter_procedure, entered, refresh_current_frame_jump_snapshots,
}
use linchpin.Exec.Entry.{do_return}
use linchpin.Exec.Jumps.{
  find_token, find_jump_snapshot, find_free, claim, reuse, alloc_jump_snapshot,
}
use linchpin.Exec.Samples.{sample_state, sample_env}
use linchpin.Exec.Tokens.{find_jump_snapshot-alloc_jump_snapshot}
use linchpin.Exec.Returns.{IsReturned, do_return-enter_procedure}

abbrev sample_header : ProcHeader
sample_header = record {
  local_count = 4;
  header_size = 4;
  initializers = record { local_index = 1; value = 42 } ∷ [];
}

-- The state inside a procedure called with two arguments.
abbrev inside : ExecState
unfolding enter_procedure
inside =
    (enter_procedure sample_env sample_state 1 sample_header 0x80 0x84 0x100 7 0x43 2
      (λ i. 200 + i)).1

-- The callee has changed its locals and left rubbish on the stack.
abbrev returning : ExecState
unfolding inside
returning = record inside { local_storage = λ i. 77; eval_stack_top = 9 }

do_return-enter_procedure_example :
    IsReturned sample_state 0x43 returning
      (8 ∷ 9 ∷ [])
      (do_return sample_env returning (8 ∷ 9 ∷ []))
unfolding enter_procedure entered inside returning refresh_current_frame_jump_snapshots
do_return-enter_procedure_example =
    do_return-enter_procedure sample_env sample_state inside returning 1 sample_header 0x80 0x84
      0x100 7 0x43 2 (λ i. 200 + i) (8 ∷ 9 ∷ []) refl refl refl (omega arith)

-- Slot 0 is in use with another token, so token 0xA001 gets slot 1.
abbrev one_snapshot : Array Snapshot
one_snapshot i =
    if i == 0 then record no_snapshot { in_use = true; token = 0xa000 } else no_snapshot

abbrev two_snapshots : Array Snapshot
two_snapshots = update one_snapshot 1 (record no_snapshot { in_use = true; token = 0xa001 })

find_jump_snapshot-alloc_jump_snapshot_example :
    (find_jump_snapshot two_snapshots 0xa001 ≡ some 1)
    × (1 < 64)
    × (((one_snapshot 1).in_use ≡ false) ⊎ ((one_snapshot 1).token ≡ 0xa001))
    × ((two_snapshots 1).in_use ≡ true)
    × ((two_snapshots 1).token ≡ 0xa001)
    × ((i : ℕ) → i ≢ 1 → two_snapshots i ≡ one_snapshot i)
unfolding alloc_jump_snapshot find_jump_snapshot find_token reuse find_free claim
find_jump_snapshot-alloc_jump_snapshot_example =
    find_jump_snapshot-alloc_jump_snapshot one_snapshot two_snapshots 0xa001 1 refl
