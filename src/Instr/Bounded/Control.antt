-- ===== src/Instr/Bounded/Control.antt =====
-- The bounds of the machine's arrays, kept by the calls, returns, halts and pages of
-- src/LinchpinST/src/lpst_run.c and the snapshots and pins of lpst_run_dispatch.c.
use linchpin.Base.{ℕ, zero, suc, Bool, true, false, Option, none, some, ltb, if-cases, List, []}
use linchpin.Base.Options.{Each, none-Each, some-Each}
use linchpin.Cache.{CodeCache}
use linchpin.Exec.{ExecState, Env, pop, fetch_byte, fetch_le16, max_locals}
use linchpin.Exec.Bounded.{IsBounded, pop-IsBounded, fetch_byte-IsBounded, fetch_le16-IsBounded}
use linchpin.Exec.Bounded.Frames.{FitsImage, do_return-IsBounded}
use linchpin.Exec.Bounded.Entries.{enter_near_call-IsBounded, enter_far_call-IsBounded}
use linchpin.Exec.Bounded.Saves.Steps.{save_jump_snapshot-KeepsBounds}
use linchpin.Exec.Bounded.Restores.{restore_jump_snapshot-KeepsBounds}
use linchpin.Instr.Control.{
  ignoring, call_near, call_near_popped, call_far, call_far_popped, return_popped, pop_results,
  return_many, halt, next_page, longjmpr, longjmp, setjmp, discard, discard_results, discard_many,
  pinned_or_halted, pinm, unpinm,
}

ignoring-IsBounded :
    (o : Option (Bool × ExecState)) → Each (λ r. IsBounded r.1) o → Each IsBounded (ignoring o)
ignoring-IsBounded none b = none-Each
ignoring-IsBounded (some (done, s)) b = some-Each b.holds

pop_results-IsBounded :
    (s : ExecState) (left : ℕ) (results : List ℕ)
    → IsBounded s
    → IsBounded (pop_results s left results).1
unfolding pop_results
pop_results-IsBounded s zero results b = b
pop_results-IsBounded s (suc left) results b =
    pop_results-IsBounded (pop s).1 left _ (pop-IsBounded s b)

discard-IsBounded : (s : ExecState) (left : ℕ) → IsBounded s → IsBounded (discard s left)
unfolding discard
discard-IsBounded s zero b = b
discard-IsBounded s (suc left) b = discard-IsBounded (pop s).1 left (pop-IsBounded s b)

pub discard_results-IsBounded : (s : ExecState) → IsBounded s → IsBounded (discard_results s)
unfolding discard_results
discard_results-IsBounded s b = discard-IsBounded s s.last_return_word_count b

pinned_or_halted-IsBounded :
    (s : ExecState) (r : CodeCache × Bool) → IsBounded s → IsBounded (pinned_or_halted s r)
pinned_or_halted-IsBounded s (cache, true) b = b
pinned_or_halted-IsBounded s (cache, false) b = b

module _ (env : Env) where
  pub return_popped-IsBounded : (s : ExecState) → IsBounded s → IsBounded (return_popped env s)
  unfolding return_popped
  return_popped-IsBounded s b = do_return-IsBounded env _ _ (pop-IsBounded s b)

  pub return_many-IsBounded : (s : ExecState) → IsBounded s → Each IsBounded (return_many env s)
  unfolding return_many
  return_many-IsBounded s b =
      if-cases (Each IsBounded) (ltb max_locals (fetch_byte env s).0) (λ beyond. none-Each)
        (λ inside. some-Each (
          do_return-IsBounded env _ _ (
            pop_results-IsBounded (fetch_byte env s).1 (fetch_byte env s).0 []
              (fetch_byte-IsBounded env s b))))

  pub halt-IsBounded : (s : ExecState) → IsBounded s → IsBounded (halt env s)
  unfolding halt
  halt-IsBounded s b = fetch_le16-IsBounded env s b

  pub next_page-IsBounded :
      (start : ℕ) (s : ExecState) → IsBounded s → IsBounded (next_page env start s)
  unfolding next_page
  next_page-IsBounded start s b = b

  pub longjmpr-IsBounded : (s : ExecState) → IsBounded s → Each IsBounded (longjmpr env s)
  unfolding longjmpr
  longjmpr-IsBounded s b = ignoring-IsBounded _ (
      restore_jump_snapshot-KeepsBounds env _ _ true _
        (pop-IsBounded (pop s).1 (pop-IsBounded s b)))

  pub longjmp-IsBounded : (s : ExecState) → IsBounded s → Each IsBounded (longjmp env s)
  unfolding longjmp
  longjmp-IsBounded s b =
      ignoring-IsBounded _ (restore_jump_snapshot-KeepsBounds env _ _ false 0 (pop-IsBounded s b))

  pub setjmp-IsBounded : (s : ExecState) → IsBounded s → Each IsBounded (setjmp env s)
  unfolding setjmp
  setjmp-IsBounded s b = ignoring-IsBounded _ (
      save_jump_snapshot-KeepsBounds env _ _ _
        (fetch_le16-IsBounded env (fetch_le16 env s).1 (fetch_le16-IsBounded env s b)))

  pub discard_many-IsBounded : (s : ExecState) → IsBounded s → IsBounded (discard_many env s)
  unfolding discard_many
  discard_many-IsBounded s b =
      discard-IsBounded (fetch_byte env s).1 (fetch_byte env s).0 (fetch_byte-IsBounded env s b)

  pub pinm-IsBounded : (s : ExecState) → IsBounded s → IsBounded (pinm env s)
  unfolding pinm
  pinm-IsBounded s b = pinned_or_halted-IsBounded s _ b

  pub unpinm-IsBounded : (s : ExecState) → IsBounded s → IsBounded (unpinm env s)
  unfolding unpinm
  unpinm-IsBounded s b = b

  module _ (image : FitsImage env) where
    pub call_near-IsBounded :
        (fuel argc : ℕ) (s : ExecState) → IsBounded s → Each IsBounded (call_near fuel env argc s)
    unfolding call_near
    call_near-IsBounded fuel argc s b =
        ignoring-IsBounded _
          (enter_near_call-IsBounded env image fuel _ _ argc _ (fetch_le16-IsBounded env s b))

    pub call_near_popped-IsBounded :
        (fuel : ℕ) (s : ExecState) → IsBounded s → Each IsBounded (call_near_popped fuel env s)
    unfolding call_near_popped
    call_near_popped-IsBounded fuel s b = ignoring-IsBounded _ (
        enter_near_call-IsBounded env image fuel _ _ _ _
          (pop-IsBounded (fetch_byte env s).1 (fetch_byte-IsBounded env s b)))

    pub call_far-IsBounded :
        (argc : ℕ) (s : ExecState) → IsBounded s → IsBounded (call_far env argc s)
    unfolding call_far
    call_far-IsBounded argc s b =
        enter_far_call-IsBounded env image _ _ argc _ (fetch_le16-IsBounded env s b)

    pub call_far_popped-IsBounded :
        (s : ExecState) → IsBounded s → IsBounded (call_far_popped env s)
    unfolding call_far_popped
    call_far_popped-IsBounded s b =
        enter_far_call-IsBounded env image _ _ _ _
          (pop-IsBounded (fetch_byte env s).1 (fetch_byte-IsBounded env s b))
