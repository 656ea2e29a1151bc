-- ===== src/Exec/Bounded/Saves/Steps.antt =====
-- The bounds of the machine's arrays, kept by the steps of `save_jump_snapshot` of
-- src/LinchpinST/src/lpst_run_runtime.c.
use linchpin.Base.{ℕ, ◌+◌, ◌≡◌, arith, Bool, true, Option, none, some, ◌==◌, if-cases, Array}
use linchpin.Base.Options.{Each, some-Each, >>=-Each}
use linchpin.Exec.{Continuation, Snapshot, ExecState, Env}
use linchpin.Exec.Bounded.{FitsFrame, FitsCallers, IsBounded, push-IsBounded}
use linchpin.Exec.Jumps.{
  find_jump_snapshot, alloc_jump_snapshot, no_continuation, keep_frame, keep_locals, keep_stack,
  kept_callers, keep_callers, save_in, save_jump_snapshot,
}
use linchpin.Exec.Bounded.Saves.{
  AllFit, FitsBelow, KeepsBounds, clone_all-FitsBelow, reuse-AllFit, with_snapshot-IsBounded,
}

no_locals : FitsFrame no_continuation
no_locals = record { locals = omega arith; depth = omega arith }

none_below :
    (s : ExecState) (callers : Option (Array Continuation))
    → (s.call_stack_top == 0) ≡ true
    → FitsCallers callers s.call_stack_top
none_below s none e = tt
none_below s (some callers) e = λ i small. absurd (ground arith)

-- The steps of `save_jump_snapshot`.
module _ (env : Env) where
  keep_frame-IsBounded :
      (s : ExecState) (slot protected landing : ℕ)
      → IsBounded s
      → IsBounded (keep_frame s slot protected landing)
  unfolding keep_frame
  keep_frame-IsBounded s slot protected landing b = with_snapshot-IsBounded s slot _ b (record {
    locals = b.locals;
    stack = (b.snapshots slot).stack;
    calls = (b.snapshots slot).calls;
    callers = (b.snapshots slot).callers;
  })

  keep_locals-IsBounded :
      (s : ExecState) (slot : ℕ) → IsBounded s → IsBounded (keep_locals env s slot).1
  unfolding keep_locals
  keep_locals-IsBounded s slot b =
      let fits = b.snapshots slot in
      let same = λ (locals : Option (Array ℕ)).
        with_snapshot-IsBounded s slot (record (s.jump_snapshots slot) { frame_locals = locals }) b
          (record {
            locals = fits.locals;
            stack = fits.stack;
            calls = fits.calls;
            callers = fits.callers;
          }) in
      if-cases (λ (r : Bool × ExecState). IsBounded r.1) (s.current_frame.local_count == 0)
        (λ no_locals. b)
        (λ some_locals.
          if-cases (λ (r : Bool × ExecState). IsBounded r.1) (env.malloc s.mallocs)
            (λ memory. same _) (λ no_memory. same none))

  keep_stack-IsBounded :
      (s : ExecState) (slot : ℕ) → IsBounded s → IsBounded (keep_stack env s slot).1
  unfolding keep_stack
  keep_stack-IsBounded s slot b =
      let fits = b.snapshots slot in
      let same = λ (stack : Option (Array ℕ)).
        with_snapshot-IsBounded s slot
          (record (s.jump_snapshots slot) { eval_stack_top = s.eval_stack_top; eval_stack = stack })
          b
          (record {
            locals = fits.locals;
            stack = b.stack;
            calls = fits.calls;
            callers = fits.callers;
          }) in
      if-cases (λ (r : Bool × ExecState). IsBounded r.1) (s.eval_stack_top == 0)
        (λ empty. same (s.jump_snapshots slot).eval_stack)
        (λ values.
          if-cases (λ (r : Bool × ExecState). IsBounded r.1) (env.malloc s.mallocs)
            (λ memory. same _) (λ no_memory. same none))

  kept_callers-IsBounded :
      (s : ExecState) (slot : ℕ) (done : Bool) (callers : Array Continuation) (mallocs : ℕ)
      → IsBounded s
      → FitsBelow callers s.call_stack_top
      → IsBounded
          (kept_callers s slot
            (record (s.jump_snapshots slot) { call_stack_top = s.call_stack_top })
            done
            callers
            mallocs).1
  kept_callers-IsBounded s slot done callers mallocs b fit =
      let kept =
        with_snapshot-IsBounded s slot
          (record (s.jump_snapshots slot) {
            call_stack_top = s.call_stack_top;
            call_stack = some callers;
          })
          b
          (record {
            locals = (b.snapshots slot).locals;
            stack = (b.snapshots slot).stack;
            calls = b.calls;
            callers = fit;
          }) in
      if-cases (λ (r : Bool × ExecState). IsBounded r.1) done (λ all. kept) (λ failed. kept)

  keep_callers-IsBounded :
      (s : ExecState) (slot : ℕ) → IsBounded s → KeepsBounds (keep_callers env s slot)
  unfolding keep_callers
  keep_callers-IsBounded s slot b =
      let fits = b.snapshots slot in
      if-cases KeepsBounds (s.call_stack_top == 0)
        (λ outermost. some-Each (
          with_snapshot-IsBounded s slot _ b (record {
            locals = fits.locals;
            stack = fits.stack;
            calls = b.calls;
            callers = none_below s (s.jump_snapshots slot).call_stack outermost;
          })))
        (λ called.
          if-cases KeepsBounds (env.malloc s.mallocs)
            (λ memory.
              >>=-Each _
                (clone_all-FitsBelow env s.call_stack s.call_stack_top s.call_stack_top 0
                  (s.mallocs + 1) (λ i. no_continuation) (λ j small. b.callers j (omega arith))
                  (λ j small. absurd (omega arith)) (λ j small. no_locals))
                (λ r (all, fit). some-Each (kept_callers-IsBounded s slot r.0 r.1 r.2 b fit)))
            (λ no_memory. some-Each (
              with_snapshot-IsBounded s slot _ b (record {
                locals = fits.locals;
                stack = fits.stack;
                calls = b.calls;
                callers = tt;
              }))))

  save_in-KeepsBounds :
      (s : ExecState) (token protected landing : ℕ) (o : Option (ℕ × Array Snapshot))
      → IsBounded s
      → Each AllFit o
      → KeepsBounds (save_in env s token protected landing o)
  unfolding save_in
  save_in-KeepsBounds s token protected landing none b all = some-Each b
  save_in-KeepsBounds s token protected landing (some (slot, snapshots)) b all =
      let b1 =
        keep_frame-IsBounded (record s { jump_snapshots = snapshots }) slot protected landing
          (record {
            stack = b.stack;
            calls = b.calls;
            locals = b.locals;
            callers = b.callers;
            snapshots = all.holds;
          }) in
      let s1 = keep_frame (record s { jump_snapshots = snapshots }) slot protected landing in
      let b2 = keep_locals-IsBounded s1 slot b1 in
      let s2 = (keep_locals env s1 slot).1 in
      let b3 = keep_stack-IsBounded s2 slot b2 in
      if-cases KeepsBounds (keep_locals env s1 slot).0
        (λ locals.
          if-cases KeepsBounds (keep_stack env s2 slot).0
            (λ stack.
              >>=-Each _ (keep_callers-IsBounded (keep_stack env s2 slot).1 slot b3) (λ r b4.
                some-Each (
                  if-cases (λ (q : Bool × ExecState). IsBounded q.1) r.0
                    (λ done. push-IsBounded r.1 token b4) (λ failed. b4))))
            (λ failed. some-Each b3))
        (λ failed. some-Each b2)

  pub save_jump_snapshot-KeepsBounds :
      (s : ExecState) (protected landing : ℕ)
      → IsBounded s
      → KeepsBounds (save_jump_snapshot env s protected landing)
  unfolding save_jump_snapshot alloc_jump_snapshot
  save_jump_snapshot-KeepsBounds s protected landing b =
      save_in-KeepsBounds _ _ protected landing _ b
        (reuse-AllFit s.jump_snapshots _ (find_jump_snapshot s.jump_snapshots _) b.snapshots)
