-- ===== src/Exec/Bounded/Restores.antt =====
-- The bounds of the machine's arrays, kept by `restore_jump_snapshot` of
-- src/LinchpinST/src/lpst_run_runtime.c.
use linchpin.Base.{
  ℕ, ◌<◌, ◌≡◌, arith, Bool, true, Option, none, some, ◌==◌, if◌then◌else◌, if-cases, Array,
}
use linchpin.Base.Options.{Each, none-Each, some-Each, >>=-Each, then-Each, mono-Each}
use linchpin.Cache.{load_code_page}
use linchpin.Exec.{Continuation, Snapshot, ExecState, Env, push, current_module}
use linchpin.Exec.Bounded.{FitsFrame, FitsCallers, IsBounded, push-IsBounded}
use linchpin.Exec.Bounded.Frames.{no_snapshot-FitsSnapshot}
use linchpin.Exec.Bounded.Saves.{
  KeepsBounds, with_snapshot-IsBounded, FitsBelow, clone_all-FitsBelow,
}
use linchpin.Exec.Calls.{no_snapshot}
use linchpin.Exec.Jumps.{find_jump_snapshot}
use linchpin.Exec.Jumps.Restore.{
  resumed, copy_from, dropped, clone_back, landed, restore_from, restore_at, restore_jump_snapshot,
}

abbrev Restored : Snapshot → Bool × Array Continuation × ℕ → Type 0
Restored t r = r.0 ≡ true → FitsBelow r.1 t.call_stack_top

nothing_below : (callers : Array Continuation) (i : ℕ) → i < 0 → FitsFrame (callers i)
nothing_below callers i small = absurd (omega arith)

module _ (env : Env) where
  clone_back-Restored :
      (s : ExecState) (t : Snapshot) (o : Option (Array Continuation))
      → FitsCallers o t.call_stack_top
      → Each (Restored t) (clone_back env s (record t { call_stack = o }))
  unfolding clone_back
  clone_back-Restored s t none fit =
      if-cases (Each (Restored t)) (t.call_stack_top == 0)
        (λ outermost. some-Each (λ done j small. absurd (ground arith))) (λ called. none-Each)
  clone_back-Restored s t (some callers) fit =
      mono-Each (λ q (all, kept) done j small. all done j (omega arith))
        (clone_all-FitsBelow env callers 0 t.call_stack_top 0 s.mallocs (dropped s)
          (λ j small. fit j (omega arith)) (λ j small. absurd (omega arith))
          (λ j small. absurd (omega arith)))

  landed-IsBounded :
      (s : ExecState) (slot : ℕ) (landing : Bool) (value : ℕ)
      → IsBounded s
      → IsBounded (landed env s slot landing value)
  unfolding landed
  landed-IsBounded s slot landing value b =
      let s1 = record s {
        cache = (load_code_page env.file s.cache (current_module env s) s.program_counter).0;
      } in
      with_snapshot-IsBounded (if landing then push s1 value else s1) slot no_snapshot
        (if-cases IsBounded landing (λ value'. push-IsBounded s1 value b) (λ plain. b))
        no_snapshot-FitsSnapshot

  restore_from-KeepsBounds :
      (s : ExecState) (slot : ℕ) (landing : Bool) (value : ℕ)
      → IsBounded s
      → KeepsBounds (restore_from env s slot landing value)
  unfolding restore_from resumed
  restore_from-KeepsBounds s slot landing value b =
      let t = s.jump_snapshots slot in
      let fits = b.snapshots slot in
      then-Each (copy_from t.eval_stack_top t.eval_stack s.eval_stack) _ (λ stack.
        >>=-Each _ (clone_back-Restored s t t.call_stack fits.callers)
          (λ (done, callers, mallocs) restored.
            let back = record (resumed s t landing) {
              eval_stack = stack;
              call_stack = callers;
              mallocs = mallocs;
              call_stack_top = t.call_stack_top;
            } in
            some-Each (
              if-cases (λ (q : Bool × ExecState). IsBounded q.1) done
                (λ all. landed-IsBounded back slot landing value (record {
                  stack = fits.stack;
                  calls = fits.calls;
                  locals = fits.locals;
                  callers = restored all;
                  snapshots = b.snapshots;
                }))
                (λ failed. record {
                  stack = fits.stack;
                  calls = omega arith;
                  locals = fits.locals;
                  callers = nothing_below callers;
                  snapshots = b.snapshots;
                }))))

  restore_at-KeepsBounds :
      (s : ExecState) (landing : Bool) (value : ℕ) (slot : Option ℕ)
      → IsBounded s
      → KeepsBounds (restore_at env s landing value slot)
  restore_at-KeepsBounds s landing value none b = some-Each b
  restore_at-KeepsBounds s landing value (some slot) b =
      restore_from-KeepsBounds s slot landing value b

  pub restore_jump_snapshot-KeepsBounds :
      (s : ExecState) (token : ℕ) (landing : Bool) (value : ℕ)
      → IsBounded s
      → KeepsBounds (restore_jump_snapshot env s token landing value)
  unfolding restore_jump_snapshot
  restore_jump_snapshot-KeepsBounds s token landing value b =
      restore_at-KeepsBounds s landing value (find_jump_snapshot s.jump_snapshots token) b
