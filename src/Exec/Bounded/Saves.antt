-- ===== src/Exec/Bounded/Saves.antt =====
-- The bounds of the machine's arrays, kept by `save_jump_snapshot` of
-- src/LinchpinST/src/lpst_run_runtime.c.
pub mod Steps
use linchpin.Base.{
  ℕ, zero, suc, ◌+◌, ◌<◌, ◌≡◌, ◌≢◌, arith, Bool, true, Option, none, some, ◌==◌, if-cases, Array,
  update,
}
use linchpin.Base.Options.{Each, none-Each, some-Each, >>=-Each, mono-Each}
use linchpin.Exec.{Continuation, Snapshot, ExecState, Env}
use linchpin.Exec.Bounded.{FitsFrame, FitsCallers, FitsSnapshot, IsBounded, push-IsBounded}
use linchpin.Exec.Jumps.{
  find_jump_snapshot, find_free, free_jump_snapshot_storage, claim, reuse, alloc_jump_snapshot,
  clone_locals, clone_call_continuation, clone_all, no_continuation, with_snapshot, keep_frame,
  keep_locals, keep_stack, kept_callers, keep_callers, save_in, save_jump_snapshot,
}

-- A step that says whether it succeeded, and leaves a bounded state either way.
abbrev pub KeepsBounds : Option (Bool × ExecState) → Type 0
KeepsBounds = Each (λ r. IsBounded r.1)

pub with_snapshot-IsBounded :
    (s : ExecState) (slot : ℕ) (t : Snapshot)
    → IsBounded s
    → FitsSnapshot t
    → IsBounded (with_snapshot s slot t)
with_snapshot-IsBounded s slot t b fits = record {
  stack = b.stack;
  calls = b.calls;
  locals = b.locals;
  callers = b.callers;
  snapshots = λ i. if-cases FitsSnapshot (i == slot) (λ here. fits) (λ there. b.snapshots i);
}

-- The slots after one of them was given a token.
abbrev pub AllFit : ℕ × Array Snapshot → Type 0
AllFit r = (i : ℕ) → FitsSnapshot (r.1 i)

update-AllFit :
    (snapshots : Array Snapshot) (slot : ℕ) (t : Snapshot)
    → ((i : ℕ) → FitsSnapshot (snapshots i))
    → FitsSnapshot t
    → AllFit (slot, update snapshots slot t)
update-AllFit snapshots slot t all fits i =
    if-cases FitsSnapshot (i == slot) (λ here. fits) (λ there. all i)

claim-AllFit :
    (snapshots : Array Snapshot) (token : ℕ) (o : Option ℕ)
    → ((i : ℕ) → FitsSnapshot (snapshots i))
    → Each AllFit (claim snapshots token o)
unfolding claim
claim-AllFit snapshots token none all = none-Each
claim-AllFit snapshots token (some i) all = some-Each (
    update-AllFit snapshots i _ all
      (record { locals = omega arith; stack = omega arith; calls = omega arith; callers = tt }))

pub reuse-AllFit :
    (snapshots : Array Snapshot) (token : ℕ) (o : Option ℕ)
    → ((i : ℕ) → FitsSnapshot (snapshots i))
    → Each AllFit (reuse snapshots token o)
unfolding reuse free_jump_snapshot_storage
reuse-AllFit snapshots token none all = claim-AllFit snapshots token (find_free snapshots 64 0) all
reuse-AllFit snapshots token (some i) all = some-Each (
    update-AllFit snapshots i _ all
      (record { locals = omega arith; stack = omega arith; calls = omega arith; callers = tt }))

-- Copies of callers.
clone_locals-FitsFrame :
    (c : Continuation) (mallocs : ℕ) (o : Option (Array ℕ))
    → FitsFrame c
    → Each (λ r. FitsFrame r.1) (clone_locals c mallocs o)
clone_locals-FitsFrame c mallocs none fits = none-Each
clone_locals-FitsFrame c mallocs (some locals) fits =
    some-Each (record { locals = fits.locals; depth = fits.depth })

clone_call_continuation-FitsFrame :
    (env : Env) (mallocs : ℕ) (c : Continuation)
    → FitsFrame c
    → Each (λ r. FitsFrame r.1) (clone_call_continuation env mallocs c)
unfolding clone_call_continuation
clone_call_continuation-FitsFrame env mallocs c fits =
    if-cases (Each (λ r. FitsFrame r.1)) (c.saved_local_count == 0) (λ no_locals. some-Each fits)
      (λ some_locals.
        if-cases (Each (λ r. FitsFrame r.1)) (env.malloc mallocs)
          (λ memory. clone_locals-FitsFrame c mallocs c.saved_locals fits)
          (λ no_memory. some-Each (record { locals = fits.locals; depth = fits.depth })))

-- The places below a bound of an array of callers fit.
abbrev pub FitsBelow : Array Continuation → ℕ → Type 0
FitsBelow callers bound = (j : ℕ) → j < bound → FitsFrame (callers j)

update-FitsBelow :
    (callers : Array Continuation) (i bound : ℕ) (c : Continuation)
    → FitsFrame c
    → ((j : ℕ) → j < bound → j ≢ i → FitsFrame (callers j))
    → FitsBelow (update callers i c) bound
update-FitsBelow callers i bound c fits below j small =
    if-cases FitsFrame (j == i) (λ here. fits) (λ there. below j small (ground arith))

-- Copying from place `i` on: below the last copy the callers fit if all copies were made, and they
-- fit below a bound that they fitted below before.
pub clone_all-FitsBelow :
    (env : Env) (source : Array Continuation) (bound left i mallocs : ℕ)
    (target : Array Continuation)
    → FitsBelow source (i + left)
    → FitsBelow target i
    → FitsBelow target bound
    → Each
        (λ r. (r.0 ≡ true → FitsBelow r.1 (i + left)) × FitsBelow r.1 bound)
        (clone_all env mallocs source target left i)
unfolding clone_all
clone_all-FitsBelow env source bound zero i mallocs target fits below kept =
    some-Each (λ done j small. below j (omega arith), kept)
clone_all-FitsBelow env source bound (suc left) i mallocs target fits below kept =
    >>=-Each _ (clone_call_continuation-FitsFrame env mallocs (source i) (fits i (omega arith)))
      (λ r copy_fits.
        let kept' = update-FitsBelow target i bound r.1 copy_fits (λ j small other. kept j small) in
        let below' =
          update-FitsBelow target i (i + 1) r.1 copy_fits
            (λ j small other. below j (omega arith)) in
        let rest =
          clone_all-FitsBelow env source bound left (i + 1) r.2 (update target i r.1)
            (λ j small. fits j (omega arith)) below' kept' in
        if-cases (Each _) r.0
          (λ done.
            mono-Each (λ q (all, same). (λ finished j small. all finished j (omega arith), same))
              rest)
          (λ failed. some-Each (λ done j small. absurd (cc), kept')))
