-- ===== src/Exec/Bounded/Frames.antt =====
-- The bounds of the machine's arrays, kept by the calls, returns and snapshots of
-- src/LinchpinST/src/lpst_run_runtime.c.
use linchpin.Base.{
  ℕ, zero, suc, ◌-◌, ◌≤◌, ◌<◌, ◌≡◌, refl, ◌∙◌, arith, Bool, ◌||◌, Option, none, some, leb, ◌==◌,
  if-cases, Array, update, List, [], ◌∷◌, get_elem?,
}
use linchpin.Image.{Procedure, ProcHeader}
use linchpin.Exec.{Continuation, Snapshot, ExecState, Env, push, pop}
use linchpin.Exec.Bounded.{
  FitsFrame, FitsSnapshot, Within, IsBounded, push-IsBounded, pop-IsBounded,
}
use linchpin.Exec.Calls.{
  find_procedure_by_offset, no_snapshot, release_jump_snapshots_for_frame, refreshed,
  refresh_current_frame_jump_snapshots, pop_arguments, continuation_of, entered, saving, unsaved,
  enter_procedure,
}
use linchpin.Exec.Entry.{push_all, returned, do_return}

-- The procedures of the image have locals for the array.
abbrev pub FewLocals : List Procedure → Type 0
FewLocals [] = Unit
FewLocals (p ∷ ps) = (p.local_count ≤ 128) × FewLocals ps

abbrev pub FitsImage : Env → Type 0
FitsImage env = (i : ℕ) → FewLocals (env.image.modules i).procedures

abbrev pub FewFound : Option Procedure → Type 0
FewFound none = Unit
FewFound (some p) = p.local_count ≤ 128

pub find-FewFound :
    (ps : List Procedure) (offset : ℕ)
    → FewLocals ps
    → FewFound (find_procedure_by_offset ps offset)
unfolding find_procedure_by_offset
find-FewFound [] offset few = tt
find-FewFound (p ∷ ps) offset (few, all) =
    if-cases FewFound ((p.code_offset == offset) || (p.start_offset == offset)) (λ here. few)
      (λ there. find-FewFound ps offset all)

pub get-FewFound : (ps : List Procedure) (i : ℕ) → FewLocals ps → FewFound (get_elem? ps i)
get-FewFound [] i few = tt
get-FewFound (p ∷ ps) zero (few, all) = few
get-FewFound (p ∷ ps) (suc i) (few, all) = get-FewFound ps i all

pub no_snapshot-FitsSnapshot : FitsSnapshot no_snapshot
no_snapshot-FitsSnapshot = record {
  locals = omega arith;
  stack = omega arith;
  calls = omega arith;
  callers = tt;
}

refreshed-FitsSnapshot :
    (s : ExecState) (t : Snapshot) → FitsSnapshot t → FitsSnapshot (refreshed s t)
refreshed-FitsSnapshot s t fits = record {
  locals = fits.locals;
  stack = fits.stack;
  calls = fits.calls;
  callers = fits.callers;
}

refresh-IsBounded :
    (s : ExecState) → IsBounded s → IsBounded (refresh_current_frame_jump_snapshots s)
unfolding refresh_current_frame_jump_snapshots
refresh-IsBounded s b = record {
  stack = b.stack;
  calls = b.calls;
  locals = b.locals;
  callers = b.callers;
  snapshots = λ i.
      if-cases FitsSnapshot _ (λ own. refreshed-FitsSnapshot s (s.jump_snapshots i) (b.snapshots i))
        (λ other. b.snapshots i);
}

refresh-call_stack_top :
    (s : ExecState) → (refresh_current_frame_jump_snapshots s).call_stack_top ≡ s.call_stack_top
unfolding refresh_current_frame_jump_snapshots
refresh-call_stack_top s = refl

pub pop_arguments-IsBounded :
    (s : ExecState) (args : Array ℕ) (argc : ℕ)
    → IsBounded s
    → IsBounded (pop_arguments s args argc).1
unfolding pop_arguments
pop_arguments-IsBounded s args zero b = b
pop_arguments-IsBounded s args (suc argc) b =
    pop_arguments-IsBounded (pop s).1 _ argc (pop-IsBounded s b)

update-FitsFrame :
    (callers : Array Continuation) (top : ℕ) (c : Continuation)
    → FitsFrame c
    → ((i : ℕ) → i < top → FitsFrame (callers i))
    → (i : ℕ) → i < suc top
    → FitsFrame (update callers top c i)
update-FitsFrame callers top c fits below i small =
    if-cases FitsFrame (i == top) (λ here. fits) (λ there. below i (ground arith))

beyond-FitsFrame :
    (callers : Array Continuation) (top : ℕ) (c : Continuation)
    → ((i : ℕ) → i < top → FitsFrame (callers i))
    → (i : ℕ) → i < top
    → FitsFrame (update callers top c i)
beyond-FitsFrame callers top c below i small =
    if-cases FitsFrame (i == top) (λ here. absurd (ground arith)) (λ there. below i small)

-- The locals are saved, or there is no memory for them.
saving-IsBounded :
    (env : Env) (s : ExecState)
    → IsBounded s
    → IsBounded (saving env s).1 × ((saving env s).1.call_stack_top ≡ s.call_stack_top)
saving-IsBounded env s b =
    if-cases (λ (r : Bool × ExecState). IsBounded r.1 × (r.1.call_stack_top ≡ s.call_stack_top))
      (s.current_frame.local_count == 0) (λ no_locals. (b, refl)) (λ some_locals. (b, refl))

continuation-FitsFrame :
    (s : ExecState) (return_pc : ℕ) → IsBounded s → FitsFrame (continuation_of s return_pc)
unfolding continuation_of
continuation-FitsFrame s return_pc b = record { locals = b.locals; depth = b.stack }

entered-IsBounded :
    (s : ExecState) (module_id : ℕ) (header : ProcHeader) (start code bound index pc argc : ℕ)
    (args : Array ℕ)
    → IsBounded s
    → s.call_stack_top < 256
    → header.local_count ≤ 128
    → IsBounded (entered s module_id header start code bound index pc argc args)
unfolding entered
entered-IsBounded s module_id header start code bound index pc argc args b room few = record {
  stack = b.stack;
  calls = omega arith;
  locals = few;
  callers = λ i small.
      update-FitsFrame s.call_stack s.call_stack_top _ (continuation-FitsFrame s pc b) b.callers i
        (omega arith);
  snapshots = b.snapshots;
}

pub enter_procedure-IsBounded :
    (env : Env) (s : ExecState) (module_id : ℕ) (header : ProcHeader)
    (start code bound index pc argc : ℕ) (args : Array ℕ)
    → IsBounded s
    → header.local_count ≤ 128
    → IsBounded (enter_procedure env s module_id header start code bound index pc argc args).1
unfolding enter_procedure
enter_procedure-IsBounded env s module_id header start code bound index pc argc args b few =
    let (b1, same) =
      saving-IsBounded env (refresh_current_frame_jump_snapshots s) (refresh-IsBounded s b) in
    let top = same ∙ refresh-call_stack_top s in
    let s1 = (saving env (refresh_current_frame_jump_snapshots s)).1 in
    if-cases (λ (r : Bool × ExecState). IsBounded r.1) (leb 256 s.call_stack_top) (λ full. b)
      (λ room.
        if-cases (λ (r : Bool × ExecState). IsBounded r.1)
          (saving env (refresh_current_frame_jump_snapshots s)).0
          (λ saved.
            entered-IsBounded s1 module_id header start code bound index pc argc args b1
              (let free : s.call_stack_top < 256 = ground arith in omega arith) few)
          (λ unsaved'. record {
            stack = b1.stack;
            calls = b1.calls;
            locals = b1.locals;
            callers = beyond-FitsFrame s1.call_stack s1.call_stack_top (unsaved s1 pc) b1.callers;
            snapshots = b1.snapshots;
          }))

push_all-IsBounded :
    (s : ExecState) (results : List ℕ) → IsBounded s → IsBounded (push_all s results)
unfolding push_all
push_all-IsBounded s [] b = b
push_all-IsBounded s (v ∷ results) b = push_all-IsBounded (push s v) results (push-IsBounded s v b)

release-FitsSnapshot :
    (snapshots : Array Snapshot) (m p o l c i : ℕ)
    → FitsSnapshot (snapshots i)
    → FitsSnapshot (release_jump_snapshots_for_frame snapshots m p o l c i)
unfolding release_jump_snapshots_for_frame
release-FitsSnapshot snapshots m p o l c i fits =
    if-cases FitsSnapshot _ (λ own. no_snapshot-FitsSnapshot) (λ other. fits)

returned-IsBounded :
    (env : Env) (s : ExecState) (c : Continuation)
    → IsBounded s
    → FitsFrame c
    → 0 < s.call_stack_top
    → IsBounded (returned env s c)
unfolding returned
returned-IsBounded env s c b fits inside = record {
  stack = fits.depth;
  calls = let fewer = b.calls in omega arith;
  locals = fits.locals;
  callers = λ i small.
      if-cases FitsFrame (i == s.call_stack_top - 1)
        (λ here. record { locals = fits.locals; depth = fits.depth })
        (λ there. b.callers i (omega arith));
  snapshots = b.snapshots;
}

pub do_return-IsBounded :
    (env : Env) (s : ExecState) (results : List ℕ)
    → IsBounded s
    → IsBounded (do_return env s results)
unfolding do_return
do_return-IsBounded env s results b =
    let f = s.current_frame in
    let released : (i : ℕ)
        → FitsSnapshot (
            release_jump_snapshots_for_frame s.jump_snapshots s.current_module_id f.procedure_index
              f.procedure_start_offset f.local_count s.call_stack_top i) =
      λ i.
        release-FitsSnapshot s.jump_snapshots s.current_module_id f.procedure_index
          f.procedure_start_offset f.local_count s.call_stack_top i (b.snapshots i) in
    let b1 : Within s.eval_stack_top s.call_stack_top f.local_count s.call_stack _ = record {
      stack = b.stack;
      calls = b.calls;
      locals = b.locals;
      callers = b.callers;
      snapshots = released;
    } in
    if-cases IsBounded (s.call_stack_top == 0) (λ outermost. b1)
      (λ called. push_all-IsBounded _ results (
        returned-IsBounded env _ (s.call_stack (s.call_stack_top - 1)) b1
          (b.callers (s.call_stack_top - 1) (ground arith)) (ground arith)))
