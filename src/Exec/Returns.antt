-- ===== src/Exec/Returns.antt =====
-- A call and the return from it undo each other: `enter_procedure` and `do_return` of
-- src/LinchpinST/src/lpst_run_runtime.c.
use linchpin.Base.{
  ℕ, zero, suc, ◌+◌, ◌-◌, ◌<◌, ◌≤◌, ◌≡◌, ◌≢◌, ◌∙◌, inl, inr, refl, ap, sym, arith, Bool, true,
  false, ◌==◌, leb, Bool-cases, if◌then◌else◌, Array, update, some, List, [], ◌∷◌, length,
  get_elem?,
}
use linchpin.Image.{ProcHeader}
use linchpin.Exec.{ExecState, Env, Continuation, Snapshot, halt_fatal}
use linchpin.Exec.Stack.{pushed, push-pushed}
use linchpin.Exec.Calls.{
  continuation_of, entered, enter_procedure, saving, refresh_current_frame_jump_snapshots, unsaved,
}
use linchpin.Exec.Entry.{returned, do_return, push_all, restored_locals}

-- The stack with the results put on from a depth on.
abbrev pub stacked : Array ℕ → ℕ → List ℕ → Array ℕ
stacked a n [] = a
stacked a n (v ∷ results) = stacked (update a n v) (n + 1) results

push_all-fits :
    (s : ExecState) (results : List ℕ)
    → s.eval_stack_top + length results ≤ 1024
    → push_all s results ≡ record s {
      eval_stack = stacked s.eval_stack s.eval_stack_top results;
      eval_stack_top = s.eval_stack_top + length results;
    }
unfolding push_all
push_all-fits s [] fits = ap (λ n. record s { eval_stack_top = n }) (ground arith)
push_all-fits s (v ∷ results) fits = rw (push-pushed s v (ground arith)) (
    push_all-fits (pushed s v) results (ground arith)
    ∙ ap
        (λ n. record s {
          eval_stack =
              stacked (update s.eval_stack s.eval_stack_top v) (s.eval_stack_top + 1) results;
          eval_stack_top = n;
        })
        (ground arith))

stacked-below :
    (a : Array ℕ) (n : ℕ) (results : List ℕ) (i : ℕ) → i < n → stacked a n results i ≡ a i
stacked-below a n [] i h = refl
stacked-below a n (v ∷ results) i h = ground (arith, stacked-below (update a n v) (n + 1) results i)

stacked-at :
    (a : Array ℕ) (n : ℕ) (results : List ℕ) (i v : ℕ)
    → get_elem? results i ≡ some v
    → stacked a n results (n + i) ≡ v
stacked-at a n [] i v h = ground (arith)
stacked-at a n (x ∷ results) zero v h =
    ground (arith, stacked-below (update a n x) (n + 1) results n)
stacked-at a n (x ∷ results) (suc i) v h =
    ground (arith, stacked-at (update a n x) (n + 1) results i v h)

-- Saving the locals changes nothing that a continuation records.
continuation-saving :
    (b m : Bool) (s : ExecState) (return_pc : ℕ)
    → let saved : Bool × ExecState =
        if b then (true, s) else (m, record s { mallocs = s.mallocs + 1 }) in
      (continuation_of saved.1 return_pc ≡ continuation_of s return_pc)
      × (saved.1.call_stack_top ≡ s.call_stack_top)
unfolding continuation_of
continuation-saving true m s return_pc = (refl, refl)
continuation-saving false m s return_pc = (refl, refl)

continuation-refresh :
    (s : ExecState) (return_pc : ℕ)
    → (continuation_of (refresh_current_frame_jump_snapshots s) return_pc
        ≡ continuation_of s return_pc)
      × ((refresh_current_frame_jump_snapshots s).call_stack_top ≡ s.call_stack_top)
unfolding continuation_of refresh_current_frame_jump_snapshots
continuation-refresh s return_pc = (refl, refl)

entered-of :
    (full saved : Bool) (a b c s' : ExecState)
    → ◌≡◌ {A = Bool × ExecState}
        (if full then (false, a) else (if saved then (true, b) else (false, c)))
        (true, s')
    → b ≡ s'
entered-of true saved a b c s' e = ground (arith)
entered-of false true a b c s' e = ap (λ p. p.1) e
entered-of false false a b c s' e = ground (arith)

update-at : (a : Array Continuation) (m n : ℕ) (c : Continuation) → m ≡ n → update a m c n ≡ c
update-at a m n c h = ground (arith)

-- What a call that succeeds leaves on the call stack.
enter_procedure-continuation :
    (env : Env) (s s' : ExecState) (module_id : ℕ) (header : ProcHeader)
    (start_offset code_offset upper_bound exported_index return_pc argc : ℕ) (args : Array ℕ)
    → enter_procedure env s module_id header start_offset code_offset upper_bound exported_index
        return_pc argc args
      ≡ (true, s')
    → (s'.call_stack_top ≡ s.call_stack_top + 1)
      × (s'.call_stack s.call_stack_top ≡ continuation_of s return_pc)
unfolding enter_procedure entered
enter_procedure-continuation env s s' m h st co ub ex rp argc args ok =
    let r = refresh_current_frame_jump_snapshots s in
    let (kept, same) =
      continuation-saving (r.current_frame.local_count == 0) (env.malloc r.mallocs) r rp in
    let (kept', same') = continuation-refresh s rp in
    let s1 = (saving env r).1 in
    let is : entered s1 m h st co ub ex rp argc args ≡ s' =
      entered-of (leb 256 s.call_stack_top) (saving env r).0 (halt_fatal s)
        (entered s1 m h st co ub ex rp argc args)
        (record (halt_fatal s1) {
          call_stack = update s1.call_stack s1.call_stack_top (unsaved s1 rp);
        })
        s' ok in
    (
      ap (λ x. x.call_stack_top) (sym is) ∙ ap (λ n. n + 1) (same ∙ same'),
      ap (λ x. x.call_stack s.call_stack_top) (sym is)
          ∙ update-at s1.call_stack s1.call_stack_top s.call_stack_top (continuation_of s1 rp)
              (same ∙ same')
          ∙ kept
          ∙ kept',
    )

-- The frame, the locals and the position of the caller `s` in the state `r` after the return, whose
-- results stand on the caller's stack; `t` is the state of the callee at the return.
pub record IsReturned (s : ExecState) (return_pc : ℕ) (t : ExecState) (results : List ℕ)
    (r : ExecState) : Type 0 where
  pub current_module : r.current_module_id ≡ s.current_module_id
  pub position : r.program_counter ≡ return_pc
  pub bound : r.frame_upper_bound ≡ s.frame_upper_bound
  pub callers : r.call_stack_top ≡ s.call_stack_top
  pub frame_module : r.current_frame.module_id ≡ s.current_module_id
  pub procedure : r.current_frame.procedure_index ≡ s.current_frame.procedure_index
  pub start : r.current_frame.procedure_start_offset ≡ s.current_frame.procedure_start_offset
  pub local_count : r.current_frame.local_count ≡ s.current_frame.local_count
  pub locals : (i : ℕ) → i < s.current_frame.local_count → r.local_storage i ≡ s.local_storage i
  pub depth : r.eval_stack_top ≡ s.eval_stack_top + length results
  pub values : (i v : ℕ) → get_elem? results i ≡ some v → r.eval_stack (s.eval_stack_top + i) ≡ v
  pub below : (i : ℕ) → i < s.eval_stack_top → r.eval_stack i ≡ t.eval_stack i
  pub running : r.is_halted ≡ t.is_halted

restored-locals :
    (s : ExecState) (return_pc : ℕ) (storage : Array ℕ) (i : ℕ)
    → i < s.current_frame.local_count
    → restored_locals
        (continuation_of s return_pc)
        (continuation_of s return_pc).saved_locals
        storage
        i
      ≡ s.local_storage i
unfolding continuation_of
restored-locals s rp storage i h = elim (Bool-cases (s.current_frame.local_count == 0)) [
  | inl e ↦ ground (arith)
  | inr e ↦ rw e (ground (arith))
]

returned-IsReturned :
    (env : Env) (s t : ExecState) (return_pc n : ℕ) (kept : Array Snapshot) (results : List ℕ)
    → s.eval_stack_top + length results ≤ 1024
    → t.call_stack_top ≡ s.call_stack_top + 1
    → IsReturned s return_pc t results (
        push_all
          (returned env
            (record t { last_return_word_count = n; jump_snapshots = kept })
            (continuation_of s return_pc))
          results)
unfolding returned continuation_of
returned-IsReturned env s t rp n kept results fits top =
    rw
      (push_all-fits
        (returned env (record t { last_return_word_count = n; jump_snapshots = kept })
          (continuation_of s rp))
        results fits)
      record {
        current_module = refl;
        position = refl;
        bound = refl;
        callers = ground (arith);
        frame_module = refl;
        procedure = refl;
        start = refl;
        local_count = refl;
        locals = restored-locals s rp t.local_storage;
        depth = refl;
        values = stacked-at t.eval_stack s.eval_stack_top results;
        below = stacked-below t.eval_stack s.eval_stack_top results;
        running = refl;
      }

not-zero : (n : ℕ) → n ≢ 0 → (n == 0) ≡ false
not-zero n h = ground (arith)

-- After a call that succeeded and whatever the callee then did, provided it left its caller's entry
-- of the call stack as it was and has returned from its own calls, and provided the results fit, the
-- return puts the machine back into the caller at the return offset: the module, the frame's upper
-- bound, the frame's module, procedure, start and number of locals, and all the locals are the
-- caller's. The evaluation stack is cut to the caller's depth and the results are pushed; the entries
-- below that depth are those that the callee has left there. The frame's code offset, which the code
-- looks up again, is not claimed.
pub do_return-enter_procedure :
    (env : Env) (s s' t : ExecState) (module_id : ℕ) (header : ProcHeader)
    (start_offset code_offset upper_bound exported_index return_pc argc : ℕ) (args : Array ℕ)
    (results : List ℕ)
    → enter_procedure env s module_id header start_offset code_offset upper_bound exported_index
        return_pc argc args
      ≡ (true, s')
    → t.call_stack_top ≡ s'.call_stack_top
    → t.call_stack s.call_stack_top ≡ s'.call_stack s.call_stack_top
    → s.eval_stack_top + length results ≤ 1024
    → IsReturned s return_pc t results (do_return env t results)
unfolding do_return
do_return-enter_procedure env s s' t m h st co ub ex rp argc args results ok depth caller fits =
    let (top, kept) = enter_procedure-continuation env s s' m h st co ub ex rp argc args ok in
    let called : (t.call_stack_top == 0) ≡ false = not-zero t.call_stack_top (ground (arith)) in
    let below : t.call_stack_top - 1 ≡ s.call_stack_top = ground (arith) in
    let is : t.call_stack (t.call_stack_top - 1) ≡ continuation_of s rp =
      ap t.call_stack below ∙ caller ∙ kept in
    rw (called, is) (returned-IsReturned env s t rp _ _ results fits (depth ∙ top))
