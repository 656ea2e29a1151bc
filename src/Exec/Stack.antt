-- ===== src/Exec/Stack.antt =====
-- The evaluation stack of src/LinchpinST/src/lpst_exec.c.
use linchpin.Base.{
  ℕ, ◌+◌, ◌-◌, ◌<◌, ◌≤◌, ◌≡◌, refl, ap, arith, true, false, ◌==◌, leb, if◌then◌else◌, Array, update,
}
use linchpin.Exec.{ExecState, halt_fatal, push, pop, peek}

abbrev pub pushed : ExecState → ℕ → ExecState
pushed s value = record s {
  eval_stack = update s.eval_stack s.eval_stack_top value;
  eval_stack_top = s.eval_stack_top + 1;
}

pub push-pushed :
    (s : ExecState) (value : ℕ) → s.eval_stack_top < 1024 → push s value ≡ pushed s value
unfolding push
push-pushed s value free =
    ap (λ b. if b then halt_fatal s else pushed s value) (leb-false s.eval_stack_top free)
  where
    leb-false : (n : ℕ) → n < 1024 → leb 1024 n ≡ false
    leb-false n h = ground arith

update-same : (a : Array ℕ) (i v : ℕ) → update a i v i ≡ v
update-same a i v = ground arith

pub pop-pushed :
    (s : ExecState) (value : ℕ)
    → pop (pushed s value) ≡ (value, record (pushed s value) { eval_stack_top = s.eval_stack_top })
unfolding pop
pop-pushed s value = ground (arith)

pub peek-pushed : (s : ExecState) (value : ℕ) → peek (pushed s value) ≡ value
unfolding peek
peek-pushed s value = ground (arith)

update-below : (a : Array ℕ) (n v i : ℕ) → i < n → update a n v i ≡ a i
update-below a n v i h = ground arith

leb-true : (n : ℕ) → 1024 ≤ n → leb 1024 n ≡ true
leb-true n h = ground arith

push-full : (s : ExecState) (value : ℕ) → 1024 ≤ s.eval_stack_top → push s value ≡ halt_fatal s
unfolding push
push-full s value h =
    ap (λ b. if b then halt_fatal s else pushed s value) (leb-true s.eval_stack_top h)

pop-empty : (s : ExecState) → s.eval_stack_top ≡ 0 → pop s ≡ (0, halt_fatal s)
unfolding pop
pop-empty s h = ground (arith)

-- Operand `k` of an instruction, counted from the top of the stack, and the state without the first
-- `k` operands.
abbrev pub operand : ExecState → ℕ → ℕ
operand s k = s.eval_stack (s.eval_stack_top - k)

abbrev pub taken : ExecState → ℕ → ExecState
taken s k = record s { eval_stack_top = s.eval_stack_top - k }

pub pop-operand :
    (s : ExecState) (k : ℕ)
    → k < s.eval_stack_top
    → pop (taken s k) ≡ (operand s (k + 1), taken s (k + 1))
unfolding pop
pop-operand s k lt =
    let next : s.eval_stack_top - k - 1 ≡ s.eval_stack_top - (k + 1) = omega arith in
    let some_left : (s.eval_stack_top - k == 0) ≡ false = ground arith in rw (some_left, next) refl

pub pop-first : (s : ExecState) → 0 < s.eval_stack_top → pop s ≡ (operand s 1, taken s 1)
unfolding pop
pop-first s lt = let some_left : (s.eval_stack_top == 0) ≡ false = ground arith in rw some_left refl
