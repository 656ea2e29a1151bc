-- ===== src/Instr/Locals.antt =====
-- Storing a local and loading it again, and the stack under the binary operations.
use mathlib.Core.Path.{ap₂}
use linchpin.Base.{
  ℕ, ◌+◌, ◌-◌, ◌<◌, ◌≤◌, ◌≡◌, ◌≢◌, ◌∙◌, refl, ap, arith, true, false, ltb, ◌==◌, update,
}
use linchpin.Exec.{ExecState, pop, peek}
use linchpin.Exec.Stack.{pushed, push-pushed, peek-pushed}
use linchpin.Instr.{Binary, result_of, binary, set_local, store_local_pop, load_local}

pop-some :
    (s : ExecState)
    → s.eval_stack_top ≢ 0
    → pop s ≡ (peek s, record s { eval_stack_top = s.eval_stack_top - 1 })
unfolding pop peek
pop-some s some_words = rw (not_zero s.eval_stack_top some_words) refl
  where
    not_zero : (n : ℕ) → n ≢ 0 → (n == 0) ≡ false
    not_zero n h = ground arith

set_local-inside :
    (s : ExecState) (n value : ℕ)
    → n < s.current_frame.local_count
    → set_local s n value ≡ record s { local_storage = update s.local_storage n value }
unfolding set_local
set_local-inside s n value inside = rw (below n s.current_frame.local_count inside) refl
  where
    below : (a b : ℕ) → a < b → ltb a b ≡ true
    below a b h = ground arith

update-same : (a : ℕ → ℕ) (n v : ℕ) → update a n v n ≡ v
update-same a n v = ground arith

update-other : (a : ℕ → ℕ) (n v i : ℕ) → i ≢ n → update a n v i ≡ a i
update-other a n v i h = ground arith

-- The state once the top is in the local.
abbrev stored : ExecState → ℕ → ExecState
stored s n = record s {
  eval_stack_top = s.eval_stack_top - 1;
  local_storage = update s.local_storage n (peek s);
}

store_local_pop-stored :
    (s : ExecState) (n : ℕ)
    → n < s.current_frame.local_count
    → s.eval_stack_top ≢ 0
    → store_local_pop s n ≡ stored s n
unfolding store_local_pop
store_local_pop-stored s n inside some_words =
    rw (pop-some s some_words)
      (set_local-inside (record s { eval_stack_top = s.eval_stack_top - 1 }) n (peek s) inside)

load_local-pushed :
    (s : ExecState) (n : ℕ)
    → n < s.current_frame.local_count
    → s.eval_stack_top < 1024
    → load_local s n ≡ pushed s (s.local_storage n)
unfolding load_local
load_local-pushed s n inside free =
    rw (below n s.current_frame.local_count inside) (push-pushed s (s.local_storage n) free)
  where
    below : (a b : ℕ) → a < b → ltb a b ≡ true
    below a b h = ground arith

lower : (n : ℕ) → n ≢ 0 → n ≤ 1024 → n - 1 < 1024
lower n h le = ground arith

-- Storing the top of a stack that is not empty into a local of the frame, and loading that local
-- again, leaves the stack's depth and its top as they were; the local has the value of the top, and
-- every other local is as before.
pub load_local-store_local_pop :
    (s : ExecState) (n : ℕ)
    → n < s.current_frame.local_count
    → s.eval_stack_top ≢ 0
    → s.eval_stack_top ≤ 1024
    → let s' = load_local (store_local_pop s n) n in
      (s'.eval_stack_top ≡ s.eval_stack_top)
      × (peek s' ≡ peek s)
      × (s'.local_storage n ≡ peek s)
      × ((i : ℕ) → i ≢ n → s'.local_storage i ≡ s.local_storage i)
load_local-store_local_pop s n inside some_words fits =
    rw
      (
        store_local_pop-stored s n inside some_words,
        load_local-pushed (stored s n) n inside (lower s.eval_stack_top some_words fits),
      )
      (
        ground (arith, some_words),
        peek-pushed (stored s n) _ ∙ update-same s.local_storage n (peek s),
        update-same s.local_storage n (peek s),
        λ i other. update-other s.local_storage n (peek s) i other,
      )

-- A stack without its top word.
abbrev less : ExecState → ExecState
less s = record s { eval_stack_top = s.eval_stack_top - 1 }

peek-at : (s : ExecState) → s.eval_stack_top ≢ 0 → peek s ≡ s.eval_stack (s.eval_stack_top - 1)
unfolding peek
peek-at s some_words = ground (arith)

two_less :
    (n : ℕ)
    → 2 ≤ n
    → n ≤ 1024
    → (n ≢ 0) × (n - 1 ≢ 0) × (n - 1 - 1 < 1024) × (n - 1 - 1 + 1 ≡ n - 1) × (n - 1 - 1 ≡ n - 2)
two_less n two fits = (ground arith, ground arith, ground arith, ground arith, ground arith)

update-lower : (a : ℕ → ℕ) (n v i : ℕ) → i < n → update a n v i ≡ a i
update-lower a n v i h = ground arith

-- With two words or more on the stack, each binary operation replaces the top two by its result on
-- them, the lower one first, and leaves every deeper word as it was.
pub binary-result :
    (op : Binary) (s : ExecState)
    → 2 ≤ s.eval_stack_top
    → s.eval_stack_top ≤ 1024
    → let s' = binary op s in
      (s'.eval_stack_top ≡ s.eval_stack_top - 1)
      × (peek s'
          ≡ result_of op
              (s.eval_stack (s.eval_stack_top - 2))
              (s.eval_stack (s.eval_stack_top - 1)))
      × ((i : ℕ) → i < s.eval_stack_top - 2 → s'.eval_stack i ≡ s.eval_stack i)
unfolding binary
binary-result op s two fits =
    let (some_words, more_words, free, one, deep) = two_less s.eval_stack_top two fits in
    rw
      (
        pop-some s some_words,
        pop-some (less s) more_words,
        push-pushed (less (less s)) (result_of op (peek (less s)) (peek s)) free,
      )
      (
        one,
        peek-pushed (less (less s)) _
            ∙ ap₂ (result_of op) (peek-at (less s) more_words ∙ ap s.eval_stack deep)
                (peek-at s some_words),
        λ i below. update-lower s.eval_stack (s.eval_stack_top - 1 - 1) _ i (ground (arith, deep)),
      )
