-- ===== src/Exec/Bounded/Entries.antt =====
-- The bounds of the machine's arrays, kept by the near and far calls of
-- src/LinchpinST/src/lpst_run_runtime.c.
use linchpin.Base.{
  ℕ, zero, suc, ◌+◌, ◌/◌, ◌%◌, ◌^◌, ◌≤◌, arith, Bool, true, false, ◌||◌, Option, none, some, ltb,
  ◌==◌, if-cases, Array, List, u32,
}
use linchpin.Base.Options.{Each, none-Each, some-Each, >>=-Each}
use linchpin.Image.{Procedure, CodeModule, Initializer}
use linchpin.Cache.{CodeCache}
use linchpin.Exec.{ExecState, Env, current_module}
use linchpin.Exec.Bounded.{IsBounded}
use linchpin.Exec.Bounded.Frames.{
  FitsImage, FewFound, find-FewFound, get-FewFound, pop_arguments-IsBounded,
  enter_procedure-IsBounded,
}
use linchpin.Exec.Calls.{fill_cached_proc_header}
use linchpin.Exec.Entry.{
  inspected, read_code_byte, initializer_value, parse_initializers, parse_private_header,
  enter_found, enter_near_call, enter_selected, enter_far_call, clamped,
}

inspected-IsBounded :
    (s : ExecState) (r : CodeCache × Option ℕ) → IsBounded s → IsBounded (inspected s r).1
unfolding inspected
inspected-IsBounded s (cache, none) b = b
inspected-IsBounded s (cache, some value) b = b

module _ (env : Env) where
  read_code_byte-IsBounded :
      (s : ExecState) (m : CodeModule) (offset : ℕ)
      → IsBounded s
      → IsBounded (read_code_byte env s m offset).1
  unfolding read_code_byte
  read_code_byte-IsBounded s m offset b = inspected-IsBounded s _ b

  initializer_value-IsBounded :
      (s : ExecState) (m : CodeModule) (byte : Bool) (cursor : ℕ)
      → IsBounded s
      → IsBounded (initializer_value env s m byte cursor).2
  unfolding initializer_value
  initializer_value-IsBounded s m true cursor b = read_code_byte-IsBounded s m cursor b
  initializer_value-IsBounded s m false cursor b =
      read_code_byte-IsBounded (read_code_byte env s m cursor).1 m (cursor + 1)
        (read_code_byte-IsBounded s m cursor b)

  parse_initializers-IsBounded :
      (m : CodeModule) (fuel : ℕ) (s : ExecState) (cursor : ℕ) (found : List Initializer)
      → IsBounded s
      → Each (λ r. IsBounded r.2) (parse_initializers env m fuel s cursor found)
  unfolding parse_initializers
  parse_initializers-IsBounded m zero s cursor found b = none-Each
  parse_initializers-IsBounded m (suc fuel) s cursor found b =
      let marker = (read_code_byte env s m cursor).0 in
      let s1 = (read_code_byte env s m cursor).1 in
      let inside =
        initializer_value-IsBounded s1 m (marker / 2 ^ 6 % 2 == 1) (u32 (cursor + 1))
          (read_code_byte-IsBounded s m cursor b) in
      if-cases (Each (λ r. IsBounded r.2)) (marker / 2 ^ 7 % 2 == 1) (λ last. some-Each inside)
        (λ more. parse_initializers-IsBounded m fuel _ _ _ inside)

  parse_private_header-IsBounded :
      (fuel : ℕ) (s : ExecState) (m : CodeModule) (offset : ℕ)
      → IsBounded s
      → Each
          (λ r. (r.0.local_count ≤ 128) × IsBounded r.2)
          (parse_private_header fuel env s m offset)
  unfolding parse_private_header
  parse_private_header-IsBounded fuel s m offset b =
      let inside = read_code_byte-IsBounded s m offset b in
      >>=-Each {P = λ r. IsBounded r.2} _
        (if-cases (Each (λ r. IsBounded r.2)) ((read_code_byte env s m offset).0 / 2 ^ 7 % 2 == 1)
          (λ flagged. parse_initializers-IsBounded m fuel _ _ _ inside) (λ plain. some-Each inside))
        (λ r bounded. some-Each (omega arith, bounded))

  module _ (image : FitsImage env) where
    enter_found-IsBounded :
        (fuel : ℕ) (s : ExecState) (m : CodeModule) (target argc pc : ℕ) (args : Array ℕ)
        (proc : Option Procedure)
        → IsBounded s
        → FewFound proc
        → Each (λ r. IsBounded r.1) (enter_found fuel env s m target argc pc args proc)
    unfolding enter_found fill_cached_proc_header
    enter_found-IsBounded fuel s m target argc pc args (some proc) b few = some-Each (
        enter_procedure-IsBounded env s m.module_id (fill_cached_proc_header proc) _ _ _ _ pc argc
          args b few)
    enter_found-IsBounded fuel s m target argc pc args none b few =
        >>=-Each _ (parse_private_header-IsBounded fuel s m target b) (λ r (few', bounded).
          some-Each
            (enter_procedure-IsBounded env r.2 m.module_id r.0 _ _ _ _ pc argc args bounded few'))

    pub enter_near_call-IsBounded :
        (fuel : ℕ) (s : ExecState) (target argc pc : ℕ)
        → IsBounded s
        → Each (λ r. IsBounded r.1) (enter_near_call fuel env s target argc pc)
    unfolding enter_near_call
    enter_near_call-IsBounded fuel s target argc pc b =
        enter_found-IsBounded fuel _ (current_module env s) target (clamped argc) pc _ _
          (pop_arguments-IsBounded s (λ i. 0) (clamped argc) b)
          (find-FewFound (current_module env s).procedures target (image _))

    enter_selected-IsBounded :
        (s : ExecState) (module_id argc pc : ℕ) (args : Array ℕ) (proc : Option Procedure)
        → IsBounded s
        → FewFound proc
        → IsBounded (enter_selected env s module_id argc pc args proc).1
    unfolding enter_selected fill_cached_proc_header
    enter_selected-IsBounded s module_id argc pc args none b few = b
    enter_selected-IsBounded s module_id argc pc args (some proc) b few =
        enter_procedure-IsBounded env s module_id (fill_cached_proc_header proc) _ _ _ _ pc argc
          args b few

    pub enter_far_call-IsBounded :
        (s : ExecState) (selector argc pc : ℕ)
        → IsBounded s
        → IsBounded (enter_far_call env s selector argc pc).1
    unfolding enter_far_call
    enter_far_call-IsBounded s selector argc pc b =
        let popped = pop_arguments-IsBounded s (λ i. 0) (clamped argc) b in
        if-cases (λ (r : Bool × ExecState). IsBounded r.1)
          (ltb (selector / 2 ^ 8) 1 || ltb env.image.module_count (selector / 2 ^ 8))
          (λ bad. popped)
          (λ good.
            enter_selected-IsBounded _ (selector / 2 ^ 8) (clamped argc) pc _ _ popped
              (get-FewFound _ (selector % 256) (image _)))
