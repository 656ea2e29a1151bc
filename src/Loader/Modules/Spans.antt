-- ===== src/Loader/Modules/Spans.antt =====
-- What `parse_modules` of src/LinchpinST/src/lpst_image.c accepts: modules that lie one behind the
-- other in the file, and procedures that lie in their module.
use linchpin.Base.{
  ℕ, zero, suc, ◌+◌, ◌-◌, ◌*◌, ◌%◌, ◌≤◌, ◌<◌, ◌≡◌, refl, ap, ◌∙◌, arith, ◌&&◌, leb, ltb,
  if◌then◌else◌, u16, Array, List, [], ◌∷◌, length,
}
use mathlib.Core.Path.{subst, sym}
use linchpin.Image.{Procedure, CodeModule}
use linchpin.Loader.Result.{
  err_module_span_invalid, err_procedure_out_of_range, Outcome, ok, fails, undefined, Ensures,
  then_with-Ensures, ok-Ensures, always-Ensures, require-Ensures,
}
use linchpin.Loader.Modules.{
  Disk, entry, of_outcome, parse_procedure, parse_procedures, parse_module, end_of, parse_from,
  parse_modules,
}
use linchpin.Loader.Header.Bounds.{IsHeader, parse_procedure_header-IsHeader}

-- A procedure of a module of the given length.
abbrev pub IsProcedure : ℕ → Procedure → Type 0
IsProcedure len p =
    (p.start_offset < len)
    × (p.code_offset ≤ len)
    × (p.local_count < 128)
    × (length p.initializers ≤ 64)

-- Where the procedure before these ends: at the start of the first of them, or with the module.
abbrev pub next_start : ℕ → List Procedure → ℕ
next_start len [] = u16 len
next_start len (p ∷ ps) = p.start_offset

abbrev pub AllProcedures : ℕ → List Procedure → Type 0
AllProcedures len [] = Unit
AllProcedures len (p ∷ ps) =
    IsProcedure len p × (p.upper_bound ≡ next_start len ps) × AllProcedures len ps

of_outcome-Ensures {ℓ} :
    {A : Type ℓ} {P : A → Type 0} (o : Outcome A) (n : ℕ)
    → ((a : A) → o ≡ ok a → P a)
    → Ensures P (of_outcome o n)
of_outcome-Ensures (ok a) n p = ok-Ensures (p a refl)
of_outcome-Ensures (fails x) n p = record { holds = tt }
of_outcome-Ensures undefined n p = record { holds = tt }

module _ (disk : Disk) (bytes : Array ℕ) (len : ℕ) where
  parse_procedure-IsProcedure :
      (j proc_off bound n : ℕ)
      → Ensures
          (λ p. IsProcedure len p × (p.start_offset ≡ proc_off) × (p.upper_bound ≡ bound))
          (parse_procedure disk bytes len j proc_off bound n)
  unfolding parse_procedure
  parse_procedure-IsProcedure j proc_off bound n =
      then_with-Ensures (require-Ensures (ltb proc_off len) err_procedure_out_of_range n)
        (λ _ n1 inside.
          then_with-Ensures {P = λ h. IsHeader h × (proc_off + h.header_size ≤ len)}
            (of_outcome-Ensures _ n1 λ h is.
              let (_, fits, end_) = parse_procedure_header-IsHeader bytes len proc_off is in
              (fits, end_))
            (λ h n2 ((locals, size, few), end_).
              then_with-Ensures always-Ensures
                (λ _ n3 _. ok-Ensures ((ground (arith), omega arith, locals, few), refl, refl))))

  parse_procedures-AllProcedures :
      (offsets : List ℕ) (base left j n : ℕ)
      → Ensures
          (λ ps.
            AllProcedures len ps
            × (next_start len ps ≡ (if ltb 0 left then entry offsets (base + j) else u16 len)))
          (parse_procedures disk bytes len offsets base j left n)
  unfolding parse_procedures
  parse_procedures-AllProcedures offsets base zero j n = ok-Ensures (tt, refl)
  parse_procedures-AllProcedures offsets base (suc left) j n =
      then_with-Ensures (parse_procedure-IsProcedure j _ _ n) (λ p n1 (fits, at, bound).
        then_with-Ensures (parse_procedures-AllProcedures offsets base left (j + 1) n1)
          (λ ps n2 (all, next). ok-Ensures (
            (
              fits,
              bound
                  ∙ ap (λ k. if ltb 0 left then entry offsets k else u16 len) (omega arith)
                  ∙ sym next,
              all,
            ),
            ground (arith, at),
          )))

-- A module with its number, its place in the file and its procedures inside.
abbrev pub IsModule : (i from to obj_size : ℕ) → CodeModule → Type 0
IsModule i from to obj_size m =
    (m.module_id ≡ u16 (i + 1))
    × (m.object_offset ≡ from)
    × (from + m.length ≡ to)
    × (to ≤ obj_size)
    × AllProcedures m.length m.procedures

-- The modules from number `i` on lie one behind the other from the offset `from` to `to`, begin at
-- pages, end inside the file, and have their procedures inside, one ending where the next starts.
abbrev pub Tiles : (i from to obj_size : ℕ) → List CodeModule → Type 0
Tiles i from to obj_size [] = from ≡ to
Tiles i from to obj_size (m ∷ ms) =
    IsModule i from (from + m.length) obj_size m
    × (from % 256 ≡ 0)
    × Tiles (i + 1) (from + m.length) to obj_size ms

module _ (disk : Disk) (obj_size : ℕ) where
  parse_module-IsModule :
      (i from to : ℕ) (offsets : List ℕ) (base count n : ℕ)
      → Ensures
          (IsModule i from to obj_size)
          (parse_module disk obj_size i from to offsets base count n)
  unfolding parse_module
  parse_module-IsModule i from to offsets base count n =
      then_with-Ensures (require-Ensures (leb from to && leb to obj_size) err_module_span_invalid n)
        (λ _ n1 fits. then_with-Ensures always-Ensures (λ bytes n2 _.
          then_with-Ensures
            (parse_procedures-AllProcedures disk bytes (to - from) offsets base count 0 n2)
            (λ ps n3 (all, _). ok-Ensures (refl, refl, ground (arith), ground (arith), all))))

  parse_from-Tiles :
      (code_end i : ℕ) (pages offsets : List ℕ) (base : ℕ) (counts : List ℕ) (n : ℕ)
      → Ensures
          (Tiles i (end_of code_end pages) code_end obj_size)
          (parse_from disk obj_size code_end i pages offsets base counts n)
  unfolding parse_from
  parse_from-Tiles code_end i [] offsets base counts n = ok-Ensures refl
  parse_from-Tiles code_end i (page ∷ pages) offsets base counts n =
      then_with-Ensures
        (parse_module-IsModule i (page * 256) (end_of code_end pages) offsets base (entry counts i)
          n)
        (λ m n1 (id, at, len, inside, all).
          then_with-Ensures
            (parse_from-Tiles code_end (i + 1) pages offsets (base + entry counts i) counts n1)
            (λ ms n2 rest. ok-Ensures (
              (id, at, refl, rw len inside, all),
              omega arith,
              subst (λ x. Tiles (i + 1) x code_end obj_size ms) (sym len) rest,
            )))

-- The modules that the loader accepts.
pub parse_modules-Tiles :
    (disk : Disk) (obj_size code_end : ℕ) (pages offsets counts : List ℕ) (n : ℕ)
    → Ensures
        (Tiles 0 (end_of code_end pages) code_end obj_size)
        (parse_modules disk obj_size code_end pages offsets counts n)
unfolding parse_modules
parse_modules-Tiles disk obj_size code_end pages offsets counts n =
    then_with-Ensures always-Ensures
      (λ _ n1 _. parse_from-Tiles disk obj_size code_end 0 pages offsets 0 counts n1)

parse_from-length :
    (disk : Disk) (obj_size code_end i : ℕ) (pages offsets : List ℕ) (base : ℕ) (counts : List ℕ)
    (n : ℕ)
    → Ensures
        (λ ms. length ms ≡ length pages)
        (parse_from disk obj_size code_end i pages offsets base counts n)
unfolding parse_from
parse_from-length disk obj_size code_end i [] offsets base counts n = ok-Ensures refl
parse_from-length disk obj_size code_end i (page ∷ pages) offsets base counts n =
    then_with-Ensures always-Ensures (λ m n1 _.
      then_with-Ensures
        (parse_from-length disk obj_size code_end (i + 1) pages offsets (base + entry counts i)
          counts n1)
        (λ ms n2 same. ok-Ensures (ap suc same)))

-- One record for each page of the table.
pub parse_modules-length :
    (disk : Disk) (obj_size code_end : ℕ) (pages offsets counts : List ℕ) (n : ℕ)
    → Ensures
        (λ ms. length ms ≡ length pages)
        (parse_modules disk obj_size code_end pages offsets counts n)
unfolding parse_modules
parse_modules-length disk obj_size code_end pages offsets counts n =
    then_with-Ensures always-Ensures
      (λ _ n1 _. parse_from-length disk obj_size code_end 0 pages offsets 0 counts n1)
