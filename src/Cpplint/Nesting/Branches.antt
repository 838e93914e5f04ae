-- ===== src/Cpplint/Nesting/Branches.antt =====
-- The preprocessor's branches in UpdatePreprocessor: what is open behind an `#endif`.
use adv_database_implementat.Base.{
  false, List, [], ◌∷◌, Text, if◌then◌else◌, ◌≡◌, refl, ap, ap₂, ◌∙◌, arith,
}
use adv_database_implementat.Cpplint.Nesting.{
  Stack, PreprocessorInfo, NestingState, if_line, else_line, endif_line, directive_of, mark_else,
  update_else, update_endif, update_directive, update_preprocessor,
}

-- What the lines of a branch do to the state, but for the preprocessor lines: they may change the
-- stack and the remembered top, and leave the checkpoints.
abbrev pub within : Stack → NestingState → NestingState
within stack s = record s { stack = stack }

-- Further branches: an `#else` or `#elif` line, and the stack at the end of its branch.
unfoldable pub run_branches : List (Text × Stack) → NestingState → NestingState
run_branches [] s = s
run_branches ((line, stack) ∷ rest) s =
    run_branches rest (within stack (update_preprocessor line s))

abbrev pub AllElse : List (Text × Stack) → Type 0
AllElse [] = Unit
AllElse ((line, stack) ∷ rest) = (directive_of line ≡ else_line) × AllElse rest

-- What `#endif` restores.
abbrev kept : PreprocessorInfo → Stack → Stack
kept p stack = if p.seen_else then p.stack_before_else else stack

kept-mark_else :
    (p : PreprocessorInfo) (first later : Stack) → kept (mark_else first p) later ≡ kept p first
unfolding mark_else
kept-mark_else p first later = ground arith

else-step :
    (line : Text) (s : NestingState) (p : PreprocessorInfo) (ps : List PreprocessorInfo)
    → directive_of line ≡ else_line
    → s.pp_stack ≡ p ∷ ps
    → update_preprocessor line s ≡ update_else s (p ∷ ps)
unfolding update_preprocessor update_directive
else-step line s p ps d e = rw d (ap (update_else s) e)

if-step :
    (line : Text) (s : NestingState)
    → directive_of line ≡ if_line
    → update_preprocessor line s ≡ record s {
      pp_stack =
          record { stack_before_if = s.stack; stack_before_else = []; seen_else = false }
          ∷ s.pp_stack;
    }
unfolding update_preprocessor update_directive
if-step line s d = rw d

run_branches-endif :
    (branches : List (Text × Stack)) (last : Text) (s : NestingState) (p : PreprocessorInfo)
    (ps : List PreprocessorInfo)
    → AllElse branches
    → directive_of last ≡ endif_line
    → s.pp_stack ≡ p ∷ ps
    → update_preprocessor last (run_branches branches s)
      ≡ record s { stack = kept p s.stack; pp_stack = ps }
unfolding run_branches update_preprocessor update_directive update_endif update_else
run_branches-endif [] last s p ps all ends e = rw ends (ap (update_endif s) e)
run_branches-endif ((line, stack) ∷ rest) last s p ps all ends e =
    let moved = within stack (update_preprocessor line s) in
    let at_else : update_preprocessor line s ≡ update_else s (p ∷ ps) =
      else-step line s p ps all.0 e in
    run_branches-endif rest last moved (mark_else s.stack p) ps all.1 ends
      (ap (λ t. t.pp_stack) at_else)
    ∙ ap₂
        (λ top open_blocks. record { stack = open_blocks; previous_stack_top = top; pp_stack = ps })
        (ap (λ t. t.previous_stack_top) at_else) (kept-mark_else p s.stack stack)

-- Behind an `#if`, `#ifdef` or `#ifndef` line, whatever is open at the end of each branch, the
-- `#endif` line leaves open what was at the end of the first branch, and the checkpoints are what
-- they were before the `#if`.
pub branches-first :
    (opening last : Text) (first : Stack) (branches : List (Text × Stack)) (s : NestingState)
    → directive_of opening ≡ if_line
    → AllElse branches
    → directive_of last ≡ endif_line
    → update_preprocessor last
        (run_branches branches (within first (update_preprocessor opening s)))
      ≡ within first s
branches-first opening last first branches s opens all ends =
    let p : PreprocessorInfo = record {
      stack_before_if = s.stack;
      stack_before_else = [];
      seen_else = false;
    } in
    let at_if : update_preprocessor opening s ≡ record s { pp_stack = p ∷ s.pp_stack } =
      if-step opening s opens in
    rw at_if (
      run_branches-endif branches last (record s { stack = first; pp_stack = p ∷ s.pp_stack }) p
        s.pp_stack all ends refl)
