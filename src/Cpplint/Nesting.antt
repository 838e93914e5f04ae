-- ===== src/Cpplint/Nesting.antt =====
-- The class NestingState of cpplint.py: the blocks that are open, and the checkpoints of the
-- preprocessor's branches. A stack is a list with its top first.
-- A block is a value here. The source keeps in `previous_stack_top` the object that is on the top, which
-- Update goes on changing; only the class of that object never changes, and it is what is kept here. The
-- checks ask for no more of it, but for CheckForNamespaceIndentation, which compares it with an open
-- block and is not modelled.
pub mod Blocks
pub mod Template
pub mod Update
pub mod Branches
pub mod Braces
pub mod Balance
pub mod Indent
use adv_database_implementat.Base.{
  ℕ, Bool, true, false, ◌&&◌, ◌||◌, not, Option, none, some, List, [], ◌∷◌, Text, String,
  if◌then◌else◌, is_some, ℤ, pos,
}
use adv_database_implementat.Regex.{
  Re, bol, star, space, chr, group, word_boundary, first_of_lits, lit, ◌⨾◌, match_at_start,
}

-- _NO_ASM, _INSIDE_ASM, _END_ASM, _BLOCK_ASM
pub data AsmState : Type 0 where
  no_asm inside_asm end_asm block_asm : AsmState

-- The fields of _ClassInfo beside those of every block.
pub record ClassInfo : Type 0 where
  pub name : Text
  pub is_derived : Bool
  pub access : Text
  pub is_struct : Bool
  pub class_indent : ℕ
  pub last_line : ℕ

-- _BlockInfo, _ExternCInfo, _ClassInfo and _NamespaceInfo with its name.
pub data Kind : Type 0 where
  block extern_c : Kind
  class_block : ClassInfo → Kind
  namespace_block : Text → Kind

pub record BlockInfo : Type 0 where
  pub starting_linenum : ℕ
  pub seen_open_brace : Bool
  pub open_parentheses : ℤ
  pub inline_asm : AsmState
  pub check_namespace_indentation : Bool
  pub kind : Kind

-- The class of the object that stands for a block.
pub data BlockClass : Type 0 where
  block_info extern_c_info class_info namespace_info : BlockClass

abbrev pub class_of : Kind → BlockClass
class_of block = block_info
class_of extern_c = extern_c_info
class_of (class_block c) = class_info
class_of (namespace_block name) = namespace_info

abbrev pub Stack : Type 0
Stack = List BlockInfo

pub record PreprocessorInfo : Type 0 where
  pub stack_before_if : Stack
  pub stack_before_else : Stack
  pub seen_else : Bool

pub record NestingState : Type 0 where
  pub stack : Stack
  pub previous_stack_top : Option BlockClass
  pub pp_stack : List PreprocessorInfo

-- __init__
unfoldable pub init : NestingState
init = record { stack = []; previous_stack_top = none; pp_stack = [] }

abbrev pub is_class : Kind → Bool
is_class (class_block c) = true
is_class _ = false

abbrev pub is_namespace : Kind → Bool
is_namespace (namespace_block name) = true
is_namespace _ = false

abbrev pub is_extern_c : Kind → Bool
is_extern_c extern_c = true
is_extern_c _ = false

abbrev pub has_asm : AsmState → Bool
has_asm no_asm = false
has_asm _ = true

-- SeenOpenBrace
unfoldable pub seen_open_brace : Stack → Bool
seen_open_brace [] = true
seen_open_brace (b ∷ stack) = b.seen_open_brace

abbrev of_top : (BlockInfo → Bool) → Stack → Bool
of_top test [] = false
of_top test (b ∷ stack) = test b

unfoldable pub in_namespace_body : NestingState → Bool
in_namespace_body s = of_top (λ b. is_namespace b.kind) s.stack

unfoldable pub in_extern_c : NestingState → Bool
in_extern_c s = of_top (λ b. is_extern_c b.kind) s.stack

unfoldable pub in_class_declaration : NestingState → Bool
in_class_declaration s = of_top (λ b. is_class b.kind) s.stack

unfoldable pub in_asm_block : NestingState → Bool
in_asm_block s = of_top (λ b. has_asm b.inline_asm) s.stack

abbrev class_or : Kind → Option ClassInfo → Option ClassInfo
class_or (class_block c) outer = some c
class_or _ outer = outer

-- InnermostClass
unfoldable pub innermost_class : Stack → Option ClassInfo
innermost_class [] = none
innermost_class (b ∷ stack) = class_or b.kind (innermost_class stack)

-- ^\s*#\s*(…)\b
abbrev directive_pattern : List String → Re
directive_pattern names =
    bol ⨾ star space ⨾ chr b'#' ⨾ star space ⨾ group 1 (first_of_lits names) ⨾ word_boundary

unfoldable pub if_pattern : Re
if_pattern = directive_pattern ("if" ∷ "ifdef" ∷ "ifndef" ∷ [])

unfoldable pub else_pattern : Re
else_pattern = directive_pattern ("else" ∷ "elif" ∷ [])

-- ^\s*#\s*endif\b
unfoldable pub endif_pattern : Re
endif_pattern = bol ⨾ star space ⨾ chr b'#' ⨾ star space ⨾ lit "endif" ⨾ word_boundary

pub data Directive : Type 0 where
  if_line else_line endif_line other_line : Directive

-- Which branch of UpdatePreprocessor a line takes.
unfoldable pub directive_of : Text → Directive
directive_of line =
    if is_some (match_at_start if_pattern line)
    then if_line
    else if is_some (match_at_start else_pattern line)
    then else_line
    else if is_some (match_at_start endif_pattern line)
    then endif_line
    else other_line

-- The first #else or #elif of a branch remembers the stack.
unfoldable pub mark_else : Stack → PreprocessorInfo → PreprocessorInfo
mark_else stack p =
    if p.seen_else then p else record p { seen_else = true; stack_before_else = stack }

unfoldable pub update_else : NestingState → List PreprocessorInfo → NestingState
update_else s [] = s
update_else s (p ∷ ps) = record s { stack = p.stack_before_if; pp_stack = mark_else s.stack p ∷ ps }

unfoldable pub update_endif : NestingState → List PreprocessorInfo → NestingState
update_endif s [] = s
update_endif s (p ∷ ps) = record s {
  stack = if p.seen_else then p.stack_before_else else s.stack;
  pp_stack = ps;
}

unfoldable pub update_directive : Directive → NestingState → NestingState
update_directive if_line s = record s {
  pp_stack =
      record { stack_before_if = s.stack; stack_before_else = []; seen_else = false } ∷ s.pp_stack;
}
update_directive else_line s = update_else s s.pp_stack
update_directive endif_line s = update_endif s s.pp_stack
update_directive other_line s = s

unfoldable pub update_preprocessor : Text → NestingState → NestingState
update_preprocessor line s = update_directive (directive_of line) s
