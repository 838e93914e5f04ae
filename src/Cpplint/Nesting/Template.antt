-- ===== src/Cpplint/Nesting/Template.antt =====
-- NestingState.InTemplateArgumentList.
use adv_database_implementat.Base.{
  ℕ, zero, suc, ◌+◌, ◌-◌, Bool, true, false, not, Option, none, some, List, [], ◌∷◌, Text, codes,
  length, drop, get_elem?, leb, ◌==◌, if◌then◌else◌, char_mem,
}
use adv_database_implementat.Regex.{
  Re, Matched, bol, star, any_char, group, ◌⨾◌, none_of, match_at_start, group_of, or_empty,
}
use adv_database_implementat.Cpplint.Expression.{Place, close_expression}

-- ^[^{};=\[\]\.<>]*(.)
unfoldable pub argument_token : Re
argument_token = bol ⨾ star (none_of "{};=[].<>") ⨾ group 1 any_char

-- The result, or the next place to look at.
pub data Look : Type 0 where
  answer : Bool → Look
  on_to : ℕ → ℕ → Look

abbrev at_pos : ℕ → Option ℕ → Look
at_pos linenum none = answer false
at_pos linenum (some p) = on_to linenum p

-- The `<` that CloseExpression is asked about is on the line, so it raises no IndexError.
abbrev after_close : Option Place → Look
after_close none = answer false
after_close (some r) = at_pos r.linenum r.pos

abbrev first_char : Text → ℕ
first_char [] = 0
first_char (c ∷ s) = c

-- A token at the character before `pos`.
unfoldable pub at_token : List Text → Text → ℕ → ℕ → ℕ → Look
at_token elided line linenum pos token =
    if char_mem token (codes "{};")
    then answer false
    else if char_mem token (codes ">=[].")
    then answer true
    else if not (token == b'<')
    then (if leb (length line) (pos + 1) then on_to (linenum + 1) 0 else on_to linenum (pos + 1))
    else after_close (close_expression elided linenum (pos - 1))

unfoldable pub look_at : List Text → Text → ℕ → ℕ → Option Matched → Look
look_at elided line linenum pos none = on_to (linenum + 1) 0
look_at elided line linenum pos (some m) =
    at_token elided line linenum (pos + length m.whole) (first_char (or_empty (group_of m 1)))

abbrev go_on : (ℕ → ℕ → Option Bool) → Look → Option Bool
go_on next (answer b) = some b
go_on next (on_to linenum pos) = next linenum pos

abbrev at_line : Option Text → (Text → Option Bool) → Option Bool
at_line none f = some false
at_line (some line) f = f line

-- The loop, on fuel; `none` means that the fuel ran out. Each round moves on in the file.
unfoldable pub in_template_from : ℕ → List Text → ℕ → ℕ → Option Bool
in_template_from zero elided linenum pos = none
in_template_from (suc fuel) elided linenum pos = at_line (get_elem? elided linenum) (λ line.
    go_on (λ n p. in_template_from fuel elided n p)
      (look_at elided line linenum pos (match_at_start argument_token (drop pos line))))

-- The places of a file, the end of each line with them.
unfoldable pub places : List Text → ℕ
places [] = 1
places (line ∷ lines) = suc (length line) + places lines

unfoldable pub in_template_argument_list : List Text → ℕ → ℕ → Option Bool
in_template_argument_list elided linenum pos =
    in_template_from (suc (places elided)) elided linenum pos
