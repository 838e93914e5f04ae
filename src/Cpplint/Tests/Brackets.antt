-- ===== src/Cpplint/Tests/Brackets.antt =====
-- The bracket matching at concrete inputs.
use adv_database_implementat.Base.{
  ◌≤◌, ◌<◌, some, [], ◌∷◌, codes, get_elem?, ◌≡◌, refl, char_mem, is_space,
}
use adv_database_implementat.Regex.{search_text, match_at_start}
use adv_database_implementat.Cpplint.Expression.{
  close_expression, reverse_close_expression, close_at, close_lines, find_end_of_expression_in_line,
  find_end, end_round, is_operator_lt, ends_in_operator, operator_pattern, drop_top,
  reverse_close_at, reverse_close_lines, find_start_of_expression_in_line, find_start, start_round,
  is_operator_ge,
}
use adv_database_implementat.Cpplint.Expression.Nest.{Nest, done, plain, wrap}
use adv_database_implementat.Cpplint.Expression.Forward.{close_expression-Nest_lines, joined}
use adv_database_implementat.Cpplint.Expression.Backward.{reverse_close_expression-Nest}
use adv_database_implementat.Cpplint.Expression.Bounds.{close_expression_bounds}

-- `x, y[0]`
arguments : Nest (codes "x,y[0]")
unfolding char_mem
arguments =
    plain _ refl
      (plain _ refl (plain _ refl (wrap _ _ (codes "0") [] refl (plain _ refl done) done refl)))

close_expression-Nest_lines_example :
    close_expression (codes "f(x" ∷ codes ",y[" ∷ codes "0]);" ∷ []) 0 1
    ≡ some (record { line = codes "0]);"; linenum = 2; pos = some 3 })
close_expression-Nest_lines_example =
    close_expression-Nest_lines [] (codes ",y[" ∷ []) [] (codes "f") (codes "x") (codes "0]")
      (codes ";") b'(' b')' refl (unfold joined in arguments)

reverse_close_expression-Nest_example :
    reverse_close_expression ([] ∷ codes "f(x,y[0]);" ∷ []) 1 8
    ≡ some (record { line = codes "f(x,y[0]);"; linenum = 1; pos = some 1 })
reverse_close_expression-Nest_example =
    reverse_close_expression-Nest ([] ∷ []) [] (codes "f") (codes "x,y[0]") (codes ";") b'(' b')'
      refl arguments

-- A template argument list, with a shift behind it.
template_place :
    close_expression (codes "A<B<int>, f(1 < 2)> x;" ∷ []) 0 1
    ≡ some (record { line = codes "A<B<int>, f(1 < 2)> x;"; linenum = 0; pos = some 19 })
unfolding close_expression close_at close_lines find_end_of_expression_in_line find_end end_round
    is_operator_lt ends_in_operator operator_pattern drop_top search_text char_mem
template_place = refl

close_expression_bounds_example :
    (get_elem? (codes "A<B<int>, f(1 < 2)> x;" ∷ []) 0 ≡ some (codes "A<B<int>, f(1 < 2)> x;"))
    × (0 ≤ 0)
    × (0 < 19)
    × (19 ≤ 22)
close_expression_bounds_example =
    close_expression_bounds (codes "A<B<int>, f(1 < 2)> x;" ∷ []) 0 1 19
      (record { line = codes "A<B<int>, f(1 < 2)> x;"; linenum = 0; pos = some 19 }) template_place
      refl

reverse_template :
    reverse_close_expression (codes "A<B<int>, f(1 < 2)> x;" ∷ []) 0 18
    ≡ some (record { line = codes "A<B<int>, f(1 < 2)> x;"; linenum = 0; pos = some 1 })
unfolding reverse_close_expression reverse_close_at reverse_close_lines
    find_start_of_expression_in_line find_start start_round ends_in_operator operator_pattern
    drop_top search_text is_operator_ge char_mem match_at_start is_space
reverse_template = refl
