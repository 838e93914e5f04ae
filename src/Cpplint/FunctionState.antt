-- ===== src/Cpplint/FunctionState.antt =====
-- `_FunctionState` of cpplint.py: the function at hand and the number of lines in its body.
pub mod Size
use adv_database_implementat.Base.{
  ℕ, suc, ◌+◌, ◌*◌, ◌^◌, Bool, true, false, List, [], ◌∷◌, ◌++◌, Text, codes, ltb, if◌then◌else◌,
  is_some,
}
use adv_database_implementat.Regex.{Re, chr, lit, alt, group, ◌⨾◌, match_at_start}
use adv_database_implementat.Cpplint.Report.{Report, decimal}

pub record FunctionState : Type 0 where
  pub in_a_function : Bool
  pub lines_in_function : ℕ
  pub current_function : Text

abbrev pub normal_trigger : ℕ
normal_trigger = 250

abbrev pub test_trigger : ℕ
test_trigger = 400

-- __init__
unfoldable pub init : FunctionState
init = record { in_a_function = false; lines_in_function = 0; current_function = [] }

unfoldable pub begin : Text → FunctionState → FunctionState
begin function_name s = record {
  in_a_function = true;
  lines_in_function = 0;
  current_function = function_name;
}

unfoldable pub count_line : FunctionState → FunctionState
count_line s =
    if s.in_a_function then record s { lines_in_function = suc s.lines_in_function } else s

-- T(EST|est)
unfoldable pub test_pattern : Re
test_pattern = chr b'T' ⨾ group 1 (alt (lit "EST") (lit "est"))

unfoldable pub base_trigger : FunctionState → ℕ
base_trigger s =
    if is_some (match_at_start test_pattern s.current_function)
    then test_trigger
    else normal_trigger

unfoldable pub trigger_of : ℕ → FunctionState → ℕ
trigger_of verbose_level s = base_trigger s * 2 ^ verbose_level

abbrev pub at_most_5 : ℕ → ℕ
at_most_5 n = if ltb 5 n then 5 else n

-- `log_ratio a b` is `int(math.log(a / b, 2))`.
unfoldable pub check : (ℕ → ℕ → ℕ) → ℕ → ℕ → FunctionState → List Report
check log_ratio verbose_level linenum s =
    if s.in_a_function
    then (if ltb (trigger_of verbose_level s) s.lines_in_function
        then record {
          linenum = linenum;
          category = codes "readability/fn_size";
          confidence = at_most_5 (log_ratio s.lines_in_function (base_trigger s));
          message =
              codes "Small and focused functions are preferred: "
              ++ (s.current_function
                  ++ (codes " has "
                      ++ (decimal s.lines_in_function
                          ++ (codes " non-comment lines (error triggered by exceeding "
                              ++ (decimal (trigger_of verbose_level s) ++ codes " lines).")))));
        }
          ∷ []
        else [])
    else []

unfoldable pub end : FunctionState → FunctionState
end s = record s { in_a_function = false }
