-- ===== src/Cpplint/FunctionState/Size.antt =====
-- The reports of _FunctionState.Check.
use adv_database_implementat.Base.{
  ℕ, zero, suc, ◌*◌, ◌^◌, ◌≤◌, ◌<◌, Bool, true, false, List, [], ◌∷◌, Text, ltb, All, arith, ◌≡◌,
  refl, Bool-cases, inl, inr,
}
use adv_database_implementat.Cpplint.Report.{Report}
use adv_database_implementat.Cpplint.FunctionState.{
  FunctionState, begin, count_line, check, base_trigger, trigger_of, at_most_5,
}

-- The lines of a body, counted one by one.
unfoldable pub count_lines : ℕ → FunctionState → FunctionState
count_lines zero s = s
count_lines (suc n) s = count_line (count_lines n s)

count_lines-begin :
    (n : ℕ) (name : Text) (s : FunctionState)
    → count_lines n (begin name s)
      ≡ record { in_a_function = true; lines_in_function = n; current_function = name }
unfolding count_lines count_line begin
count_lines-begin zero name s = refl
count_lines-begin (suc n) name s = rw (count_lines-begin n name s)

abbrev pub reports_any : List Report → Bool
reports_any [] = false
reports_any (r ∷ rs) = true

abbrev pub of_function : Text → FunctionState
of_function name = record { in_a_function = true; lines_in_function = 0; current_function = name }

trigger-pos : (name : Text) → 0 < base_trigger (of_function name)
unfolding base_trigger
trigger-pos name = ground arith

base_trigger-name :
    (n : ℕ) (name : Text)
    → base_trigger (record { in_a_function = true; lines_in_function = n; current_function = name })
      ≡ base_trigger (of_function name)
unfolding base_trigger
base_trigger-name n name = refl

-- Whether Check reports, after the head of a function and `n` lines of its body.
pub check-begin :
    (log_ratio : ℕ → ℕ → ℕ) (verbose_level linenum n : ℕ) (name : Text) (s : FunctionState)
    → reports_any (check log_ratio verbose_level linenum (count_lines n (begin name s)))
      ≡ ltb (base_trigger (of_function name) * 2 ^ verbose_level) n
unfolding check trigger_of
check-begin log_ratio verbose_level linenum n name s =
    rw (count_lines-begin n name s)
      (elim (Bool-cases (ltb (base_trigger (of_function name) * 2 ^ verbose_level) n)) [
        | inl long ↦ rw (base_trigger-name n name, long) refl
        | inr short ↦ rw (base_trigger-name n name, short) refl
      ])

at_most_5-bounds : (k v : ℕ) → v ≤ 5 → v ≤ k → (v ≤ at_most_5 k) × (at_most_5 k ≤ 5)
at_most_5-bounds k v level h = ground arith

-- After the head of a function and `n` lines of its body, Check reports exactly if `n` passes
-- 250 (400 for a test) times 2 to the verbosity. If the logarithm is not below any exponent up to
-- 5 whose power of two its argument passes, each report has a confidence of at most 5 that is not below a
-- verbosity of up to 5, so that _ShouldPrintError does not drop it for its confidence.
pub check-size :
    (log_ratio : ℕ → ℕ → ℕ) (verbose_level linenum n : ℕ) (name : Text) (s : FunctionState)
    → ((a b v : ℕ) → v ≤ 5 → 0 < b → b * 2 ^ v < a → v ≤ log_ratio a b)
    → verbose_level ≤ 5
    → (reports_any (check log_ratio verbose_level linenum (count_lines n (begin name s)))
        ≡ ltb (base_trigger (of_function name) * 2 ^ verbose_level) n)
      × All
          (λ r. (verbose_level ≤ r.confidence) × (r.confidence ≤ 5))
          (check log_ratio verbose_level linenum (count_lines n (begin name s)))
unfolding check trigger_of
check-size log_ratio verbose_level linenum n name s log_ge level =
    rw (count_lines-begin n name s)
      (elim (Bool-cases (ltb (base_trigger (of_function name) * 2 ^ verbose_level) n)) [
        | inl long ↦
            rw (base_trigger-name n name, long)
              (
                refl,
                (
                  (at_most_5-bounds (log_ratio n (base_trigger (of_function name))) verbose_level
                      level
                      (log_ge n (base_trigger (of_function name)) verbose_level level
                        (trigger-pos name) (ground arith))),
                  tt,
                ),
              )
        | inr short ↦ rw (base_trigger-name n name, short) (refl, tt)
      ])
