-- ===== src/ClangTidy/Tests.antt =====
-- The threads of run_clang_tidy.py on one file, and its command lines.
use adv_database_implementat.Base.{
  ℕ, true, false, none, some, [], ◌∷◌, Text, codes, sum_of, All, arith, ◌≡◌, refl, ◌↔◌, ◌=t=◌,
}
use adv_database_implementat.ClangTidy.{get_tidy_invocation, merge_replacement_files}
use adv_database_implementat.ClangTidy.Queue.{
  Setup, waiting, got, State, put, get, run_failing, task_done, join, Steps, here, later, Reach,
  return_code,
}
use adv_database_implementat.ClangTidy.Queue.Accounts.{occurrences, is_bad, bad_name}
use adv_database_implementat.ClangTidy.Queue.Safety.{joined-accounts, return_code-exact}
use adv_database_implementat.ClangTidy.Queue.Progress.{reaches-join}

abbrev a_file : Text
a_file = codes "a.cc"

abbrev one_thread : Setup
one_thread = record {
  is_asked = λ name. true;
  should_skip = λ name. false;
  fails = λ name. name =t= a_file;
  max_task = 1;
}

abbrev end_state : State
end_state = record {
  pending = [];
  queue = [];
  unfinished = 0;
  workers = waiting ∷ [];
  failed_files = a_file ∷ [];
  joined = true;
}

abbrev taken : State
taken = record {
  pending = [];
  queue = [];
  unfinished = 1;
  workers = got a_file ∷ [];
  failed_files = [];
  joined = false;
}

run_to_taken : Reach one_thread (a_file ∷ []) taken
run_to_taken =
    later (later here (put a_file [] refl refl (omega arith))) (get [] [] a_file [] refl refl)

run_to_end : Reach one_thread (a_file ∷ []) end_state
run_to_end =
    later
      (later (later run_to_taken (run_failing [] [] a_file refl refl refl))
        (task_done [] [] a_file refl))
      (join refl refl)

joined-accounts_example :
    All (λ name. one_thread.is_asked name ≡ true) (a_file ∷ [])
    × All (λ w. w ≡ waiting) end_state.workers
    × ((x : Text) → occurrences x (a_file ∷ []) ≡ sum_of (bad_name one_thread x) (a_file ∷ []))
joined-accounts_example = joined-accounts one_thread (a_file ∷ []) end_state run_to_end refl

return_code-exact_example : (return_code end_state false true ≡ 0) ↔ (
    All (λ name. is_bad one_thread name ≡ false) (a_file ∷ []) × (false ≡ false) × (true ≡ false))
return_code-exact_example =
    return_code-exact one_thread (a_file ∷ []) end_state false true run_to_end refl

reaches-join_example : (t : State) × Steps one_thread taken t × (t.joined ≡ true)
reaches-join_example =
    reaches-join one_thread (a_file ∷ []) taken run_to_taken (refl, tt) (tt, tt) (omega arith)

invocation :
    get_tidy_invocation a_file
      (record {
        clang_tidy_binary = codes "clang-tidy";
        checks = some (codes "-*");
        config = none;
        header_filter = none;
        extra_arg = codes "-v" ∷ [];
        extra_arg_before = [];
        quiet = true;
      })
      none
      (codes "build")
    ≡ codes "clang-tidy"
      ∷ codes "-checks=-*"
      ∷ codes "-extra-arg=-v"
      ∷ codes "-p=build"
      ∷ codes "-quiet"
      ∷ a_file
      ∷ []
unfolding get_tidy_invocation
invocation = refl

merged :
    merge_replacement_files {A = ℕ} (some (1 ∷ 2 ∷ []) ∷ none ∷ some (3 ∷ []) ∷ [])
    ≡ some (1 ∷ 2 ∷ 3 ∷ [])
unfolding merge_replacement_files
merged = refl
