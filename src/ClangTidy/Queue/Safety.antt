-- ===== src/ClangTidy/Queue/Safety.antt =====
-- What is known when task_queue.join() has returned.
use adv_database_implementat.Base.{
  ℕ, Bool, true, false, ◌&&◌, not, List, [], ◌∷◌, Text, length, ◌=t=◌, =t=_refl, sum_of, All, arith,
  ◌≡◌, refl, ap, ◌∙◌, sym, ◌↔◌, Bool-cases, inl, inr,
}
use adv_database_implementat.ClangTidy.Queue.{
  Setup, Worker, waiting, got, ran, dead, lost, State, Reach, return_code, exit_code, or_one,
}
use adv_database_implementat.ClangTidy.Queue.Accounts.{
  one, occurrences, is_bad, bad_name, bad_worker, busy, unasked, Reach-Inv,
}

All-asked :
    (e : Setup) (files : List Text)
    → sum_of (unasked e) files ≡ 0
    → All (λ name. e.is_asked name ≡ true) files
All-asked e [] h = tt
All-asked e (name ∷ files) h = elim (Bool-cases (e.is_asked name)) [
  | inl asked ↦ (asked, All-asked e files (omega (arith, h)))
  | inr other ↦ absurd (omega (arith, h, ap (λ b. one (not b)) other))
]

All-waiting : (workers : List Worker) → sum_of busy workers ≡ 0 → All (λ w. w ≡ waiting) workers
All-waiting [] h = tt
All-waiting (waiting ∷ workers) h = (refl, All-waiting workers (omega (arith, h)))
All-waiting (got name ∷ workers) h = absurd (omega (arith, h))
All-waiting (ran name ∷ workers) h = absurd (omega (arith, h))
All-waiting (dead name ∷ workers) h = absurd (omega (arith, h))
All-waiting (lost name ∷ workers) h = absurd (omega (arith, h))

nothing_held :
    (e : Setup) (x : Text) (workers : List Worker)
    → sum_of busy workers ≡ 0
    → sum_of (bad_worker e x) workers ≡ 0
nothing_held e x [] h = refl
nothing_held e x (waiting ∷ workers) h = omega (arith, h, nothing_held e x workers)
nothing_held e x (got name ∷ workers) h = absurd (omega (arith, h))
nothing_held e x (ran name ∷ workers) h = absurd (omega (arith, h))
nothing_held e x (dead name ∷ workers) h = absurd (omega (arith, h))
nothing_held e x (lost name ∷ workers) h = absurd (omega (arith, h))

length-nil : (q : List Text) → length q ≡ 0 → q ≡ []
length-nil [] h = refl
length-nil (x ∷ q) h = absurd (omega (arith, h))

-- In every order of the steps: if task_queue.join() has returned, the pattern matches every file,
-- every thread waits for a name (so none has died), and each name is in failed_files as often as it
-- is among the files that are not to be skipped and at which clang-tidy fails.
pub joined-accounts :
    (e : Setup) (files : List Text) (s : State)
    → Reach e files s
    → s.joined ≡ true
    → All (λ name. e.is_asked name ≡ true) files
      × All (λ w. w ≡ waiting) s.workers
      × ((x : Text) → occurrences x s.failed_files ≡ sum_of (bad_name e x) files)
joined-accounts e files s r joined =
    let inv = Reach-Inv r in
    let (none_pending, none_unfinished) = inv.ended joined in
    let idle : sum_of busy s.workers ≡ 0 = omega (arith, inv.counted, none_unfinished) in
    let empty : s.queue ≡ [] = length-nil s.queue (omega (arith, inv.counted, none_unfinished)) in
    (
      All-asked e files (omega (arith, inv.asked, ap (sum_of (unasked e)) none_pending)),
      All-waiting s.workers idle,
      λ x. omega (
        arith,
        inv.settled x,
        ap (sum_of (bad_name e x)) none_pending,
        ap (sum_of (bad_name e x)) empty,
        nothing_held e x s.workers idle,
      ),
    )

none_bad :
    (e : Setup) (files : List Text)
    → ((x : Text) → sum_of (bad_name e x) files ≡ 0)
    → All (λ name. is_bad e name ≡ false) files
none_bad e [] h = tt
none_bad e (name ∷ files) h = elim (Bool-cases (is_bad e name)) [
  | inl bad ↦
      absurd (omega (arith, h name, ap (λ b. one (b && name =t= name)) bad, ap one (=t=_refl name)))
  | inr good ↦ (good, none_bad e files (λ x. omega (arith, h x)))
]

bad_of_none :
    (e : Setup) (files : List Text) (x : Text)
    → All (λ name. is_bad e name ≡ false) files
    → sum_of (bad_name e x) files ≡ 0
bad_of_none e [] x h = refl
bad_of_none e (name ∷ files) x h =
    omega (arith, ap (λ b. one (b && x =t= name)) h.0, bad_of_none e files x h.1)

exit_code-none :
    (failed : List Text) → ((x : Text) → occurrences x failed ≡ 0) → exit_code failed ≡ 0
exit_code-none [] h = refl
exit_code-none (name ∷ failed) h = absurd (omega (arith, h name, ap one (=t=_refl name)))

none-exit_code : (failed : List Text) → exit_code failed ≡ 0 → failed ≡ []
none-exit_code [] h = refl
none-exit_code (name ∷ failed) h = absurd (omega (arith, h))

none_raised :
    (export_raises fix_raises : Bool) (code : ℕ)
    → or_one fix_raises (or_one export_raises code) ≡ 0
    → (code ≡ 0) × (export_raises ≡ false) × (fix_raises ≡ false)
none_raised true true code h = absurd (cc h)
none_raised true false code h = absurd (cc h)
none_raised false true code h = absurd (cc h)
none_raised false false code h = (h, refl, refl)

-- In every order of the steps: if the program is not interrupted from the keyboard, then behind
-- the join the return code is 0 exactly if clang-tidy fails at none of the files that are not to
-- be skipped, and neither the export of the fixes nor applying them raises an exception.
pub return_code-exact :
    (e : Setup) (files : List Text) (s : State) (export_raises fix_raises : Bool)
    → Reach e files s
    → s.joined ≡ true
    → (return_code s export_raises fix_raises ≡ 0)
      ↔ (All (λ name. is_bad e name ≡ false) files × (export_raises ≡ false) × (fix_raises ≡ false))
unfolding return_code
return_code-exact e files s export_raises fix_raises r joined =
    let accounts = (joined-accounts e files s r joined).2 in
    (
      λ zero_code.
          let (zero_exit, exported, fixed) =
            none_raised export_raises fix_raises (exit_code s.failed_files) zero_code in
          let no_failed = none-exit_code s.failed_files zero_exit in
          (
            none_bad e files (λ x. sym (accounts x) ∙ ap (occurrences x) no_failed),
            exported,
            fixed,
          ),
      λ good.
          rw (good.1, good.2)
            (exit_code-none s.failed_files (λ x. accounts x ∙ bad_of_none e files x good.0)),
    )
