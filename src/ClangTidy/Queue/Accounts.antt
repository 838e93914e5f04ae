-- ===== src/ClangTidy/Queue/Accounts.antt =====
-- What every step of the threads keeps: the counter of the queue, and where each file stands.
use adv_database_implementat.Base.{
  ℕ, zero, suc, ◌+◌, ◌-◌, Bool, true, false, ◌&&◌, not, List, [], ◌∷◌, ◌++◌, Text, length,
  replicate, ◌=t=◌, sum_of, sum_of-append, length-append, arith, ◌≡◌, refl, ap, ◌∙◌,
  length-replicate,
}
use adv_database_implementat.ClangTidy.Queue.{
  Setup, Worker, waiting, got, ran, dead, lost, State, init, Step, put, put_full, put_none, get,
  skip, run_clean, run_failing, crash, crash_late, task_done, join, here, later, Reach,
}

abbrev pub one : Bool → ℕ
one true = 1
one false = 0

-- How often a name occurs.
abbrev pub occurrences : Text → List Text → ℕ
occurrences x = sum_of (λ y. one (x =t= y))

-- A file that is to be reported.
abbrev pub is_bad : Setup → Text → Bool
is_bad e name = not (e.should_skip name) && e.fails name

abbrev pub bad_name : Setup → Text → Text → ℕ
bad_name e x y = one (is_bad e y && x =t= y)

-- The name in a thread's hands that is not yet reported.
abbrev pub bad_worker : Setup → Text → Worker → ℕ
bad_worker e x waiting = 0
bad_worker e x (got name) = bad_name e x name
bad_worker e x (ran name) = 0
bad_worker e x (dead name) = bad_name e x name
bad_worker e x (lost name) = 0

abbrev pub busy : Worker → ℕ
busy waiting = 0
busy _ = 1

abbrev pub unasked : Setup → Text → ℕ
unasked e name = one (not (e.is_asked name))

pub record Inv (e : Setup) (files : List Text) (s : State) : Type 0 where
  pub counted : s.unfinished ≡ length s.queue + sum_of busy s.workers
  pub settled :
      (x : Text)
      → occurrences x s.failed_files
          + sum_of (bad_name e x) s.pending
          + sum_of (bad_name e x) s.queue
          + sum_of (bad_worker e x) s.workers
        ≡ sum_of (bad_name e x) files
  pub asked : sum_of (unasked e) s.pending ≡ sum_of (unasked e) files
  pub staffed : length s.workers ≡ e.max_task
  pub ended : s.joined ≡ true → (s.pending ≡ []) × (s.unfinished ≡ 0)

sum_of-replicate : (w : Worker → ℕ) (n : ℕ) → w waiting ≡ 0 → sum_of w (replicate n waiting) ≡ 0
sum_of-replicate w zero h = refl
sum_of-replicate w (suc n) h = omega (arith, h, sum_of-replicate w n h)

Inv-init : (e : Setup) (files : List Text) → Inv e files (init e files)
Inv-init e files = record {
  counted = omega (arith, sum_of-replicate busy e.max_task refl);
  settled = λ x. omega (arith, sum_of-replicate (bad_worker e x) e.max_task refl);
  asked = refl;
  staffed = length-replicate e.max_task waiting;
  ended = λ j. absurd (cc);
}

-- The weights of the threads with thread `v` in its place.
pub at_worker :
    (w : Worker → ℕ) {workers : List Worker} (before after : List Worker) (v : Worker)
    → workers ≡ before ++ v ∷ after
    → sum_of w workers ≡ sum_of w before + w v + sum_of w after
at_worker w before after v e = omega (arith, ap (sum_of w) e, sum_of-append w before (v ∷ after))

length_at :
    {workers : List Worker} (before after : List Worker) (v v' : Worker)
    → workers ≡ before ++ v ∷ after
    → length (before ++ v' ∷ after) ≡ length workers
length_at before after v v' e =
    omega (arith, ap length e, length-append before (v ∷ after), length-append before (v' ∷ after))

bad_name-skipped : (e : Setup) (x name : Text) → e.should_skip name ≡ true → bad_name e x name ≡ 0
bad_name-skipped e x name skips = rw skips refl

bad_name-clean :
    (e : Setup) (x name : Text)
    → e.should_skip name ≡ false
    → e.fails name ≡ false
    → bad_name e x name ≡ 0
bad_name-clean e x name runs ok = rw (runs, ok) refl

bad_name-failing :
    (e : Setup) (x name : Text)
    → e.should_skip name ≡ false
    → e.fails name ≡ true
    → bad_name e x name ≡ one (x =t= name)
bad_name-failing e x name runs fails = rw (runs, fails) refl

module _ (e : Setup) (files : List Text) where
  -- A thread moves on: the counter and the reports change by what it held.
  worker-Inv :
      (s : State) (before after : List Worker) (v v' : Worker) (unfinished : ℕ) (failed : List Text)
      → s.workers ≡ before ++ v ∷ after
      → unfinished + busy v ≡ s.unfinished + busy v'
      → ((x : Text)
          → occurrences x failed + bad_worker e x v'
            ≡ occurrences x s.failed_files + bad_worker e x v)
      → (s.unfinished ≡ 0 → unfinished ≡ 0)
      → Inv e files s
      → Inv e files (record s {
        workers = before ++ v' ∷ after;
        unfinished = unfinished;
        failed_files = failed;
      })
  worker-Inv s before after v v' unfinished failed at counts reports stays inv = record {
    counted = omega (
      arith,
      inv.counted,
      counts,
      at_worker busy before after v at,
      sum_of-append busy before (v' ∷ after),
    );
    settled = λ x. omega (
      arith,
      inv.settled x,
      reports x,
      at_worker (bad_worker e x) before after v at,
      sum_of-append (bad_worker e x) before (v' ∷ after),
    );
    asked = inv.asked;
    staffed = length_at before after v v' at ∙ inv.staffed;
    ended = λ j. ((inv.ended j).0, stays (inv.ended j).1);
  }

  pub Step-Inv : {s t : State} → Step e s t → Inv e files s → Inv e files t
  Step-Inv {s} (put name rest p asked room) inv = record {
    counted = omega (arith, inv.counted, length-append s.queue (name ∷ []));
    settled = λ x. omega (
      arith,
      inv.settled x,
      ap (sum_of (bad_name e x)) p,
      sum_of-append (bad_name e x) s.queue (name ∷ []),
    );
    asked = omega (arith, inv.asked, ap (sum_of (unasked e)) p, ap (λ b. one (not b)) asked);
    staffed = inv.staffed;
    ended = λ j. absurd (cc (p, (inv.ended j).0));
  }
  Step-Inv (put_full name rest p asked full) inv = inv
  Step-Inv (put_none name rest p other) inv = inv
  Step-Inv {s} (get before after name rest at q) inv = record {
    counted = omega (
      arith,
      inv.counted,
      ap length q,
      at_worker busy before after waiting at,
      sum_of-append busy before (got name ∷ after),
    );
    settled = λ x. omega (
      arith,
      inv.settled x,
      ap (sum_of (bad_name e x)) q,
      at_worker (bad_worker e x) before after waiting at,
      sum_of-append (bad_worker e x) before (got name ∷ after),
    );
    asked = inv.asked;
    staffed = length_at before after waiting (got name) at ∙ inv.staffed;
    ended = inv.ended;
  }
  Step-Inv {s} (skip before after name at skips) inv =
      worker-Inv s before after (got name) waiting (s.unfinished - 1) s.failed_files at
        (omega (arith, inv.counted, at_worker busy before after (got name) at))
        (λ x. omega (arith, bad_name-skipped e x name skips)) (λ h. omega (arith, h)) inv
  Step-Inv {s} (run_clean before after name at runs ok) inv =
      worker-Inv s before after (got name) (ran name) s.unfinished s.failed_files at refl
        (λ x. omega (arith, bad_name-clean e x name runs ok)) (λ h. h) inv
  Step-Inv {s} (run_failing before after name at runs fails) inv =
      worker-Inv s before after (got name) (ran name) s.unfinished (s.failed_files ++ name ∷ []) at
        refl
        (λ x. omega (
          arith,
          bad_name-failing e x name runs fails,
          sum_of-append (λ y. one (x =t= y)) s.failed_files (name ∷ []),
        ))
        (λ h. h) inv
  Step-Inv {s} (crash before after name at) inv =
      worker-Inv s before after (got name) (dead name) s.unfinished s.failed_files at refl
        (λ x. refl) (λ h. h) inv
  Step-Inv {s} (crash_late before after name at) inv =
      worker-Inv s before after (ran name) (lost name) s.unfinished s.failed_files at refl
        (λ x. refl) (λ h. h) inv
  Step-Inv {s} (task_done before after name at) inv =
      worker-Inv s before after (ran name) waiting (s.unfinished - 1) s.failed_files at
        (omega (arith, inv.counted, at_worker busy before after (ran name) at)) (λ x. refl)
        (λ h. omega (arith, h)) inv
  Step-Inv (join p u) inv = record {
    counted = inv.counted;
    settled = inv.settled;
    asked = inv.asked;
    staffed = inv.staffed;
    ended = λ j. (p, u);
  }

pub Reach-Inv : {e : Setup} {files : List Text} {s : State} → Reach e files s → Inv e files s
Reach-Inv {e} {files} here = Inv-init e files
Reach-Inv {e} {files} (later r st) = Step-Inv e files st (Reach-Inv r)
