-- ===== src/ClangTidy/Queue/Progress.antt =====
-- That the threads come to the join.
use adv_database_implementat.Base.{
  ℕ, zero, suc, ◌+◌, ◌*◌, ◌<◌, true, not, List, [], ◌∷◌, ◌++◌, Text, length, sum_of, sum_of-append,
  length-append, All, arith, ◌≡◌, refl, ap, ◌⊎◌, inl, inr, Bool-cases,
}
use adv_database_implementat.ClangTidy.Queue.{
  Setup, Worker, waiting, got, ran, dead, lost, State, Step, put, put_full, put_none, get, skip,
  run_clean, run_failing, crash, crash_late, task_done, join, Steps, here, later, Reach,
}
use adv_database_implementat.ClangTidy.Queue.Accounts.{
  one, busy, unasked, Inv, Reach-Inv, Step-Inv, at_worker,
}

-- What is left to do with the name in a thread's hands.
abbrev todo : Worker → ℕ
todo waiting = 0
todo (got name) = 2
todo (ran name) = 1
todo (dead name) = 0
todo (lost name) = 0

abbrev pub measure : State → ℕ
measure s = 4 * length s.pending + 3 * length s.queue + sum_of todo s.workers

abbrev death : Worker → ℕ
death (dead name) = 1
death (lost name) = 1
death _ = 0

-- Replacing one thread's place.
replaced :
    (w : Worker → ℕ) {workers : List Worker} (before after : List Worker) (v v' : Worker)
    → workers ≡ before ++ v ∷ after
    → sum_of w (before ++ v' ∷ after) + w v ≡ sum_of w workers + w v'
replaced w before after v v' e =
    omega (arith, at_worker w before after v e, sum_of-append w before (v' ∷ after))

-- A step changes nothing, is the join, or leaves less to do: at most 4 steps for each file are of
-- the last kind.
pub Step-measure :
    {e : Setup} {s t : State}
    → Step e s t
    → (t ≡ s) ⊎ ((t ≡ record s { joined = true }) ⊎ (measure t < measure s))
Step-measure {s = s} (put name rest p asked room) =
    inr (inr (omega (arith, ap length p, length-append s.queue (name ∷ []))))
Step-measure (put_full name rest p asked full) = inl refl
Step-measure (put_none name rest p other) = inl refl
Step-measure {s = s} (get before after name rest at q) =
    inr (inr (omega (arith, ap length q, replaced todo before after waiting (got name) at)))
Step-measure (skip before after name at skips) =
    inr (inr (omega (arith, replaced todo before after (got name) waiting at)))
Step-measure (run_clean before after name at runs ok) =
    inr (inr (omega (arith, replaced todo before after (got name) (ran name) at)))
Step-measure (run_failing before after name at runs fails) =
    inr (inr (omega (arith, replaced todo before after (got name) (ran name) at)))
Step-measure (crash before after name at) =
    inr (inr (omega (arith, replaced todo before after (got name) (dead name) at)))
Step-measure (crash_late before after name at) =
    inr (inr (omega (arith, replaced todo before after (ran name) (lost name) at)))
Step-measure (task_done before after name at) =
    inr (inr (omega (arith, replaced todo before after (ran name) waiting at)))
Step-measure (join p u) = inr (inl refl)

-- A thread that has work in hand.
data Busy (workers : List Worker) : Type 0 where
  at_got :
      (before after : List Worker) (name : Text)
      → workers ≡ before ++ got name ∷ after
      → Busy workers
  at_ran :
      (before after : List Worker) (name : Text)
      → workers ≡ before ++ ran name ∷ after
      → Busy workers
  none_busy : sum_of busy workers ≡ 0 → Busy workers

Busy-cons : (v : Worker) (workers : List Worker) → busy v ≡ 0 → Busy workers → Busy (v ∷ workers)
Busy-cons v workers idle (at_got before after name at) =
    at_got (v ∷ before) after name (ap (v ∷◌) at)
Busy-cons v workers idle (at_ran before after name at) =
    at_ran (v ∷ before) after name (ap (v ∷◌) at)
Busy-cons v workers idle (none_busy h) = none_busy (omega (arith, idle, h))

find-Busy : (workers : List Worker) → sum_of death workers ≡ 0 → Busy workers
find-Busy [] alive = none_busy refl
find-Busy (waiting ∷ workers) alive =
    Busy-cons waiting workers refl (find-Busy workers (omega (arith, alive)))
find-Busy (got name ∷ workers) alive = at_got [] workers name refl
find-Busy (ran name ∷ workers) alive = at_ran [] workers name refl
find-Busy (dead name ∷ workers) alive = absurd (omega (arith, alive))
find-Busy (lost name ∷ workers) alive = absurd (omega (arith, alive))

-- A thread that has not died.
abbrev pub IsAlive : Worker → Type 0
IsAlive (dead name) = ⊥
IsAlive (lost name) = ⊥
IsAlive _ = Unit

Step-first : {e : Setup} {s t u : State} → Step e s t → Steps e t u → Steps e s u
Step-first st here = later here st
Step-first st (later r last) = later (Step-first st r) last

-- A step that leaves less to do and all threads alive.
record Advance (e : Setup) (s : State) : Type 0 where
  next : State
  step : Step e s next
  less : measure next < measure s
  alive : sum_of death next.workers ≡ 0

advance :
    {e : Setup} {s t : State}
    → Step e s t
    → (measure t < measure s)
    → sum_of death t.workers ≡ 0
    → Advance e s
advance {t = t} st less alive = record { next = t; step = st; less = less; alive = alive }

List-cases :
    (names : List Text)
    → (names ≡ []) ⊎ ((name : Text) × (rest : List Text) × (names ≡ name ∷ rest))
List-cases [] = inl refl
List-cases (name ∷ rest) = inr (name, rest, refl)

first_waiting :
    (workers : List Worker)
    → sum_of busy workers ≡ 0
    → 0 < length workers
    → (after : List Worker) × (workers ≡ waiting ∷ after)
first_waiting [] idle some_worker = absurd (omega (arith, some_worker))
first_waiting (waiting ∷ workers) idle some_worker = (workers, refl)
first_waiting (got name ∷ workers) idle some_worker = absurd (omega (arith, idle))
first_waiting (ran name ∷ workers) idle some_worker = absurd (omega (arith, idle))
first_waiting (dead name ∷ workers) idle some_worker = absurd (omega (arith, idle))
first_waiting (lost name ∷ workers) idle some_worker = absurd (omega (arith, idle))

module _ (e : Setup) (files : List Text) (some_task : 0 < e.max_task) where
  at_queue :
      (s : State)
      → Inv e files s
      → sum_of (unasked e) files ≡ 0
      → sum_of death s.workers ≡ 0
      → sum_of busy s.workers ≡ 0
      → Advance e s ⊎ ((s.pending ≡ []) × (s.unfinished ≡ 0))
  at_queue s inv asked alive idle = elim (List-cases s.queue) [
    | inr (name, rest, q) ↦
        let (after, at) = first_waiting s.workers idle (omega (arith, inv.staffed, some_task)) in
        inl (
          advance (get [] after name rest at q)
            (omega (arith, ap length q, replaced todo [] after waiting (got name) at))
            (omega (arith, alive, replaced death [] after waiting (got name) at)))
    | inl empty ↦ elim (List-cases s.pending) [
      | inl done ↦ inr (done, omega (arith, inv.counted, ap length empty, idle))
      | inr (name, rest, p) ↦ elim (Bool-cases (e.is_asked name)) [
        | inl yes_asked ↦ inl (
            advance (put name rest p yes_asked (omega (arith, ap length empty, some_task)))
              (omega (arith, ap length p, length-append s.queue (name ∷ []))) alive)
        | inr other ↦ absurd (
            omega (arith, asked, inv.asked, ap (sum_of (unasked e)) p, ap (λ b. one (not b)) other))
      ]
    ]
  ]

  at_worker_step :
      (s : State)
      → sum_of death s.workers ≡ 0
      → Busy s.workers
      → Advance e s ⊎ (sum_of busy s.workers ≡ 0)
  at_worker_step s alive (at_got before after name at) = elim (Bool-cases (e.should_skip name)) [
    | inl skips ↦ inl (
        advance (skip before after name at skips)
          (omega (arith, replaced todo before after (got name) waiting at))
          (omega (arith, alive, replaced death before after (got name) waiting at)))
    | inr runs ↦ elim (Bool-cases (e.fails name)) [
      | inl fails ↦ inl (
          advance (run_failing before after name at runs fails)
            (omega (arith, replaced todo before after (got name) (ran name) at))
            (omega (arith, alive, replaced death before after (got name) (ran name) at)))
      | inr ok ↦ inl (
          advance (run_clean before after name at runs ok)
            (omega (arith, replaced todo before after (got name) (ran name) at))
            (omega (arith, alive, replaced death before after (got name) (ran name) at)))
    ]
  ]
  at_worker_step s alive (at_ran before after name at) = inl (
      advance (task_done before after name at)
        (omega (arith, replaced todo before after (ran name) waiting at))
        (omega (arith, alive, replaced death before after (ran name) waiting at)))
  at_worker_step s alive (none_busy idle) = inr idle

  next_step :
      (s : State)
      → Inv e files s
      → sum_of (unasked e) files ≡ 0
      → sum_of death s.workers ≡ 0
      → Advance e s ⊎ ((s.pending ≡ []) × (s.unfinished ≡ 0))
  next_step s inv asked alive = elim (at_worker_step s alive (find-Busy s.workers alive)) [
    | inl moved ↦ inl moved
    | inr idle ↦ at_queue s inv asked alive idle
  ]

  run_to_join :
      (fuel : ℕ) (s : State)
      → measure s < fuel
      → Inv e files s
      → sum_of (unasked e) files ≡ 0
      → sum_of death s.workers ≡ 0
      → (t : State) × Steps e s t × (t.joined ≡ true)
  run_to_join zero s enough inv asked alive = absurd (omega (arith, enough))
  run_to_join (suc fuel) s enough inv asked alive = elim (next_step s inv asked alive) [
    | inr (done, settled) ↦ (record s { joined = true }, later here (join done settled), refl)
    | inl a ↦
        let (t, run, joined) =
          run_to_join fuel a.next (omega (arith, a.less, enough)) (Step-Inv e files a.step inv)
            asked a.alive in
        (t, Step-first a.step run, joined)
  ]

none_unasked :
    (e : Setup) (files : List Text)
    → All (λ name. e.is_asked name ≡ true) files
    → sum_of (unasked e) files ≡ 0
none_unasked e [] h = refl
none_unasked e (name ∷ files) h = omega (arith, ap (λ b. one (not b)) h.0, none_unasked e files h.1)

none_dead : (workers : List Worker) → All IsAlive workers → sum_of death workers ≡ 0
none_dead [] h = refl
none_dead (waiting ∷ workers) h = omega (arith, none_dead workers h.1)
none_dead (got name ∷ workers) h = omega (arith, none_dead workers h.1)
none_dead (ran name ∷ workers) h = omega (arith, none_dead workers h.1)
none_dead (dead name ∷ workers) h = absurd h.0
none_dead (lost name ∷ workers) h = absurd h.0

-- From every state that the threads can come to, whatever the order of the steps before it: if the
-- pattern matches every file, there is a thread and none has died, some further steps lead to the
-- return of task_queue.join().
pub reaches-join :
    (e : Setup) (files : List Text) (s : State)
    → Reach e files s
    → All (λ name. e.is_asked name ≡ true) files
    → All IsAlive s.workers
    → 0 < e.max_task
    → (t : State) × Steps e s t × (t.joined ≡ true)
reaches-join e files s r asked alive some_task =
    run_to_join e files some_task (suc (measure s)) s (omega arith) (Reach-Inv r)
      (none_unasked e files asked) (none_dead s.workers alive)
