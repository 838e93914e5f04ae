-- ===== src/ClangTidy/Queue.antt =====
-- The threads of lab1_External_Sort/script/run_clang_tidy.py: `main` puts the names of the files
-- into a bounded queue.Queue, `max_task` threads in `run_tidy` take them out, and `main` waits in
-- task_queue.join(). A step is one call on the queue, or one run of clang-tidy.
-- `unfinished` is the counter of the queue that put() raises, task_done() lowers, and join() waits
-- for. The lock in `run_tidy` guards the output only, and is left out with it.
pub mod Accounts
pub mod Safety
pub mod Progress
use adv_database_implementat.Base.{
  ℕ, suc, ◌-◌, ◌≤◌, ◌<◌, Bool, true, false, List, [], ◌∷◌, ◌++◌, Text, length, replicate,
  if◌then◌else◌, ◌≡◌,
}

-- What the threads ask of the outside: file_name_re.search, CheckConfig.should_skip, whether
-- clang-tidy ends with another status than 0, and the number of threads.
pub record Setup : Type 0 where
  pub is_asked : Text → Bool
  pub should_skip : Text → Bool
  pub fails : Text → Bool
  pub max_task : ℕ

-- Where a thread stands in the loop of run_tidy.
pub data Worker : Type 0 where
  -- in queue.get()
  waiting : Worker
  -- with a name, before the call of clang-tidy
  got : Text → Worker
  -- behind the call, before queue.task_done()
  ran : Text → Worker
  -- ended by an exception before the call of clang-tidy, or of subprocess.Popen
  dead : Text → Worker
  -- ended by an exception in the decoding of the output
  lost : Text → Worker

pub record State : Type 0 where
  -- the files that `main` has still to put
  pub pending : List Text
  pub queue : List Text
  pub unfinished : ℕ
  pub workers : List Worker
  pub failed_files : List Text
  -- whether task_queue.join() has returned
  pub joined : Bool

abbrev pub init : Setup → List Text → State
init e files = record {
  pending = files;
  queue = [];
  unfinished = 0;
  workers = replicate e.max_task waiting;
  failed_files = [];
  joined = false;
}

pub data Step (e : Setup) (s : State) : State → Type 0 where
  put :
      (name : Text) (rest : List Text)
      → s.pending ≡ name ∷ rest
      → e.is_asked name ≡ true
      → length s.queue < e.max_task
      → Step e s
          (record s { pending = rest; queue = s.queue ++ name ∷ []; unfinished = suc s.unfinished })
  -- queue.Full after the timeout: the loop tries again
  put_full :
      (name : Text) (rest : List Text)
      → s.pending ≡ name ∷ rest
      → e.is_asked name ≡ true
      → e.max_task ≤ length s.queue
      → Step e s s
  -- a name that the pattern does not match: put_file stays False, and the loop tries again
  put_none :
      (name : Text) (rest : List Text)
      → s.pending ≡ name ∷ rest
      → e.is_asked name ≡ false
      → Step e s s
  get :
      (before after : List Worker) (name : Text) (rest : List Text)
      → s.workers ≡ before ++ waiting ∷ after
      → s.queue ≡ name ∷ rest
      → Step e s (record s { workers = before ++ got name ∷ after; queue = rest })
  skip :
      (before after : List Worker) (name : Text)
      → s.workers ≡ before ++ got name ∷ after
      → e.should_skip name ≡ true
      → Step e s (record s { workers = before ++ waiting ∷ after; unfinished = s.unfinished - 1 })
  run_clean :
      (before after : List Worker) (name : Text)
      → s.workers ≡ before ++ got name ∷ after
      → e.should_skip name ≡ false
      → e.fails name ≡ false
      → Step e s (record s { workers = before ++ ran name ∷ after })
  run_failing :
      (before after : List Worker) (name : Text)
      → s.workers ≡ before ++ got name ∷ after
      → e.should_skip name ≡ false
      → e.fails name ≡ true
      → Step e s (record s {
        workers = before ++ ran name ∷ after;
        failed_files = s.failed_files ++ name ∷ [];
      })
  crash :
      (before after : List Worker) (name : Text)
      → s.workers ≡ before ++ got name ∷ after
      → Step e s (record s { workers = before ++ dead name ∷ after })
  crash_late :
      (before after : List Worker) (name : Text)
      → s.workers ≡ before ++ ran name ∷ after
      → Step e s (record s { workers = before ++ lost name ∷ after })
  task_done :
      (before after : List Worker) (name : Text)
      → s.workers ≡ before ++ ran name ∷ after
      → Step e s (record s { workers = before ++ waiting ∷ after; unfinished = s.unfinished - 1 })
  join : s.pending ≡ [] → s.unfinished ≡ 0 → Step e s (record s { joined = true })

-- The states behind a state, and those of a run over some files.
pub data Steps (e : Setup) (s : State) : State → Type 0 where
  here : Steps e s s
  later : {t u : State} → Steps e s t → Step e t u → Steps e s u

abbrev pub Reach : Setup → List Text → State → Type 0
Reach e files = Steps e (init e files)

abbrev pub exit_code : List Text → ℕ
exit_code [] = 0
exit_code (name ∷ names) = 1

-- `return_code=1` in the handler of an exception.
abbrev pub or_one : Bool → ℕ → ℕ
or_one raises code = if raises then 1 else code

-- The return code of `main` from the join on: what the join leaves, and whether writing the fixes
-- (with --export-fixes) and applying them (with --fix) raises an exception.
unfoldable pub return_code : State → Bool → Bool → ℕ
return_code s export_raises fix_raises =
    or_one fix_raises (or_one export_raises (exit_code s.failed_files))
