-- ===== src/Evaluation.antt =====
-- grading/grading.cpp, class Sync: how the master starts the workers of the grader together and waits
-- for the last of them, with the steps of `measure` that the master takes between. Each atomic access
-- is one step of one thread; a thread that spins stays where it is. The run time and the time limits
-- are left out: a master that gives up takes no more steps, as does a worker that has thrown.
pub mod Phases
use cs453_concurrent_algorit.Prelude.{
  ℕ, zero, suc, ◌+◌, ◌%◌, ◌^◌, ◌==◌, Bool, true, false, Option, none, some, List, [], ◌∷◌, ◌++◌,
  if◌then◌else◌,
}

pub data Status : Type 0 where
  wait run abort done fail quit : Status

-- A worker spins for the next run; has seen it; is the last, before each of its two stores; spins for
-- the others; runs; before it sets the abort status; before it counts itself; is the last to finish,
-- before it clears the counter, reads the status, sets it (two stages) and raises the latch; has quit.
pub data WorkerStage : Type 0 where
  resting arriving last_ready starting waiting running aborting notifying last_done : WorkerStage
  deciding succeeding failing raising gone : WorkerStage

-- The master is before `master_notify` or `master_join`; waits for the latch; is before it reads the
-- status; has an error and is before `master_join`; has joined; has thrown `Unreachable`.
pub data MasterStage : Type 0 where
  calling latched looking leaving joined thrown : MasterStage

-- The fields of the class, and `reports`, the errors reported since the last `master_notify`, the
-- latest first, which the code does not keep.
pub record Flags : Type 0 where
  pub nbready : ℕ
  pub status : Status
  pub errmsg : Option ℕ
  pub raised : Bool
  pub reports : List ℕ

pub record SyncState : Type 0 where
  pub nbworkers : ℕ
  pub flags : Flags
  pub master : MasterStage
  pub workers : List WorkerStage

abbrev pub all_resting : ℕ → List WorkerStage
all_resting zero = []
all_resting (suc n) = resting ∷ all_resting n

-- The constructor, with that many workers.
unfoldable pub new_sync : ℕ → SyncState
new_sync n = record {
  nbworkers = n;
  flags = record { nbready = 0; status = done; errmsg = none; raised = false; reports = [] };
  master = calling;
  workers = all_resting n;
}

-- The first loop of `worker_wait`
abbrev pub after_rest : Status → WorkerStage
after_rest wait = arriving
after_rest run = resting
after_rest abort = resting
after_rest done = resting
after_rest fail = resting
after_rest quit = gone

-- The second loop of `worker_wait`
abbrev pub after_wait : Status → WorkerStage
after_wait wait = waiting
after_wait run = running
after_wait abort = running
after_wait done = waiting
after_wait fail = waiting
after_wait quit = waiting

-- The status that the last worker sets.
abbrev pub outcome : Status → WorkerStage
outcome wait = succeeding
outcome run = succeeding
outcome abort = failing
outcome done = succeeding
outcome fail = succeeding
outcome quit = succeeding

-- The start of `worker_notify`, with the error of the run, if any.
abbrev pub report : Option ℕ → Flags → Flags × WorkerStage
report none f = (f, notifying)
report (some e) f = (record f { errmsg = some e; reports = e ∷ f.reports }, aborting)

-- `nbready.fetch_add(1)`, an unsigned int
abbrev pub count_in : Flags → Flags
count_in f = record f { nbready = (f.nbready + 1) % 2 ^ 32 }

-- One access by a worker of `worker_wait` and `worker_notify`. `error` is the result of its run.
unfoldable pub worker_step : ℕ → Option ℕ → Flags → WorkerStage → Flags × WorkerStage
worker_step n error f resting = (f, after_rest f.status)
worker_step n error f arriving =
    (count_in f, if (f.nbready + 1) % 2 ^ 32 == n then last_ready else waiting)
worker_step n error f last_ready = (record f { nbready = 0 }, starting)
worker_step n error f starting = (record f { status = run }, running)
worker_step n error f waiting = (f, after_wait f.status)
worker_step n error f running = report error f
worker_step n error f aborting = (record f { status = abort }, notifying)
worker_step n error f notifying =
    (count_in f, if (f.nbready + 1) % 2 ^ 32 == n then last_done else resting)
worker_step n error f last_done = (record f { nbready = 0 }, deciding)
worker_step n error f deciding = (f, outcome f.status)
worker_step n error f succeeding = (record f { status = done }, raising)
worker_step n error f failing = (record f { status = fail }, raising)
worker_step n error f raising = (record f { raised = true }, resting)
worker_step n error f gone = (f, gone)

-- The end of `master_wait`, and where `measure` goes on from it.
abbrev pub after_look : Status → MasterStage
after_look wait = thrown
after_look run = thrown
after_look abort = thrown
after_look done = calling
after_look fail = leaving
after_look quit = thrown

-- One access by the master; `again` says whether it starts another run or joins.
unfoldable pub master_step : Bool → Flags → MasterStage → Flags × MasterStage
master_step true f calling = (record f { status = wait; reports = [] }, latched)
master_step false f calling = (record f { status = quit }, joined)
master_step again f latched = (record f { raised = false }, if f.raised then looking else latched)
master_step again f looking = (f, after_look f.status)
master_step again f leaving = (record f { status = quit }, joined)
master_step again f joined = (f, joined)
master_step again f thrown = (f, thrown)

abbrev pub after_worker :
    ℕ → MasterStage → List WorkerStage → List WorkerStage → Flags × WorkerStage → SyncState
after_worker n m before after (f, stage) = record {
  nbworkers = n;
  flags = f;
  master = m;
  workers = before ++ stage ∷ after;
}

abbrev pub after_master : ℕ → List WorkerStage → Flags × MasterStage → SyncState
after_master n workers (f, m) = record { nbworkers = n; flags = f; master = m; workers = workers }

pub data SyncMove : SyncState → SyncState → Type 0 where
  by_worker :
      (n : ℕ) (m : MasterStage) (before after : List WorkerStage) (error : Option ℕ) (f : Flags)
      (stage : WorkerStage)
      → SyncMove
          (after_worker n m before after (f, stage))
          (after_worker n m before after (worker_step n error f stage))
  by_master :
      (n : ℕ) (workers : List WorkerStage) (again : Bool) (f : Flags) (m : MasterStage)
      → SyncMove (after_master n workers (f, m)) (after_master n workers (master_step again f m))

pub data SyncRun (s : SyncState) : SyncState → Type 0 where
  not_yet : SyncRun s s
  and_move : {t u : SyncState} → SyncRun s t → SyncMove t u → SyncRun s u
