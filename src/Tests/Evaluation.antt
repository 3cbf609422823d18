-- ===== src/Tests/Evaluation.antt =====
-- A run of one worker, which reports an error, and its master.
use cs453_concurrent_algorit.Prelude.{
  ◌≡◌, refl, Bool, true, false, none, some, List, [], ◌∷◌, arith,
}
use cs453_concurrent_algorit.Evaluation.{
  Status, WorkerStage, MasterStage, Flags, SyncState, new_sync, worker_step, master_step,
  after_worker, SyncRun, by_worker, by_master, not_yet, and_move,
}
use cs453_concurrent_algorit.Evaluation.Phases.{at_stage}
use cs453_concurrent_algorit.Evaluation.Phases.Promises.{Verdict, master_wait-Verdict}

abbrev Pair : Type 0
Pair = Flags × WorkerStage × MasterStage

-- The master moves if the Boolean is true, or else the worker, whose run ends in error 5.
abbrev turn : Bool → Pair → Pair
turn true (f, s, m) = ((master_step true f m).0, s, (master_step true f m).1)
turn false (f, s, m) = ((worker_step 1 (some 5) f s).0, (worker_step 1 (some 5) f s).1, m)

abbrev turns : List Bool → Pair → Pair
turns [] c = c
turns (b ∷ bs) c = turns bs (turn b c)

abbrev state_of : Pair → SyncState
state_of (f, s, m) = after_worker 1 m [] [] (f, s)

turns-SyncRun :
    (bs : List Bool) (c : Pair)
    → SyncRun (new_sync 1) (state_of c)
    → SyncRun (new_sync 1) (state_of (turns bs c))
turns-SyncRun [] c r = r
turns-SyncRun (true ∷ bs) (f, s, m) r =
    turns-SyncRun bs (turn true (f, s, m)) (and_move r (by_master 1 (s ∷ []) true f m))
turns-SyncRun (false ∷ bs) (f, s, m) r =
    turns-SyncRun bs (turn false (f, s, m)) (and_move r (by_worker 1 m [] [] (some 5) f s))

abbrev new_pair : Pair
new_pair = (
  record { nbready = 0; status = Status.done; errmsg = none; raised = false; reports = [] },
  WorkerStage.resting,
  MasterStage.calling,
)

-- The master notifies, and the worker sees it.
abbrev begins : List Bool
begins = true ∷ false ∷ false ∷ false ∷ []

-- The worker runs to the end, and the master wakes.
abbrev ends : List Bool
ends = false ∷ false ∷ false ∷ false ∷ false ∷ false ∷ false ∷ false ∷ true ∷ []

abbrev midway : Pair
midway = turns begins new_pair

abbrev at_end : Pair
at_end = turns ends midway

master_wait-Verdict_example :
    (at_stage 0 (state_of at_end).workers ≡ 1)
    × Verdict
        (state_of at_end).flags.status
        (state_of at_end).flags.errmsg
        (state_of at_end).flags.reports
unfolding worker_step master_step new_sync
master_wait-Verdict_example =
    master_wait-Verdict 1 (state_of at_end) (omega arith) (omega arith)
      (turns-SyncRun ends midway (turns-SyncRun begins new_pair not_yet)) refl
