-- ===== src/Evaluation/Phases/Promises.antt =====
-- grading/grading.cpp, class Sync: what the master and the workers may rely on.
use cs453_concurrent_algorit.Prelude.{
  ℕ, ◌+◌, ◌^◌, ◌<◌, ◌≡◌, refl, subst, Option, some, List, [], ◌∷◌, arith,
}
use cs453_concurrent_algorit.Evaluation.{
  Status, WorkerStage, MasterStage, Flags, SyncState, new_sync, SyncRun,
}
use cs453_concurrent_algorit.Evaluation.Phases.{at_stage, master_code, is_latched, Agrees}
use cs453_concurrent_algorit.Evaluation.Phases.Rounds.{Kept, IsInPhase, SyncRun-IsInPhase}

-- What the master finds: success if no error was reported, else a failure with the latest error.
abbrev pub Verdict : Status → Option ℕ → List ℕ → Type 0
Verdict st e [] = st ≡ Status.done
Verdict st e (x ∷ reports) = (st ≡ Status.fail) × (e ≡ some x)

found :
    (n : ℕ) (f : Flags) (c : ℕ → ℕ) (st : Status) (rs : List ℕ)
    → Agrees n (record f { status = st; reports = rs }) 2 0 c
    → Kept f.errmsg rs
    → (c 0 ≡ n) × Verdict st f.errmsg rs
found n f c Status.wait rs h k = absurd (ground arith)
found n f c Status.run rs h k = absurd (ground arith)
found n f c Status.abort rs h k = absurd (ground arith)
found n f c Status.quit rs h k = absurd (ground arith)
found n f c Status.done [] h k = (omega (arith, h), refl)
found n f c Status.done (x ∷ rs) h k = absurd (ground arith)
found n f c Status.fail [] h k = absurd (ground arith)
found n f c Status.fail (x ∷ rs) h k = (omega (arith, h), (refl, k))

-- `Sync` with any number of workers from 1 to 2^32 - 1, whatever the order of the steps and whatever
-- errors the workers report: when the master has come through the latch of `master_wait`, every
-- worker has finished and rests, and the status is `Done` if no worker has reported an error since the
-- last `master_notify`, and else `Fail`, with the latest error as the message.
pub master_wait-Verdict :
    (n : ℕ) (s : SyncState)
    → 0 < n
    → n < 2 ^ 32
    → SyncRun (new_sync n) s
    → s.master ≡ MasterStage.looking
    → (at_stage 0 s.workers ≡ s.nbworkers) × Verdict s.flags.status s.flags.errmsg s.flags.reports
master_wait-Verdict n s p small run looks =
    found s.nbworkers s.flags (λ k. at_stage k s.workers) s.flags.status s.flags.reports
      (subst
        (λ m. Agrees s.nbworkers s.flags (master_code m) (is_latched m) (λ k. at_stage k s.workers))
        looks phase.0)
      phase.1
  where
    phase : IsInPhase s
    phase = SyncRun-IsInPhase n p small run

-- The workers that spin.
abbrev pub spinning : Status → List WorkerStage → ℕ
spinning Status.wait workers = at_stage 4 workers
spinning Status.run workers = at_stage 0 workers
spinning Status.abort workers = at_stage 0 workers
spinning Status.done workers = at_stage 0 workers + at_stage 4 workers
spinning Status.fail workers = at_stage 0 workers + at_stage 4 workers
spinning Status.quit workers = at_stage 4 workers
