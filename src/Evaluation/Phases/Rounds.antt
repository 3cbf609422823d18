-- ===== src/Evaluation/Phases/Rounds.antt =====
-- grading/grading.cpp, class Sync: every state of a run is in one of the phases.
use cs453_concurrent_algorit.Prelude.{
  ℕ, zero, suc, ◌+◌, ◌^◌, ◌<◌, ◌≡◌, refl, sym, subst, Bool, true, false, Option, none, some, List,
  [], ◌∷◌, ◌++◌, arith, fun_ext, if◌then◌else◌,
}
use cs453_concurrent_algorit.Evaluation.{
  Status, WorkerStage, MasterStage, Flags, SyncState, new_sync, all_resting, worker_step,
  master_step, after_master, after_look, SyncMove, by_worker, by_master, SyncRun, not_yet, and_move,
}
use cs453_concurrent_algorit.Evaluation.Phases.{one, at_stage, master_code, is_latched, Agrees}
use cs453_concurrent_algorit.Evaluation.Phases.Moves.{worker_step-Counted}

-- The message kept is the latest one reported.
abbrev pub Kept : Option ℕ → List ℕ → Type 0
Kept e [] = Unit {0}
Kept e (x ∷ rs) = e ≡ some x

abbrev pub IsInPhase : SyncState → Type 0
IsInPhase s =
    Agrees s.nbworkers s.flags (master_code s.master) (is_latched s.master)
      (λ k. at_stage k s.workers)
    × Kept s.flags.errmsg s.flags.reports

at_stage-split :
    (k : ℕ) (xs : List WorkerStage) (s : WorkerStage) (ys : List WorkerStage)
    → at_stage k (xs ++ ys) + one k s ≡ at_stage k (xs ++ s ∷ ys)
at_stage-split k [] s ys = omega arith
at_stage-split k (x ∷ xs) s ys = omega (arith, at_stage-split k xs s ys)

worker_step-Kept :
    (n : ℕ) (error : Option ℕ) (f : Flags) (s : WorkerStage)
    → Kept f.errmsg f.reports
    → Kept (worker_step n error f s).0.errmsg (worker_step n error f s).0.reports
unfolding worker_step
worker_step-Kept n error f WorkerStage.resting h = h
worker_step-Kept n error f WorkerStage.arriving h = h
worker_step-Kept n error f WorkerStage.last_ready h = h
worker_step-Kept n error f WorkerStage.starting h = h
worker_step-Kept n error f WorkerStage.waiting h = h
worker_step-Kept n none f WorkerStage.running h = h
worker_step-Kept n (some x) f WorkerStage.running h = refl
worker_step-Kept n error f WorkerStage.aborting h = h
worker_step-Kept n error f WorkerStage.notifying h = h
worker_step-Kept n error f WorkerStage.last_done h = h
worker_step-Kept n error f WorkerStage.deciding h = h
worker_step-Kept n error f WorkerStage.succeeding h = h
worker_step-Kept n error f WorkerStage.failing h = h
worker_step-Kept n error f WorkerStage.raising h = h
worker_step-Kept n error f WorkerStage.gone h = h

-- What the master's steps need of the phases: its number and whether it waits, before and after.
module _ (n : ℕ) (c : ℕ → ℕ) (f : Flags) where
  start-Agrees :
      (st : Status)
      → Agrees n (record f { status = st }) 0 0 c
      → Agrees n (record f { status = Status.wait; reports = [] }) 1 1 c
  start-Agrees Status.wait h = ground arith
  start-Agrees Status.run h = ground arith
  start-Agrees Status.abort h = ground arith
  start-Agrees Status.done h = ground arith
  start-Agrees Status.fail h = ground arith
  start-Agrees Status.quit h = ground arith

  join-Agrees :
      (st : Status)
      → Agrees n (record f { status = st }) 0 0 c
      → Agrees n (record f { status = Status.quit }) 4 0 c
  join-Agrees Status.wait h = ground arith
  join-Agrees Status.run h = ground arith
  join-Agrees Status.abort h = ground arith
  join-Agrees Status.done h = ground arith
  join-Agrees Status.fail h = ground arith
  join-Agrees Status.quit h = ground arith

  leave-Agrees :
      (st : Status)
      → Agrees n (record f { status = st }) 3 0 c
      → Agrees n (record f { status = Status.quit }) 4 0 c
  leave-Agrees Status.wait h = ground arith
  leave-Agrees Status.run h = ground arith
  leave-Agrees Status.abort h = ground arith
  leave-Agrees Status.done h = ground arith
  leave-Agrees Status.fail h = ground arith
  leave-Agrees Status.quit h = ground arith

  look-Agrees :
      (st : Status)
      → Agrees n (record f { status = st }) 2 0 c
      → Agrees n
          (record f { status = st })
          (master_code (after_look st))
          (is_latched (after_look st))
          c
  look-Agrees Status.wait h = ground arith
  look-Agrees Status.run h = ground arith
  look-Agrees Status.abort h = ground arith
  look-Agrees Status.done h = ground arith
  look-Agrees Status.fail h = ground arith
  look-Agrees Status.quit h = ground arith

  wake-Agrees :
      (st : Status)
      → Agrees n (record f { status = st; raised = true }) 1 1 c
      → Agrees n (record f { status = st; raised = false }) 2 0 c
  wake-Agrees Status.wait h = ground arith
  wake-Agrees Status.run h = ground arith
  wake-Agrees Status.abort h = ground arith
  wake-Agrees Status.done h = ground arith
  wake-Agrees Status.fail h = ground arith
  wake-Agrees Status.quit h = ground arith

master_step-IsInPhase :
    (n : ℕ) (workers : List WorkerStage) (again : Bool) (f : Flags) (m : MasterStage)
    → IsInPhase (after_master n workers (f, m))
    → IsInPhase (after_master n workers (master_step again f m))
unfolding master_step
master_step-IsInPhase n workers true f MasterStage.calling h =
    (start-Agrees n (λ k. at_stage k workers) f f.status h.0, tt)
master_step-IsInPhase n workers false f MasterStage.calling h =
    (join-Agrees n (λ k. at_stage k workers) f f.status h.0, h.1)
master_step-IsInPhase n workers again f MasterStage.latched h = (woken f.raised h.0, h.1)
  where
    woken :
        (t : Bool)
        → Agrees n (record f { raised = t }) 1 1 (λ k. at_stage k workers)
        → Agrees n
            (record f { raised = false })
            (master_code (if t then MasterStage.looking else MasterStage.latched))
            (is_latched (if t then MasterStage.looking else MasterStage.latched))
            (λ k. at_stage k workers)
    woken true a = wake-Agrees n (λ k. at_stage k workers) f f.status a
    woken false a = a
master_step-IsInPhase n workers again f MasterStage.looking h =
    (look-Agrees n (λ k. at_stage k workers) f f.status h.0, h.1)
master_step-IsInPhase n workers again f MasterStage.leaving h =
    (leave-Agrees n (λ k. at_stage k workers) f f.status h.0, h.1)
master_step-IsInPhase n workers again f MasterStage.joined h = h
master_step-IsInPhase n workers again f MasterStage.thrown h = h

SyncMove-IsInPhase : {s t : SyncState} → SyncMove s t → IsInPhase s → IsInPhase t
SyncMove-IsInPhase (by_master n workers again f m) h = master_step-IsInPhase n workers again f m h
SyncMove-IsInPhase (by_worker n m before after error f s) h = (
  subst (Agrees n (worker_step n error f s).0 (master_code m) (is_latched m))
      (fun_ext (λ k. at_stage-split k before (worker_step n error f s).1 after))
      (worker_step-Counted n (master_code m) (is_latched m) (λ k. at_stage k (before ++ after))
        error f s
        (subst (Agrees n f (master_code m) (is_latched m))
          (fun_ext (λ k. sym (at_stage-split k before s after))) h.0)),
  worker_step-Kept n error f s h.1,
)

at_stage-all : (n : ℕ) → at_stage 0 (all_resting n) ≡ n
at_stage-all zero = refl
at_stage-all (suc n) = omega (arith, at_stage-all n)

at_stage-none : (k : ℕ) → one k WorkerStage.resting ≡ 0 → (n : ℕ) → at_stage k (all_resting n) ≡ 0
at_stage-none k e zero = refl
at_stage-none k e (suc n) = omega (arith, e, at_stage-none k e n)

new_sync-IsInPhase : (n : ℕ) → 0 < n → n < 2 ^ 32 → IsInPhase (new_sync n)
unfolding new_sync
new_sync-IsInPhase n p small = (
  (
    p,
    small,
    (
      refl,
      omega arith,
      (
        omega (arith, at_stage-all n, z 12 refl),
        omega (
          arith,
          z 1 refl,
          z 2 refl,
          z 3 refl,
          z 4 refl,
          z 5 refl,
          z 6 refl,
          z 7 refl,
          z 8 refl,
          z 9 refl,
          z 10 refl,
          z 11 refl,
          z 13 refl,
        ),
        refl,
        omega (arith, z 12 refl),
        omega (arith, z 12 refl),
      ),
    ),
  ),
  tt,
)
  where
    z : (k : ℕ) → one k WorkerStage.resting ≡ 0 → at_stage k (all_resting n) ≡ 0
    z k e = at_stage-none k e n

pub SyncRun-IsInPhase :
    (n : ℕ) {s : SyncState} → 0 < n → n < 2 ^ 32 → SyncRun (new_sync n) s → IsInPhase s
SyncRun-IsInPhase n p small not_yet = new_sync-IsInPhase n p small
SyncRun-IsInPhase n p small (and_move r m) = SyncMove-IsInPhase m (SyncRun-IsInPhase n p small r)
