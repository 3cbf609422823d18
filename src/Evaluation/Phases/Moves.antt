-- ===== src/Evaluation/Phases/Moves.antt =====
-- grading/grading.cpp, class Sync: the steps of the workers keep the phases.
use cs453_concurrent_algorit.Prelude.{ℕ, Bool, Option, none, some, List, arith}
use cs453_concurrent_algorit.Evaluation.{Status, WorkerStage, Flags, worker_step}
use cs453_concurrent_algorit.Evaluation.Phases.{Counted}

abbrev flags_at : Status → ℕ → Option ℕ → Bool → List ℕ → Flags
flags_at st q e t rs = record { nbready = q; status = st; errmsg = e; raised = t; reports = rs }

module _ (n m waits : ℕ) (others : ℕ → ℕ) (q : ℕ) (e : Option ℕ) (t : Bool) (rs : List ℕ) where
  from_wait :
      (error : Option ℕ) (s : WorkerStage)
      → Counted n m waits others (flags_at Status.wait q e t rs, s)
      → Counted n m waits others (worker_step n error (flags_at Status.wait q e t rs) s)
  unfolding worker_step
  from_wait error WorkerStage.resting h = ground arith
  from_wait error WorkerStage.arriving h = ground arith
  from_wait error WorkerStage.last_ready h = ground arith
  from_wait error WorkerStage.starting h = ground arith
  from_wait error WorkerStage.waiting h = ground arith
  from_wait none WorkerStage.running h = ground arith
  from_wait (some x) WorkerStage.running h = ground arith
  from_wait error WorkerStage.aborting h = ground arith
  from_wait error WorkerStage.notifying h = ground arith
  from_wait error WorkerStage.last_done h = ground arith
  from_wait error WorkerStage.deciding h = ground arith
  from_wait error WorkerStage.succeeding h = ground arith
  from_wait error WorkerStage.failing h = ground arith
  from_wait error WorkerStage.raising h = ground arith
  from_wait error WorkerStage.gone h = ground arith

  from_run :
      (error : Option ℕ) (s : WorkerStage)
      → Counted n m waits others (flags_at Status.run q e t rs, s)
      → Counted n m waits others (worker_step n error (flags_at Status.run q e t rs) s)
  unfolding worker_step
  from_run error WorkerStage.resting h = ground arith
  from_run error WorkerStage.arriving h = ground arith
  from_run error WorkerStage.last_ready h = ground arith
  from_run error WorkerStage.starting h = ground arith
  from_run error WorkerStage.waiting h = ground arith
  from_run none WorkerStage.running h = ground arith
  from_run (some x) WorkerStage.running h = ground arith
  from_run error WorkerStage.aborting h = ground arith
  from_run error WorkerStage.notifying h = ground arith
  from_run error WorkerStage.last_done h = ground arith
  from_run error WorkerStage.deciding h = ground arith
  from_run error WorkerStage.succeeding h = ground arith
  from_run error WorkerStage.failing h = ground arith
  from_run error WorkerStage.raising h = ground arith
  from_run error WorkerStage.gone h = ground arith

  from_abort :
      (error : Option ℕ) (s : WorkerStage)
      → Counted n m waits others (flags_at Status.abort q e t rs, s)
      → Counted n m waits others (worker_step n error (flags_at Status.abort q e t rs) s)
  unfolding worker_step
  from_abort error WorkerStage.resting h = ground arith
  from_abort error WorkerStage.arriving h = ground arith
  from_abort error WorkerStage.last_ready h = ground arith
  from_abort error WorkerStage.starting h = ground arith
  from_abort error WorkerStage.waiting h = ground arith
  from_abort none WorkerStage.running h = ground arith
  from_abort (some x) WorkerStage.running h = ground arith
  from_abort error WorkerStage.aborting h = ground arith
  from_abort error WorkerStage.notifying h = ground arith
  from_abort error WorkerStage.last_done h = ground arith
  from_abort error WorkerStage.deciding h = ground arith
  from_abort error WorkerStage.succeeding h = ground arith
  from_abort error WorkerStage.failing h = ground arith
  from_abort error WorkerStage.raising h = ground arith
  from_abort error WorkerStage.gone h = ground arith

  from_done :
      (error : Option ℕ) (s : WorkerStage)
      → Counted n m waits others (flags_at Status.done q e t rs, s)
      → Counted n m waits others (worker_step n error (flags_at Status.done q e t rs) s)
  unfolding worker_step
  from_done error WorkerStage.resting h = ground arith
  from_done error WorkerStage.arriving h = ground arith
  from_done error WorkerStage.last_ready h = ground arith
  from_done error WorkerStage.starting h = ground arith
  from_done error WorkerStage.waiting h = ground arith
  from_done none WorkerStage.running h = ground arith
  from_done (some x) WorkerStage.running h = ground arith
  from_done error WorkerStage.aborting h = ground arith
  from_done error WorkerStage.notifying h = ground arith
  from_done error WorkerStage.last_done h = ground arith
  from_done error WorkerStage.deciding h = ground arith
  from_done error WorkerStage.succeeding h = ground arith
  from_done error WorkerStage.failing h = ground arith
  from_done error WorkerStage.raising h = ground arith
  from_done error WorkerStage.gone h = ground arith

  from_fail :
      (error : Option ℕ) (s : WorkerStage)
      → Counted n m waits others (flags_at Status.fail q e t rs, s)
      → Counted n m waits others (worker_step n error (flags_at Status.fail q e t rs) s)
  unfolding worker_step
  from_fail error WorkerStage.resting h = ground arith
  from_fail error WorkerStage.arriving h = ground arith
  from_fail error WorkerStage.last_ready h = ground arith
  from_fail error WorkerStage.starting h = ground arith
  from_fail error WorkerStage.waiting h = ground arith
  from_fail none WorkerStage.running h = ground arith
  from_fail (some x) WorkerStage.running h = ground arith
  from_fail error WorkerStage.aborting h = ground arith
  from_fail error WorkerStage.notifying h = ground arith
  from_fail error WorkerStage.last_done h = ground arith
  from_fail error WorkerStage.deciding h = ground arith
  from_fail error WorkerStage.succeeding h = ground arith
  from_fail error WorkerStage.failing h = ground arith
  from_fail error WorkerStage.raising h = ground arith
  from_fail error WorkerStage.gone h = ground arith

  from_quit :
      (error : Option ℕ) (s : WorkerStage)
      → Counted n m waits others (flags_at Status.quit q e t rs, s)
      → Counted n m waits others (worker_step n error (flags_at Status.quit q e t rs) s)
  unfolding worker_step
  from_quit error WorkerStage.resting h = ground arith
  from_quit error WorkerStage.arriving h = ground arith
  from_quit error WorkerStage.last_ready h = ground arith
  from_quit error WorkerStage.starting h = ground arith
  from_quit error WorkerStage.waiting h = ground arith
  from_quit none WorkerStage.running h = ground arith
  from_quit (some x) WorkerStage.running h = ground arith
  from_quit error WorkerStage.aborting h = ground arith
  from_quit error WorkerStage.notifying h = ground arith
  from_quit error WorkerStage.last_done h = ground arith
  from_quit error WorkerStage.deciding h = ground arith
  from_quit error WorkerStage.succeeding h = ground arith
  from_quit error WorkerStage.failing h = ground arith
  from_quit error WorkerStage.raising h = ground arith
  from_quit error WorkerStage.gone h = ground arith

-- One step of a worker.
pub worker_step-Counted :
    (n m waits : ℕ) (others : ℕ → ℕ) (error : Option ℕ) (f : Flags) (s : WorkerStage)
    → Counted n m waits others (f, s)
    → Counted n m waits others (worker_step n error f s)
worker_step-Counted n m waits others error f s h = by_status f.status h
  where
    by_status :
        (st : Status)
        → Counted n m waits others (flags_at st f.nbready f.errmsg f.raised f.reports, s)
        → Counted n m waits others
            (worker_step n error (flags_at st f.nbready f.errmsg f.raised f.reports) s)
    by_status Status.wait h =
        from_wait n m waits others f.nbready f.errmsg f.raised f.reports error s h
    by_status Status.run h =
        from_run n m waits others f.nbready f.errmsg f.raised f.reports error s h
    by_status Status.abort h =
        from_abort n m waits others f.nbready f.errmsg f.raised f.reports error s h
    by_status Status.done h =
        from_done n m waits others f.nbready f.errmsg f.raised f.reports error s h
    by_status Status.fail h =
        from_fail n m waits others f.nbready f.errmsg f.raised f.reports error s h
    by_status Status.quit h =
        from_quit n m waits others f.nbready f.errmsg f.raised f.reports error s h
