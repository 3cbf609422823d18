-- ===== src/Tests/Ownership.antt =====
-- One thread writes while another reads: what the lock words say between two states of the run.
use cs453_concurrent_algorit.Prelude.{ℕ, zero, suc, ◌/◌, ◌≤◌, ◌≡◌, [], ◌∷◌, arith}
use cs453_concurrent_algorit.Prog.Pool.{Pool}
use cs453_concurrent_algorit.Prog.Schedule.{schedule, schedule-Reach}
use cs453_concurrent_algorit.Region.{Loc, Shared}
use cs453_concurrent_algorit.Stm.Ownership.{Even}
use cs453_concurrent_algorit.Stm.Ownership.Commit.{AllNoAllocs}
use cs453_concurrent_algorit.Stm.Ownership.Contents.{sessions, Reach-contents}
use cs453_concurrent_algorit.Tests.{idle, threads}

abbrev middle : Pool Shared
middle = schedule (0 ∷ 0 ∷ 1 ∷ 0 ∷ 1 ∷ []) (sessions idle threads)

abbrev final : Pool Shared
final = schedule (0 ∷ 1 ∷ 0 ∷ 0 ∷ 0 ∷ 0 ∷ 0 ∷ 0 ∷ 0 ∷ []) middle

threads-AllNoAllocs : (i : ℕ) → AllNoAllocs (threads i).1
threads-AllNoAllocs zero = (tt, tt)
threads-AllNoAllocs (suc i) = ((λ vs. tt), tt)

Reach-contents_example :
    (middle.shared.global_version ≤ final.shared.global_version)
    × ((l : Loc) → middle.shared.locks l / 2 ≤ final.shared.locks l / 2)
    × ((l : Loc)
        → Even (middle.shared.locks l)
        → final.shared.locks l ≡ middle.shared.locks l
        → final.shared.words l ≡ middle.shared.words l)
Reach-contents_example =
    Reach-contents idle threads middle final (λ l. omega arith) threads-AllNoAllocs
      (schedule-Reach (0 ∷ 0 ∷ 1 ∷ 0 ∷ 1 ∷ []) (sessions idle threads))
      (schedule-Reach (0 ∷ 1 ∷ 0 ∷ 0 ∷ 0 ∷ 0 ∷ 0 ∷ 0 ∷ 0 ∷ []) middle)
