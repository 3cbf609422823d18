-- ===== src/Evaluation/Phases.antt =====
-- grading/grading.cpp, class Sync: the phases of a run, by the status.
pub mod Moves
pub mod Rounds
pub mod Promises
use cs453_concurrent_algorit.Prelude.{
  ℕ, zero, suc, ◌+◌, ◌^◌, ◌==◌, ◌≤◌, ◌<◌, ◌≡◌, Bool, true, false, List, [], ◌∷◌, length,
  if◌then◌else◌,
}
use cs453_concurrent_algorit.Evaluation.{Status, WorkerStage, MasterStage, Flags}

-- The stages, numbered.
abbrev pub code : WorkerStage → ℕ
code WorkerStage.resting = 0
code WorkerStage.arriving = 1
code WorkerStage.last_ready = 2
code WorkerStage.starting = 3
code WorkerStage.waiting = 4
code WorkerStage.running = 5
code WorkerStage.aborting = 6
code WorkerStage.notifying = 7
code WorkerStage.last_done = 8
code WorkerStage.deciding = 9
code WorkerStage.succeeding = 10
code WorkerStage.failing = 11
code WorkerStage.raising = 12
code WorkerStage.gone = 13

abbrev pub one : ℕ → WorkerStage → ℕ
one k s = if code s == k then 1 else 0

-- How many workers are at stage `k`.
abbrev pub at_stage : ℕ → List WorkerStage → ℕ
at_stage k [] = 0
at_stage k (s ∷ workers) = one k s + at_stage k workers

abbrev pub master_code : MasterStage → ℕ
master_code MasterStage.calling = 0
master_code MasterStage.latched = 1
master_code MasterStage.looking = 2
master_code MasterStage.leaving = 3
master_code MasterStage.joined = 4
master_code MasterStage.thrown = 5

abbrev pub is_latched : MasterStage → ℕ
is_latched MasterStage.calling = 0
is_latched MasterStage.latched = 1
is_latched MasterStage.looking = 0
is_latched MasterStage.leaving = 0
is_latched MasterStage.joined = 0
is_latched MasterStage.thrown = 0

abbrev pub bit : Bool → ℕ
bit true = 1
bit false = 0

-- The workers gather: `q` of them are counted.
abbrev Gathering : ℕ → ℕ → (ℕ → ℕ) → Type 0
Gathering n q c =
    (c 0 + c 1 + c 2 + c 3 + c 4 ≡ n)
    × (c 5 + c 6 + c 7 + c 8 + c 9 + c 10 + c 11 + c 12 + c 13 ≡ 0)
    × (c 2 + c 3 ≤ 1)
    × (c 3 ≡ 0 → q ≡ c 2 + c 4)
    × (c 3 ≡ 0 → q ≡ n → c 2 ≡ 1)
    × (c 2 ≡ 1 → q ≡ n)
    × (c 3 ≡ 1 → (q ≡ 0) × (c 4 + 1 ≡ n))

-- They run, and `q` of them have finished; `ending` of them are about to set the status, and `never`
-- is 0.
abbrev Working : ℕ → ℕ → ℕ → ℕ → (ℕ → ℕ) → Type 0
Working n q ending never c =
    (c 0 + c 4 + c 5 + c 6 + c 7 + c 8 + c 9 + ending ≡ n)
    × (c 1 + c 2 + c 3 + never + c 12 + c 13 ≡ 0)
    × (c 8 + c 9 + ending ≤ 1)
    × (c 9 + ending ≡ 0 → q ≡ c 0 + c 8)
    × (c 9 + ending ≡ 0 → q ≡ n → c 8 ≡ 1)
    × (c 8 ≡ 1 → q ≡ n)
    × (c 9 + ending ≡ 1 → (q ≡ 0) × (c 0 + 1 ≡ n))

-- They rest, but for the one that raises the latch.
abbrev Resting : ℕ → ℕ → ℕ → ℕ → (ℕ → ℕ) → Type 0
Resting n q raised waits c =
    (c 0 + c 12 ≡ n)
    × (c 1 + c 2 + c 3 + c 4 + c 5 + c 6 + c 7 + c 8 + c 9 + c 10 + c 11 + c 13 ≡ 0)
    × (q ≡ 0)
    × (raised + c 12 ≤ 1)
    × (raised + c 12 ≡ waits)

-- By the status: the counts, `r` errors reported, the latch and the master.
abbrev Phase : ℕ → ℕ → Status → ℕ → ℕ → ℕ → ℕ → (ℕ → ℕ) → Type 0
Phase n q Status.wait r raised m waits c =
    (r ≡ 0) × (raised ≡ 0) × (m ≡ 1) × (waits ≡ 1) × Gathering n q c
Phase n q Status.run r raised m waits c =
    (r ≡ c 6) × (raised ≡ 0) × (m ≡ 1) × (waits ≡ 1) × Working n q (c 10) (c 11) c
Phase n q Status.abort r raised m waits c =
    (0 < r) × (raised ≡ 0) × (m ≡ 1) × (waits ≡ 1) × Working n q (c 11) (c 10) c
Phase n q Status.done r raised m waits c = (r ≡ 0) × (m ≤ 2) × Resting n q raised waits c
Phase n q Status.fail r raised m waits c = (0 < r) × (1 ≤ m) × (m ≤ 3) × Resting n q raised waits c
Phase n q Status.quit r raised m waits c =
    (q ≡ 0)
    × (raised ≡ 0)
    × (m ≡ 4)
    × (waits ≡ 0)
    × (c 0 + c 13 ≡ n)
    × (c 1 + c 2 + c 3 + c 4 + c 5 + c 6 + c 7 + c 8 + c 9 + c 10 + c 11 + c 12 ≡ 0)

abbrev pub Agrees : ℕ → Flags → ℕ → ℕ → (ℕ → ℕ) → Type 0
Agrees n f m waits c =
    (0 < n) × (n < 2 ^ 32) × Phase n f.nbready f.status (length f.reports) (bit f.raised) m waits c

-- The counts of the others, and a worker.
abbrev pub Counted : ℕ → ℕ → ℕ → (ℕ → ℕ) → Flags × WorkerStage → Type 0
Counted n m waits others (f, s) = Agrees n f m waits (λ k. others k + one k s)
