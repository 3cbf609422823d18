-- ===== src/Prog/Schedule.antt =====
-- Interleavings as schedules: the pool after the threads have been picked in a given order. A thread
-- that has ended, has stopped or is blocked passes.
use cs453_concurrent_algorit.Prelude.{
  ℕ, ◌≤◌, ◌<◌, ◌≡◌, ◌≢◌, ◌∙◌, refl, arith, All, List, [], ◌∷◌, Bool-cases, inl, inr, if◌then◌else◌,
}
use cs453_concurrent_algorit.Prog.{Prog, ret, fault, act}
use cs453_concurrent_algorit.Prog.Pool.{Pool, Step, Reach, update, update_there}

abbrev pub moved : {S : Type 0} → Pool S → ℕ → Prog S (Unit {0}) → Pool S
moved p i (ret a) = p
moved p i fault = p
moved p i (act en f k) =
    if en p.shared
    then record { shared = f p.shared; threads = update p.threads i (k p.shared) }
    else p

abbrev pub schedule : {S : Type 0} → List ℕ → Pool S → Pool S
schedule [] p = p
schedule (i ∷ is) p = schedule is (moved p i (p.threads i))

moved-Reach :
    {S : Type 0} (p q : Pool S) (i : ℕ) (m : Prog S (Unit {0}))
    → q.threads i ≡ m
    → Reach p q
    → Reach p (moved q i m)
moved-Reach p q i (ret a) e r = r
moved-Reach p q i fault e r = r
moved-Reach p q i (act en f k) e r = elim (Bool-cases (en q.shared)) [
  | inl on ↦ rw on (Reach.next r (Step.pick i e on))
  | inr off ↦ rw off r
]

schedule-Reach_from :
    {S : Type 0} (is : List ℕ) (p q : Pool S) → Reach p q → Reach p (schedule is q)
schedule-Reach_from [] p q r = r
schedule-Reach_from (i ∷ is) p q r =
    schedule-Reach_from is p (moved q i (q.threads i)) (moved-Reach p q i (q.threads i) refl r)

-- What a schedule leads to can be reached.
pub schedule-Reach : {S : Type 0} (is : List ℕ) (p : Pool S) → Reach p (schedule is p)
schedule-Reach is p = schedule-Reach_from is p p Reach.here

moved-untouched :
    {S : Type 0} (p : Pool S) (i j : ℕ) (m : Prog S (Unit {0}))
    → i ≢ j
    → (moved p i m).threads j ≡ p.threads j
moved-untouched p i j (ret a) n = refl
moved-untouched p i j fault n = refl
moved-untouched p i j (act en f k) n = elim (Bool-cases (en p.shared)) [
  | inl on ↦ rw on (update_there p.threads i (k p.shared) j n)
  | inr off ↦ rw off refl
]

-- A schedule of the first `n` threads leaves the others where they were.
pub schedule-untouched :
    {S : Type 0} (is : List ℕ) (p : Pool S) (n j : ℕ)
    → All (λ i. i < n) is
    → n ≤ j
    → (schedule is p).threads j ≡ p.threads j
schedule-untouched [] p n j h q = refl
schedule-untouched (i ∷ is) p n j h q =
    schedule-untouched is (moved p i (p.threads i)) n j h.1 q
    ∙ moved-untouched p i j (p.threads i) (λ e. absurd (omega (arith, h.0, q, e)))
