-- ===== src/Tests/Examples.antt =====
-- Runs of the counters and elections of sync-examples, right and wrong ones, and their theorems at
-- small sizes.
use cs453_concurrent_algorit.Prelude.{
  ℕ, zero, suc, ◌+◌, ◌<◌, ◌≡◌, ◌∙◌, refl, ltb, true, false, List, [], ◌∷◌, arith, ℕ_discrete, All,
  if◌then◌else◌,
}
use cs453_concurrent_algorit.Prog.{Prog, ret}
use cs453_concurrent_algorit.Prog.Schedule.{schedule, schedule-Reach, schedule-untouched}
use cs453_concurrent_algorit.Stm.End.Result.{if_false}
use cs453_concurrent_algorit.Examples.Lock.{lock_acquire, lock_release}
use cs453_concurrent_algorit.Examples.Counters.{
  count_plainly, count_locked, count_registers, count_atomically, counting, counting_locked,
  counted_up,
}
use cs453_concurrent_algorit.Examples.Counters.Exact.{count_locked-counts, count_atomically-counts}
use cs453_concurrent_algorit.Examples.Elections.{
  elect_plainly, elect_locked, elect_registers, elect_atomically, voting, voting_locked,
  looks_correct,
}
use cs453_concurrent_algorit.Examples.Elections.Outcome.{
  elect_locked-elects, elect_atomically-elects,
}

-- Both threads load 0 before either stores 1.
lost_update : (schedule (0 ∷ 1 ∷ 0 ∷ 1 ∷ []) (counting 2 (count_plainly 1))).shared ≡ 1
unfolding count_plainly ℕ_discrete
lost_update = refl

lost_update_registers : (schedule (0 ∷ 1 ∷ 0 ∷ 1 ∷ []) (counting 2 (count_registers 1))).shared ≡ 1
unfolding count_registers ℕ_discrete
lost_update_registers = refl

-- Both threads see that the round has no leader.
two_leaders :
    looks_correct (schedule (0 ∷ 1 ∷ 0 ∷ 1 ∷ 0 ∷ 1 ∷ []) (voting 1 2 elect_plainly)).shared 0 1
    ≡ false
unfolding elect_plainly looks_correct ℕ_discrete
two_leaders = refl

two_leaders_registers :
    looks_correct (schedule (0 ∷ 1 ∷ 0 ∷ 1 ∷ 0 ∷ 1 ∷ []) (voting 1 2 elect_registers)).shared 0 1
    ≡ false
unfolding elect_registers looks_correct ℕ_discrete
two_leaders_registers = refl

-- The second thread waits for the lock while the first has it.
abbrev turns : List ℕ
turns = 0 ∷ 1 ∷ 0 ∷ 1 ∷ 0 ∷ 0 ∷ 1 ∷ 1 ∷ 1 ∷ 1 ∷ []

turns-two : All (λ i. i < 2) turns
turns-two = ground arith

abbrev votes : List ℕ
votes = 0 ∷ 1 ∷ 0 ∷ 0 ∷ 0 ∷ 0 ∷ 1 ∷ 1 ∷ 1 ∷ []

votes-two : All (λ i. i < 2) votes
votes-two = ground arith

-- There is no third thread.
no_third :
    {S : Type 0} (m : Prog S (Unit {0})) (i : ℕ)
    → (if ltb (suc (suc i)) 2 then m else ret tt) ≡ ret tt
no_third m i = if_false (ltb (suc (suc i)) 2) m (ret tt) (ground arith)

count_locked_run-ended :
    (i : ℕ) → (schedule turns (counting_locked false 2 (count_locked 1))).threads i ≡ ret tt
unfolding count_locked lock_acquire lock_release ℕ_discrete
count_locked_run-ended zero = refl
count_locked_run-ended (suc zero) = refl
count_locked_run-ended (suc (suc i)) =
    schedule-untouched turns (counting_locked false 2 (count_locked 1)) 2 (suc (suc i)) turns-two
      (omega arith)
    ∙ no_third (count_locked 1) i

count_locked-counts_example :
    counted_up 1 2 (schedule turns (counting_locked false 2 (count_locked 1))).shared.data_ ≡ true
count_locked-counts_example =
    count_locked-counts 1 2 false (schedule turns (counting_locked false 2 (count_locked 1)))
      (schedule-Reach turns (counting_locked false 2 (count_locked 1))) count_locked_run-ended

count_atomically_run-ended :
    (i : ℕ) → (schedule turns (counting 2 (count_atomically 1))).threads i ≡ ret tt
unfolding count_atomically ℕ_discrete
count_atomically_run-ended zero = refl
count_atomically_run-ended (suc zero) = refl
count_atomically_run-ended (suc (suc i)) =
    schedule-untouched turns (counting 2 (count_atomically 1)) 2 (suc (suc i)) turns-two
      (omega arith)
    ∙ no_third (count_atomically 1) i

count_atomically-counts_example :
    counted_up 1 2 (schedule turns (counting 2 (count_atomically 1))).shared ≡ true
count_atomically-counts_example =
    count_atomically-counts 1 2 (schedule turns (counting 2 (count_atomically 1)))
      (schedule-Reach turns (counting 2 (count_atomically 1))) count_atomically_run-ended

elect_locked_run-ended :
    (i : ℕ) → (schedule votes (voting_locked false 1 2 elect_locked)).threads i ≡ ret tt
unfolding elect_locked lock_acquire lock_release ℕ_discrete
elect_locked_run-ended zero = refl
elect_locked_run-ended (suc zero) = refl
elect_locked_run-ended (suc (suc i)) =
    schedule-untouched votes (voting_locked false 1 2 elect_locked) 2 (suc (suc i)) votes-two
      (omega arith)
    ∙ no_third (elect_locked (suc (suc i) + 1) 0 1) i

elect_locked-elects_example :
    looks_correct (schedule votes (voting_locked false 1 2 elect_locked)).shared.data_ 0 1 ≡ true
elect_locked-elects_example =
    elect_locked-elects 1 2 false (schedule votes (voting_locked false 1 2 elect_locked))
      (omega arith) (schedule-Reach votes (voting_locked false 1 2 elect_locked))
      elect_locked_run-ended

elect_atomically_run-ended :
    (i : ℕ) → (schedule votes (voting 1 2 elect_atomically)).threads i ≡ ret tt
unfolding elect_atomically ℕ_discrete
elect_atomically_run-ended zero = refl
elect_atomically_run-ended (suc zero) = refl
elect_atomically_run-ended (suc (suc i)) =
    schedule-untouched votes (voting 1 2 elect_atomically) 2 (suc (suc i)) votes-two (omega arith)
    ∙ no_third (elect_atomically (suc (suc i) + 1) 0 1) i

elect_atomically-elects_example :
    looks_correct (schedule votes (voting 1 2 elect_atomically)).shared 0 1 ≡ true
elect_atomically-elects_example =
    elect_atomically-elects 1 2 (schedule votes (voting 1 2 elect_atomically)) (omega arith)
      (schedule-Reach votes (voting 1 2 elect_atomically)) elect_atomically_run-ended
