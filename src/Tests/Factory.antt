-- ===== src/Tests/Factory.antt =====
-- Runs of the producers and consumers of sync-examples, and their theorems at small sizes.
use cs453_concurrent_algorit.Prelude.{ℕ, ◌+◌, ◌≡◌, refl, true, false, List, [], ◌∷◌, ℕ_discrete}
use cs453_concurrent_algorit.Prog.{ret}
use cs453_concurrent_algorit.Prog.Pool.{Pool}
use cs453_concurrent_algorit.Prog.Schedule.{schedule, schedule-Reach}
use cs453_concurrent_algorit.Examples.Lock.{
  Guarded, lock_acquire, lock_release, lock_wait, lock_wake_up,
}
use cs453_concurrent_algorit.Examples.Factory.{
  empty_factory, are_same, each_char, make, take, produce_blindly, consume_blindly, lock_until,
  produce_locked, consume_locked, spin_until, produce_atomically, consume_atomically, wait_until,
  produce_waiting, consume_waiting, pair, two_locked, two_atomic, consumed_right, Factory,
}
use cs453_concurrent_algorit.Examples.Factory.Consumed.{consume_locked-right, consume_waiting-right}
use cs453_concurrent_algorit.Examples.Factory.Atomic.{consume_atomically-right}

-- The consumer is first.
nothing_there :
    consumed_right
      (schedule (1 ∷ 0 ∷ 0 ∷ []) (record {
        shared = empty_factory;
        threads = pair (produce_blindly (λ n. n + 7) 2 1 0 1) (consume_blindly 2 1 0 1);
      })).shared
      1
      0
      1
    ≡ false
unfolding produce_blindly consume_blindly make take each_char are_same consumed_right ℕ_discrete
nothing_there = refl

-- The consumer tries first and has to wait.
abbrev orders : List ℕ
orders = 1 ∷ 1 ∷ 1 ∷ 0 ∷ 0 ∷ 0 ∷ 0 ∷ 0 ∷ 0 ∷ 0 ∷ 1 ∷ 1 ∷ 1 ∷ 1 ∷ 1 ∷ 1 ∷ 1 ∷ []

abbrev locked_pair : Pool (Guarded Factory)
locked_pair = two_locked false (produce_locked 2 (λ n. n + 7) 2 1 0 1) (consume_locked 2 2 1 0 1)

locked_run-ended : (schedule orders locked_pair).threads 1 ≡ ret tt
unfolding produce_locked consume_locked lock_until lock_acquire lock_release make take each_char
    ℕ_discrete
locked_run-ended = refl

consume_locked-right_example :
    consumed_right (schedule orders locked_pair).shared.data_ 1 0 1 ≡ true
consume_locked-right_example =
    consume_locked-right 2 1 1 2 (λ n. n + 7) false (schedule orders locked_pair)
      (schedule-Reach orders locked_pair) locked_run-ended

abbrev waiting_pair : Pool (Guarded Factory)
waiting_pair = two_locked false (produce_waiting 2 (λ n. n + 7) 2 1 0 1) (consume_waiting 2 2 1 0 1)

waiting_run-ended : (schedule orders waiting_pair).threads 1 ≡ ret tt
unfolding produce_waiting consume_waiting wait_until lock_acquire lock_release lock_wait
    lock_wake_up make take each_char ℕ_discrete
waiting_run-ended = refl

consume_waiting-right_example :
    consumed_right (schedule orders waiting_pair).shared.data_ 1 0 1 ≡ true
consume_waiting-right_example =
    consume_waiting-right 2 1 1 2 (λ n. n + 7) false (schedule orders waiting_pair)
      (schedule-Reach orders waiting_pair) waiting_run-ended

abbrev atomic_pair : Pool Factory
atomic_pair = two_atomic (produce_atomically 4 (λ n. n + 7) 2 1 0 1) (consume_atomically 4 2 1 0 1)

atomic_run-ended : (schedule orders atomic_pair).threads 1 ≡ ret tt
unfolding produce_atomically consume_atomically spin_until make take each_char ℕ_discrete
atomic_run-ended = refl

consume_atomically-right_example : consumed_right (schedule orders atomic_pair).shared 1 0 1 ≡ true
consume_atomically-right_example =
    consume_atomically-right 2 1 1 4 (λ n. n + 7) (schedule orders atomic_pair)
      (schedule-Reach orders atomic_pair) atomic_run-ended
