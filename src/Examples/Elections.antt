-- ===== src/Examples/Elections.antt =====
-- sync-examples/election1.c to election4.c: threads that elect a leader in each of a number of rounds.
pub mod Leaders
pub mod Outcome
use cs453_concurrent_algorit.Prelude.{
  ℕ, zero, suc, ◌+◌, ◌==◌, Bool, true, false, if◌then◌else◌, ltb,
}
use cs453_concurrent_algorit.Prog.{Prog, ret, atomic, get, modify, ◌>>=◌, ◌>>◌}
use cs453_concurrent_algorit.Prog.Pool.{Pool}
use cs453_concurrent_algorit.Examples.Lock.{Guarded, lock_acquire, lock_release, look, change}
use cs453_concurrent_algorit.Examples.Counters.{unlocked}

pub record Election : Type 0 where
  pub leader : ℕ → ℕ
  pub nb_leaders : ℕ → ℕ

abbrev pub no_leaders : Election
no_leaders = record { leader = λ _. 0; nb_leaders = λ _. 0 }

abbrev pub set_leader : ℕ → ℕ → Election → Election
set_leader r tid d = record d { leader = λ k. if k == r then tid else d.leader k }

abbrev pub add_leader : ℕ → Election → Election
add_leader r d = record d {
  nb_leaders = λ k. if k == r then d.nb_leaders k + 1 else d.nb_leaders k;
}

-- Round `r` and the `n` rounds after it, on an `int` that is not atomic.
unfoldable pub elect_plainly : ℕ → ℕ → ℕ → Prog Election (Unit {0})
elect_plainly tid r zero = ret tt
elect_plainly tid r (suc n) = get (λ d. d.leader r == 0) >>= λ free.
    (if free then (modify (set_leader r tid) >> modify (add_leader r)) else ret tt) >>= λ _.
    elect_plainly tid (r + 1) n

unfoldable pub elect_locked : ℕ → ℕ → ℕ → Prog (Guarded Election) (Unit {0})
elect_locked tid r zero = ret tt
elect_locked tid r (suc n) = lock_acquire >>= λ _. look (λ d. d.leader r == 0) >>= λ free.
    (if free then (change (set_leader r tid) >> change (add_leader r)) else ret tt) >>= λ _.
    lock_release >>= λ _. elect_locked tid (r + 1) n

-- The same as `elect_plainly`, with an atomic load and an atomic store.
unfoldable pub elect_registers : ℕ → ℕ → ℕ → Prog Election (Unit {0})
elect_registers tid r zero = ret tt
elect_registers tid r (suc n) = get (λ d. d.leader r == 0) >>= λ free.
    (if free then (modify (set_leader r tid) >> modify (add_leader r)) else ret tt) >>= λ _.
    elect_registers tid (r + 1) n

-- `atomic_compare_exchange_strong(&leader[r], &expected, tid)`, where `expected` is 0
abbrev pub take_round : ℕ → ℕ → Prog Election Bool
take_round r tid =
    atomic (λ d. if d.leader r == 0 then set_leader r tid d else d) (λ d. d.leader r == 0)

unfoldable pub elect_atomically : ℕ → ℕ → ℕ → Prog Election (Unit {0})
elect_atomically tid r zero = ret tt
elect_atomically tid r (suc n) = take_round r tid >>= λ won.
    (if won then modify (add_leader r) else ret tt) >>= λ _. elect_atomically tid (r + 1) n

-- The threads that `main` starts, with the numbers from 1 on.
abbrev pub candidates :
    {S : Type 0} → ℕ → ℕ → (ℕ → ℕ → ℕ → Prog S (Unit {0})) → ℕ → Prog S (Unit {0})
candidates runs threads elect i = if ltb i threads then elect (i + 1) 0 runs else ret tt

abbrev pub voting : ℕ → ℕ → (ℕ → ℕ → ℕ → Prog Election (Unit {0})) → Pool Election
voting runs threads elect = record { shared = no_leaders; threads = candidates runs threads elect }

abbrev pub voting_locked :
    Bool → ℕ → ℕ → (ℕ → ℕ → ℕ → Prog (Guarded Election) (Unit {0})) → Pool (Guarded Election)
voting_locked spurious runs threads elect = record {
  shared = unlocked spurious no_leaders;
  threads = candidates runs threads elect;
}

-- The loop of `main` over the rounds from `r` on, which stops at one that has not one leader.
unfoldable pub looks_correct : Election → ℕ → ℕ → Bool
looks_correct d r zero = true
looks_correct d r (suc n) =
    let rest = looks_correct d (r + 1) n in if d.nb_leaders r == 1 then rest else false
