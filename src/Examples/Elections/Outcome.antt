-- ===== src/Examples/Elections/Outcome.antt =====
-- sync-examples/election2.c and election4.c elect one leader in each round.
use cs453_concurrent_algorit.Prelude.{
  ℕ, zero, suc, ◌+◌, ◌<◌, ◌==◌, ◌≡◌, inl, inr, refl, ap, ◌∙◌, subst, Bool, true, false,
  if◌then◌else◌, ltb, arith, Bool-cases,
}
use cs453_concurrent_algorit.Prog.{Prog, ret}
use cs453_concurrent_algorit.Prog.Pool.{Pool, Reach}
use cs453_concurrent_algorit.Prog.Ghost.{Tracks, Ended, Reach-AllTrack}
use cs453_concurrent_algorit.Examples.Lock.{Guarded, given_back, lock_acquire, lock_release}
use cs453_concurrent_algorit.Examples.Lock.Rules.{Rely, Move, Reach-All}
use cs453_concurrent_algorit.Examples.Totals.{total, total-all}
use cs453_concurrent_algorit.Examples.Counters.{unlocked}
use cs453_concurrent_algorit.Examples.Elections.{
  Election, no_leaders, add_leader, elect_locked, elect_atomically, candidates, voting,
  voting_locked, looks_correct,
}
use cs453_concurrent_algorit.Examples.Elections.Leaders.{
  Place, pend, at, Votes, IsFair, Nothing, Votes-IsFair,
}

abbrev Through : ℕ → Bool × Place → Type 0
Through runs (inside, x) = x ≡ at runs false

module _ (runs : ℕ) where
  abbrev Locked : Prog (Guarded Election) (Unit {0}) → Bool × Place → Guarded Election → Type 0
  Locked =
      Tracks (Rely Nothing (Votes runs)) (Move Nothing (Votes runs))
        (Ended (Rely Nothing (Votes runs)) (Move Nothing (Votes runs)) (Through runs))

  elect_locked-Votes :
      (i r n : ℕ) (s : Guarded Election)
      → r + n ≡ runs
      → Locked (elect_locked (i + 1) r n) (false, at r false) s
  unfolding elect_locked lock_acquire lock_release
  elect_locked-Votes i r zero s e = ap (λ k. at k false) (omega (arith, e))
  elect_locked-Votes i r (suc n) s e = λ s1 _ free_lock. (
    (true, at r false),
    Move.takes (ground arith) refl refl,
    λ s2 _ _. elim (Bool-cases (s2.data_.leader r == 0)) [
      | inl free ↦ (
        (true, at r false),
        Move.passes refl refl,
        rw free (λ s3 r3 _. (
          (true, at r true),
          Move.works refl (Votes.wins i going (ap (λ d. d.leader r) (r3.0 refl).1 ∙ ground arith)),
          λ s4 r4 _. (
            (true, at (r + 1) false),
            Move.works refl (Votes.is_counted going),
            λ s5 _ _. (
              (false, at (r + 1) false),
              Move.gives_back refl refl,
              elect_locked-Votes i (r + 1) n (given_back s5) (omega (arith, e)),
            ),
          ),
        )),
      )
      | inr taken ↦ (
        (true, at (r + 1) false),
        Move.works refl (Votes.loses going (ground arith)),
        rw taken (λ s5 _ _. (
          (false, at (r + 1) false),
          Move.gives_back refl refl,
          elect_locked-Votes i (r + 1) n (given_back s5) (omega (arith, e)),
        )),
      )
    ],
  )
    where
      going : r < runs
      going = omega (arith, e)

  abbrev Anyone : Place → Election → Election → Type 0
  Anyone x d d' = Unit {0}

  abbrev Free : Prog Election (Unit {0}) → Place → Election → Type 0
  Free = Tracks Anyone (Votes runs) (Ended Anyone (Votes runs) (λ x. x ≡ at runs false))

  elect_atomically-Votes :
      (i r n : ℕ) (d : Election) → r + n ≡ runs → Free (elect_atomically (i + 1) r n) (at r false) d
  unfolding elect_atomically
  elect_atomically-Votes i r zero d e = ap (λ k. at k false) (omega (arith, e))
  elect_atomically-Votes i r (suc n) d e = λ d1 _ _. elim (Bool-cases (d1.leader r == 0)) [
    | inl free ↦ (
      at r true,
      rw free (Votes.wins i going (ground arith)),
      rw free (λ d2 _ _. (
        at (r + 1) false,
        Votes.is_counted going,
        elect_atomically-Votes i (r + 1) n (add_leader r d2) (omega (arith, e)),
      )),
    )
    | inr taken ↦ (
      at (r + 1) false,
      rw taken (Votes.loses going (ground arith)),
      rw taken (elect_atomically-Votes i (r + 1) n d1 (omega (arith, e))),
    )
  ]
    where
      going : r < runs
      going = omega (arith, e)

  -- The places of the threads at the start: a number that is no thread is through.
  abbrev places : ℕ → ℕ → Place
  places threads i = at (if ltb i threads then 0 else runs) false

  places-IsFair : (threads : ℕ) → IsFair runs threads (places threads) no_leaders
  places-IsFair threads = record {
    counted = λ r.
        omega (
          arith,
          total-all (pend r) (places threads) 0 threads threads (λ i _. refl) (omega arith),
        );
    past = λ i r h q. absurd (ground arith);
    won = λ i h. absurd (ground arith);
    others = λ i h. ground arith;
  }

  one_each :
      (threads : ℕ) (xs : ℕ → Place) (d : Election)
      → 0 < threads
      → IsFair runs threads xs d
      → ((i : ℕ) → xs i ≡ at runs false)
      → (r : ℕ) → r < runs
      → d.nb_leaders r ≡ 1
  one_each threads xs d some_thread fair through r h =
      let none_pending : total (pend r) xs threads ≡ 0 =
        total-all (pend r) xs 0 threads threads (λ i _. ap (pend r) (through i)) (omega arith)
        ∙ omega arith in
      ground (
        arith,
        fair.counted r,
        none_pending,
        fair.past 0 r some_thread (omega (arith, h, ap (λ p. p.round) (through 0))),
      )

  one_each-looks_correct :
      (d : Election) (r n : ℕ)
      → ((k : ℕ) → k < r + n → d.nb_leaders k ≡ 1)
      → looks_correct d r n ≡ true
  unfolding looks_correct
  one_each-looks_correct d r zero h = refl
  one_each-looks_correct d r (suc n) h =
      ground (
        arith,
        h r (omega arith),
        one_each-looks_correct d (r + 1) n (λ k q. h k (omega (arith, q))),
      )

-- The threads of election2.c, at least one, their steps interleaved in any order: when all have
-- returned, every round has exactly one leader, as the check of `main` finds.
pub elect_locked-elects :
    (runs threads : ℕ) (spurious : Bool) (q : Pool (Guarded Election))
    → 0 < threads
    → Reach (voting_locked spurious runs threads elect_locked) q
    → ((i : ℕ) → q.threads i ≡ ret tt)
    → looks_correct q.shared.data_ 0 runs ≡ true
elect_locked-elects runs threads spurious q h run ended =
    let (own, fair, all) =
      Reach-All Nothing (Votes runs) (IsFair runs threads) (λ xs d g i. tt)
        (λ xs i x d d' g v. Votes-IsFair runs threads xs i (xs i) x d d' refl g v) (Through runs)
        (places runs threads) (places-IsFair runs threads) start run in
    one_each-looks_correct runs q.shared.data_ 0 runs (λ k small.
      one_each runs threads (λ i. (own i).1) q.shared.data_ h fair
        (λ i. subst (λ m. Locked runs m (own i) q.shared) (ended i) (all i)) k
        (omega (arith, small)))
  where
    start :
        (i : ℕ)
        → Locked runs
            (candidates runs threads elect_locked i)
            (false, places runs threads i)
            (unlocked spurious no_leaders)
    start i = elim (Bool-cases (ltb i threads)) [
      | inl e ↦ rw e (elect_locked-Votes runs i 0 runs _ (omega arith))
      | inr e ↦ rw e refl
    ]

-- The threads of election4.c, at least one, their steps interleaved in any order: when all have
-- returned, every round has exactly one leader, as the check of `main` finds.
pub elect_atomically-elects :
    (runs threads : ℕ) (q : Pool Election)
    → 0 < threads
    → Reach (voting runs threads elect_atomically) q
    → ((i : ℕ) → q.threads i ≡ ret tt)
    → looks_correct q.shared 0 runs ≡ true
elect_atomically-elects runs threads q h run ended =
    let (own, fair, all) =
      Reach-AllTrack (Anyone runs) (Votes runs) (λ x. x ≡ at runs false) (λ _ _ _ _ _ _. tt)
        (IsFair runs threads) (λ _ _ _ _. tt)
        (λ own i x d d' g v. (Votes-IsFair runs threads own i (own i) x d d' refl g v, λ _ _. tt))
        (places runs threads) (places-IsFair runs threads) start run in
    one_each-looks_correct runs q.shared 0 runs (λ k small.
      one_each runs threads own q.shared h fair
        (λ i. subst (λ m. Free runs m (own i) q.shared) (ended i) (all i)) k (omega (arith, small)))
  where
    start :
        (i : ℕ)
        → Free runs (candidates runs threads elect_atomically i) (places runs threads i) no_leaders
    start i = elim (Bool-cases (ltb i threads)) [
      | inl e ↦ rw e (elect_atomically-Votes runs i 0 runs no_leaders (omega arith))
      | inr e ↦ rw e refl
    ]
