-- ===== src/Examples/Factory/Consumed.antt =====
-- sync-examples/procon2.c to procon4.c: the consumer gets what the producer has made.
use cs453_concurrent_algorit.Prelude.{
  ℕ, zero, suc, ◌+◌, ◌≡◌, inl, inr, refl, sym, subst, Bool, true, false, arith, Bool-cases,
}
use cs453_concurrent_algorit.Prog.{Prog, ret, ◌>>=◌}
use cs453_concurrent_algorit.Prog.Pool.{Pool, Reach}
use cs453_concurrent_algorit.Prog.Ghost.{Tracks, Tracks-bind, Ended}
use cs453_concurrent_algorit.Examples.Lock.{
  Guarded, taken, given_back, lock_acquire, lock_release, lock_wait, lock_wake_up, change,
}
use cs453_concurrent_algorit.Examples.Lock.Rules.{Rely, Move, Reach-All}
use cs453_concurrent_algorit.Examples.Counters.{unlocked}
use cs453_concurrent_algorit.Examples.Factory.{
  Factory, empty_factory, make, take, one_produced, one_consumed, has_room, has_data, lock_until,
  produce_locked, consume_locked, wait_until, produce_waiting, consume_waiting, pair, two_locked,
  consumed_right,
}
use cs453_concurrent_algorit.Examples.Factory.Fits.{
  Place, producer, consumer, Works, IsFactory, Works-IsFactory,
}
use cs453_concurrent_algorit.Examples.Factory.Rounds.{
  make-Works, take-Works, Done, starting, Fits-right, starting-IsFactory,
}

-- An ended thread of the lock-based programs, and of procon3.c.
abbrev DoneLocked : ℕ → Bool × Place → Type 0
DoneLocked runs (inside, x) = Done runs x

abbrev Nothing : Place → Factory → Type 0
Nothing x d = Unit {0}

abbrev Anyone : Place → Factory → Factory → Type 0
Anyone x d d' = Unit {0}

module _ (size text runs : ℕ) (random : ℕ → ℕ) where
  abbrev LockedMove : Bool × Place → Bool × Place → Guarded Factory → Guarded Factory → Type 0
  LockedMove = Move Nothing (Works size text random)

  abbrev LockedTo :
      {A : Type 0}
      → (A → Bool × Place → Guarded Factory → Type 0)
      → Prog (Guarded Factory) A
      → Bool × Place
      → Guarded Factory
      → Type 0
  LockedTo Q = Tracks (Rely Nothing (Works size text random)) LockedMove Q

  abbrev Locked : Prog (Guarded Factory) (Unit {0}) → Bool × Place → Guarded Factory → Type 0
  Locked = LockedTo (Ended (Rely Nothing (Works size text random)) LockedMove (DoneLocked runs))

  abbrev Holding : Place → Unit {0} → Bool × Place → Guarded Factory → Type 0
  Holding x _ o u = o ≡ (true, x)

  -- A change to the data under the lock.
  change-rule :
      (f : Factory → Factory) (x x' : Place) (s : Guarded Factory)
      → ((d : Factory) → Works size text random x x' d (f d))
      → LockedTo (λ _ o u. o ≡ (true, x')) (change f) (true, x) s
  change-rule f x x' s w = λ s' _ _. ((true, x'), Move.works refl (w s'.data_), refl)

  -- What may be assumed after a part that ends with the lock held.
  then-Holding :
      (x : Place) (m : Prog (Guarded Factory) (Unit {0}))
      (g : Unit {0} → Prog (Guarded Factory) (Unit {0})) (o : Bool × Place) (s : Guarded Factory)
      → LockedTo (Holding x) m o s
      → ((u : Guarded Factory) → Locked (g tt) (true, x) u)
      → Locked (m >>= g) o s
  then-Holding x m g o s h k =
      Tracks-bind (Rely Nothing (Works size text random)) LockedMove (Holding x)
        (Ended (Rely Nothing (Works size text random)) LockedMove (DoneLocked runs)) m g o s h
        (λ _ p u e. subst (λ q. Locked (g tt) q u) (sym e) (k u))

  -- A test that lets a thread on to its next place.
  abbrev Lets : (Factory → Bool) → Place → Place → Type 0
  Lets test x x' = (d : Factory) → test d ≡ true → Works size text random x x' d d

  lock_until-Holding :
      (tries : ℕ) (test : Factory → Bool) (x x' : Place) (s : Guarded Factory)
      → Lets test x x'
      → LockedTo (Holding x') (lock_until tries test) (false, x) s
  unfolding lock_until lock_acquire lock_release
  lock_until-Holding zero test x x' s w = λ s1 _ e. absurd (ground arith)
  lock_until-Holding (suc tries) test x x' s w = λ s1 _ unheld. (
    (true, x),
    Move.takes (ground arith) refl refl,
    λ s2 _ _. elim (Bool-cases (test s2.data_)) [
      | inl ok ↦ ((true, x'), Move.works refl (w s2.data_ ok), rw ok refl)
      | inr busy ↦ (
        (true, x),
        Move.passes refl refl,
        rw busy (λ s3 _ _. (
          (false, x),
          Move.gives_back refl refl,
          lock_until-Holding tries test x x' (given_back s3) w,
        )),
      )
    ],
  )

  wait_until-Holding :
      (tries : ℕ) (test : Factory → Bool) (x x' : Place) (s : Guarded Factory)
      → Lets test x x'
      → LockedTo (Holding x') (wait_until tries test) (true, x) s
  unfolding wait_until lock_wait
  wait_until-Holding zero test x x' s w = λ s1 _ e. absurd (ground arith)
  wait_until-Holding (suc tries) test x x' s w = λ s2 _ _. elim (Bool-cases (test s2.data_)) [
    | inl ok ↦ ((true, x'), Move.works refl (w s2.data_ ok), rw ok refl)
    | inr busy ↦ (
      (true, x),
      Move.passes refl refl,
      rw busy (λ s3 _ _. (
        (false, x),
        Move.gives_back refl refl,
        λ s4 _ awake. (
          (true, x),
          Move.takes (ground arith) refl refl,
          wait_until-Holding tries test x x' (taken s4) w,
        ),
      )),
    )
  ]

  room-Lets : (r : ℕ) → Lets (has_room size r) (producer r false 0) (producer r true 0)
  room-Lets r d e = Works.has_room (ground arith)

  data-Lets : (r : ℕ) → Lets (has_data r) (consumer r false 0) (consumer r true 0)
  data-Lets r d e = Works.has_data (ground arith)

  -- The end of a round: the counter and the lock.
  count_and_release :
      (f : Factory → Factory) (x x' : Place) (g : Unit {0} → Prog (Guarded Factory) (Unit {0}))
      (s : Guarded Factory)
      → ((d : Factory) → Works size text random x x' d (f d))
      → ((u : Guarded Factory) → Locked (g tt) (false, x') u)
      → Locked (change f >>= λ _. lock_release >>= g) (true, x) s
  unfolding lock_release
  count_and_release f x x' g s w k = λ s1 _ _. (
    (true, x'),
    Move.works refl (w s1.data_),
    λ s2 _ _. ((false, x'), Move.gives_back refl refl, k (given_back s2)),
  )

  produce_locked-Works :
      (tries r n : ℕ) (s : Guarded Factory)
      → Locked (produce_locked tries random size text r n) (false, producer r false 0) s
  unfolding produce_locked
  produce_locked-Works tries r zero s = tt
  produce_locked-Works tries r (suc n) s =
      then-Holding (producer r true 0) (lock_until tries (has_room size r)) _
        (false, producer r false 0) s
        (lock_until-Holding tries (has_room size r) (producer r false 0) (producer r true 0) s
          (room-Lets r))
        (λ u.
          then-Holding (producer r true text) (make change random size text r) _
            (true, producer r true 0) u
            (make-Works size text random (Rely Nothing (Works size text random)) LockedMove change
              (λ x. (true, x)) change-rule r u)
            (λ v.
              count_and_release one_produced (producer r true text) (producer (r + 1) false 0) _ v
                (λ d. Works.publishes) (λ w. produce_locked-Works tries (r + 1) n w)))

  consume_locked-Works :
      (tries r n : ℕ) (s : Guarded Factory)
      → r + n ≡ runs
      → Locked (consume_locked tries size text r n) (false, consumer r false 0) s
  unfolding consume_locked
  consume_locked-Works tries r zero s e = omega (arith, e)
  consume_locked-Works tries r (suc n) s e =
      then-Holding (consumer r true 0) (lock_until tries (has_data r)) _ (false, consumer r false 0)
        s
        (lock_until-Holding tries (has_data r) (consumer r false 0) (consumer r true 0) s
          (data-Lets r))
        (λ u.
          then-Holding (consumer r true text) (take change size text r) _ (true, consumer r true 0)
            u
            (take-Works size text random (Rely Nothing (Works size text random)) LockedMove change
              (λ x. (true, x)) change-rule r u)
            (λ v.
              count_and_release one_consumed (consumer r true text) (consumer (r + 1) false 0) _ v
                (λ d. Works.consumes)
                (λ w. consume_locked-Works tries (r + 1) n w (omega (arith, e)))))

  -- The other threads are told that they may go on.
  wake_up-Locked :
      (x : Place) (g : Unit {0} → Prog (Guarded Factory) (Unit {0})) (s : Guarded Factory)
      → ((u : Guarded Factory) → Locked (g tt) (false, x) u)
      → Locked (lock_wake_up >>= g) (false, x) s
  unfolding lock_wake_up
  wake_up-Locked x g s k =
      λ s1 _ _. ((false, x), Move.passes refl refl, k (record s1 { wake_ups = s1.wake_ups + 1 }))

  acquire-Locked :
      (x : Place) (g : Unit {0} → Prog (Guarded Factory) (Unit {0})) (s : Guarded Factory)
      → ((u : Guarded Factory) → Locked (g tt) (true, x) u)
      → Locked (lock_acquire >>= g) (false, x) s
  unfolding lock_acquire
  acquire-Locked x g s k = λ s1 _ e. ((true, x), Move.takes (ground arith) refl refl, k (taken s1))

  produce_waiting-Works :
      (tries r n : ℕ) (s : Guarded Factory)
      → Locked (produce_waiting tries random size text r n) (false, producer r false 0) s
  unfolding produce_waiting
  produce_waiting-Works tries r zero s = tt
  produce_waiting-Works tries r (suc n) s = acquire-Locked (producer r false 0) _ s (λ s1.
      then-Holding (producer r true 0) (wait_until tries (has_room size r)) _
        (true, producer r false 0) s1
        (wait_until-Holding tries (has_room size r) (producer r false 0) (producer r true 0) s1
          (room-Lets r))
        (λ u.
          then-Holding (producer r true text) (make change random size text r) _
            (true, producer r true 0) u
            (make-Works size text random (Rely Nothing (Works size text random)) LockedMove change
              (λ x. (true, x)) change-rule r u)
            (λ v.
              count_and_release one_produced (producer r true text) (producer (r + 1) false 0) _ v
                (λ d. Works.publishes)
                (λ w.
                  wake_up-Locked (producer (r + 1) false 0) _ w
                    (λ z. produce_waiting-Works tries (r + 1) n z)))))

  consume_waiting-Works :
      (tries r n : ℕ) (s : Guarded Factory)
      → r + n ≡ runs
      → Locked (consume_waiting tries size text r n) (false, consumer r false 0) s
  unfolding consume_waiting
  consume_waiting-Works tries r zero s e = omega (arith, e)
  consume_waiting-Works tries r (suc n) s e = acquire-Locked (consumer r false 0) _ s (λ s1.
      then-Holding (consumer r true 0) (wait_until tries (has_data r)) _ (true, consumer r false 0)
        s1
        (wait_until-Holding tries (has_data r) (consumer r false 0) (consumer r true 0) s1
          (data-Lets r))
        (λ u.
          then-Holding (consumer r true text) (take change size text r) _ (true, consumer r true 0)
            u
            (take-Works size text random (Rely Nothing (Works size text random)) LockedMove change
              (λ x. (true, x)) change-rule r u)
            (λ v.
              count_and_release one_consumed (consumer r true text) (consumer (r + 1) false 0) _ v
                (λ d. Works.consumes)
                (λ w.
                  wake_up-Locked (consumer (r + 1) false 0) _ w
                    (λ z. consume_waiting-Works tries (r + 1) n z (omega (arith, e)))))))

  Locked-right :
      (spurious : Bool) (produce consume : Prog (Guarded Factory) (Unit {0}))
      (q : Pool (Guarded Factory))
      → Locked produce (false, producer 0 false 0) (unlocked spurious empty_factory)
      → Locked consume (false, consumer 0 false 0) (unlocked spurious empty_factory)
      → Reach (two_locked spurious produce consume) q
      → q.threads 1 ≡ ret tt
      → consumed_right q.shared.data_ text 0 runs ≡ true
  Locked-right spurious produce consume q first second run ended =
      let (own, fits, all) =
        Reach-All Nothing (Works size text random) (IsFactory size text random) (λ xs d g i. tt)
          (λ xs i x d d' g w. Works-IsFactory size text random xs i x d d' g w) (DoneLocked runs)
          starting (starting-IsFactory size text random) start run in
      Fits-right size text runs random (own 0).1 (own 1).1 q.shared.data_ fits.fits
        (subst (λ m. Locked m (own 1) q.shared) ended (all 1))
    where
      start :
          (i : ℕ)
          → Locked (pair produce consume i) (false, starting i) (unlocked spurious empty_factory)
      start zero = first
      start (suc zero) = second
      start (suc (suc i)) = tt

-- The producer and the consumer of procon2.c, their steps interleaved in any order and with any number
-- of tries in their busy waits: when the consumer has returned, it has consumed in every round exactly
-- what was produced in it, as the check of `main` finds.
pub consume_locked-right :
    (size text runs tries : ℕ) (random : ℕ → ℕ) (spurious : Bool) (q : Pool (Guarded Factory))
    → Reach
        (two_locked spurious
          (produce_locked tries random size text 0 runs)
          (consume_locked tries size text 0 runs))
        q
    → q.threads 1 ≡ ret tt
    → consumed_right q.shared.data_ text 0 runs ≡ true
consume_locked-right size text runs tries random spurious q =
    Locked-right size text runs random spurious _ _ q
      (produce_locked-Works size text runs random tries 0 runs _)
      (consume_locked-Works size text runs random tries 0 runs _ (omega arith))

-- The producer and the consumer of procon4.c, which sleep until they are woken up or, if the system
-- lets them, wake up by themselves, their steps interleaved in any order: when the consumer has
-- returned, it has consumed in every round exactly what was produced in it, as the check of
-- `main` finds.
pub consume_waiting-right :
    (size text runs tries : ℕ) (random : ℕ → ℕ) (spurious : Bool) (q : Pool (Guarded Factory))
    → Reach
        (two_locked spurious
          (produce_waiting tries random size text 0 runs)
          (consume_waiting tries size text 0 runs))
        q
    → q.threads 1 ≡ ret tt
    → consumed_right q.shared.data_ text 0 runs ≡ true
consume_waiting-right size text runs tries random spurious q =
    Locked-right size text runs random spurious _ _ q
      (produce_waiting-Works size text runs random tries 0 runs _)
      (consume_waiting-Works size text runs random tries 0 runs _ (omega arith))
