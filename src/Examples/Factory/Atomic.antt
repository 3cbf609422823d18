-- ===== src/Examples/Factory/Atomic.antt =====
-- sync-examples/procon3.c, without a lock: the consumer gets what the producer has made.
use cs453_concurrent_algorit.Prelude.{
  ℕ, zero, suc, ◌+◌, ◌≡◌, ◌⊎◌, inl, inr, refl, sym, subst, Bool, true, false, arith, Bool-cases,
}
use cs453_concurrent_algorit.Prog.{Prog, ret, modify, ◌>>=◌}
use cs453_concurrent_algorit.Prog.Pool.{Pool, Reach, update, update_same}
use cs453_concurrent_algorit.Prog.Ghost.{Tracks, Tracks-bind, Ended, Reach-AllTrack}
use cs453_concurrent_algorit.Examples.Factory.{
  Factory, empty_factory, make, take, one_produced, one_consumed, has_room, has_data, spin_until,
  produce_atomically, consume_atomically, pair, two_atomic, consumed_right,
}
use cs453_concurrent_algorit.Examples.Factory.Fits.{
  Place, producer, consumer, Works, IsFactory, Works-IsFactory,
}
use cs453_concurrent_algorit.Examples.Factory.Rounds.{
  make-Works, take-Works, Done, starting, Fits-right, starting-IsFactory,
}

abbrev Anyone : Place → Factory → Factory → Type 0
Anyone x d d' = Unit {0}

module _ (size text runs : ℕ) (random : ℕ → ℕ) where
  -- A step of the ring, or one that leaves the data.
  abbrev MayWork : Place → Place → Factory → Factory → Type 0
  MayWork x x' d d' = ((x' ≡ x) × (d' ≡ d)) ⊎ Works size text random x x' d d'

  abbrev FreeTo :
      {A : Type 0} → (A → Place → Factory → Type 0) → Prog Factory A → Place → Factory → Type 0
  FreeTo Q = Tracks Anyone MayWork Q

  abbrev Free : Prog Factory (Unit {0}) → Place → Factory → Type 0
  Free = FreeTo (Ended Anyone MayWork (Done runs))

  abbrev Gets : Place → Unit {0} → Place → Factory → Type 0
  Gets x _ o u = o ≡ x

  modify-rule :
      (f : Factory → Factory) (x x' : Place) (s : Factory)
      → ((d : Factory) → Works size text random x x' d (f d))
      → FreeTo (λ _ o u. o ≡ x') (modify f) x s
  modify-rule f x x' s w = λ d _ _. (x', inr (w d), refl)

  then_free :
      (x : Place) (m : Prog Factory (Unit {0})) (g : Unit {0} → Prog Factory (Unit {0})) (o : Place)
      (s : Factory)
      → FreeTo (Gets x) m o s
      → ((u : Factory) → Free (g tt) x u)
      → Free (m >>= g) o s
  then_free x m g o s h k =
      Tracks-bind Anyone MayWork (Gets x) (Ended Anyone MayWork (Done runs)) m g o s h
        (λ _ p u e. subst (λ q. Free (g tt) q u) (sym e) (k u))

  spin_until-Gets :
      (tries : ℕ) (test : Factory → Bool) (x x' : Place) (s : Factory)
      → ((d : Factory) → test d ≡ true → Works size text random x x' d d)
      → FreeTo (Gets x') (spin_until tries test) x s
  unfolding spin_until
  spin_until-Gets zero test x x' s w = λ d _ e. absurd (ground arith)
  spin_until-Gets (suc tries) test x x' s w = λ d _ _. elim (Bool-cases (test d)) [
    | inl ok ↦ (x', inr (w d ok), rw ok refl)
    | inr busy ↦ (x, inl (refl, refl), rw busy (spin_until-Gets tries test x x' d w))
  ]

  produce_atomically-Works :
      (tries r n : ℕ) (s : Factory)
      → Free (produce_atomically tries random size text r n) (producer r false 0) s
  unfolding produce_atomically
  produce_atomically-Works tries r zero s = tt
  produce_atomically-Works tries r (suc n) s =
      then_free (producer r true 0) (spin_until tries (has_room size r)) _ (producer r false 0) s
        (spin_until-Gets tries (has_room size r) (producer r false 0) (producer r true 0) s
          (λ d e. Works.has_room (ground arith)))
        (λ u.
          then_free (producer r true text) (make modify random size text r) _ (producer r true 0) u
            (make-Works size text random Anyone MayWork modify (λ x. x) modify-rule r u)
            (λ v d _ _. (
              producer (r + 1) false 0,
              inr Works.publishes,
              produce_atomically-Works tries (r + 1) n (one_produced d),
            )))

  consume_atomically-Works :
      (tries r n : ℕ) (s : Factory)
      → r + n ≡ runs
      → Free (consume_atomically tries size text r n) (consumer r false 0) s
  unfolding consume_atomically
  consume_atomically-Works tries r zero s e = omega (arith, e)
  consume_atomically-Works tries r (suc n) s e =
      then_free (consumer r true 0) (spin_until tries (has_data r)) _ (consumer r false 0) s
        (spin_until-Gets tries (has_data r) (consumer r false 0) (consumer r true 0) s
          (λ d e. Works.has_data (ground arith)))
        (λ u.
          then_free (consumer r true text) (take modify size text r) _ (consumer r true 0) u
            (take-Works size text random Anyone MayWork modify (λ x. x) modify-rule r u)
            (λ v d _ _. (
              consumer (r + 1) false 0,
              inr Works.consumes,
              consume_atomically-Works tries (r + 1) n (one_consumed d) (omega (arith, e)),
            )))

  MayWork-IsFactory :
      (xs : ℕ → Place) (i : ℕ) (x' : Place) (d d' : Factory)
      → IsFactory size text random xs d
      → MayWork (xs i) x' d d'
      → IsFactory size text random (update xs i x') d'
  MayWork-IsFactory xs i x' d d' f (inl (e, same)) =
      rw same (subst (λ ys. IsFactory size text random ys d) (sym (update_same xs i x' (sym e))) f)
  MayWork-IsFactory xs i x' d d' f (inr w) = Works-IsFactory size text random xs i x' d d' f w

-- The producer and the consumer of procon3.c, whose loads and stores take effect in the order of the
-- program, interleaved in any order and with any number of tries in the busy waits: when the
-- consumer has returned, it has consumed in every round exactly what was produced in it, as
-- the check of `main` finds.
pub consume_atomically-right :
    (size text runs tries : ℕ) (random : ℕ → ℕ) (q : Pool Factory)
    → Reach
        (two_atomic
          (produce_atomically tries random size text 0 runs)
          (consume_atomically tries size text 0 runs))
        q
    → q.threads 1 ≡ ret tt
    → consumed_right q.shared text 0 runs ≡ true
consume_atomically-right size text runs tries random q run ended =
    let (own, fits, all) =
      Reach-AllTrack Anyone (MayWork size text runs random) (Done runs) (λ _ _ _ _ _ _. tt)
        (IsFactory size text random) (λ _ _ _ _. tt)
        (λ own i x d d' f w. (MayWork-IsFactory size text runs random own i x d d' f w, λ _ _. tt))
        starting (starting-IsFactory size text random) start run in
    Fits-right size text runs random (own 0) (own 1) q.shared fits.fits
      (subst (λ m. Free size text runs random m (own 1) q.shared) ended (all 1))
  where
    start :
        (i : ℕ)
        → Free size text runs random
            (pair
              (produce_atomically tries random size text 0 runs)
              (consume_atomically tries size text 0 runs)
              i)
            (starting i)
            empty_factory
    start zero = produce_atomically-Works size text runs random tries 0 runs empty_factory
    start (suc zero) =
        consume_atomically-Works size text runs random tries 0 runs empty_factory (omega arith)
    start (suc (suc i)) = tt
