-- ===== src/Examples/Counters/Exact.antt =====
-- sync-examples/counter2.c and counter4.c count exactly.
use cs453_concurrent_algorit.Prelude.{
  ℕ, zero, suc, ◌+◌, ◌*◌, ◌≤◌, ◌<◌, ◌≡◌, inl, inr, refl, ◌∙◌, subst, Bool, true, false,
  if◌then◌else◌, ltb, arith, Bool-cases,
}
use cs453_concurrent_algorit.Prog.{ret}
use cs453_concurrent_algorit.Prog.Pool.{Pool, Reach, update, update-cases}
use cs453_concurrent_algorit.Prog.Ghost.{Tracks, Ended, Reach-AllTrack}
use cs453_concurrent_algorit.Examples.Lock.{Guarded, given_back, lock_acquire, lock_release}
use cs453_concurrent_algorit.Examples.Lock.Rules.{Rely, Move, Reach-All}
use cs453_concurrent_algorit.Examples.Totals.{total, total-update, total-all}
use cs453_concurrent_algorit.Examples.Counters.{
  count_locked, count_atomically, started, counting, counting_locked, unlocked, counted_up,
}

-- What all the threads have left makes up the rest of the count.
abbrev Sums : ℕ → ℕ → (ℕ → ℕ) → ℕ → Type 0
Sums threads whole left counter =
    (counter + total (λ n. n) left threads ≡ whole) × ((i : ℕ) → threads ≤ i → left i ≡ 0)

abbrev Nothing : ℕ → ℕ → Type 0
Nothing left counter = Unit {0}

-- A round is done and counted.
abbrev Counts : ℕ → ℕ → ℕ → ℕ → Type 0
Counts left left' counter counter' = (left ≡ left' + 1) × (counter' ≡ counter + 1)

Counts-Sums :
    (threads whole : ℕ) (left : ℕ → ℕ) (i x c c' : ℕ)
    → Sums threads whole left c
    → Counts (left i) x c c'
    → Sums threads whole (update left i x) c'
Counts-Sums threads whole left i x c c' (sum, others) (e, one) = (
  omega (arith, total-update (λ n. n) left i x threads counts, sum, one, e),
  λ j h.
      update-cases (λ k y. threads ≤ k → y ≡ 0) left i x j (λ g. absurd (omega (arith, g, counts)))
        (λ n. others j) h,
)
  where
    counts : i < threads
    counts = elim (Bool-cases (ltb i threads)) [
      | inl h ↦ ground arith
      | inr h ↦ absurd (omega (arith, others i (ground arith), e))
    ]

-- The rounds of each thread at the start.
abbrev rounds : ℕ → ℕ → ℕ → ℕ
rounds runs threads i = if ltb i threads then runs else 0

rounds-Sums : (runs threads : ℕ) → Sums threads (runs * threads) (rounds runs threads) 0
rounds-Sums runs threads = (
  omega (
    arith,
    total-all (λ n. n) (rounds runs threads) runs threads threads (λ i h. ground arith)
        (omega arith),
  ),
  λ i h. ground arith,
)

-- Nothing left for anyone: all has been counted.
done-counted :
    (runs threads : ℕ) (left : ℕ → ℕ) (counter : ℕ)
    → Sums threads (runs * threads) left counter
    → ((i : ℕ) → left i ≡ 0)
    → counted_up runs threads counter ≡ true
unfolding counted_up
done-counted runs threads left counter (sum, _) none_left =
    let zero_left : total (λ n. n) left threads ≡ 0 =
      total-all (λ n. n) left 0 threads threads (λ i _. none_left i) (omega arith) ∙ omega arith in
    ground (arith, sum, zero_left)

abbrev AllDone : Bool × ℕ → Type 0
AllDone (inside, left) = left ≡ 0

count_locked-Counts :
    (runs : ℕ) (s : Guarded ℕ)
    → Tracks
        (Rely Nothing Counts)
        (Move Nothing Counts)
        (Ended (Rely Nothing Counts) (Move Nothing Counts) AllDone)
        (count_locked runs)
        (false, runs)
        s
unfolding count_locked lock_acquire lock_release
count_locked-Counts zero s = refl
count_locked-Counts (suc r) s = λ s1 _ e. (
  (true, suc r),
  Move.takes (ground arith) refl refl,
  λ s2 _ _. (
    (true, suc r),
    Move.passes refl refl,
    λ s3 r3 _. (
      (true, r),
      Move.works refl (omega arith, omega (arith, (r3.0 refl).1)),
      λ s4 _ _. ((false, r), Move.gives_back refl refl, count_locked-Counts r (given_back s4)),
    ),
  ),
)

-- The threads of counter2.c, their steps interleaved in any order: when all have returned, the counter
-- is the number of rounds times the number of threads.
pub count_locked-counts :
    (runs threads : ℕ) (spurious : Bool) (q : Pool (Guarded ℕ))
    → Reach (counting_locked spurious threads (count_locked runs)) q
    → ((i : ℕ) → q.threads i ≡ ret tt)
    → counted_up runs threads q.shared.data_ ≡ true
count_locked-counts runs threads spurious q run ended =
    let (own, sums, all) =
      Reach-All Nothing Counts (Sums threads (runs * threads)) (λ xs d h i. tt)
        (λ xs i x d d' h c. Counts-Sums threads (runs * threads) xs i x d d' h c) AllDone
        (rounds runs threads) (rounds-Sums runs threads) start run in
    done-counted runs threads (λ i. (own i).1) q.shared.data_ sums
      (λ i.
        subst
          (λ m.
            Tracks (Rely Nothing Counts) (Move Nothing Counts)
              (Ended (Rely Nothing Counts) (Move Nothing Counts) AllDone) m (own i) q.shared)
          (ended i) (all i))
  where
    start :
        (i : ℕ)
        → Tracks
            (Rely Nothing Counts)
            (Move Nothing Counts)
            (Ended (Rely Nothing Counts) (Move Nothing Counts) AllDone)
            (started threads (count_locked runs) i)
            (false, rounds runs threads i)
            (unlocked spurious 0)
    start i = elim (Bool-cases (ltb i threads)) [
      | inl e ↦ rw e (count_locked-Counts runs (unlocked spurious 0))
      | inr e ↦ rw e refl
    ]

count_atomically-Counts :
    (runs c : ℕ)
    → Tracks
        (λ _ _ _. Unit {0})
        Counts
        (Ended (λ _ _ _. Unit {0}) Counts (λ left. left ≡ 0))
        (count_atomically runs)
        runs
        c
unfolding count_atomically
count_atomically-Counts zero c = refl
count_atomically-Counts (suc r) c =
    λ c1 _ _. (r, (omega arith, refl), count_atomically-Counts r (c1 + 1))

-- The threads of counter4.c, their steps interleaved in any order: when all have returned, the counter
-- is the number of rounds times the number of threads.
pub count_atomically-counts :
    (runs threads : ℕ) (q : Pool ℕ)
    → Reach (counting threads (count_atomically runs)) q
    → ((i : ℕ) → q.threads i ≡ ret tt)
    → counted_up runs threads q.shared ≡ true
count_atomically-counts runs threads q run ended =
    let (own, sums, all) =
      Reach-AllTrack (λ _ _ _. Unit {0}) Counts (λ left. left ≡ 0) (λ _ _ _ _ _ _. tt)
        (Sums threads (runs * threads)) (λ _ _ _ _. tt)
        (λ own i x s u h c. (Counts-Sums threads (runs * threads) own i x s u h c, λ _ _. tt))
        (rounds runs threads) (rounds-Sums runs threads) start run in
    done-counted runs threads own q.shared sums (λ i.
      subst
        (λ m.
          Tracks (λ _ _ _. Unit {0}) Counts (Ended (λ _ _ _. Unit {0}) Counts (λ left. left ≡ 0)) m
            (own i) q.shared)
        (ended i) (all i))
  where
    start :
        (i : ℕ)
        → Tracks
            (λ _ _ _. Unit {0})
            Counts
            (Ended (λ _ _ _. Unit {0}) Counts (λ left. left ≡ 0))
            (started threads (count_atomically runs) i)
            (rounds runs threads i)
            0
    start i = elim (Bool-cases (ltb i threads)) [
      | inl e ↦ rw e (count_atomically-Counts runs 0)
      | inr e ↦ rw e refl
    ]
