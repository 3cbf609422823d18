-- ===== src/Barrier/Phases.antt =====
-- grading/common.hpp: the two phases of the barrier.
use cs453_concurrent_algorit.Prelude.{
  ℕ, zero, suc, ◌+◌, ◌^◌, ◌≤◌, ◌<◌, ◌≡◌, refl, sym, subst, List, [], ◌∷◌, ◌++◌, arith,
}
use cs453_concurrent_algorit.Barrier.{
  Mode, enter, leave, Stage, outside, last_in, entering, inside, last_out, leaving, Barrier,
  all_outside, new_barrier, sync_step, after_step, Sync, moves, Syncs, none_yet, and_then,
}

-- How many threads are at each stage.
abbrev pub is_outside : Stage → ℕ
is_outside outside = 1
is_outside last_in = 0
is_outside entering = 0
is_outside inside = 0
is_outside last_out = 0
is_outside leaving = 0

abbrev pub is_last_in : Stage → ℕ
is_last_in outside = 0
is_last_in last_in = 1
is_last_in entering = 0
is_last_in inside = 0
is_last_in last_out = 0
is_last_in leaving = 0

abbrev pub is_entering : Stage → ℕ
is_entering outside = 0
is_entering last_in = 0
is_entering entering = 1
is_entering inside = 0
is_entering last_out = 0
is_entering leaving = 0

abbrev pub is_inside : Stage → ℕ
is_inside outside = 0
is_inside last_in = 0
is_inside entering = 0
is_inside inside = 1
is_inside last_out = 0
is_inside leaving = 0

abbrev pub is_last_out : Stage → ℕ
is_last_out outside = 0
is_last_out last_in = 0
is_last_out entering = 0
is_last_out inside = 0
is_last_out last_out = 1
is_last_out leaving = 0

abbrev pub is_leaving : Stage → ℕ
is_leaving outside = 0
is_leaving last_in = 0
is_leaving entering = 0
is_leaving inside = 0
is_leaving last_out = 0
is_leaving leaving = 1

abbrev pub tally : (Stage → ℕ) → List Stage → ℕ
tally f [] = 0
tally f (s ∷ threads) = f s + tally f threads

-- How many of the other threads are at each stage.
record Numbers : Type 0 where
  o : ℕ
  li : ℕ
  e : ℕ
  i : ℕ
  lo : ℕ
  l : ℕ

-- The two phases: the threads gather, or they leave.
abbrev Phase : Mode → ℕ → ℕ → ℕ → ℕ → ℕ → ℕ → ℕ → Type 0
Phase enter n step o li e i lo =
    (i ≡ 0) × (lo ≡ 0) × (step ≡ li + e) × (li ≤ 1) × (li ≡ 1 → step ≡ n) × (step ≡ n → li ≡ 1)
Phase leave n step o li e i lo =
    (o ≡ 0) × (li ≡ 0) × (step ≡ e + i) × (lo ≤ 1) × (lo ≡ 1 → step ≡ 0) × (step ≡ 0 → lo ≡ 1)

abbrev Agrees : ℕ → ℕ → Mode → ℕ → ℕ → ℕ → ℕ → ℕ → ℕ → Type 0
Agrees n step mode o li e i lo l =
    (0 < n) × (n < 2 ^ 64) × (o + li + e + i + lo + l ≡ n) × Phase mode n step o li e i lo

abbrev Counted : ℕ → Numbers → ℕ × Mode × Stage → Type 0
Counted n r (step, mode, s) =
    Agrees n step mode (r.o + is_outside s) (r.li + is_last_in s) (r.e + is_entering s)
      (r.i + is_inside s) (r.lo + is_last_out s) (r.l + is_leaving s)

sync_step-Counted :
    (n : ℕ) (r : Numbers) (step : ℕ) (mode : Mode) (s : Stage)
    → Counted n r (step, mode, s)
    → Counted n r (sync_step n step mode s)
unfolding sync_step
sync_step-Counted n r step enter outside h = ground arith
sync_step-Counted n r step enter last_in h = ground arith
sync_step-Counted n r step enter entering h = ground arith
sync_step-Counted n r step enter inside h = ground arith
sync_step-Counted n r step enter last_out h = ground arith
sync_step-Counted n r step enter leaving h = ground arith
sync_step-Counted n r step leave outside h = ground arith
sync_step-Counted n r step leave last_in h = ground arith
sync_step-Counted n r step leave entering h = ground arith
sync_step-Counted n r step leave inside h = ground arith
sync_step-Counted n r step leave last_out h = ground arith
sync_step-Counted n r step leave leaving h = ground arith

-- The numbers of a list of threads.
numbers : List Stage → Numbers
numbers threads = record {
  o = tally is_outside threads;
  li = tally is_last_in threads;
  e = tally is_entering threads;
  i = tally is_inside threads;
  lo = tally is_last_out threads;
  l = tally is_leaving threads;
}

-- The invariant of a barrier.
abbrev pub IsPhased : Barrier → Type 0
IsPhased b =
    Agrees b.cardinal b.step b.mode (tally is_outside b.threads) (tally is_last_in b.threads)
      (tally is_entering b.threads) (tally is_inside b.threads) (tally is_last_out b.threads)
      (tally is_leaving b.threads)

tally-split :
    (f : Stage → ℕ) (xs : List Stage) (s : Stage) (ys : List Stage)
    → tally f (xs ++ s ∷ ys) ≡ tally f (xs ++ ys) + f s
tally-split f [] s ys = omega arith
tally-split f (x ∷ xs) s ys = omega (arith, tally-split f xs s ys)

IsPhased-Counted :
    (n : ℕ) (xs ys : List Stage) (c : ℕ × Mode × Stage)
    → IsPhased (after_step n xs ys c) ≡ Counted n (numbers (xs ++ ys)) c
unfolding numbers
IsPhased-Counted n xs ys (step, mode, s) =
    rw
      (
        tally-split is_outside xs s ys,
        tally-split is_last_in xs s ys,
        tally-split is_entering xs s ys,
        tally-split is_inside xs s ys,
        tally-split is_last_out xs s ys,
        tally-split is_leaving xs s ys,
      )
      refl

Sync-IsPhased : {b c : Barrier} → Sync b c → IsPhased b → IsPhased c
Sync-IsPhased (moves n step mode before s after) h =
    subst (λ X. X) (sym (IsPhased-Counted n before after (sync_step n step mode s)))
      (sync_step-Counted n (numbers (before ++ after)) step mode s
        (subst (λ X. X) (IsPhased-Counted n before after (step, mode, s)) h))

new_barrier-IsPhased : (n : ℕ) → 0 < n → n < 2 ^ 64 → IsPhased (new_barrier n)
unfolding new_barrier
new_barrier-IsPhased n p small = (
  p,
  small,
  omega (
    arith,
    ones n,
    zeros is_last_in refl n,
    zeros is_entering refl n,
    zeros is_inside refl n,
    zeros is_last_out refl n,
    zeros is_leaving refl n,
  ),
  (
    zeros is_inside refl n,
    zeros is_last_out refl n,
    omega (arith, zeros is_last_in refl n, zeros is_entering refl n),
    omega (arith, zeros is_last_in refl n),
    λ e. absurd (omega (arith, zeros is_last_in refl n)),
    λ e. absurd (omega arith),
  ),
)
  where
    ones : (m : ℕ) → tally is_outside (all_outside m) ≡ m
    ones zero = refl
    ones (suc m) = omega (arith, ones m)

    zeros : (f : Stage → ℕ) → f outside ≡ 0 → (m : ℕ) → tally f (all_outside m) ≡ 0
    zeros f e zero = refl
    zeros f e (suc m) = omega (arith, e, zeros f e m)

-- The threads that spin: they wait for the other mode.
abbrev pub spinning : Mode → List Stage → ℕ
spinning enter threads = tally is_entering threads
spinning leave threads = tally is_leaving threads

-- What a barrier promises.
abbrev pub Meets : Mode → ℕ → List Stage → Type 0
Meets mode n threads =
    (0 < tally is_inside threads + tally is_last_out threads → tally is_outside threads ≡ 0)
    × (spinning mode threads < n)

Agrees-Meets :
    (mode : Mode) (n step : ℕ) (threads : List Stage)
    → IsPhased (record { cardinal = n; step = step; mode = mode; threads = threads })
    → Meets mode n threads
Agrees-Meets enter n step threads h = (λ q. absurd (omega arith), grind arith)
Agrees-Meets leave n step threads h = (λ q. omega arith, grind arith)

-- A barrier for `n` threads, whatever the order of their steps: while a thread has passed the first
-- half of `sync` and does not yet spin in the second, every thread has entered; and never
-- do all threads spin, so some thread can always go on. There is at least one thread, and there are
-- fewer than 2^64.
pub Syncs-Meets :
    (n : ℕ) (b : Barrier)
    → 0 < n
    → n < 2 ^ 64
    → Syncs (new_barrier n) b
    → Meets b.mode b.cardinal b.threads
Syncs-Meets n b p small run = Agrees-Meets b.mode b.cardinal b.step b.threads (along run)
  where
    along : {c : Barrier} → Syncs (new_barrier n) c → IsPhased c
    along none_yet = new_barrier-IsPhased n p small
    along (and_then r t) = Sync-IsPhased t (along r)
