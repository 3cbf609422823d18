-- ===== src/Bank/Counter.antt =====
-- grading/workload.hpp, `WorkloadBank::check`: all workers decrease one counter, each by a pair of
-- transactions, which take effect in any order. A run stops at the first fault that a worker finds.
use cs453_concurrent_algorit.Prelude.{
  ℕ, zero, suc, ◌+◌, ◌-◌, ◌*◌, ◌%◌, ◌^◌, ◌≤◌, ◌<◌, ◌≡◌, refl, sym, ◌∙◌, Bool, true, false, Option,
  none, some, List, [], ◌∷◌, ◌++◌, arith, ltb, All, if◌then◌else◌,
}

-- `nbtxperwrk` of `check`.
abbrev pub nbtxperwrk : ℕ
nbtxperwrk = 100

-- The rounds that a worker has left, and what its read-only transaction has read, in the middle of one.
pub record Worker : Type 0 where
  pub left : ℕ
  pub last : Option ℕ

pub record Counter : Type 0 where
  pub counter : ℕ
  pub violated : Bool
  pub workers : List Worker

abbrev pub new_workers : ℕ → List Worker
new_workers zero = []
new_workers (suc n) = record { left = nbtxperwrk; last = none } ∷ new_workers n

-- After the second barrier.
unfoldable pub init_counter : ℕ → Counter
init_counter nbworkers = record {
  counter = nbtxperwrk * nbworkers;
  violated = false;
  workers = new_workers nbworkers;
}

-- The read-only transaction of a worker `w`, between those before it and after it.
unfoldable pub fetch_last : ℕ → List Worker → Worker → List Worker → Counter
fetch_last counter before w after = record {
  counter = counter;
  violated = false;
  workers = before ++ record w { last = some counter } ∷ after;
}

-- The read-write transaction of a worker that has read `last`. The counter is 64 bits wide.
unfoldable pub decrease : ℕ → ℕ → List Worker → Worker → List Worker → Counter
decrease last counter before w after =
    if ltb last counter
    then record { counter = counter; violated = true; workers = before ++ w ∷ after }
    else record {
      counter = (counter + 2 ^ 64 - 1) % 2 ^ 64;
      violated = false;
      workers = before ++ record { left = w.left - 1; last = none } ∷ after;
    }

pub data Turn : Counter → Counter → Type 0 where
  fetches :
      (counter : ℕ) (before : List Worker) (w : Worker) (after : List Worker)
      → w.last ≡ none
      → 0 < w.left
      → Turn
          (record { counter = counter; violated = false; workers = before ++ w ∷ after })
          (fetch_last counter before w after)
  decreases :
      (last counter : ℕ) (before : List Worker) (w : Worker) (after : List Worker)
      → w.last ≡ some last
      → Turn
          (record { counter = counter; violated = false; workers = before ++ w ∷ after })
          (decrease last counter before w after)

pub data Turns (c : Counter) : Counter → Type 0 where
  start : Turns c c
  then_ : {d e : Counter} → Turns c d → Turn d e → Turns c e

abbrev pub rounds_left : List Worker → ℕ
rounds_left [] = 0
rounds_left (w ∷ workers) = w.left + rounds_left workers

rounds_left-append :
    (xs ys : List Worker) → rounds_left (xs ++ ys) ≡ rounds_left xs + rounds_left ys
rounds_left-append [] ys = omega arith
rounds_left-append (x ∷ xs) ys = omega (arith, rounds_left-append xs ys)

rounds_left-done : (workers : List Worker) → All (λ w. w.left ≡ 0) workers → rounds_left workers ≡ 0
rounds_left-done [] h = refl
rounds_left-done (w ∷ workers) h = omega (arith, h.0, rounds_left-done workers h.1)

-- What a worker has read is not below the counter, and it is in the middle of a round.
abbrev IsBehind : ℕ → Worker → Type 0
IsBehind c w = (v : ℕ) → w.last ≡ some v → (c ≤ v) × (0 < w.left)

record IsCounting (c : Counter) : Type 0 where
  fine : c.violated ≡ false
  total : c.counter ≡ rounds_left c.workers
  small : c.counter < 2 ^ 64
  behind : All (IsBehind c.counter) c.workers

All-IsBehind-less :
    (c d : ℕ) (workers : List Worker) → d ≤ c → All (IsBehind c) workers → All (IsBehind d) workers
All-IsBehind-less c d [] l h = tt
All-IsBehind-less c d (w ∷ workers) l h =
    (λ v e. omega (arith, h.0 v e), All-IsBehind-less c d workers l h.1)

All-split :
    (P : Worker → Type 0) (xs : List Worker) (y : Worker) (ys : List Worker)
    → All P (xs ++ y ∷ ys)
    → All P xs × P y × All P ys
All-split P [] y ys h = (tt, h.0, h.1)
All-split P (x ∷ xs) y ys h = let (a, b, c) = All-split P xs y ys h.1 in ((h.0, a), b, c)

All-join :
    (P : Worker → Type 0) (xs : List Worker) (y : Worker) (ys : List Worker)
    → All P xs
    → P y
    → All P ys
    → All P (xs ++ y ∷ ys)
All-join P [] y ys a b c = (b, c)
All-join P (x ∷ xs) y ys a b c = (a.0, All-join P xs y ys a.1 b c)

Turn-IsCounting : {c d : Counter} → Turn c d → IsCounting c → IsCounting d
unfolding fetch_last decrease
Turn-IsCounting (fetches counter before w after e pos) h = record {
  fine = refl;
  total =
      h.total
      ∙ rounds_left-append before (w ∷ after)
      ∙ sym (rounds_left-append before (record w { last = some counter } ∷ after));
  small = h.small;
  behind =
      let (a, b, c) = All-split (IsBehind counter) before w after h.behind in
      All-join (IsBehind counter) before (record w { last = some counter }) after a
        (λ v e. ground (arith, pos)) c;
}
Turn-IsCounting (decreases last counter before w after e) h =
    let (a, (l, p), c) = parts in
    let ok : ltb last counter ≡ false = ground arith in
    rw ok record {
      fine = refl;
      total = omega (
        arith,
        h.total,
        rounds_left-append before (w ∷ after),
        rounds_left-append before (record { left = w.left - 1; last = none } ∷ after),
      );
      small = omega arith;
      behind =
          All-join (IsBehind _) before (record { left = w.left - 1; last = none }) after
            (All-IsBehind-less counter _ before (less p) a) (λ v n. cc)
            (All-IsBehind-less counter _ after (less p) c);
    }
  where
    parts :
        All (IsBehind counter) before
        × ((counter ≤ last) × (0 < w.left))
        × All (IsBehind counter) after
    parts = let (a, b, c) = All-split (IsBehind counter) before w after h.behind in (a, b last e, c)

    less : 0 < w.left → (counter + 2 ^ 64 - 1) % 2 ^ 64 ≤ counter
    less p = omega (arith, h.total, h.small, rounds_left-append before (w ∷ after))

init-IsCounting : (n : ℕ) → nbtxperwrk * n < 2 ^ 64 → IsCounting (init_counter n)
unfolding init_counter
init-IsCounting n h = record {
  fine = refl;
  total = rounds n;
  small = h;
  behind = none_read (nbtxperwrk * n) n;
}
  where
    rounds : (n : ℕ) → nbtxperwrk * n ≡ rounds_left (new_workers n)
    rounds zero = refl
    rounds (suc n) = omega (arith, rounds n)

    none_read : (c m : ℕ) → All (IsBehind c) (new_workers m)
    none_read c zero = tt
    none_read c (suc m) = (λ v e. cc, none_read c m)

-- From the counter that `check` sets up, whatever the order in which the transactions of the workers
-- take effect: no worker finds the counter above what it has read, the counter is the number
-- of rounds that are left, and so it is 0 when every worker is done. The number of workers times 100 is
-- below 2^64.
pub Turns-init_counter :
    (n : ℕ) (c : Counter)
    → nbtxperwrk * n < 2 ^ 64
    → Turns (init_counter n) c
    → (c.violated ≡ false)
      × (c.counter ≡ rounds_left c.workers)
      × (All (λ w. w.left ≡ 0) c.workers → c.counter ≡ 0)
Turns-init_counter n c h run =
    let i = along run in (i.fine, i.total, λ all. i.total ∙ rounds_left-done c.workers all)
  where
    along : {d : Counter} → Turns (init_counter n) d → IsCounting d
    along start = init-IsCounting n h
    along (then_ r t) = Turn-IsCounting t (along r)
