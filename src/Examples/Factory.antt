-- ===== src/Examples/Factory.antt =====
-- sync-examples/procon1.c to procon4.c: a producer and a consumer over a ring of buffers. A busy wait
-- that is never let through is a thread that is stuck after a number of tries; that number is
-- arbitrary. What `printf` prints is not modelled.
pub mod Fits
pub mod Rounds
pub mod Consumed
pub mod Atomic
use cs453_concurrent_algorit.Prelude.{
  ℕ, zero, suc, ◌+◌, ◌%◌, ◌^◌, ◌<◌, ◌==◌, ◌&&◌, Bool, true, false, if◌then◌else◌, ltb,
}
use cs453_concurrent_algorit.Prog.{Prog, ret, act, get, modify, await, ◌>>=◌, ◌>>◌}
use cs453_concurrent_algorit.Prog.Pool.{Pool}
use cs453_concurrent_algorit.Examples.Lock.{
  Guarded, lock_acquire, lock_release, lock_wait, lock_wake_up, look, change,
}
use cs453_concurrent_algorit.Examples.Counters.{unlocked}

-- `buffer`, `produced` and `consumed` give the characters of each entry; `rands` counts the calls of
-- `rand`.
pub record Factory : Type 0 where
  pub buffer : ℕ → ℕ → ℕ
  pub produced_until : ℕ
  pub consumed_until : ℕ
  pub produced : ℕ → ℕ → ℕ
  pub consumed : ℕ → ℕ → ℕ
  pub rands : ℕ

abbrev pub empty_factory : Factory
empty_factory = record {
  buffer = λ _ _. 0;
  produced_until = 0;
  consumed_until = 0;
  produced = λ _ _. 0;
  consumed = λ _ _. 0;
  rands = 0;
}

abbrev pub set_text : (ℕ → ℕ → ℕ) → ℕ → ℕ → ℕ → ℕ → ℕ → ℕ
set_text f r i c x k = if x == r && k == i then c else f x k

-- The loop of `are_same` over the characters from `i` on.
unfoldable pub are_same : (ℕ → ℕ) → (ℕ → ℕ) → ℕ → ℕ → Bool
are_same a b i zero = true
are_same a b i (suc n) = let rest = are_same a b (i + 1) n in if a i == b i then rest else false

-- `produced[r].text[i] = rand()`, for a `rand` that answers as `random` says
abbrev pub fill_char : (ℕ → ℕ) → ℕ → ℕ → Factory → Factory
fill_char random r i d = record d {
  produced = set_text d.produced r i (random d.rands % 2 ^ 8);
  rands = d.rands + 1;
}

-- One character of `buffer[r % BUFFER_SIZE] = produced[r]`, and of the copy out of the buffer
abbrev pub store_char : ℕ → ℕ → ℕ → Factory → Factory
store_char size r i d = record d { buffer = set_text d.buffer (r % size) i (d.produced r i) }

abbrev pub fetch_char : ℕ → ℕ → ℕ → Factory → Factory
fetch_char size r i d = record d { consumed = set_text d.consumed r i (d.buffer (r % size) i) }

abbrev pub one_produced : Factory → Factory
one_produced d = record d { produced_until = d.produced_until + 1 }

abbrev pub one_consumed : Factory → Factory
one_consumed d = record d { consumed_until = d.consumed_until + 1 }

-- `size` is BUFFER_SIZE, `text` is DATA_TEXT_SIZE; `step` makes one access to the data, which other
-- threads may follow with theirs.
module _ {S : Type 0} (step : (Factory → Factory) → Prog S (Unit {0})) where
  -- `f i`, …, `f (i + n - 1)`
  unfoldable pub each_char : (ℕ → Factory → Factory) → ℕ → ℕ → Prog S (Unit {0})
  each_char f i zero = ret tt
  each_char f i (suc n) = step (f i) >>= λ _. each_char f (i + 1) n

  unfoldable pub make : (ℕ → ℕ) → ℕ → ℕ → ℕ → Prog S (Unit {0})
  make random size text r = do
    each_char (fill_char random r) 0 text
    each_char (store_char size r) 0 text

  unfoldable pub take : ℕ → ℕ → ℕ → Prog S (Unit {0})
  take size text r = each_char (fetch_char size r) 0 text

abbrev pub stuck : {S : Type 0} → Prog S (Unit {0})
stuck = await (λ _. false) (λ s. s)

-- procon1.c, from round `r` on.
unfoldable pub produce_blindly : (ℕ → ℕ) → ℕ → ℕ → ℕ → ℕ → Prog Factory (Unit {0})
produce_blindly random size text r zero = ret tt
produce_blindly random size text r (suc n) = do
  make modify random size text r
  produce_blindly random size text (r + 1) n

unfoldable pub consume_blindly : ℕ → ℕ → ℕ → ℕ → Prog Factory (Unit {0})
consume_blindly size text r zero = ret tt
consume_blindly size text r (suc n) = do
  take modify size text r
  consume_blindly size text (r + 1) n

-- `consumed_until + BUFFER_SIZE > r`, and `produced_until > r`
abbrev pub has_room : ℕ → ℕ → Factory → Bool
has_room size r d = ltb r (d.consumed_until + size)

abbrev pub has_data : ℕ → Factory → Bool
has_data r d = ltb r d.produced_until

-- The busy wait of procon2.c, which leaves with the lock held.
unfoldable pub lock_until : ℕ → (Factory → Bool) → Prog (Guarded Factory) (Unit {0})
lock_until zero test = stuck
lock_until (suc tries) test = do
  lock_acquire
  ok ← look test
  let again = lock_release >>= λ _. lock_until tries test
  if ok then ret tt else again

unfoldable pub produce_locked : ℕ → (ℕ → ℕ) → ℕ → ℕ → ℕ → ℕ → Prog (Guarded Factory) (Unit {0})
produce_locked tries random size text r zero = ret tt
produce_locked tries random size text r (suc n) = do
  lock_until tries (has_room size r)
  make change random size text r
  change one_produced
  lock_release
  produce_locked tries random size text (r + 1) n

unfoldable pub consume_locked : ℕ → ℕ → ℕ → ℕ → ℕ → Prog (Guarded Factory) (Unit {0})
consume_locked tries size text r zero = ret tt
consume_locked tries size text r (suc n) = do
  lock_until tries (has_data r)
  take change size text r
  change one_consumed
  lock_release
  consume_locked tries size text (r + 1) n

-- The busy wait of procon3.c, on an atomic counter.
unfoldable pub spin_until : ℕ → (Factory → Bool) → Prog Factory (Unit {0})
spin_until zero test = stuck
spin_until (suc tries) test = do
  ok ← get test
  let again = spin_until tries test
  if ok then ret tt else again

unfoldable pub produce_atomically : ℕ → (ℕ → ℕ) → ℕ → ℕ → ℕ → ℕ → Prog Factory (Unit {0})
produce_atomically tries random size text r zero = ret tt
produce_atomically tries random size text r (suc n) = do
  spin_until tries (has_room size r)
  make modify random size text r
  modify one_produced
  produce_atomically tries random size text (r + 1) n

unfoldable pub consume_atomically : ℕ → ℕ → ℕ → ℕ → ℕ → Prog Factory (Unit {0})
consume_atomically tries size text r zero = ret tt
consume_atomically tries size text r (suc n) = do
  spin_until tries (has_data r)
  take modify size text r
  modify one_consumed
  consume_atomically tries size text (r + 1) n

-- The wait of procon4.c, which holds the lock but while it sleeps.
unfoldable pub wait_until : ℕ → (Factory → Bool) → Prog (Guarded Factory) (Unit {0})
wait_until zero test = stuck
wait_until (suc tries) test = do
  ok ← look test
  let again = lock_wait >>= λ _. wait_until tries test
  if ok then ret tt else again

unfoldable pub produce_waiting : ℕ → (ℕ → ℕ) → ℕ → ℕ → ℕ → ℕ → Prog (Guarded Factory) (Unit {0})
produce_waiting tries random size text r zero = ret tt
produce_waiting tries random size text r (suc n) = do
  lock_acquire
  wait_until tries (has_room size r)
  make change random size text r
  change one_produced
  lock_release
  lock_wake_up
  produce_waiting tries random size text (r + 1) n

unfoldable pub consume_waiting : ℕ → ℕ → ℕ → ℕ → ℕ → Prog (Guarded Factory) (Unit {0})
consume_waiting tries size text r zero = ret tt
consume_waiting tries size text r (suc n) = do
  lock_acquire
  wait_until tries (has_data r)
  take change size text r
  change one_consumed
  lock_release
  lock_wake_up
  consume_waiting tries size text (r + 1) n

-- The two threads of `main`.
abbrev pub pair : {S : Type 0} → Prog S (Unit {0}) → Prog S (Unit {0}) → ℕ → Prog S (Unit {0})
pair produce consume zero = produce
pair produce consume (suc zero) = consume
pair produce consume (suc (suc i)) = ret tt

abbrev pub two_atomic : Prog Factory (Unit {0}) → Prog Factory (Unit {0}) → Pool Factory
two_atomic produce consume = record { shared = empty_factory; threads = pair produce consume }

abbrev pub two_locked :
    Bool
    → Prog (Guarded Factory) (Unit {0})
    → Prog (Guarded Factory) (Unit {0})
    → Pool (Guarded Factory)
two_locked spurious produce consume = record {
  shared = unlocked spurious empty_factory;
  threads = pair produce consume;
}

-- The loop of `main` over the rounds from `r` on, which stops at the first wrong one.
unfoldable pub consumed_right : Factory → ℕ → ℕ → ℕ → Bool
consumed_right d text r zero = true
consumed_right d text r (suc n) =
    let rest = consumed_right d text (r + 1) n in
    if are_same (d.produced r) (d.consumed r) 0 text then rest else false
