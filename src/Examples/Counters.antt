-- ===== src/Examples/Counters.antt =====
-- sync-examples/counter1.c to counter4.c: threads that count together. An `int` is a number without
-- bound here: RUNS times THREADS is 2^22.
pub mod Exact
use cs453_concurrent_algorit.Prelude.{
  ℕ, zero, suc, ◌+◌, ◌*◌, ◌==◌, Bool, true, false, if◌then◌else◌, ltb,
}
use cs453_concurrent_algorit.Prog.{Prog, ret, get, modify, ◌>>=◌, ◌>>◌}
use cs453_concurrent_algorit.Prog.Pool.{Pool}
use cs453_concurrent_algorit.Examples.Lock.{Guarded, lock_acquire, lock_release, look, change}

-- `counter++` on an `int` that is not atomic: a load and a store.
unfoldable pub count_plainly : ℕ → Prog ℕ (Unit {0})
count_plainly zero = ret tt
count_plainly (suc r) = do
  local ← get (λ counter. counter)
  modify (λ _. local + 1)
  count_plainly r

unfoldable pub count_locked : ℕ → Prog (Guarded ℕ) (Unit {0})
count_locked zero = ret tt
count_locked (suc r) = do
  lock_acquire
  local ← look (λ counter. counter)
  change (λ _. local + 1)
  lock_release
  count_locked r

-- An atomic load, and an atomic store.
unfoldable pub count_registers : ℕ → Prog ℕ (Unit {0})
count_registers zero = ret tt
count_registers (suc r) = do
  read_copy ← get (λ counter. counter)
  modify (λ _. read_copy + 1)
  count_registers r

unfoldable pub count_atomically : ℕ → Prog ℕ (Unit {0})
count_atomically zero = ret tt
count_atomically (suc r) = do modify (λ counter. counter + 1); count_atomically r

-- The threads that `main` starts; the other numbers are no threads.
abbrev pub started : {S : Type 0} → ℕ → Prog S (Unit {0}) → ℕ → Prog S (Unit {0})
started threads m i = if ltb i threads then m else ret tt

-- The pool of the program, with its initial values.
abbrev pub counting : ℕ → Prog ℕ (Unit {0}) → Pool ℕ
counting threads m = record { shared = 0; threads = started threads m }

abbrev pub unlocked : {D : Type 0} → Bool → D → Guarded D
unlocked spurious d = record { held = false; wake_ups = 0; spurious = spurious; data_ = d }

abbrev pub counting_locked : Bool → ℕ → Prog (Guarded ℕ) (Unit {0}) → Pool (Guarded ℕ)
counting_locked spurious threads m = record {
  shared = unlocked spurious 0;
  threads = started threads m;
}

-- What `main` finds when all have returned.
unfoldable pub counted_up : ℕ → ℕ → ℕ → Bool
counted_up runs threads counter = counter == runs * threads
