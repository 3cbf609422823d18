-- ===== src/Tests.antt =====
-- Runs of the definitions on small inputs, and the theorems at concrete states.
mod TornSnapshot
mod Examples
mod Factory
mod Ownership
mod WaitFree
mod Evaluation
mod Grader
use cs453_concurrent_algorit.Prelude.{
  ℕ, zero, suc, ◌+◌, ◌^◌, ◌≤◌, ◌<◌, ◌==◌, ◌≡◌, ◌↔◌, ◌⊎◌, refl, inl, inr, Bool, true, false, none,
  some, List, [], ◌∷◌, arith, All, length, if◌then◌else◌,
}
use cs453_concurrent_algorit.Prelude.Int.{pos}
use cs453_concurrent_algorit.Prog.{Ends}
use cs453_concurrent_algorit.Prog.Rely.{Keeps}
use cs453_concurrent_algorit.Prog.Pool.{Pool}
use cs453_concurrent_algorit.Prog.Schedule.{schedule, schedule-Reach}
use cs453_concurrent_algorit.Address.{index_from_va, va_from_index, offset_from_va}
use cs453_concurrent_algorit.Address.RoundTrip.{va_from_index_fields, va_from_index-null}
use cs453_concurrent_algorit.Region.{Loc, loc_eq, Shared}
use cs453_concurrent_algorit.VersionedLock.{vl_try_lock}
use cs453_concurrent_algorit.VersionedLock.Race.{Anything, Acquires, Acquired, vl_try_lock-Acquires}
use cs453_concurrent_algorit.Bloom.{Bf, bf_init, bf_in}
use cs453_concurrent_algorit.Bloom.Members.{add_all, bf_in-add_all}
use cs453_concurrent_algorit.Bloom.Align.{bf_init_lem}
use cs453_concurrent_algorit.Stm.Tx.{Tx}
use cs453_concurrent_algorit.Stm.Read.{start_word, tm_read}
use cs453_concurrent_algorit.Stm.Write.{tm_write}
use cs453_concurrent_algorit.Stm.End.{tm_end}
use cs453_concurrent_algorit.Stm.End.Result.{IsCalm, Committed, Outcome, tm_end-Outcome}
use cs453_concurrent_algorit.Stm.End.Progress.{tm_end-commits}
use cs453_concurrent_algorit.Stm.Isolation.{Quiet, tm_read-Quiet}
use cs453_concurrent_algorit.Stm.Isolation.Writes.{tm_write-Quiet}
use cs453_concurrent_algorit.Stm.Snapshot.{Commits, AnyStep, view_words}
use cs453_concurrent_algorit.Stm.Snapshot.Calls.{SeenAll, tm_read-SeenAll}
use cs453_concurrent_algorit.Stm.Segments.Creation.{Answers, create_and_ask, create_and_ask-IsNew}
use cs453_concurrent_algorit.Stm.Session.{Client, session}
use cs453_concurrent_algorit.Stm.Clock.{Bounded}
use cs453_concurrent_algorit.Stm.Clock.Sessions.{Reach-clock}
use cs453_concurrent_algorit.Stm.WriteSet.{IsSound}
use cs453_concurrent_algorit.Stm.WriteSet.Words.{SameAlign}
use cs453_concurrent_algorit.Stm.WriteSet.Calls.{Covered, tm_write-Covered}
use cs453_concurrent_algorit.Stm.WriteSet.ReadOwn.{
  SameValues, write_then_read, write_then_read-SameValues,
}
use cs453_concurrent_algorit.Bank.Counter.{
  Counter, Turn, Turns, fetch_last, rounds_left, Turns-init_counter, init_counter,
}
use cs453_concurrent_algorit.Barrier.{
  Barrier, Mode, Stage, Sync, Syncs, after_step, sync_step, new_barrier,
}
use cs453_concurrent_algorit.Barrier.Phases.{Meets, Syncs-Meets}
use cs453_concurrent_algorit.Grading.{Body, transactional}
use cs453_concurrent_algorit.Grading.Rules.{Segments, InSegment, drop, Obeys}
use cs453_concurrent_algorit.Grading.Discipline.{transactional-Idle}
use cs453_concurrent_algorit.Reference.{Region, LockTx, reference}
use cs453_concurrent_algorit.Reference.Copies.{write_read, write_read-Bytes}
use cs453_concurrent_algorit.Reference.Lawful.{Unlocked, HasTx, reference-IsLawful}
use cs453_concurrent_algorit.Bank.{WorkloadBank, Draw, init, run_draws}
use cs453_concurrent_algorit.Bank.Allocation.{Allocated}
use cs453_concurrent_algorit.Bank.Checks.{run_draws-init}

-- A region of two words, at version 0, inside one transaction.
abbrev region : Shared
region = record {
  align = 8;
  readers = 1;
  writer = false;
  va_locked = false;
  empty_spots = [];
  va_arr = λ i. if i == 0 then some (record { size = 16; num_words = 2 }) else none;
  va_n = 1;
  global_version = 0;
  to_free_locked = false;
  to_free = [];
  to_free_sz = 64;
  locks = λ _. 0;
  words = λ _. 0;
  mallocs = [];
}

abbrev filter : Bf
filter = record { bitset = 0; align = 3 }

abbrev pub begun : Tx
begun = record {
  rv = 0;
  is_ro = false;
  ws = [];
  ws_sz = 8;
  ws_bloom = filter;
  rs_null = false;
  rs = [];
  rs_sz = 8;
  to_free = [];
}

-- It has written 7 to the first word.
abbrev pub base : ℕ
base = 2 ^ 48

abbrev first_word : Loc
first_word = record { spot = 0; word = 0 }

abbrev pub wrote : Tx
wrote = record begun { ws = record { addr = base; value = 7; place = first_word } ∷ [] }

region-IsCalm : IsCalm region
region-IsCalm = record { alone = refl; no_writer = refl; free_unlocked = refl; no_failure = refl }

begun-IsSound : IsSound begun
begun-IsSound = record { filtered = tt; fits = omega arith; grows = omega arith }

tm_end-Outcome_example : Ends (Outcome wrote region) (tm_end wrote) region
tm_end-Outcome_example = tm_end-Outcome wrote region refl refl refl region-IsCalm

write_then_read-SameValues_example :
    Keeps SameAlign SameAlign
      (SameValues (5 ∷ 6 ∷ []))
      (write_then_read begun (5 ∷ 6 ∷ []) base 16)
      region
write_then_read-SameValues_example =
    write_then_read-SameValues begun (5 ∷ 6 ∷ []) base region begun-IsSound refl (omega arith)

tm_write-Covered_example :
    Keeps SameAlign SameAlign
      (Covered 8 begun (5 ∷ 6 ∷ []) base)
      (tm_write begun (5 ∷ 6 ∷ []) base)
      region
tm_write-Covered_example = tm_write-Covered begun (5 ∷ 6 ∷ []) base region begun-IsSound

tm_end-commits_example : Ends (λ ok u. (ok ≡ true) × Committed wrote region u) (tm_end wrote) region
tm_end-commits_example =
    tm_end-commits wrote region refl refl refl region-IsCalm refl (λ l. ground arith)

vl_try_lock-Acquires_example :
    Keeps Anything (Acquires first_word 0) (Acquired first_word 0) (vl_try_lock first_word 0) region
vl_try_lock-Acquires_example = vl_try_lock-Acquires first_word 0 region

bf_in-add_all_example : bf_in (add_all filter (8 ∷ 16 ∷ 24 ∷ [])) 16 ≡ true
bf_in-add_all_example = bf_in-add_all filter (8 ∷ []) (24 ∷ []) 16

bf_init_lem_example :
    (8 ≤ 2 ^ 15
      → (8 ≤ 2 ^ (bf_init filter 8).align) × ((j : ℕ) → j < (bf_init filter 8).align → 2 ^ j < 8))
    × (2 ^ 15 < 8 → (bf_init filter 8).align ≡ 3)
bf_init_lem_example = bf_init_lem filter 8

tm_read-Quiet_example : Quiet (tm_read begun base 16)
tm_read-Quiet_example = tm_read-Quiet begun base 16

tm_write-Quiet_example : Quiet (tm_write begun (5 ∷ []) base)
tm_write-Quiet_example = tm_write-Quiet begun (5 ∷ []) base

va_from_index_fields_example :
    (index_from_va (va_from_index 3 8 + 16) ≡ 3) × (offset_from_va (va_from_index 3 8 + 16) ≡ 24)
va_from_index_fields_example = va_from_index_fields 3 8 16 (omega arith) (omega arith)

abbrev last_index : ℕ
last_index = 65535

va_from_index-null_example : (va_from_index last_index 0 ≡ 0) ↔ (last_index ≡ last_index)
va_from_index-null_example = va_from_index-null last_index (omega arith)

-- Two threads: one writes, one reads.
abbrev pub idle : Shared
idle = record region { readers = 0 }

abbrev pub threads : ℕ → Bf × List (Bool × Client)
threads zero = (filter, (false, Client.writes (5 ∷ []) base Client.finish) ∷ [])
threads (suc n) = (filter, (true, Client.reads base 8 (λ _. Client.finish)) ∷ [])

abbrev start : Pool Shared
start = record { shared = idle; threads = λ i. session (threads i).0 (threads i).1 }

-- The first thread begins, then both take turns.
abbrev turns : List ℕ
turns = 0 ∷ 0 ∷ 1 ∷ 0 ∷ 1 ∷ 0 ∷ 1 ∷ 0 ∷ 0 ∷ []

abbrev later : Pool Shared
later = schedule turns start

Reach-clock_example :
    (idle.global_version ≤ later.shared.global_version)
    × Bounded later.shared
    × (later.shared.global_version < 2 ^ 30 → (l : Loc) → later.shared.locks l < 2 ^ 31)
Reach-clock_example = Reach-clock idle threads later (λ l. omega arith) (schedule-Reach turns start)

abbrev bank : WorkloadBank
bank = record { nbaccounts = 2; init_balance = pos 100 }

abbrev draws : List Draw
draws = Draw.short 0 1 ∷ Draw.alloc 1 ∷ Draw.alloc 2 ∷ Draw.long ∷ []

run_draws-init_example : Allocated bank (run_draws bank draws (init bank).1)
run_draws-init_example = run_draws-init bank draws (omega arith)

abbrev counters : Counter
counters =
    fetch_last 200 [] (record { left = 100; last = none }) (record { left = 100; last = none } ∷ [])

Turns-init_counter_example :
    (counters.violated ≡ false)
    × (counters.counter ≡ rounds_left counters.workers)
    × (All (λ w. w.left ≡ 0) counters.workers → counters.counter ≡ 0)
unfolding init_counter
Turns-init_counter_example = Turns-init_counter 2 counters (omega arith) (
    Turns.then_ Turns.start (
      Turn.fetches 200 [] (record { left = 100; last = none })
        (record { left = 100; last = none } ∷ []) refl (omega arith)))

abbrev unused : Region
unused = record {
  readers = 0;
  writer = false;
  start = 4096;
  allocs = [];
  size = 64;
  align = 8;
  bytes = λ _. 0;
  memaligns = [];
  lock_answers = [];
}

write_read-Bytes_example :
    Ends
      (λ r u.
        (r ≡ some (LockTx.read_write_tx, 7 ∷ 8 ∷ []))
        × ((b : ℕ) → (b < 4096) ⊎ (4098 ≤ b) → u.bytes b ≡ unused.bytes b))
      (write_read LockTx.read_write_tx (7 ∷ 8 ∷ []) 4096)
      unused
write_read-Bytes_example = write_read-Bytes LockTx.read_write_tx (7 ∷ 8 ∷ []) 4096 unused

-- A transaction that allocates eight bytes, writes to them, reads them back and frees them.
abbrev borrow : Body (List ℕ)
borrow = Body.allocs 8 (λ a.
    Body.writes (1 ∷ 2 ∷ 3 ∷ 4 ∷ 5 ∷ 6 ∷ 7 ∷ 8 ∷ []) a
      (Body.reads a 8 (λ vs. Body.frees a (Body.returns vs))))

drop_first : (a size : ℕ) → drop a ((a, size) ∷ []) ≡ some []
drop_first a size = let same : (a == a) ≡ true = ground arith in rw same refl

borrow-Obeys : Obeys 8 (4096, 64) [] borrow
borrow-Obeys = (
  (omega arith, refl),
  λ a.
      let there : InSegment ((4096, 64) ∷ (a, 8) ∷ []) a 8 = inr (inl (omega arith, omega arith)) in
      (
        ((omega arith, refl), there),
        (((omega arith, refl), there), λ vs. ([], drop_first a 8, tt)),
      ),
)

-- One node can be had.
abbrev stocked : Region
stocked = record unused { memaligns = some 8192 ∷ [] }

transactional-Idle_example :
    Ends
      (λ _ u. (segments : Segments) × Unlocked segments u)
      (transactional 1 reference true false borrow)
      stocked
transactional-Idle_example =
    transactional-Idle 8 (4096, 64) Unlocked HasTx reference (reference-IsLawful 8 (4096, 64)) 1
      false borrow [] stocked borrow-Obeys (refl, refl, tt)

-- The memory holds zeros at every version.
abbrev history : ℕ → Loc → ℕ
history n l = 0

tm_read-SeenAll_example :
    Keeps
      (Commits history)
      AnyStep
      (SeenAll history begun (view_words history begun 8 2 base first_word))
      (tm_read begun base 16)
      region
unfolding index_from_va offset_from_va
tm_read-SeenAll_example =
    tm_read-SeenAll history begun base 16 region refl (omega arith) (omega arith)

-- Past 2^32 bytes the offset is cut: such a read starts at the first word of the segment.
cut : start_word 8 (base + 2 ^ 32) ≡ 0
unfolding offset_from_va
cut = refl

-- One of two threads has entered.
abbrev meeting : Barrier
meeting = after_step 2 [] (Stage.outside ∷ []) (sync_step 2 0 Mode.enter Stage.outside)

Syncs-Meets_example : Meets meeting.mode meeting.cardinal meeting.threads
unfolding new_barrier
Syncs-Meets_example = Syncs-Meets 2 meeting (omega arith) (omega arith) (
    Syncs.and_then Syncs.none_yet (Sync.moves 2 0 Mode.enter [] Stage.outside (Stage.outside ∷ [])))

create_and_ask-IsNew_example : Ends (Answers 64 8) (create_and_ask 64 8) region
create_and_ask-IsNew_example = create_and_ask-IsNew 64 8 region refl

-- The memory holds zeros up to version 0, and then what the transaction has written.
abbrev written_history : ℕ → Loc → ℕ
written_history zero l = 0
written_history (suc n) l = if loc_eq l first_word then 7 else 0
