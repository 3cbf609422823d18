-- ===== src/Reference.antt =====
-- reference/tm.c and reference/shared-lock.c: the memory under one readers-writer lock. The region is
-- one flat memory of bytes; `posix_memalign` and the two acquisitions of a pthread lock answer as lists
-- in the state say.
pub mod Lawful
pub mod Copies
pub mod Serial
use cs453_concurrent_algorit.Prelude.{
  ℕ, zero, suc, ◌+◌, ◌-◌, ◌==◌, ◌&&◌, Bool, true, false, not, Option, none, some, List, [], ◌∷◌,
  length, if◌then◌else◌,
}
use cs453_concurrent_algorit.Prog.{Prog, ret, fault, act, atomic, get, modify, await, ◌>>=◌, ◌>>◌}
use cs453_concurrent_algorit.Grading.{AllocAnswer, success, nomem, Library}

-- `allocs` holds the addresses of the nodes, the newest first: the chain of `next` pointers, of which
-- the `prev` pointers are the converse.
pub record Region : Type 0 where
  pub readers : ℕ
  pub writer : Bool
  pub start : ℕ
  pub allocs : List ℕ
  pub size : ℕ
  pub align : ℕ
  pub bytes : ℕ → ℕ
  pub memaligns : List (Option ℕ)
  -- whether each coming acquisition of the lock succeeds; all do when the list is at its end
  pub lock_answers : List Bool

pub data LockTx : Type 0 where
  read_only_tx read_write_tx : LockTx

-- `sizeof(struct segment_node)`
abbrev pub node_size : ℕ
node_size = 16

abbrev pub next_answer : List (Option ℕ) → Option ℕ
next_answer [] = none
next_answer (a ∷ rest) = a

abbrev pub answers_after : List (Option ℕ) → List (Option ℕ)
answers_after [] = []
answers_after (a ∷ rest) = rest

unfoldable pub posix_memalign : Prog Region (Option ℕ)
posix_memalign =
    atomic (λ s. record s { memaligns = answers_after s.memaligns }) (λ s. next_answer s.memaligns)

abbrev pub lock_answer : List Bool → Bool
lock_answer [] = true
lock_answer (ok ∷ rest) = ok

abbrev pub lock_answers_after : List Bool → List Bool
lock_answers_after [] = []
lock_answers_after (ok ∷ rest) = rest

-- The region with the lock taken for writing, or for reading, or not taken.
abbrev pub locked_by : Bool → Region → Region
locked_by true s = record s {
  readers = s.readers + 1;
  lock_answers = lock_answers_after s.lock_answers;
}
locked_by false s = record s { writer = true; lock_answers = lock_answers_after s.lock_answers }

abbrev pub refused : Region → Region
refused s = record s { lock_answers = lock_answers_after s.lock_answers }

-- `pthread_rwlock_wrlock` waits for the lock, or fails with an error at once.
unfoldable pub shared_lock_acquire : Prog Region Bool
shared_lock_acquire =
    act (λ s. if lock_answer s.lock_answers then not s.writer && s.readers == 0 else true)
      (λ s. if lock_answer s.lock_answers then locked_by false s else refused s)
      (λ s. ret (lock_answer s.lock_answers))

unfoldable pub shared_lock_release : Prog Region (Unit {0})
shared_lock_release = modify (λ s. record s { writer = false })

unfoldable pub shared_lock_acquire_shared : Prog Region Bool
shared_lock_acquire_shared =
    act (λ s. if lock_answer s.lock_answers then not s.writer else true)
      (λ s. if lock_answer s.lock_answers then locked_by true s else refused s)
      (λ s. ret (lock_answer s.lock_answers))

unfoldable pub shared_lock_release_shared : Prog Region (Unit {0})
shared_lock_release_shared = modify (λ s. record s { readers = s.readers - 1 })

-- `memset` with zero.
unfoldable pub clear : ℕ → ℕ → Prog Region (Unit {0})
clear a zero = ret tt
clear a (suc n) = do
  modify (λ s. record s { bytes = λ b. if b == a then 0 else s.bytes b })
  clear (a + 1) n

-- The two results of `malloc` and of `pthread_rwlock_init` are given; false for `invalid_shared`.
unfoldable pub tm_create_locked : Bool → Bool → ℕ → ℕ → Prog Region Bool
tm_create_locked false lock_ok size align = ret false
tm_create_locked true lock_ok size align = posix_memalign >>= λ r. elim r [
  | none ↦ ret false
  | some start ↦ if not lock_ok then ret false else (do
    clear start size
    modify (λ s. record s {
      readers = 0;
      writer = false;
      start = start;
      allocs = [];
      size = size;
      align = align;
    })
    ret true)
]

-- What is left of the region is freed.
unfoldable pub tm_destroy_locked : Prog Region (Unit {0})
tm_destroy_locked = modify (λ s. record s { allocs = [] })

unfoldable pub tm_begin_locked : Bool → Prog Region (Option LockTx)
tm_begin_locked true = do
  ok ← shared_lock_acquire_shared
  ret (if ok then some LockTx.read_only_tx else none)
tm_begin_locked false = do
  ok ← shared_lock_acquire
  ret (if ok then some LockTx.read_write_tx else none)

unfoldable pub tm_end_locked : LockTx → Prog Region Bool
tm_end_locked LockTx.read_only_tx = do shared_lock_release_shared; ret true
tm_end_locked LockTx.read_write_tx = do shared_lock_release; ret true

-- `memcpy` out of the region and into it, byte by byte.
unfoldable pub copy_out : ℕ → ℕ → Prog Region (List ℕ)
copy_out source zero = ret []
copy_out source (suc n) =
    get (λ s. s.bytes source) >>= λ v. copy_out (source + 1) n >>= λ vs. ret (v ∷ vs)

unfoldable pub copy_in : List ℕ → ℕ → Prog Region (Unit {0})
copy_in [] target = ret tt
copy_in (v ∷ vs) target = do
  modify (λ s. record s { bytes = λ b. if b == target then v else s.bytes b })
  copy_in vs (target + 1)

unfoldable pub tm_read_locked : LockTx → ℕ → ℕ → Prog Region (Option (LockTx × List ℕ))
tm_read_locked tx source size = copy_out source size >>= λ vs. ret (some (tx, vs))

unfoldable pub tm_write_locked : LockTx → List ℕ → ℕ → Prog Region (Option LockTx)
tm_write_locked tx source target = copy_in source target >>= λ _. ret (some tx)

unfoldable pub link_segment : LockTx → ℕ → Option ℕ → Prog Region (AllocAnswer LockTx)
link_segment tx size none = ret (nomem tx)
link_segment tx size (some sn) = do
  modify (λ s. record s { allocs = sn ∷ s.allocs })
  clear (sn + node_size) size
  ret (success tx (sn + node_size))

unfoldable pub tm_alloc_locked : LockTx → ℕ → Prog Region (AllocAnswer LockTx)
tm_alloc_locked tx size = posix_memalign >>= link_segment tx size

abbrev pub unlink : ℕ → List ℕ → Option (List ℕ)
unlink sn [] = none
unlink sn (a ∷ l) =
    if a == sn then some l else elim (unlink sn l) [ none ↦ none | some bs ↦ some (a ∷ bs) ]

-- Freeing what is no segment of the region is undefined.
unfoldable pub tm_free_locked : LockTx → ℕ → Prog Region (Option LockTx)
tm_free_locked tx segment = get (λ s. unlink (segment - node_size) s.allocs) >>= λ r. elim r [
  | none ↦ fault
  | some rest ↦ (do modify (λ s. record s { allocs = rest }); ret (some tx))
]

abbrev pub reference : Library Region LockTx
reference = record {
  tm_begin = tm_begin_locked;
  tm_end = tm_end_locked;
  tm_read = tm_read_locked;
  tm_write = tm_write_locked;
  tm_alloc = tm_alloc_locked;
  tm_free = tm_free_locked;
}
