-- ===== src/Reference/Serial.antt =====
-- A closure of a transaction of grading/transactional.hpp as it would run alone on the bytes of a
-- region of reference/tm.c: what `transactional` over the reference is held against.
pub mod Parts
pub mod Runs
pub mod Pointers
use cs453_concurrent_algorit.Prelude.{
  ℕ, zero, suc, ◌+◌, ◌-◌, ◌==◌, ◌&&◌, ◌≡◌, refl, sym, ap, ◌∙◌, subst, inl, inr, Bool, true, false,
  not, Option, none, some, List, [], ◌∷◌, arith, Bool-cases, if◌then◌else◌,
}
use cs453_concurrent_algorit.Prog.{Prog, ret, fault, act, modify, ◌>>=◌, run}
use cs453_concurrent_algorit.Grading.{
  AllocAnswer, success, nomem, abort, SharedError, Exception, transaction_begin,
  transaction_read_only, transaction_alloc, shared, Result, value, throws, Transaction, opened,
  Call, alloc_call, done_result, Body, returns, raises, reads, writes, allocs, frees, read, write,
  alloc, free, perform, continue, destroy, attempt, transactional,
}
use cs453_concurrent_algorit.Reference.{
  Region, LockTx, node_size, next_answer, answers_after, posix_memalign, shared_lock_acquire,
  shared_lock_release, shared_lock_acquire_shared, shared_lock_release_shared, clear,
  tm_begin_locked, tm_end_locked, copy_out, copy_in, tm_read_locked, tm_write_locked, link_segment,
  tm_alloc_locked, unlink, tm_free_locked, reference, locked_by, refused, lock_answer,
}
use cs453_concurrent_algorit.Reference.Copies.{bytes_after, bytes_at}

-- The memory with `n` zero bytes from `a` on.
abbrev pub zeros_after : ℕ → ℕ → (ℕ → ℕ) → ℕ → ℕ
zeros_after a zero f = f
zeros_after a (suc n) f = zeros_after (a + 1) n (λ b. if b == a then 0 else f b)

abbrev pub written : Region → List ℕ → ℕ → Region
written s vs a = record s { bytes = bytes_after vs a s.bytes }

-- The region with a new node at `sn` for `size` bytes.
abbrev pub linked : Region → ℕ → ℕ → Region
linked s sn size = record s {
  memaligns = answers_after s.memaligns;
  allocs = sn ∷ s.allocs;
  bytes = zeros_after (sn + node_size) size s.bytes;
}

abbrev pub Outcome : Type 0 → Type 0
Outcome A = Option (Result A × Region)

-- What a closure gives when nothing comes between its steps; `none` if it frees what is no segment.
abbrev pub serial : {A : Type 0} → Bool → Bool → Body A → Region → Outcome A
serial assert_mode ro (returns a) s = some (value a, s)
serial assert_mode ro (raises e) s = some (throws (shared e), s)
serial assert_mode ro (reads source size next) s =
    serial assert_mode ro (next (bytes_at s.bytes source size)) s
serial assert_mode ro (writes source target next) s =
    let rest = serial assert_mode ro next (written s source target) in
    if assert_mode && ro then some (throws transaction_read_only, s) else rest
serial assert_mode ro (allocs size next) s =
    let rest : ℕ → Outcome _ =
      λ sn. serial assert_mode ro (next (sn + node_size)) (linked s sn size) in
    if assert_mode && ro
    then some (throws transaction_read_only, s)
    else elim (next_answer s.memaligns) [
      | none ↦ some (throws transaction_alloc, record s { memaligns = answers_after s.memaligns })
      | some sn ↦ rest sn
    ]
serial assert_mode ro (frees target next) s =
    let rest : List ℕ → Outcome _ = λ l. serial assert_mode ro next (record s { allocs = l }) in
    if assert_mode && ro
    then some (throws transaction_read_only, s)
    else elim (unlink (target - node_size) s.allocs) [ none ↦ none | some l ↦ rest l ]

-- The region when the transaction has given the lock back.
abbrev pub unlocked_by : Bool → Region → Region
unlocked_by true s = record s { readers = s.readers - 1 }
unlocked_by false s = record s { writer = false }

abbrev pub ended : {A : Type 0} → Bool → Outcome A → Outcome A
ended ro none = none
ended ro (some (r, u)) = some (r, unlocked_by ro u)

-- One round of a transaction of which nothing comes between the steps: a body under the lock, which is
-- given back, or no body, if the lock cannot be taken.
abbrev pub alone : {A : Type 0} → Bool → Bool → Body A → Region → Outcome A
alone assert_mode ro body s =
    if lock_answer s.lock_answers
    then ended ro (serial assert_mode ro body (locked_by ro s))
    else some (throws transaction_begin, refused s)
