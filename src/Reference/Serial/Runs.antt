-- ===== src/Reference/Serial/Runs.antt =====
-- reference/tm.c under `transactional` of grading/transactional.hpp: a transaction that is not
-- interrupted gives what its closure says, in one round.
use cs453_concurrent_algorit.Prelude.{
  ℕ, suc, ◌+◌, ◌-◌, ◌&&◌, ◌≡◌, refl, ◌∙◌, inl, inr, Bool, true, false, Option, none, some, List,
  Bool-cases,
}
use cs453_concurrent_algorit.Prog.{Prog, run}
use cs453_concurrent_algorit.Grading.{
  transaction_alloc, Result, value, throws, opened, Body, returns, raises, reads, writes, allocs,
  frees, read, write, alloc, free, perform, destroy, attempt, again, transactional,
}
use cs453_concurrent_algorit.Reference.{
  Region, LockTx, node_size, next_answer, answers_after, shared_lock_acquire, shared_lock_release,
  shared_lock_acquire_shared, shared_lock_release_shared, tm_begin_locked, tm_end_locked, unlink,
  reference, lock_answer, locked_by, refused,
}
use cs453_concurrent_algorit.Reference.Copies.{bytes_at}
use cs453_concurrent_algorit.Reference.Serial.{written, linked, Outcome, serial, ended, alone}
use cs453_concurrent_algorit.Reference.Serial.Parts.{
  run-read, after_run, run-then, called, run-write_barred, run-alloc_barred, run-free_barred,
  run-write_made, alloc_rest, run-alloc_made, free_rest, run-free_made,
}

run-perform :
    {A : Type 0} (assert_mode ro : Bool) (body : Body A) (h : LockTx) (s : Region)
    → run (perform reference assert_mode ro body h) s ≡ called ro h (serial assert_mode ro body s)
unfolding perform
run-perform assert_mode ro (returns a) h s = refl
run-perform assert_mode ro (raises e) h s = refl
run-perform assert_mode ro (reads source size next) h s =
    run-then (read reference ro h source size) _ s
      (some ((opened ro h, value (bytes_at s.bytes source size)), s)) (run-read ro h source size s)
    ∙ run-perform assert_mode ro (next (bytes_at s.bytes source size)) h s
run-perform assert_mode ro (writes source target next) h s = elim (Bool-cases (assert_mode && ro)) [
  | inl barred ↦ rw barred (
      run-then (write reference assert_mode ro h source target) _ s _
        (run-write_barred assert_mode ro h s barred source target))
  | inr made ↦ rw made (
      run-then (write reference assert_mode ro h source target) _ s _
        (run-write_made assert_mode ro h s made source target)
      ∙ run-perform assert_mode ro next h (written s source target))
]
run-perform assert_mode ro (allocs size next) h s = elim (Bool-cases (assert_mode && ro)) [
  | inl barred ↦ rw barred (
      run-then (alloc reference assert_mode ro h size) _ s _
        (run-alloc_barred assert_mode ro h s barred size))
  | inr made ↦ rw made (
      run-then (alloc reference assert_mode ro h size) _ s _
        (run-alloc_made assert_mode ro h s made size)
      ∙ alloc_rest assert_mode ro h s made size next
          (λ sn. run-perform assert_mode ro (next (sn + node_size)) h (linked s sn size))
          (next_answer s.memaligns))
]
run-perform assert_mode ro (frees target next) h s = elim (Bool-cases (assert_mode && ro)) [
  | inl barred ↦ rw barred (
      run-then (free reference assert_mode ro h target) _ s _
        (run-free_barred assert_mode ro h s barred target))
  | inr made ↦ rw made (
      run-then (free reference assert_mode ro h target) _ s _
        (run-free_made assert_mode ro h s made target)
      ∙ free_rest assert_mode ro h s made next
          (λ l. run-perform assert_mode ro next h (record s { allocs = l }))
          (unlink (target - node_size) s.allocs))
]

abbrev handle : Bool → LockTx
handle true = LockTx.read_only_tx
handle false = LockTx.read_write_tx

run-begin :
    (ro : Bool) (s : Region)
    → s.readers ≡ 0
    → s.writer ≡ false
    → lock_answer s.lock_answers ≡ true
    → run (tm_begin_locked ro) s ≡ some (some (handle ro), locked_by ro s)
unfolding tm_begin_locked shared_lock_acquire shared_lock_acquire_shared
run-begin true s r w ok = rw (ok, w) refl
run-begin false s r w ok = rw (ok, w, r) refl

run-refused :
    (ro : Bool) (s : Region)
    → lock_answer s.lock_answers ≡ false
    → run (tm_begin_locked ro) s ≡ some (none, refused s)
unfolding tm_begin_locked shared_lock_acquire shared_lock_acquire_shared
run-refused true s no_lock = rw no_lock refl
run-refused false s no_lock = rw no_lock refl

run-destroy :
    {A : Type 0} (ro : Bool) (o : Outcome A)
    → after_run (destroy reference) (called ro (handle ro) o) ≡ ended ro o
unfolding destroy tm_end_locked shared_lock_release shared_lock_release_shared
run-destroy ro none = refl
run-destroy true (some (r, u)) = refl
run-destroy false (some (r, u)) = refl

run-attempt :
    {A : Type 0} (assert_mode ro : Bool) (body : Body A) (s : Region)
    → s.readers ≡ 0
    → s.writer ≡ false
    → run (attempt reference assert_mode ro body) s ≡ alone assert_mode ro body s
unfolding attempt
run-attempt assert_mode ro body s r w = elim (Bool-cases (lock_answer s.lock_answers)) [
  | inl ok ↦ rw ok (
      run-then (tm_begin_locked ro) _ s (some (some (handle ro), locked_by ro s))
        (run-begin ro s r w ok)
      ∙ run-then (perform reference assert_mode ro body (handle ro)) (destroy reference)
          (locked_by ro s) _ (run-perform assert_mode ro body (handle ro) (locked_by ro s))
      ∙ run-destroy ro (serial assert_mode ro body (locked_by ro s)))
  | inr no_lock ↦
      rw no_lock
        (run-then (tm_begin_locked ro) _ s (some (none, refused s)) (run-refused ro s no_lock))
]

-- No outcome of a closure asks for another round.
abbrev Decided : {A : Type 0} → Bool → Prog Region (Result A) → Outcome A → Type 0
Decided ro more o = after_run (again more) (ended ro o) ≡ ended ro o

alloc-Decided :
    {A : Type 0} (ro : Bool) (more : Prog Region (Result A)) (s : Region) (rest : ℕ → Outcome A)
    → ((sn : ℕ) → Decided ro more (rest sn))
    → (r : Option ℕ)
    → Decided ro more (elim r [
      | none ↦ some (throws transaction_alloc, record s { memaligns = answers_after s.memaligns })
      | some sn ↦ rest sn
    ])
alloc-Decided ro more s rest h none = refl
alloc-Decided ro more s rest h (some sn) = h sn

free-Decided :
    {A : Type 0} (ro : Bool) (more : Prog Region (Result A)) (rest : List ℕ → Outcome A)
    → ((l : List ℕ) → Decided ro more (rest l))
    → (r : Option (List ℕ)) → Decided ro more (elim r [ none ↦ none | some l ↦ rest l ])
free-Decided ro more rest h none = refl
free-Decided ro more rest h (some l) = h l

serial-Decided :
    {A : Type 0} (assert_mode ro : Bool) (more : Prog Region (Result A)) (body : Body A)
    (s : Region)
    → Decided ro more (serial assert_mode ro body s)
serial-Decided assert_mode ro more (returns a) s = refl
serial-Decided assert_mode ro more (raises e) s = refl
serial-Decided assert_mode ro more (reads source size next) s =
    serial-Decided assert_mode ro more (next (bytes_at s.bytes source size)) s
serial-Decided assert_mode ro more (writes source target next) s =
    elim (Bool-cases (assert_mode && ro)) [
      | inl barred ↦ rw barred refl
      | inr made ↦ rw made (serial-Decided assert_mode ro more next (written s source target))
    ]
serial-Decided assert_mode ro more (allocs size next) s = elim (Bool-cases (assert_mode && ro)) [
  | inl barred ↦ rw barred refl
  | inr made ↦ rw made (
      alloc-Decided ro more s _
        (λ sn. serial-Decided assert_mode ro more (next (sn + node_size)) (linked s sn size))
        (next_answer s.memaligns))
]
serial-Decided assert_mode ro more (frees target next) s = elim (Bool-cases (assert_mode && ro)) [
  | inl barred ↦ rw barred refl
  | inr made ↦ rw made (
      free-Decided ro more _
        (λ l. serial-Decided assert_mode ro more next (record s { allocs = l }))
        (unlink (target - node_size) s.allocs))
]

alone-Decided :
    {A : Type 0} (assert_mode ro : Bool) (more : Prog Region (Result A)) (body : Body A)
    (s : Region)
    → after_run (again more) (alone assert_mode ro body s) ≡ alone assert_mode ro body s
alone-Decided assert_mode ro more body s = elim (Bool-cases (lock_answer s.lock_answers)) [
  | inl ok ↦ rw ok (serial-Decided assert_mode ro more body (locked_by ro s))
  | inr no_lock ↦ rw no_lock refl
]

-- A transaction over the lock-based memory that is not interrupted, from a state in which no thread
-- holds the lock and with at least one round: it ends in the first. If the lock can be taken, it has
-- the result and the memory that its closure gives on the bytes of the region, under the lock that it
-- then gives back, and has no end only where the closure frees what is no segment; if the lock cannot
-- be taken, it throws the exception of a failed begin and makes no call.
pub transactional-serial :
    {A : Type 0} (n : ℕ) (assert_mode ro : Bool) (body : Body A) (s : Region)
    → s.readers ≡ 0
    → s.writer ≡ false
    → run (transactional (suc n) reference assert_mode ro body) s ≡ alone assert_mode ro body s
unfolding transactional
transactional-serial n assert_mode ro body s r w =
    run-then (attempt reference assert_mode ro body)
      (again (transactional n reference assert_mode ro body)) s _
      (run-attempt assert_mode ro body s r w)
    ∙ alone-Decided assert_mode ro (transactional n reference assert_mode ro body) body s
