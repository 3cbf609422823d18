-- ===== src/Reference/Serial/Parts.antt =====
-- What each call of grading/transactional.hpp over reference/tm.c leaves, run alone.
use cs453_concurrent_algorit.Prelude.{
  ℕ, zero, suc, ◌+◌, ◌-◌, ◌&&◌, ◌≡◌, refl, ap, ◌∙◌, inl, inr, Bool, true, false, Option, none, some,
  List, [], ◌∷◌, Bool-cases,
}
use cs453_concurrent_algorit.Prog.{Prog, ret, fault, act, modify, ◌>>=◌, run}
use cs453_concurrent_algorit.Grading.{
  AllocAnswer, success, nomem, transaction_read_only, transaction_alloc, value, throws, opened,
  Call, alloc_call, done_result, Body, read, write, alloc, free, perform, continue,
}
use cs453_concurrent_algorit.Reference.{
  Region, LockTx, node_size, next_answer, answers_after, posix_memalign, clear, copy_out, copy_in,
  tm_read_locked, tm_write_locked, link_segment, tm_alloc_locked, unlink, tm_free_locked, reference,
}
use cs453_concurrent_algorit.Reference.Copies.{bytes_at}
use cs453_concurrent_algorit.Reference.Serial.{zeros_after, written, linked, Outcome, serial}

-- A run of two parts.
abbrev pub after_run : {S A B : Type 0} → (A → Prog S B) → Option (A × S) → Option (B × S)
after_run g none = none
after_run g (some (a, s)) = run (g a) s

run-bind :
    {S A B : Type 0} (m : Prog S A) (g : A → Prog S B) (s : S)
    → run (m >>= g) s ≡ after_run g (run m s)
run-bind (ret a) g s = refl
run-bind fault g s = refl
run-bind (act en f k) g s = elim (Bool-cases (en s)) [
  | inl on ↦ rw (on, run-bind (k s) g (f s)) refl
  | inr off ↦ rw off refl
]

run-copy_out :
    (source n : ℕ) (s : Region) → run (copy_out source n) s ≡ some (bytes_at s.bytes source n, s)
unfolding copy_out
run-copy_out source zero s = refl
run-copy_out source (suc n) s =
    run-bind (copy_out (source + 1) n) (λ vs. ret (s.bytes source ∷ vs)) s
    ∙ ap (after_run (λ vs. ret (s.bytes source ∷ vs))) (run-copy_out (source + 1) n s)

run-copy_in :
    (vs : List ℕ) (target : ℕ) (s : Region)
    → run (copy_in vs target) s ≡ some (tt, written s vs target)
unfolding copy_in
run-copy_in [] target s = refl
run-copy_in (v ∷ vs) target s = run-copy_in vs (target + 1) _

run-clear :
    (a n : ℕ) (s : Region)
    → run (clear a n) s ≡ some (tt, record s { bytes = zeros_after a n s.bytes })
unfolding clear
run-clear a zero s = refl
run-clear a (suc n) s = run-clear (a + 1) n _

-- A first part whose run is known.
pub run-then :
    {S A B : Type 0} (m : Prog S A) (g : A → Prog S B) (s : S) (r : Option (A × S))
    → run m s ≡ r
    → run (m >>= g) s ≡ after_run g r
run-then m g s r e = run-bind m g s ∙ ap (after_run g) e

pub run-read :
    (ro : Bool) (h : LockTx) (source size : ℕ) (s : Region)
    → run (read reference ro h source size) s
      ≡ some ((opened ro h, value (bytes_at s.bytes source size)), s)
unfolding read tm_read_locked
run-read ro h source size s =
    run-then (tm_read_locked h source size) _ s (some (some (h, bytes_at s.bytes source size), s)) (
      run-then (copy_out source size) _ s (some (bytes_at s.bytes source size, s))
        (run-copy_out source size s))

run-write :
    (h : LockTx) (ro : Bool) (source : List ℕ) (target : ℕ) (s : Region)
    → run (tm_write_locked h source target) s ≡ some (some h, written s source target)
unfolding tm_write_locked
run-write h ro source target s =
    run-then (copy_in source target) _ s (some (tt, written s source target))
      (run-copy_in source target s)

-- What `tm_alloc` and `tm_free` of the reference leave.
abbrev pub alloc_run : LockTx → ℕ → Region → Option ℕ → Option (AllocAnswer LockTx × Region)
alloc_run h size s none = some (nomem h, record s { memaligns = answers_after s.memaligns })
alloc_run h size s (some sn) = some (success h (sn + node_size), linked s sn size)

run-link :
    (h : LockTx) (size : ℕ) (s : Region) (r : Option ℕ)
    → run (link_segment h size r) (record s { memaligns = answers_after s.memaligns })
      ≡ alloc_run h size s r
unfolding link_segment
run-link h size s none = refl
run-link h size s (some sn) =
    run-then (clear (sn + node_size) size) (λ _. ret (success h (sn + node_size)))
      (record s { memaligns = answers_after s.memaligns; allocs = sn ∷ s.allocs })
      (some (tt, linked s sn size)) (run-clear (sn + node_size) size _)

run-alloc :
    (h : LockTx) (size : ℕ) (s : Region)
    → run (tm_alloc_locked h size) s ≡ alloc_run h size s (next_answer s.memaligns)
unfolding tm_alloc_locked posix_memalign
run-alloc h size s = run-link h size s (next_answer s.memaligns)

abbrev pub free_run : LockTx → Region → Option (List ℕ) → Option (Option LockTx × Region)
free_run h s none = none
free_run h s (some l) = some (some h, record s { allocs = l })

run-unlinked :
    (h : LockTx) (s : Region) (r : Option (List ℕ))
    → run
        (elim r [
          | none ↦ fault
          | some rest ↦ (modify (λ s. record s { allocs = rest }) >>= λ _. ret (some h))
        ])
        s
      ≡ free_run h s r
run-unlinked h s none = refl
run-unlinked h s (some l) = refl

run-free :
    (h : LockTx) (target : ℕ) (s : Region)
    → run (tm_free_locked h target) s ≡ free_run h s (unlink (target - node_size) s.allocs)
unfolding tm_free_locked
run-free h target s = run-unlinked h s (unlink (target - node_size) s.allocs)

-- The result of a closure as that of a call in an open transaction.
abbrev pub called : {A : Type 0} → Bool → LockTx → Outcome A → Option (Call LockTx A × Region)
called ro h none = none
called ro h (some (r, u)) = some ((opened ro h, r), u)

-- A call that a read-only transaction may not make, and one that is made.
module _ (assert_mode ro : Bool) (h : LockTx) (s : Region) where
  module _ (barred : (assert_mode && ro) ≡ true) where
    pub run-write_barred :
        (source : List ℕ) (target : ℕ)
        → run (write reference assert_mode ro h source target) s
          ≡ some ((opened ro h, throws transaction_read_only), s)
    unfolding write
    run-write_barred source target = rw barred refl

    pub run-alloc_barred :
        (size : ℕ)
        → run (alloc reference assert_mode ro h size) s
          ≡ some ((opened ro h, throws transaction_read_only), s)
    unfolding alloc
    run-alloc_barred size = rw barred refl

    pub run-free_barred :
        (target : ℕ)
        → run (free reference assert_mode ro h target) s
          ≡ some ((opened ro h, throws transaction_read_only), s)
    unfolding free
    run-free_barred target = rw barred refl

  module _ (made : (assert_mode && ro) ≡ false) where
    pub run-write_made :
        (source : List ℕ) (target : ℕ)
        → run (write reference assert_mode ro h source target) s
          ≡ some ((opened ro h, value tt), written s source target)
    unfolding write
    run-write_made source target = rw made (
        run-then (tm_write_locked h source target) _ s (some (some h, written s source target))
          (run-write h ro source target s))

    -- What the call gives, and the rest of the closure.
    pub alloc_rest :
        {A : Type 0} (size : ℕ) (next : ℕ → Body A)
        → ((sn : ℕ)
            → run (perform reference assert_mode ro (next (sn + node_size)) h) (linked s sn size)
              ≡ called ro h (serial assert_mode ro (next (sn + node_size)) (linked s sn size)))
        → (r : Option ℕ)
        → after_run
            (continue (λ h' target. perform reference assert_mode ro (next target) h'))
            (after_run (λ r. ret (alloc_call ro r)) (alloc_run h size s r))
          ≡ called ro h (elim r [
            | none ↦
                some (throws transaction_alloc, record s { memaligns = answers_after s.memaligns })
            | some sn ↦ serial assert_mode ro (next (sn + node_size)) (linked s sn size)
          ])
    alloc_rest size next e none = refl
    alloc_rest size next e (some sn) = e sn

    pub run-alloc_made :
        (size : ℕ)
        → run (alloc reference assert_mode ro h size) s
          ≡ after_run (λ r. ret (alloc_call ro r)) (alloc_run h size s (next_answer s.memaligns))
    unfolding alloc
    run-alloc_made size = rw made (
        run-then (tm_alloc_locked h size) _ s (alloc_run h size s (next_answer s.memaligns))
          (run-alloc h size s))

    pub free_rest :
        {A : Type 0} (next : Body A)
        → ((l : List ℕ)
            → run (perform reference assert_mode ro next h) (record s { allocs = l })
              ≡ called ro h (serial assert_mode ro next (record s { allocs = l })))
        → (r : Option (List ℕ))
        → after_run
            (continue (λ h' _. perform reference assert_mode ro next h'))
            (after_run (λ r. ret (done_result ro r)) (free_run h s r))
          ≡ called ro h (elim r [
            | none ↦ none
            | some l ↦ serial assert_mode ro next (record s { allocs = l })
          ])
    free_rest next e none = refl
    free_rest next e (some l) = e l

    pub run-free_made :
        (target : ℕ)
        → run (free reference assert_mode ro h target) s
          ≡ after_run
              (λ r. ret (done_result ro r))
              (free_run h s (unlink (target - node_size) s.allocs))
    unfolding free
    run-free_made target = rw made (
        run-then (tm_free_locked h target) _ s (free_run h s (unlink (target - node_size) s.allocs))
          (run-free h target s))
