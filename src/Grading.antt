-- ===== src/Grading.antt =====
-- grading/transactional.hpp: the classes `TransactionalMemory` and `Transaction` and the retry loop
-- `transactional`, over any transactional library. A transaction's handle is what the library's last
-- call has made of it.
pub mod Rules
pub mod Creation
pub mod Discipline
pub mod Pointers
use cs453_concurrent_algorit.Prelude.{
  ℕ, zero, suc, ◌-◌, ◌%◌, ◌==◌, ◌&&◌, ◌||◌, bit_and, Bool, true, false, not, Option, none, some,
  List, if◌then◌else◌,
}
use cs453_concurrent_algorit.Prog.{Prog, ret, ◌>>=◌}

-- What `tm_alloc` answers, with the handle.
pub data AllocAnswer (H : Type 0) : Type 0 where
  success : H → ℕ → AllocAnswer H
  nomem : H → AllocAnswer H
  abort : AllocAnswer H

-- The functions that the library exports; `none` for `invalid_tx`, and for a transaction that the call
-- has aborted.
pub record Library (S H : Type 0) : Type 0 where
  pub tm_begin : Bool → Prog S (Option H)
  pub tm_end : H → Prog S Bool
  pub tm_read : H → ℕ → ℕ → Prog S (Option (H × List ℕ))
  pub tm_write : H → List ℕ → ℕ → Prog S (Option H)
  pub tm_alloc : H → ℕ → Prog S (AllocAnswer H)
  pub tm_free : H → ℕ → Prog S (Option H)

-- The exceptions of the class `Shared`.
pub data SharedError : Type 0 where
  shared_align shared_overflow shared_double_alloc shared_double_free : SharedError

pub data Exception : Type 0 where
  transaction_align transaction_create transaction_begin : Exception
  transaction_retry transaction_read_only transaction_alloc : Exception
  shared : SharedError → Exception
  -- the destructor throws while another exception is on its way: `std::terminate`
  terminated : Exception

pub data Result (A : Type 0) : Type 0 where
  value : A → Result A
  throws : Exception → Result A

-- `(align & (align - 1)) == 0`, on 64-bit words
unfoldable pub is_power_of_two : ℕ → Bool
is_power_of_two align = not (align == 0) && bit_and align (align - 1) == 0

-- The constructor of `TransactionalMemory`, over a `tm_create` that takes the size and the alignment.
unfoldable pub bind_memory :
    {S : Type 0} → (ℕ → ℕ → Prog S Bool) → Bool → ℕ → ℕ → Prog S (Result (Unit {0}))
bind_memory create assert_mode align size =
    if assert_mode && (not (is_power_of_two align) || not (size % align == 0))
    then ret (throws transaction_align)
    else (create size align >>= λ ok. ret (if ok then value tt else throws transaction_create))

-- The class `Transaction`. The handle of an aborted transaction is gone.
pub record Transaction (H : Type 0) : Type 0 where
  pub tx : Option H
  pub is_ro : Bool

abbrev pub opened : {H : Type 0} → Bool → H → Transaction H
opened ro h = record { tx = some h; is_ro = ro }

abbrev pub aborted : {H : Type 0} → Bool → Transaction H
aborted ro = record { tx = none; is_ro = ro }

-- What a call leaves: the transaction, and its value or an exception.
abbrev pub Call : Type 0 → Type 0 → Type 0
Call H A = Transaction H × Result A

abbrev pub retry : {H A : Type 0} → Bool → Call H A
retry ro = (aborted ro, throws transaction_retry)

abbrev pub read_result : {H : Type 0} → Bool → Option (H × List ℕ) → Call H (List ℕ)
read_result ro none = retry ro
read_result ro (some (h, vs)) = (opened ro h, value vs)

abbrev pub done_result : {H : Type 0} → Bool → Option H → Call H (Unit {0})
done_result ro none = retry ro
done_result ro (some h) = (opened ro h, value tt)

abbrev pub alloc_call : {H : Type 0} → Bool → AllocAnswer H → Call H ℕ
alloc_call ro (success h target) = (opened ro h, value target)
alloc_call ro (nomem h) = (opened ro h, throws transaction_alloc)
alloc_call ro abort = retry ro

unfoldable pub read : {S H : Type 0} → Library S H → Bool → H → ℕ → ℕ → Prog S (Call H (List ℕ))
read lib ro h source size = lib.tm_read h source size >>= λ r. ret (read_result ro r)

-- `assert_mode` is fixed when the grader is built.
unfoldable pub write :
    {S H : Type 0} → Library S H → Bool → Bool → H → List ℕ → ℕ → Prog S (Call H (Unit {0}))
write lib assert_mode ro h source target =
    if assert_mode && ro
    then ret (opened ro h, throws transaction_read_only)
    else (lib.tm_write h source target >>= λ r. ret (done_result ro r))

unfoldable pub alloc : {S H : Type 0} → Library S H → Bool → Bool → H → ℕ → Prog S (Call H ℕ)
alloc lib assert_mode ro h size =
    if assert_mode && ro
    then ret (opened ro h, throws transaction_read_only)
    else (lib.tm_alloc h size >>= λ r. ret (alloc_call ro r))

unfoldable pub free :
    {S H : Type 0} → Library S H → Bool → Bool → H → ℕ → Prog S (Call H (Unit {0}))
free lib assert_mode ro h target =
    if assert_mode && ro
    then ret (opened ro h, throws transaction_read_only)
    else (lib.tm_free h target >>= λ r. ret (done_result ro r))

-- The closure that a transaction runs: its calls, each chosen from what the calls before it gave. It
-- may throw an exception of `Shared`.
pub data Body (A : Type 0) : Type 0 where
  returns : A → Body A
  raises : SharedError → Body A
  reads : ℕ → ℕ → (List ℕ → Body A) → Body A
  writes : List ℕ → ℕ → Body A → Body A
  allocs : ℕ → (ℕ → Body A) → Body A
  frees : ℕ → Body A → Body A

-- What follows a call: the rest of the body, unless the call has thrown.
abbrev pub proceed :
    {S H A B : Type 0} → (H → A → Prog S (Call H B)) → Bool → A → Option H → Prog S (Call H B)
proceed k ro a none = ret (retry ro)
proceed k ro a (some h) = k h a

abbrev pub continue :
    {S H A B : Type 0} → (H → A → Prog S (Call H B)) → Call H A → Prog S (Call H B)
continue k (t, throws e) = ret (t, throws e)
continue k (t, value a) = proceed k t.is_ro a t.tx

unfoldable pub perform :
    {S H A : Type 0} → Library S H → Bool → Bool → Body A → H → Prog S (Call H A)
perform lib assert_mode ro (returns a) h = ret (opened ro h, value a)
perform lib assert_mode ro (raises e) h = ret (opened ro h, throws (shared e))
perform lib assert_mode ro (reads source size next) h =
    read lib ro h source size >>= continue (λ h' vs. perform lib assert_mode ro (next vs) h')
perform lib assert_mode ro (writes source target next) h =
    write lib assert_mode ro h source target
    >>= continue (λ h' _. perform lib assert_mode ro next h')
perform lib assert_mode ro (allocs size next) h =
    alloc lib assert_mode ro h size
    >>= continue (λ h' target. perform lib assert_mode ro (next target) h')
perform lib assert_mode ro (frees target next) h =
    free lib assert_mode ro h target >>= continue (λ h' _. perform lib assert_mode ro next h')

-- What the destructor makes of the body's result, when it has ended the transaction.
abbrev pub end_result : {A : Type 0} → Result A → Bool → Result A
end_result r true = r
end_result (value a) false = throws transaction_retry
end_result (throws e) false = throws terminated

-- The destructor.
abbrev pub end_tx : {S H A : Type 0} → Library S H → Result A → Option H → Prog S (Result A)
end_tx lib r none = ret r
end_tx lib r (some h) = lib.tm_end h >>= λ ok. ret (end_result r ok)

unfoldable pub destroy : {S H A : Type 0} → Library S H → Call H A → Prog S (Result A)
destroy lib (t, r) = end_tx lib r t.tx

abbrev pub run_body :
    {S H A : Type 0} → Library S H → Bool → Bool → Body A → Option H → Prog S (Result A)
run_body lib assert_mode ro body none = ret (throws transaction_begin)
run_body lib assert_mode ro body (some h) = perform lib assert_mode ro body h >>= destroy lib

-- One round of `transactional`: the constructor, the body and the destructor.
unfoldable pub attempt : {S H A : Type 0} → Library S H → Bool → Bool → Body A → Prog S (Result A)
attempt lib assert_mode ro body = lib.tm_begin ro >>= run_body lib assert_mode ro body

-- Any exception but the retry leaves the loop.
abbrev pub again : {S A : Type 0} → Prog S (Result A) → Result A → Prog S (Result A)
again more (value a) = ret (value a)
again more (throws transaction_retry) = more
again more (throws e) = ret (throws e)

-- At most `n` rounds; the result is the retry if none of them was the last.
unfoldable pub transactional :
    {S H A : Type 0} → ℕ → Library S H → Bool → Bool → Body A → Prog S (Result A)
transactional zero lib assert_mode ro body = ret (throws transaction_retry)
transactional (suc n) lib assert_mode ro body =
    attempt lib assert_mode ro body >>= again (transactional n lib assert_mode ro body)
