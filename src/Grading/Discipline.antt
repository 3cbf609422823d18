-- ===== src/Grading/Discipline.antt =====
-- grading/transactional.hpp: how `Transaction` and `transactional` use a library.
use cs453_concurrent_algorit.Prelude.{
  ℕ, zero, suc, ◌≡◌, refl, sym, subst, Bool, true, false, Option, none, some, List, ◌∷◌, length,
}
use cs453_concurrent_algorit.Grading.Rules.{Segments, drop, IsSize, IsRange, Obeys, is_retry}
use cs453_concurrent_algorit.Prog.{Prog, ◌>>=◌, Ends, Ends-bind}
use cs453_concurrent_algorit.Grading.{
  AllocAnswer, success, nomem, abort, Library, Exception, transaction_begin, transaction_retry,
  transaction_read_only, transaction_alloc, terminated, Result, value, throws, Call, read, write,
  alloc, free, Body, returns, raises, shared, transaction_align, transaction_create, reads, writes,
  allocs, frees, continue, perform, end_tx, proceed, destroy, attempt, transactional,
}

-- What the headers ask of a library for a thread that nothing interrupts. `Idle segments s`: in the
-- state `s` the thread has no transaction open, and the allocated segments are these.
-- `Busy ro h before segments s`: it has the one with the handle `h`, which began with the segments
-- `before` and now has `segments`.
module _ {S H : Type 0} (align : ℕ) (first : ℕ × ℕ) (Idle : Segments → S → Type 0)
    (Busy : Bool → H → Segments → Segments → S → Type 0) where
  abbrev pub Handed : Bool → Segments → Segments → Option H → S → Type 0
  Handed ro before segments none u = Idle before u
  Handed ro before segments (some h) u = Busy ro h before segments u

  abbrev pub HandedRead : Bool → Segments → Segments → Option (H × List ℕ) → S → Type 0
  HandedRead ro before segments none u = Idle before u
  HandedRead ro before segments (some (h, vs)) u = Busy ro h before segments u

  abbrev pub HandedAlloc : Segments → Segments → ℕ → AllocAnswer H → S → Type 0
  HandedAlloc before segments size (success h target) u =
      Busy false h before ((target, size) ∷ segments) u
  HandedAlloc before segments size (nomem h) u = Busy false h before segments u
  HandedAlloc before segments size abort u = Idle before u

  -- A commit that fails takes the allocations and the frees back.
  abbrev pub Closed : Segments → Segments → Bool → S → Type 0
  Closed before segments true u = Idle segments u
  Closed before segments false u = Idle before u

  -- Each call returns, if its arguments are as the headers ask. A call that fails has closed the
  -- transaction, as `tm_end` does; a read-only transaction only reads.
  pub record IsLawful (lib : Library S H) : Type 0 where
    pub begins :
        (ro : Bool) (segments : Segments) (s : S)
        → Idle segments s
        → Ends (Handed ro segments segments) (lib.tm_begin ro) s
    pub ends :
        (ro : Bool) (h : H) (before segments : Segments) (s : S)
        → Busy ro h before segments s
        → Ends (Closed before segments) (lib.tm_end h) s
    pub read_law :
        (ro : Bool) (h : H) (before segments : Segments) (source size : ℕ) (s : S)
        → IsRange align (first ∷ segments) source size
        → Busy ro h before segments s
        → Ends (HandedRead ro before segments) (lib.tm_read h source size) s
    pub write_law :
        (h : H) (before segments : Segments) (source : List ℕ) (target : ℕ) (s : S)
        → IsRange align (first ∷ segments) target (length source)
        → Busy false h before segments s
        → Ends (Handed false before segments) (lib.tm_write h source target) s
    pub alloc_law :
        (h : H) (before segments : Segments) (size : ℕ) (s : S)
        → IsSize align size
        → Busy false h before segments s
        → Ends (HandedAlloc before segments size) (lib.tm_alloc h size) s
    pub free_law :
        (h : H) (before segments rest : Segments) (target : ℕ) (s : S)
        → drop target segments ≡ some rest
        → Busy false h before segments s
        → Ends (Handed false before rest) (lib.tm_free h target) s

  -- After a call: the transaction is open, with what `P` says of its value, or with any segments if
  -- it has thrown; or it was aborted and nothing is open.
  abbrev After :
      {A : Type 0} → Bool → Segments → (H → A → S → Type 0) → Result A → Option H → S → Type 0
  After ro before P r none u = Idle before u
  After ro before P (value a) (some h) u = P h a u
  After ro before P (throws e) (some h) u =
      (is_retry e ≡ false) × ((segments : Segments) × Busy ro h before segments u)

  abbrev CallAfter : {A : Type 0} → Bool → Segments → (H → A → S → Type 0) → Call H A → S → Type 0
  CallAfter ro before P (t, r) u = After ro before P r t.tx u

  abbrev Open : {A : Type 0} → Bool → Segments → H → A → S → Type 0
  Open ro before h a u = (segments : Segments) × Busy ro h before segments u

  abbrev Held : {A : Type 0} → Bool → Segments → Call H A → S → Type 0
  Held {A} ro before c u = CallAfter ro before (Open {A = A} ro before) c u

  -- The thread has no transaction open.
  abbrev pub AtRest : S → Type 0
  AtRest u = (segments : Segments) × Idle segments u

  abbrev LeftBy : Bool → Segments → S → Type 0
  LeftBy true before u = Idle before u
  LeftBy false before u = AtRest u

  -- After a round: before another one, the segments are those of its start.
  abbrev Left : {A : Type 0} → Segments → Result A → S → Type 0
  Left before (value a) u = AtRest u
  Left before (throws e) u = LeftBy (is_retry e) before u

  module _ (lib : Library S H) (law : IsLawful lib) where
    proceed-Held :
        {A B : Type 0} (ro is_ro : Bool) (before : Segments) (P : H → A → S → Type 0)
        (k : H → A → Prog S (Call H B)) (a : A) (tx : Option H) (u : S)
        → After ro before P (value a) tx u
        → ((h : H) (a : A) (v : S) → P h a v → Ends (Held ro before) (k h a) v)
        → Ends (Held ro before) (proceed k is_ro a tx) u
    proceed-Held ro is_ro before P k a none u b f = b
    proceed-Held ro is_ro before P k a (some h) u b f = f h a u b

    thrown-Held :
        {A : Type 0} (B : Type 0) (ro : Bool) (before : Segments) (P : H → A → S → Type 0)
        (e : Exception) (tx : Option H) (u : S)
        → After ro before P (throws e) tx u
        → After ro before (Open {A = B} ro before) (throws e) tx u
    thrown-Held B ro before P e none u b = b
    thrown-Held B ro before P e (some h) u b = b

    continue_after :
        {A : Type 0} (B : Type 0) (ro : Bool) (before : Segments) (P : H → A → S → Type 0)
        (k : H → A → Prog S (Call H B)) (c : Call H A) (u : S)
        → CallAfter ro before P c u
        → ((h : H) (a : A) (v : S) → P h a v → Ends (Held ro before) (k h a) v)
        → Ends (Held ro before) (continue k c) u
    continue_after B ro before P k (t, throws e) u b f = thrown-Held B ro before P e t.tx u b
    continue_after B ro before P k (t, value a) u b f =
        proceed-Held ro t.is_ro before P k a t.tx u b f

    continue-Held :
        {A B : Type 0} (ro : Bool) (before : Segments) (P : H → A → S → Type 0)
        (m : Prog S (Call H A)) (k : H → A → Prog S (Call H B)) (s : S)
        → Ends (CallAfter ro before P) m s
        → ((h : H) (a : A) (u : S) → P h a u → Ends (Held ro before) (k h a) u)
        → Ends (Held ro before) (m >>= continue k) s
    continue-Held {B = B} ro before P m k s h f =
        Ends-bind (CallAfter ro before P) (Held ro before) m (continue k) s h
          (λ c u b. continue_after B ro before P k c u b f)

    module _ (ro : Bool) (h : H) (before segments : Segments) (s : S)
        (b : Busy ro h before segments s) where
      read-After :
          (source size : ℕ)
          → IsRange align (first ∷ segments) source size
          → Ends
              (CallAfter ro before (λ h' _ u. Busy ro h' before segments u))
              (read lib ro h source size)
              s
      unfolding read
      read-After source size range =
          Ends-bind (HandedRead ro before segments)
            (CallAfter ro before (λ h' _ u. Busy ro h' before segments u))
            (lib.tm_read h source size) _ s
            (law.read_law ro h before segments source size s range b)
            (elim [ none ↦ λ u i. i | some p ↦ λ u i. i ])

    write-After :
        (ro : Bool) (h : H) (before segments : Segments) (s : S) (source : List ℕ) (target : ℕ)
        → Busy ro h before segments s
        → IsRange align (first ∷ segments) target (length source)
        → Ends
            (CallAfter ro before (λ h' _ u. Busy ro h' before segments u))
            (write lib true ro h source target)
            s
    unfolding write
    write-After true h before segments s source target b range = (refl, (segments, b))
    write-After false h before segments s source target b range =
        Ends-bind (Handed false before segments)
          (CallAfter false before (λ h' _ u. Busy false h' before segments u))
          (lib.tm_write h source target) _ s
          (law.write_law h before segments source target s range b)
          (elim [ none ↦ λ u i. i | some h' ↦ λ u i. i ])

    alloc-After :
        (ro : Bool) (h : H) (before segments : Segments) (s : S) (size : ℕ)
        → Busy ro h before segments s
        → IsSize align size
        → Ends
            (CallAfter ro before (λ h' target u. Busy ro h' before ((target, size) ∷ segments) u))
            (alloc lib true ro h size)
            s
    unfolding alloc
    alloc-After true h before segments s size b sized = (refl, (segments, b))
    alloc-After false h before segments s size b sized =
        Ends-bind (HandedAlloc before segments size)
          (CallAfter false before
            (λ h' target u. Busy false h' before ((target, size) ∷ segments) u))
          (lib.tm_alloc h size) _ s (law.alloc_law h before segments size s sized b)
          (elim [
            | success h' target ↦ λ u i. i
            | nomem h' ↦ λ u i. (refl, (segments, i))
            | abort ↦ λ u i. i
          ])

    free-After :
        (ro : Bool) (h : H) (before segments rest : Segments) (s : S) (target : ℕ)
        → Busy ro h before segments s
        → drop target segments ≡ some rest
        → Ends
            (CallAfter ro before (λ h' _ u. Busy ro h' before rest u))
            (free lib true ro h target)
            s
    unfolding free
    free-After true h before segments rest s target b dropped = (refl, (segments, b))
    free-After false h before segments rest s target b dropped =
        Ends-bind (Handed false before rest)
          (CallAfter false before (λ h' _ u. Busy false h' before rest u)) (lib.tm_free h target) _
          s (law.free_law h before segments rest target s dropped b)
          (elim [ none ↦ λ u i. i | some h' ↦ λ u i. i ])

    perform-Held :
        {A : Type 0} (ro : Bool) (body : Body A) (h : H) (before segments : Segments) (s : S)
        → Obeys align first segments body
        → Busy ro h before segments s
        → Ends (Held ro before) (perform lib true ro body h) s
    unfolding perform
    perform-Held ro (returns a) h before segments s o b = (segments, b)
    perform-Held ro (raises e) h before segments s o b = (refl, (segments, b))
    perform-Held ro (reads source size next) h before segments s o b =
        continue-Held ro before (λ h' _ u. Busy ro h' before segments u) (read lib ro h source size)
          _ s (read-After ro h before segments s b source size o.0)
          (λ h' vs u i. perform-Held ro (next vs) h' before segments u (o.1 vs) i)
    perform-Held ro (writes source target next) h before segments s o b =
        continue-Held ro before (λ h' _ u. Busy ro h' before segments u)
          (write lib true ro h source target) _ s
          (write-After ro h before segments s source target b o.0)
          (λ h' _ u i. perform-Held ro next h' before segments u o.1 i)
    perform-Held ro (allocs size next) h before segments s o b =
        continue-Held ro before (λ h' target u. Busy ro h' before ((target, size) ∷ segments) u)
          (alloc lib true ro h size) _ s (alloc-After ro h before segments s size b o.0)
          (λ h' target u i.
            perform-Held ro (next target) h' before ((target, size) ∷ segments) u (o.1 target) i)
    perform-Held ro (frees target next) h before segments s (rest, dropped, o) b =
        continue-Held ro before (λ h' _ u. Busy ro h' before rest u) (free lib true ro h target) _ s
          (free-After ro h before segments rest s target b dropped)
          (λ h' _ u i. perform-Held ro next h' before rest u o i)

    end_tx-Left :
        {A : Type 0} (ro : Bool) (before : Segments) (r : Result A) (tx : Option H) (s : S)
        → After ro before (Open {A = A} ro before) r tx s
        → Ends (Left before) (end_tx lib r tx) s
    end_tx-Left ro before (value a) none s i = (before, i)
    end_tx-Left ro before (throws e) none s i = still (is_retry e) i
      where
        still : (b : Bool) → Idle before s → LeftBy b before s
        still true j = j
        still false j = (before, j)
    end_tx-Left ro before (value a) (some h) s (segments, b) =
        Ends-bind (Closed before segments) (Left before) (lib.tm_end h) _ s
          (law.ends ro h before segments s b)
          (elim [ true ↦ λ u i. (segments, i) | false ↦ λ u i. i ])
    end_tx-Left ro before (throws e) (some h) s (other, (segments, b)) =
        Ends-bind (Closed before segments) (Left before) (lib.tm_end h) _ s
          (law.ends ro h before segments s b)
          (elim [
            | true ↦ λ u i. subst (λ q. LeftBy q before u) (sym other) (segments, i)
            | false ↦ λ u i. (before, i)
          ])

    attempt-Left :
        {A : Type 0} (ro : Bool) (body : Body A) (segments : Segments) (s : S)
        → Obeys align first segments body
        → Idle segments s
        → Ends (Left segments) (attempt lib true ro body) s
    unfolding attempt destroy
    attempt-Left ro body segments s o i =
        Ends-bind (Handed ro segments segments) (Left segments) (lib.tm_begin ro) _ s
          (law.begins ro segments s i)
          (elim [
            | none ↦ λ u j. (segments, j)
            | some h ↦ λ u j.
                Ends-bind (Held ro segments) (Left segments) (perform lib true ro body h)
                  (destroy lib) u (perform-Held ro body h segments segments u o j)
                  (λ c v b. end_tx-Left ro segments c.1 c.0.tx v b)
          ])

    -- A thread that nothing interrupts, with the grader's assertions on, a library that keeps to the
    -- headers for such a thread, and a body that keeps to them too: its reads and writes are within
    -- segments, its sizes are positive multiples of the alignment, and it frees what was allocated and
    -- is not yet freed. Then `transactional`, after any number of rounds, returns or throws in a
    -- state where the thread has no transaction open, if it had none before: it ends each transaction
    -- that it begins once, makes no call in one that was aborted, and writes, allocates and frees in
    -- none that is read-only.
    pub transactional-Idle :
        {A : Type 0} (n : ℕ) (ro : Bool) (body : Body A) (segments : Segments) (s : S)
        → Obeys align first segments body
        → Idle segments s
        → Ends (λ _ u. AtRest u) (transactional n lib true ro body) s
    unfolding transactional
    transactional-Idle zero ro body segments s o i = (segments, i)
    transactional-Idle (suc n) ro body segments s o i =
        Ends-bind (Left segments) (λ _ u. AtRest u) (attempt lib true ro body) _ s
          (attempt-Left ro body segments s o i)
          (elim [
            | value a ↦ λ u j. j
            | throws transaction_retry ↦ λ u j. transactional-Idle n ro body segments u o j
            | throws transaction_align ↦ λ u j. j
            | throws transaction_create ↦ λ u j. j
            | throws transaction_begin ↦ λ u j. j
            | throws transaction_read_only ↦ λ u j. j
            | throws transaction_alloc ↦ λ u j. j
            | throws (shared e) ↦ λ u j. j
            | throws terminated ↦ λ u j. j
          ])
