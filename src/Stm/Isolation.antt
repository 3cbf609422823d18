-- ===== src/Stm/Isolation.antt =====
-- Until it commits, a transaction is invisible: which functions of tm.c leave the words, the locks and
-- the clock alone in every step.
pub mod Writes
use cs453_concurrent_algorit.Prelude.{
  ℕ, zero, suc, ◌+◌, ◌*◌, ◌/◌, ◌==◌, ◌≡◌, refl, inl, inr, Bool, true, false, not, Option, none,
  some, List, [], ◌∷◌, ltb, arith, Bool-cases, length, if◌then◌else◌,
}
use cs453_concurrent_algorit.Prog.{Prog, ret, fault, act, ◌>>=◌}
use cs453_concurrent_algorit.Region.{Loc, Segment, Shared}
use cs453_concurrent_algorit.VersionedLock.{vl_read_version}
use cs453_concurrent_algorit.Stm.Tx.{Tx, RsItem, own_write}
use cs453_concurrent_algorit.Stm.Cleanup.{transaction_cleanup}
use cs453_concurrent_algorit.Stm.Read.{
  fits_int, next_place, abort, grow_rs, add_to_readset, revalidate_sets, record_read, extend_to,
  extend_rv, rw_transaction_read, record_ro_read, read_versioned, read_after, read_shared,
  validated, ro_copy, ro_read_segment, read_word, read_words, versions, copy_words, post_validate,
  post_validate_all, ro_transaction_read, tm_read,
}
use cs453_concurrent_algorit.Stm.Write.{
  push_ws, store_entry, add_entry, write_entry, add_to_writeset, write_word, write_words, tm_write,
}

-- The two states have the same memory.
abbrev pub SameMemory : Shared → Shared → Type 0
SameMemory s t = (t.words ≡ s.words) × (t.locks ≡ s.locks) × (t.global_version ≡ s.global_version)

-- No step of the thread changes the memory.
abbrev pub Quiet : {A : Type 0} → Prog Shared A → Type 0
Quiet (ret a) = Unit {0}
Quiet fault = Unit {0}
Quiet (act en f k) = ((s : Shared) → SameMemory s (f s)) × ((s : Shared) → Quiet (k s))

pub Quiet-bind :
    {A B : Type 0} (m : Prog Shared A) (g : A → Prog Shared B)
    → Quiet m
    → ((a : A) → Quiet (g a))
    → Quiet (m >>= g)
Quiet-bind (ret a) g h k = k a
Quiet-bind fault g h k = tt
Quiet-bind (act en f m) g h k = (h.0, λ s. Quiet-bind (m s) g (h.1 s) k)

pub Quiet-if :
    {A : Type 0} (b : Bool) (m n : Prog Shared A) → Quiet m → Quiet n → Quiet (if b then m else n)
Quiet-if true m n h k = h
Quiet-if false m n h k = k

abbrev pub same : (s : Shared) → SameMemory s s
same s = (refl, refl, refl)

pub transaction_cleanup-Quiet : (failed : Bool) → Quiet (transaction_cleanup failed)
unfolding transaction_cleanup
transaction_cleanup-Quiet true = (λ s. ground arith, λ s. tt)
transaction_cleanup-Quiet false = tt

pub abort-Quiet : (A : Type 0) → Quiet (abort {A = A})
unfolding abort transaction_cleanup
abort-Quiet A = ground arith

grow_rs-Quiet : (t : Tx) (l : Loc) (v : ℕ) → Quiet (grow_rs t l v)
unfolding grow_rs
grow_rs-Quiet t l v = ground arith

add_to_readset-Quiet : (t : Tx) (l : Loc) (v : ℕ) → Quiet (add_to_readset t l v)
unfolding add_to_readset
add_to_readset-Quiet t l v = ground (arith, grow_rs-Quiet t l v)

pub vl_read_version-Quiet : (l : Loc) → Quiet (vl_read_version l)
unfolding vl_read_version
vl_read_version-Quiet l = (same, λ s. tt)

revalidate_sets-Quiet : (rs : List RsItem) → Quiet (revalidate_sets rs)
unfolding revalidate_sets vl_read_version
revalidate_sets-Quiet [] = tt
revalidate_sets-Quiet (r ∷ rs) = ground (arith, revalidate_sets-Quiet rs)

record_read-Quiet : (t : Tx) (l : Loc) (v value : ℕ) → Quiet (record_read t l v value)
unfolding record_read
record_read-Quiet t l v value =
    Quiet-bind (add_to_readset t l v) _ (add_to_readset-Quiet t l v) (λ _. tt)

read_versioned-Quiet : (align : ℕ) (t : Tx) (l : Loc) (v : ℕ) → Quiet (read_versioned align t l v)
unfolding read_versioned vl_read_version
read_versioned-Quiet align t l v = Quiet-if (not (fits_int (l.word * align))) _ _ tt (
  same,
  λ s. (same, λ s'. ground (arith, abort-Quiet (Tx × ℕ), record_read-Quiet t l v (s.words l))),
)

read_after-Quiet : (align : ℕ) (t : Tx) (l : Loc) (r : Option ℕ) → Quiet (read_after align t l r)
unfolding read_after
read_after-Quiet align t l none = abort-Quiet _
read_after-Quiet align t l (some v) =
    ground (arith, abort-Quiet (Tx × ℕ), read_versioned-Quiet align t l v)

read_word-Quiet :
    (align : ℕ) (seg : Option Segment) (t : Tx) (curr : ℕ) (l : Loc)
    → Quiet (read_word align seg t curr l)
unfolding read_word read_shared
read_word-Quiet align seg t curr l = ground (
  arith,
  Quiet-bind (vl_read_version l) (read_after align t l) (vl_read_version-Quiet l)
      (read_after-Quiet align t l),
)

read_words-Quiet :
    (align : ℕ) (seg : Option Segment) (n bytes : ℕ) (t : Tx) (source : ℕ) (l : Loc)
    → Quiet (read_words align seg n bytes t source l)
unfolding read_words
read_words-Quiet align seg zero bytes t source l = tt
read_words-Quiet align seg (suc n) bytes t source l = Quiet-if (not (fits_int bytes)) _ _ tt (
    Quiet-bind (read_word align seg t (source + bytes) l) _
      (read_word-Quiet align seg t (source + bytes) l)
      (elim [
        | none ↦ tt
        | some (t', v) ↦
            Quiet-bind (read_words align seg n (bytes + align) t' source (next_place l)) _
              (read_words-Quiet align seg n (bytes + align) t' source (next_place l)) (λ _. tt)
      ]))

versions-Quiet : (n : ℕ) (l : Loc) → Quiet (versions n l)
unfolding versions
versions-Quiet zero l = tt
versions-Quiet (suc n) l = Quiet-bind (vl_read_version l) _ (vl_read_version-Quiet l) (elim [
  | none ↦ tt
  | some v ↦
      Quiet-bind (versions n (record l { word = l.word + 1 })) _
        (versions-Quiet n (record l { word = l.word + 1 })) (λ _. tt)
])

copy_words-Quiet : (n : ℕ) (l : Loc) → Quiet (copy_words n l)
unfolding copy_words
copy_words-Quiet zero l = tt
copy_words-Quiet (suc n) l = (
  same,
  λ s.
      Quiet-bind (copy_words n (record l { word = l.word + 1 })) _
        (copy_words-Quiet n (record l { word = l.word + 1 })) (λ _. tt),
)

extend_to-Quiet : (t : Tx) (next_rv : ℕ) → Quiet (extend_to t next_rv)
unfolding extend_to
extend_to-Quiet t next_rv =
    Quiet-bind (revalidate_sets t.rs) _ (revalidate_sets-Quiet t.rs) (λ _. tt)

extend_rv-Quiet : (t : Tx) (prev : ℕ) → Quiet (extend_rv t prev)
unfolding extend_rv
extend_rv-Quiet t prev = elim (Bool-cases (ltb t.rv prev)) [
  | inl newer ↦ rw newer (same, λ s. extend_to-Quiet t s.global_version)
  | inr older ↦ rw older tt
]

record_ro_read-Quiet : (t : Tx) (l : Loc) (prev : ℕ) → Quiet (record_ro_read t l prev)
unfolding record_ro_read
record_ro_read-Quiet t l prev =
    Quiet-bind (add_to_readset t l prev) _ (add_to_readset-Quiet t l prev)
      (λ added. ground (arith, abort-Quiet Tx))

validated-Quiet : (l : Loc) (prev : ℕ) (r : Option Tx) → Quiet (validated l prev r)
unfolding validated
validated-Quiet l prev none = abort-Quiet Tx
validated-Quiet l prev (some t) = record_ro_read-Quiet t l prev

post_validate-Quiet : (t : Tx) (l : Loc) (prev : ℕ) → Quiet (post_validate t l prev)
unfolding post_validate vl_read_version
post_validate-Quiet t l prev = ground (
  arith,
  abort-Quiet Tx,
  Quiet-bind (extend_rv t prev) (validated l prev) (extend_rv-Quiet t prev)
      (validated-Quiet l prev),
)

post_validate_all-Quiet : (t : Tx) (l : Loc) (prevs : List ℕ) → Quiet (post_validate_all t l prevs)
unfolding post_validate_all
post_validate_all-Quiet t l [] = tt
post_validate_all-Quiet t l (prev ∷ prevs) =
    Quiet-bind (post_validate t l prev) _ (post_validate-Quiet t l prev) (elim [
      | none ↦ tt
      | some t' ↦ post_validate_all-Quiet t' (record l { word = l.word + 1 }) prevs
    ])

ro_copy-Quiet : (t : Tx) (start : Loc) (n : ℕ) (r : Option (List ℕ)) → Quiet (ro_copy t start n r)
unfolding ro_copy
ro_copy-Quiet t start n none = abort-Quiet _
ro_copy-Quiet t start n (some prev) =
    Quiet-bind (copy_words n start) _ (copy_words-Quiet n start) (λ values.
      Quiet-bind (post_validate_all t start prev) _ (post_validate_all-Quiet t start prev)
        (λ valid. tt))

ro_read_segment-Quiet :
    (t : Tx) (start : Loc) (n offset size : ℕ) (seg : Option Segment)
    → Quiet (ro_read_segment t start n offset size seg)
unfolding ro_read_segment
ro_read_segment-Quiet t start n offset size none = tt
ro_read_segment-Quiet t start n offset size (some g) = ground (
  arith,
  Quiet-bind (versions n start) (ro_copy t start n) (versions-Quiet n start)
      (ro_copy-Quiet t start n),
)

ro_transaction_read-Quiet :
    (align : ℕ) (t : Tx) (source size : ℕ) → Quiet (ro_transaction_read align t source size)
unfolding ro_transaction_read
ro_transaction_read-Quiet align t source size =
    (same, λ s. ro_read_segment-Quiet t _ (size / align) _ size _)

rw_transaction_read-Quiet :
    (align : ℕ) (t : Tx) (source size : ℕ) → Quiet (rw_transaction_read align t source size)
unfolding rw_transaction_read
rw_transaction_read-Quiet align t source size =
    (same, λ s. read_words-Quiet align _ (size / align) 0 t source _)

-- No step of `tm_read`, read-only or not, changes a word, a lock word or the clock.
pub tm_read-Quiet : (t : Tx) (source size : ℕ) → Quiet (tm_read t source size)
unfolding tm_read
tm_read-Quiet t source size = (
  same,
  λ s. ground (
    arith,
    ro_transaction_read-Quiet s.align t source size,
    rw_transaction_read-Quiet s.align t source size,
  ),
)
