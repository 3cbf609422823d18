-- ===== src/Stm/WaitFree.antt =====
-- The reads and the writes of a read-write transaction of 353607/tm.c never wait.
pub mod Acquire
use native.Mathlib.Nat.{div-le_self}
use cs453_concurrent_algorit.Prelude.{
  ℕ, zero, suc, ◌+◌, ◌-◌, ◌*◌, ◌/◌, ◌≤◌, ◌<◌, ◌==◌, ◌≡◌, refl, sym, subst, Bool, true, false, not,
  Option, none, some, List, [], ◌∷◌, ltb, arith, length, if◌then◌else◌,
}
use cs453_concurrent_algorit.Prog.{Prog, ret, fault, ◌>>=◌}
use cs453_concurrent_algorit.Prog.Within.{Within, Within-more, Within-bind, Within-if}
use cs453_concurrent_algorit.Region.{Loc, Segment, Shared, answer}
use cs453_concurrent_algorit.VersionedLock.{version_of, vl_read_version}
use cs453_concurrent_algorit.Stm.Tx.{Tx, own_write, in_rs}
use cs453_concurrent_algorit.Stm.Cleanup.{transaction_cleanup}
use cs453_concurrent_algorit.Stm.End.Result.{if_false}
use cs453_concurrent_algorit.Stm.Read.{
  fits_int, next_place, too_new, same_version, abort, grow_rs, add_to_readset, has_word,
  record_read, read_versioned, read_after, read_shared, read_word, read_words, ro_transaction_read,
  rw_transaction_read, tm_read,
}
use cs453_concurrent_algorit.Stm.Write.{
  push_ws, store_entry, add_entry, add_to_writeset, write_entry, write_word, write_words, tm_write,
}

abort-Within : (A : Type 0) → Within 1 (abort {A = A})
unfolding abort transaction_cleanup
abort-Within A = (omega arith, λ s. refl, λ s. tt)

grow_rs-Within : (t : Tx) (l : Loc) (v : ℕ) → Within 1 (grow_rs t l v)
unfolding grow_rs
grow_rs-Within t l v =
    Within-if 1 (ltb (length t.rs) t.rs_sz) _ _ tt
      (omega arith, λ s. refl, λ s. Within-if 0 (answer s.mallocs) _ _ tt tt)

add_to_readset-Within : (t : Tx) (l : Loc) (v : ℕ) → Within 1 (add_to_readset t l v)
unfolding add_to_readset
add_to_readset-Within t l v =
    Within-if 1 t.is_ro _ _ (grow_rs-Within t l v)
      (Within-if 1 t.rs_null _ _ tt (Within-if 1 (in_rs l t.rs) _ _ tt (grow_rs-Within t l v)))

record_read-Within : (t : Tx) (l : Loc) (v w : ℕ) → Within 1 (record_read t l v w)
unfolding record_read
record_read-Within t l v w =
    Within-bind 1 0 (add_to_readset t l v) _ (add_to_readset-Within t l v) (λ a. tt)

read_versioned-Within :
    (align : ℕ) (t : Tx) (l : Loc) (v : ℕ) → Within 3 (read_versioned align t l v)
unfolding read_versioned vl_read_version
read_versioned-Within align t l v = Within-if 3 (not (fits_int (l.word * align))) _ _ tt (
  omega arith,
  λ s. refl,
  λ s. (
    omega arith,
    λ u. refl,
    λ u.
        Within-if 1 (not (same_version (version_of (u.locks l)) (some v))) _ _ (abort-Within _)
          (record_read-Within t l v (s.words l)),
  ),
)

read_after-Within :
    (align : ℕ) (t : Tx) (l : Loc) (r : Option ℕ) → Within 3 (read_after align t l r)
unfolding read_after
read_after-Within align t l none = Within-more 1 3 _ (omega arith) (abort-Within _)
read_after-Within align t l (some v) =
    Within-if 3 (too_new (some v) t.rv) _ _ (Within-more 1 3 _ (omega arith) (abort-Within _))
      (read_versioned-Within align t l v)

read_shared-Within :
    (align : ℕ) (seg : Option Segment) (t : Tx) (l : Loc) → Within 4 (read_shared align seg t l)
unfolding read_shared vl_read_version
read_shared-Within align seg t l =
    Within-if 4 (not (has_word seg l.word)) _ _ tt
      (omega arith, λ s. refl, λ s. read_after-Within align t l (version_of (s.locks l)))

own_or_shared :
    (o : Option ℕ) (align : ℕ) (seg : Option Segment) (t : Tx) (l : Loc)
    → Within 4 (elim o [ some v ↦ ret (some (t, v)) | none ↦ read_shared align seg t l ])
own_or_shared none align seg t l = read_shared-Within align seg t l
own_or_shared (some v) align seg t l = tt

read_words-Within :
    (align : ℕ) (seg : Option Segment) (n bytes : ℕ) (t : Tx) (source : ℕ) (l : Loc)
    → Within (4 * n) (read_words align seg n bytes t source l)
unfolding read_words read_word
read_words-Within align seg zero bytes t source l = tt
read_words-Within align seg (suc n) bytes t source l =
    Within-if (4 * suc n) (not (fits_int bytes)) _ _ tt (
      Within-more (4 + 4 * n) (4 * suc n) _ (omega arith) (
        Within-bind 4 (4 * n) (read_word align seg t (source + bytes) l) _
          (own_or_shared (own_write t (source + bytes)) align seg t l)
          (elim [
            | none ↦ tt
            | some (t', v) ↦ Within-more (4 * n + 0) (4 * n) _ (omega arith) (
                Within-bind (4 * n) 0
                  (read_words align seg n (bytes + align) t' source (next_place l)) _
                  (read_words-Within align seg n (bytes + align) t' source (next_place l))
                  (λ q. tt))
          ])))

-- A `tm_read` of `size` bytes in a read-write transaction never waits: every step of it can be made in
-- every state, and whatever others do between its steps it returns, aborts or faults within four
-- steps for each byte and two more.
pub tm_read-Within :
    (t : Tx) (source size : ℕ) → t.is_ro ≡ false → Within (2 + 4 * size) (tm_read t source size)
unfolding tm_read rw_transaction_read
tm_read-Within t source size rw_tx = (
  omega arith,
  λ s. refl,
  λ s. subst (Within (2 + 4 * size - 1)) (sym (if_false t.is_ro _ _ rw_tx)) (
    omega arith,
    λ u. refl,
    λ u.
        Within-more (4 * (size / s.align)) (2 + 4 * size - 1 - 1) _
          (omega (arith, div-le_self size s.align))
          (read_words-Within s.align _ (size / s.align) 0 t source _),
  ),
)

store_entry-Within : (t : Tx) (v curr : ℕ) (l : Loc) → Within 2 (store_entry t v curr l)
unfolding store_entry push_ws
store_entry-Within t v curr l = (
  omega arith,
  λ s. refl,
  λ s. Within-if 1 (answer s.mallocs) _ _ (Within-if 1 t.rs_null _ _ tt tt) (abort-Within Tx),
)

add_entry-Within :
    (full : Bool) (t : Tx) (v curr : ℕ) (l : Loc) → Within 3 (add_entry full t v curr l)
unfolding add_entry
add_entry-Within true t v curr l = (
  omega arith,
  λ s. refl,
  λ s.
      Within-if 2 (answer s.mallocs) _ _ (store_entry-Within _ v curr l)
        (omega arith, λ u. refl, λ u. tt),
)
add_entry-Within false t v curr l =
    Within-more 2 3 (store_entry t v curr l) (omega arith) (store_entry-Within t v curr l)

write_entry-Within :
    (own : Option ℕ) (t : Tx) (v curr : ℕ) (l : Loc) → Within 3 (write_entry own t v curr l)
unfolding write_entry add_to_writeset
write_entry-Within none t v curr l = add_entry-Within (length t.ws == t.ws_sz) t v curr l
write_entry-Within (some old) t v curr l = tt

write_word-Within :
    (seg : Option Segment) (t : Tx) (v curr : ℕ) (l : Loc) → Within 4 (write_word seg t v curr l)
unfolding write_word vl_read_version
write_word-Within seg t v curr l = Within-if 4 (not (has_word seg l.word)) _ _ tt (
  omega arith,
  λ s. refl,
  λ s.
      Within-if 3 (too_new (version_of (s.locks l)) t.rv) _ _
        (Within-more 1 3 _ (omega arith) (abort-Within Tx))
        (write_entry-Within (own_write t curr) t v curr l),
)

write_words-Within :
    (align : ℕ) (seg : Option Segment) (vs : List ℕ) (t : Tx) (curr : ℕ) (l : Loc)
    → Within (4 * length vs) (write_words align seg vs t curr l)
unfolding write_words
write_words-Within align seg [] t curr l = tt
write_words-Within align seg (v ∷ vs) t curr l =
    Within-more (4 + 4 * length vs) (4 * suc (length vs)) _ (omega arith) (
      Within-bind 4 (4 * length vs) (write_word seg t v curr l) _ (write_word-Within seg t v curr l)
        (elim [
          | none ↦ tt
          | some t' ↦
              write_words-Within align seg vs t' (curr + align) (record l { word = l.word + 1 })
        ]))

-- A `tm_write` never waits: every step of it can be made in every state, and whatever others do
-- between its steps it returns, aborts or faults within four steps for each word and two more.
pub tm_write-Within :
    (t : Tx) (source : List ℕ) (target : ℕ)
    → Within (2 + 4 * length source) (tm_write t source target)
unfolding tm_write
tm_write-Within t source target = (
  omega arith,
  λ s. refl,
  λ s. (
    omega arith,
    λ u. refl,
    λ u.
        Within-more (4 * length source) (2 + 4 * length source - 1 - 1) _ (omega arith)
          (write_words-Within s.align _ source t target _),
  ),
)
