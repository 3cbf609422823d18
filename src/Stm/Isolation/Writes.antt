-- ===== src/Stm/Isolation/Writes.antt =====
-- 353607/tm.c: `tm_write` keeps its values to the transaction.
use cs453_concurrent_algorit.Prelude.{
  ℕ, ◌+◌, ◌==◌, Bool, true, false, Option, none, some, List, [], ◌∷◌, arith, length,
}
use cs453_concurrent_algorit.Region.{Loc, Segment}
use cs453_concurrent_algorit.VersionedLock.{vl_read_version}
use cs453_concurrent_algorit.Stm.Tx.{Tx, own_write}
use cs453_concurrent_algorit.Stm.Cleanup.{transaction_cleanup}
use cs453_concurrent_algorit.Stm.Read.{abort}
use cs453_concurrent_algorit.Stm.Write.{
  push_ws, store_entry, add_entry, write_entry, add_to_writeset, write_word, write_words, tm_write,
}
use cs453_concurrent_algorit.Stm.Isolation.{Quiet, Quiet-bind, same, abort-Quiet}

add_entry-Quiet : (full : Bool) (t : Tx) (v curr : ℕ) (l : Loc) → Quiet (add_entry full t v curr l)
unfolding add_entry store_entry push_ws abort transaction_cleanup
add_entry-Quiet true t v curr l = ground arith
add_entry-Quiet false t v curr l = ground arith

write_entry-Quiet :
    (own : Option ℕ) (t : Tx) (v curr : ℕ) (l : Loc) → Quiet (write_entry own t v curr l)
unfolding write_entry add_to_writeset
write_entry-Quiet none t v curr l = add_entry-Quiet (length t.ws == t.ws_sz) t v curr l
write_entry-Quiet (some old) t v curr l = tt

write_word-Quiet :
    (seg : Option Segment) (t : Tx) (v curr : ℕ) (l : Loc) → Quiet (write_word seg t v curr l)
unfolding write_word vl_read_version
write_word-Quiet seg t v curr l =
    ground (arith, write_entry-Quiet (own_write t curr) t v curr l, abort-Quiet Tx)

write_words-Quiet :
    (align : ℕ) (seg : Option Segment) (vs : List ℕ) (t : Tx) (curr : ℕ) (l : Loc)
    → Quiet (write_words align seg vs t curr l)
unfolding write_words
write_words-Quiet align seg [] t curr l = tt
write_words-Quiet align seg (v ∷ vs) t curr l =
    Quiet-bind (write_word seg t v curr l) _ (write_word-Quiet seg t v curr l) (elim [
      | none ↦ tt
      | some t' ↦ write_words-Quiet align seg vs t' (curr + align) (record l { word = l.word + 1 })
    ])

-- No step of `tm_write` changes a word, a lock word or the clock: the values stay in the write set.
pub tm_write-Quiet : (t : Tx) (source : List ℕ) (target : ℕ) → Quiet (tm_write t source target)
unfolding tm_write
tm_write-Quiet t source target =
    (same, λ s. (same, λ s'. write_words-Quiet s.align _ source t target _))
