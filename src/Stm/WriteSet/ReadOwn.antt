-- ===== src/Stm/WriteSet/ReadOwn.antt =====
-- A `tm_read` after a `tm_write` of the same range, in one transaction.
use cs453_concurrent_algorit.Prelude.{
  ℕ, arith, ◌*◌, ◌<◌, ◌≡◌, refl, sym, ap, ◌∙◌, subst, false, Option, none, some, List, length,
  if◌then◌else◌,
}
use cs453_concurrent_algorit.Stm.End.Result.{if_false}
use native.Mathlib.Nat.{mul-div_cancel}
use cs453_concurrent_algorit.Prog.{Prog, ret, ◌>>=◌}
use cs453_concurrent_algorit.Prog.Rely.{Keeps, Keeps-bind, Keeps-mono, Keeps-across}
use cs453_concurrent_algorit.Region.{Loc, Shared}
use cs453_concurrent_algorit.Address.{index_from_va}
use cs453_concurrent_algorit.Stm.Tx.{Tx, own_write}
use cs453_concurrent_algorit.Stm.Read.{
  start_word, read_words, ro_transaction_read, rw_transaction_read, tm_read,
}
use cs453_concurrent_algorit.Stm.Write.{tm_write}
use cs453_concurrent_algorit.Stm.WriteSet.{IsSound}
use cs453_concurrent_algorit.Stm.WriteSet.Words.{SameAlign}
use cs453_concurrent_algorit.Stm.WriteSet.Calls.{
  Owns, ReadBack, Covered, set_range, set_range-Owns, Owns-ext, read_words-ReadBack,
  tm_write-Covered,
}

-- The read of the range that a write has written, in the transaction that the write leaves.
unfoldable pub read_own : ℕ → List ℕ → ℕ → Option Tx → Prog Shared (Option (Tx × List ℕ))
read_own size source target none = ret none
read_own size source target (some t) = tm_read t target size

unfoldable pub write_then_read : Tx → List ℕ → ℕ → ℕ → Prog Shared (Option (Tx × List ℕ))
write_then_read t source target size = tm_write t source target >>= read_own size source target

abbrev pub SameValues : List ℕ → Option (Tx × List ℕ) → Shared → Type 0
SameValues vs none s = Unit {0}
SameValues vs (some (t, ws)) s = ws ≡ vs

rw_transaction_read-own :
    (align : ℕ) (t : Tx) (vs : List ℕ) (source : ℕ) (s : Shared)
    → 0 < align
    → Owns align (own_write t) vs source
    → Keeps SameAlign SameAlign
        (ReadBack t vs)
        (rw_transaction_read align t source (length vs * align))
        s
unfolding rw_transaction_read
rw_transaction_read-own align t vs source s p h = λ s1 r1 _.
    let start : Loc = record { spot = index_from_va source; word = start_word align source } in
    (
      refl,
      subst
          (λ n.
            Keeps SameAlign SameAlign (ReadBack t vs)
              (read_words align (s1.va_arr (index_from_va source)) n 0 t source start) s1)
          (sym (mul-div_cancel (length vs) p))
          (read_words-ReadBack align (s1.va_arr (index_from_va source)) vs 0 t source start s1
            (subst (Owns align (own_write t) vs) (omega arith) h)),
    )

-- The read that follows, by a transaction that is not read-only.
tm_read-own :
    (align : ℕ) (t : Tx) (vs : List ℕ) (source : ℕ) (s : Shared)
    → s.align ≡ align
    → 0 < align
    → t.is_ro ≡ false
    → Owns align (own_write t) vs source
    → Keeps SameAlign SameAlign (ReadBack t vs) (tm_read t source (length vs * align)) s
unfolding tm_read
tm_read-own align t vs source s e p rw_tx h = λ s1 r1 _. (
  refl,
  subst
      (λ n.
        Keeps SameAlign SameAlign (ReadBack t vs)
          (if t.is_ro
            then ro_transaction_read n t source (length vs * align)
            else rw_transaction_read n t source (length vs * align))
          s1)
      (sym (r1 ∙ e))
      (subst (λ m. Keeps SameAlign SameAlign (ReadBack t vs) m s1)
        (sym (if_false t.is_ro _ _ rw_tx)) (rw_transaction_read-own align t vs source s1 p h)),
)

read_values : List ℕ → Option (Tx × List ℕ) → List ℕ
read_values vs none = vs
read_values vs (some p) = p.1

ReadBack-SameValues :
    (t : Tx) (vs : List ℕ) (r : Option (Tx × List ℕ)) (s : Shared)
    → ReadBack t vs r s
    → SameValues vs r s
unfolding read_values
ReadBack-SameValues t vs none s e = tt
ReadBack-SameValues t vs (some p) s e = ap (read_values vs) e

-- Whatever other threads do, as long as they leave the alignment alone: a `tm_read` of the range that
-- a `tm_write` of the same read-write transaction has just written returns the values written, if
-- neither call aborts or faults. The alignment is not 0, and the filter and the array of the write set are sound.
pub write_then_read-SameValues :
    (t : Tx) (source : List ℕ) (target : ℕ) (s : Shared)
    → IsSound t
    → t.is_ro ≡ false
    → 0 < s.align
    → Keeps SameAlign SameAlign
        (SameValues source)
        (write_then_read t source target (length source * s.align))
        s
unfolding write_then_read read_own
write_then_read-SameValues t source target s h rw_tx p =
    Keeps-bind SameAlign SameAlign (λ r s'. Covered s.align t source target r s' × SameAlign s s')
      (SameValues source) _ _ s
      (Keeps-across SameAlign (Covered s.align t source target) (tm_write t source target) s s
        (λ a b c r q. q ∙ r) refl (tm_write-Covered t source target s h))
      (elim [
        | none ↦ λ s' c. tt
        | some t1 ↦ λ s' c.
            Keeps-mono SameAlign SameAlign (ReadBack t1 source) (SameValues source) _ s'
              (ReadBack-SameValues t1 source)
              (tm_read-own s.align t1 source target s' c.1 p (c.0.2 ∙ rw_tx) (
                Owns-ext s.align (own_write t1) (set_range s.align (own_write t) source target)
                  source target c.0.1 (set_range-Owns s.align (own_write t) source target p)))
      ])
