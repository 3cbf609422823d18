-- ===== src/Stm/WaitFree/Acquire.antt =====
-- 353607/tm.c: the part of `tm_end` before the write-back never waits, as a lock that is taken is not
-- waited for.
use cs453_concurrent_algorit.Prelude.{
  ℕ, suc, ◌+◌, ◌-◌, ◌*◌, ◌==◌, ◌||◌, refl, Bool, true, false, Option, none, some, List, [], ◌∷◌,
  ◌++◌, ltb, arith, length, length-append, if◌then◌else◌,
}
use cs453_concurrent_algorit.Prog.{Prog, ret, fault}
use cs453_concurrent_algorit.Prog.Within.{Within, Within-more, Within-bind, Within-if}
use cs453_concurrent_algorit.Region.{Loc, Shared}
use cs453_concurrent_algorit.VersionedLock.{
  version_of, is_locked, version, with_lock, compare_exchange, vl_try_lock, vl_unlock,
  vl_read_version,
}
use cs453_concurrent_algorit.Stm.Tx.{Tx, WsItem, RsItem}
use cs453_concurrent_algorit.Stm.Read.{too_new}
use cs453_concurrent_algorit.Stm.End.{
  unlock_all, lock_all, validate_item, validate, check_reads, checked, advance, acquire,
}

unlock_all-Within : (ws : List WsItem) → Within (length ws) (unlock_all ws)
unfolding unlock_all vl_unlock
unlock_all-Within [] = tt
unlock_all-Within (w ∷ ws) = (
  omega arith,
  λ s. refl,
  λ s. Within-more (0 + length ws) (suc (length ws) - 1) _ (omega arith) (
      Within-bind 0 (length ws) (if s.locks w.place == 0 then fault else ret tt) _
        (Within-if 0 (s.locks w.place == 0) _ _ tt tt) (λ _. unlock_all-Within ws)),
)

vl_try_lock-Within : (l : Loc) (rv : ℕ) → Within 2 (vl_try_lock l rv)
unfolding vl_try_lock
vl_try_lock-Within l rv = (
  omega arith,
  λ s. refl,
  λ s.
      Within-if 1 (is_locked (s.locks l) || ltb rv (version (s.locks l))) (ret false)
        (compare_exchange l (s.locks l) (with_lock (s.locks l))) tt
        (omega arith, λ u. refl, λ u. tt),
)

lock_all-Within :
    (rv : ℕ) (done ws : List WsItem) → Within (3 * length ws + length done) (lock_all rv done ws)
unfolding lock_all
lock_all-Within rv done [] = tt
lock_all-Within rv done (w ∷ ws) =
    Within-more (2 + (3 * length ws + length done + 1)) (3 * suc (length ws) + length done) _
      (omega arith)
      (Within-bind 2 (3 * length ws + length done + 1) (vl_try_lock w.place rv) _
        (vl_try_lock-Within w.place rv)
        (λ ok.
          Within-if (3 * length ws + length done + 1) ok _ _
            (Within-more (3 * length ws + length (done ++ w ∷ [])) _ _
              (omega (arith, length-append done (w ∷ []))) (lock_all-Within rv (done ++ w ∷ []) ws))
            (Within-more (length done + 0) _ _ (omega arith) (
              Within-bind (length done) 0 (unlock_all done) _ (unlock_all-Within done) (λ _. tt)))))

validate_item-Within :
    (rv k : ℕ) (o : Option Loc) (m : Prog Shared Bool)
    → Within k m
    → Within (suc k) (validate_item rv o m)
unfolding validate_item vl_read_version
validate_item-Within rv k none m h = Within-more k (suc k) m (omega arith) h
validate_item-Within rv k (some l) m h = (
  omega arith,
  λ s. refl,
  λ s.
      Within-more k (suc k - 1) _ (omega arith)
        (Within-if k (too_new (version_of (s.locks l)) rv) _ _ tt h),
)

validate-Within : (rv : ℕ) (rs : List RsItem) → Within (length rs) (validate rv rs)
unfolding validate
validate-Within rv [] = tt
validate-Within rv (r ∷ rs) =
    validate_item-Within rv (length rs) r.versioned_lock (validate rv rs) (validate-Within rv rs)

check_reads-Within : (t : Tx) (wv : ℕ) → Within (length t.rs) (check_reads t wv)
unfolding check_reads
check_reads-Within t wv =
    Within-if (length t.rs) (t.rv + 1 == wv) _ _ tt
      (Within-if (length t.rs) t.rs_null _ _ tt (validate-Within t.rv t.rs))

checked-Within : (ws : List WsItem) (wv : ℕ) (ok : Bool) → Within (length ws) (checked ws wv ok)
unfolding checked
checked-Within ws wv true = tt
checked-Within ws wv false =
    Within-more (length ws + 0) (length ws) _ (omega arith)
      (Within-bind (length ws) 0 (unlock_all ws) _ (unlock_all-Within ws) (λ _. tt))

advance-Within :
    (t : Tx) (ws : List WsItem) (ok : Bool)
    → Within (1 + (length t.rs + length ws)) (advance t ws ok)
unfolding advance
advance-Within t ws false = tt
advance-Within t ws true = (
  omega arith,
  λ s. refl,
  λ s. Within-more (length t.rs + length ws) (1 + (length t.rs + length ws) - 1) _ (omega arith) (
      Within-bind (length t.rs) (length ws) (check_reads t (s.global_version + 1)) _
        (check_reads-Within t (s.global_version + 1)) (checked-Within ws (s.global_version + 1))),
)

-- What `tm_end` does before it writes back (it locks the write set, advances the clock and checks the
-- read set) never waits: every step of it can be made in every state, and whatever others do between
-- its steps it returns or faults within four steps for each word of the write set, one for each entry
-- of the read set, and one more.
pub acquire-Within :
    (t : Tx) (ws : List WsItem) → Within (4 * length ws + length t.rs + 1) (acquire t ws)
unfolding acquire
acquire-Within t ws =
    Within-more (3 * length ws + 0 + (1 + (length t.rs + length ws))) _ _ (omega arith) (
      Within-bind (3 * length ws + 0) (1 + (length t.rs + length ws)) (lock_all t.rv [] ws) _
        (lock_all-Within t.rv [] ws) (advance-Within t ws))
