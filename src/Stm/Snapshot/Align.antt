-- ===== src/Stm/Snapshot/Align.antt =====
-- 353607/tm.c: no step of `tm_end` changes the alignment of the region.
use cs453_concurrent_algorit.Prelude.{
  ℕ, ◌+◌, ◌==◌, ◌||◌, ◌≡◌, refl, ◌∙◌, Bool, true, false, Option, none, some, List, [], ◌∷◌, ◌++◌,
  arith, leb, length, is_nil, if◌then◌else◌,
}
use cs453_concurrent_algorit.Prog.{Prog, ret, fault, act, ◌>>=◌, Ends}
use cs453_concurrent_algorit.Region.{Loc, Shared}
use cs453_concurrent_algorit.VersionedLock.{
  version_of, vl_try_lock, vl_unlock, vl_unlock_update, vl_read_version,
}
use cs453_concurrent_algorit.Stm.Tx.{Tx, WsItem, RsItem, ws_sort, free_batchsize}
use cs453_concurrent_algorit.Stm.Cleanup.{delete_segment, delete_segments, transaction_cleanup}
use cs453_concurrent_algorit.Stm.Read.{too_new}
use cs453_concurrent_algorit.Stm.End.{
  unlock_all, lock_all, validate_item, validate, write_back, push_one, push_all, hand_over_frees,
  free_spots, free_batch, check_reads, checked, advance, acquire, commit, finish, tm_end,
}

abbrev Fixed : {A : Type 0} → Prog Shared A → Type 0
Fixed (ret a) = Unit {0}
Fixed fault = Unit {0}
Fixed (act en f k) = ((s : Shared) → (f s).align ≡ s.align) × ((s : Shared) → Fixed (k s))

Fixed-bind :
    {A B : Type 0} (m : Prog Shared A) (g : A → Prog Shared B)
    → Fixed m
    → ((a : A) → Fixed (g a))
    → Fixed (m >>= g)
Fixed-bind (ret a) g h k = k a
Fixed-bind fault g h k = tt
Fixed-bind (act en f m) g h k = (h.0, λ s. Fixed-bind (m s) g (h.1 s) k)

Fixed-if :
    {A : Type 0} (b : Bool) (m n : Prog Shared A) → Fixed m → Fixed n → Fixed (if b then m else n)
Fixed-if true m n h k = h
Fixed-if false m n h k = k

Fixed-Ends :
    {A : Type 0} (Q : A → Shared → Type 0) (m : Prog Shared A) (s u : Shared)
    → u.align ≡ s.align
    → Fixed m
    → Ends Q m u
    → Ends (λ a v. Q a v × (v.align ≡ s.align)) m u
Fixed-Ends Q (ret a) s u e h q = (q, e)
Fixed-Ends Q fault s u e h q = q
Fixed-Ends Q (act en f k) s u e h q = (q.0, Fixed-Ends Q (k u) s (f u) (h.0 u ∙ e) (h.1 u) q.1)

unlock_all-Fixed : (ws : List WsItem) → Fixed (unlock_all ws)
unfolding unlock_all vl_unlock
unlock_all-Fixed [] = tt
unlock_all-Fixed (w ∷ ws) = (
  λ s. refl,
  λ s.
      Fixed-bind (if s.locks w.place == 0 then fault else ret tt) _
        (Fixed-if (s.locks w.place == 0) _ _ tt tt) (λ _. unlock_all-Fixed ws),
)

vl_try_lock-Fixed : (l : Loc) (rv : ℕ) → Fixed (vl_try_lock l rv)
unfolding vl_try_lock
vl_try_lock-Fixed l rv = ground arith

lock_all-Fixed : (rv : ℕ) (done ws : List WsItem) → Fixed (lock_all rv done ws)
unfolding lock_all
lock_all-Fixed rv done [] = tt
lock_all-Fixed rv done (w ∷ ws) =
    Fixed-bind (vl_try_lock w.place rv) _ (vl_try_lock-Fixed w.place rv) (λ ok.
      Fixed-if ok _ _ (lock_all-Fixed rv (done ++ w ∷ []) ws)
        (Fixed-bind (unlock_all done) _ (unlock_all-Fixed done) (λ _. tt)))

validate_item-Fixed :
    (rv : ℕ) (o : Option Loc) (m : Prog Shared Bool) → Fixed m → Fixed (validate_item rv o m)
unfolding validate_item vl_read_version
validate_item-Fixed rv none m h = h
validate_item-Fixed rv (some l) m h =
    (λ s. refl, λ s. Fixed-if (too_new (version_of (s.locks l)) rv) _ _ tt h)

validate-Fixed : (rv : ℕ) (rs : List RsItem) → Fixed (validate rv rs)
unfolding validate
validate-Fixed rv [] = tt
validate-Fixed rv (r ∷ rs) =
    validate_item-Fixed rv r.versioned_lock (validate rv rs) (validate-Fixed rv rs)

check_reads-Fixed : (t : Tx) (wv : ℕ) → Fixed (check_reads t wv)
unfolding check_reads
check_reads-Fixed t wv =
    Fixed-if (t.rv + 1 == wv) _ _ tt (Fixed-if t.rs_null _ _ tt (validate-Fixed t.rv t.rs))

checked-Fixed : (ws : List WsItem) (wv : ℕ) (ok : Bool) → Fixed (checked ws wv ok)
unfolding checked
checked-Fixed ws wv true = tt
checked-Fixed ws wv false = Fixed-bind (unlock_all ws) _ (unlock_all-Fixed ws) (λ _. tt)

advance-Fixed : (t : Tx) (ws : List WsItem) (ok : Bool) → Fixed (advance t ws ok)
unfolding advance
advance-Fixed t ws false = tt
advance-Fixed t ws true = (
  λ s. refl,
  λ s.
      Fixed-bind (check_reads t (s.global_version + 1)) _
        (check_reads-Fixed t (s.global_version + 1)) (checked-Fixed ws (s.global_version + 1)),
)

acquire-Fixed : (t : Tx) (ws : List WsItem) → Fixed (acquire t ws)
unfolding acquire
acquire-Fixed t ws =
    Fixed-bind (lock_all t.rv [] ws) _ (lock_all-Fixed t.rv [] ws) (advance-Fixed t ws)

write_back-Fixed : (wv : ℕ) (ws : List WsItem) → Fixed (write_back wv ws)
unfolding write_back vl_unlock_update
write_back-Fixed wv [] = tt
write_back-Fixed wv (w ∷ ws) = (λ s. refl, λ s. (λ u. refl, λ u. write_back-Fixed wv ws))

push_one-Fixed : (spot : ℕ) → Fixed (push_one spot)
unfolding push_one
push_one-Fixed spot = ground arith

push_all-Fixed : (spots : List ℕ) → Fixed (push_all spots)
unfolding push_all
push_all-Fixed [] = tt
push_all-Fixed (spot ∷ spots) =
    Fixed-bind (push_one spot) _ (push_one-Fixed spot) (λ _. push_all-Fixed spots)

hand_over_frees-Fixed : (spots : List ℕ) → Fixed (hand_over_frees spots)
unfolding hand_over_frees
hand_over_frees-Fixed [] = tt
hand_over_frees-Fixed (spot ∷ spots) = (
  λ s. refl,
  λ s. Fixed-bind (push_all (spot ∷ spots)) _ (push_all-Fixed (spot ∷ spots)) (λ _. ground arith),
)

delete_segment-Fixed : (spot : ℕ) → Fixed (delete_segment spot)
unfolding delete_segment
delete_segment-Fixed spot = ground arith

delete_segments-Fixed : (spots : List ℕ) → Fixed (delete_segments spots)
unfolding delete_segments
delete_segments-Fixed [] = tt
delete_segments-Fixed (spot ∷ spots) =
    Fixed-bind (delete_segment spot) _ (delete_segment-Fixed spot)
      (λ _. delete_segments-Fixed spots)

free_spots-Fixed : (spots : List ℕ) → Fixed (free_spots spots)
unfolding free_spots
free_spots-Fixed spots =
    Fixed-bind (delete_segments spots) _ (delete_segments-Fixed spots) (λ _. ground arith)

free_batch-Fixed : Fixed free_batch
unfolding free_batch
free_batch-Fixed = (
  λ s. refl,
  λ s.
      Fixed-if (leb free_batchsize (length s.to_free)) _ _
        (λ u. refl, λ u. (λ v. refl, λ v. free_spots-Fixed v.to_free)) tt,
)

commit-Fixed : (t : Tx) (ws : List WsItem) (wv : ℕ) → Fixed (commit t ws wv)
unfolding commit transaction_cleanup
commit-Fixed t ws wv = Fixed-bind (write_back wv ws) _ (write_back-Fixed wv ws) (λ _.
    Fixed-bind (hand_over_frees t.to_free) _ (hand_over_frees-Fixed t.to_free)
      (λ _. (λ s. ground arith, λ s. Fixed-bind free_batch _ free_batch-Fixed (λ _. tt))))

finish-Fixed : (t : Tx) (ws : List WsItem) (r : Option ℕ) → Fixed (finish t ws r)
unfolding finish transaction_cleanup
finish-Fixed t ws none = (λ s. ground arith, λ s. tt)
finish-Fixed t ws (some wv) = commit-Fixed t ws wv

tm_end-Fixed : (t : Tx) → Fixed (tm_end t)
unfolding tm_end transaction_cleanup
tm_end-Fixed t =
    Fixed-if (t.is_ro || is_nil t.ws) _ _ (λ s. ground arith, λ s. tt)
      (Fixed-bind (acquire t (ws_sort t.ws)) _ (acquire-Fixed t (ws_sort t.ws))
        (finish-Fixed t (ws_sort t.ws)))

-- What is shown of an uninterrupted `tm_end` holds with the alignment as it was.
pub tm_end-aligned :
    (Q : Bool → Shared → Type 0) (t : Tx) (s : Shared)
    → Ends Q (tm_end t) s
    → Ends (λ ok u. Q ok u × (u.align ≡ s.align)) (tm_end t) s
tm_end-aligned Q t s h = Fixed-Ends Q (tm_end t) s s refl (tm_end-Fixed t) h
