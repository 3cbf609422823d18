-- ===== src/Stm/Clock/Commit.antt =====
-- The commit keeps the clock's bound: what `write_back` writes is a version that the clock has
-- reached.
use native.Mathlib.Nat.{le_refl}
use cs453_concurrent_algorit.Prelude.{
  ℕ, ◌+◌, ◌≤◌, ◌||◌, refl, inl, inr, Bool, true, false, Option, none, some, List, [], ◌∷◌, leb,
  arith, Bool-cases, length, is_nil,
}
use cs453_concurrent_algorit.Prog.{Prog, ret, fault, act}
use cs453_concurrent_algorit.Prog.Rely.{Keeps, Keeps-bind}
use cs453_concurrent_algorit.Region.{Loc, Shared}
use cs453_concurrent_algorit.VersionedLock.{vl_read_version}
use cs453_concurrent_algorit.Stm.Tx.{Tx, WsItem, RsItem, ws_sort, free_batchsize}
use cs453_concurrent_algorit.Stm.Cleanup.{delete_segment, delete_segments, transaction_cleanup}
use cs453_concurrent_algorit.Stm.End
use cs453_concurrent_algorit.Stm.End.{
  unlock_all, lock_all, validate_item, validate, write_back, push_one, push_all, hand_over_frees,
  free_spots, free_batch, check_reads, checked, advance, acquire, commit, tm_end,
}
use cs453_concurrent_algorit.Stm.Isolation.{Quiet, Quiet-bind, transaction_cleanup-Quiet}
use cs453_concurrent_algorit.Stm.Clock.{
  Tick, SameMemory-Tick, Anything, Ticks, Quiet-Ticks, Ticks-bind, unlock_all-Ticks, lock_all-Ticks,
  write_back-Ticks,
}

validate_item-Quiet :
    (rv : ℕ) (o : Option Loc) (rest : Prog Shared Bool)
    → Quiet rest
    → Quiet (validate_item rv o rest)
unfolding validate_item vl_read_version
validate_item-Quiet rv none rest q = q
validate_item-Quiet rv (some l) rest q = ground arith

validate-Quiet : (rv : ℕ) (rs : List RsItem) → Quiet (validate rv rs)
unfolding validate
validate-Quiet rv [] = tt
validate-Quiet rv (r ∷ rs) = validate_item-Quiet rv r.versioned_lock _ (validate-Quiet rv rs)

delete_segment-Quiet : (spot : ℕ) → Quiet (delete_segment spot)
unfolding delete_segment
delete_segment-Quiet spot = ground arith

delete_segments-Quiet : (spots : List ℕ) → Quiet (delete_segments spots)
unfolding delete_segments
delete_segments-Quiet [] = tt
delete_segments-Quiet (spot ∷ spots) =
    Quiet-bind (delete_segment spot) _ (delete_segment-Quiet spot)
      (λ _. delete_segments-Quiet spots)

push_one-Quiet : (spot : ℕ) → Quiet (push_one spot)
unfolding push_one
push_one-Quiet spot = ground arith

push_all-Quiet : (spots : List ℕ) → Quiet (push_all spots)
unfolding push_all
push_all-Quiet [] = tt
push_all-Quiet (spot ∷ spots) =
    Quiet-bind (push_one spot) _ (push_one-Quiet spot) (λ _. push_all-Quiet spots)

pub hand_over_frees-Quiet : (spots : List ℕ) → Quiet (hand_over_frees spots)
unfolding hand_over_frees
hand_over_frees-Quiet [] = tt
hand_over_frees-Quiet (spot ∷ spots) = (
  λ s. (refl, refl, refl),
  λ s.
      Quiet-bind (push_all (spot ∷ spots)) _ (push_all-Quiet (spot ∷ spots))
        (λ _. (λ s. (refl, refl, refl), λ s. tt)),
)

free_spots-Quiet : (spots : List ℕ) → Quiet (free_spots spots)
unfolding free_spots
free_spots-Quiet spots =
    Quiet-bind (delete_segments spots) _ (delete_segments-Quiet spots) (λ _. ground arith)

pub free_batch-Quiet : Quiet free_batch
unfolding free_batch
free_batch-Quiet = (
  λ s. (refl, refl, refl),
  λ s. elim (Bool-cases (leb free_batchsize (length s.to_free))) [
    | inl full ↦
        rw full (
          λ s'. (refl, refl, refl),
          λ s'. (λ t. (refl, refl, refl), λ t. free_spots-Quiet t.to_free),
        )
    | inr more ↦ rw more tt
  ],
)

pub check_reads-Quiet : (t : Tx) (wv : ℕ) → Quiet (check_reads t wv)
unfolding check_reads
check_reads-Quiet t wv = ground (arith, validate-Quiet t.rv t.rs)

-- The version that `acquire` returns is one that the clock has reached.
abbrev Reached : Option ℕ → Shared → Type 0
Reached none s = Unit {0}
Reached (some wv) s = wv ≤ s.global_version

-- A quiet thread leaves the clock where others have brought it.
Quiet-Reached :
    {A : Type 0} (wv : ℕ) (m : Prog Shared A) (s : Shared)
    → Quiet m
    → wv ≤ s.global_version
    → Keeps Tick Tick (λ _ t. wv ≤ t.global_version) m s
Quiet-Reached wv (ret a) s q h = h
Quiet-Reached wv fault s q h = tt
Quiet-Reached wv (act en f k) s q h = λ s' r e.
    let step = SameMemory-Tick s' (f s') (q.0 s') in
    (step, Quiet-Reached wv (k s') (f s') (q.1 s') (omega (arith, r.0, step.0)))

checked-Reached :
    (ws : List WsItem) (wv : ℕ) (ok : Bool) (s : Shared)
    → wv ≤ s.global_version
    → Keeps Tick Tick Reached (checked ws wv ok) s
unfolding checked
checked-Reached ws wv true s h = h
checked-Reached ws wv false s h =
    Keeps-bind Tick Tick Anything Reached (unlock_all ws) _ s (unlock_all-Ticks ws s) (λ _ _ _. tt)

advance-Reached :
    (t : Tx) (ws : List WsItem) (ok : Bool) (s : Shared)
    → Keeps Tick Tick Reached (advance t ws ok) s
unfolding advance
advance-Reached t ws false s = tt
advance-Reached t ws true s = λ s' _ _. (
  (omega arith, λ b l. omega (arith, b l)),
  Keeps-bind Tick Tick (λ _ u. s'.global_version + 1 ≤ u.global_version) Reached
      (check_reads t (s'.global_version + 1)) _ _
      (Quiet-Reached (s'.global_version + 1) (check_reads t (s'.global_version + 1)) _
        (check_reads-Quiet t (s'.global_version + 1)) (le_refl _))
      (λ ok u h. checked-Reached ws (s'.global_version + 1) ok u h),
)

commit-Ticks :
    (t : Tx) (ws : List WsItem) (wv : ℕ) (s : Shared)
    → wv ≤ s.global_version
    → Ticks (commit t ws wv) s
unfolding commit
commit-Ticks t ws wv s h = Ticks-bind (write_back wv ws) _ s (write_back-Ticks wv ws s h) (λ _ s1.
    Quiet-Ticks _ s1 (
      Quiet-bind (hand_over_frees t.to_free) _ (hand_over_frees-Quiet t.to_free) (λ _. (
        λ u. ground arith,
        λ u. Quiet-bind free_batch _ free_batch-Quiet (λ _.
            Quiet-bind (transaction_cleanup false) _ (transaction_cleanup-Quiet false) (λ _. tt)),
      ))))

finish_end-Ticks :
    (t : Tx) (ws : List WsItem) (r : Option ℕ) (s : Shared)
    → Reached r s
    → Ticks (End.finish t ws r) s
unfolding End.finish
finish_end-Ticks t ws none s h =
    Quiet-Ticks _ s
      (Quiet-bind (transaction_cleanup true) _ (transaction_cleanup-Quiet true) (λ _. tt))
finish_end-Ticks t ws (some wv) s h = commit-Ticks t ws wv s h

pub tm_end-Ticks : (t : Tx) (s : Shared) → Ticks (tm_end t) s
unfolding tm_end acquire transaction_cleanup
tm_end-Ticks t s = elim (Bool-cases (t.is_ro || is_nil t.ws)) [
  | inl plain ↦ rw plain (λ s' _ _. (ground arith, tt))
  | inr writing ↦ rw writing (
      Keeps-bind Tick Tick Reached Anything (acquire t ws) (End.finish t ws) s
        (Keeps-bind Tick Tick Anything Reached (lock_all t.rv [] ws) (advance t ws) s
          (lock_all-Ticks t.rv [] ws s) (λ ok s' _. advance-Reached t ws ok s'))
        (λ r s' h. finish_end-Ticks t ws r s' h))
]
  where
    ws : List WsItem
    ws = ws_sort t.ws
