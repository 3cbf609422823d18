-- ===== src/Stm/End/Progress.antt =====
-- A commit that meets no other transaction succeeds.
use cs453_concurrent_algorit.Prelude.{
  ℕ, ◌+◌, ◌==◌, ◌||◌, ◌≡◌, refl, sym, ap, subst, ◌∙◌, inl, inr, Bool, true, false, Option, none,
  some, List, [], ◌∷◌, ◌++◌, ltb, arith, Bool-cases, is_nil,
}
use cs453_concurrent_algorit.Prog.{Ends, Ends-bind, Ends-mono, Ends-both}
use cs453_concurrent_algorit.Region.{Loc, Shared}
use cs453_concurrent_algorit.VersionedLock.{vl_try_lock, set_lock, is_locked, version, with_lock}
use cs453_concurrent_algorit.VersionedLock.Race.{loc_eq_self}
use cs453_concurrent_algorit.Stm.Tx.{Tx, WsItem, ws_sort}
use cs453_concurrent_algorit.Stm.End.{
  lock_all, check_reads, checked, advance, acquire, commit, finish, tm_end,
}
use cs453_concurrent_algorit.Stm.End.Locks.{Taken, Locked, lock_all-Locked, at_place}
use cs453_concurrent_algorit.Stm.End.Sort.{count-sort}
use cs453_concurrent_algorit.Stm.End.Acquire.{Acquired, acquire-Acquired}
use cs453_concurrent_algorit.Stm.End.Result.{
  IsCalm, Committed, Outcome, Done, commit-Done, Acquired-IsCalm, tm_end-Outcome, if_false,
}

abbrev Succeeds : Bool → Shared → Type 0
Succeeds ok t = ok ≡ true

lock_all-Succeeds :
    (rv : ℕ) (done ws : List WsItem) (s : Shared)
    → ((l : Loc) → Taken rv ws s l)
    → Ends Succeeds (lock_all rv done ws) s
unfolding lock_all vl_try_lock
lock_all-Succeeds rv done [] s h = refl
lock_all-Succeeds rv done (w ∷ ws) s h = (
  refl,
  elim (Bool-cases (is_locked (s.locks w.place) || ltb rv (version (s.locks w.place)))) [
    | inl busy ↦ absurd (ground (arith, h w.place, loc_eq_self w.place))
    | inr free ↦ rw free (
      refl,
      rw self (
          lock_all-Succeeds rv (done ++ w ∷ []) ws s1
            (λ l. ground (arith, h l, at_place s.locks w.place l))),
    )
  ],
)
  where
    s1 : Shared
    s1 = set_lock w.place (with_lock (s.locks w.place)) s

    self : (s.locks w.place == s.locks w.place) ≡ true
    self = ground arith

abbrev IsVersion : Option ℕ → Shared → Type 0
IsVersion r u = (wv : ℕ) × (r ≡ some wv)

advance-IsVersion :
    (t : Tx) (ws : List WsItem) (u : Shared)
    → t.rv ≡ u.global_version
    → Ends IsVersion (advance t ws true) u
unfolding advance check_reads checked
advance-IsVersion t ws u now = (refl, rw same (u.global_version + 1, refl))
  where
    same : (t.rv + 1 == u.global_version + 1) ≡ true
    same = ground arith

acquire-IsVersion :
    (t : Tx) (ws : List WsItem) (s : Shared)
    → t.rv ≡ s.global_version
    → ((l : Loc) → Taken t.rv ws s l)
    → Ends IsVersion (acquire t ws) s
unfolding acquire
acquire-IsVersion t ws s now h =
    Ends-bind (λ ok u. Locked t.rv [] ws s ok u × (ok ≡ true)) IsVersion (lock_all t.rv [] ws)
      (advance t ws) s
      (Ends-both (Locked t.rv [] ws s) Succeeds (lock_all t.rv [] ws) s
        (lock_all-Locked t.rv [] ws s (λ l. omega arith)) (lock_all-Succeeds t.rv [] ws s h))
      (elim [
        | true ↦ λ u q. advance-IsVersion t ws u (now ∙ sym (ap (λ y. y.global_version) q.0.0))
        | false ↦ λ u q. cc
      ])

finish-Succeeds :
    (t : Tx) (s : Shared) (r : Option ℕ) (u : Shared)
    → IsCalm s
    → Acquired t (ws_sort t.ws) s r u
    → IsVersion r u
    → Ends Succeeds (finish t (ws_sort t.ws) r) u
unfolding finish
finish-Succeeds t s none u calm a (wv, e) = cc
finish-Succeeds t s (some wv) u calm a v =
    Ends-mono (Done wv (ws_sort t.ws) u) Succeeds (commit t (ws_sort t.ws) wv) u (λ ok x d. d.0)
      (commit-Done t (ws_sort t.ws) wv u (Acquired-IsCalm t (ws_sort t.ws) s u a calm)
        (λ l. omega (arith, (a.2 l).1)))

tm_end-Succeeds :
    (t : Tx) (s : Shared)
    → t.is_ro ≡ false
    → is_nil t.ws ≡ false
    → t.rs_null ≡ false
    → IsCalm s
    → t.rv ≡ s.global_version
    → ((l : Loc) → Taken t.rv t.ws s l)
    → Ends Succeeds (tm_end t) s
unfolding tm_end
tm_end-Succeeds t s rw_ writes kept calm now h =
    subst (λ m. Ends Succeeds m s) (sym (if_false (t.is_ro || is_nil t.ws) _ _ (ground arith)))
      (Ends-bind (λ r u. Acquired t ws s r u × IsVersion r u) Succeeds (acquire t ws) (finish t ws)
        s
        (Ends-both (Acquired t ws s) IsVersion (acquire t ws) s (acquire-Acquired t ws s kept)
          (acquire-IsVersion t ws s now (λ l. ground (arith, h l, count-sort l t.ws))))
        (λ r u q. finish-Succeeds t s r u calm q.0 q.1))
  where
    ws : List WsItem
    ws = ws_sort t.ws

-- A read-write transaction that has written, whose read set is not lost, and that is not
-- interrupted in a state where it alone holds the cleanup lock, no thread holds the buffer's lock
-- and every allocation succeeds, commits if no other transaction has committed since it began, and
-- every word of the write set occurs in it once and is unlocked at a version that the transaction
-- has seen: the result is true, with the clock one further, the values written, their words
-- unlocked at the new version, and all else as it was.
pub tm_end-commits :
    (t : Tx) (s : Shared)
    → t.is_ro ≡ false
    → is_nil t.ws ≡ false
    → t.rs_null ≡ false
    → IsCalm s
    → t.rv ≡ s.global_version
    → ((l : Loc) → Taken t.rv t.ws s l)
    → Ends (λ ok u. (ok ≡ true) × Committed t s u) (tm_end t) s
tm_end-commits t s rw_ writes kept calm now h =
    Ends-mono (λ ok u. Outcome t s ok u × (ok ≡ true)) _ (tm_end t) s
      (elim [ true ↦ λ u q. (refl, q.0) | false ↦ λ u q. cc ])
      (Ends-both (Outcome t s) Succeeds (tm_end t) s (tm_end-Outcome t s rw_ writes kept calm)
        (tm_end-Succeeds t s rw_ writes kept calm now h))
