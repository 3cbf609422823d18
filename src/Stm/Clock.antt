-- ===== src/Stm/Clock.antt =====
-- The global clock bounds every version, in every interleaving.
pub mod Commit
pub mod Sessions
use native.Mathlib.Nat.{le_refl}
use cs453_concurrent_algorit.Prelude.{
  ℕ, zero, suc, ◌+◌, ◌-◌, ◌*◌, ◌/◌, ◌%◌, ◌≤◌, ◌<◌, ◌==◌, ◌&&◌, ◌||◌, ◌≡◌, refl, sym, inl, inr, Bool,
  true, false, not, Option, none, some, List, [], ◌∷◌, ◌++◌, ltb, leb, arith, Bool-cases,
  Option-cases, length, is_nil, if◌then◌else◌,
}
use cs453_concurrent_algorit.Prog.{Prog, ret, fault, act, ◌>>=◌}
use cs453_concurrent_algorit.Prog.Rely.{Keeps, Keeps-bind}
use cs453_concurrent_algorit.Region.{Loc, Segment, Shared, loc_eq, malloc}
use cs453_concurrent_algorit.VersionedLock.{
  vl_init, vl_try_lock, vl_unlock, vl_unlock_update, set_lock, is_locked, version,
}
use cs453_concurrent_algorit.Stm.Tx.{Tx, WsItem, RsItem, ws_sort}
use cs453_concurrent_algorit.Stm.Isolation.{SameMemory, Quiet}
use cs453_concurrent_algorit.Stm.End.{unlock_all, lock_all, write_back}

-- No word holds a version that the clock has not reached.
abbrev pub Bounded : Shared → Type 0
Bounded s = (l : Loc) → s.locks l ≤ s.global_version * 2 + 1

abbrev pub Tick : Shared → Shared → Type 0
Tick s t = (s.global_version ≤ t.global_version) × (Bounded s → Bounded t)

abbrev pub Anything : {A : Type 0} → A → Shared → Type 0
Anything a s = Unit {0}

abbrev pub Ticks : {A : Type 0} → Prog Shared A → Shared → Type 0
Ticks m s = Keeps Tick Tick Anything m s

pub SameMemory-Tick : (s t : Shared) → SameMemory s t → Tick s t
SameMemory-Tick s t (w, l, g) = (rw g (le_refl _), λ b. rw (l, g) b)

pub Quiet-Ticks : {A : Type 0} (m : Prog Shared A) (s : Shared) → Quiet m → Ticks m s
Quiet-Ticks (ret a) s q = tt
Quiet-Ticks fault s q = tt
Quiet-Ticks (act en f k) s q =
    λ s' r e. (SameMemory-Tick s' (f s') (q.0 s'), Quiet-Ticks (k s') (f s') (q.1 s'))

pub Ticks-bind :
    {A B : Type 0} (m : Prog Shared A) (g : A → Prog Shared B) (s : Shared)
    → Ticks m s
    → ((a : A) (s' : Shared) → Ticks (g a) s')
    → Ticks (m >>= g) s
Ticks-bind m g s h k = Keeps-bind Tick Tick Anything Anything m g s h (λ a s' _. k a s')

pub set_lock-Tick :
    (s : Shared) (l : Loc) (w : ℕ)
    → (Bounded s → w ≤ s.global_version * 2 + 1)
    → Tick s (set_lock l w s)
set_lock-Tick s l w h = (le_refl _, λ b m. ground (arith, h b, b m))

pub vl_init-Ticks : (l : Loc) (s : Shared) → Ticks (vl_init l) s
unfolding vl_init
vl_init-Ticks l s = λ s' _ _. (set_lock-Tick s' l 0 (λ b. omega arith), tt)

vl_unlock-Ticks : (l : Loc) (s : Shared) → Ticks (vl_unlock l) s
unfolding vl_unlock
vl_unlock-Ticks l s =
    λ s' _ _. (set_lock-Tick s' l (s'.locks l - 1) (λ b. omega (arith, b l)), ground arith)

vl_try_lock-Ticks : (l : Loc) (rv : ℕ) (s : Shared) → Ticks (vl_try_lock l rv) s
unfolding vl_try_lock
vl_try_lock-Ticks l rv s = λ s' _ _. (
  (le_refl _, λ b. b),
  elim (Bool-cases (is_locked (s'.locks l) || ltb rv (version (s'.locks l)))) [
    | inl busy ↦ rw busy tt
    | inr free ↦ rw free (λ s2 _ _. (
      elim (Bool-cases (s2.locks l == s'.locks l)) [
        | inl won ↦ rw won (set_lock-Tick s2 l _ (λ b. ground (arith, b l)))
        | inr lost ↦ rw lost (le_refl _, λ b. b)
      ],
      tt,
    ))
  ],
)

pub unlock_all-Ticks : (ws : List WsItem) (s : Shared) → Ticks (unlock_all ws) s
unfolding unlock_all
unlock_all-Ticks [] s = tt
unlock_all-Ticks (w ∷ ws) s =
    Ticks-bind (vl_unlock w.place) _ s (vl_unlock-Ticks w.place s) (λ _ s'. unlock_all-Ticks ws s')

pub lock_all-Ticks : (rv : ℕ) (done ws : List WsItem) (s : Shared) → Ticks (lock_all rv done ws) s
unfolding lock_all
lock_all-Ticks rv done [] s = tt
lock_all-Ticks rv done (w ∷ ws) s =
    Ticks-bind (vl_try_lock w.place rv) _ s (vl_try_lock-Ticks w.place rv s) (elim [
      | true ↦ λ s'. lock_all-Ticks rv (done ++ w ∷ []) ws s'
      | false ↦ λ s'. Ticks-bind (unlock_all done) _ s' (unlock_all-Ticks done s') (λ _ _. tt)
    ])

pub write_back-Ticks :
    (wv : ℕ) (ws : List WsItem) (s : Shared) → wv ≤ s.global_version → Ticks (write_back wv ws) s
unfolding write_back vl_unlock_update
write_back-Ticks wv [] s h = tt
write_back-Ticks wv (w ∷ ws) s h = λ s1 r1 _. (
  (le_refl _, λ b. b),
  λ s2 r2 _. (
    set_lock-Tick s2 w.place (wv * 2) (λ b. omega (arith, r1.0, r2.0)),
    write_back-Ticks wv ws (set_lock w.place (wv * 2) s2) (omega (arith, r1.0, r2.0)),
  ),
)
