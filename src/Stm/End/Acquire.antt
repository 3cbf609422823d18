-- ===== src/Stm/End/Acquire.antt =====
-- The first half of `tm_end`: the locks, the clock and the validation.
use cs453_concurrent_algorit.Prelude.{
  ℕ, ◌+◌, ◌==◌, ◌&&◌, ◌≡◌, refl, sym, ap, subst, inl, inr, Bool, true, false, not, Option, none,
  some, List, [], ◌∷◌, arith, Bool-cases,
}
use cs453_concurrent_algorit.Prog.{Prog, Ends, Ends-bind, Ends-mono}
use cs453_concurrent_algorit.Region.{Loc, Shared}
use cs453_concurrent_algorit.VersionedLock.{vl_read_version, version_of}
use cs453_concurrent_algorit.Stm.Tx.{Tx, WsItem, RsItem}
use cs453_concurrent_algorit.Stm.Read.{too_new}
use cs453_concurrent_algorit.Stm.End.{
  unlock_all, lock_all, validate_item, validate, check_reads, checked, advance, acquire,
}
use cs453_concurrent_algorit.Stm.End.Locks.{
  count, Unlocked, unlock_all-Unlocked, Taken, Locked, lock_all-Locked,
}

-- An entry of the read set is still valid: it is gone, or its word is neither locked nor of a version
-- above `rv`.
abbrev pub is_current : ℕ → Shared → Option Loc → Bool
is_current rv s none = true
is_current rv s (some l) = not (too_new (version_of (s.locks l)) rv)

abbrev pub all_current : ℕ → Shared → List RsItem → Bool
all_current rv s [] = true
all_current rv s (r ∷ rs) = is_current rv s r.versioned_lock && all_current rv s rs

abbrev pub Checked : Bool → Shared → Bool → Shared → Type 0
Checked b s ok t = (ok ≡ b) × (t ≡ s)

validate_item-Ends :
    (rv : ℕ) (o : Option Loc) (rest : Prog Shared Bool) (b : Bool) (s : Shared)
    → Ends (Checked b s) rest s
    → Ends (Checked (is_current rv s o && b) s) (validate_item rv o rest) s
unfolding validate_item vl_read_version
validate_item-Ends rv none rest b s h = h
validate_item-Ends rv (some l) rest b s h = (
  refl,
  elim (Bool-cases (too_new (version_of (s.locks l)) rv)) [
    | inl new ↦ rw new (ground arith, refl)
    | inr old ↦ rw old (subst (λ c. Ends (Checked c s) rest s) (ground arith) h)
  ],
)

validate-Ends :
    (rv : ℕ) (rs : List RsItem) (s : Shared)
    → Ends (Checked (all_current rv s rs) s) (validate rv rs) s
unfolding validate
validate-Ends rv [] s = (refl, refl)
validate-Ends rv (r ∷ rs) s =
    validate_item-Ends rv r.versioned_lock (validate rv rs) (all_current rv s rs) s
      (validate-Ends rv rs s)

-- Between the lock phase and the write-back.
abbrev pub Acquired : Tx → List WsItem → Shared → Option ℕ → Shared → Type 0
Acquired t ws s none u =
    (u ≡ record s { locks = u.locks; global_version = u.global_version })
    × ((l : Loc) → u.locks l ≡ s.locks l)
Acquired t ws s (some wv) u =
    (wv ≡ s.global_version + 1)
    × (u ≡ record s { locks = u.locks; global_version = s.global_version + 1 })
    × ((l : Loc) → (u.locks l ≡ s.locks l + count l ws) × Taken t.rv ws s l)

abbrev tick : Shared → Shared
tick s = record s { global_version = s.global_version + 1 }

check_reads-Ends :
    (t : Tx) (wv : ℕ) (s : Shared) → t.rs_null ≡ false → Ends (λ ok u. u ≡ s) (check_reads t wv) s
unfolding check_reads
check_reads-Ends t wv s e = elim (Bool-cases (t.rv + 1 == wv)) [
  | inl quick ↦ rw quick refl
  | inr slow ↦
      rw (slow, e)
        (Ends-mono (Checked (all_current t.rv s t.rs) s) _ (validate t.rv t.rs) s (λ _ u c. c.1)
          (validate-Ends t.rv t.rs s))
]

checked-Acquired :
    (t : Tx) (ws : List WsItem) (s : Shared) (ok : Bool) (u : Shared)
    → Locked t.rv [] ws s true u
    → Ends (Acquired t ws s) (checked ws (u.global_version + 1) ok) (tick u)
unfolding checked
checked-Acquired t ws s true u h = (omega (arith, ap (λ x. x.global_version) h.0), ap tick h.0, h.1)
checked-Acquired t ws s false u h =
    Ends-bind (Unlocked ws (tick u)) (Acquired t ws s) (unlock_all ws) _ (tick u)
      (unlock_all-Unlocked ws (tick u) (λ l. omega (arith, (h.1 l).0)))
      (λ _ x (same, back).
        (ground (arith, same, ap tick h.0), λ l. omega (arith, back l, (h.1 l).0)))

advance-Acquired :
    (t : Tx) (ws : List WsItem) (s : Shared) (ok : Bool) (u : Shared)
    → t.rs_null ≡ false
    → Locked t.rv [] ws s ok u
    → Ends (Acquired t ws s) (advance t ws ok) u
unfolding advance
advance-Acquired t ws s false u e h = (ground arith, λ l. omega (arith, h.1 l))
advance-Acquired t ws s true u e h = (
  refl,
  Ends-bind (λ ok v. v ≡ tick u) (Acquired t ws s) (check_reads t (u.global_version + 1)) _ _
      (check_reads-Ends t (u.global_version + 1) (tick u) e)
      (λ ok v q.
        subst (Ends (Acquired t ws s) (checked ws (u.global_version + 1) ok)) (sym q)
          (checked-Acquired t ws s ok u h)),
)

pub acquire-Acquired :
    (t : Tx) (ws : List WsItem) (s : Shared)
    → t.rs_null ≡ false
    → Ends (Acquired t ws s) (acquire t ws) s
unfolding acquire
acquire-Acquired t ws s e =
    Ends-bind (Locked t.rv [] ws s) (Acquired t ws s) (lock_all t.rv [] ws) (advance t ws) s
      (lock_all-Locked t.rv [] ws s (λ l. omega arith)) (λ ok u h. advance-Acquired t ws s ok u e h)
