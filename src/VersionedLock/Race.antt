-- ===== src/VersionedLock/Race.antt =====
-- The operations on a versioned lock when other threads act between their steps.
use cs453_concurrent_algorit.Prelude.{
  ℕ, ◌+◌, ◌/◌, ◌%◌, ◌≤◌, ◌≡◌, refl, ◌⊎◌, inl, inr, Bool, true, false, arith, ltb, ◌||◌, Bool-cases,
}
use cs453_concurrent_algorit.Prog.Rely.{Keeps}
use cs453_concurrent_algorit.Region.{Loc, Shared, loc_eq}
use cs453_concurrent_algorit.VersionedLock.{vl_try_lock, set_lock, is_locked, version}

abbrev pub Anything : Shared → Shared → Type 0
Anything s t = Unit {0}

-- A step that leaves the state alone, or locks a word that is free and of a version up to `rv`.
abbrev pub Acquires : Loc → ℕ → Shared → Shared → Type 0
Acquires l rv s t =
    (t ≡ s) ⊎ ((s.locks l % 2 ≡ 0) × (s.locks l / 2 ≤ rv) × (t ≡ set_lock l (s.locks l + 1) s))

-- On success the word is locked, with its version as it was.
abbrev pub Acquired : Loc → ℕ → Bool → Shared → Type 0
Acquired l rv true s = (s.locks l % 2 ≡ 1) × (s.locks l / 2 ≤ rv)
Acquired l rv false s = Unit {0}

pub loc_eq_self : (l : Loc) → loc_eq l l ≡ true
loc_eq_self l = ground arith

-- Whatever other threads do between its two steps, `vl_try_lock l rv` changes nothing but the word at
-- `l`, which it turns only from free with a version up to `rv` into locked with that version; and
-- when it returns true, the word is locked with a version up to `rv`.
pub vl_try_lock-Acquires :
    (l : Loc) (rv : ℕ) (s : Shared)
    → Keeps Anything (Acquires l rv) (Acquired l rv) (vl_try_lock l rv) s
unfolding vl_try_lock
vl_try_lock-Acquires l rv s s1 _ _ = (
  inl refl,
  elim (Bool-cases (is_locked (s1.locks l) || ltb rv (version (s1.locks l)))) [
    | inl busy ↦ rw busy tt
    | inr free ↦ rw free (λ s2 _ _. (ground (arith, loc_eq_self l), ground (arith, loc_eq_self l)))
  ],
)
