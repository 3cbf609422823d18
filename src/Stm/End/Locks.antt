-- ===== src/Stm/End/Locks.antt =====
-- What the loops of `tm_end` do to the lock words, when no other thread acts.
use cs453_concurrent_algorit.Prelude.{
  ℕ, ◌+◌, ◌-◌, ◌*◌, ◌/◌, ◌%◌, ◌≤◌, ◌==◌, ◌||◌, ◌≡◌, refl, ◌⊎◌, inl, inr, Bool, true, false, List,
  [], ◌∷◌, ◌++◌, ltb, arith, Bool-cases, All, if◌then◌else◌,
}
use cs453_concurrent_algorit.Prog.{Ends, Ends-bind, Ends-mono}
use cs453_concurrent_algorit.Region.{Loc, Shared, loc_eq, store}
use cs453_concurrent_algorit.VersionedLock.{
  vl_try_lock, vl_unlock, vl_unlock_update, set_lock, is_locked, version, with_lock,
}
use cs453_concurrent_algorit.VersionedLock.Race.{loc_eq_self}
use cs453_concurrent_algorit.Stm.Tx.{WsItem}
use cs453_concurrent_algorit.Stm.End.{unlock_all, lock_all, write_back}

-- How often a place occurs in a write set.
abbrev pub count : Loc → List WsItem → ℕ
count l [] = 0
count l (w ∷ ws) = (if loc_eq w.place l then 1 else 0) + count l ws

pub count-append : (l : Loc) (xs ys : List WsItem) → count l (xs ++ ys) ≡ count l xs + count l ys
count-append l [] ys = omega arith
count-append l (x ∷ xs) ys = omega (arith, count-append l xs ys)

-- All but the lock words, and those fields that the commit does not touch, are as they were.
abbrev pub OnlyLocks : Shared → Shared → Type 0
OnlyLocks s t = t ≡ record s { locks = t.locks }

pub loc_eq→eq : (l m : Loc) → loc_eq l m ≡ true → l ≡ m
loc_eq→eq l m h = ground arith

-- The old value at the place of a store, read at a place that is equal to it.
pub at_place : (f : Loc → ℕ) (l m : Loc) → loc_eq l m ≡ true → f l ≡ f m
at_place f l m h = rw (loc_eq→eq l m h)

abbrev pub Unlocked : List WsItem → Shared → Unit {0} → Shared → Type 0
Unlocked ws s _ t = OnlyLocks s t × ((l : Loc) → t.locks l + count l ws ≡ s.locks l)

pub unlock_all-Unlocked :
    (ws : List WsItem) (s : Shared)
    → ((l : Loc) → count l ws ≤ s.locks l)
    → Ends (Unlocked ws s) (unlock_all ws) s
unfolding unlock_all vl_unlock
unlock_all-Unlocked [] s h = (refl, λ l. omega arith)
unlock_all-Unlocked (w ∷ ws) s h = (
  refl,
  elim (Bool-cases (s.locks w.place == 0)) [
    | inl zero_word ↦ absurd (ground (arith, h w.place, loc_eq_self w.place))
    | inr held ↦ rw held (
        Ends-mono (Unlocked ws s1) (Unlocked (w ∷ ws) s) (unlock_all ws) s1
          (λ _ t u. (
            u.0,
            λ l. ground (arith, u.1 l, h w.place, loc_eq_self w.place, at_place s.locks w.place l),
          ))
          (unlock_all-Unlocked ws s1 (λ l. ground (arith, h l, at_place s.locks w.place l))))
  ],
)
  where
    s1 : Shared
    s1 = set_lock w.place (s.locks w.place - 1) s

-- What `lock_all` found at the place of an item that it locked.
abbrev pub Taken : ℕ → List WsItem → Shared → Loc → Type 0
Taken rv ws s l = (count l ws ≡ 0) ⊎ ((count l ws ≡ 1) × (s.locks l % 2 ≡ 0) × (s.locks l / 2 ≤ rv))

-- On success every item is locked, each once; on failure those of `done` are unlocked, and the others
-- as they were.
abbrev pub Locked : ℕ → List WsItem → List WsItem → Shared → Bool → Shared → Type 0
Locked rv done ws s true t =
    OnlyLocks s t × ((l : Loc) → (t.locks l ≡ s.locks l + count l ws) × Taken rv ws s l)
Locked rv done ws s false t = OnlyLocks s t × ((l : Loc) → t.locks l + count l done ≡ s.locks l)

pub lock_all-Locked :
    (rv : ℕ) (done ws : List WsItem) (s : Shared)
    → ((l : Loc) → count l done ≤ s.locks l)
    → Ends (Locked rv done ws s) (lock_all rv done ws) s
unfolding lock_all vl_try_lock
lock_all-Locked rv done [] s h = (refl, λ l. (omega arith, inl refl))
lock_all-Locked rv done (w ∷ ws) s h = (
  refl,
  elim (Bool-cases (is_locked (s.locks w.place) || ltb rv (version (s.locks w.place)))) [
    | inl busy ↦ rw busy (
        Ends-bind (Unlocked done s) (Locked rv done (w ∷ ws) s) (unlock_all done) _ s
          (unlock_all-Unlocked done s h) (λ _ t u. u))
    | inr free ↦ rw free (
      refl,
      rw self (
          Ends-mono (Locked rv (done ++ w ∷ []) ws s1) (Locked rv done (w ∷ ws) s)
            (lock_all rv (done ++ w ∷ []) ws) s1
            (elim [
              | true ↦ λ t u. (u.0, λ l. ground (arith, u.1 l, at_place s.locks w.place l))
              | false ↦ λ t u. (
                u.0,
                λ l.
                    ground (arith, u.1 l, at_place s.locks w.place l, count-append l done (w ∷ [])),
              )
            ])
            (lock_all-Locked rv (done ++ w ∷ []) ws s1 (λ l.
              ground (arith, h l, at_place s.locks w.place l, count-append l done (w ∷ []))))),
    )
  ],
)
  where
    s1 : Shared
    s1 = set_lock w.place (with_lock (s.locks w.place)) s

    self : (s.locks w.place == s.locks w.place) ≡ true
    self = ground arith

-- What `write_back` leaves at the places of the items, and elsewhere.
abbrev pub Written : ℕ → List WsItem → Shared → Unit {0} → Shared → Type 0
Written wv ws s _ t =
    (t ≡ record s { locks = t.locks; words = t.words })
    × ((l : Loc) → count l ws ≡ 0 → (t.locks l ≡ s.locks l) × (t.words l ≡ s.words l))
    × All (λ w. (t.words w.place ≡ w.value) × (t.locks w.place ≡ wv * 2)) ws

pub write_back-Written :
    (wv : ℕ) (ws : List WsItem) (s : Shared)
    → ((l : Loc) → count l ws ≤ 1)
    → Ends (Written wv ws s) (write_back wv ws) s
unfolding write_back vl_unlock_update
write_back-Written wv [] s h = (refl, λ l e. (refl, refl), tt)
write_back-Written wv (w ∷ ws) s h = (
  refl,
  (
    refl,
    Ends-mono (Written wv ws s1) (Written wv (w ∷ ws) s) (write_back wv ws) s1
        (λ _ t (same, others, all). (
          same,
          λ l e. ground (arith, others l),
          (ground (arith, others w.place, h w.place, loc_eq_self w.place), all),
        ))
        (write_back-Written wv ws s1 (λ l. ground (arith, h l))),
  ),
)
  where
    s1 : Shared
    s1 = record s { words = store s.words w.place w.value; locks = store s.locks w.place (wv * 2) }
