-- ===== src/Stm/Ownership/Loops.antt =====
-- What `lock_all`, `unlock_all` and `write_back` of 353607/tm.c hold, whatever other threads do.
use native.Mathlib.Nat.{le_trans}
use cs453_concurrent_algorit.Prelude.{
  ℕ, ◌+◌, ◌-◌, ◌*◌, ◌≤◌, ◌<◌, ◌==◌, ◌||◌, ◌≡◌, refl, sym, subst, ap, ◌∙◌, inl, inr, Bool, true,
  false, List, [], ◌∷◌, ◌++◌, ltb, arith, Bool-cases, if◌then◌else◌,
}
use cs453_concurrent_algorit.Region.{Loc, Shared, store, loc_eq}
use cs453_concurrent_algorit.VersionedLock.{
  vl_try_lock, vl_unlock, vl_unlock_update, set_lock, is_locked, version, with_lock,
}
use cs453_concurrent_algorit.VersionedLock.Race.{loc_eq_self}
use cs453_concurrent_algorit.Stm.Tx.{WsItem}
use cs453_concurrent_algorit.Stm.End.{unlock_all, lock_all, write_back}
use cs453_concurrent_algorit.Stm.End.Locks.{count, count-append, loc_eq→eq}
use cs453_concurrent_algorit.Prog.Ghost.{Tracks-bind, Tracks-mono}
use cs453_concurrent_algorit.Stm.Ownership.{
  Hold, free, clean, dirty, Held, Odd, Even, Holds, Rely, Guarantee, Tracked, SameMemory-Guarantee,
  Move, Since,
}
use cs453_concurrent_algorit.Stm.Ownership.Locks.{
  mark, OwnsItems, Once, set_hold, set_lock-Guarantee, store-Guarantee, OwnsItems-tail, Once-tail,
  head-clean, free_place, OwnsItems-more, Once-more,
}

abbrev pub Released : {A : Type 0} → A → Holds → Shared → Type 0
Released a o u = OwnsItems [] o

-- The step of `vl_unlock`, and that of `vl_unlock_update`.
Move-unlock : (h : Hold) (l w l' : ℕ) → h ≡ clean → Even l' → l ≤ l' + 1 → Move h free l w l' w
Move-unlock free l w l' e v q = cc
Move-unlock clean l w l' e v q = (v, q, refl)
Move-unlock dirty l w l' e v q = cc

pub unlock_all-Released :
    (ws : List WsItem) (o : Holds) (s : Shared)
    → Once ws
    → OwnsItems ws o
    → Tracked Released (unlock_all ws) o s
unfolding unlock_all vl_unlock
unlock_all-Released [] o s once own = own
unlock_all-Released (w ∷ ws) o s once own = λ s1 r _.
    let mine : o w.place ≡ clean = head-clean w ws o once own in
    let odd : Odd (s1.locks w.place) = r.2 w.place (subst Held (sym mine) tt) in
    (
      set_hold o w.place free,
      set_lock-Guarantee o w.place free (s1.locks w.place - 1) s1 r.1 (omega (arith, r.1 w.place))
          (Move-unlock (o w.place) _ _ _ mine (omega (arith, odd)) (omega arith)),
      elim (Bool-cases (s1.locks w.place == 0)) [
        | inl e ↦ rw e tt
        | inr e ↦ rw e (
            unlock_all-Released ws (set_hold o w.place free)
              (set_lock w.place (s1.locks w.place - 1) s1) (Once-tail w ws once)
              (OwnsItems-tail w ws o once own))
      ],
    )

-- What `vl_try_lock` leaves when `done` was held.
abbrev Tried : WsItem → List WsItem → Bool → Holds → Shared → Type 0
Tried w done true o u = OwnsItems (done ++ w ∷ []) o × Once (done ++ w ∷ [])
Tried w done false o u = OwnsItems done o

Move-lock : (h : Hold) (l w l' : ℕ) → h ≡ free → Even l → l' ≡ l + 1 → Move h clean l w l' w
Move-lock free l w l' e v q = (v, q, refl)
Move-lock clean l w l' e v q = cc
Move-lock dirty l w l' e v q = cc

vl_try_lock-Tried :
    (rv : ℕ) (w : WsItem) (done : List WsItem) (o : Holds) (s : Shared)
    → Once done
    → OwnsItems done o
    → Tracked (Tried w done) (vl_try_lock w.place rv) o s
unfolding vl_try_lock
vl_try_lock-Tried rv w done o s once own = λ s1 r _. (
  o,
  SameMemory-Guarantee o s1 s1 r.1 (refl, refl, refl),
  elim (Bool-cases (is_locked (s1.locks w.place) || ltb rv (version (s1.locks w.place)))) [
    | inl busy ↦ rw busy own
    | inr idle ↦ rw idle (λ s2 q _. elim (Bool-cases (s2.locks w.place == s1.locks w.place)) [
      | inl won ↦
          let even : Even (s2.locks w.place) = ground arith in
          let unheld : (count w.place done ≡ 0) × (o w.place ≡ free) =
            free_place done o w.place (s2.locks w.place) own (q.2 w.place) even in
          (
            set_hold o w.place clean,
            rw won (
                set_lock-Guarantee o w.place clean (with_lock (s1.locks w.place)) s2 q.1
                  (ground (arith, q.1 w.place))
                  (Move-lock (o w.place) _ _ _ unheld.1 even (ground arith))),
            rw won (OwnsItems-more w done o unheld.0 own, Once-more w done unheld.0 once),
          )
      | inr lost ↦ (o, rw lost (SameMemory-Guarantee o s2 s2 q.1 (refl, refl, refl)), rw lost own)
    ])
  ],
)

-- Every item locked, each once, or none.
abbrev pub AllOrNone : List WsItem → List WsItem → Bool → Holds → Shared → Type 0
AllOrNone done ws true o u =
    (l : Loc) → (o l ≡ mark (count l done + count l ws)) × (count l done + count l ws ≤ 1)
AllOrNone done ws false o u = OwnsItems [] o

more-AllOrNone :
    (done : List WsItem) (w : WsItem) (ws : List WsItem) (ok : Bool) (o : Holds) (u : Shared)
    → AllOrNone (done ++ w ∷ []) ws ok o u
    → AllOrNone done (w ∷ ws) ok o u
more-AllOrNone done w ws true o u h = λ l.
    let same : count l (done ++ w ∷ []) + count l ws ≡ count l done + count l (w ∷ ws) =
      ground (arith, count-append l done (w ∷ [])) in
    ((h l).0 ∙ ap mark same, omega (arith, (h l).1, same))
more-AllOrNone done w ws false o u h = h

pub lock_all-AllOrNone :
    (rv : ℕ) (done ws : List WsItem) (o : Holds) (s : Shared)
    → Once done
    → OwnsItems done o
    → Tracked (AllOrNone done ws) (lock_all rv done ws) o s
unfolding lock_all
lock_all-AllOrNone rv done [] o s once own =
    λ l. (own l ∙ ap mark (omega arith), omega (arith, once l))
lock_all-AllOrNone rv done (w ∷ ws) o s once own =
    Tracks-bind Rely Guarantee (Tried w done) (AllOrNone done (w ∷ ws)) (vl_try_lock w.place rv) _ o
      s (vl_try_lock-Tried rv w done o s once own)
      (elim [
        | true ↦ λ o' s' h.
            Tracks-mono Rely Guarantee (AllOrNone (done ++ w ∷ []) ws) (AllOrNone done (w ∷ ws))
              (lock_all rv (done ++ w ∷ []) ws) o' s' (λ ok o2 u. more-AllOrNone done w ws ok o2 u)
              (lock_all-AllOrNone rv (done ++ w ∷ []) ws o' s' h.1 h.0)
        | false ↦ λ o' s' h.
            Tracks-bind Rely Guarantee Released (AllOrNone done (w ∷ ws)) (unlock_all done) _ o' s'
              (unlock_all-Released done o' s' once h) (λ _ o2 u k. k)
      ])

-- Every lock that is held is below the version to be written, which the clock has reached.
abbrev pub Below : ℕ → Holds → Shared → Type 0
Below wv o s = (wv ≤ s.global_version) × ((l : Loc) → Held (o l) → s.locks l < wv * 2)

pub Below-Since : (wv : ℕ) (o : Holds) (s u : Shared) → Since o s u → Below wv o s → Below wv o u
Below-Since wv o s u r b = (le_trans b.0 r.0, λ l h. rw (r.1 l h) (b.1 l h))

Move-update : (h : Hold) (l w l' : ℕ) → h ≡ dirty → Even l' → l < l' → Move h free l w l' w
Move-update free l w l' e v q = cc
Move-update clean l w l' e v q = cc
Move-update dirty l w l' e v q = (v, q, refl)

-- What is held of a tail was held of the list.
Below-tail :
    (wv : ℕ) (w : WsItem) (o : Holds) (s : Shared)
    → Below wv o s
    → (u : Shared) → u.global_version ≡ s.global_version
    → ((l : Loc) → loc_eq w.place l ≡ false → u.locks l ≡ s.locks l)
    → Below wv (set_hold o w.place free) u
Below-tail wv w o s b u clock others = (
  rw clock b.0,
  λ l. elim (Bool-cases (loc_eq w.place l)) [
    | inl e ↦ rw e (λ h. absurd h)
    | inr e ↦ rw (e, others l e) (b.1 l)
  ],
)

-- A written item is held as before.
Below-written :
    (wv : ℕ) (w : WsItem) (o : Holds) (s : Shared)
    → o w.place ≡ clean
    → Below wv o s
    → Below wv (set_hold o w.place dirty) (record s { words = store s.words w.place w.value })
Below-written wv w o s mine b = (
  b.0,
  λ l. elim (Bool-cases (loc_eq w.place l)) [
    | inl e ↦ rw e (λ _. b.1 l (subst (λ m. Held (o m)) (loc_eq→eq w.place l e) (rw mine tt)))
    | inr e ↦ rw e (b.1 l)
  ],
)

set_hold_twice :
    (o : Holds) (l : Loc) (h h' : Hold) (m : Loc)
    → set_hold (set_hold o l h) l h' m ≡ set_hold o l h' m
set_hold_twice o l h h' m = elim (Bool-cases (loc_eq l m)) [ inl e ↦ rw e refl | inr e ↦ rw e refl ]

pub write_back-Released :
    (wv : ℕ) (ws : List WsItem) (o : Holds) (s : Shared)
    → Once ws
    → OwnsItems ws o
    → Below wv o s
    → Tracked Released (write_back wv ws) o s
unfolding write_back vl_unlock_update
write_back-Released wv [] o s once own b = own
write_back-Released wv (w ∷ ws) o s once own b = λ s1 r _. (
  set_hold o w.place dirty,
  store-Guarantee o w.place w.value s1 r.1 mine,
  λ s2 q _.
      let below : Below wv (set_hold o w.place dirty) s2 =
        Below-Since wv (set_hold o w.place dirty)
          (record s1 { words = store s1.words w.place w.value }) s2 q.0
          (Below-written wv w o s1 mine (Below-Since wv o s s1 r.0 b)) in
      let written : set_hold o w.place dirty w.place ≡ dirty =
        ap (λ e. if e then dirty else o w.place) (loc_eq_self w.place) in
      (
        set_hold (set_hold o w.place dirty) w.place free,
        set_lock-Guarantee (set_hold o w.place dirty) w.place free (wv * 2) s2 q.1
            (omega (arith, below.0))
            (Move-update (set_hold o w.place dirty w.place) _ _ _ written (omega arith)
              (below.1 w.place (subst Held (sym written) tt))),
        write_back-Released wv ws (set_hold (set_hold o w.place dirty) w.place free)
            (set_lock w.place (wv * 2) s2) (Once-tail w ws once)
            (λ l. set_hold_twice o w.place dirty free l ∙ OwnsItems-tail w ws o once own l)
            (Below-tail wv w (set_hold o w.place dirty) s2 below (set_lock w.place (wv * 2) s2) refl
              (λ l e. rw e refl)),
      ),
)
  where
    mine : o w.place ≡ clean
    mine = head-clean w ws o once own
