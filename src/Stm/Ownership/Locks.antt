-- ===== src/Stm/Ownership/Locks.antt =====
-- The locks of a write set as a ghost, and the steps that take and give back one of them.
use native.Mathlib.Nat.{le_refl}
use cs453_concurrent_algorit.Prelude.{
  ℕ, ◌+◌, ◌*◌, ◌≤◌, ◌==◌, ◌≡◌, refl, sym, subst, ap, ◌∙◌, inl, inr, List, [], ◌∷◌, ◌++◌, arith,
  Bool-cases, if◌then◌else◌,
}
use cs453_concurrent_algorit.Region.{Loc, Shared, loc_eq, store}
use cs453_concurrent_algorit.VersionedLock.{set_lock}
use cs453_concurrent_algorit.VersionedLock.Race.{loc_eq_self}
use cs453_concurrent_algorit.Stm.Tx.{WsItem}
use cs453_concurrent_algorit.Stm.End.Locks.{count, count-append, loc_eq→eq}
use cs453_concurrent_algorit.Stm.Clock.{Bounded}
use cs453_concurrent_algorit.Stm.Ownership.{
  Hold, free, clean, dirty, Held, Odd, Even, Move, Holds, Guarantee, Move-same,
}

abbrev pub mark : ℕ → Hold
mark n = if n == 0 then free else clean

-- The locks of the items, and no others.
abbrev pub OwnsItems : List WsItem → Holds → Type 0
OwnsItems ws o = (l : Loc) → o l ≡ mark (count l ws)

abbrev pub Once : List WsItem → Type 0
Once ws = (l : Loc) → count l ws ≤ 1

abbrev pub set_hold : Holds → Loc → Hold → Holds
set_hold o l h m = if loc_eq l m then h else o m

-- A step that changes one lock word.
pub set_lock-Guarantee :
    (o : Holds) (l : Loc) (h : Hold) (w : ℕ) (s : Shared)
    → Bounded s
    → w ≤ s.global_version * 2 + 1
    → Move (o l) h (s.locks l) (s.words l) w (s.words l)
    → Guarantee o (set_hold o l h) s (set_lock l w s)
set_lock-Guarantee o l h w s b small m = (
  le_refl _,
  λ k. ground (arith, b k),
  λ k. elim (Bool-cases (loc_eq l k)) [
    | inl e ↦
        rw e (subst (λ n. Move (o n) h (s.locks n) (s.words n) w (s.words n)) (loc_eq→eq l k e) m)
    | inr e ↦ rw e (Move-same (o k) (s.locks k) (s.words k))
  ],
)

-- A write to a word whose lock is held.
pub store-Guarantee :
    (o : Holds) (l : Loc) (v : ℕ) (s : Shared)
    → Bounded s
    → o l ≡ clean
    → Guarantee o (set_hold o l dirty) s (record s { words = store s.words l v })
store-Guarantee o l v s b held = (
  le_refl _,
  b,
  λ k. elim (Bool-cases (loc_eq l k)) [
    | inl e ↦ rw (e, sym (ap o (loc_eq→eq l k e)), held) refl
    | inr e ↦ rw e (Move-same (o k) (s.locks k) (s.words k))
  ],
)

-- One item less to hold.
pub OwnsItems-tail :
    (w : WsItem) (ws : List WsItem) (o : Holds)
    → Once (w ∷ ws)
    → OwnsItems (w ∷ ws) o
    → OwnsItems ws (set_hold o w.place free)
OwnsItems-tail w ws o once own l = elim (Bool-cases (loc_eq w.place l)) [
  | inl e ↦ let none_left : count l ws ≡ 0 = ground (arith, once l, e) in rw (e, none_left) refl
  | inr e ↦
      let others : count l (w ∷ ws) ≡ count l ws = ground (arith, e) in
      rw e (own l ∙ ap mark others)
]

pub Once-tail : (w : WsItem) (ws : List WsItem) → Once (w ∷ ws) → Once ws
Once-tail w ws once l = ground (arith, once l)

pub head-clean :
    (w : WsItem) (ws : List WsItem) (o : Holds)
    → Once (w ∷ ws)
    → OwnsItems (w ∷ ws) o
    → o w.place ≡ clean
head-clean w ws o once own =
    let one : count w.place (w ∷ ws) ≡ 1 = ground (arith, once w.place, loc_eq_self w.place) in
    own w.place ∙ ap mark one

-- A lock word that was found free is not one of those held.
pub free_place :
    (done : List WsItem) (o : Holds) (l : Loc) (w : ℕ)
    → OwnsItems done o
    → (Held (o l) → Odd w)
    → Even w
    → (count l done ≡ 0) × (o l ≡ free)
free_place done o l w own odd even = elim (Bool-cases (count l done == 0)) [
  | inl e ↦ let no : count l done ≡ 0 = ground arith in (no, own l ∙ ap mark no)
  | inr e ↦
      let held : o l ≡ clean = own l ∙ ap (λ b. if b then free else clean) e in
      absurd (omega (arith, even, odd (subst Held (sym held) tt)))
]

-- One item more.
pub OwnsItems-more :
    (w : WsItem) (done : List WsItem) (o : Holds)
    → count w.place done ≡ 0
    → OwnsItems done o
    → OwnsItems (done ++ w ∷ []) (set_hold o w.place clean)
OwnsItems-more w done o none_yet own l = elim (Bool-cases (loc_eq w.place l)) [
  | inl e ↦
      let here : count l done ≡ 0 =
        subst (λ m. count m done ≡ 0) (loc_eq→eq w.place l e) none_yet in
      let one : count l (done ++ w ∷ []) ≡ 1 = ground (arith, here, count-append l done (w ∷ [])) in
      rw (e, one) refl
  | inr e ↦
      let others : count l (done ++ w ∷ []) ≡ count l done =
        ground (arith, count-append l done (w ∷ [])) in
      rw (e, others) (own l)
]

pub Once-more :
    (w : WsItem) (done : List WsItem) → count w.place done ≡ 0 → Once done → Once (done ++ w ∷ [])
Once-more w done none_yet once l = elim (Bool-cases (loc_eq w.place l)) [
  | inl e ↦
      let here : count l done ≡ 0 =
        subst (λ m. count m done ≡ 0) (loc_eq→eq w.place l e) none_yet in
      ground (arith, here, count-append l done (w ∷ []))
  | inr e ↦ ground (arith, once l, count-append l done (w ∷ []))
]
