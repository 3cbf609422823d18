-- ===== src/Stm/Ownership/Moves.antt =====
-- The invariant that ties what the threads hold to the lock words, and why every step keeps it.
use native.Mathlib.Nat.{le_refl}
use cs453_concurrent_algorit.Prelude.{ℕ, ◌/◌, ◌≤◌, ◌≡◌, ◌≢◌, refl, ◌∙◌, arith, subst, ℕ_discrete}
use cs453_concurrent_algorit.Prog.Pool.{update, update_here, update_there, update-cases}
use cs453_concurrent_algorit.Prog.Ghost.{Steps}
use cs453_concurrent_algorit.Region.{Loc, Shared}
use cs453_concurrent_algorit.Stm.Clock.{Bounded}
use cs453_concurrent_algorit.Stm.Ownership.{
  Hold, free, clean, dirty, Held, Odd, Even, Move, Holds, Rely, Guarantee, Since-refl,
}

-- A held word is locked, and held by one thread.
pub record IsOwned (own : ℕ → Holds) (s : Shared) : Type 0 where
  pub bounded : Bounded s
  pub locked : (i : ℕ) (l : Loc) → Held (own i l) → Odd (s.locks l)
  pub one_owner : (i j : ℕ) (l : Loc) → Held (own i l) → Held (own j l) → i ≡ j

-- What has happened to the words since `s`. A word that has its version still has its contents, unless
-- a thread is about to give it a new version.
pub record IsAfter (s : Shared) (own : ℕ → Holds) (u : Shared) : Type 0 where
  pub clock : s.global_version ≤ u.global_version
  pub versions : (l : Loc) → s.locks l / 2 ≤ u.locks l / 2
  pub contents :
      (l : Loc)
      → Even (s.locks l)
      → u.locks l / 2 ≡ s.locks l / 2
      → ((i : ℕ) → own i l ≢ dirty)
      → u.words l ≡ s.words l

abbrev pub Inv : Shared → (ℕ → Holds) → Shared → Type 0
Inv s own u = IsOwned own u × IsAfter s own u

-- What a step leaves held is locked.
Move-Odd : (h h' : Hold) (l w l' w' : ℕ) → Move h h' l w l' w' → (Held h → Odd l) → Held h' → Odd l'
Move-Odd free free l w l' w' m o g = absurd g
Move-Odd free clean l w l' w' m o g = omega (arith, m.0, m.1)
Move-Odd free dirty l w l' w' m o g = absurd m
Move-Odd clean free l w l' w' m o g = absurd g
Move-Odd clean clean l w l' w' m o g = omega (arith, m.0, o g)
Move-Odd clean dirty l w l' w' m o g = omega (arith, m, o g)
Move-Odd dirty free l w l' w' m o g = absurd g
Move-Odd dirty clean l w l' w' m o g = absurd m
Move-Odd dirty dirty l w l' w' m o g = omega (arith, m.0, o g)

-- A word that another thread holds is not touched.
Move-apart :
    (h h' : Hold) (l w l' w' : ℕ)
    → Move h h' l w l' w'
    → (Held h → ⊥)
    → Odd l
    → (Held h' → ⊥) × (l' ≡ l)
Move-apart free free l w l' w' m n o = (λ g. g, m.0)
Move-apart free clean l w l' w' m n o = absurd (omega (arith, m.0, o))
Move-apart free dirty l w l' w' m n o = absurd m
Move-apart clean h' l w l' w' m n o = absurd (n tt)
Move-apart dirty h' l w l' w' m n o = absurd (n tt)

-- The version does not go back.
Move-version :
    (h h' : Hold) (l w l' w' : ℕ) → Move h h' l w l' w' → (Held h → Odd l) → l / 2 ≤ l' / 2
Move-version free free l w l' w' m o = omega (arith, m.0)
Move-version free clean l w l' w' m o = omega (arith, m.0, m.1)
Move-version free dirty l w l' w' m o = absurd m
Move-version clean free l w l' w' m o = omega (arith, m.0, m.1, o tt)
Move-version clean clean l w l' w' m o = omega (arith, m.0)
Move-version clean dirty l w l' w' m o = omega (arith, m)
Move-version dirty free l w l' w' m o = omega (arith, m.0, m.1, o tt)
Move-version dirty clean l w l' w' m o = absurd m
Move-version dirty dirty l w l' w' m o = omega (arith, m.0)

-- A step that leaves the version leaves the word, unless it writes to it.
Move-contents :
    (h h' : Hold) (l w l' w' : ℕ)
    → Move h h' l w l' w'
    → (Held h → Odd l)
    → l' / 2 ≡ l / 2
    → h' ≢ dirty
    → (h ≢ dirty) × (w' ≡ w)
Move-contents free free l w l' w' m o e n = (n, m.1)
Move-contents free clean l w l' w' m o e n = (ground arith, m.2)
Move-contents free dirty l w l' w' m o e n = absurd m
Move-contents clean free l w l' w' m o e n = (ground arith, m.2)
Move-contents clean clean l w l' w' m o e n = (n, m.1)
Move-contents clean dirty l w l' w' m o e n = absurd (n refl)
Move-contents dirty free l w l' w' m o e n = absurd (omega (arith, m.0, m.1, o tt, e))
Move-contents dirty clean l w l' w' m o e n = absurd m
Move-contents dirty dirty l w l' w' m o e n = absurd (n refl)

module _ (own : ℕ → Holds) (i : ℕ) (o' : Holds) (s u : Shared) (inv : IsOwned own s)
    (g : Guarantee (own i) o' s u) where
  -- A word that another thread holds.
  apart : (j : ℕ) (l : Loc) → i ≢ j → Held (own j l) → (Held (o' l) → ⊥) × (u.locks l ≡ s.locks l)
  apart j l n h =
      Move-apart (own i l) (o' l) _ _ _ _ (g.2 l) (λ k. n (inv.one_owner i j l k h))
        (inv.locked j l h)

  pub Guarantee-Rely : (j : ℕ) → i ≢ j → Rely (own j) s u
  Guarantee-Rely j n =
      ((g.0, λ l h. (apart j l n h).1), g.1, λ l h. rw ((apart j l n h).1) (inv.locked j l h))

  pub Guarantee-IsOwned : IsOwned (update own i o') u
  Guarantee-IsOwned = record {
    bounded = g.1;
    locked = λ j l.
        update-cases (λ _ o. Held (o l) → Odd (u.locks l)) own i o' j
          (Move-Odd (own i l) (o' l) _ _ _ _ (g.2 l) (inv.locked i l))
          (λ n h. rw ((apart j l n h).1) (inv.locked j l h));
    one_owner = λ j k l.
        update-cases (λ a o. Held (o l) → Held (update own i o' k l) → a ≡ k) own i o' j
          (λ h.
            update-cases (λ b o. Held (o l) → i ≡ b) own i o' k (λ _. refl)
              (λ n q. absurd ((apart k l n q).0 h)))
          (λ n h.
            update-cases (λ b o. Held (o l) → j ≡ b) own i o' k (λ q. absurd ((apart j l n h).0 q))
              (λ _ q. inv.one_owner j k l h q));
  }

  pub Guarantee-IsAfter : (s0 : Shared) → IsAfter s0 own s → IsAfter s0 (update own i o') u
  Guarantee-IsAfter s0 a = record {
    clock = omega (arith, a.clock, g.0);
    versions = λ l. omega (arith, a.versions l, ahead l);
    contents = λ l even same clean_all.
        let moved : (own i l ≢ dirty) × (u.words l ≡ s.words l) =
          Move-contents (own i l) (o' l) _ _ _ _ (g.2 l) (inv.locked i l)
            (omega (arith, a.versions l, ahead l, same))
            (subst (λ o. o l ≢ dirty) (update_here own i o') (clean_all i)) in
        moved.1
        ∙ a.contents l even (omega (arith, a.versions l, ahead l, same)) (λ j.
          elim (ℕ_discrete i j) [
            | yes e ↦ subst (λ n. own n l ≢ dirty) e moved.0
            | no n ↦ subst (λ o. o l ≢ dirty) (update_there own i o' j n) (clean_all j)
          ]);
  }
    where
      ahead : (l : Loc) → s.locks l / 2 ≤ u.locks l / 2
      ahead l = Move-version (own i l) (o' l) _ _ _ _ (g.2 l) (inv.locked i l)

pub Inv-steps : (s0 : Shared) → Steps Rely Guarantee (Inv s0)
Inv-steps s0 own i o' s u (inv, a) g = (
  (Guarantee-IsOwned own i o' s u inv g, Guarantee-IsAfter own i o' s u inv g s0 a),
  Guarantee-Rely own i o' s u inv g,
)

pub Inv-refl :
    (s0 : Shared) (own : ℕ → Holds) (s : Shared) (i : ℕ) → Inv s0 own s → Rely (own i) s s
Inv-refl s0 own s i (inv, a) = (Since-refl (own i) s, inv.bounded, inv.locked i)

pub IsAfter-refl : (own : ℕ → Holds) (s : Shared) → IsAfter s own s
IsAfter-refl own s = record {
  clock = le_refl _;
  versions = λ l. le_refl _;
  contents = λ l even same clean_all. refl;
}
