-- ===== src/Prog/Ghost.antt =====
-- Threads with a private ghost: a value that the program does not compute and that says what the
-- thread holds. An invariant ties the ghosts of all threads to the shared state.
use cs453_concurrent_algorit.Prelude.{ℕ, ◌≡◌, ◌≢◌, subst, true, ℕ_discrete}
use mathlib.Core.Logic.{if_pos, if_neg}
use cs453_concurrent_algorit.Prog.{Prog, ret, fault, act, ◌>>=◌}
use cs453_concurrent_algorit.Prog.Pool.{Pool, Step, Reach, update}

module _ {S O : Type 0} (R : O → S → S → Type 0) (G : O → O → S → S → Type 0) where
  -- From `s`, with any steps in `R` by others before each of its own, every step of the thread is in
  -- `G` for some new ghost, and if it returns, `Q` holds of the result, the ghost and the state.
  abbrev pub Tracks : {A : Type 0} → (A → O → S → Type 0) → Prog S A → O → S → Type 0
  Tracks Q (ret a) o s = Q a o s
  Tracks Q fault o s = Unit {0}
  Tracks Q (act en f k) o s =
      (s' : S) → R o s s' → en s' ≡ true → (o' : O) × G o o' s' (f s') × Tracks Q (k s') o' (f s')

  pub Tracks-bind :
      {A B : Type 0} (P : A → O → S → Type 0) (Q : B → O → S → Type 0) (m : Prog S A)
      (g : A → Prog S B) (o : O) (s : S)
      → Tracks P m o s
      → ((a : A) (o' : O) (s' : S) → P a o' s' → Tracks Q (g a) o' s')
      → Tracks Q (m >>= g) o s
  Tracks-bind P Q (ret a) g o s h k = k a o s h
  Tracks-bind P Q fault g o s h k = tt
  Tracks-bind P Q (act en f m) g o s h k = λ s' r e.
      let (o', step, rest) = h s' r e in (o', step, Tracks-bind P Q (m s') g o' (f s') rest k)

  pub Tracks-mono :
      {A : Type 0} (P Q : A → O → S → Type 0) (m : Prog S A) (o : O) (s : S)
      → ((a : A) (o' : O) (s' : S) → P a o' s' → Q a o' s')
      → Tracks P m o s
      → Tracks Q m o s
  Tracks-mono P Q (ret a) o s k h = k a o s h
  Tracks-mono P Q fault o s k h = tt
  Tracks-mono P Q (act en f m) o s k h = λ s' r e.
      let (o', step, rest) = h s' r e in (o', step, Tracks-mono P Q (m s') o' (f s') k rest)

  -- What holds of the ghost of a thread that has returned.
  abbrev pub Ended : (O → Type 0) → Unit {0} → O → S → Type 0
  Ended Final a o s = Final o

  Tracks-rely :
      (Final : O → Type 0) (m : Prog S (Unit {0})) (o : O) (s t : S)
      → ((a b c : S) → R o a b → R o b c → R o a c)
      → R o s t
      → Tracks (Ended Final) m o s
      → Tracks (Ended Final) m o t
  Tracks-rely Final (ret a) o s t tr r h = h
  Tracks-rely Final fault o s t tr r h = tt
  Tracks-rely Final (act en f k) o s t tr r h = λ s' r' e. h s' (tr s t s' r r') e

  abbrev pub AllTrack : (O → Type 0) → (ℕ → O) → Pool S → Type 0
  AllTrack Final own p = (i : ℕ) → Tracks (Ended Final) (p.threads i) (own i) p.shared

  -- One thread's guarantee keeps the invariant, and is within what the others rely on.
  abbrev pub Steps : ((ℕ → O) → S → Type 0) → Type 0
  Steps J =
      (own : ℕ → O) (i : ℕ) (o' : O) (s u : S)
      → J own s
      → G (own i) o' s u
      → J (update own i o') u × ((j : ℕ) → i ≢ j → R (own j) s u)

  module _ (Final : O → Type 0) (R-trans : (o : O) (a b c : S) → R o a b → R o b c → R o a c)
      (J : (ℕ → O) → S → Type 0) (J-refl : (own : ℕ → O) (s : S) (i : ℕ) → J own s → R (own i) s s)
      (steps : Steps J) where
    Step-AllTrack :
        {p q : Pool S} (own : ℕ → O)
        → Step p q
        → J own p.shared
        → AllTrack Final own p
        → (own' : ℕ → O) × J own' q.shared × AllTrack Final own' q
    Step-AllTrack {p} own (Step.pick i {en} {f} {k} e on) inv h =
        (update own i moved.0, next.0, rest)
      where
        moved :
            (o' : O) × G (own i) o' p.shared (f p.shared)
            × Tracks (Ended Final) (k p.shared) o' (f p.shared)
        moved =
            subst (λ t. Tracks (Ended Final) t (own i) p.shared) e (h i) p.shared
              (J-refl own p.shared i inv) on

        next :
            J (update own i moved.0) (f p.shared)
            × ((j : ℕ) → i ≢ j → R (own j) p.shared (f p.shared))
        next = steps own i moved.0 p.shared (f p.shared) inv moved.1

        rest :
            (j : ℕ)
            → Tracks
                (Ended Final)
                (update p.threads i (k p.shared) j)
                (update own i moved.0 j)
                (f p.shared)
        rest j = elim (ℕ_discrete i j) [
          | yes q ↦ rw (if_pos _ q, if_pos _ q) moved.2
          | no q ↦
              rw (if_neg _ q, if_neg _ q)
                (Tracks-rely Final (p.threads j) (own j) p.shared (f p.shared) (R-trans (own j))
                  (next.1 j q) (h j))
        ]

    -- The invariant holds in every state that can be reached, for the ghosts of that state.
    pub Reach-AllTrack :
        {p q : Pool S} (own : ℕ → O)
        → J own p.shared
        → AllTrack Final own p
        → Reach p q
        → (own' : ℕ → O) × J own' q.shared × AllTrack Final own' q
    Reach-AllTrack own inv h Reach.here = (own, inv, h)
    Reach-AllTrack own inv h (Reach.next run st) =
        let (own', inv', h') = Reach-AllTrack own inv h run in Step-AllTrack own' st inv' h'
