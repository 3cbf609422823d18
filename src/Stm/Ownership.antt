-- ===== src/Stm/Ownership.antt =====
-- Which thread holds which lock word of 353607/tm.c, in every interleaving: a ghost of each thread.
pub mod Moves
pub mod Locks
pub mod Loops
pub mod Commit
pub mod Contents
use native.Mathlib.Nat.{le_refl, le_trans}
use cs453_concurrent_algorit.Prelude.{
  ℕ, ◌+◌, ◌*◌, ◌%◌, ◌≤◌, ◌<◌, ◌==◌, ◌≡◌, refl, ◌∙◌, arith, if◌then◌else◌,
}
use cs453_concurrent_algorit.Prog.{Prog, ret, fault, act}
use cs453_concurrent_algorit.Prog.Ghost.{Tracks}
use cs453_concurrent_algorit.Region.{Loc, Shared}
use cs453_concurrent_algorit.Stm.Isolation.{SameMemory, Quiet}
use cs453_concurrent_algorit.Stm.Clock.{Bounded}

-- A thread does not hold the lock of a word, holds it, or holds it and has written to the word.
pub data Hold : Type 0 where
  free : Hold
  clean : Hold
  dirty : Hold

abbrev pub Held : Hold → Type 0
Held free = ⊥
Held clean = Unit {0}
Held dirty = Unit {0}

abbrev pub Odd : ℕ → Type 0
Odd w = w % 2 ≡ 1

abbrev pub Even : ℕ → Type 0
Even w = w % 2 ≡ 0

-- What a step does to one word and its lock, from `l` and `w` to `l'` and `w'`.
abbrev pub Move : Hold → Hold → ℕ → ℕ → ℕ → ℕ → Type 0
Move free free l w l' w' = (l' ≡ l) × (w' ≡ w)
Move free clean l w l' w' = Even l × (l' ≡ l + 1) × (w' ≡ w)
Move free dirty l w l' w' = ⊥
Move clean free l w l' w' = Even l' × (l ≤ l' + 1) × (w' ≡ w)
Move clean clean l w l' w' = (l' ≡ l) × (w' ≡ w)
Move clean dirty l w l' w' = l' ≡ l
Move dirty free l w l' w' = Even l' × (l < l') × (w' ≡ w)
Move dirty clean l w l' w' = ⊥
Move dirty dirty l w l' w' = (l' ≡ l) × (w' ≡ w)

abbrev pub Holds : Type 0
Holds = Loc → Hold

-- The clock does not go back, and the locks that are held stay as they are.
abbrev pub Since : Holds → Shared → Shared → Type 0
Since o s u =
    (s.global_version ≤ u.global_version) × ((l : Loc) → Held (o l) → u.locks l ≡ s.locks l)

-- What a thread relies on: the others do not touch what it holds.
abbrev pub Rely : Holds → Shared → Shared → Type 0
Rely o s u = Since o s u × Bounded u × ((l : Loc) → Held (o l) → Odd (u.locks l))

-- What each step of a thread does.
abbrev pub Guarantee : Holds → Holds → Shared → Shared → Type 0
Guarantee o o' s u =
    (s.global_version ≤ u.global_version)
    × Bounded u
    × ((l : Loc) → Move (o l) (o' l) (s.locks l) (s.words l) (u.locks l) (u.words l))

pub Since-refl : (o : Holds) (s : Shared) → Since o s s
Since-refl o s = (le_refl _, λ l h. refl)

pub Since-trans : (o : Holds) (a b c : Shared) → Since o a b → Since o b c → Since o a c
Since-trans o a b c p q = (le_trans p.0 q.0, λ l h. q.1 l h ∙ p.1 l h)

pub Rely-trans : (o : Holds) (a b c : Shared) → Rely o a b → Rely o b c → Rely o a c
Rely-trans o a b c p q = (Since-trans o a b c p.0 q.0, q.1, q.2)

pub Move-same : (h : Hold) (l w : ℕ) → Move h h l w l w
Move-same free l w = (refl, refl)
Move-same clean l w = (refl, refl)
Move-same dirty l w = (refl, refl)

pub SameMemory-Guarantee :
    (o : Holds) (s u : Shared) → Bounded s → SameMemory s u → Guarantee o o s u
SameMemory-Guarantee o s u b (w, l, g) =
    rw (w, l, g) (le_refl _, b, λ m. Move-same (o m) (s.locks m) (s.words m))

abbrev pub Tracked :
    {A : Type 0} → (A → Holds → Shared → Type 0) → Prog Shared A → Holds → Shared → Type 0
Tracked Q m o s = Tracks Rely Guarantee Q m o s

-- What a quiet part of the program leaves: the same locks held.
abbrev pub Still : {A : Type 0} → Holds → Shared → A → Holds → Shared → Type 0
Still o s a o' u = (o' ≡ o) × Since o s u

pub Quiet-Still :
    {A : Type 0} (m : Prog Shared A) (o : Holds) (s t : Shared)
    → Quiet m
    → Since o s t
    → Tracked (Still o s) m o t
Quiet-Still (ret a) o s t q h = (refl, h)
Quiet-Still fault o s t q h = tt
Quiet-Still (act en f k) o s t q h = λ s' r e.
    let same : SameMemory s' (f s') = q.0 s' in
    (
      o,
      SameMemory-Guarantee o s' (f s') r.1 same,
      Quiet-Still (k s') o s (f s') (q.1 s') (
          Since-trans o s s' (f s') (Since-trans o s t s' h r.0)
            (rw (same.1, same.2) (Since-refl o s'))),
    )
