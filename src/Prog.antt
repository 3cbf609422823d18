-- ===== src/Prog.antt =====
-- Threads as trees of atomic steps over a shared state: the reading of the C functions on which the
-- other modules rest. A step waits until it is enabled, changes the state at once, and goes on with
-- what it saw. Between two steps other threads may act.
pub mod Rely
pub mod Pool
pub mod Ghost
pub mod Within
pub mod Schedule
use cs453_concurrent_algorit.Prelude.{
  ◌≡◌, refl, Bool, true, false, Option, none, some, if◌then◌else◌,
}

pub data Prog (S A : Type 0) : Type 0 where
  ret : A → Prog S A
  -- undefined behaviour: a failed `assert`, a dereferenced NULL
  fault : Prog S A
  act : (S → Bool) → (S → S) → (S → Prog S A) → Prog S A

infixl 5 ◌>>=◌ ◌>>◌
abbrev pub ◌>>=◌ : {S A B : Type 0} → Prog S A → (A → Prog S B) → Prog S B
ret a >>= g = g a
fault >>= g = fault
act en f k >>= g = act en f (λ s. k s >>= g)

abbrev pub ◌>>◌ : {S B : Type 0} → Prog S (Unit {0}) → Prog S B → Prog S B
m >> k = m >>= λ _. k

abbrev pub atomic : {S A : Type 0} → (S → S) → (S → A) → Prog S A
atomic f g = act (λ _. true) f (λ s. ret (g s))

abbrev pub get : {S A : Type 0} → (S → A) → Prog S A
get g = atomic (λ s. s) g

abbrev pub modify : {S : Type 0} → (S → S) → Prog S (Unit {0})
modify f = atomic f (λ _. tt)

-- Blocks until the test holds.
abbrev pub await : {S : Type 0} → (S → Bool) → (S → S) → Prog S (Unit {0})
await en f = act en f (λ _. ret tt)

-- The thread runs alone to its end; `none` if it blocks for ever or faults.
abbrev pub run : {S A : Type 0} → Prog S A → S → Option (A × S)
run (ret a) s = some (a, s)
run fault s = none
run (act en f k) s = let rest = run (k s) (f s) in if en s then rest else none

-- The thread, run alone from `s`, comes to its end, with a result and a state that satisfy `Q`.
abbrev pub Ends : {S A : Type 0} → (A → S → Type 0) → Prog S A → S → Type 0
Ends Q (ret a) s = Q a s
Ends Q fault s = ⊥
Ends Q (act en f k) s = (en s ≡ true) × Ends Q (k s) (f s)

pub Ends-bind :
    {S A B : Type 0} (P : A → S → Type 0) (Q : B → S → Type 0) (m : Prog S A) (g : A → Prog S B)
    (s : S)
    → Ends P m s
    → ((a : A) (s' : S) → P a s' → Ends Q (g a) s')
    → Ends Q (m >>= g) s
Ends-bind P Q (ret a) g s h k = k a s h
Ends-bind P Q fault g s h k = absurd h
Ends-bind P Q (act en f m) g s h k = (h.0, Ends-bind P Q (m s) g (f s) h.1 k)

pub Ends-mono :
    {S A : Type 0} (P Q : A → S → Type 0) (m : Prog S A) (s : S)
    → ((a : A) (s' : S) → P a s' → Q a s')
    → Ends P m s
    → Ends Q m s
Ends-mono P Q (ret a) s k h = k a s h
Ends-mono P Q fault s k h = absurd h
Ends-mono P Q (act en f m) s k h = (h.0, Ends-mono P Q (m s) (f s) k h.1)

-- `Ends` speaks of `run`.
pub Ends-run :
    {S A : Type 0} (Q : A → S → Type 0) (m : Prog S A) (s : S)
    → Ends Q m s
    → (r : A × S) × (run m s ≡ some r) × Q r.0 r.1
Ends-run Q (ret a) s h = ((a, s), refl, h)
Ends-run Q fault s h = absurd h
Ends-run Q (act en f m) s h = let (r, e, q) = Ends-run Q (m s) (f s) h.1 in (r, rw h.0 e, q)

pub Ends-both :
    {S A : Type 0} (P Q : A → S → Type 0) (m : Prog S A) (s : S)
    → Ends P m s
    → Ends Q m s
    → Ends (λ a t. P a t × Q a t) m s
Ends-both P Q (ret a) s p q = (p, q)
Ends-both P Q fault s p q = absurd p
Ends-both P Q (act en f m) s p q = (p.0, Ends-both P Q (m s) (f s) p.1 q.1)
