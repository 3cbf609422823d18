-- ===== src/Prog/Rely.antt =====
-- Rely and guarantee: what a thread does when others act between its steps.
use cs453_concurrent_algorit.Prelude.{◌≡◌, true}
use cs453_concurrent_algorit.Prog.{Prog, ret, fault, act, ◌>>=◌}

-- From `s`, with any steps in `R` by others before each of its own, every step of the thread is in
-- `G`, and if it returns, `Q` holds of the result and the state. A fault stops the thread.
abbrev pub Keeps :
    {S A : Type 0} → (S → S → Type 0) → (S → S → Type 0) → (A → S → Type 0) → Prog S A → S → Type 0
Keeps R G Q (ret a) s = Q a s
Keeps R G Q fault s = Unit {0}
Keeps {S} R G Q (act en f k) s =
    (s' : S) → R s s' → en s' ≡ true → G s' (f s') × Keeps R G Q (k s') (f s')

module _ {S : Type 0} (R G : S → S → Type 0) where
  pub Keeps-bind :
      {A B : Type 0} (P : A → S → Type 0) (Q : B → S → Type 0) (m : Prog S A) (g : A → Prog S B)
      (s : S)
      → Keeps R G P m s
      → ((a : A) (s' : S) → P a s' → Keeps R G Q (g a) s')
      → Keeps R G Q (m >>= g) s
  Keeps-bind P Q (ret a) g s h k = k a s h
  Keeps-bind P Q fault g s h k = tt
  Keeps-bind P Q (act en f m) g s h k =
      λ s' r e. let (step, rest) = h s' r e in (step, Keeps-bind P Q (m s') g (f s') rest k)

  -- What others do first makes no difference, if the result is stable.
  pub Keeps-rely :
      {A : Type 0} (Q : A → S → Type 0) (m : Prog S A) (s t : S)
      → ((a b c : S) → R a b → R b c → R a c)
      → ((a : A) → Q a s → Q a t)
      → R s t
      → Keeps R G Q m s
      → Keeps R G Q m t
  Keeps-rely Q (ret a) s t tr st r h = st a h
  Keeps-rely Q fault s t tr st r h = tt
  Keeps-rely Q (act en f k) s t tr st r h = λ s' r' e. h s' (tr s t s' r r') e

  pub Keeps-mono :
      {A : Type 0} (P Q : A → S → Type 0) (m : Prog S A) (s : S)
      → ((a : A) (s' : S) → P a s' → Q a s')
      → Keeps R G P m s
      → Keeps R G Q m s
  Keeps-mono P Q (ret a) s k h = k a s h
  Keeps-mono P Q fault s k h = tt
  Keeps-mono P Q (act en f m) s k h =
      λ s' r e. let (step, rest) = h s' r e in (step, Keeps-mono P Q (m s') (f s') k rest)

-- What all steps do, others' and its own, holds between the start and the end.
pub Keeps-across :
    {S A : Type 0} (R : S → S → Type 0) (Q : A → S → Type 0) (m : Prog S A) (s t : S)
    → ((a b c : S) → R a b → R b c → R a c)
    → R s t
    → Keeps R R Q m t
    → Keeps R R (λ a u. Q a u × R s u) m t
Keeps-across R Q (ret a) s t tr r h = (h, r)
Keeps-across R Q fault s t tr r h = tt
Keeps-across R Q (act en f k) s t tr r h = λ u q e.
    let (step, rest) = h u q e in
    (step, Keeps-across R Q (k u) s (f u) tr (tr s u (f u) (tr s t u r q) step) rest)
