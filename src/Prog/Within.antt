-- ===== src/Prog/Within.antt =====
-- Threads that never wait, and end within a number of steps of their own.
use cs453_concurrent_algorit.Prelude.{
  ℕ, ◌+◌, ◌-◌, ◌≤◌, ◌<◌, ◌≡◌, Bool, true, false, arith, if◌then◌else◌,
}
use cs453_concurrent_algorit.Prog.{Prog, ret, fault, act, ◌>>=◌}

-- Every step can be made in every state, and there are at most `k`, whatever others do between them.
abbrev pub Within : {S A : Type 0} → ℕ → Prog S A → Type 0
Within k (ret a) = Unit {0}
Within k fault = Unit {0}
Within {S} k (act en f g) = (0 < k) × ((s : S) → en s ≡ true) × ((s : S) → Within (k - 1) (g s))

module _ {S : Type 0} where
  pub Within-more : {A : Type 0} (k j : ℕ) (m : Prog S A) → k ≤ j → Within k m → Within j m
  Within-more k j (ret a) e h = tt
  Within-more k j fault e h = tt
  Within-more k j (act en f g) e h = (
    omega (arith, e, h.0),
    h.1,
    λ s. Within-more (k - 1) (j - 1) (g s) (omega (arith, e)) (h.2 s),
  )

  pub Within-bind :
      {A B : Type 0} (k j : ℕ) (m : Prog S A) (g : A → Prog S B)
      → Within k m
      → ((a : A) → Within j (g a))
      → Within (k + j) (m >>= g)
  Within-bind k j (ret a) g h f = Within-more j (k + j) (g a) (omega arith) (f a)
  Within-bind k j fault g h f = tt
  Within-bind k j (act en u m) g h f = (
    omega (arith, h.0),
    h.1,
    λ s.
        Within-more (k - 1 + j) (k + j - 1) (m s >>= g) (omega (arith, h.0))
          (Within-bind (k - 1) j (m s) g (h.2 s) f),
  )

  pub Within-if :
      {A : Type 0} (k : ℕ) (b : Bool) (m n : Prog S A)
      → Within k m
      → Within k n
      → Within k (if b then m else n)
  Within-if k true m n h e = h
  Within-if k false m n h e = e
