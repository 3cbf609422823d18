-- ===== src/Examples/Totals.antt =====
-- Sums over the ghosts of the first threads.
use cs453_concurrent_algorit.Prelude.{
  ℕ, zero, suc, ◌+◌, ◌*◌, ◌≤◌, ◌<◌, ◌≡◌, refl, ap, subst, arith, ℕ_discrete,
}
use cs453_concurrent_algorit.Prog.Pool.{update, update_here, update_there}

abbrev pub total : {X : Type 0} → (X → ℕ) → (ℕ → X) → ℕ → ℕ
total g xs zero = 0
total g xs (suc n) = g (xs n) + total g xs n

module _ {X : Type 0} (g : X → ℕ) where
  -- A thread that is not counted does not matter.
  total-update_beyond :
      (xs : ℕ → X) (i : ℕ) (x : X) (n : ℕ) → n ≤ i → total g (update xs i x) n ≡ total g xs n
  total-update_beyond xs i x zero h = refl
  total-update_beyond xs i x (suc n) h =
      rw
        (
          update_there xs i x n (λ e. absurd (omega (arith, h, e))),
          total-update_beyond xs i x n (omega (arith, h)),
        )
        refl

  pub total-update :
      (xs : ℕ → X) (i : ℕ) (x : X) (n : ℕ)
      → i < n
      → total g (update xs i x) n + g (xs i) ≡ total g xs n + g x
  total-update xs i x zero h = absurd (omega (arith, h))
  total-update xs i x (suc n) h = elim (ℕ_discrete i n) [
    | yes same ↦
        subst
          (λ m.
            g (update xs i x m) + total g (update xs i x) m + g (xs i)
            ≡ g (xs m) + total g xs m + g x)
          same
          (omega (arith, ap g (update_here xs i x), total-update_beyond xs i x i (omega arith)))
    | no other ↦
        omega (
          arith,
          ap g (update_there xs i x n other),
          total-update xs i x n (omega (arith, h, other)),
        )
  ]

  pub total-all :
      (xs : ℕ → X) (k n m : ℕ) → ((i : ℕ) → i < n → g (xs i) ≡ k) → m ≤ n → total g xs m ≡ k * m
  total-all xs k n zero h q = omega arith
  total-all xs k n (suc m) h q =
      grind (arith, h m (omega (arith, q)), total-all xs k n m h (omega (arith, q)))
