-- ===== src/Grading/Creation.antt =====
-- grading/transactional.hpp: what the constructor of `TransactionalMemory` lets through.
use native.Mathlib.Nat.{two-pow-succ, one-le-pow}
use cs453_concurrent_algorit.Prelude.{
  ℕ, zero, suc, ◌+◌, ◌-◌, ◌*◌, ◌/◌, ◌%◌, ◌^◌, ◌≤◌, ◌<◌, ◌==◌, ◌≡◌, ◌⊎◌, refl, sym, ap, ◌∙◌, subst,
  bit_and, Bool, true, inl, inr, Bool-cases, arith, if◌then◌else◌,
}
use cs453_concurrent_algorit.Prelude.Bits.{bit_and_step}
use cs453_concurrent_algorit.Prog.{Prog, ret, ◌>>=◌}
use cs453_concurrent_algorit.Grading.{
  transaction_align, transaction_create, Result, value, throws, is_power_of_two, bind_memory,
}

bit_and-same_fuel : (n a : ℕ) → a ≤ n → bit_and a a ≡ a
bit_and-same_fuel zero zero h = refl
bit_and-same_fuel zero (suc a) h = absurd (omega arith)
bit_and-same_fuel (suc n) zero h = refl
bit_and-same_fuel (suc n) (suc a) h =
    omega (arith, bit_and_step (suc a) (suc a), bit_and-same_fuel n (suc a / 2) (omega arith))

-- A number and the one below it, by the last digit.
bit_and-odd : (m : ℕ) → bit_and (2 * m + 1) (2 * m) ≡ 2 * m
bit_and-odd m =
    let low : (2 * m + 1) / 2 ≡ m = omega arith in
    let high : 2 * m / 2 ≡ m = omega arith in
    omega (
      arith,
      bit_and_step (2 * m + 1) (2 * m),
      ap (λ a. bit_and a (2 * m / 2)) low,
      ap (bit_and m) high,
      bit_and-same_fuel m m (omega arith),
    )

bit_and-even : (m : ℕ) → 0 < m → bit_and (2 * m) (2 * m - 1) ≡ 2 * bit_and m (m - 1)
bit_and-even m p =
    let low : 2 * m / 2 ≡ m = omega arith in
    let high : (2 * m - 1) / 2 ≡ m - 1 = omega arith in
    omega (
      arith,
      bit_and_step (2 * m) (2 * m - 1),
      ap (λ a. bit_and a ((2 * m - 1) / 2)) low,
      ap (bit_and m) high,
    )

abbrev pub IsPower : ℕ → Type 0
IsPower n = (k : ℕ) × (n ≡ 2 ^ k)

IsPower-double : (m : ℕ) → IsPower m → IsPower (2 * m)
IsPower-double m (k, e) = (suc k, omega (arith, e, two-pow-succ k))

IsPower-fuel : (n a : ℕ) → a ≤ n → 0 < a → bit_and a (a - 1) ≡ 0 → IsPower a
IsPower-fuel zero a h p e = absurd (omega arith)
IsPower-fuel (suc n) a h p e = elim parity [
  | inl even ↦ subst IsPower (sym even) (
      IsPower-double (a / 2) (
        IsPower-fuel n (a / 2) (omega (arith, h, p)) (omega (arith, p, even)) (
          omega (
            arith,
            e,
            ap (λ x. bit_and x (x - 1)) even,
            bit_and-even (a / 2) (omega (arith, p, even)),
          ))))
  | inr odd ↦
      let below : 2 * (a / 2) + 1 - 1 ≡ 2 * (a / 2) = omega arith in
      (
        0,
        omega (
          arith,
          e,
          odd,
          ap (λ x. bit_and x (x - 1)) odd,
          ap (bit_and (2 * (a / 2) + 1)) below,
          bit_and-odd (a / 2),
        ),
      )
]
  where
    parity : (a ≡ 2 * (a / 2)) ⊎ (a ≡ 2 * (a / 2) + 1)
    parity = omega arith

power-low : (k : ℕ) → bit_and (2 ^ k) (2 ^ k - 1) ≡ 0
power-low zero = refl
power-low (suc k) =
    let twice : 2 ^ suc k ≡ 2 * 2 ^ k = omega (arith, two-pow-succ k) in
    omega (
      arith,
      ap (λ x. bit_and x (x - 1)) twice,
      bit_and-even (2 ^ k) (one-le-pow k 2 (omega arith)),
      power-low k,
    )

is_power_of_two-IsPower : (n : ℕ) → is_power_of_two n ≡ true → IsPower n
unfolding is_power_of_two
is_power_of_two-IsPower n e = IsPower-fuel n n (omega arith) (ground arith) (ground arith)

IsPower-is_power_of_two : (n : ℕ) → IsPower n → is_power_of_two n ≡ true
unfolding is_power_of_two
IsPower-is_power_of_two n (k, e) =
    let low : bit_and n (n - 1) ≡ 0 = ap (λ x. bit_and x (x - 1)) e ∙ power-low k in
    ground (arith, one-le-pow k 2 (omega arith))

-- The alignment and the size are as include/tm.h asks for them.
abbrev pub Fits : ℕ → ℕ → Type 0
Fits align size = IsPower align × (size % align ≡ 0)

-- The call of the library, with an exception if it fails.
abbrev pub created : {S : Type 0} → Prog S Bool → Prog S (Result (Unit {0}))
created made = made >>= λ ok. ret (if ok then value tt else throws transaction_create)

abbrev pub Checked : {S : Type 0} → (ℕ → ℕ → Prog S Bool) → ℕ → ℕ → Type 0
Checked create align size =
    (Fits align size × (bind_memory create true align size ≡ created (create size align)))
    ⊎ ((Fits align size → ⊥)
        × (bind_memory create true align size ≡ ret (throws transaction_align)))

-- The constructor of `TransactionalMemory` with the grader's assertions on, over any `tm_create`: if the
-- alignment is a power of two that divides the size, it calls `tm_create` with both and throws only if
-- that fails; else it throws the exception of a wrong alignment and makes no call.
pub bind_memory-Fits :
    {S : Type 0} (create : ℕ → ℕ → Prog S Bool) (align size : ℕ) → Checked create align size
unfolding bind_memory
bind_memory-Fits create align size = elim (Bool-cases (is_power_of_two align)) [
  | inl power ↦ elim (Bool-cases (size % align == 0)) [
    | inl divides ↦
        inl ((is_power_of_two-IsPower align power, ground arith), rw (power, divides) refl)
    | inr leaves ↦ inr (λ fits. ground arith, rw (power, leaves) refl)
  ]
  | inr other ↦
      inr (λ fits. absurd (ground (arith, IsPower-is_power_of_two align fits.0)), rw other refl)
]
