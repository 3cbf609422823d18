-- ===== src/Bank/Sums.antt =====
-- grading/workload.hpp: what the loops of `long_tx` compute.
use native.Mathlib.Nat.{le_refl, add-zero}
use cs453_concurrent_algorit.Prelude.{
  ℕ, zero, suc, ◌+◌, ◌≤◌, ◌<◌, ◌==◌, ◌≡◌, refl, ap, false, some, List, [], ◌∷◌, arith, All, inl,
  inr, Bool-cases,
}
use cs453_concurrent_algorit.Prelude.Int.{
  ℤ, pos, pos_part, neg_part, ◌+ℤ◌, ◌≤ℤ◌, ltb_ℤ, int_laws, +ℤ_assoc,
}
use cs453_concurrent_algorit.Bank.{AccountSegment, set_account, sum_accounts, sum_segments}

-- The sum of the accounts `i`, …, `i + n - 1`.
abbrev pub balances : (ℕ → ℤ) → ℕ → ℕ → ℤ
balances f zero i = pos 0
balances f (suc n) i = f i +ℤ balances f n (i + 1)

-- The money of the bank and the number of its accounts.
abbrev pub money : List AccountSegment → ℤ
money [] = pos 0
money (s ∷ segments) = s.parity +ℤ balances s.accounts s.count 0 +ℤ money segments

abbrev pub nb_accounts : List AccountSegment → ℕ
nb_accounts [] = 0
nb_accounts (s ∷ segments) = s.count + nb_accounts segments

abbrev pub NonNegative : AccountSegment → Type 0
NonNegative s = (i : ℕ) → i < s.count → pos 0 ≤ℤ s.accounts i

pub balances-last : (f : ℕ → ℤ) (n i : ℕ) → balances f (suc n) i ≡ balances f n i +ℤ f (i + n)
balances-last f zero i = let here : f (i + 0) ≡ f i = ap f (omega arith) in rw here (omega int_laws)
balances-last f (suc n) i =
    let here : f (i + suc n) ≡ f (i + 1 + n) = ap f (omega arith) in
    rw (here, balances-last f n (i + 1)) (omega int_laws)

pub balances-same :
    (f g : ℕ → ℤ) (n i : ℕ)
    → ((j : ℕ) → i ≤ j → j < i + n → f j ≡ g j)
    → balances f n i ≡ balances g n i
balances-same f g zero i h = refl
balances-same f g (suc n) i h =
    ap2 (h i (le_refl i) (omega arith))
      (balances-same f g n (i + 1) (λ j a b. h j (omega arith) (omega arith)))
  where
    ap2 : {a b c d : ℤ} → a ≡ b → c ≡ d → a +ℤ c ≡ b +ℤ d
    ap2 {a} {b} {c} {d} e k = rw (e, k) refl

pub balances-set :
    (f : ℕ → ℤ) (n i j : ℕ) (v : ℤ)
    → i ≤ j
    → j < i + n
    → balances (set_account f j v) n i +ℤ f j ≡ balances f n i +ℤ v
balances-set f zero i j v h k = absurd (omega arith)
balances-set f (suc n) i j v h k = elim (Bool-cases (i == j)) [
  | inl hit ↦
      let same : i ≡ j = ground arith in
      let now : set_account f j v i ≡ v = ground arith in
      let value : f i ≡ f j = ap f same in
      let later : balances (set_account f j v) n (i + 1) ≡ balances f n (i + 1) =
        balances-same (set_account f j v) f n (i + 1) (λ m a b. ground arith) in
      rw (now, later, value) (omega int_laws)
  | inr miss ↦
      let now : set_account f j v i ≡ f i = ground arith in
      let rest : balances (set_account f j v) n (i + 1) +ℤ f j ≡ balances f n (i + 1) +ℤ v =
        balances-set f n (i + 1) j v (ground arith) (omega arith) in
      rw now (omega (int_laws, ap pos_part rest, ap neg_part rest))
]

pub sum_accounts-balances :
    (f : ℕ → ℤ) (n i : ℕ) (sum : ℤ)
    → ((j : ℕ) → i ≤ j → j < i + n → pos 0 ≤ℤ f j)
    → sum_accounts f n i sum ≡ some (sum +ℤ balances f n i)
unfolding sum_accounts
sum_accounts-balances f zero i sum h = ap some (omega int_laws)
sum_accounts-balances f (suc n) i sum h =
    let here : ltb_ℤ (f i) (pos 0) ≡ false = ground (arith, h i (le_refl i) (omega arith)) in
    rw
      (
        here,
        sum_accounts-balances f n (i + 1) (sum +ℤ f i) (λ j a b. h j (omega arith) (omega arith)),
        +ℤ_assoc,
      )
      refl

pub sum_segments-money :
    (segments : List AccountSegment) (count : ℕ) (sum : ℤ)
    → All NonNegative segments
    → sum_segments segments count sum ≡ some (count + nb_accounts segments, sum +ℤ money segments)
unfolding sum_segments
sum_segments-money [] count sum h = rw (add-zero count) (ap (λ x. some (count, x)) (omega int_laws))
sum_segments-money (s ∷ segments) count sum (here, later) =
    let numbers : count + s.count + nb_accounts segments
        ≡ count + (s.count + nb_accounts segments) =
      omega arith in
    let sums : sum +ℤ s.parity +ℤ balances s.accounts s.count 0 +ℤ money segments
        ≡ sum +ℤ (s.parity +ℤ balances s.accounts s.count 0 +ℤ money segments) =
      omega int_laws in
    rw
      (
        sum_accounts-balances s.accounts s.count 0 (sum +ℤ s.parity)
            (λ j a b. here j (omega arith)),
        sum_segments-money segments (count + s.count)
            (sum +ℤ s.parity +ℤ balances s.accounts s.count 0) later,
        numbers,
        sums,
        sum_segments,
      )
      refl
