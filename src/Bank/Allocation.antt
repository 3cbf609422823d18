-- ===== src/Bank/Allocation.antt =====
-- grading/workload.hpp: `alloc_tx` adds an account with the initial balance, or takes one out and
-- puts the difference into a parity.
use native.Mathlib.Nat.{mul-add}
use cs453_concurrent_algorit.Prelude.{
  ℕ, zero, suc, ◌+◌, ◌*◌, ◌<◌, ◌&&◌, ◌≡◌, refl, sym, ap, ◌∙◌, ◌⊎◌, Option, none, some, List, [],
  ◌∷◌, arith, ltb, All, inl, inr, Bool-cases,
}
use cs453_concurrent_algorit.Prelude.Int.{
  ℤ, pos, pos_part, neg_part, ◌+ℤ◌, ◌-ℤ◌, ◌*ℤ◌, ◌≤ℤ◌, int_laws,
}
use cs453_concurrent_algorit.Bank.{
  AccountSegment, WorkloadBank, set_account, Last, kept, freed, remove_account, add_account,
  alloc_prev, alloc_walk, alloc_end, alloc_tx, remove_last,
}
use cs453_concurrent_algorit.Bank.Sums.{
  balances, balances-last, balances-same, money, nb_accounts, NonNegative,
}
use cs453_concurrent_algorit.Bank.Transfers.{Occupied, IsConsistent}

-- One account more, with the initial balance, or one less, with the money kept up to that balance.
abbrev OneAccount : WorkloadBank → List AccountSegment → List AccountSegment → Type 0
OneAccount w segments l =
    ((nb_accounts l ≡ nb_accounts segments + 1) × (money l ≡ money segments +ℤ w.init_balance))
    ⊎ ((nb_accounts l + 1 ≡ nb_accounts segments) × (money l +ℤ w.init_balance ≡ money segments))

abbrev Positive : List AccountSegment → Type 0
Positive segments = All (λ t. 0 < t.count) segments

-- What the walk makes of the segments, after `count` accounts.
abbrev Walked : WorkloadBank → ℕ → List AccountSegment → Option Last → Type 0
Walked w count segments none = ⊥
Walked w count segments (some (kept l)) =
    OneAccount w segments l × All NonNegative l × Occupied l × (Positive segments → Positive l)
Walked w count segments (some (freed p)) =
    (nb_accounts segments ≡ 1)
    × (p +ℤ w.init_balance ≡ money segments)
    × (2 < count + nb_accounts segments)

balances-added :
    (f : ℕ → ℤ) (n : ℕ) (v : ℤ) → balances (set_account f n v) (n + 1) 0 ≡ balances f n 0 +ℤ v
balances-added f n v =
    let more : n + 1 ≡ suc n = omega arith in
    let last : set_account f n v (0 + n) ≡ v = ground arith in
    let others : balances (set_account f n v) n 0 ≡ balances f n 0 =
      balances-same (set_account f n v) f n 0 (λ j a b. ground arith) in
    rw (more, balances-last (set_account f n v) n 0, last, others) refl

add_account-Walked :
    (w : WorkloadBank) (count : ℕ) (s : AccountSegment)
    → pos 0 ≤ℤ w.init_balance
    → NonNegative s
    → Walked w count (s ∷ []) (some (add_account w s))
unfolding add_account
add_account-Walked w count s rich h = elim (Bool-cases (ltb s.count w.nbaccounts)) [
  | inl room ↦
      let sum = balances-added s.accounts s.count w.init_balance in
      rw room (
        inl (omega arith, omega (int_laws, ap pos_part sum, ap neg_part sum)),
        (λ i b. ground (arith, h i), tt),
        tt,
        λ p. (omega arith, tt),
      )
  | inr full ↦ rw full (
    inl (omega arith, omega int_laws),
    (h, (λ i b. ground arith, tt)),
    (omega arith, tt),
    λ p. (p.0, (omega arith, tt)),
  )
]

remove_last-Walked :
    (w : WorkloadBank) (count n : ℕ) (s : AccountSegment)
    → s.count ≡ n
    → NonNegative s
    → 0 < n
    → 2 < count + n
    → Walked w count (s ∷ []) (remove_last w s n)
remove_last-Walked w count zero s e h p q = absurd (omega arith)
remove_last-Walked w count (suc n) s e h p q = elim (Bool-cases (ltb 0 n)) [
  | inl many ↦ rw many (
    inr (omega arith, omega (int_laws, ap pos_part last, ap neg_part last)),
    (λ i b. h i (omega arith), tt),
    tt,
    λ _. (ground arith, tt),
  )
  | inr one ↦
      let single : n ≡ 0 = ground arith in
      let rest : balances s.accounts n 0 ≡ pos 0 = ap (λ k. balances s.accounts k 0) single in
      let left : s.parity +ℤ s.accounts n -ℤ w.init_balance +ℤ w.init_balance
          ≡ s.parity +ℤ balances s.accounts s.count 0 +ℤ pos 0 =
        rw (last, rest) (omega int_laws) in
      rw one (omega arith, left, omega arith)
]
  where
    last : balances s.accounts s.count 0 ≡ balances s.accounts n 0 +ℤ s.accounts n
    last = rw e (
        balances-last s.accounts n 0
        ∙ ap (λ j. balances s.accounts n 0 +ℤ s.accounts j) (omega arith))

alloc_prev-Walked :
    (w : WorkloadBank) (count : ℕ) (s : AccountSegment) (segments : List AccountSegment)
    (r : Option Last)
    → NonNegative s
    → Walked w (count + s.count) segments r
    → Positive segments
    → Walked w count (s ∷ segments) (alloc_prev s r)
alloc_prev-Walked w count s segments none h k o = absurd k
alloc_prev-Walked w count s segments (some (kept l)) h (one, ok, occupied, more) o = (
  elim one [
    | inl (n, m) ↦ inl (omega arith, omega (int_laws, ap pos_part m, ap neg_part m))
    | inr (n, m) ↦ inr (omega arith, omega (int_laws, ap pos_part m, ap neg_part m))
  ],
  (h, ok),
  more o,
  λ p. (p.0, more o),
)
alloc_prev-Walked w count s segments (some (freed p)) h (one, m, many) o =
    (inr (omega arith, omega (int_laws, ap pos_part m, ap neg_part m)), (h, tt), tt, λ q. (q.0, tt))

alloc_walk-Walked :
    (w : WorkloadBank) (trigger count : ℕ) (segments : List AccountSegment)
    → pos 0 ≤ℤ w.init_balance
    → All NonNegative segments
    → Occupied segments
    → (Positive segments ⊎ (count ≡ 0))
    → Walked w count segments (alloc_walk w trigger count segments)
unfolding alloc_walk remove_account
alloc_walk-Walked w trigger count [] rich h o l = absurd o
alloc_walk-Walked w trigger count (s ∷ []) rich h o l =
    elim (Bool-cases (ltb trigger (count + s.count) && ltb 2 (count + s.count))) [
      | inl many ↦ rw many (
          remove_last-Walked w count s.count s refl h.0
            (elim l [ inl p ↦ p.0 | inr e ↦ ground arith ]) (ground arith))
      | inr few ↦ rw few (add_account-Walked w count s rich h.0)
    ]
alloc_walk-Walked w trigger count (s ∷ t ∷ segments) rich h o l =
    alloc_prev-Walked w count s (t ∷ segments)
      (alloc_walk w trigger (count + s.count) (t ∷ segments)) h.0
      (alloc_walk-Walked w trigger (count + s.count) (t ∷ segments) rich h.1 o.1 (inl o)) o

pub *ℤ_parts :
    (b : ℤ) (n : ℕ)
    → pos_part (b *ℤ pos n) + neg_part b * n ≡ neg_part (b *ℤ pos n) + pos_part b * n
unfolding ◌*ℤ◌
*ℤ_parts b n =
    let p : pos_part b * 0 ≡ 0 = omega arith in
    let q : neg_part b * 0 ≡ 0 = omega arith in ground arith

pub succ_mul : (b : ℤ) (n : ℕ) → b *ℤ pos (n + 1) ≡ b *ℤ pos n +ℤ b
succ_mul b n =
    let p : pos_part b * (n + 1) ≡ pos_part b * n + pos_part b =
      mul-add (pos_part b) n 1 ∙ omega arith in
    let q : neg_part b * (n + 1) ≡ neg_part b * n + neg_part b =
      mul-add (neg_part b) n 1 ∙ omega arith in
    omega (int_laws, p, q, *ℤ_parts b n, *ℤ_parts b (n + 1))

-- The state after the transaction, which does not throw.
abbrev pub Allocated : WorkloadBank → Option (List AccountSegment) → Type 0
Allocated w none = ⊥
Allocated w (some l) = IsConsistent w l

OneAccount-balanced :
    (w : WorkloadBank) (segments l : List AccountSegment)
    → OneAccount w segments l
    → money segments ≡ w.init_balance *ℤ pos (nb_accounts segments)
    → money l ≡ w.init_balance *ℤ pos (nb_accounts l)
OneAccount-balanced w segments l (inl (n, m)) e =
    m
    ∙ ap (λ x. x +ℤ w.init_balance) e
    ∙ sym (succ_mul w.init_balance (nb_accounts segments))
    ∙ ap (λ k. w.init_balance *ℤ pos k) (sym n)
OneAccount-balanced w segments l (inr (n, m)) e =
    let k =
      m ∙ e ∙ ap (λ k. w.init_balance *ℤ pos k) (sym n) ∙ succ_mul w.init_balance (nb_accounts l) in
    omega (int_laws, ap pos_part k, ap neg_part k)

alloc_end-Allocated :
    (w : WorkloadBank) (segments : List AccountSegment) (r : Option Last)
    → Walked w 0 segments r
    → IsConsistent w segments
    → Allocated w (alloc_end r)
alloc_end-Allocated w segments none k h = absurd k
alloc_end-Allocated w segments (some (kept l)) (one, ok, occupied, more) h = record {
  balanced = OneAccount-balanced w segments l one h.balanced;
  non_negative = ok;
  occupied = occupied;
}
alloc_end-Allocated w segments (some (freed p)) (one, m, many) h = absurd (omega arith)

pub alloc_tx-Allocated :
    (w : WorkloadBank) (trigger : ℕ) (segments : List AccountSegment)
    → pos 0 ≤ℤ w.init_balance
    → IsConsistent w segments
    → Allocated w (alloc_tx w trigger segments)
unfolding alloc_tx
alloc_tx-Allocated w trigger segments rich h =
    alloc_end-Allocated w segments (alloc_walk w trigger 0 segments)
      (alloc_walk-Walked w trigger 0 segments rich h.non_negative h.occupied (inr refl)) h
