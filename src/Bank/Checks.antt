-- ===== src/Bank/Checks.antt =====
-- grading/workload.hpp: no check of the bank fails, as long as the transactions take effect one
-- after the other.
use cs453_concurrent_algorit.Prelude.{
  ℕ, zero, suc, ◌+◌, ◌<◌, ◌≡◌, sym, ap, ◌∙◌, subst, true, List, [], ◌∷◌, arith, ltb, leb,
  if◌then◌else◌, inl, inr, Option-cases,
}
use cs453_concurrent_algorit.Prelude.Int.{ℤ, pos, ◌+ℤ◌, ◌*ℤ◌, ◌≤ℤ◌, int_laws}
use cs453_concurrent_algorit.Bank.{
  AccountSegment, zeroed, WorkloadBank, set_account, long_tx, fill_accounts, init_tx, init, Draw,
  long, alloc, short, run_draw, run_draws,
}
use cs453_concurrent_algorit.Bank.Sums.{
  balances, balances-last, money, nb_accounts, sum_segments-money,
}
use cs453_concurrent_algorit.Bank.Transfers.{IsConsistent, short_tx-IsConsistent}
use cs453_concurrent_algorit.Bank.Allocation.{succ_mul, *ℤ_parts, Allocated, alloc_tx-Allocated}

long_tx-true :
    (w : WorkloadBank) (segments : List AccountSegment) (n : ℕ)
    → IsConsistent w segments
    → long_tx w segments n ≡ (true, nb_accounts segments)
unfolding long_tx
long_tx-true w segments n h =
    let numbers : 0 + nb_accounts segments ≡ nb_accounts segments = omega arith in
    let sums : pos 0 +ℤ money segments ≡ money segments = omega int_laws in
    rw (sum_segments-money segments 0 (pos 0) h.non_negative, numbers, sums, h.balanced, long_tx)
      (ap (λ b. (b, nb_accounts segments)) (ground arith))

fill_accounts-at :
    (v : ℤ) (n i : ℕ) (f : ℕ → ℤ) (j : ℕ)
    → fill_accounts v n i f j ≡ (if leb i j then if ltb j (i + n) then v else f j else f j)
fill_accounts-at v zero i f j = ground arith
fill_accounts-at v (suc n) i f j = fill_accounts-at v n (i + 1) (set_account f i v) j ∙ ground arith

balances-constant :
    (v : ℤ) (f : ℕ → ℤ) (n : ℕ) → ((j : ℕ) → j < n → f j ≡ v) → balances f n 0 ≡ v *ℤ pos n
balances-constant v f zero h = omega (int_laws, *ℤ_parts v 0)
balances-constant v f (suc n) h =
    let more : suc n ≡ n + 1 = omega arith in
    balances-last f n 0
    ∙ (rw (balances-constant v f n (λ j b. h j (omega arith)), h (0 + n) (omega arith), more)
        (sym (succ_mul v n)))

init-IsConsistent : (w : WorkloadBank) → pos 0 ≤ℤ w.init_balance → IsConsistent w (init w).1
unfolding init init_tx
init-IsConsistent w rich = record {
  balanced =
      let sum =
        balances-constant w.init_balance filled w.nbaccounts (λ j b.
          fill_accounts-at w.init_balance w.nbaccounts 0 zeroed.accounts j ∙ ground arith) in
      let numbers : w.nbaccounts + 0 ≡ w.nbaccounts = omega arith in
      rw (numbers, sum) (omega int_laws);
  non_negative = (
    λ i b.
        subst (λ x. pos 0 ≤ℤ x)
          (sym (fill_accounts-at w.init_balance w.nbaccounts 0 zeroed.accounts i ∙ ground arith))
          rich,
    tt,
  );
  occupied = tt;
}
  where
    filled : ℕ → ℤ
    filled = fill_accounts w.init_balance w.nbaccounts 0 zeroed.accounts

run_draw-Allocated :
    (w : WorkloadBank) (d : Draw) (segments : List AccountSegment)
    → pos 0 ≤ℤ w.init_balance
    → IsConsistent w segments
    → Allocated w (run_draw w d segments)
unfolding run_draw
run_draw-Allocated w long segments rich h =
    let ok : (long_tx w segments 0).0 ≡ true = ap (λ p. p.0) (long_tx-true w segments 0 h) in
    rw ok h
run_draw-Allocated w (alloc trigger) segments rich h = alloc_tx-Allocated w trigger segments rich h
run_draw-Allocated w (short send_id recv_id) segments rich h =
    short_tx-IsConsistent w segments send_id recv_id h

run_draws-Allocated :
    (w : WorkloadBank) (draws : List Draw) (segments : List AccountSegment)
    → pos 0 ≤ℤ w.init_balance
    → IsConsistent w segments
    → Allocated w (run_draws w draws segments)
unfolding run_draws
run_draws-Allocated w [] segments rich h = h
run_draws-Allocated w (d ∷ draws) segments rich h = elim (Option-cases (run_draw w d segments)) [
  | inl missing ↦ absurd (subst (Allocated w) missing (run_draw-Allocated w d segments rich h))
  | inr (l, e) ↦
      rw (e, run_draws)
        (run_draws-Allocated w draws l rich
          (subst (Allocated w) e (run_draw-Allocated w d segments rich h)))
]

-- From the state that `init` leaves, whatever transactions the workers draw and in whatever order
-- these take effect: no check fails and no exception is thrown, the number of accounts times the
-- initial balance is the sum of all balances and parities, and no balance is negative. The initial
-- balance is not negative.
pub run_draws-init :
    (w : WorkloadBank) (draws : List Draw)
    → pos 0 ≤ℤ w.init_balance
    → Allocated w (run_draws w draws (init w).1)
run_draws-init w draws rich = run_draws-Allocated w draws (init w).1 rich (init-IsConsistent w rich)
