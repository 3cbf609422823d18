-- ===== src/Examples/Elections/Leaders.antt =====
-- Votes: what a thread of sync-examples/election2.c or election4.c does to the leaders of a round, and
-- the invariant that all threads keep.
use cs453_concurrent_algorit.Prelude.{
  ℕ, ◌+◌, ◌≤◌, ◌<◌, ◌==◌, ◌&&◌, ◌≡◌, ◌≢◌, inl, inr, refl, sym, ap, subst, Bool, true, false,
  if◌then◌else◌, ltb, arith, Bool-cases, ℕ_discrete,
}
use cs453_concurrent_algorit.Prog.Pool.{update, update-cases}
use cs453_concurrent_algorit.Examples.Totals.{total, total-update}
use cs453_concurrent_algorit.Examples.Elections.{Election, set_leader, add_leader}

-- The round that a thread is at, and whether it has won it and is still to be counted.
pub record Place : Type 0 where
  pub round : ℕ
  pub pending : Bool

abbrev pub pend : ℕ → Place → ℕ
pend r x = if x.pending && x.round == r then 1 else 0

abbrev pub at : ℕ → Bool → Place
at r b = record { round = r; pending = b }

-- What a thread does in its round, as its leader or not.
pub data Votes (runs : ℕ) : Place → Place → Election → Election → Type 0 where
  wins :
      (tid : ℕ) {r : ℕ} {d : Election}
      → r < runs
      → d.leader r ≡ 0
      → Votes runs (at r false) (at r true) d (set_leader r (tid + 1) d)
  is_counted :
      {r : ℕ} {d : Election}
      → r < runs
      → Votes runs (at r true) (at (r + 1) false) d (add_leader r d)
  loses :
      {r : ℕ} {d : Election}
      → r < runs
      → d.leader r ≢ 0
      → Votes runs (at r false) (at (r + 1) false) d d

pub record IsFair (runs threads : ℕ) (xs : ℕ → Place) (d : Election) : Type 0 where
  pub counted :
      (r : ℕ) → d.nb_leaders r + total (pend r) xs threads ≡ (if d.leader r == 0 then 0 else 1)
  pub past : (i r : ℕ) → i < threads → r < (xs i).round → d.leader r ≢ 0
  pub won : (i : ℕ) → (xs i).pending ≡ true → d.leader (xs i).round ≢ 0
  pub others : (i : ℕ) → threads ≤ i → (xs i).round ≡ runs

abbrev pub Nothing : Place → Election → Type 0
Nothing x d = Unit {0}

module _ (runs threads : ℕ) (xs : ℕ → Place) (i : ℕ) (x : Place) (d : Election)
    (fair : IsFair runs threads xs d) (e : xs i ≡ x) (going : x.round < runs) where
  -- A thread with a round to go is one of the threads.
  is_thread : i < threads
  is_thread = elim (Bool-cases (ltb i threads)) [
    | inl h ↦ ground arith
    | inr h ↦ absurd (omega (arith, fair.others i (ground arith), ap (λ p. p.round) e))
  ]

  -- The number of votes still to be counted in a round, after a step.
  pend-update :
      (x' : Place) (r : ℕ)
      → total (pend r) (update xs i x') threads + pend r x ≡ total (pend r) xs threads + pend r x'
  pend-update x' r =
      subst
        (λ y.
          total (pend r) (update xs i x') threads + pend r y
          ≡ total (pend r) xs threads + pend r x')
        e (total-update (pend r) xs i x' threads is_thread)

  others-next : (x' : Place) (j : ℕ) → threads ≤ j → (update xs i x' j).round ≡ runs
  others-next x' j =
      update-cases (λ k y. threads ≤ k → y.round ≡ runs) xs i x' j
        (λ h. absurd (omega (arith, h, is_thread))) (λ n. fair.others j)

  -- The rounds that are past, when the thread's own are.
  past-next :
      (x' : Place) (d' : Election) (j s : ℕ)
      → ((k : ℕ) → d.leader k ≢ 0 → d'.leader k ≢ 0)
      → (s < x'.round → d'.leader s ≢ 0)
      → j < threads
      → s < (update xs i x' j).round
      → d'.leader s ≢ 0
  past-next x' d' j s keep own =
      update-cases (λ k y. k < threads → s < y.round → d'.leader s ≢ 0) xs i x' j (λ _. own)
        (λ n h q. keep s (fair.past j s h q))

  won-next :
      (x' : Place) (d' : Election) (j : ℕ)
      → ((k : ℕ) → d.leader k ≢ 0 → d'.leader k ≢ 0)
      → (x'.pending ≡ true → d'.leader x'.round ≢ 0)
      → (update xs i x' j).pending ≡ true
      → d'.leader (update xs i x' j).round ≢ 0
  won-next x' d' j keep own =
      update-cases (λ k y. y.pending ≡ true → d'.leader y.round ≢ 0) xs i x' j own
        (λ n h. keep (xs j).round (fair.won j h))

  past_here : (s : ℕ) → s < x.round → d.leader s ≢ 0
  past_here s h = fair.past i s is_thread (omega (arith, h, ap (λ p. p.round) e))

leader-set :
    (r tid : ℕ) (d : Election) (k : ℕ) → d.leader k ≢ 0 → (set_leader r (tid + 1) d).leader k ≢ 0
leader-set r tid d k h = ground arith

last_round : (r s : ℕ) (P : ℕ → Type 0) → ((k : ℕ) → k < r → P k) → P r → s < r + 1 → P s
last_round r s P before now h = elim (ℕ_discrete s r) [
  | yes q ↦ subst P (sym q) now
  | no q ↦ before s (omega (arith, h, q))
]

pub Votes-IsFair :
    (runs threads : ℕ) (xs : ℕ → Place) (i : ℕ) (x x' : Place) (d d' : Election)
    → xs i ≡ x
    → IsFair runs threads xs d
    → Votes runs x x' d d'
    → IsFair runs threads (update xs i x') d'
Votes-IsFair runs threads xs i x x' d d' e fair (wins tid {r} h free) = record {
  counted = λ k. elim (ℕ_discrete k r) [
    | yes q ↦ ground (
      arith,
      pend-update runs threads xs i x d fair e h x' k,
      fair.counted k,
      free,
      ap d.leader q,
    )
    | no q ↦ ground (arith, pend-update runs threads xs i x d fair e h x' k, fair.counted k, q)
  ];
  past = λ j s.
      past-next runs threads xs i x d fair e h x' d' j s (leader-set r tid d)
        (λ q. leader-set r tid d s (past_here runs threads xs i x d fair e h s q));
  won =
      λ j. won-next runs threads xs i x d fair e h x' d' j (leader-set r tid d) (λ _. ground arith);
  others = others-next runs threads xs i x d fair e h x';
}
Votes-IsFair runs threads xs i x x' d d' e fair (is_counted {r} h) = record {
  counted = λ k. elim (ℕ_discrete k r) [
    | yes q ↦ ground (arith, pend-update runs threads xs i x d fair e h x' k, fair.counted k)
    | no q ↦ ground (arith, pend-update runs threads xs i x d fair e h x' k, fair.counted k, q)
  ];
  past = λ j s.
      past-next runs threads xs i x d fair e h x' d' j s (λ k p. p)
        (λ q.
          last_round r s (λ k. d.leader k ≢ 0) (past_here runs threads xs i x d fair e h)
            (subst (λ p. p.pending ≡ true → d.leader p.round ≢ 0) e (fair.won i) refl) q);
  won = λ j. won-next runs threads xs i x d fair e h x' d' j (λ k p. p) (λ q. ground arith);
  others = others-next runs threads xs i x d fair e h x';
}
Votes-IsFair runs threads xs i x x' d d' e fair (loses {r} h taken) = record {
  counted = λ k. ground (arith, pend-update runs threads xs i x d fair e h x' k, fair.counted k);
  past = λ j s.
      past-next runs threads xs i x d fair e h x' d' j s (λ k p. p)
        (λ q.
          last_round r s (λ k. d.leader k ≢ 0) (past_here runs threads xs i x d fair e h) taken q);
  won = λ j. won-next runs threads xs i x d fair e h x' d' j (λ k p. p) (λ q. ground arith);
  others = others-next runs threads xs i x d fair e h x';
}
