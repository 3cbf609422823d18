-- ===== src/Examples/Factory/Rounds.antt =====
-- The loops over the characters in sync-examples/procon2.c to procon4.c, and what the end of a consumer
-- says.
use cs453_concurrent_algorit.Prelude.{
  ℕ, zero, suc, ◌+◌, ◌<◌, ◌≡◌, refl, sym, ap, subst, true, false, arith,
}
use cs453_concurrent_algorit.Prog.{Prog}
use cs453_concurrent_algorit.Prog.Ghost.{Tracks, Tracks-bind}
use cs453_concurrent_algorit.Examples.Factory.{
  Factory, empty_factory, are_same, fill_char, store_char, fetch_char, each_char, make, take,
  consumed_right,
}
use cs453_concurrent_algorit.Examples.Factory.Fits.{
  Place, producer, consumer, nobody, Works, Fits, IsFactory,
}

-- The loops over the characters, for any way to make a step.
module _ {S O : Type 0} (size text : ℕ) (random : ℕ → ℕ) (R : O → S → S → Type 0)
    (G : O → O → S → S → Type 0) (step : (Factory → Factory) → Prog S (Unit {0}))
    (inside : Place → O)
    (rule : (f : Factory → Factory) (x x' : Place) (s : S)
      → ((d : Factory) → Works size text random x x' d (f d))
      → Tracks R G (λ _ o u. o ≡ inside x') (step f) (inside x) s) where
  abbrev At : Place → Unit {0} → O → S → Type 0
  At x _ o u = o ≡ inside x

  each_char-Works :
      (f : ℕ → Factory → Factory) (x : ℕ → Place) (i n : ℕ) (s : S)
      → ((j : ℕ) → j < i + n → (d : Factory) → Works size text random (x j) (x (j + 1)) d (f j d))
      → Tracks R G (At (x (i + n))) (each_char step f i n) (inside (x i)) s
  unfolding each_char
  each_char-Works f x i zero s h = ap (λ k. inside (x k)) (omega arith)
  each_char-Works f x i (suc n) s h =
      Tracks-bind R G (At (x (i + 1))) (At (x (i + suc n))) (step (f i)) _ (inside (x i)) s
        (rule (f i) (x i) (x (i + 1)) s (h i (omega arith)))
        (λ _ o u e.
          subst (λ p. Tracks R G (At (x (i + suc n))) (each_char step f (i + 1) n) p u) (sym e)
            (subst (λ k. Tracks R G (At (x k)) (each_char step f (i + 1) n) (inside (x (i + 1))) u)
              (omega arith) (each_char-Works f x (i + 1) n u (λ j q. h j (omega (arith, q))))))

  pub make-Works :
      (r : ℕ) (s : S)
      → Tracks R G
          (At (producer r true text))
          (make step random size text r)
          (inside (producer r true 0))
          s
  unfolding make
  make-Works r s =
      Tracks-bind R G (At (producer r true 0)) (At (producer r true text))
        (each_char step (fill_char random r) 0 text) _ (inside (producer r true 0)) s
        (each_char-Works (fill_char random r) (λ _. producer r true 0) 0 text s
          (λ j q d. Works.fills j))
        (λ _ o u e.
          subst
            (λ p.
              Tracks R G (At (producer r true text)) (each_char step (store_char size r) 0 text) p
                u)
            (sym e)
            (subst
              (λ k.
                Tracks R G (At (producer r true k)) (each_char step (store_char size r) 0 text)
                  (inside (producer r true 0)) u)
              (omega arith)
              (each_char-Works (store_char size r) (producer r true) 0 text u
                (λ j q d. Works.stores))))

  pub take-Works :
      (r : ℕ) (s : S)
      → Tracks R G
          (At (consumer r true text))
          (take step size text r)
          (inside (consumer r true 0))
          s
  unfolding take
  take-Works r s =
      subst
        (λ k.
          Tracks R G (At (consumer r true k)) (each_char step (fetch_char size r) 0 text)
            (inside (consumer r true 0)) s)
        (omega arith)
        (each_char-Works (fetch_char size r) (consumer r true) 0 text s
          (λ j q d. Works.fetches (omega (arith, q))))

-- A producer may be anywhere when it returns, a consumer has done its rounds.
abbrev pub Done : ℕ → Place → Type 0
Done runs (producer r b i) = Unit {0}
Done runs (consumer r b i) = r ≡ runs
Done runs nobody = Unit {0}

are_same-true :
    (a b : ℕ → ℕ) (i n : ℕ) → ((k : ℕ) → k < i + n → a k ≡ b k) → are_same a b i n ≡ true
unfolding are_same
are_same-true a b i zero h = refl
are_same-true a b i (suc n) h =
    ground (arith, h i (omega arith), are_same-true a b (i + 1) n (λ k q. h k (omega (arith, q))))

past-right :
    (d : Factory) (text r n : ℕ)
    → ((x k : ℕ) → x < r + n → k < text → d.consumed x k ≡ d.produced x k)
    → consumed_right d text r n ≡ true
unfolding consumed_right
past-right d text r zero h = refl
past-right d text r (suc n) h = ground (
  arith,
  are_same-true (d.produced r) (d.consumed r) 0 text
      (λ k q. sym (h r k (omega arith) (omega (arith, q)))),
  past-right d text (r + 1) n (λ x k q. h x k (omega (arith, q))),
)

-- A consumer that is done has what was produced.
pub Fits-right :
    (size text runs : ℕ) (random : ℕ → ℕ) (x y : Place) (d : Factory)
    → Fits size text random x y d
    → Done runs y
    → consumed_right d text 0 runs ≡ true
Fits-right size text runs random (producer rp bp ip) (consumer rc bc ic) d f e =
    past-right d text 0 runs (λ x k h small. f.past x k (omega (arith, h, e)) small)
Fits-right size text runs random (producer rp bp ip) (producer _ _ _) d f e = absurd f
Fits-right size text runs random (producer rp bp ip) nobody d f e = absurd f
Fits-right size text runs random (consumer _ _ _) y d f e = absurd f
Fits-right size text runs random nobody y d f e = absurd f

-- The places at the start.
abbrev pub starting : ℕ → Place
starting zero = producer 0 false 0
starting (suc zero) = consumer 0 false 0
starting (suc (suc i)) = nobody

pub starting-IsFactory :
    (size text : ℕ) (random : ℕ → ℕ) → IsFactory size text random starting empty_factory
starting-IsFactory size text random = record {
  fits = record {
    at_produced = refl;
    at_consumed = refl;
    room = λ e. absurd (ground arith);
    data_there = λ e. absurd (ground arith);
    stored = λ k h. absurd (omega (arith, h));
    fetched = λ k h. absurd (omega (arith, h));
    between = λ x k low h. absurd (omega (arith, h));
    past = λ x k h. absurd (omega (arith, h));
    behind = omega arith;
  };
  others =
      λ i. let e : suc (suc i) ≡ i + 2 = omega arith in subst (λ k. starting k ≡ nobody) e refl;
}
