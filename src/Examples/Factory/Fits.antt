-- ===== src/Examples/Factory/Fits.antt =====
-- What a producer and a consumer of sync-examples do to the ring of buffers, and the invariant that
-- both keep: the rounds between the two counters stand in the ring, and those before have been copied.
use cs453_concurrent_algorit.Prelude.{
  ℕ, zero, suc, ◌+◌, ◌-◌, ◌*◌, ◌/◌, ◌%◌, ◌≤◌, ◌<◌, ◌==◌, ◌≡◌, ◌≢◌, inl, inr, refl, sym, ap, ◌∙◌,
  subst, Bool, true, false, arith, Bool-cases, ℕ_discrete,
}
use native.Mathlib.Nat.{div-add-mod'}
use cs453_concurrent_algorit.Prog.Pool.{update, update_there}
use cs453_concurrent_algorit.Examples.Factory.{
  Factory, fill_char, store_char, fetch_char, one_produced, one_consumed,
}

-- Where a thread is: its round, whether it has been let through, and how many characters it has copied.
pub data Place : Type 0 where
  producer : ℕ → Bool → ℕ → Place
  consumer : ℕ → Bool → ℕ → Place
  nobody : Place

-- No multiple of a number stands properly between two that follow each other.
no_multiple : (a b m d : ℕ) → b * m ≡ a * m + d → 0 < d → d < m → ⊥
no_multiple zero zero m d e h q = absurd (omega (arith, e, h))
no_multiple zero (suc b) m d e h q = absurd (grind (arith, e, q))
no_multiple (suc a) zero m d e h q = absurd (grind (arith, e, h))
no_multiple (suc a) (suc b) m d e h q = no_multiple a b m d (grind (arith, e)) h q

module _ (size text : ℕ) (random : ℕ → ℕ) where
  pub data Works : Place → Place → Factory → Factory → Type 0 where
    has_room :
        {r : ℕ} {d : Factory}
        → r < d.consumed_until + size
        → Works (producer r false 0) (producer r true 0) d d
    fills :
        {r : ℕ} {d : Factory} (i : ℕ)
        → Works (producer r true 0) (producer r true 0) d (fill_char random r i d)
    stores :
        {r i : ℕ} {d : Factory}
        → Works (producer r true i) (producer r true (i + 1)) d (store_char size r i d)
    publishes :
        {r : ℕ} {d : Factory}
        → Works (producer r true text) (producer (r + 1) false 0) d (one_produced d)
    has_data :
        {r : ℕ} {d : Factory}
        → r < d.produced_until
        → Works (consumer r false 0) (consumer r true 0) d d
    fetches :
        {r i : ℕ} {d : Factory}
        → i < text
        → Works (consumer r true i) (consumer r true (i + 1)) d (fetch_char size r i d)
    consumes :
        {r : ℕ} {d : Factory}
        → Works (consumer r true text) (consumer (r + 1) false 0) d (one_consumed d)

  pub record IsRing (rp : ℕ) (bp : Bool) (ip rc : ℕ) (bc : Bool) (ic : ℕ) (d : Factory)
      : Type 0 where
    pub at_produced : d.produced_until ≡ rp
    pub at_consumed : d.consumed_until ≡ rc
    pub room : bp ≡ true → rp < rc + size
    pub data_there : bc ≡ true → rc < rp
    pub stored : (k : ℕ) → k < ip → d.buffer (rp % size) k ≡ d.produced rp k
    pub fetched : (k : ℕ) → k < ic → (rc < rp) × (d.consumed rc k ≡ d.produced rc k)
    pub between : (x k : ℕ) → rc ≤ x → x < rp → k < text → d.buffer (x % size) k ≡ d.produced x k
    pub past : (x k : ℕ) → x < rc → k < text → d.consumed x k ≡ d.produced x k
    pub behind : rc ≤ rp

  abbrev pub Fits : Place → Place → Factory → Type 0
  Fits (producer rp bp ip) (consumer rc bc ic) d = IsRing rp bp ip rc bc ic d
  Fits (producer rp bp ip) (producer r b i) d = ⊥
  Fits (producer rp bp ip) nobody d = ⊥
  Fits (consumer r b i) y d = ⊥
  Fits nobody y d = ⊥

  -- Two rounds less than `size` apart stand in different places of the ring.
  apart : (x r : ℕ) → x < r → r < x + size → x % size ≢ r % size
  apart x r h q e = absurd (
      no_multiple (x / size) (r / size) size (r - x)
        (grind (arith, div-add-mod' x size, div-add-mod' r size, e)) (omega (arith, h))
        (omega (arith, q, h)))

  -- The round that the producer writes to the ring is none of those that stand there.
  room_apart : (x r rc : ℕ) → rc ≤ x → x < r → r < rc + size → (x % size == r % size) ≡ false
  room_apart x r rc low h q = elim (Bool-cases (x % size == r % size)) [
    | inl same ↦ absurd (apart x r h (omega (arith, low, q)) (ground arith))
    | inr other ↦ other
  ]

  module _ (rp : ℕ) (ip rc : ℕ) (bc : Bool) (ic : ℕ) (d : Factory) where
    room-IsRing :
        rp < d.consumed_until + size → IsRing rp false 0 rc bc ic d → IsRing rp true 0 rc bc ic d
    room-IsRing h f = record {
      at_produced = f.at_produced;
      at_consumed = f.at_consumed;
      room = λ _. omega (arith, h, f.at_consumed);
      data_there = f.data_there;
      stored = f.stored;
      fetched = f.fetched;
      between = f.between;
      past = f.past;
      behind = f.behind;
    }

    fill-IsRing :
        (i : ℕ) → IsRing rp true 0 rc bc ic d → IsRing rp true 0 rc bc ic (fill_char random rp i d)
    fill-IsRing i f = record {
      at_produced = f.at_produced;
      at_consumed = f.at_consumed;
      room = f.room;
      data_there = f.data_there;
      stored = λ k h. absurd (omega (arith, h));
      fetched = λ k h. ((f.fetched k h).0, ground (arith, (f.fetched k h).0, (f.fetched k h).1));
      between = λ x k low h small. ground (arith, f.between x k low h small);
      past = λ x k h small. ground (arith, f.past x k h small, f.behind);
      behind = f.behind;
    }

    store-IsRing :
        IsRing rp true ip rc bc ic d → IsRing rp true (ip + 1) rc bc ic (store_char size rp ip d)
    store-IsRing f = record {
      at_produced = f.at_produced;
      at_consumed = f.at_consumed;
      room = f.room;
      data_there = f.data_there;
      stored = λ k h. elim (ℕ_discrete k ip) [
        | yes e ↦ ground (arith, e, ap (d.produced rp) e)
        | no n ↦ ground (arith, n, f.stored k (omega (arith, h, n)))
      ];
      fetched = f.fetched;
      between = λ x k low h small.
          ground (arith, f.between x k low h small, room_apart x rp rc low h (f.room refl));
      past = f.past;
      behind = f.behind;
    }

    publish-IsRing :
        IsRing rp true text rc bc ic d → IsRing (rp + 1) false 0 rc bc ic (one_produced d)
    publish-IsRing f = record {
      at_produced = omega (arith, f.at_produced);
      at_consumed = f.at_consumed;
      room = λ e. absurd (ground arith);
      data_there = λ e. omega (arith, f.data_there e);
      stored = λ k h. absurd (omega (arith, h));
      fetched = λ k h. (omega (arith, (f.fetched k h).0), (f.fetched k h).1);
      between = λ x k low h small. elim (ℕ_discrete x rp) [
        | yes e ↦ subst (λ y. d.buffer (y % size) k ≡ d.produced y k) (sym e) (f.stored k small)
        | no n ↦ f.between x k low (omega (arith, h, n)) small
      ];
      past = f.past;
      behind = omega (arith, f.behind);
    }

  module _ (rp : ℕ) (bp : Bool) (ip rc ic : ℕ) (d : Factory) where
    data-IsRing : rc < d.produced_until → IsRing rp bp ip rc false 0 d → IsRing rp bp ip rc true 0 d
    data-IsRing h f = record {
      at_produced = f.at_produced;
      at_consumed = f.at_consumed;
      room = f.room;
      data_there = λ _. omega (arith, h, f.at_produced);
      stored = f.stored;
      fetched = f.fetched;
      between = f.between;
      past = f.past;
      behind = f.behind;
    }

    fetch-IsRing :
        ic < text
        → IsRing rp bp ip rc true ic d
        → IsRing rp bp ip rc true (ic + 1) (fetch_char size rc ic d)
    fetch-IsRing h f = record {
      at_produced = f.at_produced;
      at_consumed = f.at_consumed;
      room = f.room;
      data_there = f.data_there;
      stored = f.stored;
      fetched = λ k q. (
        f.data_there refl,
        elim (ℕ_discrete k ic) [
          | yes e ↦
              ground (
                arith,
                e,
                f.between rc ic (omega arith) (f.data_there refl) h,
                ap (d.produced rc) e,
              )
          | no n ↦ ground (arith, n, (f.fetched k (omega (arith, q, n))).1)
        ],
      );
      between = f.between;
      past = λ x k q small. ground (arith, f.past x k q small);
      behind = f.behind;
    }

    consume-IsRing :
        IsRing rp bp ip rc true text d → IsRing rp bp ip (rc + 1) false 0 (one_consumed d)
    consume-IsRing f = record {
      at_produced = f.at_produced;
      at_consumed = omega (arith, f.at_consumed);
      room = λ e. omega (arith, f.room e);
      data_there = λ e. absurd (ground arith);
      stored = f.stored;
      fetched = λ k h. absurd (omega (arith, h));
      between = λ x k low. f.between x k (omega (arith, low));
      past = λ x k h small. elim (ℕ_discrete x rc) [
        | yes e ↦ subst (λ y. d.consumed y k ≡ d.produced y k) (sym e) (f.fetched k small).1
        | no n ↦ f.past x k (omega (arith, h, n)) small
      ];
      behind = omega (arith, f.data_there refl);
    }

  second_consumes :
      (x : Place) (r : ℕ) (b : Bool) (i : ℕ) (d : Factory) → Fits x (producer r b i) d → ⊥
  second_consumes (producer _ _ _) r b i d f = f
  second_consumes (consumer _ _ _) r b i d f = f
  second_consumes nobody r b i d f = f

  second_there : (x : Place) (d : Factory) → Fits x nobody d → ⊥
  second_there (producer _ _ _) d f = f
  second_there (consumer _ _ _) d f = f
  second_there nobody d f = f

  pub Works-first : (x x' y : Place) (d d' : Factory) → Works x x' d d' → Fits x y d → Fits x' y d'
  Works-first x x' (consumer rc bc ic) d d' (has_room {r} h) f = room-IsRing r 0 rc bc ic d h f
  Works-first x x' (consumer rc bc ic) d d' (fills {r} i) f = fill-IsRing r 0 rc bc ic d i f
  Works-first x x' (consumer rc bc ic) d d' (stores {r} {i}) f = store-IsRing r i rc bc ic d f
  Works-first x x' (consumer rc bc ic) d d' (publishes {r}) f = publish-IsRing r 0 rc bc ic d f
  Works-first x x' (consumer rc bc ic) d d' (has_data h) f = absurd f
  Works-first x x' (consumer rc bc ic) d d' (fetches h) f = absurd f
  Works-first x x' (consumer rc bc ic) d d' consumes f = absurd f
  Works-first x x' (producer r b i) d d' w f = absurd (second_consumes x r b i d f)
  Works-first x x' nobody d d' w f = absurd (second_there x d f)

  pub Works-second : (x y y' : Place) (d d' : Factory) → Works y y' d d' → Fits x y d → Fits x y' d'
  Works-second x y y' d d' (has_room {r} h) f = absurd (second_consumes x r false 0 d f)
  Works-second x y y' d d' (fills {r} i) f = absurd (second_consumes x r true 0 d f)
  Works-second x y y' d d' (stores {r} {i}) f = absurd (second_consumes x r true i d f)
  Works-second x y y' d d' (publishes {r}) f = absurd (second_consumes x r true text d f)
  Works-second (producer rp bp ip) y y' d d' (has_data {r} h) f = data-IsRing rp bp ip r 0 d h f
  Works-second (producer rp bp ip) y y' d d' (fetches {r} {i} h) f = fetch-IsRing rp bp ip r i d h f
  Works-second (producer rp bp ip) y y' d d' (consumes {r}) f = consume-IsRing rp bp ip r 0 d f
  Works-second (consumer _ _ _) y y' d d' (has_data h) f = absurd f
  Works-second (consumer _ _ _) y y' d d' (fetches h) f = absurd f
  Works-second (consumer _ _ _) y y' d d' consumes f = absurd f
  Works-second nobody y y' d d' (has_data h) f = absurd f
  Works-second nobody y y' d d' (fetches h) f = absurd f
  Works-second nobody y y' d d' consumes f = absurd f

  -- The first thread produces, the second consumes, and there is no other.
  pub record IsFactory (xs : ℕ → Place) (d : Factory) : Type 0 where
    pub fits : Fits (xs 0) (xs 1) d
    pub others : (i : ℕ) → xs (i + 2) ≡ nobody

  nobody_works : (x' : Place) (d d' : Factory) → Works nobody x' d d' → ⊥
  nobody_works x' d d' w = elim w [ ]

  pub Works-IsFactory :
      (xs : ℕ → Place) (i : ℕ) (x' : Place) (d d' : Factory)
      → IsFactory xs d
      → Works (xs i) x' d d'
      → IsFactory (update xs i x') d'
  unfolding ℕ_discrete
  Works-IsFactory xs zero x' d d' f w = record {
    fits = Works-first (xs 0) x' (xs 1) d d' w f.fits;
    others = λ j. update_there xs 0 x' (j + 2) (λ e. absurd (omega (arith, e))) ∙ f.others j;
  }
  Works-IsFactory xs (suc zero) x' d d' f w = record {
    fits = Works-second (xs 0) (xs 1) x' d d' w f.fits;
    others = λ j. update_there xs 1 x' (j + 2) (λ e. absurd (omega (arith, e))) ∙ f.others j;
  }
  Works-IsFactory xs (suc (suc i)) x' d d' f w =
      absurd (nobody_works x' d d' (subst (λ x. Works x x' d d') (here i) w))
    where
      here : (i : ℕ) → xs (suc (suc i)) ≡ nobody
      here i = ap xs (omega arith) ∙ f.others i
