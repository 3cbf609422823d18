-- ===== src/Examples/Lock/Rules.antt =====
-- Threads that touch the data only while they hold the lock: every change that one of them makes is
-- made alone.
use cs453_concurrent_algorit.Prelude.{
  ℕ, ◌≡◌, ◌≢◌, refl, sym, ◌∙◌, subst, ap, fun_ext, Bool, true, false,
}
use mathlib.Core.Bool.{true≢false}
use cs453_concurrent_algorit.Prog.Pool.{
  Pool, Reach, update, update_here, update_there, update_same, update-cases,
}
use cs453_concurrent_algorit.Prog.Ghost.{Tracks, Steps, Ended, AllTrack, Reach-AllTrack}
use cs453_concurrent_algorit.Examples.Lock.{Guarded}

-- `Knows` is what a thread's ghost says of the data, `Changes` what a holder of the lock may do.
module _ {D X : Type 0} (Knows : X → D → Type 0) (Changes : X → X → D → D → Type 0) where
  -- Whether the thread holds the lock, with its ghost.
  abbrev pub Ghost : Type 0
  Ghost = Bool × X

  -- While a thread holds the lock, the data stay.
  abbrev pub Rely : Ghost → Guarded D → Guarded D → Type 0
  Rely (inside, x) s u = (inside ≡ true → (u.held ≡ true) × (u.data_ ≡ s.data_)) × Knows x u.data_

  pub data Move : Ghost → Ghost → Guarded D → Guarded D → Type 0 where
    takes :
        {x : X} {s u : Guarded D}
        → s.held ≡ false
        → u.held ≡ true
        → u.data_ ≡ s.data_
        → Move (false, x) (true, x) s u
    gives_back :
        {x : X} {s u : Guarded D}
        → u.held ≡ false
        → u.data_ ≡ s.data_
        → Move (true, x) (false, x) s u
    works :
        {x x' : X} {s u : Guarded D}
        → u.held ≡ s.held
        → Changes x x' s.data_ u.data_
        → Move (true, x) (true, x') s u
    passes :
        {b : Bool} {x : X} {s u : Guarded D}
        → u.held ≡ s.held
        → u.data_ ≡ s.data_
        → Move (b, x) (b, x) s u

  Rely-trans : (o : Ghost) (a b c : Guarded D) → Rely o a b → Rely o b c → Rely o a c
  Rely-trans (inside, x) a b c p q = (λ e. ((q.0 e).0, (q.0 e).1 ∙ (p.0 e).1), q.1)

  module _ (All : (ℕ → X) → D → Type 0)
      (all_know : (xs : ℕ → X) (d : D) → All xs d → (i : ℕ) → Knows (xs i) d)
      (changes : (xs : ℕ → X) (i : ℕ) (x' : X) (d d' : D)
        → All xs d
        → Changes (xs i) x' d d'
        → All (update xs i x') d') where
    pub record IsGuarded (own : ℕ → Ghost) (s : Guarded D) : Type 0 where
      pub locked : (i : ℕ) → (own i).0 ≡ true → s.held ≡ true
      pub one_inside : (i j : ℕ) → (own i).0 ≡ true → (own j).0 ≡ true → i ≡ j
      pub all : All (λ i. (own i).1) s.data_

    ghosts-update :
        (own : ℕ → Ghost) (i : ℕ) (o' : Ghost)
        → (λ j. (update own i o' j).1) ≡ update (λ j. (own j).1) i o'.1
    ghosts-update own i o' = fun_ext (λ j.
        update-cases (λ k o. o.1 ≡ update (λ j. (own j).1) i o'.1 k) own i o' j
          (sym (update_here (λ j. (own j).1) i o'.1))
          (λ n. sym (update_there (λ j. (own j).1) i o'.1 j n)))

    ghost_stays :
        (own : ℕ → Ghost) (i : ℕ) (x : X) (s u : Guarded D)
        → (own i).1 ≡ x
        → u.data_ ≡ s.data_
        → All (λ j. (own j).1) s.data_
        → All (update (λ j. (own j).1) i x) u.data_
    ghost_stays own i x s u e d all =
        rw d (subst (λ f. All f s.data_) (sym (update_same (λ j. (own j).1) i x e)) all)

    -- The data and the ghosts after a step.
    All-next :
        (own : ℕ → Ghost) (i : ℕ) (o o' : Ghost) (s u : Guarded D)
        → own i ≡ o
        → Move o o' s u
        → All (λ j. (own j).1) s.data_
        → All (update (λ j. (own j).1) i o'.1) u.data_
    All-next own i (b, x) o' s u e (takes h k d) all =
        ghost_stays own i x s u (ap (λ p. p.1) e) d all
    All-next own i (b, x) o' s u e (gives_back k d) all =
        ghost_stays own i x s u (ap (λ p. p.1) e) d all
    All-next own i (b, x) (b', x') s u e (works h c) all =
        changes (λ j. (own j).1) i x' s.data_ u.data_ all
          (subst (λ y. Changes y x' s.data_ u.data_) (sym (ap (λ p. p.1) e)) c)
    All-next own i (b, x) o' s u e (passes h d) all =
        ghost_stays own i x s u (ap (λ p. p.1) e) d all

    -- Whether a thread that moves may hold the lock, and what the others may then not.
    inside-next :
        (own : ℕ → Ghost) (i j : ℕ) (o o' : Ghost) (s u : Guarded D)
        → IsGuarded own s
        → own i ≡ o
        → Move o o' s u
        → i ≢ j
        → (own j).0 ≡ true
        → (o'.0 ≢ true) × (u.held ≡ true) × (u.data_ ≡ s.data_)
    inside-next own i j (b, x) o' s u inv e (takes h k d) n inside =
        absurd (true≢false (sym (inv.locked j inside) ∙ h))
    inside-next own i j (b, x) o' s u inv e (gives_back k d) n inside =
        absurd (n (inv.one_inside i j (ap (λ p. p.0) e) inside))
    inside-next own i j (b, x) o' s u inv e (works h c) n inside =
        absurd (n (inv.one_inside i j (ap (λ p. p.0) e) inside))
    inside-next own i j (b, x) o' s u inv e (passes h d) n inside =
        (λ q. n (inv.one_inside i j (ap (λ p. p.0) e ∙ q) inside), h ∙ inv.locked j inside, d)

    held-next :
        (own : ℕ → Ghost) (i : ℕ) (o o' : Ghost) (s u : Guarded D)
        → IsGuarded own s
        → own i ≡ o
        → Move o o' s u
        → o'.0 ≡ true
        → u.held ≡ true
    held-next own i (b, x) o' s u inv e (takes h k d) inside = k
    held-next own i (b, x) o' s u inv e (gives_back k d) inside = cc
    held-next own i (b, x) o' s u inv e (works h c) inside = h ∙ inv.locked i (ap (λ p. p.0) e)
    held-next own i (b, x) o' s u inv e (passes h d) inside =
        h ∙ inv.locked i (ap (λ p. p.0) e ∙ inside)

    pub steps : Steps Rely Move IsGuarded
    steps own i o' s u inv m = (
      record {
        locked = λ j.
            update-cases (λ _ o. o.0 ≡ true → u.held ≡ true) own i o' j
              (held-next own i (own i) o' s u inv refl m)
              (λ n h. (inside-next own i j (own i) o' s u inv refl m n h).1);
        one_inside = λ j k.
            update-cases (λ a o. o.0 ≡ true → (update own i o' k).0 ≡ true → a ≡ k) own i o' j
              (λ h.
                update-cases (λ b o. o.0 ≡ true → i ≡ b) own i o' k (λ _. refl)
                  (λ n q. absurd ((inside-next own i k (own i) o' s u inv refl m n q).0 h)))
              (λ n h.
                update-cases (λ b o. o.0 ≡ true → j ≡ b) own i o' k
                  (λ q. absurd ((inside-next own i j (own i) o' s u inv refl m n h).0 q))
                  (λ _ q. inv.one_inside j k h q));
        all = next;
      },
      λ j n. (
        λ h. (
          (inside-next own i j (own i) o' s u inv refl m n h).1,
          (inside-next own i j (own i) o' s u inv refl m n h).2,
        ),
        subst (λ o. Knows o.1 u.data_) (update_there own i o' j n) (all_know _ u.data_ next j),
      ),
    )
      where
        next : All (λ j. (update own i o' j).1) u.data_
        next =
            subst (λ f. All f u.data_) (sym (ghosts-update own i o'))
              (All-next own i (own i) o' s u refl m inv.all)

    IsGuarded-refl : (own : ℕ → Ghost) (s : Guarded D) (i : ℕ) → IsGuarded own s → Rely (own i) s s
    IsGuarded-refl own s i inv = (λ e. (inv.locked i e, refl), all_know _ s.data_ inv.all i)

    -- What is true of the ghosts and the data at the start is true in every state that can be reached.
    pub Reach-All :
        (Final : Ghost → Type 0) {p q : Pool (Guarded D)} (xs : ℕ → X)
        → All xs p.shared.data_
        → ((i : ℕ) → Tracks Rely Move (Ended Rely Move Final) (p.threads i) (false, xs i) p.shared)
        → Reach p q
        → (own : ℕ → Ghost) × All (λ i. (own i).1) q.shared.data_ × AllTrack Rely Move Final own q
    Reach-All Final {p} {q} xs all h run =
        let (own, inv, end) =
          Reach-AllTrack Rely Move Final Rely-trans IsGuarded IsGuarded-refl steps
            (λ i. (false, xs i)) start h run in
        (own, inv.all, end)
      where
        start : IsGuarded (λ i. (false, xs i)) p.shared
        start = record {
          locked = λ i e. absurd (true≢false (sym e));
          one_inside = λ i j e. absurd (true≢false (sym e));
          all = all;
        }
