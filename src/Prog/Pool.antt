-- ===== src/Prog/Pool.antt =====
-- Any number of threads over one shared state, their steps interleaved in any order.
use cs453_concurrent_algorit.Prelude.{
  ℕ, ◌≡◌, ◌≢◌, refl, sym, subst, fun_ext, Bool, true, ℕ_discrete,
}
use mathlib.Core.Logic.{ite, if_pos, if_neg}
use cs453_concurrent_algorit.Prog.{Prog, act}
use cs453_concurrent_algorit.Prog.Rely.{Keeps, Keeps-rely}

pub record Pool (S : Type 0) : Type 0 where
  pub shared : S
  pub threads : ℕ → Prog S (Unit {0})

abbrev pub update {ℓ} : {A : Type ℓ} → (ℕ → A) → ℕ → A → ℕ → A
update f i a j = ite (ℕ_discrete i j) a (f j)

pub update_here {ℓ} : {A : Type ℓ} (f : ℕ → A) (i : ℕ) (a : A) → update f i a i ≡ a
update_here f i a = if_pos (ℕ_discrete i i) refl a (f i)

pub update_there {ℓ} :
    {A : Type ℓ} (f : ℕ → A) (i : ℕ) (a : A) (j : ℕ) → i ≢ j → update f i a j ≡ f j
update_there f i a j n = if_neg (ℕ_discrete i j) n a (f j)

-- What holds of the new value at its place, and of the old ones elsewhere, holds everywhere.
pub update-cases {ℓ ℓ2} :
    {A : Type ℓ} (P : ℕ → A → Type ℓ2) (f : ℕ → A) (i : ℕ) (a : A) (j : ℕ)
    → P i a
    → (i ≢ j → P j (f j))
    → P j (update f i a j)
update-cases P f i a j h k = elim (ℕ_discrete i j) [
  | yes e ↦ rw (if_pos _ e) (subst (λ n. P n a) e h)
  | no n ↦ rw (if_neg _ n) (k n)
]

pub update_same {ℓ} : {A : Type ℓ} (f : ℕ → A) (i : ℕ) (a : A) → f i ≡ a → update f i a ≡ f
update_same f i a e = fun_ext (λ j. update-cases (λ k b. b ≡ f k) f i a j (sym e) (λ n. refl))

-- One enabled step of one thread.
pub data Step {S : Type 0} (p : Pool S) : Pool S → Type 0 where
  pick :
      (i : ℕ) {en : S → Bool} {f : S → S} {k : S → Prog S (Unit {0})}
      → p.threads i ≡ act en f k
      → en p.shared ≡ true
      → Step p (record { shared = f p.shared; threads = update p.threads i (k p.shared) })

pub data Reach {S : Type 0} (p : Pool S) : Pool S → Type 0 where
  here : Reach p p
  next : {q r : Pool S} → Reach p q → Step q r → Reach p r

abbrev Anything : {S : Type 0} → Unit {0} → S → Type 0
Anything _ _ = Unit {0}

abbrev pub AllKeep : {S : Type 0} → (S → S → Type 0) → Pool S → Type 0
AllKeep R p = (i : ℕ) → Keeps R R Anything (p.threads i) p.shared

module _ {S : Type 0} (R : S → S → Type 0) (R-refl : (s : S) → R s s)
    (R-trans : (a b c : S) → R a b → R b c → R a c) where
  Step-AllKeep : {p q : Pool S} → Step p q → AllKeep R p → R p.shared q.shared × AllKeep R q
  Step-AllKeep {p} (pick i {en} {f} {k} e on) h = (first.0, rest)
    where
      first : R p.shared (f p.shared) × Keeps R R Anything (k p.shared) (f p.shared)
      first = subst (λ t. Keeps R R Anything t p.shared) e (h i) p.shared (R-refl p.shared) on

      rest : (j : ℕ) → Keeps R R Anything (update p.threads i (k p.shared) j) (f p.shared)
      rest j = elim (ℕ_discrete i j) [
        | yes q ↦ rw (if_pos _ q) first.1
        | no q ↦ rw (if_neg _ q) (
            Keeps-rely R R Anything (p.threads j) p.shared (f p.shared) R-trans (λ _ u. u) first.0
              (h j))
      ]

  -- What every step of every thread respects holds between the first state and any later one.
  pub Reach-AllKeep : {p q : Pool S} → AllKeep R p → Reach p q → R p.shared q.shared × AllKeep R q
  Reach-AllKeep {p} h here = (R-refl p.shared, h)
  Reach-AllKeep {p} {q = r} h (next {q} run st) =
      let (before, kept) = Reach-AllKeep h run in
      let (step, now) = Step-AllKeep st kept in
      (R-trans p.shared q.shared r.shared before step, now)
