-- ===== src/Bank/Places.antt =====
-- grading/workload.hpp: the accounts that `short_tx` finds exist.
use mathlib.Core.List.{append_assoc}
use cs453_concurrent_algorit.Prelude.{
  ℕ, zero, suc, ◌+◌, ◌<◌, ◌≡◌, sym, subst, Option, none, some, List, [], ◌∷◌, ◌++◌, length,
  length-append, arith, ltb, inl, inr, Bool-cases, Option-cases,
}
use cs453_concurrent_algorit.Bank.{
  AccountSegment, Place, Search, found, looking, probe, both_found, find_accounts,
}

-- An account that exists.
abbrev pub InRange : List AccountSegment → ℕ → ℕ → Type 0
InRange [] k i = ⊥
InRange (s ∷ segments) zero i = i < s.count
InRange (s ∷ segments) (suc k) i = InRange segments k i

InRange-here :
    (before segments : List AccountSegment) (s : AccountSegment) (i : ℕ)
    → i < s.count
    → InRange (before ++ s ∷ segments) (length before) i
InRange-here [] segments s i h = h
InRange-here (b ∷ before) segments s i h = InRange-here before segments s i h

abbrev Exists : List AccountSegment → Search → Type 0
Exists segments (found p) = InRange segments p.segment p.index
Exists segments (looking id) = Unit {0}

probe-Exists :
    (before segments : List AccountSegment) (s : AccountSegment) (r : Search)
    → Exists (before ++ s ∷ segments) r
    → Exists (before ++ s ∷ segments) (probe (length before) s.count r)
probe-Exists before segments s (found p) h = h
probe-Exists before segments s (looking id) h = elim (Bool-cases (ltb id s.count)) [
  | inl hit ↦ rw hit (InRange-here before segments s id (ground arith))
  | inr miss ↦ rw miss tt
]

abbrev pub PairExists : List AccountSegment → Option (Place × Place) → Type 0
PairExists segments none = Unit {0}
PairExists segments (some (p, q)) =
    InRange segments p.segment p.index × InRange segments q.segment q.index

both_found-PairExists :
    (segments : List AccountSegment) (a b : Search)
    → Exists segments a
    → Exists segments b
    → PairExists segments (both_found a b)
both_found-PairExists segments (found p) (found q) h k = (h, k)
both_found-PairExists segments (found p) (looking id) h k = tt
both_found-PairExists segments (looking id) b h k = tt

-- One round of the search, given what the later ones find.
find_accounts-step :
    (before segments : List AccountSegment) (s : AccountSegment) (send recv : Search)
    → Exists (before ++ s ∷ segments) send
    → Exists (before ++ s ∷ segments) recv
    → (let a = probe (length before) s.count send in
        let b = probe (length before) s.count recv in
        Exists (before ++ s ∷ segments) a
        → Exists (before ++ s ∷ segments) b
        → PairExists (before ++ s ∷ segments) (find_accounts (length before + 1) segments a b))
    → PairExists (before ++ s ∷ segments) (find_accounts (length before) (s ∷ segments) send recv)
unfolding find_accounts
find_accounts-step before segments s send recv h k further = elim (Option-cases (both_found a b)) [
  | inl missing ↦ rw (missing, find_accounts) (further a_exists b_exists)
  | inr (pair, e) ↦
      rw (e, find_accounts)
        (subst (PairExists (before ++ s ∷ segments)) e
          (both_found-PairExists (before ++ s ∷ segments) a b a_exists b_exists))
]
  where
    a : Search
    a = probe (length before) s.count send

    b : Search
    b = probe (length before) s.count recv

    a_exists : Exists (before ++ s ∷ segments) a
    a_exists = probe-Exists before segments s send h

    b_exists : Exists (before ++ s ∷ segments) b
    b_exists = probe-Exists before segments s recv k

pub find_accounts-PairExists :
    (before segments : List AccountSegment) (send recv : Search)
    → Exists (before ++ segments) send
    → Exists (before ++ segments) recv
    → PairExists (before ++ segments) (find_accounts (length before) segments send recv)
unfolding find_accounts
find_accounts-PairExists before [] send recv h k = tt
find_accounts-PairExists before (s ∷ segments) send recv h k =
    find_accounts-step before segments s send recv h k (λ p q.
      let a = probe (length before) s.count send in
      let b = probe (length before) s.count recv in
      subst (λ n. PairExists (before ++ s ∷ segments) (find_accounts n segments a b)) place
        (subst (λ l. PairExists l (find_accounts (length (before ++ s ∷ [])) segments a b)) next
          (find_accounts-PairExists (before ++ s ∷ []) segments a b
            (subst (λ l. Exists l a) (sym next) p) (subst (λ l. Exists l b) (sym next) q))))
  where
    next : (before ++ s ∷ []) ++ segments ≡ before ++ s ∷ segments
    next = append_assoc before (s ∷ []) segments

    place : length (before ++ s ∷ []) ≡ length before + 1
    place = length-append before (s ∷ [])
