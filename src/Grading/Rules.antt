-- ===== src/Grading/Rules.antt =====
-- grading/transactional.hpp: what a body of a transaction must keep to, as include/tm.h asks.
use cs453_concurrent_algorit.Prelude.{
  ℕ, ◌+◌, ◌%◌, ◌≤◌, ◌<◌, ◌==◌, ◌≡◌, ◌⊎◌, Bool, true, false, Option, none, some, List, [], ◌∷◌,
  length, if◌then◌else◌,
}
use cs453_concurrent_algorit.Grading.{
  Exception, transaction_align, transaction_create, transaction_begin, transaction_retry,
  transaction_read_only, transaction_alloc, shared, terminated, Body, returns, raises, reads,
  writes, allocs, frees,
}

-- Segments: their addresses and sizes.
abbrev pub Segments : Type 0
Segments = List (ℕ × ℕ)

abbrev pub InSegment : Segments → ℕ → ℕ → Type 0
InSegment [] a n = ⊥
InSegment ((start, size) ∷ segments) a n =
    ((start ≤ a) × (a + n ≤ start + size)) ⊎ InSegment segments a n

-- The segments without the one at `target`.
abbrev pub drop : ℕ → Segments → Option Segments
drop target [] = none
drop target ((start, size) ∷ segments) =
    if target == start
    then some segments
    else elim (drop target segments) [ none ↦ none | some rest ↦ some ((start, size) ∷ rest) ]

-- A size as the headers ask for it.
abbrev pub IsSize : ℕ → ℕ → Type 0
IsSize align n = (0 < n) × (n % align ≡ 0)

abbrev pub IsRange : ℕ → Segments → ℕ → ℕ → Type 0
IsRange align segments a n = IsSize align n × InSegment segments a n

-- A body that keeps to the headers, in a memory with the segment `first` and the others, which were
-- allocated: it reads and writes ranges of segments, allocates positive multiples of the alignment
-- and frees segments that were allocated and are not yet freed.
abbrev pub Obeys : {A : Type 0} → ℕ → ℕ × ℕ → Segments → Body A → Type 0
Obeys align first segments (returns a) = Unit {0}
Obeys align first segments (raises e) = Unit {0}
Obeys align first segments (reads source size next) =
    IsRange align (first ∷ segments) source size
    × ((vs : List ℕ) → Obeys align first segments (next vs))
Obeys align first segments (writes source target next) =
    IsRange align (first ∷ segments) target (length source) × Obeys align first segments next
Obeys align first segments (allocs size next) =
    IsSize align size × ((target : ℕ) → Obeys align first ((target, size) ∷ segments) (next target))
Obeys align first segments (frees target next) =
    (rest : Segments) × (drop target segments ≡ some rest) × Obeys align first rest next

abbrev pub is_retry : Exception → Bool
is_retry transaction_retry = true
is_retry transaction_align = false
is_retry transaction_create = false
is_retry transaction_begin = false
is_retry transaction_read_only = false
is_retry transaction_alloc = false
is_retry (shared e) = false
is_retry terminated = false
