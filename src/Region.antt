-- ===== src/Region.antt =====
-- The shared structures of 353607/tm.c, `struct shared_s` and `struct segment_s`, and the library
-- calls on them. A pointer into the arrays `locks` and `data` of a segment is a `Loc`; the arrays of
-- all segments are the families `locks` and `words`, a word of `align` bytes being one number.
use cs453_concurrent_algorit.Prelude.{
  ℕ, ◌-◌, ◌+◌, ◌==◌, ◌&&◌, Bool, true, false, not, Option, List, [], ◌∷◌, if◌then◌else◌,
}
use cs453_concurrent_algorit.Prog.{Prog, atomic, await, modify}

pub record Loc : Type 0 where
  pub spot : ℕ
  pub word : ℕ

abbrev pub loc_eq : Loc → Loc → Bool
loc_eq l m = l.spot == m.spot && l.word == m.word

pub record Segment : Type 0 where
  pub size : ℕ
  pub num_words : ℕ

pub record Shared : Type 0 where
  pub align : ℕ
  -- cleanup_lock
  pub readers : ℕ
  pub writer : Bool
  -- virtual_memory_lock
  pub va_locked : Bool
  pub empty_spots : List ℕ
  -- va_arr; `none` for NULL
  pub va_arr : ℕ → Option Segment
  pub va_n : ℕ
  pub global_version : ℕ
  -- to_free_lock
  pub to_free_locked : Bool
  -- the first `to_free_n` entries of the buffer
  pub to_free : List ℕ
  pub to_free_sz : ℕ
  -- the segments' arrays
  pub locks : Loc → ℕ
  pub words : Loc → ℕ
  -- what the calls of the allocator to come will answer; all succeed once the list is used up
  pub mallocs : List Bool

abbrev pub store {ℓ} : {A : Type ℓ} → (Loc → A) → Loc → A → Loc → A
store f l a m = if loc_eq l m then a else f m

abbrev pub answer : List Bool → Bool
answer [] = true
answer (b ∷ bs) = b

abbrev pub answers_left : List Bool → List Bool
answers_left [] = []
answers_left (b ∷ bs) = bs

-- Whether an allocation succeeds.
abbrev pub malloc : Prog Shared Bool
malloc = atomic (λ s. record s { mallocs = answers_left s.mallocs }) (λ s. answer s.mallocs)

abbrev pub rwlock_rdlock : Prog Shared (Unit {0})
rwlock_rdlock = await (λ s. not s.writer) (λ s. record s { readers = s.readers + 1 })

abbrev pub rwlock_wrlock : Prog Shared (Unit {0})
rwlock_wrlock = await (λ s. not s.writer && s.readers == 0) (λ s. record s { writer = true })

-- The writer lets go if there is one, else a reader.
abbrev pub rwlock_unlock : Prog Shared (Unit {0})
rwlock_unlock =
    modify
      (λ s. if s.writer then record s { writer = false } else record s { readers = s.readers - 1 })

abbrev pub va_lock : Prog Shared (Unit {0})
va_lock = await (λ s. not s.va_locked) (λ s. record s { va_locked = true })

abbrev pub va_unlock : Prog Shared (Unit {0})
va_unlock = modify (λ s. record s { va_locked = false })

abbrev pub to_free_lock : Prog Shared (Unit {0})
to_free_lock = await (λ s. not s.to_free_locked) (λ s. record s { to_free_locked = true })

abbrev pub to_free_unlock : Prog Shared (Unit {0})
to_free_unlock = modify (λ s. record s { to_free_locked = false })
