-- ===== src/Stm/Cleanup.antt =====
-- 353607/tm.c: segments, and the functions that free.
use cs453_concurrent_algorit.Prelude.{
  ℕ, zero, suc, ◌+◌, ◌/◌, ◌==◌, ◌&&◌, Bool, true, false, Option, none, some, List, [], ◌∷◌, ltb,
  if◌then◌else◌,
}
use cs453_concurrent_algorit.Prog.{Prog, ret, fault, get, modify, ◌>>=◌, ◌>>◌}
use cs453_concurrent_algorit.Region.{Loc, Segment, Shared, malloc, rwlock_unlock}
use cs453_concurrent_algorit.VersionedLock.{vl_init}

abbrev pub set_segment : ℕ → Option Segment → Shared → Shared
set_segment spot g s = record s { va_arr = λ i. if spot == i then g else s.va_arr i }

abbrev pub in_segment : ℕ → Segment → Loc → Bool
in_segment spot g l = l.spot == spot && ltb l.word g.num_words

-- The loop that initialises `n` locks, from number `i`.
unfoldable pub init_locks : ℕ → ℕ → ℕ → Prog Shared (Unit {0})
init_locks spot i zero = ret tt
init_locks spot i (suc n) =
    vl_init (record { spot = spot; word = i }) >>= λ _. init_locks spot (i + 1) n

unfoldable pub segment_locks : ℕ → Segment → Prog Shared Bool
segment_locks spot g = do init_locks spot 0 g.num_words; ret true

-- The data set to zero, and the locks allocated.
unfoldable pub segment_zero : ℕ → Segment → Prog Shared Bool
segment_zero spot g = do
  modify (λ s. record s { words = λ l. if in_segment spot g l then 0 else s.words l })
  locks_ok ← malloc
  if locks_ok then segment_locks spot g else ret false

unfoldable pub segment_fill : ℕ → Segment → Prog Shared Bool
segment_fill spot g = do data_ok ← malloc; if data_ok then segment_zero spot g else ret false

-- Whether it succeeds. `*sp = malloc(…)` is not tested, and is left in place on an error.
unfoldable pub segment_init : ℕ → ℕ → ℕ → Prog Shared Bool
segment_init spot size align =
    let g : Segment = record { size = size; num_words = size / align } in
    malloc >>= λ made.
    modify (set_segment spot (if made then some g else none))
    >> (if made then segment_fill spot g else fault)

-- The free of a NULL segment is never made; `spot` goes on the list of empty spots.
unfoldable pub delete_segment : ℕ → Prog Shared (Unit {0})
delete_segment spot = do
  seg ← get (λ s. s.va_arr spot)
  elim seg [
    | none ↦ ret tt
    | some g ↦ do
      modify (set_segment spot none)
      ok ← malloc
      if ok then modify (λ s. record s { empty_spots = spot ∷ s.empty_spots }) else fault
  ]

unfoldable pub delete_segments : List ℕ → Prog Shared (Unit {0})
delete_segments [] = ret tt
delete_segments (spot ∷ spots) = delete_segment spot >>= λ _. delete_segments spots

-- `for (i = 0; i < va_n; i++)`, with `n` rounds left
unfoldable pub free_segments : ℕ → ℕ → Prog Shared (Unit {0})
free_segments i zero = ret tt
free_segments i (suc n) = modify (set_segment i none) >>= λ _. free_segments (i + 1) n

unfoldable pub tm_cleanup : Prog Shared (Unit {0})
tm_cleanup = do
  n ← get (λ s. s.va_n)
  free_segments 0 n
  modify (λ s. record s { empty_spots = []; to_free = []; to_free_sz = 0 })

-- The private memory of the transaction goes with its value.
unfoldable pub transaction_cleanup : Bool → Prog Shared (Unit {0})
transaction_cleanup failed = if failed then rwlock_unlock else ret tt
