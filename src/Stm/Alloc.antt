-- ===== src/Stm/Alloc.antt =====
-- 353607/tm.c: `tm_alloc` and `tm_free`.
use cs453_concurrent_algorit.Prelude.{
  ℕ, ◌+◌, ◌==◌, Bool, true, false, Option, some, List, [], ◌∷◌, ◌++◌, ltb, if◌then◌else◌,
}
use cs453_concurrent_algorit.Prog.{Prog, ret, fault, atomic, get, modify, ◌>>=◌, ◌>>◌}
use cs453_concurrent_algorit.Region.{Shared, malloc, va_lock, va_unlock}
use cs453_concurrent_algorit.Address.{index_from_va, va_from_index}
use cs453_concurrent_algorit.Stm.Tx.{Tx, va_size}
use cs453_concurrent_algorit.Stm.Cleanup.{segment_init}
use cs453_concurrent_algorit.Stm.Read.{abort}

-- An address for `success_alloc`; `abort_alloc` is never returned.
pub data Alloc : Type 0 where
  success : ℕ → Alloc
  nomem : Alloc

-- The head of the list of empty spots, or else the next spot of the array.
abbrev pub spot_taken : List ℕ → ℕ → ℕ
spot_taken [] n = n
spot_taken (spot ∷ spots) n = spot

abbrev pub next_spot : List ℕ → ℕ → ℕ
next_spot [] n = n + 1
next_spot (spot ∷ spots) n = n

abbrev pub spots_left : List ℕ → List ℕ
spots_left [] = []
spots_left (spot ∷ spots) = spots

abbrev pub spot_left : Shared → Shared
spot_left s = record s {
  va_n = next_spot s.empty_spots s.va_n;
  empty_spots = spots_left s.empty_spots;
}

-- Under the mutex: three steps, of which the middle one is made by no other thread.
unfoldable pub take_spot : Prog Shared ℕ
take_spot = do
  va_lock
  spot ← atomic spot_left (λ s. spot_taken s.empty_spots s.va_n)
  va_unlock
  ret spot

-- A spot whose segment could not be made goes back, with no lock taken.
unfoldable pub alloc_result : ℕ → Bool → Prog Shared Alloc
alloc_result spot true = ret (success (va_from_index spot 0))
alloc_result spot false = do
  ok ← malloc
  if ok
      then (do modify (λ s. record s { empty_spots = spot ∷ s.empty_spots }); ret nomem)
      else fault

-- The source does not compare the spot with the length of the array: one past its end is written out
-- of bounds, and faults here.
unfoldable pub alloc_at : ℕ → ℕ → Prog Shared Alloc
alloc_at size spot = do
  align ← get (λ s. s.align)
  if ltb spot va_size then (segment_init spot size align >>= alloc_result spot) else fault

unfoldable pub tm_alloc : ℕ → Prog Shared Alloc
tm_alloc size = take_spot >>= alloc_at size

-- The segment is freed by a later `tm_end`. The result of `realloc` is not tested. The array of a
-- read-only transaction was never initialised.
unfoldable pub tm_free : Tx → ℕ → Prog Shared (Option Tx)
tm_free t target =
    let spot = index_from_va target in
    if spot == 0 then abort else if t.is_ro then fault else (do
      ok ← malloc
      if ok then ret (some (record t { to_free = t.to_free ++ spot ∷ [] })) else fault)
