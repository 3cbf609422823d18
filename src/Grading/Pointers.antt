-- ===== src/Grading/Pointers.antt =====
-- grading/transactional.hpp: the class `Shared`, as closures of a transaction. A value of a type is the
-- list of its bytes; a pointer has eight, the lowest first.
use cs453_concurrent_algorit.Prelude.{
  ℕ, zero, suc, ◌+◌, ◌*◌, ◌/◌, ◌%◌, ◌==◌, ◌&&◌, Bool, true, false, not, List, [], ◌∷◌, ltb, leb,
  if◌then◌else◌,
}
use cs453_concurrent_algorit.Grading.{
  shared_align, shared_overflow, shared_double_alloc, shared_double_free, Body, returns, raises,
  reads, writes, allocs, frees,
}

-- One part of a closure after another.
unfoldable pub and_then : {A B : Type 0} → Body A → (A → Body B) → Body B
and_then (returns a) k = k a
and_then (raises e) k = raises e
and_then (reads source size next) k = reads source size (λ vs. and_then (next vs) k)
and_then (writes source target next) k = writes source target (and_then next k)
and_then (allocs size next) k = allocs size (λ a. and_then (next a) k)
and_then (frees target next) k = frees target (and_then next k)

abbrev pub to_bytes : ℕ → ℕ → List ℕ
to_bytes zero p = []
to_bytes (suc n) p = p % 256 ∷ to_bytes n (p / 256)

abbrev pub from_bytes : List ℕ → ℕ
from_bytes [] = 0
from_bytes (b ∷ bs) = b + 256 * from_bytes bs

-- `sizeof(Type*)`
abbrev pub pointer_size : ℕ
pointer_size = 8

-- The constructors, for a memory aligned to `align` and a type aligned to `type_align`.
unfoldable pub bind_shared : Bool → ℕ → ℕ → ℕ → Body ℕ
bind_shared assert_mode align type_align address =
    if assert_mode && not (address % align == 0)
    then raises shared_align
    else if assert_mode && not (address % type_align == 0)
    then raises shared_align
    else returns address

unfoldable pub read_shared_value : ℕ → ℕ → Body (List ℕ)
read_shared_value type_size address = reads address type_size returns

unfoldable pub write_shared_value : List ℕ → ℕ → Body (Unit {0})
write_shared_value source address = writes source address (returns tt)

unfoldable pub read_pointer : ℕ → Body ℕ
read_pointer address = reads address pointer_size (λ bs. returns (from_bytes bs))

unfoldable pub write_pointer : ℕ → ℕ → Body (Unit {0})
write_pointer p address = writes (to_bytes pointer_size p) address (returns tt)

-- After the assertion. A size of 0 stands for that of the type.
unfoldable pub allocate_at : ℕ → ℕ → ℕ → Body ℕ
allocate_at type_size size address =
    allocs (if ltb 0 size then size else type_size)
      (λ p. and_then (write_pointer p address) (λ _. returns p))

unfoldable pub alloc_pointer : Bool → ℕ → ℕ → ℕ → Body ℕ
alloc_pointer false type_size size address = allocate_at type_size size address
alloc_pointer true type_size size address =
    and_then (read_pointer address)
      (λ old. if old == 0 then allocate_at type_size size address else raises shared_double_alloc)

unfoldable pub free_at : ℕ → Body (Unit {0})
free_at address = and_then (read_pointer address) (λ p. frees p (write_pointer 0 address))

unfoldable pub free_pointer : Bool → ℕ → Body (Unit {0})
free_pointer false address = free_at address
free_pointer true address =
    and_then (read_pointer address)
      (λ old. if old == 0 then raises shared_double_free else free_at address)

-- An element of an array without a bound.
unfoldable pub read_element : ℕ → ℕ → ℕ → Body (List ℕ)
read_element type_size address index = reads (address + type_size * index) type_size returns

unfoldable pub element : Bool → ℕ → ℕ → ℕ → ℕ → ℕ → Body ℕ
element assert_mode align type_align type_size address index =
    bind_shared assert_mode align type_align (address + type_size * index)

-- An element of an array of `n`.
unfoldable pub read_cell : Bool → ℕ → ℕ → ℕ → ℕ → Body (List ℕ)
read_cell assert_mode n type_size address index =
    if assert_mode && leb n index
    then raises shared_overflow
    else reads (address + type_size * index) type_size returns

unfoldable pub cell : Bool → ℕ → ℕ → ℕ → ℕ → ℕ → ℕ → Body ℕ
cell assert_mode n align type_align type_size address index =
    if assert_mode && leb n index
    then raises shared_overflow
    else bind_shared assert_mode align type_align (address + type_size * index)

-- The first byte after a value, and after an array of `n`.
unfoldable pub after : ℕ → ℕ → ℕ
after type_size address = address + type_size

unfoldable pub after_array : ℕ → ℕ → ℕ → ℕ
after_array n type_size address = address + type_size * n
