-- ===== src/Tests/Grader.antt =====
-- The grader's checks and its pointers on small inputs.
use cs453_concurrent_algorit.Prelude.{ℕ, ◌≡◌, refl, true, false, some, List, [], ◌∷◌, arith}
use cs453_concurrent_algorit.Prog.{run}
use cs453_concurrent_algorit.Grading.{
  Body, Exception, throws, is_power_of_two, bind_memory, attempt, transactional,
}
use cs453_concurrent_algorit.Grading.Creation.{Checked, bind_memory-Fits}
use cs453_concurrent_algorit.Grading.Pointers.{
  and_then, bind_shared, read_shared_value, write_shared_value, read_cell, cell, after,
  alloc_pointer,
}
use cs453_concurrent_algorit.Reference.{Region, tm_create_locked, reference}
use cs453_concurrent_algorit.Reference.Serial.{alone}
use cs453_concurrent_algorit.Reference.Serial.Runs.{transactional-serial}
use cs453_concurrent_algorit.Reference.Serial.Pointers.{Protects, alloc_free-Protects}
use cs453_concurrent_algorit.Template.{tm_create_stub, tm_begin_stub, template}

abbrev bytes_region : Region
bytes_region = record {
  readers = 0;
  writer = false;
  start = 64;
  allocs = [];
  size = 16;
  align = 8;
  bytes = λ _. 0;
  memaligns = some 128 ∷ [];
  lock_answers = [];
}

-- A value and a pointer are bound and written; the third element of an array of two is out of bounds.
abbrev structure : Body (List ℕ)
structure = and_then (bind_shared true 8 8 64) (λ a.
    and_then (write_shared_value (1 ∷ 2 ∷ 3 ∷ 4 ∷ []) a)
      (λ _. and_then (alloc_pointer true 4 0 (after 8 a)) (λ p. read_shared_value 4 a)))

abbrev past_the_end : Body (List ℕ)
past_the_end = and_then (cell true 2 8 8 8 64 1) (λ a. read_cell true 2 8 a 2)

transactional-serial_example :
    run (transactional 1 reference true false structure) bytes_region
    ≡ alone true false structure bytes_region
transactional-serial_example = transactional-serial 0 true false structure bytes_region refl refl

powers : (is_power_of_two 8 ≡ true) × (is_power_of_two 12 ≡ false) × (is_power_of_two 0 ≡ false)
unfolding is_power_of_two
powers = (refl, refl, refl)

alloc_free-Protects_example : (u : Region) × (v : Region) × Protects 2 4 0 72 144 bytes_region u v
alloc_free-Protects_example =
    alloc_free-Protects 2 4 0 72 128 bytes_region refl refl refl refl refl (omega arith)

-- Over the template's functions no memory can be made, whether or not the alignment is right.
template_fails :
    (run (bind_memory tm_create_stub true 12 64) bytes_region
      ≡ some (throws Exception.transaction_align, bytes_region))
    × (run (bind_memory tm_create_stub true 8 64) bytes_region
        ≡ some (throws Exception.transaction_create, bytes_region))
    × (run (transactional 3 (template {S = Region} {H = ℕ}) true false past_the_end) bytes_region
        ≡ some (throws Exception.transaction_begin, bytes_region))
unfolding bind_memory is_power_of_two tm_create_stub tm_begin_stub attempt transactional
template_fails = (refl, refl, refl)

bind_memory-Fits_example : Checked (tm_create_locked true true) 8 64
bind_memory-Fits_example = bind_memory-Fits (tm_create_locked true true) 8 64
