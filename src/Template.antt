-- ===== src/Template.antt =====
-- template/tm.c: the library that students start from. Every function fails.
use cs453_concurrent_algorit.Prelude.{ℕ, Bool, false, Option, none, List}
use cs453_concurrent_algorit.Prog.{Prog, ret}
use cs453_concurrent_algorit.Grading.{AllocAnswer, abort, Library}

module _ {S : Type 0} where
  -- `invalid_shared`
  unfoldable pub tm_create_stub : ℕ → ℕ → Prog S Bool
  tm_create_stub size align = ret false

  unfoldable pub tm_destroy_stub : Prog S (Unit {0})
  tm_destroy_stub = ret tt

  unfoldable pub tm_start_stub : Prog S ℕ
  tm_start_stub = ret 0

  unfoldable pub tm_size_stub : Prog S ℕ
  tm_size_stub = ret 0

  unfoldable pub tm_align_stub : Prog S ℕ
  tm_align_stub = ret 0

module _ {S H : Type 0} where
  unfoldable pub tm_begin_stub : Bool → Prog S (Option H)
  tm_begin_stub is_ro = ret none

  unfoldable pub tm_end_stub : H → Prog S Bool
  tm_end_stub tx = ret false

  unfoldable pub tm_read_stub : H → ℕ → ℕ → Prog S (Option (H × List ℕ))
  tm_read_stub tx source size = ret none

  unfoldable pub tm_write_stub : H → List ℕ → ℕ → Prog S (Option H)
  tm_write_stub tx source target = ret none

  unfoldable pub tm_alloc_stub : H → ℕ → Prog S (AllocAnswer H)
  tm_alloc_stub tx size = ret abort

  unfoldable pub tm_free_stub : H → ℕ → Prog S (Option H)
  tm_free_stub tx target = ret none

  abbrev pub template : Library S H
  template = record {
    tm_begin = tm_begin_stub;
    tm_end = tm_end_stub;
    tm_read = tm_read_stub;
    tm_write = tm_write_stub;
    tm_alloc = tm_alloc_stub;
    tm_free = tm_free_stub;
  }
