-- ===== src/Stm/Lifecycle.antt =====
-- 353607/tm.c: `tm_create`, `tm_destroy`, the queries, and `tm_begin`.
use cs453_concurrent_algorit.Prelude.{
  ℕ, ◌+◌, Bool, true, false, not, Option, none, some, [], if◌then◌else◌,
}
use cs453_concurrent_algorit.Prog.{Prog, act, ret, fault, get, modify, ◌>>=◌, ◌>>◌}
use cs453_concurrent_algorit.Region.{Shared, malloc, rwlock_rdlock}
use cs453_concurrent_algorit.Address.{va_from_index}
use cs453_concurrent_algorit.Bloom.{Bf, bf_init}
use cs453_concurrent_algorit.Stm.Tx.{Tx, vec_initial}
use cs453_concurrent_algorit.Stm.Cleanup.{segment_init, tm_cleanup}

-- The fields that `tm_create` sets before it allocates the first segment.
abbrev pub fresh : ℕ → Shared → Shared
fresh align s = record s {
  align = align;
  readers = 0;
  writer = false;
  va_locked = false;
  empty_spots = [];
  va_n = 0;
  global_version = 0;
  to_free_locked = false;
  to_free = [];
  to_free_sz = 64;
}

-- On the memory of a new region; false for `invalid_shared`. Neither of the two arrays is tested:
-- the address array is written to at once, the buffer only later.
unfoldable pub tm_create : ℕ → ℕ → Prog Shared Bool
tm_create size align = do
  ok ← malloc
  if not ok then ret false else (do
    modify (fresh align)
    va_ok ← malloc
    buffer_ok ← malloc
    if not va_ok then fault else (do
      done ← segment_init 0 size align
      if not done
          then (do tm_cleanup; ret false)
          else (do modify (λ s. record s { va_n = s.va_n + 1 }); ret true)))

unfoldable pub tm_destroy : Prog Shared (Unit {0})
tm_destroy = tm_cleanup

unfoldable pub tm_start : ℕ
tm_start = va_from_index 0 0

unfoldable pub tm_size : Prog Shared ℕ
tm_size = act (λ _. true) (λ s. s) (λ s. elim (s.va_arr 0) [ none ↦ fault | some g ↦ ret g.size ])

unfoldable pub tm_align : Prog Shared ℕ
tm_align = get (λ s. s.align)

-- `raw` is the filter in the memory that `malloc` returns; a read-only transaction keeps it, and
-- does not use it.
unfoldable pub tm_begin : Bf → Bool → Prog Shared (Option Tx)
tm_begin raw is_ro = do
  rwlock_rdlock
  ok ← malloc
  if not ok then ret none else (do
    rv ← get (λ s. s.global_version)
    rs_ok ← malloc
    if not rs_ok then ret none else (do
      let t : Tx = record {
        rv = rv;
        is_ro = is_ro;
        ws = [];
        ws_sz = vec_initial;
        ws_bloom = raw;
        rs_null = false;
        rs = [];
        rs_sz = vec_initial;
        to_free = [];
      }
      if is_ro then ret (some t) else (do
        ws_ok ← malloc
        if not ws_ok then ret none else (do
          align ← get (λ s. s.align)
          ret (some (record t { ws_bloom = bf_init raw align }))))))
