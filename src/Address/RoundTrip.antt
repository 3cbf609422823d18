-- ===== src/Address/RoundTrip.antt =====
-- An address that `va_from_index` makes is taken apart again.
use cs453_concurrent_algorit.Prelude.{ℕ, ◌+◌, ◌^◌, ◌<◌, ◌≡◌, ◌↔◌, arith}
use cs453_concurrent_algorit.Address.{index_from_va, va_from_index, offset_from_va}

-- For an index below 65535 and an offset with its displacement below 2^48, moving by `d` bytes from
-- the address stays in the segment: its index is unchanged and its offset grows by `d`.
pub va_from_index_fields :
    (idx offset d : ℕ)
    → idx < 65535
    → offset + d < 2 ^ 48
    → (index_from_va (va_from_index idx offset + d) ≡ idx)
      × (offset_from_va (va_from_index idx offset + d) ≡ offset + d)
unfolding index_from_va va_from_index offset_from_va
va_from_index_fields idx offset d h k = (omega arith, omega arith)

-- Of the 65536 indices of the address array only the last has the null pointer for its base address.
pub va_from_index-null : (idx : ℕ) → idx < 65536 → (va_from_index idx 0 ≡ 0) ↔ (idx ≡ 65535)
unfolding va_from_index
va_from_index-null idx h = (λ e. omega arith, λ e. omega arith)
