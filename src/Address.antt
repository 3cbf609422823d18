-- ===== src/Address.antt =====
-- 353607/macros.h: virtual addresses, `unsigned long` of 64 bits. The high 16 bits hold the index of
-- the segment plus one, the low 48 bits the offset in bytes.
pub mod RoundTrip
use cs453_concurrent_algorit.Prelude.{ℕ, ◌+◌, ◌-◌, ◌*◌, ◌/◌, ◌%◌, ◌^◌}

abbrev pub u64 : ℕ → ℕ
u64 n = n % 2 ^ 64

-- The subtraction wraps, so that an address below 2^48 has the index 2^64 - 1.
unfoldable pub index_from_va : ℕ → ℕ
index_from_va va = u64 (va / 2 ^ 48 % 2 ^ 16 + 2 ^ 64 - 1)

unfoldable pub va_from_index : ℕ → ℕ → ℕ
va_from_index idx offset = u64 (u64 ((idx + 1) * 2 ^ 48) + offset)

unfoldable pub offset_from_va : ℕ → ℕ
offset_from_va va = va % 2 ^ 48
