-- ===== src/Bloom.antt =====
-- 353607/bloom.c: a Bloom filter of the addresses in a write set, in one `uint64_t`.
pub mod Members
pub mod Align
use cs453_concurrent_algorit.Prelude.{
  ℕ, zero, suc, ◌+◌, ◌-◌, ◌*◌, ◌/◌, ◌%◌, ◌^◌, ◌==◌, ◌&&◌, Bool, true, false, not, ltb, leb, bit_and,
  bit_or, if◌then◌else◌,
}

pub record Bf : Type 0 where
  pub bitset : ℕ
  pub align : ℕ

abbrev pub num_hashes : ℕ
num_hashes = 5

-- The loop over `i < 16` with `n` rounds left; it leaves `align` alone if no power is large enough.
unfoldable pub bf_init_from : ℕ → ℕ → ℕ → ℕ → ℕ
bf_init_from zero i align old = old
bf_init_from (suc n) i align old =
    let rest = bf_init_from n (i + 1) align old in if leb align (2 ^ i) then i else rest

-- `old` is the filter in the memory that `bf` points to.
unfoldable pub bf_init : Bf → ℕ → Bf
bf_init old align = record { bitset = 0; align = bf_init_from 16 0 align old.align }

-- `uintptr_t` arithmetic wraps at 2^64; the result is cut to an `int`, here its bit pattern.
unfoldable pub hash : ℕ → ℕ → ℕ → ℕ
hash x align seed = (x / 2 ^ align + seed) % 2 ^ 64 * 1607 % 2 ^ 64 / 2 ^ 5 % 2 ^ 32

-- `1 << pos` for an `int` with the bit pattern `pos`, widened to `uint64_t`. ISO C defines it for
-- 0 ≤ pos < 31 only; the x86 shift instruction takes the count modulo 32, and a set bit 31 is the sign.
abbrev pub int_shift : ℕ → ℕ
int_shift pos = if pos % 32 == 31 then 2 ^ 64 - 2 ^ 31 else 2 ^ (pos % 32)

-- `pos % BITSET_SZ` for a signed `int`: a negative one has the remainder of its absolute value,
-- negated, again as a bit pattern.
abbrev pub int_rem_64 : ℕ → ℕ
int_rem_64 h = if ltb h (2 ^ 31) then h % 64 else (2 ^ 32 - (2 ^ 32 - h) % 64) % 2 ^ 32

unfoldable pub bit_mask : ℕ → ℕ → ℕ → ℕ
unfolding hash
bit_mask x align i = int_shift (int_rem_64 (hash x align (i * 31)))

-- The loop with `n` rounds left, from round `i`.
unfoldable pub bf_in_from : ℕ → ℕ → Bf → ℕ → Bool
bf_in_from zero i bf x = true
bf_in_from (suc n) i bf x =
    let rest = bf_in_from n (i + 1) bf x in
    if bit_and bf.bitset (bit_mask x bf.align i) == 0 then false else rest

unfoldable pub bf_in : Bf → ℕ → Bool
unfolding bf_in_from
bf_in bf x = bf_in_from num_hashes 0 bf x

unfoldable pub bf_add_from : ℕ → ℕ → Bf → ℕ → Bf
bf_add_from zero i bf x = bf
bf_add_from (suc n) i bf x =
    bf_add_from n (i + 1) (record bf { bitset = bit_or bf.bitset (bit_mask x bf.align i) }) x

unfoldable pub bf_add : Bf → ℕ → Bf
unfolding bf_add_from
bf_add bf x = bf_add_from num_hashes 0 bf x
