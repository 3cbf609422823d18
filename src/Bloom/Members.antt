-- ===== src/Bloom/Members.antt =====
-- What has been added is found: the filter has no false negatives.
use native.Mathlib.Nat.{one-le-pow, le_trans, le_refl}
use cs453_concurrent_algorit.Prelude.{
  ℕ, zero, suc, ◌+◌, ◌*◌, ◌≤◌, ◌<◌, ◌≡◌, refl, true, List, [], ◌∷◌, ◌++◌, bit_and, bit_or, arith,
  ◌%◌,
}
use cs453_concurrent_algorit.Prelude.Bits.{bit_and-or_left, bit_and-or_right}
use cs453_concurrent_algorit.Bloom.{
  Bf, bf_in, bf_in_from, bf_add, bf_add_from, bit_mask, int_shift, int_rem_64, hash, num_hashes,
}

int_shift_pos : (pos : ℕ) → 0 < int_shift pos
int_shift_pos pos = ground (arith, one-le-pow (pos % 32) 2 (omega arith))

bit_mask_pos : (x align i : ℕ) → 0 < bit_mask x align i
unfolding bit_mask
bit_mask_pos x align i = int_shift_pos (int_rem_64 (hash x align (i * 31)))

-- The second filter has every bit of the first.
abbrev Covers : Bf → Bf → Type 0
Covers a b = (b.align ≡ a.align) × ((m : ℕ) → bit_and a.bitset m ≤ bit_and b.bitset m)

bf_add_from-Covers : (n i : ℕ) (bf : Bf) (x : ℕ) → Covers bf (bf_add_from n i bf x)
unfolding bf_add_from
bf_add_from-Covers zero i bf x = (refl, λ m. le_refl _)
bf_add_from-Covers (suc n) i bf x =
    let (same, more) = bf_add_from-Covers n (i + 1) _ x in
    (same, λ m. le_trans (bit_and-or_left bf.bitset (bit_mask x bf.align i) m) (more m))

bf_in_from-Covers :
    (n i : ℕ) (a b : Bf) (x : ℕ)
    → Covers a b
    → bf_in_from n i a x ≡ true
    → bf_in_from n i b x ≡ true
unfolding bf_in_from
bf_in_from-Covers zero i a b x c h = refl
bf_in_from-Covers (suc n) i a b x c h =
    ground (arith, c.1 (bit_mask x a.align i), bf_in_from-Covers n (i + 1) a b x c)

bf_in-add_from : (n i : ℕ) (bf : Bf) (x : ℕ) → bf_in_from n i (bf_add_from n i bf x) x ≡ true
unfolding bf_in_from bf_add_from
bf_in-add_from zero i bf x = refl
bf_in-add_from (suc n) i bf x = ground (
  arith,
  bf_in-add_from n (i + 1) set x,
  same,
  more mask,
  bit_and-or_right bf.bitset mask,
  bit_mask_pos x bf.align i,
)
  where
    mask : ℕ
    mask = bit_mask x bf.align i

    set : Bf
    set = record bf { bitset = bit_or bf.bitset mask }

    same : (bf_add_from n (i + 1) set x).align ≡ bf.align
    same = (bf_add_from-Covers n (i + 1) set x).0

    more : (m : ℕ) → bit_and set.bitset m ≤ bit_and (bf_add_from n (i + 1) set x).bitset m
    more = (bf_add_from-Covers n (i + 1) set x).1

pub bf_in-add_self : (bf : Bf) (x : ℕ) → bf_in (bf_add bf x) x ≡ true
unfolding bf_in bf_add
bf_in-add_self bf x = bf_in-add_from num_hashes 0 bf x

pub bf_in-add_keep : (bf : Bf) (x y : ℕ) → bf_in bf x ≡ true → bf_in (bf_add bf y) x ≡ true
unfolding bf_in bf_add
bf_in-add_keep bf x y h =
    bf_in_from-Covers num_hashes 0 bf _ x (bf_add_from-Covers num_hashes 0 bf y) h

abbrev pub add_all : Bf → List ℕ → Bf
add_all bf [] = bf
add_all bf (x ∷ xs) = add_all (bf_add bf x) xs

bf_in-add_all_keep :
    (bf : Bf) (x : ℕ) (xs : List ℕ) → bf_in bf x ≡ true → bf_in (add_all bf xs) x ≡ true
bf_in-add_all_keep bf x [] h = h
bf_in-add_all_keep bf x (y ∷ ys) h = bf_in-add_all_keep (bf_add bf y) x ys (bf_in-add_keep bf x y h)

-- An address that was added to a filter is found in it, whatever other addresses were added before
-- and after it.
pub bf_in-add_all :
    (bf : Bf) (before after : List ℕ) (x : ℕ) → bf_in (add_all bf (before ++ x ∷ after)) x ≡ true
bf_in-add_all bf [] after x = bf_in-add_all_keep (bf_add bf x) x after (bf_in-add_self bf x)
bf_in-add_all bf (y ∷ before) after x = bf_in-add_all (bf_add bf y) before after x
