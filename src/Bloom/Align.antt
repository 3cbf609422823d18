-- ===== src/Bloom/Align.antt =====
-- The shift that `bf_init` derives from the alignment.
use native.Mathlib.Nat.{pow-le-pow_right}
use cs453_concurrent_algorit.Prelude.{
  ℕ, zero, suc, ◌+◌, ◌≤◌, ◌<◌, ◌≡◌, refl, ◌^◌, ◌⊎◌, inl, inr, Bool-cases, leb, leb→le, arith, false,
  dec_lt,
}
use cs453_concurrent_algorit.Bloom.{Bf, bf_init, bf_init_from}

-- Among `n` powers from `2 ^ i` on: the first that reaches `align`, or the old value if none does.
abbrev FirstPower : ℕ → ℕ → ℕ → ℕ → ℕ → Type 0
FirstPower n i align old r =
    ((align ≤ 2 ^ r) × (i ≤ r) × (r < i + n) × ((j : ℕ) → i ≤ j → j < r → 2 ^ j < align))
    ⊎ ((r ≡ old) × ((j : ℕ) → i ≤ j → j < i + n → 2 ^ j < align))

leb-false : (a b : ℕ) → leb a b ≡ false → b < a
leb-false a b h = ground arith

-- One more round in front.
FirstPower-earlier :
    (n i align old r : ℕ)
    → 2 ^ i < align
    → FirstPower n (i + 1) align old r
    → FirstPower (suc n) i align old r
FirstPower-earlier n i align old r below (inl (fits, from, to, least)) = inl (
  fits,
  omega arith,
  omega arith,
  λ j a b. elim (dec_lt i j) [
    | yes later ↦ least j (omega arith) b
    | no now ↦ let e : j ≡ i = omega arith in rw e below
  ],
)
FirstPower-earlier n i align old r below (inr (e, least)) = inr (
  e,
  λ j a b. elim (dec_lt i j) [
    | yes later ↦ least j (omega arith) (omega arith)
    | no now ↦ let e : j ≡ i = omega arith in rw e below
  ],
)

bf_init_from-FirstPower :
    (n i align old : ℕ) → FirstPower n i align old (bf_init_from n i align old)
unfolding bf_init_from
bf_init_from-FirstPower zero i align old = inr (refl, λ j a b. absurd (omega arith))
bf_init_from-FirstPower (suc n) i align old = elim (Bool-cases (leb align (2 ^ i))) [
  | inl hit ↦ rw hit (inl (leb→le _ _ hit, omega arith, omega arith, λ j a b. absurd (omega arith)))
  | inr miss ↦ rw miss (
      FirstPower-earlier n i align old _ (leb-false _ _ miss)
        (bf_init_from-FirstPower n (i + 1) align old))
]

-- For an alignment up to 2^15, `bf_init` stores the least exponent whose power of two reaches it; for
-- a larger one it leaves the field as it was in memory.
pub bf_init_lem :
    (old : Bf) (align : ℕ)
    → let r = (bf_init old align).align in
      (align ≤ 2 ^ 15 → (align ≤ 2 ^ r) × ((j : ℕ) → j < r → 2 ^ j < align))
      × (2 ^ 15 < align → r ≡ old.align)
unfolding bf_init
bf_init_lem old align = elim (bf_init_from-FirstPower 16 0 align old.align) [
  | inl (fits, from, to, least) ↦ (
    λ small. (fits, λ j b. least j (omega arith) b),
    λ large. absurd (omega (arith, pow-le-pow_right {n = 2} (omega arith) (bound to))),
  )
  | inr (e, least) ↦
      (λ small. absurd (omega (arith, least 15 (omega arith) (omega arith))), λ large. e)
]
  where
    bound : {r : ℕ} → r < 0 + 16 → r ≤ 15
    bound h = omega arith
