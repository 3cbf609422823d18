-- ===== src/Stm/Tx.antt =====
-- 353607/tm.c: `struct tx_s`, its read set and write set, and what works on them alone.
use cs453_concurrent_algorit.Prelude.{
  ℕ, ◌+◌, ◌-◌, ◌*◌, ◌/◌, ◌%◌, ◌^◌, ◌==◌, Bool, true, false, Option, none, some, List, [], ◌∷◌, ltb,
  if◌then◌else◌,
}
use cs453_concurrent_algorit.Bloom.{Bf, bf_in}
use cs453_concurrent_algorit.Region.{Loc, loc_eq}

abbrev pub va_size : ℕ
va_size = 65536

abbrev pub vec_initial : ℕ
vec_initial = 8

abbrev pub free_batchsize : ℕ
free_batchsize = 128

-- `n *= RESIZE_FACTOR` for an `int`: a product in `double` with 1.2, cut to an integer.
abbrev pub resized : ℕ → ℕ
resized n = n * 6 / 5

-- `versioned_lock` is `none` once the entry has been taken out.
pub record RsItem : Type 0 where
  pub version_read : ℕ
  pub versioned_lock : Option Loc

-- `raw_addr` and `versioned_lock` point at one place of the two arrays of a segment: `place`.
pub record WsItem : Type 0 where
  pub addr : ℕ
  pub value : ℕ
  pub place : Loc

pub record Tx : Type 0 where
  pub rv : ℕ
  pub is_ro : Bool
  pub ws : List WsItem
  pub ws_sz : ℕ
  pub ws_bloom : Bf
  -- whether `rs` is NULL, after a `realloc` that failed
  pub rs_null : Bool
  pub rs : List RsItem
  pub rs_sz : ℕ
  pub to_free : List ℕ

-- The sign of an `int`: the difference of two addresses, cut to 32 bits.
pub data Sign : Type 0 where
  negative nil positive : Sign

abbrev sign_of : ℕ → Sign
sign_of d = if d == 0 then Sign.nil else if ltb d (2 ^ 31) then Sign.positive else Sign.negative

unfoldable pub ws_item_cmp : WsItem → WsItem → Sign
ws_item_cmp a b = sign_of ((a.addr + 2 ^ 64 - b.addr) % 2 ^ 64 % 2 ^ 32)

unfoldable pub ws_insert : WsItem → List WsItem → List WsItem
ws_insert a [] = a ∷ []
ws_insert a (b ∷ bs) = elim (ws_item_cmp a b) [
  | Sign.positive ↦ b ∷ ws_insert a bs
  | _ ↦ a ∷ b ∷ bs
]

-- `qsort(t->ws, …, ws_item_cmp)`, as a stable sort by insertion. The proofs rest on its being a
-- permutation only.
unfoldable pub ws_sort : List WsItem → List WsItem
ws_sort [] = []
ws_sort (a ∷ ws) = ws_insert a (ws_sort ws)

-- The first entry of the write set at an address.
unfoldable pub find_ws : ℕ → List WsItem → Option ℕ
find_ws addr [] = none
find_ws addr (w ∷ ws) = if w.addr == addr then some w.value else find_ws addr ws

unfoldable pub update_ws : ℕ → ℕ → List WsItem → List WsItem
update_ws addr v [] = []
update_ws addr v (w ∷ ws) =
    if w.addr == addr then record w { value = v } ∷ ws else w ∷ update_ws addr v ws

-- The value that the transaction itself has written: the filter first, then the search.
unfoldable pub own_write : Tx → ℕ → Option ℕ
unfolding find_ws
own_write t addr = if bf_in t.ws_bloom addr then find_ws addr t.ws else none

abbrev pub points_to : Loc → RsItem → Bool
points_to l r = elim r.versioned_lock [ none ↦ false | some m ↦ loc_eq m l ]

unfoldable pub in_rs : Loc → List RsItem → Bool
in_rs l [] = false
in_rs l (r ∷ rs) = if points_to l r then true else in_rs l rs

-- Takes the first entry for `l` out of the read set, leaving NULL.
unfoldable pub remove_rs : Loc → List RsItem → List RsItem
remove_rs l [] = []
remove_rs l (r ∷ rs) =
    if points_to l r then record r { versioned_lock = none } ∷ rs else r ∷ remove_rs l rs
