-- ===== src/Bank.antt =====
-- grading/workload.hpp, `WorkloadBank`: the transactions of the bank, each run as a whole on the
-- segments of accounts that the shared memory holds. A list of segments stands for the chain of
-- `next` pointers, an account's place for its address. `Balance` is an integer that does not
-- overflow. The random draws of `run` are arguments.
pub mod Sums
pub mod Places
pub mod Transfers
pub mod Allocation
pub mod Checks
pub mod Counter
use cs453_concurrent_algorit.Prelude.{
  ℕ, zero, suc, ◌+◌, ◌-◌, ◌*◌, ◌==◌, ◌&&◌, Bool, true, false, not, Option, none, some, List, [],
  ◌∷◌, ltb, leb, if◌then◌else◌,
}
use cs453_concurrent_algorit.Prelude.Int.{ℤ, pos, pos_part, neg_part, ◌+ℤ◌, ◌-ℤ◌, ◌*ℤ◌, ltb_ℤ}

pub record AccountSegment : Type 0 where
  pub count : ℕ
  pub parity : ℤ
  pub accounts : ℕ → ℤ

-- A segment as `tm_create` and `tm_alloc` leave it: zeros.
abbrev pub zeroed : AccountSegment
zeroed = record { count = 0; parity = pos 0; accounts = λ _. pos 0 }

pub record WorkloadBank : Type 0 where
  pub nbaccounts : ℕ
  pub init_balance : ℤ

abbrev pub eqb_ℤ : ℤ → ℤ → Bool
eqb_ℤ a b = pos_part a + neg_part b == pos_part b + neg_part a

abbrev pub set_account : (ℕ → ℤ) → ℕ → ℤ → ℕ → ℤ
set_account f i v j = if j == i then v else f j

-- The inner loop of `long_tx`, with `n` accounts left from `i` on; `none` if one is negative.
unfoldable pub sum_accounts : (ℕ → ℤ) → ℕ → ℕ → ℤ → Option ℤ
sum_accounts accounts zero i sum = some sum
sum_accounts accounts (suc n) i sum =
    let rest = sum_accounts accounts n (i + 1) (sum +ℤ accounts i) in
    if ltb_ℤ (accounts i) (pos 0) then none else rest

-- The outer loop: the number of accounts and the sum.
unfoldable pub sum_segments : List AccountSegment → ℕ → ℤ → Option (ℕ × ℤ)
sum_segments [] count sum = some (count, sum)
sum_segments (s ∷ segments) count sum = elim (sum_accounts s.accounts s.count 0 (sum +ℤ s.parity)) [
  | none ↦ none
  | some sum' ↦ sum_segments segments (count + s.count) sum'
]

-- `long_tx`, the result and what it writes to the caller's `nbaccounts`.
unfoldable pub long_tx : WorkloadBank → List AccountSegment → ℕ → Bool × ℕ
long_tx w segments nbaccounts = elim (sum_segments segments 0 (pos 0)) [
  | none ↦ (false, nbaccounts)
  | some (count, sum) ↦ (eqb_ℤ sum (w.init_balance *ℤ pos count), count)
]

-- What `alloc_tx` makes of the last segment: it stays, with a new one after it perhaps, or it is freed
-- and its parity goes to the segment before it.
pub data Last : Type 0 where
  kept : List AccountSegment → Last
  freed : ℤ → Last

-- The destruction of the last of `n` accounts. The number is not 0 in the source.
abbrev pub remove_last : WorkloadBank → AccountSegment → ℕ → Option Last
remove_last w s zero = none
remove_last w s (suc n) =
    let new_parity = s.parity +ℤ s.accounts n -ℤ w.init_balance in
    if ltb 0 n
    then some (kept (record s { count = n; parity = new_parity } ∷ []))
    else some (freed new_parity)

unfoldable pub remove_account : WorkloadBank → AccountSegment → Option Last
remove_account w s = remove_last w s s.count

unfoldable pub add_account : WorkloadBank → AccountSegment → Last
add_account w s =
    if ltb s.count w.nbaccounts
    then kept (
        record s { accounts = set_account s.accounts s.count w.init_balance; count = s.count + 1 }
        ∷ [])
    else kept (
        s
        ∷ record zeroed { count = 1; accounts = set_account zeroed.accounts 0 w.init_balance }
        ∷ [])

-- Back at the segment before.
abbrev pub alloc_prev : AccountSegment → Option Last → Option Last
alloc_prev s none = none
alloc_prev s (some (kept l)) = some (kept (s ∷ l))
alloc_prev s (some (freed p)) = some (kept (record s { parity = s.parity +ℤ p } ∷ []))

-- The walk to the last segment. `none` for an access that the source does not guard.
unfoldable pub alloc_walk : WorkloadBank → ℕ → ℕ → List AccountSegment → Option Last
alloc_walk w trigger count [] = none
alloc_walk w trigger count (s ∷ []) =
    if ltb trigger (count + s.count) && ltb 2 (count + s.count)
    then remove_account w s
    else some (add_account w s)
alloc_walk w trigger count (s ∷ t ∷ segments) =
    alloc_prev s (alloc_walk w trigger (count + s.count) (t ∷ segments))

-- `none` also for the exception `TransactionNotLastSegment`.
abbrev pub alloc_end : Option Last → Option (List AccountSegment)
alloc_end none = none
alloc_end (some (kept l)) = some l
alloc_end (some (freed p)) = none

unfoldable pub alloc_tx : WorkloadBank → ℕ → List AccountSegment → Option (List AccountSegment)
alloc_tx w trigger segments = alloc_end (alloc_walk w trigger 0 segments)

-- The address of an account: its segment and its index there.
pub record Place : Type 0 where
  pub segment : ℕ
  pub index : ℕ

-- An account that was found, or what is left of its number.
pub data Search : Type 0 where
  found : Place → Search
  looking : ℕ → Search

abbrev pub probe : ℕ → ℕ → Search → Search
probe k n (found p) = found p
probe k n (looking id) =
    if ltb id n then found (record { segment = k; index = id }) else looking (id - n)

abbrev pub both_found : Search → Search → Option (Place × Place)
both_found (found p) (found q) = some (p, q)
both_found (found p) (looking id) = none
both_found (looking id) r = none

-- The loop of `short_tx` over the segments, the first of them being segment `k`.
unfoldable pub find_accounts : ℕ → List AccountSegment → Search → Search → Option (Place × Place)
find_accounts k [] send recv = none
find_accounts k (s ∷ segments) send recv =
    elim (both_found (probe k s.count send) (probe k s.count recv)) [
      | some pair ↦ some pair
      | none ↦ find_accounts (k + 1) segments (probe k s.count send) (probe k s.count recv)
    ]

unfoldable pub read_account : List AccountSegment → ℕ → ℕ → ℤ
read_account [] k i = pos 0
read_account (s ∷ segments) zero i = s.accounts i
read_account (s ∷ segments) (suc k) i = read_account segments k i

unfoldable pub write_account : List AccountSegment → ℕ → ℕ → ℤ → List AccountSegment
write_account [] k i v = []
write_account (s ∷ segments) zero i v =
    record s { accounts = set_account s.accounts i v } ∷ segments
write_account (s ∷ segments) (suc k) i v = s ∷ write_account segments k i v

-- One unit from the first account to the second, which may be the same.
unfoldable pub transfer : List AccountSegment → Place → Place → List AccountSegment
transfer segments p q =
    let send_val = read_account segments p.segment p.index in
    let sent = write_account segments p.segment p.index (send_val -ℤ pos 1) in
    let recv_val = read_account sent q.segment q.index in
    if ltb_ℤ (pos 0) send_val
    then write_account sent q.segment q.index (recv_val +ℤ pos 1)
    else segments

-- The end of `short_tx`, for the accounts that were found.
abbrev pub short_end : List AccountSegment → Option (Place × Place) → Bool × List AccountSegment
short_end segments none = (false, segments)
short_end segments (some (p, q)) = (true, transfer segments p q)

unfoldable pub short_tx : List AccountSegment → ℕ → ℕ → Bool × List AccountSegment
short_tx segments send_id recv_id =
    short_end segments (find_accounts 0 segments (looking send_id) (looking recv_id))

-- The first transaction of `init`, the loop included.
abbrev pub fill_accounts : ℤ → ℕ → ℕ → (ℕ → ℤ) → ℕ → ℤ
fill_accounts v zero i f = f
fill_accounts v (suc n) i f = fill_accounts v n (i + 1) (set_account f i v)

unfoldable pub init_tx : WorkloadBank → AccountSegment → AccountSegment
init_tx w s = record s {
  count = w.nbaccounts;
  accounts = fill_accounts w.init_balance w.nbaccounts 0 s.accounts;
}

-- Whether `init` finds no fault, and the segments that it leaves.
unfoldable pub init : WorkloadBank → Bool × List AccountSegment
init w = let s = init_tx w zeroed in (eqb_ℤ (s.accounts 0) w.init_balance, s ∷ [])

-- The transactions among which `run` draws.
pub data Draw : Type 0 where
  long : Draw
  alloc : ℕ → Draw
  short : ℕ → ℕ → Draw

-- One transaction of any worker; `none` when a check fails or an exception is thrown.
unfoldable pub run_draw : WorkloadBank → Draw → List AccountSegment → Option (List AccountSegment)
run_draw w long segments = if (long_tx w segments 0).0 then some segments else none
run_draw w (alloc trigger) segments = alloc_tx w trigger segments
run_draw w (short send_id recv_id) segments = some (short_tx segments send_id recv_id).1

-- The transactions of all workers, in the order in which they take effect.
unfoldable pub run_draws :
    WorkloadBank → List Draw → List AccountSegment → Option (List AccountSegment)
run_draws w [] segments = some segments
run_draws w (d ∷ draws) segments = elim (run_draw w d segments) [
  | none ↦ none
  | some segments' ↦ run_draws w draws segments'
]
