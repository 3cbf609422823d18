-- ===== src/Stm/Read.antt =====
-- 353607/tm.c: `tm_read`, `ro_transaction_read` and the read set.
use cs453_concurrent_algorit.Prelude.{
  ℕ, zero, suc, ◌+◌, ◌-◌, ◌*◌, ◌/◌, ◌%◌, ◌^◌, ◌==◌, ◌&&◌, Bool, true, false, not, Option, none,
  some, List, [], ◌∷◌, ◌++◌, length, ltb, leb, if◌then◌else◌,
}
use cs453_concurrent_algorit.Prog.{Prog, ret, fault, get, ◌>>=◌, ◌>>◌}
use cs453_concurrent_algorit.Region.{Loc, Segment, Shared, malloc}
use cs453_concurrent_algorit.Address.{index_from_va, offset_from_va}
use cs453_concurrent_algorit.VersionedLock.{vl_read_version}
use cs453_concurrent_algorit.Stm.Tx.{Tx, RsItem, resized, own_write, in_rs}
use cs453_concurrent_algorit.Stm.Cleanup.{transaction_cleanup}

-- `version_read == -1 || version_read > rv`
abbrev pub too_new : Option ℕ → ℕ → Bool
too_new none rv = true
too_new (some v) rv = ltb rv v

-- `version_read == other`, for two results of `vl_read_version`
abbrev pub same_version : Option ℕ → Option ℕ → Bool
same_version none none = true
same_version none (some w) = false
same_version (some v) none = false
same_version (some v) (some w) = v == w

-- `transaction_cleanup(tm, transaction, true); return false;`
unfoldable pub abort : {A : Type 0} → Prog Shared (Option A)
abort = do transaction_cleanup true; ret none

abbrev pub push_rs : Tx → Loc → ℕ → Tx
push_rs t l v = record t { rs = t.rs ++ record { version_read = v; versioned_lock = some l } ∷ [] }

-- The append, with the `realloc` before it when the buffer is full.
unfoldable pub grow_rs : Tx → Loc → ℕ → Prog Shared (Bool × Tx)
grow_rs t l v = if ltb (length t.rs) t.rs_sz then ret (true, push_rs t l v) else (do
  ok ← malloc
  let grown : Tx = record t { rs_sz = resized t.rs_sz }
  if ok then ret (true, push_rs grown l v) else ret (false, record grown { rs_null = true }))

-- A read-write transaction looks for the lock first, through a pointer that may be NULL.
unfoldable pub add_to_readset : Tx → Loc → ℕ → Prog Shared (Bool × Tx)
add_to_readset t l v =
    if t.is_ro
    then grow_rs t l v
    else if t.rs_null
    then fault
    else if in_rs l t.rs
    then ret (true, t)
    else grow_rs t l v

-- The versions are those of the first reads; an entry of a read-only transaction is never NULL.
unfoldable pub revalidate_sets : List RsItem → Prog Shared Bool
revalidate_sets [] = ret true
revalidate_sets (r ∷ rs) = elim r.versioned_lock [
  | none ↦ fault
  | some l ↦ vl_read_version l >>= λ v.
      let rest = revalidate_sets rs in
      if same_version v (some r.version_read) then rest else ret false
]

-- `s->locks[i]` through a segment that may be NULL, or past its end; an `i` that is negative, from 2^31
-- on, is past the end too.
abbrev pub has_word : Option Segment → ℕ → Bool
has_word none i = false
has_word (some g) i = ltb i g.num_words

-- The end of a round of `tm_read`, which does not look at what `add_to_readset` returns.
unfoldable pub record_read : Tx → Loc → ℕ → ℕ → Prog Shared (Option (Tx × ℕ))
record_read t l v value = do added ← add_to_readset t l v; ret (some (added.1, value))

-- A number of type `int` is its bit pattern, below 2^32. This one is the `int` that a `size_t` is
-- made into.
abbrev pub int_of : ℕ → ℕ
int_of n = n % 2 ^ 32

-- Whether a product of two `int`s that are not negative is an `int`; else it is undefined.
abbrev pub fits_int : ℕ → Bool
fits_int n = ltb n (2 ^ 31)

-- The division of an `int` by a positive one, which rounds towards 0.
abbrev pub int_div : ℕ → ℕ → ℕ
int_div n d = if fits_int n then n / d else (2 ^ 32 - (2 ^ 32 - n) / d) % 2 ^ 32

-- `start_word`, of an `int offset`
abbrev pub start_word : ℕ → ℕ → ℕ
start_word align source = int_div (int_of (offset_from_va source)) align

-- The place of the next word: an `int` one higher.
abbrev pub next_place : Loc → Loc
next_place l = record l { word = int_of (l.word + 1) }

-- The copy of a word whose version was `v`, and the second look at the version. The offset of the word
-- in the segment, `(start_word + i) * align`, is an `int`.
unfoldable pub read_versioned : ℕ → Tx → Loc → ℕ → Prog Shared (Option (Tx × ℕ))
read_versioned align t l v = if not (fits_int (l.word * align)) then fault else (do
  value ← get (λ s. s.words l)
  again ← vl_read_version l
  if not (same_version again (some v)) then abort else record_read t l v value)

-- After the first look at the version.
unfoldable pub read_after : ℕ → Tx → Loc → Option ℕ → Prog Shared (Option (Tx × ℕ))
read_after align t l none = abort
read_after align t l (some v) = if too_new (some v) t.rv then abort else read_versioned align t l v

unfoldable pub read_shared : ℕ → Option Segment → Tx → Loc → Prog Shared (Option (Tx × ℕ))
read_shared align seg t l =
    if not (has_word seg l.word) then fault else (vl_read_version l >>= read_after align t l)

-- One round of the loop of `tm_read`: the word at `curr`, which stands at `l`.
unfoldable pub read_word : ℕ → Option Segment → Tx → ℕ → Loc → Prog Shared (Option (Tx × ℕ))
read_word align seg t curr l = elim (own_write t curr) [
  | some v ↦ ret (some (t, v))
  | none ↦ read_shared align seg t l
]

-- The words at `source + bytes`, …, with `n` rounds left. In round `i`, `bytes` is `i * align`, which
-- is an `int`.
unfoldable pub read_words :
    ℕ → Option Segment → ℕ → ℕ → Tx → ℕ → Loc → Prog Shared (Option (Tx × List ℕ))
read_words align seg zero bytes t source l = ret (some (t, []))
read_words align seg (suc n) bytes t source l =
    if not (fits_int bytes)
    then fault
    else (read_word align seg t (source + bytes) l >>= λ r. elim r [
      | none ↦ ret none
      | some (t', v) ↦ read_words align seg n (bytes + align) t' source (next_place l) >>= λ q.
          ret (elim q [ none ↦ none | some (t'', vs) ↦ some (t'', v ∷ vs) ])
    ])

-- The first loop of `ro_transaction_read`: the versions, or `none` if a word is locked.
unfoldable pub versions : ℕ → Loc → Prog Shared (Option (List ℕ))
versions zero l = ret (some [])
versions (suc n) l = vl_read_version l >>= λ r. elim r [
  | none ↦ ret none
  | some v ↦ versions n (record l { word = l.word + 1 }) >>= λ q.
      ret (elim q [ none ↦ none | some vs ↦ some (v ∷ vs) ])
]

-- `memcpy` of `n` words. A word is read at once; other threads may write between two words.
unfoldable pub copy_words : ℕ → Loc → Prog Shared (List ℕ)
copy_words zero l = ret []
copy_words (suc n) l = get (λ s. s.words l) >>= λ v.
    copy_words n (record l { word = l.word + 1 }) >>= λ vs. ret (v ∷ vs)

-- The extension of the snapshot when a version is beyond it: the clock is read before the read set
-- is checked again.
abbrev pub extended : Tx → ℕ → Bool → Option Tx
extended t next_rv valid = if valid then some (record t { rv = next_rv }) else none

unfoldable pub extend_to : Tx → ℕ → Prog Shared (Option Tx)
extend_to t next_rv = do valid ← revalidate_sets t.rs; ret (extended t next_rv valid)

unfoldable pub extend_rv : Tx → ℕ → Prog Shared (Option Tx)
extend_rv t prev =
    if ltb t.rv prev then (get (λ s. s.global_version) >>= extend_to t) else ret (some t)

-- The end of a round of `ro_transaction_read`.
unfoldable pub record_ro_read : Tx → Loc → ℕ → Prog Shared (Option Tx)
record_ro_read t l prev = do
  added ← add_to_readset t l prev
  if added.0 then ret (some added.1) else abort

unfoldable pub validated : Loc → ℕ → Option Tx → Prog Shared (Option Tx)
validated l prev none = abort
validated l prev (some t) = record_ro_read t l prev

-- One round of the second loop, for a word whose version was `prev`.
unfoldable pub post_validate : Tx → Loc → ℕ → Prog Shared (Option Tx)
post_validate t l prev = do
  version_read ← vl_read_version l
  if not (same_version version_read (some prev))
      then abort
      else (extend_rv t prev >>= validated l prev)

unfoldable pub post_validate_all : Tx → Loc → List ℕ → Prog Shared (Option Tx)
post_validate_all t l [] = ret (some t)
post_validate_all t l (prev ∷ prevs) = post_validate t l prev >>= λ r. elim r [
  | none ↦ ret none
  | some t' ↦ post_validate_all t' (record l { word = l.word + 1 }) prevs
]

-- The copy and the second loop, after the versions.
unfoldable pub ro_copy : Tx → Loc → ℕ → Option (List ℕ) → Prog Shared (Option (Tx × List ℕ))
ro_copy t start n none = abort
ro_copy t start n (some prev) = do
  values ← copy_words n start
  valid ← post_validate_all t start prev
  ret (elim valid [ none ↦ none | some t' ↦ some (t', values) ])

-- With the segment at hand. The `assert` of the source faults.
unfoldable pub ro_read_segment :
    Tx → Loc → ℕ → ℕ → ℕ → Option Segment → Prog Shared (Option (Tx × List ℕ))
ro_read_segment t start n offset size none = fault
ro_read_segment t start n offset size (some g) =
    if not (ltb 0 n && leb (offset + size) g.size)
    then fault
    else (versions n start >>= ro_copy t start n)

unfoldable pub ro_transaction_read : ℕ → Tx → ℕ → ℕ → Prog Shared (Option (Tx × List ℕ))
ro_transaction_read align t source size =
    let offset = offset_from_va source in
    let start : Loc = record { spot = index_from_va source; word = offset / align } in
    get (λ s. s.va_arr start.spot) >>= ro_read_segment t start (size / align) offset size

unfoldable pub rw_transaction_read : ℕ → Tx → ℕ → ℕ → Prog Shared (Option (Tx × List ℕ))
rw_transaction_read align t source size =
    let start : Loc = record { spot = index_from_va source; word = start_word align source } in
    get (λ s. s.va_arr start.spot) >>= λ seg. read_words align seg (size / align) 0 t source start

unfoldable pub tm_read : Tx → ℕ → ℕ → Prog Shared (Option (Tx × List ℕ))
tm_read t source size = do
  align ← get (λ s. s.align)
  if t.is_ro
      then ro_transaction_read align t source size
      else rw_transaction_read align t source size
