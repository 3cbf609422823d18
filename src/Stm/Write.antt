-- ===== src/Stm/Write.antt =====
-- 353607/tm.c: `tm_write`.
use cs453_concurrent_algorit.Prelude.{
  ℕ, ◌+◌, ◌/◌, ◌==◌, Bool, true, false, not, Option, none, some, List, [], ◌∷◌, ◌++◌, length,
  if◌then◌else◌,
}
use cs453_concurrent_algorit.Prog.{Prog, ret, fault, get, ◌>>=◌, ◌>>◌}
use cs453_concurrent_algorit.Region.{Loc, Segment, Shared, malloc, rwlock_unlock}
use cs453_concurrent_algorit.Address.{index_from_va, offset_from_va}
use cs453_concurrent_algorit.VersionedLock.{vl_read_version}
use cs453_concurrent_algorit.Bloom.{bf_add}
use cs453_concurrent_algorit.Stm.Tx.{Tx, resized, own_write, update_ws, remove_rs}
use cs453_concurrent_algorit.Stm.Read.{too_new, abort, has_word}

-- The new entry, the filter, and the removal of the word from the read set.
abbrev pub with_write : Tx → ℕ → ℕ → Loc → Tx
with_write t v curr l = record t {
  ws = t.ws ++ record { addr = curr; value = v; place = l } ∷ [];
  ws_bloom = bf_add t.ws_bloom curr;
  rs = remove_rs l t.rs;
}

-- The source reads the entries of the read set through a pointer that may be NULL.
unfoldable pub push_ws : Tx → ℕ → ℕ → Loc → Prog Shared (Option Tx)
push_ws t v curr l = if t.rs_null then fault else ret (some (with_write t v curr l))

-- The private copy of the word, in an array that has room.
unfoldable pub store_entry : Tx → ℕ → ℕ → Loc → Prog Shared (Option Tx)
store_entry t v curr l = do made ← malloc; if made then push_ws t v curr l else abort

-- Whether the array is full comes first. When it cannot grow, `ws` is NULL, and
-- `transaction_cleanup` reads its entries after it has unlocked.
unfoldable pub add_entry : Bool → Tx → ℕ → ℕ → Loc → Prog Shared (Option Tx)
add_entry true t v curr l = do
  room ← malloc
  if room
      then store_entry (record t { ws_sz = resized t.ws_sz }) v curr l
      else (rwlock_unlock >> fault)
add_entry false t v curr l = store_entry t v curr l

unfoldable pub add_to_writeset : Tx → ℕ → ℕ → Loc → Prog Shared (Option Tx)
add_to_writeset t v curr l = add_entry (length t.ws == t.ws_sz) t v curr l

-- After the check of the version: a value for an address that may be in the write set already.
unfoldable pub write_entry : Option ℕ → Tx → ℕ → ℕ → Loc → Prog Shared (Option Tx)
write_entry (some old) t v curr l = ret (some (record t { ws = update_ws curr v t.ws }))
write_entry none t v curr l = add_to_writeset t v curr l

-- One round of the loop of `tm_write`: `v` to the word at `curr`, which stands at `l`.
unfoldable pub write_word : Option Segment → Tx → ℕ → ℕ → Loc → Prog Shared (Option Tx)
write_word seg t v curr l = if not (has_word seg l.word) then fault else (do
  version_read ← vl_read_version l
  if too_new version_read t.rv then abort else write_entry (own_write t curr) t v curr l)

unfoldable pub write_words : ℕ → Option Segment → List ℕ → Tx → ℕ → Loc → Prog Shared (Option Tx)
write_words align seg [] t curr l = ret (some t)
write_words align seg (v ∷ vs) t curr l = write_word seg t v curr l >>= λ r. elim r [
  | none ↦ ret none
  | some t' ↦ write_words align seg vs t' (curr + align) (record l { word = l.word + 1 })
]

-- `source` holds the words to write, `size / align` of them.
unfoldable pub tm_write : Tx → List ℕ → ℕ → Prog Shared (Option Tx)
tm_write t source target = do
  align ← get (λ s. s.align)
  let start : Loc = record { spot = index_from_va target; word = offset_from_va target / align }
  seg ← get (λ s. s.va_arr start.spot)
  write_words align seg source t target start
