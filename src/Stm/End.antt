-- ===== src/Stm/End.antt =====
-- 353607/tm.c: `tm_end`, the commit.
pub mod Locks
pub mod Sort
pub mod Acquire
pub mod Frees
pub mod Result
pub mod Progress
use cs453_concurrent_algorit.Prelude.{
  ℕ, zero, suc, ◌+◌, ◌==◌, ◌||◌, Bool, true, false, not, Option, none, some, List, [], ◌∷◌, ◌++◌,
  length, is_nil, ltb, leb, if◌then◌else◌,
}
use cs453_concurrent_algorit.Prog.{Prog, act, ret, fault, atomic, get, modify, ◌>>=◌, ◌>>◌}
use cs453_concurrent_algorit.Region.{
  Loc, Shared, store, malloc, rwlock_unlock, rwlock_wrlock, to_free_lock, to_free_unlock,
}
use cs453_concurrent_algorit.VersionedLock.{
  vl_try_lock, vl_unlock, vl_unlock_update, vl_read_version,
}
use cs453_concurrent_algorit.Stm.Tx.{Tx, WsItem, RsItem, resized, free_batchsize, ws_sort}
use cs453_concurrent_algorit.Stm.Cleanup.{delete_segments, transaction_cleanup}
use cs453_concurrent_algorit.Stm.Read.{too_new}

unfoldable pub unlock_all : List WsItem → Prog Shared (Unit {0})
unlock_all [] = ret tt
unlock_all (w ∷ ws) = vl_unlock w.place >>= λ _. unlock_all ws

-- Locks the items in order. At the first that cannot be locked the ones before it, `done`, are
-- unlocked again.
unfoldable pub lock_all : ℕ → List WsItem → List WsItem → Prog Shared Bool
lock_all rv done [] = ret true
lock_all rv done (w ∷ ws) = vl_try_lock w.place rv >>= λ ok.
    let rest = lock_all rv (done ++ w ∷ []) ws in
    if ok then rest else (do unlock_all done; ret false)

-- One entry of the read set, and `rest` after it.
unfoldable pub validate_item : ℕ → Option Loc → Prog Shared Bool → Prog Shared Bool
validate_item rv none rest = rest
validate_item rv (some l) rest = vl_read_version l >>= λ v. if too_new v rv then ret false else rest

unfoldable pub validate : ℕ → List RsItem → Prog Shared Bool
validate rv [] = ret true
validate rv (r ∷ rs) = validate_item rv r.versioned_lock (validate rv rs)

unfoldable pub write_back : ℕ → List WsItem → Prog Shared (Unit {0})
write_back wv [] = ret tt
write_back wv (w ∷ ws) = do
  modify (λ s. record s { words = store s.words w.place w.value })
  vl_unlock_update w.place wv
  write_back wv ws

-- One entry more in the shared buffer, which grows first when it is nearly full.
abbrev pub push_to_free : ℕ → Shared → Shared
push_to_free spot s = record s {
  to_free = s.to_free ++ spot ∷ [];
  to_free_sz =
      if leb s.to_free_sz (length s.to_free + 1) then resized s.to_free_sz else s.to_free_sz;
}

-- Under the mutex. The result of `realloc` is not tested.
unfoldable pub push_one : ℕ → Prog Shared (Unit {0})
push_one spot = do
  full ← get (λ s. leb s.to_free_sz (length s.to_free + 1))
  ok ← (if full then malloc else ret true)
  if ok then modify (push_to_free spot) else fault

unfoldable pub push_all : List ℕ → Prog Shared (Unit {0})
push_all [] = ret tt
push_all (spot ∷ spots) = push_one spot >>= λ _. push_all spots

unfoldable pub hand_over_frees : List ℕ → Prog Shared (Unit {0})
hand_over_frees [] = ret tt
hand_over_frees (spot ∷ spots) = do to_free_lock; push_all (spot ∷ spots); to_free_unlock

-- Under the cleanup lock, as its writer.
unfoldable pub free_spots : List ℕ → Prog Shared (Unit {0})
free_spots spots = do delete_segments spots; modify (λ s. record s { to_free = [] }); rwlock_unlock

-- The test reads the count without a lock.
unfoldable pub free_batch : Prog Shared (Unit {0})
free_batch = do
  n ← get (λ s. length s.to_free)
  if leb free_batchsize n then (rwlock_wrlock >> (get (λ s. s.to_free) >>= free_spots)) else ret tt

-- The read set is checked unless no other transaction has committed since this one began.
unfoldable pub check_reads : Tx → ℕ → Prog Shared Bool
check_reads t wv =
    if t.rv + 1 == wv then ret true else if t.rs_null then fault else validate t.rv t.rs

unfoldable pub checked : List WsItem → ℕ → Bool → Prog Shared (Option ℕ)
checked ws wv true = ret (some wv)
checked ws wv false = do unlock_all ws; ret none

-- With every item locked: the clock and the validation.
unfoldable pub advance : Tx → List WsItem → Bool → Prog Shared (Option ℕ)
advance t ws false = ret none
advance t ws true = do
  old ← atomic (λ s. record s { global_version = s.global_version + 1 }) (λ s. s.global_version)
  check_reads t (old + 1) >>= checked ws (old + 1)

-- Everything between the sort and the write-back: the version to write, or `none` if the
-- transaction aborts.
unfoldable pub acquire : Tx → List WsItem → Prog Shared (Option ℕ)
acquire t ws = lock_all t.rv [] ws >>= advance t ws

unfoldable pub commit : Tx → List WsItem → ℕ → Prog Shared Bool
commit t ws wv = do
  write_back wv ws
  hand_over_frees t.to_free
  rwlock_unlock
  free_batch
  transaction_cleanup false
  ret true

unfoldable pub finish : Tx → List WsItem → Option ℕ → Prog Shared Bool
finish t ws none = do transaction_cleanup true; ret false
finish t ws (some wv) = commit t ws wv

unfoldable pub tm_end : Tx → Prog Shared Bool
tm_end t =
    if t.is_ro || is_nil t.ws
    then (do rwlock_unlock; transaction_cleanup false; ret true)
    else (acquire t (ws_sort t.ws) >>= finish t (ws_sort t.ws))
