-- ===== src/Stm/WriteSet.antt =====
-- 353607/tm.c, the write set: an overlay of addresses over the shared memory, private to the
-- transaction.
pub mod Words
pub mod Calls
pub mod ReadOwn
use cs453_concurrent_algorit.Prelude.{
  ℕ, zero, suc, ◌+◌, ◌*◌, ◌/◌, ◌≤◌, ◌<◌, ◌==◌, ◌≡◌, refl, sym, ◌∙◌, Bool, true, false, Option, none,
  some, List, [], ◌∷◌, ◌++◌, length, All, All-map, All-append, arith, Bool-cases, Option-cases, inl,
  inr, if◌then◌else◌,
}
use cs453_concurrent_algorit.Bloom.{bf_in, bf_add}
use cs453_concurrent_algorit.Bloom.Members.{bf_in-add_self, bf_in-add_keep}
use cs453_concurrent_algorit.Region.{Loc}
use cs453_concurrent_algorit.Stm.Tx.{
  Tx, WsItem, find_ws, update_ws, own_write, vec_initial, resized,
}

-- The filter knows every address of the write set, and the array has room for its entries.
pub record IsSound (t : Tx) : Type 0 where
  pub filtered : All (λ w. bf_in t.ws_bloom w.addr ≡ true) t.ws
  pub fits : length t.ws ≤ t.ws_sz
  pub grows : vec_initial ≤ t.ws_sz

find_ws-filtered :
    (addr : ℕ) (ws : List WsItem) (known : ℕ → Bool) {v : ℕ}
    → All (λ w. known w.addr ≡ true) ws
    → find_ws addr ws ≡ some v
    → known addr ≡ true
unfolding find_ws
find_ws-filtered addr [] known h e = cc
find_ws-filtered addr (w ∷ ws) known {v} h e = elim (Bool-cases (w.addr == addr)) [
  | inl hit ↦ let same : w.addr ≡ addr = ground arith in rw (← same) h.0
  | inr miss ↦ find_ws-filtered addr ws known {v = v} h.1 (ground arith)
]

-- The filter hides nothing.
pub own_write-eq-find : (t : Tx) (addr : ℕ) → IsSound t → own_write t addr ≡ find_ws addr t.ws
unfolding own_write
own_write-eq-find t addr h = elim (Option-cases (find_ws addr t.ws)) [
  | inl missing ↦ ground arith
  | inr (v, e) ↦ ground (arith, find_ws-filtered addr t.ws (bf_in t.ws_bloom) {v = v} h.filtered e)
]

pub find_ws-append :
    (addr a v : ℕ) (l : Loc) (ws : List WsItem)
    → find_ws a ws ≡ none
    → find_ws addr (ws ++ record { addr = a; value = v; place = l } ∷ [])
      ≡ (if addr == a then some v else find_ws addr ws)
unfolding find_ws
find_ws-append addr a v l [] h = ground arith
find_ws-append addr a v l (w ∷ ws) h = ground (arith, find_ws-append addr a v l ws)

pub find_ws-update :
    (addr a v : ℕ) (ws : List WsItem) {old : ℕ}
    → find_ws a ws ≡ some old
    → find_ws addr (update_ws a v ws) ≡ (if addr == a then some v else find_ws addr ws)
unfolding find_ws update_ws
find_ws-update addr a v [] h = cc
find_ws-update addr a v (w ∷ ws) {old} h = ground (arith, find_ws-update addr a v ws {old = old})

pub length-update_ws : (a v : ℕ) (ws : List WsItem) → length (update_ws a v ws) ≡ length ws
unfolding update_ws
length-update_ws a v [] = refl
length-update_ws a v (w ∷ ws) = ground (arith, length-update_ws a v ws)

pub All-update_ws :
    (P : ℕ → Type 0) (a v : ℕ) (ws : List WsItem)
    → All (λ w. P w.addr) ws
    → All (λ w. P w.addr) (update_ws a v ws)
unfolding update_ws
All-update_ws P a v [] h = tt
All-update_ws P a v (w ∷ ws) h = ground (arith, All-update_ws P a v ws h.1)
