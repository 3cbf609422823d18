-- ===== src/Stm/End/Sort.antt =====
-- The sort of the write set is a permutation: it keeps every item.
use cs453_concurrent_algorit.Prelude.{◌≡◌, refl, List, [], ◌∷◌, arith, All}
use cs453_concurrent_algorit.Region.{Loc}
use cs453_concurrent_algorit.Stm.Tx.{WsItem, ws_insert, ws_sort}
use cs453_concurrent_algorit.Stm.End.Locks.{count}

-- The sort keeps every item, as often.
count-insert :
    (l : Loc) (a : WsItem) (ws : List WsItem) → count l (ws_insert a ws) ≡ count l (a ∷ ws)
unfolding ws_insert
count-insert l a [] = refl
count-insert l a (b ∷ bs) = ground (arith, count-insert l a bs)

pub count-sort : (l : Loc) (ws : List WsItem) → count l (ws_sort ws) ≡ count l ws
unfolding ws_sort
count-sort l [] = refl
count-sort l (a ∷ ws) = omega (arith, count-insert l a (ws_sort ws), count-sort l ws)

All-insert :
    (P : WsItem → Type 0) (a : WsItem) (ws : List WsItem) → All P (ws_insert a ws) → All P (a ∷ ws)
unfolding ws_insert
All-insert P a [] h = h
All-insert P a (b ∷ bs) h = ground (arith, All-insert P a bs)

pub All-sort : (P : WsItem → Type 0) (ws : List WsItem) → All P (ws_sort ws) → All P ws
unfolding ws_sort
All-sort P [] h = tt
All-sort P (a ∷ ws) h = let r = All-insert P a (ws_sort ws) h in (r.0, All-sort P ws r.1)
