-- ===== src/Stm/Ownership/Commit.antt =====
-- `tm_end` and whole transactions of 353607/tm.c hold no lock when they return.
use native.Mathlib.Nat.{le_refl}
use cs453_concurrent_algorit.Prelude.{
  ℕ, ◌+◌, ◌||◌, refl, sym, subst, ap, ◌∙◌, inl, inr, Bool, true, false, Option, none, some, List,
  [], ◌∷◌, arith, Bool-cases, is_nil,
}
use cs453_concurrent_algorit.Prog.{Prog, ret, ◌>>=◌, ◌>>◌}
use cs453_concurrent_algorit.Prog.Ghost.{Ended, Tracks-bind, Tracks-mono}
use cs453_concurrent_algorit.Region.{Shared, rwlock_unlock}
use cs453_concurrent_algorit.Bloom.{Bf}
use cs453_concurrent_algorit.Stm.Tx.{Tx, WsItem, ws_sort}
use cs453_concurrent_algorit.Stm.Cleanup.{transaction_cleanup}
use cs453_concurrent_algorit.Stm.Lifecycle.{tm_begin}
use cs453_concurrent_algorit.Stm.Alloc.{tm_free}
use cs453_concurrent_algorit.Stm.Read.{tm_read}
use cs453_concurrent_algorit.Stm.Write.{tm_write}
use cs453_concurrent_algorit.Stm.End
use cs453_concurrent_algorit.Stm.End.{
  unlock_all, lock_all, write_back, hand_over_frees, free_batch, check_reads, checked, advance,
  acquire, commit, tm_end,
}
use cs453_concurrent_algorit.Stm.Isolation.{
  Quiet, Quiet-bind, tm_read-Quiet, transaction_cleanup-Quiet,
}
use cs453_concurrent_algorit.Stm.Isolation.Writes.{tm_write-Quiet}
use cs453_concurrent_algorit.Stm.Session.{
  Client, finish, reads, writes, allocs, frees, calls, transaction, session,
}
use cs453_concurrent_algorit.Stm.Clock.Commit.{
  hand_over_frees-Quiet, free_batch-Quiet, check_reads-Quiet,
}
use cs453_concurrent_algorit.Stm.Clock.Sessions.{tm_begin-Quiet, tm_free-Quiet}
use cs453_concurrent_algorit.Stm.Ownership.{
  Holds, Rely, Guarantee, Since-refl, Move-same, Tracked, Still, Quiet-Still,
}
use cs453_concurrent_algorit.Stm.Ownership.Locks.{mark, OwnsItems, Once}
use cs453_concurrent_algorit.Stm.Ownership.Loops.{
  Released, unlock_all-Released, AllOrNone, lock_all-AllOrNone, Below, Below-Since,
  write_back-Released,
}

-- A quiet part between two others.
Quiet-then :
    {A B : Type 0} (Q : B → Holds → Shared → Type 0) (m : Prog Shared A) (g : A → Prog Shared B)
    (o : Holds) (s : Shared)
    → Quiet m
    → ((a : A) (u : Shared) → Still o s a o u → Tracked Q (g a) o u)
    → Tracked Q (m >>= g) o s
Quiet-then Q m g o s q k =
    Tracks-bind Rely Guarantee (Still o s) Q m g o s (Quiet-Still m o s s q (Since-refl o s))
      (λ a o' u h. subst (λ p. Tracked Q (g a) p u) (sym h.0) (k a u (refl, h.1)))

Quiet-Released :
    {A : Type 0} (m : Prog Shared A) (o : Holds) (s : Shared)
    → Quiet m
    → OwnsItems [] o
    → Tracked Released m o s
Quiet-Released m o s q own =
    Tracks-mono Rely Guarantee (Still o s) Released m o s
      (λ a o' u h. subst (OwnsItems []) (sym h.0) own) (Quiet-Still m o s s q (Since-refl o s))

-- The outcome of `acquire`: the version to write with every item locked, or no lock.
abbrev Acquired : List WsItem → Option ℕ → Holds → Shared → Type 0
Acquired ws none o u = OwnsItems [] o
Acquired ws (some wv) o u = OwnsItems ws o × Once ws × Below wv o u

checked-Acquired :
    (ws : List WsItem) (wv : ℕ) (ok : Bool) (o : Holds) (s : Shared)
    → Once ws
    → OwnsItems ws o
    → Below wv o s
    → Tracked (Acquired ws) (checked ws wv ok) o s
unfolding checked
checked-Acquired ws wv true o s once own b = (own, once, b)
checked-Acquired ws wv false o s once own b =
    Tracks-bind Rely Guarantee Released (Acquired ws) (unlock_all ws) _ o s
      (unlock_all-Released ws o s once own) (λ _ o' u h. h)

advance-Acquired :
    (t : Tx) (ws : List WsItem) (ok : Bool) (o : Holds) (s : Shared)
    → AllOrNone [] ws ok o s
    → Tracked (Acquired ws) (advance t ws ok) o s
unfolding advance
advance-Acquired t ws false o s h = h
advance-Acquired t ws true o s h = λ s1 r _. (
  o,
  (omega arith, λ l. omega (arith, r.1 l), λ l. Move-same (o l) (s1.locks l) (s1.words l)),
  Quiet-then (Acquired ws) (check_reads t (s1.global_version + 1))
      (checked ws (s1.global_version + 1)) o _ (check_reads-Quiet t (s1.global_version + 1))
      (λ ok u k.
        checked-Acquired ws (s1.global_version + 1) ok o u (λ l. omega (arith, (h l).1))
          (λ l. (h l).0 ∙ ap mark (omega arith))
          (Below-Since (s1.global_version + 1) o
            (record s1 { global_version = s1.global_version + 1 }) u k.1
            (le_refl _, λ l _. omega (arith, r.1 l)))),
)

commit-Released :
    (t : Tx) (ws : List WsItem) (wv : ℕ) (o : Holds) (s : Shared)
    → Acquired ws (some wv) o s
    → Tracked Released (commit t ws wv) o s
unfolding commit
commit-Released t ws wv o s h =
    Tracks-bind Rely Guarantee Released Released (write_back wv ws) _ o s
      (write_back-Released wv ws o s h.1 h.0 h.2)
      (λ _ o1 s1 k.
        Quiet-Released _ o1 s1
          (Quiet-bind (hand_over_frees t.to_free) _ (hand_over_frees-Quiet t.to_free) (λ _. (
            λ u. ground arith,
            λ u. Quiet-bind free_batch _ free_batch-Quiet (λ _.
                Quiet-bind (transaction_cleanup false) _ (transaction_cleanup-Quiet false)
                  (λ _. tt)),
          )))
          k)

finish_end-Released :
    (t : Tx) (ws : List WsItem) (r : Option ℕ) (o : Holds) (s : Shared)
    → Acquired ws r o s
    → Tracked Released (End.finish t ws r) o s
unfolding End.finish
finish_end-Released t ws none o s h =
    Quiet-Released _ o s
      (Quiet-bind (transaction_cleanup true) _ (transaction_cleanup-Quiet true) (λ _. tt)) h
finish_end-Released t ws (some wv) o s h = commit-Released t ws wv o s h

unlock-Quiet : Quiet (do rwlock_unlock; transaction_cleanup false; ret true)
unfolding transaction_cleanup
unlock-Quiet = ground arith

tm_end-Released :
    (t : Tx) (o : Holds) (s : Shared) → OwnsItems [] o → Tracked Released (tm_end t) o s
unfolding tm_end acquire transaction_cleanup
tm_end-Released t o s own = elim (Bool-cases (t.is_ro || is_nil t.ws)) [
  | inl plain ↦
      rw plain (
        Quiet-Released (do rwlock_unlock; transaction_cleanup false; ret true) o s unlock-Quiet own)
  | inr writing ↦ rw writing (
      Tracks-bind Rely Guarantee (Acquired ws) Released (acquire t ws) (End.finish t ws) o s
        (Tracks-bind Rely Guarantee (AllOrNone [] ws) (Acquired ws) (lock_all t.rv [] ws)
          (advance t ws) o s (lock_all-AllOrNone t.rv [] ws o s (λ l. omega arith) own)
          (λ ok o' s' h. advance-Acquired t ws ok o' s' h))
        (λ r o' s' h. finish_end-Released t ws r o' s' h))
]
  where
    ws : List WsItem
    ws = ws_sort t.ws

-- A client that does not allocate: a new segment would reset the lock words of its spot.
abbrev pub NoAllocs : Client → Type 0
NoAllocs finish = Unit {0}
NoAllocs (reads source size next) = (vs : List ℕ) → NoAllocs (next vs)
NoAllocs (writes source target next) = NoAllocs next
NoAllocs (allocs size next) = ⊥
NoAllocs (frees target next) = NoAllocs next

calls-Released :
    (c : Client) (t : Tx) (o : Holds) (s : Shared)
    → NoAllocs c
    → OwnsItems [] o
    → Tracked Released (calls c t) o s
unfolding calls
calls-Released finish t o s n own = tm_end-Released t o s own
calls-Released (reads source size next) t o s n own =
    Quiet-then Released (tm_read t source size) _ o s (tm_read-Quiet t source size) (elim [
      | none ↦ λ u h. own
      | some (t', vs) ↦ λ u h. calls-Released (next vs) t' o u (n vs) own
    ])
calls-Released (writes source target next) t o s n own =
    Quiet-then Released (tm_write t source target) _ o s (tm_write-Quiet t source target)
      (elim [ none ↦ λ u h. own | some t' ↦ λ u h. calls-Released next t' o u n own ])
calls-Released (allocs size next) t o s n own = absurd n
calls-Released (frees target next) t o s n own =
    Quiet-then Released (tm_free t target) _ o s (tm_free-Quiet t target)
      (elim [ none ↦ λ u h. own | some t' ↦ λ u h. calls-Released next t' o u n own ])

abbrev pub AllNoAllocs : List (Bool × Client) → Type 0
AllNoAllocs [] = Unit {0}
AllNoAllocs ((is_ro, c) ∷ cs) = NoAllocs c × AllNoAllocs cs

pub session-Released :
    (raw : Bf) (cs : List (Bool × Client)) (o : Holds) (s : Shared)
    → AllNoAllocs cs
    → OwnsItems [] o
    → Tracked (Ended Rely Guarantee (OwnsItems [])) (session raw cs) o s
unfolding session transaction
session-Released raw [] o s n own = own
session-Released raw ((is_ro, c) ∷ cs) o s n own =
    Tracks-bind Rely Guarantee Released (Ended Rely Guarantee (OwnsItems []))
      (transaction raw is_ro c) _ o s
      (Quiet-then Released (tm_begin raw is_ro) _ o s (tm_begin-Quiet raw is_ro)
        (elim [ none ↦ λ u h. own | some t ↦ λ u h. calls-Released c t o u n.0 own ]))
      (λ _ o' s' h. session-Released raw cs o' s' n.1 h)
