-- ===== src/Stm/Ownership/Contents.antt =====
-- What a lock word of 353607/tm.c says about the contents of its word, in every interleaving.
use cs453_concurrent_algorit.Prelude.{
  ℕ, ◌/◌, ◌≤◌, ◌≡◌, ◌≢◌, refl, sym, subst, ap, Bool, List, [], arith,
}
use cs453_concurrent_algorit.Prog.Pool.{Pool, Reach}
use cs453_concurrent_algorit.Prog.Ghost.{AllTrack, Reach-AllTrack}
use cs453_concurrent_algorit.Region.{Loc, Shared}
use cs453_concurrent_algorit.Bloom.{Bf}
use cs453_concurrent_algorit.Stm.Session.{Client, session}
use cs453_concurrent_algorit.Stm.Clock.{Bounded}
use cs453_concurrent_algorit.Stm.Ownership.{
  free, dirty, Held, Even, Holds, Rely, Guarantee, Rely-trans,
}
use cs453_concurrent_algorit.Stm.Ownership.Moves.{IsOwned, Inv, Inv-steps, Inv-refl, IsAfter-refl}
use cs453_concurrent_algorit.Stm.Ownership.Locks.{OwnsItems}
use cs453_concurrent_algorit.Stm.Ownership.Commit.{AllNoAllocs, session-Released}

-- The threads, each about to run its transactions.
abbrev pub sessions : Shared → (ℕ → Bf × List (Bool × Client)) → Pool Shared
sessions s threads = record { shared = s; threads = λ i. session (threads i).0 (threads i).1 }

abbrev Free : ℕ → Holds
Free i l = free

start-IsOwned : (s : Shared) → Bounded s → IsOwned Free s
start-IsOwned s b = record {
  bounded = b;
  locked = λ i l h. absurd h;
  one_owner = λ i j l h. absurd h;
}

-- Ghosts of the threads in any state that can be reached.
Reach-Inv :
    (s0 : Shared) (p q : Pool Shared) (own : ℕ → Holds)
    → Inv s0 own p.shared
    → AllTrack Rely Guarantee (OwnsItems []) own p
    → Reach p q
    → (own' : ℕ → Holds) × Inv s0 own' q.shared × AllTrack Rely Guarantee (OwnsItems []) own' q
Reach-Inv s0 p q own inv all run =
    Reach-AllTrack Rely Guarantee (OwnsItems []) Rely-trans (Inv s0) (Inv-refl s0) (Inv-steps s0)
      own inv all run

-- A word whose lock is free is not being written.
no_writer :
    (own : ℕ → Holds) (s : Shared) (l : Loc)
    → IsOwned own s
    → Even (s.locks l)
    → (i : ℕ) → own i l ≢ dirty
no_writer own s l inv even i d =
    absurd (omega (arith, even, inv.locked i l (subst Held (sym d) tt)))

-- Threads that run any transactions without allocations, their steps interleaved in any order, from
-- memory with no lock word above twice the clock plus one. Of two states, one reached from the other:
-- the clock and the version of every word are in the later one at least what they are in the earlier;
-- and a word whose lock word is free in the earlier state and the same in the later has the same
-- contents in both.
pub Reach-contents :
    (s : Shared) (threads : ℕ → Bf × List (Bool × Client)) (p q : Pool Shared)
    → Bounded s
    → ((i : ℕ) → AllNoAllocs (threads i).1)
    → Reach (sessions s threads) p
    → Reach p q
    → (p.shared.global_version ≤ q.shared.global_version)
      × ((l : Loc) → p.shared.locks l / 2 ≤ q.shared.locks l / 2)
      × ((l : Loc)
          → Even (p.shared.locks l)
          → q.shared.locks l ≡ p.shared.locks l
          → q.shared.words l ≡ p.shared.words l)
Reach-contents s threads p q b plain before after =
    let (own, (inv, _), all) =
      Reach-Inv s (sessions s threads) p Free (start-IsOwned s b, IsAfter-refl Free s)
        (λ i. session-Released (threads i).0 (threads i).1 (Free i) s (plain i) (λ l. refl))
        before in
    let (own', (inv', since), all') =
      Reach-Inv p.shared p q own (inv, IsAfter-refl own p.shared) all after in
    (
      since.clock,
      since.versions,
      λ l even same.
          since.contents l even (ap (λ w. w / 2) same)
            (no_writer own' q.shared l inv' (omega (arith, even, same))),
    )
