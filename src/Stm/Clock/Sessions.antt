-- ===== src/Stm/Clock/Sessions.antt =====
-- `tm_end`, whole transactions and any number of threads keep the clock's bound.
use native.Mathlib.Nat.{le_refl, le_trans}
use cs453_concurrent_algorit.Prelude.{
  ℕ, zero, suc, ◌+◌, ◌≤◌, ◌<◌, ◌^◌, inl, inr, Bool, true, false, none, some, List, [], ◌∷◌, arith,
  Bool-cases,
}
use cs453_concurrent_algorit.Prog.Pool.{Pool, Reach, Reach-AllKeep}
use cs453_concurrent_algorit.Region.{Loc, Segment, Shared, answer, answers_left}
use cs453_concurrent_algorit.VersionedLock.{vl_init}
use cs453_concurrent_algorit.Bloom.{Bf}
use cs453_concurrent_algorit.Stm.Tx.{Tx}
use cs453_concurrent_algorit.Stm.Cleanup.{
  init_locks, segment_locks, segment_zero, segment_fill, segment_init, transaction_cleanup,
}
use cs453_concurrent_algorit.Stm.Lifecycle.{tm_begin}
use cs453_concurrent_algorit.Stm.Alloc.{take_spot, alloc_result, alloc_at, tm_alloc, tm_free}
use cs453_concurrent_algorit.Stm.Read.{abort, tm_read}
use cs453_concurrent_algorit.Stm.Write.{tm_write}
use cs453_concurrent_algorit.Stm.Isolation.{Quiet, tm_read-Quiet}
use cs453_concurrent_algorit.Stm.Isolation.Writes.{tm_write-Quiet}
use cs453_concurrent_algorit.Stm.Session.{
  Client, finish, reads, writes, allocs, frees, calls, transaction, session,
}
use cs453_concurrent_algorit.Stm.Clock.Commit.{tm_end-Ticks}
use cs453_concurrent_algorit.Stm.Clock.{
  Bounded, Tick, Ticks, Quiet-Ticks, Ticks-bind, vl_init-Ticks,
}

init_locks-Ticks : (spot i n : ℕ) (s : Shared) → Ticks (init_locks spot i n) s
unfolding init_locks
init_locks-Ticks spot i zero s = tt
init_locks-Ticks spot i (suc n) s =
    Ticks-bind (vl_init (record { spot = spot; word = i })) _ s (vl_init-Ticks _ s)
      (λ _ s'. init_locks-Ticks spot (i + 1) n s')

segment_locks-Ticks : (spot : ℕ) (g : Segment) (s : Shared) → Ticks (segment_locks spot g) s
unfolding segment_locks
segment_locks-Ticks spot g s =
    Ticks-bind (init_locks spot 0 g.num_words) _ s (init_locks-Ticks spot 0 g.num_words s)
      (λ _ _. tt)

segment_zero-Ticks : (spot : ℕ) (g : Segment) (s : Shared) → Ticks (segment_zero spot g) s
unfolding segment_zero
segment_zero-Ticks spot g s = λ s1 _ _. (
  (le_refl _, λ b. b),
  λ s2 _ _. (
    (le_refl _, λ b. b),
    ground (arith, segment_locks-Ticks spot g (record s2 { mallocs = answers_left s2.mallocs })),
  ),
)

segment_fill-Ticks : (spot : ℕ) (g : Segment) (s : Shared) → Ticks (segment_fill spot g) s
unfolding segment_fill
segment_fill-Ticks spot g s = λ s1 _ _. (
  (le_refl _, λ b. b),
  ground (arith, segment_zero-Ticks spot g (record s1 { mallocs = answers_left s1.mallocs })),
)

segment_init-Ticks : (spot size align : ℕ) (s : Shared) → Ticks (segment_init spot size align) s
unfolding segment_init
segment_init-Ticks spot size align s = λ s1 _ _. (
  (le_refl _, λ b. b),
  λ s2 _ _. (
    (le_refl _, λ b. b),
    elim (Bool-cases (answer s1.mallocs)) [
      | inl ok ↦ rw ok (segment_fill-Ticks spot _ _)
      | inr failed ↦ rw failed tt
    ],
  ),
)

take_spot-Quiet : Quiet take_spot
unfolding take_spot
take_spot-Quiet = ground arith

alloc_result-Quiet : (spot : ℕ) (ok : Bool) → Quiet (alloc_result spot ok)
unfolding alloc_result
alloc_result-Quiet spot true = tt
alloc_result-Quiet spot false = ground arith

alloc_at-Ticks : (size spot : ℕ) (s : Shared) → Ticks (alloc_at size spot) s
unfolding alloc_at
alloc_at-Ticks size spot s = λ s1 _ _. (
  (le_refl _, λ b. b),
  ground (
    arith,
    Ticks-bind (segment_init spot size s1.align) (alloc_result spot) s1
        (segment_init-Ticks spot size s1.align s1)
        (λ ok s2. Quiet-Ticks (alloc_result spot ok) s2 (alloc_result-Quiet spot ok)),
  ),
)

tm_alloc-Ticks : (size : ℕ) (s : Shared) → Ticks (tm_alloc size) s
unfolding tm_alloc
tm_alloc-Ticks size s =
    Ticks-bind take_spot (alloc_at size) s (Quiet-Ticks take_spot s take_spot-Quiet)
      (λ spot s'. alloc_at-Ticks size spot s')

pub tm_begin-Quiet : (raw : Bf) (is_ro : Bool) → Quiet (tm_begin raw is_ro)
unfolding tm_begin
tm_begin-Quiet raw is_ro = ground arith

pub tm_free-Quiet : (t : Tx) (target : ℕ) → Quiet (tm_free t target)
unfolding tm_free abort transaction_cleanup
tm_free-Quiet t target = ground arith

calls-Ticks : (c : Client) (t : Tx) (s : Shared) → Ticks (calls c t) s
unfolding calls
calls-Ticks finish t s = tm_end-Ticks t s
calls-Ticks (reads source size next) t s =
    Ticks-bind (tm_read t source size) _ s (Quiet-Ticks _ s (tm_read-Quiet t source size))
      (elim [ none ↦ λ _. tt | some (t', vs) ↦ λ s'. calls-Ticks (next vs) t' s' ])
calls-Ticks (writes source target next) t s =
    Ticks-bind (tm_write t source target) _ s (Quiet-Ticks _ s (tm_write-Quiet t source target))
      (elim [ none ↦ λ _. tt | some t' ↦ λ s'. calls-Ticks next t' s' ])
calls-Ticks (allocs size next) t s =
    Ticks-bind (tm_alloc size) _ s (tm_alloc-Ticks size s) (λ r s'. calls-Ticks (next r) t s')
calls-Ticks (frees target next) t s =
    Ticks-bind (tm_free t target) _ s (Quiet-Ticks _ s (tm_free-Quiet t target))
      (elim [ none ↦ λ _. tt | some t' ↦ λ s'. calls-Ticks next t' s' ])

session-Ticks : (raw : Bf) (cs : List (Bool × Client)) (s : Shared) → Ticks (session raw cs) s
unfolding session transaction
session-Ticks raw [] s = tt
session-Ticks raw ((is_ro, c) ∷ cs) s =
    Ticks-bind (transaction raw is_ro c) _ s
      (Ticks-bind (tm_begin raw is_ro) _ s (Quiet-Ticks _ s (tm_begin-Quiet raw is_ro))
        (elim [ none ↦ λ _. tt | some t ↦ λ s'. calls-Ticks c t s' ]))
      (λ _ s'. session-Ticks raw cs s')

Tick-trans : (a b c : Shared) → Tick a b → Tick b c → Tick a c
Tick-trans a b c p q = (le_trans p.0 q.0, λ h. q.1 (p.1 h))

-- Threads that run any transactions, with their steps interleaved in any order: from a state in which
-- every lock word is at most twice the clock plus one, the clock never goes back, and every lock word
-- keeps that bound. So no lock word leaves the range of a 32-bit `int` before the clock reaches 2^30.
pub Reach-clock :
    (s : Shared) (threads : ℕ → Bf × List (Bool × Client)) (p : Pool Shared)
    → Bounded s
    → Reach (record { shared = s; threads = λ i. session (threads i).0 (threads i).1 }) p
    → (s.global_version ≤ p.shared.global_version)
      × Bounded p.shared
      × (p.shared.global_version < 2 ^ 30 → (l : Loc) → p.shared.locks l < 2 ^ 31)
Reach-clock s threads p b run = (ticks.0, ticks.1 b, λ small l. omega (arith, ticks.1 b l))
  where
    ticks : Tick s p.shared
    ticks =
        (Reach-AllKeep Tick (λ u. (le_refl u.global_version, λ h. h)) Tick-trans
          (λ i. session-Ticks (threads i).0 (threads i).1 s) run).0
