-- ===== src/Reference/Lawful.antt =====
-- reference/tm.c keeps to what the headers ask of a library.
use cs453_concurrent_algorit.Prelude.{
  ℕ, zero, suc, ◌+◌, ◌-◌, ◌==◌, ◌≡◌, ◌≤◌, refl, sym, subst, inl, inr, Bool-cases, Option-cases, ◌∙◌,
  Bool, true, false, if◌then◌else◌, Option, none, some, List, [], ◌∷◌, arith,
}
use cs453_concurrent_algorit.Prog.{Ends, Ends-bind}
use cs453_concurrent_algorit.Grading.Rules.{Segments, drop}
use cs453_concurrent_algorit.Grading.Discipline.{Handed, HandedRead, HandedAlloc, Closed, IsLawful}
use cs453_concurrent_algorit.Reference.{
  Region, LockTx, next_answer, posix_memalign, shared_lock_acquire, shared_lock_release,
  shared_lock_acquire_shared, shared_lock_release_shared, clear, tm_begin_locked, tm_end_locked,
  copy_out, copy_in, tm_read_locked, tm_write_locked, link_segment, tm_alloc_locked, reference,
  node_size, lock_answer, unlink, tm_free_locked,
}

-- The nodes of the segments.
abbrev Nodes : List ℕ → Segments → Type 0
Nodes [] [] = Unit {0}
Nodes [] (g ∷ segments) = ⊥
Nodes (sn ∷ nodes) [] = ⊥
Nodes (sn ∷ nodes) ((start, size) ∷ segments) = (start ≡ sn + node_size) × Nodes nodes segments

-- The state when no thread has a transaction, and when one has.
abbrev pub Unlocked : Segments → Region → Type 0
Unlocked segments s = (s.readers ≡ 0) × (s.writer ≡ false) × Nodes s.allocs segments

abbrev pub HasTx : Bool → LockTx → Segments → Segments → Region → Type 0
HasTx true tx before segments s =
    (tx ≡ LockTx.read_only_tx) × (s.readers ≡ 1) × (s.writer ≡ false) × Nodes s.allocs segments
HasTx false tx before segments s =
    (tx ≡ LockTx.read_write_tx) × (s.readers ≡ 0) × (s.writer ≡ true) × Nodes s.allocs segments

abbrev SameLock : Region → Region → Type 0
SameLock s u = (u.readers ≡ s.readers) × (u.writer ≡ s.writer) × (u.allocs ≡ s.allocs)

HasTx-same :
    (ro : Bool) (tx : LockTx) (before segments : Segments) (s u : Region)
    → SameLock s u
    → HasTx ro tx before segments s
    → HasTx ro tx before segments u
HasTx-same true tx before segments s u (r, w, a) h =
    (h.0, r ∙ h.1, w ∙ h.2, subst (λ l. Nodes l segments) (sym a) h.3)
HasTx-same false tx before segments s u (r, w, a) h =
    (h.0, r ∙ h.1, w ∙ h.2, subst (λ l. Nodes l segments) (sym a) h.3)

clear-SameLock : (a n : ℕ) (s : Region) → Ends (λ _ u. SameLock s u) (clear a n) s
unfolding clear
clear-SameLock a zero s = (refl, refl, refl)
clear-SameLock a (suc n) s = (refl, clear-SameLock (a + 1) n _)

copy_in-SameLock :
    (vs : List ℕ) (target : ℕ) (s : Region) → Ends (λ _ u. SameLock s u) (copy_in vs target) s
unfolding copy_in
copy_in-SameLock [] target s = (refl, refl, refl)
copy_in-SameLock (v ∷ vs) target s = (refl, copy_in-SameLock vs (target + 1) _)

copy_out-SameLock : (source n : ℕ) (s : Region) → Ends (λ _ u. SameLock s u) (copy_out source n) s
unfolding copy_out
copy_out-SameLock source zero s = (refl, refl, refl)
copy_out-SameLock source (suc n) s = (
  refl,
  Ends-bind (λ _ u. SameLock s u) (λ _ u. SameLock s u) (copy_out (source + 1) n) _ s
      (copy_out-SameLock (source + 1) n s) (λ vs u h. h),
)

begins_lem :
    (align : ℕ) (first : ℕ × ℕ) (ro : Bool) (segments : Segments) (s : Region)
    → Unlocked segments s
    → Ends (Handed align first Unlocked HasTx ro segments segments) (tm_begin_locked ro) s
unfolding tm_begin_locked shared_lock_acquire shared_lock_acquire_shared
begins_lem align first true segments s h = elim (Bool-cases (lock_answer s.lock_answers)) [
  | inl ok ↦ rw ok (ground (arith, h.1), (refl, omega (arith, h.0), h.1, h.2))
  | inr no_lock ↦ rw no_lock (refl, h)
]
begins_lem align first false segments s h = elim (Bool-cases (lock_answer s.lock_answers)) [
  | inl ok ↦ rw ok (ground (arith, h.0, h.1), (refl, h.0, refl, h.2))
  | inr no_lock ↦ rw no_lock (refl, h)
]

ends_lem :
    (align : ℕ) (first : ℕ × ℕ) (ro : Bool) (tx : LockTx) (before segments : Segments) (s : Region)
    → HasTx ro tx before segments s
    → Ends (Closed align first Unlocked HasTx before segments) (tm_end_locked tx) s
unfolding tm_end_locked shared_lock_release shared_lock_release_shared
ends_lem align first true LockTx.read_only_tx before segments s h =
    (refl, (omega (arith, h.1), h.2, h.3))
ends_lem align first true LockTx.read_write_tx before segments s h = cc
ends_lem align first false LockTx.read_only_tx before segments s h = cc
ends_lem align first false LockTx.read_write_tx before segments s h = (refl, (h.1, refl, h.3))

link_segment-HasTx :
    (align : ℕ) (first : ℕ × ℕ) (tx : LockTx) (before segments : Segments) (size : ℕ) (r : Option ℕ)
    (s : Region)
    → HasTx false tx before segments s
    → Ends (HandedAlloc align first Unlocked HasTx before segments size) (link_segment tx size r) s
unfolding link_segment
link_segment-HasTx align first tx before segments size none s h = h
link_segment-HasTx align first tx before segments size (some sn) s h = (
  refl,
  Ends-bind (λ _ u. SameLock linked u) (HandedAlloc align first Unlocked HasTx before segments size)
      (clear (sn + node_size) size) _ linked (clear-SameLock (sn + node_size) size linked)
      (λ _ u e.
        HasTx-same false tx before ((sn + node_size, size) ∷ segments) linked u e
          (h.0, h.1, h.2, (refl, h.3))),
)
  where
    linked : Region
    linked = record s { allocs = sn ∷ s.allocs }

alloc_lem :
    (align : ℕ) (first : ℕ × ℕ) (tx : LockTx) (before segments : Segments) (size : ℕ) (s : Region)
    → HasTx false tx before segments s
    → Ends (HandedAlloc align first Unlocked HasTx before segments size) (tm_alloc_locked tx size) s
unfolding tm_alloc_locked posix_memalign
alloc_lem align first tx before segments size s h =
    (refl, link_segment-HasTx align first tx before segments size (next_answer s.memaligns) _ h)

abbrev NodesOf : List ℕ → Option Segments → Type 0
NodesOf nodes none = Unit {0}
NodesOf nodes (some segments) = Nodes nodes segments

abbrev Unlinks : ℕ → List ℕ → Segments → Type 0
Unlinks target nodes rest =
    (left : List ℕ) × (node_size ≤ target)
    × (unlink (target - node_size) nodes ≡ some left)
    × Nodes left rest

-- The segment is further down the list.
unlink_later :
    (target sn start size : ℕ) (nodes : List ℕ) (found rest : Segments)
    → start ≡ sn + node_size
    → (target == start) ≡ false
    → some ((start, size) ∷ found) ≡ some rest
    → Unlinks target nodes found
    → Unlinks target (sn ∷ nodes) rest
unlink_later target sn start size nodes found rest at miss e (left, high, unlinked, n) =
    let other : (sn == target - node_size) ≡ false = ground arith in
    (sn ∷ left, high, rw (other, unlinked) refl, subst (NodesOf (sn ∷ left)) e (at, n))

-- A segment that can be dropped is one whose node can be unlinked.
unlink-drop :
    (target : ℕ) (nodes : List ℕ) (segments rest : Segments)
    → Nodes nodes segments
    → drop target segments ≡ some rest
    → Unlinks target nodes rest
unlink-drop target [] [] rest n e = cc
unlink-drop target [] (g ∷ segments) rest n e = absurd n
unlink-drop target (sn ∷ nodes) [] rest n e = absurd n
unlink-drop target (sn ∷ nodes) ((start, size) ∷ segments) rest n e =
    elim (Bool-cases (target == start)) [
      | inl hit ↦
          let same : (sn == target - node_size) ≡ true = ground (arith, n.0) in
          (
            nodes,
            ground (arith, n.0),
            rw same refl,
            subst (NodesOf nodes) (subst (λ b. chosen b ≡ some rest) hit e) n.1,
          )
      | inr miss ↦ elim (Option-cases (drop target segments)) [
        | inl missing ↦ cc
        | inr (found, there) ↦
            unlink_later target sn start size nodes found rest n.0 miss
              (subst (λ o. more o ≡ some rest) there (subst (λ b. chosen b ≡ some rest) miss e))
              (unlink-drop target nodes segments found n.1 there)
      ]
    ]
  where
    more : Option Segments → Option Segments
    more o = elim o [ none ↦ none | some r ↦ some ((start, size) ∷ r) ]

    chosen : Bool → Option Segments
    chosen b = if b then some segments else more (drop target segments)

free_lem :
    (align : ℕ) (first : ℕ × ℕ) (tx : LockTx) (before segments rest : Segments) (target : ℕ)
    (s : Region)
    → drop target segments ≡ some rest
    → HasTx false tx before segments s
    → Ends (Handed align first Unlocked HasTx false before rest) (tm_free_locked tx target) s
unfolding tm_free_locked
free_lem align first tx before segments rest target s dropped h =
    let (left, high, unlinked, nodes) = unlink-drop target s.allocs segments rest h.3 dropped in
    (refl, rw unlinked (refl, (h.0, h.1, h.2, nodes)))

-- The reference implementation is a library as the headers describe it, for a thread that nothing
-- interrupts.
pub reference-IsLawful : (align : ℕ) (first : ℕ × ℕ) → IsLawful align first Unlocked HasTx reference
unfolding tm_read_locked tm_write_locked
reference-IsLawful align first = record {
  begins = begins_lem align first;
  ends = ends_lem align first;
  read_law = λ ro tx before segments source size s range h.
      Ends-bind (λ _ u. SameLock s u) (HandedRead align first Unlocked HasTx ro before segments)
        (copy_out source size) _ s (copy_out-SameLock source size s)
        (λ vs u e. HasTx-same ro tx before segments s u e h);
  write_law = λ tx before segments source target s range h.
      Ends-bind (λ _ u. SameLock s u) (Handed align first Unlocked HasTx false before segments)
        (copy_in source target) _ s (copy_in-SameLock source target s)
        (λ _ u e. HasTx-same false tx before segments s u e h);
  alloc_law =
      λ tx before segments size s sized h. alloc_lem align first tx before segments size s h;
  free_law = λ tx before segments rest target s dropped h.
      free_lem align first tx before segments rest target s dropped h;
}
