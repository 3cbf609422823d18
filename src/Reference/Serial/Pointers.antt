-- ===== src/Reference/Serial/Pointers.antt =====
-- The pointers in shared memory of grading/transactional.hpp, over the bytes of reference/tm.c: a
-- segment is allocated through a null pointer only, and freed through one that is not null.
use cs453_concurrent_algorit.Prelude.{
  ℕ, zero, suc, ◌+◌, ◌-◌, ◌*◌, ◌/◌, ◌^◌, ◌<◌, ◌==◌, ◌≡◌, ◌≢◌, refl, sym, ap, ◌∙◌, subst, Bool, true,
  false, Option, none, some, List, [], ◌∷◌, ltb, arith, if◌then◌else◌,
}
use cs453_concurrent_algorit.Prog.{run}
use cs453_concurrent_algorit.Grading.{
  transaction_alloc, shared, shared_double_alloc, shared_double_free, value, throws, raises,
  transactional,
}
use cs453_concurrent_algorit.Grading.Pointers.{
  and_then, to_bytes, from_bytes, pointer_size, read_pointer, write_pointer, allocate_at,
  alloc_pointer, free_at, free_pointer,
}
use cs453_concurrent_algorit.Reference.{
  Region, node_size, next_answer, answers_after, locked_by, unlink, reference,
}
use cs453_concurrent_algorit.Reference.Copies.{bytes_at, bytes_at-after}
use cs453_concurrent_algorit.Reference.Serial.{written, linked, Outcome, serial, unlocked_by, ended}
use cs453_concurrent_algorit.Reference.Serial.Runs.{transactional-serial}

-- 256 to the power of `n`
abbrev bound : ℕ → ℕ
bound zero = 1
bound (suc n) = 256 * bound n

from_to_bytes : (n p : ℕ) → p < bound n → from_bytes (to_bytes n p) ≡ p
from_to_bytes zero p h = omega (arith, h)
from_to_bytes (suc n) p h = omega (arith, from_to_bytes n (p / 256) (omega (arith, h)))

-- The pointer that stands at an address.
abbrev pub pointer_at : Region → ℕ → ℕ
pointer_at s a = from_bytes (bytes_at s.bytes a pointer_size)

pointer_at-written :
    (s : Region) (p a : ℕ) → p < 2 ^ 64 → pointer_at (written s (to_bytes pointer_size p) a) a ≡ p
pointer_at-written s p a h =
    ap from_bytes (bytes_at-after (to_bytes pointer_size p) a s.bytes) ∙ from_to_bytes 8 p h

-- The region after an allocation through a pointer at `a`, whose new node is `sn`.
abbrev pub allocated : Region → ℕ → ℕ → ℕ → Region
allocated s sn size a = written (linked s sn size) (to_bytes pointer_size (sn + node_size)) a

-- Each outcome of an allocation through a pointer.
abbrev pub Allocates : ℕ → ℕ → ℕ → Region → Outcome ℕ → Type 0
Allocates type_size size a s o =
    (pointer_at s a ≢ 0 → o ≡ some (throws (shared shared_double_alloc), s))
    × (pointer_at s a ≡ 0
        → next_answer s.memaligns ≡ none
        → o ≡ some (throws transaction_alloc, record s { memaligns = answers_after s.memaligns }))
    × ((sn : ℕ)
        → pointer_at s a ≡ 0
        → next_answer s.memaligns ≡ some sn
        → o
          ≡ some
              (value (sn + node_size), allocated s sn (if ltb 0 size then size else type_size) a))

-- Each outcome of a free through a pointer.
abbrev pub Frees : ℕ → Region → Outcome (Unit {0}) → Type 0
Frees a s o =
    (pointer_at s a ≡ 0 → o ≡ some (throws (shared shared_double_free), s))
    × ((l : List ℕ)
        → pointer_at s a ≢ 0
        → unlink (pointer_at s a - node_size) s.allocs ≡ some l
        → o ≡ some (value tt, written (record s { allocs = l }) (to_bytes pointer_size 0) a))

serial-allocate_at :
    (type_size size a : ℕ) (s : Region) (r : Option ℕ)
    → next_answer s.memaligns ≡ r
    → serial true false (allocate_at type_size size a) s ≡ elim r [
      | none ↦ some (throws transaction_alloc, record s { memaligns = answers_after s.memaligns })
      | some sn ↦
          some (value (sn + node_size), allocated s sn (if ltb 0 size then size else type_size) a)
    ]
unfolding allocate_at write_pointer and_then
serial-allocate_at type_size size a s r e = rw e refl

serial-free_at :
    (a : ℕ) (s : Region) (l : List ℕ)
    → unlink (pointer_at s a - node_size) s.allocs ≡ some l
    → serial true false (free_at a) s
      ≡ some (value tt, written (record s { allocs = l }) (to_bytes pointer_size 0) a)
unfolding free_at read_pointer write_pointer and_then
serial-free_at a s l e = rw e refl

is_null : (p : ℕ) → p ≡ 0 → (p == 0) ≡ true
is_null p e = ground arith

is_set : (p : ℕ) → p ≢ 0 → (p == 0) ≡ false
is_set p n = ground arith

pub alloc_pointer-Allocates :
    (type_size size a : ℕ) (s : Region)
    → Allocates type_size size a s (serial true false (alloc_pointer true type_size size a) s)
unfolding alloc_pointer read_pointer and_then
alloc_pointer-Allocates type_size size a s = (
  λ n. ap branch (is_set (pointer_at s a) n),
  λ z e. ap branch (is_null (pointer_at s a) z) ∙ serial-allocate_at type_size size a s none e,
  λ sn z e.
      ap branch (is_null (pointer_at s a) z) ∙ serial-allocate_at type_size size a s (some sn) e,
)
  where
    branch : Bool → Outcome ℕ
    branch b =
        serial true false (if b then allocate_at type_size size a else raises shared_double_alloc) s

pub free_pointer-Frees :
    (a : ℕ) (s : Region) → Frees a s (serial true false (free_pointer true a) s)
unfolding free_pointer read_pointer and_then
free_pointer-Frees a s = (
  λ z. ap branch (is_null (pointer_at s a) z),
  λ l n e. ap branch (is_set (pointer_at s a) n) ∙ serial-free_at a s l e,
)
  where
    branch : Bool → Outcome (Unit {0})
    branch b = serial true false (if b then raises shared_double_free else free_at a) s

unlink_head : (sn : ℕ) (l : List ℕ) → unlink (sn + node_size - node_size) (sn ∷ l) ≡ some l
unlink_head sn l =
    let same : (sn == sn + node_size - node_size) ≡ true = ground arith in rw same refl

-- What four transactions give, one after the other: an allocation through a pointer, another, a free,
-- and another.
abbrev pub Protects : ℕ → ℕ → ℕ → ℕ → ℕ → Region → Region → Region → Type 0
Protects n type_size size a target s u v =
    (run (transactional (suc n) reference true false (alloc_pointer true type_size size a)) s
      ≡ some (value target, u))
    × (run (transactional (suc n) reference true false (alloc_pointer true type_size size a)) u
        ≡ some (throws (shared shared_double_alloc), u))
    × (run (transactional (suc n) reference true false (free_pointer true a)) u
        ≡ some (value tt, v))
    × (run (transactional (suc n) reference true false (free_pointer true a)) v
        ≡ some (throws (shared shared_double_free), v))
    × (pointer_at u a ≡ target)
    × (pointer_at v a ≡ 0)
    × (v.allocs ≡ s.allocs)

-- When the list of answers is at its end.
protected :
    (n type_size size a sn : ℕ) (old : Region)
    → old.readers ≡ 0
    → old.writer ≡ false
    → pointer_at old a ≡ 0
    → next_answer old.memaligns ≡ some sn
    → sn + node_size < 2 ^ 64
    → (u : Region) × (v : Region) × Protects n type_size size a
        (sn + node_size)
        (record old { lock_answers = [] })
        u
        v
protected n type_size size a sn old r w null answer small = (
  u,
  v,
  (
    transactional-serial n true false (alloc_pointer true type_size size a) s r w
        ∙ ap (ended false)
            ((alloc_pointer-Allocates type_size size a (locked_by false s)).2 sn null answer),
    transactional-serial n true false (alloc_pointer true type_size size a) u r refl
        ∙ ap (ended false) (
            (alloc_pointer-Allocates type_size size a (locked_by false u)).0
              (λ z. absurd (omega (arith, z, points)))),
    transactional-serial n true false (free_pointer true a) u r refl
        ∙ ap (ended false) (
            (free_pointer-Frees a (locked_by false u)).1 s.allocs
              (λ z. absurd (omega (arith, z, points))) first_node),
    transactional-serial n true false (free_pointer true a) v r refl
        ∙ ap (ended false) ((free_pointer-Frees a (locked_by false v)).0 null_again),
    points,
    null_again,
    refl,
  ),
)
  where
    s : Region
    s = record old { lock_answers = [] }

    u : Region
    u =
        unlocked_by false
          (allocated (locked_by false s) sn (if ltb 0 size then size else type_size) a)

    v : Region
    v = unlocked_by false (written (record u { allocs = s.allocs }) (to_bytes pointer_size 0) a)

    points : pointer_at u a ≡ sn + node_size
    points =
        pointer_at-written (linked (locked_by false s) sn (if ltb 0 size then size else type_size))
          (sn + node_size) a small

    null_again : pointer_at v a ≡ 0
    null_again = pointer_at-written (record u { allocs = s.allocs }) 0 a (omega arith)

    first_node : unlink (pointer_at u a - node_size) u.allocs ≡ some s.allocs
    first_node =
        subst (λ p. unlink (p - node_size) u.allocs ≡ some s.allocs) (sym points)
          (unlink_head sn s.allocs)

-- With the grader's assertions on, over the lock-based memory in a state in which no thread holds the
-- lock and every acquisition of it succeeds, with a null pointer at an address and a new node to be had
-- below 2^64, and with no interruption: a transaction that allocates through the pointer returns the new segment, to which the pointer then points; one that
-- allocates through it again throws and changes nothing; one that frees through it gives the
-- segment back and leaves a null pointer; and one that frees through it again throws and changes
-- nothing. Each ends in its first round.
pub alloc_free-Protects :
    (n type_size size a sn : ℕ) (s : Region)
    → s.readers ≡ 0
    → s.writer ≡ false
    → s.lock_answers ≡ []
    → pointer_at s a ≡ 0
    → next_answer s.memaligns ≡ some sn
    → sn + node_size < 2 ^ 64
    → (u : Region) × (v : Region) × Protects n type_size size a (sn + node_size) s u v
alloc_free-Protects n type_size size a sn s r w locks null answer small =
    subst
      (λ l.
        (u : Region) × (v : Region) × Protects n type_size size a (sn + node_size)
          (record s { lock_answers = l }) u v)
      (sym locks) (protected n type_size size a sn s r w null answer small)
