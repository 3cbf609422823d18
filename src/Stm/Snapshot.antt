-- ===== src/Stm/Snapshot.antt =====
-- 353607/tm.c: what a read-write transaction reads of the shared memory while others commit. The
-- other threads are described by the memory's history: `hist n l` is the value of the word at `l`
-- after the commits up to version `n`.
pub mod Calls
pub mod Align
pub mod Commit
use native.Mathlib.Nat.{le_refl, le_trans}
use cs453_concurrent_algorit.Prelude.{
  ℕ, zero, suc, ◌+◌, ◌*◌, ◌/◌, ◌%◌, ◌≤◌, ◌<◌, ◌==◌, ◌≡◌, ◌⊎◌, refl, sym, ap, ◌∙◌, subst, inl, inr,
  Bool, true, false, not, Option, none, some, List, [], ◌∷◌, arith, ltb, length, Bool-cases,
  Option-cases, if◌then◌else◌,
}
use cs453_concurrent_algorit.Prog.{Prog, ret, fault, ◌>>=◌}
use cs453_concurrent_algorit.Prog.Rely.{Keeps, Keeps-bind, Keeps-mono}
use cs453_concurrent_algorit.Region.{Loc, Segment, Shared, answer, answers_left}
use cs453_concurrent_algorit.Address.{index_from_va, offset_from_va}
use cs453_concurrent_algorit.VersionedLock.{version_of, vl_read_version}
use cs453_concurrent_algorit.Stm.Tx.{Tx, own_write, in_rs, resized}
use cs453_concurrent_algorit.Stm.Cleanup.{transaction_cleanup}
use cs453_concurrent_algorit.Stm.End.Result.{if_false}
use cs453_concurrent_algorit.Stm.Read.{
  fits_int, too_new, same_version, abort, grow_rs, add_to_readset, has_word, record_read,
  read_versioned, read_after, read_shared, read_word, read_words, ro_transaction_read,
  rw_transaction_read, tm_read,
}

-- What the transaction sees of a word: its own write, or the memory at its version.
abbrev pub own_or : Option ℕ → ℕ → ℕ
own_or none old = old
own_or (some v) old = v

abbrev pub view : (ℕ → Loc → ℕ) → Tx → ℕ → Loc → ℕ
view hist t curr l = own_or (own_write t curr) (hist t.rv l)

abbrev pub view_words : (ℕ → Loc → ℕ) → Tx → ℕ → ℕ → ℕ → Loc → List ℕ
view_words hist t align zero curr l = []
view_words hist t align (suc n) curr l =
    view hist t curr l ∷ view_words hist t align n (curr + align) (record l { word = l.word + 1 })

-- The word holds its value of every version from its own up to the clock's.
abbrev pub Clean : (ℕ → Loc → ℕ) → Shared → Loc → Type 0
Clean hist s l = (n : ℕ) → s.locks l / 2 ≤ n → n ≤ s.global_version → s.words l ≡ hist n l

-- The clock and the versions do not go back, and a word that is free at the end was clean at the
-- start, or its version has grown.
abbrev pub Publishes : (ℕ → Loc → ℕ) → Shared → Shared → Type 0
Publishes hist s u =
    (s.global_version ≤ u.global_version)
    × ((l : Loc)
        → (s.locks l / 2 ≤ u.locks l / 2)
          × (u.locks l % 2 ≡ 0 → Clean hist s l ⊎ (s.locks l / 2 < u.locks l / 2)))

-- What other threads do between two steps.
abbrev pub Commits : (ℕ → Loc → ℕ) → Shared → Shared → Type 0
Commits hist s u = (u.align ≡ s.align) × Publishes hist s u

abbrev pub AnyStep : Shared → Shared → Type 0
AnyStep s u = Unit {0}

-- The same transaction but for its read set.
abbrev pub SameView : Tx → Tx → Type 0
SameView t t' = (t'.rv ≡ t.rv) × ((a : ℕ) → own_write t' a ≡ own_write t a) × (t'.is_ro ≡ t.is_ro)

abbrev Grown : Tx → Bool × Tx → Shared → Type 0
Grown t r u = SameView t r.1 × (t.rv ≤ u.global_version)

module _ (hist : ℕ → Loc → ℕ) where
  pub Keeps-if :
      {A : Type 0} (Q : A → Shared → Type 0) (b : Bool) (m n : Prog Shared A) (s : Shared)
      → Keeps (Commits hist) AnyStep Q m s
      → Keeps (Commits hist) AnyStep Q n s
      → Keeps (Commits hist) AnyStep Q (if b then m else n) s
  Keeps-if Q true m n s h k = h
  Keeps-if Q false m n s h k = k

  grow_rs-Grown :
      (t : Tx) (l : Loc) (v : ℕ) (s : Shared)
      → t.rv ≤ s.global_version
      → Keeps (Commits hist) AnyStep (Grown t) (grow_rs t l v) s
  unfolding grow_rs own_write
  grow_rs-Grown t l v s h =
      Keeps-if (Grown t) (ltb (length t.rs) t.rs_sz) _ _ s ((refl, λ a. refl, refl), h)
        (λ u r _. (
          tt,
          Keeps-if (Grown t) (answer u.mallocs) _ _ _ ((refl, λ a. refl, refl), le_trans h r.1.0)
              ((refl, λ a. refl, refl), le_trans h r.1.0),
        ))

  add_to_readset-Grown :
      (t : Tx) (l : Loc) (v : ℕ) (s : Shared)
      → t.rv ≤ s.global_version
      → Keeps (Commits hist) AnyStep (Grown t) (add_to_readset t l v) s
  unfolding add_to_readset
  add_to_readset-Grown t l v s h = Keeps-if (Grown t) t.is_ro _ _ s (grow_rs-Grown t l v s h) (
      Keeps-if (Grown t) t.rs_null _ _ s tt (
        Keeps-if (Grown t) (in_rs l t.rs) _ _ s ((refl, λ a. refl, refl), h)
          (grow_rs-Grown t l v s h)))

  -- One word: its value, and the transaction as it was but for the read set.
  abbrev pub Seen : Tx → ℕ → Option (Tx × ℕ) → Shared → Type 0
  Seen t value none u = Unit {0}
  Seen t value (some (t', w)) u = (w ≡ value) × SameView t t' × (t.rv ≤ u.global_version)

  abort-Seen :
      (t : Tx) (value : ℕ) (s : Shared) → Keeps (Commits hist) AnyStep (Seen t value) abort s
  unfolding abort transaction_cleanup
  abort-Seen t value s = λ u r _. (tt, tt)

  record_read-Seen :
      (t : Tx) (l : Loc) (v w value : ℕ) (s : Shared)
      → t.rv ≤ s.global_version
      → w ≡ value
      → Keeps (Commits hist) AnyStep (Seen t value) (record_read t l v w) s
  unfolding record_read
  record_read-Seen t l v w value s h e =
      Keeps-bind (Commits hist) AnyStep (Grown t) (Seen t value) (add_to_readset t l v) _ s
        (add_to_readset-Grown t l v s h) (λ r u g. (e, g.0, g.1))

  -- The second look at the version: the copy between the two was of the transaction's version.
  settled :
      (t : Tx) (l : Loc) (v : ℕ) (s s1 s2 : Shared)
      → t.rv ≤ s.global_version
      → v ≤ t.rv
      → v ≤ s.locks l / 2
      → Commits hist s s1
      → Commits hist s1 s2
      → same_version (version_of (s2.locks l)) (some v) ≡ true
      → s1.words l ≡ hist t.rv l
  settled t l v s s1 s2 h k old r1 r2 e = elim ((r2.1.1 l).1 free) [
    | inl clean ↦ clean t.rv (omega (arith, (r2.1.1 l).0, at)) (omega (arith, r1.1.0))
    | inr moved ↦ absurd (omega (arith, (r1.1.1 l).0, at))
  ]
    where
      free : s2.locks l % 2 ≡ 0
      free = ground arith

      at : s2.locks l / 2 ≡ v
      at = ground arith

  read_versioned-Seen :
      (align : ℕ) (t : Tx) (l : Loc) (v : ℕ) (s : Shared)
      → t.rv ≤ s.global_version
      → v ≤ t.rv
      → v ≤ s.locks l / 2
      → Keeps (Commits hist) AnyStep (Seen t (hist t.rv l)) (read_versioned align t l v) s
  unfolding read_versioned vl_read_version
  read_versioned-Seen align t l v s h k old =
      Keeps-if (Seen t (hist t.rv l)) (not (fits_int (l.word * align))) _ _ s tt (λ s1 r1 _. (
        tt,
        λ s2 r2 _. (
          tt,
          elim (Bool-cases (not (same_version (version_of (s2.locks l)) (some v)))) [
            | inl moved ↦ rw moved (abort-Seen t (hist t.rv l) s2)
            | inr still ↦ rw still (
                record_read-Seen t l v (s1.words l) (hist t.rv l) s2
                  (omega (arith, h, r1.1.0, r2.1.0))
                  (settled t l v s s1 s2 h k old r1 r2 (ground arith)))
          ],
        ),
      ))

  read_after-Seen :
      (align : ℕ) (t : Tx) (l : Loc) (r : Option ℕ) (s : Shared)
      → t.rv ≤ s.global_version
      → version_of (s.locks l) ≡ r
      → Keeps (Commits hist) AnyStep (Seen t (hist t.rv l)) (read_after align t l r) s
  unfolding read_after
  read_after-Seen align t l none s h e = abort-Seen t (hist t.rv l) s
  read_after-Seen align t l (some v) s h e = elim (Bool-cases (too_new (some v) t.rv)) [
    | inl new ↦ rw new (abort-Seen t (hist t.rv l) s)
    | inr seen ↦ rw seen (read_versioned-Seen align t l v s h (ground arith) (ground arith))
  ]

  read_shared-Seen :
      (align : ℕ) (seg : Option Segment) (t : Tx) (l : Loc) (s : Shared)
      → t.rv ≤ s.global_version
      → Keeps (Commits hist) AnyStep (Seen t (hist t.rv l)) (read_shared align seg t l) s
  unfolding read_shared vl_read_version
  read_shared-Seen align seg t l s h =
      Keeps-if (Seen t (hist t.rv l)) (not (has_word seg l.word)) _ _ s tt (λ u r _.
        (tt, read_after-Seen align t l (version_of (u.locks l)) u (le_trans h r.1.0) refl))

  pub read_word-Seen :
      (align : ℕ) (seg : Option Segment) (t : Tx) (curr : ℕ) (l : Loc) (s : Shared)
      → t.rv ≤ s.global_version
      → Keeps (Commits hist) AnyStep (Seen t (view hist t curr l)) (read_word align seg t curr l) s
  unfolding read_word
  read_word-Seen align seg t curr l s h = elim (Option-cases (own_write t curr)) [
    | inl missing ↦ rw (missing, read_word) (read_shared-Seen align seg t l s h)
    | inr (v, e) ↦ rw (e, read_word) (refl, (refl, λ a. refl, refl), h)
  ]
