-- ===== src/Stm/Snapshot/Calls.antt =====
-- 353607/tm.c: whole calls of `tm_read` while others commit.
use native.Mathlib.Nat.{le_trans, div-le_self}
use cs453_concurrent_algorit.Prelude.{
  ℕ, zero, suc, ◌+◌, ◌/◌, ◌^◌, ◌≤◌, ◌<◌, ◌≡◌, refl, sym, ap, ◌∙◌, subst, true, false, not, Option,
  none, some, List, [], ◌∷◌, arith, if◌then◌else◌,
}
use cs453_concurrent_algorit.Prog.Rely.{Keeps, Keeps-bind}
use cs453_concurrent_algorit.Region.{Loc, Segment, Shared}
use cs453_concurrent_algorit.Address.{index_from_va, offset_from_va}
use cs453_concurrent_algorit.Stm.Tx.{Tx, own_write}
use cs453_concurrent_algorit.Stm.End.Result.{if_false}
use cs453_concurrent_algorit.Stm.Read.{
  int_of, fits_int, start_word, next_place, read_word, read_words, ro_transaction_read,
  rw_transaction_read, tm_read,
}
use cs453_concurrent_algorit.Stm.Snapshot.{
  view, view_words, Commits, AnyStep, SameView, Keeps-if, Seen, read_word-Seen,
}

module _ (hist : ℕ → Loc → ℕ) where
  -- All words of a call.
  abbrev pub SeenAll : Tx → List ℕ → Option (Tx × List ℕ) → Shared → Type 0
  SeenAll t values none u = Unit {0}
  SeenAll t values (some (t', vs)) u = (vs ≡ values) × SameView t t'

  same_trans : (t t' t'' : Tx) → SameView t t' → SameView t' t'' → SameView t t''
  same_trans t t' t'' p q = (q.0 ∙ p.0, λ a. q.1 a ∙ p.1 a, q.2 ∙ p.2)

  SeenAll-cons :
      (t t' : Tx) (v value : ℕ) (values : List ℕ) (q : Option (Tx × List ℕ)) (u : Shared)
      → v ≡ value
      → SameView t t'
      → SeenAll t' values q u
      → SeenAll t (value ∷ values) (elim q [ none ↦ none | some (t'', vs) ↦ some (t'', v ∷ vs) ]) u
  SeenAll-cons t t' v value values none u e same h = tt
  SeenAll-cons t t' v value values (some (t'', vs)) u e same h =
      (rw (e, h.0) refl, same_trans t t' t'' same h.1)

  -- The words as the loop finds them.
  abbrev found_words : Tx → ℕ → ℕ → ℕ → ℕ → Loc → List ℕ
  found_words t align zero bytes source l = []
  found_words t align (suc n) bytes source l =
      view hist t (source + bytes) l ∷ found_words t align n (bytes + align) source (next_place l)

  found_words-same :
      (t t' : Tx) (align n bytes source : ℕ) (l : Loc)
      → SameView t t'
      → found_words t' align n bytes source l ≡ found_words t align n bytes source l
  unfolding own_write
  found_words-same t t' align zero bytes source l e = refl
  found_words-same t t' align (suc n) bytes source l e =
      rw
        (
          e.0,
          e.1 (source + bytes),
          found_words-same t t' align n (bytes + align) source (next_place l) e,
        )
        refl

  -- While the places are within the range of an `int`, they are the places one after the other.
  found_words-view_words :
      (t : Tx) (align n bytes source : ℕ) (l : Loc)
      → l.word + n < 2 ^ 32
      → found_words t align n bytes source l ≡ view_words hist t align n (source + bytes) l
  found_words-view_words t align zero bytes source l h = refl
  found_words-view_words t align (suc n) bytes source l h =
      let place : int_of (l.word + 1) ≡ l.word + 1 = omega arith in
      let address : source + (bytes + align) ≡ source + bytes + align = omega arith in
      ap (λ vs. view hist t (source + bytes) l ∷ vs)
        (found_words-view_words t align n (bytes + align) source (next_place l)
            (omega (arith, place))
          ∙ rw (place, address) refl)

  read_words-SeenAll :
      (align : ℕ) (seg : Option Segment) (n bytes : ℕ) (t : Tx) (source : ℕ) (l : Loc) (s : Shared)
      → t.rv ≤ s.global_version
      → Keeps
          (Commits hist)
          AnyStep
          (SeenAll t (found_words t align n bytes source l))
          (read_words align seg n bytes t source l)
          s
  unfolding read_words
  read_words-SeenAll align seg zero bytes t source l s h = (refl, (refl, λ a. refl, refl))
  read_words-SeenAll align seg (suc n) bytes t source l s h =
      Keeps-if hist (SeenAll t (found_words t align (suc n) bytes source l)) (not (fits_int bytes))
        _ _ s tt
        (Keeps-bind (Commits hist) AnyStep (Seen hist t (view hist t curr l))
          (SeenAll t (found_words t align (suc n) bytes source l)) (read_word align seg t curr l) _
          s (read_word-Seen hist align seg t curr l s h)
          (elim [
            | none ↦ λ u p. tt
            | some (t', v) ↦ λ u p.
                Keeps-bind (Commits hist) AnyStep
                  (SeenAll t' (found_words t' align n (bytes + align) source (next_place l)))
                  (SeenAll t (found_words t align (suc n) bytes source l))
                  (read_words align seg n (bytes + align) t' source (next_place l)) _ u
                  (read_words-SeenAll align seg n (bytes + align) t' source (next_place l) u
                    (rw p.1.0 p.2))
                  (λ q x k.
                    subst
                      (λ vs.
                        SeenAll t (view hist t curr l ∷ vs)
                          (elim q [ none ↦ none | some (t'', ws) ↦ some (t'', v ∷ ws) ]) x)
                      (found_words-same t t' align n (bytes + align) source (next_place l) p.1)
                      (SeenAll-cons t t' v (view hist t curr l)
                        (found_words t' align n (bytes + align) source (next_place l)) q x p.0 p.1
                        k))
          ]))
    where
      curr : ℕ
      curr = source + bytes

-- Below 2^31 the `int` is the offset.
start_word-exact :
    (align source : ℕ)
    → offset_from_va source < 2 ^ 31
    → start_word align source ≡ offset_from_va source / align
start_word-exact align source h =
    let same : int_of (offset_from_va source) ≡ offset_from_va source = omega (arith, h) in
    let fits : fits_int (offset_from_va source) ≡ true = ground (arith, h) in rw (same, fits) refl

rw_transaction_read-SeenAll :
    (hist : ℕ → Loc → ℕ) (align : ℕ) (t : Tx) (source size : ℕ) (s : Shared)
    → t.rv ≤ s.global_version
    → offset_from_va source + size < 2 ^ 31
    → Keeps
        (Commits hist)
        AnyStep
        (SeenAll hist t (
          view_words hist t align
            (size / align)
            source
            (record { spot = index_from_va source; word = offset_from_va source / align })))
        (rw_transaction_read align t source size)
        s
unfolding rw_transaction_read
rw_transaction_read-SeenAll hist align t source size s h small = λ s1 r1 _. (
  tt,
  subst
      (λ vs.
        Keeps (Commits hist) AnyStep (SeenAll hist t vs)
          (read_words align (s1.va_arr (index_from_va source)) (size / align) 0 t source start) s1)
      words
      (read_words-SeenAll hist align (s1.va_arr (index_from_va source)) (size / align) 0 t source
        start s1 (le_trans h r1.1.0)),
)
  where
    start : Loc
    start = record { spot = index_from_va source; word = start_word align source }

    first : start_word align source ≡ offset_from_va source / align
    first = start_word-exact align source (omega (arith, small))

    words :
        found_words hist t align (size / align) 0 source start
        ≡ view_words hist t align
            (size / align)
            source
            (record { spot = index_from_va source; word = offset_from_va source / align })
    words =
        found_words-view_words hist t align (size / align) 0 source start (
          omega (
            arith,
            small,
            first,
            div-le_self (offset_from_va source) align,
            div-le_self size align,
          ))
        ∙ ap (λ a. view_words hist t align (size / align) a start) (omega arith)
        ∙ ap
            (λ w.
              view_words hist t align (size / align) source
                (record { spot = index_from_va source; word = w }))
            first

-- While other threads keep the alignment, never take the clock or the version of a word back, and
-- leave a word free only if it had its value of the history before, or with a larger version: a
-- `tm_read` of a read-write transaction whose version is not beyond the clock, and whose range ends
-- less than 2^31 bytes into its segment (further on the source cuts the offset), can return only, for
-- each word in order, what the transaction has written there, or else the value of the word at the
-- transaction's version, with its version and its writes as they were.
pub tm_read-SeenAll :
    (hist : ℕ → Loc → ℕ) (t : Tx) (source size : ℕ) (s : Shared)
    → t.is_ro ≡ false
    → t.rv ≤ s.global_version
    → offset_from_va source + size < 2 ^ 31
    → Keeps
        (Commits hist)
        AnyStep
        (SeenAll hist t (
          view_words hist t s.align
            (size / s.align)
            source
            (record { spot = index_from_va source; word = offset_from_va source / s.align })))
        (tm_read t source size)
        s
unfolding tm_read
tm_read-SeenAll hist t source size s rw_tx h small = λ s1 r1 _. (
  tt,
  subst
      (λ n.
        Keeps (Commits hist) AnyStep
          (SeenAll hist t (
            view_words hist t n (size / n) source
              (record { spot = index_from_va source; word = offset_from_va source / n })))
          (if t.is_ro
            then ro_transaction_read s1.align t source size
            else rw_transaction_read s1.align t source size)
          s1)
      r1.0
      (subst
        (λ m.
          Keeps (Commits hist) AnyStep
            (SeenAll hist t (
              view_words hist t s1.align (size / s1.align) source
                (record { spot = index_from_va source; word = offset_from_va source / s1.align })))
            m s1)
        (sym (if_false t.is_ro _ _ rw_tx))
        (rw_transaction_read-SeenAll hist s1.align t source size s1 (le_trans h r1.1.0) small)),
)
