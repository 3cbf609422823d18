-- ===== src/Stm/WriteSet/Calls.antt =====
-- Whole calls: a transaction reads what it has written.
use cs453_concurrent_algorit.Prelude.{
  ℕ, ◌+◌, ◌<◌, ◌==◌, ◌≡◌, refl, ap, ◌∙◌, subst, inl, inr, Bool-cases, not, Option, none, some, List,
  [], ◌∷◌, length, arith, if◌then◌else◌,
}
use cs453_concurrent_algorit.Prog.{ret}
use cs453_concurrent_algorit.Prog.Rely.{Keeps, Keeps-bind, Keeps-mono}
use cs453_concurrent_algorit.Region.{Loc, Segment, Shared}
use cs453_concurrent_algorit.Stm.Tx.{Tx, own_write}
use cs453_concurrent_algorit.Stm.Read.{fits_int, next_place, read_word, read_words}
use cs453_concurrent_algorit.Stm.Write.{write_word, write_words, tm_write}
use cs453_concurrent_algorit.Stm.WriteSet.{IsSound}
use cs453_concurrent_algorit.Stm.WriteSet.Words.{SameAlign, set_at, Overlaid, write_word-W}

-- The overlay after the words `vs` have been written from `a` on.
abbrev pub set_range : ℕ → (ℕ → Option ℕ) → List ℕ → ℕ → ℕ → Option ℕ
set_range align m [] a = m
set_range align m (v ∷ vs) a = set_range align (set_at m a v) vs (a + align)

set_range_ext :
    (align : ℕ) (m n : ℕ → Option ℕ) (vs : List ℕ) (a b : ℕ)
    → ((c : ℕ) → m c ≡ n c)
    → set_range align m vs a b ≡ set_range align n vs a b
set_range_ext align m n [] a b h = h b
set_range_ext align m n (v ∷ vs) a b h =
    set_range_ext align (set_at m a v) (set_at n a v) vs (a + align) b
      (λ c. ap (λ o. if c == a then some v else o) (h c))

-- The transaction after the writes, unless it was aborted.
abbrev pub Covered : ℕ → Tx → List ℕ → ℕ → Option Tx → Shared → Type 0
Covered align t vs a none s = Unit {0}
Covered align t vs a (some t') s =
    IsSound t'
    × ((b : ℕ) → own_write t' b ≡ set_range align (own_write t) vs a b)
    × (t'.is_ro ≡ t.is_ro)

Covered-step :
    (align : ℕ) (t t1 : Tx) (v : ℕ) (vs : List ℕ) (a : ℕ) (r : Option Tx) (s : Shared)
    → ((b : ℕ) → own_write t1 b ≡ set_at (own_write t) a v b)
    → (t1.is_ro ≡ t.is_ro)
    → Covered align t1 vs (a + align) r s
    → Covered align t (v ∷ vs) a r s
Covered-step align t t1 v vs a none s h e c = tt
Covered-step align t t1 v vs a (some t') s h e (sound, own, ro) = (
  sound,
  λ b. own b ∙ set_range_ext align (own_write t1) (set_at (own_write t) a v) vs (a + align) b h,
  ro ∙ e,
)

write_words-Covered :
    (align : ℕ) (seg : Option Segment) (vs : List ℕ) (t : Tx) (a : ℕ) (l : Loc) (s : Shared)
    → IsSound t
    → Keeps SameAlign SameAlign (Covered align t vs a) (write_words align seg vs t a l) s
unfolding write_words
write_words-Covered align seg [] t a l s h = (h, λ b. refl, refl)
write_words-Covered align seg (v ∷ vs) t a l s h =
    Keeps-bind SameAlign SameAlign (Overlaid t a v) (Covered align t (v ∷ vs) a)
      (write_word seg t v a l) _ s (write_word-W seg t v a l s h)
      (elim [
        | none ↦ λ s' o. tt
        | some t1 ↦ λ s' o.
            Keeps-mono SameAlign SameAlign (Covered align t1 vs (a + align))
              (Covered align t (v ∷ vs) a) _ s'
              (λ r s2. Covered-step align t t1 v vs a r s2 o.1 o.2)
              (write_words-Covered align seg vs t1 (a + align) (record l { word = l.word + 1 }) s'
                o.0)
      ])

write_words-at :
    (n align : ℕ) (seg : Option Segment) (vs : List ℕ) (t : Tx) (a : ℕ) (l : Loc) (s : Shared)
    → align ≡ n
    → IsSound t
    → Keeps SameAlign SameAlign (Covered n t vs a) (write_words align seg vs t a l) s
write_words-at n align seg vs t a l s e h = rw e (write_words-Covered n seg vs t a l s h)

-- Whatever other threads do, as long as they leave the alignment alone: after `tm_write` a transaction
-- that was not aborted sees the words written at their addresses, and at every other address what it
-- saw before; its filter and its array are sound again.
pub tm_write-Covered :
    (t : Tx) (source : List ℕ) (target : ℕ) (s : Shared)
    → IsSound t
    → Keeps SameAlign SameAlign (Covered s.align t source target) (tm_write t source target) s
unfolding tm_write
tm_write-Covered t source target s h = λ s1 r1 _.
    (refl, λ s2 r2 _. (refl, write_words-at s.align s1.align _ source t target _ s2 r1 h))

-- The values of the words from `a` on, as the transaction has written them.
abbrev pub Owns : ℕ → (ℕ → Option ℕ) → List ℕ → ℕ → Type 0
Owns align m [] a = Unit {0}
Owns align m (v ∷ vs) a = (m a ≡ some v) × Owns align m vs (a + align)

set_range_below :
    (align : ℕ) (m : ℕ → Option ℕ) (vs : List ℕ) (a b : ℕ) → b < a → set_range align m vs a b ≡ m b
set_range_below align m [] a b h = refl
set_range_below align m (v ∷ vs) a b h =
    set_range_below align (set_at m a v) vs (a + align) b (omega arith) ∙ ground arith

pub set_range-Owns :
    (align : ℕ) (m : ℕ → Option ℕ) (vs : List ℕ) (a : ℕ)
    → 0 < align
    → Owns align (set_range align m vs a) vs a
set_range-Owns align m [] a h = tt
set_range-Owns align m (v ∷ vs) a h = (
  set_range_below align (set_at m a v) vs (a + align) a (omega arith) ∙ ground arith,
  set_range-Owns align (set_at m a v) vs (a + align) h,
)

pub Owns-ext :
    (align : ℕ) (m n : ℕ → Option ℕ) (vs : List ℕ) (a : ℕ)
    → ((b : ℕ) → m b ≡ n b)
    → Owns align n vs a
    → Owns align m vs a
Owns-ext align m n [] a e h = tt
Owns-ext align m n (v ∷ vs) a e h = (e a ∙ h.0, Owns-ext align m n vs (a + align) e h.1)

-- The transaction as it was, with the values.
abbrev pub ReadBack : Tx → List ℕ → Option (Tx × List ℕ) → Shared → Type 0
ReadBack t vs r s = r ≡ some (t, vs)

read_word-own :
    (align : ℕ) (seg : Option Segment) (t : Tx) (a v : ℕ) (l : Loc)
    → own_write t a ≡ some v
    → read_word align seg t a l ≡ ret (some (t, v))
unfolding read_word
read_word-own align seg t a v l e = rw (e, read_word)

pub read_words-ReadBack :
    (align : ℕ) (seg : Option Segment) (vs : List ℕ) (bytes : ℕ) (t : Tx) (source : ℕ) (l : Loc)
    (s : Shared)
    → Owns align (own_write t) vs (source + bytes)
    → Keeps SameAlign SameAlign
        (ReadBack t vs)
        (read_words align seg (length vs) bytes t source l)
        s
unfolding read_words
read_words-ReadBack align seg [] bytes t source l s h = refl
read_words-ReadBack align seg (v ∷ vs) bytes t source l s h =
    elim (Bool-cases (not (fits_int bytes))) [
      | inl over ↦ rw over tt
      | inr fits ↦
          rw (fits, read_word-own align seg t (source + bytes) v l h.0, Keeps)
            (Keeps-bind SameAlign SameAlign (ReadBack t vs) (ReadBack t (v ∷ vs))
              (read_words align seg (length vs) (bytes + align) t source (next_place l)) _ s
              (read_words-ReadBack align seg vs (bytes + align) t source (next_place l) s
                (subst (Owns align (own_write t) vs) (omega arith) h.1))
              (λ r s' e. rw e))
    ]
