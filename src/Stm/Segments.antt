-- ===== src/Stm/Segments.antt =====
-- 353607/tm.c: `segment_init` and `tm_alloc` when every allocation succeeds.
pub mod Creation
use cs453_concurrent_algorit.Prelude.{
  ℕ, zero, suc, ◌+◌, ◌/◌, ◌==◌, ◌&&◌, ◌≡◌, refl, sym, ap, ◌∙◌, subst, Bool, true, none, some, List,
  [], arith, ltb, leb, if◌then◌else◌,
}
use cs453_concurrent_algorit.Prog.{Prog, fault, modify, ◌>>◌, ◌>>=◌, Ends, Ends-bind, Ends-mono}
use cs453_concurrent_algorit.Region.{Loc, Segment, Shared, answer, answers_left, malloc}
use cs453_concurrent_algorit.Address.{va_from_index}
use cs453_concurrent_algorit.VersionedLock.{vl_init}
use cs453_concurrent_algorit.Stm.Cleanup.{
  set_segment, in_segment, init_locks, segment_locks, segment_zero, segment_fill, segment_init,
}
use cs453_concurrent_algorit.Stm.Alloc.{Alloc, success, spot_taken, spots_left, next_spot}
use cs453_concurrent_algorit.Stm.End.Locks.{OnlyLocks}

-- The locks `i`, …, `i + n - 1` of a segment.
abbrev in_range : ℕ → ℕ → ℕ → Loc → Bool
in_range spot i n l = l.spot == spot && leb i l.word && ltb l.word (i + n)

abbrev Zeroed : ℕ → ℕ → ℕ → Shared → Unit {0} → Shared → Type 0
Zeroed spot i n s r u =
    OnlyLocks s u × ((l : Loc) → u.locks l ≡ (if in_range spot i n l then 0 else s.locks l))

init_locks-Zeroed : (spot i n : ℕ) (s : Shared) → Ends (Zeroed spot i n s) (init_locks spot i n) s
unfolding init_locks vl_init
init_locks-Zeroed spot i zero s = (refl, λ l. ground arith)
init_locks-Zeroed spot i (suc n) s = (
  refl,
  Ends-mono (Zeroed spot (i + 1) n _) (Zeroed spot i (suc n) s) (init_locks spot (i + 1) n) _
      (λ r u z. (z.0, λ l. z.1 l ∙ ground arith)) (init_locks-Zeroed spot (i + 1) n _),
)

-- The segment is in place and zero, words and locks; every other word, lock and segment is as it was.
abbrev pub Made : ℕ → Segment → Shared → Shared → Type 0
Made spot g s u =
    ((i : ℕ) → u.va_arr i ≡ (if spot == i then some g else s.va_arr i))
    × ((l : Loc) → u.words l ≡ (if in_segment spot g l then 0 else s.words l))
    × ((l : Loc) → u.locks l ≡ (if in_segment spot g l then 0 else s.locks l))
    × (u.global_version ≡ s.global_version)

-- What a new segment does not touch.
abbrev pub Around : Shared → Shared → Type 0
Around s u =
    (u.align ≡ s.align)
    × (u.va_n ≡ s.va_n)
    × (u.readers ≡ s.readers)
    × (u.writer ≡ s.writer)
    × (u.empty_spots ≡ s.empty_spots)

abbrev pub Success : ℕ → Segment → Shared → Bool → Shared → Type 0
Success spot g s ok u = (ok ≡ true) × (Made spot g s u × Around s u)

-- An allocation, while all succeed.
Ends-malloc :
    {A : Type 0} (Q : A → Shared → Type 0) (k : Bool → Prog Shared A) (s : Shared)
    → s.mallocs ≡ []
    → Ends Q (k true) (record s { mallocs = answers_left s.mallocs })
    → Ends Q (malloc >>= k) s
Ends-malloc Q k s e h = (
  refl,
  subst (λ b. Ends Q (k b) (record s { mallocs = answers_left s.mallocs })) (sym (ap answer e)) h,
)

Ends-answer :
    {A : Type 0} (Q : A → Shared → Type 0) (m n : Prog Shared A) (l : List Bool) (s : Shared)
    → l ≡ []
    → Ends Q m s
    → Ends Q (if answer l then m else n) s
Ends-answer Q m n l s e h = subst (λ b. Ends Q (if b then m else n) s) (sym (ap answer e)) h

segment_locks-Success :
    (spot : ℕ) (g : Segment) (s : Shared)
    → Ends (λ ok u. (ok ≡ true) × Zeroed spot 0 g.num_words s tt u) (segment_locks spot g) s
unfolding segment_locks
segment_locks-Success spot g s =
    Ends-bind (Zeroed spot 0 g.num_words s) _ (init_locks spot 0 g.num_words) _ s
      (init_locks-Zeroed spot 0 g.num_words s) (λ r u z. (refl, z))

segment_locks-Made :
    (spot : ℕ) (g : Segment) (s w : Shared)
    → ((i : ℕ) → w.va_arr i ≡ (if spot == i then some g else s.va_arr i))
    → ((l : Loc) → w.words l ≡ (if in_segment spot g l then 0 else s.words l))
    → (w.locks ≡ s.locks)
    → (w.global_version ≡ s.global_version)
    → Around s w
    → Ends (Success spot g s) (segment_locks spot g) w
segment_locks-Made spot g s w segs words locks clock around =
    Ends-mono (λ ok u. (ok ≡ true) × Zeroed spot 0 g.num_words w tt u) (Success spot g s)
      (segment_locks spot g) w
      (λ ok u z. (
        z.0,
        (
          (
            λ i. ap (λ y. y.va_arr i) z.1.0 ∙ segs i,
            λ l. ap (λ y. y.words l) z.1.0 ∙ words l,
            λ l. z.1.1 l ∙ ground (arith, locks),
            ap (λ y. y.global_version) z.1.0 ∙ clock,
          ),
          (
            ap (λ y. y.align) z.1.0 ∙ around.0,
            ap (λ y. y.va_n) z.1.0 ∙ around.1,
            ap (λ y. y.readers) z.1.0 ∙ around.2,
            ap (λ y. y.writer) z.1.0 ∙ around.3,
            ap (λ y. y.empty_spots) z.1.0 ∙ around.4,
          ),
        ),
      ))
      (segment_locks-Success spot g w)

pub segment_init-Made :
    (spot size align : ℕ) (s : Shared)
    → s.mallocs ≡ []
    → Ends
        (Success spot (record { size = size; num_words = size / align }) s)
        (segment_init spot size align)
        s
unfolding segment_init segment_fill segment_zero
segment_init-Made spot size align s e =
    Ends-malloc (Success spot g s)
      (λ made.
        modify (set_segment spot (if made then some g else none))
        >> (if made then segment_fill spot g else fault))
      s e
      (
        refl,
        (
          refl,
          Ends-answer (Success spot g s) _ _ (answers_left s.mallocs) _ (ap answers_left e) (
            refl,
            (
              refl,
              Ends-answer (Success spot g s) _ _ (answers_left (answers_left s.mallocs)) _
                  (ap (λ m. answers_left (answers_left m)) e)
                  (segment_locks-Made spot g s _ (λ i. refl) (λ l. refl) refl refl
                    (refl, refl, refl, refl, refl)),
            ),
          ),
        ),
      )
  where
    g : Segment
    g = record { size = size; num_words = size / align }

-- The answer of `tm_alloc` and the memory after it: the new segment at the spot, all zeros.
abbrev pub Allocates : ℕ → Shared → Alloc → Shared → Type 0
Allocates size s r u =
    let spot = spot_taken s.empty_spots s.va_n in
    (r ≡ success (va_from_index spot 0))
    × Made spot (record { size = size; num_words = size / s.align }) s u
    × (u.empty_spots ≡ spots_left s.empty_spots)
    × (u.va_n ≡ next_spot s.empty_spots s.va_n)
