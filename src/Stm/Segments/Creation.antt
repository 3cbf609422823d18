-- ===== src/Stm/Segments/Creation.antt =====
-- 353607/tm.c: the region that `tm_create` makes when every allocation succeeds.
use cs453_concurrent_algorit.Prelude.{
  ℕ, ◌+◌, ◌/◌, ◌≡◌, refl, sym, ◌∙◌, subst, Bool, true, false, none, some, [], arith, if◌then◌else◌,
}
use cs453_concurrent_algorit.Prog.{Prog, ret, fault, ◌>>=◌, Ends, Ends-bind}
use cs453_concurrent_algorit.Region.{Loc, Segment, Shared}
use cs453_concurrent_algorit.Stm.Cleanup.{in_segment, segment_init}
use cs453_concurrent_algorit.Stm.Lifecycle.{fresh, tm_create, tm_size, tm_align}
use cs453_concurrent_algorit.Stm.Segments.{Made, Around, Success, segment_init-Made}

-- A client that makes a region and asks for its size and its alignment.
unfoldable pub create_and_ask : ℕ → ℕ → Prog Shared (Bool × ℕ × ℕ)
create_and_ask size align =
    tm_create size align >>= λ ok. tm_size >>= λ n. tm_align >>= λ a. ret (ok, n, a)

-- A region with one segment, of zeros at version 0, and with no transaction.
abbrev pub IsNew : ℕ → ℕ → Shared → Type 0
IsNew size align u =
    (u.va_arr 0 ≡ some (record { size = size; num_words = size / align }))
    × (u.va_n ≡ 1)
    × (u.align ≡ align)
    × (u.global_version ≡ 0)
    × (u.readers ≡ 0)
    × (u.writer ≡ false)
    × ((l : Loc)
        → in_segment 0 (record { size = size; num_words = size / align }) l ≡ true
        → (u.words l ≡ 0) × (u.locks l ≡ 0))

abbrev Created : ℕ → ℕ → Bool → Shared → Type 0
Created size align ok u = (ok ≡ true) × IsNew size align u

zero_there : (b : Bool) (n old : ℕ) → n ≡ (if b then 0 else old) → b ≡ true → n ≡ 0
zero_there b n old e h = ground arith

Success-IsNew :
    (size align : ℕ) (s u : Shared)
    → Made 0 (record { size = size; num_words = size / align }) s u × Around s u
    → s.align ≡ align
    → s.va_n ≡ 0
    → s.global_version ≡ 0
    → s.readers ≡ 0
    → s.writer ≡ false
    → IsNew size align (record u { va_n = u.va_n + 1 })
Success-IsNew size align s u h a n v r w = (
  h.0.0 0,
  omega (arith, h.1.1, n),
  h.1.0 ∙ a,
  h.0.3 ∙ v,
  h.1.2 ∙ r,
  h.1.3 ∙ w,
  λ l inside. (
    zero_there _ (u.words l) (s.words l) (h.0.1 l) inside,
    zero_there _ (u.locks l) (s.locks l) (h.0.2 l) inside,
  ),
)

tm_create-Created :
    (size align : ℕ) (s : Shared)
    → s.mallocs ≡ []
    → Ends (Created size align) (tm_create size align) s
unfolding tm_create
tm_create-Created size align s e =
    subst (λ l. Ends (Created size align) (tm_create size align) (record s { mallocs = l })) (sym e)
      (
        refl,
        (
          refl,
          (
            refl,
            (
              refl,
              Ends-bind (Success 0 g start) (Created size align) (segment_init 0 size align) _ start
                  (segment_init-Made 0 size align start refl)
                  (elim [
                    | true ↦ λ u q. (
                      refl,
                      (refl, Success-IsNew size align start u q.1 refl refl refl refl refl),
                    )
                    | false ↦ λ u q. cc
                  ]),
            ),
          ),
        ),
      )
  where
    g : Segment
    g = record { size = size; num_words = size / align }

    start : Shared
    start = fresh align (record s { mallocs = [] })

-- The answers of that client.
abbrev pub Answers : ℕ → ℕ → Bool × ℕ × ℕ → Shared → Type 0
Answers size align (ok, n, a) u = (ok ≡ true) × (n ≡ size) × (a ≡ align) × IsNew size align u

asked :
    (size align : ℕ) (ok : Bool) (u : Shared)
    → Created size align ok u
    → Ends (Answers size align) (tm_size >>= λ n. tm_align >>= λ a. ret (ok, n, a)) u
unfolding tm_size tm_align
asked size align ok u c = (
  refl,
  subst
      (λ o.
        Ends (Answers size align)
          (elim o [ none ↦ fault | some g ↦ ret g.size ] >>= λ n. tm_align >>= λ a. ret (ok, n, a))
          u)
      (sym c.1.0) (refl, (c.0, refl, c.1.2, c.1)),
)

-- A `tm_create` that is not interrupted, in any memory in which every allocation succeeds: it succeeds,
-- `tm_size` and `tm_align` answer with the size and the alignment asked for, and the region has one
-- segment, of that size, whose words are zero and whose locks are free at version 0; the clock is 0
-- and no transaction is open.
pub create_and_ask-IsNew :
    (size align : ℕ) (s : Shared)
    → s.mallocs ≡ []
    → Ends (Answers size align) (create_and_ask size align) s
unfolding create_and_ask
create_and_ask-IsNew size align s e =
    Ends-bind (Created size align) _ (tm_create size align) _ s (tm_create-Created size align s e)
      (asked size align)
