-- ===== src/Stm/Session.antt =====
-- A client of tm.c as the headers require it: each transaction is begun, makes its calls until one
-- aborts it, and is ended. What it calls next may depend on the values that it has read.
use cs453_concurrent_algorit.Prelude.{ℕ, Bool, none, some, List, [], ◌∷◌}
use cs453_concurrent_algorit.Prog.{Prog, ret, ◌>>=◌}
use cs453_concurrent_algorit.Region.{Shared}
use cs453_concurrent_algorit.Bloom.{Bf}
use cs453_concurrent_algorit.Stm.Tx.{Tx}
use cs453_concurrent_algorit.Stm.Lifecycle.{tm_begin}
use cs453_concurrent_algorit.Stm.Read.{tm_read}
use cs453_concurrent_algorit.Stm.Write.{tm_write}
use cs453_concurrent_algorit.Stm.Alloc.{Alloc, tm_alloc, tm_free}
use cs453_concurrent_algorit.Stm.End.{tm_end}

pub data Client : Type 0 where
  finish : Client
  reads : ℕ → ℕ → (List ℕ → Client) → Client
  writes : List ℕ → ℕ → Client → Client
  allocs : ℕ → (Alloc → Client) → Client
  frees : ℕ → Client → Client

-- The calls of one transaction; whether it committed.
unfoldable pub calls : Client → Tx → Prog Shared Bool
calls finish t = tm_end t
calls (reads source size next) t = tm_read t source size >>= λ r. elim r [
  | none ↦ ret Bool.false
  | some (t', vs) ↦ calls (next vs) t'
]
calls (writes source target next) t =
    tm_write t source target >>= λ r. elim r [ none ↦ ret Bool.false | some t' ↦ calls next t' ]
calls (allocs size next) t = tm_alloc size >>= λ r. calls (next r) t
calls (frees target next) t =
    tm_free t target >>= λ r. elim r [ none ↦ ret Bool.false | some t' ↦ calls next t' ]

unfoldable pub transaction : Bf → Bool → Client → Prog Shared Bool
transaction raw is_ro c =
    tm_begin raw is_ro >>= λ r. elim r [ none ↦ ret Bool.false | some t ↦ calls c t ]

-- A thread that runs transactions one after the other.
unfoldable pub session : Bf → List (Bool × Client) → Prog Shared (Unit {0})
session raw [] = ret tt
session raw ((is_ro, c) ∷ cs) = transaction raw is_ro c >>= λ _. session raw cs
