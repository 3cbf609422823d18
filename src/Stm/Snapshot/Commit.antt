-- ===== src/Stm/Snapshot/Commit.antt =====
-- 353607/tm.c: the commit of `tm_end` is what the reads of others are ready for.
use cs453_concurrent_algorit.Prelude.{ℕ, ◌+◌, ◌≡◌}
use cs453_concurrent_algorit.Region.{Loc, Shared}
use cs453_concurrent_algorit.Stm.Tx.{Tx}
use cs453_concurrent_algorit.Stm.Snapshot.{Clean, Commits}

-- The memory after the commit is clean for a history that has its words at the new version.
abbrev pub Continues : (ℕ → Loc → ℕ) → Shared → Shared → Type 0
Continues hist s u =
    Commits hist s u
    × (((l : Loc) → hist (s.global_version + 1) l ≡ u.words l) → (l : Loc) → Clean hist u l)
