-- ===== src/Barrier.antt =====
-- grading/common.hpp, `Barrier`: the spin barrier on which the threads of the grader meet. Each atomic
-- access of `sync` is one step of one thread; a thread that spins stays where it is.
pub mod Phases
use cs453_concurrent_algorit.Prelude.{
  ℕ, zero, suc, ◌+◌, ◌-◌, ◌%◌, ◌^◌, ◌≤◌, ◌<◌, ◌==◌, ◌≡◌, refl, sym, subst, Bool, true, false, List,
  [], ◌∷◌, ◌++◌, arith, length, if◌then◌else◌, inl, inr, Bool-cases,
}

pub data Mode : Type 0 where
  enter leave : Mode

-- Where a thread is: outside `sync`; about to set the mode to leave; waiting for that; before it
-- leaves; about to set the mode to enter; waiting for that.
pub data Stage : Type 0 where
  outside last_in entering inside last_out leaving : Stage

pub record Barrier : Type 0 where
  pub cardinal : ℕ
  pub step : ℕ
  pub mode : Mode
  pub threads : List Stage

abbrev pub all_outside : ℕ → List Stage
all_outside zero = []
all_outside (suc n) = outside ∷ all_outside n

-- The constructor, with that many threads.
unfoldable pub new_barrier : ℕ → Barrier
new_barrier n = record { cardinal = n; step = 0; mode = enter; threads = all_outside n }

-- The counter, the mode and the stage after one access by a thread. The counter is 64 bits wide.
unfoldable pub sync_step : ℕ → ℕ → Mode → Stage → ℕ × Mode × Stage
sync_step cardinal step mode outside =
    ((step + 1) % 2 ^ 64, mode, if (step + 1) % 2 ^ 64 == cardinal then last_in else entering)
sync_step cardinal step mode last_in = (step, leave, inside)
sync_step cardinal step enter entering = (step, enter, entering)
sync_step cardinal step leave entering = (step, leave, inside)
sync_step cardinal step mode inside = (
  (step + 2 ^ 64 - 1) % 2 ^ 64,
  mode,
  if (step + 2 ^ 64 - 1) % 2 ^ 64 == 0 then last_out else leaving,
)
sync_step cardinal step mode last_out = (step, enter, outside)
sync_step cardinal step enter leaving = (step, enter, outside)
sync_step cardinal step leave leaving = (step, leave, leaving)

abbrev pub after_step : ℕ → List Stage → List Stage → ℕ × Mode × Stage → Barrier
after_step cardinal before after (step, mode, stage) = record {
  cardinal = cardinal;
  step = step;
  mode = mode;
  threads = before ++ stage ∷ after;
}

pub data Sync : Barrier → Barrier → Type 0 where
  moves :
      (cardinal step : ℕ) (mode : Mode) (before : List Stage) (stage : Stage) (after : List Stage)
      → Sync
          (record {
            cardinal = cardinal;
            step = step;
            mode = mode;
            threads = before ++ stage ∷ after;
          })
          (after_step cardinal before after (sync_step cardinal step mode stage))

pub data Syncs (b : Barrier) : Barrier → Type 0 where
  none_yet : Syncs b b
  and_then : {c d : Barrier} → Syncs b c → Sync c d → Syncs b d
