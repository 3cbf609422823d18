-- ===== src/Examples/Lock.antt =====
-- sync-examples/lock.c and reference/lock.c: a mutex with a condition variable, around a program's
-- data. `pthread_cond_wait` may be allowed to return without a wake-up.
pub mod Rules
use cs453_concurrent_algorit.Prelude.{
  ℕ, ◌+◌, ◌==◌, ◌&&◌, ◌||◌, Bool, true, false, not, if◌then◌else◌,
}
use cs453_concurrent_algorit.Prog.{Prog, ret, act, atomic, get, modify, await, ◌>>=◌, ◌>>◌}

-- `wake_ups` counts the broadcasts.
pub record Guarded (D : Type 0) : Type 0 where
  pub held : Bool
  pub wake_ups : ℕ
  pub spurious : Bool
  pub data_ : D

-- The results of `pthread_mutex_init` and `pthread_cond_init`, of which the second is asked for only
-- after a success.
unfoldable pub lock_init : Bool → Bool → Bool
lock_init mutex_ok cv_ok = mutex_ok && cv_ok

module _ {D : Type 0} where
  abbrev pub taken : Guarded D → Guarded D
  taken s = record s { held = true }

  abbrev pub given_back : Guarded D → Guarded D
  given_back s = record s { held = false }

  unfoldable pub lock_acquire : Prog (Guarded D) (Unit {0})
  lock_acquire = await (λ s. not s.held) taken

  unfoldable pub lock_release : Prog (Guarded D) (Unit {0})
  lock_release = modify given_back

  -- The lock is given back and the wait begins at once; the lock is taken again before it returns.
  unfoldable pub lock_wait : Prog (Guarded D) (Unit {0})
  lock_wait = do
    seen ← atomic given_back (λ s. s.wake_ups)
    await (λ s. not s.held && (s.spurious || not (s.wake_ups == seen))) taken

  unfoldable pub lock_wake_up : Prog (Guarded D) (Unit {0})
  lock_wake_up = modify (λ s. record s { wake_ups = s.wake_ups + 1 })

  -- A look at the data, and a change to them.
  abbrev pub look : {A : Type 0} → (D → A) → Prog (Guarded D) A
  look g = get (λ s. g s.data_)

  abbrev pub change : (D → D) → Prog (Guarded D) (Unit {0})
  change f = modify (λ s. record s { data_ = f s.data_ })
