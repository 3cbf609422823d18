-- ===== src/VersionedLock.antt =====
-- 353607/versioned_lock.c: a lock and a version in one atomic word, twice the version plus one while
-- it is locked. The word is a number without bound; Stm.Clock bounds it by the number of commits.
pub mod Race
use cs453_concurrent_algorit.Prelude.{
  ℕ, ◌+◌, ◌-◌, ◌*◌, ◌/◌, ◌%◌, ◌==◌, ◌||◌, Bool, true, false, Option, none, some, ltb, if◌then◌else◌,
}
use cs453_concurrent_algorit.Prog.{Prog, act, ret, fault, atomic, get, modify, ◌>>=◌}
use cs453_concurrent_algorit.Region.{Loc, Shared, store}

-- `w & 0x1`
abbrev pub is_locked : ℕ → Bool
is_locked w = w % 2 == 1

-- `w >> 1`
abbrev pub version : ℕ → ℕ
version w = w / 2

-- `w | 0x1`
abbrev pub with_lock : ℕ → ℕ
with_lock w = w / 2 * 2 + 1

abbrev pub set_lock : Loc → ℕ → Shared → Shared
set_lock l w s = record s { locks = store s.locks l w }

unfoldable pub vl_init : Loc → Prog Shared (Unit {0})
vl_init l = modify (set_lock l 0)

-- `atomic_compare_exchange_strong`
abbrev pub compare_exchange : Loc → ℕ → ℕ → Prog Shared Bool
compare_exchange l expected desired =
    atomic (λ s. if s.locks l == expected then set_lock l desired s else s)
      (λ s. s.locks l == expected)

unfoldable pub vl_try_lock : Loc → ℕ → Prog Shared Bool
vl_try_lock l rv = do
  prev ← get (λ s. s.locks l)
  if is_locked prev || ltb rv (version prev)
      then ret false
      else compare_exchange l prev (with_lock prev)

-- `none` for -1
abbrev pub version_of : ℕ → Option ℕ
version_of w = if is_locked w then none else some (version w)

unfoldable pub vl_read_version : Loc → Prog Shared (Option ℕ)
vl_read_version l = get (λ s. version_of (s.locks l))

-- A word of 0 would become -1, which is no lock word.
unfoldable pub vl_unlock : Loc → Prog Shared (Unit {0})
vl_unlock l =
    act (λ _. true) (λ s. set_lock l (s.locks l - 1) s)
      (λ s. if s.locks l == 0 then fault else ret tt)

unfoldable pub vl_unlock_update : Loc → ℕ → Prog Shared (Unit {0})
vl_unlock_update l v = modify (set_lock l (v * 2))
