-- ===== src/Tests/WaitFree.antt =====
-- A transaction that has written a word: the steps that its reads, its writes and its commit need.
use cs453_concurrent_algorit.Prelude.{ℕ, ◌+◌, ◌*◌, refl, [], ◌∷◌, length}
use cs453_concurrent_algorit.Prog.Within.{Within}
use cs453_concurrent_algorit.Stm.Read.{tm_read}
use cs453_concurrent_algorit.Stm.Write.{tm_write}
use cs453_concurrent_algorit.Stm.End.{acquire}
use cs453_concurrent_algorit.Stm.WaitFree.{tm_read-Within, tm_write-Within}
use cs453_concurrent_algorit.Stm.WaitFree.Acquire.{acquire-Within}
use cs453_concurrent_algorit.Tests.{base, wrote}

tm_read-Within_example : Within (2 + 4 * 16) (tm_read wrote base 16)
tm_read-Within_example = tm_read-Within wrote base 16 refl

tm_write-Within_example :
    Within (2 + 4 * length {A = ℕ} (5 ∷ 6 ∷ [])) (tm_write wrote (5 ∷ 6 ∷ []) base)
tm_write-Within_example = tm_write-Within wrote (5 ∷ 6 ∷ []) base

acquire-Within_example : Within (4 * length wrote.ws + length wrote.rs + 1) (acquire wrote wrote.ws)
acquire-Within_example = acquire-Within wrote wrote.ws
