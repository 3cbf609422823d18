-- ===== src/Stm/End/Frees.antt =====
-- The last part of `tm_end`: the segments to free.
use mathlib.Core.List.{append-nil, append_assoc}
use cs453_concurrent_algorit.Prelude.{
  ℕ, ◌≡◌, refl, sym, ap, ◌∙◌, inl, inr, true, false, List, [], ◌∷◌, ◌++◌, leb, arith, Bool-cases,
  length,
}
use cs453_concurrent_algorit.Prog.{Ends, Ends-bind, Ends-mono}
use cs453_concurrent_algorit.Region.{Shared}
use cs453_concurrent_algorit.Stm.Tx.{free_batchsize}
use cs453_concurrent_algorit.Stm.Cleanup.{delete_segment, delete_segments}
use cs453_concurrent_algorit.Stm.End.{push_one, push_all, hand_over_frees, free_spots, free_batch}

-- What the end of a commit leaves alone.
abbrev pub SameMemory : Shared → Shared → Type 0
SameMemory s u = (u.words ≡ s.words) × (u.locks ≡ s.locks) × (u.global_version ≡ s.global_version)

-- ... while every allocation succeeds.
abbrev pub Kept : Shared → Unit {0} → Shared → Type 0
Kept s _ u = SameMemory s u × (u.mallocs ≡ [])

delete_segment-Kept :
    (spot : ℕ) (s : Shared) → s.mallocs ≡ [] → Ends (Kept s) (delete_segment spot) s
unfolding delete_segment
delete_segment-Kept spot s e = ground arith

delete_segments-Kept :
    (spots : List ℕ) (s : Shared) → s.mallocs ≡ [] → Ends (Kept s) (delete_segments spots) s
unfolding delete_segments
delete_segments-Kept [] s e = ((refl, refl, refl), e)
delete_segments-Kept (spot ∷ spots) s e =
    Ends-bind (Kept s) (Kept s) (delete_segment spot) _ s (delete_segment-Kept spot s e) (λ _ u k.
      Ends-mono (Kept u) (Kept s) (delete_segments spots) u (λ _ v j. ground arith)
        (delete_segments-Kept spots u k.1))

-- The buffer holds the spots that were handed over.
abbrev pub Pushed : List ℕ → Shared → Unit {0} → Shared → Type 0
Pushed spots s _ u =
    Kept s tt u × (u.readers ≡ s.readers) × (u.writer ≡ s.writer) × (u.to_free ≡ s.to_free ++ spots)

push_one-Pushed :
    (spot : ℕ) (s : Shared) → s.mallocs ≡ [] → Ends (Pushed (spot ∷ []) s) (push_one spot) s
unfolding push_one
push_one-Pushed spot s e = ground arith

push_all-Pushed :
    (spots : List ℕ) (s : Shared) → s.mallocs ≡ [] → Ends (Pushed spots s) (push_all spots) s
unfolding push_all
push_all-Pushed [] s e = (((refl, refl, refl), e), refl, refl, sym (append-nil s.to_free))
push_all-Pushed (spot ∷ spots) s e =
    Ends-bind (Pushed (spot ∷ []) s) (Pushed (spot ∷ spots) s) (push_one spot) _ s
      (push_one-Pushed spot s e)
      (λ _ u k.
        Ends-mono (Pushed spots u) (Pushed (spot ∷ spots) s) (push_all spots) u
          (λ _ v j. (
            ground arith,
            j.1 ∙ k.1,
            j.2 ∙ k.2,
            j.3 ∙ ap (λ l. l ++ spots) k.3 ∙ append_assoc s.to_free (spot ∷ []) spots,
          ))
          (push_all-Pushed spots u k.0.1))

pub hand_over_frees-Pushed :
    (spots : List ℕ) (s : Shared)
    → s.mallocs ≡ []
    → s.to_free_locked ≡ false
    → Ends (Pushed spots s) (hand_over_frees spots) s
unfolding hand_over_frees
hand_over_frees-Pushed [] s e q = (((refl, refl, refl), e), refl, refl, sym (append-nil s.to_free))
hand_over_frees-Pushed (spot ∷ spots) s e q = (
  ground arith,
  Ends-bind (Pushed (spot ∷ spots) s) (Pushed (spot ∷ spots) s) (push_all (spot ∷ spots)) _ _
      (push_all-Pushed (spot ∷ spots) (record s { to_free_locked = true }) e) (λ _ u k. (refl, k)),
)

free_spots-Kept :
    (spots : List ℕ) (s : Shared) → s.mallocs ≡ [] → Ends (Kept s) (free_spots spots) s
unfolding free_spots
free_spots-Kept spots s e =
    Ends-bind (Kept s) (Kept s) (delete_segments spots) _ s (delete_segments-Kept spots s e)
      (λ _ u k. ground arith)

pub free_batch-Kept :
    (s : Shared) → s.mallocs ≡ [] → s.writer ≡ false → s.readers ≡ 0 → Ends (Kept s) free_batch s
unfolding free_batch
free_batch-Kept s e w r = (
  refl,
  elim (Bool-cases (leb free_batchsize (length s.to_free))) [
    | inl full ↦
        rw full (ground arith, (refl, free_spots-Kept s.to_free (record s { writer = true }) e))
    | inr more ↦ rw more ((refl, refl, refl), e)
  ],
)
