-- ===== src/Stm/WriteSet/Words.antt =====
-- One word of `tm_write`, whatever other threads do meanwhile.
use cs453_concurrent_algorit.Prelude.{
  ℕ, ◌<◌, ◌==◌, ◌≡◌, refl, sym, ap, ◌∙◌, Bool, true, false, Option, none, some, [], ◌∷◌, length,
  All-map, All-append, arith, Bool-cases, inl, inr, if◌then◌else◌, length-append,
}
use cs453_concurrent_algorit.Prog.{Prog}
use cs453_concurrent_algorit.Prog.Rely.{Keeps, Keeps-mono}
use cs453_concurrent_algorit.Bloom.{bf_in}
use cs453_concurrent_algorit.Bloom.Members.{bf_in-add_self, bf_in-add_keep}
use cs453_concurrent_algorit.Region.{Loc, Segment, Shared, answer}
use cs453_concurrent_algorit.VersionedLock.{vl_read_version}
use cs453_concurrent_algorit.Stm.Tx.{Tx, update_ws, own_write, resized}
use cs453_concurrent_algorit.Stm.Cleanup.{transaction_cleanup}
use cs453_concurrent_algorit.Stm.Read.{abort, has_word}
use cs453_concurrent_algorit.Stm.Write.{
  with_write, push_ws, store_entry, add_entry, add_to_writeset, write_entry, write_word,
}
use cs453_concurrent_algorit.Stm.WriteSet.{
  IsSound, own_write-eq-find, find_ws-append, find_ws-update, length-update_ws, All-update_ws,
}

-- Others leave the alignment alone.
abbrev pub SameAlign : Shared → Shared → Type 0
SameAlign s u = u.align ≡ s.align

abbrev pub set_at : (ℕ → Option ℕ) → ℕ → ℕ → ℕ → Option ℕ
set_at m a v b = if b == a then some v else m b

-- The transaction after a write of `v` at `a`, unless it was aborted.
abbrev pub Overlaid : Tx → ℕ → ℕ → Option Tx → Shared → Type 0
Overlaid t a v none s = Unit {0}
Overlaid t a v (some t') s =
    IsSound t' × ((b : ℕ) → own_write t' b ≡ set_at (own_write t) a v b) × (t'.is_ro ≡ t.is_ro)

with_write-IsSound :
    (t : Tx) (v a : ℕ) (l : Loc) → IsSound t → length t.ws < t.ws_sz → IsSound (with_write t v a l)
with_write-IsSound t v a l h room = record {
  filtered =
      All-append _ t.ws _
        (All-map _ _ t.ws (λ w f. bf_in-add_keep t.ws_bloom w.addr a f) h.filtered)
        (bf_in-add_self t.ws_bloom a, tt);
  fits = omega (arith, length-append t.ws (record { addr = a; value = v; place = l } ∷ []));
  grows = h.grows;
}

with_write-Overlaid :
    (t : Tx) (v a : ℕ) (l : Loc) (s : Shared)
    → IsSound t
    → own_write t a ≡ none
    → length t.ws < t.ws_sz
    → Overlaid t a v (some (with_write t v a l)) s
with_write-Overlaid t v a l s h absent room = (
  sound,
  λ b.
      own_write-eq-find (with_write t v a l) b sound
      ∙ find_ws-append b a v l t.ws (sym (own_write-eq-find t a h) ∙ absent)
      ∙ ap (λ o. if b == a then some v else o) (sym (own_write-eq-find t b h)),
  refl,
)
  where
    sound : IsSound (with_write t v a l)
    sound = with_write-IsSound t v a l h room

update-Overlaid :
    (t : Tx) (v a old : ℕ) (s : Shared)
    → IsSound t
    → own_write t a ≡ some old
    → Overlaid t a v (some (record t { ws = update_ws a v t.ws })) s
update-Overlaid t v a old s h present = (
  sound,
  λ b.
      own_write-eq-find (record t { ws = update_ws a v t.ws }) b sound
      ∙ find_ws-update b a v t.ws {old = old} (sym (own_write-eq-find t a h) ∙ present)
      ∙ ap (λ o. if b == a then some v else o) (sym (own_write-eq-find t b h)),
  refl,
)
  where
    sound : IsSound (record t { ws = update_ws a v t.ws })
    sound = record {
      filtered = All-update_ws (λ x. bf_in t.ws_bloom x ≡ true) a v t.ws h.filtered;
      fits = omega (arith, length-update_ws a v t.ws, h.fits);
      grows = h.grows;
    }

abbrev W : Tx → ℕ → ℕ → Prog Shared (Option Tx) → Shared → Type 0
W t a v m s = Keeps SameAlign SameAlign (Overlaid t a v) m s

abort-W : (t : Tx) (a v : ℕ) (s : Shared) → W t a v abort s
unfolding abort transaction_cleanup
abort-W t a v s = λ s' r e. (ground arith, tt)

push_ws-W :
    (t : Tx) (v a : ℕ) (l : Loc) (s : Shared)
    → IsSound t
    → own_write t a ≡ none
    → length t.ws < t.ws_sz
    → W t a v (push_ws t v a l) s
unfolding push_ws
push_ws-W t v a l s h absent room = ground (arith, with_write-Overlaid t v a l s h absent room)

store_entry-W :
    (t : Tx) (v a : ℕ) (l : Loc) (s : Shared)
    → IsSound t
    → own_write t a ≡ none
    → length t.ws < t.ws_sz
    → W t a v (store_entry t v a l) s
unfolding store_entry
store_entry-W t v a l s h absent room = λ s' r e. (
  refl,
  elim (Bool-cases (answer s'.mallocs)) [
    | inl made ↦ rw made (push_ws-W t v a l _ h absent room)
    | inr failed ↦ rw failed (abort-W t a v _)
  ],
)

-- A larger array makes no difference to what is in it.
grown-Overlaid :
    (t : Tx) (sz v a : ℕ) (r : Option Tx) (s : Shared)
    → Overlaid (record t { ws_sz = sz }) a v r s
    → Overlaid t a v r s
unfolding own_write
grown-Overlaid t sz v a none s h = tt
grown-Overlaid t sz v a (some t') s h = h

grown-IsSound : (t : Tx) → IsSound t → IsSound (record t { ws_sz = resized t.ws_sz })
grown-IsSound t h = record {
  filtered = h.filtered;
  fits = omega (arith, h.fits);
  grows = omega (arith, h.grows);
}

own_write-grown : (t : Tx) (sz a : ℕ) → own_write (record t { ws_sz = sz }) a ≡ own_write t a
unfolding own_write
own_write-grown t sz a = refl

add_full-W :
    (t : Tx) (v a : ℕ) (l : Loc) (s : Shared)
    → IsSound t
    → own_write t a ≡ none
    → W t a v (store_entry (record t { ws_sz = resized t.ws_sz }) v a l) s
add_full-W t v a l s h absent =
    Keeps-mono SameAlign SameAlign (Overlaid grown a v) (Overlaid t a v) (store_entry grown v a l) s
      (λ r s'. grown-Overlaid t (resized t.ws_sz) v a r s')
      (store_entry-W grown v a l s (grown-IsSound t h)
        (own_write-grown t (resized t.ws_sz) a ∙ absent) (omega (arith, h.fits, h.grows)))
  where
    grown : Tx
    grown = record t { ws_sz = resized t.ws_sz }

add_entry-W :
    (t : Tx) (v a : ℕ) (l : Loc) (s : Shared) (full : Bool)
    → (length t.ws == t.ws_sz) ≡ full
    → IsSound t
    → own_write t a ≡ none
    → W t a v (add_entry full t v a l) s
unfolding add_entry
add_entry-W t v a l s true e h absent = λ s' r _. (
  refl,
  elim (Bool-cases (answer s'.mallocs)) [
    | inl room ↦ rw room (add_full-W t v a l _ h absent)
    | inr failed ↦ rw failed (λ s2 _ _. (ground arith, tt))
  ],
)
add_entry-W t v a l s false e h absent = store_entry-W t v a l s h absent (ground (arith, h.fits))

write_entry-W :
    (t : Tx) (v a : ℕ) (l : Loc) (s : Shared) (own : Option ℕ)
    → own_write t a ≡ own
    → IsSound t
    → W t a v (write_entry own t v a l) s
unfolding write_entry add_to_writeset
write_entry-W t v a l s none e h = add_entry-W t v a l s (length t.ws == t.ws_sz) refl h e
write_entry-W t v a l s (some old) e h = update-Overlaid t v a old s h e

-- One word written: the transaction aborts, or sees the value at that address, and at every other
-- what it saw before.
pub write_word-W :
    (seg : Option Segment) (t : Tx) (v a : ℕ) (l : Loc) (s : Shared)
    → IsSound t
    → Keeps SameAlign SameAlign (Overlaid t a v) (write_word seg t v a l) s
unfolding write_word vl_read_version
write_word-W seg t v a l s h = elim (Bool-cases (has_word seg l.word)) [
  | inr out ↦ rw out tt
  | inl within ↦ rw within (λ s' r _.
      (refl, ground (arith, abort-W t a v s', write_entry-W t v a l s' (own_write t a) refl h)))
]
