-- ===== src/Stm/End/Result.antt =====
-- What `tm_end` does when it is not interrupted, on every branch.
use cs453_concurrent_algorit.Prelude.{
  ℕ, ◌+◌, ◌-◌, ◌*◌, ◌≤◌, ◌||◌, ◌≡◌, refl, sym, ap, subst, ◌∙◌, Bool, true, false, Option, none,
  some, List, [], arith, All, All-map, is_nil, if◌then◌else◌,
}
use cs453_concurrent_algorit.Prog.{Ends, Ends-bind, Ends-mono}
use cs453_concurrent_algorit.Region.{Loc, Shared}
use cs453_concurrent_algorit.Stm.Tx.{Tx, WsItem, ws_sort}
use cs453_concurrent_algorit.Stm.Cleanup.{transaction_cleanup}
use cs453_concurrent_algorit.Stm.End.{
  write_back, hand_over_frees, free_batch, acquire, commit, finish, tm_end,
}
use cs453_concurrent_algorit.Stm.End.Locks.{count, Written, write_back-Written}
use cs453_concurrent_algorit.Stm.End.Sort.{count-sort, All-sort}
use cs453_concurrent_algorit.Stm.End.Acquire.{Acquired, acquire-Acquired}
use cs453_concurrent_algorit.Stm.End.Frees.{
  Kept, SameMemory, Pushed, hand_over_frees-Pushed, free_batch-Kept,
}

-- No thread holds a lock that the commit waits for, and every allocation succeeds.
pub record IsCalm (s : Shared) : Type 0 where
  pub alone : s.readers ≡ 1
  pub no_writer : s.writer ≡ false
  pub free_unlocked : s.to_free_locked ≡ false
  pub no_failure : s.mallocs ≡ []

-- The commit went through: the version after the clock's, the values and the unlocked words.
abbrev pub Committed : Tx → Shared → Shared → Type 0
Committed t s u =
    (u.global_version ≡ s.global_version + 1)
    × ((l : Loc) → count l t.ws ≡ 0 → (u.locks l ≡ s.locks l) × (u.words l ≡ s.words l))
    × All (λ w. (u.words w.place ≡ w.value) × (u.locks w.place ≡ (s.global_version + 1) * 2)) t.ws

abbrev pub Aborted : Shared → Shared → Type 0
Aborted s u = ((l : Loc) → u.locks l ≡ s.locks l) × ((l : Loc) → u.words l ≡ s.words l)

-- What `write_back` left is still there at the end of the commit.
abbrev pub Done : ℕ → List WsItem → Shared → Bool → Shared → Type 0
Done wv ws u ok v =
    (ok ≡ true)
    × (v.global_version ≡ u.global_version)
    × ((l : Loc) → count l ws ≡ 0 → (v.locks l ≡ u.locks l) × (v.words l ≡ u.words l))
    × All (λ w. (v.words w.place ≡ w.value) × (v.locks w.place ≡ wv * 2)) ws

Written-Done :
    (wv : ℕ) (ws : List WsItem) (u v x : Shared)
    → Written wv ws u tt v
    → SameMemory v x
    → Done wv ws u true x
Written-Done wv ws u v x (same, others, all) (w, l, g) = (
  refl,
  g ∙ ap (λ y. y.global_version) same,
  λ m e. ground (arith, others m e),
  All-map _ _ ws (λ a h. ground arith) all,
)

pub if_false {ℓ} : {A : Type ℓ} (b : Bool) (p q : A) → b ≡ false → (if b then p else q) ≡ q
if_false true p q e = cc
if_false false p q e = refl

-- The batch of frees, after the cleanup lock has been given back.
batch-Kept :
    (x : Shared)
    → x.mallocs ≡ []
    → x.writer ≡ false
    → x.readers ≡ 1
    → Ends
        (Kept x)
        free_batch
        (if x.writer then record x { writer = false } else record x { readers = x.readers - 1 })
batch-Kept x e w r =
    subst (Ends (Kept x) free_batch) (sym (if_false x.writer _ _ w))
      (free_batch-Kept (record x { readers = x.readers - 1 }) e w (omega arith))

pub commit-Done :
    (t : Tx) (ws : List WsItem) (wv : ℕ) (u : Shared)
    → IsCalm u
    → ((l : Loc) → count l ws ≤ 1)
    → Ends (Done wv ws u) (commit t ws wv) u
unfolding commit transaction_cleanup
commit-Done t ws wv u calm once =
    Ends-bind (Written wv ws u) (Done wv ws u) (write_back wv ws) _ u
      (write_back-Written wv ws u once)
      (λ _ v w.
        Ends-bind (Pushed t.to_free v) (Done wv ws u) (hand_over_frees t.to_free) _ v
          (hand_over_frees-Pushed t.to_free v (ap (λ y. y.mallocs) w.0 ∙ calm.no_failure)
            (ap (λ y. y.to_free_locked) w.0 ∙ calm.free_unlocked))
          (λ _ x p. (
            refl,
            Ends-bind (Kept x) (Done wv ws u) free_batch _ _
                (batch-Kept x p.0.1 (p.2 ∙ ap (λ y. y.writer) w.0 ∙ calm.no_writer)
                  (p.1 ∙ ap (λ y. y.readers) w.0 ∙ calm.alone))
                (λ _ y k. Written-Done wv ws u v y w (ground (arith, k.0, p.0.0))),
          )))

-- The result of a transaction that has written.
abbrev pub Outcome : Tx → Shared → Bool → Shared → Type 0
Outcome t s true u = Committed t s u
Outcome t s false u = Aborted s u

Done-Committed :
    (t : Tx) (s : Shared) (wv : ℕ) (u x : Shared) (ok : Bool)
    → Acquired t (ws_sort t.ws) s (some wv) u
    → Done wv (ws_sort t.ws) u ok x
    → Outcome t s ok x
Done-Committed t s wv u x ok (e, same, taken) (went, clock, others, all) =
    subst (λ b. Outcome t s b x) (sym went)
      (
        clock ∙ ap (λ y. y.global_version) same,
        λ l none_here. ground (
          arith,
          others l (count-sort l t.ws ∙ none_here),
          taken l,
          count-sort l t.ws,
          ap (λ y. y.words) same,
        ),
        All-sort _ t.ws (
            subst
              (λ v.
                All (λ w. (x.words w.place ≡ w.value) × (x.locks w.place ≡ v * 2)) (ws_sort t.ws))
              e all),
      )

pub Acquired-IsCalm :
    (t : Tx) (ws : List WsItem) (s u : Shared) {wv : ℕ}
    → Acquired t ws s (some wv) u
    → IsCalm s
    → IsCalm u
Acquired-IsCalm t ws s u (e, same, taken) calm = record {
  alone = ap (λ y. y.readers) same ∙ calm.alone;
  no_writer = ap (λ y. y.writer) same ∙ calm.no_writer;
  free_unlocked = ap (λ y. y.to_free_locked) same ∙ calm.free_unlocked;
  no_failure = ap (λ y. y.mallocs) same ∙ calm.no_failure;
}

finish-Outcome :
    (t : Tx) (s : Shared) (r : Option ℕ) (u : Shared)
    → IsCalm s
    → Acquired t (ws_sort t.ws) s r u
    → Ends (Outcome t s) (finish t (ws_sort t.ws) r) u
unfolding finish transaction_cleanup
finish-Outcome t s none u calm (same, back) =
    let words : u.words ≡ s.words = ap (λ y. y.words) same in
    (refl, (λ l. ground (arith, back l), λ l. ground (arith, words)))
finish-Outcome t s (some wv) u calm a =
    Ends-mono (Done wv (ws_sort t.ws) u) (Outcome t s) (commit t (ws_sort t.ws) wv) u
      (λ ok x d. Done-Committed t s wv u x ok a d)
      (commit-Done t (ws_sort t.ws) wv u (Acquired-IsCalm t (ws_sort t.ws) s u a calm)
        (λ l. omega (arith, (a.2 l).1)))

-- A read-write transaction that has written, whose read set is not lost, and that is not interrupted
-- in a state where it alone holds the cleanup lock, no thread holds the buffer's lock and every
-- allocation succeeds: `tm_end` returns. If it returns true, the clock is one further, every
-- word of the write set has the value written and is unlocked at the new version, and every other
-- word and lock is as it was; if it returns false, every word and every lock is as it was.
pub tm_end-Outcome :
    (t : Tx) (s : Shared)
    → t.is_ro ≡ false
    → is_nil t.ws ≡ false
    → t.rs_null ≡ false
    → IsCalm s
    → Ends (Outcome t s) (tm_end t) s
unfolding tm_end
tm_end-Outcome t s rw_ writes kept calm =
    subst (λ m. Ends (Outcome t s) m s) (sym (if_false (t.is_ro || is_nil t.ws) _ _ (ground arith)))
      (Ends-bind (Acquired t (ws_sort t.ws) s) (Outcome t s) (acquire t (ws_sort t.ws))
        (finish t (ws_sort t.ws)) s (acquire-Acquired t (ws_sort t.ws) s kept)
        (λ r u a. finish-Outcome t s r u calm a))
