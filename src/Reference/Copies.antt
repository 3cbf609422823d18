-- ===== src/Reference/Copies.antt =====
-- reference/tm.c: what is written is read back, byte by byte.
use cs453_concurrent_algorit.Prelude.{
  ℕ, zero, suc, ◌+◌, ◌≤◌, ◌<◌, ◌==◌, ◌≡◌, ◌⊎◌, refl, ap, ◌∙◌, inl, inr, Option, some, List, [], ◌∷◌,
  length, arith, if◌then◌else◌,
}
use cs453_concurrent_algorit.Prog.{Prog, ◌>>=◌, Ends, Ends-bind, Ends-mono}
use cs453_concurrent_algorit.Reference.{
  Region, LockTx, copy_out, copy_in, tm_read_locked, tm_write_locked,
}

-- The memory with the bytes `vs` from `a` on.
abbrev pub bytes_after : List ℕ → ℕ → (ℕ → ℕ) → ℕ → ℕ
bytes_after [] a f = f
bytes_after (v ∷ vs) a f = bytes_after vs (a + 1) (λ b. if b == a then v else f b)

pub bytes_after-outside :
    (vs : List ℕ) (a : ℕ) (f : ℕ → ℕ) (b : ℕ)
    → (b < a) ⊎ (a + length vs ≤ b)
    → bytes_after vs a f b ≡ f b
bytes_after-outside [] a f b h = refl
bytes_after-outside (v ∷ vs) a f b h =
    bytes_after-outside vs (a + 1) (λ c. if c == a then v else f c) b
      (elim h [ inl below ↦ inl (omega arith) | inr above ↦ inr (omega arith) ])
    ∙ elim h [ inl below ↦ ground arith | inr above ↦ ground arith ]

-- The `n` bytes from `a` on.
abbrev pub bytes_at : (ℕ → ℕ) → ℕ → ℕ → List ℕ
bytes_at f a zero = []
bytes_at f a (suc n) = f a ∷ bytes_at f (a + 1) n

bytes_at_same : (f g : ℕ → ℕ) (a n : ℕ) → ((b : ℕ) → f b ≡ g b) → bytes_at f a n ≡ bytes_at g a n
bytes_at_same f g a zero h = refl
bytes_at_same f g a (suc n) h = rw (h a, bytes_at_same f g (a + 1) n h) refl

pub bytes_at-after :
    (vs : List ℕ) (a : ℕ) (f : ℕ → ℕ) → bytes_at (bytes_after vs a f) a (length vs) ≡ vs
bytes_at-after [] a f = refl
bytes_at-after (v ∷ vs) a f =
    let g : ℕ → ℕ = λ b. if b == a then v else f b in
    let first : bytes_after vs (a + 1) g a ≡ v =
      bytes_after-outside vs (a + 1) g a (inl (omega arith)) ∙ ground arith in
    rw (first, bytes_at-after vs (a + 1) g) refl

copy_in-Bytes :
    (vs : List ℕ) (a : ℕ) (s : Region)
    → Ends (λ _ u. (b : ℕ) → u.bytes b ≡ bytes_after vs a s.bytes b) (copy_in vs a) s
unfolding copy_in
copy_in-Bytes [] a s = λ b. refl
copy_in-Bytes (v ∷ vs) a s = (refl, copy_in-Bytes vs (a + 1) _)

copy_out-Bytes :
    (a n : ℕ) (s : Region) → Ends (λ vs u. (vs ≡ bytes_at s.bytes a n) × (u ≡ s)) (copy_out a n) s
unfolding copy_out
copy_out-Bytes a zero s = (refl, refl)
copy_out-Bytes a (suc n) s = (
  refl,
  Ends-bind (λ vs u. (vs ≡ bytes_at s.bytes (a + 1) n) × (u ≡ s)) _ (copy_out (a + 1) n) _ s
      (copy_out-Bytes (a + 1) n s) (λ vs u h. (ap (λ l. s.bytes a ∷ l) h.0, h.1)),
)

tm_write_locked-Bytes :
    (tx : LockTx) (vs : List ℕ) (a : ℕ) (s : Region)
    → Ends (λ _ u. (b : ℕ) → u.bytes b ≡ bytes_after vs a s.bytes b) (tm_write_locked tx vs a) s
unfolding tm_write_locked
tm_write_locked-Bytes tx vs a s =
    Ends-bind (λ _ u. (b : ℕ) → u.bytes b ≡ bytes_after vs a s.bytes b) _ (copy_in vs a) _ s
      (copy_in-Bytes vs a s) (λ _ u h. h)

tm_read_locked-Bytes :
    (tx : LockTx) (a n : ℕ) (s : Region)
    → Ends (λ r u. (r ≡ some (tx, bytes_at s.bytes a n)) × (u ≡ s)) (tm_read_locked tx a n) s
unfolding tm_read_locked
tm_read_locked-Bytes tx a n s =
    Ends-bind (λ vs u. (vs ≡ bytes_at s.bytes a n) × (u ≡ s)) _ (copy_out a n) _ s
      (copy_out-Bytes a n s) (λ vs u h. (ap (λ l. some (tx, l)) h.0, h.1))

-- `tm_read` of the range that `tm_write` has just written.
unfoldable pub write_read : LockTx → List ℕ → ℕ → Prog Region (Option (LockTx × List ℕ))
write_read tx source target =
    tm_write_locked tx source target >>= λ _. tm_read_locked tx target (length source)

-- Under the lock-based memory, where no other transaction runs meanwhile: a `tm_write` and a `tm_read`
-- of the same range both succeed, the bytes read are those written, and every byte outside the
-- range is as it was.
pub write_read-Bytes :
    (tx : LockTx) (source : List ℕ) (target : ℕ) (s : Region)
    → Ends
        (λ r u.
          (r ≡ some (tx, source))
          × ((b : ℕ) → (b < target) ⊎ (target + length source ≤ b) → u.bytes b ≡ s.bytes b))
        (write_read tx source target)
        s
unfolding write_read
write_read-Bytes tx source target s =
    Ends-bind (λ _ u. (b : ℕ) → u.bytes b ≡ bytes_after source target s.bytes b)
      (λ r u.
        (r ≡ some (tx, source))
        × ((b : ℕ) → (b < target) ⊎ (target + length source ≤ b) → u.bytes b ≡ s.bytes b))
      (tm_write_locked tx source target) _ s (tm_write_locked-Bytes tx source target s)
      (λ _ u h.
        Ends-mono (λ r x. (r ≡ some (tx, bytes_at u.bytes target (length source))) × (x ≡ u)) _
          (tm_read_locked tx target (length source)) u
          (λ r x q. (
            q.0
                ∙ ap (λ vs. some (tx, vs))
                    (bytes_at_same u.bytes (bytes_after source target s.bytes) target
                        (length source) h
                      ∙ bytes_at-after source target s.bytes),
            λ b out.
                ap (λ y. y.bytes b) q.1 ∙ h b ∙ bytes_after-outside source target s.bytes b out,
          ))
          (tm_read_locked-Bytes tx target (length source) u))
