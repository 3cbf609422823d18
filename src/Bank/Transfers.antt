-- ===== src/Bank/Transfers.antt =====
-- grading/workload.hpp: `short_tx` moves money and makes none.
use cs453_concurrent_algorit.Prelude.{
  ℕ, zero, suc, ◌+◌, ◌<◌, ◌≡◌, refl, sym, ap, ◌∙◌, true, Option, none, some, List, [], ◌∷◌, arith,
  All, inl, inr, Bool-cases,
}
use cs453_concurrent_algorit.Prelude.Int.{
  ℤ, pos, pos_part, neg_part, ◌+ℤ◌, ◌-ℤ◌, ◌*ℤ◌, ◌≤ℤ◌, ltb_ℤ, int_laws,
}
use cs453_concurrent_algorit.Bank.{
  AccountSegment, WorkloadBank, Place, looking, find_accounts, read_account, write_account,
  transfer, short_end, short_tx,
}
use cs453_concurrent_algorit.Bank.Sums.{balances-set, money, nb_accounts, NonNegative}
use cs453_concurrent_algorit.Bank.Places.{InRange, PairExists, find_accounts-PairExists}

-- There is a segment, and only the first may be without accounts.
abbrev pub Occupied : List AccountSegment → Type 0
Occupied [] = ⊥
Occupied (s ∷ segments) = All (λ t. 0 < t.count) segments

pub record IsConsistent (w : WorkloadBank) (segments : List AccountSegment) : Type 0 where
  pub balanced : money segments ≡ w.init_balance *ℤ pos (nb_accounts segments)
  pub non_negative : All NonNegative segments
  pub occupied : Occupied segments

length-write_account :
    (segments : List AccountSegment) (k i : ℕ) (v : ℤ)
    → nb_accounts (write_account segments k i v) ≡ nb_accounts segments
unfolding write_account
length-write_account [] k i v = refl
length-write_account (s ∷ segments) zero i v = refl
length-write_account (s ∷ segments) (suc k) i v =
    ap (λ n. s.count + n) (length-write_account segments k i v)

money-write_account :
    (segments : List AccountSegment) (k i : ℕ) (v : ℤ)
    → InRange segments k i
    → money (write_account segments k i v) +ℤ read_account segments k i ≡ money segments +ℤ v
unfolding write_account read_account
money-write_account [] k i v h = absurd h
money-write_account (s ∷ segments) zero i v h =
    let sum = balances-set s.accounts s.count 0 i v (omega arith) (omega arith) in
    omega (int_laws, ap pos_part sum, ap neg_part sum)
money-write_account (s ∷ segments) (suc k) i v h =
    let sum = money-write_account segments k i v h in
    omega (int_laws, ap pos_part sum, ap neg_part sum)

write_account-NonNegative :
    (segments : List AccountSegment) (k i : ℕ) (v : ℤ)
    → pos 0 ≤ℤ v
    → All NonNegative segments
    → All NonNegative (write_account segments k i v)
unfolding write_account
write_account-NonNegative [] k i v p h = tt
write_account-NonNegative (s ∷ segments) zero i v p h = (λ j b. ground (arith, h.0 j b), h.1)
write_account-NonNegative (s ∷ segments) (suc k) i v p h =
    (h.0, write_account-NonNegative segments k i v p h.1)

write_account-All :
    (segments : List AccountSegment) (k i : ℕ) (v : ℤ)
    → All (λ t. 0 < t.count) segments
    → All (λ t. 0 < t.count) (write_account segments k i v)
unfolding write_account
write_account-All [] k i v h = tt
write_account-All (s ∷ segments) zero i v h = (h.0, h.1)
write_account-All (s ∷ segments) (suc k) i v h = (h.0, write_account-All segments k i v h.1)

write_account-Occupied :
    (segments : List AccountSegment) (k i : ℕ) (v : ℤ)
    → Occupied segments
    → Occupied (write_account segments k i v)
unfolding write_account
write_account-Occupied [] k i v h = absurd h
write_account-Occupied (s ∷ segments) zero i v h = h
write_account-Occupied (s ∷ segments) (suc k) i v h = write_account-All segments k i v h

InRange-write :
    (segments : List AccountSegment) (j m k i : ℕ) (v : ℤ)
    → InRange segments j m
    → InRange (write_account segments k i v) j m
unfolding write_account
InRange-write [] j m k i v h = h
InRange-write (s ∷ segments) zero m zero i v h = h
InRange-write (s ∷ segments) (suc j) m zero i v h = h
InRange-write (s ∷ segments) zero m (suc k) i v h = h
InRange-write (s ∷ segments) (suc j) m (suc k) i v h = InRange-write segments j m k i v h

read_account-NonNegative :
    (segments : List AccountSegment) (k i : ℕ)
    → InRange segments k i
    → All NonNegative segments
    → pos 0 ≤ℤ read_account segments k i
unfolding read_account
read_account-NonNegative [] k i h n = absurd h
read_account-NonNegative (s ∷ segments) zero i h n = n.0 i h
read_account-NonNegative (s ∷ segments) (suc k) i h n = read_account-NonNegative segments k i h n.1

-- `transfer` between two accounts that exist.
transfer-IsConsistent :
    (w : WorkloadBank) (segments : List AccountSegment) (p q : Place)
    → InRange segments p.segment p.index
    → InRange segments q.segment q.index
    → IsConsistent w segments
    → IsConsistent w (transfer segments p q)
unfolding transfer
transfer-IsConsistent w segments p q a b h = elim (Bool-cases (ltb_ℤ (pos 0) send_val)) [
  | inr poor ↦ rw poor h
  | inl rich ↦ rw rich record {
    balanced = same_money ∙ h.balanced ∙ ap (λ n. w.init_balance *ℤ pos n) (sym same_count);
    non_negative =
        write_account-NonNegative sent q.segment q.index (recv_val +ℤ pos 1)
          (omega (int_laws, read_account-NonNegative sent q.segment q.index there (sent_ok rich)))
          (sent_ok rich);
    occupied =
        write_account-Occupied sent q.segment q.index _
          (write_account-Occupied segments p.segment p.index _ h.occupied);
  }
]
  where
    send_val : ℤ
    send_val = read_account segments p.segment p.index

    sent : List AccountSegment
    sent = write_account segments p.segment p.index (send_val -ℤ pos 1)

    recv_val : ℤ
    recv_val = read_account sent q.segment q.index

    there : InRange sent q.segment q.index
    there = InRange-write segments q.segment q.index p.segment p.index _ b

    received : List AccountSegment
    received = write_account sent q.segment q.index (recv_val +ℤ pos 1)

    same_money : money received ≡ money segments
    same_money =
        let first = money-write_account segments p.segment p.index (send_val -ℤ pos 1) a in
        let second = money-write_account sent q.segment q.index (recv_val +ℤ pos 1) there in
        omega
          (int_laws, ap pos_part first, ap neg_part first, ap pos_part second, ap neg_part second)

    same_count : nb_accounts received ≡ nb_accounts segments
    same_count =
        length-write_account sent q.segment q.index _
        ∙ length-write_account segments p.segment p.index _

    sent_ok : ltb_ℤ (pos 0) send_val ≡ true → All NonNegative sent
    sent_ok rich =
        let enough : pos 1 ≤ℤ send_val = ground arith in
        write_account-NonNegative segments p.segment p.index (send_val -ℤ pos 1) (omega int_laws)
          h.non_negative

short_end-IsConsistent :
    (w : WorkloadBank) (segments : List AccountSegment) (r : Option (Place × Place))
    → PairExists segments r
    → IsConsistent w segments
    → IsConsistent w (short_end segments r).1
short_end-IsConsistent w segments none e h = h
short_end-IsConsistent w segments (some (p, q)) e h = transfer-IsConsistent w segments p q e.0 e.1 h

-- A short transaction, between any two account numbers.
pub short_tx-IsConsistent :
    (w : WorkloadBank) (segments : List AccountSegment) (send_id recv_id : ℕ)
    → IsConsistent w segments
    → IsConsistent w (short_tx segments send_id recv_id).1
unfolding short_tx
short_tx-IsConsistent w segments send_id recv_id h =
    short_end-IsConsistent w segments (find_accounts 0 segments (looking send_id) (looking recv_id))
      (find_accounts-PairExists [] segments (looking send_id) (looking recv_id) tt tt) h
