-- ===== src/Tests/TornSnapshot.antt =====
-- A run of the read-only reads of 353607/tm.c in which the two words of one transaction are of
-- different commits: the clock is read after the version of the word has been compared.
use cs453_concurrent_algorit.Prelude.{
  ℕ, ◌+◌, ◌^◌, ◌==◌, ◌≡◌, refl, true, false, Option, none, some, List, [], ◌∷◌, ◌++◌, if◌then◌else◌,
}
use cs453_concurrent_algorit.Prog.{Prog, ret, fault, act, ◌>>=◌}
use cs453_concurrent_algorit.Region.{Shared}
use cs453_concurrent_algorit.Stm.Tx.{Tx}
use cs453_concurrent_algorit.Address.{index_from_va, offset_from_va}
use cs453_concurrent_algorit.VersionedLock.{vl_read_version}
use cs453_concurrent_algorit.Stm.Cleanup.{transaction_cleanup}
use cs453_concurrent_algorit.Stm.Read.{
  ro_transaction_read, ro_read_segment, versions, ro_copy, copy_words, post_validate_all,
  post_validate, extend_rv, extend_to, revalidate_sets, validated, record_ro_read, add_to_readset,
  grow_rs, abort, tm_read,
}

abbrev next_event : {S : Type 0} → List (S → S) → S → S
next_event [] s = s
next_event (e ∷ es) s = e s

abbrev later_events : {S : Type 0} → List (S → S) → List (S → S)
later_events [] = []
later_events (e ∷ es) = es

-- The thread runs to its end; before each of its steps others have done what the list says.
abbrev run_among : {S A : Type 0} → Prog S A → List (S → S) → S → Option A
run_among (ret a) es s = some a
run_among fault es s = none
run_among (act en f k) es s =
    let u = next_event es s in
    let rest = run_among (k u) (later_events es) (f u) in if en u then rest else none

-- Two words of values 50 and 30, of versions 5 and 3, and a clock of 5.
abbrev memory : Shared
memory = record {
  align = 8;
  readers = 2;
  writer = false;
  va_locked = false;
  empty_spots = [];
  va_arr = λ i. if i == 0 then some (record { size = 16; num_words = 2 }) else none;
  va_n = 1;
  global_version = 5;
  to_free_locked = false;
  to_free = [];
  to_free_sz = 64;
  locks = λ l. if l.word == 0 then 10 else 6;
  words = λ l. if l.word == 0 then 50 else 30;
  mallocs = [];
}

-- Another transaction commits: version 6, values 60 and 61.
abbrev commit_both : Shared → Shared
commit_both s = record s {
  global_version = 6;
  locks = λ _. 12;
  words = λ l. if l.word == 0 then 60 else 61;
}

-- A read-only transaction that began at version 3.
abbrev reader : Tx
reader = record {
  rv = 3;
  is_ro = true;
  ws = [];
  ws_sz = 8;
  ws_bloom = record { bitset = 0; align = 0 };
  rs_null = false;
  rs = [];
  rs_sz = 8;
  to_free = [];
}

abbrev both_words : Prog Shared (Option (List ℕ))
both_words = tm_read reader (2 ^ 48) 8 >>= λ r. elim r [
  | none ↦ ret none
  | some (t, vs) ↦ tm_read t (2 ^ 48 + 8) 8 >>= λ q.
      ret (elim q [ none ↦ none | some (t', ws) ↦ some (vs ++ ws) ])
]

abbrev same : Shared → Shared
same s = s

-- The commit falls between the comparison of the version and the read of the clock: the values are 50
-- and 61, which the memory never held together.
torn :
    run_among both_words (same ∷ same ∷ same ∷ same ∷ same ∷ commit_both ∷ []) memory
    ≡ some (some (50 ∷ 61 ∷ []))
unfolding tm_read ro_transaction_read ro_read_segment index_from_va offset_from_va versions
    vl_read_version ro_copy copy_words post_validate_all post_validate extend_rv extend_to
    revalidate_sets validated record_ro_read add_to_readset grow_rs abort transaction_cleanup
torn = refl

-- One step earlier it is noticed.
noticed : run_among both_words (same ∷ same ∷ same ∷ same ∷ commit_both ∷ []) memory ≡ some none
unfolding tm_read ro_transaction_read ro_read_segment index_from_va offset_from_va versions
    vl_read_version ro_copy copy_words post_validate_all post_validate extend_rv extend_to
    revalidate_sets validated record_ro_read add_to_readset grow_rs abort transaction_cleanup
noticed = refl

-- Without the commit.
undisturbed : run_among both_words [] memory ≡ some (some (50 ∷ 30 ∷ []))
unfolding tm_read ro_transaction_read ro_read_segment index_from_va offset_from_va versions
    vl_read_version ro_copy copy_words post_validate_all post_validate extend_rv extend_to
    revalidate_sets validated record_ro_read add_to_readset grow_rs abort transaction_cleanup
undisturbed = refl
