-- ===== src/Lib.antt =====
-- A software transactional memory after TL2, with the programs that grade it: a verification library.
--
-- The memory is a region of segments of words (353607/tm.c). Every word has a versioned lock
-- (353607/versioned_lock.c): an `int` with the version in its upper bits and a lock bit below. A
-- transaction keeps the words it has read and the words it has written to itself, the latter behind a
-- Bloom filter (353607/bloom.c); `tm_end` locks the words of the write set, advances the clock,
-- checks the read set and writes back. Addresses hold the number of a segment and an offset
-- (353607/macros.h). The bank of grading/workload.hpp runs transactions whose checks show whether a
-- memory is correct.
--
-- Modules:
--   Prelude     shared names, Boolean tests, lists, integers and bits
--   Prog        C functions as trees of atomic steps, alone (`Ends`), among others (`Rely`), as a pool
--               of threads (`Pool`, with what each thread holds in `Ghost`) or along a schedule
--               (`Schedule`), and the number of steps of one that never waits (`Within`)
--   Address     353607/macros.h: index_from_va, va_from_index, offset_from_va
--   Region      353607/tm.c: struct shared_s, struct segment_s, the calls of pthread and malloc
--   VersionedLock, Bloom     versioned_lock.c and bloom.c of 353607
--   Stm.Tx      353607/tm.c: struct tx_s, the read set and the write set
--   Stm.Lifecycle, Stm.Cleanup, Stm.Read, Stm.Write, Stm.Alloc, Stm.End     the functions of tm.c
--   Stm.Session     a client that runs transactions one after the other, as include/tm.h asks
--   Stm.Isolation, Stm.WriteSet, Stm.Snapshot, Stm.Segments, Stm.Clock, Stm.Ownership,
--               Stm.WaitFree and the modules below Stm.End: the theorems on them
--   Bank        grading/workload.hpp: the transactions of WorkloadBank, and `check` (Bank.Counter)
--   Barrier     grading/common.hpp: the spin barrier
--   Evaluation  grading/grading.cpp: the class Sync, between the master and the workers of the grader
--   Grading     grading/transactional.hpp: TransactionalMemory, Transaction and transactional, over any
--               library, what a body must keep to (Rules), its constructor
--               (Creation), and the class Shared (Pointers)
--   Reference   reference/tm.c and reference/shared-lock.c, a library for Grading; what a closure gives
--               on the bytes of its region (Serial)
--   Template    template/tm.c, a library whose functions all fail
--   Examples    sync-examples: the lock (Lock), Counters, Elections, and the producers and consumers
--               (Factory)
--   Tests       runs on small inputs, and a torn snapshot of a read-only transaction (TornSnapshot)
--
-- What the model takes for granted: an atomic access, a call of pthread or of the allocator and an
-- access to one word of memory are single steps, in one order for all threads (C's atomics are
-- sequentially consistent by default; the plain copies of words race in the source, and are read here
-- as whole words). Numbers of type `int` that count words, entries or versions do not overflow, and the
-- alignment is below 2^31; the byte offsets of `tm_read` are cut to an `int` as in the source, and a
-- product of `int`s from 2^31 on is the step `fault`.
-- Pointers into a segment are pairs of a spot and a word; freed memory of a segment keeps its
-- contents. A failed `assert` and a NULL that is dereferenced are the step `fault`. `malloc` answers as
-- a list in the state says, so every failure can be chosen. Sorting the write set is a stable insertion
-- sort in place of `qsort`; the proofs use that it is a permutation, and nothing else. Recursion is
-- structural everywhere; no definition needs fuel; the retry loop of Grading counts its rounds, as it
-- may go on for ever, and a busy wait of Examples its tries, after which it is stuck: the theorems hold
-- for every number. The memory orders of the atomics in sync-examples and in Evaluation are read as
-- sequentially consistent. A worker or a master of Evaluation that gives up takes no more steps.
--
-- Not modelled: the dynamic loading, the measurements and the printing of the grading program, the
-- build files and the submission script.
pub mod Prelude
pub mod Prog
pub mod Address
pub mod Region
pub mod VersionedLock
pub mod Bloom
pub mod Stm
pub mod Bank
pub mod Barrier
pub mod Examples
pub mod Grading
pub mod Evaluation
pub mod Reference
pub mod Template
mod Tests
