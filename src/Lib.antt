-- ===== src/Lib.antt =====
-- pmbackend: a model of PMBackend, a key-value library over mapped persistent memory (src/*.c, src/*.h,
-- include/pmbackend.h).
--
-- The program keeps a pool, a mapped file, in three parts: transaction slots, data blocks and metadata
-- blocks. A caller opens a transaction, which takes a slot, registers operations in the slot's log while
-- it writes new blocks, and commits; executing the transaction drops the replaced blocks, aborting it
-- drops the new ones. When a pool is opened again, the log is checked and every block is visited, which
-- rebuilds the lists of objects and of free blocks.
--
-- Parts and files:
-- - Base, and Base/Tests, Base/Lists, Base/Words: Boolean tests, lists measured in native numbers, and
--   the widths of the unsigned C types.
-- - Caslist (src/caslist.c): a set of ids as a linked list of ranges. `Caslist` is the struct
--   `caslist`, the `next` pointers are a list of `Link`s. caslist_new, caslist_pop, caslist_push and
--   _caslist_put are `caslist_new`, `pop`, `push` and `put`; `caslist_pop` and `caslist_push` add the
--   `NULL` pointer. The mutex makes each operation one step. Ranges says what a valid list is and
--   which ids it has; Push and Pop are about the operations; Canonical about equality of lists; Many
--   about many pushes and the `NULL` pointer, Counted about the number of ids.
-- - Mem: the memory as bytes at addresses, integers with the low byte first, and the calls that write
--   ranges back, as events. Frame has the laws of loads and stores, Zero those of memset_zero, Fields the stores
--   to the fields of a structure.
-- - Backend (src/backend.c): `Backend` is `struct _backend`; each backend_... function keeps its name,
--   and _backend_map_common is `map_common` in Map. Pointers into the pool are addresses, `NULL` is
--   `none`. Layout is about where the parts of a pool lie, Mapped about what `_backend_map_common`
--   makes of a pool, Struct about what it writes: the stores to the structure at the start of the
--   pool, whose fields lie at the offsets of a 64-bit ABI behind NVML's `struct pool_hdr`.
-- - Kv (src/kv.h): `Handle` is `struct _pmb_handle` with the memory it reaches; the fields of the
--   stored structs are functions from the struct's address to the field's. `Run` is the result of code
--   that may go through a null pointer (`fault`). `Util` stands for NVML's util_checksum. Lists is
--   about the two free lists.
-- - TxLog (src/tx_log.c): the functions keep their names; the entries of a slot are read from memory.
--   Log says which operations a slot's bytes stand for; Open is about a slot whose transaction is
--   open, Register about adding an operation, Noted and Rewrote about the bytes of the new entry,
--   Commit about the commit, Ends about the loops over the entries, Init about the start, Single about
--   one slot. Dropped says what a change of blocks and free lists is, Ended what the end of a
--   transaction is, Drop and DropAll make one from the functions that drop one block and many;
--   Executed, Aborted and Recovered are about slots whose transaction is executed, aborted or
--   recovered, Sweep and Swept about the recovery of all slots. Machine is an abstract machine for the
--   calls on one slot: Machine/Shows says which handles show a state of it, Machine/Notes,
--   Machine/Steps and Machine/Refines are about the calls. InPlace says what updates in place should
--   do: InPlace/Metas reads the list of updated blocks as a sequence, One and Loop are about the loop
--   over the entries, Heads about the list after it, Lost about a list that malloc left with other
--   ids, Writes about the headers that are written from it, Patched and Applied about the whole. Meta,
--   Process and Check hold the functions for updates in place, for executing and aborting, and for
--   tx_log_check.
-- - Pmb (src/pmbackend.c): the functions of the interface keep their names; a name without `pmb_` is
--   the part behind the tests for `NULL`. Object, Tx, Put, PutMeta, Iter, Recovery and Open follow the
--   source's order. Fresh is about the lists of a new pool, Created and Reopened about pmb_open of a
--   new pool and of one that was there, Slots about the beginning of a transaction, Written, NewObject
--   and RoundTrip about a new object, Placed, Ending, Life, Kept and Reuse about its transaction up to
--   the end, OldPart, Replaced, Update, Updated, Exchange and Exchanged about an object that replaces
--   another, Small and Patching about an update in place and its transaction, MetaWritten, NewMeta and
--   MetaRoundTrip about a new metadata object, Refused about puts in a transaction that is not open,
--   Recovery/Visit and Recovery/Threads about the recovery. Listing is the loop of the examples
--   (example/kvtest.c), Round one step of it, Found is about it after the recovery, Programs has
--   example/pool_list.c and example/pool_inspect.c, Close is pmb_close with caslist_free, tx_log_free
--   and backend_close and the rounds of _sync_thread, Inspect has pmb_inspect and pmb_strerror.
-- - Tests: the theorems at concrete inputs.
--
-- How the parts interact: a handle holds the pool, five caslists (free blocks and found objects of both
-- regions, free slots) and the table of pending updates in place. Pmb calls TxLog to register and to end
-- transactions, and both call Backend for addresses and Caslist for ids.
--
-- Bounds and fuel: integers wrap around at the width of their C type. Ids in a caslist are below 2^64 - 1,
-- so that `begin++` does not wrap. The loops over the entries of a slot run on fuel, which is the slot's
-- size and one, since every round moves on by an entry. tx_log_init and tx_log_check take their fuel as an
-- argument, because their `uint8_t` counters may never pass the bound. The eight threads of the recovery
-- are one sequence of visits; a visit pushes one id under the mutex of a list and reads memory that no
-- thread writes.
--
-- Not modelled: NVML's pool and pmem calls (parameters and events), allocation failure (other than in
-- caslist_new), trace points, log output, file modes, page protection and mlock, the arguments of the
-- example programs, and the other calls of example/kvtest.c and example/kvtest_updinpl.c. Unset memory
-- from malloc is the argument `junk`. The rounding of struct sizes is that of a 64-bit ABI: 32 bytes
-- for pmb_data_hdr, 24 for tx_slot and for tx_entry. Theorems on logs that mix updates in place with
-- other operations and on metadata objects that replace others are left to do, and so are those on the
-- order of the calls that make memory durable.
mod Base
pub mod Caslist
pub mod Mem
pub mod Backend
pub mod Kv
pub mod TxLog
pub mod Pmb
mod Tests
