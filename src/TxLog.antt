-- ===== src/TxLog.antt =====
-- tx_log.c: the transaction slots. A slot is a range of the pool's memory with a header and, behind it,
-- the entries of the operations that the transaction has registered.
pub mod Log
pub mod Dropped
pub mod Drop
pub mod DropAll
pub mod Executed
pub mod Ended
pub mod Aborted
pub mod Recovered
pub mod Register
pub mod Open
pub mod Noted
pub mod Rewrote
pub mod Ends
pub mod Commit
pub mod Single
pub mod Sweep
pub mod Swept
pub mod Init
pub mod Machine
pub mod InPlace
pub mod Meta
pub mod Process
pub mod Check
use pmbackend.Base.{
  ℕ, zero, suc, ◌+◌, ◌-◌, ◌*◌, ◌/◌, ◌%◌, Bool, true, false, ◌&&◌, ◌||◌, not, Option, none, some,
  ltb, leb, ◌==◌, if◌then◌else◌, two32, two64, pred64,
}
use pmbackend.Mem.{World, with_mem}
use pmbackend.Backend.{
  Backend, sizeof_data_hdr, sizeof_tx_slot, sizeof_tx_entry, backend_direct, Found, found, missing,
  backend_get, backend_tx_direct, backend_tx_persist, backend_set_zero, backend_tx_set_zero,
  backend_memcpy,
}
use pmbackend.Caslist.{caslist_new, caslist_push, caslist_pop}
use pmbackend.Kv.Status
use pmbackend.Kv.Op
use pmbackend.Kv.{
  get_block_size, pmb_ok, pmb_err, version_of, val_len_of, status_of, size_of, blk_id1_of,
  blk_id2_of, TxMeta, TxMetalist, metalist_room, OpLog, Handle, mem_of, poke, peek, release, Run,
  ok, fault, out_of_fuel, ◌>>=◌, Util,
}

abbrev pub direct : Handle → ℕ → Option ℕ
direct s id = backend_direct (some s.backend) id

-- The slot of an id that counts from 1: `tx_slot_id--`, then the cut to `uint8_t`.
unfoldable pub slot_at : Handle → ℕ → Option ℕ
slot_at s tx_slot_id = backend_tx_direct (some s.backend) (pred64 tx_slot_id)

unfoldable pub tx_log_get_slot : Handle → ℕ → Handle × ℕ × ℕ
tx_log_get_slot s tx_slot =
    let (code, val, list) = caslist_pop s.op_log.tx_slots_list tx_slot in
    (record s { op_log = record s.op_log { tx_slots_list = list } }, code, val)

unfoldable pub tx_log_free_slot : Handle → ℕ → Handle
tx_log_free_slot s tx_slot_id = record s {
  op_log = record s.op_log { tx_slots_list = caslist_push s.op_log.tx_slots_list tx_slot_id };
}

-- `for (uint8_t i = 1; i <= tx_slots_count; i++)`: `junk i` is what `malloc` left in the ith list. When `i` has wrapped
-- around to 0, `upd_id_list[i - 1]` lies in front of the array.
unfoldable pub tx_log_init_loop : ℕ → (ℕ → ℕ → TxMeta) → (i : ℕ) → OpLog → Run OpLog
tx_log_init_loop zero junk i l = out_of_fuel
tx_log_init_loop (suc fuel) junk i l =
    let lists =
      λ (j : ℕ). if j == i - 1 then record { count = 0; list = junk j } else l.upd_id_list j in
    let rest =
      tx_log_init_loop fuel junk ((i + 1) % 256)
        (record l { tx_slots_list = caslist_push l.tx_slots_list i; upd_id_list = lists }) in
    if leb i l.tx_slots_count then (if i == 0 then fault else rest) else ok l

unfoldable pub tx_log_init :
    (fuel : ℕ) → (junk : ℕ → ℕ → TxMeta) → Handle → (tx_slots_count : ℕ) → Run Handle
unfolding tx_log_init_loop
tx_log_init fuel junk s tx_slots_count = do
  l ← tx_log_init_loop fuel junk 1 (record {
    tx_slots_count = tx_slots_count;
    tx_slots_list = caslist_new true 1 tx_slots_count;
    tx_slot_capacity =
        ((get_block_size s.max_key_len s.max_val_len + two64 - sizeof_tx_slot)
          % two64
          / sizeof_tx_entry)
        % two32;
    upd_id_list = λ j. record { count = 0; list = junk j };
  })
  ok (record s { op_log = l })

unfoldable pub tx_slot_init : Handle → ℕ → Handle × ℕ
unfolding slot_at
tx_slot_init s tx_slot_id =
    if tx_slot_id == 0 || ltb s.op_log.tx_slots_count tx_slot_id
    then (s, pmb_err)
    else elim (slot_at s tx_slot_id) [
      | none ↦ (s, pmb_err)
      | some slot ↦ (
        poke 8 (size_of slot) sizeof_tx_slot
            (poke 4 (status_of slot) Status.processing (poke 8 slot 0 s)),
        pmb_ok,
      )
    ]

-- An entry's three fields at the end of the slot's entries.
unfoldable pub write_entry : ℕ → ℕ → ℕ → ℕ → Handle → Handle
write_entry entry op blk_id1 blk_id2 s =
    poke 8 (blk_id2_of entry) blk_id2 (poke 8 (blk_id1_of entry) blk_id1 (poke 4 entry op s))

-- The test that the four `tx_slot_op_…` functions begin with; `go` gets the slot and the new entry.
unfoldable pub in_progress : Handle → ℕ → (ℕ → ℕ → Handle) → Handle × ℕ
unfolding slot_at
in_progress s tx_slot_id go = elim (slot_at s tx_slot_id) [
  | none ↦ (s, pmb_err)
  | some slot ↦
      if peek 4 s (status_of slot) == Status.processing
      then (go slot (slot + peek 8 s (size_of slot)), pmb_ok)
      else (s, pmb_err)
]

-- `slot->size += n`
abbrev pub grow : ℕ → ℕ → Handle → Handle
grow slot n s = poke 8 (size_of slot) (peek 8 s (size_of slot) + n) s

unfoldable pub tx_slot_op_write : Handle → (tx_slot_id blk_id : ℕ) → Handle × ℕ
unfolding in_progress
tx_slot_op_write s tx_slot_id blk_id = in_progress s tx_slot_id λ slot entry.
    grow slot sizeof_tx_entry (poke 8 (blk_id1_of entry) blk_id (poke 4 entry Op.write s))

unfoldable pub tx_slot_op_remove : Handle → (tx_slot_id blk_id : ℕ) → Handle × ℕ
unfolding in_progress
tx_slot_op_remove s tx_slot_id blk_id = in_progress s tx_slot_id λ slot entry.
    grow slot sizeof_tx_entry (poke 8 (blk_id1_of entry) blk_id (poke 4 entry Op.remove s))

unfoldable pub tx_slot_op_update : Handle → (tx_slot_id old_blk_id new_blk_id : ℕ) → Handle × ℕ
unfolding in_progress write_entry
tx_slot_op_update s tx_slot_id old_blk_id new_blk_id =
    in_progress s tx_slot_id
      λ slot entry. grow slot sizeof_tx_entry (write_entry entry Op.update old_blk_id new_blk_id s)

-- The payload follows the entry; `offset` and `size` share `blk_id2`.
unfoldable pub tx_slot_op_small_update :
    Handle → (tx_slot_id blk_id payload offset size : ℕ) → Handle × ℕ
unfolding in_progress write_entry
tx_slot_op_small_update s tx_slot_id blk_id payload offset size =
    in_progress s tx_slot_id λ slot entry.
      let s' = write_entry entry Op.updinplace blk_id (size * two32 + offset) s in
      grow slot (sizeof_tx_entry + size) (record s' {
        world = backend_memcpy s'.backend s'.world (entry + sizeof_tx_entry) payload size;
      })
