-- ===== src/TxLog/Check.antt =====
-- tx_log.c: `tx_log_check`, the recovery of the slots when a pool is opened.
use pmbackend.Base.{
  ℕ, zero, suc, ◌+◌, ◌/◌, ◌%◌, Bool, ◌&&◌, none, some, ltb, leb, ◌==◌, if◌then◌else◌, two32,
}
use pmbackend.Backend.{sizeof_tx_slot, sizeof_tx_entry, backend_tx_direct}
use pmbackend.Kv.{
  status_of, size_of, blk_id1_of, blk_id2_of, Handle, mem_of, poke, peek, Run, ok, out_of_fuel,
  ◌>>=◌, Util,
}
use pmbackend.Kv.Status
use pmbackend.Kv.Op
use pmbackend.TxLog.{direct}
use pmbackend.TxLog.Meta.{tx_update_block, tx_slot_checksum}
use pmbackend.TxLog.Process.{set_zero, clear_slot}

-- The `switch`: `first` is the first entry of the slot, behind which the payload of every in-place update is looked for.
unfoldable pub check_entry : Handle → (commit : Bool) → (tx_slot_id first entry : ℕ) → Run Handle
check_entry s commit tx_slot_id first entry =
    let op = peek 4 s entry in
    let blk_id1 = peek 8 s (blk_id1_of entry) in
    let blk_id2 = peek 8 s (blk_id2_of entry) in
    if op == Op.write
    then ok (if commit then s else set_zero s (direct s blk_id1))
    else if op == Op.remove
    then ok (if commit then set_zero s (direct s blk_id1) else s)
    else if op == Op.update
    then ok (set_zero s (direct s (if commit then blk_id1 else blk_id2)))
    else if op == Op.updinplace && commit
    then tx_update_block s tx_slot_id blk_id1 (first + sizeof_tx_entry) (blk_id2 % two32)
        (blk_id2 / two32)
    else ok s

unfoldable pub check_entries :
    ℕ → (commit : Bool) → (tx_slot_id slot entry : ℕ) → Handle → Run Handle
unfolding check_entry
check_entries zero commit tx_slot_id slot entry s = out_of_fuel
check_entries (suc fuel) commit tx_slot_id slot entry s =
    let more = (do
      s' ← check_entry s commit tx_slot_id (slot + sizeof_tx_slot) entry
      check_entries fuel commit tx_slot_id slot (entry + sizeof_tx_entry) s') in
    if ltb entry (slot + peek 8 s (size_of slot))
    then if peek 8 s (blk_id1_of entry) == 0 && peek 8 s (blk_id2_of entry) == 0 then ok s else more
    else ok s

module _ (u : Util) where
  -- A slot that is not empty; the checksum is verified over `sizeof (tx_slot) + size` bytes.
  unfoldable pub check_slot : ℕ → Handle → (tx_slot_id slot : ℕ) → Run Handle
  unfolding check_entries tx_slot_checksum
  check_slot fuel s tx_slot_id slot = do
    let valid = u.verify (mem_of s) slot (sizeof_tx_slot + peek 8 s (size_of slot)) slot
    let commit = valid && peek 4 s (status_of slot) == Status.commited
    s1 ← check_entries fuel commit tx_slot_id slot (slot + sizeof_tx_slot) s
    let s2 = poke 8 (size_of slot) 0 (poke 4 (status_of slot) Status.empty s1)
    ok (clear_slot (tx_slot_checksum u s2 slot tx_slot_id) slot)

  -- `for (uint8_t tx_slot_id = 1; tx_slot_id <= tx_slots_count; tx_slot_id++)`
  unfoldable pub tx_log_check : (fuel : ℕ) → (tx_slot_id : ℕ) → Handle → Run Handle
  unfolding check_slot
  tx_log_check zero tx_slot_id s = out_of_fuel
  tx_log_check (suc fuel) tx_slot_id s =
      let skip = tx_log_check fuel ((tx_slot_id + 1) % 256) s in
      let next = λ (s' : Handle). tx_log_check fuel ((tx_slot_id + 1) % 256) s' in
      if leb tx_slot_id s.op_log.tx_slots_count
      then elim (backend_tx_direct (some s.backend) tx_slot_id) [
        | none ↦ skip
        | some slot ↦
            if peek 4 s (status_of slot) == Status.empty
            then skip
            else (do s' ← check_slot fuel s tx_slot_id slot; next s')
      ]
      else ok s
