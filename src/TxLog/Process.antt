-- ===== src/TxLog/Process.antt =====
-- tx_log.c: committing, executing and aborting the transaction of a slot.
use pmbackend.Base.{
  ℕ, zero, suc, ◌+◌, ◌/◌, ◌%◌, ◌||◌, ◌&&◌, not, Option, none, some, ltb, ◌==◌, if◌then◌else◌, two32,
  pred64,
}
use pmbackend.Backend.{
  sizeof_tx_slot, sizeof_tx_entry, found, missing, backend_get, backend_set_zero,
  backend_tx_set_zero,
}
use pmbackend.Kv.{
  pmb_ok, pmb_err, status_of, size_of, blk_id1_of, blk_id2_of, Handle, mem_of, poke, peek, release,
  Run, ok, out_of_fuel, ◌>>=◌, Util,
}
use pmbackend.Kv.Status
use pmbackend.Kv.Op
use pmbackend.TxLog.{direct, slot_at}
use pmbackend.TxLog.Meta.{tx_update_block, tx_slot_checksum, tx_slot_meta_upd_process}

-- backend_set_zero on the handle's memory
abbrev pub set_zero : Handle → Option ℕ → Handle
set_zero s obj = record s { world = (backend_set_zero (some s.backend) s.world obj).0 }

abbrev pub clear_slot : Handle → ℕ → Handle
clear_slot s slot = record s {
  world = (backend_tx_set_zero (some s.backend) s.world (some slot)).0;
}

-- UPDATE and REMOVE: the old block is zeroed and freed, if it holds an object
unfoldable pub drop_old : Handle → ℕ → Handle
drop_old s blk_id = elim (backend_get (some s.backend) (mem_of s) blk_id) [
  | found obj ↦ release (set_zero s (some obj)) blk_id
  | missing _ ↦ s
]

-- One round of the loop of `tx_slot_execute`: the handle and the next entry.
unfoldable pub execute_entry : Handle → (tx_id entry : ℕ) → Run (Handle × ℕ)
unfolding drop_old
execute_entry s tx_id entry =
    let op = peek 4 s entry in
    let blk_id1 = peek 8 s (blk_id1_of entry) in
    let blk_id2 = peek 8 s (blk_id2_of entry) in
    let size = blk_id2 / two32 in
    if op == Op.update || op == Op.remove
    then ok (drop_old s blk_id1, entry + sizeof_tx_entry)
    else if op == Op.updinplace
    then (do
      s' ← tx_update_block s tx_id blk_id1 (entry + sizeof_tx_entry) (blk_id2 % two32) size
      ok (s', entry + sizeof_tx_entry + size))
    else ok (s, entry + sizeof_tx_entry)

unfoldable pub execute_entries : ℕ → (tx_id entry slot_end : ℕ) → Handle → Run Handle
unfolding execute_entry
execute_entries zero tx_id entry slot_end s = out_of_fuel
execute_entries (suc fuel) tx_id entry slot_end s =
    let more = (do
      (s', entry') ← execute_entry s tx_id entry
      execute_entries fuel tx_id entry' slot_end s') in
    if ltb entry slot_end then more else ok s

-- A new block is zeroed and freed.
unfoldable pub drop_new : Handle → ℕ → Handle
drop_new s blk_id = release (set_zero s (direct s blk_id)) blk_id

-- One round of the loop of `tx_slot_abort`.
unfoldable pub abort_entry : Handle → (entry : ℕ) → Handle
unfolding drop_new
abort_entry s entry =
    let op = peek 4 s entry in
    if op == Op.update
    then drop_new s (peek 8 s (blk_id2_of entry))
    else if op == Op.write
    then drop_new s (peek 8 s (blk_id1_of entry))
    else s

unfoldable pub abort_entries : ℕ → (entry slot_end : ℕ) → Handle → Run Handle
unfolding abort_entry
abort_entries zero entry slot_end s = out_of_fuel
abort_entries (suc fuel) entry slot_end s =
    let more = abort_entries fuel (entry + sizeof_tx_entry) slot_end (abort_entry s entry) in
    if ltb entry slot_end then more else ok s

module _ (u : Util) where
  unfoldable pub tx_slot_commit : Handle → (tx_slot_id : ℕ) → Handle × ℕ
  unfolding slot_at tx_slot_checksum
  tx_slot_commit s tx_slot_id =
      if tx_slot_id == 0 || ltb s.op_log.tx_slots_count tx_slot_id
      then (s, pmb_err)
      else elim (slot_at s tx_slot_id) [
        | none ↦ (s, pmb_err)
        | some slot ↦
            if peek 4 s (status_of slot) == Status.processing
            then (
              tx_slot_checksum u (poke 4 (status_of slot) Status.commited s) slot
                  (pred64 tx_slot_id),
              pmb_ok,
            )
            else (s, pmb_err)
      ]

  -- Each round moves by an entry at least, so one round for each byte of the slot is enough.
  unfoldable pub execute_slot : Handle → (tx_slot_id slot : ℕ) → Run Handle
  unfolding execute_entries tx_slot_meta_upd_process
  execute_slot s tx_slot_id slot = do
    let size = peek 8 s (size_of slot)
    let tx_id = pred64 tx_slot_id % 256
    s1 ← execute_entries (size + 1) tx_id (slot + sizeof_tx_slot) (slot + size) s
    s2 ← tx_slot_meta_upd_process u s1 tx_id
    ok (clear_slot s2 slot)

  unfoldable pub tx_slot_execute : Handle → (tx_slot_id : ℕ) → Run (Handle × ℕ)
  unfolding slot_at execute_slot
  tx_slot_execute s tx_slot_id = elim (slot_at s tx_slot_id) [
    | none ↦ ok (s, pmb_err)
    | some slot ↦
        if peek 4 s (status_of slot) == Status.commited
        then (do s' ← execute_slot s tx_slot_id slot; ok (s', pmb_ok))
        else ok (s, pmb_err)
  ]

  unfoldable pub abort_slot : Handle → (tx_slot_id slot : ℕ) → Run Handle
  unfolding abort_entries tx_slot_checksum
  abort_slot s tx_slot_id slot = do
    let s1 = tx_slot_checksum u (poke 4 (status_of slot) Status.aborted s) slot (pred64 tx_slot_id)
    let size = peek 8 s1 (size_of slot)
    s2 ← abort_entries (size + 1) (slot + sizeof_tx_slot) (slot + size) s1
    let s3 = poke 8 (size_of slot) 0 (poke 4 (status_of slot) Status.empty s2)
    ok (clear_slot (tx_slot_checksum u s3 slot (pred64 tx_slot_id)) slot)

  unfoldable pub tx_slot_abort : Handle → (tx_slot_id : ℕ) → Run (Handle × ℕ)
  unfolding slot_at abort_slot
  tx_slot_abort s tx_slot_id = elim (slot_at s tx_slot_id) [
    | none ↦ ok (s, pmb_err)
    | some slot ↦
        let status = peek 4 s (status_of slot) in
        if not (status == Status.processing) && not (status == Status.commited)
        then ok (s, pmb_err)
        else (do s' ← abort_slot s tx_slot_id slot; ok (s', pmb_ok))
  ]
