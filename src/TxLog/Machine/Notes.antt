-- ===== src/TxLog/Machine/Notes.antt =====
-- tx_log.c: an operation that is registered in an open transaction, for each of the three kinds.
use pmbackend.Base.{ℕ, ◌+◌, ◌≤◌, ◌<◌, ◌≡◌, ◌≢◌, refl, List, [], ◌∷◌, ◌++◌, arith, some, ◌⊎◌, two64}
use pmbackend.Backend.{sizeof_tx_entry}
use pmbackend.Kv.{Handle, mem_of, peek, status_of, size_of, pmb_ok, pmb_err}
use pmbackend.Kv.Op
use pmbackend.Kv.Status
use pmbackend.TxLog.{slot_at, in_progress, tx_slot_op_write, tx_slot_op_update, tx_slot_op_remove}
use pmbackend.TxLog.Log.{Operation, write, update, remove}
use pmbackend.TxLog.Open.{InProgress}
use pmbackend.TxLog.Register.{op_write-Registered, op_update-Registered, op_remove-Registered}
use pmbackend.TxLog.Noted.{op_write-noted, op_remove-noted, noted-outside}
use pmbackend.TxLog.Rewrote.{op_update-rewrote, rewrote-world, rewrote-outside}

-- The operation is the last one of the open transaction, and no byte outside the log has changed.
pub record Noted (s : Handle) (id slot : ℕ) (ops : List Operation) (op : Operation) (r : Handle × ℕ)
    : Type 0 where
  pub code : r.1 ≡ pmb_ok
  pub now : InProgress r.0 id slot (ops ++ op ∷ [])
  pub only : r.0 ≡ record s { world = r.0.world }
  pub outside :
      (x : ℕ)
      → (x < slot) ⊎ (slot + peek 8 s (size_of slot) + sizeof_tx_entry ≤ x)
      → mem_of r.0 x ≡ mem_of s x

module _ (s : Handle) (id slot : ℕ) (ops : List Operation) (h : InProgress s id slot ops)
    (fits : peek 8 s (size_of slot) + sizeof_tx_entry < two64) where
  pub op_write-Noted :
      (blk_id : ℕ)
      → blk_id < two64
      → Noted s id slot ops (write blk_id) (tx_slot_op_write s id blk_id)
  op_write-Noted blk_id p =
      let (code, now) = op_write-Registered s id slot ops h blk_id p fits in
      let e = op_write-noted s id slot ops h blk_id in
      record {
        code = code;
        now = now;
        only = rw e refl;
        outside = rw e (noted-outside s id slot ops h Op.write blk_id);
      }

  pub op_remove-Noted :
      (blk_id : ℕ)
      → blk_id < two64
      → Noted s id slot ops (remove blk_id) (tx_slot_op_remove s id blk_id)
  op_remove-Noted blk_id p =
      let (code, now) = op_remove-Registered s id slot ops h blk_id p fits in
      let e = op_remove-noted s id slot ops h blk_id in
      record {
        code = code;
        now = now;
        only = rw e refl;
        outside = rw e (noted-outside s id slot ops h Op.remove blk_id);
      }

  pub op_update-Noted :
      (old new : ℕ)
      → old < two64
      → new < two64
      → Noted s id slot ops (update old new) (tx_slot_op_update s id old new)
  op_update-Noted old new p q =
      let (code, now) = op_update-Registered s id slot ops h old new p q fits in
      let e = op_update-rewrote s id slot ops h old new p q in
      record {
        code = code;
        now = now;
        only = rw e (rewrote-world s id slot ops h old new p q);
        outside = rw e (rewrote-outside s id slot ops h old new p q);
      }

-- A slot whose transaction is not open refuses every operation, and stays as it is.
module _ (s : Handle) (id slot : ℕ) (place : slot_at s id ≡ some slot)
    (status : peek 4 s (status_of slot) ≢ Status.processing) where
  pub op_write_closed : (blk_id : ℕ) → tx_slot_op_write s id blk_id ≡ (s, pmb_err)
  unfolding tx_slot_op_write in_progress
  op_write_closed blk_id = ground (arith, place, status)

  pub op_remove_closed : (blk_id : ℕ) → tx_slot_op_remove s id blk_id ≡ (s, pmb_err)
  unfolding tx_slot_op_remove in_progress
  op_remove_closed blk_id = ground (arith, place, status)

  pub op_update_closed : (old new : ℕ) → tx_slot_op_update s id old new ≡ (s, pmb_err)
  unfolding tx_slot_op_update in_progress
  op_update_closed old new = ground (arith, place, status)
