-- ===== src/Pmb/Tx.antt =====
-- pmbackend.c: beginning, committing, executing and aborting a transaction, and deleting in one.
use pmbackend.Base.{ℕ, Bool, ◌||◌, Option, none, some, ltb, ◌==◌, if◌then◌else◌}
use pmbackend.Kv.{pmb_err, pmb_eargs, Handle, Run, ok, ◌>>=◌, Util}
use pmbackend.TxLog.{tx_log_get_slot, tx_log_free_slot, tx_slot_init, tx_slot_op_remove}
use pmbackend.TxLog.Process.{tx_slot_commit, tx_slot_execute, tx_slot_abort}

-- The test that an id from the caller is one of the handle's slots.
abbrev pub bad_slot : Handle → ℕ → Bool
bad_slot s tx_slot = tx_slot == 0 || ltb s.op_log.tx_slots_count tx_slot

-- The handle, `*tx_slot` and the return code.
unfoldable pub tx_begin : Handle → (tx_slot : ℕ) → Handle × ℕ × ℕ
tx_begin s tx_slot =
    let (s', code, slot) = tx_log_get_slot s tx_slot in
    let (s'', ret) = tx_slot_init s' slot in
    if code == 0 then (s'', slot, ret) else (s', slot, pmb_err)

unfoldable pub pmb_tx_begin : Option Handle → Option ℕ → Option Handle × Option ℕ × ℕ
unfolding tx_begin
pmb_tx_begin none tx_slot = (none, tx_slot, pmb_eargs)
pmb_tx_begin (some s) none = (some s, none, pmb_eargs)
pmb_tx_begin (some s) (some tx_slot) =
    let (s', slot, ret) = tx_begin s tx_slot in (some s', some slot, ret)

unfoldable pub tdel : Handle → (tx_slot blk_id : ℕ) → Handle × ℕ
tdel s tx_slot blk_id =
    if bad_slot s tx_slot || blk_id == 0 then (s, pmb_eargs) else tx_slot_op_remove s tx_slot blk_id

unfoldable pub pmb_tdel : Option Handle → (tx_slot blk_id : ℕ) → Option Handle × ℕ
unfolding tdel
pmb_tdel none tx_slot blk_id = (none, pmb_eargs)
pmb_tdel (some s) tx_slot blk_id = let (s', ret) = tdel s tx_slot blk_id in (some s', ret)

module _ (u : Util) where
  unfoldable pub tx_commit : Handle → (tx_slot : ℕ) → Handle × ℕ
  tx_commit s tx_slot = if bad_slot s tx_slot then (s, pmb_eargs) else tx_slot_commit u s tx_slot

  -- The slot is freed whatever `tx_slot_execute` returns.
  unfoldable pub tx_execute : Handle → (tx_slot : ℕ) → Run (Handle × ℕ)
  tx_execute s tx_slot =
      if bad_slot s tx_slot
      then ok (s, pmb_eargs)
      else (do (s', ret) ← tx_slot_execute u s tx_slot; ok (tx_log_free_slot s' tx_slot, ret))

  unfoldable pub tx_abort : Handle → (tx_slot : ℕ) → Run (Handle × ℕ)
  tx_abort s tx_slot =
      if bad_slot s tx_slot
      then ok (s, pmb_eargs)
      else (do (s', ret) ← tx_slot_abort u s tx_slot; ok (tx_log_free_slot s' tx_slot, ret))

  unfoldable pub pmb_tx_commit : Option Handle → (tx_slot : ℕ) → Option Handle × ℕ
  unfolding tx_commit
  pmb_tx_commit none tx_slot = (none, pmb_eargs)
  pmb_tx_commit (some s) tx_slot = let (s', ret) = tx_commit s tx_slot in (some s', ret)

  unfoldable pub pmb_tx_execute : Option Handle → (tx_slot : ℕ) → Run (Option Handle × ℕ)
  unfolding tx_execute
  pmb_tx_execute none tx_slot = ok (none, pmb_eargs)
  pmb_tx_execute (some s) tx_slot = do (s', ret) ← tx_execute s tx_slot; ok (some s', ret)

  unfoldable pub pmb_tx_abort : Option Handle → (tx_slot : ℕ) → Run (Option Handle × ℕ)
  unfolding tx_abort
  pmb_tx_abort none tx_slot = ok (none, pmb_eargs)
  pmb_tx_abort (some s) tx_slot = do (s', ret) ← tx_abort s tx_slot; ok (some s', ret)
