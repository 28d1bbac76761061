-- ===== src/TxLog/Noted.antt =====
-- tx_log.c: the handle after `tx_slot_op_write` and `tx_slot_op_remove`.
use pmbackend.Base.{ℕ, ◌+◌, ◌≤◌, ◌<◌, ◌≡◌, ◌∙◌, List, arith, ◌⊎◌, two64}
use pmbackend.Mem.{load, store}
use pmbackend.Mem.Frame.{load-store_self, load-store_ne, store-outside}
use pmbackend.Backend.{sizeof_tx_entry}
use pmbackend.Kv.{Handle, mem_of, poke, peek, size_of, blk_id1_of, pmb_ok}
use pmbackend.Kv.Op
use pmbackend.TxLog.{grow, tx_slot_op_write, tx_slot_op_remove}
use pmbackend.TxLog.Log.{Operation}
use pmbackend.TxLog.Register.{entry, entry_behind, in_progress_lem}
use pmbackend.TxLog.Open.{InProgress}

module _ (s : Handle) (id slot : ℕ) (ops : List Operation) (h : InProgress s id slot ops) where
  abbrev size : ℕ
  size = peek 8 s (size_of slot)

  abbrev e : ℕ
  e = entry s id slot ops h

  behind : slot + 24 ≤ e
  behind = entry_behind s id slot ops h

  -- The handle after an entry of type `t` with one id: the new size, and what lies outside the slot.
  abbrev pub noted : (t blk_id : ℕ) → Handle
  noted t blk_id = grow slot sizeof_tx_entry (poke 8 (blk_id1_of e) blk_id (poke 4 e t s))

  pub op_write-noted : (blk_id : ℕ) → tx_slot_op_write s id blk_id ≡ (noted Op.write blk_id, pmb_ok)
  unfolding tx_slot_op_write
  op_write-noted blk_id = in_progress_lem s id slot ops h (λ place end.
      grow place sizeof_tx_entry (poke 8 (blk_id1_of end) blk_id (poke 4 end Op.write s)))

  pub op_remove-noted :
      (blk_id : ℕ) → tx_slot_op_remove s id blk_id ≡ (noted Op.remove blk_id, pmb_ok)
  unfolding tx_slot_op_remove
  op_remove-noted blk_id = in_progress_lem s id slot ops h (λ place end.
      grow place sizeof_tx_entry (poke 8 (blk_id1_of end) blk_id (poke 4 end Op.remove s)))

  pub noted_size :
      (t blk_id : ℕ)
      → size + sizeof_tx_entry < two64
      → peek 8 (noted t blk_id) (size_of slot) ≡ size + sizeof_tx_entry
  noted_size t blk_id fits =
      let m1 = store 4 (mem_of s) e t in
      let m2 = store 8 m1 (blk_id1_of e) blk_id in
      let same : load 8 m2 (size_of slot) ≡ size =
        load-store_ne 8 8 m1 (blk_id1_of e) blk_id (size_of slot) (omega (arith, behind))
        ∙ load-store_ne 8 4 (mem_of s) e t (size_of slot) (omega (arith, behind)) in
      load-store_self 8 m2 (size_of slot) (load 8 m2 (size_of slot) + sizeof_tx_entry)
        (omega (arith, same))
      ∙ omega (arith, same)

  pub noted-outside :
      (t blk_id x : ℕ)
      → (x < slot) ⊎ (e + sizeof_tx_entry ≤ x)
      → mem_of (noted t blk_id) x ≡ mem_of s x
  noted-outside t blk_id x p =
      let m1 = store 4 (mem_of s) e t in
      let m2 = store 8 m1 (blk_id1_of e) blk_id in
      store-outside 8 m2 (size_of slot) (load 8 m2 (size_of slot) + sizeof_tx_entry) x
        (omega (arith, behind))
      ∙ store-outside 8 m1 (blk_id1_of e) blk_id x (omega (arith, behind))
      ∙ store-outside 4 (mem_of s) e t x (omega (arith, behind))
