-- ===== src/TxLog/Rewrote.antt =====
-- tx_log.c: the handle after `tx_slot_op_update`.
use pmbackend.Base.{ℕ, ◌+◌, ◌≤◌, ◌<◌, ◌≡◌, refl, ◌∙◌, List, arith, ◌⊎◌, two64}
use pmbackend.Mem.{Mem, load}
use pmbackend.Mem.Frame.{load-agree, load-store_self, store-outside}
use pmbackend.Backend.{sizeof_tx_entry}
use pmbackend.Kv.{Handle, mem_of, peek, size_of, pmb_ok}
use pmbackend.Kv.Op
use pmbackend.TxLog.{grow, write_entry, tx_slot_op_update}
use pmbackend.TxLog.Log.{Operation}
use pmbackend.TxLog.Register.{entry, entry_behind, in_progress_lem, write_entry-fields}
use pmbackend.TxLog.Open.{InProgress}

module _ (s : Handle) (id slot : ℕ) (ops : List Operation) (h : InProgress s id slot ops)
    (old new : ℕ) (bo : old < two64) (bn : new < two64) where
  abbrev pub rewrote : Handle
  rewrote = grow slot sizeof_tx_entry (write_entry (entry s id slot ops h) Op.update old new s)

  pub op_update-rewrote : tx_slot_op_update s id old new ≡ (rewrote, pmb_ok)
  unfolding tx_slot_op_update
  op_update-rewrote =
      in_progress_lem s id slot ops h
        (λ place end. grow place sizeof_tx_entry (write_entry end Op.update old new s))

  pub rewrote-world : rewrote ≡ record s { world = rewrote.world }
  unfolding write_entry
  rewrote-world = refl

  abbrev m1 : Mem
  m1 = mem_of (write_entry (entry s id slot ops h) Op.update old new s)

  entry-outside :
      (x : ℕ)
      → (x < entry s id slot ops h) ⊎ (entry s id slot ops h + sizeof_tx_entry ≤ x)
      → m1 x ≡ mem_of s x
  entry-outside = (write_entry-fields s id slot ops h Op.update old new (omega arith) bo bn).3

  same_size : load 8 m1 (size_of slot) ≡ peek 8 s (size_of slot)
  same_size =
      load-agree 8 (mem_of s) m1 (size_of slot)
        (λ x p q. entry-outside x (omega (arith, entry_behind s id slot ops h)))

  pub rewrote_size :
      peek 8 s (size_of slot) + sizeof_tx_entry < two64
      → peek 8 rewrote (size_of slot) ≡ peek 8 s (size_of slot) + sizeof_tx_entry
  rewrote_size fits =
      load-store_self 8 m1 (size_of slot) (load 8 m1 (size_of slot) + sizeof_tx_entry)
        (omega (arith, same_size))
      ∙ omega (arith, same_size)

  pub rewrote-outside :
      (x : ℕ)
      → (x < slot) ⊎ (entry s id slot ops h + sizeof_tx_entry ≤ x)
      → mem_of rewrote x ≡ mem_of s x
  rewrote-outside x p =
      store-outside 8 m1 (size_of slot) (load 8 m1 (size_of slot) + sizeof_tx_entry) x
        (omega (arith, entry_behind s id slot ops h))
      ∙ entry-outside x (omega (arith, entry_behind s id slot ops h))
