-- ===== src/Pmb/Reuse.antt =====
-- pmbackend.c: `pmb_tx_begin` after `pmb_tx_execute` and `pmb_tx_abort`.
use pmbackend.Base.{ℕ, ◌≤◌, ◌<◌, ◌≡◌, refl, ap, List, arith, ◌==◌, ◌||◌, Bool, false, pred64, ◌%◌}
use pmbackend.Backend.{Backend}
use pmbackend.Backend.Layout.{IsLaidOut}
use pmbackend.Caslist.Many.{Holds-change, caslist_push-Holds}
use pmbackend.Kv.{Handle, pmb_ok, ok, ◌>>=◌, Util}
use pmbackend.Kv.Status
use pmbackend.TxLog.{tx_log_free_slot}
use pmbackend.TxLog.Log.{Operation}
use pmbackend.TxLog.DropAll.{AllDroppable}
use pmbackend.TxLog.Executed.{tx_slot_execute-IsEnded}
use pmbackend.TxLog.Ended.{Holding, AllPlain, olds}
use pmbackend.Pmb.Tx.{bad_slot, tx_begin, tx_execute}
use pmbackend.Pmb.Slots.{SlotsFree, Begun, tx_begin-Begun}

-- The slot and the free ones.
abbrev pub with_slot : ℕ → (ℕ → Bool) → ℕ → Bool
with_slot tx_slot free x = (x == tx_slot) || free x

-- The slot is given back.
tx_log_free_slot-SlotsFree :
    (s s1 : Handle) (tx_slot : ℕ) (free : ℕ → Bool)
    → SlotsFree s free
    → 0 < tx_slot
    → tx_slot ≤ s.op_log.tx_slots_count
    → s1.backend ≡ s.backend
    → s1.op_log ≡ s.op_log
    → SlotsFree (tx_log_free_slot s1 tx_slot) (with_slot tx_slot free)
unfolding tx_log_free_slot
tx_log_free_slot-SlotsFree s s1 tx_slot free h p q b l =
    rw (b, l)
      (record {
        same_count = h.same_count;
        few = h.few;
        listed =
            Holds-change _ _
              (caslist_push-Holds free s.op_log.tx_slots_list tx_slot (omega (arith, h.few))
                h.listed)
              (λ x. ground arith);
        range = λ x e. ground (arith, e, h.range x);
      })

module _ (u : Util) (b : Backend) (h : IsLaidOut b) (s : Handle) (tx_slot slot v : ℕ)
    (ops : List Operation) (free : ℕ → Bool) (f : SlotsFree s free) (p : 0 < tx_slot)
    (q : tx_slot ≤ s.op_log.tx_slots_count) where
  -- Let the list of free slots be valid and let a slot of the handle hold commited operations as
  -- `tx_slot_execute-IsEnded` wants them. Then `pmb_tx_execute` returns PMB_OK, and the next `pmb_tx_begin` succeeds: it
  -- opens an empty transaction in the least of the slot and the slots that were free before.
  pub tx_execute-Begun :
      Holding b s tx_slot slot Status.commited ops
      → AllPlain ops
      → AllDroppable b (olds ops)
      → (s.op_log.upd_id_list (pred64 tx_slot % 256)).count ≡ 0
      → (s' : Handle) × (tx_execute u s tx_slot ≡ ok (s', pmb_ok))
        × Begun s' (with_slot tx_slot free) (tx_begin s' v)
  unfolding tx_execute
  tx_execute-Begun c plain a none' =
      let (s1, e, (status, d)) = tx_slot_execute-IsEnded u b h s tx_slot slot ops c plain a none' in
      let good : bad_slot s tx_slot ≡ false = ground arith in
      let f' =
        tx_log_free_slot-SlotsFree s s1 tx_slot free f p q (ap (λ (x : Handle). x.backend) d.only)
          (ap (λ (x : Handle). x.op_log) d.only) in
      (
        tx_log_free_slot s1 tx_slot,
        rw (good, e, ◌>>=◌) refl,
        tx_begin-Begun (tx_log_free_slot s1 tx_slot) (with_slot tx_slot free) tx_slot v f'
            (ground arith),
      )
