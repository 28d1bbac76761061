-- ===== src/Tests/Logs.antt =====
-- A transaction in the second slot.
use pmbackend.Base.{ℕ, ◌≤◌, ◌≡◌, refl, inr, some, [], arith}
use pmbackend.Mem.{read_bytes}
use pmbackend.Backend.{backend_tx_direct}
use pmbackend.Kv.{Handle, ok, mem_of, peek, size_of, fault}
use pmbackend.TxLog.{slot_at, tx_slot_init, tx_slot_op_small_update, tx_log_init}
use pmbackend.TxLog.Process.{tx_slot_execute, tx_slot_abort}
use pmbackend.TxLog.Check.{tx_log_check}
use pmbackend.TxLog.Log.{updinplace}
use pmbackend.TxLog.Register.{Registered, op_small_update-Registered}
use pmbackend.TxLog.Open.{InProgress, tx_slot_init-InProgress}
use pmbackend.TxLog.Ends.{Ends, tx_slot_execute-Ends, tx_slot_abort-ok}
use pmbackend.TxLog.Init.{tx_log_init-fault}
use pmbackend.TxLog.Single.{tx_log_check-single}
use pmbackend.Tests.Data.{handle, mark, no_meta}

place_two : slot_at handle 2 ≡ some 8192
unfolding slot_at backend_tx_direct
place_two = refl

abbrev pub opened : Handle
opened = (tx_slot_init handle 2).0

pub opened-InProgress : InProgress opened 2 8192 []
opened-InProgress = (tx_slot_init-InProgress handle 2 8192 (omega arith) (omega arith) place_two).1

pub opened_size : peek 8 opened (size_of 8192) ≡ 24
opened_size = let e = opened-InProgress.log in omega (arith, e)

op_small_update-Registered_example :
    Registered
      (tx_slot_op_small_update opened 2 1 20480 5 6)
      2
      8192
      []
      (updinplace 1 5 (read_bytes (mem_of opened) 20480 6))
op_small_update-Registered_example =
    op_small_update-Registered opened 2 8192 [] opened-InProgress 1 20480 5 6 (omega arith)
      (omega arith) (omega arith) (omega (arith, opened_size)) (inr (omega (arith, opened_size)))

tx_slot_init-op_log : opened.op_log ≡ handle.op_log
unfolding tx_slot_init slot_at backend_tx_direct
tx_slot_init-op_log = refl

pub in_range : 2 ≤ opened.op_log.tx_slots_count
in_range = rw tx_slot_init-op_log (omega arith)

tx_slot_execute-Ends_example : Ends (tx_slot_execute mark opened 2)
tx_slot_execute-Ends_example = tx_slot_execute-Ends mark opened 2

tx_slot_abort-ok_example : (r : Handle × ℕ) × (tx_slot_abort mark opened 2 ≡ ok r)
tx_slot_abort-ok_example = tx_slot_abort-ok mark opened 2

tx_log_init-fault_example : tx_log_init 1000 (λ j k. no_meta) handle 255 ≡ fault
tx_log_init-fault_example = tx_log_init-fault 1000 (λ j k. no_meta) handle (omega arith)

-- The same pool, with a single slot.
abbrev single : Handle
single = record opened {
  op_log = record handle.op_log { tx_slots_count = 1 };
  backend = record handle.backend { tx_slots_count = 1 };
}

tx_log_check-single_example : tx_log_check mark 2 1 single ≡ ok single
tx_log_check-single_example = tx_log_check-single mark 0 single refl refl
