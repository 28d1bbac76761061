-- ===== src/TxLog/Single.antt =====
-- tx_log.c: `tx_log_check`, which counts the slots from 1 where `backend_tx_direct` counts from 0.
use pmbackend.Base.{ℕ, suc, ◌≡◌, arith}
use pmbackend.Backend.{backend_tx_direct}
use pmbackend.Kv.{Handle, ok, Util}
use pmbackend.TxLog.Check.{tx_log_check}

-- With one transaction slot, `tx_log_check` ends after two tests of its loop and leaves the handle and the
-- pool as they are, whatever the slot holds.
pub tx_log_check-single :
    (u : Util) (fuel : ℕ) (s : Handle)
    → s.op_log.tx_slots_count ≡ 1
    → s.backend.tx_slots_count ≡ 1
    → tx_log_check u (suc (suc fuel)) 1 s ≡ ok s
unfolding tx_log_check backend_tx_direct
tx_log_check-single u fuel s e f = ground (arith, e, f)
