-- ===== src/TxLog/Machine.antt =====
-- tx_log.c: the calls on one slot, and the abstract machine that says what a client may expect of them.
pub mod Shows
pub mod Notes
pub mod Steps
pub mod Refines
use pmbackend.Base.{ℕ, ◌+◌, ◌*◌, ◌≤◌, Bool, not, ◌&&◌, ◌||◌, List, [], ◌∷◌, ◌++◌, length}
use pmbackend.Caslist.Many.{elem}
use pmbackend.Backend.{Backend, sizeof_tx_slot, sizeof_tx_entry}
use pmbackend.Kv.{Handle, pmb_ok, pmb_err, Run, ok, ◌>>=◌, Util}
use pmbackend.TxLog.{tx_slot_init, tx_slot_op_write, tx_slot_op_update, tx_slot_op_remove}
use pmbackend.TxLog.Log.{Operation, write, update, remove}
use pmbackend.TxLog.Process.{tx_slot_commit, tx_slot_execute, tx_slot_abort}
use pmbackend.TxLog.DropAll.{AllDroppable}
use pmbackend.TxLog.Ended.{olds, news}

-- The functions of the log, without the update in place.
pub data Call : Type 0 where
  init : Call
  op_write : ℕ → Call
  op_update : (old new : ℕ) → Call
  op_remove : ℕ → Call
  commit : Call
  execute : Call
  abort : Call

module _ (u : Util) (tx_slot_id : ℕ) where
  -- A call on the slot of this id: the handle after it, and the code.
  unfoldable pub call : Handle → Call → Run (Handle × ℕ)
  call s init = ok (tx_slot_init s tx_slot_id)
  call s (op_write id) = ok (tx_slot_op_write s tx_slot_id id)
  call s (op_update old new) = ok (tx_slot_op_update s tx_slot_id old new)
  call s (op_remove id) = ok (tx_slot_op_remove s tx_slot_id id)
  call s commit = ok (tx_slot_commit u s tx_slot_id)
  call s execute = tx_slot_execute u s tx_slot_id
  call s abort = tx_slot_abort u s tx_slot_id

  -- Calls one after another, with their codes.
  unfoldable pub calls : Handle → List Call → Run (Handle × List ℕ)
  unfolding call
  calls s [] = ok (s, [])
  calls s (c ∷ cs) = do (s1, code) ← call s c; (s2, codes) ← calls s1 cs; ok (s2, code ∷ codes)

-- A transaction has not begun, has registered operations, or is commited with them.
pub data Phase : Type 0 where
  idle : Phase
  opened : List Operation → Phase
  sealed : List Operation → Phase

-- The phase, the blocks that hold an object, and, since the start, the blocks that were cleared and the ids that
-- were given back.
pub record State : Type 0 where
  pub phase : Phase
  pub full : ℕ → Bool
  pub gone : ℕ → Bool
  pub freed : ℕ → Bool

-- The transaction ends: blocks are cleared, and some of their ids are given back.
abbrev pub ended : List ℕ → (ℕ → Bool) → State → State
ended ids back st = record {
  phase = idle;
  full = λ x. st.full x && not (elem x ids);
  gone = λ x. st.gone x || elem x ids;
  freed = λ x. st.freed x || back x;
}

-- Executing clears the replaced and removed blocks, and gives back those that held an object.
abbrev pub executed : List Operation → State → State
executed ops st = ended (olds ops) (λ x. elem x (olds ops) && st.full x) st

-- Aborting clears the new blocks, and gives all of them back.
abbrev pub aborted : List Operation → State → State
aborted ops st = ended (news ops) (λ x. elem x (news ops)) st

-- An operation is registered in an open transaction only.
abbrev pub note_in : Operation → Phase → State → State × ℕ
note_in op (opened ops) st = (record st { phase = opened (ops ++ op ∷ []) }, pmb_ok)
note_in op idle st = (st, pmb_err)
note_in op (sealed ops) st = (st, pmb_err)

abbrev pub commit_in : Phase → State → State × ℕ
commit_in (opened ops) st = (record st { phase = sealed ops }, pmb_ok)
commit_in idle st = (st, pmb_err)
commit_in (sealed ops) st = (st, pmb_err)

abbrev pub execute_in : Phase → State → State × ℕ
execute_in (sealed ops) st = (executed ops st, pmb_ok)
execute_in idle st = (st, pmb_err)
execute_in (opened ops) st = (st, pmb_err)

abbrev pub abort_in : Phase → State → State × ℕ
abort_in (opened ops) st = (aborted ops st, pmb_ok)
abort_in (sealed ops) st = (aborted ops st, pmb_ok)
abort_in idle st = (st, pmb_err)

-- The machine: what a call does, and its code.
abbrev pub step : State → Call → State × ℕ
step st init = (record st { phase = opened [] }, pmb_ok)
step st (op_write id) = note_in (write id) st.phase st
step st (op_update old new) = note_in (update old new) st.phase st
step st (op_remove id) = note_in (remove id) st.phase st
step st commit = commit_in st.phase st
step st execute = execute_in st.phase st
step st abort = abort_in st.phase st

abbrev pub steps : State → List Call → State × List ℕ
steps st [] = (st, [])
steps st (c ∷ cs) = let rest = steps (step st c).0 cs in (rest.0, (step st c).1 ∷ rest.1)

-- An operation that is registered names blocks, and its entry fits into the slot's room.
abbrev pub NoteFits : Backend → (room : ℕ) → List ℕ → Phase → Type 0
NoteFits b room ids (opened ops) =
    AllDroppable b ids × (sizeof_tx_slot + sizeof_tx_entry * (length ops + 1) ≤ room)
NoteFits b room ids idle = Unit
NoteFits b room ids (sealed ops) = Unit

abbrev pub CallFits : Backend → (room : ℕ) → Phase → Call → Type 0
CallFits b room p init = Unit
CallFits b room p (op_write id) = NoteFits b room (id ∷ []) p
CallFits b room p (op_update old new) = NoteFits b room (old ∷ new ∷ []) p
CallFits b room p (op_remove id) = NoteFits b room (id ∷ []) p
CallFits b room p commit = Unit
CallFits b room p execute = Unit
CallFits b room p abort = Unit

abbrev pub CallsFit : Backend → (room : ℕ) → State → List Call → Type 0
CallsFit b room st [] = Unit
CallsFit b room st (c ∷ cs) = CallFits b room st.phase c × CallsFit b room (step st c).0 cs
