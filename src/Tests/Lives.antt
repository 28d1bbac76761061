-- ===== src/Tests/Lives.antt =====
-- A transaction that puts one object, aborted and executed.
use pmbackend.Base.{ℕ, ◌≤◌, ◌≡◌, refl, ◌∙◌, false, ◌&&◌, arith, ltb, leb}
use pmbackend.Mem.{store}
use pmbackend.Mem.Frame.{store-outside}
use pmbackend.Backend.{backend_tx_direct, sizeof_tx_slot}
use pmbackend.Backend.Layout.{place}
use pmbackend.Caslist.{caslist_new}
use pmbackend.Caslist.Many.{Holds, interval-Holds}
use pmbackend.Kv.{Handle, ok, mem_of, pmb_ok}
use pmbackend.Kv.Status
use pmbackend.Kv.Lists.{FreeLists}
use pmbackend.TxLog.{slot_at, tx_slot_init}
use pmbackend.Pmb.Put.{tput}
use pmbackend.Pmb.Tx.{tx_abort, tx_commit, tx_execute}
use pmbackend.Pmb.Life.{next_id, Ready, IsUndone, tput-abort-IsUndone}
use pmbackend.TxLog.Process.{tx_slot_commit}
use pmbackend.Pmb.Kept.{IsKept, tput-commit-execute-IsKept}
use pmbackend.Tests.Data.{pool, pool-IsLaidOut, bytes, mark, none_left-Holds}
use pmbackend.Tests.Logs.{opened_size}
use pmbackend.Tests.Objects.{
  stocked, pair, stocked-InProgress, stocked-Holds, opened_limits, opened_backend, pair-IsNewPair,
  stocked-Room, first_id, checksum_one,
}
use pmbackend.Tests.Ends.{bytes-BlocksFit}

stocked-place : place pool (next_id stocked) ≡ 20480
unfolding place
stocked-place = rw first_id refl

stocked-blocks : (x : ℕ) → 16384 ≤ x → mem_of stocked x ≡ bytes x
unfolding tx_slot_init slot_at backend_tx_direct
stocked-blocks x p =
    store-outside 8 (store 4 (store 8 bytes 8192 0) 8200 Status.processing) 8208 sizeof_tx_slot x
      (omega arith)
    ∙ store-outside 4 (store 8 bytes 8192 0) 8200 Status.processing x (omega arith)
    ∙ store-outside 8 bytes 8192 0 x (omega arith)

stocked-FreeLists : FreeLists stocked (λ x. ltb 0 x && leb x 3) (λ x. false)
unfolding tx_slot_init slot_at backend_tx_direct
stocked-FreeLists = record { data_side = stocked-Holds; meta_side = none_left-Holds }

stocked_slots : Holds (λ x. ltb 0 x && leb x 3) stocked.op_log.tx_slots_list
unfolding tx_slot_init slot_at backend_tx_direct caslist_new
stocked_slots = interval-Holds 3 (omega arith) (omega arith)

stocked_pending : (stocked.op_log.upd_id_list 1).count ≡ 0
unfolding tx_slot_init slot_at backend_tx_direct
stocked_pending = refl

stocked-Ready :
    Ready pool stocked 2 8192 pair (λ x. ltb 0 x && leb x 3) (λ x. false) (λ x. ltb 0 x && leb x 3)
stocked-Ready = record {
  laid_out = pool-IsLaidOut;
  pool = opened_backend;
  count = omega (arith, opened_limits);
  opened = stocked-InProgress;
  in_range = omega (arith, opened_limits);
  lists = stocked-FreeLists;
  slots_list = stocked_slots;
  some_id = 2;
  some_free = refl;
  in_data = λ x e. ground (arith, e);
  new = pair-IsNewPair;
  room = rw stocked-place stocked-Room;
  big = omega (arith, opened_limits);
  front = omega (arith, opened_size);
  fits = bytes-BlocksFit _ stocked-blocks;
  pending = stocked_pending;
}

tput-abort-IsUndone_example :
    (s' : Handle) × ((tput mark stocked 2 pair).2 ≡ pmb_ok)
    × (tx_abort mark (tput mark stocked 2 pair).0 2 ≡ ok (s', pmb_ok))
    × IsUndone pool stocked s' 2 (next_id stocked) (λ x. ltb 0 x && leb x 3)
tput-abort-IsUndone_example =
    tput-abort-IsUndone mark pool stocked 2 8192 pair (λ x. ltb 0 x && leb x 3) (λ x. false)
      (λ x. ltb 0 x && leb x 3) stocked-Ready

tput-commit-execute-IsKept_example :
    (s' : Handle) × ((tput mark stocked 2 pair).2 ≡ pmb_ok)
    × (tx_commit mark (tput mark stocked 2 pair).0 2
        ≡ ((tx_slot_commit mark (tput mark stocked 2 pair).0 2).0, pmb_ok))
    × (tx_execute mark (tx_slot_commit mark (tput mark stocked 2 pair).0 2).0 2 ≡ ok (s', pmb_ok))
    × IsKept pool stocked s' 2
        (next_id stocked)
        pair
        pair
        (λ x. ltb 0 x && leb x 3)
        (λ x. ltb 0 x && leb x 3)
tput-commit-execute-IsKept_example =
    tput-commit-execute-IsKept mark pool stocked 2 8192 pair (λ x. ltb 0 x && leb x 3) (λ x. false)
      (λ x. ltb 0 x && leb x 3) stocked-Ready pair refl
      (rw stocked-place (omega (arith, checksum_one)))
