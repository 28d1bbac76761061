-- ===== src/Pmb/Ending.antt =====
-- pmbackend.c: `pmb_tx_commit` and then `pmb_tx_execute`.
use pmbackend.Base.{
  ℕ, ◌+◌, ◌≤◌, ◌<◌, ◌≡◌, refl, ◌∙◌, ap, List, arith, some, false, ◌&&◌, ◌||◌, pred64, ◌%◌,
}
use pmbackend.Mem.Frame.{load-agree}
use pmbackend.Backend.{Backend, sizeof_tx_slot, backend_tx_direct}
use pmbackend.Backend.Layout.{IsLaidOut}
use pmbackend.Caslist.Many.{elem}
use pmbackend.Kv.{Handle, mem_of, size_of, OpLog, pmb_ok, ok, ◌>>=◌, Util}
use pmbackend.Kv.Status
use pmbackend.TxLog.{slot_at, tx_log_free_slot}
use pmbackend.TxLog.Log.{Operation}
use pmbackend.TxLog.Open.{InProgress}
use pmbackend.TxLog.Process.{tx_slot_commit}
use pmbackend.TxLog.Commit.{commit-Commited, commit-world}
use pmbackend.TxLog.Dropped.{Dropped, Dropped-trans, no_ids}
use pmbackend.TxLog.Drop.{held, header-Dropped}
use pmbackend.TxLog.DropAll.{AllDroppable}
use pmbackend.TxLog.Executed.{tx_slot_execute-IsEnded}
use pmbackend.TxLog.Ended.{Holding, AllPlain, olds}
use pmbackend.Pmb.Tx.{bad_slot, tx_commit, tx_execute}

module _ (u : Util) (b : Backend) (h : IsLaidOut b) (s : Handle) (tx_slot slot : ℕ)
    (ops : List Operation) (c : Holding b s tx_slot slot Status.processing ops)
    (in_range : (0 < tx_slot) × (tx_slot ≤ s.op_log.tx_slots_count))
    (low : slot + sizeof_tx_slot ≤ b.data_area) where
  abbrev pub commited : Handle
  commited = (tx_slot_commit u s tx_slot).0

  opened : InProgress s tx_slot slot ops
  opened = record { place = c.place_eq; status = c.status_eq; log = c.log }

  pub commit-Dropped : Dropped b slot s commited no_ids no_ids
  commit-Dropped =
      let k = commit-Commited u s tx_slot slot ops in_range.0 in_range.1 opened in
      let w = commit-world u s tx_slot slot ops in_range.0 in_range.1 opened in
      rw w (
        header-Dropped b h slot s commited.world low c.fits
          (λ x a. k.1.outside x (omega (arith, a))))

  commited-Holding : Holding b commited tx_slot slot Status.commited ops
  unfolding slot_at
  commited-Holding =
      let k = commit-Commited u s tx_slot slot ops in_range.0 in_range.1 opened in
      let d = commit-Dropped in
      let pool : commited.backend ≡ s.backend = ap (λ (x : Handle). x.backend) d.only in
      record {
        pool = pool ∙ c.pool;
        place_eq =
            ap (λ (x : Backend). backend_tx_direct (some x) (pred64 tx_slot)) pool ∙ c.place_eq;
        status_eq = k.1.status;
        log = k.1.log;
        front = omega (
          arith,
          c.front,
          load-agree 8 (mem_of s) (mem_of commited) (size_of slot)
              (λ x p q. k.1.outside x (omega arith)),
        );
        fits = d.fits;
      }

  -- The commit and the execution return PMB_OK, and the blocks that the operations replace are dropped.
  pub commit-execute-Dropped :
      AllPlain ops
      → AllDroppable b (olds ops)
      → (s.op_log.upd_id_list (pred64 tx_slot % 256)).count ≡ 0
      → (s' : Handle) × (tx_commit u s tx_slot ≡ (commited, pmb_ok))
        × (tx_execute u commited tx_slot ≡ ok (tx_log_free_slot s' tx_slot, pmb_ok))
        × Dropped b slot s s'
            (λ x. no_ids x || elem x (olds ops))
            (λ x. no_ids x || (elem x (olds ops) && held b (mem_of commited) x))
  unfolding tx_commit tx_execute
  commit-execute-Dropped plain a none' =
      let k = commit-Commited u s tx_slot slot ops in_range.0 in_range.1 opened in
      let d1 = commit-Dropped in
      let log1 : commited.op_log ≡ s.op_log = ap (λ (x : Handle). x.op_log) d1.only in
      let none1 : (commited.op_log.upd_id_list (pred64 tx_slot % 256)).count ≡ 0 =
        ap (λ (x : OpLog). (x.upd_id_list (pred64 tx_slot % 256)).count) log1 ∙ none' in
      let (s3, e, (status, d2)) =
        tx_slot_execute-IsEnded u b h commited tx_slot slot ops commited-Holding plain a none1 in
      let good : bad_slot s tx_slot ≡ false = ground (arith, in_range) in
      let good' : bad_slot commited tx_slot ≡ false = rw log1 (ground (arith, in_range)) in
      (
        s3,
        rw good (λ j. (commited, k.0 j)),
        rw (good', e, ◌>>=◌) refl,
        Dropped-trans b h slot s commited s3 no_ids _ no_ids _ low d1 d2,
      )
