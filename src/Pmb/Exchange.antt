-- ===== src/Pmb/Exchange.antt =====
-- pmbackend.c: a transaction that replaces one object, from `pmb_tput` to its end.
use pmbackend.Base.{
  ℕ, ◌+◌, ◌≤◌, ◌<◌, ◌≡◌, ◌≢◌, ◌∙◌, ap, [], ◌∷◌, arith, some, ◌==◌, ◌&&◌, not, Bool, true, false,
  inl, pred64, ◌%◌,
}
use pmbackend.Backend.{Backend, sizeof_data_hdr, sizeof_tx_entry}
use pmbackend.Backend.Layout.{IsLaidOut, place, direct-place}
use pmbackend.Caslist.Ranges.{limit, member_range}
use pmbackend.Caslist.Many.{Holds, caslist_pop-Takes}
use pmbackend.Kv.{Handle, mem_of, peek, size_of, Util}
use pmbackend.Kv.Lists.{FreeLists}
use pmbackend.Kv.Status
use pmbackend.TxLog.{direct}
use pmbackend.TxLog.Log.{update}
use pmbackend.TxLog.Open.{InProgress}
use pmbackend.TxLog.Dropped.{BlocksFit, Beside}
use pmbackend.TxLog.Ended.{Holding}
use pmbackend.Pmb.Pair.{PmbPair}
use pmbackend.Pmb.Put.{tput}
use pmbackend.Pmb.Update.{IsReplacement, OldRoom, IsUpdated}
use pmbackend.Pmb.Updated.{tput-IsUpdated}
use pmbackend.Pmb.Placed.{placed-outside, placed-BlocksFit}
use pmbackend.Pmb.RoundTrip.{backend_get-found}
use pmbackend.Pmb.Life.{next_id}

-- A handle with an open, empty transaction and free blocks, in a pool that is laid out, and a pair that replaces an
-- object of the data region.
pub record Changing (b : Backend) (s : Handle) (tx_slot slot : ℕ) (kv : PmbPair)
    (free meta_free slots : ℕ → Bool) : Type 0 where
  pub laid_out : IsLaidOut b
  pub pool : s.backend ≡ b
  pub count : s.total_objs_count ≡ b.data_nlba
  pub opened : InProgress s tx_slot slot []
  pub in_range :
      (0 < tx_slot) × (tx_slot ≤ s.op_log.tx_slots_count) × (s.op_log.tx_slots_count < limit)
  pub lists : FreeLists s free meta_free
  pub slots_list : Holds slots s.op_log.tx_slots_list
  pub some_id : ℕ
  pub some_free : free some_id ≡ true
  pub in_data : (x : ℕ) → free x ≡ true → x < b.data_nlba
  pub change : IsReplacement s kv
  pub old_id : (kv.blk_id < b.data_nlba) × (kv.blk_id < limit)
  pub old_taken : free kv.blk_id ≡ false
  pub old_there : peek 8 s (place b kv.blk_id) ≢ 0
  pub room : OldRoom s slot (place b (next_id s)) (place b kv.blk_id) kv
  pub big : sizeof_data_hdr + s.max_key_len + s.max_val_len ≤ b.bsize
  pub front : slot + peek 8 s (size_of slot) + sizeof_tx_entry ≤ b.data_area
  pub fits : BlocksFit b (mem_of s)
  pub pending : (s.op_log.upd_id_list (pred64 tx_slot % 256)).count ≡ 0

module _ (u : Util) (b : Backend) (s : Handle) (tx_slot slot : ℕ) (kv : PmbPair)
    (free meta_free slots : ℕ → Bool) (r : Changing b s tx_slot slot kv free meta_free slots) where
  abbrev pub id : ℕ
  id = next_id s

  abbrev pub obj : ℕ
  obj = place b id

  abbrev pub old : ℕ
  old = place b kv.blk_id

  abbrev pub put : Handle
  put = (tput u s tx_slot kv).0

  pub takes_id : (free id ≡ true) × (0 < id) × (id < limit) × (id < b.data_nlba)
  takes_id =
      let l = r.lists.data_side in
      let t = (caslist_pop-Takes free s.free_list 0 r.some_id l r.some_free).taken in
      let range = member_range l.list id l.valid (l.members id ∙ t) in
      (t, range.0, range.1, r.in_data id t)

  pub other_block : id ≢ kv.blk_id
  other_block same = let e : free id ≡ false = rw same r.old_taken in cc (e, takes_id.0)

  pub put-IsUpdated :
      IsUpdated s tx_slot slot [] kv id obj old (tput u s tx_slot kv)
      × Holds (λ x. free x && not (x == id)) put.free_list
  put-IsUpdated =
      let d : direct s id ≡ some obj =
        rw r.pool (direct-place b r.laid_out id (inl takes_id.3)).0 in
      let d' : direct s kv.blk_id ≡ some old =
        rw r.pool (direct-place b r.laid_out kv.blk_id (inl r.old_id.0)).0 in
      tput-IsUpdated u s tx_slot slot [] kv obj old r.opened r.change r.room free r.some_id
        r.in_range.0 r.in_range.1 r.lists.data_side r.some_free (omega (arith, takes_id)) d
        (backend_get-found s kv.blk_id old r.change.some_id.0 d' r.old_there)

  pub put-outside : (x : ℕ) → b.data_area ≤ x → Beside b id x → mem_of put x ≡ mem_of s x
  put-outside =
      placed-outside b r.laid_out s put slot id takes_id.3 r.big r.front put-IsUpdated.0.outside

  pub put-Holding : Holding b put tx_slot slot Status.processing (update kv.blk_id id ∷ [])
  put-Holding =
      let t = put-IsUpdated.0 in
      let st = t.contents.stored in
      record {
        pool = ap (λ (x : Handle). x.backend) t.only ∙ r.pool;
        place_eq = t.registered.place;
        status_eq = t.registered.status;
        log = t.registered.log;
        front = omega (arith, t.registered.log.1, r.opened.log, r.front);
        fits =
            placed-BlocksFit b r.laid_out s put slot id takes_id.3 r.big r.front t.outside
              (
                omega (arith, st.key_len, r.change.key_len),
                ground (arith, st.val_len, r.change.val_len, r.room.old_len),
              )
              r.fits;
      }
