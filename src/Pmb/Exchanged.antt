-- ===== src/Pmb/Exchanged.antt =====
-- pmbackend.c: the end of a transaction that replaces one object.
use pmbackend.Base.{
  ℕ, ◌+◌, ◌-◌, ◌≤◌, ◌<◌, ◌≡◌, refl, sym, ◌∙◌, ap, [], ◌∷◌, arith, some, ◌==◌, ◌||◌, ◌&&◌, not, Bool,
  true, Bool-cases, inl, inr, two32, pred64, ◌%◌,
}
use pmbackend.Mem.{read_bytes}
use pmbackend.Mem.Frame.{load-agree, read_bytes-agree}
use pmbackend.Backend.{
  Backend, sizeof_data_hdr, sizeof_tx_slot, missing, backend_enoent, backend_get,
}
use pmbackend.Backend.Layout.{IsBlockId, place, block_len, place-InRegion}
use pmbackend.Caslist.Many.{elem, Holds, Holds-change, caslist_push-Holds}
use pmbackend.Kv.{
  Handle, OpLog, mem_of, peek, id_of, version_of, key_len_of, val_len_of, pmb_ok, ok, Util,
}
use pmbackend.Kv.Lists.{FreeLists}
use pmbackend.TxLog.{tx_log_free_slot}
use pmbackend.TxLog.Log.{update}
use pmbackend.TxLog.Process.{tx_slot_commit}
use pmbackend.TxLog.Dropped.{Beside, block-Beside}
use pmbackend.TxLog.Drop.{IsDroppable, held, get_block}
use pmbackend.Pmb.Pair.{PmbPair}
use pmbackend.Pmb.Put.{tput}
use pmbackend.Pmb.Tx.{tx_commit, tx_execute}
use pmbackend.Pmb.OldPart.{lesser}
use pmbackend.Pmb.Replaced.{Replaced}
use pmbackend.Pmb.Ending.{commit-Dropped, commit-execute-Dropped}
use pmbackend.Pmb.Life.{next_id}
use pmbackend.Pmb.Exchange.{
  Changing, takes_id, other_block, put-IsUpdated, put-outside, put-Holding, put,
}

-- The transaction took effect: the new block holds the replaced object, the old block holds none and is free, the
-- slot is free, and the other blocks are as before.
pub record IsExchanged (b : Backend) (s s' : Handle) (tx_slot id : ℕ) (kv : PmbPair)
    (free slots : ℕ → Bool) : Type 0 where
  pub contents :
      Replaced s s' kv
        (place b id)
        (place b kv.blk_id)
        ((peek 4 s (version_of (place b kv.blk_id)) + 1) % two32)
  pub old_gone : backend_get (some s'.backend) (mem_of s') kv.blk_id ≡ missing backend_enoent
  pub data_free : Holds (λ x. (x == kv.blk_id) || (free x && not (x == id))) s'.free_list
  pub slots_list : Holds (λ x. (x == tx_slot) || slots x) s'.op_log.tx_slots_list
  pub others :
      (x : ℕ) → b.data_area ≤ x → Beside b id x → Beside b kv.blk_id x → mem_of s' x ≡ mem_of s x

-- The contents of a block that stays as it is.
module _ (s r s' : Handle) (kv : PmbPair) (obj old version : ℕ)
    (key_fits : kv.key_len ≤ s.max_key_len) (new_len : kv.offset + kv.val_len ≤ s.max_val_len)
    (old_len : peek 4 s (val_len_of old) ≤ s.max_val_len)
    (same : (x : ℕ)
      → obj ≤ x
      → x < obj + sizeof_data_hdr + s.max_key_len + s.max_val_len
      → mem_of s' x ≡ mem_of r x) where
  field_same : (n a : ℕ) → obj ≤ a → a + n ≤ obj + sizeof_data_hdr → peek n s' a ≡ peek n r a
  field_same n a p q =
      load-agree n (mem_of r) (mem_of s') a (λ x i j. same x (omega arith) (omega arith))

  bytes_same :
      (a n : ℕ)
      → obj ≤ a
      → a + n ≤ obj + sizeof_data_hdr + s.max_key_len + s.max_val_len
      → read_bytes (mem_of s') a n ≡ read_bytes (mem_of r) a n
  bytes_same a n p q =
      read_bytes-agree (mem_of r) (mem_of s') a n (λ x i j. same x (omega arith) (omega arith))

  Replaced-after : Replaced s r kv obj old version → Replaced s s' kv obj old version
  Replaced-after t = record {
    stored = record {
      key_len = field_same 4 (key_len_of obj) (omega arith) (omega arith) ∙ t.stored.key_len;
      version_eq = field_same 4 (version_of obj) (omega arith) (omega arith) ∙ t.stored.version_eq;
      id_eq = field_same 8 (id_of obj) (omega arith) (omega arith) ∙ t.stored.id_eq;
      val_len = field_same 4 (val_len_of obj) (omega arith) (omega arith) ∙ t.stored.val_len;
      key =
          bytes_same (obj + sizeof_data_hdr) kv.key_len (omega arith) (omega arith) ∙ t.stored.key;
      value =
          bytes_same (obj + sizeof_data_hdr + s.max_key_len + kv.offset) kv.val_len (omega arith)
            (omega arith)
          ∙ t.stored.value;
    };
    front =
        bytes_same (obj + sizeof_data_hdr + s.max_key_len)
          (lesser kv.offset (peek 4 s (val_len_of old))) (omega arith) (ground (arith, old_len))
        ∙ t.front;
    behind =
        bytes_same (obj + sizeof_data_hdr + s.max_key_len + (kv.val_len + kv.offset))
          (peek 4 s (val_len_of old) - (kv.val_len + kv.offset)) (omega arith)
          (omega (arith, old_len, new_len))
        ∙ t.behind;
  }

module _ (u : Util) (b : Backend) (s : Handle) (tx_slot slot : ℕ) (kv : PmbPair)
    (free meta_free slots : ℕ → Bool) (r : Changing b s tx_slot slot kv free meta_free slots) where
  abbrev before : Handle
  before = put u b s tx_slot slot kv free meta_free slots r

  in_range : (0 < tx_slot) × (tx_slot ≤ before.op_log.tx_slots_count)
  in_range =
      let log1 : before.op_log ≡ s.op_log =
        ap (λ (x : Handle). x.op_log)
          (put-IsUpdated u b s tx_slot slot kv free meta_free slots r).0.only in
      rw log1 (omega (arith, r.in_range))

  low : slot + sizeof_tx_slot ≤ b.data_area
  low =
      let c = put-Holding u b s tx_slot slot kv free meta_free slots r in
      omega (arith, c.log.1, c.front)

  before-FreeLists : FreeLists before (λ x. free x && not (x == next_id s)) meta_free
  before-FreeLists =
      let p = put-IsUpdated u b s tx_slot slot kv free meta_free slots r in
      record {
        data_side = p.1;
        meta_side = rw (ap (λ (x : Handle). x.meta_free_list) p.0.only) r.lists.meta_side;
      }

  -- After the commit the old block still holds its object.
  old_held : held b (mem_of (tx_slot_commit u before tx_slot).0) kv.blk_id ≡ true
  old_held =
      let t = takes_id u b s tx_slot slot kv free meta_free slots r in
      let ne = other_block u b s tx_slot slot kv free meta_free slots r in
      let c = put-Holding u b s tx_slot slot kv free meta_free slots r in
      let k : IsBlockId b kv.blk_id = inl r.old_id.0 in
      let d =
        commit-Dropped u b r.laid_out before tx_slot slot (update kv.blk_id (next_id s) ∷ []) c
          in_range low in
      let region = (place-InRegion b r.laid_out kv.blk_id k).low in
      let same : peek 8 (tx_slot_commit u before tx_slot).0 (place b kv.blk_id)
          ≡ peek 8 s (place b kv.blk_id) =
        load-agree 8 (mem_of s) (mem_of (tx_slot_commit u before tx_slot).0) (place b kv.blk_id)
          (λ x p q.
            d.outside x (inr (omega (arith, low, region))) (λ j i g. ground (arith, g))
            ∙ put-outside u b s tx_slot slot kv free meta_free slots r x (omega (arith, region)) (
                block-Beside b r.laid_out kv.blk_id (next_id s) x k (inl t.3) (λ e. ne (sym e)) p
                  (omega (arith, r.fits kv.blk_id k)))) in
      ground (arith, same, r.old_there)

  -- From a handle as `Changing` describes it, `pmb_tput` of a replacement, `pmb_tx_commit` and `pmb_tx_execute` return PMB_OK
  -- one after the other. Then the new block holds the pair as the next version, with the old value around the new
  -- part, `pmb_get` would find no object in the old block, the old id is on the free list and the new one off it, the
  -- transaction's slot is free, and the bytes of the other blocks are as before.
  pub tput-commit-execute-IsExchanged :
      (s' : Handle) × ((tput u s tx_slot kv).2 ≡ pmb_ok)
      × (tx_commit u before tx_slot ≡ ((tx_slot_commit u before tx_slot).0, pmb_ok))
      × (tx_execute u (tx_slot_commit u before tx_slot).0 tx_slot ≡ ok (s', pmb_ok))
      × IsExchanged b s s' tx_slot (next_id s) kv free slots
  unfolding tx_log_free_slot elem block_len
  tput-commit-execute-IsExchanged =
      let t = takes_id u b s tx_slot slot kv free meta_free slots r in
      let ne = other_block u b s tx_slot slot kv free meta_free slots r in
      let p = put-IsUpdated u b s tx_slot slot kv free meta_free slots r in
      let out = put-outside u b s tx_slot slot kv free meta_free slots r in
      let c = put-Holding u b s tx_slot slot kv free meta_free slots r in
      let i : IsBlockId b (next_id s) = inl t.3 in
      let k : IsBlockId b kv.blk_id = inl r.old_id.0 in
      let log1 : before.op_log ≡ s.op_log = ap (λ (x : Handle). x.op_log) p.0.only in
      let droppable : IsDroppable b kv.blk_id = (k, r.change.some_id.0, r.old_id.1) in
      let (s3, e1, e2, d) =
        commit-execute-Dropped u b r.laid_out before tx_slot slot
          (update kv.blk_id (next_id s) ∷ []) c in_range low tt (droppable, tt)
          (ap (λ (x : OpLog). (x.upd_id_list (pred64 tx_slot % 256)).count) log1 ∙ r.pending) in
      let log3 : s3.op_log ≡ s.op_log = ap (λ (x : Handle). x.op_log) d.only ∙ log1 in
      let same : (x : ℕ) → b.data_area ≤ x → Beside b kv.blk_id x → mem_of s3 x ≡ mem_of before x =
        λ x l a.
          d.outside x (inr (omega (arith, low)))
            (λ j k g. let q : j ≡ kv.blk_id = ground (arith, g) in rw q a) in
      let region = (place-InRegion b r.laid_out (next_id s) i).low in
      let pool3 : s3.backend ≡ b = ap (λ (x : Handle). x.backend) d.only ∙ c.pool in
      let zero = (d.zero kv.blk_id k (ground arith)).checksum in
      let count : before.total_objs_count ≡ b.data_nlba =
        ap (λ (x : Handle). x.total_objs_count) p.0.only ∙ r.count in
      let l = d.lists (λ x. free x && not (x == next_id s)) meta_free before-FreeLists in
      (
        tx_log_free_slot s3 tx_slot,
        p.0.code,
        e1,
        e2,
        record {
          contents =
              Replaced-after s before (tx_log_free_slot s3 tx_slot) kv (place b (next_id s))
                (place b kv.blk_id) _ r.change.key_len.1 r.change.val_len.1 r.room.old_len
                (λ x j q. same x (omega (arith, region)) (
                  block-Beside b r.laid_out (next_id s) kv.blk_id x i k ne j
                    (ground (arith, t.3, r.big, q))))
                p.0.contents;
          old_gone =
              get_block b r.laid_out slot (tx_log_free_slot s3 tx_slot) kv.blk_id pool3 droppable
              ∙ rw zero refl;
          data_free = Holds-change _ _ l.data_side (λ x. elim (Bool-cases (x == kv.blk_id)) [
            | inl here ↦
                let e : x ≡ kv.blk_id = ground (arith, here) in
                rw e (ground (arith, old_held, count, r.old_id))
            | inr there ↦ ground (arith, there)
          ]);
          slots_list = rw log3 (
              Holds-change _ _
                (caslist_push-Holds slots s.op_log.tx_slots_list tx_slot (omega (arith, r.in_range))
                  r.slots_list)
                (λ x. ground (arith, r.in_range)));
          others = λ x a f g. same x a g ∙ out x a f;
        },
      )
