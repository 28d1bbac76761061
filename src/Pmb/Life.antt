-- ===== src/Pmb/Life.antt =====
-- pmbackend.c: a transaction that puts one new object, from `pmb_tput` to its end.
use pmbackend.Base.{
  ℕ, ◌+◌, ◌≤◌, ◌<◌, ◌≡◌, refl, ◌∙◌, ap, [], ◌∷◌, arith, some, ◌==◌, ◌||◌, ◌&&◌, not, Bool, true,
  false, inl, inr, pred64, ◌%◌,
}
use pmbackend.Backend.{
  Backend, sizeof_data_hdr, sizeof_tx_entry, missing, backend_enoent, backend_get,
}
use pmbackend.Backend.Layout.{IsLaidOut, IsBlockId, place, direct-place}
use pmbackend.Caslist.{caslist_pop}
use pmbackend.Caslist.Ranges.{limit, member_range}
use pmbackend.Caslist.Many.{
  elem, Holds, Holds-change, Holds-unique, caslist_pop-Takes, caslist_push-Holds,
}
use pmbackend.Kv.{Handle, mem_of, peek, size_of, pmb_ok, ok, ◌>>=◌, Util}
use pmbackend.Kv.Lists.{FreeLists}
use pmbackend.Kv.Status
use pmbackend.TxLog.{direct, tx_log_free_slot}
use pmbackend.TxLog.Log.{write}
use pmbackend.TxLog.Open.{InProgress}
use pmbackend.TxLog.Dropped.{BlocksFit, Beside}
use pmbackend.TxLog.Drop.{IsDroppable, get_block}
use pmbackend.TxLog.Ended.{Holding}
use pmbackend.TxLog.Aborted.{tx_slot_abort-IsEnded}
use pmbackend.Pmb.Pair.{PmbPair}
use pmbackend.Pmb.Placed.{placed-outside, placed-BlocksFit}
use pmbackend.Pmb.Put.{tput}
use pmbackend.Pmb.Tx.{bad_slot, tx_abort}
use pmbackend.Pmb.NewObject.{IsNewPair, Room, IsPut}
use pmbackend.Pmb.RoundTrip.{tput-IsPut}

-- The id that the data region's free list gives next.
abbrev pub next_id : Handle → ℕ
next_id s = (caslist_pop s.free_list 0).1

-- A handle with an open, empty transaction and free blocks, in a pool that is laid out, and a new pair that fits.
pub record Ready (b : Backend) (s : Handle) (tx_slot slot : ℕ) (kv : PmbPair)
    (free meta_free slots : ℕ → Bool) : Type 0 where
  pub laid_out : IsLaidOut b
  pub pool : s.backend ≡ b
  pub count : s.total_objs_count ≡ b.data_nlba
  pub opened : InProgress s tx_slot slot []
  pub in_range :
      (0 < tx_slot) × (tx_slot ≤ s.op_log.tx_slots_count) × (s.op_log.tx_slots_count < limit)
  pub lists : FreeLists s free meta_free
  pub slots_list : Holds slots s.op_log.tx_slots_list
  pub some_id : ℕ
  pub some_free : free some_id ≡ true
  pub in_data : (x : ℕ) → free x ≡ true → x < b.data_nlba
  pub new : IsNewPair s kv
  pub room : Room s slot (place b (next_id s)) kv
  pub big : sizeof_data_hdr + s.max_key_len + s.max_val_len ≤ b.bsize
  pub front : slot + peek 8 s (size_of slot) + sizeof_tx_entry ≤ b.data_area
  pub fits : BlocksFit b (mem_of s)
  pub pending : (s.op_log.upd_id_list (pred64 tx_slot % 256)).count ≡ 0

module _ (u : Util) (b : Backend) (s : Handle) (tx_slot slot : ℕ) (kv : PmbPair)
    (free meta_free slots : ℕ → Bool) (r : Ready b s tx_slot slot kv free meta_free slots) where
  abbrev id : ℕ
  id = next_id s

  pub takes_id : (free id ≡ true) × (0 < id) × (id < limit) × (id < b.data_nlba)
  takes_id =
      let l = r.lists.data_side in
      let t = (caslist_pop-Takes free s.free_list 0 r.some_id l r.some_free).taken in
      let range = member_range l.list id l.valid (l.members id ∙ t) in
      (t, range.0, range.1, r.in_data id t)

  pub is_block : IsBlockId b id
  is_block = inl takes_id.3

  pub at_block : direct s id ≡ some (place b id)
  at_block = rw r.pool (direct-place b r.laid_out id is_block).0

  pub Ready-IsPut :
      IsPut s tx_slot slot [] kv id (place b id) (tput u s tx_slot kv)
      × Holds (λ x. free x && not (x == id)) (tput u s tx_slot kv).0.free_list
  Ready-IsPut =
      tput-IsPut u s tx_slot slot [] kv (place b id) r.opened r.new r.room free r.some_id
        r.in_range.0 r.in_range.1 r.lists.data_side r.some_free (omega (arith, takes_id)) at_block

  abbrev pub after : Handle
  after = (tput u s tx_slot kv).0

  -- A byte of the blocks outside the new one is as before.
  pub put-outside : (x : ℕ) → b.data_area ≤ x → Beside b id x → mem_of after x ≡ mem_of s x
  put-outside =
      placed-outside b r.laid_out s after slot id takes_id.3 r.big r.front Ready-IsPut.0.outside

  -- The new object fits into its block, and the others are as they were.
  pub put-BlocksFit : BlocksFit b (mem_of after)
  put-BlocksFit =
      let st = Ready-IsPut.0.stored in
      placed-BlocksFit b r.laid_out s after slot id takes_id.3 r.big r.front Ready-IsPut.0.outside
        (omega (arith, st.key_len, st.val_len, r.new.key_len, r.new.val_len)) r.fits

  pub after-count : after.total_objs_count ≡ s.total_objs_count
  after-count = ap (λ (x : Handle). x.total_objs_count) Ready-IsPut.0.only

  pub after-backend : after.backend ≡ b
  after-backend = ap (λ (x : Handle). x.backend) Ready-IsPut.0.only ∙ r.pool

  pub after-op_log : after.op_log ≡ s.op_log
  after-op_log = ap (λ (x : Handle). x.op_log) Ready-IsPut.0.only

  pub after-Holding : Holding b after tx_slot slot Status.processing (write id ∷ [])
  after-Holding =
      let g = Ready-IsPut.0.registered in
      record {
        pool = after-backend;
        place_eq = g.place;
        status_eq = g.status;
        log = g.log;
        front = omega (arith, g.log.1, r.opened.log, r.front);
        fits = put-BlocksFit;
      }

  pub after-FreeLists : FreeLists after (λ x. free x && not (x == id)) meta_free
  after-FreeLists = record {
    data_side = Ready-IsPut.1;
    meta_side = rw (ap (λ (x : Handle). x.meta_free_list) Ready-IsPut.0.only) r.lists.meta_side;
  }

-- The transaction was undone: the lists of free blocks are the ones from before it, the slot is free, the block
-- holds no object, and the other blocks are as before.
pub record IsUndone (b : Backend) (s s' : Handle) (tx_slot id : ℕ) (slots : ℕ → Bool) : Type 0 where
  pub data_free : s'.free_list ≡ s.free_list
  pub meta_free : s'.meta_free_list ≡ s.meta_free_list
  pub slots_list : Holds (λ x. x == tx_slot || slots x) s'.op_log.tx_slots_list
  pub missing_id : backend_get (some s'.backend) (mem_of s') id ≡ missing backend_enoent
  pub others : (x : ℕ) → b.data_area ≤ x → Beside b id x → mem_of s' x ≡ mem_of s x

module _ (u : Util) (b : Backend) (s : Handle) (tx_slot slot : ℕ) (kv : PmbPair)
    (free meta_free slots : ℕ → Bool) (r : Ready b s tx_slot slot kv free meta_free slots) where
  -- From a handle as `Ready` describes it, `pmb_tput` of the pair and then `pmb_tx_abort` return PMB_OK and undo the
  -- put: the lists of free blocks are equal to the ones before it, the transaction's slot is free, `pmb_get` would find
  -- no object in the block, and the bytes of the other blocks are as before.
  pub tput-abort-IsUndone :
      (s' : Handle) × ((tput u s tx_slot kv).2 ≡ pmb_ok)
      × (tx_abort u (tput u s tx_slot kv).0 tx_slot ≡ ok (s', pmb_ok))
      × IsUndone b s s' tx_slot (next_id s) slots
  unfolding tx_abort tx_log_free_slot elem
  tput-abort-IsUndone =
      let s1 = after u b s tx_slot slot kv free meta_free slots r in
      let c = after-Holding u b s tx_slot slot kv free meta_free slots r in
      let t = takes_id u b s tx_slot slot kv free meta_free slots r in
      let i = is_block u b s tx_slot slot kv free meta_free slots r in
      let count = after-count u b s tx_slot slot kv free meta_free slots r in
      let droppable : IsDroppable b (next_id s) = (i, t.1, t.2) in
      let op_log = after-op_log u b s tx_slot slot kv free meta_free slots r in
      let (s2, e, (status, d)) =
        tx_slot_abort-IsEnded u b r.laid_out s1 tx_slot slot Status.processing
          (write (next_id s) ∷ []) (inl refl) c tt (droppable, tt) in
      let good : bad_slot s1 tx_slot ≡ false = rw op_log (ground (arith, r.in_range)) in
      let log2 : s2.op_log ≡ s.op_log = ap (λ (x : Handle). x.op_log) d.only ∙ op_log in
      let l = d.lists _ _ (after-FreeLists u b s tx_slot slot kv free meta_free slots r) in
      let pool2 : s2.backend ≡ b =
        ap (λ (x : Handle). x.backend) d.only
        ∙ after-backend u b s tx_slot slot kv free meta_free slots r in
      let zero = (d.zero (next_id s) i (ground arith)).checksum in
      (
        tx_log_free_slot s2 tx_slot,
        (Ready-IsPut u b s tx_slot slot kv free meta_free slots r).0.code,
        rw (good, e, ◌>>=◌) refl,
        record {
          data_free =
              Holds-unique free _ _
                (Holds-change _ _ l.data_side (λ x. ground (arith, t, count, r.count)))
                r.lists.data_side;
          meta_free =
              Holds-unique meta_free _ _
                (Holds-change _ _ l.meta_side (λ x. ground (arith, t, count, r.count)))
                r.lists.meta_side;
          slots_list = rw log2 (
              Holds-change _ _
                (caslist_push-Holds slots s.op_log.tx_slots_list tx_slot (omega (arith, r.in_range))
                  r.slots_list)
                (λ x. ground (arith, r.in_range)));
          missing_id = get_block b r.laid_out slot s2 (next_id s) pool2 droppable ∙ rw zero refl;
          others = λ x low a.
              d.outside x (inr (omega (arith, r.front, r.opened.log)))
                (λ j k g. let q : j ≡ next_id s = ground (arith, g) in rw q a)
              ∙ put-outside u b s tx_slot slot kv free meta_free slots r x low a;
        },
      )
