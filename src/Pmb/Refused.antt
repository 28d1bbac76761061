-- ===== src/Pmb/Refused.antt =====
-- pmbackend.c: `pmb_tput` and `pmb_tput_meta` when the transaction's slot is not open.
use pmbackend.Base.{
  ℕ, ◌+◌, ◌%◌, ◌≤◌, ◌<◌, ◌≡◌, ◌≢◌, refl, ◌∙◌, ap, arith, Option, some, none, ltb, ◌==◌, ◌&&◌, true,
  false, two32,
}
use pmbackend.Caslist.{Caslist, caslist_pop, caslist_push}
use pmbackend.Caslist.Ranges.{IsRanges}
use pmbackend.Caslist.Pop.{pop-TakesLeast}
use pmbackend.Caslist.Canonical.{push-pop}
use pmbackend.Kv.{Handle, peek, status_of, pmb_err, Util}
use pmbackend.Kv.Status
use pmbackend.TxLog.{direct, slot_at}
use pmbackend.TxLog.Machine.Notes.{op_write_closed}
use pmbackend.Pmb.Pair.{PmbPair}
use pmbackend.Pmb.Put.{put_block, tput}
use pmbackend.Pmb.PutMeta.{put_meta_block, put_meta_new, bad_put_meta, tput_meta}
use pmbackend.Pmb.NewObject.{IsNewPair}
use pmbackend.Pmb.RoundTrip.{taken, tput-put_new, put_new-put_block}

-- A slot whose transaction is not open.
pub record IsClosed (s : Handle) (tx_slot slot : ℕ) : Type 0 where
  pub place : slot_at s tx_slot ≡ some slot
  pub status : peek 4 s (status_of slot) ≢ Status.processing

module _ (u : Util) (s : Handle) (tx_slot slot : ℕ) (kv : PmbPair) (obj : ℕ)
    (c : IsClosed s tx_slot slot) where
  -- For a new pair within the handle's limits, one of the handle's slots whose transaction is not open, and a free
  -- list that has an id with a block, `pmb_tput` returns PMB_ERR, and the id that it took is not given back.
  pub tput_closed :
      0 < tx_slot
      → tx_slot ≤ s.op_log.tx_slots_count
      → IsNewPair s kv
      → (caslist_pop s.free_list 0).0 ≡ 0
      → direct s (caslist_pop s.free_list 0).1 ≡ some obj
      → tput u s tx_slot kv ≡ (record s { free_list = (caslist_pop s.free_list 0).2 }, kv, pmb_err)
  unfolding put_block slot_at
  tput_closed p q n code d =
      let c' : IsClosed (taken s) tx_slot slot = record { place = c.place; status = c.status } in
      let first : (kv.blk_id == 0) ≡ true = ground (arith, n.new) in
      let refused =
        op_write_closed (taken s) tx_slot slot c'.place c'.status (caslist_pop s.free_list 0).1 in
      tput-put_new u s tx_slot kv p q n
      ∙ put_new-put_block u s tx_slot kv obj none code d
      ∙ rw (first, refused) refl

-- A pair for a new metadata object, within the handle's limits.
pub record IsNewMetaPair (s : Handle) (kv : PmbPair) : Type 0 where
  pub new : kv.blk_id ≡ 0
  pub lengths : (0 < kv.key_len) × (0 < kv.val_len)
  pub pointers : (0 < kv.key) × (0 < kv.val)
  pub fits : kv.key_len + kv.val_len ≤ s.meta_max_key_len + s.meta_max_val_len
  pub words : s.meta_max_key_len + s.meta_max_val_len < two32

pop_back :
    (l : Option Caslist) (c : Caslist)
    → l ≡ some c
    → IsRanges c
    → caslist_push (caslist_pop l 0).2 (caslist_pop l 0).1 ≡ l
unfolding caslist_pop caslist_push
pop_back l c e r = rw e (ap some (push-pop c r))

pop_code : (l : Option Caslist) (c : Caslist) → l ≡ some c → IsRanges c → (caslist_pop l 0).0 ≡ 0
unfolding caslist_pop
pop_code l c e r = rw e (pop-TakesLeast c r).code

abbrev pub taken_meta : Handle → Handle
taken_meta s = record s { meta_free_list = (caslist_pop s.meta_free_list 0).2 }

module _ (u : Util) (s : Handle) (tx_slot slot : ℕ) (kv : PmbPair) (obj : ℕ) where
  -- The tests of `pmb_tput_meta` are passed.
  pub tput_meta-put_meta_new :
      0 < tx_slot
      → tx_slot ≤ s.op_log.tx_slots_count
      → IsNewMetaPair s kv
      → tput_meta u s tx_slot kv ≡ put_meta_new u s tx_slot kv none
  unfolding tput_meta bad_put_meta
  tput_meta-put_meta_new p q n =
      let good : bad_put_meta s tx_slot kv ≡ false = ground (arith, n.lengths, n.pointers) in
      let fits : ltb ((s.meta_max_key_len + s.meta_max_val_len) % two32)
            ((kv.key_len + kv.val_len) % two32)
          ≡ false =
        ground (arith, n.fits, n.words) in
      let region : (ltb kv.blk_id s.total_objs_count && ltb 0 kv.blk_id) ≡ false =
        ground (arith, n.new) in
      let first : (kv.blk_id == 0) ≡ true = ground (arith, n.new) in
      rw (good, fits, region, first) refl

  pub put_meta_new-put_meta_block :
      (caslist_pop s.meta_free_list 0).0 ≡ 0
      → direct s (caslist_pop s.meta_free_list 0).1 ≡ some obj
      → put_meta_new u s tx_slot kv none
        ≡ put_meta_block u (taken_meta s) tx_slot kv (caslist_pop s.meta_free_list 0).1 obj none
  unfolding put_meta_new
  put_meta_new-put_meta_block code d =
      let popped : ((caslist_pop s.meta_free_list 0).0 == 0) ≡ true = ground (arith, code) in
      rw (popped, d) refl

  -- For a new metadata pair within the handle's limits, one of the handle's slots whose transaction is not open,
  -- and a valid free list that has an id with a block, `pmb_tput_meta` returns PMB_ERR and leaves the handle and the
  -- pair as they were: the id is back in the list.
  pub tput_meta_closed :
      (c : Caslist)
      → IsClosed s tx_slot slot
      → 0 < tx_slot
      → tx_slot ≤ s.op_log.tx_slots_count
      → IsNewMetaPair s kv
      → s.meta_free_list ≡ some c
      → IsRanges c
      → direct s (caslist_pop s.meta_free_list 0).1 ≡ some obj
      → tput_meta u s tx_slot kv ≡ (s, kv, pmb_err)
  unfolding put_meta_block slot_at
  tput_meta_closed c closed p q n e r d =
      let c' : IsClosed (taken_meta s) tx_slot slot = record {
        place = closed.place;
        status = closed.status;
      } in
      let first : (kv.blk_id == 0) ≡ true = ground (arith, n.new) in
      let id = (caslist_pop s.meta_free_list 0).1 in
      let refused = op_write_closed (taken_meta s) tx_slot slot c'.place c'.status id in
      let back = pop_back s.meta_free_list c e r in
      tput_meta-put_meta_new p q n
      ∙ put_meta_new-put_meta_block (pop_code s.meta_free_list c e r) d
      ∙ rw (first, refused)
          (ap (λ (l : Option Caslist). (record s { meta_free_list = l }, kv, pmb_err)) back)
