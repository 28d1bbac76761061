-- ===== src/Pmb/MetaRoundTrip.antt =====
-- pmbackend.c: `pmb_tput_meta` of a new pair, and `pmb_get` after it.
use pmbackend.Base.{
  ℕ, ◌≤◌, ◌<◌, ◌≡◌, ◌≢◌, refl, ◌∙◌, ap, List, arith, some, ltb, ◌==◌, ◌&&◌, not, Bool, true, false,
  two64,
}
use pmbackend.Mem.{read_bytes}
use pmbackend.Caslist.{caslist_pop}
use pmbackend.Caslist.Ranges.{member_range}
use pmbackend.Caslist.Many.{Holds, caslist_pop-Takes}
use pmbackend.Kv.{Handle, mem_of, peek, id_of, val_len_of, pmb_ok, Util}
use pmbackend.TxLog.{direct}
use pmbackend.TxLog.Log.{Operation}
use pmbackend.TxLog.Open.{InProgress, InProgress-frame}
use pmbackend.Pmb.Pair.{PmbPair}
use pmbackend.Pmb.Put.{Reply}
use pmbackend.Pmb.PutMeta.{tput_meta}
use pmbackend.Pmb.Object.{get, fill_pair}
use pmbackend.Pmb.RoundTrip.{get-found}
use pmbackend.Pmb.Refused.{
  IsNewMetaPair, taken_meta, tput_meta-put_meta_new, put_meta_new-put_meta_block,
}
use pmbackend.Pmb.NewMeta.{MetaRoom, IsMetaPut, put_meta_block-IsMetaPut, put_meta_block-list}

-- What `pmb_get` gives for the block `id`: the pair's lengths, and pointers to its key and its value; but as the id it
-- gives what stood in the block before.
pub record IsMetaGot (s : Handle) (kv : PmbPair) (id obj : ℕ) (after : Handle) (r : PmbPair × ℕ)
    : Type 0 where
  pub code : r.1 ≡ pmb_ok
  pub blk_id : r.0.blk_id ≡ id
  pub key_len : r.0.key_len ≡ kv.key_len
  pub val_len : r.0.val_len ≡ kv.val_len
  pub key : read_bytes (mem_of after) r.0.key kv.key_len ≡ read_bytes (mem_of s) kv.key kv.key_len
  pub value : read_bytes (mem_of after) r.0.val kv.val_len ≡ read_bytes (mem_of s) kv.val kv.val_len
  pub old_id : r.0.id ≡ peek 8 s (id_of obj)

-- The object that was put is the object that `pmb_get` finds.
IsMetaPut-IsMetaGot :
    (s : Handle) (tx_slot slot : ℕ) (ops : List Operation) (kv : PmbPair) (id obj : ℕ) (r : Reply)
    (old : PmbPair)
    → IsMetaPut s tx_slot slot ops kv id obj r
    → 0 < kv.val_len
    → 0 < id
    → s.total_objs_count ≤ id
    → direct s id ≡ some obj
    → peek 8 r.0 obj ≢ 0
    → IsMetaGot s kv id obj r.0 (get r.0 id old)
unfolding fill_pair
IsMetaPut-IsMetaGot s tx_slot slot ops kv id obj r old t v pos i d filled =
    let b : r.0.backend ≡ s.backend = ap (λ (x : Handle). x.backend) t.only in
    let count : r.0.total_objs_count ≡ s.total_objs_count =
      ap (λ (x : Handle). x.total_objs_count) t.only in
    let d' : direct r.0 id ≡ some obj = rw b d in
    let some_value : (peek 4 r.0 (val_len_of obj) == 0) ≡ false =
      ground (arith, t.stored.val_len, v) in
    let in_meta : ltb id r.0.total_objs_count ≡ false = ground (arith, count) in
    rw (get-found r.0 id obj old pos d' filled, some_value, in_meta)
      (record {
        code = refl;
        blk_id = refl;
        key_len = t.stored.key_len;
        val_len = t.stored.val_len;
        key = t.stored.key;
        value = rw t.stored.key_len t.stored.value;
        old_id = t.stored.old_id;
      })

module _ (u : Util) (s : Handle) (tx_slot slot : ℕ) (ops : List Operation) (kv : PmbPair) (obj : ℕ)
    (h : InProgress s tx_slot slot ops) (n : IsNewMetaPair s kv) (m : MetaRoom s slot obj kv) where
  -- Let the transaction of one of the handle's slots be open, let the pair be a new one within the handle's limits
  -- for metadata, let the metadata region's free list be valid and have an id, let `obj` be the block of the id that it gives
  -- next, and let slot, object and buffers not overlap. Then `pmb_tput_meta` returns PMB_OK and that id, takes it off the free
  -- list, stores the pair's lengths, its key and right behind it its value as version 1 in the block, registers the
  -- write in the transaction, and changes no byte outside the slot and the object.
  pub tput_meta-IsMetaPut :
      (free : ℕ → Bool) (k : ℕ)
      → 0 < tx_slot
      → tx_slot ≤ s.op_log.tx_slots_count
      → Holds free s.meta_free_list
      → free k ≡ true
      → (caslist_pop s.meta_free_list 0).1 < two64
      → direct s (caslist_pop s.meta_free_list 0).1 ≡ some obj
      → IsMetaPut s tx_slot slot ops kv
          (caslist_pop s.meta_free_list 0).1
          obj
          (tput_meta u s tx_slot kv)
        × Holds
            (λ x. free x && not (x == (caslist_pop s.meta_free_list 0).1))
            (tput_meta u s tx_slot kv).0.meta_free_list
  tput_meta-IsMetaPut free k p q l e b d =
      let id = (caslist_pop s.meta_free_list 0).1 in
      let t = caslist_pop-Takes free s.meta_free_list 0 k l e in
      let made =
        tput_meta-put_meta_new u s tx_slot slot kv obj p q n
        ∙ put_meta_new-put_meta_block u s tx_slot slot kv obj t.code d in
      let h' = InProgress-frame s (taken_meta s) tx_slot slot ops refl (λ x i j. refl) h in
      let list_eq = put_meta_block-list u s tx_slot slot ops kv id obj h' n m in
      rw made (put_meta_block-IsMetaPut u s tx_slot slot ops kv id obj h' n m b, rw list_eq t.rest)

  -- Under the same conditions, and with an id of the metadata region and a checksum that is not 0, `pmb_get` of the
  -- block after `pmb_tput_meta` returns PMB_OK, the pair's lengths, and pointers to copies of the key and the value that the
  -- caller put; but the id that it gives is the one that stood in the block before the put, not the pair's.
  pub tput_meta-get :
      (free : ℕ → Bool) (k : ℕ) (old : PmbPair)
      → 0 < tx_slot
      → tx_slot ≤ s.op_log.tx_slots_count
      → Holds free s.meta_free_list
      → free k ≡ true
      → (caslist_pop s.meta_free_list 0).1 < two64
      → direct s (caslist_pop s.meta_free_list 0).1 ≡ some obj
      → s.total_objs_count ≤ (caslist_pop s.meta_free_list 0).1
      → peek 8 (tput_meta u s tx_slot kv).0 obj ≢ 0
      → IsMetaGot s kv
          (caslist_pop s.meta_free_list 0).1
          obj
          (tput_meta u s tx_slot kv).0
          (get (tput_meta u s tx_slot kv).0 (tput_meta u s tx_slot kv).1.blk_id old)
  tput_meta-get free k old p q l e b d i filled =
      let t = (tput_meta-IsMetaPut free k p q l e b d).0 in
      let id = (caslist_pop s.meta_free_list 0).1 in
      let taken' = (caslist_pop-Takes free s.meta_free_list 0 k l e).taken in
      let range = member_range l.list id l.valid (l.members id ∙ taken') in
      rw t.pair (
        IsMetaPut-IsMetaGot s tx_slot slot ops kv id obj (tput_meta u s tx_slot kv) old t
          n.lengths.1 range.0 i d filled)
