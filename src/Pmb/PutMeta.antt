-- ===== src/Pmb/PutMeta.antt =====
-- pmbackend.c: `pmb_tput_meta`.
use pmbackend.Base.{
  ℕ, ◌+◌, ◌%◌, Bool, ◌||◌, ◌&&◌, Option, none, some, ltb, ◌==◌, if◌then◌else◌, two32,
}
use pmbackend.Mem.{with_mem}
use pmbackend.Backend.{sizeof_data_hdr, found, missing, backend_get}
use pmbackend.Caslist.{caslist_pop, caslist_push}
use pmbackend.Kv.{
  pmb_ok, pmb_err, pmb_enoent, pmb_enospc, pmb_esize, pmb_ewrgid, pmb_eargs, version_of, key_len_of,
  val_len_of, Handle, mem_of, poke, peek, Util,
}
use pmbackend.TxLog.{direct, tx_slot_op_write, tx_slot_op_update}
use pmbackend.Pmb.Tx.{bad_slot}
use pmbackend.Pmb.Pair.{PmbPair}
use pmbackend.Pmb.Put.{Reply, copy}

-- The arguments that `pmb_tput_meta` refuses.
unfoldable pub bad_put_meta : Handle → (tx_slot : ℕ) → PmbPair → Bool
bad_put_meta s tx_slot kv =
    bad_slot s tx_slot || kv.key_len == 0 || kv.key == 0 || kv.val == 0 || kv.val_len == 0

module _ (u : Util) where
  -- The object: its header, the key, and the value right behind it.
  unfoldable pub write_meta_object : Handle → PmbPair → (obj version : ℕ) → Handle
  write_meta_object s kv obj version =
      let s1 =
        poke 4 (version_of obj) version
          (poke 4 (val_len_of obj) kv.val_len (poke 4 (key_len_of obj) kv.key_len s)) in
      let s2 = copy (obj + sizeof_data_hdr) kv.key kv.key_len s1 in
      let s3 = copy (obj + sizeof_data_hdr + kv.key_len) kv.val kv.val_len s2 in
      let obj_size = (sizeof_data_hdr + kv.key_len + kv.val_len) % two32 in
      record s3 { world = with_mem s3.world (u.insert (mem_of s3) obj obj_size obj) }

  unfoldable pub put_meta_block :
      Handle → (tx_slot : ℕ) → PmbPair → (blk_id obj : ℕ) → (old : Option ℕ) → Reply
  unfolding write_meta_object
  put_meta_block s tx_slot kv blk_id obj old =
      let (s1, status) =
        if kv.blk_id == 0
        then tx_slot_op_write s tx_slot blk_id
        else tx_slot_op_update s tx_slot kv.blk_id blk_id in
      let version : ℕ = elim old [
        | none ↦ 1
        | some old_obj ↦ (peek 4 s1 (version_of old_obj) + 1) % two32
      ] in
      if status == pmb_ok
      then (write_meta_object s1 kv obj version, record kv { blk_id = blk_id }, pmb_ok)
      else (record s1 { meta_free_list = caslist_push s1.meta_free_list blk_id }, kv, status)

  unfoldable pub put_meta_new : Handle → (tx_slot : ℕ) → PmbPair → (old : Option ℕ) → Reply
  unfolding put_meta_block
  put_meta_new s tx_slot kv old =
      let (code, blk_id, list) = caslist_pop s.meta_free_list 0 in
      let s1 = record s { meta_free_list = list } in
      if code == 0
      then elim (direct s1 blk_id) [
        | none ↦ (s1, kv, pmb_err)
        | some obj ↦ put_meta_block s1 tx_slot kv blk_id obj old
      ]
      else (s1, kv, pmb_enospc)

  unfoldable pub tput_meta : Handle → (tx_slot : ℕ) → PmbPair → Reply
  unfolding bad_put_meta put_meta_new
  tput_meta s tx_slot kv =
      if bad_put_meta s tx_slot kv
      then (s, kv, pmb_eargs)
      else if ltb ((s.meta_max_key_len + s.meta_max_val_len) % two32)
          ((kv.key_len + kv.val_len) % two32)
      then (s, kv, pmb_esize)
      else if ltb kv.blk_id s.total_objs_count && ltb 0 kv.blk_id
      then (s, kv, pmb_ewrgid)
      else if kv.blk_id == 0
      then put_meta_new s tx_slot kv none
      else elim (backend_get (some s.backend) (mem_of s) kv.blk_id) [
        | missing _ ↦ (s, kv, pmb_enoent)
        | found old_obj ↦ put_meta_new s tx_slot kv (some old_obj)
      ]

  unfoldable pub pmb_tput_meta :
      Option Handle → (tx_slot : ℕ) → Option PmbPair → Option Handle × Option PmbPair × ℕ
  unfolding tput_meta
  pmb_tput_meta none tx_slot kv = (none, kv, pmb_eargs)
  pmb_tput_meta (some s) tx_slot none = (some s, none, pmb_eargs)
  pmb_tput_meta (some s) tx_slot (some kv) =
      let (s', kv', ret) = tput_meta s tx_slot kv in (some s', some kv', ret)
