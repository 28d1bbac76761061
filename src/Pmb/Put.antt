-- ===== src/Pmb/Put.antt =====
-- pmbackend.c: `pmb_tput`, which writes an object to a new block, or registers an update in place,
-- within a transaction.
use pmbackend.Base.{
  ℕ, ◌+◌, ◌-◌, ◌/◌, ◌%◌, Bool, ◌||◌, ◌&&◌, not, Option, none, some, ltb, ◌==◌, if◌then◌else◌, two32,
}
use pmbackend.Mem.{with_mem}
use pmbackend.Backend.{sizeof_data_hdr, found, missing, backend_get, backend_memcpy}
use pmbackend.Caslist.{caslist_pop}
use pmbackend.Kv.{
  pmb_ok, pmb_err, pmb_enoent, pmb_enospc, pmb_esize, pmb_eargs, id_of, version_of, key_len_of,
  val_len_of, Handle, mem_of, poke, peek, Util,
}
use pmbackend.TxLog.{direct, tx_slot_op_write, tx_slot_op_update, tx_slot_op_small_update}
use pmbackend.Pmb.Tx.{bad_slot}
use pmbackend.Pmb.Pair.{PmbPair}

-- What a put gives back: the handle, the pair, whose `blk_id` may have been set, and the code.
abbrev pub Reply : Type 0
Reply = Handle × PmbPair × ℕ

abbrev pub copy : (dest src num : ℕ) → Handle → Handle
copy dest src num s = record s { world = backend_memcpy s.backend s.world dest src num }

-- The arguments that `pmb_tput` refuses.
unfoldable pub bad_put : Handle → (tx_slot : ℕ) → PmbPair → Bool
bad_put s tx_slot kv =
    bad_slot s tx_slot
    || ltb s.max_key_len kv.key_len
    || kv.key_len == 0
    || kv.key == 0
    || (kv.val == 0 && not (kv.val_len == 0))
    || (kv.val_len == 0 && not (kv.offset == 0))

-- The key, the version, the id and the length of a new object in the data region.
unfoldable pub write_header : Handle → PmbPair → (obj version data_len : ℕ) → Handle
write_header s kv obj version data_len =
    let s1 = poke 4 (version_of obj) version (poke 4 (key_len_of obj) kv.key_len s) in
    let s2 = copy (obj + sizeof_data_hdr) kv.key kv.key_len s1 in
    poke 4 (val_len_of obj) data_len (poke 8 (id_of obj) kv.id s2)

-- An update takes over the old value in front of the new part and behind it; the size of the object grows
-- with what stands behind.
unfoldable pub copy_old : Handle → PmbPair → (obj old_obj data_len obj_size : ℕ) → Handle × ℕ
copy_old s kv obj old_obj data_len obj_size =
    let old_len = peek 4 s (val_len_of old_obj) in
    let value = obj + sizeof_data_hdr + s.max_key_len in
    let old_value = old_obj + sizeof_data_hdr + s.max_key_len in
    let s1 = copy value old_value (if ltb old_len kv.offset then old_len else kv.offset) s in
    if old_len == 0
    then (s, obj_size)
    else if ltb data_len old_len
    then (
      poke 4 (val_len_of obj) old_len
          (copy (value + data_len) (old_value + data_len) (old_len - data_len) s1),
      (obj_size + (old_len - data_len)) % two32,
    )
    else (s1, obj_size)

module _ (u : Util) where
  -- The value and the checksum; `old` is the object that is replaced.
  unfoldable pub write_value :
      Handle → PmbPair → (obj : ℕ) → (old : Option ℕ) → (data_len obj_size : ℕ) → Handle
  unfolding copy_old
  write_value s kv obj old data_len obj_size =
      let (s1, size) : Handle × ℕ = elim old [
        | none ↦ (s, obj_size)
        | some old_obj ↦ copy_old s kv obj old_obj data_len obj_size
      ] in
      let s2 = copy (obj + sizeof_data_hdr + s1.max_key_len + kv.offset) kv.val kv.val_len s1 in
      if kv.val_len == 0
      then record s { world = with_mem s.world (u.insert (mem_of s) obj obj_size obj) }
      else record s2 { world = with_mem s2.world (u.insert (mem_of s2) obj size obj) }

  -- The new block is known: the operation is registered, and then the object is written.
  unfoldable pub put_block :
      Handle → (tx_slot : ℕ) → PmbPair → (blk_id obj : ℕ) → (old : Option ℕ) → Reply
  unfolding write_header write_value
  put_block s tx_slot kv blk_id obj old =
      let data_len = (kv.val_len + kv.offset) % two32 in
      let obj_size = (sizeof_data_hdr + s.max_key_len + data_len) % two32 in
      let (s1, status) =
        if kv.blk_id == 0
        then tx_slot_op_write s tx_slot blk_id
        else tx_slot_op_update s tx_slot kv.blk_id blk_id in
      let version : ℕ = elim old [
        | none ↦ 1
        | some old_obj ↦ (peek 4 s1 (version_of old_obj) + 1) % two32
      ] in
      let s2 = write_value (write_header s1 kv obj version data_len) kv obj old data_len obj_size in
      if status == pmb_ok then (s2, record kv { blk_id = blk_id }, pmb_ok) else (s1, kv, status)

  -- A block is taken from the data region's free list.
  unfoldable pub put_new : Handle → (tx_slot : ℕ) → PmbPair → (old : Option ℕ) → Reply
  unfolding put_block
  put_new s tx_slot kv old =
      let (code, blk_id, list) = caslist_pop s.free_list 0 in
      let s1 = record s { free_list = list } in
      if code == 0
      then elim (direct s1 blk_id) [
        | none ↦ (s1, kv, pmb_err)
        | some obj ↦ put_block s1 tx_slot kv blk_id obj old
      ]
      else (s1, kv, pmb_enospc)

  unfoldable pub tput : Handle → (tx_slot : ℕ) → PmbPair → Reply
  unfolding bad_put put_new
  tput s tx_slot kv =
      if bad_put s tx_slot kv
      then (s, kv, pmb_eargs)
      else if ltb s.max_val_len ((kv.offset + kv.val_len) % two32)
      then (s, kv, pmb_esize)
      else if kv.blk_id == 0
      then put_new s tx_slot kv none
      else if ltb kv.val_len (s.max_val_len / 2)
      then (let (s', ret) =
            tx_slot_op_small_update s tx_slot kv.blk_id kv.val kv.offset kv.val_len in
          (s', kv, ret))
      else elim (backend_get (some s.backend) (mem_of s) kv.blk_id) [
        | missing _ ↦ (s, kv, pmb_enoent)
        | found old_obj ↦ put_new s tx_slot kv (some old_obj)
      ]

  unfoldable pub pmb_tput :
      Option Handle → (tx_slot : ℕ) → Option PmbPair → Option Handle × Option PmbPair × ℕ
  unfolding tput
  pmb_tput none tx_slot kv = (none, kv, pmb_eargs)
  pmb_tput (some s) tx_slot none = (some s, none, pmb_eargs)
  pmb_tput (some s) tx_slot (some kv) =
      let (s', kv', ret) = tput s tx_slot kv in (some s', some kv', ret)
