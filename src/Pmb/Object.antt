-- ===== src/Pmb/Object.antt =====
-- pmbackend.c: reading an object, the counts of blocks, and the choice between two objects.
use pmbackend.Base.{ℕ, ◌+◌, Bool, Option, none, some, ltb, ◌==◌, if◌then◌else◌, pred64}
use pmbackend.Backend.{sizeof_data_hdr, found, missing, backend_get}
use pmbackend.Caslist.{caslist_push, caslist_size}
use pmbackend.Kv.{
  pmb_ok, pmb_err, pmb_enoent, pmb_eargs, id_of, version_of, key_len_of, val_len_of, Handle, mem_of,
  peek,
}
use pmbackend.TxLog.Process.{set_zero}
use pmbackend.Pmb.Pair.{PmbPair}

-- The pair for an object: values of the data region start behind the room for the longest key, those
-- of the metadata region right behind the key.
unfoldable pub fill_pair : Handle → (blk_id obj : ℕ) → PmbPair
fill_pair s blk_id obj =
    let val_len = peek 4 s (val_len_of obj) in
    let key_len = peek 4 s (key_len_of obj) in
    record {
      blk_id = blk_id;
      id = peek 8 s (id_of obj);
      offset = 0;
      key = obj + sizeof_data_hdr;
      key_len = key_len;
      val =
          if val_len == 0
          then 0
          else if ltb blk_id s.total_objs_count
          then obj + sizeof_data_hdr + s.max_key_len
          else obj + sizeof_data_hdr + key_len;
      val_len = val_len;
    }

unfoldable pub get : Handle → (blk_id : ℕ) → PmbPair → PmbPair × ℕ
unfolding fill_pair
get s blk_id kv = elim (backend_get (some s.backend) (mem_of s) blk_id) [
  | missing _ ↦ (kv, pmb_enoent)
  | found obj ↦ (fill_pair s blk_id obj, pmb_ok)
]

unfoldable pub pmb_get : Option Handle → (blk_id : ℕ) → Option PmbPair → Option PmbPair × ℕ
unfolding get
pmb_get none blk_id kv = (kv, pmb_eargs)
pmb_get (some s) blk_id none = (none, pmb_eargs)
pmb_get (some s) blk_id (some kv) = let r = get s blk_id kv in (some r.0, r.1)

unfoldable pub pmb_nfree : Option Handle → (region : Bool) → ℕ
pmb_nfree none region = 0
pmb_nfree (some s) region =
    if region then caslist_size s.meta_free_list else caslist_size s.free_list

unfoldable pub pmb_ntotal : Option Handle → (region : Bool) → ℕ
pmb_ntotal none region = 0
pmb_ntotal (some s) region = if region then s.meta_objs_count else pred64 s.total_objs_count

-- The object `delete_id` is zeroed and its id goes to the data region's free list.
unfoldable pub discard : Handle → (delete_id delete_ptr : ℕ) → Handle
discard s delete_id delete_ptr =
    let s' = set_zero s (some delete_ptr) in
    record s' { free_list = caslist_push s'.free_list delete_id }

unfoldable pub keep_one : Handle → (blk_id1 obj1 blk_id2 obj2 : ℕ) → Handle × ℕ
unfolding discard
keep_one s blk_id1 obj1 blk_id2 obj2 =
    if ltb (peek 4 s (version_of obj2)) (peek 4 s (version_of obj1))
    then (discard s blk_id1 obj1, blk_id2)
    else (discard s blk_id2 obj2, blk_id1)

-- The id of the object that stays; PMB_ERR, which is 1, if one of them is not there.
unfoldable pub pmb_resolve_conflict : Handle → (blk_id1 blk_id2 : ℕ) → Handle × ℕ
unfolding keep_one
pmb_resolve_conflict s blk_id1 blk_id2 = elim (backend_get (some s.backend) (mem_of s) blk_id1) [
  | missing _ ↦ (s, pmb_err)
  | found obj1 ↦ elim (backend_get (some s.backend) (mem_of s) blk_id2) [
    | missing _ ↦ (s, pmb_err)
    | found obj2 ↦ keep_one s blk_id1 obj1 blk_id2 obj2
  ]
]
