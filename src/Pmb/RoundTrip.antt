-- ===== src/Pmb/RoundTrip.antt =====
-- pmbackend.c: `pmb_tput` of a pair without a block id, and `pmb_get` after it.
use pmbackend.Base.{
  ℕ, ◌+◌, ◌%◌, ◌≤◌, ◌<◌, ◌≡◌, ◌≢◌, refl, ◌∙◌, ap, List, arith, Option, some, none, ltb, ◌==◌, ◌&&◌,
  not, Bool, true, false, two32, two64,
}
use pmbackend.Mem.{read_bytes}
use pmbackend.Backend.{found, backend_get, found_at, flch64, sizeof_data_hdr}
use pmbackend.Caslist.{caslist_pop}
use pmbackend.Caslist.Ranges.{member_range}
use pmbackend.Caslist.Many.{Holds, caslist_pop-Takes}
use pmbackend.Kv.{Handle, mem_of, peek, val_len_of, pmb_ok, Util}
use pmbackend.TxLog.{direct}
use pmbackend.TxLog.Log.{Operation}
use pmbackend.TxLog.Open.{InProgress, InProgress-frame}
use pmbackend.Pmb.Pair.{PmbPair}
use pmbackend.Pmb.Put.{Reply, bad_put, put_block, put_new, tput}
use pmbackend.Pmb.Object.{get, fill_pair}
use pmbackend.Pmb.NewObject.{IsNewPair, Room, IsPut, put_block-IsPut, put_block-free_list}

-- What `pmb_get` gives for the block `id`: the pair's fields, and pointers to its key and its value.
pub record IsGot (s : Handle) (kv : PmbPair) (id : ℕ) (after : Handle) (r : PmbPair × ℕ)
    : Type 0 where
  pub code : r.1 ≡ pmb_ok
  pub blk_id : r.0.blk_id ≡ id
  pub id_eq : r.0.id ≡ kv.id
  pub key_len : r.0.key_len ≡ kv.key_len
  pub val_len : r.0.val_len ≡ kv.val_len
  pub key : read_bytes (mem_of after) r.0.key kv.key_len ≡ read_bytes (mem_of s) kv.key kv.key_len
  pub value : read_bytes (mem_of after) r.0.val kv.val_len ≡ read_bytes (mem_of s) kv.val kv.val_len

pub backend_get-found :
    (s : Handle) (id obj : ℕ)
    → 0 < id
    → direct s id ≡ some obj
    → peek 8 s obj ≢ 0
    → backend_get (some s.backend) (mem_of s) id ≡ found obj
unfolding backend_get found_at flch64
backend_get-found s id obj pos d filled =
    let some_id : (id == 0) ≡ false = ground arith in
    let test : (peek 8 s obj == 0) ≡ false = ground (arith, filled) in rw (some_id, d, test) refl

pub get-found :
    (s : Handle) (id obj : ℕ) (old : PmbPair)
    → 0 < id
    → direct s id ≡ some obj
    → peek 8 s obj ≢ 0
    → get s id old ≡ (fill_pair s id obj, pmb_ok)
unfolding get fill_pair
get-found s id obj old pos d filled = rw (get, backend_get-found s id obj pos d filled) refl

-- The object that was put is the object that `pmb_get` finds.
pub IsPut-IsGot :
    (s : Handle) (tx_slot slot : ℕ) (ops : List Operation) (kv : PmbPair) (id obj : ℕ) (r : Reply)
    (old : PmbPair)
    → IsPut s tx_slot slot ops kv id obj r
    → kv.offset ≡ 0
    → 0 < kv.val_len
    → 0 < id
    → id < s.total_objs_count
    → direct s id ≡ some obj
    → peek 8 r.0 obj ≢ 0
    → IsGot s kv id r.0 (get r.0 id old)
unfolding fill_pair
IsPut-IsGot s tx_slot slot ops kv id obj r old t o v pos i d filled =
    let b : r.0.backend ≡ s.backend = ap (λ (x : Handle). x.backend) t.only in
    let count : r.0.total_objs_count ≡ s.total_objs_count =
      ap (λ (x : Handle). x.total_objs_count) t.only in
    let max : r.0.max_key_len ≡ s.max_key_len = ap (λ (x : Handle). x.max_key_len) t.only in
    let d' : direct r.0 id ≡ some obj = rw b d in
    let len : peek 4 r.0 (val_len_of obj) ≡ kv.val_len = omega (arith, t.stored.val_len, o) in
    let some_value : (peek 4 r.0 (val_len_of obj) == 0) ≡ false = ground (arith, len) in
    let in_data : ltb id r.0.total_objs_count ≡ true = ground (arith, count) in
    let at : obj + sizeof_data_hdr + s.max_key_len + kv.offset
        ≡ obj + sizeof_data_hdr + r.0.max_key_len =
      omega (arith, max, o) in
    let value : read_bytes (mem_of r.0) (obj + sizeof_data_hdr + r.0.max_key_len) kv.val_len
        ≡ read_bytes (mem_of s) kv.val kv.val_len =
      rw at at t.stored.value in
    rw (get-found r.0 id obj old pos d' filled, some_value, in_data)
      (record {
        code = refl;
        blk_id = refl;
        id_eq = t.stored.id_eq;
        key_len = t.stored.key_len;
        val_len = len;
        key = t.stored.key;
        value = value;
      })

-- The handle after `caslist_pop` in `pmb_tput`.
abbrev pub taken : Handle → Handle
taken s = record s { free_list = (caslist_pop s.free_list 0).2 }

-- The same statements, with the id on the free list.
module _ (s : Handle) (tx_slot slot : ℕ) (ops : List Operation) (kv : PmbPair) (id obj : ℕ) where
  taken-IsNewPair : IsNewPair s kv → IsNewPair (taken s) kv
  taken-IsNewPair n = record {
    new = n.new;
    key_len = n.key_len;
    pointers = n.pointers;
    val_len = n.val_len;
    words = n.words;
  }

  taken-Room : Room s slot obj kv → Room (taken s) slot obj kv
  taken-Room m = record {
    slot_size = m.slot_size;
    slot_obj = m.slot_obj;
    key_slot = m.key_slot;
    val_slot = m.val_slot;
    key_obj = m.key_obj;
    val_obj = m.val_obj;
  }

  IsPut-taken :
      (r : Reply)
      → IsPut (taken s) tx_slot slot ops kv id obj r
      → IsPut s tx_slot slot ops kv id obj r
  IsPut-taken r t = record {
    code = t.code;
    pair = t.pair;
    only = t.only;
    stored = record {
      key_len = t.stored.key_len;
      version_eq = t.stored.version_eq;
      id_eq = t.stored.id_eq;
      val_len = t.stored.val_len;
      key = t.stored.key;
      value = t.stored.value;
    };
    registered = t.registered;
    outside = t.outside;
  }

module _ (u : Util) (s : Handle) (tx_slot : ℕ) (kv : PmbPair) where
  -- The tests of `pmb_tput` are passed.
  pub tput-put_new :
      0 < tx_slot
      → tx_slot ≤ s.op_log.tx_slots_count
      → IsNewPair s kv
      → tput u s tx_slot kv ≡ put_new u s tx_slot kv none
  unfolding tput bad_put
  tput-put_new p q n =
      let good : bad_put s tx_slot kv ≡ false = ground (arith, n.key_len, n.pointers, n.val_len) in
      let fits : ltb s.max_val_len ((kv.offset + kv.val_len) % two32) ≡ false =
        ground (arith, n.val_len, n.words) in
      let first : (kv.blk_id == 0) ≡ true = ground (arith, n.new) in rw (good, fits, first) refl

  pub put_new-put_block :
      (obj : ℕ) (old : Option ℕ)
      → (caslist_pop s.free_list 0).0 ≡ 0
      → direct s (caslist_pop s.free_list 0).1 ≡ some obj
      → put_new u s tx_slot kv old
        ≡ put_block u (taken s) tx_slot kv (caslist_pop s.free_list 0).1 obj old
  unfolding put_new
  put_new-put_block obj old code d =
      let popped : ((caslist_pop s.free_list 0).0 == 0) ≡ true = ground (arith, code) in
      rw (popped, d) refl

module _ (u : Util) (s : Handle) (tx_slot slot : ℕ) (ops : List Operation) (kv : PmbPair) (obj : ℕ)
    (h : InProgress s tx_slot slot ops) (n : IsNewPair s kv) (m : Room s slot obj kv) where
  -- Let the transaction of one of the handle's slots be open, let the pair be a new one within the handle's
  -- limits, let the free list be valid and have an id, let `obj` be the block of the id that it gives next, and
  -- let slot, block and buffers not overlap. Then `pmb_tput` returns PMB_OK and that id, takes it off the free
  -- list, stores the pair's fields, key and value as version 1 in the block, registers the write in the
  -- transaction, and changes no byte outside the slot and the block.
  pub tput-IsPut :
      (free : ℕ → Bool) (k : ℕ)
      → 0 < tx_slot
      → tx_slot ≤ s.op_log.tx_slots_count
      → Holds free s.free_list
      → free k ≡ true
      → (caslist_pop s.free_list 0).1 < two64
      → direct s (caslist_pop s.free_list 0).1 ≡ some obj
      → IsPut s tx_slot slot ops kv (caslist_pop s.free_list 0).1 obj (tput u s tx_slot kv)
        × Holds
            (λ x. free x && not (x == (caslist_pop s.free_list 0).1))
            (tput u s tx_slot kv).0.free_list
  tput-IsPut free k p q l e b d =
      let id = (caslist_pop s.free_list 0).1 in
      let t = caslist_pop-Takes free s.free_list 0 k l e in
      let made =
        tput-put_new u s tx_slot kv p q n ∙ put_new-put_block u s tx_slot kv obj none t.code d in
      let h' = InProgress-frame s (taken s) tx_slot slot ops refl (λ x i j. refl) h in
      let n' = taken-IsNewPair s tx_slot slot ops kv id obj n in
      let m' = taken-Room s tx_slot slot ops kv id obj m in
      let list_eq = put_block-free_list u (taken s) tx_slot slot ops kv id obj h' n' m' in
      rw made (
        IsPut-taken s tx_slot slot ops kv id obj _
            (put_block-IsPut u (taken s) tx_slot slot ops kv id obj h' n' m' b),
        rw list_eq t.rest,
      )

  -- Under the same conditions, and with an offset of 0, an id of the data region and a checksum that is not 0,
  -- `pmb_get` of the block after `pmb_tput` returns PMB_OK and the pair's fields, and its pointers lead to copies of the
  -- key and the value that the caller put.
  pub tput-get :
      (free : ℕ → Bool) (k : ℕ) (old : PmbPair)
      → 0 < tx_slot
      → tx_slot ≤ s.op_log.tx_slots_count
      → Holds free s.free_list
      → free k ≡ true
      → (caslist_pop s.free_list 0).1 < two64
      → direct s (caslist_pop s.free_list 0).1 ≡ some obj
      → kv.offset ≡ 0
      → (caslist_pop s.free_list 0).1 < s.total_objs_count
      → peek 8 (tput u s tx_slot kv).0 obj ≢ 0
      → IsGot s kv
          (caslist_pop s.free_list 0).1
          (tput u s tx_slot kv).0
          (get (tput u s tx_slot kv).0 (tput u s tx_slot kv).1.blk_id old)
  tput-get free k old p q l e b d o i filled =
      let t = (tput-IsPut free k p q l e b d).0 in
      let id = (caslist_pop s.free_list 0).1 in
      let taken' = (caslist_pop-Takes free s.free_list 0 k l e).taken in
      let range = member_range l.list id l.valid (l.members id ∙ taken') in
      rw t.pair (
        IsPut-IsGot s tx_slot slot ops kv id obj (tput u s tx_slot kv) old t o n.val_len.0 range.0 i
          d filled)
