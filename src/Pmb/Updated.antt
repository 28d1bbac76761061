-- ===== src/Pmb/Updated.antt =====
-- pmbackend.c: `pmb_tput` of a pair that replaces an object, from its tests on.
use pmbackend.Base.{
  ℕ, ◌+◌, ◌/◌, ◌%◌, ◌≤◌, ◌<◌, ◌≡◌, refl, ◌∙◌, List, arith, Bool, true, false, not, ◌&&◌, some, ltb,
  ◌==◌, two32, two64,
}
use pmbackend.Backend.{backend_get, found}
use pmbackend.Caslist.{caslist_pop}
use pmbackend.Caslist.Many.{Holds, caslist_pop-Takes}
use pmbackend.Kv.{Handle, mem_of, Util}
use pmbackend.TxLog.{direct}
use pmbackend.TxLog.Log.{Operation}
use pmbackend.TxLog.Open.{InProgress, InProgress-frame}
use pmbackend.Pmb.Pair.{PmbPair}
use pmbackend.Pmb.Put.{Reply, bad_put, put_new, tput}
use pmbackend.Pmb.Update.{
  IsReplacement, OldRoom, IsUpdated, put_block-IsUpdated, put_block-free_list,
}
use pmbackend.Pmb.RoundTrip.{taken, put_new-put_block}

-- The same statements, with the id on the free list.
module _ (s : Handle) (slot obj old : ℕ) (kv : PmbPair) where
  taken-IsReplacement : IsReplacement s kv → IsReplacement (taken s) kv
  taken-IsReplacement n = record {
    some_id = n.some_id;
    key_len = n.key_len;
    pointers = n.pointers;
    val_len = n.val_len;
    large = n.large;
    words = n.words;
  }

  taken-OldRoom : OldRoom s slot obj old kv → OldRoom (taken s) slot obj old kv
  taken-OldRoom m = record {
    room = record {
      slot_size = m.room.slot_size;
      slot_obj = m.room.slot_obj;
      key_slot = m.room.key_slot;
      val_slot = m.room.val_slot;
      key_obj = m.room.key_obj;
      val_obj = m.room.val_obj;
    };
    old_len = m.old_len;
    blocks = m.blocks;
    slot_old = m.slot_old;
  }

  IsUpdated-taken :
      (tx_slot id : ℕ) (ops : List Operation) (r : Reply)
      → IsUpdated (taken s) tx_slot slot ops kv id obj old r
      → IsUpdated s tx_slot slot ops kv id obj old r
  IsUpdated-taken tx_slot id ops r t = record {
    code = t.code;
    pair = t.pair;
    only = t.only;
    contents = record {
      stored = record {
        key_len = t.contents.stored.key_len;
        version_eq = t.contents.stored.version_eq;
        id_eq = t.contents.stored.id_eq;
        val_len = t.contents.stored.val_len;
        key = t.contents.stored.key;
        value = t.contents.stored.value;
      };
      front = t.contents.front;
      behind = t.contents.behind;
    };
    registered = t.registered;
    outside = t.outside;
  }

module _ (u : Util) (s : Handle) (tx_slot slot : ℕ) (ops : List Operation) (kv : PmbPair)
    (obj old : ℕ) (h : InProgress s tx_slot slot ops) (n : IsReplacement s kv)
    (m : OldRoom s slot obj old kv) where
  -- The tests of `pmb_tput` are passed.
  tput_replacement :
      0 < tx_slot
      → tx_slot ≤ s.op_log.tx_slots_count
      → backend_get (some s.backend) (mem_of s) kv.blk_id ≡ found old
      → tput u s tx_slot kv ≡ put_new u s tx_slot kv (some old)
  unfolding tput bad_put
  tput_replacement p q g =
      let good : bad_put s tx_slot kv ≡ false = ground (arith, n.key_len, n.pointers, n.val_len) in
      let fits : ltb s.max_val_len ((kv.offset + kv.val_len) % two32) ≡ false =
        ground (arith, n.val_len, n.words) in
      let replaces : (kv.blk_id == 0) ≡ false = ground (arith, n.some_id) in
      let large : ltb kv.val_len (s.max_val_len / 2) ≡ false = ground (arith, n.large) in
      rw (good, fits, replaces, large, g) refl

  pub tput-IsUpdated :
      (free : ℕ → Bool) (k : ℕ)
      → 0 < tx_slot
      → tx_slot ≤ s.op_log.tx_slots_count
      → Holds free s.free_list
      → free k ≡ true
      → (caslist_pop s.free_list 0).1 < two64
      → direct s (caslist_pop s.free_list 0).1 ≡ some obj
      → backend_get (some s.backend) (mem_of s) kv.blk_id ≡ found old
      → IsUpdated s tx_slot slot ops kv (caslist_pop s.free_list 0).1 obj old (tput u s tx_slot kv)
        × Holds
            (λ x. free x && not (x == (caslist_pop s.free_list 0).1))
            (tput u s tx_slot kv).0.free_list
  tput-IsUpdated free k p q l e b d g =
      let id = (caslist_pop s.free_list 0).1 in
      let t = caslist_pop-Takes free s.free_list 0 k l e in
      let made =
        tput_replacement p q g ∙ put_new-put_block u s tx_slot kv obj (some old) t.code d in
      let h' = InProgress-frame s (taken s) tx_slot slot ops refl (λ x i j. refl) h in
      let n' = taken-IsReplacement s slot obj old kv n in
      let m' = taken-OldRoom s slot obj old kv m in
      let list_eq = put_block-free_list u (taken s) tx_slot slot ops kv id obj old h' n' m' b in
      rw made (
        IsUpdated-taken s slot obj old kv tx_slot id ops _
            (put_block-IsUpdated u (taken s) tx_slot slot ops kv id obj old h' n' m' b),
        rw list_eq t.rest,
      )
