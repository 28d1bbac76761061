-- ===== src/Pmb/NewMeta.antt =====
-- pmbackend.c: `pmb_tput_meta` of a pair without a block id, and `pmb_get` after it.
use pmbackend.Base.{
  ℕ, ◌+◌, ◌≤◌, ◌<◌, ◌≡◌, refl, ◌∙◌, ap, List, [], ◌∷◌, ◌++◌, arith, none, ◌==◌, true, ◌⊎◌, two64,
}
use pmbackend.Mem.{read_bytes}
use pmbackend.Mem.Frame.{Apart, read_bytes-agree, load-agree}
use pmbackend.Backend.{sizeof_data_hdr, sizeof_tx_entry}
use pmbackend.Kv.{Handle, mem_of, peek, size_of, id_of, pmb_ok, Util}
use pmbackend.Kv.Op
use pmbackend.TxLog.Log.{Operation, write}
use pmbackend.TxLog.Open.{InProgress, InProgress-frame}
use pmbackend.TxLog.Register.{op_write-Registered}
use pmbackend.TxLog.Noted.{noted, op_write-noted, noted_size, noted-outside}
use pmbackend.Pmb.Pair.{PmbPair}
use pmbackend.Pmb.Put.{Reply}
use pmbackend.Pmb.PutMeta.{put_meta_block}
use pmbackend.Pmb.MetaWritten.{
  MetaStored, MetaFitting, write_meta-outside, write_meta-world, write_meta-MetaStored,
}
use pmbackend.Pmb.Refused.{IsNewMetaPair, taken_meta}

-- The slot with its new entry, the object at `obj`, and the caller's buffers do not overlap.
pub record MetaRoom (s : Handle) (slot obj : ℕ) (kv : PmbPair) : Type 0 where
  pub slot_size : peek 8 s (size_of slot) + sizeof_tx_entry < two64
  pub slot_obj :
      Apart slot
        (peek 8 s (size_of slot) + sizeof_tx_entry)
        obj
        (sizeof_data_hdr + kv.key_len + kv.val_len)
  pub key_slot : Apart kv.key kv.key_len slot (peek 8 s (size_of slot) + sizeof_tx_entry)
  pub val_slot : Apart kv.val kv.val_len slot (peek 8 s (size_of slot) + sizeof_tx_entry)
  pub key_obj : Apart kv.key kv.key_len obj (sizeof_data_hdr + kv.key_len + kv.val_len)
  pub val_obj : Apart kv.val kv.val_len obj (sizeof_data_hdr + kv.key_len + kv.val_len)

-- What `pmb_tput_meta` gives: the object at `obj` is the pair but for its id, as version 1; the write of block `id` is the
-- last operation of the open transaction; nothing outside the slot and the object has changed.
pub record IsMetaPut (s : Handle) (tx_slot slot : ℕ) (ops : List Operation) (kv : PmbPair)
    (id obj : ℕ) (r : Reply) : Type 0 where
  pub code : r.2 ≡ pmb_ok
  pub pair : r.1 ≡ record kv { blk_id = id }
  pub only : r.0 ≡ record s { world = r.0.world; meta_free_list = r.0.meta_free_list }
  pub stored : MetaStored s r.0 kv obj 1
  pub registered : InProgress r.0 tx_slot slot (ops ++ write id ∷ [])
  pub outside :
      (x : ℕ)
      → (x < slot) ⊎ (slot + peek 8 s (size_of slot) + sizeof_tx_entry ≤ x)
      → (x < obj) ⊎ (obj + sizeof_data_hdr + kv.key_len + kv.val_len ≤ x)
      → mem_of r.0 x ≡ mem_of s x

module _ (u : Util) (s : Handle) (tx_slot slot : ℕ) (ops : List Operation) (kv : PmbPair)
    (id obj : ℕ) (h : InProgress (taken_meta s) tx_slot slot ops) (n : IsNewMetaPair s kv)
    (m : MetaRoom s slot obj kv) where
  abbrev t : Handle
  t = taken_meta s

  abbrev after_write : Handle
  after_write = noted t tx_slot slot ops h Op.write id

  abbrev size : ℕ
  size = peek 8 s (size_of slot)

  fitting : MetaFitting kv obj 1
  fitting = record {
    words = (omega (arith, n.fits, n.words), omega (arith, n.fits, n.words), omega arith);
    key_apart = m.key_obj;
    val_apart = m.val_obj;
  }

  buffer :
      (a len : ℕ)
      → Apart a len slot (size + sizeof_tx_entry)
      → read_bytes (mem_of after_write) a len ≡ read_bytes (mem_of s) a len
  buffer a len apart =
      read_bytes-agree (mem_of s) (mem_of after_write) a len
        (λ x p q. noted-outside t tx_slot slot ops h Op.write id x (omega (arith, apart)))

  pub put_meta_block-IsMetaPut :
      id < two64
      → IsMetaPut s tx_slot slot ops kv id obj (put_meta_block u t tx_slot kv id obj none)
  unfolding put_meta_block
  put_meta_block-IsMetaPut p =
      let first : (kv.blk_id == 0) ≡ true = ground (arith, n.new) in
      let made = op_write-noted t tx_slot slot ops h id in
      let open_ : InProgress after_write tx_slot slot (ops ++ write id ∷ []) =
        (rw made at (op_write-Registered t tx_slot slot ops h id p m.slot_size)).1 in
      let w = write_meta-MetaStored u after_write kv obj 1 fitting in
      let out = write_meta-outside u after_write kv obj 1 fitting in
      let e = write_meta-world u after_write kv obj 1 fitting in
      let before : peek 8 after_write (id_of obj) ≡ peek 8 s (id_of obj) =
        load-agree 8 (mem_of s) (mem_of after_write) (id_of obj)
          (λ x p q. noted-outside t tx_slot slot ops h Op.write id x (omega (arith, m.slot_obj))) in
      rw (first, made)
        (record {
          code = refl;
          pair = refl;
          only = rw (ap (λ (x : Handle). x.meta_free_list) e) e;
          stored = record {
            key_len = w.key_len;
            version_eq = w.version_eq;
            val_len = w.val_len;
            key = w.key ∙ buffer kv.key kv.key_len m.key_slot;
            value = w.value ∙ buffer kv.val kv.val_len m.val_slot;
            old_id = w.old_id ∙ before;
          };
          registered =
              InProgress-frame after_write _ tx_slot slot _ (ap (λ (x : Handle). x.backend) e)
                (λ x i j. out x (
                  omega
                    (arith, noted_size t tx_slot slot ops h Op.write id m.slot_size, m.slot_obj)))
                open_;
          outside = λ x i j.
              out x (omega (arith, j)) ∙ noted-outside t tx_slot slot ops h Op.write id x i;
        })

  pub put_meta_block-list :
      (put_meta_block u t tx_slot kv id obj none).0.meta_free_list ≡ t.meta_free_list
  unfolding put_meta_block
  put_meta_block-list =
      let first : (kv.blk_id == 0) ≡ true = ground (arith, n.new) in
      let made = op_write-noted t tx_slot slot ops h id in
      rw (first, made)
        (ap (λ (x : Handle). x.meta_free_list) (write_meta-world u after_write kv obj 1 fitting))
