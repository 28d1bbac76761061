-- ===== src/Pmb/NewObject.antt =====
-- pmbackend.c: `pmb_tput` of a pair without a block id, from the moment that its block is known.
use pmbackend.Base.{
  ℕ, ◌+◌, ◌%◌, ◌≤◌, ◌<◌, ◌≡◌, refl, ◌∙◌, ap, List, [], ◌∷◌, ◌++◌, arith, none, ◌==◌, true, ◌⊎◌,
  two32, two64,
}
use pmbackend.Mem.{read_bytes}
use pmbackend.Mem.Frame.{Apart, read_bytes-agree}
use pmbackend.Backend.{sizeof_data_hdr, sizeof_tx_entry}
use pmbackend.Kv.{Handle, mem_of, peek, size_of, pmb_ok, Util}
use pmbackend.TxLog.Log.{Operation, write}
use pmbackend.TxLog.Register.{op_write-Registered}
use pmbackend.TxLog.Noted.{noted, op_write-noted, noted_size, noted-outside}
use pmbackend.Kv.Op
use pmbackend.TxLog.Open.{InProgress, InProgress-frame}
use pmbackend.Pmb.Pair.{PmbPair}
use pmbackend.Pmb.Put.{Reply, put_block}
use pmbackend.Pmb.Written.{Stored, Fitting, write-Stored, write-outside, write-world}

-- A pair for a new object, with a value, within the handle's limits.
pub record IsNewPair (s : Handle) (kv : PmbPair) : Type 0 where
  pub new : kv.blk_id ≡ 0
  pub key_len : (0 < kv.key_len) × (kv.key_len ≤ s.max_key_len)
  pub pointers : (0 < kv.key) × (0 < kv.val)
  pub val_len : (0 < kv.val_len) × (kv.offset + kv.val_len ≤ s.max_val_len)
  pub words : (s.max_key_len < two32) × (s.max_val_len < two32) × (kv.id < two64)

-- The slot with its new entry, the block at `obj`, and the caller's buffers do not overlap, and the
-- slot's size stays a `size_t`.
pub record Room (s : Handle) (slot obj : ℕ) (kv : PmbPair) : Type 0 where
  pub slot_size : peek 8 s (size_of slot) + sizeof_tx_entry < two64
  pub slot_obj :
      Apart slot
        (peek 8 s (size_of slot) + sizeof_tx_entry)
        obj
        (sizeof_data_hdr + s.max_key_len + s.max_val_len)
  pub key_slot : Apart kv.key kv.key_len slot (peek 8 s (size_of slot) + sizeof_tx_entry)
  pub val_slot : Apart kv.val kv.val_len slot (peek 8 s (size_of slot) + sizeof_tx_entry)
  pub key_obj : Apart kv.key kv.key_len obj (sizeof_data_hdr + s.max_key_len + s.max_val_len)
  pub val_obj : Apart kv.val kv.val_len obj (sizeof_data_hdr + s.max_key_len + s.max_val_len)

-- What `pmb_tput` gives: the object at `obj` is the pair, as version 1; the write of block `id` is the last
-- operation of the open transaction; nothing outside the slot and the block has changed.
pub record IsPut (s : Handle) (tx_slot slot : ℕ) (ops : List Operation) (kv : PmbPair) (id obj : ℕ)
    (r : Reply) : Type 0 where
  pub code : r.2 ≡ pmb_ok
  pub pair : r.1 ≡ record kv { blk_id = id }
  pub only : r.0 ≡ record s { world = r.0.world; free_list = r.0.free_list }
  pub stored : Stored s r.0 kv obj 1 (kv.val_len + kv.offset)
  pub registered : InProgress r.0 tx_slot slot (ops ++ write id ∷ [])
  pub outside :
      (x : ℕ)
      → (x < slot) ⊎ (slot + peek 8 s (size_of slot) + sizeof_tx_entry ≤ x)
      → (x < obj) ⊎ (obj + sizeof_data_hdr + s.max_key_len + s.max_val_len ≤ x)
      → mem_of r.0 x ≡ mem_of s x

module _ (u : Util) (s : Handle) (tx_slot slot : ℕ) (ops : List Operation) (kv : PmbPair)
    (id obj : ℕ) (h : InProgress s tx_slot slot ops) (n : IsNewPair s kv)
    (m : Room s slot obj kv) where
  abbrev after_write : Handle
  after_write = noted s tx_slot slot ops h Op.write id

  abbrev size : ℕ
  size = peek 8 s (size_of slot)

  fitting : Fitting after_write kv obj 1 (kv.val_len + kv.offset)
  fitting = record {
    key_fits = n.key_len.1;
    words = omega (arith, n.key_len, n.val_len, n.words);
    has_value = n.val_len.0;
    key_apart = omega (arith, m.key_obj, n.val_len);
    val_apart = omega (arith, m.val_obj, n.val_len);
  }

  -- The caller's buffers are as they were when the object is written.
  buffer :
      (a len : ℕ)
      → Apart a len slot (size + sizeof_tx_entry)
      → read_bytes (mem_of after_write) a len ≡ read_bytes (mem_of s) a len
  buffer a len apart =
      read_bytes-agree (mem_of s) (mem_of after_write) a len
        (λ x p q. noted-outside s tx_slot slot ops h Op.write id x (omega (arith, apart)))

  pub put_block-IsPut :
      id < two64 → IsPut s tx_slot slot ops kv id obj (put_block u s tx_slot kv id obj none)
  unfolding put_block
  put_block-IsPut p =
      let first : (kv.blk_id == 0) ≡ true = ground (arith, n.new) in
      let len : (kv.val_len + kv.offset) % two32 ≡ kv.val_len + kv.offset =
        omega (arith, n.val_len, n.words) in
      let obj_size = (sizeof_data_hdr + s.max_key_len + (kv.val_len + kv.offset)) % two32 in
      let made = op_write-noted s tx_slot slot ops h id in
      let open_ : InProgress after_write tx_slot slot (ops ++ write id ∷ []) =
        (rw made at (op_write-Registered s tx_slot slot ops h id p m.slot_size)).1 in
      let w = write-Stored after_write kv obj 1 (kv.val_len + kv.offset) fitting u obj_size in
      let out = write-outside after_write kv obj 1 (kv.val_len + kv.offset) fitting u obj_size in
      let e = write-world after_write kv obj 1 (kv.val_len + kv.offset) fitting u obj_size in
      rw (first, made, len)
        (record {
          code = refl;
          pair = refl;
          only = rw (ap (λ (x : Handle). x.free_list) e) e;
          stored = record {
            key_len = w.key_len;
            version_eq = w.version_eq;
            id_eq = w.id_eq;
            val_len = w.val_len;
            key = w.key ∙ buffer kv.key kv.key_len m.key_slot;
            value = w.value ∙ buffer kv.val kv.val_len m.val_slot;
          };
          registered =
              InProgress-frame after_write _ tx_slot slot _ (ap (λ (x : Handle). x.backend) e)
                (λ x i j. out x (
                  omega (
                    arith,
                    noted_size s tx_slot slot ops h Op.write id m.slot_size,
                    m.slot_obj,
                    n.val_len,
                  )))
                open_;
          outside = λ x i j.
              out x (omega (arith, n.val_len)) ∙ noted-outside s tx_slot slot ops h Op.write id x i;
        })

  pub put_block-free_list : (put_block u s tx_slot kv id obj none).0.free_list ≡ s.free_list
  unfolding put_block
  put_block-free_list =
      let first : (kv.blk_id == 0) ≡ true = ground (arith, n.new) in
      let len : (kv.val_len + kv.offset) % two32 ≡ kv.val_len + kv.offset =
        omega (arith, n.val_len, n.words) in
      let obj_size = (sizeof_data_hdr + s.max_key_len + (kv.val_len + kv.offset)) % two32 in
      let made = op_write-noted s tx_slot slot ops h id in
      rw (first, made, len)
        (ap (λ (x : Handle). x.free_list)
          (write-world after_write kv obj 1 (kv.val_len + kv.offset) fitting u obj_size))
