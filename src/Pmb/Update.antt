-- ===== src/Pmb/Update.antt =====
-- pmbackend.c: `pmb_tput` of a pair that replaces an object, and whose value is too long for an update in place.
use pmbackend.Base.{
  ℕ, ◌+◌, ◌-◌, ◌%◌, ◌/◌, ◌≤◌, ◌<◌, ◌≡◌, refl, sym, Option, ◌∙◌, ap, List, [], ◌∷◌, ◌++◌, arith,
  false, some, ◌==◌, ◌⊎◌, two32, two64,
}
use pmbackend.Mem.{read_bytes}
use pmbackend.Mem.Frame.{Apart, load-agree, read_bytes-agree}
use pmbackend.Backend.{sizeof_data_hdr, sizeof_tx_entry}
use pmbackend.Caslist.{Caslist}
use pmbackend.Kv.{Handle, mem_of, peek, size_of, version_of, val_len_of, pmb_ok, Util}
use pmbackend.TxLog.{write_entry}
use pmbackend.TxLog.Log.{Operation, update}
use pmbackend.TxLog.Register.{op_update-Registered}
use pmbackend.TxLog.Open.{InProgress, InProgress-frame}
use pmbackend.TxLog.Rewrote.{rewrote, op_update-rewrote, rewrote_size, rewrote-outside}
use pmbackend.Pmb.Pair.{PmbPair}
use pmbackend.Pmb.Put.{Reply, put_block}
use pmbackend.Pmb.Written.{Fitting}
use pmbackend.Pmb.OldPart.{lesser}
use pmbackend.Pmb.Replaced.{
  Beneath, Replaced, replaced, write_value-replaced, replaced-Replaced, replaced-outside,
  replaced-world,
}
use pmbackend.Pmb.NewObject.{Room}

-- A pair for an object that is there, within the handle's limits, with a value of at least half the longest one.
pub record IsReplacement (s : Handle) (kv : PmbPair) : Type 0 where
  pub some_id : (0 < kv.blk_id) × (kv.blk_id < two64)
  pub key_len : (0 < kv.key_len) × (kv.key_len ≤ s.max_key_len)
  pub pointers : (0 < kv.key) × (0 < kv.val)
  pub val_len : (0 < kv.val_len) × (kv.offset + kv.val_len ≤ s.max_val_len)
  pub large : s.max_val_len / 2 ≤ kv.val_len
  pub words : (s.max_key_len < two32) × (s.max_val_len < two32) × (kv.id < two64)

-- The new block has room, and the old object lies apart from it and from the slot.
pub record OldRoom (s : Handle) (slot obj old : ℕ) (kv : PmbPair) : Type 0 where
  pub room : Room s slot obj kv
  pub old_len : peek 4 s (val_len_of old) ≤ s.max_val_len
  pub blocks :
      Apart old
        (sizeof_data_hdr + s.max_key_len + s.max_val_len)
        obj
        (sizeof_data_hdr + s.max_key_len + s.max_val_len)
  pub slot_old :
      Apart slot
        (peek 8 s (size_of slot) + sizeof_tx_entry)
        old
        (sizeof_data_hdr + s.max_key_len + s.max_val_len)

-- What the put gives: the new block holds the pair as the next version, with the old value around the new part;
-- the replacement is the last operation of the open transaction; nothing outside the slot and the new block has
-- changed.
pub record IsUpdated (s : Handle) (tx_slot slot : ℕ) (ops : List Operation) (kv : PmbPair)
    (id obj old : ℕ) (r : Reply) : Type 0 where
  pub code : r.2 ≡ pmb_ok
  pub pair : r.1 ≡ record kv { blk_id = id }
  pub only : r.0 ≡ record s { world = r.0.world; free_list = r.0.free_list }
  pub contents : Replaced s r.0 kv obj old ((peek 4 s (version_of old) + 1) % two32)
  pub registered : InProgress r.0 tx_slot slot (ops ++ update kv.blk_id id ∷ [])
  pub outside :
      (x : ℕ)
      → (x < slot) ⊎ (slot + peek 8 s (size_of slot) + sizeof_tx_entry ≤ x)
      → (x < obj) ⊎ (obj + sizeof_data_hdr + s.max_key_len + s.max_val_len ≤ x)
      → mem_of r.0 x ≡ mem_of s x

-- A handle whose old object and buffers are the same may stand for the one before.
module _ (s s1 : Handle) (kv : PmbPair) (obj old : ℕ) (max : s1.max_key_len ≡ s.max_key_len)
    (old_len : peek 4 s (val_len_of old) ≤ s.max_val_len)
    (same : (x : ℕ)
      → old ≤ x
      → x < old + sizeof_data_hdr + s.max_key_len + s.max_val_len
      → mem_of s1 x ≡ mem_of s x)
    (key : read_bytes (mem_of s1) kv.key kv.key_len ≡ read_bytes (mem_of s) kv.key kv.key_len)
    (val : read_bytes (mem_of s1) kv.val kv.val_len ≡ read_bytes (mem_of s) kv.val kv.val_len) where
  Replaced-before :
      (after : Handle) (version : ℕ)
      → Replaced s1 after kv obj old version
      → Replaced s after kv obj old version
  Replaced-before after version r =
      let len : peek 4 s1 (val_len_of old) ≡ peek 4 s (val_len_of old) =
        load-agree 4 (mem_of s) (mem_of s1) (val_len_of old)
          (λ x p q. same x (omega arith) (omega arith)) in
      record {
        stored = record {
          key_len = r.stored.key_len;
          version_eq = r.stored.version_eq;
          id_eq = r.stored.id_eq;
          val_len = rw len at r.stored.val_len;
          key = r.stored.key ∙ key;
          value = (rw max at r.stored.value) ∙ val;
        };
        front =
            (rw (max, len) at r.front)
            ∙ read_bytes-agree (mem_of s) (mem_of s1) (old + sizeof_data_hdr + s.max_key_len)
                (lesser kv.offset (peek 4 s (val_len_of old)))
                (λ x p q. same x (omega arith) (ground (arith, p, q, old_len)));
        behind =
            (rw (max, len) at r.behind)
            ∙ read_bytes-agree (mem_of s) (mem_of s1)
                (old + sizeof_data_hdr + s.max_key_len + (kv.val_len + kv.offset))
                (peek 4 s (val_len_of old) - (kv.val_len + kv.offset))
                (λ x p q. same x (omega arith) (omega (arith, old_len)));
      }

module _ (u : Util) (s : Handle) (tx_slot slot : ℕ) (ops : List Operation) (kv : PmbPair)
    (id obj old : ℕ) (h : InProgress s tx_slot slot ops) (n : IsReplacement s kv)
    (m : OldRoom s slot obj old kv) (b : id < two64) where
  abbrev s1 : Handle
  s1 = rewrote s tx_slot slot ops h kv.blk_id id n.some_id.1 b

  same :
      (x : ℕ)
      → (x < slot) ⊎ (slot + peek 8 s (size_of slot) + sizeof_tx_entry ≤ x)
      → mem_of s1 x ≡ mem_of s x
  same = rewrote-outside s tx_slot slot ops h kv.blk_id id n.some_id.1 b

  old_same :
      (x : ℕ)
      → old ≤ x
      → x < old + sizeof_data_hdr + s.max_key_len + s.max_val_len
      → mem_of s1 x ≡ mem_of s x
  old_same x p q = same x (omega (arith, m.slot_old))

  buffer :
      (a len : ℕ)
      → Apart a len slot (peek 8 s (size_of slot) + sizeof_tx_entry)
      → read_bytes (mem_of s1) a len ≡ read_bytes (mem_of s) a len
  buffer a len apart =
      read_bytes-agree (mem_of s) (mem_of s1) a len (λ x p q. same x (omega (arith, apart)))

  abbrev version : ℕ
  version = (peek 4 s (version_of old) + 1) % two32

  version_same : peek 4 s1 (version_of old) ≡ peek 4 s (version_of old)
  version_same =
      load-agree 4 (mem_of s) (mem_of s1) (version_of old)
        (λ x p q. old_same x (omega arith) (omega arith))

  fitting : Fitting s1 kv obj version (kv.val_len + kv.offset)
  unfolding write_entry
  fitting = record {
    key_fits = n.key_len.1;
    words = omega (arith, n.key_len, n.val_len, n.words);
    has_value = n.val_len.0;
    key_apart = omega (arith, m.room.key_obj, n.val_len);
    val_apart = omega (arith, m.room.val_obj, n.val_len);
  }

  beneath : Beneath s1 kv obj old
  unfolding write_entry
  beneath =
      let len =
        load-agree 4 (mem_of s) (mem_of s1) (val_len_of old)
          (λ x p q. old_same x (omega arith) (omega arith)) in
      record {
        old_len = omega (arith, len, m.old_len);
        new_len = omega (arith, n.val_len);
        words = n.words.1;
        blocks = m.blocks;
        val_obj = m.room.val_obj;
      }

  abbrev obj_size : ℕ
  obj_size = (sizeof_data_hdr + s.max_key_len + (kv.val_len + kv.offset)) % two32

  abbrev after : Handle
  after = replaced u s1 kv obj old version obj_size fitting beneath

  put_block-replaced :
      put_block u s tx_slot kv id obj (some old) ≡ (after, record kv { blk_id = id }, pmb_ok)
  unfolding put_block
  put_block-replaced =
      let replaces : (kv.blk_id == 0) ≡ false = ground (arith, n.some_id) in
      let len : (kv.val_len + kv.offset) % two32 ≡ kv.val_len + kv.offset =
        omega (arith, n.val_len, n.words) in
      rw
        (
          replaces,
          op_update-rewrote s tx_slot slot ops h kv.blk_id id n.some_id.1 b,
          len,
          version_same,
          write_value-replaced u s1 kv obj old version obj_size fitting beneath,
        )
        refl

  after_world : after ≡ record s { world = after.world }
  unfolding write_entry
  after_world = replaced-world u s1 kv obj old version obj_size fitting beneath

  after-outside :
      (x : ℕ)
      → (x < obj) ⊎ (obj + sizeof_data_hdr + s.max_key_len + s.max_val_len ≤ x)
      → mem_of after x ≡ mem_of s1 x
  unfolding write_entry
  after-outside = replaced-outside u s1 kv obj old version obj_size fitting beneath

  pub put_block-IsUpdated :
      IsUpdated s tx_slot slot ops kv id obj old (put_block u s tx_slot kv id obj (some old))
  unfolding write_entry
  put_block-IsUpdated =
      let open_ : InProgress s1 tx_slot slot (ops ++ update kv.blk_id id ∷ []) =
        (rw (op_update-rewrote s tx_slot slot ops h kv.blk_id id n.some_id.1 b) at (
          op_update-Registered s tx_slot slot ops h kv.blk_id id n.some_id.1 b
            m.room.slot_size)).1 in
      rw put_block-replaced (record {
        code = refl;
        pair = refl;
        only =
            after_world
            ∙ ap (λ (l : Option Caslist). record s { world = after.world; free_list = l })
                (sym (ap (λ (x : Handle). x.free_list) after_world));
        contents =
            Replaced-before s s1 kv obj old refl m.old_len old_same
              (buffer kv.key kv.key_len m.room.key_slot) (buffer kv.val kv.val_len m.room.val_slot)
              after version (replaced-Replaced u s1 kv obj old version obj_size fitting beneath);
        registered =
            InProgress-frame s1 after tx_slot slot _ (ap (λ (x : Handle). x.backend) after_world)
              (λ x i j. after-outside x (
                omega (
                  arith,
                  rewrote_size s tx_slot slot ops h kv.blk_id id n.some_id.1 b m.room.slot_size,
                  m.room.slot_obj,
                )))
              open_;
        outside = λ x i j. after-outside x j ∙ same x i;
      })

  pub put_block-free_list : (put_block u s tx_slot kv id obj (some old)).0.free_list ≡ s.free_list
  put_block-free_list = rw put_block-replaced (ap (λ (x : Handle). x.free_list) after_world)
