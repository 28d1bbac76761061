-- ===== src/Pmb/Patching.antt =====
-- pmbackend.c: a transaction that updates one object in place, from `pmb_tput` to its end.
use pmbackend.Base.{ℕ, ◌+◌, ◌%◌, ◌≤◌, ◌<◌, ◌≡◌, [], Bool, ◌||◌, ◌==◌, ◌⊎◌, two32, pred64}
use pmbackend.Mem.{read_bytes}
use pmbackend.Caslist.Many.{Holds}
use pmbackend.Backend.{Backend, sizeof_data_hdr, sizeof_tx_entry}
use pmbackend.Backend.Layout.{IsLaidOut, IsBlockId, place, block_len}
use pmbackend.Kv.{Handle, mem_of, peek, size_of, version_of, val_len_of, Util}
use pmbackend.TxLog.Open.{InProgress}
use pmbackend.TxLog.Process.{tx_slot_commit}
use pmbackend.TxLog.InPlace.{Patch}
use pmbackend.TxLog.InPlace.Metas.{IsUnused}
use pmbackend.TxLog.InPlace.Writes.{BesideFields}
use pmbackend.TxLog.InPlace.Applied.{Applied}
use pmbackend.Pmb.Pair.{PmbPair}
use pmbackend.Pmb.OldPart.{longer}
use pmbackend.Pmb.Small.{IsSmall, patch_of, patch_noted}

-- A handle with an open, empty transaction, no entry of whose list of updated blocks is used, in a pool that is laid
-- out, with these free slots, and a short pair for an object of the pool.
pub record Patching (b : Backend) (s : Handle) (tx_slot slot : ℕ) (kv : PmbPair) (slots : ℕ → Bool)
    : Type 0 where
  pub laid_out : IsLaidOut b
  pub pool : s.backend ≡ b
  pub opened : InProgress s tx_slot slot []
  pub in_range :
      (0 < tx_slot) × (tx_slot ≤ s.op_log.tx_slots_count) × (s.op_log.tx_slots_count < 256)
  pub pair : IsSmall s kv
  pub block : IsBlockId b kv.blk_id
  pub big : sizeof_data_hdr + s.max_key_len + s.max_val_len ≤ block_len b kv.blk_id
  pub front : slot + peek 8 s (size_of slot) + sizeof_tx_entry + kv.val_len ≤ b.data_area
  pub buffer :
      (kv.val + kv.val_len ≤ slot + peek 8 s (size_of slot))
      ⊎ (slot + peek 8 s (size_of slot) + sizeof_tx_entry ≤ kv.val)
  pub old_len : peek 4 s (val_len_of (place b kv.blk_id)) < two32
  pub idle : IsUnused (s.op_log.upd_id_list (pred64 tx_slot % 256))
  pub slots_list : Holds slots s.op_log.tx_slots_list

-- The new bytes stand at the offset of the object's value; its version is the next one and its length reaches to
-- their end at least. Of the blocks no other byte has changed but those of the object's checksum, and of the handle
-- only the lists of updated blocks, in which no entry of the slot is used, and the list of free slots, which has the slot too.
pub record IsPatched (b : Backend) (s : Handle) (tx_slot : ℕ) (kv : PmbPair) (slots : ℕ → Bool)
    (s' : Handle) : Type 0 where
  pub only : s' ≡ record s {
    world = s'.world;
    op_log = record s.op_log {
      upd_id_list = s'.op_log.upd_id_list;
      tx_slots_list = s'.op_log.tx_slots_list;
    };
  }
  pub value :
      read_bytes
        (mem_of s')
        (place b kv.blk_id + sizeof_data_hdr + s.max_key_len + kv.offset)
        kv.val_len
      ≡ read_bytes (mem_of s) kv.val kv.val_len
  pub version_eq :
      peek 4 s' (version_of (place b kv.blk_id))
      ≡ (peek 4 s (version_of (place b kv.blk_id)) + 1) % two32
  pub val_len :
      peek 4 s' (val_len_of (place b kv.blk_id))
      ≡ longer (peek 4 s (val_len_of (place b kv.blk_id))) (kv.offset + kv.val_len)
  pub outside :
      (x : ℕ)
      → b.data_area ≤ x
      → BesideFields (place b kv.blk_id) x
      → (x < place b kv.blk_id + sizeof_data_hdr + s.max_key_len + kv.offset)
        ⊎ (place b kv.blk_id + sizeof_data_hdr + s.max_key_len + kv.offset + kv.val_len ≤ x)
      → mem_of s' x ≡ mem_of s x
  pub idle : IsUnused (s'.op_log.upd_id_list (pred64 tx_slot % 256))
  pub slots_list : Holds (λ x. x == tx_slot || slots x) s'.op_log.tx_slots_list

module _ (u : Util) (b : Backend) (s : Handle) (tx_slot slot : ℕ) (kv : PmbPair) (slots : ℕ → Bool)
    (r : Patching b s tx_slot slot kv slots) where
  abbrev p : Patch
  p = patch_of s kv

  abbrev obj : ℕ
  obj = place b kv.blk_id

  abbrev put : Handle
  put = patch_noted s tx_slot slot [] kv r.opened

  abbrev sealed : Handle
  sealed = (tx_slot_commit u put tx_slot).0
