-- ===== src/Pmb/Small.antt =====
-- pmbackend.c: `pmb_tput` of a value that is short enough for an update in place.
use pmbackend.Base.{
  ℕ, ◌+◌, ◌*◌, ◌/◌, ◌%◌, ◌≤◌, ◌<◌, ◌≡◌, refl, ◌∙◌, List, arith, false, true, ltb, ◌==◌, ◌⊎◌, two32,
  two64,
}
use pmbackend.Mem.{read_bytes}
use pmbackend.Mem.Frame.{store-outside}
use pmbackend.Backend.{sizeof_tx_entry}
use pmbackend.Kv.{Handle, mem_of, peek, size_of, pmb_ok, Util}
use pmbackend.Kv.Op
use pmbackend.TxLog.{grow, write_entry, tx_slot_op_small_update}
use pmbackend.TxLog.Log.{Operation}
use pmbackend.TxLog.Open.{InProgress}
use pmbackend.TxLog.Register.{entry, entry_behind, in_progress_lem, write_entry-fields}
use pmbackend.TxLog.InPlace.{Patch}
use pmbackend.Pmb.Pair.{PmbPair}
use pmbackend.Pmb.Put.{copy, bad_put, tput}
use pmbackend.Pmb.Written.{copy-outside}

-- A pair that names an object, within the handle's limits, with a value of less than half the longest one.
pub record IsSmall (s : Handle) (kv : PmbPair) : Type 0 where
  pub some_id : (0 < kv.blk_id) × (kv.blk_id < two64)
  pub key_len : (0 < kv.key_len) × (kv.key_len ≤ s.max_key_len)
  pub pointers : (0 < kv.key) × (0 < kv.val)
  pub val_len : (0 < kv.val_len) × (kv.offset + kv.val_len ≤ s.max_val_len)
  pub small : kv.val_len < s.max_val_len / 2
  pub words : s.max_val_len < two32

-- The patch that the pair stands for.
abbrev pub patch_of : Handle → PmbPair → Patch
patch_of s kv = record {
  id = kv.blk_id;
  offset = kv.offset;
  payload = read_bytes (mem_of s) kv.val kv.val_len;
}

module _ (s : Handle) (tx_slot slot : ℕ) (ops : List Operation) (kv : PmbPair)
    (h : InProgress s tx_slot slot ops) where
  abbrev e : ℕ
  e = entry s tx_slot slot ops h

  abbrev fields : Handle
  fields = write_entry e Op.updinplace kv.blk_id (kv.val_len * two32 + kv.offset) s

  abbrev pub patch_noted : Handle
  patch_noted =
      grow slot (sizeof_tx_entry + kv.val_len) (copy (e + sizeof_tx_entry) kv.val kv.val_len fields)

  pub op_small-patch_noted :
      tx_slot_op_small_update s tx_slot kv.blk_id kv.val kv.offset kv.val_len
      ≡ (patch_noted, pmb_ok)
  unfolding tx_slot_op_small_update
  op_small-patch_noted = in_progress_lem s tx_slot slot ops h (λ place end.
      grow place (sizeof_tx_entry + kv.val_len) (
        copy (end + sizeof_tx_entry) kv.val kv.val_len
          (write_entry end Op.updinplace kv.blk_id (kv.val_len * two32 + kv.offset) s)))

  -- The tests of `pmb_tput` are passed, and the update is registered.
  pub tput-patch_noted :
      (u : Util)
      → 0 < tx_slot
      → tx_slot ≤ s.op_log.tx_slots_count
      → IsSmall s kv
      → tput u s tx_slot kv ≡ (patch_noted, kv, pmb_ok)
  unfolding tput bad_put
  tput-patch_noted u p q n =
      let good : bad_put s tx_slot kv ≡ false = ground (arith, n.key_len, n.pointers, n.val_len) in
      let fits : ltb s.max_val_len ((kv.offset + kv.val_len) % two32) ≡ false =
        ground (arith, n.val_len, n.words) in
      let there : (kv.blk_id == 0) ≡ false = ground (arith, n.some_id) in
      let small : ltb kv.val_len (s.max_val_len / 2) ≡ true = ground (arith, n.small) in
      rw (good, fits, there, small, op_small-patch_noted) refl

  pub patch_noted-world : patch_noted ≡ record s { world = patch_noted.world }
  unfolding write_entry
  patch_noted-world = refl

  -- Nothing changes outside the slot.
  pub patch_noted-outside :
      (x : ℕ)
      → kv.blk_id < two64
      → kv.val_len < two32
      → kv.offset < two32
      → (x < slot) ⊎ (slot + peek 8 s (size_of slot) + sizeof_tx_entry + kv.val_len ≤ x)
      → mem_of patch_noted x ≡ mem_of s x
  patch_noted-outside x i l o out =
      let behind = entry_behind s tx_slot slot ops h in
      let f =
        write_entry-fields s tx_slot slot ops h Op.updinplace kv.blk_id
          (kv.val_len * two32 + kv.offset) (omega arith) i (omega arith) in
      let copied = copy (e + sizeof_tx_entry) kv.val kv.val_len fields in
      store-outside 8 (mem_of copied) (size_of slot) _ x (omega (arith, out, behind))
      ∙ copy-outside (e + sizeof_tx_entry) kv.val kv.val_len fields x (omega (arith, out, behind))
      ∙ f.3 x (omega (arith, out, behind))
