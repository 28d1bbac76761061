-- ===== src/TxLog/Meta.antt =====
-- tx_log.c: the metadata of the blocks that a transaction updates in place. The versions and lengths
-- are collected in the slot's `tx_metalist` and written to the blocks at the end.
use pmbackend.Base.{ℕ, zero, suc, ◌+◌, ◌%◌, ◌||◌, none, some, ltb, leb, ◌==◌, if◌then◌else◌, two32}
use pmbackend.Mem.{with_mem}
use pmbackend.Backend.{sizeof_data_hdr, backend_memcpy, backend_tx_persist}
use pmbackend.Kv.{
  version_of, val_len_of, size_of, TxMeta, TxMetalist, metalist_room, Handle, mem_of, poke, peek,
  Run, ok, fault, ◌>>=◌, Util,
}
use pmbackend.TxLog.{direct}

-- `while (i < count)`: where the block's entry is, or the first one that is not used
unfoldable pub find_meta : ℕ → (ℕ → TxMeta) → (blk_id i : ℕ) → ℕ
find_meta zero list blk_id i = i
find_meta (suc rounds) list blk_id i =
    let rest = find_meta rounds list blk_id (i + 1) in
    if (list i).id == blk_id || (list i).id == 0 then i else rest

abbrev pub set_meta : ℕ → TxMeta → (ℕ → TxMeta) → ℕ → TxMeta
set_meta i meta list j = if j == i then meta else list j

abbrev pub set_metalist : Handle → ℕ → TxMetalist → Handle
set_metalist s tx_id l = record s {
  op_log = record s.op_log { upd_id_list = λ j. if j == tx_id then l else s.op_log.upd_id_list j };
}

-- `meta->version += 1`, and `val_len` grows to the end of the update
unfoldable pub bump_meta : TxMeta → ℕ → TxMeta
bump_meta meta size = record {
  id = meta.id;
  version = (meta.version + 1) % two32;
  val_len = if ltb meta.val_len size then size else meta.val_len;
}

-- The entry for the block: a used one, or the block's own version and length.
unfoldable pub start_meta : Handle → TxMeta → (blk_id : ℕ) → Run TxMeta
start_meta s meta blk_id =
    if meta.id == 0
    then elim (direct s blk_id) [
      | none ↦ fault
      | some obj ↦ ok (record {
        id = blk_id;
        version = peek 4 s (version_of obj);
        val_len = peek 4 s (val_len_of obj);
      })
    ]
    else ok meta

unfoldable pub tx_slot_meta_upd_add : Handle → (tx_id blk_id size : ℕ) → Run Handle
unfolding find_meta bump_meta start_meta
tx_slot_meta_upd_add s tx_id blk_id size =
    let l = s.op_log.upd_id_list tx_id in
    let i = find_meta l.count l.list blk_id 0 in
    if leb metalist_room i then fault else (do
      meta ← start_meta s (l.list i) blk_id
      ok (
          set_metalist s tx_id (record {
            count = if (l.list i).id == 0 then l.count + 1 else l.count;
            list = set_meta i (bump_meta meta size) l.list;
          })))

unfoldable pub tx_update_block : Handle → (tx_id blk_id payload offset len : ℕ) → Run Handle
unfolding tx_slot_meta_upd_add
tx_update_block s tx_id blk_id payload offset len = elim (direct s blk_id) [
  | none ↦ fault
  | some obj ↦
      let w =
        backend_memcpy s.backend s.world (obj + sizeof_data_hdr + s.max_key_len + offset) payload
          len in
      tx_slot_meta_upd_add (record s { world = w }) tx_id blk_id ((offset + len) % two32)
]

module _ (u : Util) where
  unfoldable pub tx_slot_checksum : Handle → (slot tx_slot_id : ℕ) → Handle
  tx_slot_checksum s slot tx_slot_id =
      let s' = record s {
        world = with_mem s.world (u.insert (mem_of s) slot (peek 8 s (size_of slot)) slot);
      } in
      record s' {
        world =
            (backend_tx_persist (some s'.backend) s'.world tx_slot_id (peek 8 s' (size_of slot))).0;
      }

  -- The loop body of `tx_slot_meta_upd_process`.
  unfoldable pub write_meta : Handle → TxMeta → Run Handle
  write_meta s meta = elim (direct s meta.id) [
    | none ↦ fault
    | some obj ↦
        let s' = poke 4 (val_len_of obj) meta.val_len (poke 4 (version_of obj) meta.version s) in
        let len = sizeof_data_hdr + s'.max_key_len + peek 4 s' (val_len_of obj) in
        ok (record s' { world = with_mem s'.world (u.insert (mem_of s') obj len obj) })
  ]

  unfoldable pub write_metas : ℕ → (ℕ → TxMeta) → (i : ℕ) → Handle → Run Handle
  unfolding write_meta
  write_metas zero list i s = ok s
  write_metas (suc rounds) list i s = do
    s' ← write_meta s (list i)
    write_metas rounds list (i + 1) s'

  unfoldable pub tx_slot_meta_upd_process : Handle → (tx_id : ℕ) → Run Handle
  unfolding write_metas
  tx_slot_meta_upd_process s tx_id = do
    let l = s.op_log.upd_id_list tx_id
    s' ← write_metas l.count l.list 0 s
    ok (
        set_metalist s' tx_id (record {
          count = 0;
          list =
              λ j. if ltb j l.count then record { id = 0; version = 0; val_len = 0 } else l.list j;
        }))
