-- ===== src/TxLog/InPlace/Applied.antt =====
-- tx_log.c: `tx_slot_execute` on a slot whose operations are updates in place.
use pmbackend.Base.{
  ℕ, ◌+◌, ◌%◌, ◌≤◌, ◌<◌, ◌≡◌, ◌≢◌, refl, ◌∙◌, ap, true, false, ◌⊎◌, List, [], length, ltb, ◌==◌,
  if◌then◌else◌, arith, inl, inr, two32, Bool-cases, some, pred64,
}
use pmbackend.Mem.{Mem}
use pmbackend.Mem.Zero.{memset_zero-outside}
use pmbackend.Caslist.Many.{elem}
use pmbackend.Backend.{Backend, sizeof_tx_slot}
use pmbackend.Backend.Layout.{IsLaidOut, IsBlockId, place, place-InRegion}
use pmbackend.Kv.{
  Handle, mem_of, peek, version_of, val_len_of, status_of, size_of, TxMeta, TxMetalist,
  metalist_room, pmb_ok, ok, ◌>>=◌, Util,
}
use pmbackend.Kv.Status
use pmbackend.TxLog.{slot_at}
use pmbackend.TxLog.Log.{LogOf}
use pmbackend.TxLog.Meta.{tx_slot_meta_upd_process, set_metalist}
use pmbackend.TxLog.Process.{execute_slot, tx_slot_execute, clear_slot}
use pmbackend.TxLog.Executed.{clear_slot-mem, clear_slot_status}
use pmbackend.TxLog.InPlace.{Patch, as_log, patched, updates, longest, AllPatches, head_of}
use pmbackend.TxLog.InPlace.Metas.{IsUnused, Lists, pick}
use pmbackend.TxLog.InPlace.One.{Ran, head_of-Agree}
use pmbackend.TxLog.InPlace.Loop.{add_all, execute_entries-Ran}
use pmbackend.TxLog.InPlace.Patched.{length-log, header_fits, head_of-patched}
use pmbackend.TxLog.InPlace.Heads.{
  pick-add_all_version, pick-add_all_val_len, elem-add_all, AllEntries-add_all,
}
use pmbackend.TxLog.InPlace.Writes.{BesideFields, HeadsWritten, write_metas-HeadsWritten}

-- A commited transaction of these updates in place, in a pool that is laid out; no entry of the slot's list of
-- updated blocks is used, and the list has room for their blocks.
pub record IsPatching (b : Backend) (s : Handle) (id slot : ℕ) (ps : List Patch) : Type 0 where
  pub pool : s.backend ≡ b
  pub place_eq : slot_at s id ≡ some slot
  pub status : peek 4 s (status_of slot) ≡ Status.commited
  pub log : LogOf (mem_of s) slot (as_log ps)
  pub front : slot + peek 8 s (size_of slot) ≤ b.data_area
  pub patches : AllPatches b s.max_key_len (mem_of s) ps
  pub room : length ps ≤ metalist_room
  pub idle : IsUnused (s.op_log.upd_id_list (pred64 id % 256))

-- The updates were applied: each updated block has a version for each of its updates, and the length of the
-- longest value; beyond these fields, the blocks' checksums and the slot's header, the memory is that of the
-- patches written one after another. The slot is empty, and no entry of its list is used.
pub record Applied (b : Backend) (tx_id slot : ℕ) (ps : List Patch) (s s' : Handle) : Type 0 where
  pub only : s' ≡ record s {
    world = s'.world;
    op_log = record s.op_log { upd_id_list = s'.op_log.upd_id_list };
  }
  pub status : peek 4 s' (status_of slot) ≡ Status.empty
  pub version_eq :
      (x : ℕ)
      → IsBlockId b x
      → 0 < updates x ps
      → peek 4 s' (version_of (place b x))
        ≡ (peek 4 s (version_of (place b x)) + updates x ps) % two32
  pub val_len :
      (x : ℕ)
      → IsBlockId b x
      → 0 < updates x ps
      → peek 4 s' (val_len_of (place b x)) ≡ longest x ps (peek 4 s (val_len_of (place b x)))
  pub outside :
      (a : ℕ)
      → (a < slot) ⊎ (slot + 12 ≤ a)
      → ((x : ℕ) → IsBlockId b x → 0 < updates x ps → BesideFields (place b x) a)
      → mem_of s' a ≡ patched b s.max_key_len ps (mem_of s) a
  pub idle : IsUnused (s'.op_log.upd_id_list tx_id)
  pub others : (j : ℕ) → j ≢ tx_id → s'.op_log.upd_id_list j ≡ s.op_log.upd_id_list j

module _ (u : Util) (b : Backend) (h : IsLaidOut b) (s : Handle) (id slot : ℕ) (ps : List Patch)
    (c : IsPatching b s id slot ps) where
  abbrev tx_id : ℕ
  tx_id = pred64 id % 256

  abbrev ms : List TxMeta
  ms = add_all b (mem_of s) ps []

  low : slot + sizeof_tx_slot ≤ b.data_area
  low = omega (arith, length-log (mem_of s) _ _ ps c.log, c.front)

  -- The list of a slot when its updates have been written.
  abbrev emptied : TxMetalist → TxMetalist
  emptied l = record {
    count = 0;
    list = λ j. if ltb j l.count then record { id = 0; version = 0; val_len = 0 } else l.list j;
  }

  emptied-Lists : (l : TxMetalist) (ns : List TxMeta) → Lists l ns → Lists (emptied l) []
  emptied-Lists l ns li = record {
    count = refl;
    entries = tt;
    used = tt;
    unused = λ j p q. elim (Bool-cases (ltb j l.count)) [
      | inl old ↦ rw old refl
      | inr new ↦ rw new (li.unused j (ground (arith, new, li.count)) q)
    ];
  }

  -- The versions and lengths are written.
  process-HeadsWritten :
      (s1 : Handle)
      → Ran b tx_id ps ms s s1
      → (s2 : Handle) × (tx_slot_meta_upd_process u s1 tx_id
          ≡ ok (set_metalist s2 tx_id (emptied (s1.op_log.upd_id_list tx_id))))
        × HeadsWritten b ms s1 s2
  unfolding tx_slot_meta_upd_process
  process-HeadsWritten s1 r =
      let l = s1.op_log.upd_id_list tx_id in
      let k = ap (λ (x : Handle). x.backend) r.only ∙ c.pool in
      let good = AllEntries-add_all b s.max_key_len (mem_of s) ps [] c.patches tt in
      let (s2, made, w) = write_metas-HeadsWritten u b h l.list ms 0 s1 k good r.metas.entries in
      (s2, rw (r.metas.count, made, ◌>>=◌) refl, w)

  cleared-outside :
      (s3 : Handle) (a : ℕ)
      → (a < slot) ⊎ (slot + 12 ≤ a)
      → mem_of (clear_slot s3 slot) a ≡ mem_of s3 a
  cleared-outside s3 a out =
      ap (λ (m : Mem). m a) (clear_slot-mem s3 slot) ∙ memset_zero-outside (mem_of s3) slot 12 a out

  -- The header of an updated block at the end.
  final_head :
      (s1 s2 : Handle) (x : ℕ)
      → Ran b tx_id ps ms s s1
      → HeadsWritten b ms s1 s2
      → IsBlockId b x
      → 0 < updates x ps
      → head_of b (mem_of (clear_slot s2 slot)) x ≡ pick x (head_of b (mem_of s) x) ms
  final_head s1 s2 x r w i pos =
      let len = header_fits b s.max_key_len (mem_of s) x ps c.patches pos in
      let at = (place-InRegion b h x i).low in
      head_of-Agree b (mem_of s2) (mem_of (clear_slot s2 slot)) x
        (λ a p q. cleared-outside s2 a (inr (omega (arith, low, at))))
      ∙ w.heads x i len
      ∙ ap (λ n. pick x n ms)
          (ap (λ m. head_of b m x) r.mem_eq
            ∙ head_of-patched b h s.max_key_len (mem_of s) (mem_of s) x ps c.patches i len)

  finished :
      (s1 s2 : Handle)
      → Ran b tx_id ps ms s s1
      → HeadsWritten b ms s1 s2
      → Applied b tx_id slot ps s
          (clear_slot (set_metalist s2 tx_id (emptied (s1.op_log.upd_id_list tx_id))) slot)
  unfolding elem
  finished s1 s2 r w =
      let l = s1.op_log.upd_id_list tx_id in
      let s3 = set_metalist s2 tx_id (emptied l) in
      let s4 = clear_slot s3 slot in
      let last : Handle → Handle = λ x. record x {
        world = s4.world;
        op_log = record x.op_log { upd_id_list = s4.op_log.upd_id_list };
      } in
      let here : (tx_id == tx_id) ≡ true = ground arith in
      let same_lists : s2.op_log.upd_id_list ≡ s1.op_log.upd_id_list =
        ap (λ (x : Handle). x.op_log.upd_id_list) w.only in
      record {
        only = ap last w.only ∙ ap last r.only;
        status = clear_slot_status b h slot low s3;
        version_eq = λ x i pos.
            ap (λ (n : TxMeta). n.version) (final_head s1 s2 x r w i pos)
            ∙ pick-add_all_version b (mem_of s) x ps pos;
        val_len = λ x i pos.
            ap (λ (n : TxMeta). n.val_len) (final_head s1 s2 x r w i pos)
            ∙ pick-add_all_val_len b (mem_of s) x ps;
        outside = λ a out f.
            cleared-outside s3 a out
            ∙ w.outside a (λ x i e. f x i (ground (arith, e, elem-add_all b (mem_of s) x ps [])))
            ∙ ap (λ (m : Mem). m a) r.mem_eq;
        idle = rw here (emptied-Lists l ms r.metas);
        others = λ j ne.
            let there : (j == tx_id) ≡ false = ground (arith, ne) in
            rw there (ap (λ f. f j) same_lists ∙ r.others j ne);
      }

  -- In a pool that is laid out, let a commited slot hold updates in place whose bytes fit into the blocks, let the count
  -- of the slot's list of updated blocks be 0 and the ids of all its 128 entries, too, and let the updates be at most
  -- 128. Then `tx_slot_execute` ends with PMB_OK. The new bytes are written one after another; each updated
  -- block's version grows by the number of its updates and its length to the furthest end of them; beyond these fields, the
  -- blocks' checksums and the slot's header no other byte changes. The slot is empty, and the count and the ids of its
  -- list are 0 again.
  pub tx_slot_execute-Applied :
      (s' : Handle) × (tx_slot_execute u s id ≡ ok (s', pmb_ok)) × Applied b tx_id slot ps s s'
  unfolding tx_slot_execute execute_slot
  tx_slot_execute-Applied =
      let size = peek 8 s (size_of slot) in
      let long = length-log (mem_of s) _ _ ps c.log in
      let (s1, loop, r) =
        execute_entries-Ran b h tx_id (size + 1) (slot + sizeof_tx_slot) (slot + size) ps s
          (mem_of s) [] (omega (arith, long)) c.pool c.patches (λ x i l. refl) c.idle
          (omega (arith, c.room)) c.front c.log in
      let (s2, process, w) = process-HeadsWritten s1 r in
      let l = s1.op_log.upd_id_list tx_id in
      let s3 = set_metalist s2 tx_id (emptied l) in
      let s4 = clear_slot s3 slot in
      let done : (peek 4 s (status_of slot) == Status.commited) ≡ true = ground (arith, c.status) in
      (
        s4,
        rw (tx_slot_execute, c.place_eq, done, execute_slot, loop, ◌>>=◌, process) refl,
        finished s1 s2 r w,
      )
