-- ===== src/TxLog/InPlace/One.antt =====
-- tx_log.c: `tx_slot_execute` on one entry of an update in place.
use pmbackend.Base.{
  ℕ, ◌+◌, ◌*◌, ◌/◌, ◌%◌, ◌≤◌, ◌<◌, ◌≡◌, ◌≢◌, refl, ◌∙◌, ap, true, false, ◌⊎◌, List, [], ◌∷◌, length,
  leb, ◌==◌, if◌then◌else◌, arith, inl, inr, two32, Bool-cases,
}
use pmbackend.Mem.{Mem, write_bytes}
use pmbackend.Mem.Frame.{load-agree, write_bytes-outside}
use pmbackend.Backend.{Backend, sizeof_data_hdr, sizeof_tx_entry, backend_memcpy}
use pmbackend.Backend.Layout.{IsLaidOut, IsBlockId, place, block_len, place-InRegion}
use pmbackend.Kv.{Handle, mem_of, version_of, val_len_of, TxMeta, metalist_room, ok, ◌>>=◌}
use pmbackend.TxLog.Log.{Operation, updinplace, EntryAt, Entries, Entries-Agree}
use pmbackend.TxLog.Register.{backend_memcpy-mem}
use pmbackend.TxLog.Meta.{
  bump_meta, start_meta, tx_slot_meta_upd_add, tx_update_block, set_metalist, set_meta,
}
use pmbackend.TxLog.Process.{execute_entry}
use pmbackend.TxLog.Drop.{direct_block}
use pmbackend.TxLog.Dropped.{block-Beside}
use pmbackend.TxLog.InPlace.{Patch, reach, patch, patched, IsPatch, head_of}
use pmbackend.TxLog.InPlace.Metas.{
  Lists, Lists-add, find_meta-Lists, add, pick, index_of, index_of-le,
}

-- The patches have been written, and the list of the slot has these entries.
pub record Ran (b : Backend) (tx_id : ℕ) (ps : List Patch) (ms : List TxMeta) (s s' : Handle)
    : Type 0 where
  pub only : s' ≡ record s {
    world = s'.world;
    op_log = record s.op_log { upd_id_list = s'.op_log.upd_id_list };
  }
  pub mem_eq : mem_of s' ≡ patched b s.max_key_len ps (mem_of s)
  pub metas : Lists (s'.op_log.upd_id_list tx_id) ms
  pub others : (j : ℕ) → j ≢ tx_id → s'.op_log.upd_id_list j ≡ s.op_log.upd_id_list j

-- A new entry starts with what the block's header has.
start_meta-head :
    (b : Backend) (h : IsLaidOut b) (s : Handle) (meta : TxMeta) (id : ℕ)
    → s.backend ≡ b
    → IsBlockId b id
    → start_meta s meta id ≡ ok (if meta.id == 0 then head_of b (mem_of s) id else meta)
unfolding start_meta
start_meta-head b h s meta id e i = elim (Bool-cases (meta.id == 0)) [
  | inl new ↦ rw (new, direct_block b h 0 s id e i) refl
  | inr old ↦ rw old refl
]

-- Entering a block into the list.
upd_add-Ran :
    (b : Backend) (h : IsLaidOut b) (s : Handle) (tx_id id size : ℕ) (ms : List TxMeta)
    → s.backend ≡ b
    → IsBlockId b id
    → 0 < id
    → Lists (s.op_log.upd_id_list tx_id) ms
    → length ms < metalist_room
    → (s' : Handle) × (tx_slot_meta_upd_add s tx_id id size ≡ ok s')
      × Ran b tx_id [] (add id (head_of b (mem_of s) id) size ms) s s'
unfolding tx_slot_meta_upd_add
upd_add-Ran b h s tx_id id size ms e i p l room =
    let t = s.op_log.upd_id_list tx_id in
    let k = index_of id ms in
    let m0 = head_of b (mem_of s) id in
    let (start, lists) = Lists-add t id m0 size ms l p room in
    let fits : leb metalist_room k ≡ false = ground (arith, index_of-le id ms) in
    let meta : start_meta s (t.list k) id ≡ ok (pick id m0 ms) =
      start_meta-head b h s (t.list k) id e i ∙ ap ok start in
    let here : (tx_id == tx_id) ≡ true = ground arith in
    (
      set_metalist s tx_id (record {
        count = if (t.list k).id == 0 then t.count + 1 else t.count;
        list = set_meta k (bump_meta (pick id m0 ms) size) t.list;
      }),
      rw (find_meta-Lists t id ms l, fits, meta, ◌>>=◌) refl,
      record {
        only = refl;
        mem_eq = refl;
        metas = rw here lists;
        others = λ j ne. let there : (j == tx_id) ≡ false = ground (arith, ne) in rw there refl;
      },
    )

-- The bytes of a patch lie in the value of its block.
patch-outside :
    (b : Backend) (max : ℕ) (m m0 : Mem) (p : Patch) (x : ℕ)
    → (x < place b p.id + sizeof_data_hdr) ⊎ (place b p.id + block_len b p.id ≤ x)
    → IsPatch b max m0 p
    → patch b max p m x ≡ m x
patch-outside b max m m0 p x out f =
    write_bytes-outside m _ p.payload x (omega (arith, out, f.fits))

-- So it changes no header.
pub head_of-patch :
    (b : Backend) (h : IsLaidOut b) (max : ℕ) (m m0 : Mem) (p : Patch) (id : ℕ)
    → IsPatch b max m0 p
    → IsBlockId b id
    → sizeof_data_hdr ≤ block_len b id
    → (x : ℕ) → place b id ≤ x
    → x < place b id + sizeof_data_hdr
    → patch b max p m x ≡ m x
head_of-patch b h max m m0 p id f i len x low high = elim (Bool-cases (p.id == id)) [
  | inl same ↦
      let e : p.id ≡ id = ground (arith, same) in patch-outside b max m m0 p x (rw e (inl high)) f
  | inr other ↦
      patch-outside b max m m0 p x
        (omega (
          arith,
          block-Beside b h id p.id x i f.block.0 (λ q. ground (arith, q, other)) low
              (omega (arith, len)),
        ))
        f
]

pub head_of-Agree :
    (b : Backend) (m m' : Mem) (id : ℕ)
    → ((x : ℕ) → place b id ≤ x → x < place b id + sizeof_data_hdr → m' x ≡ m x)
    → head_of b m' id ≡ head_of b m id
head_of-Agree b m m' id same =
    let v =
      load-agree 4 m m' (version_of (place b id)) (λ x p q. same x (omega arith) (omega arith)) in
    let l =
      load-agree 4 m m' (val_len_of (place b id)) (λ x p q. same x (omega arith) (omega arith)) in
    λ j. record { id = id; version = v j; val_len = l j }

module _ (b : Backend) (h : IsLaidOut b) (tx_id : ℕ) where
  -- One patch.
  pub update_block-Ran :
      (s : Handle) (e : ℕ) (p : Patch) (m0 : Mem) (ms : List TxMeta)
      → s.backend ≡ b
      → IsPatch b s.max_key_len m0 p
      → EntryAt (mem_of s) e (updinplace p.id p.offset p.payload)
      → Lists (s.op_log.upd_id_list tx_id) ms
      → length ms < metalist_room
      → (s' : Handle) × (tx_update_block s tx_id p.id
            (e + sizeof_tx_entry)
            p.offset
            (length p.payload)
          ≡ ok s')
        × Ran b tx_id (p ∷ []) (add p.id (head_of b (mem_of s) p.id) (reach p) ms) s s'
  unfolding tx_update_block
  update_block-Ran s e p m0 ms k f (t, i, j, bytes) l room =
      let dest = place b p.id + sizeof_data_hdr + s.max_key_len + p.offset in
      let len = length p.payload in
      let w = backend_memcpy s.backend s.world dest (e + sizeof_tx_entry) len in
      let s1 = record s { world = w } in
      let m1 : mem_of s1 ≡ patch b s.max_key_len p (mem_of s) =
        backend_memcpy-mem s.backend s.world dest (e + sizeof_tx_entry) len
        ∙ ap (write_bytes (mem_of s) dest) bytes in
      let heads : head_of b (mem_of s1) p.id ≡ head_of b (mem_of s) p.id =
        ap (λ m. head_of b m p.id) m1
        ∙ head_of-Agree b (mem_of s) (patch b s.max_key_len p (mem_of s)) p.id (
            head_of-patch b h s.max_key_len (mem_of s) m0 p p.id f f.block.0
              (omega (arith, f.fits))) in
      let size : (p.offset + len) % two32 ≡ reach p = omega (arith, f.words) in
      let (s2, made, r) = upd_add-Ran b h s1 tx_id p.id (reach p) ms k f.block.0 f.block.1 l room in
      (
        s2,
        rw (tx_update_block, direct_block b h 0 s p.id k f.block.0, size) made,
        record {
          only = r.only;
          mem_eq = r.mem_eq ∙ m1;
          metas = rw heads at r.metas;
          others = r.others;
        },
      )

  pub Ran-cons :
      (s s1 s2 : Handle) (p : Patch) (ps : List Patch) (ms ms' : List TxMeta)
      → Ran b tx_id (p ∷ []) ms s s1
      → Ran b tx_id ps ms' s1 s2
      → Ran b tx_id (p ∷ ps) ms' s s2
  Ran-cons s s1 s2 p ps ms ms' q r = record {
    only =
        r.only
        ∙ ap
            (λ (x : Handle). record x {
              world = s2.world;
              op_log = record x.op_log { upd_id_list = s2.op_log.upd_id_list };
            })
            q.only;
    mem_eq =
        r.mem_eq
        ∙ ap (λ (x : Handle). patched b x.max_key_len ps (mem_of s1)) q.only
        ∙ ap (patched b s.max_key_len ps) q.mem_eq;
    metas = r.metas;
    others = λ j ne. r.others j ne ∙ q.others j ne;
  }

  -- The entries of the slot lie in front of the blocks, so that no patch changes them.
  pub patch-Entries :
      (s s' : Handle) (p : Patch) (m0 : Mem) (e end : ℕ) (ops : List Operation)
      → IsPatch b s.max_key_len m0 p
      → end ≤ b.data_area
      → mem_of s' ≡ patch b s.max_key_len p (mem_of s)
      → Entries (mem_of s) e end ops
      → Entries (mem_of s') e end ops
  patch-Entries s s' p m0 e end ops f front m1 g =
      let low = (place-InRegion b h p.id f.block.0).low in
      Entries-Agree (mem_of s) (mem_of s') e end ops
        (λ x i j.
          ap (λ (m : Mem). m x) m1
          ∙ patch-outside b s.max_key_len (mem_of s) m0 p x (inl (omega (arith, low, front))) f)
        g

  pub update_entry :
      (s s1 : Handle) (e : ℕ) (p : Patch)
      → p.offset < two32
      → EntryAt (mem_of s) e (updinplace p.id p.offset p.payload)
      → tx_update_block s tx_id p.id (e + sizeof_tx_entry) p.offset (length p.payload) ≡ ok s1
      → execute_entry s tx_id e ≡ ok (s1, e + sizeof_tx_entry + length p.payload)
  unfolding execute_entry
  update_entry s s1 e p w (t, i, j, bytes) made =
      let len : (length p.payload * two32 + p.offset) / two32 ≡ length p.payload = omega arith in
      let offset : (length p.payload * two32 + p.offset) % two32 ≡ p.offset = omega arith in
      rw (execute_entry, t, i, j, len, offset, made, ◌>>=◌) refl
