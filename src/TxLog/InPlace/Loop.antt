-- ===== src/TxLog/InPlace/Loop.antt =====
-- tx_log.c: `tx_slot_execute` over the entries of updates in place.
use pmbackend.Base.{
  ℕ, zero, suc, ◌+◌, ◌≤◌, ◌<◌, ◌≡◌, refl, ◌∙◌, ap, true, false, List, [], ◌∷◌, length, ltb, arith,
}
use pmbackend.Mem.{Mem}
use pmbackend.Backend.{Backend, sizeof_data_hdr, sizeof_tx_entry}
use pmbackend.Backend.Layout.{IsLaidOut, IsBlockId, block_len}
use pmbackend.Kv.{Handle, mem_of, TxMeta, metalist_room, ok, ◌>>=◌}
use pmbackend.TxLog.Log.{Entries, Entries-le}
use pmbackend.TxLog.Process.{execute_entries}
use pmbackend.TxLog.InPlace.{Patch, as_log, reach, patch, AllPatches, head_of}
use pmbackend.TxLog.InPlace.Metas.{Lists, add, length-add}
use pmbackend.TxLog.InPlace.One.{
  Ran, head_of-patch, head_of-Agree, update_block-Ran, Ran-cons, patch-Entries, update_entry,
}

-- The entries for the blocks of the patches, which start with the headers in `m`.
abbrev pub add_all : Backend → Mem → List Patch → List TxMeta → List TxMeta
add_all b m [] ms = ms
add_all b m (p ∷ ps) ms = add_all b m ps (add p.id (head_of b m p.id) (reach p) ms)

module _ (b : Backend) (h : IsLaidOut b) (tx_id : ℕ) where
  -- The loop writes the patches and collects the blocks.
  pub execute_entries-Ran :
      (fuel e end : ℕ) (ps : List Patch) (s : Handle) (m0 : Mem) (ms : List TxMeta)
      → length ps < fuel
      → s.backend ≡ b
      → AllPatches b s.max_key_len m0 ps
      → ((id : ℕ)
          → IsBlockId b id
          → sizeof_data_hdr ≤ block_len b id
          → head_of b (mem_of s) id ≡ head_of b m0 id)
      → Lists (s.op_log.upd_id_list tx_id) ms
      → length ms + length ps ≤ metalist_room
      → end ≤ b.data_area
      → Entries (mem_of s) e end (as_log ps)
      → (s' : Handle) × (execute_entries fuel tx_id e end s ≡ ok s')
        × Ran b tx_id ps (add_all b m0 ps ms) s s'
  unfolding execute_entries
  execute_entries-Ran zero e end ps s m0 ms l k f same li room front g = absurd (omega arith)
  execute_entries-Ran (suc fuel) e end [] s m0 ms l k f same li room front g =
      let done : ltb e end ≡ false = ground (arith, g) in
      (s, rw done refl, record { only = refl; mem_eq = refl; metas = li; others = λ j ne. refl })
  execute_entries-Ran (suc fuel) e end (p ∷ ps) s m0 ms l k (f, fs) same li room front (at, g) =
      let (s1, made, r) = update_block-Ran b h tx_id s e p m0 ms k f at li (omega arith) in
      let next = e + sizeof_tx_entry + length p.payload in
      let shift : e + (sizeof_tx_entry + length p.payload) ≡ next = omega arith in
      let more : ltb e end ≡ true = ground (arith, Entries-le (mem_of s) _ end (as_log ps) g) in
      let start : head_of b (mem_of s) p.id ≡ head_of b m0 p.id =
        same p.id f.block.0 (omega (arith, f.fits)) in
      let max : s1.max_key_len ≡ s.max_key_len = ap (λ (x : Handle). x.max_key_len) r.only in
      let heads : (id : ℕ)
          → IsBlockId b id
          → sizeof_data_hdr ≤ block_len b id
          → head_of b (mem_of s1) id ≡ head_of b m0 id =
        λ id i len.
          ap (λ m. head_of b m id) r.mem_eq
          ∙ head_of-Agree b (mem_of s) (patch b s.max_key_len p (mem_of s)) id
              (head_of-patch b h s.max_key_len (mem_of s) m0 p id f i len)
          ∙ same id i len in
      let (s2, made', r') =
        execute_entries-Ran fuel next end ps s1 m0 _ (omega arith)
          (ap (λ (x : Handle). x.backend) r.only ∙ k) (rw max fs) heads (rw start at r.metas)
          (omega (arith, length-add p.id (head_of b m0 p.id) (reach p) ms, room)) front
          (patch-Entries b h tx_id s s1 p m0 next end (as_log ps) f front r.mem_eq
            (rw shift at g)) in
      (
        s2,
        rw (more, update_entry b h tx_id s s1 e p f.words.0 at made, ◌>>=◌) made',
        Ran-cons b h tx_id s s1 s2 p ps _ _ r r',
      )
