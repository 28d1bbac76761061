-- ===== src/TxLog/Aborted.antt =====
-- tx_log.c: `tx_slot_abort` on a slot whose operations are known.
use pmbackend.Base.{
  ℕ, zero, suc, ◌+◌, ◌≤◌, ◌<◌, ◌≡◌, refl, ◌∙◌, ap, true, false, ◌&&◌, not, List, [], ◌∷◌, length,
  ltb, ◌==◌, arith, ◌⊎◌, pred64,
}
use pmbackend.Mem.{load}
use pmbackend.Mem.Frame.{load-agree, load-store_ne, store-outside}
use pmbackend.Caslist.Many.{elem}
use pmbackend.Backend.{Backend, sizeof_tx_slot, sizeof_tx_entry}
use pmbackend.Backend.Layout.{IsLaidOut}
use pmbackend.Kv.{Handle, mem_of, poke, peek, status_of, size_of, pmb_ok, ok, ◌>>=◌, Util}
use pmbackend.Kv.Status
use pmbackend.TxLog.Log.{Operation, write, update, updinplace, remove, Entries, Entries-le}
use pmbackend.TxLog.Meta.{tx_slot_checksum}
use pmbackend.TxLog.Process.{
  abort_entry, abort_entries, abort_slot, tx_slot_abort, clear_slot, drop_new,
}
use pmbackend.TxLog.Commit.{checksum-outside}
use pmbackend.TxLog.Dropped.{Dropped, Dropped-trans, Changed-change, BlocksFit, no_ids}
use pmbackend.TxLog.Drop.{header-Dropped, drop_new-Dropped}
use pmbackend.TxLog.DropAll.{drop_news, AllDroppable, drop_news-Dropped}
use pmbackend.TxLog.Executed.{Entries-Dropped, clear_slot-Dropped, clear_slot_status}
use pmbackend.TxLog.Ended.{news, AllPlain, length-Entries, Holding, IsEnded}

-- One round, for each kind of operation.
abort_entry_new :
    (s : Handle) (e id : ℕ)
    → load 4 (mem_of s) e ≡ 0
    → load 8 (mem_of s) (e + 8) ≡ id
    → abort_entry s e ≡ drop_new s id
unfolding abort_entry
abort_entry_new s e id t i = rw (t, i) refl

abort_entry_update :
    (s : Handle) (e id : ℕ)
    → load 4 (mem_of s) e ≡ 1
    → load 8 (mem_of s) (e + 16) ≡ id
    → abort_entry s e ≡ drop_new s id
unfolding abort_entry
abort_entry_update s e id t i = rw (t, i) refl

abort_entry_remove : (s : Handle) (e : ℕ) → load 4 (mem_of s) e ≡ 3 → abort_entry s e ≡ s
unfolding abort_entry
abort_entry_remove s e t = rw t refl

module _ (b : Backend) (h : IsLaidOut b) (slot : ℕ)
    (front : slot + sizeof_tx_slot ≤ b.data_area) where
  -- The loop drops the new blocks.
  abort_entries-drop_news :
      (fuel e end : ℕ) (ops : List Operation) (s : Handle)
      → length ops < fuel
      → slot + sizeof_tx_slot ≤ e
      → end ≤ b.data_area
      → s.backend ≡ b
      → BlocksFit b (mem_of s)
      → AllPlain ops
      → AllDroppable b (news ops)
      → Entries (mem_of s) e end ops
      → abort_entries fuel e end s ≡ ok (drop_news (news ops) s)
  unfolding abort_entries drop_news
  abort_entries-drop_news zero e end ops s l low high k f p a g = absurd (omega arith)
  abort_entries-drop_news (suc fuel) e end [] s l low high k f p a g =
      let done : ltb e end ≡ false = ground (arith, g) in rw done refl
  abort_entries-drop_news (suc fuel) e end (write id ∷ ops) s l low high k f p a ((t, i), g) =
      let more : ltb e end ≡ true = ground (arith, Entries-le _ (e + sizeof_tx_entry) end ops g) in
      let d = drop_new-Dropped b h slot s id k a.0 front f in
      let k' = ap (λ (x : Handle). x.backend) d.only ∙ k in
      let g' =
        Entries-Dropped b h slot front s (drop_new s id) (e + sizeof_tx_entry) end ops d
          (omega arith) high g in
      rw (more, abort_entry_new s e id t i)
        (abort_entries-drop_news fuel (e + sizeof_tx_entry) end ops (drop_new s id) (omega arith)
          (omega arith) high k' d.fits p a.1 g')
  abort_entries-drop_news (suc fuel) e end (update old new ∷ ops) s l low high k f p a
        ((t, i, j), g) =
      let more : ltb e end ≡ true = ground (arith, Entries-le _ (e + sizeof_tx_entry) end ops g) in
      let d = drop_new-Dropped b h slot s new k a.0 front f in
      let k' = ap (λ (x : Handle). x.backend) d.only ∙ k in
      let g' =
        Entries-Dropped b h slot front s (drop_new s new) (e + sizeof_tx_entry) end ops d
          (omega arith) high g in
      rw (more, abort_entry_update s e new t j)
        (abort_entries-drop_news fuel (e + sizeof_tx_entry) end ops (drop_new s new) (omega arith)
          (omega arith) high k' d.fits p a.1 g')
  abort_entries-drop_news (suc fuel) e end (remove id ∷ ops) s l low high k f p a ((t, i), g) =
      let more : ltb e end ≡ true = ground (arith, Entries-le _ (e + sizeof_tx_entry) end ops g) in
      rw (more, abort_entry_remove s e t)
        (abort_entries-drop_news fuel (e + sizeof_tx_entry) end ops s (omega arith) (omega arith)
          high k f p a g)
  abort_entries-drop_news (suc fuel) e end (updinplace id offset payload ∷ ops) s l low high k f p a
        g =
      absurd p

  -- A field of the slot's header, and the checksum.
  pub header_poke-Dropped :
      (n a v : ℕ) (s : Handle)
      → slot ≤ a
      → a + n ≤ slot + sizeof_tx_slot
      → BlocksFit b (mem_of s)
      → Dropped b slot s (poke n a v s) no_ids no_ids
  header_poke-Dropped n a v s low high f =
      header-Dropped b h slot s _ front f
        (λ x o. store-outside n (mem_of s) a v x (omega (arith, o)))

  pub checksum-Dropped :
      (u : Util) (id : ℕ) (s : Handle)
      → BlocksFit b (mem_of s)
      → Dropped b slot s (tx_slot_checksum u s slot id) no_ids no_ids
  unfolding tx_slot_checksum
  checksum-Dropped u id s f =
      header-Dropped b h slot s _ front f (λ x o. checksum-outside u s id slot x (omega (arith, o)))

module _ (u : Util) (b : Backend) (h : IsLaidOut b) (s : Handle) (id slot status : ℕ)
    (ops : List Operation) where
  -- The status that `tx_slot_abort` sets first, and the slot's size after it.
  abbrev aborting : Handle
  aborting = tx_slot_checksum u (poke 4 (status_of slot) Status.aborted s) slot (pred64 id)

  abbrev pub ending : Handle → Handle
  ending t =
      tx_slot_checksum u (poke 8 (size_of slot) 0 (poke 4 (status_of slot) Status.empty t)) slot
        (pred64 id)

  aborting-Dropped :
      slot + sizeof_tx_slot ≤ b.data_area
      → BlocksFit b (mem_of s)
      → Dropped b slot s aborting no_ids no_ids
  aborting-Dropped front f =
      let d =
        header_poke-Dropped b h slot front 4 (status_of slot) Status.aborted s (omega arith)
          (omega arith) f in
      Changed-change (λ x. refl) (λ x. refl)
        (Dropped-trans b h slot s _ _ _ _ _ _ front d
          (checksum-Dropped b h slot front u (pred64 id) _ d.fits))

  pub ending-Dropped :
      (t : Handle)
      → slot + sizeof_tx_slot ≤ b.data_area
      → BlocksFit b (mem_of t)
      → Dropped b slot t (ending t) no_ids no_ids
  ending-Dropped t front f =
      let d =
        header_poke-Dropped b h slot front 4 (status_of slot) Status.empty t (omega arith)
          (omega arith) f in
      let e =
        header_poke-Dropped b h slot front 8 (size_of slot) 0 _ (omega arith) (omega arith)
          d.fits in
      let c = checksum-Dropped b h slot front u (pred64 id) _ e.fits in
      Changed-change (λ x. refl) (λ x. refl)
        (Dropped-trans b h slot t _ _ _ _ _ _ front d
          (Dropped-trans b h slot _ _ _ _ _ _ _ front e c))

  aborting_size : peek 8 aborting (size_of slot) ≡ peek 8 s (size_of slot)
  aborting_size =
      let s0 = poke 4 (status_of slot) Status.aborted s in
      load-agree 8 (mem_of s0) (mem_of aborting) (size_of slot)
        (λ x p q. checksum-outside u s0 (pred64 id) slot x (omega arith))
      ∙ load-store_ne 8 4 (mem_of s) (status_of slot) Status.aborted (size_of slot) (omega arith)

  -- In a pool that is laid out, whose blocks have room for their objects, an open or commited
  -- transaction in a slot in front of the blocks, with no update in place and each new block one
  -- other than `data_nlba` that a list can hold, is aborted: the result is PMB_OK, the slot is
  -- empty, and the new blocks are cleared and on the free lists of their regions. Cleared means of
  -- a block that its checksum is 0 and, unless it was 0 before, so is every byte that the block's
  -- header and its two lengths counted. Beyond these blocks and the slot's header no byte has
  -- changed.
  pub tx_slot_abort-IsEnded :
      (status ≡ Status.processing) ⊎ (status ≡ Status.commited)
      → Holding b s id slot status ops
      → AllPlain ops
      → AllDroppable b (news ops)
      → (s' : Handle) × (tx_slot_abort u s id ≡ ok (s', pmb_ok))
        × IsEnded b slot s s' (λ x. elem x (news ops)) (λ x. elem x (news ops))
  unfolding tx_slot_abort abort_slot
  tx_slot_abort-IsEnded open_ c p a =
      let size = peek 8 s (size_of slot) in
      let behind = length-Entries (mem_of s) (slot + sizeof_tx_slot) _ ops p c.log in
      let front : slot + sizeof_tx_slot ≤ b.data_area = omega (arith, behind, c.front) in
      let d1 = aborting-Dropped front c.fits in
      let k = ap (λ (x : Handle). x.backend) d1.only ∙ c.pool in
      let log =
        Entries-Dropped b h slot front s aborting (slot + sizeof_tx_slot) (slot + size) ops d1
          (omega arith) c.front c.log in
      let loop =
        abort_entries-drop_news b h slot front (size + 1) (slot + sizeof_tx_slot) (slot + size) ops
          aborting (omega (arith, behind)) (omega arith) c.front k d1.fits p a log in
      let d2 = drop_news-Dropped b h slot front (news ops) aborting k a d1.fits in
      let s2 = drop_news (news ops) aborting in
      let d3 = ending-Dropped s2 front d2.fits in
      let d4 = clear_slot-Dropped b h slot front (ending s2) d3.fits in
      let test : (not (peek 4 s (status_of slot) == Status.processing)
            && not (peek 4 s (status_of slot) == Status.commited))
          ≡ false =
        ground (arith, c.status_eq, open_) in
      (
        clear_slot (ending s2) slot,
        rw (tx_slot_abort, c.place_eq, test, abort_slot, aborting_size, loop, ◌>>=◌) refl,
        (
          clear_slot_status b h slot front (ending s2),
          Changed-change (λ x. ground arith) (λ x. ground arith)
              (Dropped-trans b h slot s _ _ _ _ _ _ front d1 (
                Dropped-trans b h slot _ _ _ _ _ _ _ front d2
                  (Dropped-trans b h slot _ _ _ _ _ _ _ front d3 d4))),
        ),
      )
