-- ===== src/TxLog/Executed.antt =====
-- tx_log.c: `tx_slot_execute` on a slot whose operations are known.
use mathlib.Core.Path.{fun_ext}
use pmbackend.Base.{
  ℕ, zero, suc, ◌+◌, ◌≤◌, ◌<◌, ◌≡◌, refl, sym, ◌∙◌, ap, Bool, true, false, ◌||◌, ◌&&◌, List, [],
  ◌∷◌, length, some, ltb, ◌==◌, if◌then◌else◌, arith, inl, inr, pred64, ◌%◌, Bool-cases,
}
use pmbackend.Mem.{Mem, World, load, memset_zero}
use pmbackend.Mem.Zero.{memset_zero-outside, memset_zero-inside, load_of_zeros}
use pmbackend.Caslist.Many.{elem}
use pmbackend.Backend.{Backend, sizeof_tx_slot, sizeof_tx_entry, backend_tx_set_zero, persist_slot}
use pmbackend.Backend.Layout.{IsLaidOut, place-InRegion}
use pmbackend.Kv.{Handle, mem_of, peek, status_of, size_of, pmb_ok, ok, ◌>>=◌, Util, TxMetalist}
use pmbackend.Kv.Status
use pmbackend.TxLog.Log.{
  Operation, write, update, updinplace, remove, Entries, Entries-le, Entries-Agree,
}
use pmbackend.TxLog.Meta.{tx_slot_meta_upd_process, write_metas}
use pmbackend.TxLog.Process.{
  execute_entry, execute_entries, execute_slot, tx_slot_execute, clear_slot, drop_old,
}
use pmbackend.TxLog.Dropped.{Dropped, Dropped-trans, Changed-change, BlocksFit, no_ids}
use pmbackend.TxLog.Drop.{held, header-Dropped, drop_old-Dropped}
use pmbackend.TxLog.DropAll.{drop_olds, AllDroppable, drop_olds-Dropped}
use pmbackend.TxLog.Ended.{olds, AllPlain, length-Entries, Holding, IsEnded}

-- One round, for each kind of operation.
execute_entry_old :
    (s : Handle) (tx_id e op id : ℕ)
    → (op == 1 || op == 3) ≡ true
    → load 4 (mem_of s) e ≡ op
    → load 8 (mem_of s) (e + 8) ≡ id
    → execute_entry s tx_id e ≡ ok (drop_old s id, e + sizeof_tx_entry)
unfolding execute_entry
execute_entry_old s tx_id e op id k t i = rw (t, i, k) refl

execute_entry_write :
    (s : Handle) (tx_id e : ℕ)
    → load 4 (mem_of s) e ≡ 0
    → execute_entry s tx_id e ≡ ok (s, e + sizeof_tx_entry)
unfolding execute_entry
execute_entry_write s tx_id e t = rw t refl

module _ (b : Backend) (h : IsLaidOut b) (slot : ℕ)
    (front : slot + sizeof_tx_slot ≤ b.data_area) where
  -- The entries stay as they are while blocks are dropped.
  pub Entries-Dropped :
      (s s' : Handle) (e end : ℕ) (ops : List Operation) {gone freed : ℕ → Bool}
      → Dropped b slot s s' gone freed
      → slot + sizeof_tx_slot ≤ e
      → end ≤ b.data_area
      → Entries (mem_of s) e end ops
      → Entries (mem_of s') e end ops
  Entries-Dropped s s' e end ops d low high =
      Entries-Agree (mem_of s) (mem_of s') e end ops (λ x p q.
        d.outside x (inr (omega arith))
          (λ id i g. inl (omega (arith, (place-InRegion b h id i).low))))

  -- The loop drops the old blocks.
  execute_entries-drop_olds :
      (fuel tx_id e end : ℕ) (ops : List Operation) (s : Handle)
      → length ops < fuel
      → slot + sizeof_tx_slot ≤ e
      → end ≤ b.data_area
      → s.backend ≡ b
      → BlocksFit b (mem_of s)
      → AllPlain ops
      → AllDroppable b (olds ops)
      → Entries (mem_of s) e end ops
      → execute_entries fuel tx_id e end s ≡ ok (drop_olds (olds ops) s)
  unfolding execute_entries drop_olds
  execute_entries-drop_olds zero tx_id e end ops s l low high k f p a g = absurd (omega arith)
  execute_entries-drop_olds (suc fuel) tx_id e end [] s l low high k f p a g =
      let done : ltb e end ≡ false = ground (arith, g) in rw done refl
  execute_entries-drop_olds (suc fuel) tx_id e end (write id ∷ ops) s l low high k f p a
        ((t, i), g) =
      let more : ltb e end ≡ true = ground (arith, Entries-le _ (e + sizeof_tx_entry) end ops g) in
      rw (more, execute_entry_write s tx_id e t)
        (execute_entries-drop_olds fuel tx_id (e + sizeof_tx_entry) end ops s (omega arith)
          (omega arith) high k f p a g)
  execute_entries-drop_olds (suc fuel) tx_id e end (update old new ∷ ops) s l low high k f p a
        ((t, i, j), g) =
      let more : ltb e end ≡ true = ground (arith, Entries-le _ (e + sizeof_tx_entry) end ops g) in
      let d = drop_old-Dropped b h slot s old k a.0 front f in
      let k' = ap (λ (x : Handle). x.backend) d.only ∙ k in
      let g' =
        Entries-Dropped s (drop_old s old) (e + sizeof_tx_entry) end ops d (omega arith) high g in
      rw (more, execute_entry_old s tx_id e 1 old refl t i)
        (execute_entries-drop_olds fuel tx_id (e + sizeof_tx_entry) end ops (drop_old s old)
          (omega arith) (omega arith) high k' d.fits p a.1 g')
  execute_entries-drop_olds (suc fuel) tx_id e end (remove id ∷ ops) s l low high k f p a
        ((t, i), g) =
      let more : ltb e end ≡ true = ground (arith, Entries-le _ (e + sizeof_tx_entry) end ops g) in
      let d = drop_old-Dropped b h slot s id k a.0 front f in
      let k' = ap (λ (x : Handle). x.backend) d.only ∙ k in
      let g' =
        Entries-Dropped s (drop_old s id) (e + sizeof_tx_entry) end ops d (omega arith) high g in
      rw (more, execute_entry_old s tx_id e 3 id refl t i)
        (execute_entries-drop_olds fuel tx_id (e + sizeof_tx_entry) end ops (drop_old s id)
          (omega arith) (omega arith) high k' d.fits p a.1 g')
  execute_entries-drop_olds (suc fuel) tx_id e end (updinplace id offset payload ∷ ops) s l low high
        k f p a g =
      absurd p

-- Without pending updates, `tx_slot_meta_upd_process` changes nothing.
pub process_nothing :
    (u : Util) (s : Handle) (tx_id : ℕ)
    → (s.op_log.upd_id_list tx_id).count ≡ 0
    → tx_slot_meta_upd_process u s tx_id ≡ ok s
unfolding tx_slot_meta_upd_process write_metas
process_nothing u s tx_id none' =
    let same : (j : ℕ)
        → (if j == tx_id
            then record {
              count = 0;
              list = λ (k : ℕ).
                  if ltb k 0
                  then record { id = 0; version = 0; val_len = 0 }
                  else (s.op_log.upd_id_list tx_id).list k;
            }
            else s.op_log.upd_id_list j)
          ≡ s.op_log.upd_id_list j =
      λ j. elim (Bool-cases (j == tx_id)) [
        | inl here ↦
            let e : j ≡ tx_id = ground (arith, here) in
            let zeroes : (k : ℕ)
                → (if ltb k 0
                    then record { id = 0; version = 0; val_len = 0 }
                    else (s.op_log.upd_id_list tx_id).list k)
                  ≡ (s.op_log.upd_id_list tx_id).list k =
              λ k. ground arith in
            rw (here, e) (λ i. record { count = sym none' i; list = fun_ext zeroes i })
        | inr there ↦ rw there refl
      ] in
    rw none' (
      ap (λ (l : ℕ → TxMetalist). ok (record s { op_log = record s.op_log { upd_id_list = l } }))
        (fun_ext same))

persist_slot-mem :
    (b : Backend) (w : World) (p len : ℕ) → (persist_slot (some b) w p len).mem ≡ w.mem
unfolding persist_slot
persist_slot-mem b w p len = ground arith

-- The end of a transaction: the first twelve bytes of the slot become zero.
pub clear_slot-mem :
    (s : Handle) (slot : ℕ) → mem_of (clear_slot s slot) ≡ memset_zero (mem_of s) slot 12
unfolding backend_tx_set_zero
clear_slot-mem s slot = persist_slot-mem s.backend _ slot 12

module _ (b : Backend) (h : IsLaidOut b) (slot : ℕ)
    (front : slot + sizeof_tx_slot ≤ b.data_area) where
  pub clear_slot-Dropped :
      (s : Handle) → BlocksFit b (mem_of s) → Dropped b slot s (clear_slot s slot) no_ids no_ids
  clear_slot-Dropped s f = header-Dropped b h slot s _ front f (λ x a.
      ap (λ (m : Mem). m x) (clear_slot-mem s slot)
      ∙ memset_zero-outside (mem_of s) slot 12 x (omega arith))

  pub clear_slot_status : (s : Handle) → peek 4 (clear_slot s slot) (status_of slot) ≡ Status.empty
  clear_slot_status s = load_of_zeros 4 _ (status_of slot) (λ x p q.
      ap (λ (m : Mem). m x) (clear_slot-mem s slot)
      ∙ memset_zero-inside (mem_of s) slot 12 x (omega arith) (omega arith))

module _ (u : Util) (b : Backend) (h : IsLaidOut b) (s : Handle) (id slot : ℕ)
    (ops : List Operation) where
  -- In a pool that is laid out, whose blocks have room for their objects, the commited operations
  -- of a slot in front of the blocks, none of them an update in place, with a count of 0 in its
  -- list of updated blocks, and each replacing or removing a block other than `data_nlba` that a list can hold, are
  -- executed: the result is PMB_OK, the slot is empty, the replaced and removed blocks are cleared,
  -- and those that held an object are on the free lists of their regions. Cleared means of a block
  -- that its checksum is 0 and, unless it was 0 before, so is every byte that the block's header
  -- and its two lengths counted. Beyond these blocks and the slot's header no byte has changed.
  pub tx_slot_execute-IsEnded :
      Holding b s id slot Status.commited ops
      → AllPlain ops
      → AllDroppable b (olds ops)
      → (s.op_log.upd_id_list (pred64 id % 256)).count ≡ 0
      → (s' : Handle) × (tx_slot_execute u s id ≡ ok (s', pmb_ok))
        × IsEnded b slot s s'
            (λ x. elem x (olds ops))
            (λ x. elem x (olds ops) && held b (mem_of s) x)
  unfolding tx_slot_execute execute_slot
  tx_slot_execute-IsEnded c p a none' =
      let behind = length-Entries (mem_of s) (slot + sizeof_tx_slot) _ ops p c.log in
      let front : slot + sizeof_tx_slot ≤ b.data_area = omega (arith, behind, c.front) in
      let loop =
        execute_entries-drop_olds b h slot front (peek 8 s (size_of slot) + 1) (pred64 id % 256)
          (slot + sizeof_tx_slot) (slot + peek 8 s (size_of slot)) ops s (omega (arith, behind))
          (omega arith) c.front c.pool c.fits p a c.log in
      let d = drop_olds-Dropped b h slot front (olds ops) s c.pool a c.fits in
      let s1 = drop_olds (olds ops) s in
      let pending : (s1.op_log.upd_id_list (pred64 id % 256)).count ≡ 0 =
        ap (λ (x : Handle). (x.op_log.upd_id_list (pred64 id % 256)).count) d.only ∙ none' in
      let done : (peek 4 s (status_of slot) == Status.commited) ≡ true =
        ground (arith, c.status_eq) in
      (
        clear_slot s1 slot,
        rw
            (
              tx_slot_execute,
              c.place_eq,
              done,
              execute_slot,
              loop,
              ◌>>=◌,
              process_nothing u s1 (pred64 id % 256) pending,
            )
            refl,
        (
          clear_slot_status b h slot front s1,
          Changed-change (λ x. ground arith) (λ x. ground arith)
              (Dropped-trans b h slot s _ _ _ _ _ _ front d
                (clear_slot-Dropped b h slot front s1 d.fits)),
        ),
      )
