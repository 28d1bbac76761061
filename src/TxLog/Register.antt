-- ===== src/TxLog/Register.antt =====
-- tx_log.c: the `tx_slot_op_…` functions and the log that a slot holds.
use mathlib.Core.Path.{subst}
use pmbackend.Base.{
  ℕ, ◌+◌, ◌*◌, ◌≤◌, ◌<◌, ◌≡◌, refl, sym, ap, List, [], ◌∷◌, ◌++◌, length, arith, two32, two64, ◌∙◌,
  inl, inr, ◌⊎◌, Bool-cases,
}
use pmbackend.Mem.{World, load, store, read_bytes, write_bytes, memcpy}
use pmbackend.Mem.Frame.{
  load-agree, read_bytes-agree, load-store_self, load-store_ne, load-write_ne, store-outside,
  write_bytes-outside, read_bytes-write_self, length-read_bytes,
}
use pmbackend.Backend.{Backend, sizeof_tx_slot, sizeof_tx_entry, backend_memcpy}
use pmbackend.Kv.{Handle, mem_of, poke, peek, status_of, size_of, blk_id1_of, blk_id2_of, pmb_ok}
use pmbackend.Kv.Op
use pmbackend.TxLog.{
  slot_at, in_progress, grow, write_entry, tx_slot_op_write, tx_slot_op_update, tx_slot_op_remove,
  tx_slot_op_small_update,
}
use pmbackend.TxLog.Log.{
  Operation, write, update, updinplace, remove, operation_len, EntryAt, Entries, EntryAt-Agree,
  Entries-le, Entries-Agree, Entries-snoc,
}
use pmbackend.TxLog.Open.{InProgress}

-- An operation was registered: the code is PMB_OK, and the log has it as its last one.
abbrev pub Registered : Handle × ℕ → (id slot : ℕ) → List Operation → Operation → Type 0
Registered r id slot ops op = (r.1 ≡ pmb_ok) × InProgress r.0 id slot (ops ++ op ∷ [])

pub backend_memcpy-mem :
    (b : Backend) (w : World) (dest src num : ℕ)
    → (backend_memcpy b w dest src num).mem ≡ memcpy w.mem dest src num
unfolding backend_memcpy
backend_memcpy-mem b w dest src num = elim (Bool-cases b.is_pmem) [
  | inl pmem ↦ rw pmem
  | inr no_pmem ↦ rw no_pmem
]

module _ (s : Handle) (id slot : ℕ) (ops : List Operation) (h : InProgress s id slot ops) where
  abbrev size : ℕ
  size = peek 8 s (size_of slot)

  abbrev pub entry : ℕ
  entry = slot + size

  pub entry_behind : slot + sizeof_tx_slot ≤ entry
  entry_behind = Entries-le (mem_of s) (slot + sizeof_tx_slot) entry ops h.log

  -- The entry has been written behind the others, and nothing in front of it was touched; then the size
  -- grows.
  grow-InProgress :
      (op : Operation) (s' : Handle)
      → s'.backend ≡ s.backend
      → ((x : ℕ) → x < entry → mem_of s' x ≡ mem_of s x)
      → EntryAt (mem_of s') entry op
      → size + operation_len op < two64
      → InProgress (grow slot (operation_len op) s') id slot (ops ++ op ∷ [])
  unfolding slot_at
  grow-InProgress op s' b same e fits =
      let m = mem_of s in
      let m' = mem_of s' in
      let n = load 8 m' (size_of slot) in
      let n_eq : n ≡ size =
        load-agree 8 m m' (size_of slot) (λ x p q. same x (omega (arith, entry_behind))) in
      let m'' = store 8 m' (size_of slot) (n + operation_len op) in
      let size_eq : load 8 m'' (size_of slot) ≡ size + operation_len op =
        load-store_self 8 m' (size_of slot) (n + operation_len op) (omega arith)
        ∙ omega (arith, n_eq) in
      let shift : slot + (size + operation_len op) ≡ entry + operation_len op = omega arith in
      let old : Entries m'' (slot + sizeof_tx_slot) entry ops =
        Entries-Agree m m'' (slot + sizeof_tx_slot) entry ops
          (λ x p q.
            store-outside 8 m' (size_of slot) (n + operation_len op) x (omega arith) ∙ same x q)
          h.log in
      let new : EntryAt m'' entry op =
        EntryAt-Agree m' m'' entry op
          (λ x p q.
            store-outside 8 m' (size_of slot) (n + operation_len op) x
              (omega (arith, entry_behind)))
          e in
      record {
        place = rw b h.place;
        status =
            load-store_ne 4 8 m' (size_of slot) (n + operation_len op) (status_of slot)
              (omega arith)
            ∙ load-agree 4 m m' (status_of slot) (λ x p q. same x (omega (arith, entry_behind)))
            ∙ h.status;
        log = rw (size_eq, shift) (Entries-snoc m'' (slot + sizeof_tx_slot) entry ops op old new);
      }

  -- The test that every `tx_slot_op_…` begins with is passed.
  pub in_progress_lem : (go : ℕ → ℕ → Handle) → in_progress s id go ≡ (go slot entry, pmb_ok)
  unfolding in_progress
  in_progress_lem go = ground (arith, h.place, h.status)

  -- An entry without a second id.
  one_id :
      (op : Operation) (t blk_id : ℕ)
      → t < two32
      → blk_id < two64
      → (EntryAt (mem_of (poke 8 (blk_id1_of entry) blk_id (poke 4 entry t s))) entry op ≡ (
          (load 4 (mem_of (poke 8 (blk_id1_of entry) blk_id (poke 4 entry t s))) entry ≡ t)
          × (load 8
                (mem_of (poke 8 (blk_id1_of entry) blk_id (poke 4 entry t s)))
                (blk_id1_of entry)
              ≡ blk_id)))
      → operation_len op ≡ sizeof_tx_entry
      → size + sizeof_tx_entry < two64
      → InProgress
          (grow slot sizeof_tx_entry (poke 8 (blk_id1_of entry) blk_id (poke 4 entry t s)))
          id
          slot
          (ops ++ op ∷ [])
  one_id op t blk_id bt b e l fits =
      let s' = poke 8 (blk_id1_of entry) blk_id (poke 4 entry t s) in
      let same : (x : ℕ) → x < entry → mem_of s' x ≡ mem_of s x = λ x p.
        store-outside 8 (store 4 (mem_of s) entry t) (blk_id1_of entry) blk_id x (omega arith)
        ∙ store-outside 4 (mem_of s) entry t x (omega arith) in
      let type_eq : load 4 (mem_of s') entry ≡ t =
        load-store_ne 4 8 (store 4 (mem_of s) entry t) (blk_id1_of entry) blk_id entry (omega arith)
        ∙ load-store_self 4 (mem_of s) entry t (omega arith) in
      let id_eq : load 8 (mem_of s') (blk_id1_of entry) ≡ blk_id =
        load-store_self 8 (store 4 (mem_of s) entry t) (blk_id1_of entry) blk_id (omega arith) in
      rw (← l) (grow-InProgress op s' refl same (rw e (type_eq, id_eq)) (omega (arith, l)))

  -- In an open transaction whose log has room below 2^64, `tx_slot_op_write` returns PMB_OK and adds the
  -- write of the block at the end of the log; the operations before it stay.
  pub op_write-Registered :
      (blk_id : ℕ)
      → blk_id < two64
      → size + sizeof_tx_entry < two64
      → Registered (tx_slot_op_write s id blk_id) id slot ops (write blk_id)
  unfolding tx_slot_op_write
  op_write-Registered blk_id b fits =
      rw (in_progress_lem _)
        (refl, one_id (write blk_id) Op.write blk_id (omega arith) b refl refl fits)

  -- In an open transaction whose log has room below 2^64, `tx_slot_op_remove` returns PMB_OK and adds the
  -- removal of the block at the end of the log; the operations before it stay.
  pub op_remove-Registered :
      (blk_id : ℕ)
      → blk_id < two64
      → size + sizeof_tx_entry < two64
      → Registered (tx_slot_op_remove s id blk_id) id slot ops (remove blk_id)
  unfolding tx_slot_op_remove
  op_remove-Registered blk_id b fits =
      rw (in_progress_lem _)
        (refl, one_id (remove blk_id) Op.remove blk_id (omega arith) b refl refl fits)

  -- The three fields of an entry, and what lies in front of it.
  pub write_entry-fields :
      (t blk_id1 blk_id2 : ℕ)
      → t < two32
      → blk_id1 < two64
      → blk_id2 < two64
      → let m = mem_of (write_entry entry t blk_id1 blk_id2 s) in
        (load 4 m entry ≡ t)
        × (load 8 m (blk_id1_of entry) ≡ blk_id1)
        × (load 8 m (blk_id2_of entry) ≡ blk_id2)
        × ((x : ℕ) → (x < entry) ⊎ (entry + sizeof_tx_entry ≤ x) → m x ≡ mem_of s x)
  unfolding write_entry
  write_entry-fields t i j bt bi bj =
      let m1 = store 4 (mem_of s) entry t in
      let m2 = store 8 m1 (blk_id1_of entry) i in
      (
        load-store_ne 4 8 m2 (blk_id2_of entry) j entry (omega arith)
            ∙ load-store_ne 4 8 m1 (blk_id1_of entry) i entry (omega arith)
            ∙ load-store_self 4 (mem_of s) entry t (omega arith),
        load-store_ne 8 8 m2 (blk_id2_of entry) j (blk_id1_of entry) (omega arith)
            ∙ load-store_self 8 m1 (blk_id1_of entry) i (omega arith),
        load-store_self 8 m2 (blk_id2_of entry) j (omega arith),
        λ x p.
            store-outside 8 m2 (blk_id2_of entry) j x (omega arith)
            ∙ store-outside 8 m1 (blk_id1_of entry) i x (omega arith)
            ∙ store-outside 4 (mem_of s) entry t x (omega arith),
      )

  -- In an open transaction whose log has room below 2^64, `tx_slot_op_update` returns PMB_OK and adds the
  -- replacement of the old block by the new one at the end of the log; the operations before it stay.
  pub op_update-Registered :
      (old new : ℕ)
      → old < two64
      → new < two64
      → size + sizeof_tx_entry < two64
      → Registered (tx_slot_op_update s id old new) id slot ops (update old new)
  unfolding tx_slot_op_update
  op_update-Registered old new bo bn fits =
      let f = write_entry-fields Op.update old new (omega arith) bo bn in
      rw (in_progress_lem _) (
        refl,
        grow-InProgress (update old new) (write_entry entry Op.update old new s)
            (unfold write_entry in refl) (λ x p. f.3 x (inl p)) (f.0, f.1, f.2) fits,
      )

  -- In an open transaction whose log has room below 2^64, and for new bytes that do not overlap the fields of
  -- the new entry, `tx_slot_op_small_update` returns PMB_OK and adds the update in place at the end of the
  -- log, with a copy of the bytes; the operations before it stay.
  pub op_small_update-Registered :
      (blk_id payload offset len : ℕ)
      → blk_id < two64
      → offset < two32
      → len < two32
      → size + sizeof_tx_entry + len < two64
      → (payload + len ≤ entry) ⊎ (entry + sizeof_tx_entry ≤ payload)
      → Registered
          (tx_slot_op_small_update s id blk_id payload offset len)
          id
          slot
          ops
          (updinplace blk_id offset (read_bytes (mem_of s) payload len))
  unfolding tx_slot_op_small_update
  op_small_update-Registered blk_id payload offset len bi bo bl fits apart =
      let bytes = read_bytes (mem_of s) payload len in
      let n : length bytes ≡ len = length-read_bytes (mem_of s) payload len in
      let s1 = write_entry entry Op.updinplace blk_id (len * two32 + offset) s in
      let f =
        write_entry-fields Op.updinplace blk_id (len * two32 + offset) (omega arith) bi
          (omega arith) in
      let bytes1 : read_bytes (mem_of s1) payload len ≡ bytes =
        read_bytes-agree (mem_of s) (mem_of s1) payload len (λ x p q. f.3 x (omega arith)) in
      let m2 = write_bytes (mem_of s1) (entry + sizeof_tx_entry) bytes in
      let s2 = record s1 {
        world = backend_memcpy s1.backend s1.world (entry + sizeof_tx_entry) payload len;
      } in
      let mem_eq : mem_of s2 ≡ m2 =
        backend_memcpy-mem s1.backend s1.world (entry + sizeof_tx_entry) payload len
        ∙ ap (write_bytes (mem_of s1) (entry + sizeof_tx_entry)) bytes1 in
      let same : (x : ℕ) → x < entry → mem_of s2 x ≡ mem_of s x = λ x p. rw mem_eq (
        write_bytes-outside (mem_of s1) (entry + sizeof_tx_entry) bytes x (omega arith)
        ∙ f.3 x (inl p)) in
      let at_entry : EntryAt (mem_of s2) entry (updinplace blk_id offset bytes) = rw mem_eq (
        load-write_ne 4 (mem_of s1) (entry + sizeof_tx_entry) bytes entry (omega arith) ∙ f.0,
        load-write_ne 8 (mem_of s1) (entry + sizeof_tx_entry) bytes (blk_id1_of entry) (omega arith)
            ∙ f.1,
        load-write_ne 8 (mem_of s1) (entry + sizeof_tx_entry) bytes (blk_id2_of entry) (omega arith)
            ∙ f.2
            ∙ ap (λ (k : ℕ). k * two32 + offset) (sym n),
        read_bytes-write_self (mem_of s1) (entry + sizeof_tx_entry) bytes,
      ) in
      let g =
        grow-InProgress (updinplace blk_id offset bytes) s2 (unfold write_entry in refl) same
          at_entry (omega (arith, n)) in
      rw (in_progress_lem _) (
        refl,
        subst
            (λ k.
              InProgress (grow slot (sizeof_tx_entry + k) s2) id slot
                (ops ++ updinplace blk_id offset bytes ∷ []))
            n g,
      )
