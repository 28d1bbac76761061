-- ===== src/TxLog/Drop.antt =====
-- tx_log.c: the steps of executing and aborting that clear a block, free an id or write the slot's header.
use pmbackend.Base.{
  ℕ, ◌+◌, ◌≤◌, ◌<◌, ◌≡◌, refl, ap, Bool, false, not, ◌&&◌, ◌⊎◌, inl, inr, some, ltb, ◌==◌,
  if◌then◌else◌, arith, Bool-cases,
}
use pmbackend.Mem.{Mem, World, load}
use pmbackend.Mem.Frame.{load-agree}
use pmbackend.Mem.Zero.{memset_zero-inside, memset_zero-kept}
use pmbackend.Caslist.Ranges.{limit}
use pmbackend.Backend.{
  Backend, sizeof_tx_slot, backend_set_zero, found, missing, backend_enoent, backend_get, found_at,
  flch64,
}
use pmbackend.Backend.Layout.{IsLaidOut, IsBlockId, place, place-InRegion, direct-place}
use pmbackend.Kv.{Handle, mem_of, peek, key_len_of, val_len_of, release}
use pmbackend.Kv.Lists.{FreeLists, FreeLists-change, data_gain, meta_gain, release-FreeLists}
use pmbackend.TxLog.{direct}
use pmbackend.TxLog.Process.{set_zero, drop_new, drop_old}
use pmbackend.TxLog.Dropped.{
  Changed, Dropped, Changed-change, Dropped-trans, BlocksFit, no_ids, cleared-outside,
  cleared_header, cleared-BlocksFit,
}

-- The id is that of a block, and a list can hold it.
abbrev pub IsDroppable : Backend → ℕ → Type 0
IsDroppable b id = IsBlockId b id × (0 < id) × (id < limit)

-- The block of an id holds an object.
abbrev pub held : Backend → Mem → ℕ → Bool
held b m id = not (load 8 m (place b id) == 0)

same_lists :
    (total : ℕ) {s : Handle} {f g : ℕ → Bool}
    → FreeLists s f g
    → FreeLists s (data_gain total no_ids f) (meta_gain total no_ids g)
same_lists total l = FreeLists-change (λ x. ground arith) (λ x. ground arith) l

release-mem : (s : Handle) (id : ℕ) → mem_of (release s id) ≡ mem_of s
unfolding release
release-mem s id = elim (Bool-cases (ltb id s.total_objs_count)) [
  | inl low ↦ rw low refl
  | inr high ↦ rw high refl
]

module _ (b : Backend) (h : IsLaidOut b) (slot : ℕ) where
  -- A write to the slot, in front of the blocks.
  pub slot-Changed :
      (room : ℕ) (s : Handle) (w : World)
      → slot + room ≤ b.data_area
      → BlocksFit b (mem_of s)
      → ((x : ℕ) → (x < slot) ⊎ (slot + room ≤ x) → w.mem x ≡ mem_of s x)
      → Changed b slot room s (record s { world = w }) no_ids no_ids
  slot-Changed room s w front f out =
      let agree : (id a : ℕ)
          → IsBlockId b id
          → place b id ≤ a
          → load 4 w.mem a ≡ load 4 (mem_of s) a =
        λ id a i p.
          load-agree 4 (mem_of s) w.mem a
            (λ x low high. out x (inr (omega (arith, (place-InRegion b h id i).low)))) in
      record {
        only = refl;
        zero = λ id i e. cc;
        kept = λ x a. inl (out x a);
        outside = λ x a e. out x a;
        fits = λ id i. omega (
          arith,
          f id i,
          agree id (key_len_of (place b id)) i (omega arith),
          agree id (val_len_of (place b id)) i (omega arith),
        );
        lists = λ f g l.
            same_lists s.total_objs_count
              (record { data_side = l.data_side; meta_side = l.meta_side });
      }

  -- A write to the header of the slot.
  pub header-Dropped :
      (s : Handle) (w : World)
      → slot + sizeof_tx_slot ≤ b.data_area
      → BlocksFit b (mem_of s)
      → ((x : ℕ) → (x < slot) ⊎ (slot + sizeof_tx_slot ≤ x) → w.mem x ≡ mem_of s x)
      → Dropped b slot s (record s { world = w }) no_ids no_ids
  header-Dropped = slot-Changed sizeof_tx_slot

  -- The block of an id is cleared.
  pub zero-Dropped :
      (s : Handle) (id : ℕ)
      → IsBlockId b id
      → BlocksFit b (mem_of s)
      → Dropped b slot s (set_zero s (some (place b id))) (λ x. x == id) no_ids
  unfolding backend_set_zero
  zero-Dropped s id i f = record {
    only = refl;
    zero = λ j k e.
        let same : j ≡ id = ground (arith, e) in
        rw same (record {
          checksum =
              cleared_header b h slot (mem_of s) id i f (place b id) 8 (omega arith) (omega arith);
          bytes = λ ne x low high. memset_zero-inside (mem_of s) (place b id) _ x low high;
        });
    kept = λ x a. memset_zero-kept (mem_of s) (place b id) _ x;
    outside = λ x a e. cleared-outside b h slot (mem_of s) id i f x (e id i (ground arith));
    fits = cleared-BlocksFit b h slot (mem_of s) id i f;
    lists = λ f g l.
        same_lists s.total_objs_count (record { data_side = l.data_side; meta_side = l.meta_side });
  }

  -- An id goes back to its free list.
  release-Dropped :
      (s : Handle) (id : ℕ)
      → 0 < id
      → id < limit
      → BlocksFit b (mem_of s)
      → Dropped b slot s (release s id) no_ids (λ x. x == id)
  unfolding release
  release-Dropped s id p q f = record {
    only = elim (Bool-cases (ltb id s.total_objs_count)) [
      | inl low ↦ rw low refl
      | inr high ↦ rw high refl
    ];
    zero = λ j k e. cc;
    kept = λ x a. inl (ap (λ (m : Mem). m x) (release-mem s id));
    outside = λ x a e. ap (λ (m : Mem). m x) (release-mem s id);
    fits = rw (release-mem s id) f;
    lists = λ f g l. release-FreeLists s id f g p q l;
  }

  pub direct_block :
      (s : Handle) (id : ℕ) → s.backend ≡ b → IsBlockId b id → direct s id ≡ some (place b id)
  direct_block s id e i = rw e (direct-place b h id i).0

  -- The block of an id is cleared, and the id is free.
  freed-Dropped :
      (s : Handle) (id : ℕ)
      → IsDroppable b id
      → slot + sizeof_tx_slot ≤ b.data_area
      → BlocksFit b (mem_of s)
      → Dropped b slot s (release (set_zero s (some (place b id))) id) (λ x. x == id) (λ x. x == id)
  freed-Dropped s id (i, p, q) front f =
      let z = zero-Dropped s id i f in
      Changed-change (λ x. ground arith) (λ x. ground arith)
        (Dropped-trans b h slot s _ _ _ _ _ _ front z
          (release-Dropped (set_zero s (some (place b id))) id p q z.fits))

  -- Aborting: a new block is cleared, and its id is free.
  pub drop_new-Dropped :
      (s : Handle) (id : ℕ)
      → s.backend ≡ b
      → IsDroppable b id
      → slot + sizeof_tx_slot ≤ b.data_area
      → BlocksFit b (mem_of s)
      → Dropped b slot s (drop_new s id) (λ x. x == id) (λ x. x == id)
  unfolding drop_new
  drop_new-Dropped s id e d front f = rw (direct_block s id e d.0) (freed-Dropped s id d front f)

  -- Nothing happens.
  pub same-Dropped : (s : Handle) → BlocksFit b (mem_of s) → Dropped b slot s s no_ids no_ids
  same-Dropped s f = record {
    only = refl;
    zero = λ j k e. cc;
    kept = λ x a. inl refl;
    outside = λ x a e. refl;
    fits = f;
    lists = λ f g l. same_lists s.total_objs_count l;
  }

  -- What `backend_get` finds of a block.
  pub get_block :
      (s : Handle) (id : ℕ)
      → s.backend ≡ b
      → IsDroppable b id
      → backend_get (some s.backend) (mem_of s) id
        ≡ (if held b (mem_of s) id then found (place b id) else missing backend_enoent)
  unfolding backend_get found_at flch64
  get_block s id e (i, p, q) =
      let some_id : (id == 0) ≡ false = ground arith in
      rw (some_id, direct_block s id e i) (ground arith)

  -- Executing: an old block is cleared, and its id is free if the block held an object.
  pub drop_old-Dropped :
      (s : Handle) (id : ℕ)
      → s.backend ≡ b
      → IsDroppable b id
      → slot + sizeof_tx_slot ≤ b.data_area
      → BlocksFit b (mem_of s)
      → Dropped b slot s (drop_old s id) (λ x. x == id) (λ x. x == id && held b (mem_of s) x)
  unfolding drop_old
  drop_old-Dropped s id e d front f = elim (Bool-cases (held b (mem_of s) id)) [
    | inl full ↦
        rw (drop_old, get_block s id e d, full)
          (Changed-change (λ x. refl) (λ x. ground (arith, full)) (freed-Dropped s id d front f))
    | inr empty ↦
        let z : peek 8 s (place b id) ≡ 0 = ground (arith, empty) in
        let n = same-Dropped s f in
        rw (drop_old, get_block s id e d, empty)
          (record {
            only = refl;
            zero = λ j k g.
                let same : j ≡ id = ground (arith, g) in
                rw same (record { checksum = z; bytes = λ ne x low high. absurd (ne z) });
            kept = λ x a. inl refl;
            outside = λ x a g. refl;
            fits = f;
            lists = λ f g l.
                FreeLists-change (λ x. ground (arith, empty)) (λ x. ground (arith, empty)) l;
          })
  ]
