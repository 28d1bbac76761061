-- ===== src/Pmb/Reopened.antt =====
-- pmbackend.c: `pmb_open` of a pool that was there.
use pmbackend.Base.{
  ℕ, ◌+◌, ◌-◌, ◌≤◌, ◌<◌, ◌≡◌, refl, sym, ◌∙◌, ap, true, false, not, ◌⊎◌, List, length, ◌==◌, arith,
  some, [], inl,
}
use pmbackend.Mem.{Mem, World}
use pmbackend.Caslist.{caslist_new}
use pmbackend.Caslist.Ranges.{limit, member}
use pmbackend.Caslist.Many.{Holds, Holds-change}
use pmbackend.Backend.{Backend, backend_nblock, sizeof_tx_slot}
use pmbackend.Backend.Map.{Pool, backend_open}
use pmbackend.Backend.Layout.{IsLaidOut, IsBlockId}
use pmbackend.Kv.{Handle, TxMeta, OpLog, mem_of, peek, status_of, ok, ◌>>=◌, Util}
use pmbackend.Kv.Status
use pmbackend.TxLog.Log.{Operation}
use pmbackend.TxLog.Dropped.{BlocksFit, Cleared, Beside}
use pmbackend.TxLog.Init.{AllFree, tx_log_init-log}
use pmbackend.TxLog.Recovered.{is_commited}
use pmbackend.TxLog.Sweep.{slot_of, Known, ReadsRange, swept, Swept}
use pmbackend.TxLog.Swept.{swept-frame, tx_log_check-Swept}
use pmbackend.Pmb.Recovery.{recovery, is_object, in_meta, object_size, all_positions}
use pmbackend.Pmb.Recovery.Visit.{visit_all-sorted, Lists}
use pmbackend.Pmb.Recovery.Threads.{Counted, data_ids, meta_ids, nothing, recovery-Lists}
use pmbackend.Pmb.Object.{pmb_ntotal}
use pmbackend.Backend.Struct.{SameBeyondStructs, backend_open-SameBeyondStructs}
use pmbackend.Pmb.Open.{with_thread, PmbOpts, params, new_handle, start_recovered, start, pmb_open}

-- The recovery changes the four lists only.
recovery-lists :
    (u : Util) (s : Handle)
    → recovery u s ≡ record s {
      free_list = (recovery u s).free_list;
      meta_free_list = (recovery u s).meta_free_list;
      objs_list = (recovery u s).objs_list;
      meta_objs_list = (recovery u s).meta_objs_list;
    }
unfolding recovery
recovery-lists u s = rw (visit_all-sorted u (all_positions s) s) refl

is_object-recovery :
    (u : Util) (s : Handle) (x : ℕ) → is_object u (recovery u s) x ≡ is_object u s x
unfolding recovery is_object in_meta pmb_ntotal object_size
is_object-recovery u s x = rw (visit_all-sorted u (all_positions s) s) refl

-- The lists after the recovery, as the handle itself tells them.
abbrev pub Sorted : Util → Handle → Type 0
Sorted u s =
    Lists s (data_ids s (λ x. not (is_object u s x))) (meta_ids s (λ x. not (is_object u s x)))
      (data_ids s (is_object u s)) (meta_ids s (is_object u s))

recovery-Sorted :
    (u : Util) (s : Handle)
    → Counted s
    → Lists s nothing nothing nothing nothing
    → Sorted u (recovery u s)
recovery-Sorted u s c l =
    let r = recovery-Lists u s c l in
    let total = ap (λ (x : Handle). x.total_objs_count) (recovery-lists u s) in
    let meta = ap (λ (x : Handle). x.meta_objs_count) (recovery-lists u s) in
    record {
      in_free =
          Holds-change _ _ r.in_free (λ x. ground (arith, is_object-recovery u s x, total, meta));
      in_meta_free =
          Holds-change _ _ r.in_meta_free
            (λ x. ground (arith, is_object-recovery u s x, total, meta));
      in_objs =
          Holds-change _ _ r.in_objs (λ x. ground (arith, is_object-recovery u s x, total, meta));
      in_meta_objs =
          Holds-change _ _ r.in_meta_objs
            (λ x. ground (arith, is_object-recovery u s x, total, meta));
    }

-- The lists that the recovery begins with.
empty_list-Holds : Holds nothing (caslist_new true 0 0)
unfolding caslist_new member
empty_list-Holds = record {
  list = record { size = 0; begin = 0; end = 0; next = [] };
  present = refl;
  valid = inl (record { begin = refl; end = refl; next = refl; size = refl });
  members = λ x. refl;
}

-- The memory when `backend_open` has mapped the pool.
abbrev pub mapped : Pool → PmbOpts → World → World
mapped pool o w = (backend_open pool (params o) w).1

-- A pool that `backend_open` finds, whose slots, but for the first, are empty or hold known operations.
pub record Reopening (u : Util) (pool : Pool) (w : World) (o : PmbOpts) (b : Backend)
    (logs : ℕ → List Operation) : Type 0 where
  pub there : (backend_open pool (params o) w).0 ≡ some b
  pub entries : (0 < o.write_log_entries) × (o.write_log_entries < 255)
  pub count : b.tx_slots_count ≡ o.write_log_entries
  pub laid_out : IsLaidOut b
  pub slot_size : sizeof_tx_slot ≤ b.tx_slot_size
  pub blocks : (0 < b.data_nlba) × (b.data_nlba + b.meta_nlba ≤ limit)
  pub fits : BlocksFit b (mapped pool o w).mem
  pub known :
      (j : ℕ) → 1 ≤ j → j < b.tx_slots_count → Known b (mapped pool o w).mem (slot_of b j) (logs j)
  pub reads : ReadsRange u

-- The handle after `pmb_open`, where `w` is the memory when the pool was mapped: every slot is free, and but for the
-- first is empty; the blocks of the recovered transactions are cleared as the slots' operations say, and beyond these blocks and the slots no byte has changed; each
-- block but block 0 is in exactly one list of its region, the one for objects if it now holds an object with a right
-- checksum, and the free list if not.
pub record IsReopened (u : Util) (w : World) (o : PmbOpts) (b : Backend) (logs : ℕ → List Operation)
    (s : Handle) : Type 0 where
  pub pool : s.backend ≡ b
  pub counts : (s.total_objs_count ≡ b.data_nlba) × (s.meta_objs_count ≡ b.meta_nlba)
  pub slots : AllFree s.op_log o.write_log_entries
  pub empty :
      (j : ℕ) → 1 ≤ j → j < b.tx_slots_count → peek 4 s (status_of (slot_of b j)) ≡ Status.empty
  pub cleared :
      (x : ℕ)
      → IsBlockId b x
      → swept u b (new_handle o b w) logs (b.tx_slots_count - 1) 1 x ≡ true
      → Cleared b w.mem (mem_of s) x
  pub outside :
      (x : ℕ)
      → (x < slot_of b 1) ⊎ (b.data_area ≤ x)
      → ((id : ℕ)
          → IsBlockId b id
          → swept u b (new_handle o b w) logs (b.tx_slots_count - 1) 1 id ≡ true
          → Beside b id x)
      → mem_of s x ≡ w.mem x
  pub sorted : Sorted u s

module _ (u : Util) (pool : Pool) (w : World) (o : PmbOpts) (b : Backend)
    (logs : ℕ → List Operation) (r : Reopening u pool w o b logs) where
  -- The handle when the slots are checked.
  abbrev ready : OpLog → Handle
  ready l = record (new_handle o b (mapped pool o w)) {
    op_log = l;
    total_objs_count = b.data_nlba;
    meta_objs_count = b.meta_nlba;
  }

  swept-ready :
      (l : OpLog) (n i x : ℕ)
      → swept u b (ready l) logs n i x ≡ swept u b (new_handle o b (mapped pool o w)) logs n i x
  unfolding is_commited
  swept-ready l n i x =
      swept-frame u b (new_handle o b (mapped pool o w)) (ready l) logs n i x (λ j p q. refl)

  abbrev with_lists : Handle → Handle
  with_lists s = record s {
    free_list = caslist_new true 0 0;
    meta_free_list = caslist_new true 0 0;
    objs_list = caslist_new true 0 0;
    meta_objs_list = caslist_new true 0 0;
  }

  -- The start, once the pool is mapped.
  start-slots :
      (fuel longest : ℕ) (junk : ℕ → ℕ → TxMeta)
      → ((j : ℕ) → length (logs j) ≤ longest)
      → b.tx_slots_count + longest + 2 ≤ fuel
      → (l : OpLog) × (s1 : Handle) × (start u fuel junk o (mapped pool o w) false b
          ≡ ok (recovery u (with_lists s1)))
        × AllFree l o.write_log_entries
        × Swept u b logs (b.tx_slots_count - 1) 1 (ready l) s1
  unfolding start start_recovered backend_nblock
  start-slots fuel longest junk short enough =
      let (l, made, free) =
        tx_log_init-log fuel junk (new_handle o b (mapped pool o w)) o.write_log_entries r.entries.0
          r.entries.1 (omega (arith, enough, r.count)) in
      let (s1, checked, e) =
        tx_log_check-Swept u b r.laid_out r.reads r.slot_size logs (b.tx_slots_count - 1) fuel
          longest 1 (ready l) (omega (arith, r.count, r.entries))
          (omega (arith, r.count, r.entries)) (free.count ∙ sym r.count) refl r.fits
          (λ j p q. r.known j p (omega (arith, q))) short (omega (arith, enough)) in
      (l, s1, rw (made, ◌>>=◌, checked) refl, free, e)

  ready-IsReopened :
      (l : OpLog) (s1 : Handle)
      → AllFree l o.write_log_entries
      → Swept u b logs (b.tx_slots_count - 1) 1 (ready l) s1
      → IsReopened u (mapped pool o w) o b logs (recovery u (with_lists s1))
  ready-IsReopened l s1 free e =
      let only = e.changed.only in
      let kept = recovery-lists u (with_lists s1) in
      let bytes : mem_of (recovery u (with_lists s1)) ≡ mem_of s1 = ap mem_of kept in
      let total = ap (λ (x : Handle). x.total_objs_count) only in
      let meta = ap (λ (x : Handle). x.meta_objs_count) only in
      let log : (recovery u (with_lists s1)).op_log ≡ l =
        ap (λ (x : Handle). x.op_log) kept ∙ ap (λ (x : Handle). x.op_log) only in
      record {
        pool = ap (λ (x : Handle). x.backend) kept ∙ ap (λ (x : Handle). x.backend) only;
        counts = (
          ap (λ (x : Handle). x.total_objs_count) kept ∙ total,
          ap (λ (x : Handle). x.meta_objs_count) kept ∙ meta,
        );
        slots = rw log free;
        empty = λ j p q. rw bytes (e.empty j p (omega (arith, q)));
        cleared = λ x i k. rw bytes (e.changed.zero x i (swept-ready l _ 1 x ∙ k));
        outside = λ x a f.
            ap (λ (m : Mem). m x) bytes
            ∙ e.changed.outside x (omega (arith, a))
                (λ id i k. f id i (sym (swept-ready l _ 1 id) ∙ k));
        sorted = recovery-Sorted u (with_lists s1) (rw (total, meta) r.blocks) (record {
          in_free = empty_list-Holds;
          in_meta_free = empty_list-Holds;
          in_objs = empty_list-Holds;
          in_meta_objs = empty_list-Holds;
        });
      }

  -- The thread changes the events only.
  thread-IsReopened :
      (s : Handle)
      → IsReopened u (mapped pool o w) o b logs s
      → IsReopened u (mapped pool o w) o b logs (with_thread o s)
  unfolding is_object in_meta pmb_ntotal object_size
  thread-IsReopened s e = record {
    pool = e.pool;
    counts = e.counts;
    slots = e.slots;
    empty = e.empty;
    cleared = e.cleared;
    outside = e.outside;
    sorted = record {
      in_free = e.sorted.in_free;
      in_meta_free = e.sorted.in_meta_free;
      in_objs = e.sorted.in_objs;
      in_meta_objs = e.sorted.in_meta_objs;
    };
  }

  -- `pmb_open` with 1 to 254 log entries, of a pool that `backend_open` finds and lays out with
  -- that many slots, each at least as long as a slot's header, whose blocks have room for their
  -- objects and whose ids a list can hold: the slots but for slot 0 are empty or hold known
  -- operations within their bounds, without an update in place and on blocks other than
  -- `data_nlba`. Given a checksum that reads its range only, and more fuel than the slots and the
  -- longest log, `pmb_open` ends without an error. The mapping of the pool changes no byte outside
  -- the structure at its start. After it: every slot is free, and but for slot 0 is empty; of each
  -- slot that was commited with a right checksum the replaced and removed blocks are cleared, and
  -- of each other slot that was not empty the new blocks. Cleared means of a block that its
  -- checksum is 0 and, unless it was 0 before, so is every byte that the block's header and its two
  -- lengths counted. Beyond these blocks and the slots no byte has changed. Each id but 0
  -- (`data_nlba` counts for the metadata region) is in exactly one list of its region, the one for
  -- objects if there is now an object with a right checksum at its address, and the free list if
  -- not.
  pub pmb_open-IsReopened :
      (fuel longest : ℕ) (junk : ℕ → ℕ → TxMeta)
      → ((j : ℕ) → length (logs j) ≤ longest)
      → b.tx_slots_count + longest + 2 ≤ fuel
      → (s : Handle) × (pmb_open u fuel junk pool w o ≡ ok (some s, 0))
        × SameBeyondStructs pool (params o) w (mapped pool o w)
        × IsReopened u (mapped pool o w) o b logs s
  unfolding pmb_open
  pmb_open-IsReopened fuel longest junk short enough =
      let (l, s1, started, free, e) = start-slots fuel longest junk short enough in
      let some_entries : (o.write_log_entries == 0) ≡ false = ground (arith, r.entries) in
      (
        with_thread o (recovery u (with_lists s1)),
        rw (some_entries, r.there, started, ◌>>=◌) refl,
        backend_open-SameBeyondStructs pool (params o) w,
        thread-IsReopened (recovery u (with_lists s1)) (ready-IsReopened l s1 free e),
      )
