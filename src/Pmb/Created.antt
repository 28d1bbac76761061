-- ===== src/Pmb/Created.antt =====
-- pmbackend.c: `pmb_open` of a pool that was not there.
use pmbackend.Base.{
  ℕ, zero, suc, ◌+◌, ◌≤◌, ◌<◌, ◌≡◌, ◌∙◌, refl, ap, Bool, true, false, not, ◌&&◌, ◌||◌, ltb, leb,
  ◌==◌, arith, some, none, pred64,
}
use pmbackend.Mem.{World}
use pmbackend.Caslist.Ranges.{limit}
use pmbackend.Backend.{Backend, backend_nblock}
use pmbackend.Backend.Map.{Pool, backend_open, backend_create}
use pmbackend.Kv.{Handle, TxMeta, ok, ◌>>=◌, Util}
use pmbackend.Kv.Lists.{FreeLists}
use pmbackend.TxLog.Init.{AllFree, tx_log_init-log}
use pmbackend.Pmb.Recovery.{push_free, populate, populate_free_list}
use pmbackend.Pmb.Fresh.{with_intervals, start_empty-FreeLists}
use pmbackend.Backend.Struct.{
  SameBeyondStructs, backend_open-SameBeyondStructs, backend_create-SameBeyondStructs,
}
use pmbackend.Pmb.Reopened.{mapped}
use pmbackend.Pmb.Open.{with_thread, PmbOpts, params, new_handle, start_empty, start, pmb_open}

-- Of the handle, `populate` changes the free lists only.
abbrev FreeOnly : Handle → Handle → Type 0
FreeOnly s s' = s' ≡ record s { free_list = s'.free_list; meta_free_list = s'.meta_free_list }

push_first :
    (n : ℕ) (s : Handle) (meta : Bool)
    → ((s' : Handle) → FreeOnly s' (populate n s'))
    → FreeOnly s (populate n (push_free meta (suc n) s))
push_first n s true rest = rest (push_free true (suc n) s)
push_first n s false rest = rest (push_free false (suc n) s)

populate-FreeOnly : (n : ℕ) (s : Handle) → FreeOnly s (populate n s)
unfolding populate
populate-FreeOnly zero s = refl
populate-FreeOnly (suc n) s =
    push_first n s (not (leb (suc n) (pred64 s.total_objs_count))) (populate-FreeOnly n)

start_empty-lists :
    (s : Handle)
    → start_empty s ≡ record s {
      free_list = (start_empty s).free_list;
      meta_free_list = (start_empty s).meta_free_list;
      objs_list = none;
      meta_objs_list = none;
    }
unfolding start_empty populate_free_list
start_empty-lists s =
    populate-FreeOnly (pred64 (s.total_objs_count + s.meta_objs_count)) (with_intervals s)

-- A pool that `backend_open` refuses and `backend_create` makes.
pub record Creating (pool : Pool) (w : World) (o : PmbOpts) (b : Backend) : Type 0 where
  pub refused : (backend_open pool (params o) w).0 ≡ none
  pub made : (backend_create pool (params o) (mapped pool o w)).0 ≡ some b
  pub entries : (0 < o.write_log_entries) × (o.write_log_entries < 255)
  pub blocks : (0 < b.data_nlba) × (0 < b.meta_nlba) × (b.data_nlba + b.meta_nlba ≤ limit)

-- The new handle: every slot is free, the free lists are those of a new pool, there are no lists of objects, and of the
-- memory only the structures at the start of the mappings have changed.
pub record IsCreated (pool : Pool) (w : World) (o : PmbOpts) (b : Backend) (s : Handle)
    : Type 0 where
  pub backend : s.backend ≡ b
  pub counts : (s.total_objs_count ≡ b.data_nlba) × (s.meta_objs_count ≡ b.meta_nlba)
  pub slots : AllFree s.op_log o.write_log_entries
  pub free :
      FreeLists s
        (λ x. ltb 0 x && leb x b.data_nlba)
        (λ x.
          (ltb 0 x && leb x b.meta_nlba)
          || (leb b.data_nlba x && ltb x (b.data_nlba + b.meta_nlba)))
  pub objects : (s.objs_list ≡ none) × (s.meta_objs_list ≡ none)
  pub memory : SameBeyondStructs pool (params o) w s.world

-- `pmb_open` with 1 to 254 log entries and more fuel than entries, of a pool that `backend_open` refuses and
-- `backend_create` makes, with at least block 0 for data and a block for metadata and ids that a list can
-- hold, ends without an error. In the handle every slot is free; the data region's free list holds the ids 1 to
-- `total_objs_count`, and the metadata region's list its own ids and the ids 1 to `meta_objs_count` besides; there are no lists of
-- objects. Of the memory only bytes of the structure `_backend` change, at the start of the pool that is
-- made and of one that is found and refused.
pub pmb_open-IsCreated :
    (u : Util) (fuel : ℕ) (junk : ℕ → ℕ → TxMeta) (pool : Pool) (w : World) (o : PmbOpts)
    (b : Backend)
    → Creating pool w o b
    → o.write_log_entries < fuel
    → (s : Handle) × (pmb_open u fuel junk pool w o ≡ ok (some s, 0)) × IsCreated pool w o b s
unfolding pmb_open start backend_nblock
pmb_open-IsCreated u fuel junk pool w o b c enough =
    let w2 = (backend_create pool (params o) (mapped pool o w)).1 in
    let (l, made, free) =
      tx_log_init-log fuel junk (new_handle o b w2) o.write_log_entries c.entries.0 c.entries.1
        enough in
    let s : Handle = record (new_handle o b w2) {
      op_log = l;
      total_objs_count = b.data_nlba;
      meta_objs_count = b.meta_nlba;
    } in
    let kept = start_empty-lists s in
    let lists = start_empty-FreeLists s (c.blocks.0, c.blocks.2) c.blocks.1 in
    let some_entries : (o.write_log_entries == 0) ≡ false = ground (arith, c.entries) in
    (
      with_thread o (start_empty s),
      rw (some_entries, c.refused, c.made, made, ◌>>=◌) refl,
      record {
        backend = ap (λ (x : Handle). x.backend) kept;
        counts = (
          ap (λ (x : Handle). x.total_objs_count) kept,
          ap (λ (x : Handle). x.meta_objs_count) kept,
        );
        slots = rw (ap (λ (x : Handle). x.op_log) kept) free;
        free = record { data_side = lists.data_side; meta_side = lists.meta_side };
        objects =
            (ap (λ (x : Handle). x.objs_list) kept, ap (λ (x : Handle). x.meta_objs_list) kept);
        memory = λ x h.
            ap (λ (y : Handle). y.world.mem x) kept
            ∙ backend_create-SameBeyondStructs pool (params o) (mapped pool o w) x h
            ∙ backend_open-SameBeyondStructs pool (params o) w x h;
      },
    )
