-- ===== src/Pmb/Open.antt =====
-- pmbackend.c: `pmb_open`. `pool` is what NVML finds and makes at the path, `w` the memory that it maps.
use pmbackend.Base.{
  [], ◌∷◌, ◌++◌, ℕ, ◌*◌, ◌/◌, Bool, true, false, Option, none, some, ◌==◌, if◌then◌else◌,
}
use pmbackend.Mem.{World, sync_thread_created}
use pmbackend.Backend.{Backend, backend_nblock}
use pmbackend.Backend.Map.{Params, Pool, backend_open, backend_create}
use pmbackend.Caslist.{caslist_new}
use pmbackend.Kv.{pmb_ecreat, pmb_thsync, TxMeta, Handle, Run, ok, fault, ◌>>=◌, Util}
use pmbackend.TxLog.{tx_log_init}
use pmbackend.TxLog.Check.{tx_log_check}
use pmbackend.Pmb.Recovery.{recovery, populate_free_list}

-- pmb_opts; the path is in `Pool`
pub record PmbOpts : Type 0 where
  pub data_size : ℕ
  pub meta_size : ℕ
  pub write_log_entries : ℕ
  pub max_key_len : ℕ
  pub max_val_len : ℕ
  pub meta_max_key_len : ℕ
  pub meta_max_val_len : ℕ
  pub sync_type : ℕ

abbrev pub tx_log_size : ℕ
tx_log_size = 128 * 1024 * 1024

abbrev pub params : PmbOpts → Params
params o = record {
  data_size = o.data_size;
  meta_size = o.meta_size;
  tx_slots = o.write_log_entries;
  tx_slot_size = tx_log_size / o.write_log_entries;
  max_key_len = o.max_key_len;
  max_val_len = o.max_val_len;
  meta_max_key_len = o.meta_max_key_len;
  meta_max_val_len = o.meta_max_val_len;
  sync_type = o.sync_type;
}

-- The handle when `tx_log_init` is called: the lists and the counts are not yet set.
abbrev pub new_handle : PmbOpts → Backend → World → Handle
new_handle o b w = record {
  backend = b;
  total_objs_count = 0;
  meta_objs_count = 0;
  max_key_len = o.max_key_len;
  max_val_len = o.max_val_len;
  meta_max_key_len = o.meta_max_key_len;
  meta_max_val_len = o.meta_max_val_len;
  objs_list = none;
  free_list = none;
  meta_objs_list = none;
  meta_free_list = none;
  op_log = record {
    tx_slots_count = 0;
    tx_slot_capacity = 0;
    tx_slots_list = none;
    upd_id_list =
        λ j. record { count = 0; list = λ i. record { id = 0; version = 0; val_len = 0 } };
  };
  world = w;
}

-- A new pool: the free lists begin as intervals and are then filled.
unfoldable pub start_empty : Handle → Handle
unfolding populate_free_list
start_empty s = populate_free_list (record s {
  free_list = caslist_new true 1 s.total_objs_count;
  meta_free_list = caslist_new true 1 s.meta_objs_count;
  objs_list = none;
  meta_objs_list = none;
})

-- A pool that was there: the transactions are recovered, and then the blocks.
unfoldable pub start_recovered : Util → (fuel : ℕ) → Handle → Run Handle
unfolding tx_log_check recovery
start_recovered u fuel s = do
  s' ← tx_log_check u fuel 1 s
  ok (
      recovery u (record s' {
        free_list = caslist_new true 0 0;
        meta_free_list = caslist_new true 0 0;
        objs_list = caslist_new true 0 0;
        meta_objs_list = caslist_new true 0 0;
      }))

unfoldable pub start :
    Util
    → (fuel : ℕ) → (junk : ℕ → ℕ → TxMeta) → PmbOpts
    → World
    → (empty : Bool) → Backend
    → Run Handle
unfolding tx_log_init start_empty start_recovered
start u fuel junk o w empty b = do
  s ← tx_log_init fuel junk (new_handle o b w) o.write_log_entries
  let s' = record s {
    total_objs_count = backend_nblock (some b) false;
    meta_objs_count = backend_nblock (some b) true;
  }
  if empty then ok (start_empty s') else start_recovered u fuel s'

-- `pthread_create`, when the options ask for a thread.
abbrev pub with_thread : PmbOpts → Handle → Handle
with_thread o s = record s {
  world = record s.world {
    events =
        if o.sync_type == pmb_thsync
        then s.world.events ++ sync_thread_created ∷ []
        else s.world.events;
  };
}

-- The handle or `NULL`, and `*error`. The test for 0 entries stands for the trap of the division.
unfoldable pub pmb_open :
    Util → (fuel : ℕ) → (junk : ℕ → ℕ → TxMeta) → Pool → World → PmbOpts → Run (Option Handle × ℕ)
unfolding start
pmb_open u fuel junk pool w o =
    let (there, w1) = backend_open pool (params o) w in
    let (made, w2) = backend_create pool (params o) w1 in
    if o.write_log_entries == 0 then fault else elim there [
      | some b ↦ (do s ← start u fuel junk o w1 false b; ok (some (with_thread o s), 0))
      | none ↦ elim made [
        | some b ↦ (do s ← start u fuel junk o w2 true b; ok (some (with_thread o s), 0))
        | none ↦ ok (none, pmb_ecreat)
      ]
    ]
