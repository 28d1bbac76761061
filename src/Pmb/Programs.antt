-- ===== src/Pmb/Programs.antt =====
-- example/pool_list.c and example/pool_inspect.c: the programs from the options on that their arguments give.
use pmbackend.Base.{
  ℕ, ◌+◌, ◌≤◌, ◌<◌, ◌≡◌, refl, ap, false, Option, some, none, List, length, ◌==◌, if◌then◌else◌,
  arith,
}
use pmbackend.Mem.{World}
use pmbackend.Backend.{Backend, backend_get}
use pmbackend.Backend.Map.{Pool}
use pmbackend.Kv.{Handle, TxMeta, Run, ok, fault, out_of_fuel, ◌>>=◌, pmb_ok, Util, mem_of}
use pmbackend.TxLog.Log.{Operation}
use pmbackend.Pmb.Pair.{PmbPair}
use pmbackend.Backend.Struct.{SameBeyondStructs}
use pmbackend.Pmb.Open.{params, PmbOpts, pmb_open}
use pmbackend.Pmb.Reopened.{mapped, Reopening, IsReopened, pmb_open-IsReopened}
use pmbackend.Caslist.Many.{elem}
use pmbackend.Caslist.Counted.{caslist_size-bound}
use pmbackend.Pmb.Listing.{ids_of, Increasing, AllStored, list_objects, list_objects-Listed}
use pmbackend.Pmb.Found.{stored_ids, get-is_object}
use pmbackend.Pmb.Close.{Release, pmb_close, pmb_close-ok}
use pmbackend.Pmb.Inspect.{Line, pmb_inspect}

-- The options that both programs set; the other fields are those of a local variable that is not set.
abbrev pub set_opts : (unset : PmbOpts) → (key_len val_len data_size : ℕ) → PmbOpts
set_opts unset key_len val_len data_size = record unset {
  max_key_len = key_len;
  max_val_len = val_len;
  write_log_entries = 32;
  data_size = data_size;
}

-- The handle of `pmb_open`, or `none` where the program leaves by `exit(1)`.
unfoldable pub opened : Option Handle × ℕ → Run (Option Handle)
opened (h, error) =
    if error == pmb_ok then elim h [ some s ↦ ok (some s) | none ↦ fault ] else ok none

-- The pairs that are printed and what `pmb_close` gives back. `p` is the pair as the local variable holds it.
unfoldable pub pool_list :
    Util
    → (fuel rounds : ℕ) → (junk : ℕ → ℕ → TxMeta) → Pool
    → World
    → (unset : PmbOpts) → (key_len val_len data_size : ℕ) → PmbPair
    → Run (Option (List PmbPair × List Release))
unfolding opened
pool_list u fuel rounds junk pool w unset key_len val_len data_size p = do
  result ← pmb_open u fuel junk pool w (set_opts unset key_len val_len data_size)
  h ← opened result
  elim h [
    | none ↦ ok none
    | some s ↦
        let (printed, s', ended) = list_objects rounds s false p in
        (do
          (rs, ret) ← pmb_close fuel (some s')
          if ended then ok (some (printed, rs)) else out_of_fuel)
  ]

-- The lines that are printed and what `pmb_close` gives back.
unfoldable pub pool_inspect :
    Util
    → (fuel : ℕ) → (junk : ℕ → ℕ → TxMeta) → Pool
    → World
    → (unset : PmbOpts) → (key_len val_len data_size blk_id : ℕ)
    → Run (Option (List Line × List Release))
unfolding opened
pool_inspect u fuel junk pool w unset key_len val_len data_size blk_id = do
  result ← pmb_open u fuel junk pool w (set_opts unset key_len val_len data_size)
  h ← opened result
  elim h [
    | none ↦ ok none
    | some s ↦ (do (rs, ret) ← pmb_close fuel (some s); ok (some (pmb_inspect s blk_id, rs)))
  ]

all_stored : (u : Util) (s : Handle) → AllStored s (stored_ids u s false)
all_stored u s x i p =
    get-is_object u s x p (backend_get (some s.backend) (mem_of s) x) refl (ground (arith, i))

closes :
    (fuel : ℕ) (s : Handle)
    → s.op_log.tx_slots_count < 256
    → s.op_log.tx_slots_count < fuel
    → (rs : List Release) × (pmb_close fuel (some s) ≡ ok (rs, pmb_ok))
closes fuel s b f = (_, pmb_close-ok fuel s b f)

-- On a pool that `pmb_open` opens with the program's options as `Reopening` says, with more fuel than the slots and the
-- longest log, and with more rounds than data blocks, `pool_list` ends. It prints just the ids of the data
-- region's blocks, but for block 0, that hold an object with a right checksum when the transactions are recovered as
-- `IsReopened` says after the mapping of the pool, which changes no byte outside the structure at its start, in
-- increasing order and each once.
pub pool_list-Increasing :
    (u : Util) (pool : Pool) (w : World) (unset : PmbOpts) (key_len val_len data_size : ℕ)
    (b : Backend) (logs : ℕ → List Operation) (fuel rounds longest : ℕ) (junk : ℕ → ℕ → TxMeta)
    (p : PmbPair)
    → Reopening u pool w (set_opts unset key_len val_len data_size) b logs
    → ((j : ℕ) → length (logs j) ≤ longest)
    → b.tx_slots_count + longest + 2 ≤ fuel
    → b.data_nlba < rounds
    → (s : Handle) × (printed : List PmbPair) × (rs : List Release) × IsReopened u
        (mapped pool (set_opts unset key_len val_len data_size) w)
        (set_opts unset key_len val_len data_size)
        b
        logs
        s
      × SameBeyondStructs pool
          (params (set_opts unset key_len val_len data_size))
          w
          (mapped pool (set_opts unset key_len val_len data_size) w)
      × (pool_list u fuel rounds junk pool w unset key_len val_len data_size p
          ≡ ok (some (printed, rs)))
      × Increasing 1 (ids_of printed)
      × ((x : ℕ) → elem x (ids_of printed) ≡ stored_ids u s false x)
unfolding pool_list opened
pool_list-Increasing u pool w unset key_len val_len data_size b logs fuel rounds longest junk p r
      short enough more =
    let o : PmbOpts = set_opts unset key_len val_len data_size in
    let (s, made, same, e) =
      pmb_open-IsReopened u pool w o b logs r fuel longest junk short enough in
    let few =
      caslist_size-bound (stored_ids u s false) s.objs_list s.total_objs_count e.sorted.in_objs
        (λ x i. ground (arith, i)) in
    let l =
      list_objects-Listed rounds s false p (stored_ids u s false) (all_stored u s) e.sorted.in_objs
        (omega (arith, few, e.counts.0, more)) in
    let slots = ap (λ (x : Handle). x.op_log.tx_slots_count) l.only in
    let (rs, closed) =
      closes fuel (list_objects rounds s false p).1 (omega (arith, slots, e.slots.count, r.entries))
        (omega (arith, slots, e.slots.count, r.count, enough)) in
    (
      s,
      (list_objects rounds s false p).0,
      rs,
      e,
      same,
      rw (made, ◌>>=◌, closed, l.finished) refl,
      l.increasing,
      l.complete,
    )
