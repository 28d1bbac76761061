-- ===== src/Tests/Openings.antt =====
-- The opening of a pool whose slot 1 holds a commited transaction that writes block 2 and removes block 1, with
-- an object in block 3, and the making
-- of a pool.
use pmbackend.Base.{
  ℕ, ◌+◌, ◌≡◌, ◌∙◌, ◌≤◌, ◌<◌, refl, inl, inr, [], ◌∷◌, arith, ◌==◌, if◌then◌else◌, List, Bool-cases,
  some, none, true, false,
}
use pmbackend.Mem.{Mem, World, load}
use pmbackend.Mem.Zero.{load_of_zeros}
use pmbackend.Backend.{Backend}
use pmbackend.Backend.Map.{Pool, roundup, backend_open, backend_create, map_at, map_common, lay_out}
use pmbackend.Backend.Layout.{place-InRegion, IsLaidOut, place, block_len}
use pmbackend.Kv.{Handle, TxMeta, ok}
use pmbackend.TxLog.Log.{Operation, write, remove}
use pmbackend.TxLog.Dropped.{BlocksFit}
use pmbackend.TxLog.Sweep.{Known-frame, slot_of, Known}
use pmbackend.Pmb.Open.{params, PmbOpts, pmb_open}
use pmbackend.Backend.Struct.{SameBeyondStructs, backend_open-SameBeyondStructs}
use pmbackend.Pmb.Reopened.{mapped, Reopening, IsReopened, pmb_open-IsReopened}
use pmbackend.Pmb.Created.{Creating, IsCreated, pmb_open-IsCreated}
use pmbackend.Pmb.Pair.{PmbPair}
use pmbackend.Pmb.Listing.{ids_of, Increasing}
use pmbackend.Pmb.Found.{stored_ids}
use pmbackend.Pmb.Close.{Release}
use pmbackend.Pmb.Programs.{pool_list, pool_list-Increasing}
use pmbackend.Caslist.Many.{elem}
use pmbackend.Tests.Data.{mark, pool, no_meta}
use pmbackend.Tests.Sweeps.{mark-ReadsRange}

-- 32 slots that share 128 MiB, four data blocks and three metadata blocks
abbrev opts : PmbOpts
opts = record {
  data_size = 134238208;
  meta_size = 12288;
  write_log_entries = 32;
  max_key_len = 16;
  max_val_len = 1024;
  meta_max_key_len = 16;
  meta_max_val_len = 1024;
  sync_type = 0;
}

abbrev big : Backend
big = record pool {
  size = 134250496;
  tx_slots_count = 32;
  tx_slot_size = 4194304;
  data_area = 134221824;
  meta = 134238208;
}

abbrev stored : Pool
stored = record {
  pool_open =
      some
        (record { addr = 0; stored = big; hdr_size = 64; is_pmem = true; functions = λ pmem k. 0 });
  pool_create = λ n. none;
}

abbrev written : Mem
written x =
    if x == 4198400
    then 1
    else if x == 4198408
    then 2
    else if x == 4198416
    then 72
    else if x == 4198432
    then 2
    else if x == 4198448
    then 3
    else if x == 4198456
    then 1
    else if x == 134225920
    then 1
    else if x == 134234112
    then 1
    else 0

abbrev world : World
world = record { mem = written; events = []; page_size = 4096 }

abbrev logs : ℕ → List Operation
logs j = if j == 1 then write 2 ∷ remove 1 ∷ [] else []

big-IsLaidOut : IsLaidOut big
big-IsLaidOut = record {
  bsize = omega arith;
  meta_bsize = omega arith;
  slots = omega arith;
  blocks = refl;
  meta_blocks = omega arith;
}

-- Beyond the structure at the start of the pool, the memory is as it was.
mapped_same : (x : ℕ) → 4096 ≤ x → (mapped stored opts world).mem x ≡ written x
mapped_same x p =
    backend_open-SameBeyondStructs stored (params opts) world x (inr (omega arith), tt)

big-BlocksFit : BlocksFit big (mapped stored opts world).mem
unfolding place block_len
big-BlocksFit id i =
    let low = (place-InRegion big big-IsLaidOut id i).low in
    let zeros : (n : ℕ)
        → (20 ≤ n)
        → (n ≤ 24)
        → load 4 (mapped stored opts world).mem (place big id + n) ≡ 0 =
      λ n p q.
        load_of_zeros 4 (mapped stored opts world).mem (place big id + n)
          (λ x j k. mapped_same x (omega (arith, low)) ∙ ground (arith, i)) in
    ground (arith, i, zeros 20, zeros 24)

written-Known : (j : ℕ) → 1 ≤ j → j < 32 → Known big written (slot_of big j) (logs j)
unfolding load
written-Known j p q = elim (Bool-cases (j == 1)) [
  | inl first ↦
      let e : j ≡ 1 = ground (arith, first) in
      rw e (
        inr (record {
          status = omega arith;
          log = ((refl, refl), ((refl, refl), refl));
          bounds = omega arith;
          plain = tt;
          old_ids = ((inl (omega arith), omega arith, omega arith), tt);
          new_ids = ((inl (omega arith), omega arith, omega arith), tt);
        }))
  | inr other ↦
      inl (load_of_zeros 4 written (slot_of big j + 8) (λ x a c. ground (arith, p, q, other)))
]

stored-Reopening : Reopening mark stored world opts big logs
unfolding backend_open map_at map_common lay_out roundup
stored-Reopening = record {
  there = refl;
  entries = (omega arith, omega arith);
  count = refl;
  laid_out = big-IsLaidOut;
  slot_size = omega arith;
  blocks = (omega arith, omega arith);
  fits = big-BlocksFit;
  known = λ j p q.
      Known-frame big written (mapped stored opts world).mem (slot_of big j) (logs j) (omega arith)
        (λ x low high. mapped_same x (omega arith)) (written-Known j p q);
  reads = mark-ReadsRange;
}

abbrev junk : ℕ → ℕ → TxMeta
junk i j = no_meta

pmb_open-IsReopened_example :
    (s : Handle) × (pmb_open mark 40 junk stored world opts ≡ ok (some s, 0))
    × SameBeyondStructs stored (params opts) world (mapped stored opts world)
    × IsReopened mark (mapped stored opts world) opts big logs s
pmb_open-IsReopened_example =
    pmb_open-IsReopened mark stored world opts big logs stored-Reopening 40 2 junk
      (λ j. ground arith) (omega arith)

abbrev absent : Pool
absent = record {
  pool_open = none;
  pool_create = λ n.
      some (record {
        addr = 0;
        stored = pool;
        hdr_size = 64;
        is_pmem = true;
        functions = λ pmem k. 0;
      });
}

absent-Creating : Creating absent world opts big
unfolding backend_open backend_create map_at map_common lay_out roundup
absent-Creating = record {
  refused = refl;
  made = refl;
  entries = (omega arith, omega arith);
  blocks = (omega arith, omega arith, omega arith);
}

pmb_open-IsCreated_example :
    (s : Handle) × (pmb_open mark 33 junk absent world opts ≡ ok (some s, 0))
    × IsCreated absent world opts big s
pmb_open-IsCreated_example =
    pmb_open-IsCreated mark 33 junk absent world opts big absent-Creating (omega arith)

abbrev pair : PmbPair
pair = record { blk_id = 0; id = 0; offset = 0; key = 0; key_len = 0; val = 0; val_len = 0 }

pool_list-Increasing_example :
    (s : Handle) × (printed : List PmbPair) × (rs : List Release) × IsReopened mark
      (mapped stored opts world)
      opts
      big
      logs
      s
    × SameBeyondStructs stored (params opts) world (mapped stored opts world)
    × (pool_list mark 40 5 junk stored world opts 16 1024 134238208 pair ≡ ok (some (printed, rs)))
    × Increasing 1 (ids_of printed)
    × ((x : ℕ) → elem x (ids_of printed) ≡ stored_ids mark s false x)
pool_list-Increasing_example =
    pool_list-Increasing mark stored world opts 16 1024 134238208 big logs 40 5 2 junk pair
      stored-Reopening (λ j. ground arith) (omega arith) (omega arith)
