-- ===== src/Tests/Pools.antt =====
-- The layout of a pool.
use pmbackend.Base.{◌+◌, ◌*◌, ◌≤◌, ◌≡◌, refl, inl, inr, true, false, some, [], arith}
use pmbackend.Mem.{World}
use pmbackend.Mem.Frame.{Apart}
use pmbackend.Backend.{Backend, backend_direct, backend_tx_direct}
use pmbackend.Backend.Map.{Params, Mapping, map_common, roundup}
use pmbackend.Backend.Layout.{
  IsLaidOut, InRegion, place, block_len, direct-place, direct-Apart, direct_overlap,
}
use pmbackend.Backend.Mapped.{Fits, map_common-IsLaidOut, map_common_reopen}
use pmbackend.Tests.Data.{pool, pool-IsLaidOut}

abbrev sizes : Params
sizes = record {
  data_size = 32768;
  meta_size = 12288;
  tx_slots = 3;
  tx_slot_size = 4000;
  max_key_len = 16;
  max_val_len = 1024;
  meta_max_key_len = 16;
  meta_max_val_len = 1024;
  sync_type = 0;
}

abbrev mapping : Mapping
mapping = record { addr = 0; stored = pool; hdr_size = 64; is_pmem = true; functions = λ pmem k. 0 }

abbrev memory : World
memory = record { mem = λ x. 0; events = []; page_size = 4096 }

sizes-Fits : Fits mapping sizes 1100 1100
unfolding roundup
sizes-Fits = record {
  slots = omega arith;
  slot_size = omega arith;
  bsizes = omega arith;
  meta_bsizes = omega arith;
  room = omega arith;
  top = omega arith;
}

direct-place_example :
    (backend_direct (some pool) 5 ≡ some (place pool 5)) × InRegion pool 5 (place pool 5)
direct-place_example = direct-place pool pool-IsLaidOut 5 (inr (omega arith))

direct_two : backend_direct (some pool) 2 ≡ some 24576
unfolding backend_direct
direct_two = refl

direct_five : backend_direct (some pool) 5 ≡ some 32768
unfolding backend_direct
direct_five = refl

direct-Apart_example : Apart 24576 (block_len pool 2) 32768 (block_len pool 5)
direct-Apart_example =
    direct-Apart pool pool-IsLaidOut 2 5 24576 32768 (inl (omega arith)) (inr (omega arith))
      (omega arith) direct_two direct_five

direct_overlap_example : backend_direct (some pool) 4 ≡ some 28672
direct_overlap_example = direct_overlap pool pool-IsLaidOut (omega arith) (omega arith)

slot_zero : backend_tx_direct (some pool) 0 ≡ some 4096
unfolding backend_tx_direct
slot_zero = refl

slot_two : backend_tx_direct (some pool) 2 ≡ some 12288
unfolding backend_tx_direct
slot_two = refl

map_common-IsLaidOut_example :
    (b : Backend) × ((map_common mapping sizes 1100 1100 true memory).0 ≡ some b)
    × IsLaidOut b
    × (b.meta + b.meta_nlba * b.meta_bsize ≤ 0 + 32768 + 12288)
map_common-IsLaidOut_example = map_common-IsLaidOut mapping sizes 1100 1100 memory sizes-Fits

map_common_reopen_example :
    (b : Backend) × ((map_common mapping sizes 1100 1100 true memory).0 ≡ some b)
    × ((map_common (record mapping { stored = b }) sizes 1100 1100 false memory).0 ≡ some b)
map_common_reopen_example = map_common_reopen mapping sizes 1100 1100 memory sizes-Fits
