-- ===== src/Tests/Objects.antt =====
-- A new object, written and read.
use pmbackend.Base.{◌≡◌, refl, not, ◌&&◌, some, [], arith, ltb, leb, ◌==◌}
use pmbackend.Mem.{load, store}
use pmbackend.Backend.{backend_direct, backend_tx_direct, backend_memcpy}
use pmbackend.Caslist.Ranges.{IsRanges, total}
use pmbackend.Caslist.{Caslist, caslist_new, caslist_pop, pop}
use pmbackend.Caslist.Many.{Holds, interval-Holds}
use pmbackend.Kv.{pmb_err, Handle, peek}
use pmbackend.TxLog.{direct, slot_at, tx_slot_init, tx_slot_op_write, in_progress}
use pmbackend.TxLog.Open.{InProgress, InProgress-frame}
use pmbackend.Pmb.Pair.{PmbPair}
use pmbackend.Pmb.Object.{get}
use pmbackend.Pmb.Put.{bad_put, write_header, write_value, copy_old, put_block, put_new, tput}
use pmbackend.Pmb.NewObject.{IsNewPair, Room, IsPut}
use pmbackend.Pmb.PutMeta.{tput_meta}
use pmbackend.Pmb.Refused.{IsClosed, IsNewMetaPair, tput_closed, tput_meta_closed}
use pmbackend.Pmb.RoundTrip.{tput-IsPut, IsGot, tput-get}
use pmbackend.Tests.Data.{handle, mark}
use pmbackend.Tests.Logs.{opened, opened-InProgress, opened_size, in_range}

-- three free blocks
abbrev pub stocked : Handle
stocked = record opened { free_list = some (record { size = 3; begin = 1; end = 3; next = [] }) }

abbrev pub pair : PmbPair
pair = record {
  blk_id = 0;
  id = 9;
  offset = 0;
  key = 100000;
  key_len = 3;
  val = 200000;
  val_len = 5;
}

pub stocked-InProgress : InProgress stocked 2 8192 []
stocked-InProgress =
    InProgress-frame opened stocked 2 8192 [] refl (λ x p q. refl) opened-InProgress

pub stocked-Holds : Holds (λ x. ltb 0 x && leb x 3) stocked.free_list
unfolding caslist_new
stocked-Holds = interval-Holds 3 (omega arith) (omega arith)

pub opened_limits :
    (opened.max_key_len ≡ 16)
    × (opened.max_val_len ≡ 1024)
    × (opened.total_objs_count ≡ 4)
    × (opened.op_log.tx_slots_count ≡ 3)
unfolding tx_slot_init slot_at backend_tx_direct
opened_limits = (refl, refl, refl, refl)

pub opened_backend : opened.backend ≡ handle.backend
unfolding tx_slot_init slot_at backend_tx_direct
opened_backend = refl

pub pair-IsNewPair : IsNewPair stocked pair
pair-IsNewPair = record {
  new = refl;
  key_len = omega (arith, opened_limits);
  pointers = omega arith;
  val_len = omega (arith, opened_limits);
  words = omega (arith, opened_limits);
}

pub stocked-Room : Room stocked 8192 20480 pair
stocked-Room = record {
  slot_size = omega (arith, opened_size);
  slot_obj = omega (arith, opened_size, opened_limits);
  key_slot = omega (arith, opened_size);
  val_slot = omega (arith, opened_size);
  key_obj = omega (arith, opened_limits);
  val_obj = omega (arith, opened_limits);
}

pub first_id : (caslist_pop stocked.free_list 0).1 ≡ 1
unfolding caslist_pop pop
first_id = refl

at_block : direct stocked (caslist_pop stocked.free_list 0).1 ≡ some 20480
unfolding backend_direct
at_block = rw (first_id, opened_backend) refl

tput-IsPut_example :
    IsPut stocked 2 8192 [] pair
      (caslist_pop stocked.free_list 0).1
      20480
      (tput mark stocked 2 pair)
    × Holds
        (λ x. (ltb 0 x && leb x 3) && not (x == (caslist_pop stocked.free_list 0).1))
        (tput mark stocked 2 pair).0.free_list
tput-IsPut_example =
    tput-IsPut mark stocked 2 8192 [] pair 20480 stocked-InProgress pair-IsNewPair stocked-Room
      (λ x. ltb 0 x && leb x 3) 2 (omega arith) in_range stocked-Holds refl
      (omega (arith, first_id)) at_block

pub checksum_one : peek 8 (tput mark stocked 2 pair).0 20480 ≡ 1
unfolding tput bad_put put_new put_block write_header write_value copy_old tx_slot_op_write
    in_progress slot_at backend_tx_direct tx_slot_init backend_direct caslist_pop pop backend_memcpy
    load store
checksum_one = refl

tput-get_example :
    IsGot stocked pair
      (caslist_pop stocked.free_list 0).1
      (tput mark stocked 2 pair).0
      (get (tput mark stocked 2 pair).0 (tput mark stocked 2 pair).1.blk_id pair)
tput-get_example =
    tput-get mark stocked 2 8192 [] pair 20480 stocked-InProgress pair-IsNewPair stocked-Room
      (λ x. ltb 0 x && leb x 3) 2 pair (omega arith) in_range stocked-Holds refl
      (omega (arith, first_id)) at_block refl (omega (arith, first_id, opened_limits))
      (omega (arith, checksum_one))

abbrev two_left : Caslist
two_left = record { size = 2; begin = 5; end = 6; next = [] }

two_left-IsRanges : IsRanges two_left
unfolding total
two_left-IsRanges = record { chain = omega arith; size = refl }

-- A handle with free blocks in both regions, and no open transaction.
abbrev idle : Handle
idle = record handle {
  free_list = some (record { size = 3; begin = 1; end = 3; next = [] });
  meta_free_list = some two_left;
}

idle-IsClosed : IsClosed idle 1 4096
unfolding slot_at backend_tx_direct load
idle-IsClosed = record { place = refl; status = omega arith }

idle-IsNewPair : IsNewPair idle pair
idle-IsNewPair = record {
  new = refl;
  key_len = omega arith;
  pointers = omega arith;
  val_len = omega arith;
  words = omega arith;
}

idle-IsNewMetaPair : IsNewMetaPair idle pair
idle-IsNewMetaPair = record {
  new = refl;
  lengths = omega arith;
  pointers = omega arith;
  fits = omega arith;
  words = omega arith;
}

idle_code : (caslist_pop idle.free_list 0).0 ≡ 0
unfolding caslist_pop pop
idle_code = refl

idle_block : direct idle (caslist_pop idle.free_list 0).1 ≡ some 20480
unfolding caslist_pop pop backend_direct
idle_block = refl

idle_meta_block : direct idle (caslist_pop idle.meta_free_list 0).1 ≡ some 32768
unfolding caslist_pop pop backend_direct
idle_meta_block = refl

tput_closed_example :
    tput mark idle 1 pair
    ≡ (record idle { free_list = (caslist_pop idle.free_list 0).2 }, pair, pmb_err)
tput_closed_example =
    tput_closed mark idle 1 4096 pair 20480 idle-IsClosed (omega arith) (omega arith) idle-IsNewPair
      idle_code idle_block

tput_meta_closed_example : tput_meta mark idle 1 pair ≡ (idle, pair, pmb_err)
tput_meta_closed_example =
    tput_meta_closed mark idle 1 4096 pair 32768 two_left idle-IsClosed (omega arith) (omega arith)
      idle-IsNewMetaPair refl two_left-IsRanges idle_meta_block
