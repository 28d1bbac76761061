-- ===== src/Tests/Metas.antt =====
-- A new metadata object, put into block 5 in the transaction of the second slot.
use pmbackend.Base.{◌≡◌, refl, arith, inr, some, [], ◌==◌, ◌&&◌, ◌||◌, not, if◌then◌else◌}
use pmbackend.Mem.{Mem, load, store}
use pmbackend.Backend.{backend_tx_direct, backend_direct, backend_memcpy}
use pmbackend.Caslist.{Caslist, caslist_pop, pop}
use pmbackend.Caslist.Ranges.{total, member, has}
use pmbackend.Caslist.Many.{Holds}
use pmbackend.Kv.{Handle, peek}
use pmbackend.TxLog.{slot_at, direct, in_progress, tx_slot_op_write}
use pmbackend.TxLog.Open.{InProgress}
use pmbackend.Pmb.Object.{get}
use pmbackend.Pmb.PutMeta.{tput_meta, bad_put_meta, put_meta_new, put_meta_block, write_meta_object}
use pmbackend.Pmb.Refused.{IsNewMetaPair}
use pmbackend.Pmb.NewMeta.{MetaRoom, IsMetaPut}
use pmbackend.Pmb.MetaRoundTrip.{IsMetaGot, tput_meta-IsMetaPut, tput_meta-get}
use pmbackend.Tests.Data.{bytes, handle, mark}
use pmbackend.Tests.Objects.{pair}

abbrev five_and_six : Caslist
five_and_six = record { size = 2; begin = 5; end = 6; next = [] }

-- The block holds the id 77 of an object that is gone.
abbrev meta_bytes : Mem
meta_bytes x = if x == 8200 then 1 else if x == 8208 then 24 else if x == 32776 then 77 else bytes x

abbrev with_meta : Handle
with_meta = record handle {
  world = record { mem = meta_bytes; events = []; page_size = 4096 };
  meta_free_list = some five_and_six;
}

with_meta-InProgress : InProgress with_meta 2 8192 []
unfolding slot_at backend_tx_direct load
with_meta-InProgress = record { place = refl; status = refl; log = refl }

with_meta-Holds : Holds (λ x. x == 5 || x == 6) with_meta.meta_free_list
unfolding member has total
with_meta-Holds = record {
  list = five_and_six;
  present = refl;
  valid = inr (record { chain = omega arith; size = refl });
  members = λ x. ground arith;
}

pair-IsNewMetaPair : IsNewMetaPair with_meta pair
pair-IsNewMetaPair = record {
  new = refl;
  lengths = omega arith;
  pointers = omega arith;
  fits = omega arith;
  words = omega arith;
}

with_meta-MetaRoom : MetaRoom with_meta 8192 32768 pair
unfolding load
with_meta-MetaRoom = record {
  slot_size = omega arith;
  slot_obj = omega arith;
  key_slot = omega arith;
  val_slot = omega arith;
  key_obj = omega arith;
  val_obj = omega arith;
}

first_meta_id : (caslist_pop with_meta.meta_free_list 0).1 ≡ 5
unfolding caslist_pop pop
first_meta_id = refl

meta_block : direct with_meta (caslist_pop with_meta.meta_free_list 0).1 ≡ some 32768
unfolding backend_direct
meta_block = rw first_meta_id refl

tput_meta-IsMetaPut_example :
    IsMetaPut with_meta 2 8192 [] pair
      (caslist_pop with_meta.meta_free_list 0).1
      32768
      (tput_meta mark with_meta 2 pair)
    × Holds
        (λ x. (x == 5 || x == 6) && not (x == (caslist_pop with_meta.meta_free_list 0).1))
        (tput_meta mark with_meta 2 pair).0.meta_free_list
tput_meta-IsMetaPut_example =
    tput_meta-IsMetaPut mark with_meta 2 8192 [] pair 32768 with_meta-InProgress pair-IsNewMetaPair
      with_meta-MetaRoom (λ x. x == 5 || x == 6) 6 (omega arith) (omega arith) with_meta-Holds refl
      (omega (arith, first_meta_id)) meta_block

checksum_of_meta : peek 8 (tput_meta mark with_meta 2 pair).0 32768 ≡ 1
unfolding tput_meta bad_put_meta put_meta_new put_meta_block write_meta_object tx_slot_op_write
    in_progress slot_at backend_tx_direct backend_direct caslist_pop pop backend_memcpy load store
checksum_of_meta = refl

tput_meta-get_example :
    IsMetaGot with_meta pair
      (caslist_pop with_meta.meta_free_list 0).1
      32768
      (tput_meta mark with_meta 2 pair).0
      (get (tput_meta mark with_meta 2 pair).0 (tput_meta mark with_meta 2 pair).1.blk_id pair)
tput_meta-get_example =
    tput_meta-get mark with_meta 2 8192 [] pair 32768 with_meta-InProgress pair-IsNewMetaPair
      with_meta-MetaRoom (λ x. x == 5 || x == 6) 6 pair (omega arith) (omega arith) with_meta-Holds
      refl (omega (arith, first_meta_id)) meta_block (omega (arith, first_meta_id))
      (omega (arith, checksum_of_meta))
