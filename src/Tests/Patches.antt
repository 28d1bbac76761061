-- ===== src/Tests/Patches.antt =====
-- A commited transaction of two updates in place of block 1, in the second slot.
use pmbackend.Base.{◌≡◌, refl, arith, inl, [], ◌∷◌, ◌==◌, if◌then◌else◌, List, ◌%◌, pred64}
use pmbackend.Mem.{Mem, load}
use pmbackend.Backend.{backend_tx_direct}
use pmbackend.Backend.Layout.{place, block_len}
use pmbackend.Kv.{Handle, ok, pmb_ok}
use pmbackend.TxLog.{slot_at}
use pmbackend.TxLog.Process.{tx_slot_execute}
use pmbackend.TxLog.Meta.{tx_slot_meta_upd_process}
use pmbackend.TxLog.InPlace.Lost.{add_each, IsJunk, upd_process_lost}
use pmbackend.TxLog.InPlace.{Patch, updates, longest}
use pmbackend.TxLog.InPlace.Applied.{IsPatching, Applied, tx_slot_execute-Applied}
use pmbackend.Pmb.Pair.{PmbPair}
use pmbackend.Pmb.Patching.{Patching}
use pmbackend.Tests.Data.{pool, pool-IsLaidOut, bytes, handle, mark}

-- The slot's header, and two entries with three and two bytes; block 1 has a value of four bytes.
abbrev patching_bytes : Mem
patching_bytes x =
    if x == 8200
    then 2
    else if x == 8208
    then 77
    else if x == 8216
    then 2
    else if x == 8224
    then 1
    else if x == 8232
    then 5
    else if x == 8236
    then 3
    else if x == 8240
    then 11
    else if x == 8243
    then 2
    else if x == 8251
    then 1
    else if x == 8263
    then 2
    else if x == 8267
    then 22
    else if x == 20504
    then 4
    else bytes x

abbrev patching : Handle
patching = record handle { world = record { mem = patching_bytes; events = []; page_size = 4096 } }

abbrev two_patches : List Patch
two_patches =
    record { id = 1; offset = 5; payload = 11 ∷ 0 ∷ 0 ∷ [] }
    ∷ record { id = 1; offset = 0; payload = 22 ∷ 0 ∷ [] }
    ∷ []

both_of_block_1 : updates 1 two_patches ≡ 2
both_of_block_1 = refl

longest_of_block_1 : longest 1 two_patches 4 ≡ 8
longest_of_block_1 = refl

patching-IsPatching : IsPatching pool patching 2 8192 two_patches
unfolding slot_at backend_tx_direct load place block_len
patching-IsPatching = record {
  pool = refl;
  place_eq = refl;
  status = refl;
  log = ((refl, refl, refl, refl), ((refl, refl, refl, refl), refl));
  front = omega arith;
  patches = (
    record {
      block = (inl (omega arith), omega arith);
      words = (omega arith, omega arith);
      fits = omega arith;
      len_word = omega arith;
    },
    (
      record {
        block = (inl (omega arith), omega arith);
        words = (omega arith, omega arith);
        fits = omega arith;
        len_word = omega arith;
      },
      tt,
    ),
  );
  room = omega arith;
  idle = record { count = refl; entries = tt; used = tt; unused = λ j p q. refl };
}

tx_slot_execute-Applied_example :
    (s' : Handle) × (tx_slot_execute mark patching 2 ≡ ok (s', pmb_ok))
    × Applied pool (pred64 2 % 256) 8192 two_patches patching s'
tx_slot_execute-Applied_example =
    tx_slot_execute-Applied mark pool pool-IsLaidOut patching 2 8192 two_patches patching-IsPatching

-- The second slot's transaction is open, and block 1 has a value of four bytes.
abbrev short_bytes : Mem
short_bytes x = if x == 8200 then 1 else if x == 8208 then 24 else if x == 20504 then 4 else bytes x

abbrev patched_handle : Handle
patched_handle = record handle {
  world = record { mem = short_bytes; events = []; page_size = 4096 };
}

abbrev short_pair : PmbPair
short_pair = record {
  blk_id = 1;
  id = 9;
  offset = 2;
  key = 100000;
  key_len = 3;
  val = 200000;
  val_len = 7;
}

-- The list of the second slot as `malloc` may leave it.
abbrev left_over : Handle
left_over = record handle {
  op_log = record handle.op_log {
    upd_id_list =
        λ j. record { count = 0; list = λ k. record { id = 77; version = 3; val_len = 5 } };
  };
}

left_over-IsJunk : IsJunk left_over 1
left_over-IsJunk = record { count = refl; id = omega arith }

upd_process_lost_example :
    (s' : Handle) × (add_each 1 ((2, 8) ∷ (1, 4) ∷ []) left_over ≡ ok s')
    × (tx_slot_meta_upd_process mark s' 1 ≡ ok s')
    × (s'.world ≡ left_over.world)
upd_process_lost_example = upd_process_lost mark 1 ((2, 8) ∷ (1, 4) ∷ []) left_over left_over-IsJunk
