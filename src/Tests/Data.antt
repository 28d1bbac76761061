-- ===== src/Tests/Data.antt =====
-- A small pool and the values that the examples share.
use pmbackend.Base.{◌≡◌, ◌∙◌, refl, true, false, some, [], ◌∷◌, arith, ◌==◌, if◌then◌else◌, inl}
use pmbackend.Mem.{Mem, load, store}
use pmbackend.Mem.Frame.{load-agree, load-store_self, store-outside}
use pmbackend.Backend.{Backend}
use pmbackend.Backend.Layout.{IsLaidOut}
use pmbackend.Caslist.{Caslist, link}
use pmbackend.Caslist.Ranges.{IsEmpty, IsRanges, total, member}
use pmbackend.Caslist.Many.{Holds}
use pmbackend.Kv.{Handle, TxMeta, Util}

-- the ids 1, 2 and 5
abbrev pub few : Caslist
few = record { size = 3; begin = 1; end = 2; next = link 5 5 ∷ [] }

pub few-IsRanges : IsRanges few
unfolding total
few-IsRanges = record { chain = omega arith; size = refl }

abbrev pub none_left : Caslist
none_left = record { size = 0; begin = 0; end = 0; next = [] }

pub none_left-IsEmpty : IsEmpty none_left
none_left-IsEmpty = record { begin = refl; end = refl; next = refl; size = refl }

pub none_left-Holds : Holds (λ x. false) (some none_left)
unfolding member
none_left-Holds = record {
  list = none_left;
  present = refl;
  valid = inl none_left-IsEmpty;
  members = λ x. refl;
}

-- three slots, four data blocks and three metadata blocks
abbrev pub pool : Backend
pool = record {
  bsize = 4096;
  meta_bsize = 4096;
  size = 45056;
  is_pmem = true;
  datasize = 16384;
  metasize = 12288;
  data_nlba = 4;
  meta_nlba = 3;
  max_key_len = 16;
  max_val_len = 1024;
  meta_max_key_len = 16;
  meta_max_val_len = 1024;
  tx_slots_count = 3;
  tx_slot_size = 4096;
  sync_type = 0;
  addr = 0;
  tx_log = 4096;
  data_area = 16384;
  meta = 32768;
}

pub pool-IsLaidOut : IsLaidOut pool
pool-IsLaidOut = record {
  bsize = omega arith;
  meta_bsize = omega arith;
  slots = omega arith;
  blocks = refl;
  meta_blocks = omega arith;
}

abbrev pub no_meta : TxMeta
no_meta = record { id = 0; version = 0; val_len = 0 }

-- block 1 holds something, all else is zero
abbrev pub bytes : Mem
bytes x = if x == 20480 then 1 else 0

abbrev pub handle : Handle
handle = record {
  backend = pool;
  total_objs_count = 4;
  meta_objs_count = 3;
  max_key_len = 16;
  max_val_len = 1024;
  meta_max_key_len = 16;
  meta_max_val_len = 1024;
  objs_list = some none_left;
  free_list = some none_left;
  meta_objs_list = some none_left;
  meta_free_list = some none_left;
  op_log = record {
    tx_slots_count = 3;
    tx_slot_capacity = 42;
    tx_slots_list = some (record { size = 3; begin = 1; end = 3; next = [] });
    upd_id_list = λ j. record { count = 0; list = λ k. no_meta };
  };
  world = record { mem = bytes; events = []; page_size = 4096 };
}

-- A checksum that marks a range as good.
abbrev pub mark : Util
mark = record {
  insert = λ m addr len csump. store 8 m csump 1;
  verify = λ m addr len csump. load 8 m csump == 1;
  insert_outside = λ m addr len csump x h. store-outside 8 m csump 1 x h;
  verify-insert = λ m m' addr len csump p q same.
      let e : load 8 m' csump ≡ 1 =
        load-agree 8 (store 8 m csump 1) m' csump (λ x a b. same x (omega arith) (omega arith))
        ∙ load-store_self 8 m csump 1 (omega arith) in
      rw e refl;
}
