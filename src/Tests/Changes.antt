-- ===== src/Tests/Changes.antt =====
-- An object of 768 bytes in block 1, 600 of which a put replaces.
use pmbackend.Base.{
  ℕ, ◌≤◌, ◌≡◌, refl, false, ◌&&◌, ◌||◌, some, [], arith, inl, inr, ◌==◌, ltb, leb, ◌≢◌, ◌+◌,
  Bool-cases, if◌then◌else◌,
}
use pmbackend.Mem.{Mem, load}
use pmbackend.Mem.Zero.{load_of_zeros}
use pmbackend.Backend.{backend_tx_direct}
use pmbackend.Caslist.{Caslist, caslist_new, caslist_pop, pop}
use pmbackend.Caslist.Ranges.{total, member, has}
use pmbackend.Caslist.Many.{Holds, interval-Holds}
use pmbackend.Kv.{Handle, ok, pmb_ok, peek, size_of, val_len_of}
use pmbackend.TxLog.{slot_at}
use pmbackend.TxLog.Open.{InProgress}
use pmbackend.Pmb.Pair.{PmbPair}
use pmbackend.Pmb.Put.{tput}
use pmbackend.Pmb.Update.{IsReplacement, OldRoom}
use pmbackend.Backend.Layout.{place, block_len}
use pmbackend.TxLog.Dropped.{BlocksFit}
use pmbackend.TxLog.Process.{tx_slot_commit}
use pmbackend.Pmb.Tx.{tx_commit, tx_execute}
use pmbackend.Pmb.Life.{next_id}
use pmbackend.Pmb.Exchange.{Changing}
use pmbackend.Pmb.Exchanged.{IsExchanged, tput-commit-execute-IsExchanged}
use pmbackend.Tests.Data.{pool, pool-IsLaidOut, handle, mark, none_left-Holds}

abbrev aged : Mem
aged x =
    if x == 8200
    then 1
    else if x == 8208
    then 24
    else if x == 20480
    then 1
    else if x == 20496
    then 4
    else if x == 20505
    then 3
    else 0

abbrev two_and_three : Caslist
two_and_three = record { size = 2; begin = 2; end = 3; next = [] }

abbrev changing : Handle
changing = record handle {
  world = record { mem = aged; events = []; page_size = 4096 };
  free_list = some two_and_three;
}

abbrev change : PmbPair
change = record {
  blk_id = 1;
  id = 9;
  offset = 5;
  key = 100000;
  key_len = 3;
  val = 200000;
  val_len = 600;
}

changing-InProgress : InProgress changing 2 8192 []
unfolding slot_at backend_tx_direct load
changing-InProgress = record { place = refl; status = refl; log = refl }

changing_lengths :
    (peek 8 changing (size_of 8192) ≡ 24) × (peek 4 changing (val_len_of 20480) ≡ 768)
unfolding load
changing_lengths = (refl, refl)

change-IsReplacement : IsReplacement changing change
change-IsReplacement = record {
  some_id = omega arith;
  key_len = omega arith;
  pointers = omega arith;
  val_len = omega arith;
  large = omega arith;
  words = omega arith;
}

changing-OldRoom : OldRoom changing 8192 24576 20480 change
changing-OldRoom = record {
  room = record {
    slot_size = omega (arith, changing_lengths);
    slot_obj = omega (arith, changing_lengths);
    key_slot = omega (arith, changing_lengths);
    val_slot = omega (arith, changing_lengths);
    key_obj = omega arith;
    val_obj = omega arith;
  };
  old_len = omega (arith, changing_lengths);
  blocks = omega arith;
  slot_old = omega (arith, changing_lengths);
}

two_and_three-Holds : Holds (λ x. x == 2 || x == 3) (some two_and_three)
unfolding member has total
two_and_three-Holds = record {
  list = two_and_three;
  present = refl;
  valid = inr (record { chain = omega arith; size = refl });
  members = λ x. ground arith;
}

next_two : (caslist_pop changing.free_list 0).1 ≡ 2
unfolding caslist_pop pop
next_two = refl

changing-place : place pool (next_id changing) ≡ 24576
unfolding place
changing-place = rw next_two refl

old-place : place pool 1 ≡ 20480
unfolding place
old-place = refl

aged-BlocksFit : BlocksFit pool aged
unfolding place block_len
aged-BlocksFit id i = elim (Bool-cases (id == 1)) [
  | inl one ↦
      let e : id ≡ 1 = ground (arith, one) in
      rw e (omega (arith, changing_lengths.1, key_zero 20500 refl))
  | inr other ↦
      let zeros : (n : ℕ) → 20 ≤ n → n ≤ 24 → load 4 aged (place pool id + n) ≡ 0 =
        λ n p q. load_of_zeros 4 aged (place pool id + n) (λ x j k. ground (arith, i, other)) in
      ground (arith, i, zeros 20, zeros 24)
]
  where
    key_zero : (a : ℕ) → a ≡ 20500 → load 4 aged a ≡ 0
    key_zero a e = load_of_zeros 4 aged a (λ x j k. ground arith)

changing_slots : Holds (λ x. ltb 0 x && leb x 3) changing.op_log.tx_slots_list
unfolding caslist_new
changing_slots = interval-Holds 3 (omega arith) (omega arith)

old_filled : peek 8 changing 20480 ≢ 0
unfolding load
old_filled = omega arith

changing-Changing :
    Changing pool changing 2 8192 change
      (λ x. x == 2 || x == 3)
      (λ x. false)
      (λ x. ltb 0 x && leb x 3)
changing-Changing = record {
  laid_out = pool-IsLaidOut;
  pool = refl;
  count = refl;
  opened = changing-InProgress;
  in_range = omega arith;
  lists = record { data_side = two_and_three-Holds; meta_side = none_left-Holds };
  slots_list = changing_slots;
  some_id = 2;
  some_free = refl;
  in_data = λ x e. ground (arith, e);
  change = change-IsReplacement;
  old_id = omega arith;
  old_taken = refl;
  old_there = rw old-place old_filled;
  room = rw (changing-place, old-place) changing-OldRoom;
  big = omega arith;
  front = omega (arith, changing_lengths);
  fits = aged-BlocksFit;
  pending = refl;
}

tput-commit-execute-IsExchanged_example :
    (s' : Handle) × ((tput mark changing 2 change).2 ≡ pmb_ok)
    × (tx_commit mark (tput mark changing 2 change).0 2
        ≡ ((tx_slot_commit mark (tput mark changing 2 change).0 2).0, pmb_ok))
    × (tx_execute mark (tx_slot_commit mark (tput mark changing 2 change).0 2).0 2
        ≡ ok (s', pmb_ok))
    × IsExchanged pool changing s' 2
        (next_id changing)
        change
        (λ x. x == 2 || x == 3)
        (λ x. ltb 0 x && leb x 3)
tput-commit-execute-IsExchanged_example =
    tput-commit-execute-IsExchanged mark pool changing 2 8192 change (λ x. x == 2 || x == 3)
      (λ x. false) (λ x. ltb 0 x && leb x 3) changing-Changing
