-- ===== src/Tests/Ends.antt =====
-- A transaction that writes block 2 and removes block 1, in the second slot.
use pmbackend.Base.{
  ℕ, ◌+◌, ◌≤◌, ◌≡◌, refl, false, ◌&&◌, some, [], ◌∷◌, arith, inl, inr, ◌==◌, if◌then◌else◌, List,
}
use pmbackend.Mem.{Mem, load}
use pmbackend.Mem.Zero.{load_of_zeros}
use pmbackend.Backend.{backend_tx_direct, backend_direct, backend_get, found_at, flch64}
use pmbackend.Backend.Layout.{place, block_len}
use pmbackend.Caslist.{Caslist, caslist_size}
use pmbackend.Caslist.Ranges.{total, member, has}
use pmbackend.Caslist.Many.{elem, Holds}
use pmbackend.Kv.{Handle, ok, mem_of, pmb_ok}
use pmbackend.Kv.Status
use pmbackend.TxLog.{slot_at}
use pmbackend.TxLog.Log.{Operation, write, remove}
use pmbackend.TxLog.Check.{check_slot}
use pmbackend.TxLog.Process.{tx_slot_execute, tx_slot_abort}
use pmbackend.TxLog.Dropped.{BlocksFit, no_ids}
use pmbackend.TxLog.Drop.{held}
use pmbackend.TxLog.Executed.{tx_slot_execute-IsEnded}
use pmbackend.TxLog.Ended.{Holding, IsEnded, olds, news}
use pmbackend.TxLog.Aborted.{tx_slot_abort-IsEnded}
use pmbackend.TxLog.Recovered.{is_commited, cleared_blocks, check_slot-IsEnded}
use pmbackend.Pmb.Object.{get, fill_pair}
use pmbackend.Pmb.Tx.{tx_begin, tx_execute}
use pmbackend.Pmb.Slots.{SlotsFree, Begun}
use pmbackend.Pmb.Reuse.{with_slot, tx_execute-Begun}
use pmbackend.Pmb.Listing.{AllStored, Listed, list_objects, list_objects-Listed}
use pmbackend.Tests.Data.{pool, pool-IsLaidOut, bytes, handle, mark}
use pmbackend.Tests.Objects.{pair}

-- A memory with the blocks of `bytes` has room for its objects.
pub bytes-BlocksFit : (m : Mem) → ((x : ℕ) → 16384 ≤ x → m x ≡ bytes x) → BlocksFit pool m
unfolding place block_len
bytes-BlocksFit m same id i =
    let zeros : (n : ℕ) → (20 ≤ n) → (n ≤ 24) → load 4 m (place pool id + n) ≡ 0 =
      λ n p q. load_of_zeros 4 m (place pool id + n) (λ x j k. ground (arith, same x, i)) in
    ground (arith, i, zeros 20, zeros 24)

abbrev pub logged : Mem
logged x =
    if x == 8192
    then 1
    else if x == 8200
    then 2
    else if x == 8208
    then 72
    else if x == 8224
    then 2
    else if x == 8240
    then 3
    else if x == 8248
    then 1
    else bytes x

abbrev only_three : Caslist
only_three = record { size = 1; begin = 3; end = 3; next = [] }

abbrev pub commited : Handle
commited = record handle {
  world = record { mem = logged; events = []; page_size = 4096 };
  op_log = record handle.op_log { tx_slots_list = some only_three };
}

abbrev pub two_ops : List Operation
two_ops = write 2 ∷ remove 1 ∷ []

pub logged-BlocksFit : BlocksFit pool logged
logged-BlocksFit = bytes-BlocksFit logged (λ x p. ground arith)

pub commited-Holding : Holding pool commited 2 8192 Status.commited two_ops
unfolding slot_at backend_tx_direct load
commited-Holding = record {
  pool = refl;
  place_eq = refl;
  status_eq = refl;
  log = ((refl, refl), ((refl, refl), refl));
  front = omega arith;
  fits = logged-BlocksFit;
}

tx_slot_execute-IsEnded_example :
    (s' : Handle) × (tx_slot_execute mark commited 2 ≡ ok (s', pmb_ok))
    × IsEnded pool 8192 commited s'
        (λ x. elem x (olds two_ops))
        (λ x. elem x (olds two_ops) && held pool (mem_of commited) x)
tx_slot_execute-IsEnded_example =
    tx_slot_execute-IsEnded mark pool pool-IsLaidOut commited 2 8192 two_ops commited-Holding tt
      ((inl (omega arith), omega arith, omega arith), tt) refl

tx_slot_abort-IsEnded_example :
    (s' : Handle) × (tx_slot_abort mark commited 2 ≡ ok (s', pmb_ok))
    × IsEnded pool 8192 commited s' (λ x. elem x (news two_ops)) (λ x. elem x (news two_ops))
tx_slot_abort-IsEnded_example =
    tx_slot_abort-IsEnded mark pool pool-IsLaidOut commited 2 8192 Status.commited two_ops
      (inr refl) commited-Holding tt ((inl (omega arith), omega arith, omega arith), tt)

check_slot-IsEnded_example :
    (s' : Handle) × (check_slot mark 3 commited 2 8192 ≡ ok s')
    × IsEnded pool 8192 commited s'
        (λ x. elem x (cleared_blocks (is_commited mark commited 8192) two_ops))
        no_ids
check_slot-IsEnded_example =
    check_slot-IsEnded mark pool pool-IsLaidOut commited 2 8192 two_ops 3 (omega arith) refl
      logged-BlocksFit commited-Holding.log commited-Holding.front tt
      ((inl (omega arith), omega arith, omega arith), tt)
      ((inl (omega arith), omega arith, omega arith), tt)

only_three-Holds : Holds (λ x. x == 3) (some only_three)
unfolding member has total
only_three-Holds = record {
  list = only_three;
  present = refl;
  valid = inr (record { chain = omega arith; size = refl });
  members = λ x. ground arith;
}

commited-SlotsFree : SlotsFree commited (λ x. x == 3)
commited-SlotsFree = record {
  same_count = refl;
  few = omega arith;
  listed = only_three-Holds;
  range = λ x e. ground (arith, e);
}

tx_execute-Begun_example :
    (s' : Handle) × (tx_execute mark commited 2 ≡ ok (s', pmb_ok))
    × Begun s' (with_slot 2 (λ x. x == 3)) (tx_begin s' 0)
tx_execute-Begun_example =
    tx_execute-Begun mark pool pool-IsLaidOut commited 2 8192 0 two_ops (λ x. x == 3)
      commited-SlotsFree (omega arith) (omega arith) commited-Holding tt
      ((inl (omega arith), omega arith, omega arith), tt) refl

abbrev only_one : Caslist
only_one = record { size = 1; begin = 1; end = 1; next = [] }

only_one-Holds : Holds (λ x. x == 1) (some only_one)
unfolding member has total
only_one-Holds = record {
  list = only_one;
  present = refl;
  valid = inr (record { chain = omega arith; size = refl });
  members = λ x. ground arith;
}

abbrev recovered : Handle
recovered = record handle { objs_list = some only_one }

recovered-AllStored : AllStored recovered (λ x. x == 1)
unfolding get fill_pair backend_get backend_direct found_at flch64 load
recovered-AllStored x e p = let q : x ≡ 1 = ground (arith, e) in rw q refl

list_objects-Listed_example :
    Listed recovered false 1 (λ x. x == 1) (list_objects 2 recovered false pair)
unfolding caslist_size
list_objects-Listed_example =
    list_objects-Listed 2 recovered false pair (λ x. x == 1) recovered-AllStored only_one-Holds
      (omega arith)
