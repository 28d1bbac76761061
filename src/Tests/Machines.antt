-- ===== src/Tests/Machines.antt =====
-- Calls on the second slot, in a pool whose block 1 holds an object.
use pmbackend.Base.{ℕ, ◌≡◌, refl, [], ◌∷◌, arith, inl, List}
use pmbackend.Backend.{backend_tx_direct}
use pmbackend.Kv.{Handle, ok}
use pmbackend.Mem.{load}
use pmbackend.TxLog.{slot_at}
use pmbackend.TxLog.Dropped.{no_ids}
use pmbackend.TxLog.Drop.{IsDroppable, held, same-Dropped}
use pmbackend.TxLog.Machine.{
  State, idle, Call, init, op_write, op_update, commit, execute, abort, calls, steps, CallsFit,
}
use pmbackend.TxLog.Machine.Shows.{InSlot, IsRoom, Shows, Dropped-Changed}
use pmbackend.TxLog.Machine.Refines.{calls-Follows}
use pmbackend.Tests.Data.{pool, pool-IsLaidOut, handle, bytes, mark}
use pmbackend.Tests.Ends.{bytes-BlocksFit}

abbrev at_rest : State
at_rest = record { phase = idle; full = held pool bytes; gone = no_ids; freed = no_ids }

-- A transaction that replaces block 1 by block 2, calls that are refused, and a transaction that is aborted.
abbrev some_calls : List Call
some_calls =
    commit
    ∷ init
    ∷ op_update 1 2
    ∷ execute
    ∷ commit
    ∷ op_write 3
    ∷ execute
    ∷ init
    ∷ op_write 1
    ∷ abort
    ∷ []

abbrev expected : List ℕ
expected = 1 ∷ 0 ∷ 0 ∷ 1 ∷ 0 ∷ 1 ∷ 0 ∷ 0 ∷ 0 ∷ 0 ∷ []

steps_codes : (steps at_rest some_calls).1 ≡ expected
steps_codes = refl

second_slot-IsRoom : IsRoom pool 4096 8192
second_slot-IsRoom = record { least = omega arith; front = omega arith; word = omega arith }

handle-InSlot : InSlot pool 8192 2 handle
unfolding slot_at backend_tx_direct
handle-InSlot = record {
  pool = refl;
  place = refl;
  range = (omega arith, omega arith);
  pending = refl;
}

handle-Shows : Shows pool 4096 8192 handle handle at_rest
unfolding load
handle-Shows = record {
  phase = refl;
  full = λ x i. refl;
  changed =
      Dropped-Changed (omega arith)
        (same-Dropped pool pool-IsLaidOut 8192 handle (bytes-BlocksFit bytes (λ x p. refl)));
}

some_calls-CallsFit : CallsFit pool 4096 at_rest some_calls
some_calls-CallsFit =
    let one : IsDroppable pool 1 = (inl (omega arith), omega arith, omega arith) in
    let two : IsDroppable pool 2 = (inl (omega arith), omega arith, omega arith) in
    (
      tt,
      (
        tt,
        (
          ((one, (two, tt)), omega arith),
          (tt, (tt, (tt, (tt, (tt, (((one, tt), omega arith), (tt, tt))))))),
        ),
      ),
    )

calls-Follows_example :
    (s' : Handle) × (calls mark 2 handle some_calls ≡ ok (s', (steps at_rest some_calls).1))
    × Shows pool 4096 8192 handle s' (steps at_rest some_calls).0
calls-Follows_example =
    calls-Follows mark pool pool-IsLaidOut 4096 8192 2 handle handle at_rest some_calls
      second_slot-IsRoom handle-InSlot handle-Shows some_calls-CallsFit
