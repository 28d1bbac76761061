-- ===== src/TxLog/Machine/Refines.antt =====
-- tx_log.c: the functions of the log implement the abstract machine.
use pmbackend.Base.{ℕ, ◌≡◌, ◌≢◌, refl, ap, ◌&&◌, List, [], ◌∷◌, arith, inl, inr, Bool-cases, some}
use pmbackend.Caslist.Many.{elem}
use pmbackend.Backend.{Backend}
use pmbackend.Backend.Layout.{IsLaidOut}
use pmbackend.Kv.{Handle, mem_of, peek, status_of, pmb_ok, pmb_err, ok, ◌>>=◌, Util}
use pmbackend.Kv.Status
use pmbackend.TxLog.{slot_at, tx_slot_init}
use pmbackend.TxLog.Log.{write, update, remove}
use pmbackend.TxLog.Process.{tx_slot_commit, tx_slot_execute, tx_slot_abort}
use pmbackend.TxLog.Open.{
  InProgress, initialised, initialised-outside, tx_slot_init-initialised, tx_slot_init-InProgress,
}
use pmbackend.TxLog.Commit.{commit-Commited, commit-world, commit_closed}
use pmbackend.TxLog.Dropped.{Changed-change}
use pmbackend.TxLog.Drop.{held}
use pmbackend.TxLog.DropAll.{IsDroppable-elem}
use pmbackend.TxLog.Ended.{olds, news}
use pmbackend.TxLog.Executed.{tx_slot_execute-IsEnded}
use pmbackend.TxLog.Aborted.{tx_slot_abort-IsEnded}
use pmbackend.TxLog.Machine.{
  Phase, idle, opened, sealed, State, commit_in, execute_in, abort_in, step, steps, Call, init,
  op_write, op_update, op_remove, commit, execute, abort, call, calls, CallFits, CallsFit,
}
use pmbackend.TxLog.Machine.Shows.{InSlot, InSlot-only, Shows, IsRoom, Logged-Holding}
use pmbackend.TxLog.Machine.Notes.{
  op_write-Noted, op_update-Noted, op_remove-Noted, op_write_closed, op_update_closed,
  op_remove_closed,
}
use pmbackend.TxLog.Machine.Steps.{Follows, rephase, end_phase, note-Follows}

-- A slot with another status refuses to execute, or to abort.
execute_closed :
    (u : Util) (s : Handle) (id slot : ℕ)
    → slot_at s id ≡ some slot
    → peek 4 s (status_of slot) ≢ Status.commited
    → tx_slot_execute u s id ≡ ok (s, pmb_err)
unfolding tx_slot_execute
execute_closed u s id slot place status = ground (arith, place, status)

abort_closed :
    (u : Util) (s : Handle) (id slot : ℕ)
    → slot_at s id ≡ some slot
    → peek 4 s (status_of slot) ≡ Status.empty
    → tx_slot_abort u s id ≡ ok (s, pmb_err)
unfolding tx_slot_abort
abort_closed u s id slot place status = ground (arith, place, status)

module _ (u : Util) (b : Backend) (h : IsLaidOut b) (room slot id : ℕ) (r : IsRoom b room slot)
    (s0 s : Handle) (st : State) (sh : Shows b room slot s0 s st) (i : InSlot b slot id s) where
  init-Follows :
      Follows b room slot s0 (ok (tx_slot_init s id)) (record st { phase = opened [] }, pmb_ok)
  init-Follows =
      let made = tx_slot_init-initialised s id slot i.range.0 i.range.1 i.place in
      let now = (rw made at (tx_slot_init-InProgress s id slot i.range.0 i.range.1 i.place)).1 in
      (
        initialised s slot,
        ap ok made,
        rephase b h room slot r s0 s st sh (initialised s slot) (opened []) refl
            (λ x a. initialised-outside s slot x (omega (arith, a, r.least)))
            (
              now.status,
              record { log = now.log; plain = tt; old_ids = tt; new_ids = tt; fits = r.least },
            ),
      )

  commit-Follows :
      (p : Phase)
      → st.phase ≡ p
      → Follows b room slot s0 (ok (tx_slot_commit u s id)) (commit_in p st)
  commit-Follows idle e =
      let status = rw e at sh.phase in
      (s, ap ok (commit_closed u s id slot i.place (omega (arith, status))), sh)
  commit-Follows (sealed ops) e =
      let status = rw e at sh.phase in
      (s, ap ok (commit_closed u s id slot i.place (omega (arith, status.0))), sh)
  commit-Follows (opened ops) e =
      let (status, l) = rw e at sh.phase in
      let o : InProgress s id slot ops = record { place = i.place; status = status; log = l.log } in
      let (code, c) = commit-Commited u s id slot ops i.range.0 i.range.1 o in
      let s' = (tx_slot_commit u s id).0 in
      (
        s',
        ap ok (λ j. (s', code j)),
        rephase b h room slot r s0 s st sh s' (sealed ops)
            (commit-world u s id slot ops i.range.0 i.range.1 o)
            (λ x a. c.outside x (omega (arith, a, r.least)))
            (
              c.status,
              record {
                log = c.log;
                plain = l.plain;
                old_ids = l.old_ids;
                new_ids = l.new_ids;
                fits = l.fits;
              },
            ),
      )

  execute-Follows :
      (p : Phase) → st.phase ≡ p → Follows b room slot s0 (tx_slot_execute u s id) (execute_in p st)
  execute-Follows idle e =
      let status = rw e at sh.phase in
      (s, execute_closed u s id slot i.place (omega (arith, status)), sh)
  execute-Follows (opened ops) e =
      let status = rw e at sh.phase in
      (s, execute_closed u s id slot i.place (omega (arith, status.0)), sh)
  execute-Follows (sealed ops) e =
      let (status, l) = rw e at sh.phase in
      let c = Logged-Holding b room slot id Status.commited s ops r i sh.changed.fits status l in
      let (s', made, (status', d)) =
        tx_slot_execute-IsEnded u b h s id slot ops c l.plain l.old_ids i.pending in
      let back : (x : ℕ)
          → (elem x (olds ops) && held b (mem_of s) x) ≡ (elem x (olds ops) && st.full x) =
        λ x. elim (Bool-cases (elem x (olds ops))) [
          | inl old ↦
              ap (λ f. elem x (olds ops) && f)
                (sh.full x (IsDroppable-elem b (olds ops) x l.old_ids old).0)
          | inr other ↦ rw other refl
        ] in
      (
        s',
        made,
        end_phase b h room slot r s0 s st sh s' (olds ops) _
            (status', Changed-change (λ x. refl) back d),
      )

  abort-Follows :
      (p : Phase) → st.phase ≡ p → Follows b room slot s0 (tx_slot_abort u s id) (abort_in p st)
  abort-Follows idle e =
      let status = rw e at sh.phase in (s, abort_closed u s id slot i.place status, sh)
  abort-Follows (opened ops) e =
      let (status, l) = rw e at sh.phase in
      let c = Logged-Holding b room slot id Status.processing s ops r i sh.changed.fits status l in
      let (s', made, d) =
        tx_slot_abort-IsEnded u b h s id slot Status.processing ops (inl refl) c l.plain
          l.new_ids in
      (s', made, end_phase b h room slot r s0 s st sh s' (news ops) _ d)
  abort-Follows (sealed ops) e =
      let (status, l) = rw e at sh.phase in
      let c = Logged-Holding b room slot id Status.commited s ops r i sh.changed.fits status l in
      let (s', made, d) =
        tx_slot_abort-IsEnded u b h s id slot Status.commited ops (inr refl) c l.plain l.new_ids in
      (s', made, end_phase b h room slot r s0 s st sh s' (news ops) _ d)

  call-Follows :
      (c : Call) → CallFits b room st.phase c → Follows b room slot s0 (call u id s c) (step st c)
  unfolding call
  call-Follows init f = init-Follows
  call-Follows (op_write k) f =
      note-Follows b h room slot r s0 s st sh id (write k) (k ∷ []) _ st.phase i refl f
        (λ d. (tt, tt, d))
        (λ d ops o fits. op_write-Noted s id slot ops o fits k (omega (arith, d.0.2)))
        (λ e. op_write_closed s id slot i.place e k)
  call-Follows (op_update old new) f =
      note-Follows b h room slot r s0 s st sh id (update old new) (old ∷ new ∷ []) _ st.phase i refl
        f (λ d. (tt, (d.0, tt), d.1))
        (λ d ops o fits.
          op_update-Noted s id slot ops o fits old new (omega (arith, d.0.2))
            (omega (arith, d.1.0.2)))
        (λ e. op_update_closed s id slot i.place e old new)
  call-Follows (op_remove k) f =
      note-Follows b h room slot r s0 s st sh id (remove k) (k ∷ []) _ st.phase i refl f
        (λ d. (tt, d, tt))
        (λ d ops o fits. op_remove-Noted s id slot ops o fits k (omega (arith, d.0.2)))
        (λ e. op_remove_closed s id slot i.place e k)
  call-Follows commit f = commit-Follows st.phase refl
  call-Follows execute f = execute-Follows st.phase refl
  call-Follows abort f = abort-Follows st.phase refl

-- In a pool that is laid out, the calls of `tx_log.c` on one of the handle's slots, with no update in place
-- pending, do what the abstract machine does, as long as the operations registered in an open transaction name
-- blocks and their entries fit into the room of the slot, which lies in front of the blocks and is below 2^64: from a
-- handle that shows a state of the machine the calls end, with the codes of the machine, in a handle that shows the machine's last
-- state. That is, the slot has the status and the log of the state's phase, the blocks that hold an object are those of the state,
-- and since the handle `s0` the blocks in `gone` were cleared, the ids in `freed` were given back to their free lists,
-- and no other byte beyond the slot's room has changed.
pub calls-Follows :
    (u : Util) (b : Backend) (h : IsLaidOut b) (room slot id : ℕ) (s0 s : Handle) (st : State)
    (cs : List Call)
    → IsRoom b room slot
    → InSlot b slot id s0
    → Shows b room slot s0 s st
    → CallsFit b room st cs
    → (s' : Handle) × (calls u id s cs ≡ ok (s', (steps st cs).1))
      × Shows b room slot s0 s' (steps st cs).0
unfolding calls
calls-Follows u b h room slot id s0 s st [] r i sh f = (s, refl, sh)
calls-Follows u b h room slot id s0 s st (c ∷ cs) r i sh (f, fs) =
    let now = InSlot-only b slot id s0 s sh.changed.only i in
    let (s1, e1, sh1) = call-Follows u b h room slot id r s0 s st sh now c f in
    let (s2, e2, sh2) = calls-Follows u b h room slot id s0 s1 (step st c).0 cs r i sh1 fs in
    (s2, rw (e1, ◌>>=◌, e2) refl, sh2)
