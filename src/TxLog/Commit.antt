-- ===== src/TxLog/Commit.antt =====
-- tx_log.c: `tx_slot_commit` on an open transaction.
use pmbackend.Base.{
  ℕ, ◌+◌, ◌≤◌, ◌<◌, ◌≡◌, ◌≢◌, refl, ap, ◌∙◌, List, arith, ◌⊎◌, Option, some, none, pred64,
}
use pmbackend.Mem.{Mem, World, with_mem, load}
use pmbackend.Mem.Frame.{load-agree, load-store_self, store-outside}
use pmbackend.Backend.{Backend, sizeof_tx_slot, backend_tx_persist}
use pmbackend.Kv.{Handle, mem_of, poke, peek, status_of, size_of, pmb_ok, pmb_err, Util}
use pmbackend.Kv.Status
use pmbackend.TxLog.{slot_at}
use pmbackend.TxLog.Log.{Operation, LogOf, Entries-Agree}
use pmbackend.TxLog.Open.{InProgress}
use pmbackend.TxLog.Meta.{tx_slot_checksum}
use pmbackend.TxLog.Process.{tx_slot_commit}

-- Making memory durable changes no byte.
backend_tx_persist-mem :
    (b : Option Backend) (w : World) (id len : ℕ) → (backend_tx_persist b w id len).0.mem ≡ w.mem
unfolding backend_tx_persist
backend_tx_persist-mem none w id len = refl
backend_tx_persist-mem (some b) w id len = ground arith

module _ (u : Util) (s : Handle) (id slot : ℕ) where
  -- The slot's checksum is written into its first eight bytes, and nowhere else.
  pub checksum-outside :
      (x : ℕ) → (x < slot) ⊎ (slot + 8 ≤ x) → mem_of (tx_slot_checksum u s slot id) x ≡ mem_of s x
  unfolding tx_slot_checksum
  checksum-outside x h =
      let m' = u.insert (mem_of s) slot (peek 8 s (size_of slot)) slot in
      ap (λ (m : Mem). m x)
        (backend_tx_persist-mem (some s.backend) (with_mem s.world m') id
          (load 8 m' (size_of slot)))
      ∙ u.insert_outside (mem_of s) slot (peek 8 s (size_of slot)) slot x h

-- After the commit of an open transaction.
pub record Commited (s s' : Handle) (slot : ℕ) (ops : List Operation) : Type 0 where
  pub status : peek 4 s' (status_of slot) ≡ Status.commited
  pub log : LogOf (mem_of s') slot ops
  pub outside : (x : ℕ) → (x < slot) ⊎ (slot + 12 ≤ x) → mem_of s' x ≡ mem_of s x

module _ (u : Util) (s : Handle) (id slot : ℕ) where
  -- The commit of an open transaction, in one of the handle's slots, returns PMB_OK. The slot is commited and keeps its operations, and no
  -- byte outside the checksum and the status of the slot changes.
  pub commit-Commited :
      (ops : List Operation)
      → 0 < id
      → id ≤ s.op_log.tx_slots_count
      → InProgress s id slot ops
      → ((tx_slot_commit u s id).1 ≡ pmb_ok) × Commited s (tx_slot_commit u s id).0 slot ops
  unfolding tx_slot_commit
  commit-Commited ops p q h =
      let s1 = poke 4 (status_of slot) Status.commited s in
      let s2 = tx_slot_checksum u s1 slot (pred64 id) in
      let done : tx_slot_commit u s id ≡ (s2, pmb_ok) = ground (arith, h.place, h.status) in
      let outside : (x : ℕ) → (x < slot) ⊎ (slot + 12 ≤ x) → mem_of s2 x ≡ mem_of s x = λ x b.
        checksum-outside u s1 (pred64 id) slot x (omega arith)
        ∙ store-outside 4 (mem_of s) (status_of slot) Status.commited x (omega arith) in
      let size_eq : load 8 (mem_of s2) (size_of slot) ≡ load 8 (mem_of s) (size_of slot) =
        load-agree 8 (mem_of s) (mem_of s2) (size_of slot) (λ x a b. outside x (omega arith)) in
      rw done (
        refl,
        record {
          status =
              load-agree 4 (mem_of s1) (mem_of s2) (status_of slot)
                (λ x a b. checksum-outside u s1 (pred64 id) slot x (omega arith))
              ∙ load-store_self 4 (mem_of s) (status_of slot) Status.commited (omega arith);
          log = rw size_eq (
              Entries-Agree (mem_of s) (mem_of s2) (slot + sizeof_tx_slot) _ ops
                (λ x a b. outside x (omega arith)) h.log);
          outside = outside;
        },
      )

  -- Only the memory and the events of the handle change.
  pub commit-world :
      (ops : List Operation)
      → 0 < id
      → id ≤ s.op_log.tx_slots_count
      → InProgress s id slot ops
      → (tx_slot_commit u s id).0 ≡ record s { world = (tx_slot_commit u s id).0.world }
  unfolding tx_slot_commit tx_slot_checksum
  commit-world ops p q h = ground (arith, h.place, h.status)

  -- The commit of a slot whose transaction is not open is refused and changes nothing.
  pub commit_closed :
      slot_at s id ≡ some slot
      → peek 4 s (status_of slot) ≢ Status.processing
      → tx_slot_commit u s id ≡ (s, pmb_err)
  unfolding tx_slot_commit
  commit_closed e closed = ground (arith, e, closed)
