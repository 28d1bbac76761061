-- ===== src/TxLog/Ends.antt =====
-- tx_log.c: the fuel of the loops over a slot's entries.
use pmbackend.Base.{
  ℕ, zero, suc, ◌+◌, ◌<◌, ◌≡◌, ◌≢◌, refl, ◌-◌, ◌/◌, ◌%◌, Bool-cases, Option-cases, inl, inr, arith,
  ltb, ◌==◌, ◌||◌, two32, pred64,
}
use pmbackend.Backend.{sizeof_tx_entry, sizeof_tx_slot}
use pmbackend.Kv.{
  Handle, Run, ok, fault, out_of_fuel, ◌>>=◌, Util, TxMeta, poke, pmb_ok, pmb_err, peek, blk_id1_of,
  blk_id2_of, status_of, size_of,
}
use pmbackend.Kv.Status
use pmbackend.TxLog.{slot_at}
use pmbackend.TxLog.Meta.{
  tx_update_block, tx_slot_checksum, write_meta, write_metas, tx_slot_meta_upd_process,
}
use pmbackend.TxLog.Process.{
  execute_entry, execute_entries, abort_entry, abort_entries, execute_slot, tx_slot_execute,
  abort_slot, tx_slot_abort, clear_slot,
}

-- The run was not stopped for want of fuel.
abbrev pub Ends : {A : Type 0} → Run A → Type 0
Ends r = r ≢ out_of_fuel

Ends-bind :
    {A B : Type 0} (m : Run A) (k : A → Run B)
    → Ends m
    → ((a : A) → m ≡ ok a → Ends (k a))
    → Ends (m >>= k)
Ends-bind (ok a) k e f = f a refl
Ends-bind fault k e f = λ q. cc
Ends-bind out_of_fuel k e f = λ q. e refl

tx_update_block-Ends :
    (s : Handle) (tx_id blk_id payload offset len : ℕ)
    → Ends (tx_update_block s tx_id blk_id payload offset len)
unfolding tx_update_block
tx_update_block-Ends s tx_id blk_id payload offset len = ground arith

-- A round of `tx_slot_execute` ends, and moves on by an entry at least.
execute_entry-Ends : (s : Handle) (tx_id entry : ℕ) → Ends (execute_entry s tx_id entry)
unfolding execute_entry
execute_entry-Ends s tx_id entry = ground (
  arith,
  tx_update_block-Ends s tx_id (peek 8 s (blk_id1_of entry)) (entry + sizeof_tx_entry)
      (peek 8 s (blk_id2_of entry) % two32) (peek 8 s (blk_id2_of entry) / two32),
)

execute_entry-lt :
    (s : Handle) (tx_id entry : ℕ) (r : Handle × ℕ)
    → execute_entry s tx_id entry ≡ ok r
    → entry < r.1
unfolding execute_entry
execute_entry-lt s tx_id entry r e = ground arith

execute_entries-Ends :
    (fuel tx_id entry slot_end : ℕ) (s : Handle)
    → slot_end - entry < fuel
    → Ends (execute_entries fuel tx_id entry slot_end s)
unfolding execute_entries
execute_entries-Ends zero tx_id entry slot_end s h = elim h [ ]
execute_entries-Ends (suc fuel) tx_id entry slot_end s h = elim (Bool-cases (ltb entry slot_end)) [
  | inl more ↦ rw more (
      Ends-bind (execute_entry s tx_id entry) (λ r. execute_entries fuel tx_id r.1 slot_end r.0)
        (execute_entry-Ends s tx_id entry)
        (λ r q.
          let m = execute_entry-lt s tx_id entry r q in
          execute_entries-Ends fuel tx_id r.1 slot_end r.0 (ground arith)))
  | inr done ↦ rw done (λ q. cc)
]

-- The loop of `tx_slot_abort` has a result.
abort_entries-ok :
    (fuel entry slot_end : ℕ) (s : Handle)
    → slot_end - entry < fuel
    → (s' : Handle) × (abort_entries fuel entry slot_end s ≡ ok s')
unfolding abort_entries
abort_entries-ok zero entry slot_end s h = elim h [ ]
abort_entries-ok (suc fuel) entry slot_end s h = elim (Bool-cases (ltb entry slot_end)) [
  | inl more ↦ rw more (
      abort_entries-ok fuel (entry + sizeof_tx_entry) slot_end (abort_entry s entry) (ground arith))
  | inr done ↦ (s, rw done)
]

module _ (u : Util) where
  write_metas-Ends :
      (rounds : ℕ) (list : ℕ → TxMeta) (i : ℕ) (s : Handle) → Ends (write_metas u rounds list i s)
  unfolding write_metas
  write_metas-Ends zero list i s = λ q. cc
  write_metas-Ends (suc rounds) list i s =
      Ends-bind (write_meta u s (list i)) (λ s'. write_metas u rounds list (i + 1) s')
        (ground arith) (λ s' q. write_metas-Ends rounds list (i + 1) s')

  process-Ends : (s : Handle) (tx_id : ℕ) → Ends (tx_slot_meta_upd_process u s tx_id)
  unfolding tx_slot_meta_upd_process
  process-Ends s tx_id =
      let l = s.op_log.upd_id_list tx_id in
      Ends-bind (write_metas u l.count l.list 0 s) _ (write_metas-Ends l.count l.list 0 s)
        (λ s' q. λ e. cc)

  execute_slot-Ends : (s : Handle) (id slot : ℕ) → Ends (execute_slot u s id slot)
  unfolding execute_slot
  execute_slot-Ends s id slot =
      let size = peek 8 s (size_of slot) in
      let tx_id = pred64 id % 256 in
      Ends-bind (execute_entries (size + 1) tx_id (slot + sizeof_tx_slot) (slot + size) s) _
        (execute_entries-Ends (size + 1) tx_id (slot + sizeof_tx_slot) (slot + size) s
          (omega arith))
        (λ s1 q.
          Ends-bind (tx_slot_meta_upd_process u s1 tx_id) (λ s2. ok (clear_slot s2 slot))
            (process-Ends s1 tx_id) (λ s2 q'. λ e. cc))

  -- `tx_slot_execute` is not stopped for want of fuel.
  pub tx_slot_execute-Ends : (s : Handle) (id : ℕ) → Ends (tx_slot_execute u s id)
  unfolding tx_slot_execute
  tx_slot_execute-Ends s id = elim (Option-cases (slot_at s id)) [
    | inl e ↦ ground (arith, e)
    | inr (slot, e) ↦ ground (arith, e, execute_slot-Ends s id slot)
  ]

  abort_slot-ok : (s : Handle) (id slot : ℕ) → (s' : Handle) × (abort_slot u s id slot ≡ ok s')
  unfolding abort_slot
  abort_slot-ok s id slot =
      let s1 = tx_slot_checksum u (poke 4 (status_of slot) Status.aborted s) slot (pred64 id) in
      let size = peek 8 s1 (size_of slot) in
      let (s2, e) =
        abort_entries-ok (size + 1) (slot + sizeof_tx_slot) (slot + size) s1 (omega arith) in
      let s3 = poke 8 (size_of slot) 0 (poke 4 (status_of slot) Status.empty s2) in
      (clear_slot (tx_slot_checksum u s3 slot (pred64 id)) slot, rw (e, ◌>>=◌))

  -- `tx_slot_abort` has a result.
  pub tx_slot_abort-ok : (s : Handle) (id : ℕ) → (r : Handle × ℕ) × (tx_slot_abort u s id ≡ ok r)
  unfolding tx_slot_abort
  tx_slot_abort-ok s id = elim (Option-cases (slot_at s id)) [
    | inl e ↦ ((s, pmb_err), rw (e, tx_slot_abort))
    | inr (slot, e) ↦
        elim (Bool-cases (
          peek 4 s (status_of slot) == Status.processing
          || peek 4 s (status_of slot) == Status.commited)) [
            | inl open_ ↦
                let (s', a) = abort_slot-ok s id slot in ((s', pmb_ok), ground (arith, e, open_, a))
            | inr closed ↦ ((s, pmb_err), ground (arith, e, closed))
          ]
  ]
