-- ===== src/Pmb/Slots.antt =====
-- pmbackend.c: `pmb_tx_begin` and the list of free transaction slots.
use pmbackend.Base.{
  ℕ, ◌+◌, ◌≤◌, ◌<◌, ◌≡◌, refl, ◌%◌, ◌*◌, [], arith, some, ◌||◌, ◌&&◌, not, ltb, ◌==◌, Bool, true,
  false, inl, inr, Bool-cases, Option-cases, pred64,
}
use pmbackend.Backend.{backend_tx_direct}
use pmbackend.Caslist.{caslist_pop}
use pmbackend.Caslist.Many.{caslist_pop-nothing, Holds, caslist_pop-Takes}
use pmbackend.Kv.{Handle, pmb_ok, pmb_err}
use pmbackend.TxLog.{slot_at, tx_log_get_slot, tx_slot_init}
use pmbackend.TxLog.Open.{InProgress, tx_slot_init-InProgress}
use pmbackend.Pmb.Tx.{tx_begin}

-- The ids of the free slots are among the handle's.
pub record SlotsFree (s : Handle) (free : ℕ → Bool) : Type 0 where
  pub same_count : s.op_log.tx_slots_count ≡ s.backend.tx_slots_count
  pub few : s.op_log.tx_slots_count < 256
  pub listed : Holds free s.op_log.tx_slots_list
  pub range : (x : ℕ) → free x ≡ true → (0 < x) × (x ≤ s.op_log.tx_slots_count)

-- What `pmb_tx_begin` gives when a slot is free: the least free slot, which is no longer free and whose
-- transaction is open and empty.
pub record Begun (s : Handle) (free : ℕ → Bool) (r : Handle × ℕ × ℕ) : Type 0 where
  pub code : r.2 ≡ pmb_ok
  pub taken : free r.1 ≡ true
  pub least : (x : ℕ) → free x ≡ true → r.1 ≤ x
  pub rest : Holds (λ x. free x && not (x == r.1)) r.0.op_log.tx_slots_list
  pub place : ℕ
  pub opened : InProgress r.0 r.1 place []

slot_at_in_range :
    (s : Handle) (id : ℕ)
    → s.op_log.tx_slots_count ≡ s.backend.tx_slots_count
    → s.op_log.tx_slots_count < 256
    → 0 < id
    → id ≤ s.op_log.tx_slots_count
    → (slot : ℕ) × (slot_at s id ≡ some slot)
unfolding slot_at backend_tx_direct
slot_at_in_range s id e f p q =
    let test : ltb (pred64 id % 256) s.backend.tx_slots_count ≡ true = ground arith in
    (s.backend.tx_log + (pred64 id % 256) * s.backend.tx_slot_size, rw test refl)

tx_slot_init-op_log : (s : Handle) (id : ℕ) → (tx_slot_init s id).0.op_log ≡ s.op_log
unfolding tx_slot_init
tx_slot_init-op_log s id = elim (Bool-cases (id == 0 || ltb s.op_log.tx_slots_count id)) [
  | inl bad ↦ rw bad refl
  | inr range ↦ elim (Option-cases (slot_at s id)) [
    | inl e ↦ rw (range, tx_slot_init, e) refl
    | inr (slot, e) ↦ rw (range, tx_slot_init, e) refl
  ]
]

pub tx_begin-Begun :
    (s : Handle) (free : ℕ → Bool) (k v : ℕ)
    → SlotsFree s free
    → free k ≡ true
    → Begun s free (tx_begin s v)
unfolding tx_begin tx_log_get_slot
tx_begin-Begun s free k v h e =
    let t = caslist_pop-Takes free s.op_log.tx_slots_list v k h.listed e in
    let popped = caslist_pop s.op_log.tx_slots_list v in
    let s' = (tx_log_get_slot s v).0 in
    let range = h.range popped.1 t.taken in
    let (slot, at) = slot_at_in_range s' popped.1 h.same_count h.few range.0 range.1 in
    let opened = tx_slot_init-InProgress s' popped.1 slot range.0 range.1 at in
    let first : (popped.0 == 0) ≡ true = ground (arith, t.code) in
    rw first (record {
      code = opened.0;
      taken = t.taken;
      least = t.least;
      rest = rw (tx_slot_init-op_log s' popped.1) t.rest;
      place = slot;
      opened = opened.1;
    })

-- When the list of free slots is valid and has none, `pmb_tx_begin` returns PMB_ERR with `*tx_slot` 0, and
-- the handle stays as it is.
pub tx_begin_full : (s : Handle) (v : ℕ) → SlotsFree s (λ x. false) → tx_begin s v ≡ (s, 0, pmb_err)
unfolding tx_begin tx_log_get_slot
tx_begin_full s v h = let e = caslist_pop-nothing s.op_log.tx_slots_list v h.listed in rw e refl
