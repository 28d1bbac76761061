-- ===== src/TxLog/Open.antt =====
-- tx_log.c: a slot whose transaction is open.
use pmbackend.Base.{
  ℕ, ◌+◌, ◌≤◌, ◌<◌, ◌≡◌, refl, sym, ap, List, [], arith, ◌∙◌, some, ◌||◌, ltb, ◌==◌, false, ◌⊎◌,
}
use pmbackend.Mem.{load, store}
use pmbackend.Mem.Frame.{load-agree, load-store_self, load-store_ne, store-outside}
use pmbackend.Backend.{sizeof_tx_slot}
use pmbackend.Kv.{Handle, mem_of, poke, peek, status_of, size_of, pmb_ok}
use pmbackend.Kv.Status
use pmbackend.TxLog.{slot_at, tx_slot_init}
use pmbackend.TxLog.Log.{Operation, LogOf, Entries-le, Entries-Agree}

-- The slot is at this address, its transaction is open, and has registered these operations.
pub record InProgress (s : Handle) (id slot : ℕ) (ops : List Operation) : Type 0 where
  pub place : slot_at s id ≡ some slot
  pub status : peek 4 s (status_of slot) ≡ Status.processing
  pub log : LogOf (mem_of s) slot ops

-- An open transaction stays open when the memory of its slot stays as it is.
pub InProgress-frame :
    (s s' : Handle) (id slot : ℕ) (ops : List Operation)
    → s'.backend ≡ s.backend
    → ((x : ℕ) → slot ≤ x → x < slot + peek 8 s (size_of slot) → mem_of s' x ≡ mem_of s x)
    → InProgress s id slot ops
    → InProgress s' id slot ops
unfolding slot_at
InProgress-frame s s' id slot ops b same h =
    let behind = Entries-le (mem_of s) (slot + sizeof_tx_slot) _ ops h.log in
    let size_eq : load 8 (mem_of s') (size_of slot) ≡ load 8 (mem_of s) (size_of slot) =
      load-agree 8 (mem_of s) (mem_of s') (size_of slot)
        (λ x p q. same x (omega arith) (omega (arith, behind))) in
    record {
      place = rw b h.place;
      status =
          load-agree 4 (mem_of s) (mem_of s') (status_of slot)
            (λ x p q. same x (omega arith) (omega (arith, behind)))
          ∙ h.status;
      log = rw size_eq (
          Entries-Agree (mem_of s) (mem_of s') (slot + sizeof_tx_slot) _ ops
            (λ x p q. same x (omega arith) q) h.log);
    }

-- The handle after `tx_slot_init`.
abbrev pub initialised : Handle → (slot : ℕ) → Handle
initialised s slot =
    poke 8 (size_of slot) sizeof_tx_slot
      (poke 4 (status_of slot) Status.processing (poke 8 slot 0 s))

pub initialised-outside :
    (s : Handle) (slot x : ℕ)
    → (x < slot) ⊎ (slot + sizeof_tx_slot ≤ x)
    → mem_of (initialised s slot) x ≡ mem_of s x
initialised-outside s slot x out =
    let m1 = store 8 (mem_of s) slot 0 in
    let m2 = store 4 m1 (status_of slot) Status.processing in
    store-outside 8 m2 (size_of slot) sizeof_tx_slot x (omega (arith, out))
    ∙ store-outside 4 m1 (status_of slot) Status.processing x (omega (arith, out))
    ∙ store-outside 8 (mem_of s) slot 0 x (omega (arith, out))

pub tx_slot_init-initialised :
    (s : Handle) (id slot : ℕ)
    → 0 < id
    → id ≤ s.op_log.tx_slots_count
    → slot_at s id ≡ some slot
    → tx_slot_init s id ≡ (initialised s slot, pmb_ok)
unfolding tx_slot_init
tx_slot_init-initialised s id slot p q e =
    let range : (id == 0 || ltb s.op_log.tx_slots_count id) ≡ false = ground arith in
    ground (arith, range, e)

-- For an id of one of the handle's slots, `tx_slot_init` returns PMB_OK and opens a transaction in the slot
-- that has registered nothing.
pub tx_slot_init-InProgress :
    (s : Handle) (id slot : ℕ)
    → 0 < id
    → id ≤ s.op_log.tx_slots_count
    → slot_at s id ≡ some slot
    → ((tx_slot_init s id).1 ≡ pmb_ok) × InProgress (tx_slot_init s id).0 id slot []
unfolding slot_at
tx_slot_init-InProgress s id slot p q e =
    let m1 = store 8 (mem_of s) slot 0 in
    let m2 = store 4 m1 (status_of slot) Status.processing in
    rw (tx_slot_init-initialised s id slot p q e) (
      refl,
      record {
        place = e;
        status =
            load-store_ne 4 8 m2 (size_of slot) sizeof_tx_slot (status_of slot) (omega arith)
            ∙ load-store_self 4 m1 (status_of slot) Status.processing (omega arith);
        log =
            ap (λ (k : ℕ). slot + k)
              (sym (load-store_self 8 m2 (size_of slot) sizeof_tx_slot (omega arith)));
      },
    )
