-- ===== src/TxLog/Log.antt =====
-- tx_log.c: the operations that a slot's memory stands for.
use pmbackend.Base.{
  ℕ, ◌+◌, ◌*◌, ◌≤◌, ◌<◌, ◌≡◌, refl, List, [], ◌∷◌, ◌++◌, length, arith, two32, ◌∙◌,
}
use pmbackend.Mem.{Mem, load, read_bytes}
use pmbackend.Mem.Frame.{load-agree, read_bytes-agree}
use pmbackend.Backend.{sizeof_tx_slot, sizeof_tx_entry}
use pmbackend.Kv.{size_of, blk_id1_of, blk_id2_of}
use pmbackend.Kv.Op

-- A registered operation; an update in place carries the bytes of its new value.
pub data Operation : Type 0 where
  write : ℕ → Operation
  update : ℕ → ℕ → Operation
  updinplace : ℕ → (offset : ℕ) → List ℕ → Operation
  remove : ℕ → Operation

abbrev pub operation_len : Operation → ℕ
operation_len (updinplace id offset payload) = sizeof_tx_entry + length payload
operation_len _ = sizeof_tx_entry

-- The entry at `e` holds this operation.
abbrev pub EntryAt : Mem → ℕ → Operation → Type 0
EntryAt m e (write id) = (load 4 m e ≡ Op.write) × (load 8 m (blk_id1_of e) ≡ id)
EntryAt m e (update old new) =
    (load 4 m e ≡ Op.update) × (load 8 m (blk_id1_of e) ≡ old) × (load 8 m (blk_id2_of e) ≡ new)
EntryAt m e (updinplace id offset payload) =
    (load 4 m e ≡ Op.updinplace)
    × (load 8 m (blk_id1_of e) ≡ id)
    × (load 8 m (blk_id2_of e) ≡ length payload * two32 + offset)
    × (read_bytes m (e + sizeof_tx_entry) (length payload) ≡ payload)
EntryAt m e (remove id) = (load 4 m e ≡ Op.remove) × (load 8 m (blk_id1_of e) ≡ id)

-- From `e` to `end` the memory holds these operations, one behind the other.
abbrev pub Entries : Mem → (e end : ℕ) → List Operation → Type 0
Entries m e end [] = e ≡ end
Entries m e end (op ∷ ops) = EntryAt m e op × Entries m (e + operation_len op) end ops

-- The operations of a slot.
abbrev pub LogOf : Mem → (slot : ℕ) → List Operation → Type 0
LogOf m slot ops = Entries m (slot + sizeof_tx_slot) (slot + load 8 m (size_of slot)) ops

-- Two memories agree from `a` up to `b`.
abbrev pub Agree : Mem → Mem → (a b : ℕ) → Type 0
Agree m m' a b = (x : ℕ) → a ≤ x → x < b → m' x ≡ m x

pub EntryAt-Agree :
    (m m' : Mem) (e : ℕ) (op : Operation)
    → Agree m m' e (e + operation_len op)
    → EntryAt m e op
    → EntryAt m' e op
EntryAt-Agree m m' e (write id) same (t, i) = (
  load-agree 4 m m' e (λ x p q. same x p (omega arith)) ∙ t,
  load-agree 8 m m' (blk_id1_of e) (λ x p q. same x (omega arith) (omega arith)) ∙ i,
)
EntryAt-Agree m m' e (update old new) same (t, i, j) = (
  load-agree 4 m m' e (λ x p q. same x p (omega arith)) ∙ t,
  load-agree 8 m m' (blk_id1_of e) (λ x p q. same x (omega arith) (omega arith)) ∙ i,
  load-agree 8 m m' (blk_id2_of e) (λ x p q. same x (omega arith) (omega arith)) ∙ j,
)
EntryAt-Agree m m' e (updinplace id offset payload) same (t, i, j, b) = (
  load-agree 4 m m' e (λ x p q. same x p (omega arith)) ∙ t,
  load-agree 8 m m' (blk_id1_of e) (λ x p q. same x (omega arith) (omega arith)) ∙ i,
  load-agree 8 m m' (blk_id2_of e) (λ x p q. same x (omega arith) (omega arith)) ∙ j,
  read_bytes-agree m m' (e + sizeof_tx_entry) (length payload)
        (λ x p q. same x (omega arith) (omega arith))
      ∙ b,
)
EntryAt-Agree m m' e (remove id) same (t, i) = (
  load-agree 4 m m' e (λ x p q. same x p (omega arith)) ∙ t,
  load-agree 8 m m' (blk_id1_of e) (λ x p q. same x (omega arith) (omega arith)) ∙ i,
)

pub Entries-le : (m : Mem) (e end : ℕ) (ops : List Operation) → Entries m e end ops → e ≤ end
Entries-le m e end [] h = omega arith
Entries-le m e end (op ∷ ops) h = omega (arith, Entries-le m (e + operation_len op) end ops h.1)

pub Entries-Agree :
    (m m' : Mem) (e end : ℕ) (ops : List Operation)
    → Agree m m' e end
    → Entries m e end ops
    → Entries m' e end ops
Entries-Agree m m' e end [] same h = h
Entries-Agree m m' e end (op ∷ ops) same h =
    let l = Entries-le m (e + operation_len op) end ops h.1 in
    (
      EntryAt-Agree m m' e op (λ x p q. same x p (omega arith)) h.0,
      Entries-Agree m m' (e + operation_len op) end ops (λ x p q. same x (omega arith) q) h.1,
    )

-- One more entry at the end.
pub Entries-snoc :
    (m : Mem) (e end : ℕ) (ops : List Operation) (op : Operation)
    → Entries m e end ops
    → EntryAt m end op
    → Entries m e (end + operation_len op) (ops ++ op ∷ [])
Entries-snoc m e end [] op h new = rw h (new, refl)
Entries-snoc m e end (o ∷ ops) op h new =
    (h.0, Entries-snoc m (e + operation_len o) end ops op h.1 new)
