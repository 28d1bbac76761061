-- ===== src/TxLog/Ended.antt =====
-- tx_log.c: what a slot with known operations is, before and after its transaction ends.
use pmbackend.Base.{ℕ, ◌+◌, ◌*◌, ◌≤◌, ◌≡◌, Bool, List, [], ◌∷◌, length, some, arith}
use pmbackend.Mem.{Mem}
use pmbackend.Backend.{Backend, sizeof_tx_entry}
use pmbackend.Kv.{Handle, mem_of, peek, status_of, size_of}
use pmbackend.Kv.Status
use pmbackend.TxLog.{slot_at}
use pmbackend.TxLog.Log.{Operation, write, update, updinplace, remove, Entries, LogOf}
use pmbackend.TxLog.Dropped.{Dropped, BlocksFit}

-- The blocks that the operations replace, and those that they write.
abbrev pub olds : List Operation → List ℕ
olds [] = []
olds (update old new ∷ ops) = old ∷ olds ops
olds (remove id ∷ ops) = id ∷ olds ops
olds (_ ∷ ops) = olds ops

abbrev pub news : List Operation → List ℕ
news [] = []
news (write id ∷ ops) = id ∷ news ops
news (update old new ∷ ops) = new ∷ news ops
news (_ ∷ ops) = news ops

-- No operation is an update in place.
abbrev pub AllPlain : List Operation → Type 0
AllPlain [] = Unit
AllPlain (updinplace id offset payload ∷ ops) = ⊥
AllPlain (_ ∷ ops) = AllPlain ops

pub length-Entries :
    (m : Mem) (e end : ℕ) (ops : List Operation)
    → AllPlain ops
    → Entries m e end ops
    → e + sizeof_tx_entry * length ops ≡ end
length-Entries m e end [] p h = omega (arith, h)
length-Entries m e end (write id ∷ ops) p h =
    omega (arith, length-Entries m (e + sizeof_tx_entry) end ops p h.1)
length-Entries m e end (update old new ∷ ops) p h =
    omega (arith, length-Entries m (e + sizeof_tx_entry) end ops p h.1)
length-Entries m e end (remove id ∷ ops) p h =
    omega (arith, length-Entries m (e + sizeof_tx_entry) end ops p h.1)
length-Entries m e end (updinplace id offset payload ∷ ops) p h = absurd p

-- A slot whose transaction has this status and these operations, in a pool that is laid out and whose blocks have
-- room for their objects.
pub record Holding (b : Backend) (s : Handle) (id slot status : ℕ) (ops : List Operation)
    : Type 0 where
  pub pool : s.backend ≡ b
  pub place_eq : slot_at s id ≡ some slot
  pub status_eq : peek 4 s (status_of slot) ≡ status
  pub log : LogOf (mem_of s) slot ops
  pub front : slot + peek 8 s (size_of slot) ≤ b.data_area
  pub fits : BlocksFit b (mem_of s)

-- The transaction of the slot has ended: the slot is empty, the blocks in `gone` are cleared as `Cleared` says and the
-- ids in `freed` are free.
abbrev pub IsEnded : Backend → ℕ → Handle → Handle → (gone freed : ℕ → Bool) → Type 0
IsEnded b slot s s' gone freed =
    (peek 4 s' (status_of slot) ≡ Status.empty) × Dropped b slot s s' gone freed
