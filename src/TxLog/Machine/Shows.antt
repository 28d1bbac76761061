-- ===== src/TxLog/Machine/Shows.antt =====
-- tx_log.c: the handles that show a state of the abstract machine.
use pmbackend.Base.{
  ℕ, ◌+◌, ◌*◌, ◌%◌, ◌≤◌, ◌<◌, ◌≡◌, ◌∙◌, ap, Bool, not, ◌&&◌, ◌==◌, List, length, some, arith,
  pred64, two64, Bool-cases, inl, inr,
}
use pmbackend.Mem.Frame.{load-agree}
use pmbackend.Backend.{Backend, sizeof_tx_slot, sizeof_tx_entry}
use pmbackend.Backend.Layout.{IsLaidOut, IsBlockId, place, place-InRegion}
use pmbackend.Kv.{Handle, mem_of, peek, status_of, size_of}
use pmbackend.Kv.Status
use pmbackend.TxLog.{slot_at}
use pmbackend.TxLog.Log.{Operation, LogOf}
use pmbackend.TxLog.Dropped.{Changed, Dropped, BlocksFit, OnlyBlocks, block-Beside}
use pmbackend.TxLog.Drop.{held}
use pmbackend.TxLog.DropAll.{AllDroppable}
use pmbackend.TxLog.Ended.{olds, news, AllPlain, length-Entries, Holding}
use pmbackend.TxLog.Machine.{Phase, idle, opened, sealed, State}

-- The id is that of a slot of the pool, which no update in place awaits.
pub record InSlot (b : Backend) (slot id : ℕ) (s : Handle) : Type 0 where
  pub pool : s.backend ≡ b
  pub place : slot_at s id ≡ some slot
  pub range : (0 < id) × (id ≤ s.op_log.tx_slots_count)
  pub pending : (s.op_log.upd_id_list (pred64 id % 256)).count ≡ 0

pub InSlot-only :
    (b : Backend) (slot id : ℕ) (s s' : Handle)
    → OnlyBlocks s s'
    → InSlot b slot id s
    → InSlot b slot id s'
unfolding slot_at
InSlot-only b slot id s s' only h = record {
  pool = ap (λ (x : Handle). x.backend) only ∙ h.pool;
  place = ap (λ (x : Handle). slot_at x id) only ∙ h.place;
  range = rw only h.range;
  pending = ap (λ (x : Handle). (x.op_log.upd_id_list (pred64 id % 256)).count) only ∙ h.pending;
}

-- The slot holds these operations, each with its blocks, and they fit into its room.
pub record Logged (b : Backend) (room slot : ℕ) (s : Handle) (ops : List Operation) : Type 0 where
  pub log : LogOf (mem_of s) slot ops
  pub plain : AllPlain ops
  pub old_ids : AllDroppable b (olds ops)
  pub new_ids : AllDroppable b (news ops)
  pub fits : sizeof_tx_slot + sizeof_tx_entry * length ops ≤ room

-- The slot shows this phase.
abbrev pub ShowsPhase : Backend → (room slot : ℕ) → Handle → Phase → Type 0
ShowsPhase b room slot s idle = peek 4 s (status_of slot) ≡ Status.empty
ShowsPhase b room slot s (opened ops) =
    (peek 4 s (status_of slot) ≡ Status.processing) × Logged b room slot s ops
ShowsPhase b room slot s (sealed ops) =
    (peek 4 s (status_of slot) ≡ Status.commited) × Logged b room slot s ops

-- The handle `s`, which came from `s0`, shows the state.
pub record Shows (b : Backend) (room slot : ℕ) (s0 s : Handle) (st : State) : Type 0 where
  pub phase : ShowsPhase b room slot s st.phase
  pub full : (x : ℕ) → IsBlockId b x → held b (mem_of s) x ≡ st.full x
  pub changed : Changed b slot room s0 s st.gone st.freed

-- The slot's bytes that the log may use lie in front of the blocks.
pub record IsRoom (b : Backend) (room slot : ℕ) : Type 0 where
  pub least : sizeof_tx_slot ≤ room
  pub front : slot + room ≤ b.data_area
  pub word : room < two64

pub size-Logged :
    (b : Backend) (room slot : ℕ) (s : Handle) (ops : List Operation)
    → Logged b room slot s ops
    → peek 8 s (size_of slot) ≡ sizeof_tx_slot + sizeof_tx_entry * length ops
size-Logged b room slot s ops l =
    let e = length-Entries (mem_of s) (slot + sizeof_tx_slot) _ ops l.plain l.log in
    omega (arith, e)

-- What ending a transaction needs.
pub Logged-Holding :
    (b : Backend) (room slot id status : ℕ) (s : Handle) (ops : List Operation)
    → IsRoom b room slot
    → InSlot b slot id s
    → BlocksFit b (mem_of s)
    → peek 4 s (status_of slot) ≡ status
    → Logged b room slot s ops
    → Holding b s id slot status ops
Logged-Holding b room slot id status s ops r h f e l = record {
  pool = h.pool;
  place_eq = h.place;
  status_eq = e;
  log = l.log;
  front = omega (arith, size-Logged b room slot s ops l, l.fits, r.front);
  fits = f;
}

-- The change of a slot's header is one of its room.
pub Dropped-Changed :
    {b : Backend} {room slot : ℕ} {s s' : Handle} {gone freed : ℕ → Bool}
    → sizeof_tx_slot ≤ room
    → Dropped b slot s s' gone freed
    → Changed b slot room s s' gone freed
Dropped-Changed least d = record {
  only = d.only;
  zero = d.zero;
  kept = λ x a. d.kept x (omega (arith, a, least));
  outside = λ x a f. d.outside x (omega (arith, a, least)) f;
  fits = d.fits;
  lists = d.lists;
}

-- Which blocks hold an object after a change of others: those in `gone` are empty, the others as before.
pub full_after :
    (b : Backend) (room slot : ℕ) (s s' : Handle) (gone freed full : ℕ → Bool)
    → IsLaidOut b
    → IsRoom b room slot
    → BlocksFit b (mem_of s)
    → Changed b slot room s s' gone freed
    → ((x : ℕ) → IsBlockId b x → held b (mem_of s) x ≡ full x)
    → (x : ℕ) → IsBlockId b x
    → held b (mem_of s') x ≡ full x && not (gone x)
full_after b room slot s s' gone freed full h r f c was x i = elim (Bool-cases (gone x)) [
  | inl in_gone ↦
      let z : peek 8 s' (place b x) ≡ 0 = (c.zero x i in_gone).checksum in
      ground (arith, z, in_gone)
  | inr kept ↦
      let same : peek 8 s' (place b x) ≡ peek 8 s (place b x) =
        load-agree 8 (mem_of s) (mem_of s') (place b x) (λ a low high.
          c.outside a (inr (omega (arith, (place-InRegion b h x i).low, r.front))) (λ j l g.
            block-Beside b h x j a i l (λ q. cc (q, g, kept)) low (omega (arith, f x i)))) in
      ap (λ n. not (n == 0)) same ∙ was x i ∙ ground (arith, kept)
]
