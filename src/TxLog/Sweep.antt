-- ===== src/TxLog/Sweep.antt =====
-- tx_log.c: `tx_log_check` over all the slots that it visits.
use pmbackend.Base.{
  ℕ, zero, suc, ◌+◌, ◌-◌, ◌*◌, ◌≤◌, ◌<◌, ◌≡◌, ◌≢◌, refl, ◌∙◌, Bool, true, false, ◌||◌, ◌⊎◌, inl,
  inr, List, [], length, ltb, ◌==◌, if◌then◌else◌, arith, Bool-cases,
}
use pmbackend.Mem.{Mem, load}
use pmbackend.Mem.Frame.{load-agree}
use pmbackend.Caslist.Many.{elem}
use pmbackend.Backend.{Backend, sizeof_tx_slot}
use pmbackend.Backend.Layout.{IsLaidOut, block_fits}
use pmbackend.Kv.{Handle, mem_of, peek, status_of, size_of, ok, Util}
use pmbackend.Kv.Status
use pmbackend.TxLog.Log.{Operation, LogOf, Entries-Agree}
use pmbackend.TxLog.Check.{check_slot}
use pmbackend.TxLog.Dropped.{Changed, BlocksFit, no_ids}
use pmbackend.TxLog.DropAll.{AllDroppable}
use pmbackend.TxLog.Ended.{olds, news, AllPlain, IsEnded}
use pmbackend.TxLog.Recovered.{is_commited, cleared_blocks, check_slot-IsEnded}

-- The slot that `tx_log_check` looks at for an id.
abbrev pub slot_of : Backend → ℕ → ℕ
slot_of b i = b.tx_log + i * b.tx_slot_size

-- The slot is not empty and holds these operations, within its bounds.
pub record Loaded (b : Backend) (m : Mem) (slot : ℕ) (ops : List Operation) : Type 0 where
  pub status : load 4 m (status_of slot) ≢ Status.empty
  pub log : LogOf m slot ops
  pub bounds : sizeof_tx_slot + load 8 m (size_of slot) ≤ b.tx_slot_size
  pub plain : AllPlain ops
  pub old_ids : AllDroppable b (olds ops)
  pub new_ids : AllDroppable b (news ops)

-- The slot is empty, or holds these operations.
abbrev pub Known : Backend → Mem → (slot : ℕ) → List Operation → Type 0
Known b m slot ops = (load 4 m (status_of slot) ≡ Status.empty) ⊎ Loaded b m slot ops

-- The checksum's verification reads no byte outside its range.
abbrev pub ReadsRange : Util → Type 0
ReadsRange u =
    (m m' : Mem) (addr len csump : ℕ)
    → addr ≤ csump
    → csump + 8 ≤ addr + len
    → ((x : ℕ) → addr ≤ x → x < addr + len → m' x ≡ m x)
    → u.verify m' addr len csump ≡ u.verify m addr len csump

-- The blocks that the recovery of one slot clears, and that of the slots from `i` on, `n` of them.
abbrev pub cleared_of : Util → Handle → (slot : ℕ) → List Operation → List ℕ
cleared_of u s slot ops =
    if peek 4 s (status_of slot) == Status.empty
    then []
    else cleared_blocks (is_commited u s slot) ops

abbrev pub swept : Util → Backend → Handle → (logs : ℕ → List Operation) → (n i x : ℕ) → Bool
swept u b s logs zero i x = false
swept u b s logs (suc n) i x =
    elem x (cleared_of u s (slot_of b i) (logs i)) || swept u b s logs n (i + 1) x

-- A slot whose bytes are the same is taken for the same.
pub Known-frame :
    (b : Backend) (m m' : Mem) (slot : ℕ) (ops : List Operation)
    → sizeof_tx_slot ≤ b.tx_slot_size
    → ((x : ℕ) → slot ≤ x → x < slot + b.tx_slot_size → m' x ≡ m x)
    → Known b m slot ops
    → Known b m' slot ops
Known-frame b m m' slot ops big same (inl e) =
    inl
      (load-agree 4 m m' (status_of slot) (λ x p q. same x (omega arith) (omega (arith, big))) ∙ e)
Known-frame b m m' slot ops big same (inr l) =
    let status =
      load-agree 4 m m' (status_of slot) (λ x p q. same x (omega arith) (omega (arith, big))) in
    let size =
      load-agree 8 m m' (size_of slot) (λ x p q. same x (omega arith) (omega (arith, big))) in
    inr (record {
      status = λ e. l.status (omega (arith, e, status));
      log = rw size (
          Entries-Agree m m' (slot + sizeof_tx_slot) _ ops
            (λ x p q. same x (omega (arith, p)) (omega (arith, q, l.bounds))) l.log);
      bounds = omega (arith, size, l.bounds);
      plain = l.plain;
      old_ids = l.old_ids;
      new_ids = l.new_ids;
    })

is_commited-frame :
    (u : Util) (b : Backend) (s s' : Handle) (slot : ℕ) (ops : List Operation)
    → ReadsRange u
    → ((x : ℕ) → slot ≤ x → x < slot + b.tx_slot_size → mem_of s' x ≡ mem_of s x)
    → Loaded b (mem_of s) slot ops
    → is_commited u s' slot ≡ is_commited u s slot
unfolding is_commited
is_commited-frame u b s s' slot ops reads same l =
    let status =
      load-agree 4 (mem_of s) (mem_of s') (status_of slot)
        (λ x p q. same x (omega arith) (omega (arith, l.bounds))) in
    let size =
      load-agree 8 (mem_of s) (mem_of s') (size_of slot)
        (λ x p q. same x (omega arith) (omega (arith, l.bounds))) in
    let valid =
      reads (mem_of s) (mem_of s') slot (sizeof_tx_slot + peek 8 s (size_of slot)) slot
        (omega arith) (omega arith) (λ x p q. same x p (omega (arith, q, l.bounds))) in
    rw (size, status, valid) refl

pub cleared_of-frame :
    (u : Util) (b : Backend) (s s' : Handle) (slot : ℕ) (ops : List Operation)
    → ReadsRange u
    → sizeof_tx_slot ≤ b.tx_slot_size
    → ((x : ℕ) → slot ≤ x → x < slot + b.tx_slot_size → mem_of s' x ≡ mem_of s x)
    → Known b (mem_of s) slot ops
    → cleared_of u s' slot ops ≡ cleared_of u s slot ops
cleared_of-frame u b s s' slot ops reads big same k =
    let status =
      load-agree 4 (mem_of s) (mem_of s') (status_of slot)
        (λ x p q. same x (omega arith) (omega (arith, big))) in
    elim k [
      | inl e ↦
          let now : (peek 4 s (status_of slot) == 0) ≡ true = ground (arith, e) in
          rw (status, now) refl
      | inr l ↦ rw (status, is_commited-frame u b s s' slot ops reads same l) refl
    ]

-- What the sweep of the slots from `i` on leaves: they are empty, the blocks to clear are cleared, and beyond them and
-- these slots no byte has changed.
pub record Swept (u : Util) (b : Backend) (logs : ℕ → List Operation) (n i : ℕ) (s s' : Handle)
    : Type 0 where
  pub empty : (j : ℕ) → i ≤ j → j < i + n → peek 4 s' (status_of (slot_of b j)) ≡ Status.empty
  pub changed :
      Changed b (slot_of b i) (b.data_area - slot_of b i) s s' (swept u b s logs n i) no_ids

module _ (u : Util) (b : Backend) (h : IsLaidOut b) (reads : ReadsRange u)
    (big : sizeof_tx_slot ≤ b.tx_slot_size) (logs : ℕ → List Operation) where
  -- The slots from `i` on end in front of the blocks.
  pub slots_low : (i : ℕ) → i ≤ b.tx_slots_count → slot_of b i ≤ b.data_area
  slots_low i p = elim (Bool-cases (ltb i b.tx_slots_count)) [
    | inl less ↦
        let f = block_fits i b.tx_slots_count b.tx_slot_size (ground (arith, less)) in
        omega (arith, f, h.slots)
    | inr same ↦ let e : i ≡ b.tx_slots_count = ground (arith, p, same) in rw e h.slots
  ]

  pub next_slot : (i : ℕ) → slot_of b (i + 1) ≡ slot_of b i + b.tx_slot_size
  next_slot i = grind arith

  pub later_slot : (i j : ℕ) → i < j → slot_of b i + b.tx_slot_size ≤ slot_of b j
  later_slot i j p = let f = block_fits i j b.tx_slot_size p in omega (arith, f)

  -- One slot that is not empty.
  pub one_slot :
      (fuel i : ℕ) (s : Handle)
      → i < b.tx_slots_count
      → length (logs i) < fuel
      → s.backend ≡ b
      → BlocksFit b (mem_of s)
      → Loaded b (mem_of s) (slot_of b i) (logs i)
      → (s' : Handle) × (check_slot u fuel s i (slot_of b i) ≡ ok s')
        × IsEnded b (slot_of b i) s s' (λ x. elem x (cleared_of u s (slot_of b i) (logs i))) no_ids
  one_slot fuel i s p l k f o =
      let some' : (peek 4 s (status_of (slot_of b i)) == Status.empty) ≡ false =
        ground (arith, o.status) in
      let next = slots_low (i + 1) (omega arith) in
      rw some' (
        check_slot-IsEnded u b h s i (slot_of b i) (logs i) fuel l k f o.log
          (omega (arith, next, next_slot i, o.bounds)) o.plain o.old_ids o.new_ids)
