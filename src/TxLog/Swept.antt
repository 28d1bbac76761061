-- ===== src/TxLog/Swept.antt =====
-- tx_log.c: `tx_log_check` over all the slots that it visits, by induction on their number.
use pmbackend.Base.{
  ℕ, zero, suc, ◌+◌, ◌-◌, ◌*◌, ◌%◌, ◌≤◌, ◌<◌, ◌≡◌, refl, ◌∙◌, ap, Bool, true, false, ◌||◌, inl, inr,
  List, length, ltb, leb, ◌==◌, if◌then◌else◌, arith, some, none, Bool-cases,
}
use pmbackend.Mem.Frame.{load-agree}
use pmbackend.Caslist.Many.{elem}
use pmbackend.Backend.{Backend, sizeof_tx_slot, backend_tx_direct}
use pmbackend.Backend.Layout.{IsLaidOut, place-InRegion}
use pmbackend.Kv.{Handle, mem_of, peek, status_of, ok, ◌>>=◌, Util}
use pmbackend.Kv.Status
use pmbackend.TxLog.Log.{Operation}
use pmbackend.TxLog.Check.{tx_log_check}
use pmbackend.TxLog.Dropped.{Changed, Changed-trans, Changed-change, Dropped, BlocksFit, no_ids}
use pmbackend.TxLog.Drop.{same-Dropped}
use pmbackend.TxLog.Ended.{IsEnded}
use pmbackend.TxLog.Machine.Shows.{Dropped-Changed}
use pmbackend.TxLog.Sweep.{
  slot_of, Known, ReadsRange, cleared_of, swept, Swept, Known-frame, cleared_of-frame, slots_low,
  next_slot, later_slot, one_slot,
}

pub swept-frame :
    (u : Util) (b : Backend) (s s' : Handle) (logs : ℕ → List Operation) (n i x : ℕ)
    → ((j : ℕ)
        → i ≤ j
        → j < i + n
        → cleared_of u s' (slot_of b j) (logs j) ≡ cleared_of u s (slot_of b j) (logs j))
    → swept u b s' logs n i x ≡ swept u b s logs n i x
swept-frame u b s s' logs zero i x same = refl
swept-frame u b s s' logs (suc n) i x same =
    let rest =
      swept-frame u b s s' logs n (i + 1) x
        (λ j p q. same j (omega (arith, p)) (omega (arith, q))) in
    rw (same i (omega arith) (omega arith), rest) refl

Changed-widen :
    {b : Backend} {s s' : Handle} {gone freed : ℕ → Bool} (low high : ℕ)
    → low ≤ high
    → high ≤ b.data_area
    → Changed b high (b.data_area - high) s s' gone freed
    → Changed b low (b.data_area - low) s s' gone freed
Changed-widen low high p q c = record {
  only = c.only;
  zero = c.zero;
  kept = λ x a. c.kept x (omega (arith, a, p, q));
  outside = λ x a f. c.outside x (omega (arith, a, p, q)) f;
  fits = c.fits;
  lists = c.lists;
}

module _ (u : Util) (b : Backend) (h : IsLaidOut b) (reads : ReadsRange u)
    (big : sizeof_tx_slot ≤ b.tx_slot_size) (logs : ℕ → List Operation) where
  -- A slot after slot `i` keeps its bytes when slot `i` is recovered.
  later_same :
      (i j : ℕ) (s s1 : Handle) {gone : ℕ → Bool}
      → i < j
      → j < b.tx_slots_count
      → Dropped b (slot_of b i) s s1 gone no_ids
      → (x : ℕ) → slot_of b j ≤ x
      → x < slot_of b j + b.tx_slot_size
      → mem_of s1 x ≡ mem_of s x
  later_same i j s s1 p q d x low high =
      let behind = later_slot u b h reads big logs i j p in
      let front = slots_low u b h reads big logs (j + 1) (omega (arith, q)) in
      let end = next_slot u b h reads big logs j in
      d.outside x (inr (omega (arith, behind, low, big)))
        (λ id k g. inl (omega (arith, high, front, end, (place-InRegion b h id k).low)))

  -- One slot, and then those behind it.
  Swept-cons :
      (n i : ℕ) (s s1 s2 : Handle)
      → i + suc n ≡ b.tx_slots_count
      → ((j : ℕ) → i ≤ j → j < i + suc n → Known b (mem_of s) (slot_of b j) (logs j))
      → IsEnded b (slot_of b i) s s1 (λ x. elem x (cleared_of u s (slot_of b i) (logs i))) no_ids
      → Swept u b logs n (i + 1) s1 s2
      → Swept u b logs (suc n) i s s2
  Swept-cons n i s s1 s2 count known (status, d) r =
      let low = slots_low u b h reads big logs i (omega (arith, count)) in
      let high = slots_low u b h reads big logs (i + 1) (omega (arith, count)) in
      let end = next_slot u b h reads big logs i in
      let room : sizeof_tx_slot ≤ b.data_area - slot_of b i = omega (arith, high, end, big) in
      let first = Dropped-Changed room d in
      let rest =
        Changed-widen (slot_of b i) (slot_of b (i + 1)) (omega (arith, end)) high r.changed in
      let frame : (x : ℕ) → swept u b s1 logs n (i + 1) x ≡ swept u b s logs n (i + 1) x = λ x.
        swept-frame u b s s1 logs n (i + 1) x (λ j p q.
          cleared_of-frame u b s s1 (slot_of b j) (logs j) reads big
            (later_same i j s s1 (omega (arith, p)) (omega (arith, q, count)) d)
            (known j (omega (arith, p)) (omega (arith, q)))) in
      record {
        empty = λ j p q. elim (Bool-cases (j == i)) [
          | inl same ↦
              let e : j ≡ i = ground (arith, same) in
              rw e (
                load-agree 4 (mem_of s1) (mem_of s2) (status_of (slot_of b i)) (λ x lo hi.
                  r.changed.outside x (inl (omega (arith, hi, end, big))) (λ id k g.
                    inl (omega (arith, hi, end, big, high, (place-InRegion b h id k).low))))
                ∙ status)
          | inr other ↦ r.empty j (ground (arith, p, other)) (omega (arith, q))
        ];
        changed =
            Changed-change
              (λ x. ap (λ f. elem x (cleared_of u s (slot_of b i) (logs i)) || f) (frame x))
              (λ x. refl)
              (Changed-trans b h (slot_of b i) (b.data_area - slot_of b i) s s1 s2 _ _ _ _
                (omega (arith, low)) first rest);
      }

  slot_direct :
      (s : Handle) (i : ℕ)
      → s.backend ≡ b
      → b.tx_slots_count < 255
      → backend_tx_direct (some s.backend) i ≡ (
          if ltb (i % 256) b.tx_slots_count
          then some (b.tx_log + (i % 256) * b.tx_slot_size)
          else none)
  unfolding backend_tx_direct
  slot_direct s i k few = rw k refl

  -- The round for a slot of the pool, empty or not.
  one_round :
      (fuel i : ℕ) (s : Handle)
      → i < b.tx_slots_count
      → b.tx_slots_count < 255
      → s.op_log.tx_slots_count ≡ b.tx_slots_count
      → s.backend ≡ b
      → BlocksFit b (mem_of s)
      → length (logs i) < fuel
      → Known b (mem_of s) (slot_of b i) (logs i)
      → (s1 : Handle) × (tx_log_check u (suc fuel) i s ≡ tx_log_check u fuel (i + 1) s1)
        × IsEnded b (slot_of b i) s s1 (λ x. elem x (cleared_of u s (slot_of b i) (logs i))) no_ids
  unfolding tx_log_check elem
  one_round fuel i s p few count k f l known =
      let visited : leb i s.op_log.tx_slots_count ≡ true = ground (arith, count) in
      let id : i % 256 ≡ i = omega arith in
      let next : (i + 1) % 256 ≡ i + 1 = omega arith in
      let at : backend_tx_direct (some s.backend) i ≡ some (slot_of b i) =
        slot_direct s i k few ∙ ground (arith, id) in
      elim known [
        | inl e ↦
            let empty : (peek 4 s (status_of (slot_of b i)) == Status.empty) ≡ true =
              ground (arith, e) in
            (
              s,
              rw (tx_log_check, visited, at, empty, next) refl,
              (e, rw empty (same-Dropped b h (slot_of b i) s f)),
            )
        | inr o ↦
            let full : (peek 4 s (status_of (slot_of b i)) == Status.empty) ≡ false =
              ground (arith, o.status) in
            let (s1, made, ended) = one_slot u b h reads big logs fuel i s p l k f o in
            (s1, rw (tx_log_check, visited, at, full, next, made, ◌>>=◌) refl, ended)
      ]

  last_round :
      (fuel i : ℕ) (s : Handle)
      → i ≡ b.tx_slots_count
      → b.tx_slots_count < 255
      → s.op_log.tx_slots_count ≡ b.tx_slots_count
      → s.backend ≡ b
      → tx_log_check u (suc (suc fuel)) i s ≡ ok s
  unfolding tx_log_check
  last_round fuel i s e few count k =
      let visited : leb i s.op_log.tx_slots_count ≡ true = ground (arith, count) in
      let id : i % 256 ≡ i = omega arith in
      let next : (i + 1) % 256 ≡ i + 1 = omega arith in
      let at : backend_tx_direct (some s.backend) i ≡ none =
        slot_direct s i k few ∙ ground (arith, id) in
      let past : leb (i + 1) s.op_log.tx_slots_count ≡ false = ground (arith, count) in
      rw (tx_log_check, visited, at, next, past) refl

  -- In a pool that is laid out, whose blocks have room for their objects, with at most 254 slots,
  -- each of which is empty or holds known operations within its bounds, without an update in place
  -- and on blocks other than `data_nlba` that a list can hold, and given a checksum that reads its
  -- range only, `tx_log_check` ends when it starts at slot `i` of the `n` last ones with enough
  -- fuel. Then these slots are empty. Of each slot that was commited with a right checksum the
  -- replaced and removed blocks are cleared, and of each other slot that was not empty the new
  -- blocks. Cleared means of a block that its checksum is 0 and, unless it was 0 before, so is
  -- every byte that the block's header and its two lengths counted. Beyond these blocks and the
  -- slots no byte has changed, and the free lists are as they were.
  pub tx_log_check-Swept :
      (n fuel longest i : ℕ) (s : Handle)
      → i + n ≡ b.tx_slots_count
      → b.tx_slots_count < 255
      → s.op_log.tx_slots_count ≡ b.tx_slots_count
      → s.backend ≡ b
      → BlocksFit b (mem_of s)
      → ((j : ℕ) → i ≤ j → j < i + n → Known b (mem_of s) (slot_of b j) (logs j))
      → ((j : ℕ) → length (logs j) ≤ longest)
      → n + longest + 2 ≤ fuel
      → (s' : Handle) × (tx_log_check u fuel i s ≡ ok s') × Swept u b logs n i s s'
  tx_log_check-Swept zero zero longest i s e few count k f known short enough = absurd (omega arith)
  tx_log_check-Swept zero (suc zero) longest i s e few count k f known short enough =
      absurd (omega arith)
  tx_log_check-Swept zero (suc (suc fuel)) longest i s e few count k f known short enough =
      let low = slots_low u b h reads big logs i (omega (arith, e)) in
      let same = same-Dropped b h (slot_of b i) s f in
      (
        s,
        last_round fuel i s (omega (arith, e)) few count k,
        record {
          empty = λ j p q. absurd (omega arith);
          changed = record {
            only = same.only;
            zero = same.zero;
            kept = λ x a. inl refl;
            outside = λ x a g. refl;
            fits = f;
            lists = same.lists;
          };
        },
      )
  tx_log_check-Swept (suc n) zero longest i s e few count k f known short enough =
      absurd (omega arith)
  tx_log_check-Swept (suc n) (suc fuel) longest i s e few count k f known short enough =
      let (s1, made, ended) =
        one_round fuel i s (omega (arith, e)) few count k f (omega (arith, enough, short i))
          (known i (omega arith) (omega arith)) in
      let d = ended.1 in
      let k1 = ap (λ (x : Handle). x.backend) d.only ∙ k in
      let count1 = ap (λ (x : Handle). x.op_log.tx_slots_count) d.only ∙ count in
      let (s2, rest, r) =
        tx_log_check-Swept n fuel longest (i + 1) s1 (omega (arith, e)) few count1 k1 d.fits
          (λ j p q.
            Known-frame b (mem_of s) (mem_of s1) (slot_of b j) (logs j) big
              (later_same i j s s1 (omega (arith, p)) (omega (arith, q, e)) d)
              (known j (omega (arith, p)) (omega (arith, q))))
          short (omega (arith, enough)) in
      (s2, made ∙ rest, Swept-cons n i s s1 s2 e known ended r)
