-- ===== src/TxLog/Recovered.antt =====
-- tx_log.c: the recovery of one slot by `tx_log_check`, when the slot's operations are known.
use pmbackend.Base.{
  ℕ, zero, suc, ◌+◌, ◌≤◌, ◌<◌, ◌≡◌, refl, sym, ◌∙◌, ap, Bool, true, false, ◌&&◌, List, [], ◌∷◌,
  ◌++◌, length, ltb, ◌==◌, if◌then◌else◌, arith, inl, inr, Bool-cases,
}
use pmbackend.Mem.{Mem, load}
use pmbackend.Mem.Frame.{load-agree}
use pmbackend.Caslist.Many.{elem}
use pmbackend.Backend.{Backend, sizeof_tx_slot, sizeof_tx_entry}
use pmbackend.Backend.Layout.{IsLaidOut, place-InRegion}
use pmbackend.Kv.{
  Handle, mem_of, poke, peek, status_of, size_of, blk_id1_of, blk_id2_of, ok, ◌>>=◌, Util,
}
use pmbackend.Kv.Status
use pmbackend.TxLog.{direct}
use pmbackend.TxLog.Log.{
  Operation, write, update, updinplace, remove, operation_len, EntryAt, Entries, LogOf, Entries-le,
}
use pmbackend.TxLog.Meta.{tx_slot_checksum}
use pmbackend.TxLog.Process.{set_zero, clear_slot}
use pmbackend.TxLog.Check.{check_entry, check_entries, check_slot}
use pmbackend.TxLog.Dropped.{Dropped-trans, Changed-change, BlocksFit, no_ids}
use pmbackend.TxLog.DropAll.{zero_all, AllDroppable, zero_all-Dropped}
use pmbackend.TxLog.Executed.{Entries-Dropped, clear_slot-Dropped, clear_slot_status}
use pmbackend.TxLog.Ended.{olds, news, AllPlain, length-Entries, IsEnded}
use pmbackend.TxLog.Aborted.{header_poke-Dropped, checksum-Dropped}

-- The blocks that the recovery of a commited operation clears, and of one that was not commited.
abbrev clears : Bool → Operation → List ℕ
clears true (update old new) = old ∷ []
clears true (remove id) = id ∷ []
clears true _ = []
clears false (write id) = id ∷ []
clears false (update old new) = new ∷ []
clears false _ = []

abbrev IsPlain : Operation → Type 0
IsPlain (updinplace id offset payload) = ⊥
IsPlain _ = Unit

-- One round of the loop.
check_entry-zero_all :
    (s : Handle) (commit : Bool) (tx_id first e : ℕ) (op : Operation)
    → EntryAt (mem_of s) e op
    → IsPlain op
    → check_entry s commit tx_id first e ≡ ok (zero_all (clears commit op) s)
unfolding check_entry zero_all
check_entry-zero_all s true tx_id first e (write id) (t, i) p = rw t refl
check_entry-zero_all s false tx_id first e (write id) (t, i) p = rw (t, i) refl
check_entry-zero_all s true tx_id first e (update old new) (t, i, j) p = rw (t, i) refl
check_entry-zero_all s false tx_id first e (update old new) (t, i, j) p = rw (t, j) refl
check_entry-zero_all s true tx_id first e (remove id) (t, i) p = rw (t, i) refl
check_entry-zero_all s false tx_id first e (remove id) (t, i) p = rw t refl
check_entry-zero_all s commit tx_id first e (updinplace id offset payload) g p = absurd p

-- The loop's test that an entry is in use.
entry_used :
    (b : Backend) (m : Mem) (e : ℕ) (op : Operation)
    → EntryAt m e op
    → IsPlain op
    → AllDroppable b (clears true op)
    → AllDroppable b (clears false op)
    → (load 8 m (blk_id1_of e) == 0 && load 8 m (blk_id2_of e) == 0) ≡ false
entry_used b m e (write id) (t, i) p x y = ground (arith, i, y.0.1)
entry_used b m e (update old new) (t, i, j) p x y = ground (arith, i, x.0.1)
entry_used b m e (remove id) (t, i) p x y = ground (arith, i, x.0.1)
entry_used b m e (updinplace id offset payload) g p x y = absurd p

-- All blocks that the recovery clears.
abbrev all_clears : Bool → List Operation → List ℕ
all_clears commit [] = []
all_clears commit (op ∷ ops) = clears commit op ++ all_clears commit ops

zero_all-append :
    (xs ys : List ℕ) (s : Handle) → zero_all (xs ++ ys) s ≡ zero_all ys (zero_all xs s)
unfolding zero_all
zero_all-append [] ys s = refl
zero_all-append (x ∷ xs) ys s = zero_all-append xs ys (set_zero s (direct s x))

AllDroppable-append :
    (b : Backend) (xs ys : List ℕ)
    → AllDroppable b (xs ++ ys)
    → AllDroppable b xs × AllDroppable b ys
AllDroppable-append b [] ys a = (tt, a)
AllDroppable-append b (x ∷ xs) ys a = let r = AllDroppable-append b xs ys a.1 in ((a.0, r.0), r.1)

AllPlain-split :
    (op : Operation) (ops : List Operation) → AllPlain (op ∷ ops) → IsPlain op × AllPlain ops
AllPlain-split (write id) ops p = (tt, p)
AllPlain-split (update old new) ops p = (tt, p)
AllPlain-split (remove id) ops p = (tt, p)
AllPlain-split (updinplace id offset payload) ops p = absurd p

plain_len : (op : Operation) → IsPlain op → operation_len op ≡ sizeof_tx_entry
plain_len (write id) p = refl
plain_len (update old new) p = refl
plain_len (remove id) p = refl
plain_len (updinplace id offset payload) p = absurd p

module _ (b : Backend) (h : IsLaidOut b) (slot : ℕ)
    (front : slot + sizeof_tx_slot ≤ b.data_area) where
  -- The size of a slot with an entry is not touched when blocks are cleared.
  size_kept :
      (ids : List ℕ) (s : Handle)
      → slot + sizeof_tx_slot + sizeof_tx_slot ≤ b.data_area
      → s.backend ≡ b
      → AllDroppable b ids
      → BlocksFit b (mem_of s)
      → peek 8 (zero_all ids s) (size_of slot) ≡ peek 8 s (size_of slot)
  size_kept ids s room k a f =
      let d = zero_all-Dropped b h (slot + sizeof_tx_slot) room ids s k a f in
      load-agree 8 (mem_of s) (mem_of (zero_all ids s)) (size_of slot) (λ x p q.
        d.outside x (inl (omega arith))
          (λ id i g. inl (omega (arith, (place-InRegion b h id i).low))))

  -- The loop clears the blocks.
  check_entries-zero_all :
      (fuel : ℕ) (commit : Bool) (tx_id e end : ℕ) (ops : List Operation) (s : Handle)
      → length ops < fuel
      → slot + sizeof_tx_slot ≤ e
      → end ≤ b.data_area
      → s.backend ≡ b
      → BlocksFit b (mem_of s)
      → AllPlain ops
      → AllDroppable b (all_clears true ops)
      → AllDroppable b (all_clears false ops)
      → slot + peek 8 s (size_of slot) ≡ end
      → Entries (mem_of s) e end ops
      → check_entries fuel commit tx_id slot e s ≡ ok (zero_all (all_clears commit ops) s)
  unfolding check_entries zero_all
  check_entries-zero_all zero commit tx_id e end ops s l low high k f p x y z g =
      absurd (omega arith)
  check_entries-zero_all (suc fuel) commit tx_id e end [] s l low high k f p x y z g =
      let done : ltb e (slot + peek 8 s (size_of slot)) ≡ false = ground (arith, g, z) in
      rw done refl
  check_entries-zero_all (suc fuel) commit tx_id e end (op ∷ ops) s l low high k f p x y z (o, g) =
      let (plain, p') = AllPlain-split op ops p in
      let xs = AllDroppable-append b (clears true op) (all_clears true ops) x in
      let ys = AllDroppable-append b (clears false op) (all_clears false ops) y in
      let here : AllDroppable b (clears commit op) = elim (Bool-cases commit) [
        | inl c ↦ rw c xs.0
        | inr c ↦ rw c ys.0
      ] in
      let n = plain_len op plain in
      let g1 : Entries (mem_of s) (e + sizeof_tx_entry) end ops = rw n at g in
      let behind = Entries-le (mem_of s) (e + sizeof_tx_entry) end ops g1 in
      let more : ltb e (slot + peek 8 s (size_of slot)) ≡ true = ground (arith, behind, z) in
      let used = entry_used b (mem_of s) e op o plain xs.0 ys.0 in
      let s1 = zero_all (clears commit op) s in
      let d = zero_all-Dropped b h slot front (clears commit op) s k here f in
      let k1 = ap (λ (t : Handle). t.backend) d.only ∙ k in
      let z1 : slot + peek 8 s1 (size_of slot) ≡ end =
        omega (arith, z, size_kept (clears commit op) s (omega arith) k here f) in
      let g2 =
        Entries-Dropped b h slot front s s1 (e + sizeof_tx_entry) end ops d (omega arith) high g1 in
      rw
        (
          more,
          used,
          check_entry-zero_all s commit tx_id (slot + sizeof_tx_slot) e op o plain,
          ◌>>=◌,
        )
        (check_entries-zero_all fuel commit tx_id (e + sizeof_tx_entry) end ops s1 (omega arith)
            (omega arith) high k1 d.fits p' xs.1 ys.1 z1 g2
          ∙ ap ok (sym (zero_all-append (clears commit op) (all_clears commit ops) s)))

all_clears-olds : (ops : List Operation) → all_clears true ops ≡ olds ops
all_clears-olds [] = refl
all_clears-olds (write id ∷ ops) = all_clears-olds ops
all_clears-olds (update old new ∷ ops) = ap (λ (l : List ℕ). old ∷ l) (all_clears-olds ops)
all_clears-olds (updinplace id offset payload ∷ ops) = all_clears-olds ops
all_clears-olds (remove id ∷ ops) = ap (λ (l : List ℕ). id ∷ l) (all_clears-olds ops)

all_clears-news : (ops : List Operation) → all_clears false ops ≡ news ops
all_clears-news [] = refl
all_clears-news (write id ∷ ops) = ap (λ (l : List ℕ). id ∷ l) (all_clears-news ops)
all_clears-news (update old new ∷ ops) = ap (λ (l : List ℕ). new ∷ l) (all_clears-news ops)
all_clears-news (updinplace id offset payload ∷ ops) = all_clears-news ops
all_clears-news (remove id ∷ ops) = all_clears-news ops

-- What the recovery takes a transaction for: commited, with a checksum that is right over the range that it tests.
unfoldable pub is_commited : Util → Handle → ℕ → Bool
is_commited u s slot =
    u.verify (mem_of s) slot (sizeof_tx_slot + peek 8 s (size_of slot)) slot
    && peek 4 s (status_of slot) == Status.commited

-- The blocks that the recovery of a slot clears.
abbrev pub cleared_blocks : Bool → List Operation → List ℕ
cleared_blocks commit ops = if commit then olds ops else news ops

cleared_blocks_lem :
    (commit : Bool) (ops : List Operation) → all_clears commit ops ≡ cleared_blocks commit ops
cleared_blocks_lem true ops = all_clears-olds ops
cleared_blocks_lem false ops = all_clears-news ops

module _ (u : Util) (b : Backend) (h : IsLaidOut b) (s : Handle) (tx_id slot : ℕ)
    (ops : List Operation) where
  -- In a pool that is laid out, whose blocks have room for their objects, `tx_log_check` recovers a
  -- slot in front of the blocks, with no update in place and blocks other than `data_nlba` that a
  -- list can hold, when it has more fuel than operations. The slot is empty then. A transaction
  -- that is commited with a right checksum has its replaced and removed blocks cleared, any other
  -- its new blocks. Cleared means of a block that its checksum is 0 and, unless it was 0 before, so
  -- is every byte that the block's header and its two lengths counted. Beyond these blocks and the
  -- slot's header no byte has changed, and the free lists are as they were.
  pub check_slot-IsEnded :
      (fuel : ℕ)
      → length ops < fuel
      → s.backend ≡ b
      → BlocksFit b (mem_of s)
      → LogOf (mem_of s) slot ops
      → slot + peek 8 s (size_of slot) ≤ b.data_area
      → AllPlain ops
      → AllDroppable b (olds ops)
      → AllDroppable b (news ops)
      → (s' : Handle) × (check_slot u fuel s tx_id slot ≡ ok s')
        × IsEnded b slot s s' (λ x. elem x (cleared_blocks (is_commited u s slot) ops)) no_ids
  unfolding check_slot is_commited
  check_slot-IsEnded fuel l k f log high p x y =
      let behind = length-Entries (mem_of s) (slot + sizeof_tx_slot) _ ops p log in
      let front : slot + sizeof_tx_slot ≤ b.data_area = omega (arith, behind, high) in
      let commit = is_commited u s slot in
      let ids = cleared_blocks commit ops in
      let a : AllDroppable b ids = elim (Bool-cases commit) [ inl c ↦ rw c x | inr c ↦ rw c y ] in
      let loop =
        check_entries-zero_all b h slot front fuel commit tx_id (slot + sizeof_tx_slot)
          (slot + peek 8 s (size_of slot)) ops s l (omega arith) high k f p
          (rw (all_clears-olds ops) x) (rw (all_clears-news ops) y) refl log in
      let d = zero_all-Dropped b h slot front ids s k a f in
      let s1 = zero_all ids s in
      let d1 =
        header_poke-Dropped b h slot front 4 (status_of slot) Status.empty s1 (omega arith)
          (omega arith) d.fits in
      let d2 =
        header_poke-Dropped b h slot front 8 (size_of slot) 0 _ (omega arith) (omega arith)
          d1.fits in
      let d3 = checksum-Dropped b h slot front u tx_id _ d2.fits in
      let s2 =
        tx_slot_checksum u (poke 8 (size_of slot) 0 (poke 4 (status_of slot) Status.empty s1)) slot
          tx_id in
      let d4 = clear_slot-Dropped b h slot front s2 d3.fits in
      (
        clear_slot s2 slot,
        rw (check_slot, loop, ◌>>=◌, cleared_blocks_lem commit ops) refl,
        (
          clear_slot_status b h slot front s2,
          Changed-change (λ x. ground arith) (λ x. refl)
              (Dropped-trans b h slot s _ _ _ _ _ _ front d (
                Dropped-trans b h slot _ _ _ _ _ _ _ front d1 (
                  Dropped-trans b h slot _ _ _ _ _ _ _ front d2
                    (Dropped-trans b h slot _ _ _ _ _ _ _ front d3 d4)))),
        ),
      )
