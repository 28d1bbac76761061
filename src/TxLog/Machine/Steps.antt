-- ===== src/TxLog/Machine/Steps.antt =====
-- tx_log.c: a call on a handle that shows a state leaves one that shows the machine's next state.
use pmbackend.Base.{
  ℕ, ◌+◌, ◌≤◌, ◌<◌, ◌≡◌, ◌≢◌, refl, ◌∙◌, ap, List, [], ◌∷◌, ◌++◌, length, arith, Bool, ◌⊎◌, two64,
}
use pmbackend.Caslist.Many.{elem}
use pmbackend.Backend.{Backend, sizeof_tx_entry}
use pmbackend.Backend.Layout.{IsLaidOut}
use pmbackend.Kv.{Handle, mem_of, peek, status_of, size_of, pmb_ok, pmb_err, Run, ok}
use pmbackend.Kv.Status
use pmbackend.TxLog.Log.{Operation, write, update, updinplace, remove}
use pmbackend.TxLog.Open.{InProgress}
use pmbackend.TxLog.Dropped.{Changed, Changed-change, Changed-trans, no_ids}
use pmbackend.TxLog.Drop.{slot-Changed}
use pmbackend.TxLog.DropAll.{AllDroppable}
use pmbackend.TxLog.Ended.{olds, news, AllPlain, IsEnded}
use pmbackend.TxLog.Machine.{Phase, idle, opened, sealed, State, ended, note_in, NoteFits}
use pmbackend.TxLog.Machine.Shows.{
  InSlot, ShowsPhase, Shows, IsRoom, size-Logged, Dropped-Changed, full_after,
}
use pmbackend.TxLog.Machine.Notes.{Noted}

-- One more operation.
AllPlain-snoc :
    (ops : List Operation) (op : Operation)
    → AllPlain ops
    → AllPlain (op ∷ [])
    → AllPlain (ops ++ op ∷ [])
AllPlain-snoc [] op p q = q
AllPlain-snoc (write id ∷ ops) op p q = AllPlain-snoc ops op p q
AllPlain-snoc (update old new ∷ ops) op p q = AllPlain-snoc ops op p q
AllPlain-snoc (remove id ∷ ops) op p q = AllPlain-snoc ops op p q
AllPlain-snoc (updinplace id offset payload ∷ ops) op p q = absurd p

olds-snoc :
    (b : Backend) (ops : List Operation) (op : Operation)
    → AllDroppable b (olds ops)
    → AllDroppable b (olds (op ∷ []))
    → AllDroppable b (olds (ops ++ op ∷ []))
olds-snoc b [] op p q = q
olds-snoc b (write id ∷ ops) op p q = olds-snoc b ops op p q
olds-snoc b (update old new ∷ ops) op p q = (p.0, olds-snoc b ops op p.1 q)
olds-snoc b (remove id ∷ ops) op p q = (p.0, olds-snoc b ops op p.1 q)
olds-snoc b (updinplace id offset payload ∷ ops) op p q = olds-snoc b ops op p q

news-snoc :
    (b : Backend) (ops : List Operation) (op : Operation)
    → AllDroppable b (news ops)
    → AllDroppable b (news (op ∷ []))
    → AllDroppable b (news (ops ++ op ∷ []))
news-snoc b [] op p q = q
news-snoc b (write id ∷ ops) op p q = (p.0, news-snoc b ops op p.1 q)
news-snoc b (update old new ∷ ops) op p q = (p.0, news-snoc b ops op p.1 q)
news-snoc b (remove id ∷ ops) op p q = news-snoc b ops op p q
news-snoc b (updinplace id offset payload ∷ ops) op p q = news-snoc b ops op p q

length-snoc : (ops : List Operation) (op : Operation) → length (ops ++ op ∷ []) ≡ length ops + 1
length-snoc [] op = refl
length-snoc (o ∷ ops) op = omega (arith, length-snoc ops op)

-- The run ends with the machine's code, in a handle that shows the machine's state.
abbrev pub Follows :
    (b : Backend) (room slot : ℕ) (s0 : Handle) → Run (Handle × ℕ) → State × ℕ → Type 0
Follows b room slot s0 r (st, code) =
    (s' : Handle) × (r ≡ ok (s', code)) × Shows b room slot s0 s' st

module _ (b : Backend) (h : IsLaidOut b) (room slot : ℕ) (r : IsRoom b room slot) (s0 s : Handle)
    (st : State) (sh : Shows b room slot s0 s st) where
  -- The blocks stay, and the slot shows another phase.
  pub rephase :
      (s' : Handle) (p : Phase)
      → s' ≡ record s { world = s'.world }
      → ((x : ℕ) → (x < slot) ⊎ (slot + room ≤ x) → mem_of s' x ≡ mem_of s x)
      → ShowsPhase b room slot s' p
      → Shows b room slot s0 s' (record st { phase = p })
  rephase s' p only out ph =
      let c : Changed b slot room s s' no_ids no_ids =
        rw only (slot-Changed b h slot room s s'.world r.front sh.changed.fits out) in
      record {
        phase = ph;
        full = λ x i.
            full_after b room slot s s' _ _ st.full h r sh.changed.fits c sh.full x i
            ∙ ground arith;
        changed =
            Changed-change (λ x. ground arith) (λ x. ground arith)
              (Changed-trans b h slot room s0 s s' _ _ _ _ r.front sh.changed c);
      }

  -- The transaction has ended.
  pub end_phase :
      (s' : Handle) (ids : List ℕ) (back : ℕ → Bool)
      → IsEnded b slot s s' (λ x. elem x ids) back
      → Shows b room slot s0 s' (ended ids back st)
  end_phase s' ids back (status, d) =
      let c = Dropped-Changed r.least d in
      record {
        phase = status;
        full = full_after b room slot s s' _ _ st.full h r sh.changed.fits c sh.full;
        changed = Changed-trans b h slot room s0 s s' _ _ _ _ r.front sh.changed c;
      }

  -- An operation is registered in an open transaction, and refused by any other.
  pub note-Follows :
      (id : ℕ) (op : Operation) (ids : List ℕ) (result : Handle × ℕ) (p : Phase)
      → InSlot b slot id s
      → st.phase ≡ p
      → NoteFits b room ids p
      → (AllDroppable b ids
          → AllPlain (op ∷ []) × AllDroppable b (olds (op ∷ [])) × AllDroppable b (news (op ∷ [])))
      → (AllDroppable b ids
          → (ops : List Operation) → InProgress s id slot ops
          → peek 8 s (size_of slot) + sizeof_tx_entry < two64
          → Noted s id slot ops op result)
      → (peek 4 s (status_of slot) ≢ Status.processing → result ≡ (s, pmb_err))
      → Follows b room slot s0 (ok result) (note_in op p st)
  note-Follows id op ids result idle i e f named noted closed =
      let status = rw e at sh.phase in (s, ap ok (closed (omega (arith, status))), sh)
  note-Follows id op ids result (sealed ops) i e f named noted closed =
      let status = rw e at sh.phase in (s, ap ok (closed (omega (arith, status.0))), sh)
  note-Follows id op ids result (opened ops) i e (drops, fits) named noted closed =
      let (status, l) = rw e at sh.phase in
      let size = size-Logged b room slot s ops l in
      let n =
        noted drops ops (record { place = i.place; status = status; log = l.log })
          (omega (arith, size, fits, r.word)) in
      let (plain, old_ids, new_ids) = named drops in
      let same : result ≡ (result.0, pmb_ok) = λ j. (result.0, n.code j) in
      (
        result.0,
        ap ok same,
        rephase result.0 (opened (ops ++ op ∷ [])) n.only
            (λ x a. n.outside x (omega (arith, size, fits, a)))
            (
              n.now.status,
              record {
                log = n.now.log;
                plain = AllPlain-snoc ops op l.plain plain;
                old_ids = olds-snoc b ops op l.old_ids old_ids;
                new_ids = news-snoc b ops op l.new_ids new_ids;
                fits = omega (arith, length-snoc ops op, fits);
              },
            ),
      )
