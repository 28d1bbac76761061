-- ===== src/Pmb/Kept.antt =====
-- pmbackend.c: a new object whose transaction is commited and executed.
use pmbackend.Base.{
  ℕ, ◌+◌, ◌≤◌, ◌<◌, ◌≡◌, ◌≢◌, refl, sym, ◌∙◌, ap, [], ◌∷◌, arith, some, ◌==◌, ◌||◌, ◌&&◌, not, Bool,
  inr, pred64, ◌%◌,
}
use pmbackend.Mem.{read_bytes}
use pmbackend.Mem.Frame.{load-agree, read_bytes-agree}
use pmbackend.Backend.{Backend, sizeof_tx_slot}
use pmbackend.Backend.Layout.{place, place-InRegion}
use pmbackend.Caslist.Many.{elem, Holds, Holds-change, caslist_push-Holds}
use pmbackend.Kv.{Handle, mem_of, peek, id_of, key_len_of, val_len_of, pmb_ok, ok, Util, OpLog}
use pmbackend.TxLog.{direct, tx_log_free_slot}
use pmbackend.TxLog.Log.{write}
use pmbackend.TxLog.Process.{tx_slot_commit}
use pmbackend.TxLog.Dropped.{Beside}
use pmbackend.Pmb.Pair.{PmbPair}
use pmbackend.Pmb.Object.{get, fill_pair}
use pmbackend.Pmb.Put.{tput}
use pmbackend.Pmb.Tx.{tx_commit, tx_execute}
use pmbackend.Pmb.Ending.{commit-execute-Dropped}
use pmbackend.Pmb.RoundTrip.{IsGot, get-found, IsPut-IsGot}
use pmbackend.Pmb.Life.{
  Ready, next_id, takes_id, is_block, at_block, Ready-IsPut, put-outside, after-backend,
  after-op_log, after-Holding, after-FreeLists,
}

-- A handle that knows the same pool and whose memory is the same from the object on.
module _ (s s' : Handle) (id obj : ℕ) (pool : s'.backend ≡ s.backend)
    (count : s'.total_objs_count ≡ s.total_objs_count) (max : s'.max_key_len ≡ s.max_key_len)
    (same : (x : ℕ) → obj ≤ x → mem_of s' x ≡ mem_of s x) where
  fill_pair_same : fill_pair s' id obj ≡ fill_pair s id obj
  unfolding fill_pair
  fill_pair_same =
      let p =
        load-agree 4 (mem_of s) (mem_of s') (val_len_of obj) (λ x p q. same x (omega arith)) in
      let q =
        load-agree 4 (mem_of s) (mem_of s') (key_len_of obj) (λ x p q. same x (omega arith)) in
      let r = load-agree 8 (mem_of s) (mem_of s') (id_of obj) (λ x p q. same x (omega arith)) in
      rw (p, q, r, count, max) refl

  get_same :
      (old : PmbPair)
      → 0 < id
      → direct s id ≡ some obj
      → peek 8 s obj ≢ 0
      → get s' id old ≡ get s id old
  get_same old pos d filled =
      let f : peek 8 s' obj ≡ peek 8 s obj =
        load-agree 8 (mem_of s) (mem_of s') obj (λ x p q. same x p) in
      get-found s' id obj old pos (rw pool d) (rw f filled)
      ∙ ap (λ (p : PmbPair). (p, pmb_ok)) fill_pair_same
      ∙ sym (get-found s id obj old pos d filled)

  -- What `pmb_get` gave of an object with a value, it still gives.
  IsGot-same :
      (t : Handle) (kv old : PmbPair)
      → 0 < id
      → 0 < kv.val_len
      → direct s id ≡ some obj
      → peek 8 s obj ≢ 0
      → IsGot t kv id s (get s id old)
      → IsGot t kv id s' (get s' id old)
  unfolding fill_pair
  IsGot-same t kv old pos v d filled g0 =
      let found_eq = get-found s id obj old pos d filled in
      let g : IsGot t kv id s (fill_pair s id obj, pmb_ok) = rw found_eq at g0 in
      let len : peek 4 s (val_len_of obj) ≡ kv.val_len = g.val_len in
      let reads : (a n : ℕ) → obj ≤ a → read_bytes (mem_of s') a n ≡ read_bytes (mem_of s) a n =
        λ a n p. read_bytes-agree (mem_of s) (mem_of s') a n (λ x i j. same x (omega arith)) in
      rw (get_same old pos d filled, found_eq)
        (record {
          code = g.code;
          blk_id = g.blk_id;
          id_eq = g.id_eq;
          key_len = g.key_len;
          val_len = g.val_len;
          key = reads _ kv.key_len (omega arith) ∙ g.key;
          value = reads _ kv.val_len (ground (arith, len)) ∙ g.value;
        })

-- The transaction took effect: the object is found with its key and its value, its block is no longer free, the
-- slot is free, and the other blocks are as before.
pub record IsKept (b : Backend) (s s' : Handle) (tx_slot id : ℕ) (kv old : PmbPair)
    (free slots : ℕ → Bool) : Type 0 where
  pub got : IsGot s kv id s' (get s' id old)
  pub data_free : Holds (λ x. free x && not (x == id)) s'.free_list
  pub slots_list : Holds (λ x. x == tx_slot || slots x) s'.op_log.tx_slots_list
  pub others : (x : ℕ) → b.data_area ≤ x → Beside b id x → mem_of s' x ≡ mem_of s x

module _ (u : Util) (b : Backend) (s : Handle) (tx_slot slot : ℕ) (kv : PmbPair)
    (free meta_free slots : ℕ → Bool) (r : Ready b s tx_slot slot kv free meta_free slots) where
  abbrev put : Handle
  put = (tput u s tx_slot kv).0

  abbrev commited : Handle
  commited = (tx_slot_commit u put tx_slot).0

  -- From a handle as `Ready` describes it, and for a pair with an offset of 0 whose object gets a checksum that is not 0,
  -- `pmb_tput`, `pmb_tx_commit` and `pmb_tx_execute` return PMB_OK one after the other. Then `pmb_get` of the block finds the pair's
  -- fields, key and value, the block's id is off the free list and the other ids on it are as before, the
  -- transaction's slot is free, and the bytes of the other blocks are as before.
  pub tput-commit-execute-IsKept :
      (old : PmbPair)
      → kv.offset ≡ 0
      → peek 8 put (place b (next_id s)) ≢ 0
      → (s' : Handle) × ((tput u s tx_slot kv).2 ≡ pmb_ok)
        × (tx_commit u put tx_slot ≡ (commited, pmb_ok))
        × (tx_execute u commited tx_slot ≡ ok (s', pmb_ok))
        × IsKept b s s' tx_slot (next_id s) kv old free slots
  unfolding tx_log_free_slot elem
  tput-commit-execute-IsKept old o filled =
      let t = takes_id u b s tx_slot slot kv free meta_free slots r in
      let i = is_block u b s tx_slot slot kv free meta_free slots r in
      let at = at_block u b s tx_slot slot kv free meta_free slots r in
      let p = (Ready-IsPut u b s tx_slot slot kv free meta_free slots r).0 in
      let c = after-Holding u b s tx_slot slot kv free meta_free slots r in
      let log1 : put.op_log ≡ s.op_log =
        after-op_log u b s tx_slot slot kv free meta_free slots r in
      let in_range : (0 < tx_slot) × (tx_slot ≤ put.op_log.tx_slots_count) =
        rw log1 (omega (arith, r.in_range)) in
      let front : slot + sizeof_tx_slot ≤ b.data_area = omega (arith, c.log, c.front) in
      let (s3, e1, e2, d) =
        commit-execute-Dropped u b r.laid_out put tx_slot slot (write (next_id s) ∷ []) c in_range
          front tt tt
          (ap (λ (x : OpLog). (x.upd_id_list (pred64 tx_slot % 256)).count) log1 ∙ r.pending) in
      let log3 : s3.op_log ≡ s.op_log = ap (λ (x : Handle). x.op_log) d.only ∙ log1 in
      let same : (x : ℕ) → b.data_area ≤ x → mem_of s3 x ≡ mem_of put x =
        λ x low. d.outside x (inr (omega (arith, front))) (λ j k g. ground (arith, g)) in
      let low = (place-InRegion b r.laid_out (next_id s) i).low in
      let l = d.lists _ _ (after-FreeLists u b s tx_slot slot kv free meta_free slots r) in
      let g0 =
        IsPut-IsGot s tx_slot slot [] kv (next_id s) (place b (next_id s)) (tput u s tx_slot kv) old
          p o r.new.val_len.0 t.1 (omega (arith, t, r.count)) at filled in
      (
        tx_log_free_slot s3 tx_slot,
        p.code,
        e1,
        e2,
        record {
          got =
              IsGot-same put (tx_log_free_slot s3 tx_slot) (next_id s) (place b (next_id s))
                (ap (λ (x : Handle). x.backend) d.only)
                (ap (λ (x : Handle). x.total_objs_count) d.only)
                (ap (λ (x : Handle). x.max_key_len) d.only) (λ x q. same x (omega (arith, low))) s
                kv old t.1 r.new.val_len.0
                (rw (after-backend u b s tx_slot slot kv free meta_free slots r) (rw r.pool at at))
                filled g0;
          data_free = Holds-change _ _ l.data_side (λ x. ground arith);
          slots_list = rw log3 (
              Holds-change _ _
                (caslist_push-Holds slots s.op_log.tx_slots_list tx_slot (omega (arith, r.in_range))
                  r.slots_list)
                (λ x. ground (arith, r.in_range)));
          others =
              λ x a f. same x a ∙ put-outside u b s tx_slot slot kv free meta_free slots r x a f;
        },
      )
