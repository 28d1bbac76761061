-- ===== src/TxLog/Init.antt =====
-- tx_log.c: `tx_log_init`, which counts with a `uint8_t`.
use pmbackend.Base.{
  ℕ, zero, suc, ◌+◌, ◌-◌, ◌≤◌, ◌<◌, ◌≡◌, refl, true, ◌&&◌, Bool-cases, inl, inr, ◌⊎◌, false, arith,
  ltb, leb, ◌==◌, if◌then◌else◌, ◌%◌, ◌/◌, two32, two64,
}
use pmbackend.Caslist.{caslist_new, caslist_push}
use pmbackend.Caslist.Many.{interval-Holds, Holds, Holds-change, caslist_push-Holds}
use pmbackend.Backend.{sizeof_tx_slot, sizeof_tx_entry}
use pmbackend.Kv.{get_block_size, Handle, OpLog, ok, fault, ◌>>=◌, TxMeta}
use pmbackend.TxLog.{tx_log_init_loop, tx_log_init}

-- The log that the loop begins with.
abbrev start_log : Handle → (ℕ → ℕ → TxMeta) → ℕ → OpLog
start_log s junk n = record {
  tx_slots_count = n;
  tx_slots_list = caslist_new true 1 n;
  tx_slot_capacity =
      ((get_block_size s.max_key_len s.max_val_len + two64 - sizeof_tx_slot)
        % two64
        / sizeof_tx_entry)
      % two32;
  upd_id_list = λ j. record { count = 0; list = junk j };
}

-- With 255 slots `i <= tx_slots_count` holds for every `uint8_t`, and `i` comes to 0.
init_loop-fault :
    (fuel : ℕ) (junk : ℕ → ℕ → TxMeta) (i : ℕ) (l : OpLog)
    → i < 256
    → l.tx_slots_count ≡ 255
    → ((i ≡ 0) × (0 < fuel)) ⊎ ((0 < i) × (256 < fuel + i))
    → tx_log_init_loop fuel junk i l ≡ fault
unfolding tx_log_init_loop
init_loop-fault zero junk i l b e h = absurd (omega (arith, h))
init_loop-fault (suc fuel) junk i l b e h =
    let test : leb i l.tx_slots_count ≡ true = ground arith in
    elim (Bool-cases (i == 0)) [
      | inl here ↦ rw (test, here) refl
      | inr later ↦
          rw (test, later)
            (init_loop-fault fuel junk ((i + 1) % 256) _ (omega arith) e
              (elim (Bool-cases (i == 255)) [
                | inl last ↦ inl (ground (arith, last), ground (arith, last, h))
                | inr before ↦
                    inr (ground (arith, later, before, h), ground (arith, later, before, h))
              ]))
    ]

-- `tx_log_init` with 255 slots and more fuel than these writes in front of the array of the lists of updated
-- blocks: its counter wraps around to 0 before the loop ends.
pub tx_log_init-fault :
    (fuel : ℕ) (junk : ℕ → ℕ → TxMeta) (s : Handle)
    → 255 < fuel
    → tx_log_init fuel junk s 255 ≡ fault
unfolding tx_log_init
tx_log_init-fault fuel junk s f =
    rw
      (
        init_loop-fault fuel junk 1 (start_log s junk 255) (omega arith) refl
            (inr (omega arith, omega (arith, f))),
        ◌>>=◌,
      )
      refl

-- The slots from 1 to `n` are free, and every slot's list of updated blocks is empty.
pub record AllFree (l : OpLog) (n : ℕ) : Type 0 where
  pub count : l.tx_slots_count ≡ n
  pub slots : Holds (λ x. ltb 0 x && leb x n) l.tx_slots_list
  pub updates : (j : ℕ) → (l.upd_id_list j).count ≡ 0

init_loop-AllFree :
    (fuel : ℕ) (junk : ℕ → ℕ → TxMeta) (i n : ℕ) (l : OpLog)
    → n < 255
    → 0 < i
    → i ≤ n + 1
    → n + 1 < fuel + i
    → AllFree l n
    → (l' : OpLog) × (tx_log_init_loop fuel junk i l ≡ ok l') × AllFree l' n
unfolding tx_log_init_loop
init_loop-AllFree zero junk i n l b p q f h = absurd (omega arith)
init_loop-AllFree (suc fuel) junk i n l b p q f h = elim (Bool-cases (leb i l.tx_slots_count)) [
  | inl more ↦
      let wrap : (i + 1) % 256 ≡ i + 1 = ground (arith, h.count) in
      let l' : OpLog = record l {
        tx_slots_list = caslist_push l.tx_slots_list i;
        upd_id_list =
            λ j. if j == i - 1 then record { count = 0; list = junk j } else l.upd_id_list j;
      } in
      let pushed =
        caslist_push-Holds (λ x. ltb 0 x && leb x n) l.tx_slots_list i (ground (arith, h.count))
          h.slots in
      let h' : AllFree l' n = record {
        count = h.count;
        slots = Holds-change _ _ pushed (λ x. ground (arith, h.count));
        updates = λ j. ground (arith, h.updates j);
      } in
      let some_slot : (i == 0) ≡ false = ground arith in
      rw (more, wrap, some_slot)
        (init_loop-AllFree fuel junk (i + 1) n l' b (omega arith) (ground (arith, h.count))
          (omega arith) h')
  | inr done ↦ (l, rw done, h)
]

-- Of the handle only the log is set.
pub tx_log_init-log :
    (fuel : ℕ) (junk : ℕ → ℕ → TxMeta) (s : Handle) (n : ℕ)
    → 0 < n
    → n < 255
    → n < fuel
    → (l : OpLog) × (tx_log_init fuel junk s n ≡ ok (record s { op_log = l })) × AllFree l n
unfolding tx_log_init
tx_log_init-log fuel junk s n p b f =
    let (l, e, h) =
      init_loop-AllFree fuel junk 1 n (start_log s junk n) b (omega arith) (omega arith)
        (omega arith)
        (record { count = refl; slots = interval-Holds n p (omega arith); updates = λ j. refl }) in
    (l, rw (e, ◌>>=◌), h)

-- With 1 to 254 slots and more fuel than slots, `tx_log_init` ends; every slot is free, and every list of
-- updated blocks is empty.
pub tx_log_init-AllFree :
    (fuel : ℕ) (junk : ℕ → ℕ → TxMeta) (s : Handle) (n : ℕ)
    → 0 < n
    → n < 255
    → n < fuel
    → (s' : Handle) × (tx_log_init fuel junk s n ≡ ok s') × AllFree s'.op_log n
tx_log_init-AllFree fuel junk s n p b f =
    let (l, e, h) = tx_log_init-log fuel junk s n p b f in (record s { op_log = l }, e, h)
