-- ===== src/Tests/Sweeps.antt =====
-- The recovery of the slots 1 and 2, the first of which holds a commited transaction.
use pmbackend.Base.{
  ℕ, ◌≡◌, ap, refl, inl, inr, [], arith, ◌==◌, if◌then◌else◌, List, Bool-cases, ◌<◌, ◌≤◌,
}
use pmbackend.Mem.{load}
use pmbackend.Mem.Frame.{load-agree}
use pmbackend.Kv.{ok, mem_of, Handle}
use pmbackend.TxLog.Log.{Operation}
use pmbackend.TxLog.Check.{tx_log_check}
use pmbackend.TxLog.Sweep.{slot_of, Known, ReadsRange, Swept}
use pmbackend.TxLog.Swept.{tx_log_check-Swept}
use pmbackend.Tests.Data.{pool, pool-IsLaidOut, mark}
use pmbackend.Tests.Ends.{commited, two_ops, logged-BlocksFit, commited-Holding}

pub mark-ReadsRange : ReadsRange mark
mark-ReadsRange m m' addr len csump p q same =
    ap (λ n. n == 1)
      (load-agree 8 m m' csump (λ x i j. same x (omega (arith, p, i)) (omega (arith, q, j))))

abbrev logs : ℕ → List Operation
logs j = if j == 1 then two_ops else []

commited-Known : (j : ℕ) → 1 ≤ j → j < 3 → Known pool (mem_of commited) (slot_of pool j) (logs j)
unfolding load
commited-Known j p q = elim (Bool-cases (j == 1)) [
  | inl first ↦
      let e : j ≡ 1 = ground (arith, first) in
      rw e (
        inr (record {
          status = omega arith;
          log = commited-Holding.log;
          bounds = omega arith;
          plain = tt;
          old_ids = ((inl (omega arith), omega arith, omega arith), tt);
          new_ids = ((inl (omega arith), omega arith, omega arith), tt);
        }))
  | inr second ↦ let e : j ≡ 2 = ground (arith, p, q, second) in rw e (inl refl)
]

tx_log_check-Swept_example :
    (s' : Handle) × (tx_log_check mark 6 1 commited ≡ ok s') × Swept mark pool logs 2 1 commited s'
tx_log_check-Swept_example =
    tx_log_check-Swept mark pool pool-IsLaidOut mark-ReadsRange (omega arith) logs 2 6 2 1 commited
      refl (omega arith) refl refl logged-BlocksFit commited-Known (λ j. ground arith) (omega arith)
