-- ===== src/Tests/Starts.antt =====
-- The start of a handle, and the start of a transaction.
use pmbackend.Base.{ℕ, ◌≡◌, refl, false, not, some, [], ◌∷◌, arith}
use pmbackend.Caslist.{caslist_pop}
use pmbackend.Caslist.Many.{elem}
use pmbackend.Kv.{Handle}
use pmbackend.Pmb.Slots.{SlotsFree}
use pmbackend.Pmb.Open.{start_empty}
use pmbackend.Pmb.Fresh.{start_empty_collision}
use pmbackend.Pmb.Recovery.{recovery, visit_all, is_object}
use pmbackend.Pmb.Recovery.Visit.{Lists, visit_all_order}
use pmbackend.Pmb.Recovery.Threads.{Counted, nothing, data_ids, meta_ids, recovery-Lists}
use pmbackend.Tests.Data.{handle, mark, none_left, none_left-Holds}

pub handle-Lists : Lists handle nothing nothing nothing nothing
handle-Lists = record {
  in_free = none_left-Holds;
  in_meta_free = none_left-Holds;
  in_objs = none_left-Holds;
  in_meta_objs = none_left-Holds;
}

pub handle-Counted : Counted handle
handle-Counted = omega arith

recovery-Lists_example :
    Lists
      (recovery mark handle)
      (data_ids handle (λ x. not (is_object mark handle x)))
      (meta_ids handle (λ x. not (is_object mark handle x)))
      (data_ids handle (is_object mark handle))
      (meta_ids handle (is_object mark handle))
recovery-Lists_example = recovery-Lists mark handle handle-Counted handle-Lists

same_ids : (x : ℕ) → elem x (1 ∷ 5 ∷ 2 ∷ []) ≡ elem x (2 ∷ 1 ∷ 5 ∷ 1 ∷ [])
unfolding elem
same_ids x = ground arith

visit_all_order_example :
    visit_all mark (1 ∷ 5 ∷ 2 ∷ []) handle ≡ visit_all mark (2 ∷ 1 ∷ 5 ∷ 1 ∷ []) handle
visit_all_order_example =
    visit_all_order mark handle handle-Lists (1 ∷ 5 ∷ 2 ∷ []) (2 ∷ 1 ∷ 5 ∷ 1 ∷ []) (omega arith)
      (omega arith) same_ids

start_empty_collision_example :
    (let data_pop = caslist_pop (start_empty handle).free_list 0 in
      let meta_pop = caslist_pop (start_empty handle).meta_free_list 0 in
      (data_pop.0 ≡ 0) × (meta_pop.0 ≡ 0) × (data_pop.1 ≡ 1) × (meta_pop.1 ≡ 1))
start_empty_collision_example = start_empty_collision handle handle-Counted (omega arith) 0

abbrev full : Handle
full = record handle { op_log = record handle.op_log { tx_slots_list = some none_left } }

full-SlotsFree : SlotsFree full (λ x. false)
full-SlotsFree = record {
  same_count = refl;
  few = omega arith;
  listed = none_left-Holds;
  range = λ x e. ground arith;
}
