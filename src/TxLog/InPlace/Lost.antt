-- ===== src/TxLog/InPlace/Lost.antt =====
-- tx_log.c: updates in place when the list of updated blocks is as `malloc` left it.
use pmbackend.Base.{ℕ, ◌<◌, ◌≡◌, refl, ◌∙◌, true, false, List, [], ◌∷◌, arith, ◌==◌}
use pmbackend.Kv.{Handle, Run, ok, ◌>>=◌, Util}
use pmbackend.TxLog.Meta.{
  find_meta, bump_meta, start_meta, set_meta, set_metalist, tx_slot_meta_upd_add,
  tx_slot_meta_upd_process,
}
use pmbackend.TxLog.Executed.{process_nothing}

-- `tx_slot_meta_upd_add` for one block and size after another.
abbrev pub add_each : (tx_id : ℕ) → List (ℕ × ℕ) → Handle → Run Handle
add_each tx_id [] s = ok s
add_each tx_id (p ∷ ps) s = do s' ← tx_slot_meta_upd_add s tx_id p.0 p.1; add_each tx_id ps s'

-- The count is 0, but the first entry's id is not.
pub record IsJunk (s : Handle) (tx_id : ℕ) : Type 0 where
  pub count : (s.op_log.upd_id_list tx_id).count ≡ 0
  pub id : 0 < ((s.op_log.upd_id_list tx_id).list 0).id

add-IsJunk :
    (s : Handle) (tx_id blk_id size : ℕ)
    → IsJunk s tx_id
    → (s' : Handle) × (tx_slot_meta_upd_add s tx_id blk_id size ≡ ok s')
      × (s'.world ≡ s.world)
      × IsJunk s' tx_id
unfolding tx_slot_meta_upd_add find_meta bump_meta start_meta
add-IsJunk s tx_id blk_id size k =
    let l = s.op_log.upd_id_list tx_id in
    let used : ((l.list 0).id == 0) ≡ false = ground (arith, k.id) in
    let here : (tx_id == tx_id) ≡ true = ground arith in
    (
      set_metalist s tx_id
          (record { count = l.count; list = set_meta 0 (bump_meta (l.list 0) size) l.list }),
      rw (k.count, used, ◌>>=◌) refl,
      refl,
      record { count = rw here k.count; id = rw here k.id },
    )

-- When a slot's list of updated blocks has a count of 0 and the id that `malloc` left in its first entry is not 0,
-- `tx_slot_meta_upd_add` can be called for any blocks and sizes: it succeeds, but `tx_slot_meta_upd_process` then does
-- nothing, and since before the calls no byte of the memory has changed. The versions and lengths of these updates are lost.
pub upd_process_lost :
    (u : Util) (tx_id : ℕ) (ps : List (ℕ × ℕ)) (s : Handle)
    → IsJunk s tx_id
    → (s' : Handle) × (add_each tx_id ps s ≡ ok s')
      × (tx_slot_meta_upd_process u s' tx_id ≡ ok s')
      × (s'.world ≡ s.world)
upd_process_lost u tx_id [] s k = (s, refl, process_nothing u s tx_id k.count, refl)
upd_process_lost u tx_id (p ∷ ps) s k =
    let (s1, made, same, k1) = add-IsJunk s tx_id p.0 p.1 k in
    let (s2, rest, process, same') = upd_process_lost u tx_id ps s1 k1 in
    (s2, rw (made, ◌>>=◌) rest, process, same' ∙ same)
