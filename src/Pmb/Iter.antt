-- ===== src/Pmb/Iter.antt =====
-- pmbackend.c: the iterator, which takes the ids out of the list of objects that recovery found.
use pmbackend.Base.{ℕ, Bool, false, not, Option, none, some, ◌==◌, if◌then◌else◌}
use pmbackend.Caslist.{Caslist, caslist_pop}
use pmbackend.Kv.{pmb_ok, pmb_err, pmb_eargs, Handle}
use pmbackend.Pmb.Pair.{PmbPair}
use pmbackend.Pmb.Object.{get}

-- struct pmb_iter; its `handle` is passed beside it
pub record PmbIter : Type 0 where
  pub region : Bool
  pub vector_pos : ℕ

abbrev pub objects : Handle → Bool → Option Caslist
objects s region = if region then s.meta_objs_list else s.objs_list

abbrev pub set_objects : Handle → Bool → Option Caslist → Handle
set_objects s region l =
    if region then record s { meta_objs_list = l } else record s { objs_list = l }

-- `malloc` of the iterator is taken to succeed
unfoldable pub iter_open : Handle → (region : Bool) → Handle × Option PmbIter
iter_open s region =
    let (code, obj, list) = caslist_pop (objects s region) 0 in
    (
      set_objects s region list,
      if code == 0 then some (record { region = region; vector_pos = obj }) else none,
    )

unfoldable pub pmb_iter_open : Option Handle → (region : Bool) → Option Handle × Option PmbIter
unfolding iter_open
pmb_iter_open none region = (none, none)
pmb_iter_open (some s) region = let (s', it) = iter_open s region in (some s', it)

unfoldable pub pmb_iter_pos : Option PmbIter → ℕ
pmb_iter_pos none = 0
pmb_iter_pos (some it) = it.vector_pos

unfoldable pub pmb_iter_valid : Option PmbIter → Bool
pmb_iter_valid none = false
pmb_iter_valid (some it) = not (it.vector_pos == 0)

-- The region's list of objects is freed.
unfoldable pub pmb_iter_close : Handle → Option PmbIter → Handle × ℕ
pmb_iter_close s none = (s, pmb_eargs)
pmb_iter_close s (some it) = (set_objects s it.region none, pmb_ok)

unfoldable pub pmb_iter_get : Handle → Option PmbIter → Option PmbPair → Option PmbPair × ℕ
unfolding get pmb_iter_valid
pmb_iter_get s none kv = (kv, pmb_eargs)
pmb_iter_get s (some it) none = (none, pmb_eargs)
pmb_iter_get s (some it) (some kv) =
    let r = get s it.vector_pos kv in
    if pmb_iter_valid (some it) then (some r.0, r.1) else (some kv, pmb_err)

unfoldable pub iter_next : Handle → PmbIter → Handle × PmbIter × ℕ
iter_next s it =
    let (code, pos, list) = caslist_pop (objects s it.region) it.vector_pos in
    (
      set_objects s it.region list,
      record it { vector_pos = pos },
      if code == 0 then pmb_ok else pmb_err,
    )

unfoldable pub pmb_iter_next : Handle → Option PmbIter → Handle × Option PmbIter × ℕ
unfolding iter_next
pmb_iter_next s none = (s, none, pmb_eargs)
pmb_iter_next s (some it) = let (s', it', ret) = iter_next s it in (s', some it', ret)
