-- ===== src/Pmb/Close.antt =====
-- pmbackend.c: `pmb_close`, with caslist_free, tx_log_free and backend_close, and the thread that it stops. What
-- the calls of the C library give back is a list of releases, in the order of the calls.
use pmbackend.Base.{
  ℕ, zero, suc, ◌+◌, ◌<◌, ◌≡◌, refl, true, false, Option, some, none, List, [], ◌∷◌, ◌++◌, ltb,
  ◌==◌, if◌then◌else◌, arith, ◌%◌,
}
use pmbackend.Mem.{World}
use pmbackend.Backend.{Backend, backend_persist_all, backend_get_sync_type}
use pmbackend.Caslist.{Caslist, Link}
use pmbackend.Kv.{Handle, Run, ok, out_of_fuel, ◌>>=◌, pmb_ok, pmb_eargs, pmb_thsync}

-- `free` of a range, of a list, of a slot's `upd_id_list[i].list`, of `upd_id_list` and of the handle;
-- `pthread_cancel` and `pthread_join`; `munlock` and `util_unmap`
pub data Release : Type 0 where
  free_link : Link → Release
  free_caslist : Release
  free_metas : ℕ → Release
  free_upd_id_list : Release
  free_handle : Release
  cancel_thread : Release
  join_thread : Release
  munlock : Release
  unmap : (addr size : ℕ) → Release

unfoldable pub free_links : List Link → List Release
free_links [] = []
free_links (l ∷ ls) = free_link l ∷ free_links ls

unfoldable pub caslist_free : Option Caslist → List Release
unfolding free_links
caslist_free none = []
caslist_free (some c) = free_links c.next ++ free_caslist ∷ []

-- `for (uint8_t i = 0; i < tx_slots_count; i++)`
unfoldable pub free_metas_from : ℕ → (i count : ℕ) → Run (List Release)
free_metas_from zero i count = out_of_fuel
free_metas_from (suc fuel) i count =
    let rest = free_metas_from fuel ((i + 1) % 256) count in
    if ltb i count then (do rs ← rest; ok (free_metas i ∷ rs)) else ok []

unfoldable pub tx_log_free : ℕ → Handle → Run (List Release)
unfolding free_metas_from caslist_free
tx_log_free fuel s = do
  rs ← free_metas_from fuel 0 s.op_log.tx_slots_count
  ok (rs ++ free_upd_id_list ∷ caslist_free s.op_log.tx_slots_list)

unfoldable pub backend_close : Option Backend → List Release
backend_close none = []
backend_close (some b) = munlock ∷ unmap b.addr b.size ∷ []

unfoldable pub stop_thread : Backend → List Release
unfolding backend_get_sync_type
stop_thread b =
    if backend_get_sync_type b == pmb_thsync then cancel_thread ∷ join_thread ∷ [] else []

-- The releases of `pmb_close` around those of `tx_log_free`.
unfoldable pub close_all : Handle → List Release → List Release
unfolding caslist_free backend_close stop_thread
close_all s rs =
    caslist_free s.objs_list
    ++ caslist_free s.meta_objs_list
    ++ caslist_free s.free_list
    ++ caslist_free s.meta_free_list
    ++ rs
    ++ stop_thread s.backend
    ++ backend_close (some s.backend)
    ++ free_handle ∷ []

unfoldable pub pmb_close : ℕ → Option Handle → Run (List Release × ℕ)
unfolding tx_log_free close_all
pmb_close fuel none = ok ([], pmb_eargs)
pmb_close fuel (some s) = do rs ← tx_log_free fuel s; ok (close_all s rs, pmb_ok)

-- `_sync_thread`: this many rounds of its loop.
unfoldable pub sync_rounds : ℕ → Backend → World → World
unfolding backend_persist_all
sync_rounds zero b w = w
sync_rounds (suc n) b w = sync_rounds n b (backend_persist_all (some b) w).0

-- The releases of the lists of updated blocks, from slot `i` on.
abbrev metas : (n i : ℕ) → List Release
metas zero i = []
metas (suc n) i = free_metas i ∷ metas n (i + 1)

free_metas_from-metas :
    (fuel n i count : ℕ)
    → n < fuel
    → i + n ≡ count
    → count < 256
    → free_metas_from fuel i count ≡ ok (metas n i)
unfolding free_metas_from
free_metas_from-metas zero n i count f e b = absurd (omega arith)
free_metas_from-metas (suc fuel) zero i count f e b =
    let done : ltb i count ≡ false = ground arith in rw done refl
free_metas_from-metas (suc fuel) (suc n) i count f e b =
    let more : ltb i count ≡ true = ground arith in
    let wrap : (i + 1) % 256 ≡ i + 1 = omega arith in
    rw (more, wrap, free_metas_from-metas fuel n (i + 1) count (omega arith) (omega arith) b) refl

-- With more fuel than slots, and a number of slots that fits into a `uint8_t`, `pmb_close` of a handle ends and
-- returns PMB_OK, and gives back the list of updated blocks of every slot once, in the order of the slots.
pub pmb_close-ok :
    (fuel : ℕ) (s : Handle)
    → s.op_log.tx_slots_count < 256
    → s.op_log.tx_slots_count < fuel
    → pmb_close fuel (some s)
      ≡ ok (
        close_all s (
            metas s.op_log.tx_slots_count 0
            ++ free_upd_id_list ∷ caslist_free s.op_log.tx_slots_list),
        pmb_ok,
      )
unfolding pmb_close tx_log_free
pmb_close-ok fuel s b f =
    rw
      (
        free_metas_from-metas fuel s.op_log.tx_slots_count 0 s.op_log.tx_slots_count f (omega arith)
            b,
        ◌>>=◌,
      )
      refl
