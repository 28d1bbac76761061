-- ===== src/Pmb/Recovery.antt =====
-- pmbackend.c: `recovery`, which sorts the blocks of an opened pool into objects and free blocks, and
-- `populate_free_list` for a new pool. The threads only push to the lists, under each list's mutex,
-- so that what they do is a sequence of visits of positions.
pub mod Visit
pub mod Threads
use pmbackend.Base.{
  ℕ, zero, suc, ◌+◌, ◌-◌, ◌*◌, ◌/◌, ◌%◌, Bool, true, false, not, Option, none, some, List, [], ◌∷◌,
  ◌++◌, ltb, leb, ◌==◌, if◌then◌else◌, two64, pred64,
}
use pmbackend.Backend.{sizeof_data_hdr, Found, found, missing, backend_get}
use pmbackend.Caslist.{caslist_push}
use pmbackend.Kv.{pmb_ok, key_len_of, val_len_of, Handle, mem_of, peek, Util}
use pmbackend.Pmb.Object.{pmb_ntotal}

-- The bytes of an object that its checksum covers.
unfoldable pub object_size : Handle → (meta : Bool) → (obj : ℕ) → ℕ
object_size s meta obj =
    if meta
    then sizeof_data_hdr + peek 4 s (key_len_of obj) + peek 4 s (val_len_of obj)
    else sizeof_data_hdr + s.max_key_len + peek 4 s (val_len_of obj)

abbrev pub push_free : (meta : Bool) → ℕ → Handle → Handle
push_free meta pos s =
    if meta
    then record s { meta_free_list = caslist_push s.meta_free_list pos }
    else record s { free_list = caslist_push s.free_list pos }

abbrev pub push_objs : (meta : Bool) → ℕ → Handle → Handle
push_objs meta pos s =
    if meta
    then record s { meta_objs_list = caslist_push s.meta_objs_list pos }
    else record s { objs_list = caslist_push s.objs_list pos }

-- `pos > border`
unfoldable pub in_meta : Handle → ℕ → Bool
unfolding pmb_ntotal
in_meta s pos = ltb (pmb_ntotal (some s) false) pos

module _ (u : Util) where
  -- The block holds an object whose checksum is right.
  unfoldable pub is_object : Handle → (pos : ℕ) → Bool
  unfolding object_size in_meta
  is_object s pos = elim (backend_get (some s.backend) (mem_of s) pos) [
    | missing _ ↦ false
    | found obj ↦ u.verify (mem_of s) obj (object_size s (in_meta s pos) obj) obj
  ]

  -- The loop body of `recovery_thread`.
  unfoldable pub visit : ℕ → Handle → Handle
  unfolding is_object in_meta
  visit pos s =
      if is_object s pos then push_objs (in_meta s pos) pos s else push_free (in_meta s pos) pos s

  -- Visits in the order in which they happen.
  unfoldable pub visit_all : List ℕ → Handle → Handle
  unfolding visit
  visit_all [] s = s
  visit_all (pos ∷ ps) s = visit_all ps (visit pos s)

-- The positions from `start` on.
unfoldable pub positions : (start n : ℕ) → List ℕ
positions start zero = []
positions start (suc n) = start ∷ positions (start + 1) n

-- The work of a thread: `for (pos = start; pos < stop; pos++)`.
abbrev pub thread_positions : (start stop : ℕ) → List ℕ
thread_positions start stop = positions start (stop - start)

abbrev pub threads_num : ℕ
threads_num = 8

unfoldable pub part : Handle → ℕ
unfolding pmb_ntotal
part s = ((pmb_ntotal (some s) false + pmb_ntotal (some s) true) % two64) / threads_num

unfoldable pub recovery_start : Handle → (i : ℕ) → ℕ
unfolding part
recovery_start s i = if i == 0 then part s * i + 1 else part s * i

unfoldable pub recovery_stop : Handle → (i : ℕ) → ℕ
unfolding part
recovery_stop s i =
    if ltb i (threads_num - 1)
    then part s * (i + 1)
    else (s.total_objs_count + s.meta_objs_count) % two64

-- The positions of the threads from the ith on; `rounds` threads are left.
unfoldable pub from_thread : Handle → (rounds i : ℕ) → List ℕ
unfolding recovery_start recovery_stop positions
from_thread s zero i = []
from_thread s (suc rounds) i =
    thread_positions (recovery_start s i) (recovery_stop s i) ++ from_thread s rounds (i + 1)

abbrev pub all_positions : Handle → List ℕ
all_positions s = from_thread s threads_num 0

-- `recovery` under the schedule that runs the threads one after another.
unfoldable pub recovery : Util → Handle → Handle
unfolding visit_all from_thread
recovery u s = visit_all u (all_positions s) s

-- `for (pos = total + meta - 1; pos > 0; pos--)`
unfoldable pub populate : (pos : ℕ) → Handle → Handle
populate zero s = s
populate (suc n) s =
    populate n (push_free (not (leb (suc n) (pred64 s.total_objs_count))) (suc n) s)

unfoldable pub populate_free_list : Handle → Handle
unfolding populate
populate_free_list s = populate (pred64 (s.total_objs_count + s.meta_objs_count)) s
