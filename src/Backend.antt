-- ===== src/Backend.antt =====
-- backend.c and backend.h: the pool file mapped into memory, cut into the transaction slots, the data
-- blocks and the metadata blocks. A pointer is an address, `none` is `NULL`. What NVML does is a
-- parameter: `Pool` of Map holds the outcome of its calls.
pub mod Map
pub mod Layout
pub mod Mapped
pub mod Struct
use pmbackend.Base.{
  ℕ, ◌+◌, ◌-◌, ◌*◌, ◌/◌, ◌%◌, Bool, true, false, ◌&&◌, not, Option, none, some, ltb, ◌==◌,
  if◌then◌else◌, two64, two32, pred64,
}
use pmbackend.Mem.{
  Mem, World, with_mem, happened, load, store, memcpy, memset_zero, Event, persisted, scheduled,
  read_bytes, write_bytes,
}

abbrev pub data_align : ℕ
data_align = 4096

-- The smallest pool that NVML is asked for.
abbrev pub min_pool : ℕ
min_pool = 20 * 1024 * 1024

-- sizeof (pmb_data_hdr), sizeof (tx_slot) and sizeof (tx_entry), with the compiler's padding
abbrev pub sizeof_data_hdr : ℕ
sizeof_data_hdr = 32

abbrev pub sizeof_tx_slot : ℕ
sizeof_tx_slot = 24

abbrev pub sizeof_tx_entry : ℕ
sizeof_tx_entry = 24

-- The error values of backend.h.
abbrev pub backend_ok : ℕ
backend_ok = 0

abbrev pub backend_no_backend : ℕ
backend_no_backend = 1

abbrev pub backend_enoent : ℕ
backend_enoent = 2

abbrev pub backend_inv_id : ℕ
backend_inv_id = 5

-- struct _backend; the function pointers are determined by `is_pmem`
pub record Backend : Type 0 where
  pub bsize : ℕ
  pub meta_bsize : ℕ
  pub size : ℕ
  pub is_pmem : Bool
  pub datasize : ℕ
  pub metasize : ℕ
  pub data_nlba : ℕ
  pub meta_nlba : ℕ
  pub max_key_len : ℕ
  pub max_val_len : ℕ
  pub meta_max_key_len : ℕ
  pub meta_max_val_len : ℕ
  pub tx_slots_count : ℕ
  pub tx_slot_size : ℕ
  pub sync_type : ℕ
  pub addr : ℕ
  pub tx_log : ℕ
  pub data_area : ℕ
  pub meta : ℕ

-- `obj_id - data_nlba - 1` is computed on `uint64_t`, so the id `data_nlba` wraps around.
unfoldable pub backend_direct : Option Backend → ℕ → Option ℕ
backend_direct none id = none
backend_direct (some b) id =
    if ltb id b.data_nlba
    then some (b.data_area + id * b.bsize)
    else if ltb id (b.data_nlba + b.meta_nlba)
    then some ((b.meta + (pred64 (id - b.data_nlba) * b.meta_bsize) % two64) % two64)
    else none

-- The object's address, or the error that is stored through `error`.
pub data Found : Type 0 where
  found : ℕ → Found
  missing : ℕ → Found

-- `flch64` is the header's first field
unfoldable pub flch64 : Mem → ℕ → ℕ
flch64 m obj = load 8 m obj

unfoldable pub found_at : Mem → Option ℕ → Found
unfolding flch64
found_at m none = missing backend_inv_id
found_at m (some obj) = if flch64 m obj == 0 then missing backend_enoent else found obj

unfoldable pub backend_get : Option Backend → Mem → ℕ → Found
unfolding backend_direct found_at
backend_get none m id = missing backend_no_backend
backend_get (some b) m id =
    if id == 0 then missing backend_no_backend else found_at m (backend_direct (some b) id)

unfoldable pub backend_tx_direct : Option Backend → ℕ → Option ℕ
backend_tx_direct none id = none
backend_tx_direct (some b) id =
    let tx_id = id % 256 in
    if ltb tx_id b.tx_slots_count then some (b.tx_log + tx_id * b.tx_slot_size) else none

-- msync_weak: the range is extended down to a page's start; on pmem weak_persist does nothing
unfoldable pub weak_persist : Backend → World → ℕ → ℕ → World
weak_persist b w p len =
    if b.is_pmem then w else happened w (scheduled (p - p % w.page_size) (len + p % w.page_size))

unfoldable pub backend_persist : Option Backend → World → Option ℕ → ℕ → World × ℕ
unfolding weak_persist
backend_persist none w p len = (w, backend_no_backend)
backend_persist (some b) w none len = (w, backend_enoent)
backend_persist (some b) w (some p) len =
    if b.sync_type == 2
    then (happened w (persisted p len), backend_ok)
    else if b.sync_type == 1
    then (weak_persist b w p len, backend_ok)
    else (w, backend_ok)

unfoldable pub backend_persist_all : Option Backend → World → World × ℕ
backend_persist_all none w = (w, backend_no_backend)
backend_persist_all (some b) w =
    (happened w (persisted b.tx_log (b.datasize + b.metasize)), backend_ok)

unfoldable pub backend_persist_weak : Option Backend → World → Option ℕ → ℕ → World × ℕ
unfolding weak_persist
backend_persist_weak none w p len = (w, backend_no_backend)
backend_persist_weak (some b) w none len = (w, backend_enoent)
backend_persist_weak (some b) w (some p) len = (weak_persist b w p len, backend_ok)

-- `backend_persist` of a slot, or of all when `sync_type` is PMB_SYNC
unfoldable pub persist_slot : Option Backend → World → ℕ → ℕ → World
unfolding backend_persist backend_persist_all
persist_slot none w p len = w
persist_slot (some b) w p len =
    if b.sync_type == 0
    then (backend_persist_all (some b) w).0
    else (backend_persist (some b) w (some p) len).0

unfoldable pub backend_tx_persist : Option Backend → World → ℕ → ℕ → World × ℕ
unfolding backend_tx_direct backend_persist backend_persist_all
backend_tx_persist none w id len = (w, backend_no_backend)
backend_tx_persist (some b) w id len =
    if b.sync_type == 0
    then ((backend_persist_all (some b) w).0, backend_ok)
    else elim (backend_tx_direct (some b) id) [
      | none ↦ (w, backend_enoent)
      | some p ↦ ((backend_persist (some b) w (some p) len).0, backend_ok)
    ]

-- The header and `key_len + val_len` bytes behind it become 0.
unfoldable pub backend_set_zero : Option Backend → World → Option ℕ → World × ℕ
backend_set_zero none w p = (w, backend_no_backend)
backend_set_zero (some b) w none = (w, backend_enoent)
backend_set_zero (some b) w (some p) =
    let size = sizeof_data_hdr + load 4 w.mem (p + 20) + load 4 w.mem (p + 24) in
    (with_mem w (memset_zero w.mem p size), 0)

-- Only `flch64` and `status` of the slot become 0.
unfoldable pub backend_tx_set_zero : Option Backend → World → Option ℕ → World × ℕ
unfolding persist_slot
backend_tx_set_zero none w p = (w, backend_no_backend)
backend_tx_set_zero (some b) w none = (w, backend_enoent)
backend_tx_set_zero (some b) w (some p) =
    (persist_slot (some b) (with_mem w (memset_zero w.mem p 12)) p 12, 0)

unfoldable pub backend_nblock : Option Backend → Bool → ℕ
backend_nblock none meta_store = 0
backend_nblock (some b) meta_store = if meta_store then b.meta_nlba else b.data_nlba

-- memcpy, or pmem_memcpy_persist, which also persists the destination
unfoldable pub backend_memcpy : Backend → World → (dest src num : ℕ) → World
backend_memcpy b w dest src num =
    let w' = with_mem w (memcpy w.mem dest src num) in
    if b.is_pmem then happened w' (persisted dest num) else w'

unfoldable pub backend_get_sync_type : Backend → ℕ
backend_get_sync_type b = b.sync_type
