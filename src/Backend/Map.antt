-- ===== src/Backend/Map.antt =====
-- backend.c: the mapping of a pool, with what `_backend_map_common` computes and stores.
use pmbackend.Base.{
  ℕ, List, [], ◌∷◌, ◌++◌, ◌+◌, ◌-◌, ◌*◌, ◌/◌, ◌%◌, Bool, false, ◌&&◌, not, Option, none, some, ◌==◌,
  if◌then◌else◌, two64, two32,
}
use pmbackend.Mem.{World, with_mem, persisted}
use pmbackend.Mem.Fields.{Field, write_fields}
use pmbackend.Backend.{Backend, data_align, sizeof_data_hdr}

-- roundup of sys/param.h, to the alignment
unfoldable pub roundup : ℕ → ℕ
roundup x = ((x + (data_align - 1)) / data_align) * data_align

-- The arguments that `backend_open` and `backend_create` pass on.
pub record Params : Type 0 where
  pub data_size : ℕ
  pub meta_size : ℕ
  pub tx_slots : ℕ
  pub tx_slot_size : ℕ
  pub max_key_len : ℕ
  pub max_val_len : ℕ
  pub meta_max_key_len : ℕ
  pub meta_max_val_len : ℕ
  pub sync_type : ℕ

-- A mapped pool: where it lies, the structure at its start, `sizeof (struct pool_hdr)`, which is NVML's and a multiple of
-- 8, what `pmem_is_pmem` says of it, and the addresses of the functions that `persist`, `weak_persist`, `flush`,
-- `drain` and `memcpy` point to, for each answer.
pub record Mapping : Type 0 where
  pub addr : ℕ
  pub stored : Backend
  pub hdr_size : ℕ
  pub is_pmem : Bool
  pub functions : Bool → ℕ → ℕ

-- util_pool_open and util_pool_create at the path; `none` is a result that is not 0
pub record Pool : Type 0 where
  pub pool_open : Option Mapping
  pub pool_create : ℕ → Option Mapping

-- The bytes of `struct _backend` behind `hdr`.
abbrev pub sizeof_fields : ℕ
sizeof_fields = 176

abbrev pub sizeof_backend : Mapping → ℕ
sizeof_backend m = m.hdr_size + sizeof_fields

-- The fields of a new pool's header, each cut to its type.
abbrev pub write_header : Params → ℕ → ℕ → ℕ → Backend → Backend
write_header p bsize meta_bsize tx_slot_size b = record b {
  bsize = bsize % two32;
  meta_bsize = meta_bsize % two32;
  max_key_len = p.max_key_len;
  max_val_len = p.max_val_len;
  meta_max_key_len = p.meta_max_key_len;
  meta_max_val_len = p.meta_max_val_len;
  tx_slot_size = tx_slot_size % two32;
  tx_slots_count = p.tx_slots % 256;
}

-- The run-time fields, computed at each start.
unfoldable pub lay_out : Mapping → Params → ℕ → Backend → Backend
unfolding roundup
lay_out m p tx_slot_size b =
    let tx_log = m.addr + roundup (sizeof_backend m) in
    let data_area = tx_log + (p.tx_slots % 256) * tx_slot_size in
    let datasize = (m.addr + p.data_size + two64 - data_area) % two64 in
    let data_nlba = datasize / b.bsize in
    let meta = data_area + data_nlba * b.bsize in
    let metasize = (m.addr + p.data_size + p.meta_size + two64 - meta) % two64 in
    record b {
      size = p.data_size + p.meta_size;
      is_pmem = m.is_pmem;
      addr = m.addr;
      tx_log = tx_log;
      data_area = data_area;
      datasize = datasize;
      data_nlba = data_nlba;
      meta = meta;
      metasize = metasize;
      meta_nlba = metasize / b.meta_bsize;
      sync_type = p.sync_type;
    }

-- The stores of `_backend_map_common` to the structure in the pool, at the offsets of its fields behind `hdr`: the
-- address, the fields of a new pool's header, and the run-time fields.
abbrev pub field : ℕ → ℕ → ℕ → Field
field offset width value = record { offset = offset; width = width; value = value }

abbrev pub addr_fields : Mapping → List Field
addr_fields m = field 136 8 m.addr ∷ []

abbrev pub header_fields : Backend → List Field
header_fields b =
    field 0 4 b.bsize
    ∷ field 4 4 b.meta_bsize
    ∷ field 56 4 b.max_key_len
    ∷ field 60 4 b.max_val_len
    ∷ field 64 4 b.meta_max_key_len
    ∷ field 68 4 b.meta_max_val_len
    ∷ field 80 8 b.tx_slot_size
    ∷ field 72 1 b.tx_slots_count
    ∷ []

abbrev pub run_fields : Mapping → Backend → List Field
run_fields m b =
    field 8 8 b.size
    ∷ field 16 4 (if b.is_pmem then 1 else 0)
    ∷ field 144 8 b.tx_log
    ∷ field 152 8 b.data_area
    ∷ field 24 8 b.datasize
    ∷ field 40 8 b.data_nlba
    ∷ field 160 8 b.meta
    ∷ field 32 8 b.metasize
    ∷ field 48 8 b.meta_nlba
    ∷ field 88 1 b.sync_type
    ∷ field 96 8 (m.functions b.is_pmem 0)
    ∷ field 104 8 (m.functions b.is_pmem 1)
    ∷ field 112 8 (m.functions b.is_pmem 2)
    ∷ field 120 8 (m.functions b.is_pmem 3)
    ∷ field 128 8 (m.functions b.is_pmem 4)
    ∷ []

abbrev pub with_fields : Mapping → List Field → World → World
with_fields m fs w = with_mem w (write_fields (m.addr + m.hdr_size) fs w.mem)

-- `pmem_msync` of each field of a new pool's header, the first two with the length of a `size_t`, and of the
-- whole structure
abbrev pub header_synced : Mapping → World → World
header_synced m w =
    let a = m.addr + m.hdr_size in
    record w {
      events =
          w.events
          ++ persisted a 8
            ∷ persisted (a + 4) 8
            ∷ persisted (a + 56) 4
            ∷ persisted (a + 60) 4
            ∷ persisted (a + 64) 4
            ∷ persisted (a + 68) 4
            ∷ persisted (a + 80) 8
            ∷ persisted (a + 72) 1
            ∷ persisted m.addr (sizeof_backend m)
            ∷ [];
    }

-- _backend_map_common
unfoldable pub map_common :
    Mapping → Params → (bsize meta_bsize : ℕ) → (initialize : Bool) → World → Option Backend × World
unfolding lay_out
map_common m p bsize0 meta_bsize0 initialize w =
    let bsize = roundup bsize0 in
    let meta_bsize = roundup meta_bsize0 in
    let tx_slot_size = roundup p.tx_slot_size in
    let w1 = with_fields m (addr_fields m) w in
    let header = write_header p bsize meta_bsize tx_slot_size m.stored in
    let made = lay_out m p tx_slot_size header in
    let opened = lay_out m p tx_slot_size m.stored in
    if initialize
    then (if bsize == 0 then (none, w1) else if meta_bsize == 0 then (none, w1) else (
      some made,
      with_fields m (run_fields m made) (header_synced m (with_fields m (header_fields header) w1)),
    ))
    else if not (bsize == 0) && not (bsize == m.stored.bsize)
    then (none, w1)
    else if not (meta_bsize == 0) && not (meta_bsize == m.stored.meta_bsize)
    then (none, w1)
    else (some opened, with_fields m (run_fields m opened) w1)

abbrev pub block_size : ℕ → ℕ → ℕ
block_size key_len val_len = sizeof_data_hdr + key_len + val_len

-- The mapping of a pool that `util_pool_open` or `util_pool_create` has found, or `NULL`.
unfoldable pub map_at : Option Mapping → Params → (created : Bool) → World → Option Backend × World
unfolding map_common
map_at none p created w = (none, w)
map_at (some m) p created w =
    map_common m p (block_size p.max_key_len p.max_val_len)
      (block_size p.meta_max_key_len p.meta_max_val_len) created w

unfoldable pub backend_open : Pool → Params → World → Option Backend × World
unfolding map_at
backend_open pool p w = map_at pool.pool_open p false w

unfoldable pub backend_create : Pool → Params → World → Option Backend × World
unfolding map_at
backend_create pool p w =
    let created = not (p.data_size + p.meta_size == 0) in
    map_at (if created then pool.pool_create (p.data_size + p.meta_size) else pool.pool_open) p
      created w
