-- ===== src/Backend/Mapped.antt =====
-- backend.c: the structure that `_backend_map_common` makes of a pool.
use pmbackend.Base.{
  ℕ, ◌+◌, ◌-◌, ◌*◌, ◌/◌, ◌%◌, ◌≤◌, ◌<◌, ◌≡◌, refl, true, false, some, ◌==◌, two64, two32, arith,
}
use pmbackend.Mem.{World}
use pmbackend.Backend.{Backend}
use pmbackend.Backend.Map.{
  sizeof_backend, Params, Mapping, roundup, lay_out, map_common, write_header,
}
use pmbackend.Backend.Layout.{IsLaidOut, roundup_bounds}

-- A new pool: sizes for which the regions fit into the mapping.
pub record Fits (m : Mapping) (p : Params) (bsize meta_bsize : ℕ) : Type 0 where
  pub slots : p.tx_slots < 256
  pub slot_size : roundup p.tx_slot_size < two32
  pub bsizes : (0 < bsize) × (roundup bsize < two32)
  pub meta_bsizes : (0 < meta_bsize) × (roundup meta_bsize < two32)
  pub room : roundup (sizeof_backend m) + p.tx_slots * roundup p.tx_slot_size ≤ p.data_size
  pub top : m.addr + p.data_size + p.meta_size < two64

div_fits : (n k : ℕ) → (n / k) * k ≤ n
div_fits n k = grind arith

-- The pool's header, and `Fits` in terms of it.
module _ (m : Mapping) (p : Params) (ts : ℕ) (b : Backend) (slots : p.tx_slots < 256)
    (count : b.tx_slots_count ≡ p.tx_slots) (slot_size : b.tx_slot_size ≡ ts) (bsize : 0 < b.bsize)
    (meta_bsize : 0 < b.meta_bsize)
    (room : roundup (sizeof_backend m) + p.tx_slots * ts ≤ p.data_size)
    (top : m.addr + p.data_size + p.meta_size < two64) where
  lay_out-IsLaidOut :
      let l = lay_out m p ts b in
      IsLaidOut l × (l.meta + l.meta_nlba * l.meta_bsize ≤ m.addr + p.data_size + p.meta_size)
  unfolding lay_out
  lay_out-IsLaidOut =
      let count' : p.tx_slots % 256 ≡ p.tx_slots = omega arith in
      let area = m.addr + roundup (sizeof_backend m) + p.tx_slots * ts in
      let e : (m.addr + p.data_size + two64 - area) % two64 ≡ m.addr + p.data_size - area =
        omega arith in
      let n = (m.addr + p.data_size - area) / b.bsize in
      let fits = div_fits (m.addr + p.data_size - area) b.bsize in
      let meta = area + n * b.bsize in
      let e' : (m.addr + p.data_size + p.meta_size + two64 - meta) % two64
          ≡ m.addr + p.data_size + p.meta_size - meta =
        omega arith in
      let fits' = div_fits (m.addr + p.data_size + p.meta_size - meta) b.meta_bsize in
      rw (count', e, e')
        (
          record {
            bsize = bsize;
            meta_bsize = meta_bsize;
            slots = rw (count, slot_size) (omega arith);
            blocks = refl;
            meta_blocks = omega arith;
          },
          omega arith,
        )

-- `_backend_map_common` on a new pool whose sizes fit succeeds, with a structure that is laid out as
-- `IsLaidOut` says and whose metadata blocks end within the mapping.
pub map_common-IsLaidOut :
    (m : Mapping) (p : Params) (bsize meta_bsize : ℕ) (w : World)
    → Fits m p bsize meta_bsize
    → (b : Backend) × ((map_common m p bsize meta_bsize true w).0 ≡ some b)
      × IsLaidOut b
      × (b.meta + b.meta_nlba * b.meta_bsize ≤ m.addr + p.data_size + p.meta_size)
unfolding map_common
map_common-IsLaidOut m p bsize meta_bsize w f =
    let header =
      write_header p (roundup bsize) (roundup meta_bsize) (roundup p.tx_slot_size) m.stored in
    let r = roundup_bounds bsize in
    let r' = roundup_bounds meta_bsize in
    let i : (roundup bsize == 0) ≡ false = ground arith in
    let j : (roundup meta_bsize == 0) ≡ false = ground arith in
    let l =
      lay_out-IsLaidOut m p (roundup p.tx_slot_size) header f.slots (omega arith) (omega arith)
        (omega arith) (omega arith) f.room f.top in
    rw (i, j) (lay_out m p (roundup p.tx_slot_size) header, refl, l.0, l.1)

-- When `_backend_map_common` has made a pool whose sizes fit, the call that opens the pool again, with
-- the same parameters and the stored structure, succeeds and gives the same structure.
pub map_common_reopen :
    (m : Mapping) (p : Params) (bsize meta_bsize : ℕ) (w : World)
    → Fits m p bsize meta_bsize
    → (b : Backend) × ((map_common m p bsize meta_bsize true w).0 ≡ some b)
      × ((map_common (record m { stored = b }) p bsize meta_bsize false w).0 ≡ some b)
unfolding map_common lay_out
map_common_reopen m p bsize meta_bsize w f =
    let header =
      write_header p (roundup bsize) (roundup meta_bsize) (roundup p.tx_slot_size) m.stored in
    let r = roundup_bounds bsize in
    let r' = roundup_bounds meta_bsize in
    let i : (roundup bsize == 0) ≡ false = ground arith in
    let j : (roundup meta_bsize == 0) ≡ false = ground arith in
    let k : (roundup bsize == roundup bsize % two32) ≡ true = ground arith in
    let k' : (roundup meta_bsize == roundup meta_bsize % two32) ≡ true = ground arith in
    (lay_out m p (roundup p.tx_slot_size) header, rw (i, j), rw (i, j, k, k'))
