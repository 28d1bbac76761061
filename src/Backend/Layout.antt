-- ===== src/Backend/Layout.antt =====
-- backend.c: where the regions and blocks of a pool lie.
use pmbackend.Base.{
  ℕ, ◌+◌, ◌-◌, ◌*◌, ◌%◌, ◌≤◌, ◌<◌, ◌≡◌, ◌≢◌, inl, inr, ◌⊎◌, true, false, some, ltb, if◌then◌else◌,
  two64, arith, Bool-cases,
}
use pmbackend.Mem.Frame.{Apart}
use pmbackend.Backend.{Backend, data_align, backend_direct, backend_tx_direct}
use pmbackend.Backend.Map.{roundup}

-- The regions follow one another inside the mapping and do not wrap around the address space.
pub record IsLaidOut (b : Backend) : Type 0 where
  pub bsize : 0 < b.bsize
  pub meta_bsize : 0 < b.meta_bsize
  pub slots : b.tx_log + b.tx_slots_count * b.tx_slot_size ≤ b.data_area
  pub blocks : b.data_area + b.data_nlba * b.bsize ≡ b.meta
  pub meta_blocks : b.meta + b.meta_nlba * b.meta_bsize < two64

pub roundup_bounds :
    (x : ℕ) → (x ≤ roundup x) × (roundup x < x + data_align) × (roundup x % data_align ≡ 0)
unfolding roundup
roundup_bounds x = omega arith

pub block_fits : (i n k : ℕ) → i < n → i * k + k ≤ n * k
block_fits i n k h = grind arith

times_pos : (n k : ℕ) → 0 < k → n ≤ n * k
times_pos n k h = grind arith

blocks-Apart : (i j k : ℕ) → i ≢ j → Apart (i * k) k (j * k) k
blocks-Apart i j k h = elim (Bool-cases (ltb i j)) [
  | inl less ↦ inl (block_fits i j k (ground arith))
  | inr more ↦ inr (block_fits j i k (ground arith))
]

-- The ids that stand for a block of their own. `backend_direct` takes `data_nlba`, too, and the lists of the metadata
-- region hold it, but `direct_overlap` shows that its block is not one of its own: it is left out here.
abbrev pub IsBlockId : Backend → ℕ → Type 0
IsBlockId b id = (id < b.data_nlba) ⊎ ((b.data_nlba < id) × (id < b.data_nlba + b.meta_nlba))

-- The block's address, written without wrapping around, and its length.
unfoldable pub place : Backend → ℕ → ℕ
place b id =
    if ltb id b.data_nlba
    then b.data_area + id * b.bsize
    else b.meta + (id - b.data_nlba - 1) * b.meta_bsize

unfoldable pub block_len : Backend → ℕ → ℕ
block_len b id = if ltb id b.data_nlba then b.bsize else b.meta_bsize

-- A block lies in the region of its id.
pub record InRegion (b : Backend) (id p : ℕ) : Type 0 where
  pub low : b.data_area ≤ p
  pub high : p + block_len b id ≤ b.meta + b.meta_nlba * b.meta_bsize
  pub data_side : id < b.data_nlba → p + block_len b id ≤ b.meta
  pub meta_side : b.data_nlba < id → b.meta ≤ p

module _ (b : Backend) (h : IsLaidOut b) where
  pub place-InRegion : (id : ℕ) → IsBlockId b id → InRegion b id (place b id)
  unfolding place block_len
  place-InRegion id (inl p) =
      let fits = block_fits id b.data_nlba b.bsize p in
      record {
        low = ground arith;
        high = ground (arith, h.blocks);
        data_side = ground (arith, h.blocks);
        meta_side = ground arith;
      }
  place-InRegion id (inr (p, q)) =
      let fits = block_fits (id - b.data_nlba - 1) b.meta_nlba b.meta_bsize (omega arith) in
      record {
        low = ground (arith, h.blocks);
        high = ground arith;
        data_side = ground arith;
        meta_side = ground arith;
      }

  direct-meta :
      (id : ℕ)
      → b.data_nlba < id
      → id < b.data_nlba + b.meta_nlba
      → b.data_nlba + b.meta_nlba < two64
      → backend_direct (some b) id ≡ some (b.meta + (id - b.data_nlba - 1) * b.meta_bsize)
  unfolding backend_direct
  direct-meta id p q r =
      let fits = block_fits (id - b.data_nlba - 1) b.meta_nlba b.meta_bsize (omega arith) in
      let n : (id - b.data_nlba + two64 - 1) % two64 ≡ id - b.data_nlba - 1 = omega arith in
      let i : ltb id b.data_nlba ≡ false = ground arith in
      let j : ltb id (b.data_nlba + b.meta_nlba) ≡ true = ground arith in
      rw (i, j, n) (ground (arith, h.meta_blocks))

  ids_fit : b.data_nlba + b.meta_nlba < two64
  ids_fit =
      let p : b.data_nlba ≤ b.data_nlba * b.bsize = times_pos b.data_nlba b.bsize h.bsize in
      let q : b.meta_nlba ≤ b.meta_nlba * b.meta_bsize =
        times_pos b.meta_nlba b.meta_bsize h.meta_bsize in
      omega (arith, h.blocks, h.meta_blocks)

  -- In a pool that is laid out as `IsLaidOut` says, `backend_direct` gives each block id other than
  -- `data_nlba` the address of its block, which lies in the id's region of the pool.
  pub direct-place :
      (id : ℕ)
      → IsBlockId b id
      → (backend_direct (some b) id ≡ some (place b id)) × InRegion b id (place b id)
  unfolding backend_direct place
  direct-place id (inl p) = (ground arith, place-InRegion id (inl p))
  direct-place id (inr (p, q)) =
      let e = direct-meta id p q ids_fit in (rw e (ground arith), place-InRegion id (inr (p, q)))

  -- The blocks of two different ids do not overlap.
  pub place-Apart :
      (i j : ℕ)
      → IsBlockId b i
      → IsBlockId b j
      → i ≢ j
      → Apart (place b i) (block_len b i) (place b j) (block_len b j)
  unfolding place block_len
  place-Apart i j (inl p) (inl q) ne = ground (arith, blocks-Apart i j b.bsize ne)
  place-Apart i j (inl p) (inr q) ne =
      let u = (place-InRegion i (inl p)).data_side p in
      let v = (place-InRegion j (inr q)).meta_side q.0 in inl (omega (arith, u, v))
  place-Apart i j (inr p) (inl q) ne =
      let u = (place-InRegion j (inl q)).data_side q in
      let v = (place-InRegion i (inr p)).meta_side p.0 in inr (omega (arith, u, v))
  place-Apart i j (inr p) (inr q) ne =
      let k : i - b.data_nlba - 1 ≢ j - b.data_nlba - 1 = omega arith in
      ground (arith, blocks-Apart (i - b.data_nlba - 1) (j - b.data_nlba - 1) b.meta_bsize k)

  -- In a pool that is laid out as `IsLaidOut` says, the addresses that `backend_direct` gives for
  -- two different block ids, neither of them the id `data_nlba`, are those of blocks that do not
  -- overlap.
  pub direct-Apart :
      (i j p q : ℕ)
      → IsBlockId b i
      → IsBlockId b j
      → i ≢ j
      → backend_direct (some b) i ≡ some p
      → backend_direct (some b) j ≡ some q
      → Apart p (block_len b i) q (block_len b j)
  direct-Apart i j p q hi hj ne e f =
      let a : place b i ≡ p = cc (e, (direct-place i hi).0) in
      let c : place b j ≡ q = cc (f, (direct-place j hj).0) in
      rw (← a, ← c) (place-Apart i j hi hj ne)

  -- In a pool that is laid out as `IsLaidOut` says and has metadata blocks, `backend_direct` takes the id
  -- `data_nlba` for a metadata id, and gives it the address one metadata block before the metadata region.
  pub direct_overlap :
      0 < b.meta_nlba
      → b.meta_bsize ≤ b.meta
      → backend_direct (some b) b.data_nlba ≡ some (b.meta - b.meta_bsize)
  unfolding backend_direct
  direct_overlap p q =
      let i : ltb b.data_nlba b.data_nlba ≡ false = ground arith in
      let j : ltb b.data_nlba (b.data_nlba + b.meta_nlba) ≡ true = ground arith in
      let n : (b.data_nlba - b.data_nlba + two64 - 1) % two64 ≡ two64 - 1 = omega arith in
      let a : (b.meta + ((two64 - 1) * b.meta_bsize) % two64) % two64 ≡ b.meta - b.meta_bsize =
        omega (arith, h.meta_bsize, h.meta_blocks) in
      rw (i, j, n, a)

  -- In a pool that is laid out as `IsLaidOut` says, the slots that `backend_tx_direct` gives for two
  -- different `uint8_t` ids do not overlap, and the first of them ends before the data blocks.
  pub tx_direct-Apart :
      (i j p q : ℕ)
      → i < 256
      → j < 256
      → backend_tx_direct (some b) i ≡ some p
      → backend_tx_direct (some b) j ≡ some q
      → i ≢ j
      → Apart p b.tx_slot_size q b.tx_slot_size × (p + b.tx_slot_size ≤ b.data_area)
  unfolding backend_tx_direct
  tx_direct-Apart i j p q li lj e f ne = ground (
    arith,
    h.slots,
    blocks-Apart i j b.tx_slot_size ne,
    block_fits i b.tx_slots_count b.tx_slot_size,
  )
