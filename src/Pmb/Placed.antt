-- ===== src/Pmb/Placed.antt =====
-- pmbackend.c: a put that writes one block and the transaction's slot.
use pmbackend.Base.{ℕ, ◌+◌, ◌≤◌, ◌<◌, ◌≡◌, arith, ◌⊎◌, inl, inr, Bool-cases, ◌==◌}
use pmbackend.Mem.{load}
use pmbackend.Mem.Frame.{load-agree}
use pmbackend.Backend.{Backend, sizeof_data_hdr, sizeof_tx_entry}
use pmbackend.Backend.Layout.{IsLaidOut, place, block_len, place-InRegion}
use pmbackend.Kv.{Handle, mem_of, peek, size_of, key_len_of, val_len_of}
use pmbackend.TxLog.Dropped.{BlocksFit, Beside, block-Beside}

module _ (b : Backend) (h : IsLaidOut b) (s r : Handle) (slot id : ℕ) (in_data : id < b.data_nlba)
    (big : sizeof_data_hdr + s.max_key_len + s.max_val_len ≤ b.bsize)
    (front : slot + peek 8 s (size_of slot) + sizeof_tx_entry ≤ b.data_area)
    (outside : (x : ℕ)
      → (x < slot) ⊎ (slot + peek 8 s (size_of slot) + sizeof_tx_entry ≤ x)
      → (x < place b id) ⊎ (place b id + sizeof_data_hdr + s.max_key_len + s.max_val_len ≤ x)
      → mem_of r x ≡ mem_of s x) where
  block_size_eq : block_len b id ≡ b.bsize
  unfolding block_len
  block_size_eq = ground arith

  -- A byte of the blocks outside this one is as before.
  pub placed-outside : (x : ℕ) → b.data_area ≤ x → Beside b id x → mem_of r x ≡ mem_of s x
  placed-outside x low a = outside x (inr (omega arith)) (omega (arith, a, block_size_eq))

  -- When the new object is within the limits, every object fits into its block.
  pub placed-BlocksFit :
      (peek 4 r (key_len_of (place b id)) ≤ s.max_key_len)
        × (peek 4 r (val_len_of (place b id)) ≤ s.max_val_len)
      → BlocksFit b (mem_of s)
      → BlocksFit b (mem_of r)
  placed-BlocksFit lens fits j k = elim (Bool-cases (j == id)) [
    | inl same ↦ let e : j ≡ id = ground (arith, same) in rw e (omega (arith, lens, block_size_eq))
    | inr other ↦
        let low = (place-InRegion b h j k).low in
        let agree : (a : ℕ)
            → place b j ≤ a
            → a + 4 ≤ place b j + sizeof_data_hdr
            → load 4 (mem_of r) a ≡ load 4 (mem_of s) a =
          λ a p q. load-agree 4 (mem_of s) (mem_of r) a (λ x l m.
            placed-outside x (omega (arith, low)) (
              block-Beside b h j id x k (inl in_data) (λ same. ground (arith, same, other))
                (omega arith) (omega (arith, fits j k)))) in
        omega (
          arith,
          fits j k,
          agree (key_len_of (place b j)) (omega arith) (omega arith),
          agree (val_len_of (place b j)) (omega arith) (omega arith),
        )
  ]
