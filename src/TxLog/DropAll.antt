-- ===== src/TxLog/DropAll.antt =====
-- tx_log.c: the blocks that a sequence of ids names, cleared one after another.
use pmbackend.Base.{
  ℕ, ◌+◌, ◌≤◌, ◌≡◌, refl, ◌∙◌, ap, Bool, true, false, not, ◌&&◌, ◌||◌, inl, inr, some, ◌==◌, arith,
  Bool-cases, List, [], ◌∷◌,
}
use pmbackend.Mem.Frame.{load-agree}
use pmbackend.Caslist.Many.{elem}
use pmbackend.Backend.{Backend, sizeof_tx_slot}
use pmbackend.Backend.Layout.{IsLaidOut, IsBlockId, place, place-InRegion}
use pmbackend.Kv.{Handle, mem_of, peek}
use pmbackend.TxLog.{direct}
use pmbackend.TxLog.Process.{set_zero, drop_new, drop_old}
use pmbackend.TxLog.Dropped.{
  Dropped, Changed-change, Dropped-trans, BlocksFit, no_ids, block-Beside,
}
use pmbackend.TxLog.Drop.{
  IsDroppable, held, same-Dropped, zero-Dropped, direct_block, drop_new-Dropped, drop_old-Dropped,
}

-- Executing and aborting, as what they do to the blocks.
unfoldable pub drop_olds : List ℕ → Handle → Handle
drop_olds [] s = s
drop_olds (id ∷ ids) s = drop_olds ids (drop_old s id)

unfoldable pub drop_news : List ℕ → Handle → Handle
drop_news [] s = s
drop_news (id ∷ ids) s = drop_news ids (drop_new s id)

unfoldable pub zero_all : List ℕ → Handle → Handle
zero_all [] s = s
zero_all (id ∷ ids) s = zero_all ids (set_zero s (direct s id))

-- All ids are those of blocks.
abbrev pub AllDroppable : Backend → List ℕ → Type 0
AllDroppable b [] = Unit
AllDroppable b (id ∷ ids) = IsDroppable b id × AllDroppable b ids

pub IsDroppable-elem :
    (b : Backend) (ids : List ℕ) (x : ℕ) → AllDroppable b ids → elem x ids ≡ true → IsDroppable b x
unfolding elem
IsDroppable-elem b [] x a e = cc
IsDroppable-elem b (id ∷ ids) x a e = elim (Bool-cases (x == id)) [
  | inl same ↦ let q : x ≡ id = ground (arith, same) in rw q a.0
  | inr other ↦ IsDroppable-elem b ids x a.1 (ground (arith, other, e))
]

module _ (b : Backend) (h : IsLaidOut b) (slot : ℕ)
    (front : slot + sizeof_tx_slot ≤ b.data_area) where
  pub drop_news-Dropped :
      (ids : List ℕ) (s : Handle)
      → s.backend ≡ b
      → AllDroppable b ids
      → BlocksFit b (mem_of s)
      → Dropped b slot s (drop_news ids s) (λ x. elem x ids) (λ x. elem x ids)
  unfolding drop_news elem
  drop_news-Dropped [] s e a f = same-Dropped b h slot s f
  drop_news-Dropped (id ∷ ids) s e a f =
      let d = drop_new-Dropped b h slot s id e a.0 front f in
      let e' = ap (λ (x : Handle). x.backend) d.only ∙ e in
      Dropped-trans b h slot s _ _ _ _ _ _ front d
        (drop_news-Dropped ids (drop_new s id) e' a.1 d.fits)

  -- The block of another id holds what it held.
  held_kept :
      (s s' : Handle) (id x : ℕ) {freed : ℕ → Bool}
      → Dropped b slot s s' (λ y. y == id) freed
      → IsBlockId b id
      → IsBlockId b x
      → (x == id) ≡ false
      → held b (mem_of s') x ≡ held b (mem_of s) x
  held_kept s s' id x d i k ne =
      let same : peek 8 s' (place b x) ≡ peek 8 s (place b x) =
        load-agree 8 (mem_of s) (mem_of s') (place b x) (λ a low high.
          d.outside a (inr (omega (arith, (place-InRegion b h x k).low))) (λ j l g.
            block-Beside b h x j a k l (λ q. ground (arith, q, g, ne)) low
              (omega (arith, d.fits x k)))) in
      ap (λ n. not (n == 0)) same

  pub drop_olds-Dropped :
      (ids : List ℕ) (s : Handle)
      → s.backend ≡ b
      → AllDroppable b ids
      → BlocksFit b (mem_of s)
      → Dropped b slot s
          (drop_olds ids s)
          (λ x. elem x ids)
          (λ x. elem x ids && held b (mem_of s) x)
  unfolding drop_olds elem
  drop_olds-Dropped [] s e a f = same-Dropped b h slot s f
  drop_olds-Dropped (id ∷ ids) s e a f =
      let s1 = drop_old s id in
      let d = drop_old-Dropped b h slot s id e a.0 front f in
      let e' = ap (λ (x : Handle). x.backend) d.only ∙ e in
      let later : (x : ℕ)
          → ((x == id && held b (mem_of s) x) || (elem x ids && held b (mem_of s1) x))
            ≡ (elem x (id ∷ ids) && held b (mem_of s) x) =
        λ x. elim (Bool-cases (elem x ids)) [
          | inl in_ids ↦ elim (Bool-cases (x == id)) [
            | inl same ↦
                let q : x ≡ id = ground (arith, same) in
                let z : peek 8 s1 (place b id) ≡ 0 = (d.zero id a.0.0 (ground arith)).checksum in
                rw q (ground (arith, z))
            | inr other ↦ ground (
              arith,
              other,
              in_ids,
              held_kept s s1 id x d a.0.0 (IsDroppable-elem b ids x a.1 in_ids).0 other,
            )
          ]
          | inr not_in ↦ ground (arith, not_in)
        ] in
      Changed-change (λ x. refl) later
        (Dropped-trans b h slot s _ _ _ _ _ _ front d (drop_olds-Dropped ids s1 e' a.1 d.fits))

  pub zero_all-Dropped :
      (ids : List ℕ) (s : Handle)
      → s.backend ≡ b
      → AllDroppable b ids
      → BlocksFit b (mem_of s)
      → Dropped b slot s (zero_all ids s) (λ x. elem x ids) no_ids
  unfolding zero_all elem
  zero_all-Dropped [] s e a f = same-Dropped b h slot s f
  zero_all-Dropped (id ∷ ids) s e a f =
      let d = zero-Dropped b h slot s id a.0.0 f in
      let at = direct_block b h slot s id e a.0.0 in
      rw at (
        Changed-change (λ x. refl) (λ x. refl)
          (Dropped-trans b h slot s _ _ _ _ _ _ front d
            (zero_all-Dropped ids (set_zero s (some (place b id))) e a.1 d.fits)))
