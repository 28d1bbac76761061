-- ===== src/TxLog/Dropped.antt =====
-- tx_log.c: blocks that are cleared, and whose ids may go back to the free lists.
use mathlib.Core.Path.{subst, fun_ext}
use pmbackend.Base.{
  ℕ, ◌+◌, ◌≤◌, ◌<◌, ◌≡◌, ◌≢◌, ◌∙◌, sym, ap, Bool, true, false, ◌||◌, ◌⊎◌, inl, inr, ◌==◌, arith,
  Bool-cases,
}
use pmbackend.Mem.{Mem, load, memset_zero}
use pmbackend.Mem.Frame.{load-agree}
use pmbackend.Mem.Zero.{memset_zero-outside, memset_zero-inside, load_of_zeros}
use pmbackend.Backend.{Backend, sizeof_data_hdr, sizeof_tx_slot}
use pmbackend.Backend.Layout.{IsLaidOut, IsBlockId, place, block_len, place-Apart, place-InRegion}
use pmbackend.Kv.{Handle, mem_of, key_len_of, val_len_of}
use pmbackend.Kv.Lists.{FreeLists, FreeLists-change, data_gain, meta_gain}

-- Every block has room for the header, the key and the value that its header speaks of.
abbrev pub BlocksFit : Backend → Mem → Type 0
BlocksFit b m =
    (id : ℕ)
    → IsBlockId b id
    → sizeof_data_hdr + load 4 m (key_len_of (place b id)) + load 4 m (val_len_of (place b id))
      ≤ block_len b id

-- Outside the block of an id.
abbrev pub Beside : Backend → (id x : ℕ) → Type 0
Beside b id x = (x < place b id) ⊎ (place b id + block_len b id ≤ x)

-- Of a handle only the memory and the free lists have changed.
abbrev pub OnlyBlocks : Handle → Handle → Type 0
OnlyBlocks s s' =
    s' ≡ record s { world = s'.world; free_list = s'.free_list; meta_free_list = s'.meta_free_list }

-- The bytes of a block that its header, its key length and its value length count.
abbrev pub object_len : Backend → Mem → ℕ → ℕ
object_len b m id =
    sizeof_data_hdr + load 4 m (key_len_of (place b id)) + load 4 m (val_len_of (place b id))

-- The block's checksum is 0 and, unless it was 0 before, so is every byte that the block's header and lengths
-- counted before.
pub record Cleared (b : Backend) (m m' : Mem) (id : ℕ) : Type 0 where
  pub checksum : load 8 m' (place b id) ≡ 0
  pub bytes :
      load 8 m (place b id) ≢ 0
      → (x : ℕ) → place b id ≤ x
      → x < place b id + object_len b m id
      → m' x ≡ 0

-- The blocks in `gone` are cleared as `Cleared` says, and the ids in `freed` are on the free lists; beyond these
-- blocks and the first `room` bytes of the slot no byte has changed, and beyond the latter a byte is as it was, or 0.
pub record Changed (b : Backend) (slot room : ℕ) (s s' : Handle) (gone freed : ℕ → Bool)
    : Type 0 where
  pub only : OnlyBlocks s s'
  pub zero : (id : ℕ) → IsBlockId b id → gone id ≡ true → Cleared b (mem_of s) (mem_of s') id
  pub kept :
      (x : ℕ) → (x < slot) ⊎ (slot + room ≤ x) → (mem_of s' x ≡ mem_of s x) ⊎ (mem_of s' x ≡ 0)
  pub outside :
      (x : ℕ)
      → (x < slot) ⊎ (slot + room ≤ x)
      → ((id : ℕ) → IsBlockId b id → gone id ≡ true → Beside b id x)
      → mem_of s' x ≡ mem_of s x
  pub fits : BlocksFit b (mem_of s')
  pub lists :
      (f g : ℕ → Bool)
      → FreeLists s f g
      → FreeLists s' (data_gain s.total_objs_count freed f) (meta_gain s.total_objs_count freed g)

-- Of the slot, only the header.
abbrev pub Dropped : Backend → (slot : ℕ) → (s s' : Handle) → (gone freed : ℕ → Bool) → Type 0
Dropped b slot = Changed b slot sizeof_tx_slot

pub OnlyBlocks-trans : (s t r : Handle) → OnlyBlocks s t → OnlyBlocks t r → OnlyBlocks s r
OnlyBlocks-trans s t r p q =
    q
    ∙ ap
        (λ (x : Handle). record x {
          world = r.world;
          free_list = r.free_list;
          meta_free_list = r.meta_free_list;
        })
        p

-- The sets of ids may be written differently.
pub Changed-change :
    {b : Backend} {slot room : ℕ} {s s' : Handle} {gone gone' freed freed' : ℕ → Bool}
    → ((x : ℕ) → gone x ≡ gone' x)
    → ((x : ℕ) → freed x ≡ freed' x)
    → Changed b slot room s s' gone freed
    → Changed b slot room s s' gone' freed'
Changed-change {b} {slot} {room} {s} {s'} {gone} {gone'} {freed} {freed'} p q d =
    subst (λ g. Changed b slot room s s' g freed') (fun_ext p)
      (subst (λ f. Changed b slot room s s' gone f) (fun_ext q) d)

abbrev pub no_ids : ℕ → Bool
no_ids x = false

module _ (b : Backend) (h : IsLaidOut b) where
  -- A byte of one block is outside every other block.
  pub block-Beside :
      (i j x : ℕ)
      → IsBlockId b i
      → IsBlockId b j
      → i ≢ j
      → place b i ≤ x
      → x < place b i + block_len b i
      → Beside b j x
  block-Beside i j x p q ne low high = let a = place-Apart b h i j p q ne in omega (arith, a)

  module _ (slot : ℕ) where
    -- A block that the first of two changes clears, and one that only the second does.
    module _ (room : ℕ) (s t r : Handle) (gone gone' freed freed' : ℕ → Bool)
        (front : slot + room ≤ b.data_area) (p : Changed b slot room s t gone freed)
        (q : Changed b slot room t r gone' freed') (id : ℕ) (i : IsBlockId b id) where
      Cleared-first : gone id ≡ true → Cleared b (mem_of s) (mem_of r) id
      Cleared-first first =
          let z = p.zero id i first in
          let low = (place-InRegion b h id i).low in
          record {
            checksum = elim (Bool-cases (gone' id)) [
              | inl late ↦ (q.zero id i late).checksum
              | inr early ↦
                  load-agree 8 (mem_of t) (mem_of r) (place b id) (λ x x_low x_high.
                    q.outside x (inr (omega (arith, low))) (λ j k f.
                      block-Beside id j x i k (λ same. cc (same, early, f)) x_low
                        (omega (arith, p.fits id i))))
                  ∙ z.checksum
            ];
            bytes = λ ne x x_low x_high. elim (q.kept x (inr (omega (arith, low, x_low)))) [
              | inl same ↦ same ∙ z.bytes ne x x_low x_high
              | inr gone_byte ↦ gone_byte
            ];
          }

      Cleared-second : gone id ≡ false → gone' id ≡ true → Cleared b (mem_of s) (mem_of r) id
      Cleared-second other second =
          let z = q.zero id i second in
          let low = (place-InRegion b h id i).low in
          let agree : (n a : ℕ)
              → place b id ≤ a
              → a + n ≤ place b id + sizeof_data_hdr
              → load n (mem_of t) a ≡ load n (mem_of s) a =
            λ n a a_low a_high. load-agree n (mem_of s) (mem_of t) a (λ x x_low x_high.
              p.outside x (inr (omega (arith, low))) (λ j k f.
                block-Beside id j x i k (λ same. cc (same, other, f)) (omega arith)
                  (omega (arith, p.fits id i)))) in
          let key = agree 4 (key_len_of (place b id)) (omega arith) (omega arith) in
          let val = agree 4 (val_len_of (place b id)) (omega arith) (omega arith) in
          record {
            checksum = z.checksum;
            bytes = λ ne x x_low x_high.
                z.bytes (λ e. ne (sym (agree 8 (place b id) (omega arith) (omega arith)) ∙ e)) x
                  x_low (omega (arith, x_high, key, val));
          }

    -- These bytes of the slot lie in front of the blocks.
    pub Changed-trans :
        (room : ℕ) (s t r : Handle) (gone gone' freed freed' : ℕ → Bool)
        → slot + room ≤ b.data_area
        → Changed b slot room s t gone freed
        → Changed b slot room t r gone' freed'
        → Changed b slot room s r (λ x. gone x || gone' x) (λ x. freed x || freed' x)
    Changed-trans room s t r gone gone' freed freed' front p q =
        let count : t.total_objs_count ≡ s.total_objs_count =
          ap (λ (x : Handle). x.total_objs_count) p.only in
        record {
          only = OnlyBlocks-trans s t r p.only q.only;
          zero = λ id i e. elim (Bool-cases (gone id)) [
            | inl first ↦ Cleared-first room s t r gone gone' freed freed' front p q id i first
            | inr other ↦
                Cleared-second room s t r gone gone' freed freed' front p q id i other
                  (ground (arith, e, other))
          ];
          kept = λ x a. elim (q.kept x a) [
            | inl same ↦ elim (p.kept x a) [
              | inl before ↦ inl (same ∙ before)
              | inr gone_byte ↦ inr (same ∙ gone_byte)
            ]
            | inr gone_byte ↦ inr gone_byte
          ];
          outside = λ x a f.
              q.outside x a (λ id i e. f id i (ground (arith, e)))
              ∙ p.outside x a (λ id i e. f id i (ground (arith, e)));
          fits = q.fits;
          lists = λ f g l.
              FreeLists-change (λ x. ground (arith, count)) (λ x. ground (arith, count))
                (q.lists _ _ (p.lists f g l));
        }

    pub Dropped-trans :
        (s t r : Handle) (gone gone' freed freed' : ℕ → Bool)
        → slot + sizeof_tx_slot ≤ b.data_area
        → Dropped b slot s t gone freed
        → Dropped b slot t r gone' freed'
        → Dropped b slot s r (λ x. gone x || gone' x) (λ x. freed x || freed' x)
    Dropped-trans = Changed-trans sizeof_tx_slot

    -- One block is cleared.
    module _ (m : Mem) (id : ℕ) (i : IsBlockId b id) (f : BlocksFit b m) where
      abbrev pub cleared : Mem
      cleared = memset_zero m (place b id) (
          sizeof_data_hdr + load 4 m (key_len_of (place b id)) + load 4 m (val_len_of (place b id)))

      pub cleared-outside : (x : ℕ) → Beside b id x → cleared x ≡ m x
      cleared-outside x a = memset_zero-outside m (place b id) _ x (omega (arith, a, f id i))

      pub cleared_header :
          (a n : ℕ) → place b id ≤ a → a + n ≤ place b id + sizeof_data_hdr → load n cleared a ≡ 0
      cleared_header a n p q =
          load_of_zeros n cleared a
            (λ x low high. memset_zero-inside m (place b id) _ x (omega arith) (omega arith))

      pub cleared-BlocksFit : BlocksFit b cleared
      cleared-BlocksFit j k = elim (Bool-cases (j == id)) [
        | inl same ↦
            let e : j ≡ id = ground (arith, same) in
            rw e (
              omega (
                arith,
                f id i,
                cleared_header (key_len_of (place b id)) 4 (omega arith) (omega arith),
                cleared_header (val_len_of (place b id)) 4 (omega arith) (omega arith),
              ))
        | inr other ↦
            let agree : (a : ℕ)
                → place b j ≤ a
                → a + 4 ≤ place b j + sizeof_data_hdr
                → load 4 cleared a ≡ load 4 m a =
              λ a p q. load-agree 4 m cleared a (λ x low high. cleared-outside x (
                block-Beside j id x k i (λ same. ground (arith, same, other)) (omega arith)
                  (omega (arith, f j k)))) in
            omega (
              arith,
              f j k,
              agree (key_len_of (place b j)) (omega arith) (omega arith),
              agree (val_len_of (place b j)) (omega arith) (omega arith),
            )
      ]
