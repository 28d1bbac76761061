-- ===== src/TxLog/InPlace/Heads.antt =====
-- tx_log.c: what the list of updated blocks has of each block, after the patches.
use pmbackend.Base.{
  ℕ, ◌+◌, ◌%◌, ◌≤◌, ◌<◌, ◌≡◌, refl, ◌∙◌, ap, false, ◌||◌, not, List, [], ◌∷◌, ◌==◌, if◌then◌else◌,
  arith, inl, inr, two32, Bool-cases,
}
use pmbackend.Mem.{Mem}
use pmbackend.Caslist.Many.{elem}
use pmbackend.Backend.{Backend, sizeof_data_hdr}
use pmbackend.Backend.Layout.{IsBlockId, block_len}
use pmbackend.Kv.{TxMeta}
use pmbackend.TxLog.Meta.{bump_meta}
use pmbackend.TxLog.InPlace.{Patch, reach, updates, longest, AllPatches, head_of}
use pmbackend.TxLog.InPlace.Metas.{ids, add, pick}
use pmbackend.TxLog.InPlace.Loop.{add_all}

-- One block's entry, bumped by each of its patches.
abbrev bump_all : (x : ℕ) → List Patch → TxMeta → TxMeta
bump_all x [] h = h
bump_all x (p ∷ ps) h = bump_all x ps (if p.id == x then bump_meta h (reach p) else h)

pick-add :
    (b : Backend) (m : Mem) (x id size : ℕ) (ms : List TxMeta)
    → pick x (head_of b m x) (add id (head_of b m id) size ms)
      ≡ (if id == x then bump_meta (pick x (head_of b m x) ms) size else pick x (head_of b m x) ms)
unfolding bump_meta
pick-add b m x id size [] = elim (Bool-cases (id == x)) [
  | inl same ↦ let e : id ≡ x = ground (arith, same) in rw (same, e) refl
  | inr other ↦ rw other refl
]
pick-add b m x id size (n ∷ ms) = elim (Bool-cases (n.id == id)) [
  | inl here ↦
      let e : n.id ≡ id = ground (arith, here) in
      elim (Bool-cases (id == x)) [
        | inl same ↦ rw (here, e, same) refl
        | inr other ↦ rw (here, e, other) refl
      ]
  | inr there ↦ elim (Bool-cases (n.id == x)) [
    | inl first ↦
        let ne : (id == x) ≡ false = ground (arith, first, there) in rw (there, first, ne) refl
    | inr later ↦ rw (there, later) (pick-add b m x id size ms)
  ]
]

pick-add_all :
    (b : Backend) (m : Mem) (x : ℕ) (ps : List Patch) (ms : List TxMeta)
    → pick x (head_of b m x) (add_all b m ps ms) ≡ bump_all x ps (pick x (head_of b m x) ms)
pick-add_all b m x [] ms = refl
pick-add_all b m x (p ∷ ps) ms =
    pick-add_all b m x ps (add p.id (head_of b m p.id) (reach p) ms)
    ∙ ap (bump_all x ps) (pick-add b m x p.id (reach p) ms)

bump_all_version :
    (x : ℕ) (ps : List Patch) (h : TxMeta)
    → (bump_all x ps h).version
      ≡ (if updates x ps == 0 then h.version else (h.version + updates x ps) % two32)
unfolding bump_meta
bump_all_version x [] h = refl
bump_all_version x (p ∷ ps) h =
    let h' = if p.id == x then bump_meta h (reach p) else h in
    let v : h'.version ≡ (if p.id == x then (h.version + 1) % two32 else h.version) =
      ground arith in
    bump_all_version x ps h' ∙ ground (arith, v)

bump_all_val_len :
    (x : ℕ) (ps : List Patch) (h : TxMeta) → (bump_all x ps h).val_len ≡ longest x ps h.val_len
unfolding bump_meta
bump_all_val_len x [] h = refl
bump_all_val_len x (p ∷ ps) h =
    bump_all_val_len x ps (if p.id == x then bump_meta h (reach p) else h)
    ∙ ap (longest x ps) (ground arith)

-- The entries for a block that has patches: the version grows by their number, the length to the furthest end.
pub pick-add_all_version :
    (b : Backend) (m : Mem) (x : ℕ) (ps : List Patch)
    → 0 < updates x ps
    → (pick x (head_of b m x) (add_all b m ps [])).version
      ≡ ((head_of b m x).version + updates x ps) % two32
pick-add_all_version b m x ps pos =
    let some' : (updates x ps == 0) ≡ false = ground arith in
    ap (λ (h : TxMeta). h.version) (pick-add_all b m x ps [])
    ∙ bump_all_version x ps (head_of b m x)
    ∙ rw some' refl

pub pick-add_all_val_len :
    (b : Backend) (m : Mem) (x : ℕ) (ps : List Patch)
    → (pick x (head_of b m x) (add_all b m ps [])).val_len ≡ longest x ps (head_of b m x).val_len
pick-add_all_val_len b m x ps =
    ap (λ (h : TxMeta). h.val_len) (pick-add_all b m x ps [])
    ∙ bump_all_val_len x ps (head_of b m x)

elem-add :
    (b : Backend) (m : Mem) (x id size : ℕ) (ms : List TxMeta)
    → elem x (ids (add id (head_of b m id) size ms)) ≡ ((x == id) || elem x (ids ms))
unfolding bump_meta elem
elem-add b m x id size [] = refl
elem-add b m x id size (n ∷ ms) = elim (Bool-cases (n.id == id)) [
  | inl here ↦ rw here (ground (arith, here))
  | inr there ↦ rw there (ground (arith, elem-add b m x id size ms))
]

pub elem-add_all :
    (b : Backend) (m : Mem) (x : ℕ) (ps : List Patch) (ms : List TxMeta)
    → elem x (ids (add_all b m ps ms)) ≡ (not (updates x ps == 0) || elem x (ids ms))
elem-add_all b m x [] ms = refl
elem-add_all b m x (p ∷ ps) ms =
    elem-add_all b m x ps (add p.id (head_of b m p.id) (reach p) ms)
    ∙ ground (arith, elem-add b m x p.id (reach p) ms)

-- The entries are for different blocks, and their fields fit the header's.
abbrev pub AllEntries : Backend → List TxMeta → Type 0
AllEntries b [] = Unit
AllEntries b (m ∷ ms) =
    (IsBlockId b m.id × (sizeof_data_hdr ≤ block_len b m.id))
    × ((m.version < two32) × (m.val_len < two32))
    × (elem m.id (ids ms) ≡ false)
    × AllEntries b ms

AllEntries-add :
    (b : Backend) (m : Mem) (id size : ℕ) (ms : List TxMeta)
    → IsBlockId b id × (sizeof_data_hdr ≤ block_len b id)
    → (head_of b m id).val_len < two32
    → size < two32
    → AllEntries b ms
    → AllEntries b (add id (head_of b m id) size ms)
unfolding bump_meta elem
AllEntries-add b m id size [] i len s a = (i, (omega arith, ground arith), refl, tt)
AllEntries-add b m id size (n ∷ ms) i len s (j, w, d, a) = elim (Bool-cases (n.id == id)) [
  | inl here ↦ rw here (j, (omega arith, ground (arith, w)), d, a)
  | inr there ↦ rw there (
    j,
    w,
    elem-add b m n.id id size ms ∙ ground (arith, there, d),
    AllEntries-add b m id size ms i len s a,
  )
]

pub AllEntries-add_all :
    (b : Backend) (max : ℕ) (m : Mem) (ps : List Patch) (ms : List TxMeta)
    → AllPatches b max m ps
    → AllEntries b ms
    → AllEntries b (add_all b m ps ms)
AllEntries-add_all b max m [] ms f a = a
AllEntries-add_all b max m (p ∷ ps) ms (f, fs) a =
    AllEntries-add_all b max m ps (add p.id (head_of b m p.id) (reach p) ms) fs (
      AllEntries-add b m p.id (reach p) ms (f.block.0, omega (arith, f.fits)) f.len_word f.words.1
        a)
