-- ===== src/TxLog/InPlace/Metas.antt =====
-- tx_log.c: the list of the blocks that a transaction updates in place, as a sequence.
use pmbackend.Base.{
  ℕ, suc, ◌+◌, ◌≤◌, ◌<◌, ◌≡◌, refl, sym, ◌∙◌, true, false, ◌⊎◌, List, [], ◌∷◌, length, ◌==◌,
  if◌then◌else◌, arith, inl, inr, Bool-cases,
}
use pmbackend.Kv.{TxMeta, TxMetalist, metalist_room}
use pmbackend.TxLog.Meta.{find_meta, set_meta, bump_meta}

abbrev pub ids : List TxMeta → List ℕ
ids [] = []
ids (m ∷ ms) = m.id ∷ ids ms

-- The entry of a block, if there is one.
abbrev pub pick : (id : ℕ) → TxMeta → List TxMeta → TxMeta
pick id m0 [] = m0
pick id m0 (m ∷ ms) = if m.id == id then m else pick id m0 ms

-- The entry of a block, bumped, or a new one that starts from `m0`.
abbrev pub add : (id : ℕ) → TxMeta → (size : ℕ) → List TxMeta → List TxMeta
add id m0 size [] = bump_meta m0 size ∷ []
add id m0 size (m ∷ ms) = if m.id == id then bump_meta m size ∷ ms else m ∷ add id m0 size ms

abbrev pub index_of : (id : ℕ) → List TxMeta → ℕ
index_of id [] = 0
index_of id (m ∷ ms) = if m.id == id then 0 else suc (index_of id ms)

-- From position `i` on, the array has these entries.
abbrev pub ListsFrom : (ℕ → TxMeta) → (i : ℕ) → List TxMeta → Type 0
ListsFrom list i [] = Unit
ListsFrom list i (m ∷ ms) = (list i ≡ m) × ListsFrom list (i + 1) ms

abbrev pub AllUsed : List TxMeta → Type 0
AllUsed [] = Unit
AllUsed (m ∷ ms) = (0 < m.id) × AllUsed ms

-- The list has these entries, and its other places are not used.
pub record Lists (l : TxMetalist) (ms : List TxMeta) : Type 0 where
  pub count : l.count ≡ length ms
  pub entries : ListsFrom l.list 0 ms
  pub used : AllUsed ms
  pub unused : (j : ℕ) → length ms ≤ j → j < metalist_room → (l.list j).id ≡ 0

-- No entry is used: the count and the ids of all entries are 0, as after a transaction with updates in place. The
-- memory that `malloc` gives to `tx_log_init` need not be so.
abbrev pub IsUnused : TxMetalist → Type 0
IsUnused l = Lists l []

find_meta-index_of :
    (list : ℕ → TxMeta) (id : ℕ) (ms : List TxMeta) (i : ℕ)
    → AllUsed ms
    → ListsFrom list i ms
    → find_meta (length ms) list id i ≡ i + index_of id ms
unfolding find_meta
find_meta-index_of list id [] i u e = omega arith
find_meta-index_of list id (m ∷ ms) i (pos, u) (here, e) =
    let rest = find_meta-index_of list id ms (i + 1) u e in
    let some_id : (m.id == 0) ≡ false = ground arith in
    elim (Bool-cases (m.id == id)) [
      | inl same ↦ rw (here, same) (omega arith)
      | inr other ↦ rw (here, other, some_id) (omega (arith, rest))
    ]

pub index_of-le : (id : ℕ) (ms : List TxMeta) → index_of id ms ≤ length ms
index_of-le id [] = omega arith
index_of-le id (m ∷ ms) = ground (arith, index_of-le id ms)

-- The array changes in front.
ListsFrom-set :
    (list : ℕ → TxMeta) (k : ℕ) (v : TxMeta) (ms : List TxMeta) (i : ℕ)
    → k < i
    → ListsFrom list i ms
    → ListsFrom (set_meta k v list) i ms
ListsFrom-set list k v [] i p e = tt
ListsFrom-set list k v (m ∷ ms) i p (here, e) =
    let ne : (i == k) ≡ false = ground arith in
    (rw ne here, ListsFrom-set list k v ms (i + 1) (omega arith) e)

ListsFrom-add :
    (list : ℕ → TxMeta) (id : ℕ) (m0 : TxMeta) (size : ℕ) (ms : List TxMeta) (i k : ℕ)
    → k ≡ i + index_of id ms
    → ListsFrom list i ms
    → ListsFrom (set_meta k (bump_meta (pick id m0 ms) size) list) i (add id m0 size ms)
ListsFrom-add list id m0 size [] i k q e =
    let here : (i == k) ≡ true = ground (arith, q) in (rw here refl, tt)
ListsFrom-add list id m0 size (m ∷ ms) i k q (here, e) = elim (Bool-cases (m.id == id)) [
  | inl same ↦
      let k_eq : k ≡ i = q ∙ ground (arith, same) in
      let at : (i == k) ≡ true = ground (arith, k_eq) in
      rw same
        (rw at refl, ListsFrom-set list k (bump_meta m size) ms (i + 1) (omega (arith, k_eq)) e)
  | inr other ↦
      let k_eq : k ≡ i + 1 + index_of id ms = q ∙ ground (arith, other) in
      let ne : (i == k) ≡ false = ground (arith, k_eq) in
      rw other (rw ne here, ListsFrom-add list id m0 size ms (i + 1) k k_eq e)
]

-- The block has no entry yet.
record IsNewcomer (id : ℕ) (m0 : TxMeta) (size : ℕ) (ms : List TxMeta) (i k : ℕ) : Type 0 where
  place_eq : k ≡ i + length ms
  start : pick id m0 ms ≡ m0
  longer : length (add id m0 size ms) ≡ length ms + 1

-- The block has one, at this position of the array.
record IsPresent (list : ℕ → TxMeta) (id : ℕ) (m0 : TxMeta) (size : ℕ) (ms : List TxMeta) (k : ℕ)
    : Type 0 where
  used : 0 < (list k).id
  start : list k ≡ pick id m0 ms
  same_length : length (add id m0 size ms) ≡ length ms

entry_of_id :
    (list : ℕ → TxMeta) (id : ℕ) (m0 : TxMeta) (size : ℕ) (ms : List TxMeta) (i k : ℕ)
    → k ≡ i + index_of id ms
    → AllUsed ms
    → ListsFrom list i ms
    → IsNewcomer id m0 size ms i k ⊎ IsPresent list id m0 size ms k
entry_of_id list id m0 size [] i k q u e =
    inl (record { place_eq = q; start = refl; longer = refl })
entry_of_id list id m0 size (m ∷ ms) i k q (pos, u) (here, e) = elim (Bool-cases (m.id == id)) [
  | inl same ↦
      let k_eq : k ≡ i = q ∙ ground (arith, same) in
      inr (record {
        used = rw (k_eq, here) pos;
        start = rw (k_eq, same) here;
        same_length = rw same refl;
      })
  | inr other ↦
      let k_eq : k ≡ i + 1 + index_of id ms = q ∙ ground (arith, other) in
      elim (entry_of_id list id m0 size ms (i + 1) k k_eq u e) [
        | inl n ↦ inl (record {
          place_eq = n.place_eq ∙ omega arith;
          start = rw other n.start;
          longer = rw other (omega (arith, n.longer));
        })
        | inr p ↦ inr (record {
          used = p.used;
          start = rw other p.start;
          same_length = rw other (omega (arith, p.same_length));
        })
      ]
]

pub length-add :
    (id : ℕ) (m0 : TxMeta) (size : ℕ) (ms : List TxMeta)
    → length (add id m0 size ms) ≤ length ms + 1
length-add id m0 size [] = omega arith
length-add id m0 size (m ∷ ms) = ground (arith, length-add id m0 size ms)

AllUsed-add :
    (id : ℕ) (m0 : TxMeta) (size : ℕ) (ms : List TxMeta)
    → 0 < m0.id
    → AllUsed ms
    → AllUsed (add id m0 size ms)
unfolding bump_meta
AllUsed-add id m0 size [] p u = (p, tt)
AllUsed-add id m0 size (m ∷ ms) p (pos, u) = elim (Bool-cases (m.id == id)) [
  | inl same ↦ rw same (pos, u)
  | inr other ↦ rw other (pos, AllUsed-add id m0 size ms p u)
]

-- The loop finds the position of the block's entry, or the first one that is not used.
pub find_meta-Lists :
    (l : TxMetalist) (id : ℕ) (ms : List TxMeta)
    → Lists l ms
    → find_meta l.count l.list id 0 ≡ index_of id ms
find_meta-Lists l id ms h =
    rw h.count (find_meta-index_of l.list id ms 0 h.used h.entries ∙ omega arith)

-- What `tx_slot_meta_upd_add` makes of the list, from a new entry `m0` for the block.
pub Lists-add :
    (l : TxMetalist) (id : ℕ) (m0 : TxMeta) (size : ℕ) (ms : List TxMeta)
    → Lists l ms
    → 0 < m0.id
    → length ms < metalist_room
    → let k = index_of id ms in
      ((if (l.list k).id == 0 then m0 else l.list k) ≡ pick id m0 ms)
      × Lists
          (record {
            count = if (l.list k).id == 0 then l.count + 1 else l.count;
            list = set_meta k (bump_meta (pick id m0 ms) size) l.list;
          })
          (add id m0 size ms)
Lists-add l id m0 size ms h p room =
    let k = index_of id ms in
    let set = ListsFrom-add l.list id m0 size ms 0 k (omega arith) h.entries in
    let used = AllUsed-add id m0 size ms p h.used in
    elim (entry_of_id l.list id m0 size ms 0 k (omega arith) h.used h.entries) [
      | inl n ↦
          let zero_id : ((l.list k).id == 0) ≡ true =
            ground (arith, h.unused k (omega (arith, n.place_eq)) (omega (arith, n.place_eq))) in
          rw zero_id (
            sym n.start,
            record {
              count = omega (arith, h.count, n.longer);
              entries = set;
              used = used;
              unused = λ j q r.
                  let ne : (j == k) ≡ false = ground (arith, n.place_eq, n.longer) in
                  rw ne (h.unused j (omega (arith, n.longer)) r);
            },
          )
      | inr n ↦
          let some_id : ((l.list k).id == 0) ≡ false = ground (arith, n.used) in
          rw some_id (
            n.start,
            record {
              count = omega (arith, h.count, n.same_length);
              entries = set;
              used = used;
              unused = λ j q r.
                  let z = h.unused j (omega (arith, n.same_length)) r in
                  let ne : (j == k) ≡ false = ground (arith, z, n.used) in rw ne z;
            },
          )
    ]
