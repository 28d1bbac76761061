-- ===== src/Caslist/Push.antt =====
-- caslist.c: caslist_push and _caslist_put on valid lists.
use pmbackend.Base.{
  ℕ, ◌+◌, ◌≤◌, ◌<◌, ◌≡◌, refl, inl, inr, Bool, true, false, ◌&&◌, ◌||◌, List, [], ◌∷◌, arith, ltb,
  leb, ◌==◌, if◌then◌else◌, Bool-cases, succ64, pred64,
}
use pmbackend.Caslist.{Link, link, Caslist, merge, put_after, put, push, with_ranges}
use pmbackend.Caslist.Ranges.{
  limit, has, total, Chain, IsEmpty, IsRanges, IsValid, member, has-below, total_fits,
}

-- `new` holds the ids of `old` and `val`, starts at `lo` or later, and counts one more.
record Adds (lo val : ℕ) (old new : List Link) : Type 0 where
  chain : Chain lo new
  ids : (x : ℕ) → has new x ≡ (x == val) || has old x
  count : total new ≡ total old + 1

-- What `_caslist_put` returns: whether `val` was new, and then the chain with it.
data Outcome (lo val : ℕ) (old : List Link) : List Link × Bool → Type 0 where
  held : has old val ≡ true → Outcome lo val old (old, false)
  added :
      {new : List Link} → has old val ≡ false → Adds lo val old new → Outcome lo val old (new, true)

-- What the call of `_caslist_put` on the rest of the chain gives when it is made.
abbrev Deeper : ℕ → ℕ → List Link → List Link × Bool → Type 0
Deeper lo val [] r = Unit
Deeper lo val (n ∷ rest) r = lo ≤ val → n.begin ≤ val + 1 → Outcome lo val (n ∷ rest) r

module _ (lo val : ℕ) where
  merge-Adds :
      (l : Link) (ls : List Link)
      → Chain lo (l ∷ ls)
      → val ≡ l.end + 1
      → val < limit
      → Adds lo val (l ∷ ls) (merge (link l.begin (succ64 l.end)) ls)
  unfolding merge has total
  merge-Adds l [] h e b = record {
    chain = ground arith;
    ids = λ x. ground arith;
    count = ground arith;
  }
  merge-Adds l (n ∷ ls) h e b = record {
    chain = ground arith;
    ids = λ x. ground arith;
    count = ground arith;
  }

  Outcome-cons :
      (l : Link) (ls : List Link) {r : List Link × Bool}
      → Chain lo (l ∷ ls)
      → l.end < val
      → Outcome (l.end + 2) val ls r
      → Outcome lo val (l ∷ ls) (l ∷ r.0, r.1)
  unfolding has total
  Outcome-cons l ls h a (held e) = held (ground arith)
  Outcome-cons l ls h a (added e new) = added (ground arith) (record {
    chain = (h.0, h.1, h.2, new.chain);
    ids = λ x. ground (arith, new.ids x);
    count = omega (arith, new.count);
  })

  put_after-Outcome :
      (l : Link) (ls : List Link) (deeper : List Link × Bool)
      → Chain lo (l ∷ ls)
      → l.end + 2 ≤ val
      → val < limit
      → Deeper (l.end + 2) val ls deeper
      → let r = put_after ls val deeper in Outcome lo val (l ∷ ls) (l ∷ r.0, r.1)
  unfolding put_after has total
  put_after-Outcome l [] deeper h a b next =
      added (ground arith)
        (record { chain = ground arith; ids = λ x. ground arith; count = ground arith })
  put_after-Outcome l (n ∷ rest) deeper h a b next = elim (Bool-cases (ltb val (pred64 n.begin))) [
    | inl before ↦ rw before (
        added (ground (arith, has-below (n.end + 2) val rest))
          (record { chain = ground arith; ids = λ x. ground arith; count = ground arith }))
    | inr reach ↦ rw reach (Outcome-cons l (n ∷ rest) h (omega arith) (next a (ground arith)))
  ]

put_step :
    (lo val : ℕ) (l : Link) (ls : List Link)
    → Chain lo (l ∷ ls)
    → lo ≤ val
    → 0 < lo
    → val < limit
    → l.begin ≤ val + 1
    → Deeper (l.end + 2) val ls (put ls val)
    → Outcome lo val (l ∷ ls) (put (l ∷ ls) val)
unfolding put has total
put_step lo val l ls h a p b reach deeper = elim (Bool-cases (leb l.begin val && leb val l.end)) [
  | inl inside ↦ rw inside (held (ground arith))
  | inr out ↦ rw out (elim (Bool-cases (val == pred64 l.begin)) [
    | inl before ↦ rw before (
        added (ground (arith, has-below (l.end + 2) val ls))
          (record { chain = ground arith; ids = λ x. ground arith; count = ground arith }))
    | inr apart ↦ rw apart (elim (Bool-cases (val == succ64 l.end)) [
      | inl touch ↦ rw touch (
          added (ground (arith, has-below (l.end + 2) val ls))
            (merge-Adds lo val l ls h (ground arith) b))
      | inr far ↦ rw far (put_after-Outcome lo val l ls (put ls val) h (ground arith) b deeper)
    ])
  ])
]

-- `_caslist_put` on a chain whose first range starts at most one id after `val`.
put-Deeper :
    (lo val : ℕ) (ls : List Link)
    → Chain lo ls
    → 0 < lo
    → val < limit
    → Deeper lo val ls (put ls val)
put-Deeper lo val [] h p b = tt
put-Deeper lo val (l ∷ ls) h p b = λ a reach.
    put_step lo val l ls h a p b reach (put-Deeper (l.end + 2) val ls h.3 (omega arith) b)

Outcome-new :
    {lo val : ℕ} {old : List Link} {r : List Link × Bool}
    → has old val ≡ false
    → Outcome lo val old r
    → (r.1 ≡ true) × Adds lo val old r.0
Outcome-new out (held e) = cc
Outcome-new out (added e new) = (refl, new)

Outcome-held :
    {lo val : ℕ} {old : List Link} {r : List Link × Bool}
    → has old val ≡ true
    → Outcome lo val old r
    → (r.0 ≡ old) × (r.1 ≡ false)
Outcome-held e (held e') = (refl, refl)
Outcome-held e (added out new) = cc

-- A list that is not empty, after a push.
record Pushed (val : ℕ) (old new : Caslist) : Type 0 where
  valid : IsRanges new
  ids : (x : ℕ) → member new x ≡ (x == val) || member old x

with_ranges-Pushed :
    (val : ℕ) (c : Caslist) (ls : List Link)
    → IsRanges c
    → has (link c.begin c.end ∷ c.next) val ≡ false
    → Adds 1 val (link c.begin c.end ∷ c.next) ls
    → 0 < val
    → Pushed val c (with_ranges (succ64 c.size) ls)
unfolding member has total
with_ranges-Pushed val c [] v out new p = absurd (omega (arith, new.count))
with_ranges-Pushed val c (l ∷ ls) v out new p = record {
  valid = record {
    chain = new.chain;
    size = ground (arith, v.size, new.count, total_fits l ls new.chain);
  };
  ids = λ x. ground (arith, new.ids x, new.chain.0);
}

-- The id is new and the list is not empty: each way in which `caslist_push` takes it in.
push-Ranges :
    (c : Caslist) (val : ℕ)
    → IsRanges c
    → 0 < val
    → val < limit
    → has (link c.begin c.end ∷ c.next) val ≡ false
    → Pushed val c (push c val)
unfolding push member has total
push-Ranges c val v p b out =
    let l = link c.begin c.end in
    let after = put_after c.next val (put c.next val) in
    let push_after : (after.1 ≡ true) × Adds 1 val (l ∷ c.next) (l ∷ after.0)
        → Pushed val c
            (record c { next = after.0; size = if after.1 then succ64 c.size else c.size }) =
      λ (flag, new). rw flag (with_ranges-Pushed val c (l ∷ after.0) v out new p) in
    let nonzero : (val == 0) ≡ false = ground arith in
    let outside : (leb c.begin val && leb val c.end) ≡ false = ground arith in
    let full : (c.begin == 0 && c.end == 0) ≡ false = ground (arith, v.chain.0) in
    rw (nonzero, outside, full)
      (elim (Bool-cases (val == pred64 c.begin)) [
        | inl before ↦ rw before (
            with_ranges-Pushed val c (link (pred64 c.begin) c.end ∷ c.next) v out
              (record {
                chain = ground (arith, v.chain);
                ids = λ x. ground (arith, v.chain);
                count = ground (arith, v.chain);
              })
              p)
        | inr apart ↦ rw apart (elim (Bool-cases (val == succ64 c.end)) [
          | inl touch ↦ rw touch (
              with_ranges-Pushed val c _ v out
                (merge-Adds 1 val l c.next v.chain (ground (arith, v.chain)) b) p)
          | inr far ↦ rw far (elim (Bool-cases (ltb val (pred64 c.begin))) [
            | inl before ↦ rw before (
                with_ranges-Pushed val c (link val val ∷ l ∷ c.next) v out
                  (record {
                    chain = ground (arith, v.chain);
                    ids = λ x. ground (arith, v.chain);
                    count = ground (arith, v.chain);
                  })
                  p)
            | inr behind ↦ rw behind (
                push_after (
                  Outcome-new out (
                    put_after-Outcome 1 val l c.next (put c.next val) v.chain
                      (ground (arith, v.chain)) b
                      (put-Deeper (c.end + 2) val c.next v.chain.3 (omega arith) b))))
          ])
        ])
      ])

-- The id is there already.
push-held :
    (c : Caslist) (val : ℕ)
    → IsRanges c
    → 0 < val
    → val < limit
    → has (link c.begin c.end ∷ c.next) val ≡ true
    → push c val ≡ c
unfolding push has
push-held c val v p b e =
    let l = link c.begin c.end in
    let after = put_after c.next val (put c.next val) in
    elim (Bool-cases (leb c.begin val && leb val c.end)) [
      | inl inside ↦ ground arith
      | inr out ↦
          let far : c.end + 2 ≤ val = ground (arith, has-below (c.end + 2) val c.next v.chain.3) in
          let r : (l ∷ after.0 ≡ l ∷ c.next) × (after.1 ≡ false) = Outcome-held e (
            put_after-Outcome 1 val l c.next (put c.next val) v.chain far b
              (put-Deeper (c.end + 2) val c.next v.chain.3 (omega arith) b)) in
          ground (arith, r, v.chain)
    ]

push-Empty : (c : Caslist) (val : ℕ) → IsEmpty c → 0 < val → val < limit → Pushed val c (push c val)
unfolding push member has total
push-Empty c val v p b = record {
  valid = record { chain = ground arith; size = ground arith };
  ids = λ x. ground arith;
}

-- Pushing a positive id below the limit onto a valid list leaves a valid list, whose ids are the old
-- ones and the new one. An id that is there already changes nothing.
pub push-IsValid :
    (c : Caslist) (val : ℕ)
    → IsValid c
    → 0 < val
    → val < limit
    → IsValid (push c val) × ((x : ℕ) → member (push c val) x ≡ (x == val) || member c x)
unfolding member
push-IsValid c val (inl v) p b = let r = push-Empty c val v p b in (inr r.valid, r.ids)
push-IsValid c val (inr v) p b = elim (Bool-cases (has (link c.begin c.end ∷ c.next) val)) [
  | inl old ↦ rw (push-held c val v p b old) (inr v, λ x. ground (arith, old, v.chain))
  | inr new ↦ let r = push-Ranges c val v p b new in (inr r.valid, r.ids)
]
