-- ===== src/Caslist/Pop.antt =====
-- caslist.c: caslist_pop and caslist_new on valid lists.
use pmbackend.Base.{
  ℕ, ◌+◌, ◌-◌, ◌≤◌, ◌<◌, ◌≡◌, refl, inl, inr, ◌⊎◌, true, false, not, ◌&&◌, List, [], ◌∷◌, arith,
  ltb, leb, ◌==◌, Bool-cases, succ64, pred64, some, none,
}
use pmbackend.Caslist.{Link, link, Caslist, Popped, pop, advance, caslist_new}
use pmbackend.Caslist.Ranges.{
  limit, has, total, Chain, IsEmpty, IsRanges, IsValid, member, has-below, total_fits,
}

-- `r` took the id `r.val`, the least one, out of `c`.
pub record TakesLeast (c : Caslist) (r : Popped) : Type 0 where
  pub code : r.code ≡ 0
  pub present : member c r.val ≡ true
  pub least : (x : ℕ) → member c x ≡ true → r.val ≤ x
  pub rest : (x : ℕ) → member r.list x ≡ member c x && not (x == r.val)
  pub valid : IsValid r.list

-- The first range holds one id only, and the next range takes its place.
module _ (c : Caslist) (v : IsRanges c) (one : c.begin ≡ c.end) where
  advance-member :
      (ls : List Link)
      → c.next ≡ ls
      → (x : ℕ) → member (advance (pred64 c.size) c.end ls) x ≡ member c x && not (x == c.begin)
  unfolding advance member has
  advance-member [] e x = ground (arith, v.chain)
  advance-member (n ∷ ls) e x =
      let h : Chain (c.end + 2) (n ∷ ls) = rw e at v.chain.3 in
      rw e (ground (arith, v.chain, h, has-below (n.end + 2) x ls))

  advance-IsValid : (ls : List Link) → c.next ≡ ls → IsValid (advance (pred64 c.size) c.end ls)
  unfolding advance total
  advance-IsValid [] e = inl (record { begin = refl; end = refl; next = refl; size = ground arith })
  advance-IsValid (n ∷ ls) e =
      let h : Chain (c.end + 2) (n ∷ ls) = rw e at v.chain.3 in
      let s : c.size ≡ c.end + 1 - c.begin + total (n ∷ ls) = rw e at v.size in
      inr (record {
        chain = (omega arith, h.1, h.2, h.3);
        size = omega (arith, total_fits n ls (omega arith, h.1, h.2, h.3));
      })

-- On a valid list with ids, `caslist_pop` returns 0 and the least id, which leaves the set; nothing else
-- changes in the set, and the list stays valid.
pub pop-TakesLeast : (c : Caslist) → IsRanges c → TakesLeast c (pop c)
unfolding pop member has total
pop-TakesLeast c v =
    let full : (c.begin == 0 && c.end == 0) ≡ false = ground (arith, v.chain) in
    rw full (elim (Bool-cases (ltb c.end (succ64 c.begin))) [
      | inl last ↦ rw last (record {
        code = refl;
        present = ground (arith, v.chain);
        least = λ x. ground (arith, v.chain, has-below (c.end + 2) x c.next);
        rest = advance-member c v (ground (arith, v.chain)) c.next refl;
        valid = advance-IsValid c v (ground (arith, v.chain)) c.next refl;
      })
      | inr more ↦ rw more (record {
        code = refl;
        present = ground (arith, v.chain);
        least = λ x. ground (arith, v.chain, has-below (c.end + 2) x c.next);
        rest = λ x. ground (arith, v.chain, has-below (c.end + 2) x c.next);
        valid = inr (record {
          chain = ground (arith, v.chain);
          size = ground (arith, v.chain, total_fits (link c.begin c.end) c.next v.chain);
        });
      })
    ])

-- A valid list with an id is not the empty one.
pub pop-TakesLeast_of_member :
    (c : Caslist) (k : ℕ) → IsValid c → member c k ≡ true → TakesLeast c (pop c)
unfolding member
pop-TakesLeast_of_member c k (inl v) e = ground arith
pop-TakesLeast_of_member c k (inr v) e = pop-TakesLeast c v

-- Without ids, `caslist_pop` returns 1 and stores 0, and the list stays as it is.
pub pop-Empty : (c : Caslist) → IsEmpty c → pop c ≡ record { code = 1; val = 0; list = c }
unfolding pop
pop-Empty c v = ground arith

-- For an end below the limit, `caslist_new` refuses an interval that ends before it begins or that begins at 0 and is not the
-- empty interval; of any other it makes a valid list,
-- whose positive ids are those of the interval.
pub caslist_new-IsValid :
    (b e : ℕ)
    → e < limit
    → ((caslist_new true b e ≡ none) × ((e < b) ⊎ ((b ≡ 0) × (0 < e))))
      ⊎ ((c : Caslist) × (caslist_new true b e ≡ some c)
          × IsValid c
          × ((x : ℕ) → 0 < x → member c x ≡ (leb b x && leb x e)))
unfolding caslist_new member has total
caslist_new-IsValid b e h = elim (Bool-cases (ltb e b)) [
  | inl less ↦ inl (ground arith, ground arith)
  | inr fits ↦ elim (Bool-cases (b == 0)) [
    | inl origin ↦ elim (Bool-cases (ltb 0 e)) [
      | inl bad ↦ inl (ground arith, ground arith)
      | inr empty ↦ inr (
        record { size = 0; begin = b; end = e; next = [] },
        ground arith,
        inl (record { begin = ground arith; end = ground arith; next = refl; size = refl }),
        λ x p. ground arith,
      )
    ]
    | inr pos ↦ inr (
      record { size = succ64 (e - b); begin = b; end = e; next = [] },
      ground arith,
      inr (record { chain = ground arith; size = ground arith }),
      λ x p. ground arith,
    )
  ]
]
