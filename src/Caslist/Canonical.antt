-- ===== src/Caslist/Canonical.antt =====
-- caslist.c: equality of valid lists by their ids.
use pmbackend.Base.{ℕ, ◌+◌, ◌<◌, ◌≡◌, refl, ap, inl, inr, List, [], ◌∷◌, arith}
use pmbackend.Caslist.{Link, link, Caslist, pop, push}
use pmbackend.Caslist.Ranges.{
  limit, has, total, Chain, IsRanges, IsValid, member, has-below, member_range,
}
use pmbackend.Caslist.Push.{push-IsValid}
use pmbackend.Caslist.Pop.{pop-TakesLeast}

abbrev SameIds : List Link → List Link → Type 0
SameIds ls ms = (x : ℕ) → has ls x ≡ has ms x

module _ (l m : Link) (ls ms : List Link) (lo : ℕ) (g : Chain lo (l ∷ ls)) (h : Chain lo (m ∷ ms))
    (same : SameIds (l ∷ ls) (m ∷ ms)) where
  same_link : l ≡ m
  unfolding has
  same_link = ground (
    arith,
    g,
    h,
    same l.begin,
    same m.begin,
    same (l.end + 1),
    same (m.end + 1),
    has-below (l.end + 2) m.begin ls,
    has-below (m.end + 2) l.begin ms,
    has-below (l.end + 2) (l.end + 1) ls,
    has-below (m.end + 2) (m.end + 1) ms,
  )

  same_rest : l ≡ m → SameIds ls ms
  unfolding has
  same_rest e x = ground (
    arith,
    g,
    h,
    same x,
    ap (λ (k : Link). k.end) e,
    has-below (l.end + 2) x ls,
    has-below (m.end + 2) x ms,
  )

-- Chains with the same ids are equal.
Chain-unique : (lo : ℕ) (ls ms : List Link) → Chain lo ls → Chain lo ms → SameIds ls ms → ls ≡ ms
unfolding has
Chain-unique lo [] [] g h same = refl
Chain-unique lo [] (m ∷ ms) g h same = ground (arith, h, same m.begin)
Chain-unique lo (l ∷ ls) [] g h same = ground (arith, g, same l.begin)
Chain-unique lo (l ∷ ls) (m ∷ ms) g h same =
    let e : l ≡ m = same_link l m ls ms lo g h same in
    let h' : Chain (l.end + 2) ms = rw e h.3 in
    cc (e, Chain-unique (l.end + 2) ls ms g.3 h' (same_rest l m ls ms lo g h same e))

-- Valid lists with the same ids are equal, `size` included.
pub eq_of_members :
    (c d : Caslist) → IsValid c → IsValid d → ((x : ℕ) → member c x ≡ member d x) → c ≡ d
unfolding member has
eq_of_members c d (inl v) (inl w) same = ground arith
eq_of_members c d (inl v) (inr w) same = ground (arith, w.chain, same d.begin)
eq_of_members c d (inr v) (inl w) same = ground (arith, v.chain, same c.begin)
eq_of_members c d (inr v) (inr w) same =
    let e : link c.begin c.end ∷ c.next ≡ link d.begin d.end ∷ d.next =
      Chain-unique 1 _ _ v.chain w.chain (λ x. ground (arith, same x, v.chain, w.chain)) in
    ground (arith, ap total e, v.size, w.size)

-- On a valid list with ids, giving back the id that was just taken restores the list.
pub push-pop : (c : Caslist) → IsRanges c → push (pop c).list (pop c).val ≡ c
push-pop c v =
    let t = pop-TakesLeast c v in
    let r = member_range c (pop c).val (inr v) t.present in
    let p = push-IsValid (pop c).list (pop c).val t.valid r.0 r.1 in
    eq_of_members _ c p.0 (inr v) (λ x. ground (arith, p.1 x, t.rest x, t.present))

-- On a valid list, the order in which two positive ids below the limit are given back does not matter.
pub push_comm :
    (c : Caslist) (a b : ℕ)
    → IsValid c
    → 0 < a
    → a < limit
    → 0 < b
    → b < limit
    → push (push c a) b ≡ push (push c b) a
push_comm c a b v pa la pb lb =
    let p = push-IsValid c a v pa la in
    let q = push-IsValid c b v pb lb in
    let p' = push-IsValid (push c a) b p.0 pb lb in
    let q' = push-IsValid (push c b) a q.0 pa la in
    eq_of_members _ _ p'.0 q'.0 (λ x. ground (arith, p.1 x, q.1 x, p'.1 x, q'.1 x))
