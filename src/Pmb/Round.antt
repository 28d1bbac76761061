-- ===== src/Pmb/Round.antt =====
-- pmbackend.c: one step of an iterator, and the list that it takes the id from.
use pmbackend.Base.{
  ℕ, ◌+◌, ◌<◌, ◌≡◌, refl, sym, ◌∙◌, Bool, true, false, ◌&&◌, ◌⊎◌, Option, List, [], ◌∷◌, ltb, ◌==◌,
  arith, inl, inr, Bool-cases, succ64, pred64,
}
use pmbackend.Caslist.{Caslist, Link, pop, advance, caslist_pop, caslist_size, link}
use pmbackend.Caslist.Ranges.{IsRanges, total, total_fits, member, member_range, has}
use pmbackend.Caslist.Many.{Holds, Takes, Holds-change, caslist_pop-Takes, caslist_pop-nothing}
use pmbackend.Kv.{Handle}
use pmbackend.Pmb.Pair.{PmbPair}
use pmbackend.Pmb.Object.{get, fill_pair}
use pmbackend.Pmb.Iter.{objects, set_objects}

pub set_objects_twice :
    (s : Handle) (region : Bool) (l m : Option Caslist)
    → set_objects (set_objects s region l) region m ≡ set_objects s region m
set_objects_twice s false l m = refl
set_objects_twice s true l m = refl

pub objects-set_objects :
    (s : Handle) (region : Bool) (l : Option Caslist) → objects (set_objects s region l) region ≡ l
objects-set_objects s false l = refl
objects-set_objects s true l = refl

pub get-set_objects :
    (s : Handle) (region : Bool) (l : Option Caslist) (x : ℕ) (p : PmbPair)
    → get (set_objects s region l) x p ≡ get s x p
unfolding get fill_pair
get-set_objects s false l x p = refl
get-set_objects s true l x p = refl

advance-size : (s e : ℕ) (ls : List Link) → (advance s e ls).size ≡ s
unfolding advance
advance-size s e [] = refl
advance-size s e (l ∷ ls) = refl

-- The size of a list without its least id.
pop_size : (c : Caslist) → IsRanges c → (pop c).list.size + 1 ≡ c.size
unfolding pop total
pop_size c v =
    let full : (c.begin == 0 && c.end == 0) ≡ false = ground (arith, v.chain) in
    let fits = total_fits (link c.begin c.end) c.next v.chain in
    let some_size : 0 < c.size = omega (arith, v.chain, v.size) in
    rw full (elim (Bool-cases (ltb c.end (succ64 c.begin))) [
      | inl last ↦
          rw (last, advance-size (pred64 c.size) c.end c.next) (omega (arith, fits, v.size))
      | inr more ↦ rw more (omega (arith, fits, v.size))
    ])

member_first : (c : Caslist) → IsRanges c → member c c.begin ≡ true
unfolding member has
member_first c v = ground (arith, v.chain)

-- What `caslist_pop` does to a list that is valid: it has no id, or it gives one and is smaller by one.
abbrev Round : (ids : ℕ → Bool) (l : Option Caslist) (v : ℕ) → Type 0
Round ids l v =
    (((x : ℕ) → ids x ≡ false) × (caslist_pop l v ≡ (1, 0, l)))
    ⊎ (Takes ids (caslist_pop l v)
        × (0 < (caslist_pop l v).1)
        × (caslist_size (caslist_pop l v).2 + 1 ≡ caslist_size l))

pub caslist_pop-Round : (ids : ℕ → Bool) (l : Option Caslist) (v : ℕ) → Holds ids l → Round ids l v
unfolding caslist_size caslist_pop member
caslist_pop-Round ids l v h = elim h.valid [
  | inl none' ↦
      let empty : (x : ℕ) → ids x ≡ false =
        λ x. sym (h.members x) ∙ ground (arith, none'.begin, none'.end) in
      inl (empty, caslist_pop-nothing l v (Holds-change _ _ h empty))
  | inr some' ↦
      let first : ids h.list.begin ≡ true =
        sym (h.members h.list.begin) ∙ member_first h.list some' in
      let t = caslist_pop-Takes ids l v h.list.begin h first in
      let range = member_range h.list (caslist_pop l v).1 h.valid (h.members _ ∙ t.taken) in
      inr (t, range.0, rw h.present (pop_size h.list some'))
]
