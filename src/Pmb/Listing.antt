-- ===== src/Pmb/Listing.antt =====
-- example/kvtest.c: the loop that lists the stored objects with an iterator.
use pmbackend.Base.{
  ℕ, zero, suc, ◌+◌, ◌≤◌, ◌<◌, ◌≡◌, refl, sym, ◌∙◌, ap, Bool, true, false, not, ◌&&◌, ◌||◌, Option,
  some, none, List, [], ◌∷◌, ◌==◌, if◌then◌else◌, arith, inl, inr, Bool-cases,
}
use pmbackend.Caslist.{Caslist, caslist_pop, caslist_size}
use pmbackend.Caslist.Many.{elem, Holds}
use pmbackend.Kv.{Handle}
use pmbackend.Pmb.Pair.{PmbPair}
use pmbackend.Pmb.Object.{get}
use pmbackend.Pmb.Iter.{
  PmbIter, objects, set_objects, iter_open, iter_next, pmb_iter_valid, pmb_iter_close,
}
use pmbackend.Pmb.Round.{set_objects_twice, objects-set_objects, get-set_objects, caslist_pop-Round}

-- The pairs that were printed, the handle, and whether the loop came to its end.
abbrev pub Listing : Type 0
Listing = List PmbPair × Handle × Bool

-- `while (pmb_iter_valid(iter))`: `pmb_iter_get` of a valid iterator is `pmb_get` of its position; the pair is
-- printed when its block id is not 0, and the id is set back to 0.
unfoldable pub list_from : ℕ → Handle → PmbIter → PmbPair → Listing
list_from zero s it p = ([], s, false)
list_from (suc fuel) s it p =
    let got = (get s it.vector_pos p).0 in
    let (s', it', ret) = iter_next s it in
    let rest = list_from fuel s' it' (record got { blk_id = 0 }) in
    if pmb_iter_valid (some it)
    then (if got.blk_id == 0 then rest.0 else got ∷ rest.0, rest.1, rest.2)
    else ([], s, true)

unfoldable pub list_objects : ℕ → Handle → (region : Bool) → PmbPair → Listing
unfolding list_from
list_objects fuel s region p =
    let (s', it) = iter_open s region in
    elim it [
      | none ↦ ([], s', true)
      | some it ↦ let r = list_from fuel s' it p in (r.0, (pmb_iter_close r.1 (some it)).0, r.2)
    ]

abbrev pub ids_of : List PmbPair → List ℕ
ids_of [] = []
ids_of (p ∷ ps) = p.blk_id ∷ ids_of ps

abbrev pub Increasing : ℕ → List ℕ → Type 0
Increasing lo [] = Unit
Increasing lo (x ∷ xs) = (lo ≤ x) × Increasing (x + 1) xs

-- Each of these ids has an object.
abbrev pub AllStored : Handle → (ℕ → Bool) → Type 0
AllStored s ids = (x : ℕ) → ids x ≡ true → (p : PmbPair) → (get s x p).0.blk_id ≡ x

-- The loop ended, the ids that it printed are increasing and are the wanted ones, and of the handle only the
-- region's list of objects changed.
pub record Listed (s : Handle) (region : Bool) (lo : ℕ) (want : ℕ → Bool) (r : Listing)
    : Type 0 where
  pub finished : r.2 ≡ true
  pub increasing : Increasing lo (ids_of r.0)
  pub complete : (x : ℕ) → elem x (ids_of r.0) ≡ want x
  pub only : r.1 ≡ set_objects s region (objects r.1 region)

Increasing-le : (lo lo' : ℕ) (xs : List ℕ) → lo' ≤ lo → Increasing lo xs → Increasing lo' xs
Increasing-le lo lo' [] l h = tt
Increasing-le lo lo' (x ∷ xs) l h = (omega (arith, h.0), h.1)

-- An id of the set, and the others.
taken_back : (ids : ℕ → Bool) (k x : ℕ) → ids k ≡ true → (x == k) || (ids x && not (x == k)) ≡ ids x
taken_back ids k x e = elim (Bool-cases (x == k)) [
  | inl same ↦ let q : x ≡ k = ground (arith, same) in rw (q, e) (ground arith)
  | inr other ↦ ground (arith, other)
]

-- The loop from a position that has an object.
list_from-Listed :
    (fuel : ℕ) (s : Handle) (it : PmbIter) (p : PmbPair) (ids : ℕ → Bool)
    → 0 < it.vector_pos
    → ((x : ℕ) → ids x ≡ true → it.vector_pos < x)
    → AllStored s (λ x. (x == it.vector_pos) || ids x)
    → Holds ids (objects s it.region)
    → caslist_size (objects s it.region) + 1 < fuel
    → Listed s it.region it.vector_pos (λ x. (x == it.vector_pos) || ids x) (list_from fuel s it p)
unfolding list_from iter_next pmb_iter_valid elem
list_from-Listed zero s it p ids pos above st h f = absurd (omega arith)
list_from-Listed (suc zero) s it p ids pos above st h f = absurd (omega arith)
list_from-Listed (suc (suc fuel)) s it p ids pos above st h f =
    let l = objects s it.region in
    let got = (get s it.vector_pos p).0 in
    let code : got.blk_id ≡ it.vector_pos = st it.vector_pos (ground arith) p in
    let valid : (it.vector_pos == 0) ≡ false = ground arith in
    let kept : (got.blk_id == 0) ≡ false = ground (arith, code) in
    elim (caslist_pop-Round ids l it.vector_pos h) [
      | inl (empty, e) ↦
          rw (valid, kept, e)
            (record {
              finished = refl;
              increasing = (omega (arith, code), tt);
              complete = λ x. ground (arith, code, empty x);
              only =
                  ap (λ (m : Option Caslist). set_objects s it.region m)
                    (sym (objects-set_objects s it.region l));
            })
      | inr (t, first, smaller) ↦
          let r = caslist_pop l it.vector_pos in
          let s1 = set_objects s it.region r.2 in
          let list_eq = objects-set_objects s it.region r.2 in
          let ids' : ℕ → Bool = λ x. ids x && not (x == r.1) in
          let rest =
            list_from-Listed (suc fuel) s1 (record it { vector_pos = r.1 })
              (record got { blk_id = 0 }) ids' first (λ x i. ground (arith, i, t.least x))
              (λ x i q.
                ap (λ (a : PmbPair × ℕ). a.0.blk_id) (get-set_objects s it.region r.2 x q)
                ∙ st x (ground (arith, taken_back ids r.1 x t.taken, i)) q)
              (rw list_eq t.rest) (rw list_eq (omega (arith, smaller))) in
          rw (valid, kept)
            (record {
              finished = rest.finished;
              increasing = (
                omega (arith, code),
                Increasing-le _ _ _ (omega (arith, code, above r.1 t.taken)) rest.increasing,
              );
              complete = λ x. ground (arith, code, rest.complete x, taken_back ids r.1 x t.taken);
              only = rest.only ∙ set_objects_twice s it.region _ _;
            })
    ]

-- When the region's list of objects is valid and each of its ids has an object, the loop, given more rounds than
-- the list has ids, ends; it prints the ids of the list, in increasing order and each once, and of the
-- handle it changes the list of objects alone.
pub list_objects-Listed :
    (fuel : ℕ) (s : Handle) (region : Bool) (p : PmbPair) (ids : ℕ → Bool)
    → AllStored s ids
    → Holds ids (objects s region)
    → caslist_size (objects s region) < fuel
    → Listed s region 1 ids (list_objects fuel s region p)
unfolding list_objects iter_open pmb_iter_close elem
list_objects-Listed fuel s region p ids st h f =
    let l = objects s region in
    elim (caslist_pop-Round ids l 0 h) [
      | inl (empty, e) ↦
          rw (list_objects, e)
            (record {
              finished = refl;
              increasing = tt;
              complete = λ x. sym (empty x);
              only =
                  ap (λ (m : Option Caslist). set_objects s region m)
                    (sym (objects-set_objects s region (caslist_pop l 0).2));
            })
      | inr (t, first, smaller) ↦
          let r = caslist_pop l 0 in
          let s1 = set_objects s region r.2 in
          let list_eq = objects-set_objects s region r.2 in
          let rest =
            list_from-Listed fuel s1 (record { region = region; vector_pos = r.1 }) p
              (λ x. ids x && not (x == r.1)) first (λ x i. ground (arith, i, t.least x))
              (λ x i q.
                ap (λ (a : PmbPair × ℕ). a.0.blk_id) (get-set_objects s region r.2 x q)
                ∙ st x (ground (arith, taken_back ids r.1 x t.taken, i)) q)
              (rw list_eq t.rest) (rw list_eq (omega (arith, smaller))) in
          let code : (r.0 == 0) ≡ true = ground (arith, t.code) in
          rw (list_objects, code)
            (record {
              finished = rest.finished;
              increasing = Increasing-le _ _ _ (omega arith) rest.increasing;
              complete = λ x. rest.complete x ∙ taken_back ids r.1 x t.taken;
              only =
                  ap (λ (x : Handle). set_objects x region none) rest.only
                  ∙ set_objects_twice _ region _ none
                  ∙ set_objects_twice s region _ none
                  ∙ ap (λ (m : Option Caslist). set_objects s region m)
                      (sym (objects-set_objects _ region none));
            })
    ]
