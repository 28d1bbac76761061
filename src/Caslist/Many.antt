-- ===== src/Caslist/Many.antt =====
-- Many pushes, in any order, of those ids of a sequence that a test selects.
use pmbackend.Base.{
  ℕ, ◌<◌, ◌≡◌, refl, Bool, true, false, ◌&&◌, ◌||◌, Option, some, List, [], ◌∷◌, ◌++◌, arith, ltb,
  leb, ◌==◌, if◌then◌else◌, Bool-cases, inl, inr, ◌∙◌, sym, ◌≤◌, not,
}
use pmbackend.Caslist.{Caslist, push, caslist_new, caslist_push, pop, caslist_pop}
use pmbackend.Caslist.Ranges.{limit, IsValid, member, member_range}
use pmbackend.Caslist.Push.{push-IsValid}
use pmbackend.Caslist.Pop.{caslist_new-IsValid, pop-TakesLeast, pop-Empty, pop-TakesLeast_of_member}
use pmbackend.Caslist.Canonical.{eq_of_members}

unfoldable pub elem : ℕ → List ℕ → Bool
elem x [] = false
elem x (y ∷ ys) = (x == y) || elem x ys

pub elem-append : (x : ℕ) (xs ys : List ℕ) → elem x (xs ++ ys) ≡ elem x xs || elem x ys
unfolding elem
elem-append x [] ys = refl
elem-append x (y ∷ xs) ys = ground (arith, elem-append x xs ys)

-- every id is below the limit
abbrev pub AllFit : List ℕ → Type 0
AllFit [] = Unit
AllFit (x ∷ xs) = (x < limit) × AllFit xs

unfoldable pub push_where : (ℕ → Bool) → List ℕ → Option Caslist → Option Caslist
push_where want [] l = l
push_where want (x ∷ xs) l = push_where want xs (if want x then caslist_push l x else l)

-- A list that is there and valid, with these ids.
pub record Holds (ids : ℕ → Bool) (l : Option Caslist) : Type 0 where
  pub list : Caslist
  pub present : l ≡ some list
  pub valid : IsValid list
  pub members : (x : ℕ) → member list x ≡ ids x

pub Holds-unique : (ids : ℕ → Bool) (l m : Option Caslist) → Holds ids l → Holds ids m → l ≡ m
Holds-unique ids l m h k = cc (
  h.present,
  k.present,
  eq_of_members h.list k.list h.valid k.valid (λ x. cc (h.members x, k.members x)),
)

pub Holds-change :
    (ids ids' : ℕ → Bool) {l : Option Caslist}
    → Holds ids l
    → ((x : ℕ) → ids x ≡ ids' x)
    → Holds ids' l
Holds-change ids ids' h e = record {
  list = h.list;
  present = h.present;
  valid = h.valid;
  members = λ x. h.members x ∙ e x;
}

pub caslist_push-Holds :
    (ids : ℕ → Bool) (l : Option Caslist) (v : ℕ)
    → v < limit
    → Holds ids l
    → Holds (λ x. (ltb 0 v && x == v) || ids x) (caslist_push l v)
unfolding caslist_push push
caslist_push-Holds ids l v b h = elim (Bool-cases (ltb 0 v)) [
  | inl pos ↦
      let r = push-IsValid h.list v h.valid (ground arith) b in
      record {
        list = push h.list v;
        present = rw h.present;
        valid = r.0;
        members = λ x. ground (arith, r.1 x, h.members x);
      }
  | inr none' ↦ record {
    list = h.list;
    present = rw h.present (ground arith);
    valid = h.valid;
    members = λ x. ground (arith, h.members x);
  }
]

pub push_where-Holds :
    (want : ℕ → Bool) (ids : ℕ → Bool) (xs : List ℕ) (l : Option Caslist)
    → AllFit xs
    → Holds ids l
    → Holds (λ x. (ltb 0 x && want x && elem x xs) || ids x) (push_where want xs l)
unfolding push_where elem
push_where-Holds want ids [] l f h = record {
  list = h.list;
  present = h.present;
  valid = h.valid;
  members = λ x. ground (arith, h.members x);
}
push_where-Holds want ids (y ∷ ys) l f h = elim (Bool-cases (want y)) [
  | inl wanted ↦
      let r =
        push_where-Holds want (λ x. (ltb 0 y && x == y) || ids x) ys (caslist_push l y) f.1
          (caslist_push-Holds ids l y f.0 h) in
      rw wanted (record {
        list = r.list;
        present = r.present;
        valid = r.valid;
        members = λ x. r.members x ∙ ground arith;
      })
  | inr skipped ↦
      let r = push_where-Holds want ids ys l f.1 h in
      rw skipped (record {
        list = r.list;
        present = r.present;
        valid = r.valid;
        members = λ x. r.members x ∙ ground arith;
      })
]

-- `caslist_pop` on a list with an id: the code, the id, and the list that is left.
pub record Takes (ids : ℕ → Bool) (r : ℕ × ℕ × Option Caslist) : Type 0 where
  pub code : r.0 ≡ 0
  pub taken : ids r.1 ≡ true
  pub least : (x : ℕ) → ids x ≡ true → r.1 ≤ x
  pub rest : Holds (λ x. ids x && not (x == r.1)) r.2

pub caslist_pop-Takes :
    (ids : ℕ → Bool) (l : Option Caslist) (v k : ℕ)
    → Holds ids l
    → ids k ≡ true
    → Takes ids (caslist_pop l v)
unfolding caslist_pop
caslist_pop-Takes ids l v k h e =
    let t = pop-TakesLeast_of_member h.list k h.valid (h.members k ∙ e) in
    rw h.present (record {
      code = t.code;
      taken = sym (h.members (pop h.list).val) ∙ t.present;
      least = λ x i. t.least x (h.members x ∙ i);
      rest = record {
        list = (pop h.list).list;
        present = refl;
        valid = t.valid;
        members = λ x. ground (arith, t.rest x, h.members x);
      };
    })

-- The list that `caslist_new` makes of an interval from 1.
pub interval-Holds :
    (n : ℕ) → 0 < n → n < limit → Holds (λ x. ltb 0 x && leb x n) (caslist_new true 1 n)
interval-Holds n p b = elim (caslist_new-IsValid 1 n b) [
  | inl (e, bad) ↦ absurd (omega arith)
  | inr (c, e, v, m) ↦ record {
    list = c;
    present = e;
    valid = v;
    members = λ x. ground (arith, m x, member_range c x v);
  }
]

pop_of_nothing :
    (c : Caslist)
    → IsValid c
    → ((x : ℕ) → member c x ≡ false)
    → pop c ≡ record { code = 1; val = 0; list = c }
pop_of_nothing c (inl v) m = pop-Empty c v
pop_of_nothing c (inr v) m = let t = pop-TakesLeast c v in cc (t.present, m (pop c).val)

-- `caslist_pop` on a list without ids.
pub caslist_pop-nothing :
    (l : Option Caslist) (v : ℕ) → Holds (λ x. false) l → caslist_pop l v ≡ (1, 0, l)
unfolding caslist_pop
caslist_pop-nothing l v h =
    rw h.present (let e = pop_of_nothing h.list h.valid h.members in rw e refl)
