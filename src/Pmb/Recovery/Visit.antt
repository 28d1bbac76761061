-- ===== src/Pmb/Recovery/Visit.antt =====
-- pmbackend.c: what a schedule of visits does to the four lists.
use pmbackend.Base.{
  ℕ, ◌≡◌, refl, Bool, not, ◌&&◌, ◌||◌, Option, List, [], ◌∷◌, ltb, Bool-cases, inl, inr, ◌∙◌,
}
use pmbackend.Caslist.Many.{elem, AllFit, push_where, push_where-Holds, Holds, Holds-unique}
use pmbackend.Kv.{Handle, Util}
use pmbackend.Caslist.{Caslist}
use pmbackend.Pmb.Recovery.{in_meta, is_object, visit, visit_all}

-- The ids that belong into each of the lists.
module _ (u : Util) (s : Handle) where
  abbrev pub for_free : ℕ → Bool
  for_free x = not (in_meta s x) && not (is_object u s x)

  abbrev pub for_meta_free : ℕ → Bool
  for_meta_free x = in_meta s x && not (is_object u s x)

  abbrev pub for_objs : ℕ → Bool
  for_objs x = not (in_meta s x) && is_object u s x

  abbrev pub for_meta_objs : ℕ → Bool
  for_meta_objs x = in_meta s x && is_object u s x

-- The handle after the visits `ps`: nothing but the lists has changed.
abbrev pub sorted : Util → List ℕ → Handle → Handle
sorted u ps s = record s {
  free_list = push_where (for_free u s) ps s.free_list;
  meta_free_list = push_where (for_meta_free u s) ps s.meta_free_list;
  objs_list = push_where (for_objs u s) ps s.objs_list;
  meta_objs_list = push_where (for_meta_objs u s) ps s.meta_objs_list;
}

module _ (u : Util) (pos : ℕ) (s : Handle) where
  visit-sorted : visit u pos s ≡ sorted u (pos ∷ []) s
  unfolding visit push_where
  visit-sorted = elim (Bool-cases (is_object u s pos)) [
    | inl object ↦ elim (Bool-cases (in_meta s pos)) [
      | inl meta ↦ rw (object, meta)
      | inr no_meta ↦ rw (object, no_meta)
    ]
    | inr free ↦ elim (Bool-cases (in_meta s pos)) [
      | inl meta ↦ rw (free, meta)
      | inr no_meta ↦ rw (free, no_meta)
    ]
  ]

-- A visit does not change what later visits see.
sorted-sorted :
    (u : Util) (pos : ℕ) (ps : List ℕ) (s : Handle)
    → sorted u ps (sorted u (pos ∷ []) s) ≡ sorted u (pos ∷ ps) s
unfolding is_object in_meta push_where
sorted-sorted u pos ps s = refl

pub visit_all-sorted : (u : Util) (ps : List ℕ) (s : Handle) → visit_all u ps s ≡ sorted u ps s
unfolding visit_all push_where
visit_all-sorted u [] s = refl
visit_all-sorted u (pos ∷ ps) s =
    rw (visit-sorted u pos s)
      (visit_all-sorted u ps (sorted u (pos ∷ []) s) ∙ sorted-sorted u pos ps s)

-- The lists as they are when `recovery` is called: there and valid.
pub record Lists (s : Handle) (free meta_free objs meta_objs : ℕ → Bool) : Type 0 where
  pub in_free : Holds free s.free_list
  pub in_meta_free : Holds meta_free s.meta_free_list
  pub in_objs : Holds objs s.objs_list
  pub in_meta_objs : Holds meta_objs s.meta_objs_list

module _ (u : Util) (s : Handle) {free meta_free objs meta_objs : ℕ → Bool}
    (l : Lists s free meta_free objs meta_objs) where
  -- Each list gains the visited ids that belong into it.
  pub visit_all-Lists :
      (ps : List ℕ)
      → AllFit ps
      → Lists
          (visit_all u ps s)
          (λ x. (ltb 0 x && for_free u s x && elem x ps) || free x)
          (λ x. (ltb 0 x && for_meta_free u s x && elem x ps) || meta_free x)
          (λ x. (ltb 0 x && for_objs u s x && elem x ps) || objs x)
          (λ x. (ltb 0 x && for_meta_objs u s x && elem x ps) || meta_objs x)
  visit_all-Lists ps f = rw (visit_all-sorted u ps s) (record {
    in_free = push_where-Holds (for_free u s) free ps s.free_list f l.in_free;
    in_meta_free =
        push_where-Holds (for_meta_free u s) meta_free ps s.meta_free_list f l.in_meta_free;
    in_objs = push_where-Holds (for_objs u s) objs ps s.objs_list f l.in_objs;
    in_meta_objs =
        push_where-Holds (for_meta_objs u s) meta_objs ps s.meta_objs_list f l.in_meta_objs;
  })

  same_list :
      (want ids : ℕ → Bool) (c : Option Caslist)
      → Holds ids c
      → (ps qs : List ℕ) → AllFit ps
      → AllFit qs
      → ((x : ℕ) → elem x ps ≡ elem x qs)
      → push_where want ps c ≡ push_where want qs c
  same_list want ids c h ps qs f g same =
      let p = push_where-Holds want ids ps c f h in
      Holds-unique (λ x. (ltb 0 x && want x && elem x qs) || ids x) _ _
        (record {
          list = p.list;
          present = p.present;
          valid = p.valid;
          members = λ x. rw (← same x) (p.members x);
        })
        (push_where-Holds want ids qs c g h)

  -- From valid lists, two schedules that visit the same positions, each below the limit, in any order and
  -- any number of times, leave the same handle.
  pub visit_all_order :
      (ps qs : List ℕ)
      → AllFit ps
      → AllFit qs
      → ((x : ℕ) → elem x ps ≡ elem x qs)
      → visit_all u ps s ≡ visit_all u qs s
  visit_all_order ps qs f g same =
      rw (visit_all-sorted u ps s, visit_all-sorted u qs s)
        (cc (
          same_list (for_free u s) free s.free_list l.in_free ps qs f g same,
          same_list (for_meta_free u s) meta_free s.meta_free_list l.in_meta_free ps qs f g same,
          same_list (for_objs u s) objs s.objs_list l.in_objs ps qs f g same,
          same_list (for_meta_objs u s) meta_objs s.meta_objs_list l.in_meta_objs ps qs f g same,
        ))
