-- ===== src/Kv/Lists.antt =====
-- kv.h: the free lists of a handle, as sets of ids.
use pmbackend.Base.{ℕ, ◌<◌, ◌≡◌, Bool, not, ◌&&◌, ◌||◌, ltb, ◌==◌, arith, Bool-cases, inl, inr}
use pmbackend.Caslist.Ranges.{limit}
use pmbackend.Caslist.Many.{Holds, Holds-change, caslist_push-Holds}
use pmbackend.Kv.{Handle, release}

-- The two free lists hold these ids.
pub record FreeLists (s : Handle) (data_free meta_free : ℕ → Bool) : Type 0 where
  pub data_side : Holds data_free s.free_list
  pub meta_side : Holds meta_free s.meta_free_list

pub FreeLists-change :
    {s : Handle} {f g f' g' : ℕ → Bool}
    → ((x : ℕ) → f x ≡ f' x)
    → ((x : ℕ) → g x ≡ g' x)
    → FreeLists s f g
    → FreeLists s f' g'
FreeLists-change p q h = record {
  data_side = Holds-change _ _ h.data_side p;
  meta_side = Holds-change _ _ h.meta_side q;
}

-- Of the ids that are freed, those below `total_objs_count` go to the data region's list.
abbrev pub data_gain : ℕ → (ℕ → Bool) → (ℕ → Bool) → ℕ → Bool
data_gain total freed f x = (ltb x total && freed x) || f x

abbrev pub meta_gain : ℕ → (ℕ → Bool) → (ℕ → Bool) → ℕ → Bool
meta_gain total freed g x = (not (ltb x total) && freed x) || g x

pub release-FreeLists :
    (s : Handle) (id : ℕ) (f g : ℕ → Bool)
    → 0 < id
    → id < limit
    → FreeLists s f g
    → FreeLists
        (release s id)
        (data_gain s.total_objs_count (λ x. x == id) f)
        (meta_gain s.total_objs_count (λ x. x == id) g)
unfolding release
release-FreeLists s id f g p q h = elim (Bool-cases (ltb id s.total_objs_count)) [
  | inl low ↦ rw low (record {
    data_side =
        Holds-change _ _ (caslist_push-Holds f s.free_list id q h.data_side) (λ x. ground arith);
    meta_side = Holds-change _ _ h.meta_side (λ x. ground arith);
  })
  | inr high ↦ rw high (record {
    data_side = Holds-change _ _ h.data_side (λ x. ground arith);
    meta_side =
        Holds-change _ _ (caslist_push-Holds g s.meta_free_list id q h.meta_side)
          (λ x. ground arith);
  })
]
