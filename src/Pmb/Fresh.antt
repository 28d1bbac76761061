-- ===== src/Pmb/Fresh.antt =====
-- pmbackend.c: the free lists of a new pool.
use pmbackend.Base.{
  ℕ, zero, suc, ◌+◌, ◌-◌, ◌≤◌, ◌<◌, ◌≡◌, refl, Bool, true, false, ◌&&◌, ◌||◌, Option, none, arith,
  ltb, leb, ◌==◌, Bool-cases, inl, inr, pred64,
}
use pmbackend.Caslist.{Caslist, caslist_new, caslist_pop}
use pmbackend.Caslist.Ranges.{limit}
use pmbackend.Caslist.Many.{
  interval-Holds, Holds, Holds-change, caslist_push-Holds, caslist_pop-Takes,
}
use pmbackend.Kv.{Handle}
use pmbackend.Kv.Lists.{FreeLists}
use pmbackend.Pmb.Recovery.{push_free, populate, populate_free_list}
use pmbackend.Pmb.Recovery.Threads.{Counted}
use pmbackend.Pmb.Open.{start_empty}

-- `populate` adds the ids up to `n` to the lists of their regions.
populate-FreeLists :
    (n : ℕ) (s : Handle) (f g : ℕ → Bool) (t : ℕ)
    → n < limit
    → 0 < s.total_objs_count
    → s.total_objs_count ≤ limit
    → s.total_objs_count ≡ t
    → FreeLists s f g
    → FreeLists
        (populate n s)
        (λ x. (ltb 0 x && leb x n && ltb x t) || f x)
        (λ x. (leb t x && leb x n) || g x)
unfolding populate
populate-FreeLists zero s f g t b p q e h = record {
  data_side = Holds-change _ _ h.data_side (λ x. ground arith);
  meta_side = Holds-change _ _ h.meta_side (λ x. ground arith);
}
populate-FreeLists (suc n) s f g t b p q e h =
    elim (Bool-cases (leb (suc n) (pred64 s.total_objs_count))) [
      | inl low ↦
          let r =
            populate-FreeLists n (push_free false (suc n) s)
              (λ x. (ltb 0 (suc n) && x == suc n) || f x) g t (omega arith) p q e
              (record {
                data_side = caslist_push-Holds f s.free_list (suc n) b h.data_side;
                meta_side = h.meta_side;
              }) in
          rw low (record {
            data_side = Holds-change _ _ r.data_side (λ x. ground arith);
            meta_side = Holds-change _ _ r.meta_side (λ x. ground arith);
          })
      | inr high ↦
          let r =
            populate-FreeLists n (push_free true (suc n) s) f
              (λ x. (ltb 0 (suc n) && x == suc n) || g x) t (omega arith) p q e
              (record {
                data_side = h.data_side;
                meta_side = caslist_push-Holds g s.meta_free_list (suc n) b h.meta_side;
              }) in
          rw high (record {
            data_side = Holds-change _ _ r.data_side (λ x. ground arith);
            meta_side = Holds-change _ _ r.meta_side (λ x. ground arith);
          })
    ]

-- The handle that `populate_free_list` is called with.
abbrev pub with_intervals : Handle → Handle
with_intervals s = record s {
  free_list = caslist_new true 1 s.total_objs_count;
  meta_free_list = caslist_new true 1 s.meta_objs_count;
  objs_list = none;
  meta_objs_list = none;
}

-- On a new pool whose ids are below the limit, with at least block 0 for data and a block for metadata, the data
-- region's free list holds the ids 1 to `total_objs_count`, and the metadata region's list
-- holds its own ids and the ids 1 to `meta_objs_count` besides.
pub start_empty-FreeLists :
    (s : Handle)
    → Counted s
    → 0 < s.meta_objs_count
    → FreeLists
        (start_empty s)
        (λ x. ltb 0 x && leb x s.total_objs_count)
        (λ x.
          (ltb 0 x && leb x s.meta_objs_count)
          || (leb s.total_objs_count x && ltb x (s.total_objs_count + s.meta_objs_count)))
unfolding start_empty populate_free_list
start_empty-FreeLists s c p =
    let t = s.total_objs_count in
    let e : pred64 (t + s.meta_objs_count) ≡ t + s.meta_objs_count - 1 = omega (arith, c) in
    let r =
      populate-FreeLists (t + s.meta_objs_count - 1) (with_intervals s) _ _ t (omega (arith, c)) c.0
        (omega (arith, c)) refl
        (record {
          data_side = interval-Holds t c.0 (omega (arith, c));
          meta_side = interval-Holds s.meta_objs_count p (omega (arith, c));
        }) in
    rw e (record {
      data_side = Holds-change _ _ r.data_side (λ x. ground (arith, c));
      meta_side = Holds-change _ _ r.meta_side (λ x. ground (arith, c));
    })

pop_least :
    (ids : ℕ → Bool) (l : Option Caslist) (v k : ℕ)
    → Holds ids l
    → ids k ≡ true
    → ((x : ℕ) → ids x ≡ true → k ≤ x)
    → ((caslist_pop l v).0 ≡ 0) × ((caslist_pop l v).1 ≡ k)
pop_least ids l v k h e least =
    let t = caslist_pop-Takes ids l v k h e in
    (t.code, omega (arith, t.least k e, least (caslist_pop l v).1 t.taken))

-- On a new pool whose ids are below the limit, with at least block 0 for data and a block for metadata, the
-- first block that is taken for data and the first block that is taken for metadata are the same block,
-- number 1.
pub start_empty_collision :
    (s : Handle)
    → Counted s
    → 0 < s.meta_objs_count
    → (v : ℕ)
    → let data_pop = caslist_pop (start_empty s).free_list v in
      let meta_pop = caslist_pop (start_empty s).meta_free_list v in
      (data_pop.0 ≡ 0) × (meta_pop.0 ≡ 0) × (data_pop.1 ≡ 1) × (meta_pop.1 ≡ 1)
start_empty_collision s c p v =
    let f = start_empty-FreeLists s c p in
    let d = pop_least _ _ v 1 f.data_side (ground (arith, c)) (λ x. ground arith) in
    let m = pop_least _ _ v 1 f.meta_side (ground (arith, c)) (λ x. ground (arith, c)) in
    (d.0, m.0, d.1, m.1)
