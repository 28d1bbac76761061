-- ===== src/Pmb/Recovery/Threads.antt =====
-- pmbackend.c: the positions that the threads of `recovery` visit.
use native.Mathlib.Nat.{le_refl}
use native.Mathlib.Numerals.{add-one}
use pmbackend.Base.{
  ℕ, zero, suc, ◌+◌, ◌-◌, ◌*◌, ◌/◌, ◌≤◌, ◌<◌, ◌≡◌, Bool, false, not, ◌&&◌, List, [], ◌∷◌, ◌++◌,
  arith, ltb, leb, ◌∙◌,
}
use pmbackend.Caslist.Ranges.{limit}
use pmbackend.Caslist.Many.{elem, elem-append, AllFit, Holds-change}
use pmbackend.Kv.{Handle, Util}
use pmbackend.Pmb.Object.{pmb_ntotal}
use pmbackend.Pmb.Recovery.{
  in_meta, is_object, positions, thread_positions, part, recovery_start, recovery_stop, from_thread,
  all_positions, recovery,
}
use pmbackend.Pmb.Recovery.Visit.{Lists, visit_all-Lists}

elem-positions : (x start n : ℕ) → elem x (positions start n) ≡ leb start x && ltb x (start + n)
unfolding elem positions
elem-positions x start zero = ground arith
elem-positions x start (suc n) = ground (arith, elem-positions x (start + 1) n)

positions-AllFit : (start n : ℕ) → start + n ≤ limit → AllFit (positions start n)
unfolding positions
positions-AllFit start zero h = tt
positions-AllFit start (suc n) h = (omega arith, positions-AllFit (start + 1) n (omega arith))

AllFit-append : (xs ys : List ℕ) → AllFit xs → AllFit ys → AllFit (xs ++ ys)
AllFit-append [] ys f g = g
AllFit-append (x ∷ xs) ys f g = (f.0, AllFit-append xs ys f.1 g)

elem-thread : (x a b : ℕ) → elem x (thread_positions a b) ≡ leb a x && ltb x b
elem-thread x a b = ground (arith, elem-positions x a (b - a))

mul_le : (p i n m : ℕ) → i ≤ n → p * n ≤ m → p * i ≤ m
mul_le p i n m h k = grind arith

-- A handle with at least block 0 in its data region, whose ids are numbers below the limit.
abbrev pub Counted : Handle → Type 0
Counted s = (0 < s.total_objs_count) × (s.total_objs_count + s.meta_objs_count ≤ limit)

module _ (s : Handle) (c : Counted s) where
  part_lem : part s ≡ (s.total_objs_count - 1 + s.meta_objs_count) / 8
  unfolding part
  part_lem = ground (arith, c)

  abbrev blocks : ℕ
  blocks = s.total_objs_count + s.meta_objs_count

  part_fits : (i : ℕ) → i < 8 → part s * (i + 1) ≤ blocks
  part_fits i h = mul_le (part s) (i + 1) 8 blocks (omega arith) (omega (arith, part_lem, c))

  stop_lem : (i : ℕ) → i < 7 → recovery_stop s i ≡ part s * (i + 1)
  unfolding recovery_stop
  stop_lem i h = ground arith

  last_stop : recovery_stop s 7 ≡ blocks
  unfolding recovery_stop
  last_stop = omega (arith, c)

  start_lem : (i : ℕ) → recovery_start s (suc i) ≡ part s * (suc i)
  unfolding recovery_start
  start_lem i = ground arith

  -- Whoever is past the end of a thread's part is past its start.
  start-le : (i x : ℕ) → 0 < x → part s * (i + 1) ≤ x → recovery_start s i ≤ x
  unfolding recovery_start
  start-le zero x p h = grind arith
  start-le (suc i) x p h =
      let m =
        mul_le (part s) (suc i) (suc i + 1) (part s * (suc i + 1)) (omega arith) (le_refl _) in
      ground (arith, m)

  -- The threads from the ith on, when `rounds` threads are left.
  from_thread-elem :
      (rounds i x : ℕ)
      → suc rounds + i ≡ 8
      → 0 < x
      → elem x (from_thread s (suc rounds) i) ≡ leb (recovery_start s i) x && ltb x blocks
  unfolding from_thread elem
  from_thread-elem zero i x e p =
      let e' : i ≡ 7 = omega arith in
      rw e' (
        elem-append x (thread_positions (recovery_start s 7) (recovery_stop s 7)) []
        ∙ ground (arith, elem-thread x (recovery_start s 7) (recovery_stop s 7), last_stop))
  from_thread-elem (suc rounds) i x e p =
      elem-append x (thread_positions (recovery_start s i) (recovery_stop s i))
        (from_thread s (suc rounds) (i + 1))
      ∙ ground (
        arith,
        elem-thread x (recovery_start s i) (recovery_stop s i),
        from_thread-elem rounds (i + 1) x (omega arith) p,
        stop_lem i,
        next_start,
        part_fits i,
        start-le i x p,
      )
    where
      next_start : recovery_start s (i + 1) ≡ part s * (i + 1)
      next_start = rw add-one (start_lem i)

  thread-AllFit : (a b : ℕ) → a ≤ limit → b ≤ limit → AllFit (thread_positions a b)
  thread-AllFit a b h k = positions-AllFit a (b - a) (omega arith)

  start-le-blocks : (i : ℕ) → i < 8 → recovery_start s i ≤ blocks
  unfolding recovery_start
  start-le-blocks i h =
      let m = mul_le (part s) i 8 (blocks - 1) (omega arith) (omega (arith, part_lem, c)) in
      ground (arith, m, c)

  stop-le-blocks : (i : ℕ) → i < 8 → recovery_stop s i ≤ blocks
  unfolding recovery_stop
  stop-le-blocks i h = ground (arith, part_fits i, c)

  from_thread-AllFit : (rounds i : ℕ) → rounds + i ≤ 8 → AllFit (from_thread s rounds i)
  unfolding from_thread
  from_thread-AllFit zero i h = tt
  from_thread-AllFit (suc rounds) i h =
      AllFit-append _ (from_thread s rounds (i + 1))
        (thread-AllFit (recovery_start s i) (recovery_stop s i)
          (omega (arith, start-le-blocks i, c.1)) (omega (arith, stop-le-blocks i, c.1)))
        (from_thread-AllFit rounds (i + 1) (omega arith))

  in_meta_lem : (x : ℕ) → in_meta s x ≡ leb s.total_objs_count x
  unfolding in_meta pmb_ntotal
  in_meta_lem x = ground (arith, c)

  visited : (x : ℕ) → 0 < x → elem x (all_positions s) ≡ ltb x blocks
  visited x p = from_thread-elem 7 0 x (omega arith) p ∙ ground (arith, first)
    where
      first : recovery_start s 0 ≡ 1
      first = unfold recovery_start in omega arith

-- The ids of a region whose blocks pass the test.
abbrev pub data_ids : Handle → (ℕ → Bool) → ℕ → Bool
data_ids s test x = ltb 0 x && ltb x s.total_objs_count && test x

abbrev pub meta_ids : Handle → (ℕ → Bool) → ℕ → Bool
meta_ids s test x =
    leb s.total_objs_count x && ltb x (s.total_objs_count + s.meta_objs_count) && test x

abbrev pub nothing : ℕ → Bool
nothing x = false

-- On a handle whose ids are below the limit, with at least block 0 in its data region, and from empty lists, `recovery` puts every block of the data region but block 0, and every block of the
-- metadata region, into exactly one list: the one for objects if it holds an object whose checksum is
-- right, and the free list if not.
pub recovery-Lists :
    (u : Util) (s : Handle)
    → Counted s
    → Lists s nothing nothing nothing nothing
    → Lists
        (recovery u s)
        (data_ids s (λ x. not (is_object u s x)))
        (meta_ids s (λ x. not (is_object u s x)))
        (data_ids s (is_object u s))
        (meta_ids s (is_object u s))
unfolding recovery
recovery-Lists u s c l =
    let v = visit_all-Lists u s l (all_positions s) (from_thread-AllFit s c 8 0 (omega arith)) in
    record {
      in_free =
          Holds-change _ _ v.in_free (λ x. ground (arith, visited s c x, in_meta_lem s c x, c));
      in_meta_free =
          Holds-change _ _ v.in_meta_free
            (λ x. ground (arith, visited s c x, in_meta_lem s c x, c));
      in_objs =
          Holds-change _ _ v.in_objs (λ x. ground (arith, visited s c x, in_meta_lem s c x, c));
      in_meta_objs =
          Holds-change _ _ v.in_meta_objs
            (λ x. ground (arith, visited s c x, in_meta_lem s c x, c));
    }
