-- ===== src/Pmb/Found.antt =====
-- pmbackend.c: an iterator over the objects that the recovery found.
use pmbackend.Base.{ℕ, ◌<◌, ◌≡◌, refl, ◌∙◌, ap, Bool, true, false, if◌then◌else◌, arith, some}
use pmbackend.Backend.{Found, found, missing, backend_get}
use pmbackend.Caslist.{caslist_size}
use pmbackend.Kv.{Handle, mem_of, Util}
use pmbackend.Pmb.Pair.{PmbPair}
use pmbackend.Pmb.Object.{get, fill_pair}
use pmbackend.Pmb.Iter.{objects}
use pmbackend.Pmb.Recovery.{is_object, recovery, all_positions}
use pmbackend.Pmb.Recovery.Visit.{visit_all-sorted, Lists}
use pmbackend.Pmb.Recovery.Threads.{Counted, data_ids, meta_ids, nothing, recovery-Lists}
use pmbackend.Pmb.Listing.{AllStored, Listed, list_objects, list_objects-Listed}

-- The blocks of a region that hold an object with a right checksum.
abbrev pub stored_ids : Util → Handle → (region : Bool) → ℕ → Bool
stored_ids u s region = if region then meta_ids s (is_object u s) else data_ids s (is_object u s)

-- `pmb_get` finds what the recovery takes for an object.
pub get-is_object :
    (u : Util) (s : Handle) (x : ℕ) (p : PmbPair) (f : Found)
    → backend_get (some s.backend) (mem_of s) x ≡ f
    → is_object u s x ≡ true
    → (get s x p).0.blk_id ≡ x
unfolding is_object get fill_pair
get-is_object u s x p (missing error) e t =
    let no : is_object u s x ≡ false = rw (is_object, e) refl in ground (t, no, arith)
get-is_object u s x p (found obj) e t = rw (get, e) refl

get-recovery : (u : Util) (s : Handle) (x : ℕ) (p : PmbPair) → get (recovery u s) x p ≡ get s x p
unfolding recovery get fill_pair
get-recovery u s x p = rw (visit_all-sorted u (all_positions s) s) refl

recovery-AllStored :
    (u : Util) (s : Handle) (ids : ℕ → Bool)
    → ((x : ℕ) → ids x ≡ true → is_object u s x ≡ true)
    → AllStored (recovery u s) ids
recovery-AllStored u s ids h x i p =
    ap (λ (r : PmbPair × ℕ). r.0.blk_id) (get-recovery u s x p)
    ∙ get-is_object u s x p (backend_get (some s.backend) (mem_of s) x) refl (h x i)

-- On a handle whose ids are below the limit, with at least block 0 in its data region, and from empty lists, the
-- loop of the examples after `recovery`, given more rounds than the region's list has ids, ends. It prints just the
-- ids of the region's blocks, but for block 0, that hold an object whose checksum is right, in increasing order and
-- each once.
pub recovery-list_objects-Listed :
    (u : Util) (s : Handle) (region : Bool) (fuel : ℕ) (p : PmbPair)
    → Counted s
    → Lists s nothing nothing nothing nothing
    → caslist_size (objects (recovery u s) region) < fuel
    → Listed
        (recovery u s)
        region
        1
        (stored_ids u s region)
        (list_objects fuel (recovery u s) region p)
recovery-list_objects-Listed u s false fuel p c l f =
    let r = recovery-Lists u s c l in
    list_objects-Listed fuel (recovery u s) false p (data_ids s (is_object u s))
      (recovery-AllStored u s (data_ids s (is_object u s)) (λ x i. ground (arith, i))) r.in_objs f
recovery-list_objects-Listed u s true fuel p c l f =
    let r = recovery-Lists u s c l in
    list_objects-Listed fuel (recovery u s) true p (meta_ids s (is_object u s))
      (recovery-AllStored u s (meta_ids s (is_object u s)) (λ x i. ground (arith, i)))
      r.in_meta_objs f
