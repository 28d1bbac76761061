-- ===== src/Tests/Listings.antt =====
-- The objects of a small pool, after the recovery.
use pmbackend.Base.{◌≡◌, refl, false, arith}
use pmbackend.Mem.{load}
use pmbackend.Backend.{backend_direct, backend_get, found_at, flch64}
use pmbackend.Caslist.{caslist_size, caslist_push, push, put, put_after, merge}
use pmbackend.Pmb.Object.{pmb_ntotal}
use pmbackend.Pmb.Iter.{objects}
use pmbackend.Pmb.Recovery.{
  recovery, visit_all, visit, is_object, in_meta, object_size, from_thread, recovery_start,
  recovery_stop, part, positions,
}
use pmbackend.Pmb.Listing.{Listed, list_objects}
use pmbackend.Pmb.Found.{stored_ids, recovery-list_objects-Listed}
use pmbackend.Tests.Data.{handle, mark}
use pmbackend.Tests.Starts.{handle-Lists, handle-Counted}
use pmbackend.Tests.Objects.{pair}

one_object : caslist_size (objects (recovery mark handle) false) ≡ 1
unfolding caslist_size caslist_push push put put_after merge recovery visit_all visit is_object
    in_meta object_size from_thread recovery_start recovery_stop part positions pmb_ntotal
    backend_get backend_direct found_at flch64 load
one_object = refl

recovery-list_objects-Listed_example :
    Listed
      (recovery mark handle)
      false
      1
      (stored_ids mark handle false)
      (list_objects 2 (recovery mark handle) false pair)
recovery-list_objects-Listed_example =
    recovery-list_objects-Listed mark handle false 2 pair handle-Counted handle-Lists
      (omega (arith, one_object))
