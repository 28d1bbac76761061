-- ===== src/Pmb.antt =====
-- pmbackend.c: the functions of the interface, over a handle that may be `NULL` (`none`).
pub mod Pair
pub mod Object
pub mod Tx
pub mod Put
pub mod PutMeta
pub mod Iter
pub mod Recovery
pub mod Open
pub mod Fresh
pub mod Slots
pub mod Written
pub mod NewObject
pub mod RoundTrip
pub mod Refused
pub mod Small
pub mod Patching
pub mod MetaWritten
pub mod NewMeta
pub mod MetaRoundTrip
pub mod Reopened
pub mod Created
pub mod Programs
pub mod Placed
pub mod Ending
pub mod Life
pub mod Kept
pub mod Listing
pub mod Found
pub mod Round
pub mod Reuse
pub mod Close
pub mod Inspect
pub mod OldPart
pub mod Replaced
pub mod Update
pub mod Updated
pub mod Exchange
pub mod Exchanged
