-- ===== src/Mem.antt =====
-- The memory that the program reads and writes through its pointers: bytes at addresses. C integers
-- are stored with the low byte first. `World` adds the calls that made a range durable.
pub mod Frame
pub mod Zero
pub mod Fields
use pmbackend.Base.{
  ℕ, zero, suc, ◌+◌, ◌*◌, ◌/◌, ◌%◌, Bool, Option, List, [], ◌∷◌, ◌++◌, ◌==◌, if◌then◌else◌,
  replicate,
}

abbrev pub Mem : Type 0
Mem = ℕ → ℕ

unfoldable pub write8 : Mem → ℕ → ℕ → Mem
write8 m a b x = if x == a then b else m x

unfoldable pub write_bytes : Mem → ℕ → List ℕ → Mem
write_bytes m a [] = m
write_bytes m a (b ∷ bs) = write_bytes (write8 m a b) (a + 1) bs

unfoldable pub read_bytes : Mem → ℕ → ℕ → List ℕ
read_bytes m a zero = []
read_bytes m a (suc n) = m a ∷ read_bytes m (a + 1) n

-- An integer as `n` bytes, and back.
unfoldable pub le_bytes : ℕ → ℕ → List ℕ
le_bytes zero v = []
le_bytes (suc n) v = (v % 256) ∷ le_bytes n (v / 256)

unfoldable pub le_value : List ℕ → ℕ
le_value [] = 0
le_value (b ∷ bs) = b + 256 * le_value bs

unfoldable pub load : ℕ → Mem → ℕ → ℕ
unfolding read_bytes le_value
load n m a = le_value (read_bytes m a n)

unfoldable pub store : ℕ → Mem → ℕ → ℕ → Mem
unfolding write8 write_bytes le_bytes
store n m a v = write_bytes m a (le_bytes n v)

abbrev pub memcpy : Mem → ℕ → ℕ → ℕ → Mem
memcpy m dest src n = write_bytes m dest (read_bytes m src n)

abbrev pub memset_zero : Mem → ℕ → ℕ → Mem
memset_zero m p n = write_bytes m p (replicate n 0)

-- A call that writes a range back to the medium: at once, or scheduled (`MS_ASYNC`); and `pthread_create` of
-- `_sync_thread`.
pub data Event : Type 0 where
  persisted : ℕ → ℕ → Event
  scheduled : ℕ → ℕ → Event
  sync_thread_created : Event

-- `page_size` is NVML's `Pagesize`; `events` has the newest call last.
pub record World : Type 0 where
  pub mem : Mem
  pub events : List Event
  pub page_size : ℕ

abbrev pub with_mem : World → Mem → World
with_mem w m = record w { mem = m }

abbrev pub happened : World → Event → World
happened w e = record w { events = w.events ++ e ∷ [] }
