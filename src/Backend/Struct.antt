-- ===== src/Backend/Struct.antt =====
-- backend.c: what the mapping of a pool leaves of the memory.
use pmbackend.Base.{
  ℕ, ◌+◌, ◌≤◌, ◌<◌, ◌≡◌, refl, ◌∙◌, ◌⊎◌, Bool, true, false, not, ◌&&◌, Option, none, some, List,
  arith, ◌==◌, if◌then◌else◌,
}
use pmbackend.Mem.{World}
use pmbackend.Mem.Fields.{Field, write_fields-outside, all_within}
use pmbackend.Backend.{Backend}
use pmbackend.Backend.Map.{
  block_size, Params, Mapping, Pool, sizeof_backend, sizeof_fields, addr_fields, header_fields,
  run_fields, with_fields, header_synced, write_header, roundup, lay_out, map_common, map_at,
  backend_open, backend_create,
}

-- Outside the structure of a mapped pool.
abbrev pub OutOfStruct : Option Mapping → ℕ → Type 0
OutOfStruct none x = Unit
OutOfStruct (some m) x = (x < m.addr) ⊎ (m.addr + sizeof_backend m ≤ x)

with_fields-outside :
    (m : Mapping) (fs : List Field) (w : World) (x : ℕ)
    → all_within sizeof_fields fs ≡ true
    → OutOfStruct (some m) x
    → (with_fields m fs w).mem x ≡ w.mem x
with_fields-outside m fs w x e h =
    write_fields-outside (m.addr + m.hdr_size) sizeof_fields fs w.mem x e (omega (arith, h))

abbrev Same : (x : ℕ) → World → Option Backend × World → Type 0
Same x w r = r.1.mem x ≡ w.mem x

if-Same :
    (x : ℕ) (w : World) (t : Bool) (r r' : Option Backend × World)
    → Same x w r
    → Same x w r'
    → Same x w (if t then r else r')
if-Same x w true r r' h h' = h
if-Same x w false r r' h h' = h'

-- `_backend_map_common` changes no byte outside the structure, whether it succeeds or not.
pub map_common-outside :
    (m : Mapping) (p : Params) (bsize meta_bsize : ℕ) (initialize : Bool) (w : World) (x : ℕ)
    → OutOfStruct (some m) x
    → (map_common m p bsize meta_bsize initialize w).1.mem x ≡ w.mem x
unfolding map_common all_within
map_common-outside m p bsize meta_bsize initialize w x h =
    let w1 = with_fields m (addr_fields m) w in
    let header =
      write_header p (roundup bsize) (roundup meta_bsize) (roundup p.tx_slot_size) m.stored in
    let made = lay_out m p (roundup p.tx_slot_size) header in
    let opened = lay_out m p (roundup p.tx_slot_size) m.stored in
    let w2 = with_fields m (header_fields header) w1 in
    let addr : w1.mem x ≡ w.mem x = with_fields-outside m (addr_fields m) w x refl h in
    let head = with_fields-outside m (header_fields header) w1 x refl h in
    let new = with_fields-outside m (run_fields m made) (header_synced m w2) x refl h in
    let old = with_fields-outside m (run_fields m opened) w1 x refl h in
    let stop : Option Backend × World = (none, w1) in
    let new_pool : Option Backend × World =
      (some made, with_fields m (run_fields m made) (header_synced m w2)) in
    let old_pool : Option Backend × World = (some opened, with_fields m (run_fields m opened) w1) in
    let no_size = roundup bsize == 0 in
    let no_meta = roundup meta_bsize == 0 in
    let bad = not no_size && not (roundup bsize == m.stored.bsize) in
    let bad_meta = not no_meta && not (roundup meta_bsize == m.stored.meta_bsize) in
    if-Same x w initialize (if no_size then stop else if no_meta then stop else new_pool)
      (if bad then stop else if bad_meta then stop else old_pool)
      (if-Same x w no_size stop (if no_meta then stop else new_pool) addr
        (if-Same x w no_meta stop new_pool addr (new ∙ head ∙ addr)))
      (if-Same x w bad stop (if bad_meta then stop else old_pool) addr
        (if-Same x w bad_meta stop old_pool addr (old ∙ addr)))

map_at-outside :
    (o : Option Mapping) (p : Params) (created : Bool) (w : World) (x : ℕ)
    → OutOfStruct o x
    → (map_at o p created w).1.mem x ≡ w.mem x
unfolding map_at
map_at-outside none p created w x h = refl
map_at-outside (some m) p created w x h =
    map_common-outside m p (block_size p.max_key_len p.max_val_len)
      (block_size p.meta_max_key_len p.meta_max_val_len) created w x h

-- The mappings that `backend_open` and `backend_create` may write to do not hold the byte.
abbrev pub OutOfStructs : Pool → Params → ℕ → Type 0
OutOfStructs pool p x =
    OutOfStruct pool.pool_open x × OutOfStruct (pool.pool_create (p.data_size + p.meta_size)) x

-- From `w` to `w'` only bytes of these structures have changed.
abbrev pub SameBeyondStructs : Pool → Params → (w w' : World) → Type 0
SameBeyondStructs pool p w w' = (x : ℕ) → OutOfStructs pool p x → w'.mem x ≡ w.mem x

pub backend_open-SameBeyondStructs :
    (pool : Pool) (p : Params) (w : World) → SameBeyondStructs pool p w (backend_open pool p w).1
unfolding backend_open
backend_open-SameBeyondStructs pool p w x h = map_at-outside pool.pool_open p false w x h.0

created-OutOfStruct :
    (t : Bool) (o o' : Option Mapping) (x : ℕ)
    → OutOfStruct o x
    → OutOfStruct o' x
    → OutOfStruct (if t then o' else o) x
created-OutOfStruct true o o' x h h' = h'
created-OutOfStruct false o o' x h h' = h

pub backend_create-SameBeyondStructs :
    (pool : Pool) (p : Params) (w : World) → SameBeyondStructs pool p w (backend_create pool p w).1
unfolding backend_create
backend_create-SameBeyondStructs pool p w x h =
    let created = not (p.data_size + p.meta_size == 0) in
    map_at-outside
      (if created then pool.pool_create (p.data_size + p.meta_size) else pool.pool_open) p created w
      x
      (created-OutOfStruct created pool.pool_open (pool.pool_create (p.data_size + p.meta_size)) x
        h.0 h.1)
