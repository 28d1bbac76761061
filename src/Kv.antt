-- ===== src/Kv.antt =====
-- kv.h and the constants of pmbackend.h: the handle that every function works on, the layout of object
-- headers, transaction slots and log entries in memory, and the checksum of NVML's util.h, which is
-- a parameter.
pub mod Status
pub mod Op
pub mod Lists
use pmbackend.Base.{
  ◌%◌, two32, ℕ, zero, suc, ◌+◌, ◌-◌, ◌≤◌, ◌<◌, ◌≡◌, ◌⊎◌, Bool, true, Option, none, some, List, ltb,
  if◌then◌else◌,
}
use pmbackend.Mem.{Mem, World, load, store, with_mem}
use pmbackend.Backend.{Backend, sizeof_data_hdr}
use pmbackend.Caslist.{Caslist, caslist_push}

abbrev pub pmb_ok : ℕ
pmb_ok = 0

abbrev pub pmb_err : ℕ
pmb_err = 1

abbrev pub pmb_enoent : ℕ
pmb_enoent = 2

abbrev pub pmb_enospc : ℕ
pmb_enospc = 3

abbrev pub pmb_ecreat : ℕ
pmb_ecreat = 4

abbrev pub pmb_esbwr : ℕ
pmb_esbwr = 5

abbrev pub pmb_esbcr : ℕ
pmb_esbcr = 6

abbrev pub pmb_esbin : ℕ
pmb_esbin = 7

abbrev pub pmb_esize : ℕ
pmb_esize = 8

abbrev pub pmb_ewrgid : ℕ
pmb_ewrgid = 9

abbrev pub pmb_eargs : ℕ
pmb_eargs = 10

abbrev pub pmb_thsync : ℕ
pmb_thsync = 3

-- pmb_data_hdr: the addresses of its fields behind `flch64`
abbrev pub id_of : ℕ → ℕ
id_of obj = obj + 8

abbrev pub version_of : ℕ → ℕ
version_of obj = obj + 16

abbrev pub key_len_of : ℕ → ℕ
key_len_of obj = obj + 20

abbrev pub val_len_of : ℕ → ℕ
val_len_of obj = obj + 24

-- tx_slot: the addresses of its fields behind `flch64`
abbrev pub status_of : ℕ → ℕ
status_of slot = slot + 8

abbrev pub size_of : ℕ → ℕ
size_of slot = slot + 16

-- tx_entry: the addresses of its fields behind `type`
abbrev pub blk_id1_of : ℕ → ℕ
blk_id1_of entry = entry + 8

abbrev pub blk_id2_of : ℕ → ℕ
blk_id2_of entry = entry + 16

-- tx_meta
pub record TxMeta : Type 0 where
  pub id : ℕ
  pub version : ℕ
  pub val_len : ℕ

-- tx_metalist, whose `list` has room for 128 entries
pub record TxMetalist : Type 0 where
  pub count : ℕ
  pub list : ℕ → TxMeta

abbrev pub metalist_room : ℕ
metalist_room = 128

-- tx_log; `hard_flush_list` is never used
pub record OpLog : Type 0 where
  pub tx_slots_count : ℕ
  pub tx_slot_capacity : ℕ
  pub tx_slots_list : Option Caslist
  pub upd_id_list : ℕ → TxMetalist

-- struct _pmb_handle, with the memory that its pointers reach
pub record Handle : Type 0 where
  pub backend : Backend
  pub total_objs_count : ℕ
  pub meta_objs_count : ℕ
  pub max_key_len : ℕ
  pub max_val_len : ℕ
  pub meta_max_key_len : ℕ
  pub meta_max_val_len : ℕ
  pub objs_list : Option Caslist
  pub free_list : Option Caslist
  pub meta_objs_list : Option Caslist
  pub meta_free_list : Option Caslist
  pub op_log : OpLog
  pub world : World

abbrev pub mem_of : Handle → Mem
mem_of s = s.world.mem

-- A handle after a store of an `n`-byte integer.
abbrev pub poke : ℕ → ℕ → ℕ → Handle → Handle
poke n a v s = record s { world = with_mem s.world (store n (mem_of s) a v) }

abbrev pub peek : ℕ → Handle → ℕ → ℕ
peek n s a = load n (mem_of s) a

-- get_block_size of pmbackend.c, which returns a `uint32_t`
abbrev pub get_block_size : ℕ → ℕ → ℕ
get_block_size key_len val_len = (val_len + sizeof_data_hdr + key_len) % two32

-- A block goes back to the free list of its region.
unfoldable pub release : Handle → ℕ → Handle
release s id =
    if ltb id s.total_objs_count
    then record s { free_list = caslist_push s.free_list id }
    else record s { meta_free_list = caslist_push s.meta_free_list id }

-- A run of code that follows pointers: it ends, it goes through `NULL` or past an array, or the fuel
-- given to one of its loops is used up.
pub data Run (A : Type 0) : Type 0 where
  ok : A → Run A
  fault : Run A
  out_of_fuel : Run A

infixl 5 ◌>>=◌
abbrev pub ◌>>=◌ : {A B : Type 0} → Run A → (A → Run B) → Run B
ok a >>= k = k a
fault >>= k = fault
out_of_fuel >>= k = out_of_fuel

-- util_checksum over `len` bytes at `addr`, with the checksum's own field at `csump`: `insert` is the
-- call that stores the checksum, `verify` the call that compares. As util.h documents it, the first
-- writes nothing but the field, and the second accepts a range that is as the first left it.
pub record Util : Type 0 where
  pub insert : Mem → (addr len csump : ℕ) → Mem
  pub verify : Mem → (addr len csump : ℕ) → Bool
  pub insert_outside :
      (m : Mem) (addr len csump x : ℕ)
      → (x < csump) ⊎ (csump + 8 ≤ x)
      → insert m addr len csump x ≡ m x
  pub verify-insert :
      (m m' : Mem) (addr len csump : ℕ)
      → addr ≤ csump
      → csump + 8 ≤ addr + len
      → ((x : ℕ) → addr ≤ x → x < addr + len → m' x ≡ insert m addr len csump x)
      → verify m' addr len csump ≡ true
