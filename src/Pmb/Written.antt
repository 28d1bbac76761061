-- ===== src/Pmb/Written.antt =====
-- pmbackend.c: the writes of `pmb_tput` to a new block, one after another.
use mathlib.Core.Path.{subst}
use pmbackend.Base.{
  ℕ, ◌+◌, ◌≤◌, ◌<◌, ◌≡◌, refl, ◌∙◌, ap, arith, none, ◌==◌, false, ◌⊎◌, two32, two64,
}
use pmbackend.Mem.{Mem, read_bytes, write_bytes, with_mem}
use pmbackend.Mem.Frame.{
  Apart, load-agree, read_bytes-agree, load-store_self, load-store_ne, store-outside,
  write_bytes-outside, read_bytes-write_self, length-read_bytes,
}
use pmbackend.Backend.{sizeof_data_hdr}
use pmbackend.Kv.{Handle, mem_of, poke, peek, id_of, version_of, key_len_of, val_len_of, Util}
use pmbackend.TxLog.Register.{backend_memcpy-mem}
use pmbackend.Pmb.Pair.{PmbPair}
use pmbackend.Pmb.Put.{copy, write_header, write_value}

module _ (dest src num : ℕ) (s : Handle) where
  pub copy-outside :
      (x : ℕ) → (x < dest) ⊎ (dest + num ≤ x) → mem_of (copy dest src num s) x ≡ mem_of s x
  copy-outside x h =
      ap (λ (m : Mem). m x) (backend_memcpy-mem s.backend s.world dest src num)
      ∙ write_bytes-outside (mem_of s) dest (read_bytes (mem_of s) src num) x
          (rw (length-read_bytes (mem_of s) src num) h)

  pub copy_self : read_bytes (mem_of (copy dest src num s)) dest num ≡ read_bytes (mem_of s) src num
  copy_self =
      let bytes = read_bytes (mem_of s) src num in
      let n = length-read_bytes (mem_of s) src num in
      ap (λ (m : Mem). read_bytes m dest num) (backend_memcpy-mem s.backend s.world dest src num)
      ∙ subst (λ k. read_bytes (write_bytes (mem_of s) dest bytes) dest k ≡ bytes) n
          (read_bytes-write_self (mem_of s) dest bytes)

-- The object at `obj` has the header, the key and the new part of the value that the pair asks for, with the bytes
-- that stood at the pair's pointers.
pub record Stored (before after : Handle) (kv : PmbPair) (obj version data_len : ℕ) : Type 0 where
  pub key_len : peek 4 after (key_len_of obj) ≡ kv.key_len
  pub version_eq : peek 4 after (version_of obj) ≡ version
  pub id_eq : peek 8 after (id_of obj) ≡ kv.id
  pub val_len : peek 4 after (val_len_of obj) ≡ data_len
  pub key :
      read_bytes (mem_of after) (obj + sizeof_data_hdr) kv.key_len
      ≡ read_bytes (mem_of before) kv.key kv.key_len
  pub value :
      read_bytes (mem_of after) (obj + sizeof_data_hdr + before.max_key_len + kv.offset) kv.val_len
      ≡ read_bytes (mem_of before) kv.val kv.val_len

-- A pair that fits the C types and the handle's limits, with buffers outside the block.
pub record Fitting (s : Handle) (kv : PmbPair) (obj version data_len : ℕ) : Type 0 where
  pub key_fits : kv.key_len ≤ s.max_key_len
  pub words : (kv.key_len < two32) × (version < two32) × (data_len < two32) × (kv.id < two64)
  pub has_value : 0 < kv.val_len
  pub key_apart :
      Apart kv.key kv.key_len obj (sizeof_data_hdr + s.max_key_len + kv.offset + kv.val_len)
  pub val_apart :
      Apart kv.val kv.val_len obj (sizeof_data_hdr + s.max_key_len + kv.offset + kv.val_len)

-- A copy leaves a range alone that lies outside its target.
module _ (dest src num : ℕ) (s : Handle) (a n : ℕ) (apart : Apart dest num a n) where
  pub copy-read : read_bytes (mem_of (copy dest src num s)) a n ≡ read_bytes (mem_of s) a n
  copy-read =
      read_bytes-agree (mem_of s) (mem_of (copy dest src num s)) a n
        (λ x p q. copy-outside dest src num s x (omega (arith, apart)))

  pub copy-peek : peek n (copy dest src num s) a ≡ peek n s a
  copy-peek =
      load-agree n (mem_of s) (mem_of (copy dest src num s)) a
        (λ x p q. copy-outside dest src num s x (omega (arith, apart)))

-- So does the store of an integer.
module _ (k t v : ℕ) (s : Handle) (a n : ℕ) (apart : Apart t k a n) where
  pub poke-read : read_bytes (mem_of (poke k t v s)) a n ≡ read_bytes (mem_of s) a n
  poke-read =
      read_bytes-agree (mem_of s) (mem_of (poke k t v s)) a n
        (λ x p q. store-outside k (mem_of s) t v x (omega (arith, apart)))

  pub poke-peek : peek n (poke k t v s) a ≡ peek n s a
  poke-peek = load-store_ne n k (mem_of s) t v a apart

module _ (s : Handle) (kv : PmbPair) (obj version data_len : ℕ)
    (f : Fitting s kv obj version data_len) where
  abbrev s1 : Handle
  s1 = poke 4 (key_len_of obj) kv.key_len s

  abbrev s2 : Handle
  s2 = poke 4 (version_of obj) version s1

  abbrev s3 : Handle
  s3 = copy (obj + sizeof_data_hdr) kv.key kv.key_len s2

  abbrev s4 : Handle
  s4 = poke 8 (id_of obj) kv.id s3

  abbrev pub s5 : Handle
  s5 = poke 4 (val_len_of obj) data_len s4

  -- Nothing is written outside the header and the key.
  pub header-outside :
      (x : ℕ) → (x < obj) ⊎ (obj + sizeof_data_hdr + kv.key_len ≤ x) → mem_of s5 x ≡ mem_of s x
  header-outside x h =
      store-outside 4 (mem_of s4) (val_len_of obj) data_len x (omega arith)
      ∙ store-outside 8 (mem_of s3) (id_of obj) kv.id x (omega arith)
      ∙ copy-outside (obj + sizeof_data_hdr) kv.key kv.key_len s2 x (omega arith)
      ∙ store-outside 4 (mem_of s1) (version_of obj) version x (omega arith)
      ∙ store-outside 4 (mem_of s) (key_len_of obj) kv.key_len x (omega arith)

  -- The header of a new object.
  pub header_key_len : peek 4 s5 (key_len_of obj) ≡ kv.key_len
  header_key_len =
      poke-peek 4 (val_len_of obj) data_len s4 (key_len_of obj) 4 (omega arith)
      ∙ poke-peek 8 (id_of obj) kv.id s3 (key_len_of obj) 4 (omega arith)
      ∙ copy-peek (obj + sizeof_data_hdr) kv.key kv.key_len s2 (key_len_of obj) 4 (omega arith)
      ∙ poke-peek 4 (version_of obj) version s1 (key_len_of obj) 4 (omega arith)
      ∙ load-store_self 4 (mem_of s) (key_len_of obj) kv.key_len (omega (arith, f.words))

  pub header_version : peek 4 s5 (version_of obj) ≡ version
  header_version =
      poke-peek 4 (val_len_of obj) data_len s4 (version_of obj) 4 (omega arith)
      ∙ poke-peek 8 (id_of obj) kv.id s3 (version_of obj) 4 (omega arith)
      ∙ copy-peek (obj + sizeof_data_hdr) kv.key kv.key_len s2 (version_of obj) 4 (omega arith)
      ∙ load-store_self 4 (mem_of s1) (version_of obj) version (omega (arith, f.words))

  pub header_id : peek 8 s5 (id_of obj) ≡ kv.id
  header_id =
      poke-peek 4 (val_len_of obj) data_len s4 (id_of obj) 8 (omega arith)
      ∙ load-store_self 8 (mem_of s3) (id_of obj) kv.id (omega (arith, f.words))

  pub header_val_len : peek 4 s5 (val_len_of obj) ≡ data_len
  header_val_len = load-store_self 4 (mem_of s4) (val_len_of obj) data_len (omega (arith, f.words))

  -- Its key.
  pub header_key :
      read_bytes (mem_of s5) (obj + sizeof_data_hdr) kv.key_len
      ≡ read_bytes (mem_of s) kv.key kv.key_len
  header_key =
      poke-read 4 (val_len_of obj) data_len s4 (obj + sizeof_data_hdr) kv.key_len (omega arith)
      ∙ poke-read 8 (id_of obj) kv.id s3 (obj + sizeof_data_hdr) kv.key_len (omega arith)
      ∙ copy_self (obj + sizeof_data_hdr) kv.key kv.key_len s2
      ∙ poke-read 4 (version_of obj) version s1 kv.key kv.key_len (omega (arith, f.key_apart))
      ∙ poke-read 4 (key_len_of obj) kv.key_len s kv.key kv.key_len (omega (arith, f.key_apart))

  -- The value's bytes have not been touched yet.
  pub header-value :
      read_bytes (mem_of s5) kv.val kv.val_len ≡ read_bytes (mem_of s) kv.val kv.val_len
  header-value =
      poke-read 4 (val_len_of obj) data_len s4 kv.val kv.val_len (omega (arith, f.val_apart))
      ∙ poke-read 8 (id_of obj) kv.id s3 kv.val kv.val_len (omega (arith, f.val_apart))
      ∙ copy-read (obj + sizeof_data_hdr) kv.key kv.key_len s2 kv.val kv.val_len
          (omega (arith, f.val_apart, f.key_fits))
      ∙ poke-read 4 (version_of obj) version s1 kv.val kv.val_len (omega (arith, f.val_apart))
      ∙ poke-read 4 (key_len_of obj) kv.key_len s kv.val kv.val_len (omega (arith, f.val_apart))

  module _ (u : Util) (obj_size : ℕ) where
    abbrev value_at : ℕ
    value_at = obj + sizeof_data_hdr + s.max_key_len + kv.offset

    abbrev s6 : Handle
    s6 = copy value_at kv.val kv.val_len s5

    abbrev s7 : Handle
    s7 = record s6 { world = with_mem s6.world (u.insert (mem_of s6) obj obj_size obj) }

    checksum-peek : (a n : ℕ) → Apart obj 8 a n → peek n s7 a ≡ peek n s6 a
    checksum-peek a n apart =
        load-agree n (mem_of s6) (mem_of s7) a
          (λ x p q. u.insert_outside (mem_of s6) obj obj_size obj x (omega (arith, apart)))

    checksum-read :
        (a n : ℕ) → Apart obj 8 a n → read_bytes (mem_of s7) a n ≡ read_bytes (mem_of s6) a n
    checksum-read a n apart =
        read_bytes-agree (mem_of s6) (mem_of s7) a n
          (λ x p q. u.insert_outside (mem_of s6) obj obj_size obj x (omega (arith, apart)))

    written :
        write_value u (write_header s kv obj version data_len) kv obj none data_len obj_size ≡ s7
    unfolding write_value write_header
    written = let n : (kv.val_len == 0) ≡ false = ground (arith, f.has_value) in rw n refl

    only_checksum : (x : ℕ) → (x < obj) ⊎ (obj + 8 ≤ x) → mem_of s7 x ≡ mem_of s6 x
    only_checksum x h = u.insert_outside (mem_of s6) obj obj_size obj x h

    -- Nothing is written outside the block.
    pub write-outside :
        (x : ℕ)
        → (x < obj) ⊎ (obj + sizeof_data_hdr + s.max_key_len + kv.offset + kv.val_len ≤ x)
        → mem_of
            (write_value u (write_header s kv obj version data_len) kv obj none data_len obj_size)
            x
          ≡ mem_of s x
    write-outside x h = rw written (
        only_checksum x (omega arith)
        ∙ copy-outside value_at kv.val kv.val_len s5 x (omega arith)
        ∙ header-outside x (omega (arith, f.key_fits)))

    -- Only the memory and the events of the handle change.
    pub write-world :
        let after =
          write_value u (write_header s kv obj version data_len) kv obj none data_len obj_size in
        after ≡ record s { world = after.world }
    write-world = rw written refl

    -- What `pmb_tput` writes of a new object is the pair, with its key and its value.
    pub write-Stored :
        Stored s
          (write_value u (write_header s kv obj version data_len) kv obj none data_len obj_size)
          kv
          obj
          version
          data_len
    write-Stored = rw written (record {
      key_len =
          checksum-peek (key_len_of obj) 4 (omega arith)
          ∙ copy-peek value_at kv.val kv.val_len s5 (key_len_of obj) 4 (omega arith)
          ∙ header_key_len;
      version_eq =
          checksum-peek (version_of obj) 4 (omega arith)
          ∙ copy-peek value_at kv.val kv.val_len s5 (version_of obj) 4 (omega arith)
          ∙ header_version;
      id_eq =
          checksum-peek (id_of obj) 8 (omega arith)
          ∙ copy-peek value_at kv.val kv.val_len s5 (id_of obj) 8 (omega arith)
          ∙ header_id;
      val_len =
          checksum-peek (val_len_of obj) 4 (omega arith)
          ∙ copy-peek value_at kv.val kv.val_len s5 (val_len_of obj) 4 (omega arith)
          ∙ header_val_len;
      key =
          checksum-read (obj + sizeof_data_hdr) kv.key_len (omega arith)
          ∙ copy-read value_at kv.val kv.val_len s5 (obj + sizeof_data_hdr) kv.key_len
              (omega (arith, f.key_fits))
          ∙ header_key;
      value =
          checksum-read value_at kv.val_len (omega arith)
          ∙ copy_self value_at kv.val kv.val_len s5
          ∙ header-value;
    })
