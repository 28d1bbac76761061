-- ===== src/Pmb/MetaWritten.antt =====
-- pmbackend.c: what `pmb_tput_meta` writes of an object.
use pmbackend.Base.{ℕ, ◌+◌, ◌≤◌, ◌<◌, ◌≡◌, refl, ◌∙◌, arith, ◌⊎◌, two32}
use pmbackend.Mem.{read_bytes}
use pmbackend.Mem.Frame.{Apart, load-agree, read_bytes-agree, load-store_self, store-outside}
use pmbackend.Backend.{sizeof_data_hdr}
use pmbackend.Kv.{Handle, mem_of, poke, peek, id_of, version_of, key_len_of, val_len_of, Util}
use pmbackend.Pmb.Pair.{PmbPair}
use pmbackend.Pmb.Put.{copy}
use pmbackend.Pmb.PutMeta.{write_meta_object}
use pmbackend.Pmb.Written.{copy-outside, copy_self, copy-read, copy-peek, poke-read, poke-peek}

-- The object at `obj` has the lengths, the key and the value of the pair; its id is the one that stood there.
pub record MetaStored (before after : Handle) (kv : PmbPair) (obj version : ℕ) : Type 0 where
  pub key_len : peek 4 after (key_len_of obj) ≡ kv.key_len
  pub version_eq : peek 4 after (version_of obj) ≡ version
  pub val_len : peek 4 after (val_len_of obj) ≡ kv.val_len
  pub key :
      read_bytes (mem_of after) (obj + sizeof_data_hdr) kv.key_len
      ≡ read_bytes (mem_of before) kv.key kv.key_len
  pub value :
      read_bytes (mem_of after) (obj + sizeof_data_hdr + kv.key_len) kv.val_len
      ≡ read_bytes (mem_of before) kv.val kv.val_len
  pub old_id : peek 8 after (id_of obj) ≡ peek 8 before (id_of obj)

-- A pair that fits the C types, with buffers outside the object.
pub record MetaFitting (kv : PmbPair) (obj version : ℕ) : Type 0 where
  pub words : (kv.key_len < two32) × (kv.val_len < two32) × (version < two32)
  pub key_apart : Apart kv.key kv.key_len obj (sizeof_data_hdr + kv.key_len + kv.val_len)
  pub val_apart : Apart kv.val kv.val_len obj (sizeof_data_hdr + kv.key_len + kv.val_len)

module _ (u : Util) (s : Handle) (kv : PmbPair) (obj version : ℕ)
    (f : MetaFitting kv obj version) where
  abbrev s1 : Handle
  s1 = poke 4 (key_len_of obj) kv.key_len s

  abbrev s2 : Handle
  s2 = poke 4 (val_len_of obj) kv.val_len s1

  abbrev s3 : Handle
  s3 = poke 4 (version_of obj) version s2

  abbrev key_at : ℕ
  key_at = obj + sizeof_data_hdr

  abbrev value_at : ℕ
  value_at = obj + sizeof_data_hdr + kv.key_len

  abbrev s4 : Handle
  s4 = copy key_at kv.key kv.key_len s3

  abbrev s5 : Handle
  s5 = copy value_at kv.val kv.val_len s4

  abbrev after : Handle
  after = write_meta_object u s kv obj version

  checksum : (x : ℕ) → (x < obj) ⊎ (obj + 8 ≤ x) → mem_of after x ≡ mem_of s5 x
  unfolding write_meta_object
  checksum x h = u.insert_outside (mem_of s5) obj _ obj x h

  -- A field of the header that the copies and the checksum leave alone.
  field : (a n : ℕ) → obj + 8 ≤ a → a + n ≤ key_at → peek n after a ≡ peek n s3 a
  field a n low high =
      load-agree n (mem_of s5) (mem_of after) a (λ x p q. checksum x (omega (arith, low, p)))
      ∙ copy-peek value_at kv.val kv.val_len s4 a n (omega (arith, high))
      ∙ copy-peek key_at kv.key kv.key_len s3 a n (omega (arith, high))

  -- A buffer outside the object is as it was when it is copied.
  buffer :
      (a n : ℕ)
      → Apart a n obj (sizeof_data_hdr + kv.key_len + kv.val_len)
      → read_bytes (mem_of s3) a n ≡ read_bytes (mem_of s) a n
  buffer a n apart =
      poke-read 4 (version_of obj) version s2 a n (omega (arith, apart))
      ∙ poke-read 4 (val_len_of obj) kv.val_len s1 a n (omega (arith, apart))
      ∙ poke-read 4 (key_len_of obj) kv.key_len s a n (omega (arith, apart))

  pub write_meta-outside :
      (x : ℕ)
      → (x < obj) ⊎ (obj + sizeof_data_hdr + kv.key_len + kv.val_len ≤ x)
      → mem_of after x ≡ mem_of s x
  write_meta-outside x h =
      checksum x (omega (arith, h))
      ∙ copy-outside value_at kv.val kv.val_len s4 x (omega (arith, h))
      ∙ copy-outside key_at kv.key kv.key_len s3 x (omega (arith, h))
      ∙ store-outside 4 (mem_of s2) (version_of obj) version x (omega (arith, h))
      ∙ store-outside 4 (mem_of s1) (val_len_of obj) kv.val_len x (omega (arith, h))
      ∙ store-outside 4 (mem_of s) (key_len_of obj) kv.key_len x (omega (arith, h))

  pub write_meta-world : after ≡ record s { world = after.world }
  unfolding write_meta_object
  write_meta-world = refl

  pub write_meta-MetaStored : MetaStored s after kv obj version
  write_meta-MetaStored = record {
    key_len =
        field (key_len_of obj) 4 (omega arith) (omega arith)
        ∙ poke-peek 4 (version_of obj) version s2 (key_len_of obj) 4 (omega arith)
        ∙ poke-peek 4 (val_len_of obj) kv.val_len s1 (key_len_of obj) 4 (omega arith)
        ∙ load-store_self 4 (mem_of s) (key_len_of obj) kv.key_len (omega (arith, f.words));
    version_eq =
        field (version_of obj) 4 (omega arith) (omega arith)
        ∙ load-store_self 4 (mem_of s2) (version_of obj) version (omega (arith, f.words));
    val_len =
        field (val_len_of obj) 4 (omega arith) (omega arith)
        ∙ poke-peek 4 (version_of obj) version s2 (val_len_of obj) 4 (omega arith)
        ∙ load-store_self 4 (mem_of s1) (val_len_of obj) kv.val_len (omega (arith, f.words));
    key =
        read_bytes-agree (mem_of s5) (mem_of after) key_at kv.key_len
          (λ x p q. checksum x (omega (arith, p)))
        ∙ copy-read value_at kv.val kv.val_len s4 key_at kv.key_len (omega arith)
        ∙ copy_self key_at kv.key kv.key_len s3
        ∙ buffer kv.key kv.key_len f.key_apart;
    value =
        read_bytes-agree (mem_of s5) (mem_of after) value_at kv.val_len
          (λ x p q. checksum x (omega (arith, p)))
        ∙ copy_self value_at kv.val kv.val_len s4
        ∙ copy-read key_at kv.key kv.key_len s3 kv.val kv.val_len (omega (arith, f.val_apart))
        ∙ buffer kv.val kv.val_len f.val_apart;
    old_id =
        field (id_of obj) 8 (omega arith) (omega arith)
        ∙ poke-peek 4 (version_of obj) version s2 (id_of obj) 8 (omega arith)
        ∙ poke-peek 4 (val_len_of obj) kv.val_len s1 (id_of obj) 8 (omega arith)
        ∙ poke-peek 4 (key_len_of obj) kv.key_len s (id_of obj) 8 (omega arith);
  }
