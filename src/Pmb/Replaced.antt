-- ===== src/Pmb/Replaced.antt =====
-- pmbackend.c: the writes of `pmb_tput` to a new block that replaces another.
use pmbackend.Base.{ℕ, ◌+◌, ◌-◌, ◌≤◌, ◌<◌, ◌≡◌, refl, ◌∙◌, ap, arith, ◌⊎◌, some, ◌==◌, false, two32}
use pmbackend.Mem.{read_bytes, with_mem}
use pmbackend.Mem.Frame.{Apart, load-agree, read_bytes-agree}
use pmbackend.Backend.{sizeof_data_hdr}
use pmbackend.Kv.{Handle, mem_of, peek, id_of, version_of, key_len_of, val_len_of, Util}
use pmbackend.Pmb.Pair.{PmbPair}
use pmbackend.Pmb.Put.{copy, copy_old, write_header, write_value}
use pmbackend.Pmb.Written.{
  Stored, Fitting, s5, header-outside, header_key_len, header_version, header_id, header_val_len,
  header_key, header-value, copy-outside, copy_self, copy-read, copy-peek,
}
use pmbackend.Pmb.OldPart.{lesser, longer, OldCopied, copy_old-OldCopied}

-- The old object and the new block do not overlap, nor do the block and the caller's value, and the lengths are
-- within the handle's limits.
pub record Beneath (s : Handle) (kv : PmbPair) (obj old : ℕ) : Type 0 where
  pub old_len : peek 4 s (val_len_of old) ≤ s.max_val_len
  pub new_len : kv.val_len + kv.offset ≤ s.max_val_len
  pub words : s.max_val_len < two32
  pub blocks :
      Apart old
        (sizeof_data_hdr + s.max_key_len + s.max_val_len)
        obj
        (sizeof_data_hdr + s.max_key_len + s.max_val_len)
  pub val_obj : Apart kv.val kv.val_len obj (sizeof_data_hdr + s.max_key_len + s.max_val_len)

-- The block holds the pair, and the old value in front of its new part and behind it.
pub record Replaced (s after : Handle) (kv : PmbPair) (obj old version : ℕ) : Type 0 where
  pub stored :
      Stored s after kv obj version (longer (kv.val_len + kv.offset) (peek 4 s (val_len_of old)))
  pub front :
      read_bytes
        (mem_of after)
        (obj + sizeof_data_hdr + s.max_key_len)
        (lesser kv.offset (peek 4 s (val_len_of old)))
      ≡ read_bytes
          (mem_of s)
          (old + sizeof_data_hdr + s.max_key_len)
          (lesser kv.offset (peek 4 s (val_len_of old)))
  pub behind :
      read_bytes
        (mem_of after)
        (obj + sizeof_data_hdr + s.max_key_len + (kv.val_len + kv.offset))
        (peek 4 s (val_len_of old) - (kv.val_len + kv.offset))
      ≡ read_bytes
          (mem_of s)
          (old + sizeof_data_hdr + s.max_key_len + (kv.val_len + kv.offset))
          (peek 4 s (val_len_of old) - (kv.val_len + kv.offset))

module _ (u : Util) (s : Handle) (kv : PmbPair) (obj old version obj_size : ℕ)
    (f : Fitting s kv obj version (kv.val_len + kv.offset)) (m : Beneath s kv obj old) where
  abbrev data_len : ℕ
  data_len = kv.val_len + kv.offset

  abbrev len : ℕ
  len = peek 4 s (val_len_of old)

  abbrev value : ℕ
  value = obj + sizeof_data_hdr + s.max_key_len

  abbrev t : Handle
  t = s5 s kv obj version data_len f

  abbrev r : Handle
  r = (copy_old t kv obj old data_len obj_size).0

  abbrev c : Handle
  c = copy (value + kv.offset) kv.val kv.val_len r

  abbrev pub replaced : Handle
  replaced = record c {
    world =
        with_mem c.world (u.insert (mem_of c) obj (copy_old t kv obj old data_len obj_size).1 obj);
  }

  head : (x : ℕ) → (x < obj) ⊎ (obj + sizeof_data_hdr + kv.key_len ≤ x) → mem_of t x ≡ mem_of s x
  head = header-outside s kv obj version data_len f

  len_eq : peek 4 t (val_len_of old) ≡ len
  len_eq =
      load-agree 4 (mem_of s) (mem_of t) (val_len_of old)
        (λ x p q. head x (omega (arith, m.blocks, f.key_fits)))

  old_copied : OldCopied t r kv obj old data_len len
  old_copied = rw len_eq at (
      copy_old-OldCopied t kv obj old data_len obj_size (omega (arith, len_eq, m.old_len, m.blocks))
        (omega arith) (header_val_len s kv obj version data_len f)
        (omega (arith, f.words, len_eq, m.old_len, m.words)))

  pub write_value-replaced :
      write_value u (write_header s kv obj version data_len) kv obj (some old) data_len obj_size
      ≡ replaced
  unfolding write_value write_header
  write_value-replaced =
      let some_value : (kv.val_len == 0) ≡ false = ground (arith, f.has_value) in
      let max : r.max_key_len ≡ s.max_key_len =
        ap (λ (x : Handle). x.max_key_len) old_copied.only in
      rw (some_value, max) refl

  -- Bytes of the block that the checksum, the new part and the old value leave alone.
  end-outside : (x : ℕ) → (x < obj) ⊎ (obj + 8 ≤ x) → mem_of replaced x ≡ mem_of c x
  end-outside x p = u.insert_outside (mem_of c) obj _ obj x p

  after-read :
      (a n : ℕ)
      → Apart obj 8 a n
      → Apart (value + kv.offset) kv.val_len a n
      → read_bytes (mem_of replaced) a n ≡ read_bytes (mem_of r) a n
  after-read a n p q =
      read_bytes-agree (mem_of c) (mem_of replaced) a n (λ x i j. end-outside x (omega (arith, p)))
      ∙ copy-read (value + kv.offset) kv.val kv.val_len r a n q

  after-peek :
      (a n : ℕ)
      → Apart obj 8 a n
      → Apart (value + kv.offset) kv.val_len a n
      → peek n replaced a ≡ peek n r a
  after-peek a n p q =
      load-agree n (mem_of c) (mem_of replaced) a (λ x i j. end-outside x (omega (arith, p)))
      ∙ copy-peek (value + kv.offset) kv.val kv.val_len r a n q

  header-peek : (a n : ℕ) → obj + 8 ≤ a → (a + n ≤ val_len_of obj) → peek n replaced a ≡ peek n t a
  header-peek a n p q =
      after-peek a n (omega arith) (omega arith)
      ∙ load-agree n (mem_of t) (mem_of r) a
          (λ x i j. old_copied.outside x (omega arith) (omega arith))

  replaced-Stored : Stored s replaced kv obj version (longer data_len len)
  replaced-Stored = record {
    key_len =
        header-peek (key_len_of obj) 4 (omega arith) (omega arith)
        ∙ header_key_len s kv obj version data_len f;
    version_eq =
        header-peek (version_of obj) 4 (omega arith) (omega arith)
        ∙ header_version s kv obj version data_len f;
    id_eq =
        header-peek (id_of obj) 8 (omega arith) (omega arith)
        ∙ header_id s kv obj version data_len f;
    val_len = after-peek (val_len_of obj) 4 (omega arith) (omega arith) ∙ old_copied.val_len;
    key =
        after-read (obj + sizeof_data_hdr) kv.key_len (omega arith) (omega (arith, f.key_fits))
        ∙ read_bytes-agree (mem_of t) (mem_of r) (obj + sizeof_data_hdr) kv.key_len
            (λ x i j. old_copied.outside x (omega arith) (omega (arith, f.key_fits)))
        ∙ header_key s kv obj version data_len f;
    value =
        read_bytes-agree (mem_of c) (mem_of replaced) (value + kv.offset) kv.val_len
          (λ x i j. end-outside x (omega arith))
        ∙ copy_self (value + kv.offset) kv.val kv.val_len r
        ∙ read_bytes-agree (mem_of t) (mem_of r) kv.val kv.val_len (λ x i j.
          old_copied.outside x (omega (arith, m.val_obj)) (omega (arith, m.val_obj, m.old_len)))
        ∙ header-value s kv obj version data_len f;
  }

  pub replaced-Replaced : Replaced s replaced kv obj old version
  replaced-Replaced = record {
    stored = replaced-Stored;
    front =
        after-read value (lesser kv.offset len) (omega arith) (ground arith)
        ∙ old_copied.front
        ∙ read_bytes-agree (mem_of s) (mem_of t) (old + sizeof_data_hdr + s.max_key_len)
            (lesser kv.offset len)
            (λ x i j. head x (ground (arith, m.blocks, f.key_fits, m.old_len, i, j)));
    behind =
        after-read (value + data_len) (len - data_len) (omega arith) (omega arith)
        ∙ old_copied.behind
        ∙ read_bytes-agree (mem_of s) (mem_of t) (old + sizeof_data_hdr + s.max_key_len + data_len)
            (len - data_len) (λ x i j. head x (omega (arith, m.blocks, f.key_fits, m.old_len)));
  }

  pub replaced-outside :
      (x : ℕ)
      → (x < obj) ⊎ (obj + sizeof_data_hdr + s.max_key_len + s.max_val_len ≤ x)
      → mem_of replaced x ≡ mem_of s x
  replaced-outside x p =
      end-outside x (omega arith)
      ∙ copy-outside (value + kv.offset) kv.val kv.val_len r x (omega (arith, m.new_len))
      ∙ old_copied.outside x (omega arith) (omega (arith, m.old_len))
      ∙ head x (omega (arith, f.key_fits))

  pub replaced-world : replaced ≡ record s { world = replaced.world }
  replaced-world = ap (λ (x : Handle). record x { world = replaced.world }) old_copied.only
