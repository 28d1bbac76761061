-- ===== src/Pmb/OldPart.antt =====
-- pmbackend.c: what `pmb_tput` takes over of the object that it replaces.
use pmbackend.Base.{
  ℕ, ◌+◌, ◌-◌, ◌≤◌, ◌<◌, ◌≡◌, refl, ◌∙◌, arith, ◌⊎◌, inl, inr, Bool-cases, ltb, ◌==◌, if◌then◌else◌,
  true, false, two32,
}
use pmbackend.Mem.{read_bytes}
use pmbackend.Mem.Frame.{Apart, store-outside, load-store_self}
use pmbackend.Backend.{sizeof_data_hdr}
use pmbackend.Kv.{Handle, mem_of, poke, peek, val_len_of}
use pmbackend.Pmb.Pair.{PmbPair}
use pmbackend.Pmb.Put.{copy, copy_old}
use pmbackend.Pmb.Written.{copy-outside, copy_self, copy-read, copy-peek, poke-read}

abbrev pub lesser : ℕ → ℕ → ℕ
lesser a b = if ltb b a then b else a

abbrev pub longer : ℕ → ℕ → ℕ
longer a b = if ltb a b then b else a

-- The old value in front of the new part and behind it stands in the new block, and the length is that of the
-- longer one.
pub record OldCopied (t r : Handle) (kv : PmbPair) (obj old data_len len : ℕ) : Type 0 where
  pub only : r ≡ record t { world = r.world }
  pub val_len : peek 4 r (val_len_of obj) ≡ longer data_len len
  pub front :
      read_bytes (mem_of r) (obj + sizeof_data_hdr + t.max_key_len) (lesser kv.offset len)
      ≡ read_bytes (mem_of t) (old + sizeof_data_hdr + t.max_key_len) (lesser kv.offset len)
  pub behind :
      read_bytes (mem_of r) (obj + sizeof_data_hdr + t.max_key_len + data_len) (len - data_len)
      ≡ read_bytes (mem_of t) (old + sizeof_data_hdr + t.max_key_len + data_len) (len - data_len)
  pub outside :
      (x : ℕ)
      → (x < val_len_of obj) ⊎ (val_len_of obj + 4 ≤ x)
      → (x < obj + sizeof_data_hdr + t.max_key_len)
        ⊎ (obj + sizeof_data_hdr + t.max_key_len + len ≤ x)
      → mem_of r x ≡ mem_of t x

module _ (t : Handle) (kv : PmbPair) (obj old data_len obj_size : ℕ)
    (apart : Apart old
      (sizeof_data_hdr + t.max_key_len + peek 4 t (val_len_of old))
      obj
      (sizeof_data_hdr + t.max_key_len + peek 4 t (val_len_of old)))
    (part : kv.offset ≤ data_len) (set : peek 4 t (val_len_of obj) ≡ data_len)
    (words : (data_len < two32) × (peek 4 t (val_len_of old) < two32)) where
  abbrev len : ℕ
  len = peek 4 t (val_len_of old)

  abbrev value : ℕ
  value = obj + sizeof_data_hdr + t.max_key_len

  abbrev old_value : ℕ
  old_value = old + sizeof_data_hdr + t.max_key_len

  abbrev c1 : Handle
  c1 = copy value old_value (lesser kv.offset len) t

  abbrev c2 : Handle
  c2 = copy (value + data_len) (old_value + data_len) (len - data_len) c1

  lesser-le : (lesser kv.offset len ≤ kv.offset) × (lesser kv.offset len ≤ len)
  lesser-le = ground arith

  -- The old value is not longer.
  front-OldCopied : ltb data_len len ≡ false → OldCopied t c1 kv obj old data_len len
  unfolding read_bytes
  front-OldCopied e =
      let none' : len - data_len ≡ 0 = ground arith in
      record {
        only = refl;
        val_len =
            copy-peek value old_value (lesser kv.offset len) t (val_len_of obj) 4 (omega arith)
            ∙ rw e set;
        front = copy_self value old_value (lesser kv.offset len) t;
        behind = rw none' refl;
        outside = λ x p q.
            copy-outside value old_value (lesser kv.offset len) t x (omega (arith, lesser-le));
      }

  -- The old value is longer.
  both-OldCopied :
      ltb data_len len ≡ true → OldCopied t (poke 4 (val_len_of obj) len c2) kv obj old data_len len
  both-OldCopied e =
      let more : data_len < len = ground arith in
      record {
        only = refl;
        val_len =
            load-store_self 4 (mem_of c2) (val_len_of obj) len (omega (arith, words)) ∙ rw e refl;
        front =
            poke-read 4 (val_len_of obj) len c2 value (lesser kv.offset len) (omega arith)
            ∙ copy-read (value + data_len) (old_value + data_len) (len - data_len) c1 value
                (lesser kv.offset len) (omega (arith, lesser-le))
            ∙ copy_self value old_value (lesser kv.offset len) t;
        behind =
            poke-read 4 (val_len_of obj) len c2 (value + data_len) (len - data_len) (omega arith)
            ∙ copy_self (value + data_len) (old_value + data_len) (len - data_len) c1
            ∙ copy-read value old_value (lesser kv.offset len) t (old_value + data_len)
                (len - data_len) (omega (arith, apart, lesser-le));
        outside = λ x p q.
            store-outside 4 (mem_of c2) (val_len_of obj) len x (omega arith)
            ∙ copy-outside (value + data_len) (old_value + data_len) (len - data_len) c1 x
                (omega arith)
            ∙ copy-outside value old_value (lesser kv.offset len) t x (omega (arith, lesser-le));
      }

  -- There is no old value.
  none-OldCopied : len ≡ 0 → OldCopied t t kv obj old data_len len
  unfolding read_bytes
  none-OldCopied e =
      let none' : len - data_len ≡ 0 = omega arith in
      let none'' : lesser kv.offset len ≡ 0 = omega (arith, lesser-le) in
      record {
        only = refl;
        val_len = set ∙ ground arith;
        front = rw none'' refl;
        behind = rw none' refl;
        outside = λ x p q. refl;
      }

  pub copy_old-OldCopied :
      OldCopied t (copy_old t kv obj old data_len obj_size).0 kv obj old data_len len
  unfolding copy_old
  copy_old-OldCopied = elim (Bool-cases (len == 0)) [
    | inl none' ↦ rw none' (none-OldCopied (ground arith))
    | inr some' ↦ elim (Bool-cases (ltb data_len len)) [
      | inl more ↦ rw (some', more) (both-OldCopied more)
      | inr less ↦ rw (some', less) (front-OldCopied less)
    ]
  ]
