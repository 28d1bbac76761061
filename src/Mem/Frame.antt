-- ===== src/Mem/Frame.antt =====
-- Reads after writes, at the same place and elsewhere.
use pmbackend.Base.{
  ℕ, zero, suc, ◌+◌, ◌*◌, ◌/◌, ◌^◌, ◌≤◌, ◌<◌, ◌≡◌, refl, ◌∙◌, ap, ◌⊎◌, List, [], ◌∷◌, arith, length,
}
use native.Mathlib.Nat.{pow-succ'}
use pmbackend.Mem.{Mem, write8, write_bytes, read_bytes, le_bytes, le_value, load, store}

-- The `n` bytes at `a` and the `k` bytes at `b` do not overlap.
abbrev pub Apart : ℕ → ℕ → ℕ → ℕ → Type 0
Apart a n b k = (a + n ≤ b) ⊎ (b + k ≤ a)

pub write_bytes-outside :
    (m : Mem) (a : ℕ) (bs : List ℕ) (x : ℕ)
    → (x < a) ⊎ (a + length bs ≤ x)
    → write_bytes m a bs x ≡ m x
unfolding write_bytes write8
write_bytes-outside m a [] x h = refl
write_bytes-outside m a (b ∷ bs) x h =
    ground (arith, write_bytes-outside (write8 m a b) (a + 1) bs x)

-- A range reads the same in two memories that agree on it.
pub read_bytes-agree :
    (m m' : Mem) (a n : ℕ)
    → ((x : ℕ) → a ≤ x → x < a + n → m' x ≡ m x)
    → read_bytes m' a n ≡ read_bytes m a n
unfolding read_bytes
read_bytes-agree m m' a zero same = refl
read_bytes-agree m m' a (suc n) same = cc (
  same a (omega arith) (omega arith),
  read_bytes-agree m m' (a + 1) n (λ x p q. same x (omega arith) (omega arith)),
)

pub read_bytes-write_ne :
    (m : Mem) (a : ℕ) (bs : List ℕ) (b n : ℕ)
    → Apart a (length bs) b n
    → read_bytes (write_bytes m a bs) b n ≡ read_bytes m b n
read_bytes-write_ne m a bs b n h =
    read_bytes-agree m (write_bytes m a bs) b n
      (λ x p q. write_bytes-outside m a bs x (omega arith))

pub read_bytes-write_self :
    (m : Mem) (a : ℕ) (bs : List ℕ) → read_bytes (write_bytes m a bs) a (length bs) ≡ bs
unfolding read_bytes write_bytes write8
read_bytes-write_self m a [] = refl
read_bytes-write_self m a (b ∷ bs) = cc (
  read_bytes-write_self (write8 m a b) (a + 1) bs,
  write_bytes-outside (write8 m a b) (a + 1) bs a (omega arith),
  first,
)
  where
    first : write8 m a b a ≡ b
    first = ground arith

pub length-read_bytes : (m : Mem) (a n : ℕ) → length (read_bytes m a n) ≡ n
unfolding read_bytes
length-read_bytes m a zero = refl
length-read_bytes m a (suc n) = ap suc (length-read_bytes m (a + 1) n)

pub length-le_bytes : (n v : ℕ) → length (le_bytes n v) ≡ n
unfolding le_bytes
length-le_bytes zero v = refl
length-le_bytes (suc n) v = ap suc (length-le_bytes n (v / 256))

pub le_value-le_bytes : (n v : ℕ) → v < 256 ^ n → le_value (le_bytes n v) ≡ v
unfolding le_value le_bytes
le_value-le_bytes zero v h = omega arith
le_value-le_bytes (suc n) v h =
    let h' : v < 256 * 256 ^ n = rw pow-succ' at h in
    omega (arith, le_value-le_bytes n (v / 256) (omega arith))

-- A stored integer that fits is read back.
pub load-store_self : (n : ℕ) (m : Mem) (a v : ℕ) → v < 256 ^ n → load n (store n m a v) a ≡ v
unfolding load store
load-store_self n m a v h =
    let e : read_bytes (store n m a v) a n ≡ le_bytes n v =
      rw (length-le_bytes n v) at (read_bytes-write_self m a (le_bytes n v)) in
    ap le_value e ∙ le_value-le_bytes n v h

-- A write elsewhere does not change an integer.
pub load-write_ne :
    (n : ℕ) (m : Mem) (a : ℕ) (bs : List ℕ) (b : ℕ)
    → Apart a (length bs) b n
    → load n (write_bytes m a bs) b ≡ load n m b
unfolding load
load-write_ne n m a bs b h = ap le_value (read_bytes-write_ne m a bs b n h)

pub load-agree :
    (n : ℕ) (m m' : Mem) (a : ℕ)
    → ((x : ℕ) → a ≤ x → x < a + n → m' x ≡ m x)
    → load n m' a ≡ load n m a
unfolding load
load-agree n m m' a same = ap le_value (read_bytes-agree m m' a n same)

pub load-store_ne :
    (n k : ℕ) (m : Mem) (a v b : ℕ) → Apart a k b n → load n (store k m a v) b ≡ load n m b
unfolding store
load-store_ne n k m a v b h = load-write_ne n m a (le_bytes k v) b (rw (length-le_bytes k v) h)

pub store-outside : (k : ℕ) (m : Mem) (a v x : ℕ) → (x < a) ⊎ (a + k ≤ x) → store k m a v x ≡ m x
unfolding store
store-outside k m a v x h = write_bytes-outside m a (le_bytes k v) x (rw (length-le_bytes k v) h)
