-- ===== src/Mem/Zero.antt =====
-- Ranges that were set to zero.
use pmbackend.Base.{
  ℕ, zero, suc, ◌+◌, ◌≤◌, ◌<◌, ◌≡◌, refl, ◌∙◌, ◌⊎◌, inl, inr, arith, replicate, length-replicate,
  Bool-cases, ◌==◌, leb, ltb, ◌&&◌,
}
use pmbackend.Mem.{Mem, write8, write_bytes, read_bytes, le_value, load, memset_zero}
use pmbackend.Mem.Frame.{write_bytes-outside, load-agree}

pub memset_zero-outside : (m : Mem) (a n x : ℕ) → (x < a) ⊎ (a + n ≤ x) → memset_zero m a n x ≡ m x
memset_zero-outside m a n x h =
    write_bytes-outside m a (replicate n 0) x (rw (length-replicate {A = ℕ} n 0) h)

pub memset_zero-inside : (m : Mem) (a n x : ℕ) → a ≤ x → x < a + n → memset_zero m a n x ≡ 0
unfolding write_bytes write8
memset_zero-inside m a zero x p q = absurd (omega arith)
memset_zero-inside m a (suc n) x p q = elim (Bool-cases (x == a)) [
  | inl here ↦ memset_zero-outside (write8 m a 0) (a + 1) n x (ground arith) ∙ ground arith
  | inr there ↦ memset_zero-inside (write8 m a 0) (a + 1) n x (ground arith) (ground arith)
]

load_zeros : (n a : ℕ) → load n (λ x. 0) a ≡ 0
unfolding load read_bytes le_value
load_zeros zero a = refl
load_zeros (suc n) a = omega (arith, load_zeros n (a + 1))

-- An integer in a range of zeros is 0.
pub load_of_zeros :
    (n : ℕ) (m : Mem) (a : ℕ) → ((x : ℕ) → a ≤ x → x < a + n → m x ≡ 0) → load n m a ≡ 0
load_of_zeros n m a h = load-agree n (λ x. 0) m a h ∙ load_zeros n a

-- A byte stays, or is 0.
pub memset_zero-kept :
    (m : Mem) (a n x : ℕ) → (memset_zero m a n x ≡ m x) ⊎ (memset_zero m a n x ≡ 0)
memset_zero-kept m a n x = elim (Bool-cases (leb a x && ltb x (a + n))) [
  | inl within ↦ inr (memset_zero-inside m a n x (ground (arith, within)) (ground (arith, within)))
  | inr beyond ↦ inl (memset_zero-outside m a n x (ground (arith, beyond)))
]
