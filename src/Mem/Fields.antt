-- ===== src/Mem/Fields.antt =====
-- Fields of a structure, written one after another.
use pmbackend.Base.{
  ℕ, ◌+◌, ◌≤◌, ◌<◌, ◌≡◌, refl, ◌∙◌, ◌⊎◌, Bool, true, ◌&&◌, List, [], ◌∷◌, leb, arith,
}
use pmbackend.Mem.{Mem, store}
use pmbackend.Mem.Frame.{store-outside}

-- Where the field lies in its structure, its bytes, and the value that is assigned to it.
pub record Field : Type 0 where
  pub offset : ℕ
  pub width : ℕ
  pub value : ℕ

unfoldable pub write_fields : ℕ → List Field → Mem → Mem
write_fields a [] m = m
write_fields a (f ∷ fs) m = write_fields a fs (store f.width m (a + f.offset) f.value)

-- The fields lie in the structure's first `n` bytes.
unfoldable pub all_within : ℕ → List Field → Bool
all_within n [] = true
all_within n (f ∷ fs) = leb (f.offset + f.width) n && all_within n fs

pub write_fields-outside :
    (a n : ℕ) (fs : List Field) (m : Mem) (x : ℕ)
    → all_within n fs ≡ true
    → (x < a) ⊎ (a + n ≤ x)
    → write_fields a fs m x ≡ m x
unfolding write_fields all_within
write_fields-outside a n [] m x e h = refl
write_fields-outside a n (f ∷ fs) m x e h =
    write_fields-outside a n fs (store f.width m (a + f.offset) f.value) x (ground (arith, e)) h
    ∙ store-outside f.width m (a + f.offset) f.value x (ground (arith, e, h))
