-- ===== src/TxLog/InPlace/Patched.antt =====
-- tx_log.c: the headers of the blocks while the patches are written.
use pmbackend.Base.{
  ℕ, ◌+◌, ◌≤◌, ◌<◌, ◌≡◌, refl, ◌∙◌, List, [], ◌∷◌, length, ◌==◌, arith, inl, inr, Bool-cases,
}
use pmbackend.Mem.{Mem}
use pmbackend.Backend.{Backend, sizeof_data_hdr}
use pmbackend.Backend.Layout.{IsLaidOut, IsBlockId, block_len}
use pmbackend.TxLog.Log.{Entries}
use pmbackend.TxLog.InPlace.{Patch, as_log, patch, patched, updates, AllPatches, head_of}
use pmbackend.TxLog.InPlace.One.{head_of-patch, head_of-Agree}

pub length-log :
    (m : Mem) (e end : ℕ) (ps : List Patch) → Entries m e end (as_log ps) → e + length ps ≤ end
length-log m e end [] g = omega (arith, g)
length-log m e end (p ∷ ps) (at, g) =
    omega (arith, length-log m (e + (24 + length p.payload)) end ps g)

-- A block with updates has room for a header.
pub header_fits :
    (b : Backend) (max : ℕ) (m : Mem) (x : ℕ) (ps : List Patch)
    → AllPatches b max m ps
    → 0 < updates x ps
    → sizeof_data_hdr ≤ block_len b x
header_fits b max m x [] f pos = absurd (omega arith)
header_fits b max m x (p ∷ ps) (f, fs) pos = elim (Bool-cases (p.id == x)) [
  | inl same ↦ let e : p.id ≡ x = ground (arith, same) in rw (← e) (omega (arith, f.fits))
  | inr other ↦ header_fits b max m x ps fs (ground (arith, pos, other))
]

pub head_of-patched :
    (b : Backend) (h : IsLaidOut b) (max : ℕ) (m m0 : Mem) (x : ℕ) (ps : List Patch)
    → AllPatches b max m0 ps
    → IsBlockId b x
    → sizeof_data_hdr ≤ block_len b x
    → head_of b (patched b max ps m) x ≡ head_of b m x
head_of-patched b h max m m0 x [] f i len = refl
head_of-patched b h max m m0 x (p ∷ ps) (f, fs) i len =
    head_of-patched b h max (patch b max p m) m0 x ps fs i len
    ∙ head_of-Agree b m (patch b max p m) x (head_of-patch b h max m m0 p x f i len)
