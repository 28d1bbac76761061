-- ===== src/TxLog/InPlace.antt =====
-- tx_log.c: the updates in place of a log, and what they should do to the blocks.
pub mod Metas
pub mod One
pub mod Loop
pub mod Heads
pub mod Writes
pub mod Patched
pub mod Applied
pub mod Lost
use pmbackend.Base.{ℕ, ◌+◌, ◌≤◌, ◌<◌, ◌≡◌, List, [], ◌∷◌, length, ◌==◌, if◌then◌else◌, ltb, two32}
use pmbackend.Mem.{Mem, load, write_bytes}
use pmbackend.Backend.{Backend, sizeof_data_hdr}
use pmbackend.Backend.Layout.{IsBlockId, place, block_len}
use pmbackend.Kv.{TxMeta, version_of, val_len_of}
use pmbackend.TxLog.Log.{Operation, updinplace}

-- New bytes at an offset of a block's value.
pub record Patch : Type 0 where
  pub id : ℕ
  pub offset : ℕ
  pub payload : List ℕ

abbrev pub as_log : List Patch → List Operation
as_log [] = []
as_log (p ∷ ps) = updinplace p.id p.offset p.payload ∷ as_log ps

-- The end of the new bytes in the value.
abbrev pub reach : Patch → ℕ
reach p = p.offset + length p.payload

-- The patches, written one after another.
abbrev pub patch : Backend → (max_key_len : ℕ) → Patch → Mem → Mem
patch b max p m = write_bytes m (place b p.id + sizeof_data_hdr + max + p.offset) p.payload

abbrev pub patched : Backend → (max_key_len : ℕ) → List Patch → Mem → Mem
patched b max [] m = m
patched b max (p ∷ ps) m = patched b max ps (patch b max p m)

-- How many patches a block gets, and the length of its value after them.
abbrev pub updates : (id : ℕ) → List Patch → ℕ
updates id [] = 0
updates id (p ∷ ps) = if p.id == id then updates id ps + 1 else updates id ps

abbrev pub longest : (id : ℕ) → List Patch → (len : ℕ) → ℕ
longest id [] len = len
longest id (p ∷ ps) len =
    longest id ps (if p.id == id then (if ltb len (reach p) then reach p else len) else len)

-- The patch is for a block, and fits into it.
pub record IsPatch (b : Backend) (max : ℕ) (m : Mem) (p : Patch) : Type 0 where
  pub block : IsBlockId b p.id × (0 < p.id)
  pub words : (p.offset < two32) × (reach p < two32)
  pub fits : sizeof_data_hdr + max + reach p ≤ block_len b p.id
  pub len_word : load 4 m (val_len_of (place b p.id)) < two32

abbrev pub AllPatches : Backend → (max : ℕ) → Mem → List Patch → Type 0
AllPatches b max m [] = Unit
AllPatches b max m (p ∷ ps) = IsPatch b max m p × AllPatches b max m ps

-- The version and the length in a block's header.
abbrev pub head_of : Backend → Mem → (id : ℕ) → TxMeta
head_of b m id = record {
  id = id;
  version = load 4 m (version_of (place b id));
  val_len = load 4 m (val_len_of (place b id));
}
