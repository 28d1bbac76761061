-- ===== src/Pmb/Inspect.antt =====
-- pmbackend.c: `pmb_inspect`, with what it prints as a list of lines, and `pmb_strerror`.
use Prim.Native.String.{String}
use pmbackend.Base.{ℕ, ◌+◌, some, none, List, [], ◌∷◌, ltb, ◌==◌, if◌then◌else◌}
use pmbackend.Mem.{read_bytes}
use pmbackend.Backend.{sizeof_data_hdr}
use pmbackend.Kv.{
  Handle, mem_of, peek, version_of, key_len_of, val_len_of, pmb_err, pmb_enoent, pmb_enospc,
  pmb_ecreat, pmb_esbwr, pmb_esbcr, pmb_esbin, pmb_esize, pmb_ewrgid, pmb_eargs,
}
use pmbackend.TxLog.{direct}

pub data Line : Type 0 where
  null_object : Line
  object : (blk_id flch64 version key_len val_len : ℕ) → Line
  wrong_key_len : Line
  key : List ℕ → Line
  wrong_val_len : Line
  value : List ℕ → Line

-- The value of the object at this address; it is looked for right behind the key.
unfoldable pub inspect_value : Handle → (obj : ℕ) → List Line
inspect_value s obj =
    let val_len = peek 4 s (val_len_of obj) in
    if ltb s.max_val_len val_len
    then wrong_val_len ∷ []
    else value (read_bytes (mem_of s) (obj + sizeof_data_hdr + peek 4 s (key_len_of obj)) val_len)
      ∷ []

unfoldable pub inspect_key : Handle → (obj : ℕ) → List Line
unfolding inspect_value
inspect_key s obj =
    let key_len = peek 4 s (key_len_of obj) in
    if ltb s.max_key_len key_len
    then wrong_key_len ∷ []
    else key (read_bytes (mem_of s) (obj + sizeof_data_hdr) key_len) ∷ inspect_value s obj

unfoldable pub pmb_inspect : Handle → (blk_id : ℕ) → List Line
unfolding inspect_key
pmb_inspect s blk_id = elim (direct s blk_id) [
  | none ↦ null_object ∷ []
  | some obj ↦
      object blk_id (peek 8 s obj) (peek 4 s (version_of obj)) (peek 4 s (key_len_of obj))
        (peek 4 s (val_len_of obj))
      ∷ inspect_key s obj
]

unfoldable pub pmb_strerror : (error : ℕ) → String
pmb_strerror error =
    if error == pmb_err
    then "generic error"
    else if error == pmb_enoent
    then "object doesn't exist"
    else if error == pmb_enospc
    then "no free space"
    else if error == pmb_ecreat
    then "cannot create handle"
    else if error == pmb_esbwr
    then "cannot write superblock"
    else if error == pmb_esbcr
    then "superblock corrupted"
    else if error == pmb_esbin
    then "superblock invalid"
    else if error == pmb_esize
    then "key or value length invalid"
    else if error == pmb_ewrgid
    then "update object with obeject from different region"
    else if error == pmb_eargs
    then "invalid arguement"
    else "Invalid error code!"
