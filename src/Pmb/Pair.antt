-- ===== src/Pmb/Pair.antt =====
-- pmbackend.h: the pair that carries keys and values between the library and its client.
use pmbackend.Base.{ℕ}

-- pmb_pair; `key` and `val` are addresses, 0 is `NULL`
pub record PmbPair : Type 0 where
  pub blk_id : ℕ
  pub id : ℕ
  pub offset : ℕ
  pub key : ℕ
  pub key_len : ℕ
  pub val : ℕ
  pub val_len : ℕ
