-- ===== src/Kv/Op.antt =====
-- tx_op of kv.h
use pmbackend.Base.{ℕ}

abbrev pub write : ℕ
write = 0

abbrev pub update : ℕ
update = 1

abbrev pub updinplace : ℕ
updinplace = 2

abbrev pub remove : ℕ
remove = 3
