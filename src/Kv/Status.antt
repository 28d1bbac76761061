-- ===== src/Kv/Status.antt =====
-- tx_status of kv.h
use pmbackend.Base.{ℕ}

abbrev pub empty : ℕ
empty = 0

abbrev pub processing : ℕ
processing = 1

abbrev pub commited : ℕ
commited = 2

abbrev pub aborted : ℕ
aborted = 3
