-- ===== src/Batch.antt =====
-- src/batch.rs: the write batch.
use flash_store.Prelude.{ℕ, Bool, List, [], ◌∷◌, ◌++◌, length, ◌==◌}
use flash_store.Types.{Key, Value}

pub data BatchOp : Type 0 where
  put : Key → Value → BatchOp
  delete : Key → BatchOp

pub record WriteBatch : Type 0 where
  pub ops : List BatchOp

abbrev pub new : WriteBatch
new = record { ops = [] }

abbrev pub queue_put : WriteBatch → Key → Value → WriteBatch
queue_put b k v = record { ops = b.ops ++ BatchOp.put k v ∷ [] }

abbrev pub queue_delete : WriteBatch → Key → WriteBatch
queue_delete b k = record { ops = b.ops ++ BatchOp.delete k ∷ [] }

abbrev pub len : WriteBatch → ℕ
len b = length b.ops

abbrev pub is_empty : WriteBatch → Bool
is_empty b = length b.ops == 0

abbrev pub clear : WriteBatch → WriteBatch
clear b = record { ops = [] }
