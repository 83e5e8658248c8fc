-- ===== src/Tests/Cache.antt =====
-- The results on src/cache/mod.rs at concrete inputs.
use flash_store.Prelude.{◌≡◌, ◌⊎◌, sym, ◌∙◌, ◌≤◌, ◌<◌, List, [], ◌∷◌, some, length, arith}
use flash_store.Cache
use flash_store.Cache.{BlockKey, get, insert}
use flash_store.Cache.Runs.{CacheOp, run, new-run}
use flash_store.Cache.Stored.{get-insert}
use flash_store.Cache.Held.{held, get-held}
use flash_store.Cache.Interface.{held-insert}
use flash_store.Cache.Touch.{IsValid}
use flash_store.Tests.Types.{key_a, key_b}

-- A cache of two blocks that is used past its capacity.
abbrev some_calls : List CacheOp
some_calls =
    CacheOp.store (1, 0) key_a
    ∷ CacheOp.store (1, 1) key_b
    ∷ CacheOp.look_up (1, 0)
    ∷ CacheOp.store (2, 0) key_a
    ∷ CacheOp.take_out (1, 0)
    ∷ CacheOp.store (2, 0) key_b
    ∷ []

abbrev third_key : BlockKey
third_key = (3, 0)

new-run_example :
    IsValid (run (Cache.new 2) some_calls) × (length (run (Cache.new 2) some_calls).map ≤ 2)
new-run_example = new-run 2 some_calls

full_calls_capacity : 0 < (run (Cache.new 2) some_calls).capacity
unfolding Cache.get Cache.insert Cache.remove Cache.attach_head Cache.modify Cache.slot_of
    Cache.without_key
full_calls_capacity = omega arith

get-insert_example :
    (get (insert (run (Cache.new 2) some_calls) third_key key_a) third_key).0 ≡ some key_a
get-insert_example =
    get-insert (run (Cache.new 2) some_calls) third_key key_a (new-run 2 some_calls).0
      full_calls_capacity

stored : held (insert (run (Cache.new 2) some_calls) third_key key_a) third_key ≡ some key_a
stored =
    sym (get-held (insert (run (Cache.new 2) some_calls) third_key key_a) third_key third_key).0
    ∙ get-insert (run (Cache.new 2) some_calls) third_key key_a (new-run 2 some_calls).0
        full_calls_capacity

held-insert_example :
    ((third_key ≡ third_key) × (key_a ≡ key_a))
    ⊎ (held (run (Cache.new 2) some_calls) third_key ≡ some key_a)
held-insert_example =
    held-insert (run (Cache.new 2) some_calls) third_key key_a third_key key_a
      (new-run 2 some_calls).0 stored
