-- ===== src/Memtable/Iteration.antt =====
-- The loop over `SkipListIter` sees every entry once, in key order.
use flash_store.Prelude.{
  ℕ, zero, suc, ◌+◌, ◌≤◌, ◌≡◌, refl, List, [], ◌∷◌, length, drop, arith, ltb, Bool-cases, inl, inr,
  drop_step, drop_all, sym, ap, ltb→lt, ltb→le,
}
use flash_store.BTreeMap.{BTreeMap, values}
use flash_store.Types.{Entry}
use flash_store.Memtable.{MemTable, iter}
use flash_store.Memtable.Skiplist.{drain}

drain_from :
    (fuel : ℕ) (es : List Entry) (i : ℕ)
    → length es ≤ i + fuel
    → drain fuel (record { entries = es; index = i }) ≡ drop i es
unfolding drain
drain_from zero es i h = sym (drop_all i es (omega arith))
drain_from (suc fuel) es i h = elim (Bool-cases (ltb i (length es))) [
  | inl more ↦
      let (x, p, q) = drop_step es i (ltb→lt i _ more) in
      rw more (rw p (rw q (ap (◌∷◌ x) (rw more (drain_from fuel es (i + 1) (omega arith))))))
  | inr done ↦ rw done (sym (drop_all i es (ltb→le i _ done)))
]

length-values : (m : BTreeMap Entry) → length (values m) ≡ length m
length-values [] = refl
length-values ((k, e) ∷ m) = ap suc (length-values m)

-- With a round for each entry, the loop over the iterator of a memtable ends, and has seen the
-- entries in the order of their keys.
pub drain-iter :
    (m : MemTable) (fuel : ℕ) → length m.table.map ≤ fuel → drain fuel (iter m) ≡ values m.table.map
drain-iter m fuel h =
    drain_from fuel (values m.table.map) 0 (omega (arith, length-values m.table.map))
