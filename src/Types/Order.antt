-- ===== src/Types/Order.antt =====
-- The orders on entries and internal keys of src/types.rs.
use Prim.Native.Nat.Ordering.{lt}
use flash_store.Prelude.{◌≡◌, ◌<◌, arith}
use flash_store.Ordered.{IsTotalOrder}
use flash_store.Bytes.{cmp_refl, eq_of_cmp, cmp_swap, lt_trans}
use flash_store.Types.{Entry, internal_key_cmp, entry_cmp, to_internal_key}

-- The comparison of internal keys is a total order, in which only equal keys compare equal.
pub internal_key_cmp-IsTotalOrder : IsTotalOrder internal_key_cmp
unfolding internal_key_cmp
internal_key_cmp-IsTotalOrder = record {
  cmp_refl = λ a. ground (arith, cmp_refl a.user_key);
  eq_of_cmp = λ a b. ground (arith, eq_of_cmp a.user_key b.user_key);
  cmp_swap = λ a b. ground (arith, cmp_swap a.user_key b.user_key);
  lt_trans = λ a b c. ground (
    arith,
    eq_of_cmp a.user_key b.user_key,
    eq_of_cmp b.user_key c.user_key,
    lt_trans a.user_key b.user_key c.user_key,
    cmp_refl b.user_key,
  );
}

-- Of two entries with one key the newer one comes first, in the order of entries and in that of
-- their internal keys.
pub entry_cmp_newest_first :
    (a b : Entry)
    → a.key ≡ b.key
    → b.seq_no < a.seq_no
    → (entry_cmp a b ≡ lt) × (internal_key_cmp (to_internal_key a) (to_internal_key b) ≡ lt)
unfolding entry_cmp internal_key_cmp
entry_cmp_newest_first a b e h = ground (arith, cmp_refl a.key)
