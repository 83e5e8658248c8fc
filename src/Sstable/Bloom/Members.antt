-- ===== src/Sstable/Bloom/Members.antt =====
-- A filter answers yes for every key that it was built from.
use flash_store.Prelude.{
  ℕ, zero, suc, ◌+◌, ◌-◌, ◌*◌, ◌/◌, ◌%◌, ◌^◌, ◌<◌, ◌≤◌, ◌≡◌, refl, ap, ◌∙◌, true, false, List, [],
  ◌∷◌, length, get_elem?, some, set, replicate, leb, arith, length-replicate, ==-false, ==-refl,
  subst, min, max,
}
use mathlib.Core.Option.{some-injective}
use native.Mathlib.Nat.{mod-lt}
use flash_store.Bytes.{Bytes}
use flash_store.External.{Crc32}
use flash_store.Types.{Key}
use flash_store.Sstable.Bloom.{
  new, rotate_left_15, byte_at, set_bit, has_bit, set_bits, has_bits, add_keys, filter_bytes,
  build_from_keys, may_contain,
}
use flash_store.Sstable.Bloom.Bits.{
  IsBytes, byte_at-set, length-set, set-IsBytes, set_bit-IsBytes, has_bit-set_bit,
}

-- A filter of `bytes` bytes of bits, and behind them the byte `k`.
record IsFilter (bytes k : ℕ) (f : Bytes) : Type 0 where
  len : length f ≡ bytes + 1
  in_range : IsBytes f
  hashes : byte_at f bytes ≡ k

-- `g` has the bits of `f`.
abbrev Extends : Bytes → Bytes → Type 0
Extends f g = (q : ℕ) → has_bit f q ≡ true → has_bit g q ≡ true

module _ (bytes k n : ℕ) (pos : 0 < n) (fits : n ≤ bytes * 8) where
  place : (h : ℕ) (f : Bytes) → IsFilter bytes k f → h % n / 8 < length f
  place h f v = let lt = mod-lt h pos in omega arith

  set_bit-IsFilter : (f : Bytes) (h : ℕ) → IsFilter bytes k f → IsFilter bytes k (set_bit f (h % n))
  set_bit-IsFilter f h v = record {
    len = unfold set_bit in (length-set f (h % n / 8) _ ∙ v.len);
    in_range = set_bit-IsBytes f (h % n) v.in_range;
    hashes =
        unfold set_bit in
        (byte_at-set f (h % n / 8) _ bytes (place h f v)
          ∙ (rw (==-false (h % n / 8) bytes (λ e. absurd (omega arith))))
          ∙ v.hashes);
  }

  set_bits_lem :
      (j delta h : ℕ) (f : Bytes)
      → IsFilter bytes k f
      → IsFilter bytes k (set_bits j n delta h f)
        × Extends f (set_bits j n delta h f)
        × (has_bits j n delta h (set_bits j n delta h f) ≡ true)
  unfolding set_bits has_bits
  set_bits_lem zero delta h f v = (v, λ q e. e, refl)
  set_bits_lem (suc j) delta h f v =
      let f' = set_bit f (h % n) in
      let (valid, grows, found) =
        set_bits_lem j delta ((h + delta) % 2 ^ 32) f' (set_bit-IsFilter f h v) in
      let own = (has_bit-set_bit f (h % n) 0 v.in_range (place h f v)).0 in
      (
        valid,
        λ q e. grows q ((has_bit-set_bit f (h % n) q v.in_range (place h f v)).1 e),
        rw (grows (h % n) own) found,
      )

  has_bits-Extends :
      (j delta h : ℕ) (f g : Bytes)
      → Extends f g
      → has_bits j n delta h f ≡ true
      → has_bits j n delta h g ≡ true
  unfolding has_bits
  has_bits-Extends zero delta h f g x e = refl
  has_bits-Extends (suc j) delta h f g x e =
      ground (arith, x (h % n), has_bits-Extends j delta ((h + delta) % 2 ^ 32) f g x)

  module _ ⦃crc : Crc32⦄ where
    -- The filter has the bits of each key.
    abbrev Covers : ℕ → List Key → Bytes → Type 0
    Covers j keys f =
        (i : ℕ) (key : Key)
        → get_elem? keys i ≡ some key
        → has_bits j n (rotate_left_15 (crc.hash key)) (crc.hash key) f ≡ true

    Covers-cons :
        (j : ℕ) (x : Key) (keys : List Key) (f : Bytes)
        → has_bits j n (rotate_left_15 (crc.hash x)) (crc.hash x) f ≡ true
        → Covers j keys f
        → Covers j (x ∷ keys) f
    Covers-cons j x keys f h c zero key e =
        subst (λ y. has_bits j n (rotate_left_15 (crc.hash y)) (crc.hash y) f ≡ true)
          (some-injective x key e) h
    Covers-cons j x keys f h c (suc i) key e = c i key e

    add_keys_lem :
        (j : ℕ) (keys : List Key) (f : Bytes)
        → IsFilter bytes k f
        → IsFilter bytes k (add_keys j n keys f)
          × Extends f (add_keys j n keys f)
          × Covers j keys (add_keys j n keys f)
    unfolding add_keys
    add_keys_lem j [] f v = (v, λ q e. e, λ i key e. cc)
    add_keys_lem j (x ∷ keys) f v =
        let delta = rotate_left_15 (crc.hash x) in
        let f' = set_bits j n delta (crc.hash x) f in
        let (valid, grows, found) = set_bits_lem j delta (crc.hash x) f v in
        let (valid', grows', found') = add_keys_lem j keys f' valid in
        (
          valid',
          λ q e. grows' q (grows q e),
          Covers-cons j x keys _
              (has_bits-Extends j delta (crc.hash x) f' (add_keys j n keys f') grows' found) found',
        )

at_least_eight : (bits_per_key keys : ℕ) → 8 ≤ filter_bytes bits_per_key keys
at_least_eight bits_per_key keys = ground arith

zeros-IsBytes : (n : ℕ) → IsBytes (replicate n 0)
zeros-IsBytes zero = tt
zeros-IsBytes (suc n) = (omega arith, zeros-IsBytes n)

start-IsFilter :
    (bytes k : ℕ) → k < 256 → IsFilter bytes k (set (replicate (bytes + 1) 0) bytes (k % 256))
start-IsFilter bytes k lt =
    let size : length (replicate {A = ℕ} (bytes + 1) 0) ≡ bytes + 1 =
      length-replicate (bytes + 1) 0 in
    let byte : k % 256 ≡ k = omega arith in
    rw byte (record {
      len = length-set (replicate (bytes + 1) 0) bytes k ∙ size;
      in_range = set-IsBytes (replicate (bytes + 1) 0) bytes k lt (zeros-IsBytes (bytes + 1));
      hashes =
          byte_at-set (replicate (bytes + 1) 0) bytes k bytes (omega (arith, size))
          ∙ (rw (==-refl bytes));
    })

module _ ⦃crc : Crc32⦄ where
  may_contain_of_filter :
      (bytes k : ℕ) (g : Bytes) (key : Key)
      → 8 ≤ bytes
      → bytes * 8 < 2 ^ 32
      → IsFilter bytes k g
      → has_bits k (bytes * 8) (rotate_left_15 (crc.hash key)) (crc.hash key) g ≡ true
      → may_contain g key ≡ true
  unfolding may_contain
  may_contain_of_filter bytes k g key enough small v bits =
      let last : length g - 1 ≡ bytes = omega (arith, v.len) in
      let exact : bytes * 8 % 2 ^ 32 ≡ bytes * 8 = omega arith in
      let long : leb (length g) 1 ≡ false = ground (arith, v.len) in
      rw long (rw last (rw v.hashes (rw exact bits)))

  -- With fewer than 2^32 bits, the filter that is built from some keys answers yes for each of
  -- them.
  pub may_contain-build :
      (rounded : ℕ → ℕ) (bits_per_key : ℕ) (keys : List Key) (i : ℕ) (key : Key)
      → filter_bytes bits_per_key (length keys) * 8 < 2 ^ 32
      → get_elem? keys i ≡ some key
      → may_contain (build_from_keys (new rounded bits_per_key) keys) key ≡ true
  unfolding build_from_keys
  may_contain-build rounded bits_per_key [] i key small e = cc
  may_contain-build rounded bits_per_key (x ∷ keys) i key small e =
      let bytes = filter_bytes bits_per_key (length (x ∷ keys)) in
      let k = min (max (rounded bits_per_key) 1) 30 in
      let n = bytes * 8 in
      let enough : 8 ≤ bytes = at_least_eight bits_per_key (length (x ∷ keys)) in
      let exact : n % 2 ^ 32 ≡ n = omega arith in
      let f = set (replicate (bytes + 1) 0) bytes (k % 256) in
      let g = add_keys k n (x ∷ keys) f in
      let (valid, grows, covers) =
        add_keys_lem bytes k n (omega arith) (omega arith) k (x ∷ keys) f
          (start-IsFilter bytes k (omega arith)) in
      ap (λ m. may_contain (add_keys k m (x ∷ keys) f) key) exact
      ∙ may_contain_of_filter bytes k g key enough (omega arith) valid (covers i key e)
