-- ===== src/Sstable/Bloom/Bits.antt =====
-- Single bits of a byte string: what `set_bit` does to `has_bit`.
use Prim.Native.Nat.{bit_and, bit_or}
use flash_store.Prelude.{
  ℕ, zero, suc, ◌/◌, ◌%◌, ◌^◌, ◌<◌, ◌≡◌, refl, ap, sym, ◌∙◌, ==-refl, ltb→lt, Bool, true, false,
  ◌&&◌, ◌||◌, not, [], ◌∷◌, length, set, ltb, ◌==◌, if◌then◌else◌, arith, All, ==_iff, Bool-cases,
  inl, inr,
}
use flash_store.Bytes.{Bytes}
use flash_store.Sstable.Bloom.{byte_at, set_bit, has_bit}

-- A test of every number under a bound.
every : (ℕ → Bool) → ℕ → Bool
every test zero = true
every test (suc bound) = if test bound then every test bound else false

every-at : (test : ℕ → Bool) (bound i : ℕ) → i < bound → every test bound ≡ true → test i ≡ true
unfolding every
every-at test zero i under holds = absurd (omega arith)
every-at test (suc bound) i under holds = ground (arith, every-at test bound i)

-- Bit `j` of a byte, read as the code reads it.
abbrev bit : ℕ → ℕ → Bool
bit b j = if bit_and b (2 ^ j) == 0 then false else true

-- Setting bit `i` sets it, keeps every bit that was set, and gives a byte.
abbrev keeps : ℕ → ℕ → ℕ → Bool
keeps b i j =
    bit (bit_or b (2 ^ i)) i
    && (not (bit b j) || bit (bit_or b (2 ^ i)) j)
    && ltb (bit_or b (2 ^ i)) 256

table : every (λ b. every (λ i. every (λ j. keeps b i j) 8) 8) 256 ≡ true
unfolding every
table = refl

keeps_lem : (b i j : ℕ) → b < 256 → i < 8 → j < 8 → keeps b i j ≡ true
keeps_lem b i j hb hi hj =
    every-at (λ n. keeps b i n) 8 j hj
      (every-at (λ m. every (λ n. keeps b m n) 8) 8 i hi
        (every-at (λ c. every (λ m. every (λ n. keeps c m n) 8) 8) 256 b hb table))

abbrev pub IsBytes : Bytes → Type 0
IsBytes = All (λ b. b < 256)

byte_at-lt : (f : Bytes) (i : ℕ) → IsBytes f → byte_at f i < 256
byte_at-lt [] i h = omega arith
byte_at-lt (b ∷ f) zero h = h.0
byte_at-lt (b ∷ f) (suc i) h = byte_at-lt f i h.1

pub byte_at-set :
    (f : Bytes) (i v j : ℕ)
    → i < length f
    → byte_at (set f i v) j ≡ (if i == j then v else byte_at f j)
byte_at-set [] i v j h = absurd (omega arith)
byte_at-set (b ∷ f) zero v zero h = refl
byte_at-set (b ∷ f) zero v (suc j) h = ground arith
byte_at-set (b ∷ f) (suc i) v zero h = ground arith
byte_at-set (b ∷ f) (suc i) v (suc j) h = ground (arith, byte_at-set f i v j)

pub length-set : (f : Bytes) (i v : ℕ) → length (set f i v) ≡ length f
length-set [] i v = refl
length-set (b ∷ f) zero v = refl
length-set (b ∷ f) (suc i) v = ap suc (length-set f i v)

pub set-IsBytes : (f : Bytes) (i v : ℕ) → v < 256 → IsBytes f → IsBytes (set f i v)
set-IsBytes [] i v lt h = tt
set-IsBytes (b ∷ f) zero v lt h = (lt, h.1)
set-IsBytes (b ∷ f) (suc i) v lt h = (h.0, set-IsBytes f i v lt h.1)

split_keeps :
    (x y z w : Bool)
    → (x && (not y || z) && w) ≡ true
    → (x ≡ true) × (y ≡ true → z ≡ true) × (w ≡ true)
split_keeps x y z w h = ground arith

-- A byte of the filter after one bit of it is set.
byte_facts :
    (b i j : ℕ)
    → b < 256
    → i < 8
    → j < 8
    → (bit (bit_or b (2 ^ i)) i ≡ true)
      × (bit b j ≡ true → bit (bit_or b (2 ^ i)) j ≡ true)
      × (bit_or b (2 ^ i) < 256)
byte_facts b i j hb hi hj =
    let (own, others, range) =
      split_keeps (bit (bit_or b (2 ^ i)) i) (bit b j) (bit (bit_or b (2 ^ i)) j)
        (ltb (bit_or b (2 ^ i)) 256) (keeps_lem b i j hb hi hj) in
    (own, others, ltb→lt (bit_or b (2 ^ i)) 256 range)

pub set_bit-IsBytes : (f : Bytes) (pos : ℕ) → IsBytes f → IsBytes (set_bit f pos)
unfolding set_bit
set_bit-IsBytes f pos h =
    set-IsBytes f (pos / 8) _
      (byte_facts (byte_at f (pos / 8)) (pos % 8) 0 (byte_at-lt f (pos / 8) h) (omega arith)
        (omega arith)).2
      h

-- The bit that is set is set, and no bit is lost.
pub has_bit-set_bit :
    (f : Bytes) (pos q : ℕ)
    → IsBytes f
    → pos / 8 < length f
    → (has_bit (set_bit f pos) pos ≡ true) × (has_bit f q ≡ true → has_bit (set_bit f pos) q ≡ true)
unfolding set_bit has_bit
has_bit-set_bit f pos q h lt =
    let i = pos / 8 in
    let b = byte_at f i in
    let v = bit_or b (2 ^ (pos % 8)) in
    let facts = byte_facts b (pos % 8) (q % 8) (byte_at-lt f i h) (omega arith) (omega arith) in
    let self : byte_at (set f i v) i ≡ v = byte_at-set f i v i lt ∙ (rw (==-refl i)) in
    (
      ap (λ x. bit x (pos % 8)) self ∙ facts.0,
      λ e. elim (Bool-cases (i == q / 8)) [
        | inl same ↦
            let p : i ≡ q / 8 = (==_iff i (q / 8)).0 same in
            ap (λ j. bit (byte_at (set f i v) j) (q % 8)) (sym p)
            ∙ ap (λ x. bit x (q % 8)) self
            ∙ facts.1 (ap (λ j. bit (byte_at f j) (q % 8)) p ∙ e)
        | inr other ↦ ap (λ x. bit x (q % 8)) (byte_at-set f i v (q / 8) lt ∙ (rw other)) ∙ e
      ],
    )
