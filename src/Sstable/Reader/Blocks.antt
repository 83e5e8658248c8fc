-- ===== src/Sstable/Reader/Blocks.antt =====
-- Each block of a built table is read back from its place.
use flash_store.Prelude.{
  ℕ, zero, suc, ◌+◌, ◌-◌, ◌%◌, ◌^◌, ◌<◌, ◌≤◌, ◌≡◌, refl, ap, sym, ◌∙◌, List, [], ◌∷◌, ◌++◌, some,
  length, get_elem?, arith, append_assoc, length-append,
}
use mathlib.Core.Option.{some-injective}
use flash_store.Bytes.{Bytes}
use flash_store.Error.{ok}
use flash_store.External.{Buf, Bincode}
use flash_store.Sstable.Block
use flash_store.Sstable.Block.{Block, get_entry}
use flash_store.Sstable.Builder.Layout.{encode_blocks, starts}
use flash_store.Sstable.Reader.{read_exact_at, read_span, end_or, block_bytes, TableReader}
use flash_store.Sstable.Reader.Opening.{read_exact_middle}
use flash_store.Types.{Entry}

module _ ⦃buf : Buf⦄ ⦃codec : Bincode Entry⦄ where
  -- The place where block `j` ends, from the list of starts.
  next_start : ℕ → List (List Entry) → ℕ → ℕ
  next_start n bs j = end_or (get_elem? (starts n bs) (suc j)) (n + length (encode_blocks bs))

  -- Where block `j` lies, if the first block begins at `n`.
  record Lies (n : ℕ) (bs : List (List Entry)) (j : ℕ) (b : List Entry) : Type 0 where
    before : Bytes
    after : Bytes
    split : encode_blocks bs ≡ before ++ (Block.encode b ++ after)
    start : get_elem? (starts n bs) j ≡ some (n + length before)
    finish : next_start n bs j ≡ n + length before + length (Block.encode b)

  starts-Lies :
      (n : ℕ) (bs : List (List Entry)) (j : ℕ) (b : List Entry)
      → n + length (encode_blocks bs) < 2 ^ 64
      → get_elem? bs j ≡ some b
      → Lies n bs j b
  unfolding next_start
  starts-Lies n [] j b h e = cc
  starts-Lies n (c ∷ []) zero b h e = rw (← some-injective c b e) (record {
    before = [];
    after = [];
    split = refl;
    start = ap some (omega arith);
    finish = omega (arith, length-append (Block.encode c) []);
  })
  starts-Lies n (c ∷ c' ∷ bs) zero b h e = rw (← some-injective c b e) (record {
    before = [];
    after = encode_blocks (c' ∷ bs);
    split = refl;
    start = ap some (omega (arith, length-append (Block.encode c) (encode_blocks (c' ∷ bs))));
    finish = omega (arith, length-append (Block.encode c) (encode_blocks (c' ∷ bs)));
  })
  starts-Lies n (c ∷ bs) (suc j) b h e =
      let m = n + length (Block.encode c) in
      let total : length (encode_blocks (c ∷ bs))
          ≡ length (Block.encode c) + length (encode_blocks bs) =
        length-append (Block.encode c) (encode_blocks bs) in
      let l = starts-Lies m bs j b (omega arith) e in
      record {
        before = Block.encode c ++ l.before;
        after = l.after;
        split =
            ap (λ d. Block.encode c ++ d) l.split
            ∙ sym (append_assoc (Block.encode c) l.before (Block.encode b ++ l.after));
        start = l.start ∙ ap some (omega (arith, length-append (Block.encode c) l.before));
        finish =
            ap (end_or (get_elem? (starts m bs) (suc j))) (omega arith)
            ∙ l.finish
            ∙ omega (arith, length-append (Block.encode c) l.before);
      }

  -- The bytes of block `j` in the file of a built table.
  pub block_bytes-encode :
      (r : TableReader) (bs : List (List Entry)) (behind : Bytes) (j : ℕ) (b : List Entry)
      → r.file ≡ encode_blocks bs ++ behind
      → r.block_offsets ≡ starts 0 bs
      → r.footer.meta_index_offset ≡ length (encode_blocks bs)
      → length (encode_blocks bs) < 2 ^ 64
      → get_elem? bs j ≡ some b
      → block_bytes r j ≡ ok (Block.encode b)
  unfolding block_bytes next_start
  block_bytes-encode r bs behind j b file offsets meta small e =
      let l = starts-Lies 0 bs j b (omega arith) e in
      let next : j + 1 ≡ suc j = omega arith in
      let placed : r.file ≡ l.before ++ (Block.encode b ++ (l.after ++ behind)) =
        file
        ∙ ap (λ d. d ++ behind) l.split
        ∙ append_assoc l.before (Block.encode b ++ l.after) behind
        ∙ ap (λ d. l.before ++ d) (append_assoc (Block.encode b) l.after behind) in
      let end : end_or (get_elem? (starts 0 bs) (suc j)) (length (encode_blocks bs))
          ≡ length l.before + length (Block.encode b) =
        ap (end_or (get_elem? (starts 0 bs) (suc j))) (omega arith) ∙ l.finish ∙ omega arith in
      let size : length l.before + length (Block.encode b) ≤ length (encode_blocks bs) = omega (
        arith,
        ap length l.split,
        length-append l.before (Block.encode b ++ l.after),
        length-append (Block.encode b) l.after,
      ) in
      let width =
        (length l.before + length (Block.encode b) + 2 ^ 64 - (0 + length l.before)) % 2 ^ 64 in
      rw (file, offsets, meta, next, end)
        (ap
            (λ o.
              read_span (encode_blocks bs ++ behind) o (length l.before + length (Block.encode b)))
            l.start
          ∙ ap (λ d. read_exact_at d (0 + length l.before) width) (sym file ∙ placed)
          ∙ read_exact_middle l.before (Block.encode b) (l.after ++ behind) (0 + length l.before)
              width (omega arith) (omega arith))
