-- ===== src/Tests/Codecs.antt =====
-- A plain encoding of the stored records, as an instance of `bincode` for the examples: numbers
-- stand for themselves, and lists follow their lengths.
use flash_store.Prelude.{
  ℕ, zero, suc, ◌≡◌, refl, ap, ◌∙◌, Bool, true, false, List, [], ◌∷◌, ◌++◌, Option, none, some,
  length, append-nil, append_assoc,
}
use flash_store.Bytes.{Bytes}
use flash_store.External.{Bincode}
use flash_store.Manifest.{FileMetaData, VersionEdit}
use flash_store.Sstable.Builder.{Index}
use flash_store.Types.{Entry, ValueType, value, tombstone}
use flash_store.Wal.Record.{WalRecord}

pub record Codec (A : Type 0) : Type 0 where
  pub enc : A → Bytes
  pub dec : Bytes → Option (A × Bytes)
  pub dec-enc : (a : A) (rest : Bytes) → dec (enc a ++ rest) ≡ some (a, rest)

abbrev dec_nat : Bytes → Option (ℕ × Bytes)
dec_nat [] = none
dec_nat (n ∷ b) = some (n, b)

abbrev pub nat : Codec ℕ
nat = record { enc = λ n. n ∷ []; dec = dec_nat; dec-enc = λ n rest. refl }

module _ {A B : Type 0} where
  abbrev pub via : (f : A → B) (g : B → A) → ((b : B) → f (g b) ≡ b) → Codec A → Codec B
  via f g h c = record {
    enc = λ b. c.enc (g b);
    dec = λ bs. elim (c.dec bs) [ none ↦ none | some (a, rest) ↦ some (f a, rest) ];
    dec-enc = λ b rest. rw (c.dec-enc (g b) rest) (ap (λ x. some (x, rest)) (h b));
  }

  abbrev with : A → Option (B × Bytes) → Option ((A × B) × Bytes)
  with a none = none
  with a (some (b, rest)) = some ((a, b), rest)

  abbrev and_then : Codec B → Option (A × Bytes) → Option ((A × B) × Bytes)
  and_then d none = none
  and_then d (some (a, r)) = with a (d.dec r)

  abbrev pub pair : Codec A → Codec B → Codec (A × B)
  pair c d = record {
    enc = λ p. c.enc p.0 ++ d.enc p.1;
    dec = λ bs. and_then d (c.dec bs);
    dec-enc = λ p rest.
        rw (append_assoc (c.enc p.0) (d.enc p.1) rest) (
          ap (and_then d) (c.dec-enc p.0 (d.enc p.1 ++ rest)) ∙ ap (with p.0) (d.dec-enc p.1 rest));
  }

module _ {A : Type 0} where
  abbrev dec_option : Codec A → Bytes → Option (Option A × Bytes)
  dec_option c [] = none
  dec_option c (zero ∷ b) = some (none, b)
  dec_option c (suc n ∷ b) = elim (c.dec b) [ none ↦ none | some (a, rest) ↦ some (some a, rest) ]

  abbrev enc_option : Codec A → Option A → Bytes
  enc_option c none = 0 ∷ []
  enc_option c (some a) = 1 ∷ c.enc a

  pub dec_option-enc :
      (c : Codec A) (o : Option A) (rest : Bytes)
      → dec_option c (enc_option c o ++ rest) ≡ some (o, rest)
  dec_option-enc c none rest = refl
  dec_option-enc c (some a) rest = rw (c.dec-enc a rest) refl

  abbrev pub option : Codec A → Codec (Option A)
  option c = record { enc = enc_option c; dec = dec_option c; dec-enc = dec_option-enc c }

  abbrev enc_all : Codec A → List A → Bytes
  enc_all c [] = []
  enc_all c (a ∷ as') = c.enc a ++ enc_all c as'

  abbrev dec_all : Codec A → ℕ → Bytes → Option (List A × Bytes)
  dec_all c zero b = some ([], b)
  dec_all c (suc n) b = elim (c.dec b) [
    | none ↦ none
    | some (a, r) ↦ elim (dec_all c n r) [ none ↦ none | some (rest, r') ↦ some (a ∷ rest, r') ]
  ]

  pub dec_all-enc :
      (c : Codec A) (xs : List A) (rest : Bytes)
      → dec_all c (length xs) (enc_all c xs ++ rest) ≡ some (xs, rest)
  dec_all-enc c [] rest = refl
  dec_all-enc c (x ∷ xs) rest =
      rw (append_assoc (c.enc x) (enc_all c xs) rest)
        (rw (c.dec-enc x (enc_all c xs ++ rest)) (rw (dec_all-enc c xs rest) refl))

  abbrev dec_list : Codec A → Bytes → Option (List A × Bytes)
  dec_list c [] = none
  dec_list c (n ∷ b) = dec_all c n b

  abbrev pub list : Codec A → Codec (List A)
  list c = record {
    enc = λ xs. length xs ∷ enc_all c xs;
    dec = dec_list c;
    dec-enc = dec_all-enc c;
  }

  abbrev fst? : Option (A × Bytes) → Option A
  fst? none = none
  fst? (some (a, rest)) = some a

  abbrev pub bincode : Codec A → Bincode A
  bincode c = record {
    serialize = c.enc;
    deserialize = λ b. fst? (c.dec b);
    deserialize-serialize = λ a. ap fst? (rw append-nil at (c.dec-enc a []));
  }

abbrev to_bool : ℕ → Bool
to_bool zero = false
to_bool (suc n) = true

abbrev of_bool : Bool → ℕ
of_bool false = 0
of_bool true = 1

pub to_bool-of_bool : (b : Bool) → to_bool (of_bool b) ≡ b
to_bool-of_bool false = refl
to_bool-of_bool true = refl

abbrev bool : Codec Bool
bool = via to_bool of_bool to_bool-of_bool nat

abbrev to_type : Bool → ValueType
to_type false = tombstone
to_type true = value

abbrev of_type : ValueType → Bool
of_type tombstone = false
of_type value = true

pub to_type-of_type : (t : ValueType) → to_type (of_type t) ≡ t
to_type-of_type tombstone = refl
to_type-of_type value = refl

abbrev bytes : Codec Bytes
bytes = list nat

instance abbrev pub wal_codec : Bincode WalRecord
wal_codec = bincode (
    via (λ p. record { key = p.0; value = p.1.0; is_delete = p.1.1.0; seq_no = p.1.1.1 })
      (λ r. (r.key, (r.value, (r.is_delete, r.seq_no)))) (λ r. refl)
      (pair bytes (pair bytes (pair bool nat))))

instance abbrev pub entry_codec : Bincode Entry
entry_codec = bincode (
    via (λ p. record { key = p.0; value = p.1.0; value_type = p.1.1.0; seq_no = p.1.1.1 })
      (λ e. (e.key, (e.value, (e.value_type, e.seq_no)))) (λ e. refl)
      (pair bytes (pair bytes (pair (via to_type of_type to_type-of_type bool) nat))))

abbrev meta : Codec FileMetaData
meta =
    via
      (λ p. record {
        file_number = p.0;
        file_size = p.1.0;
        smallest_key = p.1.1.0;
        largest_key = p.1.1.1;
      })
      (λ f. (f.file_number, (f.file_size, (f.smallest_key, f.largest_key)))) (λ f. refl)
      (pair nat (pair nat (pair bytes bytes)))

instance abbrev pub edit_codec : Bincode VersionEdit
edit_codec = bincode (
    via
      (λ p. record {
        next_file_number = p.0;
        last_sequence = p.1.0;
        new_files = p.1.1.0;
        deleted_files = p.1.1.1;
      })
      (λ e. (e.next_file_number, (e.last_sequence, (e.new_files, e.deleted_files)))) (λ e. refl)
      (pair (option nat) (pair (option nat) (pair (list (pair nat meta)) (list (pair nat nat))))))

instance abbrev pub index_codec : Bincode Index
index_codec = bincode (pair (list bytes) (list nat))
