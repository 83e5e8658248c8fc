-- ===== src/Engine/Durable/Fresh.antt =====
-- Runs of the engine of src/engine.rs that begin with `open` of a new directory.
use flash_store.Prelude.{
  ℕ, zero, suc, ◌<◌, ◌≡◌, refl, ap, ◌∙◌, true, false, not, if◌then◌else◌, List, [], Option, none,
  replicate, arith, subst, sym, In,
}
use flash_store.Config.{Options}
use flash_store.Error.{ok, err, invalid_argument}
use flash_store.External.{Buf, Crc32, Bincode}
use flash_store.Manifest.{VersionEdit, FileMetaData, read_all_edits}
use flash_store.Tables.{Tables}
use flash_store.Types.{Key}
use flash_store.Wal.{read_all, read_loop, open_writer}
use flash_store.Wal.Record.{WalRecord}
use flash_store.Engine.{Engine, get}
use flash_store.Engine.Flush.{get-parts, found, new-get}
use flash_store.Engine.Opening.{Directory, recovered, open_engine, recovered-IsValid, replay}
use flash_store.Engine.Search.{or_else, search_files, search_levels, search_version, in_range}
use flash_store.Engine.Durable.{Persisted}
use flash_store.Engine.Layers.{NewestLast, held}
use flash_store.Engine.Layers.Steps.{InOrder}
use flash_store.Manifest.Levels.{files_at}
use flash_store.Engine.Durable.Commands.{Command, updates, run, RunFits}
use flash_store.Engine.Durable.Run.{run-get}

-- A directory that does not exist.
abbrev pub new_directory : {Table : Type 0} → Directory Table
new_directory = record { exists = false; manifest = none; wal = none; files = λ n. none }

no_files : (n j : ℕ) (g : FileMetaData) → In g (files_at j (replicate n [])) → ⊥
no_files zero j g i = elim i [ ]
no_files (suc n) zero g i = elim i [ ]
no_files (suc n) (suc j) g i = no_files n j g i

no_first_files : (n : ℕ) → files_at 0 (replicate n []) ≡ []
no_first_files zero = refl
no_first_files (suc n) = refl

module _ {Table : Type 0} ⦃tables : Tables Table⦄ where
  search_levels-empty :
      (files : ℕ → Option Table) (k : Key) (n : ℕ)
      → search_levels files k (replicate n []) ≡ ok none
  unfolding search_levels search_files or_else in_range
  search_levels-empty files k zero = refl
  search_levels-empty files k (suc n) = search_levels-empty files k n

  search_version-empty :
      (files : ℕ → Option Table) (k : Key) (n : ℕ)
      → search_version files k (replicate n []) ≡ ok none
  unfolding search_version search_files or_else
  search_version-empty files k zero = refl
  search_version-empty files k (suc n) = search_levels-empty files k n

module _ (Table : Type 0) ⦃tables : Tables Table⦄ ⦃buf : Buf⦄ ⦃crc : Crc32⦄
    ⦃wal_codec : Bincode WalRecord⦄ ⦃edit_codec : Bincode VersionEdit⦄ where
  abbrev pub fresh : Options → Engine Table
  fresh options = recovered Table options new_directory

  pub fresh-Persisted : (options : Options) → Persisted (fresh options)
  unfolding recovered open_writer replay read_all read_loop read_all_edits
  fresh-Persisted options = record {
    edits = [];
    manifest = record {
      content = refl;
      durable = refl;
      at_end = refl;
      fit = tt;
      numbers = tt;
      max_levels = refl;
      levels = refl;
      last = omega arith;
    };
    records = [];
    log = record {
      holds = record { content = refl; at_end = refl; synced = λ _. refl; fit = tt };
      sync = refl;
      memtable = refl;
      bounded = tt;
    };
  }

  pub fresh-get : (options : Options) (k : Key) → get (fresh options) k ≡ ok none
  unfolding recovered replay read_all read_loop read_all_edits or_else
  fresh-get options k =
      get-parts (fresh options) k refl
      ∙ ap
          (λ m. found (
            or_else (ok m)
              (search_version {Table = Table} (λ n. none) k (replicate options.max_levels []))))
          (new-get 0 k)
      ∙ ap found (search_version-empty (λ n. none) k options.max_levels)

  -- A new directory has no tables.
  pub fresh-InOrder : (options : Options) → InOrder (fresh options)
  unfolding recovered replay read_all read_loop read_all_edits
  fresh-InOrder options =
      let empty = no_files options.max_levels in
      record {
        layered = record {
          order = record {
            newest_last =
                subst (NewestLast (held {Table = Table} (λ n. none)))
                  (sym (no_first_files options.max_levels)) tt;
            across = λ i j f g lt m. absurd (empty i f m);
            apart = λ i lt f g k a b m. absurd (empty i f m);
            numbered = λ i j f g m. absurd (empty i f m);
          };
          stored = λ j g i. absurd (empty j g i);
          handed_out = λ k e (j, (g, (i, h))). absurd (empty j g i);
          memtable_newer = λ k a e m (j, (g, (i, h))). absurd (empty j g i);
        };
        recorded = λ k e (j, (g, (i, h))). absurd (empty j g i);
      }

  -- With options that make missing directories and ask for a level, `open` of a new directory
  -- succeeds; and any run of puts, deletes, batches, flushes, compactions, restarts and losses of
  -- power succeeds, if its records, edits and tables fit their formats, no sequence or file
  -- number reaches 2^64, and the log is synced at a loss of power. After it every read succeeds
  -- with the last value written to its key, and with nothing if there is none or if the key was
  -- deleted since.
  pub open_new-run :
      (options : Options) (cs : List Command)
      → options.create_if_missing ≡ true
      → 0 < options.max_levels
      → RunFits (fresh options) cs
      → (open_engine Table options new_directory ≡ ok (fresh options))
        × ((t : Engine Table) × ((run (fresh options) cs ≡ ok t)
              × ((j : Key) → get t j ≡ ok (updates (λ _. none) cs j))))
  unfolding open_engine read_all_edits
  open_new-run options cs create p fit =
      let (t, (runs, _, _, _, reads)) =
        run-get (fresh options) (λ _. none) cs (recovered-IsValid Table options new_directory p tt)
          (fresh-Persisted options) (fresh-InOrder options) (fresh-get options) fit in
      (
        ap (λ b. if not b then err invalid_argument else ok (fresh options)) create,
        (t, (runs, reads)),
      )
