-- ===== src/Storage/Heed/CompactedLogs.antt =====
-- raftify/src/storage/utils.rs and `save_compacted_entries` of
-- raftify/src/storage/heed_storage/mod.rs: the file `compacted_logs.json`.
use riteraft_ng.Prelude.{ℕ, ◌≡◌, refl, Bool, true, List, [], ◌∷◌, ◌++◌, arith, ltb, if◌then◌else◌}
use riteraft_ng.Outcome.{Outcome, ok, err, io}
use riteraft_ng.Exec.{Exec, asks, pure, ◌>>=◌, ◌>>◌}
use riteraft_ng.Proto.{Entry}

-- What is at the path: nothing; a file with the batches of entries that compactions saved, where an
-- empty file counts as one with no batches; or a file that is not a printed array, such as a write
-- that failed may leave.
pub data File : Type 0 where
  missing : File
  logs : (batches : List (List Entry)) → File
  unreadable : File

-- The answers of `fs::metadata`.
pub data Metadata : Type 0 where
  size : (n : ℕ) → Metadata
  not_found failed : Metadata

-- The file system. `read` is the opening and the reading of the text; `write_logs` formats and
-- prints the array and replaces the contents by it, and says what is there afterwards.
pub record Files : Type 0 where
  pub metadata : File → Metadata
  pub remove_file : File → Bool
  pub create : Bool
  pub read : File → Bool
  pub write_logs : List (List Entry) → Exec File Unit

module _ (files : Files) where
  unfoldable pub create_missing : Exec File Unit
  create_missing missing = if files.create then (ok tt, logs []) else (err io, missing)
  create_missing (logs batches) = (ok tt, logs batches)
  create_missing unreadable = (ok tt, unreadable)

  abbrev pub parse_logs : File → Outcome (List (List Entry))
  parse_logs missing = err io
  parse_logs (logs batches) = ok batches
  parse_logs unreadable = err io

  unfoldable pub existing_data : File → Outcome (List (List Entry))
  existing_data file = if files.read file then parse_logs file else err io

  unfoldable pub append_compacted_logs : List Entry → Exec File Unit
  append_compacted_logs [] = pure tt
  append_compacted_logs (e ∷ es) = do
    create_missing
    batches ← asks existing_data
    files.write_logs (batches ++ (e ∷ es) ∷ [])

  unfoldable pub remove_large : ℕ → Exec File Unit
  remove_large threshold file = elim (files.metadata file) [
    | size n ↦
        if ltb threshold n
        then (if files.remove_file file then (ok tt, missing) else (err io, file))
        else (ok tt, file)
    | not_found ↦ (ok tt, file)
    | failed ↦ (err io, file)
  ]

  unfoldable pub save_compacted_entries : ℕ → List Entry → Exec File Unit
  save_compacted_entries threshold es = do remove_large threshold; append_compacted_logs es

  -- A file system that does what it is asked, with the size of a printed array.
  pub record IsWorking (printed_size : List (List Entry) → ℕ) : Type 0 where
    pub metadata_missing : files.metadata missing ≡ not_found
    pub metadata_logs : (b : List (List Entry)) → files.metadata (logs b) ≡ size (printed_size b)
    pub remove_ok : (file : File) → files.remove_file file ≡ true
    pub create_ok : files.create ≡ true
    pub read_ok : (file : File) → files.read file ≡ true
    pub write_ok : (b : List (List Entry)) (file : File) → files.write_logs b file ≡ (ok tt, logs b)

abbrev pub IsReadable : File → Type 0
IsReadable missing = Unit {0}
IsReadable (logs batches) = Unit {0}
IsReadable unreadable = ⊥

-- The file with a batch more; no entries are no batch.
abbrev pub add_batch : File → List Entry → File
add_batch file [] = file
add_batch missing (e ∷ es) = logs ((e ∷ es) ∷ [])
add_batch (logs batches) (e ∷ es) = logs (batches ++ (e ∷ es) ∷ [])
add_batch unreadable (e ∷ es) = unreadable

-- A file over the threshold goes.
abbrev pub drop_large : (List (List Entry) → ℕ) → ℕ → File → File
drop_large printed_size threshold missing = missing
drop_large printed_size threshold (logs batches) =
    if ltb threshold (printed_size batches) then missing else logs batches
drop_large printed_size threshold unreadable = unreadable

module _ (files : Files) {printed_size : List (List Entry) → ℕ}
    (w : IsWorking files printed_size) where
  append_compacted_logs-add_batch :
      (es : List Entry) (file : File)
      → IsReadable file
      → append_compacted_logs files es file ≡ (ok tt, add_batch file es)
  unfolding append_compacted_logs create_missing existing_data ◌>>=◌
  append_compacted_logs-add_batch [] file r = refl
  append_compacted_logs-add_batch (e ∷ es) missing r =
      rw (w.create_ok, w.read_ok (logs [])) (w.write_ok _ _)
  append_compacted_logs-add_batch (e ∷ es) (logs b) r = rw (w.read_ok (logs b)) (w.write_ok _ _)
  append_compacted_logs-add_batch (e ∷ es) unreadable r = absurd r

  remove_large-drop_large :
      (threshold : ℕ) (file : File)
      → IsReadable file
      → remove_large files threshold file ≡ (ok tt, drop_large printed_size threshold file)
  unfolding remove_large
  remove_large-drop_large threshold missing r = rw (w.metadata_missing, remove_large) refl
  remove_large-drop_large threshold (logs b) r =
      rw (w.metadata_logs b, w.remove_ok (logs b), remove_large) (ground arith)
  remove_large-drop_large threshold unreadable r = absurd r

  pub drop_large-IsReadable :
      (threshold : ℕ) (file : File)
      → IsReadable file
      → IsReadable (drop_large printed_size threshold file)
  drop_large-IsReadable threshold missing r = tt
  drop_large-IsReadable threshold (logs b) r = ground arith
  drop_large-IsReadable threshold unreadable r = absurd r

  pub add_batch-IsReadable :
      (es : List Entry) (file : File) → IsReadable file → IsReadable (add_batch file es)
  add_batch-IsReadable [] file r = r
  add_batch-IsReadable (e ∷ es) missing r = tt
  add_batch-IsReadable (e ∷ es) (logs b) r = tt
  add_batch-IsReadable (e ∷ es) unreadable r = absurd r

  -- On a file system that does what it is asked, a file over the threshold goes, and the entries
  -- are added to what is left as one batch.
  pub save_compacted_entries_lem :
      (threshold : ℕ) (es : List Entry) (file : File)
      → IsReadable file
      → save_compacted_entries files threshold es file
        ≡ (ok tt, add_batch (drop_large printed_size threshold file) es)
  unfolding save_compacted_entries ◌>>=◌
  save_compacted_entries_lem threshold es file r =
      rw (remove_large-drop_large threshold file r)
        (append_compacted_logs-add_batch es _ (drop_large-IsReadable threshold file r))
