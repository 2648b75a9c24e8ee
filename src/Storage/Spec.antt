-- ===== src/Storage/Spec.antt =====
-- raftify/src/storage/mod.rs: what the trait `Storage` promises of reads, on the log that a store
-- holds. Both stores are proved to read by it.
use riteraft_ng.Prelude.{ℕ, ◌&&◌, Option, none, some, List, ltb, leb, ◌==◌, if◌then◌else◌, filter}
use riteraft_ng.Outcome.{Error, Outcome, ok, err, raft_error, store, compacted, unavailable}
use riteraft_ng.Proto.{Entry, Snapshot}
use riteraft_ng.Storage.View.{entry_at}

abbrev pub compacted_error : Error
compacted_error = raft_error (store compacted)

abbrev pub unavailable_error : Error
unavailable_error = raft_error (store unavailable)

-- The entries of `[low, high)`.
abbrev pub slice : ℕ → ℕ → List Entry → List Entry
slice low high = filter (λ e. leb low e.index && ltb e.index high)

-- Below the first index the log is compacted.
abbrev pub read_entries : ℕ → ℕ → ℕ → List Entry → Outcome (List Entry)
read_entries first low high es =
    if ltb low first then err compacted_error else ok (slice low high es)

abbrev pub term_or : ℕ → ℕ → Option Entry → Outcome ℕ
term_or first index (some e) = ok e.term
term_or first index none = if ltb index first then err compacted_error else err unavailable_error

-- The snapshot answers for its own index, and the log for its entries.
abbrev pub read_term : ℕ → ℕ → Snapshot → List Entry → Outcome ℕ
read_term first index x es =
    if x.metadata.index == index
    then ok x.metadata.term
    else term_or first index (entry_at index es)
