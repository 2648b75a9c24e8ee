-- ===== src/Memstore/Web/Examples.antt =====
-- A PUT and a GET, at a concrete node.
use riteraft_ng.Prelude.{◌≡◌, refl, [], ◌∷◌}
use riteraft_ng.Outcome.{ok}
use riteraft_ng.Exec
use riteraft_ng.HashMap
use riteraft_ng.Proto.{Entry}
use riteraft_ng.Storage.Ordered.{Pairs}
use riteraft_ng.Storage.Heed.Core as Disk
use riteraft_ng.Node.Messages.{local}
use riteraft_ng.Node.State.{RaftNodeCore}
use riteraft_ng.Node.Commit.{handle_committed_normal_entry}
use riteraft_ng.Node.Requests
use riteraft_ng.Client.Answers.{received}
use riteraft_ng.Memstore.{HashStore, insert}
use riteraft_ng.Memstore.Web
use riteraft_ng.Memstore.Web.{success}
use riteraft_ng.Memstore.Web.PutGet.{get-put}
use riteraft_ng.Samples.Servers.{sample_client}
use riteraft_ng.Samples.Surroundings.{Raw, entry}
use riteraft_ng.Samples.Tables.{store_env, store_node}
use riteraft_ng.Samples.Texts.{hash_store_codec, log_entry_codec}

-- The PUT waits under the number 0.
abbrev waiting : RaftNodeCore HashStore (Disk.State Pairs) Raw
waiting = record store_node { response_seq = 1; response_senders = (0, local 7) ∷ [] }

abbrev committed : Entry
committed = record (entry 1 0) { data_ = log_entry_codec.encode (insert 1 "a") }

get-put_example :
    let after = handle_committed_normal_entry store_env committed waiting in
    (after.0 ≡ ok tt)
    × (Web.put (λ m. received 7 after.1) 7 sample_client log_entry_codec 1 "a" ≡ ok "OK")
    × (Web.get after.1.fsm 1 ≡ success "a")
unfolding HashMap.get HashMap.insert Requests.handle_propose_request Requests.keep_sender Exec.◌>>=◌
get-put_example =
    get-put log_entry_codec hash_store_codec store_env sample_client 1 "a" 7 store_node waiting
      (store_node.raw_node) committed refl refl refl refl refl refl refl refl refl
