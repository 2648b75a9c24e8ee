-- ===== src/Memstore/Web.antt =====
-- examples/memstore/src/web_server_api.rs: the web server of the example. The routes and the printing
-- are foreign code.
pub mod PutGet
mod Examples
use riteraft_ng.Prelude.{ℕ, String, Option, none, some}
use riteraft_ng.Outcome.{Outcome, ok, panic, unwrap, unwrap_ok, ◌>>=◌ as bind}
use riteraft_ng.Proto.{Codec}
use riteraft_ng.Peers.{Peers}
use riteraft_ng.Node.Messages.{LocalRequestMsg}
use riteraft_ng.Node.State.{StableStorage}
use riteraft_ng.Client
use riteraft_ng.Client.{Awaited}
use riteraft_ng.Client.Reads.{Client}
use riteraft_ng.Memstore
use riteraft_ng.Memstore.{HashStore, LogEntry, insert}

pub data HttpResponse : Type 0 where
  success bad_request : (body : String) → HttpResponse

-- The table is the one that the node's state machine shares.
abbrev found : Option String → HttpResponse
found (some value) = success value
found none = bad_request "Bad Request: Item not found"

unfoldable pub get : HashStore → ℕ → HttpResponse
get db key = found (Memstore.get key db)

-- `…await.unwrap()`, and the text "OK".
abbrev done : Outcome (Unit {0}) → Outcome String
done r = bind (unwrap_ok r) (λ _. ok "OK")

-- A result is printed, an error too.
abbrev print_result : (Outcome Peers → String) → Outcome Peers → Outcome String
print_result print panic = panic
print_result print r = ok (print r)

module _ {S R : Type 0} (ask : LocalRequestMsg → Awaited HashStore S R) (tx : ℕ) where
  unfoldable pub put : Client → Codec LogEntry → ℕ → String → Outcome String
  put v log_entry key value = done (Client.propose ask tx v (log_entry.encode (insert key value)))

  unfoldable pub leader : (ℕ → String) → Outcome String
  leader print = bind (unwrap_ok (Client.get_leader_id ask tx)) (λ id. ok (print id))

  unfoldable pub leave : Outcome String
  leave = done (Client.leave ask tx)

  -- `print` reads the JSON back and prints it, if it is some.
  unfoldable pub debug : (String → Option String) → Outcome String
  debug print = bind (unwrap_ok (Client.inspect ask tx)) (λ json. unwrap (print json))

  unfoldable pub peers : (Outcome Peers → String) → Outcome String
  peers print = print_result print (Client.get_peers ask tx)

  -- Without the feature `inmemory_storage`. The node is asked three times.
  unfoldable pub snapshot : StableStorage S → ℕ → ℕ → Outcome String
  snapshot storage tx2 tx3 = bind (unwrap_ok (Client.storage ask tx)) λ s1.
      bind (unwrap_ok (storage.last_index s1)) λ last_index.
        bind (unwrap_ok (Client.storage ask tx2)) λ s2.
          bind (unwrap_ok (storage.hard_state s2))
            λ hard_state. done (Client.make_snapshot ask tx3 last_index hard_state.term)

  unfoldable pub leave_joint : Outcome String
  leave_joint = bind (Client.leave_joint ask tx) (λ _. ok "OK")

  unfoldable pub transfer_leader : ℕ → Outcome String
  transfer_leader node_id = done (Client.transfer_leader ask tx node_id)

  unfoldable pub campaign : Outcome String
  campaign = done (Client.campaign ask tx)

  unfoldable pub demote : ℕ → ℕ → Outcome String
  demote term leader_id = done (Client.demote ask tx term leader_id)
