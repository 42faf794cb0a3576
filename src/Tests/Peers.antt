-- ===== src/Tests/Peers.antt =====
-- A node whose queries progress, and that meets peers.
use homestar.Prelude.{◌+◌, ◌≤◌, ◌≡◌, refl, Bool, true, String, some, none, List, [], ◌∷◌, length}
use homestar.Sample.Network.{foreign, wire, swarm, net, same_cid, same_number}
use homestar.Runtime.Resources as Index
use homestar.Runtime.Handler.{discover, Event}
use homestar.Runtime.Handler.Calls.{rendezvous_namespace}
use homestar.Runtime.Handler.Kademlia.{
  QueryResult, put_record_result, get_record_error, found_record,
}
use homestar.Runtime.Handler.Answered.{progress, waiting, progress-IsAnsweredOnce}
use homestar.Runtime.Handler.Peers.{Registration, discovered}
use homestar.Runtime.Handler.Dials.{Dialed, IsNew, discovered-Dialed}
use homestar.Runtime.Handler.Renewed.{Renews, discovered-Renews, discovery_name}
use homestar.Runtime.Handler.Swarming.{
  Incoming, runtime_event, swarm_event, start, connection_established, connection_closed,
}
use homestar.Runtime.Handler.Connected.{holds, start-linked}
use homestar.Tests.Network.{node}

abbrev results : List (QueryResult net)
results = get_record_error ∷ found_record [] none [] ∷ put_record_result ∷ []

progress-IsAnsweredOnce_example :
    length (progress (foreign []) same_cid (wire []) swarm 7 results node).sent
    ≤ length node.sent + waiting (Index.get same_number 7 node.query_senders)
progress-IsAnsweredOnce_example =
    progress-IsAnsweredOnce (foreign []) same_cid (wire []) swarm 7 results node

abbrev registrations : List (Registration net)
registrations =
    record { peer_id = "peer"; addresses = [] }
    ∷ record { peer_id = "other"; addresses = "there" ∷ [] }
    ∷ record { peer_id = "local"; addresses = [] }
    ∷ record { peer_id = "third"; addresses = [] }
    ∷ []

discovered-Dialed_example :
    Dialed swarm
      (IsNew swarm "node" registrations "homestar" node)
      1
      node
      (discovered swarm "node" registrations "homestar" node)
discovered-Dialed_example = discovered-Dialed swarm "node" registrations "homestar" node

discovered-Renews_example :
    Renews
      (foreign [])
      same_cid
      (wire [])
      swarm
      "node"
      (discovered swarm "node" registrations "homestar" node)
      (discovery_name swarm "node")
      (Event.discover_peers "node")
      (discover rendezvous_namespace (some "homestar") "node")
discovered-Renews_example =
    discovered-Renews (foreign []) same_cid (wire []) swarm "node" registrations "homestar" node
      refl refl refl

abbrev inputs : List (Incoming Bool String net)
inputs =
    swarm_event (connection_established "other" "there")
    ∷ runtime_event (Event.discover_peers "node")
    ∷ swarm_event (connection_closed "peer")
    ∷ []

start-linked_example :
    holds
      (foreign [])
      same_cid
      (wire [])
      swarm
      "homestar/0.2.0"
      "/ipfs/kad/1.0.0"
      "other"
      (start (foreign []) same_cid (wire []) swarm "homestar/0.2.0" "/ipfs/kad/1.0.0" inputs node)
    ≡ true
start-linked_example =
    start-linked (foreign []) same_cid (wire []) swarm "homestar/0.2.0" "/ipfs/kad/1.0.0" "other"
      inputs node
