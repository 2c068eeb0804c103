-- ===== src/Router/State.antt =====
-- PendingRequest and Router of src/network/router.hpp and router.cpp. The clock and the random bytes are
-- arguments. A callback whose answer is not used, or is only logged, is a flag that says if it is set;
-- the last four fields list its calls.
use cashew.Prelude.{
  ℕ, ◌+◌, ◌%◌, ◌^◌, Bool, false, Bytes, bytes_ordered, Option, none, some, List, [], ◌∷◌, ◌++◌, ltb,
  if◌then◌else◌,
}
use cashew.Prelude.Map.{Map, put}
use cashew.Crypto.{Crypto}
use cashew.Codec.{le_bytes}
use cashew.Keys.Key.{sub_64}
use cashew.Router.Table.{Floats, RoutingTable, empty_table, select_best_host}
use cashew.Router.Request.{ContentRequest, ContentResponse}
use cashew.Router.Onion.{no_node}

pub record PendingRequest : Type 0 where
  pub request_id : Bytes
  pub content_hash : Bytes
  pub original_requester : Bytes
  pub timestamp : ℕ
  pub retries : ℕ

pub record Router : Type 0 where
  pub local_node_id : Bytes
  pub routing_table : RoutingTable
  pub pending_requests : Map Bytes PendingRequest
  pub local_content : List Bytes
  pub requests_sent : ℕ
  pub requests_received : ℕ
  pub responses_sent : ℕ
  pub responses_received : ℕ
  pub forwards : ℕ
  pub next_request_counter : ℕ
  pub has_received_callback : Bool
  pub has_not_found_callback : Bool
  pub local_content_fetch_callback : Option (Bytes → Option Bytes)
  pub response_sign_callback : Option (ContentResponse → Bytes)
  pub response_verify_callback : Option (ContentResponse → Bool)
  pub has_request_callback : Bool
  pub has_response_callback : Bool
  pub received : List (Bytes × Bytes)
  pub not_found : List Bytes
  pub requests : List (Bytes × ContentRequest)
  pub responses : List (Bytes × ContentResponse)

unfoldable pub init : Bytes → Router
init local_node_id = record {
  local_node_id = local_node_id;
  routing_table = empty_table;
  pending_requests = [];
  local_content = [];
  requests_sent = 0;
  requests_received = 0;
  responses_sent = 0;
  responses_received = 0;
  forwards = 0;
  next_request_counter = 1;
  has_received_callback = false;
  has_not_found_callback = false;
  local_content_fetch_callback = none;
  response_sign_callback = none;
  response_verify_callback = none;
  has_request_callback = false;
  has_response_callback = false;
  received = [];
  not_found = [];
  requests = [];
  responses = [];
}

-- TIMEOUT_SECONDS
abbrev pub timeout_seconds : ℕ
timeout_seconds = 30

unfoldable pub has_timed_out : ℕ → PendingRequest → Bool
has_timed_out now p = ltb timeout_seconds (sub_64 now p.timestamp)

-- a uint64_t counter
abbrev pub next : ℕ → ℕ
next n = (n + 1) % 2 ^ 64

-- the id, and the counter that it used up
unfoldable pub generate_request_id : Crypto → Bytes → Router → Bytes × Router
generate_request_id crypto random_bytes r = (
  crypto.hash (r.local_node_id ++ (le_bytes 8 r.next_request_counter ++ random_bytes)),
  record r { next_request_counter = next r.next_request_counter },
)

unfoldable pub select_next_hop : Floats → ℕ → Bytes → Router → Bytes
select_next_hop fl now content r = elim (select_best_host fl now content r.routing_table) [
  | none ↦ no_node
  | some host ↦ host
]

unfoldable pub send_request_to_peer : Bytes → ContentRequest → Router → Router
send_request_to_peer peer q r =
    if r.has_request_callback then record r { requests = r.requests ++ (peer, q) ∷ [] } else r

unfoldable pub send_response_to_peer : Bytes → ContentResponse → Router → Router
send_response_to_peer peer s r =
    if r.has_response_callback then record r { responses = r.responses ++ (peer, s) ∷ [] } else r

unfoldable pub notify_not_found : Bytes → Router → Router
notify_not_found content r =
    if r.has_not_found_callback then record r { not_found = r.not_found ++ content ∷ [] } else r

-- `pending_requests_[request.request_id] = pending;`
unfoldable pub track : ContentRequest → Router → Router
track q r = record r {
  pending_requests =
      put q.request_id
        (record {
          request_id = q.request_id;
          content_hash = q.content_hash;
          original_requester = r.local_node_id;
          timestamp = q.timestamp;
          retries = 0;
        })
        r.pending_requests;
}
