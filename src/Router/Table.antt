-- ===== src/Router/Table.antt =====
-- RoutingEntry and RoutingTable of src/network/router.hpp and router.cpp. The clock is an argument. A
-- float is its 32-bit IEEE pattern; the operations on floats are a parameter.
pub mod Listing
pub mod Consistency
pub mod Selection
use cashew.Prelude.{
  ℕ, Bool, true, false, not, ◌&&◌, ◌||◌, Bytes, bytes_ordered, Option, none, some, List, [], ◌∷◌,
  ◌++◌, map, length, take, min, ltb, ◌==◌, if◌then◌else◌,
}
use cashew.Prelude.Map.{Map, find, put, erase}
use cashew.Prelude.Set.{contains, remove}
use cashew.Keys.Key.{sub_64}

pub record Floats : Type 0 where
  -- a < b
  pub lt : ℕ → ℕ → Bool
  pub add : ℕ → ℕ → ℕ
  pub mul : ℕ → ℕ → ℕ
  pub div : ℕ → ℕ → ℕ
  -- static_cast<float> of a uint8_t
  pub of_byte : ℕ → ℕ

-- 0.0f, 1.0f, -1.0f, 0.7f and 0.3f
abbrev pub zero_f : ℕ
zero_f = 0

abbrev pub one_f : ℕ
one_f = 0x3F800000

abbrev pub minus_one_f : ℕ
minus_one_f = 0xBF800000

abbrev seven_tenths_f : ℕ
seven_tenths_f = 0x3F333333

abbrev three_tenths_f : ℕ
three_tenths_f = 0x3E99999A

pub record RoutingEntry : Type 0 where
  pub node_id : Bytes
  pub advertised_content : List Bytes
  pub hop_distance : ℕ
  pub last_seen_timestamp : ℕ
  pub reliability_score : ℕ

-- ENTRY_TTL_SECONDS
abbrev entry_ttl : ℕ
entry_ttl = 3600

-- MIN_RELIABILITY_SCORE
abbrev min_reliability : ℕ
min_reliability = three_tenths_f

abbrev pub is_stale : ℕ → RoutingEntry → Bool
is_stale now e = ltb entry_ttl (sub_64 now e.last_seen_timestamp)

pub record RoutingTable : Type 0 where
  pub entries : Map Bytes RoutingEntry
  pub content_index : Map Bytes (List Bytes)

abbrev pub empty_table : RoutingTable
empty_table = record { entries = []; content_index = [] }

pub update_node_seen : ℕ → Bytes → RoutingTable → RoutingTable
update_node_seen now node t = elim (find node t.entries) [
  | none ↦ t
  | some e ↦ record t { entries = put node (record e { last_seen_timestamp = now }) t.entries }
]

unfoldable pub add_node : ℕ → Bytes → ℕ → RoutingTable → RoutingTable
unfolding update_node_seen
add_node now node hops t = elim (find node t.entries) [
  | none ↦ record t {
    entries =
        put node
          (record {
            node_id = node;
            advertised_content = [];
            hop_distance = hops;
            last_seen_timestamp = now;
            reliability_score = one_f;
          })
          t.entries;
  }
  | some e ↦ update_node_seen now node (
      if ltb hops e.hop_distance
      then record t { entries = put node (record e { hop_distance = hops }) t.entries }
      else t)
]

-- what remove_node and remove_content_advertisement do with the index of one content
pub unlist : Bytes → Bytes → Map Bytes (List Bytes) → Map Bytes (List Bytes)
unlist node content index = elim (find content index) [
  | none ↦ index
  | some hosts ↦
      let kept = remove node hosts in
      if length kept == 0 then erase content index else put content kept index
]

-- the loop of remove_node
pub unlist_all : Bytes → List Bytes → Map Bytes (List Bytes) → Map Bytes (List Bytes)
unfolding unlist
unlist_all node [] index = index
unlist_all node (content ∷ contents) index = unlist_all node contents (unlist node content index)

pub remove_node : Bytes → RoutingTable → RoutingTable
unfolding unlist_all
remove_node node t = elim (find node t.entries) [
  | none ↦ t
  | some e ↦ record {
    entries = erase node t.entries;
    content_index = unlist_all node e.advertised_content t.content_index;
  }
]

-- the moving average, clamped to [0, 1]
abbrev averaged : Floats → ℕ → ℕ → ℕ
averaged fl old score =
    let mean = fl.add (fl.mul seven_tenths_f old) (fl.mul three_tenths_f score) in
    let raised = if fl.lt mean zero_f then zero_f else mean in
    if fl.lt one_f raised then one_f else raised

pub update_node_reliability : Floats → Bytes → ℕ → RoutingTable → RoutingTable
update_node_reliability fl node score t = elim (find node t.entries) [
  | none ↦ t
  | some e ↦ record t {
    entries =
        put node (record e { reliability_score = averaged fl e.reliability_score score }) t.entries;
  }
]

unfoldable pub get_entry : Bytes → RoutingTable → Option RoutingEntry
get_entry node t = find node t.entries

unfoldable get_all_entries : RoutingTable → List RoutingEntry
get_all_entries t = map (λ p. p.1) t.entries

-- `std::find(...) == end()`, and then push_back
abbrev pub add_once : Bytes → List Bytes → List Bytes
add_once x xs = if contains x xs then xs else xs ++ x ∷ []

unfoldable pub find_hosts_for_content : Bytes → RoutingTable → List Bytes
find_hosts_for_content content t = elim (find content t.content_index) [
  | none ↦ []
  | some hosts ↦ hosts
]

unfoldable pub advertise_content : Bytes → Bytes → RoutingTable → RoutingTable
unfolding find_hosts_for_content
advertise_content node content t = record {
  entries = elim (find node t.entries) [
    | none ↦ t.entries
    | some e ↦
        put node (record e { advertised_content = add_once content e.advertised_content }) t.entries
  ];
  content_index = put content (add_once node (find_hosts_for_content content t)) t.content_index;
}

pub remove_content_advertisement : Bytes → Bytes → RoutingTable → RoutingTable
unfolding unlist
remove_content_advertisement node content t = record {
  entries = elim (find node t.entries) [
    | none ↦ t.entries
    | some e ↦
        put node (record e { advertised_content = remove content e.advertised_content }) t.entries
  ];
  content_index = unlist node content t.content_index;
}

unfoldable pub has_content_route : Bytes → RoutingTable → Bool
has_content_route content t = elim (find content t.content_index) [
  | none ↦ false
  | some hosts ↦ not (length hosts == 0)
]

abbrev pub score : Floats → RoutingEntry → ℕ
score fl e = fl.div e.reliability_score (fl.add one_f (fl.of_byte e.hop_distance))

-- the entry of a host that is neither stale nor unreliable
pub candidate : Floats → ℕ → RoutingTable → Bytes → Option RoutingEntry
candidate fl now t host = elim (find host t.entries) [
  | none ↦ none
  | some e ↦ if is_stale now e || fl.lt e.reliability_score min_reliability then none else some e
]

-- the loop of select_best_host, from the best host so far and its score
pub better : Floats → ℕ → RoutingTable → List Bytes → Bytes × ℕ → Bytes × ℕ
unfolding candidate
better fl now t [] best = best
better fl now t (host ∷ hosts) best = better fl now t hosts (elim (candidate fl now t host) [
  | none ↦ best
  | some e ↦ if fl.lt best.1 (score fl e) then (host, score fl e) else best
])

unfoldable pub select_best_host : Floats → ℕ → Bytes → RoutingTable → Option Bytes
unfolding better find_hosts_for_content
select_best_host fl now content t = elim (find_hosts_for_content content t) [
  | [] ↦ none
  | host ∷ hosts ↦
      let best = better fl now t (host ∷ hosts) (host, minus_one_f) in
      if fl.lt best.1 zero_f then none else some (best.0)
]

-- the loop that scores the hosts
unfoldable scored : Floats → ℕ → RoutingTable → List Bytes → List (Bytes × ℕ)
unfolding candidate
scored fl now t [] = []
scored fl now t (host ∷ hosts) =
    let others = scored fl now t hosts in
    elim (candidate fl now t host) [ none ↦ others | some e ↦ (host, score fl e) ∷ others ]

-- `order` stands for std::sort with the descending comparison
unfoldable select_multiple_hosts :
    Floats
    → ((Bytes × ℕ → Bytes × ℕ → Bool) → List (Bytes × ℕ) → List (Bytes × ℕ))
    → ℕ
    → Bytes
    → ℕ
    → RoutingTable
    → List Bytes
unfolding scored
select_multiple_hosts fl order now content count t = elim (find_hosts_for_content content t) [
  | [] ↦ []
  | host ∷ hosts ↦
      let found = scored fl now t (host ∷ hosts) in
      map (λ (s : Bytes × ℕ). s.0)
        (take (min count (length found)) (order (λ a b. fl.lt (b.1) (a.1)) found))
]

-- the nodes of stale entries
pub stale_nodes : ℕ → Map Bytes RoutingEntry → List Bytes
stale_nodes now [] = []
stale_nodes now ((node, e) ∷ m) =
    let others = stale_nodes now m in if is_stale now e then node ∷ others else others

pub remove_nodes : List Bytes → RoutingTable → RoutingTable
unfolding remove_node
remove_nodes [] t = t
remove_nodes (node ∷ nodes) t = remove_nodes nodes (remove_node node t)

pub cleanup_stale_entries : ℕ → RoutingTable → RoutingTable
unfolding stale_nodes remove_nodes
cleanup_stale_entries now t = remove_nodes (stale_nodes now t.entries) t
