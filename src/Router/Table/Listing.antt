-- ===== src/Router/Table/Listing.antt =====
-- The two views of the routing table, the entries and the index of contents.
use cashew.Prelude.{
  ℕ, ◌<◌, ◌≡◌, refl, Bool, true, false, not, ◌&&◌, ◌||◌, Bytes, bytes_eq, bytes_eq_iff,
  bytes_ordered, Option, none, some, List, [], ◌∷◌, length, length-append, ◌==◌, arith, Bool-cases,
  Option-cases, inl, inr,
}
use cashew.Prelude.Map.{Map, find, put, find-put, find-erase}
use cashew.Prelude.Set.{contains, remove, contains-remove, contains-push}
use cashew.Router.Table.{
  RoutingEntry, RoutingTable, one_f, add_node, unlist, unlist_all, remove_node, get_entry,
  find_hosts_for_content, add_once, advertise_content,
}

abbrev pub Index : Type 0
Index = Map Bytes (List Bytes)

-- A node stands in the list of a content.
abbrev pub listed : Bytes → Option (List Bytes) → Bool
listed node none = false
listed node (some hosts) = contains node hosts

-- No content has an empty list.
abbrev pub Inhabited : Option (List Bytes) → Type 0
Inhabited none = Unit
Inhabited (some hosts) = 0 < length hosts

contains-nil : (node : Bytes) (xs : List Bytes) → length xs ≡ 0 → contains node xs ≡ false
unfolding contains
contains-nil node [] h = refl
contains-nil node (x ∷ xs) h = absurd (omega arith)

pub listed-unlist :
    (node content m c : Bytes) (index : Index)
    → listed m (find c (unlist node content index))
      ≡ (not (bytes_eq content c && bytes_eq node m) && listed m (find c index))
unfolding unlist
listed-unlist node content m c index = elim (Option-cases (find content index)) [
  | inl missing ↦ rw (missing, unlist) (ground (arith, missing, bytes_eq_iff content c))
  | inr (hosts, found) ↦ elim (Bool-cases (length (remove node hosts) == 0)) [
    | inl empty ↦
        rw (found, empty, unlist)
          (ground (
            arith,
            found,
            find-erase content c index,
            contains-nil m (remove node hosts),
            contains-remove node m hosts,
            bytes_eq_iff content c,
          ))
    | inr some_left ↦
        rw (found, some_left, unlist)
          (ground (
            arith,
            found,
            find-put content c (remove node hosts) index,
            contains-remove node m hosts,
            bytes_eq_iff content c,
          ))
  ]
]

pub unlist-Inhabited :
    (node content c : Bytes) (index : Index)
    → Inhabited (find c index)
    → Inhabited (find c (unlist node content index))
unfolding unlist
unlist-Inhabited node content c index h = elim (Option-cases (find content index)) [
  | inl missing ↦ rw (missing, unlist) h
  | inr (hosts, found) ↦ elim (Bool-cases (length (remove node hosts) == 0)) [
    | inl empty ↦
        rw (found, empty, unlist, find-erase content c index)
          (elim (Bool-cases (bytes_eq content c)) [
            | inl same ↦ rw same tt
            | inr apart ↦ rw apart h
          ])
    | inr some_left ↦
        rw (found, some_left, unlist, find-put content c (remove node hosts) index)
          (elim (Bool-cases (bytes_eq content c)) [
            | inl same ↦ rw same (ground (arith, some_left))
            | inr apart ↦ rw apart h
          ])
  ]
]

pub listed-unlist_all :
    (node m c : Bytes) (contents : List Bytes) (index : Index)
    → listed m (find c (unlist_all node contents index))
      ≡ (not (contains c contents && bytes_eq node m) && listed m (find c index))
unfolding unlist_all contains
listed-unlist_all node m c [] index = refl
listed-unlist_all node m c (content ∷ contents) index = ground (
  arith,
  listed-unlist_all node m c contents (unlist node content index),
  listed-unlist node content m c index,
)

pub unlist_all-Inhabited :
    (node c : Bytes) (contents : List Bytes) (index : Index)
    → Inhabited (find c index)
    → Inhabited (find c (unlist_all node contents index))
unfolding unlist_all
unlist_all-Inhabited node c [] index h = h
unlist_all-Inhabited node c (content ∷ contents) index h =
    unlist_all-Inhabited node c contents (unlist node content index)
      (unlist-Inhabited node content c index h)

-- What an entry advertises is listed under the content.
abbrev pub Agrees : Map Bytes RoutingEntry → Index → Type 0
Agrees entries index =
    (node content : Bytes) (e : RoutingEntry)
    → find node entries ≡ some e
    → contains content e.advertised_content ≡ true
    → listed node (find content index) ≡ true

pub record IsTable (t : RoutingTable) : Type 0 where
  pub agrees : Agrees t.entries t.content_index
  pub inhabited : (content : Bytes) → Inhabited (find content t.content_index)

-- An entry that is replaced by one that advertises no more.
pub put-Agrees :
    (node : Bytes) (e e' : RoutingEntry) (entries : Map Bytes RoutingEntry) (index : Index)
    → find node entries ≡ some e
    → e'.advertised_content ≡ e.advertised_content
    → Agrees entries index
    → Agrees (put node e' entries) index
put-Agrees node e e' entries index found same h m content f got has =
    elim (Bool-cases (bytes_eq node m)) [
      | inl eq ↦
          let this : node ≡ m = (bytes_eq_iff node m).0 eq in
          let that : e' ≡ f = ground (arith, got, find-put node m e' entries, eq) in
          rw (← this) (h node content e found (rw (← same, that) has))
      | inr apart ↦ h m content f (ground (arith, got, find-put node m e' entries, apart)) has
    ]

pub contains-add_once :
    (x y : Bytes) (xs : List Bytes) → contains y (add_once x xs) ≡ (contains y xs || bytes_eq x y)
contains-add_once x y xs = elim (Bool-cases (contains x xs)) [
  | inl there ↦ rw there (ground (arith, there, bytes_eq_iff x y))
  | inr new ↦ rw new (contains-push x y xs)
]

pub length-add_once : (x : Bytes) (xs : List Bytes) → 0 < length (add_once x xs)
unfolding contains
length-add_once x [] = omega arith
length-add_once x (y ∷ ys) = ground (arith, length-append (y ∷ ys) (x ∷ []))

pub listed-hosts :
    (node content : Bytes) (t : RoutingTable)
    → contains node (find_hosts_for_content content t) ≡ listed node (find content t.content_index)
unfolding find_hosts_for_content contains
listed-hosts node content t = elim (Option-cases (find content t.content_index)) [
  | inl missing ↦ rw (missing, find_hosts_for_content) refl
  | inr (hosts, found) ↦ rw (found, find_hosts_for_content) refl
]

pub listed-advertise :
    (node content m c : Bytes) (t : RoutingTable)
    → listed m (find c (advertise_content node content t).content_index)
      ≡ (listed m (find c t.content_index) || (bytes_eq content c && bytes_eq node m))
unfolding advertise_content
listed-advertise node content m c t =
    let hosts = find_hosts_for_content content t in
    rw (find-put content c (add_once node hosts) t.content_index)
      (elim (Bool-cases (bytes_eq content c)) [
        | inl same ↦ rw same (
            ground (
              arith,
              contains-add_once node m hosts,
              listed-hosts m content t,
              bytes_eq_iff content c,
              same,
            ))
        | inr apart ↦ rw apart (ground arith)
      ])

-- Removing a node that has an entry takes it from the hosts of the contents that the entry advertises, and
-- takes no other node from any list.
remove_node_unlists :
    (node content : Bytes) (e : RoutingEntry) (t : RoutingTable)
    → get_entry node t ≡ some e
    → contains content e.advertised_content ≡ true
    → (contains node (find_hosts_for_content content (remove_node node t)) ≡ false)
      × (get_entry node (remove_node node t) ≡ none)
      × ((m c : Bytes)
          → bytes_eq node m ≡ false
          → contains m (find_hosts_for_content c (remove_node node t))
            ≡ contains m (find_hosts_for_content c t))
unfolding get_entry remove_node
remove_node_unlists node content e t got has = (
  rw (listed-hosts node content (remove_node node t), got, remove_node)
      (ground (
        arith,
        has,
        bytes_eq_iff node node,
        listed-unlist_all node node content e.advertised_content t.content_index,
      )),
  rw (got, remove_node) (ground (arith, bytes_eq_iff node node, find-erase node node t.entries)),
  λ m c apart.
      rw
        (
          listed-hosts m c (remove_node node t),
          listed-hosts m c t,
          got,
          remove_node,
          listed-unlist_all node m c e.advertised_content t.content_index,
          apart,
        )
        (ground arith),
)

advertise_unknown :
    (node content : Bytes) (t : RoutingTable)
    → find node t.entries ≡ none
    → find node (advertise_content node content t).entries ≡ none
unfolding advertise_content
advertise_unknown node content t unknown = rw (unknown, advertise_content) unknown

new_removed :
    (now : ℕ) (node : Bytes) (hops : ℕ) (t : RoutingTable)
    → find node t.entries ≡ none
    → (remove_node node (add_node now node hops t)).content_index ≡ t.content_index
unfolding add_node remove_node unlist_all
new_removed now node hops t unknown =
    let entry : RoutingEntry = record {
      node_id = node;
      advertised_content = [];
      hop_distance = hops;
      last_seen_timestamp = now;
      reliability_score = one_f;
    } in
    let there : find node (put node entry t.entries) ≡ some entry =
      ground (arith, find-put node node entry t.entries, bytes_eq_iff node node) in
    rw (unknown, add_node) (rw (there, remove_node) refl)

-- A node that advertised a content before it had an entry stays among the hosts of the content when it is
-- added and then removed.
removed_host_stays :
    (now : ℕ) (node content : Bytes) (hops : ℕ) (t : RoutingTable)
    → get_entry node t ≡ none
    → contains node (
        find_hosts_for_content content
          (remove_node node (add_node now node hops (advertise_content node content t))))
      ≡ true
unfolding get_entry
removed_host_stays now node content hops t unknown =
    let a = advertise_content node content t in
    rw
      (
        listed-hosts node content (remove_node node (add_node now node hops a)),
        new_removed now node hops a (advertise_unknown node content t unknown),
        listed-advertise node content node content t,
      )
      (ground (arith, bytes_eq_iff node node, bytes_eq_iff content content))
