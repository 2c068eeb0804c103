-- ===== src/Router/Table/Consistency.antt =====
-- Every change of a routing table keeps its two views in agreement.
use mathlib.Core.Path.{subst}
use cashew.Prelude.{
  ℕ, ◌≡◌, refl, sym, true, false, Bytes, bytes_eq, bytes_eq_iff, bytes_ordered, some, List, [], ◌∷◌,
  ltb, if◌then◌else◌, arith, Bool-cases, Option-cases, inl, inr,
}
use cashew.Prelude.Map.{find, put, find-put, find-erase}
use cashew.Prelude.Set.{contains, remove, contains-remove}
use cashew.Router.Table.Listing.{
  Index, Inhabited, Agrees, IsTable, listed-unlist, unlist-Inhabited, listed-unlist_all,
  unlist_all-Inhabited, put-Agrees, contains-add_once, length-add_once, listed-hosts,
  listed-advertise,
}
use cashew.Router.Table.{
  Floats, RoutingEntry, RoutingTable, one_f, empty_table, update_node_seen, add_node, unlist,
  remove_node, update_node_reliability, get_entry, has_content_route, find_hosts_for_content,
  add_once, advertise_content, remove_content_advertisement, remove_nodes, stale_nodes,
  cleanup_stale_entries,
}

seen-IsTable :
    (now : ℕ) (node : Bytes) (t : RoutingTable) → IsTable t → IsTable (update_node_seen now node t)
unfolding update_node_seen
seen-IsTable now node t v = elim (Option-cases (find node t.entries)) [
  | inl missing ↦ rw (missing, update_node_seen) v
  | inr (e, found) ↦
      rw (found, update_node_seen)
        (record {
          agrees =
              put-Agrees node e (record e { last_seen_timestamp = now }) t.entries t.content_index
                found refl v.agrees;
          inhabited = v.inhabited;
        })
]

nearer-IsTable :
    (node : Bytes) (hops : ℕ) (e : RoutingEntry) (t : RoutingTable)
    → find node t.entries ≡ some e
    → IsTable t
    → IsTable (
        if ltb hops e.hop_distance
        then record t { entries = put node (record e { hop_distance = hops }) t.entries }
        else t)
nearer-IsTable node hops e t found v = elim (Bool-cases (ltb hops e.hop_distance)) [
  | inl near ↦ rw near (record {
    agrees =
        put-Agrees node e (record e { hop_distance = hops }) t.entries t.content_index found refl
          v.agrees;
    inhabited = v.inhabited;
  })
  | inr far ↦ rw far v
]

add_node-IsTable :
    (now : ℕ) (node : Bytes) (hops : ℕ) (t : RoutingTable)
    → IsTable t
    → IsTable (add_node now node hops t)
unfolding add_node contains
add_node-IsTable now node hops t v = elim (Option-cases (find node t.entries)) [
  | inl missing ↦ rw (missing, add_node) (record { agrees = fresh; inhabited = v.inhabited })
  | inr (e, found) ↦
      rw (found, add_node) (seen-IsTable now node _ (nearer-IsTable node hops e t found v))
]
  where
    entry : RoutingEntry
    entry = record {
      node_id = node;
      advertised_content = [];
      hop_distance = hops;
      last_seen_timestamp = now;
      reliability_score = one_f;
    }

    fresh : Agrees (put node entry t.entries) t.content_index
    fresh m content f got has = elim (Bool-cases (bytes_eq node m)) [
      | inl eq ↦
          let that : entry ≡ f = ground (arith, got, find-put node m entry t.entries, eq) in
          let none_there : contains content f.advertised_content ≡ false =
            rw (← that, contains) refl in
          absurd (ground (arith, none_there, has))
      | inr apart ↦
          v.agrees m content f (ground (arith, got, find-put node m entry t.entries, apart)) has
    ]

reliability-IsTable :
    (fl : Floats) (node : Bytes) (score : ℕ) (t : RoutingTable)
    → IsTable t
    → IsTable (update_node_reliability fl node score t)
unfolding update_node_reliability
reliability-IsTable fl node score t v = elim (Option-cases (find node t.entries)) [
  | inl missing ↦ rw (missing, update_node_reliability) v
  | inr (e, found) ↦
      rw (found, update_node_reliability)
        (record {
          agrees = put-Agrees node e _ t.entries t.content_index found refl v.agrees;
          inhabited = v.inhabited;
        })
]

remove_node-IsTable : (node : Bytes) (t : RoutingTable) → IsTable t → IsTable (remove_node node t)
unfolding remove_node
remove_node-IsTable node t v = elim (Option-cases (find node t.entries)) [
  | inl missing ↦ rw (missing, remove_node) v
  | inr (e, found) ↦
      rw (found, remove_node)
        (record {
          agrees = λ m content f got has. elim (Bool-cases (bytes_eq node m)) [
            | inl eq ↦ absurd (ground (arith, got, find-erase node m t.entries, eq))
            | inr apart ↦
                rw (listed-unlist_all node m content e.advertised_content t.content_index, apart)
                  (ground (
                    arith,
                    v.agrees m content f (ground (arith, got, find-erase node m t.entries, apart))
                        has,
                  ))
          ];
          inhabited = λ content.
              unlist_all-Inhabited node content e.advertised_content t.content_index
                (v.inhabited content);
        })
]

remove_nodes-IsTable :
    (nodes : List Bytes) (t : RoutingTable) → IsTable t → IsTable (remove_nodes nodes t)
unfolding remove_nodes
remove_nodes-IsTable [] t v = v
remove_nodes-IsTable (node ∷ nodes) t v =
    remove_nodes-IsTable nodes (remove_node node t) (remove_node-IsTable node t v)

advertise-IsTable :
    (node content : Bytes) (t : RoutingTable)
    → IsTable t
    → IsTable (advertise_content node content t)
unfolding advertise_content
advertise-IsTable node content t v = record { agrees = agrees; inhabited = inhabited }
  where
    index : Index
    index = (advertise_content node content t).content_index

    later : Agrees t.entries index
    later m c f got has =
        rw (listed-advertise node content m c t) (ground (arith, v.agrees m c f got has))

    agrees : Agrees (advertise_content node content t).entries index
    agrees = elim (Option-cases (find node t.entries)) [
      | inl missing ↦ rw (missing, advertise_content) later
      | inr (e, found) ↦
          rw (found, advertise_content)
            (λ m c f got has.
              let e' = record e { advertised_content = add_once content e.advertised_content } in
              elim (Bool-cases (bytes_eq node m)) [
                | inr apart ↦
                    later m c f (ground (arith, got, find-put node m e' t.entries, apart)) has
                | inl eq ↦
                    let that : e' ≡ f = ground (arith, got, find-put node m e' t.entries, eq) in
                    let this : node ≡ m = (bytes_eq_iff node m).0 eq in
                    let both : contains c (add_once content e.advertised_content) ≡ true =
                      subst (λ (x : RoutingEntry). contains c x.advertised_content ≡ true)
                        (sym that) has in
                    rw (listed-advertise node content m c t, eq)
                      (ground (
                        arith,
                        both,
                        contains-add_once content c e.advertised_content,
                        v.agrees m c e (rw (← this) found),
                      ))
              ])
    ]

    inhabited : (c : Bytes) → Inhabited (find c index)
    inhabited c =
        rw (find-put content c (add_once node (find_hosts_for_content content t)) t.content_index)
          (elim (Bool-cases (bytes_eq content c)) [
            | inl same ↦ rw same (length-add_once node (find_hosts_for_content content t))
            | inr apart ↦ rw apart (v.inhabited c)
          ])

remove-IsTable :
    (node content : Bytes) (t : RoutingTable)
    → IsTable t
    → IsTable (remove_content_advertisement node content t)
unfolding remove_content_advertisement
remove-IsTable node content t v = record {
  agrees = agrees;
  inhabited = λ c. unlist-Inhabited node content c t.content_index (v.inhabited c);
}
  where
    index : Index
    index = unlist node content t.content_index

    agrees : Agrees (remove_content_advertisement node content t).entries index
    agrees = elim (Option-cases (find node t.entries)) [
      | inl missing ↦
          rw (missing, remove_content_advertisement)
            (λ m c f got has. elim (Bool-cases (bytes_eq node m)) [
              | inl eq ↦ absurd (ground (arith, missing, got, bytes_eq_iff node m, eq))
              | inr apart ↦
                  rw (listed-unlist node content m c t.content_index, apart)
                    (ground (arith, v.agrees m c f got has))
            ])
      | inr (e, found) ↦
          rw (found, remove_content_advertisement)
            (λ m c f got has.
              let e' = record e { advertised_content = remove content e.advertised_content } in
              elim (Bool-cases (bytes_eq node m)) [
                | inr apart ↦
                    rw (listed-unlist node content m c t.content_index, apart)
                      (ground (
                        arith,
                        v.agrees m c f (ground (arith, got, find-put node m e' t.entries, apart))
                            has,
                      ))
                | inl eq ↦
                    let that : e' ≡ f = ground (arith, got, find-put node m e' t.entries, eq) in
                    let this : node ≡ m = (bytes_eq_iff node m).0 eq in
                    let both : contains c (remove content e.advertised_content) ≡ true =
                      subst (λ (x : RoutingEntry). contains c x.advertised_content ≡ true)
                        (sym that) has in
                    let apart : bytes_eq content c ≡ false =
                      ground (arith, both, contains-remove content c e.advertised_content) in
                    rw (listed-unlist node content m c t.content_index, apart)
                      (ground (
                        arith,
                        both,
                        contains-remove content c e.advertised_content,
                        v.agrees m c e (rw (← this) found),
                      ))
              ])
    ]

-- What a router does with its table.
pub data Change : Type 0 where
  adds : ℕ → Bytes → ℕ → Change
  drops : Bytes → Change
  rates : Floats → Bytes → ℕ → Change
  advertises : Bytes → Bytes → Change
  withdraws : Bytes → Bytes → Change
  cleans : ℕ → Change

unfoldable pub change : Change → RoutingTable → RoutingTable
change (adds now node hops) t = add_node now node hops t
change (drops node) t = remove_node node t
change (rates fl node score) t = update_node_reliability fl node score t
change (advertises node content) t = advertise_content node content t
change (withdraws node content) t = remove_content_advertisement node content t
change (cleans now) t = cleanup_stale_entries now t

unfoldable pub changed : List Change → RoutingTable → RoutingTable
unfolding change
changed [] t = t
changed (c ∷ cs) t = changed cs (change c t)

change-IsTable : (c : Change) (t : RoutingTable) → IsTable t → IsTable (change c t)
unfolding change cleanup_stale_entries
change-IsTable (adds now node hops) t v = add_node-IsTable now node hops t v
change-IsTable (drops node) t v = remove_node-IsTable node t v
change-IsTable (rates fl node score) t v = reliability-IsTable fl node score t v
change-IsTable (advertises node content) t v = advertise-IsTable node content t v
change-IsTable (withdraws node content) t v = remove-IsTable node content t v
change-IsTable (cleans now) t v = remove_nodes-IsTable (stale_nodes now t.entries) t v

changed-IsTable : (cs : List Change) (t : RoutingTable) → IsTable t → IsTable (changed cs t)
unfolding changed
changed-IsTable [] t v = v
changed-IsTable (c ∷ cs) t v = changed-IsTable cs (change c t) (change-IsTable c t v)

empty-IsTable : IsTable empty_table
unfolding find
empty-IsTable = record { agrees = λ node content e got has. cc; inhabited = λ content. tt }

-- After any changes to an empty routing table, a node whose entry advertises a content is among the hosts
-- of the content, and the content has a route.
pub routes_agree :
    (cs : List Change) (node content : Bytes) (e : RoutingEntry)
    → get_entry node (changed cs empty_table) ≡ some e
    → contains content e.advertised_content ≡ true
    → (contains node (find_hosts_for_content content (changed cs empty_table)) ≡ true)
      × (has_content_route content (changed cs empty_table) ≡ true)
unfolding get_entry has_content_route
routes_agree cs node content e got has =
    let t = changed cs empty_table in
    let v = changed-IsTable cs empty_table empty-IsTable in
    let there = v.agrees node content e got has in
    let hosts = listed-hosts node content t in
    (
      ground (arith, there, hosts),
      elim (Option-cases (find content t.content_index)) [
        | inl missing ↦ absurd (ground (arith, there, missing))
        | inr (listing, found) ↦
            rw (found, has_content_route) (ground (arith, v.inhabited content, found))
      ],
    )
