-- ===== src/Router/Table/Selection.antt =====
-- The choice of a host for a content.
use mathlib.Core.Path.{subst}
use cashew.Prelude.{
  ℕ, ◌≡◌, inl, inr, refl, sym, ap, true, false, Bytes, bytes_eq, bytes_eq_iff, bytes_ordered,
  Option, none, some, List, [], ◌∷◌, arith, Bool-cases, Option-cases,
}
use cashew.Prelude.Set.{contains}
use cashew.Router.Table.{
  Floats, RoutingEntry, RoutingTable, zero_f, minus_one_f, score, candidate, better,
  find_hosts_for_content, select_best_host,
}

-- The loop's best host so far: the start, or a candidate among the hosts that were read.
data IsBest (fl : Floats) (now : ℕ) (t : RoutingTable) (start : Bytes × ℕ) (hosts : List Bytes)
    (best : Bytes × ℕ) : Type 0 where
  stayed : best ≡ start → IsBest fl now t start hosts best
  moved :
      (e : RoutingEntry)
      → contains (best.0) hosts ≡ true
      → candidate fl now t (best.0) ≡ some e
      → score fl e ≡ best.1
      → IsBest fl now t start hosts best

module _ (fl : Floats) (irreflexive : (x : ℕ) → fl.lt x x ≡ false)
    (transitive : (x y z : ℕ) → fl.lt x y ≡ true → fl.lt y z ≡ true → fl.lt x z ≡ true) where
  -- The best score never falls, and is not below a candidate's.
  better-grows :
      (now : ℕ) (t : RoutingTable) (hosts : List Bytes) (best : Bytes × ℕ) (x : ℕ)
      → fl.lt (best.1) x ≡ false
      → fl.lt ((better fl now t hosts best).1) x ≡ false
  unfolding better
  better-grows now t [] best x h = h
  better-grows now t (host ∷ hosts) best x h = elim (Option-cases (candidate fl now t host)) [
    | inl missing ↦ rw (missing, better) (better-grows now t hosts best x h)
    | inr (e, found) ↦ elim (Bool-cases (fl.lt (best.1) (score fl e))) [
      | inr worse ↦ rw (found, worse, better) (better-grows now t hosts best x h)
      | inl above ↦
          rw (found, above, better)
            (better-grows now t hosts (host, score fl e) x
              (ground (arith, transitive (best.1) (score fl e) x, above, h)))
    ]
  ]

  -- No candidate among the hosts that were read is better than the best.
  better-covers :
      (now : ℕ) (t : RoutingTable) (hosts : List Bytes) (best : Bytes × ℕ) (host : Bytes)
      (e : RoutingEntry)
      → contains host hosts ≡ true
      → candidate fl now t host ≡ some e
      → fl.lt ((better fl now t hosts best).1) (score fl e) ≡ false
  unfolding better contains
  better-covers now t [] best host e there found = absurd (cc)
  better-covers now t (h ∷ hosts) best host e there found = elim (Bool-cases (bytes_eq h host)) [
    | inl here ↦
        let same : candidate fl now t h ≡ some e = rw ((bytes_eq_iff h host).0 here) found in
        elim (Bool-cases (fl.lt (best.1) (score fl e))) [
          | inl above ↦
              rw (same, above, better)
                (better-grows now t hosts (h, score fl e) (score fl e) (irreflexive (score fl e)))
          | inr worse ↦ rw (same, worse, better) (better-grows now t hosts best (score fl e) worse)
        ]
    | inr apart ↦
        let later : contains host hosts ≡ true = ground (arith, there, apart) in
        elim (Option-cases (candidate fl now t h)) [
          | inl missing ↦ rw (missing, better) (better-covers now t hosts best host e later found)
          | inr (e', got) ↦ elim (Bool-cases (fl.lt (best.1) (score fl e'))) [
            | inl above ↦
                rw (got, above, better)
                  (better-covers now t hosts (h, score fl e') host e later found)
            | inr worse ↦
                rw (got, worse, better) (better-covers now t hosts best host e later found)
          ]
        ]
  ]

widen :
    (fl : Floats) (now : ℕ) (t : RoutingTable) (start : Bytes × ℕ) (h : Bytes) (hosts : List Bytes)
    (best : Bytes × ℕ)
    → IsBest fl now t start hosts best
    → IsBest fl now t start (h ∷ hosts) best
unfolding contains
widen fl now t start h hosts best (stayed same) = stayed same
widen fl now t start h hosts best (moved e there found same) =
    moved e (ground (arith, there)) found same

better-IsBest :
    (fl : Floats) (now : ℕ) (t : RoutingTable) (hosts : List Bytes) (best : Bytes × ℕ)
    → IsBest fl now t best hosts (better fl now t hosts best)
unfolding better contains
better-IsBest fl now t [] best = stayed refl
better-IsBest fl now t (h ∷ hosts) best = elim (Option-cases (candidate fl now t h)) [
  | inl missing ↦
      rw (missing, better) (widen fl now t best h hosts _ (better-IsBest fl now t hosts best))
  | inr (e, found) ↦ elim (Bool-cases (fl.lt (best.1) (score fl e))) [
    | inr worse ↦
        rw (found, worse, better)
          (widen fl now t best h hosts _ (better-IsBest fl now t hosts best))
    | inl above ↦
        rw (found, above, better)
          (elim (better-IsBest fl now t hosts (h, score fl e)) [
            | stayed same ↦
                moved e (rw same (ground (arith, bytes_eq_iff h h))) (rw same found) (rw same refl)
            | moved e' there got same ↦ moved e' (ground (arith, there)) got same
          ])
  ]
]

-- A host that select_best_host returns, or that it finds none.
abbrev pub Chosen : Floats → ℕ → Bytes → RoutingTable → Option Bytes → Type 0
Chosen fl now content t none =
    (host : Bytes)
    → contains host (find_hosts_for_content content t) ≡ true
    → candidate fl now t host ≡ none
Chosen fl now content t (some best) =
    (e : RoutingEntry) × (contains best (find_hosts_for_content content t) ≡ true)
    × (candidate fl now t best ≡ some e)
    × ((host : Bytes) (e' : RoutingEntry)
        → contains host (find_hosts_for_content content t) ≡ true
        → candidate fl now t host ≡ some e'
        → fl.lt (score fl e) (score fl e') ≡ false)

-- If the comparison of floats is irreflexive and transitive, -1 is below 0, and the scores of hosts that
-- are neither stale nor unreliable are above 0, then select_best_host returns a host of the content that
-- is neither stale nor unreliable and none of these has a higher score; it returns none only if the
-- content has no such host.
pub select_best_host_best :
    (fl : Floats)
    → ((x : ℕ) → fl.lt x x ≡ false)
    → ((x y z : ℕ) → fl.lt x y ≡ true → fl.lt y z ≡ true → fl.lt x z ≡ true)
    → fl.lt minus_one_f zero_f ≡ true
    → (now : ℕ) (content : Bytes) (t : RoutingTable)
    → ((host : Bytes) (e : RoutingEntry)
        → candidate fl now t host ≡ some e
        → fl.lt zero_f (score fl e) ≡ true)
    → Chosen fl now content t (select_best_host fl now content t)
unfolding select_best_host contains
select_best_host_best fl irreflexive transitive negative now content t positive =
    chosen (find_hosts_for_content content t) refl
  where
    covers :
        (hosts : List Bytes) (start : Bytes × ℕ) (host : Bytes) (e : RoutingEntry)
        → contains host hosts ≡ true
        → candidate fl now t host ≡ some e
        → fl.lt ((better fl now t hosts start).1) (score fl e) ≡ false
    covers = better-covers fl irreflexive transitive now t

    chosen :
        (hosts : List Bytes)
        → find_hosts_for_content content t ≡ hosts
        → Chosen fl now content t (select_best_host fl now content t)
    chosen [] eq =
        rw (eq, select_best_host)
          (λ host there.
            let nowhere : contains host [] ≡ true =
              subst (λ xs. contains host xs ≡ true) eq there in
            absurd (cc))
    chosen (h ∷ hosts) eq =
        let all = h ∷ hosts in
        let start : Bytes × ℕ = (h, minus_one_f) in
        let best = better fl now t all start in
        let inside : (host : Bytes)
            → contains host (find_hosts_for_content content t) ≡ true
            → contains host all ≡ true =
          λ host there. subst (λ xs. contains host xs ≡ true) eq there in
        elim (Bool-cases (fl.lt (best.1) zero_f)) [
          | inl below ↦
              rw (eq, below, select_best_host)
                (λ host there. elim (Option-cases (candidate fl now t host)) [
                  | inl missing ↦ missing
                  | inr (e, found) ↦ absurd (
                      ground (
                        arith,
                        covers all start host e (inside host there) found,
                        transitive (best.1) zero_f (score fl e),
                        below,
                        positive host e found,
                      ))
                ])
          | inr above ↦ elim (better-IsBest fl now t all start) [
            | stayed same ↦
                absurd (ground (arith, ap (λ (b : Bytes × ℕ). b.1) same, above, negative))
            | moved e there found same ↦
                rw (eq, above, select_best_host)
                  (
                    e,
                    subst (λ xs. contains (best.0) xs ≡ true) (sym eq) there,
                    found,
                    λ host e' at got. rw same (covers all start host e' (inside host at) got),
                  )
          ]
        ]
