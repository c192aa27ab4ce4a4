-- ===== src/Peer/Broker/Invalidation.antt =====
-- A worker that is gone takes its channels with it: lib/peer-channel-broker.js.
use countinghouse.Prelude.{
  ◌≡◌, ◌↔◌, refl, String, true, false, List, [], ◌∷◌, none, some, arith, contains, string_eq,
  if◌then◌else◌, count, ◌≤◌,
}
use countinghouse.Prelude.Dict.{get, keys, del, get-del}
use countinghouse.Peer.Broker.{
  Entry, Registry, Broker, involves, involved_pairs, del_all, invalidate_worker,
}

get-del_all :
    (k : String) (ps : List String) (d : Registry)
    → get k (del_all ps d) ≡ (if contains k ps then none else get k d)
unfolding del_all
get-del_all k [] d = refl
get-del_all k (p ∷ ps) d =
    ground (
      arith,
      get-del_all k ps (del p d),
      get-del p k d,
      string_eq.beq_iff k p,
      string_eq.beq_iff p k,
    )

module _ (w : String) where
  involved-contains :
      (k : String) (d : Registry) (e : Entry)
      → get k d ≡ some e
      → involves w e ≡ true
      → contains k (involved_pairs w d).0 ≡ true
  unfolding get involved_pairs
  involved-contains k [] e f h = cc
  involved-contains k ((j, x) ∷ d) e f h =
      ground (arith, involved-contains k d e, string_eq.beq_iff j k, string_eq.beq_iff k j)

  -- In a registry whose keys are distinct, what is removed is involved.
  contains-count :
      (k : String) (d : Registry) → contains k (involved_pairs w d).0 ≡ true → 1 ≤ count k (keys d)
  unfolding involved_pairs
  contains-count k [] h = cc
  contains-count k ((j, x) ∷ d) h = ground (arith, contains-count k d, string_eq.beq_iff k j)

  contains-involved :
      (k : String) (d : Registry) (e : Entry)
      → count k (keys d) ≤ 1
      → get k d ≡ some e
      → contains k (involved_pairs w d).0 ≡ true
      → involves w e ≡ true
  unfolding get involved_pairs
  contains-involved k [] e u f h = cc
  contains-involved k ((j, x) ∷ d) e u f h = ground (
    arith,
    contains-involved k d e,
    contains-count k d,
    string_eq.beq_iff j k,
    string_eq.beq_iff k j,
  )

  -- After a worker is invalidated, exactly the channels that do not involve it are open, each with
  -- its entry as it was.
  get-invalidate_worker :
      (b : Broker) (k : String) (e : Entry)
      → count k (keys b.registry) ≤ 1
      → (get k (invalidate_worker w b).0.registry ≡ some e)
        ↔ ((get k b.registry ≡ some e) × (involves w e ≡ false))
  unfolding invalidate_worker
  get-invalidate_worker b k e u =
      let after = get-del_all k (involved_pairs w b.registry).0 b.registry in
      (
        λ h. ground (arith, after, involved-contains k b.registry e),
        λ h. ground (arith, after, contains-involved k b.registry e u),
      )
