-- ===== src/Mempool/Induction.antt =====
-- A property of the entries that removing one and adding one keep is kept by every method of
-- src/mempool/txmempool.rs.
use btck_rust_node.Common.{
  ℕ, ◌≡◌, refl, sym, subst, true, none, some, List, [], ◌∷◌, inl, inr, if◌then◌else◌, arith,
  nat_key, keys, lookup, contains, contains_key, add, HashSet, ok, Result-cases, Bool-cases,
  if-elim, lookup-insert, lookup-map_values, leb, values,
}
use btck_rust_node.Common.Words.{add64, sub64}
use btck_rust_node.Chain.{Txid, OutPoint, outpoint_key, Transaction}
use btck_rust_node.Mempool.Entry.{MempoolEntry, new_entry}
use btck_rust_node.Mempool.Policy.{MempoolPolicy, check_ancestor_limits}
use btck_rust_node.Mempool.Pool.{
  Mempool, prevouts, new_pool, set_kernel, detach, remove_tx, drop_tx, drop_each, find_parents,
  Ancestors, calculate_ancestors, admit, place, attach, evict_loop, maybe_evict, sort_by,
  by_fee_rate, make_room, finish_add, add_tx, remove_counting, remove_expired, update_height, clear,
}
use btck_rust_node.Mempool.Ledger.{payload}
use btck_rust_node.Mempool.Books.{remove_tx-eq-ok, drop_each_absent}
use btck_rust_node.Mempool.Admission.{admit-Admitted, make_room-eq-ok}
use btck_rust_node.Mempool.History.{
  Call, adds, removes, sets_height, sets_kernel, clears, step, run,
}

abbrev pub Entries : Type 0
Entries = List (Txid × MempoolEntry)

-- A new entry: its key is free, it has no children, and its parents are in the pool.
pub record IsNew (es : Entries) (e : MempoolEntry) : Type 0 where
  pub free : lookup e.txid es ≡ none
  pub childless : e.children ≡ []
  pub parented : (p : Txid) → contains p e.parents ≡ true → contains_key p es ≡ true

find_parents-contains_key :
    (es : Entries) (os : List OutPoint) (parents : HashSet Txid)
    → ((p : Txid) → contains p parents ≡ true → contains_key p es ≡ true)
    → (p : Txid) → contains p (find_parents es parents os) ≡ true
    → contains_key p es ≡ true
unfolding find_parents
find_parents-contains_key es [] parents h = h
find_parents-contains_key es (o ∷ os) parents h =
    find_parents-contains_key es os (if contains_key o.txid es then add o.txid parents else parents)
      (if-elim (λ (s : HashSet Txid). (p : Txid) → contains p s ≡ true → contains_key p es ≡ true)
        (contains_key o.txid es) (λ t p. ground (arith, h p, lookup-insert o.txid p tt parents))
        (λ t p q. h p q))

place-IsNew :
    (es : Entries) (entry : MempoolEntry) (a : Ancestors)
    → lookup entry.txid es ≡ none
    → entry.children ≡ []
    → IsNew es (place entry (find_parents es [] (prevouts entry.tx)) a)
unfolding place lookup
place-IsNew es entry a new childless = record {
  free = new;
  childless = childless;
  parented = find_parents-contains_key es (prevouts entry.tx) [] (λ p h. absurd (ground arith));
}

still_free :
    (ks : List Txid) (m : Mempool) (k : Txid)
    → lookup k m.entries ≡ none
    → lookup k (drop_each ks m).entries ≡ none
still_free ks m k h =
    let es = (drop_each ks m).entries in
    ground (arith, lookup-map_values payload k es, drop_each_absent ks m k h)

module _ (P : Entries → Type 0) (empty : P [])
    (detaches : (m : Mempool) (k : Txid) (e : MempoolEntry)
      → P m.entries
      → lookup k m.entries ≡ some e
      → P (detach m k e).entries)
    (attaches : (m : Mempool) (e : MempoolEntry) (now : ℕ)
      → P m.entries
      → IsNew m.entries e
      → P (attach m e now).entries) where
  keep-remove_tx :
      (m : Mempool) (k : Txid) {m' : Mempool} {e : MempoolEntry}
      → P m.entries
      → remove_tx m k ≡ ok (m', e)
      → P m'.entries
  keep-remove_tx m k {m'} {e} v h =
      let (there, same) = remove_tx-eq-ok m k h in
      subst (λ (x : Mempool). P x.entries) (sym same) (detaches m k e v there)

  keep-drop_tx : (m : Mempool) (k : Txid) → P m.entries → P (drop_tx m k).entries
  unfolding drop_tx
  keep-drop_tx m k v = elim (Result-cases (remove_tx m k)) [
    | inl ((m', e), a) ↦ rw (a, drop_tx) (keep-remove_tx m k v a)
    | inr (x, a) ↦ rw (a, drop_tx) v
  ]

  keep-drop_each : (ks : List Txid) (m : Mempool) → P m.entries → P (drop_each ks m).entries
  unfolding drop_each
  keep-drop_each [] m v = v
  keep-drop_each (k ∷ ks) m v = keep-drop_each ks (drop_tx m k) (keep-drop_tx m k v)

  keep-remove_counting :
      (ks : List Txid) (removed : ℕ) (m : Mempool)
      → P m.entries
      → P (remove_counting ks removed m).0.entries
  unfolding remove_counting
  keep-remove_counting [] removed m v = v
  keep-remove_counting (k ∷ ks) removed m v = elim (Result-cases (remove_tx m k)) [
    | inl ((m', e), a) ↦
        rw (a, remove_counting)
          (keep-remove_counting ks (add64 removed 1) m' (keep-remove_tx m k v a))
    | inr (x, a) ↦ rw (a, remove_counting) (keep-remove_counting ks removed m v)
  ]

  keep-evict_loop :
      (current evicted : ℕ) (es : List MempoolEntry) (m : Mempool)
      → P m.entries
      → P (evict_loop current evicted es m).entries
  unfolding evict_loop
  keep-evict_loop current evicted [] m v = v
  keep-evict_loop current evicted (e ∷ es) m v =
      elim (Bool-cases (leb (sub64 current evicted) m.policy.max_size)) [
        | inl enough ↦ rw (enough, evict_loop) v
        | inr more ↦ elim (Result-cases (remove_tx m e.txid)) [
          | inl ((m', x), a) ↦
              rw (more, evict_loop, a)
                (keep-evict_loop current (add64 evicted e.vsize) es m'
                  (keep-remove_tx m e.txid v a))
          | inr (x, a) ↦ rw (more, evict_loop, a) (keep-evict_loop current evicted es m v)
        ]
      ]

  keep-maybe_evict : (m : Mempool) → P m.entries → P (maybe_evict m).entries
  unfolding maybe_evict
  keep-maybe_evict m v =
      if-elim (λ (x : Mempool). P x.entries) (leb m.total_size m.policy.max_size) (λ t. v)
        (λ t. keep-evict_loop m.total_size 0 (sort_by by_fee_rate (values m.entries)) m v)

  keep-finish_add :
      (m : Mempool) (entry : MempoolEntry) (now : ℕ)
      → P m.entries
      → lookup entry.txid m.entries ≡ none
      → entry.children ≡ []
      → P (finish_add m entry now).0.entries
  unfolding finish_add place
  keep-finish_add m entry now v new childless =
      let parents = find_parents m.entries [] (prevouts entry.tx) in
      let a =
        calculate_ancestors m.entries (keys parents) (record { count = 0; size = 0; fees = 0 }) in
      elim (Result-cases
        (check_ancestor_limits m.policy (add64 a.count 1) (add64 a.size entry.vsize))) [
          | inl (u, e) ↦
              rw (e, finish_add)
                (keep-maybe_evict _ (
                  attaches m (place entry parents a) now v
                    (place-IsNew m.entries entry a new childless)))
          | inr (x, e) ↦ rw (e, finish_add) v
        ]

  keep-add_tx :
      (m : Mempool) (tx : Transaction) (fee height now : ℕ)
      → P m.entries
      → P (add_tx m tx fee height now).0.entries
  unfolding add_tx new_entry
  keep-add_tx m tx fee height now v = elim (Result-cases (admit m tx entry)) [
    | inr (x, e) ↦ rw (e, add_tx) v
    | inl (ks, e) ↦ elim (Result-cases (make_room m entry ks)) [
      | inr (x, f) ↦ rw (e, add_tx, f) v
      | inl (m', f) ↦
          let ad = admit-Admitted m tx entry e in
          let same : m' ≡ drop_each ks m = make_room-eq-ok m entry ks f in
          rw (e, add_tx, f, same)
            (keep-finish_add _ entry now (keep-drop_each ks m v)
              (still_free ks m tx.compute_txid ad.is_new) refl)
    ]
  ]
    where
      entry : MempoolEntry
      entry = new_entry tx fee height now

  keep-step : (m : Mempool) (c : Call) → P m.entries → P (step m c).entries
  unfolding step set_kernel clear update_height remove_expired
  keep-step m (adds tx fee height now) v = keep-add_tx m tx fee height now v
  keep-step m (removes txid) v = keep-drop_tx m txid v
  keep-step m (sets_height height now) v = keep-remove_counting _ 0 _ v
  keep-step m (sets_kernel kernel) v = v
  keep-step m clears v = empty

  keep-run : (cs : List Call) (m : Mempool) → P m.entries → P (run cs m).entries
  unfolding run
  keep-run [] m v = v
  keep-run (c ∷ cs) m v = keep-run cs (step m c) (keep-step m c v)

  pub keep-run-new_pool :
      (policy : MempoolPolicy) (cs : List Call) → P (run cs (new_pool policy)).entries
  unfolding new_pool
  keep-run-new_pool policy cs = keep-run cs (new_pool policy) empty
