-- ===== src/Mempool/Template/Tests.antt =====
-- Runs of `get_ancestors` and `get_block_template` (src/mempool/txmempool.rs) on three transactions,
-- each of which spends the one before.
use btck_rust_node.Common.{
  ◌≡◌, ◌↔◌, refl, some, List, [], ◌∷◌, lookup, insert, remove, adjust, adjust_all, insert_all,
  nat_key, arith, ℕ_discrete, Has, total,
}
use btck_rust_node.Chain.{Txid, outpoint_key, OutPoint-discrete, Transaction}
use btck_rust_node.Mempool.Entry.{
  new_entry, check_rbf_signaling, from_sat_per_kvb, ancestor_fee_rate, update_descendant_state,
}
use btck_rust_node.Mempool.Policy.{
  default_policy, check_ancestor_limits, is_fee_acceptable, is_size_acceptable,
}
use btck_rust_node.Mempool.Pool.{
  Mempool, new_pool, add_tx, admit, make_room, finish_add, find_conflicts, find_parents,
  calculate_ancestors, place, attach, adopt, maybe_evict, kernel_check, sort_by, insert_sorted,
}
use btck_rust_node.Mempool.History.{Call, adds, step, run}
use btck_rust_node.Mempool.Order.{IsForest, run-new_pool-IsForest}
use btck_rust_node.Mempool.Template.{
  push_parents, visit, visit_next, visit_loop, enough_rounds, start_visit, get_ancestors,
  can_include, include, include_each, consider, template_loop, get_block_template,
}
use btck_rust_node.Mempool.Template.Ancestors.{get_ancestors-ends}
use btck_rust_node.Mempool.Template.Reach.{Ancestor}
use btck_rust_node.Mempool.Template.Found.{get_ancestors_iff}
use btck_rust_node.Mempool.Template.Included.{ids}

-- A transaction with a given id that spends the output of another.
abbrev spends : Txid → Txid → Transaction
spends txid from = record {
  input = record { previous_output = record { txid = from; vout = 0 }; sequence = 0 } ∷ [];
  output = 900 ∷ [];
  compute_txid = txid;
  vsize = 100;
  weight = 400;
  encoded_len = some 100;
}

abbrev chain_calls : List Call
chain_calls =
    adds (spends 11 7) 1000 5 9 ∷ adds (spends 12 11) 3000 5 9 ∷ adds (spends 13 12) 9000 5 9 ∷ []

unfoldable chain_pool : Mempool
chain_pool = run chain_calls (new_pool default_policy)

get_ancestors_test : get_ancestors chain_pool.entries 13 ≡ 12 ∷ 11 ∷ []
unfolding chain_pool run step add_tx admit make_room finish_add new_entry new_pool find_conflicts
    find_parents calculate_ancestors place attach adopt update_descendant_state maybe_evict
    kernel_check check_ancestor_limits is_fee_acceptable is_size_acceptable lookup insert remove
    adjust adjust_all insert_all check_rbf_signaling from_sat_per_kvb ℕ_discrete OutPoint-discrete
    get_ancestors enough_rounds visit_loop visit_next visit push_parents
get_ancestors_test = refl

-- The parent comes before the grandparent, and three transactions of 400 exceed a limit of 700.
template_too_heavy :
    (ids (get_block_template chain_pool 700) ≡ 12 ∷ 11 ∷ 13 ∷ [])
    × (total (λ (tx : Transaction). tx.weight) (get_block_template chain_pool 700) ≡ 1200)
unfolding chain_pool run step add_tx admit make_room finish_add new_entry new_pool find_conflicts
    find_parents calculate_ancestors place attach adopt update_descendant_state maybe_evict
    kernel_check check_ancestor_limits is_fee_acceptable is_size_acceptable lookup insert remove
    adjust adjust_all insert_all check_rbf_signaling from_sat_per_kvb ℕ_discrete OutPoint-discrete
    get_ancestors enough_rounds visit_loop visit_next visit push_parents get_block_template
    template_loop consider can_include include include_each sort_by insert_sorted ancestor_fee_rate
template_too_heavy = (refl, refl)

chain_pool-IsForest : IsForest chain_pool.entries
unfolding chain_pool
chain_pool-IsForest = run-new_pool-IsForest default_policy chain_calls

get_ancestors-ends_example :
    ((visit_loop (enough_rounds chain_pool.entries) chain_pool.entries (start_visit 13)).to_visit
      ≡ [])
    × ((visit_loop (enough_rounds chain_pool.entries) chain_pool.entries (start_visit 13)).ancestors
        ≡ get_ancestors chain_pool.entries 13)
get_ancestors-ends_example =
    get_ancestors-ends chain_pool.entries 13 (enough_rounds chain_pool.entries) (omega arith)

get_ancestors_iff_example :
    ((x : Txid) → Has x (get_ancestors chain_pool.entries 13) ↔ Ancestor chain_pool.entries x 13)
    × (¬ Has 13 (get_ancestors chain_pool.entries 13))
get_ancestors_iff_example = get_ancestors_iff chain_pool.entries 13 chain_pool-IsForest.ordered
