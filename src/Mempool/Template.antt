-- ===== src/Mempool/Template.antt =====
-- `get_ancestors` and `get_block_template` of src/mempool/txmempool.rs.
pub mod Ancestors
pub mod Reach
pub mod Found
pub mod Included
pub mod Closed
mod Tests
use btck_rust_node.Common.{
  ℕ, zero, suc, Bool, true, false, not, ◌&&◌, Option, none, some, List, [], ◌∷◌, ◌++◌, ltb, leb,
  if◌then◌else◌, nat_key, keys, values, lookup, contains, add, HashSet, length, total,
}
use btck_rust_node.Common.Words.{add64}
use btck_rust_node.Chain.{Txid, Transaction}
use btck_rust_node.Mempool.Entry.{MempoolEntry, ancestor_fee_rate}
use btck_rust_node.Mempool.Pool.{Mempool, sort_by}

-- The state of the loop of `get_ancestors`; the next to visit is the first.
pub record Visit : Type 0 where
  pub to_visit : List Txid
  pub visited : HashSet Txid
  pub ancestors : List Txid

-- The parents that are not visited are put on the stack and among the ancestors.
unfoldable pub push_parents : List Txid → Visit → Visit
push_parents [] s = s
push_parents (p ∷ ps) s = push_parents ps (
    if contains p s.visited
    then s
    else record s { to_visit = p ∷ s.to_visit; ancestors = s.ancestors ++ p ∷ [] })

unfoldable pub visit : List (Txid × MempoolEntry) → Txid → Visit → Visit
visit entries current s = elim (lookup current entries) [
  | none ↦ record s { visited = add current s.visited }
  | some e ↦ push_parents (keys e.parents) (record s { visited = add current s.visited })
]

-- One round of the loop, which does nothing once the stack is empty.
unfoldable pub visit_next : List (Txid × MempoolEntry) → Visit → Visit
visit_next entries s = elim s.to_visit [
  | [] ↦ s
  | current ∷ rest ↦
      let popped = record s { to_visit = rest } in
      if contains current s.visited then popped else visit entries current popped
]

unfoldable pub visit_loop : ℕ → List (Txid × MempoolEntry) → Visit → Visit
visit_loop zero entries s = s
visit_loop (suc n) entries s = visit_loop n entries (visit_next entries s)

-- A round for the transaction and for each link to a parent.
unfoldable pub enough_rounds : List (Txid × MempoolEntry) → ℕ
enough_rounds entries = suc (total (λ (p : Txid × MempoolEntry). length p.1.parents) entries)

abbrev pub start_visit : Txid → Visit
start_visit txid = record { to_visit = txid ∷ []; visited = []; ancestors = [] }

unfoldable pub get_ancestors : List (Txid × MempoolEntry) → Txid → List Txid
get_ancestors entries txid =
    (visit_loop (enough_rounds entries) entries (start_visit txid)).ancestors

abbrev pub by_ancestor_fee_rate : MempoolEntry → MempoolEntry → Bool
by_ancestor_fee_rate a b = leb (ancestor_fee_rate b) (ancestor_fee_rate a)

-- The state of the loop of `get_block_template`.
pub record Template : Type 0 where
  pub template : List Transaction
  pub included : HashSet Txid
  pub current_weight : ℕ

-- The check of the ancestors: each that is missing fits by itself.
unfoldable pub can_include : ℕ → List (Txid × MempoolEntry) → Template → List Txid → Bool
can_include max_weight entries t [] = true
can_include max_weight entries t (k ∷ ks) =
    let rest = can_include max_weight entries t ks in
    if contains k t.included then rest else elim (lookup k entries) [
      | none ↦ rest
      | some e ↦ if ltb max_weight (add64 t.current_weight e.tx.weight) then false else rest
    ]

unfoldable pub include : MempoolEntry → Txid → Template → Template
include e k t = record {
  template = t.template ++ e.tx ∷ [];
  included = add k t.included;
  current_weight = add64 t.current_weight e.tx.weight;
}

unfoldable pub include_each : List (Txid × MempoolEntry) → List Txid → Template → Template
include_each entries [] t = t
include_each entries (k ∷ ks) t = include_each entries ks (
    if contains k t.included
    then t
    else elim (lookup k entries) [ none ↦ t | some e ↦ include e k t ])

-- One round of the loop of `get_block_template`.
unfoldable pub consider : ℕ → List (Txid × MempoolEntry) → MempoolEntry → Template → Template
consider max_weight entries e t =
    if contains e.txid t.included
    then t
    else (if ltb max_weight (add64 t.current_weight e.tx.weight)
        then t
        else (let ancestors = get_ancestors entries e.txid in
            if can_include max_weight entries t ancestors
            then include e e.txid (include_each entries ancestors t)
            else t))

unfoldable pub template_loop :
    ℕ → List (Txid × MempoolEntry) → List MempoolEntry → Template → Template
template_loop max_weight entries [] t = t
template_loop max_weight entries (e ∷ es) t =
    template_loop max_weight entries es (consider max_weight entries e t)

unfoldable pub get_block_template : Mempool → ℕ → List Transaction
get_block_template m max_weight =
    (template_loop max_weight m.entries (sort_by by_ancestor_fee_rate (values m.entries))
      (record { template = []; included = []; current_weight = 0 })).template
