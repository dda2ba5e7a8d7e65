-- ===== src/Mempool/Order.antt =====
-- The entries of the pool (src/mempool/txmempool.rs) are linked without cycles: the parents of an
-- entry came before it.
use btck_rust_node.Common.{
  ℕ, suc, ◌≡◌, ◌<◌, refl, ◌∙◌, Bool, true, false, some, List, [], ◌∷◌, ◌==◌, if◌then◌else◌, arith,
  nat_key, keys, lookup, insert, remove, adjust, adjust_all, contains_key,
}
use btck_rust_node.Chain.{Txid}
use btck_rust_node.Mempool.Entry.{MempoolEntry}
use btck_rust_node.Mempool.Policy.{MempoolPolicy}
use btck_rust_node.Mempool.Pool.{
  Mempool, new_pool, forget_child, forget_parent, detach, adopt, attach,
}
use btck_rust_node.Mempool.History.{Call, run}
use btck_rust_node.Mempool.Induction.{Entries, IsNew, keep-run-new_pool}
use btck_rust_node.Mempool.Flags.{flag, has_parent, has_child, contains_key-adjust}
use btck_rust_node.Mempool.Links.{
  IsLinked, IsLinked-empty, parent-detach, detach-IsLinked, parent-attach, attach-IsLinked,
}

-- The place of a key, or the number of entries if it is in none.
unfoldable pub index : Txid → Entries → ℕ
index k [] = 0
index k ((j, e) ∷ es) = if j == k then 0 else suc (index k es)

-- Each parent stands before its child.
abbrev pub IsOrdered : Entries → Type 0
IsOrdered es = (p c : Txid) → flag (has_parent p) c es ≡ true → index p es < index c es

index-adjust :
    (k c : Txid) (f : MempoolEntry → MempoolEntry) (es : Entries)
    → index c (adjust k f es) ≡ index c es
unfolding index adjust
index-adjust k c f [] = refl
index-adjust k c f ((j, e) ∷ es) = ground (arith, index-adjust k c f es)

index-adjust_all :
    (c : Txid) (f : MempoolEntry → MempoolEntry) (ks : List Txid) (es : Entries)
    → index c (adjust_all ks f es) ≡ index c es
unfolding adjust_all
index-adjust_all c f [] es = refl
index-adjust_all c f (k ∷ ks) es = index-adjust_all c f ks (adjust k f es) ∙ index-adjust k c f es

-- Removal leaves the order of the other keys.
index-remove-lt :
    (k p c : Txid) (es : Entries)
    → (k == p) ≡ false
    → (k == c) ≡ false
    → index p es < index c es
    → index p (remove k es) < index c (remove k es)
unfolding index remove
index-remove-lt k p c [] a b h = h
index-remove-lt k p c ((j, e) ∷ es) a b h = ground (arith, index-remove-lt k p c es a b)

-- A new key comes last.
index-insert_old :
    (k c : Txid) (e : MempoolEntry) (es : Entries)
    → contains_key c es ≡ true
    → index c (insert k e es) ≡ index c es
unfolding index insert lookup
index-insert_old k c e [] h = absurd (ground arith)
index-insert_old k c e ((j, d) ∷ es) h = ground (arith, index-insert_old k c e es)

index-insert_new :
    (k p : Txid) (e : MempoolEntry) (es : Entries)
    → contains_key k es ≡ false
    → contains_key p es ≡ true
    → index p es < index k (insert k e es)
unfolding index insert lookup
index-insert_new k p e [] h q = absurd (ground arith)
index-insert_new k p e ((j, d) ∷ es) h q = ground (arith, index-insert_new k p e es)

contains_key-adjust_all :
    (c : Txid) (f : MempoolEntry → MempoolEntry) (ks : List Txid) (es : Entries)
    → contains_key c (adjust_all ks f es) ≡ contains_key c es
unfolding adjust_all
contains_key-adjust_all c f [] es = refl
contains_key-adjust_all c f (k ∷ ks) es =
    contains_key-adjust_all c f ks (adjust k f es) ∙ contains_key-adjust k c f es

pub flag-contains_key :
    (g : MempoolEntry → Bool) (k : Txid) (es : Entries)
    → flag g k es ≡ true
    → contains_key k es ≡ true
unfolding flag
flag-contains_key g k es h = ground arith

-- Entries that are linked both ways and in order.
pub record IsForest (es : Entries) : Type 0 where
  pub linked : IsLinked es
  pub ordered : IsOrdered es

detach-IsForest :
    (m : Mempool) (k : Txid) (e : MempoolEntry)
    → IsForest m.entries
    → lookup k m.entries ≡ some e
    → IsForest (detach m k e).entries
unfolding detach
detach-IsForest m k e v h = record {
  linked = detach-IsLinked m k e v.linked h;
  ordered = λ p c q.
      let es = remove k m.entries in
      let fs = adjust_all (keys e.parents) (forget_child k e) es in
      ground (
        arith,
        v.ordered p c,
        parent-detach m k e v.linked h p c,
        index-remove-lt k p c m.entries,
        index-adjust_all p (forget_child k e) (keys e.parents) es,
        index-adjust_all c (forget_child k e) (keys e.parents) es,
        index-adjust_all p (forget_parent k e) (keys e.children) fs,
        index-adjust_all c (forget_parent k e) (keys e.children) fs,
      );
}

attach-IsForest :
    (m : Mempool) (e : MempoolEntry) (now : ℕ)
    → IsForest m.entries
    → IsNew m.entries e
    → IsForest (attach m e now).entries
unfolding attach
attach-IsForest m e now v w = record {
  linked = attach-IsLinked m e now v.linked w;
  ordered = λ p c q.
      let es = adjust_all (keys e.parents) (adopt e) m.entries in
      ground (
        arith,
        v.ordered p c,
        v.linked p c,
        w.parented p,
        w.free,
        parent-attach m e now p c,
        flag-contains_key (has_parent p) c m.entries,
        flag-contains_key (has_child c) p m.entries,
        index-insert_old e.txid p e es,
        index-insert_old e.txid c e es,
        index-insert_new e.txid p e es,
        contains_key-adjust_all p (adopt e) (keys e.parents) m.entries,
        contains_key-adjust_all c (adopt e) (keys e.parents) m.entries,
        contains_key-adjust_all e.txid (adopt e) (keys e.parents) m.entries,
        index-adjust_all p (adopt e) (keys e.parents) m.entries,
        index-adjust_all c (adopt e) (keys e.parents) m.entries,
      );
}

IsForest-empty : IsForest []
unfolding flag lookup
IsForest-empty = record { linked = IsLinked-empty; ordered = λ p c h. absurd (ground arith) }

-- After any calls on a new pool the links between the entries have no cycle: every parent of an
-- entry is in the pool and came before it, and counts it among its children.
pub run-new_pool-IsForest :
    (policy : MempoolPolicy) (cs : List Call) → IsForest (run cs (new_pool policy)).entries
run-new_pool-IsForest = keep-run-new_pool IsForest IsForest-empty detach-IsForest attach-IsForest
