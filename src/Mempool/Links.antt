-- ===== src/Mempool/Links.antt =====
-- The links between the entries of the pool (src/mempool/txmempool.rs).
use btck_rust_node.Common.{
  ℕ, ◌≡◌, refl, ap, ◌∙◌, Bool, true, false, not, ◌&&◌, ◌||◌, some, List, [], ◌==◌, if◌then◌else◌,
  arith, nat_key, keys, lookup, remove, adjust_all, contains,
}
use btck_rust_node.Chain.{Txid}
use btck_rust_node.Mempool.Policy.{MempoolPolicy}
use btck_rust_node.Mempool.History.{Call, run}
use btck_rust_node.Mempool.Induction.{IsNew, keep-run-new_pool}
use btck_rust_node.Mempool.Entry.{MempoolEntry, update_ancestor_state, update_descendant_state}
use btck_rust_node.Mempool.Pool.{
  Mempool, new_pool, forget_child, forget_parent, detach, adopt, attach,
}
use btck_rust_node.Mempool.Flags.{
  flag, has_parent, has_child, flag-remove, flag-insert, is_one-keys, flag-adjust_all_and,
  flag-adjust_all_or, contains-remove, contains-add, contains-empty, flag-some, flag-none,
}

-- A transaction counts another among its parents exactly if that one counts it among its children:
-- in particular both are in the pool.
abbrev pub IsLinked : List (Txid × MempoolEntry) → Type 0
IsLinked es = (p c : Txid) → flag (has_parent p) c es ≡ flag (has_child c) p es

and_true : (b : Bool) → b ≡ b && true
and_true b = ground arith

has_parent-forget_parent :
    (k p : Txid) (e x : MempoolEntry)
    → has_parent p (forget_parent k e x) ≡ has_parent p x && not (k == p)
unfolding forget_parent update_ancestor_state
has_parent-forget_parent k p e x = contains-remove k p x.parents

has_parent-forget_child :
    (k p : Txid) (e x : MempoolEntry) → has_parent p (forget_child k e x) ≡ has_parent p x && true
unfolding forget_child update_descendant_state
has_parent-forget_child k p e x = and_true (has_parent p x)

has_child-forget_child :
    (k c : Txid) (e x : MempoolEntry)
    → has_child c (forget_child k e x) ≡ has_child c x && not (k == c)
unfolding forget_child update_descendant_state
has_child-forget_child k c e x = contains-remove k c x.children

has_child-forget_parent :
    (k c : Txid) (e x : MempoolEntry) → has_child c (forget_parent k e x) ≡ has_child c x && true
unfolding forget_parent update_ancestor_state
has_child-forget_parent k c e x = and_true (has_child c x)

-- Removing an entry leaves the links between the others, as parents see them and as children do.
pub parent-detach :
    (m : Mempool) (k : Txid) (e : MempoolEntry)
    → IsLinked m.entries
    → lookup k m.entries ≡ some e
    → (p c : Txid)
    → flag (has_parent p) c (detach m k e).entries
      ≡ flag (has_parent p) c m.entries && (not (k == c) && not (k == p))
unfolding detach
parent-detach m k e v h p c =
    let es = remove k m.entries in
    let fs = adjust_all (keys e.parents) (forget_child k e) es in
    ground (
      arith,
      v k c,
      is_one-keys c e.children,
      flag-adjust_all_and (has_parent p) (forget_parent k e) (not (k == p)) c
          (has_parent-forget_parent k p e) (keys e.children) fs,
      flag-adjust_all_and (has_parent p) (forget_child k e) true c (has_parent-forget_child k p e)
          (keys e.parents) es,
      flag-remove (has_parent p) k c m.entries,
      flag-some (has_child c) k e m.entries h,
    )

child-detach :
    (m : Mempool) (k : Txid) (e : MempoolEntry)
    → IsLinked m.entries
    → lookup k m.entries ≡ some e
    → (p c : Txid)
    → flag (has_child c) p (detach m k e).entries
      ≡ flag (has_child c) p m.entries && (not (k == c) && not (k == p))
unfolding detach
child-detach m k e v h p c =
    let es = remove k m.entries in
    let fs = adjust_all (keys e.parents) (forget_child k e) es in
    ground (
      arith,
      v p k,
      is_one-keys p e.parents,
      flag-adjust_all_and (has_child c) (forget_parent k e) true p (has_child-forget_parent k c e)
          (keys e.children) fs,
      flag-adjust_all_and (has_child c) (forget_child k e) (not (k == c)) p
          (has_child-forget_child k c e) (keys e.parents) es,
      flag-remove (has_child c) k p m.entries,
      flag-some (has_parent p) k e m.entries h,
    )

-- Removing an entry removes every link to it.
pub detach-IsLinked :
    (m : Mempool) (k : Txid) (e : MempoolEntry)
    → IsLinked m.entries
    → lookup k m.entries ≡ some e
    → IsLinked (detach m k e).entries
detach-IsLinked m k e v h p c =
    ground (arith, v p c, parent-detach m k e v h p c, child-detach m k e v h p c)

has_parent-adopt :
    (p : Txid) (e x : MempoolEntry) → has_parent p (adopt e x) ≡ has_parent p x || false
unfolding adopt update_descendant_state
has_parent-adopt p e x = ground arith

has_child-adopt :
    (c : Txid) (e x : MempoolEntry) → has_child c (adopt e x) ≡ has_child c x || (e.txid == c)
unfolding adopt update_descendant_state
has_child-adopt c e x = contains-add e.txid c x.children

-- Linking an entry in leaves the parents of the others.
pub parent-attach :
    (m : Mempool) (e : MempoolEntry) (now : ℕ) (p c : Txid)
    → flag (has_parent p) c (attach m e now).entries
      ≡ (if e.txid == c then has_parent p e else flag (has_parent p) c m.entries)
unfolding attach
parent-attach m e now p c =
    let es = adjust_all (keys e.parents) (adopt e) m.entries in
    ground (
      arith,
      flag-insert (has_parent p) e.txid c e es,
      flag-adjust_all_or (has_parent p) (adopt e) false c (has_parent-adopt p e) (keys e.parents)
          m.entries,
    )

-- Linking an entry in, under a new key and with parents in the pool, links both ways.
pub attach-IsLinked :
    (m : Mempool) (e : MempoolEntry) (now : ℕ)
    → IsLinked m.entries
    → IsNew m.entries e
    → IsLinked (attach m e now).entries
unfolding attach
attach-IsLinked m e now v w p c =
    let es = adjust_all (keys e.parents) (adopt e) m.entries in
    let childless : has_child c e ≡ false = ap (contains c) w.childless ∙ contains-empty c in
    ground (
      arith,
      v p c,
      v p e.txid,
      v e.txid c,
      w.parented p,
      parent-attach m e now p c,
      flag-insert (has_child c) e.txid p e es,
      flag-adjust_all_or (has_child c) (adopt e) (e.txid == c) p (has_child-adopt c e)
          (keys e.parents) m.entries,
      is_one-keys p e.parents,
      flag-none (has_parent p) e.txid m.entries w.free,
      flag-none (has_child c) e.txid m.entries w.free,
    )

pub IsLinked-empty : IsLinked []
unfolding flag lookup
IsLinked-empty p c = refl

-- After any calls on a new pool, a transaction counts another among its parents exactly if that
-- one counts it among its children; in particular both are in the pool.
pub run-new_pool-IsLinked :
    (policy : MempoolPolicy) (cs : List Call) → IsLinked (run cs (new_pool policy)).entries
run-new_pool-IsLinked = keep-run-new_pool IsLinked IsLinked-empty detach-IsLinked attach-IsLinked
