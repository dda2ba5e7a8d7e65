-- ===== src/AddrMan/Select.antt =====
-- The choice of addresses in src/addrman.rs: `select`, `select_multiple` and `get_addresses`.
-- The arithmetic of f64 and the random numbers come from outside: the first is an interface, the
-- second are arguments.
use btck_rust_node.Common.{
  ℕ, zero, suc, ◌+◌, ◌%◌, ◌<◌, Bool, not, ◌&&◌, Option, none, some, List, [], ◌∷◌, ◌++◌, map, ltb,
  leb, if◌then◌else◌, nat_key, contains, add, HashSet, length, get_elem?,
}
use btck_rust_node.Common.Words.{mul64, i32_mod}
use btck_rust_node.AddrMan.{AddressInfo, AddressManager, is_within, is_good, is_terrible}
use btck_rust_node.Chain.{SocketAddr}

-- The operations of f64 that are used. Nothing is asked of them.
pub record Float (F : Type 0) : Type 0 where
  pub zero_f : F
  pub one : F
  pub two : F
  pub hundredth : F
  pub of_u32 : ℕ → F
  pub mul : F → F → F
  pub div : F → F → F
  pub sub : F → F → F
  pub min_f : F → F → F
  pub max_f : F → F → F
  pub sum : List F → F
  pub le : F → F → Bool

-- The random numbers of one choice: gen_bool(0.5), gen_range(0..n) and gen::<f64>().
pub record Draw (F : Type 0) : Type 0 where
  pub coin : Bool
  pub index : ℕ → ℕ
  pub unit_f : F

-- gen_range stays in its range.
abbrev pub IsInRange : {F : Type 0} → Draw F → Type 0
IsInRange r = (n : ℕ) → 0 < n → r.index n < n

-- An entry of a table.
abbrev pub Entry : Type 0
Entry = SocketAddr × AddressInfo

unfoldable pub candidates : ℕ → List Entry → List Entry
candidates now [] = []
candidates now (c ∷ cs) =
    let rest = candidates now cs in if is_terrible c.1 now then rest else c ∷ rest

-- A selected address joins the others unless it is among them.
unfoldable pub keep_new :
    Option SocketAddr → HashSet SocketAddr × List SocketAddr → HashSet SocketAddr × List SocketAddr
keep_new none found = found
keep_new (some a) found = if contains a found.0 then found else (add a found.0, found.1 ++ a ∷ [])

module _ {F : Type 0} (ops : Float F) where
  unfoldable pub get_chance : AddressInfo → ℕ → F
  get_chance info now =
      let c =
        if ltb 0 info.attempts
        then ops.div ops.one (ops.of_u32 ((1 + info.attempts) % i32_mod))
        else ops.one in
      let d : F = elim info.last_try [
        | none ↦ c
        | some t ↦ if is_within 600 t now then ops.mul c ops.hundredth else c
      ] in
      let e : F = elim info.last_success [
        | none ↦ d
        | some t ↦ if is_within 1200 t now then ops.mul d ops.two else d
      ] in
      ops.max_f (ops.min_f e ops.one) ops.zero_f

  -- The candidate where the threshold is used up, or else the one given.
  unfoldable pub pick : SocketAddr → F → ℕ → List Entry → SocketAddr
  pick first threshold now [] = first
  pick first threshold now (c ∷ cs) =
      let left = ops.sub threshold (get_chance c.1 now) in
      let later = pick first left now cs in if ops.le left ops.zero_f then c.0 else later

  unfoldable pub choose : Draw F → ℕ → List Entry → Option SocketAddr
  choose r now [] = none
  choose r now (c ∷ cs) =
      let total_weight = ops.sum (map (λ (d : Entry). get_chance d.1 now) (c ∷ cs)) in
      if ops.le total_weight ops.zero_f
      then elim (get_elem? (c ∷ cs) (r.index (length (c ∷ cs)))) [ none ↦ none | some d ↦ some d.0 ]
      else some (pick c.0 (ops.mul r.unit_f total_weight) now (c ∷ cs))

  unfoldable pub select_from_map : Draw F → ℕ → List Entry → Option SocketAddr
  select_from_map r now addrs = choose r now (candidates now addrs)

  unfoldable pub select : AddressManager → ℕ → Draw F → Option SocketAddr
  select m now r =
      if r.coin && ltb 0 (length m.tried_addrs)
      then select_from_map r now m.tried_addrs
      else (if ltb 0 (length m.new_addrs)
          then select_from_map r now m.new_addrs
          else (if ltb 0 (length m.tried_addrs) then select_from_map r now m.tried_addrs else none))

  -- The rounds of `select_multiple`: the number of them that is left, and a draw for each.
  unfoldable pub select_loop :
      ℕ
      → (ℕ → Draw F)
      → AddressManager
      → ℕ
      → ℕ
      → HashSet SocketAddr × List SocketAddr
      → List SocketAddr
  select_loop zero draws m now count found = found.1
  select_loop (suc n) draws m now count found =
      let later = select_loop n draws m now count (keep_new (select m now (draws n)) found) in
      if leb count (length found.1) then found.1 else later

  unfoldable pub select_multiple : AddressManager → ℕ → (ℕ → Draw F) → ℕ → List SocketAddr
  select_multiple m now draws count = select_loop (mul64 count 3) draws m now count ([], [])

-- One loop of `get_addresses`.
unfoldable pub share_loop :
    (AddressInfo → Bool) → ℕ → List Entry → List (SocketAddr × ℕ) → List (SocketAddr × ℕ)
share_loop test max_count [] result = result
share_loop test max_count (c ∷ cs) result =
    let result' = if test c.1 then result ++ (c.0, c.1.services) ∷ [] else result in
    let later = share_loop test max_count cs result' in
    if leb max_count (length result) then result else later

unfoldable pub get_addresses : AddressManager → ℕ → ℕ → List (SocketAddr × ℕ)
get_addresses m max_count now =
    let result =
      share_loop (λ info. is_good info now && not (is_terrible info now)) max_count m.tried_addrs
        [] in
    share_loop (λ info. not (is_terrible info now)) max_count m.new_addrs result

pub record AddressManagerStats : Type 0 where
  pub new_count : ℕ
  pub tried_count : ℕ
  pub total_count : ℕ

unfoldable pub get_stats : AddressManager → AddressManagerStats
get_stats m = record {
  new_count = length m.new_addrs;
  tried_count = length m.tried_addrs;
  total_count = length m.new_addrs + length m.tried_addrs;
}
