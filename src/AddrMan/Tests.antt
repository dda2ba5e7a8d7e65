-- ===== src/AddrMan/Tests.antt =====
-- Tests of the model of src/addrman.rs, and its theorems at concrete managers.
use btck_rust_node.Common.{
  ℕ, ◌-◌, ◌*◌, ◌/◌, ◌≡◌, ◌≤◌, ◌⊎◌, refl, true, none, some, List, [], ◌∷◌, arith, leb, min, max,
  ℕ_discrete, lookup, insert, remove, length, take, IsUnique, Has, total,
}
use btck_rust_node.Chain.{SocketAddr}
use btck_rust_node.AddrMan.{
  AddressManager, new_manager, victim, make_room, succeed, get_new_bucket, get_tried_bucket,
  add_new, add_address, promote, good, add_own_address, new_info, is_good, is_terrible,
}
use btck_rust_node.AddrMan.Select.{
  Float, Draw, IsInRange, candidates, get_chance, pick, choose, select_from_map, select,
  select_multiple, share_loop, get_addresses,
}
use btck_rust_node.AddrMan.Calls.{
  AddrCall, adds, goods, owns, step, run, IsSound, run-new_manager-IsSound,
}
use btck_rust_node.AddrMan.Own.{is_absent, run-add_own_address, IsPromoted, good-IsPromoted}
use btck_rust_node.AddrMan.Choice.{IsCandidate, chosen, select_lem}
use btck_rust_node.AddrMan.Several.{IsOffered, select_multiple_lem, all_shared, get_addresses_lem}

-- A hasher: the sum of what it is fed.
abbrev sum_hash : List SocketAddr → ℕ
sum_hash = total (λ a. a)

-- Two addresses, of which the first is good later; the third is the node's own.
abbrev two_calls : List AddrCall
two_calls =
    owns 3
    ∷ adds 1 9 none 5 0
    ∷ adds 2 9 (some 7) 6 0
    ∷ adds 3 9 none 6 0
    ∷ goods 1 (8 * 1000000000)
    ∷ []

unfoldable two_addresses : AddressManager
two_addresses = run sum_hash two_calls new_manager

-- A minute later.
abbrev a_minute_later : ℕ
a_minute_later = 70 * 1000000000

get_addresses_example : get_addresses two_addresses 5 a_minute_later ≡ (1, 9) ∷ (2, 9) ∷ []
unfolding two_addresses run step add_address add_new make_room victim get_new_bucket
    get_tried_bucket good promote succeed new_info new_manager add_own_address is_good is_terrible
    share_loop get_addresses lookup insert remove ℕ_discrete
get_addresses_example = refl

-- Just after its success the first address is not shared.
get_addresses_at_once : get_addresses two_addresses 5 (9 * 1000000000) ≡ (2, 9) ∷ []
unfolding two_addresses run step add_address add_new make_room victim get_new_bucket
    get_tried_bucket good promote succeed new_info new_manager add_own_address is_good is_terrible
    share_loop get_addresses lookup insert remove ℕ_discrete
get_addresses_at_once = refl

-- Fractions in millionths.
abbrev millionths : Float ℕ
millionths = record {
  zero_f = 0;
  one = 1000000;
  two = 2000000;
  hundredth = 10000;
  of_u32 = λ n. n * 1000000;
  mul = λ a b. a * b / 1000000;
  div = λ a b. a * 1000000 / b;
  sub = λ a b. a - b;
  min_f = min;
  max_f = max;
  sum = total (λ a. a);
  le = leb;
}

abbrev half_draw : Draw ℕ
half_draw = record { coin = true; index = λ n. n - 1; unit_f = 500000 }

half_draw-IsInRange : IsInRange half_draw
half_draw-IsInRange n h = omega (arith, h)

two_addresses-IsSound : IsSound sum_hash two_addresses
unfolding two_addresses
two_addresses-IsSound = run-new_manager-IsSound sum_hash two_calls

select_test : select millionths two_addresses a_minute_later half_draw ≡ some 1
unfolding two_addresses run step add_address add_new make_room victim get_new_bucket
    get_tried_bucket good promote succeed new_info new_manager add_own_address is_good is_terrible
    lookup insert remove ℕ_discrete select select_from_map candidates choose pick get_chance
select_test = refl

-- The tried address is still terrible, and the new one is not looked at.
select_at_once : select millionths two_addresses (9 * 1000000000) half_draw ≡ none
unfolding two_addresses run step add_address add_new make_room victim get_new_bucket
    get_tried_bucket good promote succeed new_info new_manager add_own_address is_good is_terrible
    lookup insert remove ℕ_discrete select select_from_map candidates choose pick get_chance
select_at_once = refl

run-new_manager-IsSound_example : IsSound sum_hash (run sum_hash two_calls new_manager)
run-new_manager-IsSound_example = run-new_manager-IsSound sum_hash two_calls

run-add_own_address_example :
    is_absent 4
      (run sum_hash (adds 4 9 none 5 0 ∷ goods 4 8 ∷ []) (add_own_address two_addresses 4))
    ≡ true
unfolding two_addresses run step add_address add_new make_room victim get_new_bucket
    get_tried_bucket good promote new_manager add_own_address lookup insert remove ℕ_discrete
run-add_own_address_example =
    run-add_own_address sum_hash 4 two_addresses (adds 4 9 none 5 0 ∷ goods 4 8 ∷ []) refl

good-IsPromoted_example : IsPromoted 2 50 (good sum_hash two_addresses 2 50)
unfolding two_addresses run step add_address add_new make_room victim get_new_bucket
    get_tried_bucket good promote new_manager add_own_address lookup insert remove ℕ_discrete
good-IsPromoted_example = good-IsPromoted sum_hash two_addresses 2 50 two_addresses-IsSound refl

select_lem_example :
    ((select millionths two_addresses a_minute_later half_draw ≡ none)
      × (candidates a_minute_later (chosen half_draw two_addresses) ≡ []))
    ⊎ ((a : SocketAddr) × (select millionths two_addresses a_minute_later half_draw ≡ some a)
        × IsCandidate a_minute_later (chosen half_draw two_addresses) a)
select_lem_example =
    select_lem millionths sum_hash two_addresses a_minute_later half_draw two_addresses-IsSound
      half_draw-IsInRange

select_multiple_lem_example :
    (let result = select_multiple millionths two_addresses a_minute_later (λ i. half_draw) 2 in
      IsUnique result
      × (length result ≤ 2)
      × ((a : SocketAddr) → Has a result → IsOffered a_minute_later two_addresses a))
select_multiple_lem_example =
    select_multiple_lem millionths sum_hash two_addresses a_minute_later (λ i. half_draw) 2
      two_addresses-IsSound (λ i. half_draw-IsInRange)

get_addresses_lem_example :
    (get_addresses two_addresses 1 a_minute_later
      ≡ take 1 (all_shared two_addresses a_minute_later))
    × (length (get_addresses two_addresses 1 a_minute_later) ≤ 1)
get_addresses_lem_example = get_addresses_lem two_addresses 1 a_minute_later
