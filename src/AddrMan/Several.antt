-- ===== src/AddrMan/Several.antt =====
-- What `select_multiple` and `get_addresses` of src/addrman.rs answer.
use btck_rust_node.Common.{
  ℕ, zero, suc, ◌≡◌, ◌≤◌, ◌+◌, ◌∙◌, refl, sym, ap, subst, Bool, true, not, ◌&&◌, Option, none, some,
  List, [], ◌∷◌, ◌++◌, leb, ltb, if◌then◌else◌, arith, nat_key, contains, HashSet, length, Has,
  Has-append, IsUnique, IsUnique-append_one, take, lookup-insert, Bool-cases, inl, inr, ◌⊎◌,
  none-some, some-eq, if-elim, length-append,
}
use mathlib.Core.List.{append_assoc}
use btck_rust_node.Common.Words.{mul64}
use btck_rust_node.AddrMan.{AddressInfo, AddressManager, is_good, is_terrible}
use btck_rust_node.Chain.{SocketAddr}
use btck_rust_node.AddrMan.Select.{
  Float, Draw, IsInRange, Entry, select, select_loop, select_multiple, keep_new, share_loop,
  get_addresses,
}
use btck_rust_node.AddrMan.Calls.{IsSound}
use btck_rust_node.AddrMan.Choice.{IsCandidate, chosen, select_lem}

-- An entry of one of the tables that is not terrible.
unfoldable pub IsOffered : ℕ → AddressManager → SocketAddr → Type 0
IsOffered now m a = IsCandidate now m.tried_addrs a ⊎ IsCandidate now m.new_addrs a

-- What the rounds of `select_multiple` have found.
record IsFound (now count : ℕ) (m : AddressManager) (found : HashSet SocketAddr × List SocketAddr)
    : Type 0 where
  pub known : (a : SocketAddr) → Has a found.1 → contains a found.0 ≡ true
  pub unique : IsUnique found.1
  pub offered : (a : SocketAddr) → Has a found.1 → IsOffered now m a

keep_new-IsFound :
    (now count : ℕ) (m : AddressManager) (o : Option SocketAddr)
    (found : HashSet SocketAddr × List SocketAddr)
    → IsFound now count m found
    → ((a : SocketAddr) → o ≡ some a → IsOffered now m a)
    → IsFound now count m (keep_new o found) × (length (keep_new o found).1 ≤ length found.1 + 1)
unfolding keep_new
keep_new-IsFound now count m none found v h = (v, omega arith)
keep_new-IsFound now count m (some a) found v h =
    if-elim
      (λ (f : HashSet SocketAddr × List SocketAddr).
        IsFound now count m f × (length f.1 ≤ length found.1 + 1))
      (contains a found.0) (λ t. (v, omega arith))
      (λ t. (
        record {
          known = λ b q. elim (Has-append b found.1 (a ∷ []) q) [
            | inl old ↦ ground (arith, v.known b old, lookup-insert a b tt found.0)
            | inr (inl same) ↦ ground (arith, lookup-insert a b tt found.0)
            | inr (inr z) ↦ elim z [ ]
          ];
          unique = IsUnique-append_one found.1 a v.unique (λ q. ground (arith, v.known a q));
          offered = λ b q. elim (Has-append b found.1 (a ∷ []) q) [
            | inl old ↦ v.offered b old
            | inr (inl same) ↦ subst (IsOffered now m) same (h a refl)
            | inr (inr z) ↦ elim z [ ]
          ];
        },
        omega (arith, length-append found.1 (a ∷ [])),
      ))

module _ {F : Type 0} (ops : Float F) (finish : List SocketAddr → ℕ) where
  select-IsOffered :
      (m : AddressManager) (now : ℕ) (r : Draw F)
      → IsSound finish m
      → IsInRange r
      → (a : SocketAddr) → select ops m now r ≡ some a
      → IsOffered now m a
  unfolding IsOffered chosen
  select-IsOffered m now r v w a h = elim (select_lem ops finish m now r v w) [
    | inl (b, _) ↦ absurd (none-some b h)
    | inr (b, there, fine) ↦
        let P : List Entry → Type 0 = λ es. IsCandidate now es b → IsOffered now m a in
        let back : b ≡ a = some-eq (sym there ∙ h) in
        let old : P m.tried_addrs = λ x. inl (subst (IsCandidate now m.tried_addrs) back x) in
        let new : P m.new_addrs = λ x. inr (subst (IsCandidate now m.new_addrs) back x) in
        if-elim P (r.coin && ltb 0 (length m.tried_addrs)) (λ t. old)
          (λ t. if-elim P (ltb 0 (length m.new_addrs)) (λ u. new) (λ u. old)) fine
  ]

  select_loop_lem :
      (n : ℕ) (draws : ℕ → Draw F) (m : AddressManager) (now count : ℕ)
      (found : HashSet SocketAddr × List SocketAddr)
      → IsSound finish m
      → ((i : ℕ) → IsInRange (draws i))
      → IsFound now count m found
      → length found.1 ≤ count
      → (let result = select_loop ops n draws m now count found in
          IsUnique result
          × (length result ≤ count)
          × ((a : SocketAddr) → Has a result → IsOffered now m a))
  unfolding select_loop
  select_loop_lem zero draws m now count found v w f k = (f.unique, k, f.offered)
  select_loop_lem (suc n) draws m now count found v w f k =
      if-elim
        (λ (result : List SocketAddr).
          IsUnique result
          × (length result ≤ count)
          × ((a : SocketAddr) → Has a result → IsOffered now m a))
        (leb count (length found.1)) (λ t. (f.unique, k, f.offered))
        (λ t.
          let o = select ops m now (draws n) in
          let (f', longer) =
            keep_new-IsFound now count m o found f (select-IsOffered m now (draws n) v (w n)) in
          select_loop_lem n draws m now count (keep_new o found) v w f' (ground arith))

  -- On a manager that is sound, `select_multiple` answers no address twice, no more than were asked
  -- for, and only addresses of the tables that are not terrible. The random indices are within their
  -- ranges.
  pub select_multiple_lem :
      (m : AddressManager) (now : ℕ) (draws : ℕ → Draw F) (count : ℕ)
      → IsSound finish m
      → ((i : ℕ) → IsInRange (draws i))
      → (let result = select_multiple ops m now draws count in
          IsUnique result
          × (length result ≤ count)
          × ((a : SocketAddr) → Has a result → IsOffered now m a))
  unfolding select_multiple
  select_multiple_lem m now draws count v w =
      select_loop_lem (mul64 count 3) draws m now count ([], []) v w
        (record { known = λ a h. elim h [ ]; unique = tt; offered = λ a h. elim h [ ] })
        (omega arith)

-- The entries that pass a test, with their services.
unfoldable pub shared : (AddressInfo → Bool) → List Entry → List (SocketAddr × ℕ)
shared test [] = []
shared test (c ∷ cs) =
    let rest = shared test cs in if test c.1 then (c.0, c.1.services) ∷ rest else rest

-- The entries that `get_addresses` would answer without a limit.
abbrev pub all_shared : AddressManager → ℕ → List (SocketAddr × ℕ)
all_shared m now =
    shared (λ info. is_good info now && not (is_terrible info now)) m.tried_addrs
    ++ shared (λ info. not (is_terrible info now)) m.new_addrs

module _ {A : Type 0} where
  length-take-le : (n : ℕ) (xs : List A) → length (take n xs) ≤ n
  unfolding take
  length-take-le zero xs = omega arith
  length-take-le (suc n) [] = omega arith
  length-take-le (suc n) (x ∷ xs) = omega (arith, length-take-le n xs)

  take-append_full : (xs ys : List A) (n : ℕ) → length xs ≡ n → take n (xs ++ ys) ≡ xs
  unfolding take
  take-append_full [] ys n h = subst (λ k. take k ys ≡ []) h refl
  take-append_full (x ∷ xs) ys zero h = absurd (omega (arith, h))
  take-append_full (x ∷ xs) ys (suc n) h =
      ap (λ r. x ∷ r) (take-append_full xs ys n (omega (arith, h)))

  take_all : (xs : List A) (n : ℕ) → length xs ≤ n → take n (xs ++ []) ≡ xs
  unfolding take
  take_all [] zero h = refl
  take_all [] (suc n) h = refl
  take_all (x ∷ xs) zero h = absurd (omega (arith, h))
  take_all (x ∷ xs) (suc n) h = ap (λ r. x ∷ r) (take_all xs n (omega (arith, h)))

  take-append-take : (n : ℕ) (xs ys : List A) → take n (take n xs ++ ys) ≡ take n (xs ++ ys)
  unfolding take
  take-append-take zero xs ys = refl
  take-append-take (suc n) [] ys = refl
  take-append-take (suc n) (x ∷ xs) ys = ap (λ r. x ∷ r) (take-append-take n xs ys)

share_loop_lem :
    (test : AddressInfo → Bool) (max_count : ℕ) (cs : List Entry) (result : List (SocketAddr × ℕ))
    → length result ≤ max_count
    → share_loop test max_count cs result ≡ take max_count (result ++ shared test cs)
unfolding share_loop shared
share_loop_lem test max_count [] result h = sym (take_all result max_count h)
share_loop_lem test max_count (c ∷ cs) result h =
    elim (Bool-cases (leb max_count (length result))) [
      | inl full ↦ rw full (sym (take-append_full result _ max_count (ground arith)))
      | inr room ↦
          let entry : SocketAddr × ℕ = (c.0, c.1.services) in
          rw room (elim (Bool-cases (test c.1)) [
            | inl t ↦ rw t (
                share_loop_lem test max_count cs (result ++ entry ∷ [])
                  (ground (arith, length-append result (entry ∷ [])))
                ∙ ap (take max_count) (append_assoc result (entry ∷ []) (shared test cs)))
            | inr t ↦ rw t (share_loop_lem test max_count cs result h)
          ])
    ]

-- `get_addresses` answers, up to the limit, the tried addresses that are good and not terrible and
-- then the new ones that are not terrible, with their services.
pub get_addresses_lem :
    (m : AddressManager) (max_count now : ℕ)
    → (get_addresses m max_count now ≡ take max_count (all_shared m now))
      × (length (get_addresses m max_count now) ≤ max_count)
unfolding get_addresses
get_addresses_lem m max_count now = (same, rw same (length-take-le max_count (all_shared m now)))
  where
    tried : List (SocketAddr × ℕ)
    tried = shared (λ info. is_good info now && not (is_terrible info now)) m.tried_addrs

    fresh : List (SocketAddr × ℕ)
    fresh = shared (λ info. not (is_terrible info now)) m.new_addrs

    first :
        share_loop
          (λ info. is_good info now && not (is_terrible info now))
          max_count
          m.tried_addrs
          []
        ≡ take max_count tried
    first = share_loop_lem _ max_count m.tried_addrs [] (omega arith)

    same : get_addresses m max_count now ≡ take max_count (tried ++ fresh)
    same =
        share_loop_lem _ max_count m.new_addrs _ (rw first (length-take-le max_count tried))
        ∙ ap (λ r. take max_count (r ++ fresh)) first
        ∙ take-append-take max_count tried fresh
