-- ===== src/AddrMan/Choice.antt =====
-- What `select`, `select_multiple` and `get_addresses` of src/addrman.rs answer.
use btck_rust_node.Common.{
  ℕ, zero, suc, ◌≡◌, ◌<◌, ◌∙◌, refl, sym, ap, false, ◌&&◌, none, some, List, [], ◌∷◌, map, ltb,
  if◌then◌else◌, arith, nat_key, lookup, length, get_elem?, Has, keys, IsDistinct, Bool-cases, inl,
  inr, ◌⊎◌, none-some, some-eq, if-elim,
}
use btck_rust_node.AddrMan.{AddressInfo, AddressManager, is_terrible}
use btck_rust_node.Chain.{SocketAddr}
use btck_rust_node.AddrMan.Select.{
  Float, Draw, IsInRange, Entry, candidates, get_chance, pick, choose, select_from_map, select,
}
use btck_rust_node.AddrMan.Calls.{IsSound}

-- An entry of a list that is not terrible.
unfoldable pub IsCandidate : ℕ → List Entry → SocketAddr → Type 0
IsCandidate now es a = (e : AddressInfo) × (lookup a es ≡ some e) × (is_terrible e now ≡ false)

lookup_head : (a : SocketAddr) (e : AddressInfo) (es : List Entry) → lookup a ((a, e) ∷ es) ≡ some e
unfolding lookup
lookup_head a e es = ground arith

IsCandidate-tail :
    (now : ℕ) (c : Entry) (es : List Entry) (a : SocketAddr)
    → lookup c.0 es ≡ none
    → IsCandidate now es a
    → IsCandidate now (c ∷ es) a
unfolding lookup IsCandidate
IsCandidate-tail now c es a new (e, h, t) = (e, ground arith, t)

Has-candidates :
    (now : ℕ) (es : List Entry) (a : SocketAddr)
    → IsDistinct es
    → Has a (keys (candidates now es))
    → IsCandidate now es a
unfolding candidates lookup IsCandidate
Has-candidates now [] a d = λ h. elim h [ ]
Has-candidates now ((k, e) ∷ es) a d =
    let deeper : Has a (keys (candidates now es)) → IsCandidate now ((k, e) ∷ es) a =
      λ h. let (x, there, fine) = Has-candidates now es a d.1 h in (x, ground arith, fine) in
    if-elim (λ (xs : List Entry). Has a (keys xs) → IsCandidate now ((k, e) ∷ es) a)
      (is_terrible e now) (λ t h. deeper h)
      (λ t h. elim h [ inl same ↦ (e, ground arith, t) | inr later ↦ deeper later ])

Has-get_elem? : (es : List Entry) (i : ℕ) {c : Entry} → get_elem? es i ≡ some c → Has c.0 (keys es)
Has-get_elem? [] i h = absurd (none-some refl h)
Has-get_elem? (e ∷ es) zero h = inl (ap (λ (c : Entry). c.0) (some-eq h))
Has-get_elem? (e ∷ es) (suc i) h = inr (Has-get_elem? es i h)

get_elem?_in_range :
    (es : List Entry) (i : ℕ) → i < length es → (c : Entry) × (get_elem? es i ≡ some c)
get_elem?_in_range [] i h = absurd (omega (arith, h))
get_elem?_in_range (e ∷ es) zero h = (e, refl)
get_elem?_in_range (e ∷ es) (suc i) h = get_elem?_in_range es i (omega (arith, h))

-- The table that the coin picks: the tried one, unless it is empty, or the new one, likewise.
unfoldable pub chosen : {F : Type 0} → Draw F → AddressManager → List Entry
chosen r m =
    if r.coin && ltb 0 (length m.tried_addrs)
    then m.tried_addrs
    else (if ltb 0 (length m.new_addrs) then m.new_addrs else m.tried_addrs)

module _ {F : Type 0} (ops : Float F) where
  Has-pick :
      (first : SocketAddr) (threshold : F) (now : ℕ) (es : List Entry)
      → (pick ops first threshold now es ≡ first) ⊎ Has (pick ops first threshold now es) (keys es)
  unfolding pick
  Has-pick first threshold now [] = inl refl
  Has-pick first threshold now (c ∷ cs) =
      let left = ops.sub threshold (get_chance ops c.1 now) in
      if-elim (λ a. (a ≡ first) ⊎ Has a (keys (c ∷ cs))) (ops.le left ops.zero_f)
        (λ t. inr (inl refl))
        (λ t. elim (Has-pick first left now cs) [ inl same ↦ inl same | inr h ↦ inr (inr h) ])

  -- A choice is one of the candidates, and is made if there are any.
  choose_lem :
      (r : Draw F) (now : ℕ) (es : List Entry)
      → IsInRange r
      → ((choose ops r now es ≡ none) × (es ≡ []))
        ⊎ ((a : SocketAddr) × (choose ops r now es ≡ some a) × Has a (keys es))
  unfolding choose
  choose_lem r now [] v = inl (refl, refl)
  choose_lem r now (c ∷ cs) v =
      let total_weight = ops.sum (map (λ (d : Entry). get_chance ops d.1 now) (c ∷ cs)) in
      let (d, there) =
        get_elem?_in_range (c ∷ cs) (r.index (length (c ∷ cs))) (v _ (omega arith)) in
      let threshold = ops.mul r.unit_f total_weight in
      inr (
        if-elim (λ o. (a : SocketAddr) × (o ≡ some a) × Has a (keys (c ∷ cs)))
          (ops.le total_weight ops.zero_f)
          (λ t. (d.0, rw there refl, Has-get_elem? (c ∷ cs) _ there))
          (λ t. (
            pick ops c.0 threshold now (c ∷ cs),
            refl,
            elim (Has-pick c.0 threshold now (c ∷ cs)) [ inl same ↦ inl (sym same) | inr h ↦ h ],
          )))

  select_from_map_empty :
      (r : Draw F) (now : ℕ) (es : List Entry)
      → ltb 0 (length es) ≡ false
      → select_from_map ops r now es ≡ none
  unfolding select_from_map candidates choose
  select_from_map_empty r now [] h = refl
  select_from_map_empty r now (e ∷ es) h = absurd (ground arith)

  select-chosen :
      (m : AddressManager) (now : ℕ) (r : Draw F)
      → select ops m now r ≡ select_from_map ops r now (chosen r m)
  unfolding select chosen
  select-chosen m now r = elim (Bool-cases (r.coin && ltb 0 (length m.tried_addrs))) [
    | inl a ↦ rw a refl
    | inr a ↦ elim (Bool-cases (ltb 0 (length m.new_addrs))) [
      | inl b ↦ rw (a, b) refl
      | inr b ↦ elim (Bool-cases (ltb 0 (length m.tried_addrs))) [
        | inl c ↦ rw (a, b, c) refl
        | inr c ↦ rw (a, b, c) (sym (select_from_map_empty r now m.tried_addrs c))
      ]
    ]
  ]

  chosen-IsDistinct :
      (finish : List SocketAddr → ℕ) (m : AddressManager) (r : Draw F)
      → IsSound finish m
      → IsDistinct (chosen r m)
  unfolding chosen
  chosen-IsDistinct finish m r v =
      let P : List Entry → Type 0 = λ es. IsDistinct es in
      if-elim P (r.coin && ltb 0 (length m.tried_addrs)) (λ a. v.tried_distinct)
        (λ a. if-elim P (ltb 0 (length m.new_addrs)) (λ b. v.new_distinct) (λ b. v.tried_distinct))

  -- On a manager that is sound, `select` answers an entry of the table that the coin picks that is
  -- not terrible, if there is one, and nothing exactly if there is none there. A random index is
  -- within its range.
  pub select_lem :
      (finish : List SocketAddr → ℕ) (m : AddressManager) (now : ℕ) (r : Draw F)
      → IsSound finish m
      → IsInRange r
      → ((select ops m now r ≡ none) × (candidates now (chosen r m) ≡ []))
        ⊎ ((a : SocketAddr) × (select ops m now r ≡ some a) × IsCandidate now (chosen r m) a)
  unfolding select_from_map
  select_lem finish m now r v w = elim (choose_lem r now (candidates now (chosen r m)) w) [
    | inl (a, b) ↦ inl (select-chosen m now r ∙ a, b)
    | inr (a, b, c) ↦ inr (
      a,
      select-chosen m now r ∙ b,
      Has-candidates now (chosen r m) a (chosen-IsDistinct finish m r v) c,
    )
  ]
