-- ===== src/P2p/Headers/Depths.antt =====
-- The loop of the block locator (src/p2p/legacy.rs) and how deep it reaches.
use btck_rust_node.Common.{
  ℕ, zero, suc, ◌+◌, ◌-◌, ◌*◌, ◌^◌, ◌≤◌, ◌<◌, ◌≡◌, refl, sym, ap, ◌∙◌, true, false, Option, none,
  some, List, [], ◌∷◌, ◌++◌, length, get_elem?, leb, ◌==◌, if◌then◌else◌, arith, Bool-cases,
  Option-cases, inl, inr, subst, some-eq, none-some,
}
use mathlib.Core.Option
use native.Mathlib.Nat.{pow-suc}
use btck_rust_node.Chain.{BlockHash}
use btck_rust_node.P2p.Headers.{last, locator_loop}

pub get_elem?_in :
    (xs : List BlockHash) (i : ℕ) → i < length xs → (h : BlockHash) × (get_elem? xs i ≡ some h)
get_elem?_in [] i b = absurd (omega arith)
get_elem?_in (x ∷ xs) zero b = (x, refl)
get_elem?_in (x ∷ xs) (suc i) b = get_elem?_in xs i (omega arith)

pub last-cons : (h : BlockHash) (xs : List BlockHash) → (t : BlockHash) × (last (h ∷ xs) ≡ some t)
unfolding last
last-cons h xs = elim (Option-cases (last xs)) [
  | inl a ↦ rw (a, last) (h, refl)
  | inr (l, a) ↦ rw (a, last) (l, refl)
]

last_tail : (h x : BlockHash) (xs : List BlockHash) → last (h ∷ x ∷ xs) ≡ last (x ∷ xs)
unfolding last
last_tail h x xs =
    let l = last-cons x xs in
    ap (λ (o : Option BlockHash). elim o [ none ↦ some h | some t ↦ some t ]) l.1 ∙ sym l.1

-- The hashes stand in the chain, each strictly below the one before and the first below `above`.
abbrev pub Descends : List BlockHash → ℕ → List BlockHash → Type 0
Descends chain above [] = Unit
Descends chain above (h ∷ hs) =
    (i : ℕ) × (i < above) × (get_elem? chain i ≡ some h) × Descends chain i hs

-- Genesis can be put at the end, if it does not stand there already.
pub Descends-snoc :
    (g : BlockHash) (chain : List BlockHash) (above : ℕ) (h : BlockHash) (hs : List BlockHash)
    (t : BlockHash)
    → last (h ∷ hs) ≡ some t
    → (t == g) ≡ false
    → Descends (g ∷ chain) above (h ∷ hs)
    → Descends (g ∷ chain) above (h ∷ hs ++ g ∷ [])
unfolding last
Descends-snoc g chain above h [] t e n (zero, b, at, rest) =
    let same : g ≡ t = some-eq at ∙ some-eq e in absurd (ground arith)
Descends-snoc g chain above h [] t e n (suc i, b, at, rest) =
    (suc i, b, at, (0, omega arith, refl, tt))
Descends-snoc g chain above h (x ∷ hs) t e n (i, b, at, rest) =
    (i, b, at, Descends-snoc g chain i x hs t (sym (last_tail h x hs) ∙ e) n rest)

abbrev next_step : ℕ → ℕ → ℕ
next_step step len = if leb 10 (len + 1) then step * 2 else step

next_step-pos : (step len : ℕ) → 0 < step → 0 < next_step step len
next_step-pos step len p = ground arith

locator_loop_step :
    (left : ℕ) (chain : List BlockHash) (idx step len : ℕ) (h : BlockHash)
    → get_elem? chain idx ≡ some h
    → (idx == 0) ≡ false
    → locator_loop (suc left) chain idx step len
      ≡ Option.map
          (◌∷◌ h)
          (locator_loop left chain (idx - next_step step len) (next_step step len) (len + 1))
unfolding locator_loop
locator_loop_step left chain idx step len h e z = rw (e, z, locator_loop) refl

locator_loop_end :
    (left : ℕ) (chain : List BlockHash) (idx step len : ℕ) (h : BlockHash)
    → get_elem? chain idx ≡ some h
    → (idx == 0) ≡ true
    → locator_loop (suc left) chain idx step len ≡ some (h ∷ [])
unfolding locator_loop
locator_loop_end left chain idx step len h e z = rw (e, z, locator_loop) refl

locator_loop-zero :
    (chain : List BlockHash) (idx step len : ℕ) → locator_loop zero chain idx step len ≡ some []
unfolding locator_loop
locator_loop-zero chain idx step len = refl

-- The hashes that the loop returns: the first is at the index, and there is room for all.
abbrev Located : ℕ → List BlockHash → ℕ → Option (List BlockHash) → Type 0
Located left chain idx o =
    (h : BlockHash) × (hs : List BlockHash) × (o ≡ some (h ∷ hs))
    × (get_elem? chain idx ≡ some h)
    × (length (h ∷ hs) ≤ left)
    × Descends chain idx hs

pub locator_loop_lem :
    (left : ℕ) (chain : List BlockHash) (idx step len : ℕ)
    → idx < length chain
    → 0 < step
    → Located (suc left) chain idx (locator_loop (suc left) chain idx step len)
locator_loop_lem zero chain idx step len b p =
    let at = get_elem?_in chain idx b in
    elim (Bool-cases (idx == 0)) [
      | inl z ↦
          (at.0, [], locator_loop_end zero chain idx step len at.0 at.1 z, at.1, omega arith, tt)
      | inr z ↦ (
        at.0,
        [],
        locator_loop_step zero chain idx step len at.0 at.1 z
            ∙ ap (Option.map (◌∷◌ at.0)) (locator_loop-zero chain _ _ (len + 1)),
        at.1,
        omega arith,
        tt,
      )
    ]
locator_loop_lem (suc l) chain idx step len b p =
    let at = get_elem?_in chain idx b in
    let ih =
      locator_loop_lem l chain (idx - next_step step len) (next_step step len) (len + 1)
        (omega arith) (next_step-pos step len p) in
    elim (Bool-cases (idx == 0)) [
      | inl z ↦
          (at.0, [], locator_loop_end (suc l) chain idx step len at.0 at.1 z, at.1, omega arith, tt)
      | inr z ↦ (
        at.0,
        ih.0 ∷ ih.1,
        locator_loop_step (suc l) chain idx step len at.0 at.1 z ∙ ap (Option.map (◌∷◌ at.0)) ih.2,
        at.1,
        omega (arith, ih.4),
        (idx - next_step step len, ground (arith, z, next_step-pos step len p), ih.3, ih.5),
      )
    ]

-- How far below the tip the hash at a place of the locator stands: the first ten are in a row, and
-- from there on each step is twice the one before.
pub depth : ℕ → ℕ
depth i = if leb 10 i then 2 ^ (i - 8) + 7 else i

-- The step that leads to a place.
pub step_at : ℕ → ℕ
step_at i = if leb 10 i then 2 ^ (i - 9) else 1

double : (n : ℕ) → 2 ^ (n + 1) ≡ 2 ^ n * 2
double n = let e : n + 1 ≡ suc n = omega arith in ap (λ k. 2 ^ k) e ∙ pow-suc 2 n

pow_pos : (n : ℕ) → 0 < 2 ^ n
pow_pos zero = omega arith
pow_pos (suc n) = let e : suc n ≡ n + 1 = omega arith in rw (e, double n) (omega (arith, pow_pos n))

next_step-step_at : (i : ℕ) → next_step (step_at i) i ≡ step_at (i + 1)
unfolding step_at
next_step-step_at i = elim (Bool-cases (leb 10 i)) [
  | inl a ↦
      let further : i + 1 - 9 ≡ i - 9 + 1 = ground (arith, a) in
      let twice : 2 ^ (i + 1 - 9) ≡ 2 ^ (i - 9) * 2 = ap (λ k. 2 ^ k) further ∙ double (i - 9) in
      ground (arith, a, twice)
  | inr a ↦ elim (Bool-cases (leb 10 (i + 1))) [
    | inl b ↦ let nine : i ≡ 9 = ground (arith, a, b) in rw nine refl
    | inr b ↦ ground (arith, a, b)
  ]
]

depth-suc : (i : ℕ) → depth (i + 1) ≡ depth i + step_at (i + 1)
unfolding depth step_at
depth-suc i = elim (Bool-cases (leb 10 i)) [
  | inl a ↦
      let e8 : i + 1 - 8 ≡ i - 8 + 1 = ground (arith, a) in
      let e9 : i + 1 - 9 ≡ i - 8 = ground (arith, a) in
      let twice : 2 ^ (i + 1 - 8) ≡ 2 ^ (i - 8) * 2 = ap (λ k. 2 ^ k) e8 ∙ double (i - 8) in
      let same : 2 ^ (i + 1 - 9) ≡ 2 ^ (i - 8) = ap (λ k. 2 ^ k) e9 in
      ground (arith, a, twice, same)
  | inr a ↦ elim (Bool-cases (leb 10 (i + 1))) [
    | inl b ↦ let nine : i ≡ 9 = ground (arith, a, b) in rw nine refl
    | inr b ↦ ground (arith, a, b)
  ]
]

step_at-pos : (i : ℕ) → 0 < step_at i
unfolding step_at
step_at-pos i = elim (Bool-cases (leb 10 i)) [
  | inl a ↦ rw a (pow_pos (i - 9))
  | inr a ↦ rw a (omega arith)
]

depth-le : (i j : ℕ) → depth i + j ≤ depth (i + j)
depth-le i zero = let e : i + 0 ≡ i = omega arith in rw e (omega arith)
depth-le i (suc j) =
    let e : i + suc j ≡ i + j + 1 = omega arith in
    rw e (omega (arith, depth-le i j, depth-suc (i + j), step_at-pos (i + j + 1)))

-- What the loop leaves at the places whose depth the chain has.
pub locator_loop-depth :
    (left : ℕ) (chain : List BlockHash) (tip len i : ℕ) (loc : List BlockHash)
    → tip < length chain
    → i < left
    → depth (len + i) ≤ tip
    → locator_loop left chain (tip - depth len) (step_at len) len ≡ some loc
    → get_elem? loc i ≡ get_elem? chain (tip - depth (len + i))
locator_loop-depth zero chain tip len i loc b l d e = absurd (omega (arith, l))
locator_loop-depth (suc left) chain tip len zero loc b l d e =
    let found =
      locator_loop_lem left chain (tip - depth len) (step_at len) len (omega (arith, b))
        (step_at-pos len) in
    let same : found.0 ∷ found.1 ≡ loc = some-eq (sym found.2 ∙ e) in
    let here : len ≡ len + 0 = omega arith in
    sym (ap (λ xs. get_elem? xs 0) same)
    ∙ sym found.3
    ∙ ap (λ k. get_elem? chain (tip - depth k)) here
locator_loop-depth (suc left) chain tip len (suc i) loc b l d e =
    let idx = tip - depth len in
    let at = get_elem?_in chain idx (omega (arith, b)) in
    let farther = depth-le len (suc i) in
    let more : 0 < idx = omega (arith, d, farther) in
    let z : (idx == 0) ≡ false = ground (arith, more) in
    let next_idx : idx - next_step (step_at len) len ≡ tip - depth (len + 1) =
      omega (arith, next_step-step_at len, depth-suc len) in
    let next : locator_loop left chain (idx - next_step (step_at len) len)
          (next_step (step_at len) len) (len + 1)
        ≡ locator_loop left chain (tip - depth (len + 1)) (step_at (len + 1)) (len + 1) =
      ap (λ k. locator_loop left chain k (next_step (step_at len) len) (len + 1)) next_idx
      ∙ ap (λ k. locator_loop left chain (tip - depth (len + 1)) k (len + 1))
          (next_step-step_at len) in
    let stepped =
      sym (
        locator_loop_step left chain idx (step_at len) len at.0 at.1 z
        ∙ ap (Option.map (◌∷◌ at.0)) next)
      ∙ e in
    let there : len + 1 + i ≡ len + suc i = omega arith in
    elim (Option-cases
      (locator_loop left chain (tip - depth (len + 1)) (step_at (len + 1)) (len + 1))) [
        | inl n ↦ absurd (none-some (ap (Option.map (◌∷◌ at.0)) n) stepped)
        | inr (rest, f) ↦
            let same : at.0 ∷ rest ≡ loc = some-eq (sym (ap (Option.map (◌∷◌ at.0)) f) ∙ stepped) in
            let d' : depth (len + 1 + i) ≤ tip = subst (λ k. depth k ≤ tip) (sym there) d in
            sym (ap (λ xs. get_elem? xs (suc i)) same)
            ∙ locator_loop-depth left chain tip (len + 1) i rest b (omega (arith, l)) d' f
            ∙ ap (λ k. get_elem? chain (tip - depth k)) there
      ]

pub depth-zero : depth 0 ≡ 0
unfolding depth
depth-zero = refl

pub step_at-zero : step_at 0 ≡ 1
unfolding step_at
step_at-zero = refl
