-- ===== src/ChainParams/Checkpoints.antt =====
-- What the lookups of src/chainparams.rs answer.
use Prim.Native.String.{String}
use btck_rust_node.Common.{
  ℕ, ◌≡◌, ◌≤◌, ◌⊎◌, ◌↔◌, inl, inr, refl, ap, subst, true, Option, none, some, List, [], ◌∷◌, ◌==◌,
  leb, ok, arith, Has, Option-cases, Bool-cases, some-eq, if-elim,
}
use btck_rust_node.Chain.{BlockHash}
use btck_rust_node.ChainParams.{
  Network, bitcoin, testnet, signet, regtest, unknown, Checkpoint, for_network, mainnet_params,
  testnet_params, no_params, get_checkpoint, is_checkpoint, last_loop, get_last_checkpoint_before,
}

-- The heights go up, from a bound.
abbrev IsSorted : ℕ → List Checkpoint → Type 0
IsSorted n [] = Unit
IsSorted n (c ∷ cps) = (n ≤ c.0) × IsSorted c.0 cps

IsSorted-le :
    (n : ℕ) (cps : List Checkpoint) (c : Checkpoint) → IsSorted n cps → Has c cps → n ≤ c.0
IsSorted-le n [] c s h = elim h [ ]
IsSorted-le n (d ∷ cps) c s (inl same) = subst (λ (x : Checkpoint). n ≤ x.0) same s.0
IsSorted-le n (d ∷ cps) c s (inr later) = omega (arith, s.0, IsSorted-le d.0 cps c s.1 later)

module _ (from_str : String → Option BlockHash) where
  -- The last entry up to a height whose hash can be read.
  pub record IsLast (cps : List Checkpoint) (height : ℕ) (found : ℕ × BlockHash) : Type 0 where
    pub entry : Checkpoint
    pub listed : Has entry cps
    pub same_height : entry.0 ≡ found.0
    pub read : from_str entry.1 ≡ some found.1
    pub up_to : found.0 ≤ height
    pub last : (c : Checkpoint) → Has c cps → c.0 ≤ height → (from_str c.1 ≡ none) ⊎ (c.0 ≤ found.0)

  -- No entry up to a height has a hash that can be read.
  abbrev pub HasNone : List Checkpoint → ℕ → Type 0
  HasNone cps height = (c : Checkpoint) → Has c cps → c.0 ≤ height → from_str c.1 ≡ none

  -- What the loop answers, by what it starts from.
  abbrev Outcome : List Checkpoint → ℕ → Option (ℕ × BlockHash) → Option (ℕ × BlockHash) → Type 0
  Outcome cps height before r =
      ((r ≡ before) × HasNone cps height)
      ⊎ ((found : ℕ × BlockHash) × (r ≡ some found) × IsLast cps height found)

  IsLast-later :
      (d : Checkpoint) (cps : List Checkpoint) (height : ℕ) (found : ℕ × BlockHash)
      → (from_str d.1 ≡ none) ⊎ (d.0 ≤ found.0)
      → IsLast cps height found
      → IsLast (d ∷ cps) height found
  IsLast-later d cps height found first v = record {
    entry = v.entry;
    listed = inr v.listed;
    same_height = v.same_height;
    read = v.read;
    up_to = v.up_to;
    last = λ c h k. elim h [
      | inl same ↦ subst (λ (x : Checkpoint). (from_str x.1 ≡ none) ⊎ (x.0 ≤ found.0)) same first
      | inr later ↦ v.last c later k
    ];
  }

  last_loop-Outcome :
      (cps : List Checkpoint) (n height : ℕ) (before : Option (ℕ × BlockHash))
      → IsSorted n cps
      → Outcome cps height before (last_loop from_str cps height before)
  unfolding last_loop
  last_loop-Outcome [] n height before s = inl (refl, λ c h. elim h [ ])
  last_loop-Outcome (d ∷ cps) n height before s =
      if-elim (Outcome (d ∷ cps) height before) (leb d.0 height)
        (λ t. elim (Option-cases (from_str d.1)) [
          | inl a ↦ rw a (elim (last_loop-Outcome cps d.0 height before s.1) [
            | inl (same, hn) ↦ inl (
              same,
              λ c h k. elim h [
                | inl e ↦ subst (λ (x : Checkpoint). from_str x.1 ≡ none) e a
                | inr later ↦ hn c later k
              ],
            )
            | inr (found, e, v) ↦ inr (found, e, IsLast-later d cps height found (inl a) v)
          ])
          | inr (b, a) ↦ rw a (elim (last_loop-Outcome cps d.0 height (some (d.0, b)) s.1) [
            | inl (same, hn) ↦ inr (
              (d.0, b),
              same,
              record {
                entry = d;
                listed = inl refl;
                same_height = refl;
                read = a;
                up_to = ground (arith, t);
                last = λ c h k. elim h [
                  | inl e ↦ inr (omega (arith, ap (λ (x : Checkpoint). x.0) e))
                  | inr later ↦ inl (hn c later k)
                ];
              },
            )
            | inr (found, e, v) ↦ inr (
              found,
              e,
              IsLast-later d cps height found
                  (inr (omega (arith, IsSorted-le d.0 cps v.entry s.1 v.listed, v.same_height))) v,
            )
          ])
        ])
        (λ t. inl (refl, λ c h k. absurd (ground (arith, t, k, first c h))))
    where
      first : (c : Checkpoint) → Has c (d ∷ cps) → d.0 ≤ c.0
      first c h = IsSorted-le d.0 (d ∷ cps) c (omega arith, s.1) h

  for_network-IsSorted : (net : Network) → IsSorted 0 (for_network from_str net).checkpoints
  unfolding for_network mainnet_params testnet_params no_params
  for_network-IsSorted bitcoin = ground arith
  for_network-IsSorted testnet = ground arith
  for_network-IsSorted signet = tt
  for_network-IsSorted regtest = tt
  for_network-IsSorted unknown = tt

  -- On the tables of every network, `get_last_checkpoint_before` answers the last checkpoint at or
  -- before a height whose hash can be read, and nothing exactly if there is none, whatever
  -- `from_str` reads.
  pub get_last_checkpoint_before-IsLast :
      (net : Network) (height : ℕ)
      → (let cps = (for_network from_str net).checkpoints in
          let r = get_last_checkpoint_before from_str cps height in
          ((r ≡ none) × HasNone cps height)
          ⊎ ((found : ℕ × BlockHash) × (r ≡ some found) × IsLast cps height found))
  unfolding get_last_checkpoint_before
  get_last_checkpoint_before-IsLast net height =
      last_loop-Outcome (for_network from_str net).checkpoints 0 height none
        (for_network-IsSorted net)

  -- `is_checkpoint` accepts a hash exactly where the table has no checkpoint at the height, or where
  -- `get_checkpoint` answers that hash.
  is_checkpoint_iff :
      (cps : List Checkpoint) (height : ℕ) (hash : BlockHash)
      → (is_checkpoint from_str cps height hash ≡ ok true) ↔ (
          ((s : String) → ¬ Has (height, s) cps) ⊎ (get_checkpoint from_str cps height ≡ some hash))
  unfolding is_checkpoint get_checkpoint
  is_checkpoint_iff [] height hash = (λ h. inl (λ s q. q), λ h. refl)
  is_checkpoint_iff ((k, s) ∷ cps) height hash = elim (Bool-cases (k == height)) [
    | inl t ↦ elim (Option-cases (from_str s)) [
      | inl a ↦
          rw (t, a, is_checkpoint, get_checkpoint)
            (
              (λ h. absurd (ground arith)),
              λ h. elim h [ inl no' ↦ absurd (no' s (here t)) | inr e ↦ absurd (ground arith) ],
            )
      | inr (b, a) ↦
          rw (t, a, is_checkpoint, get_checkpoint)
            (
              (λ h. inr (ground (arith, h))),
              λ h. elim h [ inl no' ↦ absurd (no' s (here t)) | inr e ↦ ground (arith, some-eq e) ],
            )
    ]
    | inr t ↦
        rw (t, is_checkpoint, get_checkpoint)
          (
            (λ h. elim ((is_checkpoint_iff cps height hash).0 h) [
              | inl no' ↦ inl (λ s' q. elim q [
                | inl e ↦ ground (arith, t, ap (λ (x : Checkpoint). x.0) e)
                | inr later ↦ no' s' later
              ])
              | inr e ↦ inr e
            ]),
            λ h.
                (is_checkpoint_iff cps height hash).1
                  (elim h [ inl no' ↦ inl (λ s' q. no' s' (inr q)) | inr e ↦ inr e ]),
          )
  ]
    where
      here : k == height ≡ true → Has (height, s) ((k, s) ∷ cps)
      here t = let same : k ≡ height = ground (arith, t) in inl (ap (λ (x : ℕ). (x, s)) same)
