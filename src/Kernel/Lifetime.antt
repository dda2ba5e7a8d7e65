-- ===== src/Kernel/Lifetime.antt =====
-- Reasoning on the runs of Kernel/Foreign: when a run has a result, and what is live after it.
use btck_rust_node.Common.{
  ℕ, suc, ◌≡◌, ◌≤◌, refl, true, Option, none, some, List, ◌∷◌, inl, inr, Bool-cases, nat_key,
  Result, ok, err, lookup, remove, arith, IsDistinct,
}
use btck_rust_node.Kernel.Foreign.{
  Kind, Handle, Making, Library, Process, Action, ◌>>=◌, attempt, make, destroy, call, all_live,
  kind_of, given, is_kind,
}

-- The run has a result, of which `Q` holds.
abbrev pub After :
    {W E A : Type 0} → Option (Result E A × Process W) → (Result E A → Process W → Type 0) → Type 0
After none Q = ⊥
After (some (r, t)) Q = Q r t

-- No object has two names' worth of entries, and the next name is new.
abbrev pub IsSound : {W : Type 0} → Process W → Type 0
IsSound s = IsDistinct s.live × ((h : ℕ) → s.next ≤ h → lookup h s.live ≡ none)

-- The rest of a `do` block runs after a result.
abbrev pub Then :
    {W E A B : Type 0}
    → (A → Action W E B)
    → (Result E B → Process W → Type 0)
    → Result E A
    → Process W
    → Type 0
Then f Q (ok a) t = After (f a t) Q
Then f Q (err e) t = Q (err e) t

module _ {W E A B : Type 0} where
  pub After-bind :
      (m : Action W E A) (f : A → Action W E B) (s : Process W)
      (Q : Result E B → Process W → Type 0)
      → After (m s) (Then f Q)
      → After ((m >>= f) s) Q
  After-bind m f s Q h = from (m s) h
    where
      from :
          (o : Option (Result E A × Process W))
          → After o (Then f Q)
          → After
              (elim o [ none ↦ none | some (ok a, t) ↦ f a t | some (err e, t) ↦ some (err e, t) ])
              Q
      from none h = h
      from (some (ok a, t)) h = h
      from (some (err e, t)) h = h

module _ {W E A : Type 0} where
  pub After-attempt :
      (m : Action W E A) (s : Process W) (Q : Result E (Result E A) → Process W → Type 0)
      → After (m s) (λ r t. Q (ok r) t)
      → After (attempt m s) Q
  After-attempt m s Q h = from (m s) h
    where
      from :
          (o : Option (Result E A × Process W))
          → After o (λ r t. Q (ok r) t)
          → After (elim o [ none ↦ none | some (r, t) ↦ some (ok r, t) ]) Q
      from none h = h
      from (some (r, t)) h = h

  -- What holds of a run, weakened.
  pub After-map :
      (o : Option (Result E A × Process W)) {P Q : Result E A → Process W → Type 0}
      → ((r : Result E A) (t : Process W) → P r t → Q r t)
      → After o P
      → After o Q
  After-map none f h = h
  After-map (some (r, t)) f h = f r t h

  pub After-and :
      (o : Option (Result E A × Process W)) (P Q : Result E A → Process W → Type 0)
      → After o P
      → After o Q
      → After o (λ r t. P r t × Q r t)
  After-and none P Q p q = p
  After-and (some (r, t)) P Q p q = (p, q)

  pub After-elim :
      (m : Action W E A) (s : Process W) (Q : Result E A → Process W → Type 0)
      → After (m s) Q
      → (r : Result E A) × (t : Process W) × (m s ≡ some (r, t)) × Q r t
  After-elim m s Q h = from (m s) refl h
    where
      from :
          (o : Option (Result E A × Process W))
          → m s ≡ o
          → After o Q
          → (r : Result E A) × (t : Process W) × (m s ≡ some (r, t)) × Q r t
      from none e h = absurd h
      from (some (r, t)) e h = (r, t, e, h)

is_kind_self : (k : Kind) → is_kind k (some k) ≡ true
is_kind_self k = ground arith

module _ {W E : Type 0} (lib : Library W) where
  pub call-After :
      {A : Type 0} (hs : List Handle) (f : W → A × W) (s : Process W)
      (Q : Result E A → Process W → Type 0)
      → all_live hs s.live ≡ true
      → ((a : A) (w : W) → Q (ok a) (record s { world = w }))
      → After (call lib hs f s) Q
  unfolding call
  call-After hs f s Q live h = rw live (h (f s.world).0 (f s.world).1)

  pub make-After :
      (m : Making) (s : Process W) (Q : Result E (Option ℕ) → Process W → Type 0)
      → all_live (given m) s.live ≡ true
      → ((w : W) → Q (ok none) (record s { world = w }))
      → ((w : W)
          → Q
              (ok (some s.next))
              (record s { world = w; live = (s.next, kind_of m) ∷ s.live; next = suc s.next }))
      → After (make lib m s) Q
  unfolding make
  make-After m s Q live null made = rw live (elim (Bool-cases (lib.create m s.world).0) [
    | inl created ↦ rw created (made (lib.create m s.world).1)
    | inr refused ↦ rw refused (null (lib.create m s.world).1)
  ])

  pub destroy-After :
      (k : Kind) (h : ℕ) (s : Process W) (Q : Result E (Unit {0}) → Process W → Type 0)
      → lookup h s.live ≡ some k
      → ((w : W) → Q (ok tt) (record s { world = w; live = remove h s.live }))
      → After (destroy lib k h s) Q
  unfolding destroy all_live
  destroy-After k h s Q live next = rw (live, is_kind_self k) (next (lib.destroys k h s.world))
