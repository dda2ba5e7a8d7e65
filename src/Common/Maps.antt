-- ===== src/Common/Maps.antt =====
-- HashMap and DashMap as association lists, HashSet as a map to the unit type (which is how the
-- standard library builds it). A list fixes one order of iteration; the real one is arbitrary.
use Prim.Native.Nat.{ℕ, ◌+◌, ◌≤◌}
use mathlib.Core.Path.{◌≡◌, refl, sym, ap, ◌∙◌}
use mathlib.Core.Logic.{ite, if_pos, if_neg, ◌⊎◌, inl, inr}
use mathlib.Core.Bool.{Bool, true}
use mathlib.Core.List.{List, [], ◌∷◌, ◌++◌, map}
use mathlib.Core.Option
use mathlib.Core.Option.{Option, none, some}
use native.Mathlib.Decide.{ℕ_discrete}
use native.Mathlib.Omega.{arith}
use btck_rust_node.Common.Tests.{is_some}
use btck_rust_node.Common.Lists.{length, total, All}

-- A type of keys.
pub record Key (K : Type 0) : Type 0 where
  pub dec : Discrete K

instance abbrev pub nat_key : Key ℕ
nat_key = record { dec = ℕ_discrete }

module _ {K V : Type 0} where
  abbrev pub keys : List (K × V) → List K
  keys = map (λ p. p.0)

  abbrev pub values : List (K × V) → List V
  values = map (λ p. p.1)

module _ {K V : Type 0} ⦃e : Key K⦄ where
  unfoldable pub lookup : K → List (K × V) → Option V
  lookup k [] = none
  lookup k ((j, v) ∷ m) = ite (e.dec j k) (some v) (lookup k m)

  unfoldable pub insert : K → V → List (K × V) → List (K × V)
  insert k v [] = (k, v) ∷ []
  insert k v ((j, w) ∷ m) = ite (e.dec j k) ((k, v) ∷ m) ((j, w) ∷ insert k v m)

  unfoldable pub remove : K → List (K × V) → List (K × V)
  remove k [] = []
  remove k ((j, w) ∷ m) = let rest = remove k m in ite (e.dec j k) rest ((j, w) ∷ rest)

  -- `get_mut`: the value at a key is changed in place.
  unfoldable pub adjust : K → (V → V) → List (K × V) → List (K × V)
  adjust k f [] = []
  adjust k f ((j, w) ∷ m) = ite (e.dec j k) ((j, f w) ∷ m) ((j, w) ∷ adjust k f m)

  abbrev pub contains_key : K → List (K × V) → Bool
  contains_key k m = is_some (lookup k m)

  -- No key stands twice.
  abbrev pub IsDistinct : List (K × V) → Type 0
  IsDistinct [] = Unit
  IsDistinct ((k, v) ∷ m) = (lookup k m ≡ none) × IsDistinct m

  pub lookup-insert :
      (k j : K) (v : V) (m : List (K × V))
      → lookup j (insert k v m) ≡ ite (e.dec k j) (some v) (lookup j m)
  unfolding lookup insert
  lookup-insert k j v [] = refl
  lookup-insert k j v ((i, w) ∷ m) = ground (arith, lookup-insert k j v m)

  pub lookup-remove :
      (k j : K) (m : List (K × V)) → lookup j (remove k m) ≡ ite (e.dec k j) none (lookup j m)
  unfolding lookup remove
  lookup-remove k j [] = ground arith
  lookup-remove k j ((i, w) ∷ m) = ground (arith, lookup-remove k j m)

  pub lookup-adjust :
      (k j : K) (f : V → V) (m : List (K × V))
      → lookup j (adjust k f m) ≡ ite (e.dec k j) (Option.map f (lookup j m)) (lookup j m)
  unfolding lookup adjust
  lookup-adjust k j f [] = ground arith
  lookup-adjust k j f ((i, w) ∷ m) = ground (arith, lookup-adjust k j f m)

  pub insert-IsDistinct :
      (k : K) (v : V) (m : List (K × V)) → IsDistinct m → IsDistinct (insert k v m)
  unfolding lookup insert
  insert-IsDistinct k v [] h = (refl, tt)
  insert-IsDistinct k v ((i, w) ∷ m) h =
      ground (arith, insert-IsDistinct k v m, lookup-insert k i v m)

  pub remove-IsDistinct : (k : K) (m : List (K × V)) → IsDistinct m → IsDistinct (remove k m)
  unfolding remove
  remove-IsDistinct k [] h = tt
  remove-IsDistinct k ((i, w) ∷ m) h = ground (arith, remove-IsDistinct k m, lookup-remove k i m)

  pub adjust-IsDistinct :
      (k : K) (f : V → V) (m : List (K × V)) → IsDistinct m → IsDistinct (adjust k f m)
  unfolding adjust
  adjust-IsDistinct k f [] h = tt
  adjust-IsDistinct k f ((i, w) ∷ m) h =
      ground (arith, adjust-IsDistinct k f m, lookup-adjust k i f m)

  pub remove_absent : (k : K) (m : List (K × V)) → lookup k m ≡ none → remove k m ≡ m
  unfolding lookup remove
  remove_absent k [] h = refl
  remove_absent k ((i, w) ∷ m) h = ground (arith, remove_absent k m)

  -- Sums over the values.
  pub total-insert_new :
      (g : K × V → ℕ) (k : K) (v : V) (m : List (K × V))
      → lookup k m ≡ none
      → total g (insert k v m) ≡ total g m + g (k, v)
  unfolding lookup insert
  total-insert_new g k v [] h = omega arith
  total-insert_new g k v ((i, w) ∷ m) h = ground (arith, total-insert_new g k v m)

  pub total-remove :
      (g : K × V → ℕ) (k : K) (v : V) (m : List (K × V))
      → IsDistinct m
      → lookup k m ≡ some v
      → total g (remove k m) + g (k, v) ≡ total g m
  unfolding lookup remove
  total-remove g k v [] d h = cc
  total-remove g k v ((i, w) ∷ m) d h = elim (e.dec i k) [
    | yes p ↦ rw (if_pos (e.dec i k) p, remove_absent k m (ground arith)) (ground arith)
    | no p ↦ rw (if_neg (e.dec i k) p) (ground (arith, total-remove g k v m d.1))
  ]

  pub total-adjust :
      (g : K × V → ℕ) (k : K) (f : V → V) (m : List (K × V))
      → ((j : K) (v : V) → g (j, f v) ≡ g (j, v))
      → total g (adjust k f m) ≡ total g m
  unfolding adjust
  total-adjust g k f [] h = refl
  total-adjust g k f ((i, w) ∷ m) h = ground (arith, total-adjust g k f m h, h i w)

  pub length-insert-le : (k : K) (v : V) (m : List (K × V)) → length (insert k v m) ≤ length m + 1
  unfolding insert
  length-insert-le k v [] = omega arith
  length-insert-le k v ((i, w) ∷ m) = ground (arith, length-insert-le k v m)

  pub length-remove-le : (k : K) (m : List (K × V)) → length (remove k m) ≤ length m
  unfolding remove
  length-remove-le k [] = omega arith
  length-remove-le k ((i, w) ∷ m) = ground (arith, length-remove-le k m)

module _ {K : Type 0} where
  -- A key stands in a list.
  abbrev pub Has : K → List K → Type 0
  Has k [] = ⊥
  Has k (j ∷ js) = (j ≡ k) ⊎ Has k js

  pub Has-append : (x : K) (xs ys : List K) → Has x (xs ++ ys) → Has x xs ⊎ Has x ys
  Has-append x [] ys h = inr h
  Has-append x (y ∷ xs) ys (inl a) = inl (inl a)
  Has-append x (y ∷ xs) ys (inr b) = elim (Has-append x xs ys b) [
    | inl c ↦ inl (inr c)
    | inr d ↦ inr d
  ]

  pub append-Has_left : (x : K) (xs ys : List K) → Has x xs → Has x (xs ++ ys)
  append-Has_left x [] ys h = elim h [ ]
  append-Has_left x (y ∷ xs) ys (inl a) = inl a
  append-Has_left x (y ∷ xs) ys (inr b) = inr (append-Has_left x xs ys b)

  pub append-Has_right : (x : K) (xs ys : List K) → Has x ys → Has x (xs ++ ys)
  append-Has_right x [] ys h = h
  append-Has_right x (y ∷ xs) ys h = inr (append-Has_right x xs ys h)

  -- No element stands twice in a list.
  abbrev pub IsUnique : List K → Type 0
  IsUnique [] = Unit
  IsUnique (x ∷ xs) = (¬ Has x xs) × IsUnique xs

  pub IsUnique-append_one :
      (xs : List K) (a : K) → IsUnique xs → ¬ Has a xs → IsUnique (xs ++ a ∷ [])
  IsUnique-append_one [] a u n = (λ h. h, tt)
  IsUnique-append_one (x ∷ xs) a u n = (
    λ h. elim (Has-append x xs (a ∷ []) h) [
      | inl b ↦ u.0 b
      | inr b ↦ elim b [ inl same ↦ n (inl (sym same)) | inr c ↦ c ]
    ],
    IsUnique-append_one xs a u.1 (λ h. n (inr h)),
  )

module _ {K : Type 0} ⦃e : Key K⦄ where
  pub dec_Has : (k : K) (ks : List K) → Dec (Has k ks)
  dec_Has k [] = no (λ h. h)
  dec_Has k (j ∷ js) = elim (e.dec j k) [
    | yes p ↦ yes (inl p)
    | no p ↦ elim (dec_Has k js) [
      | yes q ↦ yes (inr q)
      | no q ↦ no (λ h. elim h [ inl a ↦ p a | inr b ↦ q b ])
    ]
  ]

module _ {K V : Type 0} ⦃e : Key K⦄ where
  -- `get_mut` at each key in turn.
  unfoldable pub adjust_all : List K → (V → V) → List (K × V) → List (K × V)
  adjust_all [] f m = m
  adjust_all (k ∷ ks) f m = adjust_all ks f (adjust k f m)

  unfoldable pub remove_all : List K → List (K × V) → List (K × V)
  remove_all [] m = m
  remove_all (k ∷ ks) m = remove_all ks (remove k m)

  unfoldable pub insert_all : List K → V → List (K × V) → List (K × V)
  insert_all [] v m = m
  insert_all (k ∷ ks) v m = insert_all ks v (insert k v m)

  pub lookup-remove_all-Has :
      (j : K) (ks : List K) (m : List (K × V)) → Has j ks → lookup j (remove_all ks m) ≡ none
  unfolding remove_all
  lookup-remove_all-Has j [] m h = elim h [ ]
  lookup-remove_all-Has j (k ∷ ks) m h = elim (dec_Has j ks) [
    | yes q ↦ lookup-remove_all-Has j ks (remove k m) q
    | no q ↦ keep-none j ks (remove k m) (ground (arith, lookup-remove k j m))
  ]
    where
      keep-none :
          (j : K) (ks : List K) (m : List (K × V))
          → lookup j m ≡ none
          → lookup j (remove_all ks m) ≡ none
      keep-none j [] m z = z
      keep-none j (k ∷ ks) m z = keep-none j ks (remove k m) (ground (arith, lookup-remove k j m))

  pub lookup-remove_all_other :
      (j : K) (ks : List K) (m : List (K × V))
      → ¬ Has j ks
      → lookup j (remove_all ks m) ≡ lookup j m
  unfolding remove_all
  lookup-remove_all_other j [] m h = refl
  lookup-remove_all_other j (k ∷ ks) m h =
      lookup-remove_all_other j ks (remove k m) (λ q. h (inr q))
      ∙ lookup-remove k j m
      ∙ if_neg (e.dec k j) (λ p. h (inl p)) _ _

  pub lookup-insert_all-Has :
      (j : K) (ks : List K) (v : V) (m : List (K × V))
      → Has j ks
      → lookup j (insert_all ks v m) ≡ some v
  unfolding insert_all
  lookup-insert_all-Has j [] v m h = elim h [ ]
  lookup-insert_all-Has j (k ∷ ks) v m h = elim (dec_Has j ks) [
    | yes q ↦ lookup-insert_all-Has j ks v (insert k v m) q
    | no q ↦ keep j ks v (insert k v m) (ground (arith, lookup-insert k j v m))
  ]
    where
      keep :
          (j : K) (ks : List K) (v : V) (m : List (K × V))
          → lookup j m ≡ some v
          → lookup j (insert_all ks v m) ≡ some v
      keep j [] v m z = z
      keep j (k ∷ ks) v m z = keep j ks v (insert k v m) (ground (arith, lookup-insert k j v m))

  pub lookup-insert_all_other :
      (j : K) (ks : List K) (v : V) (m : List (K × V))
      → ¬ Has j ks
      → lookup j (insert_all ks v m) ≡ lookup j m
  unfolding insert_all
  lookup-insert_all_other j [] v m h = refl
  lookup-insert_all_other j (k ∷ ks) v m h =
      lookup-insert_all_other j ks v (insert k v m) (λ q. h (inr q))
      ∙ lookup-insert k j v m
      ∙ if_neg (e.dec k j) (λ p. h (inl p)) _ _

module _ {K V : Type 0} ⦃e : Key K⦄ where
  pub lookup_of_Has-keys :
      (k : K) (m : List (K × V)) → Has k (keys m) → (v : V) × (lookup k m ≡ some v)
  unfolding lookup
  lookup_of_Has-keys k [] h = elim h [ ]
  lookup_of_Has-keys k ((j, w) ∷ m) (inl same) = (w, if_pos (e.dec j k) same _ _)
  lookup_of_Has-keys k ((j, w) ∷ m) (inr later) = elim (e.dec j k) [
    | yes same ↦ (w, if_pos (e.dec j k) same _ _)
    | no ne ↦
        let (v, there) = lookup_of_Has-keys k m later in (v, if_neg (e.dec j k) ne _ _ ∙ there)
  ]

  pub Has-keys : (k : K) (m : List (K × V)) → contains_key k m ≡ true → Has k (keys m)
  unfolding lookup
  Has-keys k [] h = absurd (ground arith)
  Has-keys k ((j, w) ∷ m) h = elim (e.dec j k) [
    | yes same ↦ inl same
    | no ne ↦ inr (Has-keys k m (ap is_some (sym (if_neg (e.dec j k) ne _ _)) ∙ h))
  ]

-- Each pair of a map with distinct keys is what its key finds.
module _ {K V : Type 0} ⦃e : Key K⦄ (P : K → V → Type 0) where
  pub All-pairs :
      (m : List (K × V))
      → IsDistinct m
      → ((k : K) (v : V) → lookup k m ≡ some v → P k v)
      → All (λ (p : K × V). P p.0 p.1) m
  unfolding lookup
  All-pairs [] d h = tt
  All-pairs ((j, w) ∷ m) d h =
      (h j w (if_pos (e.dec j j) refl _ _), All-pairs m d.1 (λ k v q. h k v (deeper k v q)))
    where
      deeper : (k : K) (v : V) → lookup k m ≡ some v → lookup k ((j, w) ∷ m) ≡ some v
      deeper k v q = elim (e.dec j k) [
        | yes same ↦ absurd (ground arith)
        | no ne ↦ if_neg (e.dec j k) ne _ _ ∙ q
      ]

-- A map seen through a projection of its values.
module _ {K V W : Type 0} ⦃e : Key K⦄ (g : V → W) where
  unfoldable pub map_values : List (K × V) → List (K × W)
  map_values [] = []
  map_values ((k, v) ∷ m) = (k, g v) ∷ map_values m

  pub lookup-map_values :
      (k : K) (m : List (K × V)) → lookup k (map_values m) ≡ Option.map g (lookup k m)
  unfolding lookup map_values
  lookup-map_values k [] = refl
  lookup-map_values k ((i, w) ∷ m) = ground (arith, lookup-map_values k m)

  pub IsDistinct-of_map_values : (m : List (K × V)) → IsDistinct (map_values m) → IsDistinct m
  unfolding map_values
  IsDistinct-of_map_values [] d = tt
  IsDistinct-of_map_values ((k, v) ∷ m) d =
      (ground (arith, lookup-map_values k m), IsDistinct-of_map_values m d.1)

  pub map_values-insert :
      (k : K) (v : V) (m : List (K × V)) → map_values (insert k v m) ≡ insert k (g v) (map_values m)
  unfolding insert map_values
  map_values-insert k v [] = refl
  map_values-insert k v ((i, w) ∷ m) = ground (arith, map_values-insert k v m)

  pub map_values-remove :
      (k : K) (m : List (K × V)) → map_values (remove k m) ≡ remove k (map_values m)
  unfolding remove map_values
  map_values-remove k [] = refl
  map_values-remove k ((i, w) ∷ m) = ground (arith, map_values-remove k m)

  pub map_values-adjust :
      (k : K) (f : V → V) (m : List (K × V))
      → ((v : V) → g (f v) ≡ g v)
      → map_values (adjust k f m) ≡ map_values m
  unfolding adjust map_values
  map_values-adjust k f [] h = refl
  map_values-adjust k f ((i, w) ∷ m) h = ground (arith, map_values-adjust k f m h, h w)

  pub map_values-adjust_all :
      (ks : List K) (f : V → V) (m : List (K × V))
      → ((v : V) → g (f v) ≡ g v)
      → map_values (adjust_all ks f m) ≡ map_values m
  unfolding adjust_all
  map_values-adjust_all [] f m h = refl
  map_values-adjust_all (k ∷ ks) f m h =
      map_values-adjust_all ks f (adjust k f m) h ∙ map_values-adjust k f m h

-- HashSet.
abbrev pub HashSet : Type 0 → Type 0
HashSet K = List (K × Unit {0})

module _ {K : Type 0} ⦃e : Key K⦄ where
  abbrev pub contains : K → HashSet K → Bool
  contains k s = is_some (lookup k s)

  abbrev pub add : K → HashSet K → HashSet K
  add k s = insert k tt s

module _ {K V : Type 0} (P : V → Type 0) where
  pub All-values : (m : List (K × V)) → All (λ (p : K × V). P p.1) m → All P (values m)
  All-values [] h = tt
  All-values ((k, v) ∷ m) h = (h.0, All-values m h.1)
