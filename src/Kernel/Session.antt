-- ===== src/Kernel/Session.antt =====
-- What is live after each path of `Kernel::new`, and after a session.
use btck_rust_node.Common.{
  ℕ, suc, ◌≢◌, dec_lt, none-some, ◌≡◌, ◌≤◌, ◌<◌, refl, Bool, true, false, Option, none, some, List,
  ◌∷◌, nat_key, Result, ok, err, lookup, remove, remove_absent, arith, IsDistinct,
}
use btck_rust_node.Common.Int.{ℤ}
use btck_rust_node.Kernel.{Kernel}
use btck_rust_node.Kernel.Foreign.{
  Kind, Handle, Library, Process, make, destroy, set, ask, call, all_live, chainman, context,
  chain_parameters,
}
use btck_rust_node.Kernel.Wrapper.{WrapperError, nul_byte, of_chainman, drop_kernel}
use btck_rust_node.Kernel.Startup.{make_or, open_context, open_manager, asks_genesis, finds_genesis}
use btck_rust_node.Kernel.Calls.{IsKept}
use btck_rust_node.Kernel.Lifetime.{After, After-bind, Then, IsSound, call-After}

abbrev pub is_nul : WrapperError → Bool
is_nul nul_byte = true
is_nul _ = false

module _ {W : Type 0} (lib : Library W) where
  -- What an error of `new` leaves.
  abbrev pub Left : List Handle → WrapperError → List Handle → Type 0
  Left base nul_byte live =
      (ctx : ℕ) × (params : ℕ) × (live ≡ (ctx, context) ∷ (params, chain_parameters) ∷ base)
  Left base e live = live ≡ base

  -- What `open_context` leaves.
  pub Left-other :
      (base : List Handle) (e : WrapperError) (live : List Handle)
      → is_nul e ≡ false
      → live ≡ base
      → Left base e live
  Left-other base nul_byte live h same = absurd (ground arith)
  Left-other base _ live h same = same

  abbrev pub Opened : Process W → Result WrapperError (ℕ × ℕ) → Process W → Type 0
  Opened s (ok (ctx, params)) t =
      (t.live ≡ (ctx, context) ∷ (params, chain_parameters) ∷ s.live) × IsSound t
  Opened s (err e) t = (t.live ≡ s.live) × IsSound t

  pub open_context-Opened :
      (n : ℕ) (s : Process W) → IsSound s → After (open_context lib n s) (Opened s)
  unfolding open_context make_or make destroy set call all_live lookup remove
  open_context-Opened n s sound =
      let new0 : lookup s.next s.live ≡ none = sound.1 s.next (omega arith) in
      let new1 : lookup (suc s.next) s.live ≡ none = sound.1 (suc s.next) (omega arith) in
      let new2 : lookup (suc (suc s.next)) s.live ≡ none =
        sound.1 (suc (suc s.next)) (omega arith) in
      let back0 = remove_absent s.next s.live new0 in
      let back1 = remove_absent (suc s.next) s.live new1 in ground arith

  abbrev pub IsNamed : {A : Type 0} → Result WrapperError A → Type 0
  IsNamed (ok a) = Unit
  IsNamed (err e) = is_nul e ≡ false

  pub open_context-IsNamed :
      (n : ℕ) (s : Process W) → IsSound s → After (open_context lib n s) (λ r t. IsNamed r)
  unfolding open_context make_or make destroy set call all_live lookup remove
  open_context-IsNamed n s sound = ground arith

  -- The objects of a kernel, before those from before it.
  abbrev pub owned : Kernel → List Handle → List Handle
  owned k base =
      (k.chainman, chainman) ∷ (k.ctx, context) ∷ (k.chain_params, chain_parameters) ∷ base

  abbrev pub New : List Handle → Result WrapperError Kernel → Process W → Type 0
  New base (ok k) t = (t.live ≡ owned k base) × IsSound t
  New base (err e) t = Left base e t.live

  -- A live object's name is not a new one.
  live-lt : (s : Process W) (h : ℕ) {k : Kind} → IsSound s → lookup h s.live ≡ some k → h < s.next
  live-lt s h sound there = elim (dec_lt h s.next) [
    | yes p ↦ p
    | no p ↦ absurd (none-some (sound.1 h (omega (arith, p))) there)
  ]

  -- The two names are apart from each other and from the rest.
  abbrev AreApart : ℕ → ℕ → ℕ → List Handle → Type 0
  AreApart ctx params next base =
      (ctx < next)
      × (params < next)
      × (ctx ≢ params)
      × (lookup ctx base ≡ none)
      × (lookup params base ≡ none)
      × (remove ctx base ≡ base)
      × (remove params base ≡ base)
      × IsDistinct base
      × ((h : ℕ) → next ≤ h → lookup h base ≡ none)

  abbrev pub opened_state : ℕ → ℕ → List Handle → Process W → Process W
  opened_state ctx params base s = record s {
    live = (ctx, context) ∷ (params, chain_parameters) ∷ base;
  }

  pub are_apart :
      (ctx params : ℕ) (base : List Handle) (s : Process W)
      → IsSound (opened_state ctx params base s)
      → AreApart ctx params s.next base
  unfolding lookup
  are_apart ctx params base s sound =
      let t = opened_state ctx params base s in
      let lt0 : ctx < s.next = live-lt t ctx {k = context} sound (ground arith) in
      let ne : ctx ≢ params = ground (arith, sound.0.0) in
      let lt1 : params < s.next = live-lt t params {k = chain_parameters} sound (ground arith) in
      let absent : lookup ctx base ≡ none = ground (arith, sound.0.0) in
      (
        lt0,
        lt1,
        ne,
        absent,
        sound.0.1.0,
        remove_absent ctx base absent,
        remove_absent params base sound.0.1.0,
        sound.0.1.1,
        λ h le. ground (arith, sound.1 h le),
      )

  pub open_manager-New :
      (ctx params : ℕ) (base : List Handle) (data_c blocks_c : List ℕ) (s : Process W)
      → AreApart ctx params s.next base
      → After
          (open_manager lib ctx params data_c blocks_c (opened_state ctx params base s))
          (New base)
  unfolding open_manager make_or make destroy set call all_live lookup remove
  open_manager-New ctx params base data_c blocks_c s apart =
      let new0 : lookup s.next base ≡ none = apart.8 s.next (omega arith) in
      let new1 : lookup (suc s.next) base ≡ none = apart.8 (suc s.next) (omega arith) in
      let back1 = remove_absent s.next base new0 in ground arith

  pub drop_kernel-owned :
      (k : Kernel) (base : List Handle) (s : Process W)
      → IsSound (record s { live = owned k base })
      → After
          (drop_kernel lib k (record s { live = owned k base }))
          (λ r t. (r ≡ ok tt) × (t.live ≡ base))
  unfolding drop_kernel destroy all_live lookup remove
  drop_kernel-owned k base s sound =
      let absent1 : lookup k.chain_params base ≡ none = sound.0.1.1.0 in
      let absent2 : lookup k.ctx base ≡ none = ground (arith, sound.0.1.0) in
      let absent3 : lookup k.chainman base ≡ none = ground (arith, sound.0.0) in
      let ne1 : k.ctx ≢ k.chain_params = ground (arith, sound.0.1.0) in
      let ne2 : k.chainman ≢ k.chain_params = ground (arith, sound.0.0) in
      let ne3 : k.chainman ≢ k.ctx = ground (arith, sound.0.0) in
      let back1 = remove_absent k.chain_params base absent1 in
      let back2 = remove_absent k.ctx base absent2 in
      let back3 = remove_absent k.chainman base absent3 in ground arith

  pub finds_genesis-Kept :
      (k : Kernel) (s : Process W)
      → IsSound s
      → all_live (of_chainman k) s.live ≡ true
      → After (finds_genesis lib k s) (λ r t. (b : Bool) × (r ≡ ok b) × IsKept s t)
  unfolding ask call
  finds_genesis-Kept k s sound live =
      After-bind (ask lib (of_chainman k) lib.active_chain_height) (asks_genesis lib k) s Q (
        call-After lib (of_chainman k) (λ w. (lib.active_chain_height w, w)) s
          (Then (asks_genesis lib k) Q) live go)
    where
      Q : Result WrapperError Bool → Process W → Type 0
      Q r t = (b : Bool) × (r ≡ ok b) × IsKept s t

      go : (a : Option ℤ) (w : W) → Then (asks_genesis lib k) Q (ok a) (record s { world = w })
      go none w = (false, refl, (refl, sound))
      go (some h) w =
          call-After lib (of_chainman k) (λ w. (lib.has_genesis w, w)) (record s { world = w }) Q
            live (λ b w1. (b, refl, (refl, sound)))

  pub live-owned :
      (k : Kernel) (base : List Handle) → all_live (of_chainman k) (owned k base) ≡ true
  unfolding all_live lookup
  live-owned k base = ground arith
