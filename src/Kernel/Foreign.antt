-- ===== src/Kernel/Foreign.antt =====
-- libbitcoinkernel, as src/kernel/mod.rs calls it: what its calls return is a parameter, and the
-- objects that a call has made and none has destroyed are kept, so that a call on anything else has
-- no result.
use btck_rust_node.Common.{
  ℕ, suc, Bool, true, false, ◌&&◌, Option, none, some, List, [], ◌∷◌, ◌==◌, if◌then◌else◌, nat_key,
  Result, ok, err, lookup, remove,
}
use btck_rust_node.Common.Int.{ℤ}
use btck_rust_node.Chain.{BlockHash}

pub data Kind : Type 0 where
  context_options chain_parameters context : Kind
  chainman_options chainman block : Kind

abbrev pub kind_code : Kind → ℕ
kind_code context_options = 0
kind_code chain_parameters = 1
kind_code context = 2
kind_code chainman_options = 3
kind_code chainman = 4
kind_code block = 5

-- The calls that make an object.
pub data Making : Type 0 where
  context_options_create : Making
  chain_parameters_create : ℕ → Making
  context_create : ℕ → Making
  chainstate_manager_options_create : ℕ → List ℕ → List ℕ → Making
  chainstate_manager_create : ℕ → Making
  block_create : List ℕ → Making

-- The calls that set something in options.
pub data Setting : Type 0 where
  set_chainparams : ℕ → ℕ → Setting
  update_block_tree_db_in_memory : ℕ → ℕ → Setting
  update_chainstate_db_in_memory : ℕ → ℕ → Setting
  set_worker_threads_num : ℕ → ℕ → Setting

abbrev pub Handle : Type 0
Handle = ℕ × Kind

-- What a call makes, and the objects it is given.
abbrev pub kind_of : Making → Kind
kind_of context_options_create = context_options
kind_of (chain_parameters_create chain_type) = chain_parameters
kind_of (context_create opts) = context
kind_of (chainstate_manager_options_create ctx data_dir blocks_dir) = chainman_options
kind_of (chainstate_manager_create opts) = chainman
kind_of (block_create raw) = block

abbrev pub given : Making → List Handle
given (context_create opts) = (opts, context_options) ∷ []
given (chainstate_manager_options_create ctx data_dir blocks_dir) = (ctx, context) ∷ []
given (chainstate_manager_create opts) = (opts, chainman_options) ∷ []
given _ = []

abbrev pub given_setting : Setting → List Handle
given_setting (set_chainparams opts params) =
    (opts, context_options) ∷ (params, chain_parameters) ∷ []
given_setting (update_block_tree_db_in_memory opts v) = (opts, chainman_options) ∷ []
given_setting (update_chainstate_db_in_memory opts v) = (opts, chainman_options) ∷ []
given_setting (set_worker_threads_num opts v) = (opts, chainman_options) ∷ []

-- The library, whose state is a `W`. A call that makes an object may return null; the chain, its
-- tip, an entry and the hash of an entry may be null too.
pub record Library (W : Type 0) : Type 0 where
  pub create : Making → W → Bool × W
  pub destroys : Kind → ℕ → W → W
  pub sets : Setting → W → W
  pub active_chain_height : W → Option ℤ
  pub has_genesis : W → Bool
  pub tip_hash : W → Option (Option BlockHash)
  pub hash_by_height : ℤ → W → Option (Option BlockHash)
  -- The return code and what is left in `new_block`.
  pub processes : ℕ → W → (ℤ × ℤ) × W
  pub imports : List (List ℕ) → W → ℤ × W

-- The lines that `process_block` prints, with the heights before and after; `added` says whether
-- the block file is looked at.
pub data Report : Type 0 where
  activated_from_index : ℤ → ℤ → Report
  already_active : ℤ → Report
  added : ℤ → ℤ → Bool → Report
  not_advanced : ℤ → ℤ → Report
  index_activated : ℤ → ℤ → Report
  already_in_index : ℤ → Report

-- The process: the library's state, the live objects, the next name for one, the static counter
-- `SESSION_BLOCKS_ADDED`, and what was printed, the latest first.
pub record Process (W : Type 0) : Type 0 where
  pub world : W
  pub live : List Handle
  pub next : ℕ
  pub session_blocks : ℤ
  pub log : List Report

abbrev pub is_kind : Kind → Option Kind → Bool
is_kind k none = false
is_kind k (some j) = kind_code k == kind_code j

unfoldable pub all_live : List Handle → List Handle → Bool
all_live [] live = true
all_live ((h, k) ∷ hs) live = let later = all_live hs live in is_kind k (lookup h live) && later

-- A call that may fail. No result is undefined behaviour: a foreign call on an object that is not
-- there.
abbrev pub Action : Type 0 → Type 0 → Type 0 → Type 0
Action W E A = Process W → Option (Result E A × Process W)

infixl 5 ◌>>=◌ ◌>>◌
abbrev pub ◌>>=◌ : {W E A B : Type 0} → Action W E A → (A → Action W E B) → Action W E B
◌>>=◌ m f s = elim (m s) [
  | none ↦ none
  | some (ok a, t) ↦ f a t
  | some (err e, t) ↦ some (err e, t)
]

abbrev pub ◌>>◌ : {W E A B : Type 0} → Action W E A → Action W E B → Action W E B
m >> k = m >>= λ _. k

abbrev pub pure : {W E A : Type 0} → A → Action W E A
pure a s = some (ok a, s)

abbrev pub raise : {W E A : Type 0} → E → Action W E A
raise e s = some (err e, s)

-- The error is a value from here on.
abbrev pub attempt : {W E A : Type 0} → Action W E A → Action W E (Result E A)
attempt m s = elim (m s) [ none ↦ none | some (r, t) ↦ some (ok r, t) ]

module _ {W : Type 0} (lib : Library W) where
  -- A call with the given objects.
  unfoldable pub call : {E A : Type 0} → List Handle → (W → A × W) → Action W E A
  unfolding all_live
  call hs f s =
      let r = f s.world in
      if all_live hs s.live then some (ok r.0, record s { world = r.1 }) else none

  -- The object is named, or the pointer is null.
  unfoldable pub make : {E : Type 0} → Making → Action W E (Option ℕ)
  unfolding all_live
  make m s =
      let r = lib.create m s.world in
      if all_live (given m) s.live
      then some (
          if r.0
          then (
            ok (some s.next),
            record s { world = r.1; live = (s.next, kind_of m) ∷ s.live; next = suc s.next },
          )
          else (ok none, record s { world = r.1 }))
      else none

  unfoldable pub destroy : {E : Type 0} → Kind → ℕ → Action W E (Unit {0})
  unfolding all_live
  destroy k h s =
      if all_live ((h, k) ∷ []) s.live
      then some (ok tt, record s { world = lib.destroys k h s.world; live = remove h s.live })
      else none

  unfoldable pub set : {E : Type 0} → Setting → Action W E (Unit {0})
  unfolding call
  set x = call (given_setting x) (λ w. (tt, lib.sets x w))

  unfoldable pub ask : {E A : Type 0} → List Handle → (W → A) → Action W E A
  unfolding call
  ask hs f = call hs (λ w. (f w, w))
