-- ===== src/Kernel/Calls.antt =====
-- The calls of a kernel leave the live objects as they are: `process_block` destroys the block that
-- it makes on each of its paths.
use btck_rust_node.Common.{
  ℕ, suc, ◌≡◌, subst, IsDistinct, refl, sym, ap, ◌∙◌, true, none, some, List, [], ◌∷◌, nat_key,
  Result, ok, err, lookup, remove, remove_absent, arith,
}
use btck_rust_node.Common.Int.{ℤ, negsuc}
use btck_rust_node.Kernel.{Kernel}
use btck_rust_node.Kernel.Foreign.{
  Kind, Handle, Library, Process, Action, ◌>>=◌, ◌>>◌, pure, attempt, make, destroy, ask, call,
  all_live, chainman, block, block_create,
}
use btck_rust_node.Kernel.Wrapper.{
  WrapperError, lift, unwrap_or, of_chainman, height_of, active_height, get_best_block_hash,
  get_block_hash, import_blocks, process_block, use_block, end_block, note_block,
}
use btck_rust_node.Kernel.Startup.{
  Request, heights, best_hash, hash_at, imports_files, processes_block, perform, perform_each,
}
use btck_rust_node.Kernel.Lifetime.{
  After, After-bind, After-attempt, After-map, Then, IsSound, call-After, make-After, destroy-After,
}

abbrev pub IsKept : {W : Type 0} → Process W → Process W → Type 0
IsKept s t = (t.live ≡ s.live) × IsSound t

-- Whenever the objects it is given are live, the call has a result and leaves the objects as they
-- are.
abbrev pub Keeps : {W E A : Type 0} → List Handle → Action W E A → Type 0
Keeps hs m =
    (s : Process _) → IsSound s → all_live hs s.live ≡ true → After (m s) (λ r t. IsKept s t)

module _ {W : Type 0} (hs : List Handle) where
  pub bind-Keeps :
      {A B : Type 0} (m : Action W WrapperError A) (f : A → Action W WrapperError B)
      → Keeps hs m
      → ((a : A) → Keeps hs (f a))
      → Keeps hs (m >>= f)
  bind-Keeps m f first next s sound live =
      After-bind m f s _ (After-map (m s) go (first s sound live))
    where
      go : (r : Result WrapperError _) (t : Process W) → IsKept s t → Then f (λ r u. IsKept s u) r t
      go (ok a) t (same, now) =
          After-map (f a t) (λ r u kept. (kept.0 ∙ same, kept.1))
            (next a t now (ap (all_live hs) same ∙ live))
      go (err e) t kept = kept

  pub attempt-Keeps : {A : Type 0} (m : Action W WrapperError A) → Keeps hs m → Keeps hs (attempt m)
  attempt-Keeps m h s sound live = After-attempt m s _ (h s sound live)

  pub pure-Keeps : {A : Type 0} (a : A) → Keeps {W = W} {E = WrapperError} hs (pure a)
  pure-Keeps a s sound live = (refl, sound)

  pub lift-Keeps : {A : Type 0} (r : Result WrapperError A) → Keeps {W = W} hs (lift r)
  lift-Keeps (ok a) s sound live = (refl, sound)
  lift-Keeps (err e) s sound live = (refl, sound)

module _ {W : Type 0} (lib : Library W) where
  pub call-Keeps :
      {A : Type 0} (hs : List Handle) (f : W → A × W) → Keeps {E = WrapperError} hs (call lib hs f)
  call-Keeps hs f s sound live = call-After lib hs f s _ live (λ a w. (refl, sound))

  pub ask-Keeps :
      {A : Type 0} (hs : List Handle) (f : W → A) → Keeps {E = WrapperError} hs (ask lib hs f)
  unfolding ask
  ask-Keeps hs f = call-Keeps hs (λ w. (f w, w))

remove_first : (h : ℕ) (k : Kind) (m : List Handle) → lookup h m ≡ none → remove h ((h, k) ∷ m) ≡ m
unfolding remove
remove_first h k m new = ground (arith, remove_absent h m)

lookup_first : (h : ℕ) (k : Kind) (m : List Handle) → lookup h ((h, k) ∷ m) ≡ some k
unfolding lookup
lookup_first h k m = ground arith

-- A live object and a new one are both live.
both_live :
    (j h : ℕ) (m : List Handle)
    → lookup h m ≡ none
    → all_live ((j, chainman) ∷ []) m ≡ true
    → all_live ((j, chainman) ∷ (h, block) ∷ []) ((h, block) ∷ m) ≡ true
unfolding lookup all_live
both_live j h m new live = ground arith

module _ {W : Type 0} (lib : Library W) (k : Kernel) where
  pub active_height-Keeps : Keeps (of_chainman k) (active_height lib k)
  unfolding active_height
  active_height-Keeps =
      bind-Keeps (of_chainman k) _ _ (ask-Keeps lib (of_chainman k) lib.active_chain_height)
        λ height. pure-Keeps (of_chainman k) (height_of height)

  get_best_block_hash-Keeps : Keeps (of_chainman k) (get_best_block_hash lib k)
  unfolding get_best_block_hash
  get_best_block_hash-Keeps =
      bind-Keeps (of_chainman k) _ _ (ask-Keeps lib (of_chainman k) lib.active_chain_height)
        λ chain. bind-Keeps (of_chainman k) _ _ (lift-Keeps (of_chainman k) _) λ u.
          bind-Keeps (of_chainman k) _ _ (ask-Keeps lib (of_chainman k) lib.tip_hash)
            λ tip. lift-Keeps (of_chainman k) _

  get_block_hash-Keeps : (height : ℤ) → Keeps (of_chainman k) (get_block_hash lib k height)
  unfolding get_block_hash
  get_block_hash-Keeps height =
      bind-Keeps (of_chainman k) _ _ (ask-Keeps lib (of_chainman k) lib.active_chain_height)
        λ chain. bind-Keeps (of_chainman k) _ _ (lift-Keeps (of_chainman k) _) λ u.
          bind-Keeps (of_chainman k) _ _ (ask-Keeps lib (of_chainman k) (lib.hash_by_height height))
            λ entry. lift-Keeps (of_chainman k) _

  import_blocks-Keeps : (paths : List (List ℕ)) → Keeps (of_chainman k) (import_blocks lib k paths)
  unfolding import_blocks
  import_blocks-Keeps paths =
      bind-Keeps (of_chainman k) _ _ (lift-Keeps (of_chainman k) _)
        λ cs. call-Keeps lib (of_chainman k) (lib.imports cs)

  end_block-Keeps :
      (before : ℤ) (answer : ℤ × ℤ) → Keeps (of_chainman k) (end_block lib k before answer)
  unfolding end_block note_block
  end_block-Keeps before answer = bind-Keeps (of_chainman k) _ _ (lift-Keeps (of_chainman k) _) λ u.
      bind-Keeps (of_chainman k) _ _ (attempt-Keeps (of_chainman k) _ active_height-Keeps)
        λ after s sound live. (refl, sound)

  -- The block is made, used and destroyed.
  with_block-Keeps :
      (raw : List ℕ) (before : ℤ) (s : Process W)
      → IsSound s
      → all_live (of_chainman k) s.live ≡ true
      → (w : W)
      → After
          ((call lib ((k.chainman, chainman) ∷ (s.next, block) ∷ []) (lib.processes s.next)
              >>= λ answer. destroy lib block s.next >> end_block lib k before answer)
            (record s { world = w; live = (s.next, block) ∷ s.live; next = suc s.next }))
          (λ r t. IsKept s t)
  unfolding all_live
  with_block-Keeps raw before s sound live w =
      let ptr = s.next in
      let new : lookup ptr s.live ≡ none = sound.1 ptr (omega arith) in
      let both : List Handle = (k.chainman, chainman) ∷ (ptr, block) ∷ [] in
      let s0 : Process W = record s {
        world = w;
        live = (ptr, block) ∷ s.live;
        next = suc s.next;
      } in
      let later : ℤ × ℤ → Action W WrapperError (Unit {0}) =
        λ answer. destroy lib block ptr >> end_block lib k before answer in
      After-bind (call lib both (lib.processes ptr)) later s0 _ (
        call-After lib both (lib.processes ptr) s0 _ (both_live k.chainman ptr s.live new live)
          λ answer w1.
            let s1 : Process W = record s0 { world = w1 } in
            After-bind (destroy lib block ptr) (λ u. end_block lib k before answer) s1 _
              (destroy-After lib block ptr s1 _ (lookup_first ptr block s.live) λ w2.
                let s2 : Process W = record s1 { world = w2; live = remove ptr s1.live } in
                let back : s2.live ≡ s.live = remove_first ptr block s.live new in
                After-map (end_block lib k before answer s2) (λ r t kept. (kept.0 ∙ back, kept.1))
                  (end_block-Keeps before answer s2
                    (
                      subst IsDistinct (sym back) sound.0,
                      λ h le. ap (lookup h) back ∙ sound.1 h (omega (arith, le)),
                    )
                    (ap (all_live (of_chainman k)) back ∙ live))))

  pub process_block-Keeps : (raw : List ℕ) → Keeps (of_chainman k) (process_block lib k raw)
  unfolding process_block use_block
  process_block-Keeps raw =
      bind-Keeps (of_chainman k) _ _ (attempt-Keeps (of_chainman k) _ active_height-Keeps)
        λ before s sound live.
          let b = unwrap_or (negsuc 0) before in
          After-bind (make lib (block_create raw)) (use_block lib k b) s _ (
            make-After lib (block_create raw) s (Then (use_block lib k b) (λ r t. IsKept s t)) refl
              (λ w. (refl, sound)) (with_block-Keeps raw b s sound live))

  perform-Keeps : (r : Request) → Keeps (of_chainman k) (perform lib k r)
  unfolding perform
  perform-Keeps heights =
      bind-Keeps (of_chainman k) _ _ active_height-Keeps (λ a. pure-Keeps (of_chainman k) tt)
  perform-Keeps best_hash =
      bind-Keeps (of_chainman k) _ _ get_best_block_hash-Keeps (λ a. pure-Keeps (of_chainman k) tt)
  perform-Keeps (hash_at h) =
      bind-Keeps (of_chainman k) _ _ (get_block_hash-Keeps h) (λ a. pure-Keeps (of_chainman k) tt)
  perform-Keeps (imports_files paths) =
      bind-Keeps (of_chainman k) _ _ (import_blocks-Keeps paths)
        (λ a. pure-Keeps (of_chainman k) tt)
  perform-Keeps (processes_block raw) = process_block-Keeps raw

  -- Any calls, of which each succeeds or fails, have a result, and every object that they made is
  -- destroyed: the live objects are those from before.
  pub perform_each-IsKept :
      (rs : List Request) (s : Process W)
      → IsSound s
      → all_live (of_chainman k) s.live ≡ true
      → After (perform_each lib k rs s) (λ r t. (r ≡ ok tt) × IsKept s t)
  unfolding perform_each
  perform_each-IsKept [] s sound live = (refl, (refl, sound))
  perform_each-IsKept (q ∷ qs) s sound live =
      let later : Result WrapperError (Unit {0}) → Action W WrapperError (Unit {0}) =
        λ u. perform_each lib k qs in
      After-bind (attempt (perform lib k q)) later s _ (
        After-attempt (perform lib k q) s (Then later (λ r t. (r ≡ ok tt) × IsKept s t)) (
          After-map (perform lib k q s)
            (λ r t kept.
              After-map (perform_each lib k qs t)
                (λ r2 u next. (next.0, (next.1.0 ∙ kept.0, next.1.1)))
                (perform_each-IsKept qs t kept.1 (ap (all_live (of_chainman k)) kept.0 ∙ live)))
            (perform-Keeps q s sound live)))
