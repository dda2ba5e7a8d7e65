-- ===== src/Kernel/Genesis.antt =====
-- The check for the genesis block at the end of `Kernel::new`, and the drop of a kernel.
use btck_rust_node.Common.{
  ℕ, ◌≡◌, refl, sym, ap, ◌∙◌, subst, Bool, true, false, Option, none, some, List, if◌then◌else◌,
  nat_key, Result, ok, err, arith, if-elim,
}
use btck_rust_node.Common.Int.{ℤ, pos}
use btck_rust_node.ChainParams.{Network}
use btck_rust_node.Kernel.{Kernel, is_zero}
use btck_rust_node.Kernel.Foreign.{
  Handle, Library, Process, Action, ◌>>=◌, ◌>>◌, pure, raise, attempt, all_live,
}
use btck_rust_node.Kernel.Wrapper.{
  WrapperError, genesis_encoding, genesis_network, unwrap_or, of_chainman, active_height,
  process_block, drop_kernel,
}
use btck_rust_node.Kernel.Startup.{
  process_encoded, process_genesis, ensure_genesis, check_genesis, finds_genesis,
}
use btck_rust_node.Kernel.Calls.{IsKept, process_block-Keeps, active_height-Keeps}
use btck_rust_node.Kernel.Lifetime.{After, After-bind, After-attempt, After-map, Then, IsSound}
use btck_rust_node.Kernel.Session.{owned, drop_kernel-owned, finds_genesis-Kept, live-owned}

-- A kernel whose objects are live, or the error of its genesis block with nothing left.
abbrev pub Ready :
    {W : Type 0} → Library W → List Handle → Result WrapperError Kernel → Process W → Type 0
Ready lib base (ok k) t = (t.live ≡ owned lib k base) × IsSound t
Ready lib base (err e) t = (e ≡ genesis_encoding) × (t.live ≡ base)

module _ {W : Type 0} (lib : Library W) (k : Kernel) (base : List Handle) where
  -- The objects of the kernel are live, or there was an error and they are destroyed.
  abbrev Checked : {A : Type 0} → Result WrapperError A → Process W → Type 0
  Checked (ok a) t = (t.live ≡ owned lib k base) × IsSound t
  Checked (err e) t = (e ≡ genesis_encoding) × (t.live ≡ base)

  pub still_live :
      (s : Process W) → s.live ≡ owned lib k base → all_live (of_chainman k) s.live ≡ true
  still_live s held = ap (all_live (of_chainman k)) held ∙ live-owned lib k base

  pub drop_held :
      (s : Process W)
      → s.live ≡ owned lib k base
      → IsSound s
      → After (drop_kernel lib k s) (λ r t. (r ≡ ok tt) × (t.live ≡ base))
  drop_held s held sound =
      subst
        (λ l.
          IsSound (record s { live = l })
          → After (drop_kernel lib k (record s { live = l }))
              (λ r t. (r ≡ ok tt) × (t.live ≡ base)))
        (sym held) (drop_kernel-owned lib k base s) sound

  drop_raise :
      (s : Process W)
      → s.live ≡ owned lib k base
      → IsSound s
      → After ((drop_kernel lib k >> raise {A = Unit {0}} genesis_encoding) s) Checked
  drop_raise s held sound =
      After-bind (drop_kernel lib k) (λ u. raise genesis_encoding) s Checked
        (After-map (drop_kernel lib k s) go (drop_held s held sound))
    where
      go :
          (r : Result WrapperError (Unit {0})) (t : Process W)
          → (r ≡ ok tt) × (t.live ≡ base)
          → Then {B = Unit {0}} (λ u. raise genesis_encoding) Checked r t
      go (ok u) t h = (refl, h.1)
      go (err d) t h = absurd (ground arith)

  process_encoded-Checked :
      (encoded : Option (List ℕ)) (s : Process W)
      → s.live ≡ owned lib k base
      → IsSound s
      → After (process_encoded lib k encoded s) Checked
  unfolding process_encoded
  process_encoded-Checked none s held sound = drop_raise s held sound
  process_encoded-Checked (some raw) s held sound =
      After-bind (attempt (process_block lib k raw)) (λ u. pure tt) s Checked
        (After-attempt (process_block lib k raw) s (Then {B = Unit {0}} (λ u. pure tt) Checked) (
          After-map (process_block lib k raw s) (λ r t kept. (kept.0 ∙ held, kept.1))
            (process_block-Keeps lib k raw s sound (still_live s held))))

  module _ (genesis : Network → Option (List ℕ)) (n : ℕ) where
    process_genesis-Checked :
        (s : Process W)
        → s.live ≡ owned lib k base
        → IsSound s
        → After (process_genesis lib genesis k n s) Checked
    unfolding process_genesis
    process_genesis-Checked = process_encoded-Checked (genesis (genesis_network n))

    ensure_genesis-Checked :
        (found : Bool) (s : Process W)
        → s.live ≡ owned lib k base
        → IsSound s
        → After (ensure_genesis lib genesis k n found s) Checked
    unfolding ensure_genesis
    ensure_genesis-Checked false s held sound = process_genesis-Checked s held sound
    ensure_genesis-Checked true s held sound =
        After-bind (attempt (active_height lib k)) rest s Checked (
          After-attempt (active_height lib k) s (Then rest Checked) (
            After-map (active_height lib k s)
              (λ r t kept.
                if-elim (λ (m : Action W WrapperError (Unit {0})). After (m t) Checked)
                  (is_zero (unwrap_or (pos 0) r))
                  (λ z. process_genesis-Checked t (kept.0 ∙ held) kept.1)
                  (λ z. (kept.0 ∙ held, kept.1)))
              (active_height-Keeps lib k s sound (still_live s held))))
      where
        rest : Result WrapperError ℤ → Action W WrapperError (Unit {0})
        rest height =
            if is_zero (unwrap_or (pos 0) height) then process_genesis lib genesis k n else pure tt

    end_check :
        (found : Bool) (s : Process W)
        → s.live ≡ owned lib k base
        → IsSound s
        → After ((ensure_genesis lib genesis k n found >>= λ u. pure k) s) (Ready lib base)
    end_check found s held sound =
        After-bind (ensure_genesis lib genesis k n found) (λ u. pure k) s (Ready lib base)
          (After-map (ensure_genesis lib genesis k n found s) go
            (ensure_genesis-Checked found s held sound))
      where
        go :
            (r : Result WrapperError (Unit {0})) (t : Process W)
            → Checked r t
            → Then {B = Kernel} (λ u. pure k) (Ready lib base) r t
        go (ok u) t h = h
        go (err e) t h = h

    pub check_genesis-Ready :
        (s : Process W)
        → s.live ≡ owned lib k base
        → IsSound s
        → After (check_genesis lib genesis k n s) (Ready lib base)
    unfolding check_genesis
    check_genesis-Ready s held sound = After-bind (finds_genesis lib k) rest s (Ready lib base) (
        After-map (finds_genesis lib k s) go (finds_genesis-Kept lib k s sound (still_live s held)))
      where
        rest : Bool → Action W WrapperError Kernel
        rest found = ensure_genesis lib genesis k n found >>= λ u. pure k

        go :
            (r : Result WrapperError Bool) (t : Process W)
            → (b : Bool) × (r ≡ ok b) × IsKept s t
            → Then rest (Ready lib base) r t
        go (ok found) t (b, e, kept) = end_check found t (kept.0 ∙ held) kept.1
        go (err d) t (b, e, kept) = absurd (ground arith)
