-- ===== src/Connman/Bans.antt =====
-- The bans of src/network/connman.rs over any calls.
use Prim.Native.String.{String}
use text.Mathlib.Text.{◌==◌ as str_eq}
use text.Mathlib.TextEquality.{eq_iff}
use text.Mathlib.TextPositions.{eq_refl}
use btck_rust_node.Common.{
  ◌≡◌, ◌↔◌, refl, sym, ap, ◌∙◌, subst, Bool, true, false, ◌||◌, Option, none, some, List, [], ◌∷◌,
  if◌then◌else◌, if-elim, Bool-cases, inl, inr, none-some, some-eq, any,
}
use btck_rust_node.Common.Int.{ℤ}
use btck_rust_node.Common.Words.{add_i64}
use btck_rust_node.Chain.{SocketAddr}
use btck_rust_node.Connman.{
  ConnectionConfig, ConnectionManager, BanEntry, lt_i64, new_connman, is_banned, ban_node,
  unban_node, clear_banned, unban, disconnect_node, disconnect_by_address, remove_node,
  set_network_active, count_received, Call, disconnects, disconnects_address, removes, bans, unbans,
  clears, activates, receives, step, run,
}

-- Until when a subnet is banned by the calls: the last call about it counts. It is `end` before.
unfoldable pub banned_by : List Call → String → Option ℤ → Option ℤ
banned_by [] subnet end = end
banned_by (bans s bantime true now ∷ cs) subnet end =
    banned_by cs subnet (if str_eq s subnet then some bantime else end)
banned_by (bans s bantime false now ∷ cs) subnet end =
    banned_by cs subnet (if str_eq s subnet then some (add_i64 now bantime) else end)
banned_by (unbans s ∷ cs) subnet end = banned_by cs subnet (if str_eq s subnet then none else end)
banned_by (clears ∷ cs) subnet end = banned_by cs subnet none
banned_by (_ ∷ cs) subnet end = banned_by cs subnet end

-- Until when the entries ban a subnet.
ends_at : String → List (String × BanEntry) → Option ℤ
ends_at subnet [] = none
ends_at subnet ((s, e) ∷ bs) =
    let later = ends_at subnet bs in if str_eq s subnet then some e.banned_until else later

-- No subnet has two entries.
abbrev IsClean : List (String × BanEntry) → Type 0
IsClean [] = Unit
IsClean ((s, e) ∷ bs) = (ends_at s bs ≡ none) × IsClean bs

apart : (k s t : String) → k ≡ t → str_eq k s ≡ false → str_eq s t ≡ false
apart k s t same n = elim (Bool-cases (str_eq s t)) [
  | inr d ↦ d
  | inl d ↦
      let e : str_eq k s ≡ true = (eq_iff k s).1 (same ∙ sym ((eq_iff s t).0 d)) in
      absurd (cc (e, n))
]

ends_at-unban :
    (s t : String) (bs : List (String × BanEntry))
    → ends_at t (unban s bs) ≡ (if str_eq s t then none else ends_at t bs)
unfolding ends_at unban
ends_at-unban s t [] = elim (Bool-cases (str_eq s t)) [ inl a ↦ rw a refl | inr a ↦ rw a refl ]
ends_at-unban s t ((k, e) ∷ bs) = elim (Bool-cases (str_eq k s)) [
  | inl a ↦
      let same : k ≡ s = (eq_iff k s).0 a in
      elim (Bool-cases (str_eq s t)) [
        | inl b ↦
            rw (a, unban, b) (ends_at-unban s t bs ∙ ap (λ c. if c then none else ends_at t bs) b)
        | inr b ↦
            let c : str_eq k t ≡ false = ap (λ x. str_eq x t) same ∙ b in
            rw (a, unban, b, c)
              (ends_at-unban s t bs ∙ ap (λ c. if c then none else ends_at t bs) b)
      ]
  | inr a ↦ elim (Bool-cases (str_eq k t)) [
    | inr c ↦ rw (a, unban, c, ends_at) (ends_at-unban s t bs)
    | inl c ↦
        let b : str_eq s t ≡ false = apart k s t ((eq_iff k t).0 c) a in
        rw (a, unban, c, b, ends_at) refl
  ]
]

unban-IsClean : (s : String) (bs : List (String × BanEntry)) → IsClean bs → IsClean (unban s bs)
unfolding unban
unban-IsClean s [] v = tt
unban-IsClean s ((k, e) ∷ bs) v = elim (Bool-cases (str_eq k s)) [
  | inl a ↦ rw (a, unban) (unban-IsClean s bs v.1)
  | inr a ↦
      rw (a, unban)
        (
          ends_at-unban s k bs ∙ if-elim (λ x. x ≡ none) (str_eq s k) (λ b. refl) (λ b. v.0),
          unban-IsClean s bs v.1,
        )
]

or_true : (b : Bool) → b || true ≡ true
or_true true = refl
or_true false = refl

-- An entry that runs is that of some subnet.
any-ends_at :
    (now : ℤ) (bs : List (String × BanEntry))
    → IsClean bs
    → (any (λ (e : String × BanEntry). lt_i64 now e.1.banned_until) bs ≡ true)
      ↔ ((s : String) × (until : ℤ) × (ends_at s bs ≡ some until) × (lt_i64 now until ≡ true))
unfolding ends_at
any-ends_at now [] v = (λ h. absurd (cc h), λ (s, u, e, r). absurd (none-some refl e))
any-ends_at now ((k, b) ∷ bs) v = (
  λ h. elim (Bool-cases (lt_i64 now b.banned_until)) [
    | inl a ↦ (
      k,
      b.banned_until,
      ap (λ c. if c then some b.banned_until else ends_at k bs) (eq_refl k),
      a,
    )
    | inr a ↦
        let h' : any (λ (e : String × BanEntry). lt_i64 now e.1.banned_until) bs ≡ true =
          rw a at h in
        let (s, u, e, r) = (any-ends_at now bs v.1).0 h' in
        elim (Bool-cases (str_eq k s)) [
          | inl same ↦
              absurd (none-some (subst (λ t. ends_at t bs ≡ none) ((eq_iff k s).0 same) v.0) e)
          | inr n ↦ (s, u, ap (λ c. if c then some b.banned_until else ends_at s bs) n ∙ e, r)
        ]
  ],
  λ (s, u, e, r). elim (Bool-cases (str_eq k s)) [
    | inl same ↦
        let f : b.banned_until ≡ u =
          some-eq (sym (ap (λ c. if c then some b.banned_until else ends_at s bs) same) ∙ e) in
        ap (λ c. c || any (λ (e : String × BanEntry). lt_i64 now e.1.banned_until) bs)
          (ap (lt_i64 now) f ∙ r)
    | inr n ↦
        let e' : ends_at s bs ≡ some u =
          sym (ap (λ c. if c then some b.banned_until else ends_at s bs) n) ∙ e in
        let rest = (any-ends_at now bs v.1).1 (s, u, e', r) in
        ap (λ c. lt_i64 now b.banned_until || c) rest ∙ or_true (lt_i64 now b.banned_until)
  ],
)

ends_at-none : (s : String) → ends_at s [] ≡ none
unfolding ends_at
ends_at-none s = refl

-- The entries are those of the calls so far.
Keeps : ConnectionManager → List Call → ConnectionManager → Type 0
Keeps m cs m' =
    IsClean m'.banned × ((s : String) → ends_at s m'.banned ≡ banned_by cs s (ends_at s m.banned))

ban-IsClean :
    (subnet : String) (e : BanEntry) (bs : List (String × BanEntry))
    → IsClean bs
    → IsClean ((subnet, e) ∷ unban subnet bs)
ban-IsClean subnet e bs v = (
  ends_at-unban subnet subnet bs ∙ ap (λ c. if c then none else ends_at subnet bs) (eq_refl subnet),
  unban-IsClean subnet bs v,
)

ends_at-ban :
    (subnet : String) (e : BanEntry) (bs : List (String × BanEntry)) (s : String)
    → ends_at s ((subnet, e) ∷ unban subnet bs)
      ≡ (if str_eq subnet s then some e.banned_until else ends_at s bs)
unfolding ends_at
ends_at-ban subnet e bs s = elim (Bool-cases (str_eq subnet s)) [
  | inl a ↦ rw a refl
  | inr a ↦ rw a (ends_at-unban subnet s bs ∙ ap (λ c. if c then none else ends_at s bs) a)
]

abbrev entry : ℤ → ℤ → BanEntry
entry until now = record { banned_until = until; ban_created = now; reason = "manually added" }

run-Keeps : (cs : List Call) (m : ConnectionManager) → IsClean m.banned → Keeps m cs (run cs m)
unfolding Keeps run step banned_by ban_node unban_node clear_banned disconnect_node
    disconnect_by_address remove_node set_network_active count_received
run-Keeps [] m v = (v, λ s. refl)
run-Keeps (bans t bantime true now ∷ cs) m v =
    let e = entry bantime now in
    let r = run-Keeps cs (ban_node m t bantime true now) (ban-IsClean t e m.banned v) in
    (r.0, λ s. r.1 s ∙ ap (banned_by cs s) (ends_at-ban t e m.banned s))
run-Keeps (bans t bantime false now ∷ cs) m v =
    let e = entry (add_i64 now bantime) now in
    let r = run-Keeps cs (ban_node m t bantime false now) (ban-IsClean t e m.banned v) in
    (r.0, λ s. r.1 s ∙ ap (banned_by cs s) (ends_at-ban t e m.banned s))
run-Keeps (unbans t ∷ cs) m v =
    let r = run-Keeps cs (unban_node m t) (unban-IsClean t m.banned v) in
    (r.0, λ s. r.1 s ∙ ap (banned_by cs s) (ends_at-unban t s m.banned))
run-Keeps (clears ∷ cs) m v =
    let r = run-Keeps cs (clear_banned m) tt in
    (r.0, λ s. r.1 s ∙ ap (banned_by cs s) (ends_at-none s))
run-Keeps (disconnects id ∷ cs) m v = run-Keeps cs (disconnect_node m id) v
run-Keeps (disconnects_address addr ∷ cs) m v = run-Keeps cs (disconnect_by_address m addr) v
run-Keeps (removes addr ∷ cs) m v = run-Keeps cs (remove_node m addr) v
run-Keeps (activates b ∷ cs) m v = run-Keeps cs (set_network_active m b) v
run-Keeps (receives len ∷ cs) m v = run-Keeps cs (count_received m len) v

-- After any calls on a new manager, but for those that open a connection, every address is banned at
-- a time exactly if the last call about some subnet, `clear_banned` included, bans it until later:
-- until the time given if that is absolute, and for the time given from the call on if not. The
-- address that is asked about does not matter.
pub is_banned_iff :
    (config : ConnectionConfig) (cs : List Call) (addr : SocketAddr) (now : ℤ)
    → (is_banned (run cs (new_connman config)) addr now ≡ true) ↔ (
        (s : String) × (until : ℤ) × (banned_by cs s none ≡ some until) × (lt_i64 now until ≡ true))
unfolding is_banned new_connman Keeps ends_at
is_banned_iff config cs addr now =
    let r = run-Keeps cs (new_connman config) tt in
    let any_iff = any-ends_at now (run cs (new_connman config)).banned r.0 in
    (
      λ h. let (s, u, e, p) = any_iff.0 h in (s, u, sym (r.1 s) ∙ e, p),
      λ (s, u, e, p). any_iff.1 (s, u, r.1 s ∙ e, p),
    )
