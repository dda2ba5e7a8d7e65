-- ===== src/Connman/Tests.antt =====
-- Runs of src/network/connman.rs on small inputs.
use Prim.Native.String.{String}
use btck_rust_node.Common.{◌≡◌, ◌↔◌, true, false, none, some, List, [], ◌∷◌}
use btck_rust_node.Common.Int.{ℤ, pos}
use btck_rust_node.Connman.{
  Call, bans, unbans, removes, default_config, new_connman, lt_i64, is_banned, run,
}
use btck_rust_node.Connman.Bans.{banned_by, is_banned_iff}

abbrev happened : List Call
happened =
    bans "10.0.0.0/8" (pos 50) false (pos 103)
    ∷ bans "11.0.0.0/8" (pos 500) true (pos 104)
    ∷ removes 8
    ∷ unbans "11.0.0.0/8"
    ∷ []

is_banned_iff_example :
    (is_banned (run happened (new_connman default_config)) 7 (pos 120) ≡ true) ↔ (
      (s : String) × (until : ℤ) × (banned_by happened s none ≡ some until)
      × (lt_i64 (pos 120) until ≡ true))
is_banned_iff_example = is_banned_iff default_config happened 7 (pos 120)
