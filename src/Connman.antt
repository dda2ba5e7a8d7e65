-- ===== src/Connman.antt =====
-- `ConnectionManager` of src/network/connman.rs, but for `connect` and `accept`: what they start are
-- the tasks of `handle_node` on types that the repository does not have. A node is what `Node::new`
-- is given, with whether its lock is held, so that `try_read` fails. A method runs as one step.
use Prim.Native.String.{String}
use text.Mathlib.Text.{◌==◌ as str_eq}
use btck_rust_node.Common.{
  ℕ, suc, ◌+◌, Bool, true, false, ◌&&◌, not, Option, none, some, List, [], ◌∷◌, ◌++◌, leb, ltb,
  ◌==◌, if◌then◌else◌, Result, ok, err, nat_key, adjust, insert, remove, lookup, any, length, total,
  map, values, remove_all, keys,
}
use btck_rust_node.Common.Int.{ℤ, pos_part, neg_part}
use btck_rust_node.Common.Words.{add_i64, add64}
use btck_rust_node.Chain.{SocketAddr}
pub mod Bans
mod Tests

pub record ConnectionConfig : Type 0 where
  pub max_outbound : ℕ
  pub max_inbound : ℕ
  pub user_agent : String
  pub protocol_version : ℕ
  pub services : ℕ

-- `Default`, for the network of bitcoin.
abbrev pub default_config : ConnectionConfig
default_config = record {
  max_outbound = 8;
  max_inbound = 125;
  user_agent = "/btck-rust-node:0.1.0/";
  protocol_version = 70016;
  services = 0x0409;
}

pub record Node : Type 0 where
  pub id : ℕ
  pub addr : SocketAddr
  pub inbound : Bool
  pub locked : Bool

pub record BanEntry : Type 0 where
  pub banned_until : ℤ
  pub ban_created : ℤ
  pub reason : String

pub record ConnectionManager : Type 0 where
  pub config : ConnectionConfig
  pub nodes : List (ℕ × Node)
  pub next_id : ℕ
  pub added_nodes : List SocketAddr
  pub banned : List (String × BanEntry)
  pub network_active : Bool
  pub total_bytes_recv : ℕ
  pub total_bytes_sent : ℕ

unfoldable pub new_connman : ConnectionConfig → ConnectionManager
new_connman config = record {
  config = config;
  nodes = [];
  next_id = 0;
  added_nodes = [];
  banned = [];
  network_active = true;
  total_bytes_recv = 0;
  total_bytes_sent = 0;
}

abbrev pub lt_i64 : ℤ → ℤ → Bool
lt_i64 a b = ltb (pos_part a + neg_part b) (pos_part b + neg_part a)

-- The address is not looked at.
unfoldable pub is_banned : ConnectionManager → SocketAddr → ℤ → Bool
is_banned m addr now = any (λ (e : String × BanEntry). lt_i64 now e.1.banned_until) m.banned

-- Also what the handler does when it ends.
unfoldable pub disconnect_node : ConnectionManager → ℕ → ConnectionManager
disconnect_node m id = record m { nodes = remove id m.nodes }

unfoldable pub readable_at : SocketAddr → List (ℕ × Node) → List ℕ
readable_at addr [] = []
readable_at addr ((id, n) ∷ ns) =
    let later = readable_at addr ns in if not n.locked && n.addr == addr then id ∷ later else later

unfoldable pub disconnect_by_address : ConnectionManager → SocketAddr → ConnectionManager
unfolding readable_at
disconnect_by_address m addr = record m { nodes = remove_all (readable_at addr m.nodes) m.nodes }

unfoldable pub num_connections : ConnectionManager → ℕ
num_connections m = length m.nodes

-- `retain(|a| a != addr)`.
unfoldable pub retain_other : SocketAddr → List SocketAddr → List SocketAddr
retain_other addr [] = []
retain_other addr (a ∷ rest) =
    let later = retain_other addr rest in if a == addr then later else a ∷ later

unfoldable pub remove_node : ConnectionManager → SocketAddr → ConnectionManager
unfolding disconnect_by_address retain_other
remove_node m addr =
    disconnect_by_address (record m { added_nodes = retain_other addr m.added_nodes }) addr

-- For each added node, whether a node that can be read has its address.
unfoldable pub get_added_nodes : ConnectionManager → List (SocketAddr × Bool)
get_added_nodes m =
    map (λ addr. (addr, any (λ (e : ℕ × Node). not e.1.locked && e.1.addr == addr) m.nodes))
      m.added_nodes

-- The map of bans, whose keys are texts.
unfoldable pub unban : String → List (String × BanEntry) → List (String × BanEntry)
unban subnet [] = []
unban subnet ((s, e) ∷ bans) =
    let later = unban subnet bans in if str_eq s subnet then later else (s, e) ∷ later

unfoldable pub ban_node : ConnectionManager → String → ℤ → Bool → ℤ → ConnectionManager
unfolding unban
ban_node m subnet bantime absolute now =
    let entry : BanEntry = record {
      banned_until = if absolute then bantime else add_i64 now bantime;
      ban_created = now;
      reason = "manually added";
    } in
    record m { banned = (subnet, entry) ∷ unban subnet m.banned }

unfoldable pub unban_node : ConnectionManager → String → ConnectionManager
unfolding unban
unban_node m subnet = record m { banned = unban subnet m.banned }

unfoldable pub clear_banned : ConnectionManager → ConnectionManager
clear_banned m = record m { banned = [] }

unfoldable pub set_network_active : ConnectionManager → Bool → ConnectionManager
set_network_active m active = record m { network_active = active }

unfoldable pub get_net_totals : ConnectionManager → ℕ × ℕ
get_net_totals m = (m.total_bytes_recv, m.total_bytes_sent)

-- The handler counts the bytes of a message.
unfoldable pub count_received : ConnectionManager → ℕ → ConnectionManager
count_received m len = record m { total_bytes_recv = add64 m.total_bytes_recv len }

-- The calls that change the manager, but for those that open a connection.
pub data Call : Type 0 where
  disconnects : ℕ → Call
  disconnects_address : SocketAddr → Call
  removes : SocketAddr → Call
  bans : String → ℤ → Bool → ℤ → Call
  unbans : String → Call
  clears : Call
  activates : Bool → Call
  receives : ℕ → Call

unfoldable pub step : ConnectionManager → Call → ConnectionManager
unfolding disconnect_node disconnect_by_address remove_node ban_node unban_node clear_banned
    set_network_active count_received
step m (disconnects id) = disconnect_node m id
step m (disconnects_address addr) = disconnect_by_address m addr
step m (removes addr) = remove_node m addr
step m (bans subnet bantime absolute now) = ban_node m subnet bantime absolute now
step m (unbans subnet) = unban_node m subnet
step m clears = clear_banned m
step m (activates active) = set_network_active m active
step m (receives len) = count_received m len

unfoldable pub run : List Call → ConnectionManager → ConnectionManager
unfolding step
run [] m = m
run (c ∷ cs) m = run cs (step m c)
