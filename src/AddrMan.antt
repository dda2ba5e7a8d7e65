-- ===== src/AddrMan.antt =====
-- The address manager of src/addrman.rs: the tables of new and tried addresses and their buckets.
-- A socket address is only hashed and compared: it is a number. The hasher of the standard library
-- is the argument `finish`, its value after it was fed some addresses; the clock is `now`, in
-- nanoseconds; a random position is an argument. A vector of buckets is a function from its index,
-- which is always a remainder by the length of the vector.

pub mod Buckets
pub mod Calls
pub mod Select
pub mod Own
pub mod Choice
pub mod Several
mod Tests
use btck_rust_node.Common.{
  ℕ, ◌+◌, ◌-◌, ◌*◌, ◌%◌, Bool, true, false, not, ◌&&◌, ◌||◌, Option, none, some, List, [], ◌∷◌, ltb,
  leb, ◌==◌, if◌then◌else◌, nat_key, lookup, insert, remove, adjust, contains, contains_key, add,
  HashSet, length,
}
use btck_rust_node.Common.Words.{i32_mod}
use btck_rust_node.Chain.{SocketAddr}

abbrev pub max_addresses : ℕ
max_addresses = 20000

abbrev pub new_buckets_count : ℕ
new_buckets_count = 1024

abbrev pub tried_buckets_count : ℕ
tried_buckets_count = 256

abbrev pub bucket_size : ℕ
bucket_size = 64

pub record AddressInfo : Type 0 where
  pub addr : SocketAddr
  pub services : ℕ
  pub last_success : Option ℕ
  pub last_try : Option ℕ
  pub last_seen : ℕ
  pub attempts : ℕ
  pub source : Option SocketAddr
  pub random_pos : ℕ

unfoldable pub new_info : SocketAddr → ℕ → Option SocketAddr → ℕ → ℕ → AddressInfo
new_info addr services source now pos = record {
  addr = addr;
  services = services;
  last_success = none;
  last_try = none;
  last_seen = now;
  attempts = 0;
  source = source;
  random_pos = pos;
}

-- A time is less than so many seconds ago. A time in the future is 0 ago.
abbrev pub is_within : ℕ → ℕ → ℕ → Bool
is_within secs t now = ltb (now - t) (secs * 1000000000)

unfoldable pub is_good : AddressInfo → ℕ → Bool
is_good info now = elim info.last_success [
  | none ↦ false
  | some t ↦ is_within 3600 t now && ltb info.attempts 3
]

unfoldable pub is_terrible : AddressInfo → ℕ → Bool
is_terrible info now =
    ltb 10 info.attempts || elim info.last_try [ none ↦ false | some t ↦ is_within 60 t now ]

-- The network type, which no method reads, is left out.
pub record AddressManager : Type 0 where
  pub new_addrs : List (SocketAddr × AddressInfo)
  pub tried_addrs : List (SocketAddr × AddressInfo)
  pub new_buckets : ℕ → HashSet SocketAddr
  pub tried_buckets : ℕ → HashSet SocketAddr
  pub own_addrs : HashSet SocketAddr

unfoldable pub new_manager : AddressManager
new_manager = record {
  new_addrs = [];
  tried_addrs = [];
  new_buckets = λ i. [];
  tried_buckets = λ i. [];
  own_addrs = [];
}

-- A bucket is written into the vector.
abbrev pub set_bucket : ℕ → HashSet SocketAddr → (ℕ → HashSet SocketAddr) → ℕ → HashSet SocketAddr
set_bucket i b buckets j = if i == j then b else buckets j

-- The address that leaves a bucket to make room.
unfoldable pub victim : HashSet SocketAddr → Option SocketAddr
victim [] = none
victim ((a, u) ∷ b) = if leb bucket_size (length ((a, u) ∷ b)) then some a else none

unfoldable pub make_room :
    ℕ
    → (ℕ → HashSet SocketAddr)
    → List (SocketAddr × AddressInfo)
    → (ℕ → HashSet SocketAddr) × List (SocketAddr × AddressInfo)
make_room i buckets addrs = elim (victim (buckets i)) [
  | none ↦ (buckets, addrs)
  | some a ↦ (set_bucket i (remove a (buckets i)) buckets, remove a addrs)
]

-- An address is heard of again.
unfoldable pub hear : ℕ → ℕ → AddressInfo → AddressInfo
hear services now info = record info {
  last_seen = now;
  services = if services == 0 then info.services else services;
}

-- A connection succeeds.
unfoldable pub succeed : ℕ → AddressInfo → AddressInfo
succeed now info = record info { last_success = some now; last_try = some now; attempts = 0 }

-- A connection is tried.
unfoldable pub try : ℕ → AddressInfo → AddressInfo
try now info = record info { last_try = some now; attempts = (info.attempts + 1) % i32_mod }

module _ (finish : List SocketAddr → ℕ) where
  unfoldable pub get_new_bucket : SocketAddr → Option SocketAddr → ℕ
  get_new_bucket addr none = finish (addr ∷ []) % new_buckets_count
  get_new_bucket addr (some src) = finish (addr ∷ src ∷ []) % new_buckets_count

  unfoldable pub get_tried_bucket : SocketAddr → ℕ
  get_tried_bucket addr = finish (addr ∷ []) % tried_buckets_count

  -- `add` of an address that is in no table.
  unfoldable pub add_new :
      AddressManager → SocketAddr → ℕ → Option SocketAddr → ℕ → ℕ → AddressManager × Bool
  add_new m addr services source now pos =
      let bucket = get_new_bucket addr source in
      let (buckets, addrs) = make_room bucket m.new_buckets m.new_addrs in
      let m' = record m { new_addrs = addrs; new_buckets = buckets } in
      if leb max_addresses (length addrs) then (m', false) else (
        record m' {
          new_addrs = insert addr (new_info addr services source now pos) addrs;
          new_buckets = set_bucket bucket (add addr (buckets bucket)) buckets;
        },
        true,
      )

  unfoldable pub add_address :
      AddressManager → SocketAddr → ℕ → Option SocketAddr → ℕ → ℕ → AddressManager × Bool
  add_address m addr services source now pos =
      if contains addr m.own_addrs
      then (m, false)
      else (if contains_key addr m.tried_addrs
          then (m, false)
          else (if contains_key addr m.new_addrs
              then (record m { new_addrs = adjust addr (hear services now) m.new_addrs }, false)
              else add_new m addr services source now pos))

  -- An address moves from the new table to the tried one.
  unfoldable pub promote : AddressManager → SocketAddr → AddressInfo → ℕ → AddressManager
  promote m addr info now =
      let bucket = get_new_bucket addr info.source in
      let tried_bucket = get_tried_bucket addr in
      let (buckets, addrs) = make_room tried_bucket m.tried_buckets m.tried_addrs in
      record m {
        new_addrs = remove addr m.new_addrs;
        new_buckets = set_bucket bucket (remove addr (m.new_buckets bucket)) m.new_buckets;
        tried_addrs = insert addr (succeed now info) addrs;
        tried_buckets = set_bucket tried_bucket (add addr (buckets tried_bucket)) buckets;
      }

  unfoldable pub good : AddressManager → SocketAddr → ℕ → AddressManager
  good m addr now = elim (lookup addr m.new_addrs) [
    | some info ↦ promote m addr info now
    | none ↦ record m { tried_addrs = adjust addr (succeed now) m.tried_addrs }
  ]

unfoldable pub attempt : AddressManager → SocketAddr → ℕ → AddressManager
attempt m addr now =
    if contains_key addr m.new_addrs
    then record m { new_addrs = adjust addr (try now) m.new_addrs }
    else record m { tried_addrs = adjust addr (try now) m.tried_addrs }

unfoldable pub add_own_address : AddressManager → SocketAddr → AddressManager
add_own_address m addr = record m { own_addrs = add addr m.own_addrs }

unfoldable pub clear_addresses : AddressManager → AddressManager
clear_addresses m = record m {
  new_addrs = [];
  tried_addrs = [];
  new_buckets = λ i. [];
  tried_buckets = λ i. [];
}
