-- ===== src/P2p/Handshake/Order.antt =====
-- What `Peer::handshake` of src/p2p/legacy.rs writes, and in which order.
use btck_rust_node.Common.{
  ℕ, ◌+◌, ◌≡◌, ◌≤◌, inl, inr, refl, Bool, true, false, not, ◌&&◌, Option, some, List, [], ◌∷◌, ◌++◌,
  length, leb, if◌then◌else◌, arith, Bool-cases, if-elim, total, total-append,
}
use btck_rust_node.Common.Int.{ℤ}
use btck_rust_node.P2p.Handshake.{
  Sent, wtxid_relay, verack, send_headers, send_cmpct, get_addr, Received, version_from,
  verack_from, other, Peer, Shake, send, send_then, on_version, on_verack, on_message,
}

abbrev pub relay : Sent → ℕ
relay wtxid_relay = 1
relay _ = 0

abbrev pub ack : Sent → ℕ
ack verack = 1
ack _ = 0

abbrev pub header : Sent → ℕ
header send_headers = 1
header _ = 0

abbrev pub compact : Sent → ℕ
compact send_cmpct = 1
compact _ = 0

abbrev pub address : Sent → ℕ
address get_addr = 1
address _ = 0

abbrev pub one_if : Bool → ℕ
one_if true = 1
one_if false = 0

-- The number of WtxidRelay that come after a Verack, of which there were some before.
abbrev pub late : ℕ → List Sent → ℕ
late acks [] = 0
late acks (m ∷ ms) = (if leb 1 acks then relay m else 0) + late (acks + ack m) ms

pub late-append :
    (ms : List Sent) (acks : ℕ) (n : Sent)
    → late acks (ms ++ n ∷ []) ≡ late acks ms + (if leb 1 (acks + total ack ms) then relay n else 0)
late-append [] acks n = ground arith
late-append (m ∷ ms) acks n = ground (arith, late-append ms (acks + ack m) n)

-- The flags, and what has been written, during the handshake; `modern` says whether the peer's
-- versions are known to be at least 70016.
pub record IsWriting (modern got_version got_verack relayed headed seen negotiated : Bool)
    (sent : List Sent) : Type 0 where
  pub pending : negotiated ≡ false
  pub relays : total relay sent ≡ one_if relayed
  pub headers : total header sent ≡ one_if headed
  pub addresses : total address sent ≡ 0
  pub acked : got_version ≡ true → 1 ≤ total ack sent
  pub answered : got_verack ≡ true → (seen ≡ true) × (headed ≡ true) × (1 ≤ total compact sent)
  pub relays_first : modern ≡ true → (1 ≤ total ack sent → relayed ≡ true) × (late 0 sent ≡ 0)

module _ {modern v a r h s n : Bool} {sent : List Sent}
    (w : IsWriting modern v a r h s n sent) where
  write_relay : r ≡ false → IsWriting modern v a true h s n (sent ++ wtxid_relay ∷ [])
  write_relay f = record {
    pending = w.pending;
    relays = ground (arith, w.relays, total-append relay sent (wtxid_relay ∷ []));
    headers = ground (arith, w.headers, total-append header sent (wtxid_relay ∷ []));
    addresses = ground (arith, w.addresses, total-append address sent (wtxid_relay ∷ []));
    acked = λ q. ground (arith, w.acked q, total-append ack sent (wtxid_relay ∷ []));
    answered = λ q. ground (arith, w.answered q, total-append compact sent (wtxid_relay ∷ []));
    relays_first =
        λ q. (λ x. refl, ground (arith, w.relays_first q, late-append sent 0 wtxid_relay));
  }

  write_ack : (modern ≡ true → r ≡ true) → IsWriting modern true a r h s n (sent ++ verack ∷ [])
  write_ack f = record {
    pending = w.pending;
    relays = ground (arith, w.relays, total-append relay sent (verack ∷ []));
    headers = ground (arith, w.headers, total-append header sent (verack ∷ []));
    addresses = ground (arith, w.addresses, total-append address sent (verack ∷ []));
    acked = λ q. ground (arith, total-append ack sent (verack ∷ []));
    answered = λ q. ground (arith, w.answered q, total-append compact sent (verack ∷ []));
    relays_first = λ q. (λ x. f q, ground (arith, w.relays_first q, late-append sent 0 verack));
  }

  write_headers : h ≡ false → IsWriting modern v a r true s n (sent ++ send_headers ∷ [])
  write_headers f = record {
    pending = w.pending;
    relays = ground (arith, w.relays, total-append relay sent (send_headers ∷ []));
    headers = ground (arith, w.headers, total-append header sent (send_headers ∷ []));
    addresses = ground (arith, w.addresses, total-append address sent (send_headers ∷ []));
    acked = λ q. ground (arith, w.acked q, total-append ack sent (send_headers ∷ []));
    answered = λ q. ground (arith, w.answered q, total-append compact sent (send_headers ∷ []));
    relays_first = λ q. ground (
      arith,
      w.relays_first q,
      late-append sent 0 send_headers,
      total-append ack sent (send_headers ∷ []),
    );
  }

  write_cmpct : s ≡ true → h ≡ true → IsWriting modern v true r h s n (sent ++ send_cmpct ∷ [])
  write_cmpct f g = record {
    pending = w.pending;
    relays = ground (arith, w.relays, total-append relay sent (send_cmpct ∷ []));
    headers = ground (arith, w.headers, total-append header sent (send_cmpct ∷ []));
    addresses = ground (arith, w.addresses, total-append address sent (send_cmpct ∷ []));
    acked = λ q. ground (arith, w.acked q, total-append ack sent (send_cmpct ∷ []));
    answered = λ q. (f, g, ground (arith, total-append compact sent (send_cmpct ∷ [])));
    relays_first = λ q. ground (
      arith,
      w.relays_first q,
      late-append sent 0 send_cmpct,
      total-append ack sent (send_cmpct ∷ []),
    );
  }

  see_ack : IsWriting modern v a r h true n sent
  see_ack = record {
    pending = w.pending;
    relays = w.relays;
    headers = w.headers;
    addresses = w.addresses;
    acked = w.acked;
    answered = λ q. (refl, (w.answered q).1, (w.answered q).2);
    relays_first = w.relays_first;
  }

-- The invariant at a peer.
abbrev pub IsShaking : Bool → Bool → Bool → Peer → Type 0
IsShaking modern v a p =
    IsWriting modern v a p.wtxidrelay_sent p.sendheaders_sent p.verack_seen p.negotiated p.sent

-- A message is no Version below 70016.
abbrev pub is_modern : Option Received → Bool
is_modern (some (version_from services height protocol)) = leb 70016 protocol
is_modern _ = true

module _ (delivers : ℕ → Bool) where
  -- A write by its two outcomes.
  pub send-elim :
      (P : Bool × Peer → Type 0) (m : Sent) (p : Peer)
      → P (false, p)
      → P (true, record p { sent = p.sent ++ m ∷ [] })
      → P (send delivers m p)
  unfolding send
  send-elim P m p no' yes' = if-elim P (delivers (length p.sent)) (λ t. yes') (λ t. no')

  send_then-elim :
      (P : Bool × Peer → Type 0) (m : Sent) (p : Peer) (next : Peer → Bool × Peer)
      → P (false, p)
      → P (next (record p { sent = p.sent ++ m ∷ [] }))
      → P (send_then delivers m p next)
  unfolding send_then send
  send_then-elim P m p next no' yes' = elim (Bool-cases (delivers (length p.sent))) [
    | inl t ↦ rw t yes'
    | inr t ↦ rw t no'
  ]

  on_version-IsShaking :
      (modern v a : Bool) (services : ℕ) (height : ℤ) (protocol : ℕ) (p : Peer)
      → IsShaking modern v a p
      → (modern ≡ true → leb 70016 protocol ≡ true)
      → (let r = on_version delivers services height protocol p in
          IsShaking modern (if r.0 then true else v) a r.1)
  unfolding on_version
  on_version-IsShaking modern v a services height protocol p w new =
      let P : Bool × Peer → Type 0 = λ r. IsShaking modern (if r.0 then true else v) a r.1 in
      let told : Peer = record p { their_services = services; their_start_height = height } in
      if-elim P (not p.wtxidrelay_sent && leb 70016 protocol)
        (λ t.
          let w' = write_relay w (ground arith) in
          send_then-elim P wtxid_relay told _ w
            (send-elim P verack _ w' (write_ack w' (λ q. refl))))
        (λ t. send-elim P verack told w (write_ack w (λ q. ground (arith, new q, t))))

  on_verack-IsShaking :
      (modern v a : Bool) (p : Peer)
      → IsShaking modern v a p
      → (let r = on_verack delivers p in IsShaking modern v (if r.0 then true else a) r.1)
  unfolding on_verack
  on_verack-IsShaking modern v a p w =
      let P : Bool × Peer → Type 0 = λ r. IsShaking modern v (if r.0 then true else a) r.1 in
      let seen : Peer = record p { verack_seen = true } in
      if-elim P (not p.sendheaders_sent)
        (λ t.
          let w' = write_headers (see_ack w) (ground arith) in
          send_then-elim P send_headers seen _ (see_ack w)
            (send-elim P send_cmpct _ w' (write_cmpct w' refl refl)))
        (λ t. send-elim P send_cmpct seen (see_ack w) (write_cmpct (see_ack w) refl (ground arith)))

  pub on_message-IsShaking :
      (modern : Bool) (m : Received) (s : Shake)
      → IsShaking modern s.got_version s.got_verack s.peer
      → (modern ≡ true → is_modern (some m) ≡ true)
      → (let s' = (on_message delivers m s).1 in
          IsShaking modern s'.got_version s'.got_verack s'.peer)
  unfolding on_message
  on_message-IsShaking modern (version_from services height protocol) s w new =
      on_version-IsShaking modern s.got_version s.got_verack services height protocol s.peer w new
  on_message-IsShaking modern verack_from s w new =
      on_verack-IsShaking modern s.got_version s.got_verack s.peer w
  on_message-IsShaking modern other s w new = w
