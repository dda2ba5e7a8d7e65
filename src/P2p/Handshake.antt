-- ===== src/P2p/Handshake.antt =====
-- `Peer::handshake` of src/p2p/legacy.rs. What the peer sends is a list, in which `none` is a read
-- that fails or takes too long; whether a write goes through is asked of `delivers`, by the number
-- of messages written before. The fields of Version that the code does not read are left out.
pub mod Order
pub mod Outcome
mod Tests
use btck_rust_node.Common.{
  ℕ, zero, suc, ◌+◌, ◌≡◌, ◌≤◌, ◌⊎◌, inl, inr, refl, sym, ap, ◌∙◌, subst, Bool, true, false, not,
  ◌&&◌, ◌||◌, Option, none, some, List, [], ◌∷◌, ◌++◌, length, leb, if◌then◌else◌, arith,
  Bool-cases, Option-cases, Result, ok, err, if-elim,
}
use btck_rust_node.Common.Int.{ℤ, pos, negsuc}

-- The messages that the node writes.
pub data Sent : Type 0 where
  version : ℤ → Sent
  wtxid_relay : Sent
  verack : Sent
  send_headers : Sent
  send_cmpct : Sent
  get_addr : Sent

-- The messages that it reads: Version has the services, the start height and the version.
pub data Received : Type 0 where
  version_from : ℕ → ℤ → ℕ → Received
  verack_from : Received
  other : Received

-- `Peer`, without the socket and its address; `sent` is what has gone through it.
pub record Peer : Type 0 where
  pub their_services : ℕ
  pub their_start_height : ℤ
  pub negotiated : Bool
  pub sendheaders_sent : Bool
  pub wtxidrelay_sent : Bool
  pub verack_seen : Bool
  pub sent : List Sent

-- `Peer::connect`, once the socket is open.
unfoldable pub connected : Peer
connected = record {
  their_services = 0;
  their_start_height = pos 0;
  negotiated = false;
  sendheaders_sent = false;
  wtxidrelay_sent = false;
  verack_seen = false;
  sent = [];
}

pub data HandshakeError : Type 0 where
  write_failed : HandshakeError
  read_failed : HandshakeError
  handshake_timeout : HandshakeError

-- The state of the loop: the peer, `got_version` and `got_verack`.
pub record Shake : Type 0 where
  pub peer : Peer
  pub got_version : Bool
  pub got_verack : Bool

module _ (delivers : ℕ → Bool) where
  -- `send`, and the peer as it is after a failure.
  unfoldable pub send : Sent → Peer → Bool × Peer
  send m p =
      if delivers (length p.sent) then (true, record p { sent = p.sent ++ m ∷ [] }) else (false, p)

  -- A message after which the code goes on only if it was written.
  unfoldable pub send_then : Sent → Peer → (Peer → Bool × Peer) → Bool × Peer
  send_then m p next = let (ok', p') = send m p in if ok' then next p' else (false, p')

  unfoldable pub on_version : ℕ → ℤ → ℕ → Peer → Bool × Peer
  on_version services height protocol p =
      let told = record p { their_services = services; their_start_height = height } in
      if not p.wtxidrelay_sent && leb 70016 protocol
      then send_then wtxid_relay told (λ q. send verack (record q { wtxidrelay_sent = true }))
      else send verack told

  unfoldable pub on_verack : Peer → Bool × Peer
  on_verack p =
      let seen = record p { verack_seen = true } in
      if not p.sendheaders_sent
      then send_then send_headers seen (λ q. send send_cmpct (record q { sendheaders_sent = true }))
      else send send_cmpct seen

  -- One message that was read: the state, and whether the writes went through.
  unfoldable pub on_message : Received → Shake → Bool × Shake
  on_message (version_from services height protocol) s =
      let (ok', p) = on_version services height protocol s.peer in
      (ok', record s { peer = p; got_version = if ok' then true else s.got_version })
  on_message verack_from s =
      let (ok', p) = on_verack s.peer in
      (ok', record s { peer = p; got_verack = if ok' then true else s.got_verack })
  on_message other s = (true, s)

  -- The end of the handshake: the failure to write GetAddr is passed over.
  unfoldable pub finish : Peer → Peer
  finish p = (send get_addr (record p { negotiated = true })).1

  -- The loop, with the rounds that are left.
  unfoldable pub shake_loop :
      ℕ → List (Option Received) → Shake → Peer × Result HandshakeError (Unit {0})
  shake_loop zero inbox s = (s.peer, err handshake_timeout)
  shake_loop (suc n) [] s = (s.peer, err read_failed)
  shake_loop (suc n) (none ∷ inbox) s = (s.peer, err read_failed)
  shake_loop (suc n) (some m ∷ inbox) s =
      let (ok', s') = on_message m s in
      let later = shake_loop n inbox s' in
      if ok'
      then (if s'.got_version && s'.got_verack then (finish s'.peer, ok tt) else later)
      else (s'.peer, err write_failed)

  unfoldable pub handshake :
      Peer → ℤ → List (Option Received) → Peer × Result HandshakeError (Unit {0})
  handshake p start_height inbox =
      let (ok', q) = send (version start_height) p in
      if ok'
      then shake_loop 50 inbox (record { peer = q; got_version = false; got_verack = false })
      else (q, err write_failed)
