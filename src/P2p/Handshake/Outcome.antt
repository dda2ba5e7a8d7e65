-- ===== src/P2p/Handshake/Outcome.antt =====
-- How `Peer::handshake` of src/p2p/legacy.rs ends.
use btck_rust_node.Common.{
  ℕ, zero, suc, ◌≡◌, ◌≤◌, refl, subst, Bool, true, false, ◌&&◌, Option, none, some, List, [], ◌∷◌,
  if◌then◌else◌, arith, Result, ok, err, if-elim, total, total-append,
}
use btck_rust_node.Common.Int.{ℤ}
use btck_rust_node.P2p.Handshake.{
  Sent, version, get_addr, Received, Peer, connected, HandshakeError, write_failed, read_failed,
  handshake_timeout, Shake, on_message, finish, shake_loop, handshake,
}
use btck_rust_node.P2p.Handshake.Order.{
  relay, ack, header, compact, address, late, late-append, is_modern, IsWriting, IsShaking,
  send-elim, on_message-IsShaking,
}

-- A handshake that is over: by its outcome.
pub record IsShaken (modern : Bool) (p : Peer) (r : Result HandshakeError (Unit {0})) : Type 0 where
  pub done :
      r ≡ ok tt
      → (p.negotiated ≡ true)
        × (p.verack_seen ≡ true)
        × (1 ≤ total ack p.sent)
        × (1 ≤ total compact p.sent)
        × (total header p.sent ≡ 1)
  pub failed :
      (e : HandshakeError) → r ≡ err e → (p.negotiated ≡ false) × (total address p.sent ≡ 0)
  pub once : (total relay p.sent ≤ 1) × (total header p.sent ≤ 1) × (total address p.sent ≤ 1)
  pub relays_first : modern ≡ true → late 0 p.sent ≡ 0

fail-IsShaken :
    (modern v a : Bool) (p : Peer) (e : HandshakeError)
    → IsShaking modern v a p
    → IsShaken modern p (err e)
fail-IsShaken modern v a p e w = record {
  done = λ q. absurd (ground arith);
  failed = λ f q. (w.pending, w.addresses);
  once = ground (arith, w.relays, w.headers, w.addresses);
  relays_first = λ q. (w.relays_first q).1;
}

finish-IsShaken :
    (delivers : ℕ → Bool) (modern : Bool) (p : Peer)
    → IsShaking modern true true p
    → IsShaken modern (finish delivers p) (ok tt)
unfolding finish
finish-IsShaken delivers modern p w =
    let P : Bool × Peer → Type 0 = λ r. IsShaken modern r.1 (ok tt) in
    send-elim delivers P get_addr (record p { negotiated = true })
      (record {
        done = λ q. ground (arith, w.acked, w.answered, w.headers);
        failed = λ f q. absurd (ground arith);
        once = ground (arith, w.relays, w.headers, w.addresses);
        relays_first = λ q. (w.relays_first q).1;
      })
      (record {
        done = λ q. ground (
          arith,
          w.acked,
          w.answered,
          w.headers,
          total-append ack p.sent (get_addr ∷ []),
          total-append compact p.sent (get_addr ∷ []),
          total-append header p.sent (get_addr ∷ []),
        );
        failed = λ f q. absurd (ground arith);
        once = ground (
          arith,
          w.relays,
          w.headers,
          w.addresses,
          total-append relay p.sent (get_addr ∷ []),
          total-append address p.sent (get_addr ∷ []),
          total-append header p.sent (get_addr ∷ []),
        );
        relays_first = λ q. ground (arith, w.relays_first q, late-append p.sent 0 get_addr);
      })

-- No message is a Version below 70016.
abbrev pub all_modern : List (Option Received) → Bool
all_modern [] = true
all_modern (m ∷ ms) = is_modern m && all_modern ms

module _ (delivers : ℕ → Bool) where
  shake_loop-IsShaken :
      (n : ℕ) (inbox : List (Option Received)) (modern : Bool) (s : Shake)
      → IsShaking modern s.got_version s.got_verack s.peer
      → (modern ≡ true → all_modern inbox ≡ true)
      → (let r = shake_loop delivers n inbox s in IsShaken modern r.0 r.1)
  unfolding shake_loop
  shake_loop-IsShaken zero inbox modern s w new =
      fail-IsShaken modern _ _ s.peer handshake_timeout w
  shake_loop-IsShaken (suc n) [] modern s w new = fail-IsShaken modern _ _ s.peer read_failed w
  shake_loop-IsShaken (suc n) (none ∷ inbox) modern s w new =
      fail-IsShaken modern _ _ s.peer read_failed w
  shake_loop-IsShaken (suc n) (some m ∷ inbox) modern s w new =
      let P : Peer × Result HandshakeError (Unit {0}) → Type 0 = λ r. IsShaken modern r.0 r.1 in
      let (ok', s') = on_message delivers m s in
      let w' = on_message-IsShaking delivers modern m s w (λ q. ground (arith, new q)) in
      if-elim P ok'
        (λ t.
          if-elim P (s'.got_version && s'.got_verack)
            (λ u. finish-IsShaken delivers modern s'.peer (both s' modern u w'))
            (λ u. shake_loop-IsShaken n inbox modern s' w' (λ q. ground (arith, new q))))
        (λ t. fail-IsShaken modern _ _ s'.peer write_failed w')
    where
      both :
          (x : Shake) (modern : Bool)
          → x.got_version && x.got_verack ≡ true
          → IsShaking modern x.got_version x.got_verack x.peer
          → IsShaking modern true true x.peer
      both x modern u v =
          let a : x.got_version ≡ true = ground (arith, u) in
          let b : x.got_verack ≡ true = ground (arith, u) in
          subst (λ y. IsShaking modern true y x.peer) b
            (subst (λ y. IsShaking modern y x.got_verack x.peer) a v)

  -- However the peer answers and whatever writes fail, the handshake on a new connection ends with
  -- one of two outcomes. On success the connection is negotiated, the peer's Verack has come, and
  -- Verack, SendHeaders, once, and SendCmpct were written; on failure it is not negotiated and no
  -- GetAddr was written. WtxidRelay, SendHeaders and GetAddr are written at most once; and if no
  -- message is a Version below 70016, no WtxidRelay comes after a Verack.
  pub handshake-IsShaken :
      (start_height : ℤ) (inbox : List (Option Received))
      → (let r = handshake delivers connected start_height inbox in
          IsShaken (all_modern inbox) r.0 r.1)
  unfolding handshake connected
  handshake-IsShaken start_height inbox =
      let P : Bool × Peer → Type 0 = λ q.
        let r =
          if q.0
          then shake_loop delivers 50 inbox
              (record { peer = q.1; got_version = false; got_verack = false })
          else (q.1, err write_failed) in
        IsShaken (all_modern inbox) r.0 r.1 in
      send-elim delivers P (version start_height) connected
        (fail-IsShaken (all_modern inbox) false false _ write_failed
          (start [] refl refl refl refl refl refl))
        (shake_loop-IsShaken 50 inbox (all_modern inbox) _
          (start (version start_height ∷ []) refl refl refl refl refl refl) (λ q. q))
    where
      start :
          (sent : List Sent)
          → total relay sent ≡ 0
          → total header sent ≡ 0
          → total address sent ≡ 0
          → total ack sent ≡ 0
          → total compact sent ≡ 0
          → late 0 sent ≡ 0
          → IsWriting (all_modern inbox) false false false false false false sent
      start sent a b c d e f = record {
        pending = refl;
        relays = a;
        headers = b;
        addresses = c;
        acked = λ q. absurd (ground arith);
        answered = λ q. absurd (ground arith);
        relays_first = λ q. (λ x. absurd (omega (arith, x, d)), f);
      }
