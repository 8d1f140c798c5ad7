-- ===== src/Iocp/Timeout.antt =====
-- `TimeoutCheckThread` of IOCPChatServer/IOCP.h on one session: when it pings, when it ends the
-- connection, and when it does neither.
use iocp.Common.{
  ℕ, ◌+◌, ◌^◌, ◌≤◌, ◌<◌, ◌≡◌, refl, ap, subst, Bool, true, false, some, List, [], ◌∷◌, ◌++◌, arith,
  length, take,
}
use iocp.Net.{Windows, shutdown_request}
use iocp.ClientSession
use iocp.ClientSession.{ClientSession, Link, send_msg, send_io, enqueue, fill, disconnect_async}
use iocp.ClientSession.Contents.{IsOwned}
use iocp.Iocp.{check_session}
use iocp.Packet.{packet_header_length}
use iocp.Packet.Wire.{ping, encode, packet_length, packet_id, body}
use iocp.Membership.Lists.{count}
use iocp.Iocp.Queueing.{IsQueued, send_msg-IsQueued, send_msg-refused}

pub length-ping : packet_header_length ≤ length (encode 0 ping)
unfolding encode packet_length packet_id body
length-ping = omega arith

ping_whole : take packet_header_length (encode 0 ping) ≡ encode 0 ping
unfolding encode packet_length packet_id body
ping_whole = refl

module _ (w : Windows) where
  -- The session of which a ping is noted at `now`.
  abbrev pub stamped : Link → ℕ → Link
  stamped l now = record l { session = record l.session { last_ping_time = now } }

  -- A look that pings.
  check_session_due :
      (l : Link) (now : ℕ) (r : Bool × Link)
      → l.session.is_connected ≡ true
      → now < 2 ^ 63
      → l.session.last_activity_time + 30000 ≤ now
      → now < l.session.last_activity_time + 60000
      → l.session.last_ping_time + 30000 ≤ now
      → send_msg w (stamped l now) packet_header_length (encode 0 ping) ≡ some r
      → check_session w now l ≡ some r.1
  unfolding check_session ClientSession.set_last_ping_time
  check_session_due l now r conn small idle fresh old sent = ground (arith, conn, sent)

  check_session_quiet :
      (l : Link) (now later : ℕ)
      → now < 2 ^ 63
      → l.session.last_ping_time ≡ now
      → now ≤ later
      → later < now + 30000
      → l.session.last_activity_time ≤ now
      → later < l.session.last_activity_time + 60000
      → check_session w later l ≡ some l
  unfolding check_session
  check_session_quiet l now later small noted from until active still = ground (arith, noted)

  -- What a ping at `now` leaves: only its time is noted, when no block is free, or else it is queued.
  pub record IsPinged (l l' : Link) (now : ℕ) : Type 0 where
    pub refused : l.send_pool.free_list ≡ [] → l' ≡ stamped l now
    pub taken :
        (b : ℕ) (rest : List ℕ)
        → l.send_pool.free_list ≡ b ∷ rest
        → IsQueued w (stamped l now) l' b rest (encode 0 ping)

  check_session_pings :
      (l : Link) (now : ℕ)
      → IsOwned l
      → l.session.is_connected ≡ true
      → now < 2 ^ 63
      → l.session.last_activity_time + 30000 ≤ now
      → now < l.session.last_activity_time + 60000
      → l.session.last_ping_time + 30000 ≤ now
      → (free : List ℕ) → l.send_pool.free_list ≡ free
      → (l' : Link) × (check_session w now l ≡ some l')
        × IsPinged l l' now
        × (l'.session.last_ping_time ≡ now)
        × (l'.session.last_activity_time ≡ l.session.last_activity_time)
  check_session_pings l now v conn small idle fresh old [] e = (
    stamped l now,
    check_session_due l now (false, stamped l now) conn small idle fresh old
        (send_msg-refused w (stamped l now) packet_header_length (encode 0 ping) e),
    record { refused = λ q. refl; taken = λ b rest q. absurd (ground (arith, e, q)) },
    refl,
    refl,
  )
  check_session_pings l now v conn small idle fresh old (b ∷ rest) e =
      let (r, sent, queued) =
        send_msg-IsQueued w (stamped l now) packet_header_length b rest (encode 0 ping) e
          (v.inside b (ground (arith, ap (count b) e))) length-ping (omega arith) in
      let queued' : IsQueued w (stamped l now) r.1 b rest (encode 0 ping) =
        subst (IsQueued w (stamped l now) r.1 b rest) ping_whole queued in
      (
        r.1,
        check_session_due l now r conn small idle fresh old sent,
        record {
          refused = λ q. absurd (ground (arith, e, q));
          taken = λ c others q.
              let same : b ≡ c = ground (arith, e, q) in
              let more : rest ≡ others = ground (arith, e, q) in
              subst (λ x. IsQueued w (stamped l now) r.1 c x (encode 0 ping)) more
                (subst (λ x. IsQueued w (stamped l now) r.1 x rest (encode 0 ping)) same queued');
        },
        ap (λ (x : ClientSession). x.last_ping_time) queued.session,
        ap (λ (x : ClientSession). x.last_activity_time) queued.session,
      )

  -- With the clock and the session's times in order, one look at a connected session at `now`. Last
  -- active less than 30 seconds ago, it is left alone. Less than 60, and with the last ping 30 seconds
  -- ago or longer: without a free block only the time of the ping is noted; with one, the bytes of a
  -- ping are in it, it goes to the end of the session's queue, its send is asked for when it is
  -- first there and `WSASend` succeeds, and the time is noted; in the session nothing else changes.
  -- Then, until 30 seconds later, no look changes anything while the last activity is under 60 seconds
  -- past. 60 or more, a shutdown of the connection is asked for and nothing else is done.
  pub check_session_lem :
      (l : Link) (now socket : ℕ)
      → IsOwned l
      → l.session.is_connected ≡ true
      → l.session.socket_client ≡ some socket
      → now < 2 ^ 63
      → l.session.last_activity_time ≤ now
      → l.session.last_ping_time ≤ now
      → (now < l.session.last_activity_time + 30000 → check_session w now l ≡ some l)
        × (l.session.last_activity_time + 30000 ≤ now
            → now < l.session.last_activity_time + 60000
            → l.session.last_ping_time + 30000 ≤ now
            → (l' : Link) × (check_session w now l ≡ some l')
              × IsPinged l l' now
              × ((later : ℕ)
                  → now ≤ later
                  → later < now + 30000
                  → later < l.session.last_activity_time + 60000
                  → check_session w later l' ≡ some l'))
        × (l.session.last_activity_time + 60000 ≤ now
            → check_session w now l
              ≡ some (record l { requests = l.requests ++ shutdown_request l.session.index ∷ [] }))
  unfolding check_session disconnect_async
  check_session_lem l now socket v conn open_socket small active pinged = (
    (λ recent. ground (arith, conn)),
    (λ idle fresh old.
        let (l', e, p, noted, active') =
          check_session_pings l now v conn small idle fresh old l.send_pool.free_list refl in
        (
          l',
          e,
          p,
          λ later from until still.
              check_session_quiet l' now later small noted from until (omega arith) (omega arith),
        )),
    (λ idle. ground (arith, conn, open_socket)),
  )

  -- When a session was active after the clock was read for the round, the difference wraps: its
  -- connection is asked to shut down.
  pub check_session_late :
      (l : Link) (now socket : ℕ)
      → l.session.is_connected ≡ true
      → l.session.socket_client ≡ some socket
      → now < l.session.last_activity_time
      → l.session.last_activity_time < 2 ^ 63
      → check_session w now l
        ≡ some (record l { requests = l.requests ++ shutdown_request l.session.index ∷ [] })
  unfolding check_session disconnect_async
  check_session_late l now socket conn open_socket late small = ground (arith, conn, open_socket)
