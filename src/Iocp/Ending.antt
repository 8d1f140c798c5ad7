-- ===== src/Iocp/Ending.antt =====
-- `DestroyThread` of IOCPChatServer/IOCP.h: the end of all connections.
use native.Mathlib.Decide.{ℕ_discrete}
use iocp.Common.{
  ℕ, zero, suc, ◌+◌, ◌<◌, ◌≡◌, refl, ◌∙◌, inl, inr, false, none, some, if◌then◌else◌, arith, length,
  length-set, get_elem?, get_elem?_of_lt, Bool-cases,
}
use iocp.Net.{Windows}
use iocp.ClientSession
use iocp.ClientSession.{ClientSession, Link}
use iocp.Iocp.{IoCompletionPort, get_client_info, put_link, close_all}
use iocp.Membership.Lists.{get_elem?-set}

-- The sessions before `i` are closed.
abbrev pub ClosedBefore : ℕ → IoCompletionPort → Type 0
ClosedBefore i srv =
    (j : ℕ) (s : ClientSession)
    → j < i
    → get_elem? srv.client_infos j ≡ some s
    → s.is_connected ≡ false

module _ (w : Windows) where
  -- One session of the loop.
  close_one : IoCompletionPort → ℕ → ClientSession → IoCompletionPort
  close_one srv i s =
      let l : Link = record {
        session = s;
        send_pool = srv.send_buffer_pool;
        requests = srv.requests;
      } in
      if s.is_connected then put_link srv i (ClientSession.closed w l) else srv

  close_one-ClosedBefore :
      (srv : IoCompletionPort) (i : ℕ) (s : ClientSession)
      → get_elem? srv.client_infos i ≡ some s
      → ClosedBefore i srv
      → ClosedBefore (i + 1) (close_one srv i s)
        × (length (close_one srv i s).client_infos ≡ length srv.client_infos)
        × ((close_one srv i s).free_session_list ≡ srv.free_session_list)
        × ((close_one srv i s).events ≡ srv.events)
  unfolding close_one put_link ClientSession.closed
  close_one-ClosedBefore srv i s at before =
      let gone : ClientSession = record s {
        is_connected = false;
        latest_closed_time_sec = w.steady_seconds s.index s.generation (length srv.requests);
        socket_client = none;
      } in
      elim (Bool-cases s.is_connected) [
        | inl on ↦ (
          (λ j q lt h. elim (ℕ_discrete i j) [
            | yes same ↦ ground (arith, on, h, get_elem?-set srv.client_infos i j gone at)
            | no other ↦
                before j q (omega arith)
                  (ground (arith, on, h, get_elem?-set srv.client_infos i j gone at))
          ]),
          ground (arith, on, length-set srv.client_infos i gone),
          ground (arith, on),
          ground (arith, on),
        )
        | inr off ↦ (
          (λ j q lt h. elim (ℕ_discrete i j) [
            | yes same ↦ ground (arith, off, h, at, same)
            | no other ↦ before j q (omega arith) (ground (arith, off, h))
          ]),
          ground (arith, off),
          ground (arith, off),
          ground (arith, off),
        )
      ]

  -- The end of all connections reaches every session, without a fault: none is connected afterwards, but
  -- nothing is told, and no session returns to the list of free ones.
  pub close_all-closes :
      (i left : ℕ) (srv : IoCompletionPort)
      → ClosedBefore i srv
      → i + left ≡ length srv.client_infos
      → (srv' : IoCompletionPort) × (close_all w i left srv ≡ some srv')
        × ClosedBefore (i + left) srv'
        × (srv'.free_session_list ≡ srv.free_session_list)
        × (srv'.events ≡ srv.events)
        × (length srv'.client_infos ≡ length srv.client_infos)
  unfolding close_all get_client_info close_one
  close_all-closes i zero srv before e =
      (srv, refl, (λ j s lt h. before j s (omega arith) h), refl, refl, refl)
  close_all-closes i (suc left) srv before e =
      let (s, at) = get_elem?_of_lt srv.client_infos i (omega arith) in
      let (before', same, free, events) = close_one-ClosedBefore srv i s at before in
      let (srv', rest, closed, free', events', same') =
        close_all-closes (i + 1) left (close_one srv i s) before' (omega arith) in
      (
        srv',
        ground (arith, at, rest),
        (λ j q lt h. closed j q (omega arith) h),
        free' ∙ free,
        events' ∙ events,
        same' ∙ same,
      )
