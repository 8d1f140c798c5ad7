-- ===== src/Iocp/Lengths.antt =====
-- The sessions of IOCPChatServer/IOCP.h stay as many as they are.
use iocp.Common.{
  ℕ, zero, suc, ◌+◌, ◌≡◌, ◌∙◌, refl, Bool, true, false, none, some, List, [], ◌∷◌, ◌++◌, ◌>>=◌,
  ◌==◌, if◌then◌else◌, arith, length, length-set, get_elem?, >>=-eq-some, Option, Bool-cases, inl,
  inr,
}
use iocp.Common.Int.{inc32}
use iocp.Net.{Windows, SendOverlapped}
use iocp.ClientSession
use iocp.ClientSession.{Link}
use iocp.Iocp
use iocp.Iocp.{
  IoCompletionPort, CompletionEntry, Event, on_connect, on_receive, accept_overlapped,
  recv_overlapped, send_overlapped, Overlapped, get_client_info, put_link, pop_free_session_index,
  push_free_session_index, post_next_accept, post_accepts, create_client, server_of, make_sessions,
  start_server, close_socket, handle_accept, handle_recv, handle_send, handle_entry, check_session,
  check_sessions, max_pending_accept,
}

abbrev pub sessions : IoCompletionPort → ℕ
sessions srv = length srv.client_infos

-- A step after which there are as many sessions.
abbrev SameCount : IoCompletionPort → Option IoCompletionPort → Type 0
SameCount srv o = (srv' : IoCompletionPort) → o ≡ some srv' → sessions srv' ≡ sessions srv

put_link-sessions :
    (srv : IoCompletionPort) (i : ℕ) (l : Link) → sessions (put_link srv i l) ≡ sessions srv
unfolding put_link
put_link-sessions srv i l = length-set srv.client_infos i l.session

module _ (w : Windows) where
  close_socket-SameCount : (srv : IoCompletionPort) (i : ℕ) → SameCount srv (close_socket w srv i)
  unfolding close_socket push_free_session_index
  close_socket-SameCount srv i srv' h =
      let (l, at, h₁) = >>=-eq-some (get_client_info srv i) _ h in
      ground (arith, h₁, put_link-sessions srv i (ClientSession.closed w l))

  post_next_accept-SameCount : (srv : IoCompletionPort) → SameCount srv (post_next_accept w srv)
  unfolding post_next_accept pop_free_session_index
  post_next_accept-SameCount srv srv' h = by_free srv.free_session_list refl
    where
      by_free : (free : List ℕ) → srv.free_session_list ≡ free → sessions srv' ≡ sessions srv
      by_free [] e = ground (arith, h, e)
      by_free (i ∷ rest) e =
          let popped = record srv { free_session_list = rest } in
          let h' : (get_client_info popped i >>= λ l.
          some (put_link popped i (ClientSession.post_immediate_accept w l).1))
              ≡ some srv' =
            ground (arith, h, e) in
          let (l, at, h₁) = >>=-eq-some (get_client_info popped i) _ h' in
          ground (arith, h₁, put_link-sessions popped i (ClientSession.post_immediate_accept w l).1)

  post_accepts-SameCount : (n : ℕ) (srv : IoCompletionPort) → SameCount srv (post_accepts w n srv)
  unfolding post_accepts
  post_accepts-SameCount zero srv srv' h = ground (arith, h)
  post_accepts-SameCount (suc n) srv srv' h =
      let (srv₁, e, h₁) = >>=-eq-some (post_next_accept w srv) _ h in
      post_accepts-SameCount n srv₁ srv' h₁ ∙ post_next_accept-SameCount srv srv₁ e

  handle_recv-SameCount :
      (srv : IoCompletionPort) (key k n : ℕ) (bytes : List ℕ)
      → SameCount srv (handle_recv w srv key k n bytes)
  unfolding handle_recv
  handle_recv-SameCount srv key k n bytes srv' h =
      let (owner, there, h₁) = >>=-eq-some (get_elem? srv.client_infos k) _ h in
      let (l, at, h₂) = >>=-eq-some (get_client_info srv key) _ h₁ in
      elim (Bool-cases (owner.recv_generation == l.session.generation)) [
        | inl fresh ↦
            let active = put_link srv key (ClientSession.update_activity w l) in
            let told = record active {
              events = active.events ++ on_receive l.session.index n bytes ∷ [];
            } in
            let h₃ : (get_client_info told key >>= λ l'.
            some (put_link told key (ClientSession.bind_recv w l').1))
                ≡ some srv' =
              ground (arith, h₂, fresh) in
            let (l', at', h₄) = >>=-eq-some (get_client_info told key) _ h₃ in
            ground (
              arith,
              h₄,
              put_link-sessions told key (ClientSession.bind_recv w l').1,
              put_link-sessions srv key (ClientSession.update_activity w l),
            )
        | inr stale ↦ ground (arith, h₂, stale)
      ]

  handle_send-SameCount :
      (srv : IoCompletionPort) (key block n : ℕ) → SameCount srv (handle_send w srv key block n)
  unfolding handle_send
  handle_send-SameCount srv key block n srv' h =
      let (o, there, h₁) = >>=-eq-some (get_elem? srv.send_buffer_pool.all_blocks block) _ h in
      let (l, at, h₂) = >>=-eq-some (get_client_info srv key) _ h₁ in
      elim (Bool-cases (o.generation == l.session.generation)) [
        | inl fresh ↦
            let h₃ : (ClientSession.send_complete w l n >>= λ l'. some (put_link srv key l'))
                ≡ some srv' =
              ground (arith, h₂, fresh) in
            let (l', done, h₄) = >>=-eq-some (ClientSession.send_complete w l n) _ h₃ in
            ground (arith, h₄, put_link-sessions srv key l')
        | inr stale ↦ ground (arith, h₂, stale)
      ]

  handle_accept-SameCount : (srv : IoCompletionPort) (k : ℕ) → SameCount srv (handle_accept w srv k)
  unfolding handle_accept
  handle_accept-SameCount srv k srv' h =
      let (owner, there, h₁) = >>=-eq-some (get_elem? srv.client_infos k) _ h in
      let (l, at, h₂) = >>=-eq-some (get_client_info srv owner.accept_index) _ h₁ in
      let l' = (ClientSession.accept_completion w l).1 in
      let after = put_link srv owner.accept_index l' in
      let accepted = record after {
        client_cnt = inc32 after.client_cnt;
        events = after.events ++ on_connect l'.session.index ∷ [];
      } in
      let (mid, e, h₃) =
        >>=-eq-some
          (if (ClientSession.accept_completion w l).0
            then some accepted
            else close_socket w after owner.accept_index)
          _ h₂ in
      post_next_accept-SameCount mid srv' h₃
      ∙ by_accepted after accepted owner.accept_index (ClientSession.accept_completion w l).0 refl
          mid e
      ∙ put_link-sessions srv owner.accept_index l'
    where
      by_accepted :
          (after accepted : IoCompletionPort) (i : ℕ) (b : Bool)
          → sessions accepted ≡ sessions after
          → SameCount after (if b then some accepted else close_socket w after i)
      by_accepted after accepted i true same mid e = ground (arith, e, same)
      by_accepted after accepted i false same mid e = close_socket-SameCount after i mid e

  pub handle_entry-SameCount :
      (srv : IoCompletionPort) (e : CompletionEntry) → SameCount srv (handle_entry w srv e)
  unfolding handle_entry
  handle_entry-SameCount srv e srv' h = by_structure e.overlapped h
    where
      closes_or :
          (o : Option IoCompletionPort)
          → SameCount srv o
          → (b : Bool) → (if b then close_socket w srv e.key else o) ≡ some srv'
          → sessions srv' ≡ sessions srv
      closes_or o same true h' = close_socket-SameCount srv e.key srv' h'
      closes_or o same false h' = same srv' h'

      by_structure :
          (o : Option Overlapped)
          → elim o [
            | none ↦
                if e.io_size == 0 then some (record srv { is_worker_run = false }) else some srv
            | some (accept_overlapped k) ↦ handle_accept w srv k
            | some (recv_overlapped k) ↦
                if e.io_size == 0
                then close_socket w srv e.key
                else handle_recv w srv e.key k e.io_size e.recv_buf
            | some (send_overlapped block) ↦
                if e.io_size == 0
                then close_socket w srv e.key
                else handle_send w srv e.key block e.io_size
          ]
            ≡ some srv'
          → sessions srv' ≡ sessions srv
      by_structure none h' = ground (arith, h')
      by_structure (some (accept_overlapped k)) h' = handle_accept-SameCount srv k srv' h'
      by_structure (some (recv_overlapped k)) h' =
          closes_or _ (handle_recv-SameCount srv e.key k e.io_size e.recv_buf) (e.io_size == 0) h'
      by_structure (some (send_overlapped block)) h' =
          closes_or _ (handle_send-SameCount srv e.key block e.io_size) (e.io_size == 0) h'

  pub send_msg-SameCount :
      (srv srv' : IoCompletionPort) (i n : ℕ) (msg : List ℕ) (done : Bool)
      → Iocp.send_msg w srv i n msg ≡ some (done, srv')
      → sessions srv' ≡ sessions srv
  unfolding Iocp.send_msg
  send_msg-SameCount srv srv' i n msg done h =
      let (l, at, h₁) = >>=-eq-some (get_client_info srv i) _ h in
      let ((ok, l'), e, h₂) = >>=-eq-some (ClientSession.send_msg w l n msg) _ h₁ in
      ground (arith, h₂, put_link-sessions srv i l')

  pub check_sessions-SameCount :
      (now i left : ℕ) (srv : IoCompletionPort) → SameCount srv (check_sessions w now i left srv)
  unfolding check_sessions
  check_sessions-SameCount now i zero srv srv' h = ground (arith, h)
  check_sessions-SameCount now i (suc left) srv srv' h =
      let (l, at, h₁) = >>=-eq-some (get_client_info srv i) _ h in
      let (l', e, h₂) = >>=-eq-some (check_session w now l) _ h₁ in
      check_sessions-SameCount now (i + 1) left (put_link srv i l') srv' h₂
      ∙ put_link-sessions srv i l'

  length-make_sessions : (i n : ℕ) → length (make_sessions i n) ≡ n
  unfolding make_sessions
  length-make_sessions i zero = refl
  length-make_sessions i (suc n) = omega (arith, length-make_sessions (i + 1) n)

  pub start_server-sessions :
      (fresh : ℕ → SendOverlapped) (n : ℕ) (srv : IoCompletionPort)
      → start_server w fresh n ≡ some srv
      → sessions srv ≡ n
  unfolding start_server create_client
  start_server-sessions fresh n srv h =
      post_accepts-SameCount max_pending_accept (server_of fresh n) srv (ground (arith, h))
      ∙ length-make_sessions 0 n
