-- ===== src/Examples/Servers.antt =====
-- Applications of the theorems on the sessions of IOCPChatServer/IOCP.h, on a server of two sessions
-- of which the first is connected.
use iocp.Common.{
  ℕ, zero, suc, ◌<◌, ◌≤◌, ◌≡◌, ◌≢◌, refl, subst, Bool, true, false, none, some, [], ◌∷◌, arith,
  get_elem?,
}
use iocp.Common.Int.{pos}
use iocp.ObjectPool
use iocp.Net
use iocp.Net.{
  accept_request, uint32_max, max_sockbuf, Windows, SendOverlapped, shutdown_request,
  invalid_handle_value,
}
use iocp.ClientSession
use iocp.ClientSession.{ClientSession, Link}
use iocp.ClientSession.Contents.{IsOwned, sends_of}
use iocp.Iocp.{
  accept_overlapped, create_client, make_sessions, post_accepts, post_next_accept,
  pop_free_session_index, get_client_info, put_link, IoCompletionPort, CompletionEntry,
  recv_overlapped, send_overlapped, on_receive, on_close, free_indices, start_server, handle_recv,
  handle_entry, check_session,
}
use iocp.Iocp.Accounts.{IsSlot, IsExact}
use iocp.Iocp.Workers.{Works}
use iocp.Iocp.Completions.{IsPossible, of_accept, handle_entry-IsExact}
use iocp.Iocp.Runs.{Serving, started, completed, Serving-IsExact}
use iocp.Iocp.Timeout.{IsPinged, check_session_lem}
use iocp.Iocp.Failures.{handle_recv_failed, handle_entry_stale, send_msg_blocked}

abbrev pub all_well : Windows
all_well = record {
  send = λ i g n. true;
  recv = λ i g n. true;
  accept_ex = λ i g n. true;
  accept_context = λ i g n. true;
  bind_port = λ i g n. 7;
  socket = λ i g n. some 3;
  tick_count = λ i g n. 1000;
  steady_seconds = λ i g n. 1;
}

pub all_well-Works : Works all_well
all_well-Works = record {
  recv = λ i g n. refl;
  accept_ex = λ i g n. refl;
  accept_context = λ i g n. refl;
  bind_port = λ i g n. (λ e. absurd (omega (arith, e)));
  socket = λ i g n. (3, refl);
}

-- A session that is connected, for the second time, and one that is free.
abbrev pub client : ClientSession
client = record {
  index = 0;
  socket_client = some 3;
  is_connected = true;
  generation = 2;
  recv_generation = 2;
  accept_index = 0;
  send_data_queue = [];
  is_sending = false;
  send_pos = 0;
  latest_closed_time_sec = 0;
  last_activity_time = 1000;
  last_ping_time = 0;
}

abbrev free_client : ClientSession
free_client = record client { index = 1; socket_client = none; is_connected = false }

-- A block that the first connection of the session has filled, and an unused one.
abbrev old_block : SendOverlapped
old_block = record { len = 1; operation = Net.send; generation = 1; buffer = 5 ∷ [] }

abbrev new_block : SendOverlapped
new_block = record { len = 0; operation = Net.send; generation = 0; buffer = 0 ∷ 0 ∷ [] }

abbrev pub two_sessions : IoCompletionPort
two_sessions = record {
  client_infos = client ∷ free_client ∷ [];
  send_buffer_pool = record {
    all_blocks = old_block ∷ new_block ∷ [];
    free_list = 1 ∷ [];
    pool_size = 2;
  };
  free_session_list = 1 ∷ [];
  client_cnt = pos 1;
  is_worker_run = true;
  requests = [];
  events = [];
}

client-IsSlot : IsSlot (1 ∷ []) 0 client
client-IsSlot = record {
  index = refl;
  once = refl;
  open_socket = λ e. refl;
  accepting = λ e. refl;
  tagged = λ e. refl;
}

free_client-IsSlot : IsSlot (1 ∷ []) 1 free_client
free_client-IsSlot = record {
  index = refl;
  once = refl;
  open_socket = λ e. cc;
  accepting = λ e. absurd (omega (arith, e));
  tagged = λ e. cc;
}

slots :
    (j : ℕ) (s : ClientSession)
    → get_elem? (client ∷ free_client ∷ []) j ≡ some s
    → IsSlot (1 ∷ []) j s × (s.send_data_queue ≡ [])
slots zero s h =
    let e : client ≡ s = cc in
    subst (λ x. IsSlot (1 ∷ []) 0 x × (x.send_data_queue ≡ [])) e (client-IsSlot, refl)
slots (suc zero) s h =
    let e : free_client ≡ s = cc in
    subst (λ x. IsSlot (1 ∷ []) 1 x × (x.send_data_queue ≡ [])) e (free_client-IsSlot, refl)
slots (suc (suc j)) s h = cc

pub two_sessions-IsExact : IsExact two_sessions
two_sessions-IsExact = record {
  few = omega arith;
  slot = λ j s h. (slots j s h).0;
  free_in = λ j h. ground arith;
  counted = refl;
  queued = λ j s h b inside. absurd (ground (arith, (slots j s h).1));
  pooled = λ b h. ground arith;
}

-- Two bytes from the client.
abbrev pub two_bytes : CompletionEntry
two_bytes = record {
  key = 0;
  io_size = 2;
  overlapped = some (recv_overlapped 0);
  recv_buf = 9 ∷ 8 ∷ 7 ∷ [];
}

-- A server for one client, as it is started.
abbrev waiting_client : ClientSession
waiting_client = record {
  index = 0;
  socket_client = some 3;
  is_connected = false;
  generation = 0;
  recv_generation = 0;
  accept_index = 0;
  send_data_queue = [];
  is_sending = false;
  send_pos = 0;
  latest_closed_time_sec = uint32_max;
  last_activity_time = 0;
  last_ping_time = 0;
}

abbrev small_server : IoCompletionPort
small_server = record {
  client_infos = waiting_client ∷ [];
  send_buffer_pool = record {
    all_blocks = new_block ∷ new_block ∷ new_block ∷ new_block ∷ [];
    free_list = 3 ∷ 2 ∷ 1 ∷ 0 ∷ [];
    pool_size = 4;
  };
  free_session_list = [];
  client_cnt = pos 0;
  is_worker_run = true;
  requests = accept_request 0 ∷ [];
  events = [];
}

small_start : start_server all_well (λ i. new_block) 1 ≡ some small_server
unfolding start_server create_client make_sessions free_indices post_accepts post_next_accept
    pop_free_session_index get_client_info put_link ObjectPool.init ObjectPool.init_loop
    ClientSession.new_session ClientSession.init ClientSession.post_immediate_accept
small_start = refl

-- Its client connects.
abbrev accepted : CompletionEntry
accepted = record { key = 0; io_size = 0; overlapped = some (accept_overlapped 0); recv_buf = [] }

abbrev accepted_possible : IsPossible small_server accepted
accepted_possible = of_accept 0 waiting_client refl refl refl refl

small_run : Serving all_well (λ i. new_block) 1 small_server
small_run = started small_start

small_server-IsExact : IsExact small_server
small_server-IsExact = Serving-IsExact all_well-Works small_run

abbrev accepting :
    (srv' : IoCompletionPort) × (handle_entry all_well small_server accepted ≡ some srv')
    × IsExact srv'
accepting =
    handle_entry-IsExact all_well small_server accepted all_well-Works small_server-IsExact
      accepted_possible

one_client : Serving all_well (λ i. new_block) 1 accepting.0
one_client = completed accepted small_run accepted_possible accepting.1

Serving-IsExact_example : IsExact accepting.0
Serving-IsExact_example = Serving-IsExact all_well-Works one_client

abbrev pub link : Link
link = record { session = client; send_pool = two_sessions.send_buffer_pool; requests = [] }

pub link-IsOwned : IsOwned link
link-IsOwned = record { once = λ b. ground arith; inside = λ b h. ground arith }

check_session_lem_example :
    (40000 < 31000 → check_session all_well 40000 link ≡ some link)
    × (31000 ≤ 40000
        → 40000 < 61000
        → 30000 ≤ 40000
        → (l' : Link) × (check_session all_well 40000 link ≡ some l')
          × IsPinged all_well link l' 40000
          × ((later : ℕ)
              → 40000 ≤ later
              → later < 70000
              → later < 61000
              → check_session all_well later l' ≡ some l'))
    × (61000 ≤ 40000
        → check_session all_well 40000 link
          ≡ some (record link { requests = shutdown_request 0 ∷ [] }))
check_session_lem_example =
    check_session_lem all_well link 40000 3 link-IsOwned refl refl (omega arith) (omega arith)
      (omega arith)

abbrev no_receive : Windows
no_receive = record all_well { recv = λ i g n. false }

handle_recv_failed_example :
    (srv' : IoCompletionPort) × (s' : ClientSession) × (handle_recv no_receive two_sessions 0 0 2
        (9 ∷ 8 ∷ [])
      ≡ some srv')
    × (get_elem? srv'.client_infos 0 ≡ some s')
    × (s'.is_connected ≡ false)
    × (s'.socket_client ≡ none)
    × (srv'.events ≡ on_receive 0 2 (9 ∷ 8 ∷ []) ∷ [])
    × (srv'.free_session_list ≡ 1 ∷ [])
    × (srv'.client_cnt ≡ pos 1)
handle_recv_failed_example =
    handle_recv_failed no_receive two_sessions 0 client 2 (9 ∷ 8 ∷ []) (λ j g n. refl) refl refl

-- The end, with no byte, of the send of the first connection.
abbrev late_end : CompletionEntry
late_end = record { key = 0; io_size = 0; overlapped = some (send_overlapped 0); recv_buf = [] }

handle_entry_stale_example :
    (◌≢◌ {A = ℕ} 0 0
      → handle_entry all_well two_sessions late_end
        ≡ some (record two_sessions {
          send_buffer_pool = ObjectPool.free two_sessions.send_buffer_pool (some 0);
        }))
    × (◌≡◌ {A = ℕ} 0 0
        → (srv' : IoCompletionPort) × (s' : ClientSession) × (handle_entry all_well two_sessions
              late_end
            ≡ some srv')
          × (get_elem? srv'.client_infos 0 ≡ some s')
          × (s'.is_connected ≡ false)
          × (srv'.events ≡ on_close 0 ∷ [])
          × (srv'.send_buffer_pool ≡ two_sessions.send_buffer_pool))
handle_entry_stale_example =
    handle_entry_stale all_well two_sessions late_end 0 client old_block refl refl refl
      (λ e. absurd (omega (arith, e))) refl

-- The same session with a send that is queued.
abbrev behind : Link
behind = record link { session = record client { send_data_queue = 0 ∷ [] } }

send_msg_blocked_example :
    (next : Link) × (r : Bool × Link) × (ClientSession.accept_completion all_well
        (ClientSession.post_immediate_accept all_well (ClientSession.closed all_well behind)).1
      ≡ (true, next))
    × (next.session.is_connected ≡ true)
    × (ClientSession.send_msg all_well next 2 (4 ∷ 4 ∷ []) ≡ some r)
    × (r.0 ≡ true)
    × (sends_of r.1.requests ≡ [])
send_msg_blocked_example =
    send_msg_blocked all_well behind 0 [] (4 ∷ 4 ∷ []) all_well-Works refl (λ c h. ground arith)
      (omega arith)
