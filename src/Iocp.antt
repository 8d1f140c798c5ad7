-- ===== src/Iocp.antt =====
-- IOCPChatServer/IOCP.h: the sessions, the list of free ones, and what the worker threads do with the
-- completions that Windows reports. The virtual functions are calls that are recorded in order. Each
-- completion is one step. `none` is a fault.
pub mod Accounts
pub mod Workers
pub mod Sends
pub mod Accepts
pub mod Receives
pub mod Completions
pub mod Start
pub mod Queueing
pub mod Timeout
pub mod Failures
pub mod Looks
pub mod Rounds
pub mod Runs
pub mod Ending
pub mod Told
pub mod Lengths
use iocp.Common.{
  ℕ, zero, suc, ◌+◌, ◌-◌, ◌%◌, ◌^◌, Bool, true, false, not, ◌&&◌, ◌||◌, Option, none, some, List,
  [], ◌∷◌, ◌++◌, ◌*◌, ◌>>=◌, leb, ◌==◌, if◌then◌else◌, sub_size, length, get_elem?, set,
}
use iocp.Common.Int.{ℤ, pos, inc32, dec32}
use iocp.ObjectPool
use iocp.ObjectPool.{ObjectPool}
use iocp.Net.{Windows, Request, SendOverlapped, max_sockbuf}
use iocp.ClientSession
use iocp.ClientSession.{ClientSession, Link}
use iocp.Packet.{packet_header_length}
use iocp.Packet.Wire.{ping, encode}

-- A call of `OnConnect`, `OnClose` or `OnReceive`, the last with the size and the content of
-- `mRecvBuf`.
pub data Event : Type 0 where
  on_connect : (client_index : ℕ) → Event
  on_close : (client_index : ℕ) → Event
  on_receive : (client_index size : ℕ) (bytes : List ℕ) → Event

pub record IoCompletionPort : Type 0 where
  pub client_infos : List ClientSession
  pub send_buffer_pool : ObjectPool SendOverlapped
  pub free_session_list : List ℕ
  pub client_cnt : ℤ
  pub is_worker_run : Bool
  pub requests : List Request
  pub events : List Event

-- `lpOverlapped`: the accept or receive structure of a session, or a block of the send pool.
pub data Overlapped : Type 0 where
  accept_overlapped : (session : ℕ) → Overlapped
  recv_overlapped : (session : ℕ) → Overlapped
  send_overlapped : (block : ℕ) → Overlapped

-- An entry of `completionEntries`: the session of `lpCompletionKey`, the bytes transferred, the
-- structure, and what Windows has left in the session's `mRecvBuf`.
pub record CompletionEntry : Type 0 where
  pub key : ℕ
  pub io_size : ℕ
  pub overlapped : Option Overlapped
  pub recv_buf : List ℕ

-- `MAX_PENDING_ACCEPT`
abbrev pub max_pending_accept : ℕ
max_pending_accept = 100

-- The three times of `TimeoutCheckThread`.
abbrev pub timeout_ms : ℕ
timeout_ms = 60000

abbrev pub ping_interval_ms : ℕ
ping_interval_ms = 30000

unfoldable pub get_client_info : IoCompletionPort → ℕ → Option Link
get_client_info srv i = get_elem? srv.client_infos i >>= λ s.
    some (record { session = s; send_pool = srv.send_buffer_pool; requests = srv.requests })

-- What a method called on the session at a place leaves.
unfoldable pub put_link : IoCompletionPort → ℕ → Link → IoCompletionPort
put_link srv i l = record srv {
  client_infos = set srv.client_infos i l.session;
  send_buffer_pool = l.send_pool;
  requests = l.requests;
}

abbrev emit : IoCompletionPort → Event → IoCompletionPort
emit srv e = record srv { events = srv.events ++ e ∷ [] }

-- `mFreeSessionList` is listed from its back; `none` is `UINT32_MAX`.
unfoldable pub pop_free_session_index : IoCompletionPort → Option ℕ × IoCompletionPort
pop_free_session_index srv = elim srv.free_session_list [
  | [] ↦ (none, srv)
  | i ∷ rest ↦ (some i, record srv { free_session_list = rest })
]

unfoldable pub push_free_session_index : IoCompletionPort → ℕ → IoCompletionPort
push_free_session_index srv i = record srv { free_session_list = i ∷ srv.free_session_list }

-- The sessions of `CreateClient`, and the indices, from the back.
unfoldable pub make_sessions : ℕ → ℕ → List ClientSession
make_sessions i zero = []
make_sessions i (suc left) =
    ClientSession.init ClientSession.new_session i ∷ make_sessions (i + 1) left

unfoldable pub free_indices : ℕ → ℕ → List ℕ
free_indices i zero = []
free_indices i (suc left) = i ∷ free_indices (i + 1) left

-- A server that has been made, with its sessions and four send buffers for each; `fresh` is a new buffer.
abbrev pub server_of : (ℕ → SendOverlapped) → ℕ → IoCompletionPort
server_of fresh max_client_count = record {
  client_infos = make_sessions 0 max_client_count;
  send_buffer_pool =
      ObjectPool.init fresh (record { all_blocks = []; free_list = []; pool_size = 0 })
        (max_client_count * 4);
  free_session_list = free_indices 0 max_client_count;
  client_cnt = pos 0;
  is_worker_run = true;
  requests = [];
  events = [];
}

-- `CreateClient`. The number of buffers is computed as an `int`; where it overflows is a fault.
unfoldable pub create_client : (ℕ → SendOverlapped) → ℕ → Option IoCompletionPort
create_client fresh max_client_count =
    if leb (2 ^ 31) (max_client_count * 4) then none else some (server_of fresh max_client_count)

module _ (w : Windows) where
  unfoldable pub send_msg : IoCompletionPort → ℕ → ℕ → List ℕ → Option (Bool × IoCompletionPort)
  send_msg srv i data_size msg = get_client_info srv i >>= λ l.
      ClientSession.send_msg w l data_size msg >>= λ (done, l'). some (done, put_link srv i l')

  -- An index from the list, and an accept posted for its session.
  unfoldable pub post_next_accept : IoCompletionPort → Option IoCompletionPort
  post_next_accept srv =
      let (next, popped) = pop_free_session_index srv in
      elim next [
        | none ↦ some popped
        | some i ↦ get_client_info popped i >>= λ l.
            some (put_link popped i (ClientSession.post_immediate_accept w l).1)
      ]

  -- The accepts that `StartServer` posts.
  unfoldable pub post_accepts : ℕ → IoCompletionPort → Option IoCompletionPort
  post_accepts zero srv = some srv
  post_accepts (suc left) srv = post_next_accept srv >>= post_accepts left

  unfoldable pub start_server : (ℕ → SendOverlapped) → ℕ → Option IoCompletionPort
  start_server fresh max_client_count =
      create_client fresh max_client_count >>= post_accepts max_pending_accept

  unfoldable pub close_socket : IoCompletionPort → ℕ → Option IoCompletionPort
  close_socket srv i = get_client_info srv i >>= λ l.
      if not l.session.is_connected
      then some srv
      else (let gone =
            emit (put_link srv i (ClientSession.closed w l)) (on_close l.session.index) in
          let pushed = push_free_session_index gone l.session.index in
          some (record pushed { client_cnt = dec32 pushed.client_cnt }))

  -- The branch for `ACCEPT`, of the structure of the session at `k`.
  unfoldable pub handle_accept : IoCompletionPort → ℕ → Option IoCompletionPort
  handle_accept srv k = get_elem? srv.client_infos k >>= λ owner.
      get_client_info srv owner.accept_index >>= λ l.
      let (accepted, l') = ClientSession.accept_completion w l in
      let after = put_link srv owner.accept_index l' in
      (if accepted
        then some (
            emit (record after { client_cnt = inc32 after.client_cnt })
              (on_connect l'.session.index))
        else close_socket after owner.accept_index)
      >>= post_next_accept

  -- The generation is read out of the structure when the completion is handled.
  unfoldable pub handle_recv : IoCompletionPort → ℕ → ℕ → ℕ → List ℕ → Option IoCompletionPort
  handle_recv srv key k io_size recv_buf = get_elem? srv.client_infos k >>= λ owner.
      get_client_info srv key >>= λ l.
      if not (owner.recv_generation == l.session.generation)
      then some srv
      else (let active = ClientSession.update_activity w l in
          let told = emit (put_link srv key active) (on_receive l.session.index io_size recv_buf) in
          get_client_info told key >>= λ l'.
          some (put_link told key (ClientSession.bind_recv w l').1))

  unfoldable pub handle_send : IoCompletionPort → ℕ → ℕ → ℕ → Option IoCompletionPort
  handle_send srv key block io_size = get_elem? srv.send_buffer_pool.all_blocks block >>= λ o.
      get_client_info srv key >>= λ l.
      if not (o.generation == l.session.generation)
      then some
          (record srv { send_buffer_pool = ObjectPool.free srv.send_buffer_pool (some block) })
      else (ClientSession.send_complete w l io_size >>= λ l'. some (put_link srv key l'))

  -- One entry, by the body of the loop in `WorkerThread`.
  unfoldable pub handle_entry : IoCompletionPort → CompletionEntry → Option IoCompletionPort
  handle_entry srv e = elim e.overlapped [
    | none ↦ if e.io_size == 0 then some (record srv { is_worker_run = false }) else some srv
    | some (accept_overlapped k) ↦ handle_accept srv k
    | some (recv_overlapped k) ↦
        if e.io_size == 0
        then close_socket srv e.key
        else handle_recv srv e.key k e.io_size e.recv_buf
    | some (send_overlapped block) ↦
        if e.io_size == 0 then close_socket srv e.key else handle_send srv e.key block e.io_size
  ]

  -- The entries of one call of `GetQueuedCompletionStatusEx`.
  unfoldable pub handle_entries : List CompletionEntry → IoCompletionPort → Option IoCompletionPort
  handle_entries [] srv = some srv
  handle_entries (e ∷ es) srv = handle_entry srv e >>= handle_entries es

  -- One session, in the loop of `TimeoutCheckThread`. The `PacketType` of the ping is 0.
  unfoldable pub check_session : ℕ → Link → Option Link
  check_session now l =
      let elapsed = sub_size now l.session.last_activity_time in
      let pinged = sub_size now l.session.last_ping_time in
      if not l.session.is_connected
      then some l
      else if leb timeout_ms elapsed
      then some (ClientSession.disconnect_async l)
      else if leb ping_interval_ms elapsed && leb ping_interval_ms pinged
      then (ClientSession.send_msg w
            (record l { session = ClientSession.set_last_ping_time l.session now })
            packet_header_length (encode 0 ping)
          >>= λ (sent, l'). some l')
      else some l

  -- One round of `TimeoutCheckThread`, which reads the clock once, from the session at `i` on.
  unfoldable pub check_sessions : ℕ → ℕ → ℕ → IoCompletionPort → Option IoCompletionPort
  check_sessions now i zero srv = some srv
  check_sessions now i (suc left) srv = get_client_info srv i >>= λ l.
      check_session now l >>= λ l'. check_sessions now (i + 1) left (put_link srv i l')

  -- Step 2 of `DestroyThread`, from the session at `i` on.
  unfoldable pub close_all : ℕ → ℕ → IoCompletionPort → Option IoCompletionPort
  close_all i zero srv = some srv
  close_all i (suc left) srv = get_client_info srv i >>= λ l.
      close_all (i + 1) left
        (if l.session.is_connected then put_link srv i (ClientSession.closed w l) else srv)
