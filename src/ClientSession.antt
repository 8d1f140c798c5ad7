-- ===== src/ClientSession.antt =====
-- IOCPChatServer/ClientSession.h: one connection, its queue of sends, and the pool of send buffers
-- that all sessions share. `none` is a fault: the front of an empty queue, or a copy over the end
-- of a buffer.
pub mod Contents
pub mod Sending
pub mod Prefixes
pub mod Traffic
pub mod Order
use iocp.Common.{
  ℕ, ◌+◌, ◌%◌, ◌^◌, Bool, true, false, not, ◌||◌, Option, none, some, List, [], ◌∷◌, ◌++◌, ◌>>=◌,
  ltb, ◌==◌, if◌then◌else◌, inc_uint32, length, get_elem?, take, drop, replicate,
}
use iocp.ObjectPool
use iocp.ObjectPool.{ObjectPool}
use iocp.Net
use iocp.Net.{
  Windows, Request, SendOverlapped, send_request, recv_request, accept_request, shutdown_request,
  max_sockbuf, invalid_handle_value, uint32_max,
}

-- The members that the code reads. `recv_generation` is that of `m_stRecvOverlappedEx`, `accept_index`
-- the `clientSessionIndex` of `mAcceptContext`; `none` is `INVALID_SOCKET`.
pub record ClientSession : Type 0 where
  pub index : ℕ
  pub socket_client : Option ℕ
  pub is_connected : Bool
  pub generation : ℕ
  pub recv_generation : ℕ
  pub accept_index : ℕ
  pub send_data_queue : List ℕ
  pub is_sending : Bool
  pub send_pos : ℕ
  pub latest_closed_time_sec : ℕ
  pub last_activity_time : ℕ
  pub last_ping_time : ℕ

-- A session, with the pool it shares and all requests made so far.
pub record Link : Type 0 where
  pub session : ClientSession
  pub send_pool : ObjectPool SendOverlapped
  pub requests : List Request

-- The constructor and the members' initialisers; `Init`.
unfoldable pub new_session : ClientSession
new_session = record {
  index = 0;
  socket_client = none;
  is_connected = false;
  generation = 0;
  recv_generation = 0;
  accept_index = 0;
  send_data_queue = [];
  is_sending = false;
  send_pos = 0;
  latest_closed_time_sec = 0;
  last_activity_time = 0;
  last_ping_time = 0;
}

unfoldable pub init : ClientSession → ℕ → ClientSession
init s index_ = record s { index = index_ }

abbrev put_session : Link → ClientSession → Link
put_session l s = record l { session = s }

abbrev request : Link → Request → Link
request l r = record l { requests = l.requests ++ r ∷ [] }

-- A result of Windows, for the session as it is.
abbrev reply {ℓ} : {A : Type ℓ} → (ℕ → ℕ → ℕ → A) → Link → A
reply f l = f l.session.index l.session.generation (length l.requests)

-- The block from the pool, filled; `none` when the bytes do not fit or are not there.
unfoldable pub fill :
    ObjectPool SendOverlapped → ℕ → ℕ → ℕ → List ℕ → Option (ObjectPool SendOverlapped)
fill pool block generation data_size msg = get_elem? pool.all_blocks block >>= λ o.
    if ltb max_sockbuf data_size || ltb (length msg) data_size
    then none
    else some (
        ObjectPool.put_block pool block (record {
          len = data_size;
          operation = Net.send;
          generation = generation;
          buffer = take data_size msg ++ drop data_size o.buffer;
        }))

module _ (w : Windows) where
  unfoldable pub update_activity : Link → Link
  update_activity l =
      put_session l
        (record l.session { last_activity_time = reply w.tick_count l; last_ping_time = 0 })

  -- `bIsForced` sets how Windows lets the connection linger, and nothing else.
  unfoldable pub closed : Link → Link
  closed l =
      request
        (put_session l (record l.session {
          is_connected = false;
          latest_closed_time_sec = reply w.steady_seconds l;
          socket_client = none;
        }))
        (shutdown_request l.session.index)

  unfoldable pub bind_recv : Link → Bool × Link
  bind_recv l =
      let tagged = put_session l (record l.session { recv_generation = l.session.generation }) in
      if reply w.recv tagged
      then (true, request tagged (recv_request l.session.index))
      else (false, closed tagged)

  unfoldable pub bind_io_completion_port : Link → Bool
  bind_io_completion_port l = not (reply w.bind_port l == invalid_handle_value)

  unfoldable pub on_connect : Link → Option ℕ → Bool × Link
  on_connect l socket =
      let connected = put_session l (record l.session {
        socket_client = socket;
        is_connected = true;
        generation = inc_uint32 l.session.generation;
      }) in
      let active = update_activity connected in
      if not (bind_io_completion_port active) then (false, active) else bind_recv active

  unfoldable pub accept_completion : Link → Bool × Link
  accept_completion l =
      if not (reply w.accept_context l) then (false, l) else on_connect l l.session.socket_client

  unfoldable pub post_immediate_accept : Link → Bool × Link
  post_immediate_accept l = elim (reply w.socket l) [
    | none ↦ (
      false,
      put_session l
          (record l.session { latest_closed_time_sec = uint32_max; socket_client = none }),
    )
    | some socket ↦
        let s = record l.session {
          latest_closed_time_sec = uint32_max;
          socket_client = some socket;
          accept_index = l.session.index;
        } in
        if reply w.accept_ex l
        then (true, request (put_session l s) (accept_request l.session.index))
        else (false, put_session l s)
  ]

  -- The same, with a time that it does not use.
  unfoldable pub post_accept : Link → ℕ → Bool × Link
  post_accept l cur_time_sec = post_immediate_accept l

  -- `WSASend` of the block at the front. When it fails nothing is undone.
  unfoldable pub send_io : Link → Option (Bool × Link)
  send_io l = elim l.session.send_data_queue [
    | [] ↦ none
    | block ∷ rest ↦ get_elem? l.send_pool.all_blocks block >>= λ o.
        if reply w.send l
        then some (true, request l (send_request l.session.index block (take o.len o.buffer)))
        else some (false, l)
  ]

  -- `SendMsg` once the block is filled.
  unfoldable pub enqueue : Link → ℕ → Option (Bool × Link)
  enqueue l block =
      let queued =
        put_session l
          (record l.session { send_data_queue = l.session.send_data_queue ++ block ∷ [] }) in
      if length queued.session.send_data_queue == 1
      then (send_io queued >>= λ (sent, l'). some (true, l'))
      else some (true, queued)

  unfoldable pub send_msg : Link → ℕ → List ℕ → Option (Bool × Link)
  send_msg l data_size msg =
      let (taken, pool) = ObjectPool.alloc l.send_pool in
      elim taken [
        | none ↦ some (false, l)
        | some block ↦ fill pool block l.session.generation data_size msg >>= λ filled.
            enqueue (record l { send_pool = filled }) block
      ]

  unfoldable pub send_complete : Link → ℕ → Option Link
  send_complete l data_size_ = elim l.session.send_data_queue [
    | [] ↦ none
    | block ∷ rest ↦
        let popped = record l {
          send_pool = ObjectPool.free l.send_pool (some block);
          session = record l.session { send_data_queue = rest };
        } in
        elim rest [ [] ↦ some popped | next ∷ others ↦ send_io popped >>= λ (sent, l'). some l' ]
  ]

unfoldable pub disconnect_async : Link → Link
disconnect_async l = elim l.session.socket_client [
  | none ↦ l
  | some socket ↦ request l (shutdown_request l.session.index)
]

-- The loop of `Clear`.
unfoldable pub free_all : ObjectPool SendOverlapped → List ℕ → ObjectPool SendOverlapped
free_all pool [] = pool
free_all pool (block ∷ rest) = free_all (ObjectPool.free pool (some block)) rest

-- No code calls it. The buffers that it zeroes are not modelled: what is received into `mRecvBuf` comes
-- with the completion.
unfoldable pub clear : Link → Link
clear l = record l {
  send_pool = free_all l.send_pool l.session.send_data_queue;
  session = record l.session { send_data_queue = []; send_pos = 0; is_sending = false };
}

unfoldable pub set_last_ping_time : ClientSession → ℕ → ClientSession
set_last_ping_time s time = record s { last_ping_time = time }
