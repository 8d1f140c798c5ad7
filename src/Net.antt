-- ===== src/Net.antt =====
-- IOCPChatServer/Define.h: the overlapped structures of the network layer; and the calls of Windows
-- that its other files make, whose results are parameters.
use iocp.Common.{ℕ, Bool, Option, List}

pub data IoOperation : Type 0 where
  recv send accept : IoOperation

-- `MAX_SOCKBUF`
abbrev pub max_sockbuf : ℕ
max_sockbuf = 1024

abbrev pub max_sock_sendbuf : ℕ
max_sock_sendbuf = 4096

-- `UINT32_MAX`, which stands for no index.
abbrev pub uint32_max : ℕ
uint32_max = 4294967295

-- `INVALID_HANDLE_VALUE`
abbrev pub invalid_handle_value : ℕ
invalid_handle_value = 18446744073709551615

-- `SendOverlappedEx`. `sessionIndex`, which is never set, and what Windows keeps there are left out;
-- `wsaBuf.buf` always points to `buffer`.
pub record SendOverlapped : Type 0 where
  pub len : ℕ
  pub operation : IoOperation
  pub generation : ℕ
  pub buffer : List ℕ

-- What has been handed to Windows, in order: a send with the bytes, a receive, an accept, each for
-- the session at a place; or the end of a connection.
pub data Request : Type 0 where
  send_request : (index : ℕ) (block : ℕ) (bytes : List ℕ) → Request
  recv_request : (index : ℕ) → Request
  accept_request : (index : ℕ) → Request
  shutdown_request : (index : ℕ) → Request

-- The results of the calls for a session, of its place, its generation, and how many requests came
-- before. `send`, `recv`, `accept_ex`: the call did not fail, or the request is pending.
-- `accept_context`: `setsockopt` did not fail. `bind_port`: the handle from `CreateIoCompletionPort`.
-- `socket`: what `WSASocket` gives, if it is not `INVALID_SOCKET`. The clocks are of the same
-- arguments.
pub record Windows : Type 0 where
  pub send : ℕ → ℕ → ℕ → Bool
  pub recv : ℕ → ℕ → ℕ → Bool
  pub accept_ex : ℕ → ℕ → ℕ → Bool
  pub accept_context : ℕ → ℕ → ℕ → Bool
  pub bind_port : ℕ → ℕ → ℕ → ℕ
  pub socket : ℕ → ℕ → ℕ → Option ℕ
  pub tick_count : ℕ → ℕ → ℕ → ℕ
  pub steady_seconds : ℕ → ℕ → ℕ → ℕ
