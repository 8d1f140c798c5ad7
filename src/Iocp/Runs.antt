-- ===== src/Iocp/Runs.antt =====
-- The whole network layer of IOCPChatServer/IOCP.h over time: completions, messages to send, and
-- rounds of the timeout thread, in any order.
use iocp.Common.{ℕ, ◌≤◌, ◌<◌, ◌≡◌, Bool, Option, some, List, arith, length, subst}
use iocp.Net.{Windows, SendOverlapped, max_sockbuf}
use iocp.Iocp
use iocp.Iocp.{
  IoCompletionPort, CompletionEntry, handle_entry, start_server, check_session, check_sessions,
  get_client_info, put_link, timeout_ms, ping_interval_ms,
}
use iocp.Iocp.Accounts.{IsExact}
use iocp.Iocp.Workers.{Works}
use iocp.Iocp.Completions.{IsPossible, handle_entry-IsExact}
use iocp.Iocp.Rounds.{send_msg-IsExact, check_sessions-IsExact}
use iocp.Iocp.Start.{start_server-few, start_server-IsExact}

-- The states of a server that `StartServer` has started: after any completions that Windows may report,
-- messages that the packet thread sends, and rounds of the timeout thread over all sessions.
pub data Serving (w : Windows) (fresh : ℕ → SendOverlapped) (max_client : ℕ)
    : IoCompletionPort → Type 0 where
  started :
      {srv : IoCompletionPort}
      → start_server w fresh max_client ≡ some srv
      → Serving w fresh max_client srv
  completed :
      {srv srv' : IoCompletionPort} (e : CompletionEntry)
      → Serving w fresh max_client srv
      → IsPossible srv e
      → handle_entry w srv e ≡ some srv'
      → Serving w fresh max_client srv'
  sent :
      {srv srv' : IoCompletionPort} (i n : ℕ) (msg : List ℕ) (done : Bool)
      → Serving w fresh max_client srv
      → i < length srv.client_infos
      → n ≤ length msg
      → n ≤ max_sockbuf
      → Iocp.send_msg w srv i n msg ≡ some (done, srv')
      → Serving w fresh max_client srv'
  looked :
      {srv srv' : IoCompletionPort} (now : ℕ)
      → Serving w fresh max_client srv
      → check_sessions w now 0 (length srv.client_infos) srv ≡ some srv'
      → Serving w fresh max_client srv'

same_server :
    {o : Option IoCompletionPort} {srv' : IoCompletionPort} (srv : IoCompletionPort)
    → o ≡ some srv
    → o ≡ some srv'
    → IsExact srv
    → IsExact srv'
same_server {srv' = srv'} srv e h v = let q : srv ≡ srv' = ground (arith, e, h) in subst IsExact q v

-- When Windows does what accepts and receives ask, whatever becomes of sends: in every state that a server
-- for any number of clients comes to, after any completions that Windows may report, messages of
-- the packet thread that fit a buffer, and rounds of the timeout thread, in any order, the
-- accounts are exact: each session stands once in the list of free ones, waits for an accept, or
-- is connected; the counter is the number of connected sessions; every connected session's receive
-- carries its generation; and every block that is free or queued exists.
pub Serving-IsExact :
    {w : Windows} {fresh : ℕ → SendOverlapped} {max_client : ℕ} {srv : IoCompletionPort}
    → Works w
    → Serving w fresh max_client srv
    → IsExact srv
Serving-IsExact {w} {fresh} {max_client} good (started h) =
    let (few, begun) = start_server-few w fresh max_client _ h in
    let (srv, e, v, list, cnt) = start_server-IsExact w fresh max_client good few in
    same_server srv e h v
Serving-IsExact {w} good (completed {srv} e run possible h) =
    let (srv', handled, v) =
      handle_entry-IsExact w srv e good (Serving-IsExact good run) possible in
    same_server srv' handled h v
Serving-IsExact {w} {srv = srv'} good (sent {srv} i n msg done run lt enough fits h) =
    let (r, e, v) = send_msg-IsExact w srv i n msg (Serving-IsExact good run) lt enough fits in
    let q : r.1 ≡ srv' = ground (arith, e, h) in subst IsExact q v
Serving-IsExact {w} good (looked {srv} now run h) =
    let (srv', e, v) =
      check_sessions-IsExact w now 0 (length srv.client_infos) srv (Serving-IsExact good run)
        (omega arith) in
    same_server srv' e h v
