-- ===== src/Iocp/Receives.antt =====
-- The completion of a receive, in `WorkerThread` of IOCPChatServer/IOCP.h, keeps the accounts.
use native.Mathlib.Decide.{ℕ_discrete}
use iocp.Common.{
  set-set, ℕ, ◌<◌, ◌≡◌, ◌≢◌, refl, some, List, [], ◌∷◌, ◌++◌, arith, length, get_elem?,
  get_elem?-lt, get_elem?_of_lt, get_elem?-set_self, set,
}
use iocp.Net.{Windows, recv_request}
use iocp.ClientSession
use iocp.ClientSession.{ClientSession, Link, send_io}
use iocp.Iocp.{IoCompletionPort, on_receive, get_client_info, put_link, handle_recv}
use iocp.Iocp.Accounts.{IsExact, IsAccounted-set}
use iocp.Iocp.Workers.{Works, bind_recv_lem}

module _ (w : Windows) (good : Works w) where
  unfoldable pub received_server :
      IoCompletionPort → ℕ → ClientSession → ℕ → List ℕ → IoCompletionPort
  received_server srv i s io_size bytes = record srv {
    client_infos = set srv.client_infos i (record s {
      last_activity_time = w.tick_count s.index s.generation (length srv.requests);
      last_ping_time = 0;
      recv_generation = s.generation;
    });
    requests = srv.requests ++ recv_request s.index ∷ [];
    events = srv.events ++ on_receive s.index io_size bytes ∷ [];
  }

  pub handle_recv_lem :
      (srv : IoCompletionPort) (i k : ℕ) (s o : ClientSession) (io_size : ℕ) (bytes : List ℕ)
      → get_elem? srv.client_infos i ≡ some s
      → get_elem? srv.client_infos k ≡ some o
      → o.recv_generation ≡ s.generation
      → handle_recv w srv i k io_size bytes ≡ some (received_server srv i s io_size bytes)
  unfolding handle_recv get_client_info put_link received_server ClientSession.update_activity
  handle_recv_lem srv i k s o io_size bytes at owner same =
      let active = record s {
        last_activity_time = w.tick_count s.index s.generation (length srv.requests);
        last_ping_time = 0;
      } in
      ground (
        arith,
        at,
        owner,
        same,
        get_elem?-set_self srv.client_infos i active (get_elem?-lt srv.client_infos i at),
        bind_recv_lem w good (record {
          session = active;
          send_pool = srv.send_buffer_pool;
          requests = srv.requests;
        }),
        set-set srv.client_infos i active (record active { recv_generation = s.generation }),
      )

  handle_recv_stale :
      (srv : IoCompletionPort) (i k : ℕ) (s o : ClientSession) (io_size : ℕ) (bytes : List ℕ)
      → get_elem? srv.client_infos i ≡ some s
      → get_elem? srv.client_infos k ≡ some o
      → o.recv_generation ≢ s.generation
      → handle_recv w srv i k io_size bytes ≡ some srv
  unfolding handle_recv get_client_info
  handle_recv_stale srv i k s o io_size bytes at owner differ = ground (arith, at, owner, differ)

  pub received_server-IsExact :
      (srv : IoCompletionPort) (i : ℕ) (s : ClientSession) (io_size : ℕ) (bytes : List ℕ)
      → IsExact srv
      → get_elem? srv.client_infos i ≡ some s
      → IsExact (received_server srv i s io_size bytes)
  unfolding received_server
  received_server-IsExact srv i s io_size bytes v at =
      let o = v.slot i s at in
      IsAccounted-set i
        (record s {
          last_activity_time = w.tick_count s.index s.generation (length srv.requests);
          last_ping_time = 0;
          recv_generation = s.generation;
        })
        v at
        (record {
          here = record {
            index = o.index;
            once = o.once;
            open_socket = o.open_socket;
            accepting = o.accepting;
            tagged = λ e. refl;
          };
          elsewhere = λ j ne. refl;
          counted = λ n e. ground (arith, v.counted);
          queued = v.queued i s at;
        })

  pub handle_recv-IsExact :
      (srv : IoCompletionPort) (i k : ℕ) (io_size : ℕ) (bytes : List ℕ)
      → IsExact srv
      → i < length srv.client_infos
      → k < length srv.client_infos
      → (srv' : IoCompletionPort) × (handle_recv w srv i k io_size bytes ≡ some srv') × IsExact srv'
  handle_recv-IsExact srv i k io_size bytes v lt lt' =
      let (s, at) = get_elem?_of_lt srv.client_infos i lt in
      let (o, owner) = get_elem?_of_lt srv.client_infos k lt' in
      elim (ℕ_discrete o.recv_generation s.generation) [
        | yes same ↦ (
          received_server srv i s io_size bytes,
          handle_recv_lem srv i k s o io_size bytes at owner same,
          received_server-IsExact srv i s io_size bytes v at,
        )
        | no differ ↦ (srv, handle_recv_stale srv i k s o io_size bytes at owner differ, v)
      ]
