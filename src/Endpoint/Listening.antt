-- ===== src/Endpoint/Listening.antt =====
-- What `Init` and `BindandListen` of IOCPChatServer/IOCP.h ask of Windows, and how far they come.
use iocp.Common.{
  ℕ, suc, ◌%◌, ◌^◌, ◌≡◌, ◌∙◌, Bool, true, false, Option, none, some, List, [], ◌∷◌, ◌++◌, arith,
  leb, take, inl, inr, Bool-cases, Option-cases, append_assoc,
}
use iocp.Endpoint.{
  Setup, SystemCall, wsa_startup, wsa_socket, bind_call, listen_call, create_io_completion_port,
  bind_listen_call, Endpoint, record_call, init, bind_port, bind_and_listen,
}

-- How many of the calls succeed before one that fails.
abbrev pub successes : List Bool → ℕ
successes [] = 0
successes (true ∷ bs) = suc (successes bs)
successes (false ∷ bs) = 0

abbrev pub is_valid : Option ℕ → Bool
is_valid none = false
is_valid (some x) = true

init_lem :
    (s : Setup) (threads : ℕ) (e : Endpoint)
    → let k = successes (s.startup ∷ is_valid s.listen_socket ∷ []) in
      let (up, e₁) = init s threads e in
      (e₁.calls ≡ e.calls ++ take (suc k) (wsa_startup ∷ wsa_socket ∷ []))
      × (up ≡ leb 2 k)
      × (up ≡ true
          → (e₁.listen_socket ≡ s.listen_socket) × (e₁.max_io_worker_thread_count ≡ threads))
unfolding init
init_lem s threads e = elim (Bool-cases s.startup) [
  | inl on ↦ elim (Option-cases s.listen_socket) [
    | inl absent ↦
        rw (on, absent) (ground (arith, append_assoc e.calls (wsa_startup ∷ []) (wsa_socket ∷ [])))
    | inr (x, there) ↦
        rw (on, there) (ground (arith, append_assoc e.calls (wsa_startup ∷ []) (wsa_socket ∷ [])))
  ]
  | inr off ↦ rw off (ground arith)
]

bind_port_lem :
    (s : Setup) (e : Endpoint)
    → let n =
        successes (is_valid (s.create_port e.max_io_worker_thread_count) ∷ s.bind_listen ∷ []) in
      let (ready, e₂) = bind_port s e in
      (e₂.calls
        ≡ e.calls
          ++ take (suc n) (
              create_io_completion_port e.max_io_worker_thread_count
              ∷ bind_listen_call e.listen_socket (s.create_port e.max_io_worker_thread_count)
              ∷ []))
      × (ready ≡ leb 2 n)
      × (ready ≡ true → e₂.iocp_handle ≡ s.create_port e.max_io_worker_thread_count)
unfolding bind_port
bind_port_lem s e = elim (Option-cases (s.create_port e.max_io_worker_thread_count)) [
  | inl absent ↦ rw absent (ground arith)
  | inr (h, there) ↦ elim (Bool-cases s.bind_listen) [
    | inl ready ↦
        rw (there, ready)
          (ground (
            arith,
            append_assoc e.calls (create_io_completion_port e.max_io_worker_thread_count ∷ [])
                (bind_listen_call e.listen_socket (some h) ∷ []),
          ))
    | inr failed ↦
        rw (there, failed)
          (ground (
            arith,
            append_assoc e.calls (create_io_completion_port e.max_io_worker_thread_count ∷ [])
                (bind_listen_call e.listen_socket (some h) ∷ []),
          ))
  ]
]

leb_up : (n : ℕ) → leb 2 n ≡ leb 4 (suc (suc n))
leb_up n = ground arith

append_two :
    (xs ys : List SystemCall) (x y : SystemCall)
    → ((xs ++ x ∷ []) ++ y ∷ []) ++ ys ≡ xs ++ x ∷ y ∷ ys
append_two xs ys x y = append_assoc (xs ++ x ∷ []) (y ∷ []) ys ∙ append_assoc xs (x ∷ []) (y ∷ ys)

bind_and_listen_lem :
    (s : Setup) (port : ℕ) (e : Endpoint)
    → let n = successes (
        s.bind (port % 2 ^ 16)
        ∷ s.listen 5
        ∷ is_valid (s.create_port e.max_io_worker_thread_count)
        ∷ s.bind_listen
        ∷ []) in
      let (ready, e₂) = bind_and_listen s port e in
      (e₂.calls
        ≡ e.calls
          ++ take (suc n) (
              bind_call e.listen_socket (port % 2 ^ 16)
              ∷ listen_call e.listen_socket 5
              ∷ create_io_completion_port e.max_io_worker_thread_count
              ∷ bind_listen_call e.listen_socket (s.create_port e.max_io_worker_thread_count)
              ∷ []))
      × (ready ≡ leb 4 n)
      × (ready ≡ true → e₂.iocp_handle ≡ s.create_port e.max_io_worker_thread_count)
unfolding bind_and_listen
bind_and_listen_lem s port e = elim (Bool-cases (s.bind (port % 2 ^ 16))) [
  | inl bound ↦ elim (Bool-cases (s.listen 5)) [
    | inl heard ↦
        let a = bind_call e.listen_socket (port % 2 ^ 16) in
        let b = listen_call e.listen_socket 5 in
        let (calls, ok, got) = bind_port_lem s (record_call (record_call e a) b) in
        rw (bound, heard) (calls ∙ append_two e.calls _ a b, ok ∙ leb_up _, got)
    | inr deaf ↦
        rw (bound, deaf)
          (ground (
            arith,
            append_assoc e.calls (bind_call e.listen_socket (port % 2 ^ 16) ∷ [])
                (listen_call e.listen_socket 5 ∷ []),
          ))
  ]
  | inr unbound ↦ rw unbound (ground arith)
]

-- `Init` makes its two calls, and `BindandListen` its four, in order as far as the first that fails;
-- each returns true exactly when all of its calls succeed. `Init` then has the socket and the number of
-- threads, and `BindandListen` the new completion port. The port number is taken modulo 2 ^ 16.
pub init-bind_and_listen :
    (s : Setup) (threads port : ℕ) (e : Endpoint)
    → let k = successes (s.startup ∷ is_valid s.listen_socket ∷ []) in
      let n = successes (
        s.bind (port % 2 ^ 16)
        ∷ s.listen 5
        ∷ is_valid (s.create_port e.max_io_worker_thread_count)
        ∷ s.bind_listen
        ∷ []) in
      let (up, e₁) = init s threads e in
      let (ready, e₂) = bind_and_listen s port e in
      (e₁.calls ≡ e.calls ++ take (suc k) (wsa_startup ∷ wsa_socket ∷ []))
      × (up ≡ leb 2 k)
      × (e₂.calls
          ≡ e.calls
            ++ take (suc n) (
                bind_call e.listen_socket (port % 2 ^ 16)
                ∷ listen_call e.listen_socket 5
                ∷ create_io_completion_port e.max_io_worker_thread_count
                ∷ bind_listen_call e.listen_socket (s.create_port e.max_io_worker_thread_count)
                ∷ []))
      × (ready ≡ leb 4 n)
      × (up ≡ true
          → (e₁.listen_socket ≡ s.listen_socket) × (e₁.max_io_worker_thread_count ≡ threads))
      × (ready ≡ true → e₂.iocp_handle ≡ s.create_port e.max_io_worker_thread_count)
init-bind_and_listen s threads port e =
    let (calls, ok, got) = init_lem s threads e in
    let (calls', ok', got') = bind_and_listen_lem s port e in (calls, ok, calls', ok', got, got')
