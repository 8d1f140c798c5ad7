-- ===== src/Iocp/Accounts.antt =====
-- Where each session of IOCPChatServer/IOCP.h stands: in the list of free ones, waiting for an accept,
-- or connected; and how that changes when one session changes.
use native.Mathlib.Decide.{ℕ_discrete}
use iocp.Common.{
  ℕ, zero, suc, ◌+◌, ◌^◌, ◌≤◌, ◌<◌, ◌≡◌, ◌≢◌, ◌∙◌, Bool, true, false, Option, none, some, List, [],
  ◌∷◌, arith, length, get_elem?, get_elem?-lt, set, length-set, subst,
}
use iocp.Common.Int.{ℤ, pos}
use iocp.Net.{SendOverlapped}
use iocp.ObjectPool
use iocp.ObjectPool.{ObjectPool}
use iocp.ClientSession.{ClientSession}
use iocp.Iocp.{IoCompletionPort}
use iocp.Membership.Lists.{count, get_elem?-set}

-- 1 for the index of a session that has no socket, else 0.
abbrev pub idle_at : Option ℕ → ℕ
idle_at none = 1
idle_at (some socket) = 0

abbrev pub connected_at : Bool → ℕ
connected_at true = 1
connected_at false = 0

abbrev pub connected : List ClientSession → ℕ
connected [] = 0
connected (s ∷ ss) = connected_at s.is_connected + connected ss

-- The session `s` at `j`: it stands once in the list of free ones if it has no socket, else never;
-- only a session with a socket is connected; its accept structure names it; and the receive of a
-- connected one carries its generation.
pub record IsSlot (free : List ℕ) (j : ℕ) (s : ClientSession) : Type 0 where
  pub index : s.index ≡ j
  pub once : count j free ≡ idle_at s.socket_client
  pub open_socket : s.is_connected ≡ true → idle_at s.socket_client ≡ 0
  pub accepting : idle_at s.socket_client ≡ 0 → s.accept_index ≡ j
  pub tagged : s.is_connected ≡ true → s.recv_generation ≡ s.generation

pub record IsAccounted (clients : List ClientSession) (free : List ℕ) (cnt : ℤ)
    (pool : ObjectPool SendOverlapped) : Type 0 where
  pub few : length clients < 2 ^ 31
  pub slot : (j : ℕ) (s : ClientSession) → get_elem? clients j ≡ some s → IsSlot free j s
  pub free_in : (j : ℕ) → 0 < count j free → j < length clients
  pub counted : cnt ≡ pos (connected clients)
  pub queued :
      (j : ℕ) (s : ClientSession)
      → get_elem? clients j ≡ some s
      → (b : ℕ) → 0 < count b s.send_data_queue
      → b < length pool.all_blocks
  pub pooled : (b : ℕ) → 0 < count b pool.free_list → b < length pool.all_blocks

abbrev pub IsExact : IoCompletionPort → Type 0
IsExact srv = IsAccounted srv.client_infos srv.free_session_list srv.client_cnt srv.send_buffer_pool

pub connected-set :
    (ss : List ClientSession) (i : ℕ) {s : ClientSession} (s' : ClientSession)
    → get_elem? ss i ≡ some s
    → connected (set ss i s') + connected_at s.is_connected
      ≡ connected ss + connected_at s'.is_connected
connected-set [] i s' h = cc
connected-set (x ∷ ss) zero s' h = ground arith
connected-set (x ∷ ss) (suc i) s' h = omega (arith, connected-set ss i s' h)

connected_at-le : (b : Bool) → connected_at b ≤ 1
connected_at-le true = omega arith
connected_at-le false = omega arith

pub connected-le : (ss : List ClientSession) → connected ss ≤ length ss
connected-le [] = omega arith
connected-le (s ∷ ss) = omega (arith, connected_at-le s.is_connected, connected-le ss)

-- What a change of the session at `i` has to keep.
pub record Fits (clients : List ClientSession) (free free' : List ℕ) (cnt' : ℤ) (blocks i : ℕ)
    (s s' : ClientSession) : Type 0 where
  pub here : IsSlot free' i s'
  pub elsewhere : (j : ℕ) → i ≢ j → count j free' ≡ count j free
  pub counted :
      (n : ℕ)
      → n + connected_at s.is_connected ≡ connected clients + connected_at s'.is_connected
      → cnt' ≡ pos n
  pub queued : (b : ℕ) → 0 < count b s'.send_data_queue → b < blocks

module _ {clients : List ClientSession} {free : List ℕ} {cnt : ℤ} {pool : ObjectPool SendOverlapped}
    (i : ℕ) {s : ClientSession} (s' : ClientSession) {free' : List ℕ} {cnt' : ℤ}
    (v : IsAccounted clients free cnt pool) (at : get_elem? clients i ≡ some s)
    (f : Fits clients free free' cnt' (length pool.all_blocks) i s s') where
  IsSlot-set :
      (j : ℕ) (q : ClientSession) → get_elem? (set clients i s') j ≡ some q → IsSlot free' j q
  IsSlot-set j q h = elim (ℕ_discrete i j) [
    | yes e ↦
        subst (λ n. IsSlot free' n q) e
          (subst (IsSlot free' i) (ground (arith, get_elem?-set clients i j s' at)) f.here)
    | no ne ↦
        let o = v.slot j q (ground (arith, get_elem?-set clients i j s' at)) in
        record {
          index = o.index;
          once = f.elsewhere j ne ∙ o.once;
          open_socket = o.open_socket;
          accepting = o.accepting;
          tagged = o.tagged;
        }
  ]

  queued-set :
      (j : ℕ) (q : ClientSession)
      → get_elem? (set clients i s') j ≡ some q
      → (b : ℕ) → 0 < count b q.send_data_queue
      → b < length pool.all_blocks
  queued-set j q h = elim (ℕ_discrete i j) [
    | yes e ↦
        let same : s' ≡ q = ground (arith, get_elem?-set clients i j s' at) in
        subst
          (λ (x : ClientSession).
            (b : ℕ) → 0 < count b x.send_data_queue → b < length pool.all_blocks)
          same f.queued
    | no ne ↦ v.queued j q (ground (arith, get_elem?-set clients i j s' at))
  ]

  free_in-set : (j : ℕ) → 0 < count j free' → j < length (set clients i s')
  free_in-set j h = elim (ℕ_discrete i j) [
    | yes e ↦ omega (arith, length-set clients i s', get_elem?-lt clients i at, e)
    | no ne ↦ omega (arith, length-set clients i s', v.free_in j, f.elsewhere j ne)
  ]

  -- One session changes, and the accounts with it.
  pub IsAccounted-set : IsAccounted (set clients i s') free' cnt' pool
  IsAccounted-set = record {
    few = omega (arith, v.few, length-set clients i s');
    slot = IsSlot-set;
    free_in = free_in-set;
    counted = f.counted (connected (set clients i s')) (connected-set clients i s' at);
    queued = queued-set;
    pooled = v.pooled;
  }

-- A block that exists returns to the pool.
pub IsAccounted-free :
    {clients : List ClientSession} {free : List ℕ} {cnt : ℤ} {pool : ObjectPool SendOverlapped}
    (b : ℕ)
    → IsAccounted clients free cnt pool
    → b < length pool.all_blocks
    → IsAccounted clients free cnt (ObjectPool.free pool (some b))
unfolding ObjectPool.free
IsAccounted-free b v lt = record {
  few = v.few;
  slot = v.slot;
  free_in = v.free_in;
  counted = v.counted;
  queued = v.queued;
  pooled = λ c h. ground (arith, v.pooled c);
}
