-- ===== src/User/Framing.antt =====
-- `SetPacketData` and `GetPacket` of IOCPChatServer/User.h on the bytes that the ring holds: how
-- packets are cut out of the stream, and the headers at which that goes wrong.
use native.Mathlib.Decide.{dec_lt}
use native.Mathlib.Numerals.{add-one}
use iocp.Common.{
  ℕ, zero, suc, ◌+◌, ◌-◌, ◌*◌, ◌^◌, ◌≤◌, ◌<◌, ◌≡◌, refl, sym, ap, ap₂, ◌∙◌, ◌⊎◌, inr, List, [], ◌∷◌,
  ◌++◌, append-nil, some, arith, length, take, drop, take-nil, get_elem?, get_or, length-append,
  length-take, take-append, drop-append, take_all,
}
use iocp.RingBuffer
use iocp.RingBuffer.{RingBuffer}
use iocp.RingBuffer.Valid.{IsValid, size-head}
use iocp.RingBuffer.Contents.{contents, length-contents}
use iocp.RingBuffer.Transfer.{write_lem, read_lem, read_none, peek_lem}
use iocp.Packet.{PacketInfo, no_packet, packet_header_length, uint16_at}
use iocp.User.{
  User, max_packet_data_buffer_size, set_packet_data, peek_header, take_packet, get_packet,
}

-- The bytes received and not yet cut into packets.
abbrev pub pending : User → List ℕ
pending u = contents max_packet_data_buffer_size u.packet_data_buffer

abbrev pub IsReceiving : User → Type 0
IsReceiving u = IsValid max_packet_data_buffer_size u.packet_data_buffer

abbrev bound : ℕ
bound = max_packet_data_buffer_size

get_or-take : (n i : ℕ) (xs : List ℕ) → i < n → get_or (take n xs) i 0 ≡ get_or xs i 0
get_or-take zero i xs h = absurd (omega arith)
get_or-take (suc n) i [] h = refl
get_or-take (suc n) zero (x ∷ xs) h = refl
get_or-take (suc n) (suc i) (x ∷ xs) h = get_or-take n i xs (omega arith)

take-drop-cons :
    (n i : ℕ) (xs : List ℕ)
    → i < length xs
    → (b : ℕ) × (get_elem? xs i ≡ some b)
      × (take (suc n) (drop i xs) ≡ b ∷ take n (drop (suc i) xs))
take-drop-cons n i [] h = absurd (omega arith)
take-drop-cons n zero (x ∷ xs) h = (x, refl, refl)
take-drop-cons n (suc i) (x ∷ xs) h = take-drop-cons n i xs (omega arith)

-- The loop over the header reads a piece of what is pending.
peek_header_lem :
    (r : RingBuffer) (n i : ℕ)
    → IsValid bound r
    → i + n ≤ length (contents bound r)
    → peek_header r i n ≡ some (take n (drop i (contents bound r)))
unfolding peek_header
peek_header_lem r zero i v h = refl
peek_header_lem r (suc n) i v h =
    let (b, here, cut) = take-drop-cons n i (contents bound r) (omega arith) in
    rw (peek_lem bound r i v, here, add-one, peek_header_lem r n (suc i) v (omega arith), cut)

length-pending : (u : User) → RingBuffer.size bound u.packet_data_buffer ≡ length (pending u)
length-pending u = sym (length-contents bound u.packet_data_buffer)

-- With fewer bytes pending in a user's valid ring than a header has, or than the header says,
-- `GetPacket` reports no packet and changes nothing.
pub get_packet_incomplete :
    (u : User)
    → IsReceiving u
    → (length (pending u) < packet_header_length) ⊎ (length (pending u) < uint16_at (pending u) 0)
    → get_packet u ≡ (no_packet, u)
unfolding get_packet take_packet
get_packet_incomplete u v h = elim (dec_lt (length (pending u)) packet_header_length) [
  | yes short ↦ ground (arith, length-pending u)
  | no long ↦ ground (
    arith,
    length-pending u,
    peek_header_lem u.packet_data_buffer packet_header_length 0 v,
    get_or-take packet_header_length 0 (pending u),
    get_or-take packet_header_length 1 (pending u),
  )
]

-- What `GetPacket` does with a whole packet at the front: it reports the number and the length in
-- the header, hands out the packet at the front of the user's buffer, whose other bytes stay, and
-- leaves the bytes behind the packet pending.
pub record TookPacket (u : User) (out : PacketInfo × User) : Type 0 where
  pub id : out.0.packet_id ≡ uint16_at (pending u) 2
  pub size : out.0.data_size ≡ uint16_at (pending u) 0
  pub bytes :
      out.0.data_ptr
      ≡ take (uint16_at (pending u) 0) (pending u)
        ++ drop (uint16_at (pending u) 0) u.temp_packet_buffer
  pub rest : pending out.1 ≡ drop (uint16_at (pending u) 0) (pending u)
  pub still : IsReceiving out.1
  pub others : out.1 ≡ record u {
    packet_data_buffer = out.1.packet_data_buffer;
    temp_packet_buffer = out.0.data_ptr;
  }

pub get_packet-TookPacket :
    (u : User)
    → IsReceiving u
    → packet_header_length ≤ length (pending u)
    → uint16_at (pending u) 0 ≤ length (pending u)
    → TookPacket u (get_packet u)
unfolding get_packet take_packet
get_packet-TookPacket u v h k = ground (
  arith,
  length-pending u,
  peek_header_lem u.packet_data_buffer packet_header_length 0 v,
  get_or-take packet_header_length 0 (pending u),
  get_or-take packet_header_length 1 (pending u),
  get_or-take packet_header_length 2 (pending u),
  get_or-take packet_header_length 3 (pending u),
  read_lem bound (uint16_at (pending u) 0) u.packet_data_buffer v,
  length-take (uint16_at (pending u) 0) (pending u),
)

-- A packet as a client sends it: at least a header, which gives the packet's own length.
pub record IsFrame (f : List ℕ) : Type 0 where
  pub whole : packet_header_length ≤ length f
  pub sized : uint16_at f 0 ≡ length f

get_or-append : (xs ys : List ℕ) (i : ℕ) → i < length xs → get_or (xs ++ ys) i 0 ≡ get_or xs i 0
get_or-append [] ys i h = absurd (omega arith)
get_or-append (x ∷ xs) ys zero h = refl
get_or-append (x ∷ xs) ys (suc i) h = get_or-append xs ys i (omega arith)

uint16_at-append :
    (xs ys : List ℕ) (i : ℕ) → i + 1 < length xs → uint16_at (xs ++ ys) i ≡ uint16_at xs i
uint16_at-append xs ys i h =
    ap₂ (λ a b. a + 256 * b) (get_or-append xs ys i (omega arith)) (get_or-append xs ys (i + 1) h)

-- When a whole packet is pending in a user's valid ring, whatever stands behind it, `GetPacket`
-- hands out that packet: its number, its length and its bytes; and the bytes behind it stay
-- pending, in a valid ring.
pub get_packet_frame :
    (u : User) (f rest : List ℕ)
    → IsReceiving u
    → IsFrame f
    → pending u ≡ f ++ rest
    → let (p, u') = get_packet u in
      (p.packet_id ≡ uint16_at f 2)
      × (p.data_size ≡ length f)
      × (take (length f) p.data_ptr ≡ f)
      × (pending u' ≡ rest)
      × IsReceiving u'
get_packet_frame u f rest v fr e = ground (
  arith,
  get_packet-TookPacket u v (omega (arith, ap length e, length-append f rest))
      (omega (arith, ap length e, length-append f rest, front)),
  front,
  ap (λ q. uint16_at q 2) e,
  uint16_at-append f rest 2 (omega arith),
  ap (λ q. take (length f) q) e,
  take-append f rest (length f) refl,
  take-append f (drop (length f) u.temp_packet_buffer) (length f) refl,
  ap (λ q. drop (length f) q) e,
  drop-append f rest (length f) refl,
)
  where
    front : uint16_at (pending u) 0 ≡ length f
    front = ap (λ q. uint16_at q 0) e ∙ uint16_at-append f rest 0 (omega arith) ∙ fr.sized

-- `SetPacketData` of fewer than 2 ^ 32 bytes puts behind the pending bytes as many of them as the
-- ring has room for, and drops the others; the ring stays valid.
pub set_packet_data_lem :
    (u : User) (bytes : List ℕ)
    → IsReceiving u
    → length bytes < 2 ^ 32
    → let u' = set_packet_data u (length bytes) (some bytes) in
      (pending u' ≡ pending u ++ take (max_packet_data_buffer_size - length (pending u)) bytes)
      × IsReceiving u'
unfolding set_packet_data
set_packet_data_lem u [] v h = (rw (take-nil, append-nil), v)
set_packet_data_lem u (x ∷ xs) v h = ground (
  arith,
  take_all (x ∷ xs) (length (x ∷ xs)),
  length-pending u,
  write_lem bound (x ∷ xs) u.packet_data_buffer (omega arith) v,
)

-- When a whole header is pending in a user's valid ring and says a length of 0, `GetPacket` hands
-- out a packet with that header's number, and leaves the user as it was: the same header is read
-- again by the next call.
pub get_packet_zero_length :
    (u : User)
    → IsReceiving u
    → packet_header_length ≤ length (pending u)
    → uint16_at (pending u) 0 ≡ 0
    → ((get_packet u).0.packet_id ≡ uint16_at (pending u) 2) × ((get_packet u).1 ≡ u)
unfolding get_packet take_packet
get_packet_zero_length u v h z = ground (
  arith,
  length-pending u,
  peek_header_lem u.packet_data_buffer packet_header_length 0 v,
  get_or-take packet_header_length 0 (pending u),
  get_or-take packet_header_length 1 (pending u),
  get_or-take packet_header_length 2 (pending u),
  get_or-take packet_header_length 3 (pending u),
  read_none bound u.packet_data_buffer,
)

-- When a header in a user's valid ring says more than the ring can hold, no further bytes help:
-- whatever arrives, fewer than 2 ^ 32 bytes at once, `GetPacket` then reports no packet and takes
-- nothing.
pub get_packet_oversized :
    (u : User) (bytes : List ℕ)
    → IsReceiving u
    → length bytes < 2 ^ 32
    → packet_header_length ≤ length (pending u)
    → max_packet_data_buffer_size < uint16_at (pending u) 0
    → let u' = set_packet_data u (length bytes) (some bytes) in get_packet u' ≡ (no_packet, u')
get_packet_oversized u bytes v h k big =
    get_packet_incomplete u' v' (inr (omega (arith, full, same)))
  where
    room : ℕ
    room = max_packet_data_buffer_size - length (pending u)

    u' : User
    u' = set_packet_data u (length bytes) (some bytes)

    v' : IsReceiving u'
    v' = (set_packet_data_lem u bytes v h).1

    same : uint16_at (pending u') 0 ≡ uint16_at (pending u) 0
    same =
        ap (λ q. uint16_at q 0) (set_packet_data_lem u bytes v h).0
        ∙ uint16_at-append (pending u) (take room bytes) 0 (omega arith)

    full : length (pending u') ≤ max_packet_data_buffer_size
    full = omega (arith, length-pending u', size-head v')
