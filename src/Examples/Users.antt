-- ===== src/Examples/Users.antt =====
-- Applications of the theorems on how packets are cut out, and on the loop over them.
use iocp.Common.{
  ℕ, ◌%◌, ◌^◌, ◌<◌, ◌≤◌, ◌≡◌, ◌≢◌, ◌⊎◌, inl, inr, refl, false, some, List, [], ◌∷◌, ◌++◌, arith,
  length, length-append, length-replicate, take, replicate,
}
use iocp.Common.Int.{negsuc}
use iocp.RingBuffer.{size}
use iocp.RingBuffer.Contents.{contents}
use iocp.Packet.{no_packet, packet_header_length, uint16_at}
use iocp.User.{User, no_domain, max_packet_data_buffer_size, get_packet, set_packet_data}
use iocp.User.Framing.{pending, IsReceiving, IsFrame, get_packet_frame, get_packet_oversized}
use iocp.PacketManager.{PacketManager}
use iocp.PacketManager.Loop.{running, process_user}
use iocp.PacketManager.Loop.Endless.{IsUnknown, process_user_endless}
use iocp.Examples.Data.{server}

-- A user for whom six bytes have arrived.
abbrev pub holding : List ℕ → User
holding bytes = record {
  index = 0;
  user_id = [];
  is_confirm = false;
  room_index = negsuc 0;
  generation = 0;
  auth_token = [];
  packet_data_buffer = record {
    buffer = bytes ++ replicate 8090 0;
    head = 6;
    tail = 0;
    full = false;
  };
  cur_domain_state = no_domain;
  temp_packet_buffer = replicate 8096 0;
}

pub holding-IsReceiving : (bytes : List ℕ) → length bytes ≡ 6 → IsReceiving (holding bytes)
holding-IsReceiving bytes six = record {
  stored = omega (arith, length-append bytes (replicate 8090 0), length-replicate {A = ℕ} 8090 0);
  small = omega arith;
  head_in = omega arith;
  tail_in = omega arith;
  full_at = inl refl;
}

-- A packet of five bytes and the first byte of the next one.
abbrev pub frame : List ℕ
frame = 5 ∷ 0 ∷ 215 ∷ 0 ∷ 0 ∷ []

abbrev pub one_packet : List ℕ
one_packet = 5 ∷ 0 ∷ 215 ∷ 0 ∷ 0 ∷ 9 ∷ []

abbrev zero_header : List ℕ
zero_header = 0 ∷ 0 ∷ 99 ∷ 0 ∷ 0 ∷ 9 ∷ []

-- A header that says 8192 bytes.
abbrev big_header : List ℕ
big_header = 0 ∷ 32 ∷ 99 ∷ 0 ∷ 0 ∷ 9 ∷ []

-- A header that says 10 bytes.
abbrev pub partial_packet : List ℕ
partial_packet = 10 ∷ 0 ∷ 99 ∷ 0 ∷ 0 ∷ 9 ∷ []

pub one_pending : pending (holding one_packet) ≡ frame ++ 9 ∷ []
unfolding contents size
one_pending = refl

zero_pending : pending (holding zero_header) ≡ zero_header
unfolding contents size
zero_pending = refl

big_pending : pending (holding big_header) ≡ big_header
unfolding contents size
big_pending = refl

partial_pending : pending (holding partial_packet) ≡ partial_packet
unfolding contents size
partial_pending = refl

pub frame-IsFrame : IsFrame frame
frame-IsFrame = record { whole = omega arith; sized = refl }

get_packet_frame_example :
    ((get_packet (holding one_packet)).0.packet_id ≡ uint16_at frame 2)
    × ((get_packet (holding one_packet)).0.data_size ≡ length frame)
    × (take (length frame) (get_packet (holding one_packet)).0.data_ptr ≡ frame)
    × (pending (get_packet (holding one_packet)).1 ≡ 9 ∷ [])
    × IsReceiving (get_packet (holding one_packet)).1
get_packet_frame_example =
    get_packet_frame (holding one_packet) frame (9 ∷ []) (holding-IsReceiving one_packet refl)
      frame-IsFrame one_pending

pub too_few :
    (length (pending (holding partial_packet)) < packet_header_length)
    ⊎ (length (pending (holding partial_packet)) < uint16_at (pending (holding partial_packet)) 0)
too_few = rw partial_pending (inr (omega arith))

zero_whole : packet_header_length ≤ length (pending (holding zero_header))
zero_whole = rw zero_pending (omega arith)

zero_length : uint16_at (pending (holding zero_header)) 0 ≡ 0
zero_length = rw zero_pending

zero_id : uint16_at (pending (holding zero_header)) 2 ≢ 0
zero_id = rw zero_pending (λ e. omega arith)

zero-IsUnknown : IsUnknown (uint16_at (pending (holding zero_header)) 2 % 2 ^ 16)
zero-IsUnknown = rw zero_pending (
  (λ e. omega arith),
  (λ e. omega arith),
  (λ e. omega arith),
  (λ e. omega arith),
  (λ e. omega arith),
  (λ e. omega arith),
  (λ e. omega arith),
)

abbrev stuck : PacketManager
stuck = record server {
  user_manager = record server.user_manager { user_obj_pool = holding zero_header ∷ [] };
}

process_user_endless_example : process_user (λ m. 7) 1000 0 stuck ≡ running stuck
process_user_endless_example =
    process_user_endless (λ m. 7) 1000 stuck 0 (holding zero_header) refl
      (holding-IsReceiving zero_header refl) zero_whole zero_length zero_id zero-IsUnknown

big_whole : packet_header_length ≤ length (pending (holding big_header))
big_whole = rw big_pending (omega arith)

big_length : max_packet_data_buffer_size < uint16_at (pending (holding big_header)) 0
big_length = rw big_pending (omega arith)

get_packet_oversized_example :
    get_packet (set_packet_data (holding big_header) 2 (some (1 ∷ 2 ∷ [])))
    ≡ (no_packet, set_packet_data (holding big_header) 2 (some (1 ∷ 2 ∷ [])))
get_packet_oversized_example =
    get_packet_oversized (holding big_header) (1 ∷ 2 ∷ []) (holding-IsReceiving big_header refl)
      (omega arith) big_whole big_length
