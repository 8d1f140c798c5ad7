-- ===== src/User.antt =====
-- IOCPChatServer/User.h: one user of the pool, with the ring in which its packets are assembled.
-- `mIndex` is the bit pattern that `Init` sets; the locks of the ring are not modelled, since each
-- operation is one step here.
pub mod Framing
use iocp.Common.{
  ℕ, zero, suc, ◌+◌, ◌-◌, ◌^◌, Bool, true, false, Option, none, some, List, [], ◌∷◌, ◌++◌, not,
  ◌||◌, ◌>>=◌, leb, ltb, ◌==◌, if◌then◌else◌, inc_uint32, length, take, drop,
}
use iocp.Common.Int.{ℤ, pos, negsuc}
use iocp.RingBuffer
use iocp.RingBuffer.{RingBuffer}
use iocp.Packet.{PacketInfo, no_packet, packet_header_length, uint16_at}

pub data DomainState : Type 0 where
  no_domain login room : DomainState

-- `MAX_PACKET_DATA_BUFFER_SIZE`
abbrev pub max_packet_data_buffer_size : ℕ
max_packet_data_buffer_size = 8096

pub record User : Type 0 where
  pub index : ℕ
  pub user_id : List ℕ
  pub is_confirm : Bool
  pub room_index : ℤ
  pub generation : ℕ
  pub auth_token : List ℕ
  pub packet_data_buffer : RingBuffer
  pub cur_domain_state : DomainState
  pub temp_packet_buffer : List ℕ

-- A user made by `new`: the members' initialisers, with what the two arrays happen to hold.
unfoldable pub new_user : List ℕ → List ℕ → User
new_user ring_bytes temp_bytes = record {
  index = 2 ^ 32 - 1;
  user_id = [];
  is_confirm = false;
  room_index = negsuc 0;
  generation = 0;
  auth_token = [];
  packet_data_buffer = record { buffer = ring_bytes; head = 0; tail = 0; full = false };
  cur_domain_state = no_domain;
  temp_packet_buffer = temp_bytes;
}

unfoldable pub init : User → ℕ → User
init u index_ = record u {
  index = index_;
  packet_data_buffer = RingBuffer.clear u.packet_data_buffer;
}

-- Neither `roomIndex` nor `mGeneration` is reset.
unfoldable pub clear : User → User
clear u = record u {
  user_id = [];
  is_confirm = false;
  auth_token = [];
  cur_domain_state = no_domain;
  packet_data_buffer = RingBuffer.clear u.packet_data_buffer;
}

unfoldable pub set_login : User → List ℕ → User
set_login u user_id_ = record u { cur_domain_state = login; user_id = user_id_ }

unfoldable pub set_domain_state : User → DomainState → User
set_domain_state u value_ = record u { cur_domain_state = value_ }

unfoldable pub enter_room : User → ℤ → User
enter_room u room_index_ = record u { room_index = room_index_; cur_domain_state = room }

unfoldable pub increment_generation : User → User
increment_generation u = record u { generation = inc_uint32 u.generation }

-- What does not fit is dropped, and only logged.
unfoldable pub set_packet_data : User → ℕ → Option (List ℕ) → User
set_packet_data u data_size none = u
set_packet_data u data_size (some bytes) = if data_size == 0 then u else record u {
  packet_data_buffer =
      (RingBuffer.write max_packet_data_buffer_size u.packet_data_buffer
        (some (take data_size bytes))).1;
}

-- The loop that fills `headerBuffer`; `none` is `peekSuccess == false`.
unfoldable pub peek_header : RingBuffer → ℕ → ℕ → Option (List ℕ)
peek_header r i zero = some []
peek_header r i (suc left) = RingBuffer.peek max_packet_data_buffer_size r i >>= λ b.
    peek_header r (i + 1) left >>= λ bs. some (b ∷ bs)

-- `GetPacket` once the header is known. `Read` overwrites the front of `m_tempPacketBuffer`.
unfoldable pub take_packet : User → List ℕ → PacketInfo × User
take_packet u header =
    let packet_length = uint16_at header 0 in
    let (bytes, r) =
      RingBuffer.read max_packet_data_buffer_size u.packet_data_buffer packet_length in
    let temp = bytes ++ drop (length bytes) u.temp_packet_buffer in
    let u' = record u { packet_data_buffer = r; temp_packet_buffer = temp } in
    if ltb (RingBuffer.size max_packet_data_buffer_size u.packet_data_buffer) packet_length
    then (no_packet, u)
    else if not (length bytes == packet_length)
    then (no_packet, u')
    else (
      record {
        client_index = 0;
        packet_id = uint16_at header 2;
        data_size = packet_length;
        data_ptr = temp;
      },
      u',
    )

unfoldable pub get_packet : User → PacketInfo × User
get_packet u =
    if ltb (RingBuffer.size max_packet_data_buffer_size u.packet_data_buffer) packet_header_length
    then (no_packet, u)
    else elim (peek_header u.packet_data_buffer 0 packet_header_length) [
      | none ↦ (no_packet, u)
      | some header ↦ take_packet u header
    ]

unfoldable pub get_buffer_size : User → ℕ
get_buffer_size u = RingBuffer.size max_packet_data_buffer_size u.packet_data_buffer

unfoldable pub is_buffer_empty : User → Bool
is_buffer_empty u = RingBuffer.is_empty u.packet_data_buffer

unfoldable pub is_buffer_full : User → Bool
is_buffer_full u = RingBuffer.is_full u.packet_data_buffer
