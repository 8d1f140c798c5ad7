-- ===== src/Packet.antt =====
-- IOCPChatServer/Packet.h and IOCPChatServer/ErrorCode.h: packet numbers, result codes, the packed
-- layouts, and the C strings inside them. Bytes are numbers below 256.
pub mod PacketId
pub mod ErrorCode
pub mod Strings
pub mod Wire
use iocp.Common.{
  ℕ, zero, suc, ◌+◌, ◌*◌, ◌/◌, ◌%◌, ◌-◌, List, [], ◌∷◌, ◌++◌, length, get_or, take, drop, replicate,
}

-- `PacketInfo`. `pDataPtr` is given by the bytes from there to the end of its buffer.
pub record PacketInfo : Type 0 where
  pub client_index : ℕ
  pub packet_id : ℕ
  pub data_size : ℕ
  pub data_ptr : List ℕ

-- `PacketInfo()`: by its `PacketId` of 0 the callers see that there is no packet.
abbrev pub no_packet : PacketInfo
no_packet = record { client_index = 0; packet_id = 0; data_size = 0; data_ptr = [] }

-- `PACKET_HEADER`, packed: `PacketLength`, `PacketId`, `PacketType`.
abbrev pub packet_header_length : ℕ
packet_header_length = 5

abbrev pub max_user_id_length : ℕ
max_user_id_length = 32

abbrev pub max_user_pw_length : ℕ
max_user_pw_length = 32

abbrev pub max_chat_msg : ℕ
max_chat_msg = 256

-- `sizeof(LOGIN_REQUEST_PACKET)`
abbrev pub login_request_packet_size : ℕ
login_request_packet_size =
    packet_header_length + (max_user_id_length + 1) + (max_user_pw_length + 1)

-- A little-endian `UINT16` and `UINT32` at an offset.
abbrev pub uint16_at : List ℕ → ℕ → ℕ
uint16_at bytes i = get_or bytes i 0 + 256 * get_or bytes (i + 1) 0

abbrev pub uint32_at : List ℕ → ℕ → ℕ
uint32_at bytes i = uint16_at bytes i + 65536 * uint16_at bytes (i + 2)

abbrev pub bytes16 : ℕ → List ℕ
bytes16 n = n % 256 ∷ n / 256 % 256 ∷ []
