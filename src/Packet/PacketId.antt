-- ===== src/Packet/PacketId.antt =====
-- `enum class PACKET_ID` of IOCPChatServer/Packet.h, and the two members of `RedisTaskID`
-- (IOCPChatServer/RedisTaskDefine.h) that the code puts to use.
use iocp.Common.{ℕ}

abbrev pub sys_user_connect : ℕ
sys_user_connect = 11

abbrev pub sys_user_disconnect : ℕ
sys_user_disconnect = 12

abbrev pub sys_ping : ℕ
sys_ping = 21

abbrev pub sys_pong : ℕ
sys_pong = 22

abbrev pub sys_end : ℕ
sys_end = 30

abbrev pub login_request : ℕ
login_request = 201

abbrev pub login_response : ℕ
login_response = 202

abbrev pub room_enter_request : ℕ
room_enter_request = 206

abbrev pub room_enter_response : ℕ
room_enter_response = 207

abbrev pub room_leave_request : ℕ
room_leave_request = 215

abbrev pub room_leave_response : ℕ
room_leave_response = 216

abbrev pub room_chat_request : ℕ
room_chat_request = 221

abbrev pub room_chat_response : ℕ
room_chat_response = 222

abbrev pub room_chat_notify : ℕ
room_chat_notify = 223

abbrev pub redis_invalid : ℕ
redis_invalid = 0

abbrev pub redis_request_login : ℕ
redis_request_login = 1001

abbrev pub redis_response_login : ℕ
redis_response_login = 1002
