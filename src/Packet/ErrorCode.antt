-- ===== src/Packet/ErrorCode.antt =====
-- `enum class ERROR_CODE` of IOCPChatServer/ErrorCode.h: the members that the code puts to use.
use iocp.Common.{ℕ}

abbrev pub ok : ℕ
ok = 0

abbrev pub login_user_already : ℕ
login_user_already = 31

abbrev pub login_user_used_all_obj : ℕ
login_user_used_all_obj = 32

abbrev pub login_user_invalid_pw : ℕ
login_user_invalid_pw = 33

abbrev pub enter_room_invalid_user_status : ℕ
enter_room_invalid_user_status = 52

abbrev pub enter_room_full_user : ℕ
enter_room_full_user = 54

abbrev pub room_invalid_index : ℕ
room_invalid_index = 61

abbrev pub chat_room_invalid_room_number : ℕ
chat_room_invalid_room_number = 81
