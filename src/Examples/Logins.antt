-- ===== src/Examples/Logins.antt =====
-- Applications of the theorems on logins, on the first state and on places used again.
use iocp.Common.{◌≡◌, ◌≢◌, refl, true, false, none, some, [], ◌∷◌, arith, get_elem?, drop}
use iocp.Common.Int.{pos, leb_ℤ}
use iocp.Packet.ErrorCode
use iocp.Packet.Strings.{c_str, starts_with}
use iocp.Packet.Wire.{login_response}
use iocp.User
use iocp.User.{User, login, room}
use iocp.UserManager
use iocp.UserManager.Dictionary.{find}
use iocp.PacketManager.{init, send_packet}
use iocp.PacketManager.Loop.{finished}
use iocp.PacketManager.Consistent.{IsConsistent}
use iocp.PacketManager.LoggingIn.{exchange_accepts, exchange_rejects}
use iocp.PacketManager.LoggingIn.Steps.{idle, exchange}
use iocp.Examples.Data.{
  server, server-IsConsistent, first_user, kim, pw, stored, clock, login_packet, known,
}

pub first_here : get_elem? server.user_manager.user_obj_pool 0 ≡ some first_user
unfolding init UserManager.init UserManager.make_users
first_here = refl

pub first_outside : first_user.cur_domain_state ≢ room
unfolding User.init User.new_user
first_outside = λ e. cc

read_name : c_str (drop 5 login_packet) ≡ some kim
unfolding c_str
read_name = refl

read_password : c_str (drop 38 login_packet) ≡ some pw
unfolding c_str
read_password = refl

ordinary_name :
    starts_with kim (b't' ∷ b'e' ∷ b's' ∷ b't' ∷ b'_' ∷ b'u' ∷ b's' ∷ b'e' ∷ b'r' ∷ []) ≡ false
unfolding starts_with
ordinary_name = refl

new_name : find server.user_manager.user_id_dictionary kim ≡ none
unfolding init UserManager.init find
new_name = refl

place_free : leb_ℤ server.user_manager.max_user_cnt server.user_manager.current_user_cnt ≡ false
unfolding init UserManager.init
place_free = refl

pub accepted :
    (exchange stored clock [] (idle true server) 0 login_packet ≡ some (finished (idle true known)))
    × IsConsistent 8 known
    × (find known.user_manager.user_id_dictionary kim ≡ some (pos 0))
accepted =
    exchange_accepts stored clock [] true server 0 login_packet kim pw read_name read_password
      (omega arith) (omega arith) ordinary_name new_name place_free first_user server-IsConsistent
      first_here first_outside refl

exchange_accepts_example :
    (exchange stored clock [] (idle true server) 0 login_packet ≡ some (finished (idle true known)))
    × IsConsistent 8 known
    × (find known.user_manager.user_id_dictionary kim ≡ some (pos 0))
exchange_accepts_example =
    exchange_accepts stored clock [] true server 0 login_packet kim pw read_name read_password
      (omega arith) (omega arith) ordinary_name new_name place_free first_user server-IsConsistent
      first_here first_outside refl

exchange_rejects_example :
    exchange (λ key. none) clock [] (idle true server) 0 login_packet
    ≡ some (
        finished
          (idle true (send_packet server 0 (login_response ErrorCode.login_user_invalid_pw))))
exchange_rejects_example =
    exchange_rejects (λ key. none) clock [] true server 0 login_packet kim pw read_name
      read_password (omega arith) (omega arith) ordinary_name new_name place_free (λ e. cc)
