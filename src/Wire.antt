-- ===== src/Wire.antt =====
-- common/wire.py: the types of messages, and what JSON carries.
pub mod Json
pub mod Frame
use crypto_project.Base.{ℕ, Option, none, some, Bool, ◌==◌, if◌then◌else◌}

pub data MsgType : Type 0 where
  register login_challenge_req login_response get_user_pubkey upload share get_doc list_docs
        get_salt change_password :
      MsgType
  ok_reply error_reply login_challenge doc user_pubkey doc_list : MsgType

-- `int(msg_type)`
unfoldable pub msg_code : MsgType → ℕ
msg_code register = 0x01
msg_code login_challenge_req = 0x02
msg_code login_response = 0x03
msg_code get_user_pubkey = 0x04
msg_code upload = 0x05
msg_code share = 0x06
msg_code get_doc = 0x07
msg_code list_docs = 0x08
msg_code get_salt = 0x09
msg_code change_password = 0x0A
msg_code ok_reply = 0x80
msg_code error_reply = 0x81
msg_code login_challenge = 0x82
msg_code doc = 0x83
msg_code user_pubkey = 0x84
msg_code doc_list = 0x85

-- `MsgType(n)`
unfoldable pub msg_type : ℕ → Option MsgType
msg_type n =
    if n == 0x01
    then some register
    else if n == 0x02
    then some login_challenge_req
    else if n == 0x03
    then some login_response
    else if n == 0x04
    then some get_user_pubkey
    else if n == 0x05
    then some upload
    else if n == 0x06
    then some share
    else if n == 0x07
    then some get_doc
    else if n == 0x08
    then some list_docs
    else if n == 0x09
    then some get_salt
    else if n == 0x0A
    then some change_password
    else if n == 0x80
    then some ok_reply
    else if n == 0x81
    then some error_reply
    else if n == 0x82
    then some login_challenge
    else if n == 0x83
    then some doc
    else if n == 0x84
    then some user_pubkey
    else if n == 0x85
    then some doc_list
    else none
