-- ===== src/Examples/Server.antt =====
-- The theorems on the server at concrete inputs.
use crypto_project.Base.{
  ℕ, List, [], ◌∷◌, replicate, none, some, ok, true, pos, ◌≡◌, ◌↔◌, refl, ◌===◌,
}
use crypto_project.Bytes.{be_bytes}
use crypto_project.Text.{Text, encode, encode_char}
use crypto_project.Crypto.Sha256.{sha256}
use crypto_project.Crypto.P256.{point_from_bytes, mod_inv, scalar_mul, point_add, is_on_curve}
use crypto_project.Crypto.Ecdsa.{verify, signature_from_bytes}
use crypto_project.Server.Session.{
  SessionState, new_session, consume_challenge, issue_challenge, check_and_consume_nonce, is_member,
  verify_request_signature, with_signature,
}
use crypto_project.Server.Session.Replay.{use_nonce, run, NeverIssued, challenge-consumed_once}
use crypto_project.Server.Tables.{any, find, update_where}
use crypto_project.Server.Db.{
  UserRecord, DocumentRecord, ServerDb, empty_db, is_user, is_document, bind_nat, bind_int,
  bind_text, create_user, get_user, check_next, update_document,
}
use crypto_project.Server.Access.{
  user_not_found, take_nonce, check_caller, authenticate, authenticate_iff,
}

abbrev alice : Text
alice = b'a' ∷ b'l' ∷ []

abbrev bob : Text
bob = b'b' ∷ []

abbrev nonce : Text
nonce = b'n' ∷ []

abbrev fresh_session : SessionState
fresh_session = new_session 60

accepted : (check_and_consume_nonce nonce fresh_session).0 ≡ true
unfolding check_and_consume_nonce new_session is_member ◌===◌
accepted = refl

challenge-consumed_once_example :
    (consume_challenge alice 9 (
      run
        (use_nonce bob ∷ [])
        (consume_challenge alice 8 (issue_challenge alice (1 ∷ 2 ∷ []) 5 fresh_session).1).1)).0
    ≡ none
unfolding NeverIssued
challenge-consumed_once_example =
    challenge-consumed_once alice 8 9 (use_nonce bob ∷ [])
      (issue_challenge alice (1 ∷ 2 ∷ []) 5 fresh_session).1 tt

-- RFC 6979, appendix A.2.5: the key and the signature of the message "sample".
abbrev sample_key : List ℕ
sample_key =
    4
    ∷ be_bytes 64
        0x60FED4BA255A9D31C961EB74C6356D68C049B8923B61FA6CE669622E60F29FB67903FE1008B8BC99A41AE9E95628BC64F2F1B20C2D7E9F5177A3C294D4462299

abbrev sample_signature : List ℕ
sample_signature =
    be_bytes 64
      0xEFD48B2AACB6A8FD1140DD9CD45E81D69D2C877B56AAF991C34D0EA84EAF3716F7CB1C942D657C41D436C7A1B6E29F65F3E900DBB9AFF4064DC4AB2F843ACDA8

abbrev sample_message : Text
sample_message = b's' ∷ b'a' ∷ b'm' ∷ b'p' ∷ b'l' ∷ b'e' ∷ []

abbrev alice_row : UserRecord
alice_row = record {
  username = alice;
  salt = replicate 16 1;
  argon2_t = pos 2;
  argon2_m = pos 131072;
  argon2_p = pos 1;
  auth_pub = sample_key;
  sig_pub = sample_key;
  dh_pub = sample_key;
}

abbrev first_document : DocumentRecord
first_document = record {
  doc_id = 7 ∷ [];
  owner = alice;
  version = 1;
  created_ms = 1000;
  blob = 1 ∷ [];
}

abbrev second_document : DocumentRecord
second_document = record {
  doc_id = 7 ∷ [];
  owner = bob;
  version = 2;
  created_ms = 2000;
  blob = 2 ∷ [];
}

abbrev db1 : ServerDb
db1 = record { users = alice_row ∷ []; documents = []; shares = [] }

abbrev db2 : ServerDb
db2 = record { users = []; documents = first_document ∷ []; shares = [] }

abbrev db3 : ServerDb
db3 = record {
  users = [];
  documents =
      record { doc_id = 7 ∷ []; owner = alice; version = 2; created_ms = 2000; blob = 2 ∷ [] } ∷ [];
  shares = [];
}

created : create_user alice_row empty_db ≡ ok db1
unfolding create_user empty_db bind_int bind_nat bind_text encode encode_char any
created = refl

replaced : update_document second_document db2 ≡ ok db3
unfolding update_document check_next find is_document bind_nat update_where ◌===◌
replaced = refl

abbrev after_nonce : SessionState
after_nonce = record { used_nonces = nonce ∷ []; challenges = []; ttl = 60 }

let_through :
    authenticate db1 alice sample_message sample_signature nonce fresh_session
    ≡ ok (none, after_nonce)
unfolding authenticate get_user check_caller bind_text encode encode_char find is_user ◌===◌
    verify_request_signature with_signature verify be_bytes sha256 point_from_bytes mod_inv
    scalar_mul point_add is_on_curve take_nonce check_and_consume_nonce new_session is_member
    signature_from_bytes
let_through = refl

authenticate_iff_example :
    (authenticate db1 alice sample_message sample_signature nonce fresh_session
      ≡ ok (none, after_nonce))
    ↔ ((caller : UserRecord) × (get_user alice db1 ≡ ok (some caller))
        × (verify_request_signature caller.sig_pub sample_message sample_signature ≡ ok true)
        × (check_and_consume_nonce nonce fresh_session ≡ (true, after_nonce)))
authenticate_iff_example =
    authenticate_iff db1 alice sample_message sample_signature nonce fresh_session after_nonce

refused :
    authenticate db1 bob sample_message sample_signature nonce fresh_session
    ≡ ok (some user_not_found, fresh_session)
unfolding authenticate get_user check_caller bind_text encode encode_char find is_user ◌===◌
refused = refl
