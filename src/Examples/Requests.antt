-- ===== src/Examples/Requests.antt =====
-- The theorems on requests to the server at concrete inputs.
use crypto_project.Base.{
  ◌>>=◌, ℕ, ℤ, pos, List, [], ◌∷◌, replicate, none, some, Outcome, ok, raise, value_error, true,
  false, ◌≡◌, ◌↔◌, arith, refl, ◌===◌, inl,
}
use crypto_project.Bytes.{be_bytes}
use crypto_project.Text.{Text, codes, encode, encode_char}
use crypto_project.Encodings.Base64.{b64_char, b64encode, b64decode}
use crypto_project.Encodings.Hex.{hex_value, is_space, put_byte, fromhex}
use crypto_project.Crypto.Sha256.{sha256}
use crypto_project.Crypto.P256.{point_from_bytes, mod_inv, scalar_mul, point_add, is_on_curve}
use crypto_project.Crypto.Ecdsa.{Signature, verify, signature_from_bytes}
use crypto_project.Wire.{MsgType}
use crypto_project.Wire.Json.{str, Fields, end, field, get_item}
use crypto_project.Server.Session.{
  consume_challenge, pending_for, without, fresh, SessionState, check_and_consume_nonce, is_member,
  verify_request_signature, with_signature, payload_download,
}
use crypto_project.Server.Tables.{any, find}
use crypto_project.Server.Tables.Keys.{Distinct}
use crypto_project.Server.Db.{
  UserRecord, DocumentRecord, is_user, is_document, bind_text, get_user, get_document, get_share,
}
use crypto_project.Server.Db.Invariant.{IsWellFormed}
use crypto_project.Server.Access.{take_nonce, check_caller, authenticate}
use crypto_project.Server.Requests.{
  read_login, as_str, require_str, decode_or_fail, check_len, require_b64, GetDocRequest,
  read_get_doc,
}
use crypto_project.Server.Service.{Server, Problem, uploaded, done, document_reply}
use crypto_project.Server.Handlers.{Env, upload, get_doc, login, dispatch, as_reply, respond}
use crypto_project.Server.Handlers.Steps.{is_error}
use crypto_project.Server.Handlers.Accepted.{IsUploaded, upload_iff, IsFetched, get_doc_iff}
use crypto_project.Server.Handlers.Login.{IsLoggedIn, login_iff}
use crypto_project.Server.Handlers.Replay.{respond-replayed}
use crypto_project.Attacker.{replay, KeyDraws, handle}
use crypto_project.Attacker.Replayed.{served_by, handle-replayed}
use crypto_project.Server.Moves.Histories.{
  Request, after, after-IsWellFormed, after-get_document, after-get_user,
}

abbrev alice : Text
alice = codes "alice"

-- RFC 6979, appendix A.2.5.
abbrev sample_key : List ℕ
sample_key =
    4
    ∷ be_bytes 64
        0x60FED4BA255A9D31C961EB74C6356D68C049B8923B61FA6CE669622E60F29FB67903FE1008B8BC99A41AE9E95628BC64F2F1B20C2D7E9F5177A3C294D4462299

-- A signature of "download:alice:07:n" under that key.
abbrev download_signature : List ℕ
download_signature =
    be_bytes 64
      0xEFD48B2AACB6A8FD1140DD9CD45E81D69D2C877B56AAF991C34D0EA84EAF371604C105B0B0CB627E1CE94BEFA956AA8302B54D7BEF11C6749E5161C659EBDAA5

abbrev alice_row : UserRecord
alice_row = record {
  username = alice;
  salt = replicate 16 1;
  argon2_t = pos 2;
  argon2_m = pos 131072;
  argon2_p = pos 1;
  auth_pub = sample_key;
  sig_pub = sample_key;
  dh_pub = sample_key;
}

abbrev document : DocumentRecord
document = record {
  doc_id = 7 ∷ [];
  owner = alice;
  version = 1;
  created_ms = 1000;
  blob = 1 ∷ 2 ∷ [];
}

abbrev server : Server
server = record {
  db = record { users = alice_row ∷ []; documents = document ∷ []; shares = [] };
  session = record { used_nonces = []; challenges = []; ttl = 60 };
  server_secret = replicate 32 5;
}

abbrev session_after : SessionState
session_after = record { used_nonces = codes "n" ∷ []; challenges = []; ttl = 60 }

abbrev download : Fields
download = field (codes "user") (str alice) (
    field (codes "doc_id") (str (codes "07")) (
      field (codes "request_nonce") (str (codes "n"))
        (field (codes "request_signature") (str (b64encode download_signature)) end)))

abbrev download_request : GetDocRequest
download_request = record {
  user = alice;
  doc_id = codes "07";
  request_nonce = codes "n";
  request_signature = download_signature;
}

read : read_get_doc download ≡ ok download_request
unfolding read_get_doc require_str require_b64 as_str get_item decode_or_fail check_len b64encode
    b64decode ◌===◌ be_bytes b64_char
read = refl

through :
    authenticate server.db alice
      (payload_download alice (codes "07") (codes "n"))
      download_signature
      (codes "n")
      server.session
    ≡ ok (none, session_after)
unfolding authenticate get_user check_caller bind_text encode encode_char find is_user ◌===◌
    verify_request_signature with_signature verify be_bytes sha256 point_from_bytes mod_inv
    scalar_mul point_add is_on_curve take_nonce check_and_consume_nonce is_member
    signature_from_bytes payload_download
through = refl

no_int : Text → Outcome ℤ
no_int s = raise value_error

abbrev env : Env
env = record { random = replicate 32 8; now = 10 }

abbrev server_after : Server
server_after = record server { session = session_after }

found : get_document (7 ∷ []) server.db ≡ some document
unfolding get_document find is_document ◌===◌
found = refl

unshared : get_share (7 ∷ []) alice server.db ≡ ok none
unfolding get_share bind_text encode encode_char find
unshared = refl

id_read : fromhex (codes "07") ≡ ok (7 ∷ [])
unfolding fromhex hex_value is_space put_byte
id_read = refl

own : (alice === alice) ≡ true
unfolding ◌===◌
own = refl

fetched : IsFetched download server (b64encode (1 ∷ 2 ∷ [])) none server_after
fetched = record {
  request = download_request;
  session = session_after;
  id = 7 ∷ [];
  row = document;
  share = none;
  is_read = read;
  is_signed = through;
  is_id = id_read;
  is_row = found;
  is_share = unshared;
  is_allowed = inl own;
  is_document = refl;
  is_blob = refl;
  is_left = refl;
}

served : get_doc download server ≡ (ok (document_reply (b64encode (1 ∷ 2 ∷ [])) none), server_after)
served = (get_doc_iff download (b64encode (1 ∷ 2 ∷ [])) none server server_after).1 fetched

get_doc_iff_example :
    (get_doc download server ≡ (ok (document_reply (b64encode (1 ∷ 2 ∷ [])) none), server_after))
    ↔ IsFetched download server (b64encode (1 ∷ 2 ∷ [])) none server_after
get_doc_iff_example = get_doc_iff download (b64encode (1 ∷ 2 ∷ [])) none server server_after

passed : is_error (respond no_int env MsgType.get_doc download server).0 ≡ false
unfolding respond dispatch as_reply
passed = rw served refl

nonce_is : require_str download (codes "request_nonce") ≡ ok (codes "n")
unfolding require_str get_item as_str ◌===◌
nonce_is = refl

-- The listing of alice's documents, between the two downloads.
abbrev listing : Request
listing = record {
  env = env;
  msg_type = MsgType.list_docs;
  payload = field (codes "user") (str alice) end;
}

no_texts : Problem → Text
no_texts p = []

abbrev no_draws : KeyDraws
no_draws = record { sig_draws = []; dh_draws = [] }

-- The download passes through the proxy, and then a listing.
handle-replayed_example :
    (payload : Fields) × ((handle
        (served_by no_int no_texts [] env)
        no_draws
        (MsgType.list_docs, field (codes "user") (str alice) end)
        (handle
          (served_by no_int no_texts [] env)
          no_draws
          (MsgType.get_doc, download)
          (record { mode = replay; last_request = none }, server)).1).0
      ≡ ok (MsgType.error_reply, payload))
handle-replayed_example =
    handle-replayed no_int no_texts [] env env no_draws no_draws (MsgType.get_doc, download)
      (MsgType.list_docs, field (codes "user") (str alice) end) (codes "n") server refl nonce_is
      passed

respond-replayed_example :
    is_error
      (respond no_int env MsgType.get_doc download
        (after no_int (listing ∷ []) (respond no_int env MsgType.get_doc download server).1)).0
    ≡ true
respond-replayed_example =
    respond-replayed no_int env env MsgType.get_doc MsgType.get_doc download download (listing ∷ [])
      server (codes "n") refl refl nonce_is nonce_is passed

-- An upload and a share that lack most of their fields.
upload_iff_example :
    (upload download server ≡ (ok (uploaded (codes "07")), server))
    ↔ IsUploaded download server (codes "07") server
upload_iff_example = upload_iff download (codes "07") server server

abbrev login_request : Fields
login_request =
    field (codes "username") (str alice)
      (field (codes "challenge_signature") (str (b64encode download_signature)) end)

-- A challenge whose bytes are those that the signature above signs.
abbrev challenge : List ℕ
challenge = codes "download:alice:07:n"

abbrev challenged : Server
challenged = record server {
  session = record {
    used_nonces = [];
    challenges = record { user = alice; challenge = challenge; issued_at = 5 } ∷ [];
    ttl = 60;
  };
}

registered : get_user alice server.db ≡ ok (some alice_row)
unfolding get_user bind_text encode encode_char find is_user ◌===◌
registered = refl

login_read :
    read_login login_request
    ≡ ok (record { username = alice; challenge_signature = b64encode download_signature })
unfolding read_login require_str as_str get_item ◌===◌
login_read = refl

abbrev login_signature : Signature
login_signature = record {
  r = 0xEFD48B2AACB6A8FD1140DD9CD45E81D69D2C877B56AAF991C34D0EA84EAF3716;
  s = 0x04C105B0B0CB627E1CE94BEFA956AA8302B54D7BEF11C6749E5161C659EBDAA5;
}

signature_read :
    (b64decode (b64encode download_signature) >>= signature_from_bytes) ≡ ok login_signature
unfolding b64encode b64decode b64_char be_bytes signature_from_bytes
signature_read = refl

challenge_signed : verify sample_key challenge login_signature ≡ ok true
unfolding verify be_bytes sha256 point_from_bytes mod_inv scalar_mul point_add is_on_curve
challenge_signed = refl

consumed : consume_challenge alice 10 challenged.session ≡ (some challenge, server.session)
unfolding consume_challenge pending_for without fresh ◌===◌
consumed = refl

logged_in : IsLoggedIn env login_request challenged server
logged_in = record {
  request = record { username = alice; challenge_signature = b64encode download_signature };
  user = alice_row;
  challenge = challenge;
  session = server.session;
  sig = login_signature;
  is_read = login_read;
  is_user = registered;
  is_consumed = consumed;
  is_sig = signature_read;
  is_valid = challenge_signed;
  is_left = refl;
}

login_accepted : login env login_request challenged ≡ (ok done, server)
login_accepted = (login_iff env login_request challenged server).1 logged_in

login_iff_example :
    (login env login_request challenged ≡ (ok done, server))
    ↔ IsLoggedIn env login_request challenged server
login_iff_example = login_iff env login_request challenged server

abbrev requests : List Request
requests =
    listing ∷ record { env = env; msg_type = MsgType.get_doc; payload = download } ∷ listing ∷ []

distinct : IsWellFormed server.db
unfolding Distinct any
distinct = record {
  users_unique = (refl, tt);
  documents_unique = (refl, tt);
  shares_unique = tt;
  versions_start = (omega arith, tt);
}

after-IsWellFormed_example : IsWellFormed (after no_int requests server).db
after-IsWellFormed_example = after-IsWellFormed no_int requests server distinct

after-get_document_example : get_document (7 ∷ []) (after no_int requests server).db ≡ some document
after-get_document_example = after-get_document no_int requests (7 ∷ []) document server found

after-get_user_example :
    (v : UserRecord) × (get_user alice (after no_int requests server).db ≡ ok (some v))
    × (v.sig_pub ≡ sample_key)
    × (v.dh_pub ≡ sample_key)
after-get_user_example = after-get_user no_int requests alice alice_row server registered
