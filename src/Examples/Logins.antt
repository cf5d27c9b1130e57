-- ===== src/Examples/Logins.antt =====
-- The theorems on login, logout and change_password of client/client.py at concrete inputs.
use crypto_project.Base.{
  ℕ, ◌^◌, ◌<◌, List, [], ◌∷◌, ◌++◌, length, replicate, Option, some, none, Outcome, ok, raise, Exc,
  false, ◌≡◌, refl, ◌∙◌, arith, ap, pos,
}
use crypto_project.Base as Base
use crypto_project.Bytes.{to_bytes, be_bytes, from_bytes}
use crypto_project.Actions.{gets, lift, pure, lift_ok, bind_ok, gets_ok}
use crypto_project.Actions as Actions
use crypto_project.Text.{codes, encode, encode_char}
use crypto_project.Encodings.Base64.{b64encode, b64decode, b64_char}
use crypto_project.Crypto.Sha256.{sha256}
use crypto_project.Crypto.Hmac.{hmac_sha256, derive_both}
use crypto_project.Crypto.P256.{
  mod_inv, scalar_mul, scalar_mul_g, point_to_bytes, is_valid_private_key,
}
use crypto_project.Crypto.Ecdsa.{signature_to_bytes}
use crypto_project.Crypto.Ecdsa.Sign.{
  bits2octets, feed, start, fill, candidate, generator_loop, generate_k, sign_with, attempt_k,
  attempt, after_attempt, sign_loop, sign,
}
use crypto_project.Wire.{MsgType, msg_code}
use crypto_project.Wire.Json.{int, obj, end, field, get_item, subscript, Message}
use crypto_project.Server.Service.{done, challenge_reply, salt_reply}
use crypto_project.Server.Replies.{message_of, params_json}
use crypto_project.Client.Disk.{put}
use crypto_project.Client.Keystore.{load_keys}
use crypto_project.Client.Paths.{
  keystore_path, join, starts_with_slash, ends_with_slash, is_empty, trust_path,
}
use crypto_project.Client.TrustStore.{
  TrustStore, open_store, load_file, load_json, load_fields, put_entry, read_entry,
}
use crypto_project.Client.Requests.{derive_auth_scalar, login_payload}
use crypto_project.Client.Session.{
  Runtime, no_session, World, rpc, received, expect, bytes_at, decode_b64, sign_bytes,
}
use crypto_project.Client.Account.{
  derive_master, asserted, public_bytes, open_session, PasswordDraws, username_payload,
  answer_challenge, load_identity, loaded_keys, login, change_password, logout,
}
use crypto_project.Client.Account.BrokenOff.{login-left_open, open_session-opens}
use crypto_project.Client.Account.Sessions.{IsLoggedIn, login-IsLoggedIn}
use crypto_project.Client.Contacts.{mark_contact_verified}
use crypto_project.Client.Documents.{upload, share, download}
use crypto_project.Client.Documents.LoggedOut.{logout-refuses}
use crypto_project.Examples.Blobs.{sig_pub, dh_pub, kek, login_sig}
use crypto_project.Examples.Sealing.{runtime, draws}
use crypto_project.Examples.Downloads.{alice, no_texts}
use crypto_project.Examples.Account.{path, written, registered}

-- A server that sends a challenge and confirms the answer to it.
answer : List Message → Outcome Message
answer (first ∷ []) = ok (
    message_of no_texts [] (
      challenge_reply (b64encode (replicate 16 4)) (pos 2, pos 131072, pos 1)
        (b64encode (replicate 32 8))))
answer other = ok (message_of no_texts [] done)

abbrev challenging : Runtime
challenging = record runtime { peer = answer }

login_signed :
    sign_bytes challenging (derive_auth_scalar (derive_both (replicate 32 9)).0) (replicate 32 8)
    ≡ ok login_sig
unfolding sign_bytes derive_both derive_auth_scalar sign sign_loop attempt attempt_k sign_with
    after_attempt generate_k generator_loop start feed fill candidate bits2octets to_bytes
    from_bytes be_bytes hmac_sha256 sha256 mod_inv scalar_mul is_valid_private_key
    signature_to_bytes
login_signed = refl

kek_derived : (derive_both (replicate 32 9)).1 ≡ kek
unfolding derive_both hmac_sha256 sha256 be_bytes
kek_derived = refl

abbrev outside : World
outside = record registered {
  disk = put (trust_path (codes "d") (codes "alice")) [] registered.disk;
  sent = [];
}

answered : answer_challenge challenging (codes "alice") (codes "pw") outside ≡ (
  ok (derive_both (replicate 32 9)).1,
  record outside {
    sent =
        (MsgType.login_challenge_req, username_payload (codes "alice"))
        ∷ (MsgType.login_response, login_payload (codes "alice") login_sig)
        ∷ [];
  },
)
unfolding answer_challenge answer rpc received expect lift pure Actions.◌>>=◌ message_of msg_code
    params_json bytes_at decode_b64 get_item subscript b64encode b64_char b64decode derive_master
    encode encode_char Base.◌===◌
answered = rw login_signed refl

abbrev contacts : TrustStore
contacts = record { path = trust_path (codes "d") (codes "alice"); entries = [] }

sig_public : public_bytes 5 ≡ ok sig_pub
unfolding public_bytes asserted scalar_mul_g scalar_mul mod_inv point_to_bytes be_bytes
sig_public = refl

dh_public : public_bytes 7 ≡ ok dh_pub
unfolding public_bytes asserted scalar_mul_g scalar_mul mod_inv point_to_bytes be_bytes
dh_public = refl

-- The world after the login.
abbrev logged : World
logged = record outside {
  client = record {
    username = some (codes "alice");
    sig_priv = some 5;
    sig_pub_bytes = some sig_pub;
    dh_priv = some 7;
    dh_pub_bytes = some dh_pub;
    trust = some contacts;
  };
  sent =
      (MsgType.login_challenge_req, username_payload (codes "alice"))
      ∷ (MsgType.login_response, login_payload (codes "alice") login_sig)
      ∷ [];
}

-- The store of contacts is another file.
same_keystore : load_keys path kek outside.disk ≡ load_keys path kek written.0
unfolding load_keys put keystore_path trust_path join starts_with_slash ends_with_slash is_empty
    Base.◌===◌
same_keystore = refl

identified :
    load_identity challenging
      (codes "alice")
      (derive_both (replicate 32 9)).1
      (record outside { sent = logged.sent })
    ≡ ok (5, 7)
unfolding load_identity loaded_keys
identified = rw kek_derived (rw (same_keystore ∙ written.2) refl)

-- No contacts, whether there is a file or not.
no_contacts : (o : Option (List ℕ)) → load_file challenging.read_json challenging.str_of o ≡ ok []
unfolding load_file load_json load_fields
no_contacts none = refl
no_contacts (some contents) = refl

read_contacts :
    open_store challenging.read_json challenging.str_of
      (trust_path (codes "d") (codes "alice"))
      outside.disk
    ≡ ok contacts
unfolding open_store
read_contacts = rw (no_contacts (outside.disk (trust_path (codes "d") (codes "alice")))) refl

opened_up :
    open_session challenging (codes "alice") 5 7 (record outside { sent = logged.sent })
    ≡ (ok tt, logged)
opened_up =
    open_session-opens challenging (codes "alice") 5 7 sig_pub dh_pub
      (record outside { sent = logged.sent }) contacts sig_public dh_public read_contacts

logged_in : login challenging (codes "alice") (codes "pw") outside ≡ (ok tt, logged)
unfolding login
logged_in =
    bind_ok (answer_challenge challenging (codes "alice") (codes "pw")) _ outside
      (record outside { sent = logged.sent }) (derive_both (replicate 32 9)).1 answered
    ∙ gets_ok (load_identity challenging (codes "alice") (derive_both (replicate 32 9)).1) _
        (record outside { sent = logged.sent }) (5, 7) identified
    ∙ opened_up

login-IsLoggedIn_example : IsLoggedIn challenging (codes "alice") outside logged
login-IsLoggedIn_example =
    login-IsLoggedIn challenging (codes "alice") (codes "pw") outside logged tt logged_in

-- A file of contacts in which an entry is a number.
abbrev spoiled : Runtime
spoiled = record runtime { read_json = λ bytes. ok (obj (field (codes "bob") (int (pos 1)) end)) }

spoils :
    open_store spoiled.read_json spoiled.str_of
      (trust_path (codes "d") (codes "alice"))
      outside.disk
    ≡ raise Exc.type_error
unfolding open_store load_file load_json load_fields put_entry read_entry subscript put trust_path
    join starts_with_slash is_empty ends_with_slash Base.◌===◌
spoils = refl

login-left_open_example :
    login
      (record challenging { read_json = spoiled.read_json })
      (codes "alice")
      (codes "pw")
      outside
    ≡ (
      raise Exc.type_error,
      record logged { client = record logged.client { trust = outside.client.trust } },
    )
login-left_open_example =
    login-left_open challenging spoiled.read_json (codes "alice") (codes "pw") outside logged tt
      Exc.type_error logged_in spoils

abbrev changing : PasswordDraws
changing = record {
  new_salt = replicate 16 4;
  nonce = replicate 16 2;
  keystore_nonce = replicate 12 6;
}

-- A server that gives the salt of the signup and takes the change.
abbrev giving_salt : Runtime
giving_salt = record runtime {
  peer = λ sent.
      ok (
        message_of no_texts []
          (salt_reply (b64encode (replicate 16 4)) (pos 2, pos 131072, pos 1)));
}

logout-refuses_example :
    ((logout alice).1 ≡ record alice { client = no_session })
    × (upload runtime draws (codes "f") (logout alice).1
        ≡ (raise Exc.client_error, (logout alice).1))
    × (share runtime [] draws.self_share (codes "f") (codes "g") (logout alice).1
        ≡ (raise Exc.client_error, (logout alice).1))
    × (download runtime [] (codes "f") (codes "g") (logout alice).1
        ≡ (raise Exc.client_error, (logout alice).1))
    × (change_password runtime changing (codes "f") (codes "g") (logout alice).1
        ≡ (raise Exc.client_error, (logout alice).1))
    × (mark_contact_verified runtime (codes "f") (logout alice).1
        ≡ (raise Exc.client_error, (logout alice).1))
logout-refuses_example =
    logout-refuses runtime alice draws draws.self_share changing [] (codes "f") (codes "g")
