-- ===== src/Examples/Stored.antt =====
-- The server at the two requests of an upload of client/client.py: the document and then the share.
use crypto_project.Base.{[], ◌∷◌, replicate, pos, none, some, ok, ◌≡◌, ◌↔◌, refl, ◌===◌}
use crypto_project.Bytes.{be_bytes, from_bytes}
use crypto_project.Bytes.Laws.{be_bytes-IsBytes}
use crypto_project.Text.{Text, codes, encode, encode_char}
use crypto_project.Encodings.Base64.{b64encode, b64_char}
use crypto_project.Encodings.Hex.{fromhex, hex_value, is_space, put_byte}
use crypto_project.Crypto.Sha256.{sha256}
use crypto_project.Crypto.P256.{point_from_bytes, mod_inv, scalar_mul, point_add, is_on_curve}
use crypto_project.Crypto.Ecdsa.{verify, signature_from_bytes}
use crypto_project.Wire.Json.{Fields}
use crypto_project.Server.Session.{
  verify_request_signature, with_signature, check_and_consume_nonce, is_member, payload_upload,
  payload_share,
}
use crypto_project.Server.Tables.{find, any, remove_where}
use crypto_project.Server.Db.{
  UserRecord, is_user, is_document, is_share, get_user, get_document, create_document,
  create_or_replace_share, bind_nat, bind_int, bind_text,
}
use crypto_project.Server.Access.{authenticate, check_caller, take_nonce}
use crypto_project.Server.Service.{Server, uploaded, done}
use crypto_project.Server.Handlers.{upload, share, document_row, share_row}
use crypto_project.Server.Handlers.Accepted.{IsUploaded, upload_iff}
use crypto_project.Server.Handlers.Shared.{IsShared, share_iff}
use crypto_project.Client.Requests.{upload_payload, share_payload}
use crypto_project.Client.Requests.Accepted.{
  read_upload-upload_payload, read_share_request-share_payload,
}
use crypto_project.Examples.Blobs.{
  doc_blob, share_blob, upload_sig, share_request_sig, sig_pub, dh_pub, auth_pub, doc_id, document,
  own_share,
}
use crypto_project.Examples.Downloads.{id_hex, unpacked, unshared}
use crypto_project.Examples.Uploads.{hex_id}

abbrev alice : Text
alice = codes "alice"

abbrev alice_row : UserRecord
alice_row = record {
  username = alice;
  salt = replicate 16 4;
  argon2_t = pos 2;
  argon2_m = pos 131072;
  argon2_p = pos 1;
  auth_pub = auth_pub;
  sig_pub = sig_pub;
  dh_pub = dh_pub;
}

abbrev first_nonce : Text
first_nonce = b64encode (replicate 16 2)

abbrev second_nonce : Text
second_nonce = b64encode (replicate 16 3)

abbrev upload_fields : Fields
upload_fields = upload_payload alice doc_blob first_nonce upload_sig

abbrev share_fields : Fields
share_fields = share_payload alice alice id_hex share_blob second_nonce share_request_sig

abbrev server : Server
server = record {
  db = record { users = alice_row ∷ []; documents = []; shares = [] };
  session = record { used_nonces = []; challenges = []; ttl = 60 };
  server_secret = replicate 32 5;
}

abbrev after_upload : Server
after_upload = record server {
  db = record server.db { documents = document_row document doc_blob ∷ [] };
  session = record server.session { used_nonces = first_nonce ∷ [] };
}

abbrev after_share : Server
after_share = record after_upload {
  db = record after_upload.db { shares = share_row doc_id alice share_blob own_share ∷ [] };
  session = record after_upload.session { used_nonces = second_nonce ∷ first_nonce ∷ [] };
}

upload_signed :
    authenticate server.db alice
      (payload_upload alice first_nonce)
      upload_sig
      first_nonce
      server.session
    ≡ ok (none, after_upload.session)
unfolding authenticate get_user check_caller bind_text encode encode_char find is_user ◌===◌
    verify_request_signature with_signature verify be_bytes from_bytes sha256 point_from_bytes
    mod_inv scalar_mul point_add is_on_curve take_nonce check_and_consume_nonce is_member
    signature_from_bytes payload_upload b64encode b64_char
upload_signed = refl

share_signed :
    authenticate after_upload.db alice
      (payload_share alice id_hex alice second_nonce)
      share_request_sig
      second_nonce
      after_upload.session
    ≡ ok (none, after_share.session)
unfolding authenticate get_user check_caller bind_text encode encode_char find is_user ◌===◌
    verify_request_signature with_signature verify be_bytes from_bytes sha256 point_from_bytes
    mod_inv scalar_mul point_add is_on_curve take_nonce check_and_consume_nonce is_member
    signature_from_bytes payload_share b64encode b64_char
share_signed = refl

row_made : create_document (document_row document doc_blob) server.db ≡ ok after_upload.db
unfolding create_document document_row bind_nat bind_int bind_text encode encode_char any
row_made = refl

upload_accepted : upload upload_fields server ≡ (ok (uploaded id_hex), after_upload)
upload_accepted = (upload_iff upload_fields id_hex server after_upload).1 (record {
  request = _;
  session = _;
  parsed = document;
  db = _;
  is_read =
      read_upload-upload_payload alice doc_blob first_nonce upload_sig (be_bytes-IsBytes _ _)
        (be_bytes-IsBytes _ _);
  is_signed = upload_signed;
  is_document = unpacked;
  is_own = refl;
  is_new = row_made;
  is_id = rw hex_id refl;
  is_left = refl;
})

upload_iff_example :
    (upload upload_fields server ≡ (ok (uploaded id_hex), after_upload))
    ↔ IsUploaded upload_fields server id_hex after_upload
upload_iff_example = upload_iff upload_fields id_hex server after_upload

from_hex : fromhex id_hex ≡ ok doc_id
unfolding fromhex hex_value is_space put_byte be_bytes
from_hex = refl

recipient_found : get_user alice after_upload.db ≡ ok (some alice_row)
unfolding get_user bind_text encode encode_char find is_user ◌===◌
recipient_found = refl

row_found : get_document doc_id after_upload.db ≡ some (document_row document doc_blob)
unfolding get_document find is_document ◌===◌ document_row be_bytes
row_found = refl

share_put :
    create_or_replace_share (share_row doc_id alice share_blob own_share) after_upload.db
    ≡ ok after_share.db
unfolding create_or_replace_share share_row bind_nat bind_int bind_text encode encode_char
    remove_where is_share
share_put = refl

share_accepted : share share_fields after_upload ≡ (ok done, after_share)
share_accepted = (share_iff share_fields after_upload after_share).1 (record {
  request = _;
  session = _;
  id = doc_id;
  parsed = own_share;
  recipient = alice_row;
  row = _;
  db = _;
  is_read =
      read_share_request-share_payload alice alice id_hex share_blob second_nonce share_request_sig
        (be_bytes-IsBytes _ _) (be_bytes-IsBytes _ _);
  is_signed = share_signed;
  is_id = from_hex;
  is_long = refl;
  is_share = unshared;
  same_sender = refl;
  same_recipient = refl;
  same_id = refl;
  is_recipient = recipient_found;
  is_row = row_found;
  is_put = share_put;
  is_left = refl;
})

share_iff_example :
    (share share_fields after_upload ≡ (ok done, after_share))
    ↔ IsShared share_fields after_upload after_share
share_iff_example = share_iff share_fields after_upload after_share
