-- ===== src/Examples/Uploads.antt =====
-- An upload of client/client.py at a concrete input.
use crypto_project.Base.{ℕ, List, [], ◌∷◌, ◌++◌, replicate, some, none, Outcome, ok, ◌≡◌, refl}
use crypto_project.Base as Base
use crypto_project.Bytes.{to_bytes, be_bytes}
use crypto_project.Actions.{gets, lift, pure}
use crypto_project.Actions as Actions
use crypto_project.Text.{Text, codes, encode, encode_char}
use crypto_project.Encodings.Base64.{b64encode, b64_char}
use crypto_project.Encodings.Hex.{hex, hex_char}
use crypto_project.Crypto.Sha256.{sha256}
use crypto_project.Crypto.Hmac.{hmac_sha256}
use crypto_project.Crypto.P256.{mod_inv, scalar_mul, is_valid_private_key}
use crypto_project.Crypto.Ecdsa.{signature_to_bytes}
use crypto_project.Crypto.Ecdsa.Sign.{
  bits2octets, feed, start, fill, candidate, generator_loop, generate_k, sign_with, attempt_k,
  attempt, after_attempt, sign_loop, sign,
}
use crypto_project.Wire.{msg_code}
use crypto_project.Wire.Json.{str, get_item}
use crypto_project.Server.Service.{uploaded}
use crypto_project.Server.Replies.{message_of}
use crypto_project.Client.Paths.{basename, after_slash}
use crypto_project.Client.Session.{
  Runtime, World, rpc, received, expect, contents_of, read_file, require_login, logged_in, named,
  present, signer, sign_bytes, sign_text,
}
use crypto_project.Client.Sealing.{seal_document, make_share, sign_share}
use crypto_project.Client.Documents.{
  upload_canonical, share_canonical, send_share, uploader, store_self_share, upload,
}
use crypto_project.Client.Documents.Uploaded.{
  upload_request, share_request, after_sending, upload-sends,
}
use crypto_project.Examples.Blobs.{
  doc_blob, ciphertext, share_blob, upload_sig, share_request_sig, dh_pub, doc_id, file_key,
}
use crypto_project.Examples.Sealing.{runtime, draws, me, sealed, made, hashed}
use crypto_project.Examples.Downloads.{alice, no_texts, id_hex}

abbrev storing : Runtime
storing = record runtime { peer = λ sent. ok (message_of no_texts [] (uploaded id_hex)) }

abbrev with_file : World
with_file = record alice { disk = λ q. some (codes "hi") }

sealed_too : seal_document storing draws me (codes "f") (codes "hi") ≡ ok (doc_blob, ciphertext)
unfolding seal_document sign_bytes
sealed_too = sealed

made_too :
    make_share storing draws.self_share me
      (codes "alice")
      dh_pub
      doc_id
      1
      (sha256 ciphertext)
      file_key
    ≡ ok share_blob
unfolding make_share sign_share sign_bytes
made_too = rw hashed made

pub hex_id : hex doc_id ≡ id_hex
unfolding hex hex_char
hex_id = refl

request_signed :
    sign_text storing 5 (upload_canonical (codes "alice") (b64encode (replicate 16 2)))
    ≡ ok upload_sig
unfolding sign_text upload_canonical b64encode b64_char encode encode_char sign_bytes sign sign_loop
    attempt attempt_k sign_with after_attempt generate_k generator_loop start feed fill candidate
    bits2octets to_bytes be_bytes hmac_sha256 sha256 mod_inv scalar_mul is_valid_private_key
    signature_to_bytes
request_signed = refl

share_signed :
    sign_text storing 5
      (share_canonical (codes "alice") id_hex (codes "alice") (b64encode (replicate 16 3)))
    ≡ ok share_request_sig
unfolding sign_text share_canonical b64encode b64_char encode encode_char sign_bytes sign sign_loop
    attempt attempt_k sign_with after_attempt generate_k generator_loop start feed fill candidate
    bits2octets to_bytes be_bytes hmac_sha256 sha256 mod_inv scalar_mul is_valid_private_key
    signature_to_bytes
share_signed = refl

based : basename (codes "f") ≡ codes "f"
unfolding basename after_slash
based = refl

abbrev uploaded_world : World
uploaded_world =
    after_sending
      (after_sending with_file (upload_request (codes "alice") draws doc_blob upload_sig))
      (share_request (codes "alice") (codes "alice") draws.self_share id_hex share_blob
        share_request_sig)

runs : upload storing draws (codes "f") with_file ≡ (ok (str id_hex), uploaded_world)
unfolding upload store_self_share send_share gets lift pure Actions.◌>>=◌ require_login logged_in
    uploader signer named present read_file contents_of rpc received expect message_of msg_code
    get_item Base.◌===◌
runs =
    rw (based)
      (rw (sealed_too) (rw (request_signed) (rw (made_too) (rw (hex_id) (rw (share_signed) refl)))))

upload-sends_example :
    (who : (Text × ℕ) × List ℕ) × (content blob ct req_sig share_blob share_req_sig : List ℕ)
    × (uploader with_file ≡ ok who)
    × (with_file.disk (codes "f") ≡ some content)
    × (seal_document storing draws who.0 (basename (codes "f")) content ≡ ok (blob, ct))
    × (make_share storing draws.self_share who.0 who.0.0 who.1 doc_id 1 (sha256 ct) file_key
        ≡ ok share_blob)
    × (uploaded_world
        ≡ after_sending
            (after_sending with_file (upload_request who.0.0 draws blob req_sig))
            (share_request who.0.0 who.0.0 draws.self_share (hex doc_id) share_blob share_req_sig))
upload-sends_example =
    upload-sends storing draws (codes "f") with_file uploaded_world (str id_hex) runs
