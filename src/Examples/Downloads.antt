-- ===== src/Examples/Downloads.antt =====
-- Downloads of client/client.py at concrete inputs: of alice's own document, from a server that has it.
use crypto_project.Base.{
  ℕ, List, [], ◌∷◌, replicate, none, some, ok, raise, Exc, ◌≡◌, refl, sym, ap, ◌∙◌, ok-injective,
}
use crypto_project.Bytes.{to_bytes, be_bytes, from_bytes}
use crypto_project.Text.{Text, codes, encode, encode_char}
use crypto_project.Crypto.Sha256.{sha256}
use crypto_project.Crypto.Hmac.{hmac_sha256}
use crypto_project.Crypto.P256.{mod_inv, scalar_mul, is_valid_private_key}
use crypto_project.Crypto.Ecdsa.{signature_to_bytes}
use crypto_project.Crypto.Ecdsa.Sign.{
  bits2octets, feed, start, fill, candidate, generator_loop, generate_k, sign_with, attempt_k,
  attempt, after_attempt, sign_loop, sign,
}
use crypto_project.Crypto.P256.{point_from_bytes, is_on_curve}
use crypto_project.Formats.Reader.{pack_str, pack_u16, pack_u32, pack_u64, pack_uint}
use crypto_project.Formats.Document.{
  pack_document_header, pack_document, ParsedDocument, unpack_document,
}
use crypto_project.Formats.Payload.{pack_payload}
use crypto_project.Client.Opening.{open_document}
use crypto_project.Bytes.Laws.{be_bytes-IsBytes}
use crypto_project.Encodings.Base64.{b64encode, b64_char}
use crypto_project.Formats.Share.{Share, unpack_share}
use crypto_project.Server.Service.{Problem, document_reply}
use crypto_project.Server.Replies.{message_of}
use crypto_project.Client.Requests.{download_payload}
use crypto_project.Client.Opening.{unwrap_with}
use crypto_project.Client.Contacts.{own_pubkey}
use crypto_project.Client.Session.{World, named, present, signer, holder, sign_text}
use crypto_project.Client.Documents.{download_canonical, fetch_doc, download}
use crypto_project.Client.Documents.Honest.{fetch_doc-served, download-own}
use crypto_project.Crypto.Gcm.RoundTrip.{decrypt-encrypt}
use crypto_project.Crypto.Ecdsa.{verify, signature_from_bytes}
use crypto_project.Crypto.P256.{point_add}
use crypto_project.Formats.Document.RoundTrip.{unpack_document-pack_document}
use crypto_project.Formats.Payload.{ParsedPayload}
use crypto_project.Formats.Payload.RoundTrip.{unpack_payload-pack_payload}
use crypto_project.Formats.Share.RoundTrip.{unpack_share-pack_share}
use crypto_project.Client.Disk.{Disk, write_ops, write_file, perform, after_op, reliable}
use mathlib.Core.Path.{subst}
use crypto_project.Client.Sealing.{make_share}
use crypto_project.Client.Documents.RoundTrip.{download-seal_document}
use crypto_project.Client.Opening.{opened, check_share_sig, check_content_sig}
use crypto_project.Client.Opening.Checked.{IsDelivered}
use crypto_project.Client.Documents.Verified.{Verified, download-Verified}
use crypto_project.Wire.{MsgType}
use crypto_project.Client.Session.{Runtime, sign_bytes}
use crypto_project.Examples.Blobs.{
  doc_id, content_sig, payload_bytes, aad, ciphertext, tag, file_key, zeros, doc_blob, sig_pub,
  dh_pub, wrap_key, wrapped_fk, wrapped_tag, share_blob, request_sig, document, payload, own_share,
}
use crypto_project.Actions.{gets, lift}
use crypto_project.Actions as Actions
use crypto_project.Client.Session.{require_login, logged_in, rpc, received, is_network_error}
use crypto_project.Client.Contacts.Grows.{Grows}
use crypto_project.Client.Documents.Failed.{download-Grows}
use crypto_project.Examples.Sealing.{
  runtime, me, encrypted, wrapped, labelled, key_eph, packed_body, packed_share, hashed, sealed,
  made, agreed, content_signed, draws,
}

pub no_texts : Problem → Text
no_texts p = []

-- A server that has the document and the share.
abbrev pub serving : Runtime
serving = record runtime {
  peer = λ sent.
      ok (
        message_of no_texts [] (document_reply (b64encode doc_blob) (some (b64encode share_blob))));
}

abbrev pub alice : World
alice = record {
  disk = λ q. none;
  client = record {
    username = some (codes "alice");
    sig_priv = some 5;
    sig_pub_bytes = some sig_pub;
    dh_priv = some 7;
    dh_pub_bytes = some dh_pub;
    trust = some (record { path = codes "d/alice_trust.json"; entries = [] });
  };
  sent = [];
}

abbrev pub id_hex : Text
id_hex = codes "07070707070707070707070707070707"

alice_signs : signer alice ≡ ok me
unfolding signer named present
alice_signs = refl

alice_holds : holder alice ≡ ok (codes "alice", 7)
unfolding holder named present
alice_holds = refl

alice_owns : own_pubkey alice ≡ ok (sig_pub, dh_pub)
unfolding own_pubkey present
alice_owns = refl

request_signed :
    sign_text serving 5 (download_canonical (codes "alice") id_hex (b64encode (replicate 16 2)))
    ≡ ok request_sig
unfolding sign_text download_canonical b64encode b64_char encode encode_char sign_bytes sign
    sign_loop attempt attempt_k sign_with after_attempt generate_k generator_loop start feed fill
    candidate bits2octets to_bytes be_bytes hmac_sha256 sha256 mod_inv scalar_mul
    is_valid_private_key signature_to_bytes
request_signed = refl

fetched : fetch_doc serving (replicate 16 2) id_hex alice ≡ (
  ok (doc_blob, share_blob),
  record alice {
    sent =
        (
          MsgType.get_doc,
          download_payload (codes "alice") id_hex (b64encode (replicate 16 2)) request_sig,
        )
        ∷ [];
  },
)
fetched =
    fetch_doc-served serving (replicate 16 2) id_hex alice me request_sig doc_blob share_blob
      no_texts [] alice_signs request_signed refl (be_bytes-IsBytes _ _) (be_bytes-IsBytes _ _)

header_packed : pack_document_header document.header ≡ ok aad
unfolding pack_document_header pack_str pack_u16 pack_u32 pack_u64 pack_uint encode encode_char
    be_bytes
header_packed = refl

pub document_packed : pack_document document.header zeros ciphertext tag ≡ ok doc_blob
unfolding pack_document pack_document_header pack_str pack_u16 pack_u32 pack_u64 pack_uint encode
    encode_char be_bytes
document_packed = refl

pub unpacked : unpack_document doc_blob ≡ ok document
unpacked =
    let (a, header, read) =
      unpack_document-pack_document document.header zeros ciphertext tag doc_blob refl
        document_packed in
    read
    ∙ ap (λ x. ok (record document { header_aad = x })) (ok-injective (sym header ∙ header_packed))

pub unshared : unpack_share share_blob ≡ ok own_share
unshared = unpack_share-pack_share own_share share_blob packed_share

payload_packed :
    pack_payload (codes "f") (codes "application/octet-stream") (codes "hi") content_sig
    ≡ ok payload_bytes
unfolding pack_payload pack_str pack_u16 pack_u32 pack_uint encode encode_char be_bytes
payload_packed = refl

opens : open_document file_key document ≡ ok payload
unfolding open_document opened
opens = rw (decrypt-encrypt file_key zeros payload_bytes aad ciphertext tag encrypted) (
    unpack_payload-pack_payload (codes "f") (codes "application/octet-stream") (codes "hi")
      content_sig payload_bytes payload_packed)

unwraps : unwrap_with 7 own_share ≡ ok file_key
unfolding unwrap_with opened
unwraps = rw (labelled) (
    rw (key_eph)
      (rw (decrypt-encrypt wrap_key zeros file_key [] wrapped_fk wrapped_tag wrapped) refl))

share_verified : check_share_sig sig_pub own_share ≡ ok tt
unfolding check_share_sig verify signature_from_bytes scalar_mul mod_inv point_from_bytes
    is_on_curve point_add from_bytes sha256 be_bytes
share_verified = rw packed_body refl

content_verified : check_content_sig sig_pub payload ≡ ok tt
unfolding check_content_sig verify signature_from_bytes scalar_mul mod_inv point_from_bytes
    is_on_curve point_add from_bytes sha256 be_bytes
content_verified = refl

delivered : IsDelivered (codes "alice") document own_share
delivered = (hashed, refl)

-- The world that the download leaves.
abbrev left_by_write : Disk
left_by_write = (write_file reliable (codes "out") (codes "hi") alice.disk).1

abbrev saved : World
saved = record alice {
  sent =
      (
        MsgType.get_doc,
        download_payload (codes "alice") id_hex (b64encode (replicate 16 2)) request_sig,
      )
      ∷ [];
  disk = left_by_write;
}

writes : write_file reliable (codes "out") (codes "hi") alice.disk ≡ (ok tt, left_by_write)
unfolding write_file write_ops perform after_op
writes = refl

downloaded :
    download serving (replicate 16 2) id_hex (codes "out") alice ≡ (ok (codes "alice"), saved)
downloaded =
    download-own serving document own_share payload (codes "alice", 7) (sig_pub, dh_pub) file_key
      (record { path = codes "d/alice_trust.json"; entries = [] }) (replicate 16 2) id_hex
      (codes "out") alice doc_blob share_blob saved.sent left_by_write alice_holds refl alice_owns
      fetched unpacked unshared delivered refl refl share_verified unwraps opens content_verified
      writes

made_for_ct :
    make_share runtime draws.self_share me
      (codes "alice")
      dh_pub
      doc_id
      1
      (sha256 ciphertext)
      file_key
    ≡ ok share_blob
made_for_ct = rw hashed made

own_verified : (s : Share) → unpack_share share_blob ≡ ok s → check_share_sig sig_pub s ≡ ok tt
own_verified s h =
    subst (λ x. check_share_sig sig_pub x ≡ ok tt) (ok-injective (sym unshared ∙ h)) share_verified

own_content :
    (sig : List ℕ)
    → sign_bytes runtime 5 (sha256 (codes "hi")) ≡ ok sig
    → check_content_sig sig_pub (record {
      filename = codes "f";
      mime = codes "application/octet-stream";
      content = codes "hi";
      content_sig = sig;
    })
      ≡ ok tt
own_content sig h =
    subst (λ x. check_content_sig sig_pub (record payload { content_sig = x }) ≡ ok tt)
      (ok-injective (sym content_signed ∙ h)) content_verified

download-seal_document_example :
    (download serving (replicate 16 2) id_hex (codes "out") alice ≡ (ok (codes "alice"), saved))
    × (left_by_write (codes "out") ≡ some (codes "hi"))
download-seal_document_example =
    download-seal_document serving runtime draws (codes "alice") 5 7 (sig_pub, dh_pub)
      (record { path = codes "d/alice_trust.json"; entries = [] }) (codes "f") (codes "hi") doc_blob
      ciphertext share_blob (replicate 16 2) id_hex (codes "out") alice saved.sent left_by_write
      sealed made_for_ct agreed own_verified own_content alice_holds refl alice_owns fetched writes

download-Verified_example :
    (username : Text) × (doc : ParsedDocument) × (share : Share) × (payload : ParsedPayload)
    × (saved.client.username ≡ some username)
    × IsDelivered username doc share
    × Verified doc share payload saved
    × (saved.disk (codes "out") ≡ some payload.content)
    × (codes "alice" ≡ doc.header.owner)
download-Verified_example =
    download-Verified serving (replicate 16 2) id_hex (codes "out") alice saved (codes "alice")
      downloaded

-- The request for a server that cannot be reached.
request_for :
    sign_text runtime 5 (download_canonical (codes "alice") id_hex (b64encode (replicate 16 2)))
    ≡ ok request_sig
unfolding sign_text download_canonical b64encode b64_char encode encode_char sign_bytes sign
    sign_loop attempt attempt_k sign_with after_attempt generate_k generator_loop start feed fill
    candidate bits2octets to_bytes be_bytes hmac_sha256 sha256 mod_inv scalar_mul
    is_valid_private_key signature_to_bytes
request_for = refl

refused : (download runtime (replicate 16 2) id_hex (codes "out") alice).0 ≡ raise Exc.client_error
unfolding download fetch_doc gets lift Actions.◌>>=◌ require_login logged_in holder signer named
    present rpc received is_network_error
refused = rw request_for refl

download-Grows_example :
    Grows alice (download runtime (replicate 16 2) id_hex (codes "out") alice).1
download-Grows_example =
    download-Grows runtime (replicate 16 2) id_hex (codes "out") alice Exc.client_error
      (λ same. cc same) refused
