-- ===== src/Examples/Sealing.antt =====
-- What client/client.py seals, at concrete inputs.
use mathlib.Core.Path.{subst}
use crypto_project.Base.{
  ℕ, List, [], ◌∷◌, replicate, some, ok, raise, Exc, true, ◌≡◌, refl, sym, ◌∙◌,
}
use crypto_project.Bytes.{to_bytes, be_bytes, from_bytes}
use crypto_project.Text.{Text, codes, encode, encode_char}
use crypto_project.Crypto.Sha256.{sha256}
use crypto_project.Crypto.Hmac.{hmac_sha256}
use crypto_project.Crypto.Aes.{aes_init, aes_encrypt_block}
use crypto_project.Crypto.Gcm.{encrypt}
use crypto_project.Crypto.P256.{mod_inv, scalar_mul, point_to_bytes, is_valid_private_key}
use crypto_project.Crypto.Ecdsa.{signature_to_bytes}
use crypto_project.Crypto.Ecdsa.Sign.{
  bits2octets, feed, start, fill, candidate, generator_loop, generate_k, sign_with, attempt_k,
  attempt, after_attempt, sign_loop, sign,
}
use crypto_project.Crypto.Ecdsa.Sign.{choose_scalar, with_public}
use crypto_project.Crypto.P256.{scalar_mul_g, point_from_bytes, is_on_curve}
use crypto_project.Crypto.Ecdh.{generate_keypair, raw_shared_x, x_bytes, shared_key}
use crypto_project.Formats.Reader.{pack_str, pack_u16, pack_u32, pack_u64, pack_uint}
use crypto_project.Formats.Document.{
  document_header, pack_document_header, pack_document, ParsedDocument, unpack_document,
}
use crypto_project.Formats.Payload.{pack_payload}
use crypto_project.Client.Sealing.{UploadDraws, seal_document, encrypt_payload}
use crypto_project.Client.Sealing.RoundTrip.{open_document-seal_document}
use crypto_project.Client.Opening.{open_document}
use crypto_project.Formats.Share.{Share, check_lengths, pack_share_body, pack_share, unpack_share}
use crypto_project.Client.Sealing.{no_signature, wrap_info, sign_share, make_share}
use crypto_project.Client.Sealing.Wrapping.{unwrap_with-make_share}
use crypto_project.Client.Opening.{unwrap_with}
use crypto_project.Wire.Json.{obj, end}
use crypto_project.Client.Disk.{reliable}
use crypto_project.Client.Session.{Runtime, sign_bytes}
use crypto_project.Examples.Blobs.{
  content_sig, payload_bytes, aad, ciphertext, tag, file_key, zeros, doc_blob, dh_pub, eph_pub,
  info, shared_x, wrap_key, wrapped_fk, wrapped_tag, doc_hash, share_body, share_sig, share_blob,
  doc_id, own_share,
}

abbrev pub runtime : Runtime
runtime = record {
  argon2 = λ secret salt t m p. ok (replicate 32 9);
  write_json = λ fs. [];
  read_json = λ bytes. ok (obj end);
  faults = reliable;
  str_of = λ j. [];
  tofu_prompt = λ username fingerprint. true;
  peer = λ sent. raise Exc.connection_error;
  storage_dir = codes "d";
  rounds = 1;
}

pub content_signed : sign_bytes runtime 5 (sha256 (codes "hi")) ≡ ok content_sig
unfolding sign_bytes sign sign_loop attempt attempt_k sign_with after_attempt generate_k
    generator_loop start feed fill candidate bits2octets to_bytes be_bytes hmac_sha256 sha256
    mod_inv scalar_mul is_valid_private_key signature_to_bytes
content_signed = refl

pub encrypted : encrypt file_key zeros payload_bytes aad ≡ ok (ciphertext, tag)
unfolding encrypt aes_init aes_encrypt_block be_bytes
encrypted = refl

pub wrapped : encrypt wrap_key zeros file_key [] ≡ ok (wrapped_fk, wrapped_tag)
unfolding encrypt aes_init aes_encrypt_block be_bytes
wrapped = refl

share_signed : sign_bytes runtime 5 share_body ≡ ok share_sig
unfolding sign_bytes sign sign_loop attempt attempt_k sign_with after_attempt generate_k
    generator_loop start feed fill candidate bits2octets to_bytes be_bytes hmac_sha256 sha256
    mod_inv scalar_mul is_valid_private_key signature_to_bytes
share_signed = refl

abbrev pub draws : UploadDraws
draws = record {
  file_key = file_key;
  doc_id = doc_id;
  created_ms = 5;
  nonce = replicate 16 2;
  self_share = record { eph_draws = be_bytes 32 11 ∷ []; issued_ms = 6; nonce = replicate 16 3 };
}

abbrev pub me : Text × ℕ
me = (codes "alice", 5)

pub sealed : seal_document runtime draws me (codes "f") (codes "hi") ≡ ok (doc_blob, ciphertext)
unfolding seal_document encrypt_payload pack_payload document_header pack_document_header
    pack_document pack_str pack_u16 pack_u32 pack_u64 pack_uint encode encode_char be_bytes
sealed = rw (content_signed, encrypted) refl

open_document-seal_document_example :
    (doc : ParsedDocument) × (sig : List ℕ) × (unpack_document doc_blob ≡ ok doc)
    × (doc.ciphertext ≡ ciphertext)
    × (doc.header.owner ≡ codes "alice")
    × (doc.header.doc_id ≡ doc_id)
    × (sign_bytes runtime 5 (sha256 (codes "hi")) ≡ ok sig)
    × (open_document file_key doc
        ≡ ok (record {
          filename = codes "f";
          mime = codes "application/octet-stream";
          content = codes "hi";
          content_sig = sig;
        }))
open_document-seal_document_example =
    open_document-seal_document runtime draws me (codes "f") (codes "hi") doc_blob ciphertext sealed

drawn : generate_keypair (be_bytes 32 11 ∷ []) ≡ ok (some (11, eph_pub))
unfolding generate_keypair choose_scalar with_public scalar_mul_g scalar_mul mod_inv point_to_bytes
    is_valid_private_key from_bytes be_bytes
drawn = refl

raw_own : raw_shared_x 11 dh_pub ≡ ok shared_x
unfolding raw_shared_x x_bytes scalar_mul mod_inv point_from_bytes is_on_curve is_valid_private_key
    from_bytes to_bytes be_bytes
raw_own = refl

raw_eph : raw_shared_x 7 eph_pub ≡ ok shared_x
unfolding raw_shared_x x_bytes scalar_mul mod_inv point_from_bytes is_on_curve is_valid_private_key
    from_bytes to_bytes be_bytes
raw_eph = refl

pub hashed : sha256 ciphertext ≡ doc_hash
unfolding sha256 be_bytes
hashed = refl

key_own : shared_key 11 dh_pub info ≡ ok wrap_key
unfolding shared_key sha256 be_bytes
key_own = rw raw_own refl

pub key_eph : shared_key 7 eph_pub info ≡ ok wrap_key
unfolding shared_key sha256 be_bytes
key_eph = rw raw_eph refl

pub labelled : wrap_info doc_id (codes "alice") (codes "alice") ≡ ok info
unfolding wrap_info encode encode_char be_bytes
labelled = refl

pub packed_body : pack_share_body (record own_share { share_sig = no_signature }) ≡ ok share_body
unfolding pack_share_body check_lengths pack_str pack_u16 pack_u32 pack_u64 pack_uint encode
    encode_char be_bytes
packed_body = refl

pub packed_share : pack_share own_share ≡ ok share_blob
unfolding pack_share pack_share_body check_lengths pack_str pack_u16 pack_u32 pack_u64 pack_uint
    encode encode_char be_bytes
packed_share = refl

pub made :
    make_share runtime draws.self_share me (codes "alice") dh_pub doc_id 1 doc_hash file_key
    ≡ ok share_blob
unfolding make_share sign_share
made = rw (drawn) (
    rw (labelled) (rw (key_own) (rw (wrapped) (rw (packed_body) (rw (share_signed) packed_share)))))

pub agreed :
    (eph : ℕ × List ℕ) (label : List ℕ)
    → generate_keypair draws.self_share.eph_draws ≡ ok (some eph)
    → shared_key 7 eph.1 label ≡ shared_key eph.0 dh_pub label
unfolding shared_key
agreed eph label h =
    let is_eph : (11, eph_pub) ≡ eph = cc (sym drawn ∙ h) in
    subst (λ e. shared_key 7 e.1 label ≡ shared_key e.0 dh_pub label) is_eph
      (rw (raw_own, raw_eph) refl)

unwrap_with-make_share_example :
    (share : Share) × (body : List ℕ) × (unpack_share share_blob ≡ ok share)
    × (share.doc_hash ≡ doc_hash)
    × (share.sender ≡ codes "alice")
    × (share.recipient ≡ codes "alice")
    × (unwrap_with 7 share ≡ ok file_key)
    × (pack_share_body (record share { share_sig = no_signature }) ≡ ok body)
    × (sign_bytes runtime 5 body ≡ ok share.share_sig)
unwrap_with-make_share_example =
    unwrap_with-make_share runtime draws.self_share me (codes "alice") dh_pub doc_id 1 doc_hash
      file_key share_blob 7 agreed made
