-- ===== src/Client/Sealing.antt =====
-- What client/client.py makes of a file and of its key before it sends them: the document of `upload`
-- and the share of `share` and `_store_self_share`.
pub mod RoundTrip
pub mod Wrapping
use crypto_project.Base.{ℕ, List, [], ◌++◌, replicate, Outcome, ok, ◌>>=◌, finished}
use crypto_project.Text.{Text, codes, encode}
use crypto_project.Crypto.Sha256.{sha256}
use crypto_project.Crypto.Gcm.{encrypt}
use crypto_project.Crypto.Ecdh.{shared_key, generate_keypair}
use crypto_project.Formats.Document.{document_header, pack_document_header, pack_document}
use crypto_project.Formats.Payload.{pack_payload}
use crypto_project.Formats.Share.{Share, pack_share_body, pack_share}
use crypto_project.Client.Session.{Runtime, sign_bytes}

-- `b"\x00" * NONCE_LEN`
abbrev pub zero_nonce : List ℕ
zero_nonce = replicate 12 0

-- `b"\x00" * SIG_LEN`
abbrev pub no_signature : List ℕ
no_signature = replicate 64 0

-- What is drawn for a share: the draws of the ephemeral key, the time, and the nonce of the request.
pub record ShareDraws : Type 0 where
  pub eph_draws : List (List ℕ)
  pub issued_ms : ℕ
  pub nonce : List ℕ

pub record UploadDraws : Type 0 where
  pub file_key : List ℕ
  pub doc_id : List ℕ
  pub created_ms : ℕ
  pub nonce : List ℕ
  pub self_share : ShareDraws

-- `b"wrap|" + doc_id + b"|to=" + recipient.encode() + b"|from=" + sender.encode()`
unfoldable pub wrap_info : List ℕ → Text → Text → Outcome (List ℕ)
wrap_info doc_id recipient sender = do
  to ← encode recipient
  from ← encode sender
  ok (codes "wrap|" ++ (doc_id ++ (codes "|to=" ++ (to ++ (codes "|from=" ++ from)))))

-- `Share(**{**share_body.__dict__, "share_sig": share_sig})`, packed
unfoldable pub sign_share : Runtime → ℕ → Share → Outcome (List ℕ)
sign_share rt sig_priv share_body = do
  body ← pack_share_body share_body
  share_sig ← sign_bytes rt sig_priv body
  pack_share (record share_body { share_sig = share_sig })

-- The share of `share` and of `_store_self_share`, up to its bytes.
unfoldable pub make_share :
    Runtime
    → ShareDraws
    → Text × ℕ
    → Text
    → List ℕ
    → List ℕ
    → ℕ
    → List ℕ
    → List ℕ
    → Outcome (List ℕ)
make_share rt draws me recipient recipient_dh doc_id version doc_hash fk = do
  drawn ← generate_keypair draws.eph_draws
  eph ← finished drawn
  info ← wrap_info doc_id recipient me.0
  wrap_key ← shared_key eph.0 recipient_dh info
  wrapped ← encrypt wrap_key zero_nonce fk []
  sign_share rt me.1 (record {
    doc_id = doc_id;
    version = version;
    doc_hash = doc_hash;
    sender = me.0;
    recipient = recipient;
    issued_ms = draws.issued_ms;
    eph_pub = eph.1;
    nonce = zero_nonce;
    wrapped_fk = wrapped.0;
    tag = wrapped.1;
    share_sig = no_signature;
  })

-- The document that `upload` makes of a payload: its bytes, and the ciphertext in them.
unfoldable pub encrypt_payload : UploadDraws → Text → List ℕ → Outcome (List ℕ × List ℕ)
encrypt_payload draws owner payload = do
  header ← document_header draws.doc_id owner 1 draws.created_ms
  aad ← pack_document_header header
  sealed ← encrypt draws.file_key zero_nonce payload aad
  blob ← pack_document header zero_nonce sealed.0 sealed.1
  ok (blob, sealed.0)

unfoldable pub seal_document :
    Runtime → UploadDraws → Text × ℕ → Text → List ℕ → Outcome (List ℕ × List ℕ)
seal_document rt draws me filename content = do
  content_sig ← sign_bytes rt me.1 (sha256 content)
  payload ← pack_payload filename (codes "application/octet-stream") content content_sig
  encrypt_payload draws me.0 payload
