-- ===== src/Client/Documents/RoundTrip.antt =====
-- What `upload` of client/client.py has made of a file is downloaded as that file.
use crypto_project.Base.{ℕ, List, some, ok, ◌≡◌, sym, ap, ◌∙◌}
use crypto_project.Text.{Text, codes}
use crypto_project.Crypto.Sha256.{sha256}
use crypto_project.Crypto.Ecdh.{generate_keypair, shared_key}
use crypto_project.Formats.Share.{Share, unpack_share}
use crypto_project.Wire.Json.{Message}
use crypto_project.Client.Disk.{Disk, write_file, write_file-eq-ok}
use crypto_project.Client.TrustStore.{TrustStore}
use crypto_project.Client.Session.{Runtime, World, holder, sign_bytes}
use crypto_project.Client.Contacts.{own_pubkey}
use crypto_project.Client.Sealing.{UploadDraws, seal_document, make_share}
use crypto_project.Client.Sealing.RoundTrip.{open_document-seal_document}
use crypto_project.Client.Sealing.Wrapping.{unwrap_with-make_share}
use crypto_project.Client.Opening.{check_share_sig, check_content_sig}
use crypto_project.Client.Documents.{fetch_doc, download}
use crypto_project.Client.Documents.Honest.{download-own}

-- Where the document and the user's own share of it are those that `upload` makes of a content, the user
-- is logged in, `_fetch_doc` gives the two back, the two sides of the key exchange agree, the user's
-- public key verifies the user's signatures in the two, and the file can be written, `download` returns
-- the user's name, and the file at the path is that content.
pub download-seal_document :
    (rt rt' : Runtime) (draws : UploadDraws) (name : Text) (sig_priv dh_priv : ℕ)
    (keys : List ℕ × List ℕ) (store : TrustStore) (filename : Text)
    (content blob ct share_blob nonce : List ℕ) (doc_id_hex save_path : Text) (w : World)
    (sent : List Message) (d : Disk)
    → seal_document rt' draws (name, sig_priv) filename content ≡ ok (blob, ct)
    → make_share rt' draws.self_share
        (name, sig_priv)
        name
        keys.1
        draws.doc_id
        1
        (sha256 ct)
        draws.file_key
      ≡ ok share_blob
    → ((eph : ℕ × List ℕ) (info : List ℕ)
        → generate_keypair draws.self_share.eph_draws ≡ ok (some eph)
        → shared_key dh_priv eph.1 info ≡ shared_key eph.0 keys.1 info)
    → ((share : Share) → unpack_share share_blob ≡ ok share → check_share_sig keys.0 share ≡ ok tt)
    → ((sig : List ℕ)
        → sign_bytes rt' sig_priv (sha256 content) ≡ ok sig
        → check_content_sig keys.0 (record {
          filename = filename;
          mime = codes "application/octet-stream";
          content = content;
          content_sig = sig;
        })
          ≡ ok tt)
    → holder w ≡ ok (name, dh_priv)
    → w.client.trust ≡ some store
    → own_pubkey w ≡ ok keys
    → fetch_doc rt nonce doc_id_hex w ≡ (ok (blob, share_blob), record w { sent = sent })
    → write_file rt.faults save_path content w.disk ≡ (ok tt, d)
    → (download rt nonce doc_id_hex save_path w ≡ (ok name, record w { sent = sent; disk = d }))
      × (d save_path ≡ some content)
download-seal_document rt rt' draws name sig_priv dh_priv keys store filename content blob ct
      share_blob nonce doc_id_hex save_path w sent d sealed made agree verified verified' holds
      there own fetched writes =
    let me : Text × ℕ = (name, sig_priv) in
    let (doc, sig, unpacked, is_ct, owner, _, signed, opens) =
      open_document-seal_document rt' draws me filename content blob ct sealed in
    let (share, _, unshared, hash, sender, recipient, unwraps, _, _) =
      unwrap_with-make_share rt' draws.self_share me name keys.1 draws.doc_id 1 (sha256 ct)
        draws.file_key share_blob dh_priv agree made in
    (
      download-own rt doc share _ (name, dh_priv) keys draws.file_key store nonce doc_id_hex
          save_path w blob share_blob sent d holds there own fetched unpacked unshared
          (ap sha256 is_ct ∙ sym hash, recipient) sender owner (verified share unshared) unwraps
          opens (verified' sig signed) writes,
      write_file-eq-ok rt.faults save_path content w.disk d tt writes,
    )
