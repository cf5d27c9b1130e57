-- ===== src/Examples/Blobs.antt =====
-- The keys of alice, a document of hers and her own share of it: the bytes that upload makes of a file with the content
-- "hi", with the private keys 5 for signatures and 7 for key agreement, and 11 for the share.
use crypto_project.Base.{ℕ, List, replicate}
use crypto_project.Bytes.{be_bytes}
use crypto_project.Text.{codes}
use crypto_project.Formats.Document.{ParsedDocument}
use crypto_project.Formats.Payload.{ParsedPayload}
use crypto_project.Formats.Share.{Share}

abbrev pub content_sig : List ℕ
content_sig =
    be_bytes 64
      0x6005620d9702fe0fa8d019c86015f5fe797408bacabaed4f1ca0863cf15109a48364bd60b1c47176c49c2d3e4bc985d8053f5d0c2bb251e18394f461e46a215d

abbrev pub payload_bytes : List ℕ
payload_bytes =
    be_bytes 99
      0x00016600186170706c69636174696f6e2f6f637465742d73747265616d0000000268696005620d9702fe0fa8d019c86015f5fe797408bacabaed4f1ca0863cf15109a48364bd60b1c47176c49c2d3e4bc985d8053f5d0c2bb251e18394f461e46a215d

abbrev pub aad : List ℕ
aad = be_bytes 39 0x53564431070707070707070707070707070707070005616c696365000000010000000000000005

abbrev pub ciphertext : List ℕ
ciphertext =
    be_bytes 99
      0xbf34fedc6d5a73cfff10f124054dae2f9aa9fcc4e0eb1989b8566bb463d66e1b5cd0c49b568cb2ff2568d8d230af6b8ebb5353e5bfdf2e9e75ee53a3bf6ca67ee6ff41310db66cdad798502b657223c5440c6008946d8815ea3e3bf8c081a6545560fb

abbrev pub tag : List ℕ
tag = be_bytes 16 0x6b4108930ef87f3867fbbb10608381fc

abbrev pub doc_blob : List ℕ
doc_blob =
    be_bytes 166
      0x53564431070707070707070707070707070707070005616c696365000000010000000000000005000000000000000000000000bf34fedc6d5a73cfff10f124054dae2f9aa9fcc4e0eb1989b8566bb463d66e1b5cd0c49b568cb2ff2568d8d230af6b8ebb5353e5bfdf2e9e75ee53a3bf6ca67ee6ff41310db66cdad798502b657223c5440c6008946d8815ea3e3bf8c081a6545560fb6b4108930ef87f3867fbbb10608381fc

abbrev pub sig_pub : List ℕ
sig_pub =
    be_bytes 65
      0x0451590b7a515140d2d784c85608668fdfef8c82fd1f5be52421554a0dc3d033ede0c17da8904a727d8ae1bf36bf8a79260d012f00d4d80888d1d0bb44fda16da4

abbrev pub dh_pub : List ℕ
dh_pub =
    be_bytes 65
      0x048e533b6fa0bf7b4625bb30667c01fb607ef9f8b8a80fef5b300628703187b2a373eb1dbde03318366d069f83a6f5900053c73633cb041b21c55e1a86c1f400b4

abbrev pub eph_pub : List ℕ
eph_pub =
    be_bytes 65
      0x043ed113b7883b4c590638379db0c21cda16742ed0255048bf433391d374bc21d19099209accc4c8a224c843afa4f4c68a090d04da5e9889dae2f8eefce82a3740

abbrev pub info : List ℕ
info =
    be_bytes 41 0x777261707c070707070707070707070707070707077c746f3d616c6963657c66726f6d3d616c696365

abbrev pub shared_x : List ℕ
shared_x = be_bytes 32 0x5821b002dba277251a9d18eb72d5c720f4efe021b38029c017d871340893be7b

abbrev pub wrap_key : List ℕ
wrap_key = be_bytes 32 0x1a7dad68d194b464bba966aa68e754f30f52c8de4d0ec053000632672fba9287

abbrev pub wrapped_fk : List ℕ
wrapped_fk = be_bytes 32 0xb26785a46151e08f3a1a705e58c259ef76d2d1dc662510c2d11f5d81ec82aabd

abbrev pub wrapped_tag : List ℕ
wrapped_tag = be_bytes 16 0xbb9c84dcb8e0e49935a0b1a29bdef758

abbrev pub doc_hash : List ℕ
doc_hash = be_bytes 32 0xbf1059c80792e168e24f713c4a9065a107b8b444aefac182fc96877d6c497aa4

abbrev pub share_body : List ℕ
share_body =
    be_bytes 203
      0x535653310707070707070707070707070707070700000001bf1059c80792e168e24f713c4a9065a107b8b444aefac182fc96877d6c497aa40005616c6963650005616c6963650000000000000006043ed113b7883b4c590638379db0c21cda16742ed0255048bf433391d374bc21d19099209accc4c8a224c843afa4f4c68a090d04da5e9889dae2f8eefce82a3740000000000000000000000000b26785a46151e08f3a1a705e58c259ef76d2d1dc662510c2d11f5d81ec82aabdbb9c84dcb8e0e49935a0b1a29bdef758

abbrev pub share_sig : List ℕ
share_sig =
    be_bytes 64
      0x053ad2a1ec0529a23fd3b580b8e4d13ef85f6145390e4551e4eccc22180dac878989deff3aecadfca714614915183a16bff7262fd4c20529054549d73aa52661

abbrev pub share_blob : List ℕ
share_blob =
    be_bytes 267
      0x535653310707070707070707070707070707070700000001bf1059c80792e168e24f713c4a9065a107b8b444aefac182fc96877d6c497aa40005616c6963650005616c6963650000000000000006043ed113b7883b4c590638379db0c21cda16742ed0255048bf433391d374bc21d19099209accc4c8a224c843afa4f4c68a090d04da5e9889dae2f8eefce82a3740000000000000000000000000b26785a46151e08f3a1a705e58c259ef76d2d1dc662510c2d11f5d81ec82aabdbb9c84dcb8e0e49935a0b1a29bdef758053ad2a1ec0529a23fd3b580b8e4d13ef85f6145390e4551e4eccc22180dac878989deff3aecadfca714614915183a16bff7262fd4c20529054549d73aa52661

abbrev pub request_sig : List ℕ
request_sig =
    be_bytes 64
      0x4f54f7f7ecc55fc862825d194e71ed31ea66ad7b86e0d3b988832ee7f212a20b2f30ac6c90a50558c802a61021cddaac0cfad3d6518e14d28ed7e79c17200fb7

abbrev pub upload_sig : List ℕ
upload_sig =
    be_bytes 64
      0xe36c2c161af2db1cae3e672b5703e0db29b29e3f47eaeb65c7822f169d9f687c0f60be9da9bcc282a5372aad89042b8da37a6af112dc34b3fb7bac725854861f

abbrev pub share_request_sig : List ℕ
share_request_sig =
    be_bytes 64
      0xb7731eee73bf304ecc65f0385a5a4e395f3844061580eb54568b8626ae27b12c64448a353e771a50174134a698fb53f2e2c5d3b8dff7f4c5ffb6f9f9d5206d93

abbrev pub kek : List ℕ
kek = be_bytes 32 0x1804e89d8e61c558478c33aa71f814492c29f38f612195afd1327a17395fe3df

abbrev pub auth_pub : List ℕ
auth_pub =
    be_bytes 65
      0x0409a7f5c6adbca7ea168e206fee15075f281c169cfe3e4d102d3b951ecc72b498cb47ae2b4f9d7ef187a9f895a21143575792f648cc05a64f54203b921074aeca

abbrev pub login_sig : List ℕ
login_sig =
    be_bytes 64
      0xd1af1c44707cf9ffddff307b8a14acc047b08164c997c8f3e7b9621f71cef940d0e03d3436102af5d7d60f99caeb0876ebed2fb71e01f100309c581ac41400b2

abbrev pub changed_blob : List ℕ
changed_blob =
    be_bytes 166
      0x53564431070707070707070707070707070707070005616c696365000000010000000000000005000000000000000000000000be34fedc6d5a73cfff10f124054dae2f9aa9fcc4e0eb1989b8566bb463d66e1b5cd0c49b568cb2ff2568d8d230af6b8ebb5353e5bfdf2e9e75ee53a3bf6ca67ee6ff41310db66cdad798502b657223c5440c6008946d8815ea3e3bf8c081a6545560fb6b4108930ef87f3867fbbb10608381fc

abbrev pub forged_blob : List ℕ
forged_blob =
    be_bytes 175
      0x5356443107070707070707070707070707070707000e616c6963655f54414d5045524544000000010000000000000005000000000000000000000000bf34fedc6d5a73cfff10f124054dae2f9aa9fcc4e0eb1989b8566bb463d66e1b5cd0c49b568cb2ff2568d8d230af6b8ebb5353e5bfdf2e9e75ee53a3bf6ca67ee6ff41310db66cdad798502b657223c5440c6008946d8815ea3e3bf8c081a6545560fb6b4108930ef87f3867fbbb10608381fc

abbrev pub file_key : List ℕ
file_key = replicate 32 1

abbrev pub doc_id : List ℕ
doc_id = replicate 16 7

abbrev pub zeros : List ℕ
zeros = replicate 12 0

abbrev pub document : ParsedDocument
document = record {
  header = record { doc_id = doc_id; owner = codes "alice"; version = 1; created_ms = 5 };
  header_aad = aad;
  nonce = zeros;
  ciphertext = ciphertext;
  tag = tag;
}

abbrev pub payload : ParsedPayload
payload = record {
  filename = codes "f";
  mime = codes "application/octet-stream";
  content = codes "hi";
  content_sig = content_sig;
}

abbrev pub own_share : Share
own_share = record {
  doc_id = doc_id;
  version = 1;
  doc_hash = doc_hash;
  sender = codes "alice";
  recipient = codes "alice";
  issued_ms = 6;
  eph_pub = eph_pub;
  nonce = zeros;
  wrapped_fk = wrapped_fk;
  tag = wrapped_tag;
  share_sig = share_sig;
}
