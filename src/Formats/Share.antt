-- ===== src/Formats/Share.antt =====
-- The SVS1 shares of common/formats.py.
pub mod Laws
pub mod RoundTrip
use crypto_project.Base.{
  ℕ, List, [], ◌∷◌, ◌++◌, length, ◌==◌, if◌then◌else◌, Outcome, ok, raise, require, value_error,
}
use crypto_project.Base as Base
use crypto_project.Text.{Text}
use crypto_project.Formats.Reader.{
  Read, ◌>>=◌, ◌>>◌, pure, lift, pack_u32, pack_u64, pack_str, open_reader, read, read_u32,
  read_u64, read_str, read_magic, assert_done,
}
use crypto_project.Formats.Document.{doc_id_len, nonce_len, tag_len}
use crypto_project.Formats.Payload.{sig_len}

abbrev pub doc_hash_len : ℕ
doc_hash_len = 32

abbrev pub eph_pub_len : ℕ
eph_pub_len = 65

abbrev pub wrapped_fk_len : ℕ
wrapped_fk_len = 32

-- b"SVS1"
abbrev pub magic_share : List ℕ
magic_share = b'S' ∷ b'V' ∷ b'S' ∷ b'1' ∷ []

pub record Share : Type 0 where
  pub doc_id : List ℕ
  pub version : ℕ
  pub doc_hash : List ℕ
  pub sender : Text
  pub recipient : Text
  pub issued_ms : ℕ
  pub eph_pub : List ℕ
  pub nonce : List ℕ
  pub wrapped_fk : List ℕ
  pub tag : List ℕ
  pub share_sig : List ℕ

-- The six tests of a length at the head of `pack_share_body`.
unfoldable pub check_lengths : Share → Outcome (Unit {0})
check_lengths s = Base.◌>>=◌ (require (length s.doc_id == doc_id_len) value_error) (λ _.
    Base.◌>>=◌ (require (length s.doc_hash == doc_hash_len) value_error) (λ _.
      Base.◌>>=◌ (require (length s.eph_pub == eph_pub_len) value_error) (λ _.
        Base.◌>>=◌ (require (length s.nonce == nonce_len) value_error) (λ _.
          Base.◌>>=◌ (require (length s.wrapped_fk == wrapped_fk_len) value_error)
            (λ _. require (length s.tag == tag_len) value_error)))))

unfoldable pub pack_share_body : Share → Outcome (List ℕ)
pack_share_body s = Base.◌>>=◌ (check_lengths s) (λ _. Base.◌>>=◌ (pack_u32 s.version) (λ version.
    Base.◌>>=◌ (pack_str s.sender) (λ sender. Base.◌>>=◌ (pack_str s.recipient) (λ recipient.
      Base.◌>>=◌ (pack_u64 s.issued_ms) (λ issued_ms. ok (
        magic_share
        ++ (s.doc_id
            ++ (version
                ++ (s.doc_hash
                    ++ (sender
                        ++ (recipient
                            ++ (issued_ms
                                ++ (s.eph_pub ++ (s.nonce ++ (s.wrapped_fk ++ s.tag)))))))))))))))

unfoldable pub pack_share : Share → Outcome (List ℕ)
pack_share s =
    if length s.share_sig == sig_len
    then Base.◌>>=◌ (pack_share_body s) (λ body. ok (body ++ s.share_sig))
    else raise value_error

unfoldable pub read_share : Read Share
read_share = do
  read_magic magic_share
  doc_id ← read doc_id_len
  version ← read_u32
  doc_hash ← read doc_hash_len
  sender ← read_str
  recipient ← read_str
  issued_ms ← read_u64
  eph_pub ← read eph_pub_len
  nonce ← read nonce_len
  wrapped_fk ← read wrapped_fk_len
  tag ← read tag_len
  share_sig ← read sig_len
  assert_done
  pure (record {
    doc_id = doc_id;
    version = version;
    doc_hash = doc_hash;
    sender = sender;
    recipient = recipient;
    issued_ms = issued_ms;
    eph_pub = eph_pub;
    nonce = nonce;
    wrapped_fk = wrapped_fk;
    tag = tag;
    share_sig = share_sig;
  })

unfoldable pub unpack_share : List ℕ → Outcome Share
unpack_share blob = Base.◌>>=◌ (read_share (open_reader blob)) (λ (s, _). ok s)
