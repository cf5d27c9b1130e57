-- ===== src/Formats/Document.antt =====
-- The SVD1 documents of common/formats.py.
pub mod Laws
pub mod RoundTrip
use crypto_project.Base.{
  ℕ, ◌+◌, ◌-◌, Bool, List, [], ◌∷◌, ◌++◌, length, take, drop, ◌==◌, ltb, if◌then◌else◌, Outcome, ok,
  raise, require, value_error,
}
use crypto_project.Base as Base
use crypto_project.Text.{Text}
use crypto_project.Formats.Reader.{
  Reader, Read, ◌>>=◌, ◌>>◌, pure, lift, pack_u32, pack_u64, pack_str, open_reader, read, read_u32,
  read_u64, read_str, read_magic, remaining, assert_done,
}

abbrev pub doc_id_len : ℕ
doc_id_len = 16

abbrev pub nonce_len : ℕ
nonce_len = 12

abbrev pub tag_len : ℕ
tag_len = 16

-- b"SVD1"
abbrev pub magic_doc : List ℕ
magic_doc = b'S' ∷ b'V' ∷ b'D' ∷ b'1' ∷ []

pub record DocumentHeader : Type 0 where
  pub doc_id : List ℕ
  pub owner : Text
  pub version : ℕ
  pub created_ms : ℕ

-- The constructor, with the check of `__post_init__`.
unfoldable pub document_header : List ℕ → Text → ℕ → ℕ → Outcome DocumentHeader
document_header doc_id owner version created_ms =
    if length doc_id == doc_id_len
    then ok (record { doc_id = doc_id; owner = owner; version = version; created_ms = created_ms })
    else raise value_error

unfoldable pub pack_document_header : DocumentHeader → Outcome (List ℕ)
pack_document_header hdr = Base.◌>>=◌ (pack_str hdr.owner) (λ owner.
    Base.◌>>=◌ (pack_u32 hdr.version) (λ version.
      Base.◌>>=◌ (pack_u64 hdr.created_ms)
        (λ created_ms. ok (magic_doc ++ (hdr.doc_id ++ (owner ++ (version ++ created_ms)))))))

unfoldable pub pack_document : DocumentHeader → List ℕ → List ℕ → List ℕ → Outcome (List ℕ)
pack_document hdr nonce ciphertext tag =
    if length nonce == nonce_len
    then (if length tag == tag_len
        then Base.◌>>=◌ (pack_document_header hdr)
            (λ header. ok (header ++ (nonce ++ (ciphertext ++ tag))))
        else raise value_error)
    else raise value_error

pub record ParsedDocument : Type 0 where
  pub header : DocumentHeader
  pub header_aad : List ℕ
  pub nonce : List ℕ
  pub ciphertext : List ℕ
  pub tag : List ℕ

-- The fields of the header, up to `hdr_end`.
unfoldable pub read_header : Read (List ℕ × Text × ℕ × ℕ)
read_header = do
  read_magic magic_doc
  doc_id ← read doc_id_len
  owner ← read_str
  version ← read_u32
  created_ms ← read_u64
  pure (doc_id, owner, version, created_ms)

-- `bytes(r.buf[0:r.pos])`
unfoldable pub consumed : Read (List ℕ)
consumed r = ok (take r.pos r.buf, r)

-- `r.remaining() - TAG_LEN` bytes, which must not be negative.
unfoldable pub read_ciphertext : Read (List ℕ)
read_ciphertext r =
    if ltb (remaining r) tag_len then raise value_error else read (remaining r - tag_len) r

unfoldable pub read_document : Read ParsedDocument
read_document = do
  fields ← read_header
  header_aad ← consumed
  nonce ← read nonce_len
  ciphertext ← read_ciphertext
  tag ← read tag_len
  assert_done
  header ← lift (document_header fields.0 fields.1 fields.2 fields.3)
  pure (record {
    header = header;
    header_aad = header_aad;
    nonce = nonce;
    ciphertext = ciphertext;
    tag = tag;
  })

unfoldable pub unpack_document : List ℕ → Outcome ParsedDocument
unpack_document blob = Base.◌>>=◌ (read_document (open_reader blob)) (λ (doc, r). ok doc)
