-- ===== src/Formats/Document/Laws.antt =====
-- Documents: unpacking what was packed, and packing what was unpacked.
use crypto_project.Base.{
  ℕ, ◌+◌, ◌-◌, ◌≤◌, ◌<◌, List, [], ◌∷◌, ◌++◌, length, length-append, length-drop, length-take,
  append_assoc, append-nil, take, drop, take-append_exact, drop-append_exact, ◌==◌, ==_iff, ltb,
  le→ltb, ltb→le, if◌then◌else◌, Bool-cases, inl, inr, Outcome, ok, raise, require, value_error,
  >>=-eq-ok, ◌≡◌, refl, sym, ap, ap₂, ◌∙◌, arith,
}
use crypto_project.Base as Base
use crypto_project.Bytes.{IsBytes}
use crypto_project.Text.{Text}
use crypto_project.Formats.Reader.{
  Reader, Read, ◌>>=◌, pure, pack_u32, pack_u64, pack_str, read, read_u32, read_u64, read_str,
  read_magic,
}
use crypto_project.Formats.Codec.{
  At, advance, IsCodec, pack_fixed, pack_fixed_ok, pack_fixed_inv, read-IsCodec, read_uint-IsCodec,
}
use crypto_project.Formats.Codec.Strings.{
  bind_ok, bind_inv, pack_magic, read_magic-IsCodec, read_str-IsCodec,
}
use crypto_project.Formats.Codec.Pairs.{bind_assoc, pure-bind, pack_pair, read_pair, pair-IsCodec}
use crypto_project.Formats.Document.{
  doc_id_len, magic_doc, DocumentHeader, pack_document_header, read_header,
}

-- The header as nested pairs of codecs.
abbrev HeaderFields : Type 0
HeaderFields = Unit {0} × (List ℕ × (Text × (ℕ × ℕ)))

pack_fields : HeaderFields → Outcome (List ℕ)
pack_fields =
    pack_pair (pack_magic magic_doc)
      (pack_pair (pack_fixed doc_id_len) (pack_pair pack_str (pack_pair pack_u32 pack_u64)))

read_fields : Read HeaderFields
read_fields =
    read_pair (read_magic magic_doc)
      (read_pair (read doc_id_len) (read_pair read_str (read_pair read_u32 read_u64)))

fields-IsCodec : IsCodec pack_fields read_fields
unfolding pack_fields read_fields pack_u32 pack_u64 read_u32 read_u64
fields-IsCodec = pair-IsCodec (read_magic-IsCodec magic_doc refl) (
    pair-IsCodec (read-IsCodec doc_id_len)
      (pair-IsCodec read_str-IsCodec (pair-IsCodec (read_uint-IsCodec 4) (read_uint-IsCodec 8))))

read_header-eq-fields : read_header ≡ (read_fields >>= λ (u, (d, (o, (v, c)))). pure (d, o, v, c))
unfolding read_header read_fields read_pair
read_header-eq-fields = simp (bind_assoc, pure-bind)

fields_of : DocumentHeader → HeaderFields
fields_of hdr = (tt, (hdr.doc_id, (hdr.owner, (hdr.version, hdr.created_ms))))

pack_fields-eq-header :
    (hdr : DocumentHeader)
    → length hdr.doc_id ≡ doc_id_len
    → pack_fields (fields_of hdr) ≡ pack_document_header hdr
unfolding pack_fields fields_of pack_pair pack_magic pack_document_header
pack_fields-eq-header hdr size =
    rw (pack_fixed_ok doc_id_len hdr.doc_id size)
      (go (pack_str hdr.owner) (pack_u32 hdr.version) (pack_u64 hdr.created_ms))
  where
    go :
        (a b c : Outcome (List ℕ))
        → Base.◌>>=◌
            (Base.◌>>=◌
              (Base.◌>>=◌ a (λ x.
                Base.◌>>=◌
                  (Base.◌>>=◌ b (λ y. Base.◌>>=◌ c (λ z. ok (y ++ z))))
                  (λ y. ok (x ++ y))))
              (λ y. ok (hdr.doc_id ++ y)))
            (λ y. ok (magic_doc ++ y))
          ≡ Base.◌>>=◌ a (λ x.
            Base.◌>>=◌ b
              (λ y. Base.◌>>=◌ c (λ z. ok (magic_doc ++ (hdr.doc_id ++ (x ++ (y ++ z)))))))
    go (ok x) (ok y) (ok z) = refl
    go (ok x) (ok y) (raise e) = refl
    go (ok x) (raise e) c = refl
    go (raise e) b c = refl

pack_fields_id :
    (hdr : DocumentHeader) (w : List ℕ)
    → pack_fields (fields_of hdr) ≡ ok w
    → length hdr.doc_id ≡ doc_id_len
unfolding pack_fields fields_of pack_pair pack_magic
pack_fields_id hdr w h =
    let (a, e, _) = >>=-eq-ok (Base.◌>>=◌ (pack_fixed doc_id_len hdr.doc_id) _) _ h in
    let (b, e', _) = >>=-eq-ok (pack_fixed doc_id_len hdr.doc_id) _ e in
    (pack_fixed_inv doc_id_len hdr.doc_id b e').0

pub header_forward :
    (hdr : DocumentHeader) (w t : List ℕ) (r : Reader)
    → length hdr.doc_id ≡ doc_id_len
    → pack_document_header hdr ≡ ok w
    → At r (w ++ t)
    → read_header r
      ≡ ok ((hdr.doc_id, hdr.owner, hdr.version, hdr.created_ms), advance r (length w))
header_forward hdr w t r size packed h =
    ap (λ m. m r) read_header-eq-fields
    ∙ bind_ok read_fields _ r
        (fields-IsCodec.forward (fields_of hdr) w t r (pack_fields-eq-header hdr size ∙ packed) h)
    ∙ unfold pure fields_of in refl

same_fields :
    (f : HeaderFields) (hdr : DocumentHeader) (r r' : Reader)
    → pure {A = List ℕ × Text × ℕ × ℕ} (f.1.0, f.1.1.0, f.1.1.1.0, f.1.1.1.1) r
      ≡ ok ((hdr.doc_id, hdr.owner, hdr.version, hdr.created_ms), r')
    → (f ≡ fields_of hdr) × (r ≡ r')
unfolding pure fields_of
same_fields (u, (d, (o, (v, c)))) hdr r r' h = ground arith

pub header_backward :
    (d : List ℕ) (o : Text) (v c : ℕ) (s : List ℕ) (r r' : Reader)
    → IsBytes s
    → At r s
    → read_header r ≡ ok ((d, o, v, c), r')
    → (w : List ℕ) × (t : List ℕ) × (length d ≡ doc_id_len)
      × (pack_document_header (record { doc_id = d; owner = o; version = v; created_ms = c })
          ≡ ok w)
      × (s ≡ w ++ t)
      × (r' ≡ advance r (length w))
header_backward d o v c s r r' bytes h e =
    let hdr : DocumentHeader = record { doc_id = d; owner = o; version = v; created_ms = c } in
    let (fields, r1, got, last) =
      bind_inv read_fields _ r (ap (λ m. m r) (sym read_header-eq-fields) ∙ e) in
    let (same, moved') = same_fields fields hdr r1 r' last in
    let (w, t, packed, split, moved) = fields-IsCodec.backward fields s r r1 bytes h got in
    let packed' = ap pack_fields (sym same) ∙ packed in
    let size = pack_fields_id hdr w packed' in
    (w, t, size, sym (pack_fields-eq-header hdr size) ∙ packed', split, sym moved' ∙ moved)
