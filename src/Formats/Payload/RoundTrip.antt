-- ===== src/Formats/Payload/RoundTrip.antt =====
-- Payloads: unpacking what was packed.
use mathlib.Core.Path.{subst}
use crypto_project.Base.{
  ℕ, ◌≤◌, List, [], ◌++◌, length, append-nil, ◌==◌, ==_iff, ltb, le→leb, ltb→le, Bool-cases, inl,
  inr, ok, >>=-eq-ok, ◌≡◌, refl, sym, ap, ◌∙◌,
}
use crypto_project.Text.{Text}
use crypto_project.Formats.Reader.{
  Reader, ◌>>=◌, pure, lift, pack_u32, pack_str, open_reader, read, read_u32, read_str, assert_done,
}
use crypto_project.Formats.Codec.{
  At, At-advance, advance, read-IsCodec, read_uint-IsCodec, pack_fixed_ok,
}
use crypto_project.Formats.Codec.Strings.{read_str-IsCodec}
use crypto_project.Formats.Document.RoundTrip.{At-open, done_forward}
use crypto_project.Formats.Payload.{
  sig_len, max_content_len, pack_payload, read_payload, unpack_payload,
}

pack_payload_inv :
    (filename mime : Text) (content content_sig blob : List ℕ)
    → pack_payload filename mime content content_sig ≡ ok blob
    → (name : List ℕ) × (kind : List ℕ) × (size : List ℕ) × (length content ≤ max_content_len)
      × (length content_sig ≡ sig_len)
      × (pack_str filename ≡ ok name)
      × (pack_str mime ≡ ok kind)
      × (pack_u32 (length content) ≡ ok size)
      × (name ++ (kind ++ (size ++ (content ++ content_sig))) ≡ blob)
unfolding pack_payload
pack_payload_inv filename mime content content_sig blob h =
    elim (Bool-cases (ltb max_content_len (length content))) [
      | inl long ↦ absurd (cc (rw long at h))
      | inr short ↦ elim (Bool-cases (length content_sig == sig_len)) [
        | inr wrong ↦ absurd (cc (rw (short, wrong) at h))
        | inl right ↦
            let (name, e1, h1) = >>=-eq-ok (pack_str filename) _ (rw (short, right) at h) in
            let (kind, e2, h2) = >>=-eq-ok (pack_str mime) _ h1 in
            let (size, e3, h3) = >>=-eq-ok (pack_u32 (length content)) _ h2 in
            (
              name,
              kind,
              size,
              ltb→le max_content_len (length content) short,
              (==_iff (length content_sig) sig_len).0 right,
              e1,
              e2,
              e3,
              cc h3,
            )
      ]
    ]

-- The steps of `unpack_payload`, when each returns.
read_payload_ok :
    (filename mime : Text) (content content_sig : List ℕ) (r0 r1 r2 r3 r4 r5 : Reader)
    → length content ≤ max_content_len
    → read_str r0 ≡ ok (filename, r1)
    → read_str r1 ≡ ok (mime, r2)
    → read_u32 r2 ≡ ok (length content, r3)
    → read (length content) r3 ≡ ok (content, r4)
    → read sig_len r4 ≡ ok (content_sig, r5)
    → assert_done r5 ≡ ok (tt, r5)
    → read_payload r0
      ≡ ok (
        record { filename = filename; mime = mime; content = content; content_sig = content_sig },
        r5,
      )
unfolding read_payload ◌>>=◌ lift pure
read_payload_ok filename mime content content_sig r0 r1 r2 r3 r4 r5 short e0 e1 e2 e3 e4 e5 =
    rw (e0, e1, e2, le→leb (length content) max_content_len short, e3, e4, e5)

-- Unpacking a payload that was packed gives back its name, type, content and signature.
pub unpack_payload-pack_payload :
    (filename mime : Text) (content content_sig blob : List ℕ)
    → pack_payload filename mime content content_sig ≡ ok blob
    → unpack_payload blob
      ≡ ok (record {
        filename = filename;
        mime = mime;
        content = content;
        content_sig = content_sig;
      })
unfolding unpack_payload
unpack_payload-pack_payload filename mime content content_sig blob packed =
    let (name, kind, size, short, sig, e0, e1, e2, split) =
      pack_payload_inv filename mime content content_sig blob packed in
    let s0 = name ++ (kind ++ (size ++ (content ++ content_sig))) in
    let r0 = open_reader s0 in
    let a0 = At-open s0 in
    let a1 = At-advance r0 name _ a0 in
    let r1 = advance r0 (length name) in
    let a2 = At-advance r1 kind _ a1 in
    let r2 = advance r1 (length kind) in
    let a3 = At-advance r2 size _ a2 in
    let r3 = advance r2 (length size) in
    let a4 = At-advance r3 content content_sig a3 in
    let r4 = advance r3 (length content) in
    let a4' = subst (At r4) (sym (append-nil content_sig)) a4 in
    let r5 = advance r4 (length content_sig) in
    let a5 = At-advance r4 content_sig [] a4' in
    let whole =
      read_payload_ok filename mime content content_sig r0 r1 r2 r3 r4 r5 short
        (read_str-IsCodec.forward filename name _ r0 e0 a0)
        (read_str-IsCodec.forward mime kind _ r1 e1 a1)
        (unfold read_u32 pack_u32 in (read_uint-IsCodec 4).forward (length content) size _ r2 e2 a2)
        ((read-IsCodec (length content)).forward content content content_sig r3
          (pack_fixed_ok (length content) content refl) a3)
        ((read-IsCodec sig_len).forward content_sig content_sig [] r4
          (pack_fixed_ok sig_len content_sig sig) a4')
        (done_forward r5 a5) in
    ap unpack_payload (sym split) ∙ rw whole refl
