-- ===== src/Formats/Document/RoundTrip.antt =====
-- Whole documents: unpacking what was packed, and packing what was unpacked.
use mathlib.Core.Path.{subst}
use crypto_project.Base.{
  ℕ, ◌+◌, ◌-◌, List, [], ◌++◌, length, length-append, length-drop, append-nil, take-append_exact,
  ◌==◌, ==_iff, le→ltb, Bool-cases, inl, inr, ok, >>=-eq-ok, ◌≡◌, refl, sym, ap, ◌∙◌, arith,
}
use native.Mathlib.Nat.{zero-add}
use crypto_project.Formats.Reader.{
  Reader, ◌>>=◌, pure, lift, open_reader, read, remaining, assert_done,
}
use crypto_project.Formats.Codec.{At, At-advance, advance, pack_fixed_ok, read-IsCodec}
use crypto_project.Formats.Document.{
  doc_id_len, nonce_len, tag_len, DocumentHeader, document_header, pack_document_header,
  pack_document, read_header, consumed, read_ciphertext, read_document, unpack_document,
}
use crypto_project.Formats.Document.Laws.{header_forward}

pub At-open : (s : List ℕ) → At (open_reader s) s
unfolding open_reader
At-open s = record { ahead = refl; inside = omega arith }

pub remaining_lem : (r : Reader) (s : List ℕ) → At r s → remaining r ≡ length s
unfolding remaining
remaining_lem r s h = omega (arith, ap length h.ahead, length-drop r.pos r.buf)

fixed :
    (n : ℕ) (w t : List ℕ) (r : Reader)
    → length w ≡ n
    → At r (w ++ t)
    → read n r ≡ ok (w, advance r (length w))
fixed n w t r size h = (read-IsCodec n).forward w w t r (pack_fixed_ok n w size) h

ciphertext_forward :
    (ct tag : List ℕ) (r : Reader)
    → length tag ≡ tag_len
    → At r (ct ++ tag)
    → read_ciphertext r ≡ ok (ct, advance r (length ct))
unfolding read_ciphertext
ciphertext_forward ct tag r size h =
    let left : remaining r ≡ length ct + 16 =
      remaining_lem r (ct ++ tag) h ∙ omega (arith, length-append ct tag) in
    rw (le→ltb (remaining r) tag_len (omega arith))
      (fixed (remaining r - tag_len) ct tag r (omega arith) h)

pub done_forward : (r : Reader) → At r [] → assert_done r ≡ ok (tt, r)
unfolding assert_done lift
done_forward r h = rw (remaining_lem r [] h)

consumed_forward :
    (w t : List ℕ)
    → consumed (advance (open_reader (w ++ t)) (length w))
      ≡ ok (w, advance (open_reader (w ++ t)) (length w))
unfolding consumed advance open_reader
consumed_forward w t = rw zero-add (
    ap (λ x. ok (x, record { buf = w ++ t; pos = length w }))
      (take-append_exact (length w) w t refl))

pack_document_inv :
    (hdr : DocumentHeader) (nonce ct tag blob : List ℕ)
    → pack_document hdr nonce ct tag ≡ ok blob
    → (aad : List ℕ) × (length nonce ≡ nonce_len)
      × (length tag ≡ tag_len)
      × (pack_document_header hdr ≡ ok aad)
      × (aad ++ (nonce ++ (ct ++ tag)) ≡ blob)
unfolding pack_document
pack_document_inv hdr nonce ct tag blob h = elim (Bool-cases (length nonce == nonce_len)) [
  | inr n ↦ absurd (cc (rw n at h))
  | inl n ↦ elim (Bool-cases (length tag == tag_len)) [
    | inr t ↦ absurd (cc (rw (n, t) at h))
    | inl t ↦
        let (aad, packed, last) = >>=-eq-ok (pack_document_header hdr) _ (rw (n, t) at h) in
        (aad, (==_iff (length nonce) 12).0 n, (==_iff (length tag) 16).0 t, packed, cc last)
  ]
]

-- The steps of `unpack_document`, when each returns.
read_document_ok :
    (hdr : DocumentHeader) (aad nonce ct tag : List ℕ) (r0 r1 r2 r3 r4 : Reader)
    → length hdr.doc_id ≡ doc_id_len
    → read_header r0 ≡ ok ((hdr.doc_id, hdr.owner, hdr.version, hdr.created_ms), r1)
    → consumed r1 ≡ ok (aad, r1)
    → read nonce_len r1 ≡ ok (nonce, r2)
    → read_ciphertext r2 ≡ ok (ct, r3)
    → read tag_len r3 ≡ ok (tag, r4)
    → assert_done r4 ≡ ok (tt, r4)
    → read_document r0
      ≡ ok
          (record { header = hdr; header_aad = aad; nonce = nonce; ciphertext = ct; tag = tag }, r4)
unfolding read_document ◌>>=◌ lift pure document_header
read_document_ok hdr aad nonce ct tag r0 r1 r2 r3 r4 size e0 e1 e2 e3 e4 e5 =
    rw (e0, e1, e2, e3, e4, e5, size)

-- Unpacking a packed document gives back its header, nonce, ciphertext and tag, and the header's
-- bytes as they were authenticated, for every header whose doc_id has 16 bytes.
pub unpack_document-pack_document :
    (hdr : DocumentHeader) (nonce ct tag blob : List ℕ)
    → length hdr.doc_id ≡ doc_id_len
    → pack_document hdr nonce ct tag ≡ ok blob
    → (aad : List ℕ) × (pack_document_header hdr ≡ ok aad)
      × (unpack_document blob
          ≡ ok (record {
            header = hdr;
            header_aad = aad;
            nonce = nonce;
            ciphertext = ct;
            tag = tag;
          }))
unpack_document-pack_document hdr nonce ct tag blob size packed =
    let (aad, ns, ts, header, split) = pack_document_inv hdr nonce ct tag blob packed in
    (aad, header, ap unpack_document (sym split) ∙ run aad ns ts header)
  where
    run :
        (aad : List ℕ)
        → length nonce ≡ nonce_len
        → length tag ≡ tag_len
        → pack_document_header hdr ≡ ok aad
        → unpack_document (aad ++ (nonce ++ (ct ++ tag)))
          ≡ ok
              (record { header = hdr; header_aad = aad; nonce = nonce; ciphertext = ct; tag = tag })
    run aad ns ts header =
        let r0 = open_reader (aad ++ (nonce ++ (ct ++ tag))) in
        let a0 = At-open (aad ++ (nonce ++ (ct ++ tag))) in
        let r1 = advance r0 (length aad) in
        let a1 = At-advance r0 aad (nonce ++ (ct ++ tag)) a0 in
        let r2 = advance r1 (length nonce) in
        let a2 = At-advance r1 nonce (ct ++ tag) a1 in
        let r3 = advance r2 (length ct) in
        let a3 = At-advance r2 ct tag a2 in
        let a3' = subst (At r3) (sym (append-nil tag)) a3 in
        let r4 = advance r3 (length tag) in
        let a4 = At-advance r3 tag [] a3' in
        let e1 = consumed_forward aad (nonce ++ (ct ++ tag)) in
        let whole =
          read_document_ok hdr aad nonce ct tag r0 r1 r2 r3 r4 size
            (header_forward hdr aad (nonce ++ (ct ++ tag)) r0 size header a0) e1
            (fixed nonce_len nonce (ct ++ tag) r1 ns a1) (ciphertext_forward ct tag r2 ts a2)
            (fixed tag_len tag [] r3 ts a3') (done_forward r4 a4) in
        unfold unpack_document in rw whole refl
