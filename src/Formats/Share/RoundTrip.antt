-- ===== src/Formats/Share/RoundTrip.antt =====
-- Shares: packing and unpacking are inverse to each other.
use mathlib.Core.Path.{subst}
use crypto_project.Base.{
  ℕ, List, [], ◌∷◌, ◌++◌, length, append-nil, ok, require, value_error, >>=-eq-ok, ◌==◌, ==_iff,
  ◌≡◌, ◌↔◌, refl, sym, ap, ◌∙◌, arith,
}
use crypto_project.Bytes.{IsBytes}
use crypto_project.Formats.Reader.{Reader, pure, open_reader, remaining, assert_done}
use crypto_project.Formats.Codec.{At, At-advance, advance}
use crypto_project.Formats.Codec.Strings.{bind_ok, bind_inv, lift_inv, require_inv}
use crypto_project.Formats.Document.RoundTrip.{At-open, done_forward, remaining_lem}
use crypto_project.Formats.Share.{Share, pack_share, read_share, unpack_share}
use crypto_project.Formats.Share.Laws.{
  ShareFields, read_fields, pack_fields, fields-IsCodec, fields_of, share_of, read_share-eq-fields,
  pack_share-iff-fields,
}

-- A cursor before nothing is at the end.
pub done_backward :
    (r r' : Reader) (t : List ℕ) (u : Unit {0}) → At r t → assert_done r ≡ ok (u, r') → t ≡ []
unfolding assert_done
done_backward r r' t u h e =
    let (req, _) = lift_inv (require (remaining r == 0) value_error) r e in
    nil_of t (
      sym (remaining_lem r t h) ∙ (==_iff (remaining r) 0).0 (require_inv (remaining r == 0) u req))
  where
    nil_of : (t : List ℕ) → length t ≡ 0 → t ≡ []
    nil_of [] e = refl
    nil_of (x ∷ xs) e = absurd (omega (arith, e))

share_of-fields_of : (s : Share) → share_of (fields_of s) ≡ s
unfolding share_of fields_of
share_of-fields_of s = refl

read_share_ok :
    (s : Share) (w : List ℕ)
    → pack_fields (fields_of s) ≡ ok w
    → read_share (open_reader w) ≡ ok (s, advance (open_reader w) (length w))
read_share_ok s w packed =
    let r0 = open_reader w in
    let a0 = subst (At r0) (sym (append-nil w)) (At-open w) in
    let r1 = advance r0 (length w) in
    ap (λ m. m r0) read_share-eq-fields
    ∙ bind_ok read_fields _ r0 (fields-IsCodec.forward (fields_of s) w [] r0 packed a0)
    ∙ bind_ok assert_done _ r1 (done_forward r1 (At-advance r0 w [] a0))
    ∙ unfold pure in ap (λ x. ok (x, r1)) (share_of-fields_of s)

fields_of-share_of : (f : ShareFields) → f ≡ fields_of (share_of f)
unfolding share_of fields_of
fields_of-share_of f = refl

last_step :
    (f : ShareFields) (s : Share) (r r' : Reader)
    → pure (share_of f) r ≡ ok (s, r')
    → f ≡ fields_of s
unfolding pure
last_step f s r r' q = fields_of-share_of f ∙ ap fields_of (cc q)

read_share_inv :
    (s : Share) (blob : List ℕ) (r' : Reader)
    → IsBytes blob
    → read_share (open_reader blob) ≡ ok (s, r')
    → pack_fields (fields_of s) ≡ ok blob
read_share_inv s blob r' bytes h =
    let r0 = open_reader blob in
    let (f, r1, got, h1) =
      bind_inv read_fields _ r0 (ap (λ m. m r0) (sym read_share-eq-fields) ∙ h) in
    let (u, r2, ended, h2) = bind_inv assert_done _ r1 h1 in
    let (w, t, packed, split, moved) =
      fields-IsCodec.backward f blob r0 r1 bytes (At-open blob) got in
    let at1 =
      subst (λ x. At x t) (sym moved) (At-advance r0 w t (subst (At r0) split (At-open blob))) in
    let whole : w ≡ blob =
      sym (split ∙ ap (λ x. w ++ x) (done_backward r1 r2 t u at1 ended) ∙ append-nil w) in
    ap pack_fields (sym (last_step f s r2 r' h2)) ∙ packed ∙ ap ok whole

-- A share that was packed is unpacked again.
pub unpack_share-pack_share :
    (s : Share) (blob : List ℕ) → pack_share s ≡ ok blob → unpack_share blob ≡ ok s
unfolding unpack_share
unpack_share-pack_share s blob h =
    rw (read_share_ok s blob ((pack_share-iff-fields s blob).0 h)) refl

-- On bytes, `unpack_share` returns a share exactly if `pack_share` packs this share into those bytes.
pub unpack_share_iff :
    (s : Share) (blob : List ℕ)
    → IsBytes blob
    → (unpack_share blob ≡ ok s) ↔ (pack_share s ≡ ok blob)
unfolding unpack_share
unpack_share_iff s blob bytes = (
  λ h.
      let ((s', r'), read, same) = >>=-eq-ok (read_share (open_reader blob)) _ h in
      let same' : s' ≡ s = cc same in
      (pack_share-iff-fields s blob).1
        (read_share_inv s blob r' bytes (read ∙ ap (λ x. ok (x, r')) same')),
  unpack_share-pack_share s blob,
)
