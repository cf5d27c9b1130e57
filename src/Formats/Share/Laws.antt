-- ===== src/Formats/Share/Laws.antt =====
-- Shares as nested pairs of codecs.
use crypto_project.Base.{
  ok-injective, ℕ, List, ◌++◌, length, append_assoc, ◌==◌, ==_iff, Bool-cases, inl, inr, Outcome,
  ok, require, value_error, >>=-eq-ok, require-eq-ok, ◌≡◌, ◌↔◌, refl, ap, ap₂, ◌∙◌,
}
use crypto_project.Text.{Text}
use crypto_project.Formats.Reader.{
  Read, ◌>>=◌, pure, pack_u32, pack_u64, pack_str, read, read_u32, read_u64, read_str, read_magic,
  assert_done,
}
use crypto_project.Formats.Codec.{
  IsCodec, read-IsCodec, read_uint-IsCodec, pack_fixed, pack_fixed_ok, pack_fixed_inv,
}
use crypto_project.Formats.Codec.Strings.{pack_magic, read_magic-IsCodec, read_str-IsCodec}
use crypto_project.Formats.Codec.Pairs.{
  bind_assoc, pure-bind, pack_pair, pack_pair_inv, read_pair, pair-IsCodec,
}
use crypto_project.Formats.Document.{doc_id_len, nonce_len, tag_len}
use crypto_project.Formats.Payload.{sig_len}
use crypto_project.Formats.Share.{
  doc_hash_len, eph_pub_len, wrapped_fk_len, magic_share, Share, check_lengths, pack_share_body,
  pack_share, read_share,
}

abbrev pub ShareFields : Type 0
ShareFields =
    Unit {0}
    × (List ℕ
        × (ℕ
            × (List ℕ
                × (Text × (Text × (ℕ × (List ℕ × (List ℕ × (List ℕ × (List ℕ × List ℕ))))))))))

pub pack_fields : ShareFields → Outcome (List ℕ)
pack_fields = pack_pair (pack_magic magic_share) (
    pack_pair (pack_fixed doc_id_len) (
      pack_pair pack_u32 (
        pack_pair (pack_fixed doc_hash_len) (
          pack_pair pack_str (
            pack_pair pack_str (
              pack_pair pack_u64 (
                pack_pair (pack_fixed eph_pub_len) (
                  pack_pair (pack_fixed nonce_len) (
                    pack_pair (pack_fixed wrapped_fk_len)
                      (pack_pair (pack_fixed tag_len) (pack_fixed sig_len)))))))))))

pub read_fields : Read ShareFields
read_fields = read_pair (read_magic magic_share) (
    read_pair (read doc_id_len) (
      read_pair read_u32 (
        read_pair (read doc_hash_len) (
          read_pair read_str (
            read_pair read_str (
              read_pair read_u64 (
                read_pair (read eph_pub_len) (
                  read_pair (read nonce_len) (
                    read_pair (read wrapped_fk_len)
                      (read_pair (read tag_len) (read sig_len)))))))))))

pub fields-IsCodec : IsCodec pack_fields read_fields
unfolding pack_fields read_fields pack_u32 pack_u64 read_u32 read_u64
fields-IsCodec = pair-IsCodec (read_magic-IsCodec magic_share refl) (
    pair-IsCodec (read-IsCodec doc_id_len) (
      pair-IsCodec (read_uint-IsCodec 4) (
        pair-IsCodec (read-IsCodec doc_hash_len) (
          pair-IsCodec read_str-IsCodec (
            pair-IsCodec read_str-IsCodec (
              pair-IsCodec (read_uint-IsCodec 8) (
                pair-IsCodec (read-IsCodec eph_pub_len) (
                  pair-IsCodec (read-IsCodec nonce_len) (
                    pair-IsCodec (read-IsCodec wrapped_fk_len)
                      (pair-IsCodec (read-IsCodec tag_len) (read-IsCodec sig_len)))))))))))

unfoldable pub share_of : ShareFields → Share
share_of (u, (a, (v, (h, (s, (r, (i, (e, (n, (k, (t, g))))))))))) = record {
  doc_id = a;
  version = v;
  doc_hash = h;
  sender = s;
  recipient = r;
  issued_ms = i;
  eph_pub = e;
  nonce = n;
  wrapped_fk = k;
  tag = t;
  share_sig = g;
}

unfoldable pub fields_of : Share → ShareFields
fields_of s = (
  tt,
  (
    s.doc_id,
    (
      s.version,
      (
        s.doc_hash,
        (
          s.sender,
          (
            s.recipient,
            (s.issued_ms, (s.eph_pub, (s.nonce, (s.wrapped_fk, (s.tag, s.share_sig))))),
          ),
        ),
      ),
    ),
  ),
)

pub read_share-eq-fields :
    read_share ≡ (read_fields >>= λ f. assert_done >>= λ _. pure (share_of f))
unfolding read_share read_fields read_pair share_of
read_share-eq-fields = simp (bind_assoc, pure-bind)

-- What `pack_share` writes for `s` is `w`.
record IsPacked (s : Share) (w : List ℕ) : Type 0 where
  a : length s.doc_id ≡ doc_id_len
  h : length s.doc_hash ≡ doc_hash_len
  e : length s.eph_pub ≡ eph_pub_len
  n : length s.nonce ≡ nonce_len
  k : length s.wrapped_fk ≡ wrapped_fk_len
  t : length s.tag ≡ tag_len
  g : length s.share_sig ≡ sig_len
  version : List ℕ
  sender : List ℕ
  recipient : List ℕ
  issued_ms : List ℕ
  packed_version : pack_u32 s.version ≡ ok version
  packed_sender : pack_str s.sender ≡ ok sender
  packed_recipient : pack_str s.recipient ≡ ok recipient
  packed_issued_ms : pack_u64 s.issued_ms ≡ ok issued_ms
  whole :
      magic_share
        ++ (s.doc_id
            ++ (version
                ++ (s.doc_hash
                    ++ (sender
                        ++ (recipient
                            ++ (issued_ms
                                ++ (s.eph_pub
                                    ++ (s.nonce ++ (s.wrapped_fk ++ (s.tag ++ s.share_sig))))))))))
      ≡ w

require_len : (n m : ℕ) {u : Unit {0}} → require (n == m) value_error ≡ ok u → n ≡ m
require_len n m h = (==_iff n m).0 (require-eq-ok (n == m) value_error h)

pack_share-IsPacked : (s : Share) (w : List ℕ) → pack_share s ≡ ok w → IsPacked s w
unfolding pack_share pack_share_body check_lengths
pack_share-IsPacked s w packed = elim (Bool-cases (length s.share_sig == sig_len)) [
  | inr f ↦ absurd (cc (rw f at packed))
  | inl right ↦
      let (body, made, last) = >>=-eq-ok (pack_share_body s) _ (rw right at packed) in
      let (_, lengths, h1) = >>=-eq-ok (check_lengths s) _ made in
      let (_, la, h2) = >>=-eq-ok (require (length s.doc_id == doc_id_len) value_error) _ lengths in
      let (_, lh, h3) = >>=-eq-ok (require (length s.doc_hash == doc_hash_len) value_error) _ h2 in
      let (_, le, h4) = >>=-eq-ok (require (length s.eph_pub == eph_pub_len) value_error) _ h3 in
      let (_, ln, h5) = >>=-eq-ok (require (length s.nonce == nonce_len) value_error) _ h4 in
      let (_, lk, lt) =
        >>=-eq-ok (require (length s.wrapped_fk == wrapped_fk_len) value_error) _ h5 in
      let (v, pv, g1) = >>=-eq-ok (pack_u32 s.version) _ h1 in
      let (a, pa, g2) = >>=-eq-ok (pack_str s.sender) _ g1 in
      let (b, pb, g3) = >>=-eq-ok (pack_str s.recipient) _ g2 in
      let (c, pc, g4) = >>=-eq-ok (pack_u64 s.issued_ms) _ g3 in
      record {
        a = require_len (length s.doc_id) doc_id_len la;
        h = require_len (length s.doc_hash) doc_hash_len lh;
        e = require_len (length s.eph_pub) eph_pub_len le;
        n = require_len (length s.nonce) nonce_len ln;
        k = require_len (length s.wrapped_fk) wrapped_fk_len lk;
        t = require_len (length s.tag) tag_len lt;
        g = (==_iff (length s.share_sig) sig_len).0 right;
        version = v;
        sender = a;
        recipient = b;
        issued_ms = c;
        packed_version = pv;
        packed_sender = pa;
        packed_recipient = pb;
        packed_issued_ms = pc;
        whole = join s v a b c ∙ cc (g4, last);
      }
]
  where
    join :
        (s : Share) (v a b c : List ℕ)
        → magic_share
            ++ (s.doc_id
                ++ (v
                    ++ (s.doc_hash
                        ++ (a
                            ++ (b
                                ++ (c
                                    ++ (s.eph_pub
                                        ++ (s.nonce
                                            ++ (s.wrapped_fk ++ (s.tag ++ s.share_sig))))))))))
          ≡ (magic_share
              ++ (s.doc_id
                  ++ (v
                      ++ (s.doc_hash
                          ++ (a
                              ++ (b
                                  ++ (c
                                      ++ (s.eph_pub ++ (s.nonce ++ (s.wrapped_fk ++ s.tag))))))))))
            ++ s.share_sig
    join s v a b c = simp (append_assoc)

IsPacked-pack_share : (s : Share) (w : List ℕ) → IsPacked s w → pack_share s ≡ ok w
unfolding pack_share pack_share_body check_lengths
IsPacked-pack_share s w p =
    rw
      (
        p.a, p.h, p.e, p.n, p.k, p.t, p.g, p.packed_version, p.packed_sender, p.packed_recipient,
        p.packed_issued_ms,
      )
      (ap ok (join ∙ p.whole))
  where
    join :
        (magic_share
            ++ (s.doc_id
                ++ (p.version
                    ++ (s.doc_hash
                        ++ (p.sender
                            ++ (p.recipient
                                ++ (p.issued_ms
                                    ++ (s.eph_pub ++ (s.nonce ++ (s.wrapped_fk ++ s.tag))))))))))
          ++ s.share_sig
        ≡ magic_share
          ++ (s.doc_id
              ++ (p.version
                  ++ (s.doc_hash
                      ++ (p.sender
                          ++ (p.recipient
                              ++ (p.issued_ms
                                  ++ (s.eph_pub
                                      ++ (s.nonce
                                          ++ (s.wrapped_fk ++ (s.tag ++ s.share_sig))))))))))
    join = simp (append_assoc)

IsPacked-pack_fields : (s : Share) (w : List ℕ) → IsPacked s w → pack_fields (fields_of s) ≡ ok w
unfolding pack_fields fields_of pack_pair pack_magic
IsPacked-pack_fields s w p =
    rw
      (
        pack_fixed_ok doc_id_len s.doc_id p.a,
        pack_fixed_ok doc_hash_len s.doc_hash p.h,
        pack_fixed_ok eph_pub_len s.eph_pub p.e,
        pack_fixed_ok nonce_len s.nonce p.n,
        pack_fixed_ok wrapped_fk_len s.wrapped_fk p.k,
        pack_fixed_ok tag_len s.tag p.t,
        pack_fixed_ok sig_len s.share_sig p.g,
        p.packed_version,
        p.packed_sender,
        p.packed_recipient,
        p.packed_issued_ms,
      )
      (ap ok p.whole)

joined : {a b x y w : List ℕ} → a ≡ x → b ≡ y → x ++ y ≡ w → a ++ b ≡ w
joined p q j = ap₂ (λ u v. u ++ v) p q ∙ j

pack_fields-IsPacked : (s : Share) (w : List ℕ) → pack_fields (fields_of s) ≡ ok w → IsPacked s w
unfolding pack_fields fields_of pack_magic
pack_fields-IsPacked s w packed =
    let (m, w1, pm, q1, j1) = pack_pair_inv (pack_magic magic_share) _ _ _ packed in
    let (a, w2, pa, q2, j2) = pack_pair_inv (pack_fixed doc_id_len) _ _ _ q1 in
    let (v, w3, pv, q3, j3) = pack_pair_inv pack_u32 _ _ _ q2 in
    let (h, w4, ph, q4, j4) = pack_pair_inv (pack_fixed doc_hash_len) _ _ _ q3 in
    let (x, w5, px, q5, j5) = pack_pair_inv pack_str _ _ _ q4 in
    let (y, w6, py, q6, j6) = pack_pair_inv pack_str _ _ _ q5 in
    let (i, w7, pi, q7, j7) = pack_pair_inv pack_u64 _ _ _ q6 in
    let (e, w8, pe, q8, j8) = pack_pair_inv (pack_fixed eph_pub_len) _ _ _ q7 in
    let (n, w9, pn, q9, j9) = pack_pair_inv (pack_fixed nonce_len) _ _ _ q8 in
    let (k, w10, pk, q10, j10) = pack_pair_inv (pack_fixed wrapped_fk_len) _ _ _ q9 in
    let (t, g, pt, pg, j11) = pack_pair_inv (pack_fixed tag_len) _ _ _ q10 in
    let (la, ea) = pack_fixed_inv doc_id_len s.doc_id a pa in
    let (lh, eh) = pack_fixed_inv doc_hash_len s.doc_hash h ph in
    let (le, ee) = pack_fixed_inv eph_pub_len s.eph_pub e pe in
    let (ln, en) = pack_fixed_inv nonce_len s.nonce n pn in
    let (lk, ek) = pack_fixed_inv wrapped_fk_len s.wrapped_fk k pk in
    let (lt, et) = pack_fixed_inv tag_len s.tag t pt in
    let (lg, eg) = pack_fixed_inv sig_len s.share_sig g pg in
    let magic : magic_share ≡ m = ok-injective pm in
    let tag = joined et eg j11 in
    let wrapped = joined ek tag j10 in
    let nonce = joined en wrapped j9 in
    let eph = joined ee nonce j8 in
    let issued = joined refl eph j7 in
    let parties = joined refl (joined refl issued j6) j5 in
    let hash = joined eh parties j4 in
    let version = joined refl hash j3 in
    let id = joined ea version j2 in
    record {
      a = la;
      h = lh;
      e = le;
      n = ln;
      k = lk;
      t = lt;
      g = lg;
      version = v;
      sender = x;
      recipient = y;
      issued_ms = i;
      packed_version = pv;
      packed_sender = px;
      packed_recipient = py;
      packed_issued_ms = pi;
      whole = joined magic id j1;
    }

pub pack_share-iff-fields :
    (s : Share) (w : List ℕ) → (pack_share s ≡ ok w) ↔ (pack_fields (fields_of s) ≡ ok w)
pack_share-iff-fields s w = (
  λ h. IsPacked-pack_fields s w (pack_share-IsPacked s w h),
  λ h. IsPacked-pack_share s w (pack_fields-IsPacked s w h),
)
