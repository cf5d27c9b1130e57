-- ===== src/Wire/Frame/RoundTrip.antt =====
-- What is sent with `send_message` is received by `recv_message`.
use crypto_project.Base.{
  ok-injective, ℕ, ◌+◌, ◌≤◌, List, [], ◌∷◌, ◌++◌, length, length-append, append_assoc, take, drop,
  take-append_exact, drop-append_exact, some, leb, leb→le, le→leb, Outcome, ok, require, >>=-eq-ok,
  require-eq-ok, ◌≡◌, ◌≢◌, refl, sym, ap, ◌∙◌, arith,
}
use crypto_project.Bytes.{to_bytes, from_bytes, be_bytes}
use crypto_project.Bytes.Laws.{length-be_bytes, to_bytes_fits, from_bytes-be_bytes}
use crypto_project.Text.{Text}
use crypto_project.Text as Text
use crypto_project.Text.Utf8.{decode-encode_iff}
use crypto_project.Wire.{MsgType, msg_code, msg_type}
use crypto_project.Wire.Json.{Json, obj, Fields}
use crypto_project.Wire.Frame.{
  max_message_len, encode, as_dict, decode_payload, with_type, decode, Socket, recv_message,
}
use crypto_project.Wire.Frame.Chunks.{bytes_of, IsOpen, recv_exact-prefix}

msg_type-msg_code : (t : MsgType) → msg_type (msg_code t) ≡ some t
unfolding msg_type msg_code
msg_type-msg_code MsgType.register = refl
msg_type-msg_code MsgType.login_challenge_req = refl
msg_type-msg_code MsgType.login_response = refl
msg_type-msg_code MsgType.get_user_pubkey = refl
msg_type-msg_code MsgType.upload = refl
msg_type-msg_code MsgType.share = refl
msg_type-msg_code MsgType.get_doc = refl
msg_type-msg_code MsgType.list_docs = refl
msg_type-msg_code MsgType.get_salt = refl
msg_type-msg_code MsgType.change_password = refl
msg_type-msg_code MsgType.ok_reply = refl
msg_type-msg_code MsgType.error_reply = refl
msg_type-msg_code MsgType.login_challenge = refl
msg_type-msg_code MsgType.doc = refl
msg_type-msg_code MsgType.user_pubkey = refl
msg_type-msg_code MsgType.doc_list = refl

-- A frame: the length, the type and the body, which is within the limit.
record IsFrame (write_json : Fields → Text) (t : MsgType) (payload : Fields) (frame : List ℕ)
    : Type 0 where
  body : List ℕ
  encoded : Text.encode (write_json payload) ≡ ok body
  short : 1 + length body ≤ max_message_len
  shape : frame ≡ be_bytes 4 (1 + length body) ++ (msg_code t ∷ body)

encode→IsFrame :
    (write_json : Fields → Text) (t : MsgType) (payload : Fields) (frame : List ℕ)
    → encode write_json t payload ≡ ok frame
    → IsFrame write_json t payload frame
unfolding encode
encode→IsFrame write_json t payload frame h =
    let (body, e, h1) = >>=-eq-ok (Text.encode (write_json payload)) _ h in
    let (u, r, h2) = >>=-eq-ok (require (leb (1 + length body) max_message_len) _) _ h1 in
    let short = leb→le (1 + length body) max_message_len (require-eq-ok _ _ r) in
    let (head, m, h3) = >>=-eq-ok (to_bytes 4 (1 + length body)) _ h2 in
    let same : be_bytes 4 (1 + length body) ≡ head =
      ok-injective (sym (to_bytes_fits 4 (1 + length body) (omega (arith, short))) ∙ m) in
    record {
      body = body;
      encoded = e;
      short = short;
      shape = sym (ok-injective h3) ∙ ap (λ z. z ++ (msg_code t ∷ body)) (sym same);
    }

decode_nil : Text.decode [] ≡ ok []
unfolding Text.decode Text.decode_loop
decode_nil = refl

decode_payload-body :
    (read_json : Text → Outcome Json) (text : Text) (body : List ℕ) (back : Fields)
    → Text.encode text ≡ ok body
    → text ≢ []
    → read_json text ≡ ok (obj back)
    → decode_payload read_json body ≡ ok back
unfolding decode_payload as_dict
decode_payload-body read_json text [] back e some_text reads =
    absurd (some_text (ok-injective (sym ((decode-encode_iff text []).0 e) ∙ decode_nil)))
decode_payload-body read_json text (b ∷ bs) back e some_text reads =
    rw ((decode-encode_iff text (b ∷ bs)).0 e, reads) refl

-- Where a message is encoded, its JSON text is not empty and reads back as a dict, and the frame and
-- any bytes after it arrive in any pieces that are not empty, `recv_message` gives the message's
-- type and that dict, and leaves the bytes after the frame.
pub recv_message-encode :
    (write_json : Fields → Text) (read_json : Text → Outcome Json) (t : MsgType)
    (payload back : Fields) (frame rest : List ℕ) (s : Socket)
    → encode write_json t payload ≡ ok frame
    → write_json payload ≢ []
    → read_json (write_json payload) ≡ ok (obj back)
    → bytes_of s ≡ frame ++ rest
    → IsOpen s
    → (left : Socket) × (recv_message read_json s ≡ ok ((t, back), left)) × (bytes_of left ≡ rest)
unfolding recv_message decode with_type
recv_message-encode write_json read_json t payload back frame rest s h some_text reads arrives
      open_s =
    let f = encode→IsFrame write_json t payload frame h in
    let size = 1 + length f.body in
    let head = be_bytes 4 size in
    let whole : bytes_of s ≡ head ++ ((msg_code t ∷ f.body) ++ rest) =
      arrives ∙ ap (λ z. z ++ rest) f.shape ∙ append_assoc head (msg_code t ∷ f.body) rest in
    let long : length (bytes_of s) ≡ 4 + (size + length rest) = omega (
      arith,
      ap length whole,
      length-append head ((msg_code t ∷ f.body) ++ rest),
      length-append f.body rest,
      length-be_bytes 4 size,
    ) in
    let (s1, r1, b1, o1) = recv_exact-prefix 4 s (omega (arith, long)) open_s in
    let first : take 4 (bytes_of s) ≡ head =
      ap (take 4) whole ∙ take-append_exact 4 head _ (length-be_bytes 4 size) in
    let then_body : bytes_of s1 ≡ (msg_code t ∷ f.body) ++ rest =
      b1 ∙ ap (drop 4) whole ∙ drop-append_exact 4 head _ (length-be_bytes 4 size) in
    let (s2, r2, b2, o2) =
      recv_exact-prefix size s1 (omega (arith, ap length then_body, length-append f.body rest))
        o1 in
    let second : take size (bytes_of s1) ≡ msg_code t ∷ f.body =
      ap (take size) then_body ∙ take-append_exact size (msg_code t ∷ f.body) rest (omega arith) in
    let value : from_bytes head ≡ size = from_bytes-be_bytes 4 size (omega (arith, f.short)) in
    (
      s2,
      rw
          (
            r1,
            first,
            value,
            le→leb 1 size (omega arith),
            le→leb size max_message_len f.short,
            r2,
            second,
            msg_type-msg_code t,
            decode_payload-body read_json (write_json payload) f.body back f.encoded some_text
                reads,
          )
          refl,
      b2
          ∙ ap (drop size) then_body
          ∙ drop-append_exact size (msg_code t ∷ f.body) rest (omega arith),
    )
