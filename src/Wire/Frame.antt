-- ===== src/Wire/Frame.antt =====
-- The framing of common/wire.py. A socket is the list of the pieces in which its bytes arrive; an
-- empty piece, and the end of the list, are what `recv` reports when the peer has closed.
-- `json.dumps` and `json.loads` are the parameters `write_json` and `read_json`.
pub mod Chunks
pub mod RoundTrip
use crypto_project.Base.{
  ℕ, zero, suc, ◌+◌, ◌-◌, ◌*◌, min, Bool, true, false, List, [], ◌∷◌, ◌++◌, length, take, drop,
  Option, none, some, ltb, leb, ◌==◌, if◌then◌else◌, Outcome, ok, raise, require, ◌>>=◌, ◌>>◌,
  value_error, runtime_error, connection_error,
}
use crypto_project.Bytes.{to_bytes, from_bytes}
use crypto_project.Text.{Text}
use crypto_project.Text as Text
use crypto_project.Wire.{MsgType, msg_code, msg_type}
use crypto_project.Wire.Json.{Json, obj, Fields, end}

abbrev pub max_message_len : ℕ
max_message_len = 128 * 1024 * 1024

unfoldable pub encode : (Fields → Text) → MsgType → Fields → Outcome (List ℕ)
encode write_json t payload = do
  body ← Text.encode (write_json payload)
  require (leb (1 + length body) max_message_len) value_error
  head ← to_bytes 4 (1 + length body)
  ok (head ++ (msg_code t ∷ body))

-- `isinstance(payload, dict)`
unfoldable pub as_dict : Json → Outcome Fields
as_dict (obj fs) = ok fs
as_dict other = raise value_error

unfoldable pub decode_payload : (Text → Outcome Json) → List ℕ → Outcome Fields
decode_payload read_json [] = ok end
decode_payload read_json (b ∷ bs) = do s ← Text.decode (b ∷ bs); value ← read_json s; as_dict value

unfoldable pub with_type : Option MsgType → Outcome Fields → Outcome (MsgType × Fields)
with_type none payload = raise value_error
with_type (some t) payload = payload >>= λ fs. ok (t, fs)

unfoldable pub decode : (Text → Outcome Json) → List ℕ → Outcome (MsgType × Fields)
decode read_json [] = raise value_error
decode read_json (b ∷ bs) = with_type (msg_type b) (decode_payload read_json bs)

abbrev pub Socket : Type 0
Socket = List (List ℕ)

-- What is left of a piece goes before the other pieces.
unfoldable pub push : List ℕ → Socket → Socket
push [] pieces = pieces
push (b ∷ bs) pieces = (b ∷ bs) ∷ pieces

-- `sock.recv(n)`
unfoldable pub recv : ℕ → Socket → List ℕ × Socket
recv n [] = ([], [])
recv n (piece ∷ pieces) = (take n piece, push (drop n piece) pieces)

unfoldable pub after_recv :
    List ℕ × Socket → (List ℕ → Socket → Outcome (List ℕ × Socket)) → Outcome (List ℕ × Socket)
after_recv ([], left) next = raise connection_error
after_recv (b ∷ bs, left) next = next (b ∷ bs) left

-- The loop of `_recv_exact`, with the bytes it has.
unfoldable pub recv_loop : ℕ → ℕ → List ℕ → Socket → Outcome (List ℕ × Socket)
recv_loop fuel zero got s = ok (got, s)
recv_loop zero (suc m) got s = raise runtime_error
recv_loop (suc fuel) (suc m) got s =
    after_recv (recv (min (suc m) 65536) s)
      (λ chunk left. recv_loop fuel (suc m - length chunk) (got ++ chunk) left)

-- Every turn takes at least one byte.
unfoldable pub recv_exact : ℕ → Socket → Outcome (List ℕ × Socket)
recv_exact n s = recv_loop n n [] s

unfoldable pub recv_message : (Text → Outcome Json) → Socket → Outcome ((MsgType × Fields) × Socket)
recv_message read_json s = do
  head ← recv_exact 4 s
  let n = from_bytes head.0
  require (leb 1 n) value_error
  require (leb n max_message_len) value_error
  body ← recv_exact n head.1
  message ← decode read_json body.0
  ok (message, body.1)
