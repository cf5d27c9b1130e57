-- ===== src/Attacker.antt =====
-- attacker/attacker_proxy.py: what one connection through the proxy does. The keys that it draws are
-- arguments, and the server behind it is a parameter with a state of its own.
pub mod Replayed
pub mod Detected
use crypto_project.Base.{
  ℕ, Bool, true, false, bit_xor, List, [], ◌∷◌, ◌++◌, Option, none, some, ◌===◌, ◌==◌,
  if◌then◌else◌, Outcome, ok, raise, unfinished, connection_error, finished, ◌>>=◌,
}
use crypto_project.Actions.{Action}
use crypto_project.Text.{Text, codes}
use crypto_project.Encodings.Base64.{b64encode}
use crypto_project.Crypto.Ecdsa.Sign.{generate_keypair}
use crypto_project.Crypto.Ecdh as Ecdh
use crypto_project.Formats.Document.{
  document_header, pack_document, ParsedDocument, unpack_document,
}
use crypto_project.Wire.{MsgType, msg_code}
use crypto_project.Wire.Json.{Json, str, Fields, end, field, Message}
use crypto_project.Client.Session.{bytes_at}

pub data Mode : Type 0 where
  passthrough flip_ciphertext flip_metadata swap_pubkey replay : Mode

pub record AttackerProxy : Type 0 where
  pub mode : Mode
  pub last_request : Option Message

-- The draws of the two pairs of keys that `swap_pubkey` makes.
pub record KeyDraws : Type 0 where
  pub sig_draws : List (List ℕ)
  pub dh_draws : List (List ℕ)

-- `payload[key] = value`
unfoldable pub set_item : Text → Json → Fields → Fields
set_item key value end = field key value end
set_item key value (field k v fs) =
    let rest = set_item key value fs in if k === key then field k value fs else field k v rest

-- `bad_ct[0] ^= 0x01`, of a ciphertext that is not empty
unfoldable pub flip_first : List ℕ → List ℕ
flip_first [] = []
flip_first (c ∷ cs) = bit_xor c 1 ∷ cs

unfoldable pub put_document : Fields → List ℕ → Fields
put_document payload blob = set_item (codes "document") (str (b64encode blob)) payload

unfoldable pub flipped : Fields → ParsedDocument → List ℕ → Outcome Fields
flipped payload parsed [] = ok payload
flipped payload parsed (c ∷ cs) = do
  new_blob ← pack_document parsed.header parsed.nonce (flip_first (c ∷ cs)) parsed.tag
  ok (put_document payload new_blob)

-- The body of the `try` of `_attack_flip_ciphertext`
unfoldable pub attack_ciphertext : Fields → Outcome Fields
attack_ciphertext payload = do
  doc_blob ← bytes_at (codes "document") payload
  parsed ← unpack_document doc_blob
  flipped payload parsed parsed.ciphertext

-- ... of `_attack_flip_metadata`
unfoldable pub attack_metadata : Fields → Outcome Fields
attack_metadata payload = do
  doc_blob ← bytes_at (codes "document") payload
  parsed ← unpack_document doc_blob
  forged_header ←
      document_header parsed.header.doc_id (parsed.header.owner ++ codes "_TAMPERED")
        parsed.header.version parsed.header.created_ms
  new_blob ← pack_document forged_header parsed.nonce parsed.ciphertext parsed.tag
  ok (put_document payload new_blob)

-- ... and of `_attack_swap_pubkey`
unfoldable pub attack_pubkey : KeyDraws → Fields → Outcome Fields
attack_pubkey draws payload = do
  sig_drawn ← generate_keypair draws.sig_draws
  sig ← finished sig_drawn
  dh_drawn ← Ecdh.generate_keypair draws.dh_draws
  dh ← finished dh_drawn
  ok (
      set_item (codes "dh_pub") (str (b64encode dh.1))
        (set_item (codes "sig_pub") (str (b64encode sig.1)) payload))

-- `except Exception as e: return payload`
unfoldable pub or_unchanged : Fields → Outcome Fields → Outcome Fields
or_unchanged payload (ok changed) = ok changed
or_unchanged payload (raise unfinished) = raise unfinished
or_unchanged payload (raise e) = ok payload

-- The payload after the attack of the mode, for a reply of the type that the mode attacks.
unfoldable pub attacked : Mode → KeyDraws → MsgType → Fields → Outcome Fields
attacked flip_ciphertext draws MsgType.doc payload =
    or_unchanged payload (attack_ciphertext payload)
attacked flip_metadata draws MsgType.doc payload = or_unchanged payload (attack_metadata payload)
attacked swap_pubkey draws MsgType.user_pubkey payload =
    or_unchanged payload (attack_pubkey draws payload)
attacked mode draws server_mt payload = ok payload

-- `_attack_response`
unfoldable pub attack_response : Mode → KeyDraws → Message → Outcome Message
attack_response mode draws reply = do
  payload ← attacked mode draws reply.0 reply.1
  ok (reply.0, payload)

-- The request that goes to the server, and what the proxy remembers.
unfoldable pub choose_by : Mode → Option Message → Message → Message × AttackerProxy
choose_by replay (some old) request = (old, record { mode = replay; last_request = some old })
choose_by mode last request = (request, record { mode = mode; last_request = some request })

unfoldable pub choose : AttackerProxy → Message → Message × AttackerProxy
choose proxy request = choose_by proxy.mode proxy.last_request request

-- What the client sees of an exception in `_handle`, which closes the connection.
unfoldable pub seen : Outcome Message → Outcome Message
seen (ok reply) = ok reply
seen (raise unfinished) = raise unfinished
seen (raise e) = raise connection_error

-- `_handle`, from the request received to the reply that the client gets.
module _ {S : Type 0} (upstream : Message → Action S Message) where
  unfoldable pub handle : KeyDraws → Message → Action (AttackerProxy × S) Message
  handle draws request (proxy, s) =
      let (chosen, left) = choose proxy request in
      let (reply, s') = upstream chosen s in
      (seen (reply >>= attack_response proxy.mode draws), (left, s'))
