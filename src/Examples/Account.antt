-- ===== src/Examples/Account.antt =====
-- The theorems on signup of client/client.py at concrete inputs.
use crypto_project.Base.{
  ℕ, ◌^◌, ◌<◌, List, [], ◌∷◌, ◌++◌, length, replicate, Option, some, none, Outcome, ok, raise, Exc,
  ◌⊎◌, false, ◌≡◌, refl, ◌∙◌, arith, ap, pos,
}
use crypto_project.Base as Base
use crypto_project.Bytes.{be_bytes, from_bytes}
use crypto_project.Actions.{gets, lift, pure, lift_ok, bind_ok, gets_ok}
use crypto_project.Actions as Actions
use crypto_project.Text.{Text, codes, encode, encode_char}
use crypto_project.Crypto.Sha256.{sha256}
use crypto_project.Crypto.Hmac.{hmac_sha256, derive_both}
use crypto_project.Crypto.P256.{
  mod_inv, scalar_mul, scalar_mul_g, point_to_bytes, is_valid_private_key,
}
use crypto_project.Crypto.Ecdsa.Sign.{generate_keypair, choose_scalar, with_public}
use crypto_project.Crypto.Ecdh as Ecdh
use crypto_project.Wire.{MsgType, msg_code}
use crypto_project.Wire.Json.{get_item, subscript, Message}
use crypto_project.Server.Service.{Problem, error, done}
use crypto_project.Server.Replies.{message_of}
use crypto_project.Client.Disk.{Disk, reliable}
use crypto_project.Client.Paths.{keystore_path}
use crypto_project.Client.Keystore.{keys, save_keys, load_keys}
use crypto_project.Client.Keystore.RoundTrip.{load_keys-save_keys}
use crypto_project.Client.Requests.{derive_auth_scalar, default_params, register_payload}
use crypto_project.Client.Session.{Runtime, no_session, World, rpc, received, expect}
use crypto_project.Client.Session.Steps.{write_files_ok}
use crypto_project.Client.Account.{
  derive_master, asserted, public_bytes, SignupDraws, Identity, new_identity, signup,
}
use crypto_project.Client.Account.SignedUp.{signup-saves, signup-refused}
use crypto_project.Examples.Blobs.{sig_pub, dh_pub, kek, auth_pub}
use crypto_project.Examples.Sealing.{runtime}
use crypto_project.Examples.Downloads.{no_texts}

abbrev signing_up : SignupDraws
signing_up = record {
  salt = replicate 16 4;
  sig_draws = be_bytes 32 5 ∷ [];
  dh_draws = be_bytes 32 7 ∷ [];
  keystore_nonce = replicate 12 6;
}

-- A server that confirms, and one that does not.
abbrev confirming : Runtime
confirming = record runtime { peer = λ sent. ok (message_of no_texts [] done) }

abbrev refusal : Message
refusal = message_of no_texts [] (error Problem.user_not_found)

abbrev pub newcomer : World
newcomer = record { disk = λ q. none; client = no_session; sent = [] }

abbrev identity : Identity
identity = record { kek = kek; auth_pub = auth_pub; sig = (5, sig_pub); dh = (7, dh_pub) }

drawn : new_identity confirming signing_up (codes "pw") ≡ ok identity
unfolding new_identity derive_master default_params subscript get_item derive_both
    derive_auth_scalar public_bytes asserted generate_keypair choose_scalar with_public
    Ecdh.generate_keypair scalar_mul_g scalar_mul mod_inv point_to_bytes is_valid_private_key
    from_bytes be_bytes hmac_sha256 sha256 encode encode_char Base.◌===◌
drawn = refl

abbrev pub path : Text
path = keystore_path (codes "d") (codes "alice")

pub written :
    (left : Disk) × (save_keys reliable (replicate 12 6) path 5 7 kek newcomer.disk ≡ (ok tt, left))
    × (load_keys path kek left ≡ ok (keys 5 7))
unfolding be_bytes
written =
    load_keys-save_keys (replicate 12 6) path 5 7 kek newcomer.disk refl refl (omega arith)
      (omega arith)

abbrev pub registered : World
registered = record newcomer {
  disk = written.0;
  sent =
      (MsgType.register, register_payload (codes "alice") (replicate 16 4) auth_pub sig_pub dh_pub)
      ∷ [];
}

confirmed :
    (Actions.◌>>=◌
        (rpc confirming MsgType.register
          (register_payload (codes "alice") (replicate 16 4) auth_pub sig_pub dh_pub))
        (λ reply. Actions.◌>>=◌ (lift (expect MsgType.ok_reply reply)) (λ _. pure tt)))
      (record newcomer { disk = written.0 })
    ≡ (ok tt, registered)
unfolding Actions.◌>>=◌ rpc received expect lift pure message_of msg_code
confirmed = refl

signed_up : signup confirming signing_up (codes "alice") (codes "pw") newcomer ≡ (ok tt, registered)
unfolding signup
signed_up =
    lift_ok (new_identity confirming signing_up (codes "pw")) _ newcomer identity drawn
    ∙ write_files_ok (save_keys reliable (replicate 12 6) path 5 7 kek) _ newcomer written.0
        written.1
    ∙ confirmed

signup-saves_example :
    (new : Identity) × (new_identity confirming signing_up (codes "pw") ≡ ok new)
    × (load_keys path new.kek registered.disk ≡ ok (keys new.sig.0 new.dh.0))
signup-saves_example =
    signup-saves confirming signing_up (codes "alice") (codes "pw") newcomer registered tt refl
      signed_up

not_ok : (Base.◌==◌ (msg_code refusal.0) (msg_code MsgType.ok_reply)) ≡ false
unfolding message_of msg_code
not_ok = refl

signup-refused_example :
    signup
      (record confirming { peer = λ sent. ok refusal })
      signing_up
      (codes "alice")
      (codes "pw")
      newcomer
    ≡ (raise Exc.client_error, registered)
signup-refused_example =
    signup-refused confirming signing_up (codes "alice") (codes "pw") newcomer registered tt
      (λ sent. ok refusal) refusal (λ request. refl) not_ok signed_up
