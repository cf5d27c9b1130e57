-- ===== src/Examples/Contacts.antt =====
-- The keys of contacts in client/client.py at concrete inputs.
use crypto_project.Base.{[], ◌∷◌, some, none, ok, true, false, ◌===◌, ◌≡◌, refl}
use crypto_project.Actions.{gets, lift, pure}
use crypto_project.Actions as Actions
use crypto_project.Text.{Text, codes}
use crypto_project.Encodings.Base64.{b64encode, b64decode, b64_char}
use crypto_project.Encodings.Hex.{hex, hex_char}
use crypto_project.Crypto.Sha256.{sha256}
use crypto_project.Wire.{msg_code}
use crypto_project.Wire.Json.{get_item}
use crypto_project.Server.Service.{pubkey_reply}
use crypto_project.Server.Replies.{message_of}
use crypto_project.Client.Disk.{perform, after_op}
use crypto_project.Client.TrustStore.{
  unverified, TrustEntry, TrustStore, lookup, check, check_entry, compute_fingerprint,
  record_first_contact, first_entry, store_entry, save,
}
use crypto_project.Client.Session.{
  Runtime, World, rpc, received, expect, bytes_at, decode_b64, present,
}
use crypto_project.Client.Contacts.{
  is_self, contact_pubkey, after_check, with_store, keep_store, get_verified_pubkey,
}
use crypto_project.Client.Contacts.Trusted.{get_verified_pubkey-pinned, get_verified_pubkey-asked}
use crypto_project.Examples.Sealing.{runtime}
use crypto_project.Examples.Downloads.{alice, no_texts}

abbrev bob : Text
bob = codes "bob"

-- A server that gives bob's keys.
abbrev directory : Runtime
directory = record runtime {
  peer =
      λ sent. ok (message_of no_texts [] (pubkey_reply (b64encode (1 ∷ [])) (b64encode (2 ∷ []))));
}

abbrev entry : TrustEntry
entry = record { fingerprint = compute_fingerprint (1 ∷ []) (2 ∷ []); status = unverified }

abbrev known : TrustStore
known = record { path = codes "d/alice_trust.json"; entries = (bob, entry) ∷ [] }

abbrev knowing : World
knowing = record alice { client = record alice.client { trust = some known } }

abbrev empty : TrustStore
empty = record { path = codes "d/alice_trust.json"; entries = [] }

other_name : is_self bob (some (codes "alice")) ≡ false
unfolding is_self ◌===◌
other_name = refl

held : lookup bob known.entries ≡ some entry
unfolding lookup ◌===◌
held = refl

absent : lookup bob empty.entries ≡ none
unfolding lookup
absent = refl

abbrev after_known : World
after_known = (get_verified_pubkey directory bob knowing).1

known_keys : get_verified_pubkey directory bob knowing ≡ (ok (1 ∷ [], 2 ∷ []), after_known)
unfolding get_verified_pubkey contact_pubkey gets lift pure Actions.◌>>=◌ rpc received expect
    bytes_at decode_b64 get_item b64encode b64_char b64decode message_of msg_code after_check check
    check_entry lookup compute_fingerprint sha256 hex hex_char present is_self ◌===◌
known_keys = refl

get_verified_pubkey-pinned_example : compute_fingerprint (1 ∷ []) (2 ∷ []) ≡ entry.fingerprint
get_verified_pubkey-pinned_example =
    get_verified_pubkey-pinned directory bob known entry knowing after_known (1 ∷ [], 2 ∷ [])
      other_name refl held known_keys

abbrev after_new : World
after_new = (get_verified_pubkey directory bob alice).1

new_keys : get_verified_pubkey directory bob alice ≡ (ok (1 ∷ [], 2 ∷ []), after_new)
unfolding get_verified_pubkey contact_pubkey gets lift pure Actions.◌>>=◌ rpc received expect
    bytes_at decode_b64 get_item b64encode b64_char b64decode message_of msg_code after_check check
    check_entry lookup with_store keep_store record_first_contact first_entry store_entry save
    perform after_op present is_self ◌===◌
new_keys = refl

get_verified_pubkey-asked_example :
    directory.tofu_prompt bob (compute_fingerprint (1 ∷ []) (2 ∷ [])) ≡ true
get_verified_pubkey-asked_example =
    get_verified_pubkey-asked directory bob empty alice after_new (1 ∷ [], 2 ∷ []) other_name refl
      absent new_keys
