-- ===== src/Examples/Client.antt =====
-- The theorems on the keystore, the trust store and the frames at concrete inputs.
use crypto_project.Base.{
  ℕ, take, Bool-cases, inl, inr, List, [], ◌∷◌, ◌++◌, replicate, none, some, Outcome, ok, ◌≡◌, ◌≢◌,
  ◌⊎◌, refl, ◌===◌, if◌then◌else◌,
}
use crypto_project.Bytes.{to_bytes, be_bytes}
use crypto_project.Text.{Text, codes, encode_char}
use crypto_project.Text as Text
use crypto_project.Wire.{MsgType, msg_code}
use crypto_project.Wire.Json.{Json, obj, Fields, end}
use crypto_project.Wire.Frame.{Socket, encode, recv_message}
use crypto_project.Wire.Frame.Chunks.{bytes_of, IsOpen}
use crypto_project.Wire.Frame.RoundTrip.{recv_message-encode}
use crypto_project.Client.Disk.{
  Disk, put, so_far, rename, apply, apply_all, Faults, reliable, perform, after_op,
}
use crypto_project.Client.Keystore.{temporary, atomic_ops, atomic_write}
use crypto_project.Client.Keystore.Crash.{
  unsynced_by, unsynced, IsCrashOf, atomic_ops-IsCrashOf, IsSettled, atomic_write-IsSettled,
}
use crypto_project.Client.TrustStore.{
  verified, TrustEntry, compute_fingerprint, lookup, TrustStore, to_fields, save, open_store,
  trusted, key_mismatch, check,
}
use crypto_project.Client.TrustStore.Kept.{Change, contact, mark, changes, check-changes}
use crypto_project.Client.TrustStore.Saved.{IsDistinct, open_store-save}

abbrev path : Text
path = codes "alice.keys"

abbrev old_kek : List ℕ
old_kek = replicate 32 1

abbrev new_kek : List ℕ
new_kek = replicate 32 2

abbrev disk : Disk
disk = λ q. none

-- A crash before the file is synced, which leaves two bytes in it that nobody wrote.
abbrev crashed : Disk
crashed = put (temporary path) (8 ∷ 9 ∷ []) disk

crash : IsCrashOf (take 2 (atomic_ops path (1 ∷ 2 ∷ 3 ∷ []))) disk crashed
unfolding IsCrashOf unsynced unsynced_by atomic_ops apply_all apply put so_far
crash q synced = elim (Bool-cases (q === temporary path)) [
  | inl same ↦ absurd (cc (rw same at synced))
  | inr other ↦ rw other refl
]

atomic_ops-IsCrashOf_example :
    (atomic_write reliable path (1 ∷ 2 ∷ 3 ∷ []) disk
      ≡ perform reliable (atomic_ops path (1 ∷ 2 ∷ 3 ∷ [])) disk)
    × ((crashed path ≡ disk path) ⊎ (crashed path ≡ some (1 ∷ 2 ∷ 3 ∷ [])))
atomic_ops-IsCrashOf_example =
    atomic_ops-IsCrashOf reliable path (1 ∷ 2 ∷ 3 ∷ []) disk crashed 2 crash

-- The temporary file is written, and cannot be renamed.
abbrev not_renamed : Faults
not_renamed (rename source target) d = some 0
not_renamed op d = none

atomic_write-IsSettled_example :
    IsSettled path (1 ∷ 2 ∷ []) disk (atomic_write not_renamed path (1 ∷ 2 ∷ []) disk)
atomic_write-IsSettled_example = atomic_write-IsSettled not_renamed path (1 ∷ 2 ∷ []) disk

abbrev bob_entry : TrustEntry
bob_entry = record { fingerprint = codes "ab"; status = verified }

abbrev store : TrustStore
store = record { path = codes "alice_trust.json"; entries = (codes "bob", bob_entry) ∷ [] }

write_text : Fields → List ℕ
write_text fs = codes "saved"

read_text : List ℕ → Outcome Json
read_text s = ok (obj (to_fields ((codes "bob", bob_entry) ∷ [])))

no_text : Json → Text
no_text j = []

abbrev both : List Change
both = contact (codes "bob") (1 ∷ []) (2 ∷ []) ∷ mark (codes "carol") ∷ []

bob_known : lookup (codes "bob") store.entries ≡ some bob_entry
unfolding lookup ◌===◌
bob_known = refl

check-changes_example :
    (f : TrustEntry) × (f.fingerprint ≡ codes "ab")
    × (verified ≡ verified → f.status ≡ verified)
    × (check (codes "bob") (3 ∷ []) (4 ∷ []) (changes not_renamed write_text both (store, disk)).0
        ≡ (if compute_fingerprint (3 ∷ []) (4 ∷ []) === codes "ab"
            then trusted f
            else key_mismatch f (compute_fingerprint (3 ∷ []) (4 ∷ []))))
check-changes_example =
    check-changes not_renamed write_text (codes "bob") bob_entry both (store, disk) (3 ∷ [])
      (4 ∷ []) bob_known

reads_back :
    read_text (write_text (to_fields store.entries))
    ≡ ok (obj (to_fields ((codes "bob", bob_entry) ∷ [])))
unfolding read_text
reads_back = refl

one_name : IsDistinct ((codes "bob", bob_entry) ∷ [])
unfolding IsDistinct lookup
one_name = (refl, tt)

abbrev left_by_save : Disk
left_by_save = (save reliable write_text store disk).1

store_saved : save reliable write_text store disk ≡ (ok tt, left_by_save)
unfolding save perform after_op
store_saved = refl

open_store-save_example :
    (again : TrustStore) × (open_store read_text no_text (codes "alice_trust.json") left_by_save
      ≡ ok again)
    × ((name : Text) → lookup name again.entries ≡ lookup name store.entries)
open_store-save_example =
    open_store-save reliable write_text read_text no_text store disk left_by_save
      ((codes "bob", bob_entry) ∷ []) tt store_saved reads_back one_name (λ name. refl)

abbrev sent : List ℕ
sent = 0 ∷ 0 ∷ 0 ∷ 3 ∷ 0x80 ∷ b'{' ∷ b'}' ∷ []

-- The frame and the first byte after it, in three pieces.
abbrev socket : Socket
socket = (0 ∷ 0 ∷ []) ∷ (0 ∷ 3 ∷ 0x80 ∷ []) ∷ (b'{' ∷ b'}' ∷ 9 ∷ []) ∷ []

write_dict : Fields → Text
write_dict fs = codes "{}"

read_dict : Text → Outcome Json
read_dict s = ok (obj end)

framed : encode write_dict MsgType.ok_reply end ≡ ok sent
unfolding encode write_dict Text.encode encode_char to_bytes be_bytes msg_code
framed = refl

arrived : bytes_of socket ≡ sent ++ (9 ∷ [])
unfolding bytes_of
arrived = refl

dict_read : read_dict (write_dict end) ≡ ok (obj end)
unfolding read_dict
dict_read = refl

dict_text : write_dict end ≢ []
unfolding write_dict
dict_text = λ e. cc e

pieces-IsOpen : IsOpen socket
pieces-IsOpen = ((λ e. cc e), ((λ e. cc e), ((λ e. cc e), tt)))

recv_message-encode_example :
    (left : Socket) × (recv_message read_dict socket ≡ ok ((MsgType.ok_reply, end), left))
    × (bytes_of left ≡ 9 ∷ [])
recv_message-encode_example =
    recv_message-encode write_dict read_dict MsgType.ok_reply end end sent (9 ∷ []) socket framed
      dict_text dict_read arrived pieces-IsOpen
