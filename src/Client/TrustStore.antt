-- ===== src/Client/TrustStore.antt =====
-- The trust store of client/trust_store.py. A dict is the list of its items in the order of their
-- insertion; KeyMismatchError is a result with what it carries. `json.dump` and `json.load` are the
-- parameters `write_json` and `read_json`, and `str` of what is not a text is `str_of`.
pub mod Kept
pub mod Saved
use crypto_project.Base.{
  ℕ, Bool, true, false, List, [], ◌∷◌, ◌++◌, Option, none, some, ◌===◌, if◌then◌else◌, Outcome, ok,
  raise, ◌>>=◌, value_error, key_error, os_error,
}
use crypto_project.Text.{Text, codes}
use crypto_project.Encodings.Hex.{hex}
use crypto_project.Crypto.Sha256.{sha256}
use crypto_project.Wire.Json.{Json, str, obj, Fields, end, field, subscript}
use crypto_project.Actions.{Action, pure, lift}
use crypto_project.Actions as Actions
use crypto_project.Client.Disk.{Disk, open_file, write, sync, rename, Faults, perform}

pub data TrustStatus : Type 0 where
  unverified verified : TrustStatus

pub record TrustEntry : Type 0 where
  pub fingerprint : Text
  pub status : TrustStatus

unfoldable pub compute_fingerprint : List ℕ → List ℕ → Text
compute_fingerprint sig_pub dh_pub = hex (sha256 (sig_pub ++ dh_pub))

abbrev pub Entries : Type 0
Entries = List (Text × TrustEntry)

-- `entries.get(name)`
unfoldable pub lookup : Text → Entries → Option TrustEntry
lookup name [] = none
lookup name (item ∷ items) =
    let rest = lookup name items in if name === item.0 then some item.1 else rest

-- `entries[name] = entry`
unfoldable pub assign : Text → TrustEntry → Entries → Entries
assign name entry [] = (name, entry) ∷ []
assign name entry (item ∷ items) =
    let rest = assign name entry items in
    if name === item.0 then (item.0, entry) ∷ items else item ∷ rest

pub record TrustStore : Type 0 where
  pub path : Text
  pub entries : Entries

unfoldable pub status_value : TrustStatus → Text
status_value unverified = codes "UNVERIFIED"
status_value verified = codes "VERIFIED"

-- `TrustStatus(value)`
unfoldable pub status_of : Json → Outcome TrustStatus
status_of (str s) =
    if s === codes "UNVERIFIED"
    then ok unverified
    else if s === codes "VERIFIED"
    then ok verified
    else raise value_error
status_of other = raise value_error

unfoldable pub entry_json : TrustEntry → Json
entry_json e = obj (
    field (codes "fingerprint") (str e.fingerprint)
      (field (codes "status") (str (status_value e.status)) end))

unfoldable pub to_fields : Entries → Fields
to_fields [] = end
to_fields (item ∷ items) = field item.0 (entry_json item.1) (to_fields items)

-- `_save`
unfoldable pub save : Faults → (Fields → List ℕ) → TrustStore → Action Disk (Unit {0})
save faults write_json store =
    let tmp = store.path ++ codes ".tmp" in
    perform faults (
      open_file tmp
      ∷ write tmp (write_json (to_fields store.entries))
      ∷ sync tmp
      ∷ rename tmp store.path
      ∷ [])

unfoldable pub to_str : (Json → Text) → Json → Text
to_str str_of (str s) = s
to_str str_of other = str_of other

unfoldable pub read_entry : (Json → Text) → Json → Outcome TrustEntry
read_entry str_of entry = do
  fingerprint ← subscript (codes "fingerprint") entry
  value ← subscript (codes "status") entry
  status ← status_of value
  ok (record { fingerprint = to_str str_of fingerprint; status = status })

-- One turn of the loop of `_load`, which passes over an entry that raises KeyError or ValueError.
unfoldable pub put_entry : Text → Outcome TrustEntry → Entries → Outcome Entries
put_entry name (ok entry) entries = ok (assign name entry entries)
put_entry name (raise value_error) entries = ok entries
put_entry name (raise key_error) entries = ok entries
put_entry name (raise e) entries = raise e

unfoldable pub load_fields : (Json → Text) → Fields → Entries → Outcome Entries
load_fields str_of end entries = ok entries
load_fields str_of (field name entry fs) entries =
    put_entry name (read_entry str_of entry) entries >>= λ more. load_fields str_of fs more

unfoldable pub load_json : (Json → Text) → Outcome Json → Outcome Entries
load_json str_of (ok (obj fs)) = load_fields str_of fs []
load_json str_of (ok other) = ok []
load_json str_of (raise value_error) = ok []
load_json str_of (raise os_error) = ok []
load_json str_of (raise e) = raise e

unfoldable pub load_file :
    (List ℕ → Outcome Json) → (Json → Text) → Option (List ℕ) → Outcome Entries
load_file read_json str_of none = ok []
load_file read_json str_of (some blob) = load_json str_of (read_json blob)

-- `TrustStore(...)`, once the path is joined.
unfoldable pub open_store :
    (List ℕ → Outcome Json) → (Json → Text) → Text → Disk → Outcome TrustStore
open_store read_json str_of path disk = do
  entries ← load_file read_json str_of (disk path)
  ok (record { path = path; entries = entries })

-- An entry that is set, and then saved: it stays set where the saving raises.
unfoldable pub store_entry :
    Faults → (Fields → List ℕ) → Text → TrustEntry → Action (TrustStore × Disk) (Unit {0})
store_entry faults write_json username entry (store, disk) =
    let left = record store { entries = assign username entry store.entries } in
    let (o, written) = save faults write_json left disk in (o, (left, written))

-- What the test of `record_first_contact` lets through.
unfoldable pub first_entry :
    Faults
    → (Fields → List ℕ)
    → Text
    → List ℕ
    → List ℕ
    → Option TrustEntry
    → Action (TrustStore × Disk) TrustEntry
first_entry faults write_json username sig_pub dh_pub (some e) = lift (raise value_error)
first_entry faults write_json username sig_pub dh_pub none =
    let entry : TrustEntry = record {
      fingerprint = compute_fingerprint sig_pub dh_pub;
      status = unverified;
    } in
    Actions.◌>>=◌ (store_entry faults write_json username entry) (λ _. pure entry)

unfoldable pub record_first_contact :
    Faults → (Fields → List ℕ) → Text → List ℕ → List ℕ → Action (TrustStore × Disk) TrustEntry
record_first_contact faults write_json username sig_pub dh_pub s =
    first_entry faults write_json username sig_pub dh_pub (lookup username s.0.entries) s

pub data Checked : Type 0 where
  trusted : TrustEntry → Checked
  no_entry : Checked
  key_mismatch : TrustEntry → Text → Checked

unfoldable pub check_entry : Text → Option TrustEntry → Checked
check_entry seen none = no_entry
check_entry seen (some e) = if seen === e.fingerprint then trusted e else key_mismatch e seen

unfoldable pub check : Text → List ℕ → List ℕ → TrustStore → Checked
check username sig_pub dh_pub store =
    check_entry (compute_fingerprint sig_pub dh_pub) (lookup username store.entries)

-- What `mark_verified` does with the entry that is stored and its status.
unfoldable pub mark_entry :
    Faults
    → (Fields → List ℕ)
    → Text
    → TrustEntry
    → TrustStatus
    → Action (TrustStore × Disk) TrustEntry
mark_entry faults write_json username e verified = pure e
mark_entry faults write_json username e unverified =
    let entry : TrustEntry = record { fingerprint = e.fingerprint; status = verified } in
    Actions.◌>>=◌ (store_entry faults write_json username entry) (λ _. pure entry)

unfoldable pub mark_found :
    Faults → (Fields → List ℕ) → Text → Option TrustEntry → Action (TrustStore × Disk) TrustEntry
mark_found faults write_json username none = lift (raise key_error)
mark_found faults write_json username (some e) = mark_entry faults write_json username e e.status

unfoldable pub mark_verified :
    Faults → (Fields → List ℕ) → Text → Action (TrustStore × Disk) TrustEntry
mark_verified faults write_json username s =
    mark_found faults write_json username (lookup username s.0.entries) s
