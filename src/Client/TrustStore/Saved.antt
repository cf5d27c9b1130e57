-- ===== src/Client/TrustStore/Saved.antt =====
-- A trust store that is saved and opened again.
use crypto_project.Base.{
  ℕ, Bool-cases, inl, inr, List, [], ◌∷◌, ◌++◌, Option, none, some, ◌===◌, ===→eq, ===_refl,
  Outcome, ok, ◌≡◌, refl, ap, ◌∙◌,
}
use crypto_project.Text.{Text, codes}
use crypto_project.Wire.Json.{Json, str, obj, Fields, get_item, subscript}
use crypto_project.Client.Disk.{Disk, put, replace, so_far, apply, apply_all, Faults, perform-eq-ok}
use crypto_project.Client.TrustStore.{
  TrustStatus, unverified, verified, TrustEntry, Entries, lookup, assign, TrustStore, status_value,
  status_of, entry_json, to_fields, save, to_str, read_entry, put_entry, load_fields, load_json,
  load_file, open_store,
}
use crypto_project.Client.TrustStore.Kept.{lookup-assign, lookup-assign_other}

-- No name stands twice in the items.
unfoldable pub IsDistinct : Entries → Type 0
IsDistinct [] = Unit {0}
IsDistinct (item ∷ items) = (lookup item.0 items ≡ none) × IsDistinct items

status_of-status_value : (s : TrustStatus) → status_of (str (status_value s)) ≡ ok s
unfolding status_of status_value ◌===◌
status_of-status_value unverified = refl
status_of-status_value verified = refl

fingerprint_back :
    (e : TrustEntry) → subscript (codes "fingerprint") (entry_json e) ≡ ok (str e.fingerprint)
unfolding entry_json subscript get_item ◌===◌
fingerprint_back e = refl

status_back :
    (e : TrustEntry) → subscript (codes "status") (entry_json e) ≡ ok (str (status_value e.status))
unfolding entry_json subscript get_item ◌===◌
status_back e = refl

read_entry-entry_json :
    (str_of : Json → Text) (e : TrustEntry) → read_entry str_of (entry_json e) ≡ ok e
unfolding read_entry to_str
read_entry-entry_json str_of e =
    rw (fingerprint_back e, status_back e, status_of-status_value e.status) refl

assign_all : Entries → Entries → Entries
assign_all [] es = es
assign_all (item ∷ items) es = assign_all items (assign item.0 item.1 es)

load_fields-to_fields :
    (str_of : Json → Text) (ds es : Entries)
    → load_fields str_of (to_fields ds) es ≡ ok (assign_all ds es)
unfolding load_fields to_fields put_entry assign_all
load_fields-to_fields str_of [] es = refl
load_fields-to_fields str_of (item ∷ items) es =
    rw (read_entry-entry_json str_of item.1)
      (load_fields-to_fields str_of items (assign item.0 item.1 es))

or_else : Option TrustEntry → Option TrustEntry → Option TrustEntry
or_else none o = o
or_else (some e) o = some e

lookup-assign_all :
    (name : Text) (ds es : Entries)
    → IsDistinct ds
    → lookup name (assign_all ds es) ≡ or_else (lookup name ds) (lookup name es)
unfolding lookup IsDistinct assign_all or_else
lookup-assign_all name [] es d = refl
lookup-assign_all name (item ∷ items) es d =
    lookup-assign_all name items (assign item.0 item.1 es) d.1
    ∙ elim (Bool-cases (name === item.0)) [
      | inl same ↦
          let equal = ===→eq name item.0 same in
          let here : lookup name (assign item.0 item.1 es) ≡ some item.1 =
            ap (λ x. lookup x (assign item.0 item.1 es)) equal ∙ lookup-assign item.0 item.1 es in
          rw (same, here, ap (λ x. lookup x items) equal ∙ d.0) refl
      | inr other ↦ rw (other, lookup-assign_other item.0 name item.1 es other) refl
    ]

or_else-none : (name : Text) (o : Option TrustEntry) → or_else o (lookup name []) ≡ o
unfolding or_else lookup
or_else-none name none = refl
or_else-none name (some e) = refl

save-reads :
    (faults : Faults) (write_json : Fields → List ℕ) (store : TrustStore) (disk left : Disk)
    (u : Unit {0})
    → save faults write_json store disk ≡ (ok u, left)
    → left store.path ≡ some (write_json (to_fields store.entries))
unfolding save apply_all apply so_far replace put
save-reads faults write_json store disk left u h =
    ap (λ d. d store.path) (perform-eq-ok faults _ disk left u h)
    ∙ rw (===_refl store.path, ===_refl (store.path ++ codes ".tmp")) refl

-- Let the text that is written for a store read back as the same items, each name once, in an order
-- of its own. Where saving the store returns, the store that is opened from the disk that it leaves
-- then finds for every name what the saved one finds.
pub open_store-save :
    (faults : Faults) (write_json : Fields → List ℕ) (read_json : List ℕ → Outcome Json)
    (str_of : Json → Text) (store : TrustStore) (disk left : Disk) (ds : Entries) (u : Unit {0})
    → save faults write_json store disk ≡ (ok u, left)
    → read_json (write_json (to_fields store.entries)) ≡ ok (obj (to_fields ds))
    → IsDistinct ds
    → ((name : Text) → lookup name ds ≡ lookup name store.entries)
    → (again : TrustStore) × (open_store read_json str_of store.path left ≡ ok again)
      × ((name : Text) → lookup name again.entries ≡ lookup name store.entries)
unfolding open_store load_file load_json
open_store-save faults write_json read_json str_of store disk left ds u saved reads distinct same =
    (
      record { path = store.path; entries = assign_all ds [] },
      rw
          (
            save-reads faults write_json store disk left u saved,
            reads,
            load_fields-to_fields str_of ds [],
          )
          refl,
      λ name.
          lookup-assign_all name ds [] distinct ∙ or_else-none name (lookup name ds) ∙ same name,
    )
