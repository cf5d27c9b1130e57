-- ===== src/Server/Db/Versions.antt =====
-- What a document's row goes through: its owner stays, and its version goes up by one.
use crypto_project.Base.{
  ℕ, ◌+◌, Bool, true, false, List, [], ◌∷◌, ◌++◌, some, ===→eq, ===_refl, Bool-cases, inl, inr, ok,
  ◌≡◌, ◌≢◌, refl, sym, ap, ◌∙◌, arith, ===_of_ne,
}
use crypto_project.Text.{Text}
use crypto_project.Server.Tables.{any, find, update_where}
use crypto_project.Server.Db.{
  UserRecord, DocumentRecord, ServerDb, is_user, is_document, bind_text, get_user, create_user,
  get_document, update_document,
}
use crypto_project.Server.Db.Invariant.{created-users, updated-documents}

find-update_where :
    {R : Type 0} (test : R → Bool) (f : R → R) (xs : List R) (x : R)
    → ((y : R) → test (f y) ≡ test y)
    → find test xs ≡ some x
    → find test (update_where test f xs) ≡ some (f x)
unfolding find update_where
find-update_where test f [] x keeps h = cc
find-update_where test f (y ∷ ys) x keeps h = elim (Bool-cases (test y)) [
  | inl t ↦ rw (t, keeps y, t) (ap (λ z. some (f z)) (cc (rw t at h)))
  | inr n ↦ rw (n, n) (find-update_where test f ys x keeps (rw n at h))
]

find-update_where_other :
    {R : Type 0} (test hit : R → Bool) (f : R → R) (xs : List R)
    → ((y : R) → test (f y) ≡ test y)
    → ((y : R) → hit y ≡ true → test y ≡ false)
    → find test (update_where hit f xs) ≡ find test xs
unfolding find update_where
find-update_where_other test hit f [] keeps apart = refl
find-update_where_other test hit f (y ∷ ys) keeps apart = elim (Bool-cases (hit y)) [
  | inl t ↦ rw (t, keeps y, apart y t) (find-update_where_other test hit f ys keeps apart)
  | inr n ↦ rw (n, find-update_where_other test hit f ys keeps apart)
]

-- An update of a document that returns found a row of that key, with the version before the new
-- one. The row that is read afterwards has the new version, time and blob, and the owner it had.
pub update_document-next_version :
    (d : DocumentRecord) (db db' : ServerDb)
    → update_document d db ≡ ok db'
    → (old : DocumentRecord) × (get_document d.doc_id db ≡ some old)
      × (d.version ≡ old.version + 1)
      × (get_document d.doc_id db'
          ≡ some (record old { version = d.version; created_ms = d.created_ms; blob = d.blob }))
unfolding get_document is_document
update_document-next_version d db db' h =
    let (old, found, next, same) = updated-documents d db db' h in
    (
      old,
      found,
      next,
      ap (λ x. find (is_document d.doc_id) x.documents) (sym same)
          ∙ find-update_where (is_document d.doc_id) _ db.documents old (λ y. refl) found,
    )

-- An update of a document leaves what is read under every other key as it was.
pub update_document-others :
    (d : DocumentRecord) (other : List ℕ) (db db' : ServerDb)
    → update_document d db ≡ ok db'
    → other ≢ d.doc_id
    → get_document other db' ≡ get_document other db
unfolding get_document is_document
update_document-others d other db db' h apart =
    let (_, _, _, same) = updated-documents d db db' h in
    ap (λ x. find (is_document other) x.documents) (sym same)
    ∙ find-update_where_other (is_document other) (is_document d.doc_id) _ db.documents (λ y. refl)
        (λ y t. ===_of_ne y.doc_id other (λ e. apart (sym e ∙ ===→eq y.doc_id d.doc_id t)))

find-append_new :
    {R : Type 0} (test : R → Bool) (xs : List R) (x : R)
    → any test xs ≡ false
    → test x ≡ true
    → find test (xs ++ (x ∷ [])) ≡ some x
unfolding find any
find-append_new test [] x h t = rw t
find-append_new test (y ∷ ys) x h t = ground (arith, find-append_new test ys x)

find-append_other :
    {R : Type 0} (test : R → Bool) (xs : List R) (x : R)
    → test x ≡ false
    → find test (xs ++ (x ∷ [])) ≡ find test xs
unfolding find
find-append_other test [] x t = rw t
find-append_other test (y ∷ ys) x t = ground (arith, find-append_other test ys x)

get_user_ok :
    (name : Text) (db db' : ServerDb)
    → find (is_user name) db'.users ≡ find (is_user name) db.users
    → get_user name db' ≡ get_user name db
unfolding get_user
get_user_ok name db db' h = rw h

get_user_of :
    (name : Text) (u : UserRecord) (db : ServerDb)
    → bind_text name ≡ ok tt
    → find (is_user name) db.users ≡ some u
    → get_user name db ≡ ok (some u)
unfolding get_user
get_user_of name u db bound h = rw (bound, h)

-- A user that was created is read back as given.
pub create_user-get_user :
    (u : UserRecord) (db db' : ServerDb)
    → create_user u db ≡ ok db'
    → get_user u.username db' ≡ ok (some u)
create_user-get_user u db db' h =
    let (bound, free, same) = created-users u db db' h in
    get_user_of u.username u db' bound (
      ap (λ x. find (is_user u.username) x.users) (sym same)
      ∙ find-append_new (is_user u.username) db.users u free
          (unfold is_user in ===_refl u.username))

-- Creating a user leaves what is read under every other name as it was.
pub create_user-others :
    (u : UserRecord) (other : Text) (db db' : ServerDb)
    → create_user u db ≡ ok db'
    → other ≢ u.username
    → get_user other db' ≡ get_user other db
create_user-others u other db db' h apart =
    let (_, _, same) = created-users u db db' h in
    get_user_ok other db db' (
      ap (λ x. find (is_user other) x.users) (sym same)
      ∙ find-append_other (is_user other) db.users u
          (unfold is_user in ===_of_ne u.username other (λ e. apart (sym e))))
