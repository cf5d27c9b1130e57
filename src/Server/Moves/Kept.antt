-- ===== src/Server/Moves/Kept.antt =====
-- What the statements of the handlers leave alone: a stored document, and the keys of a user that
-- others know.
use crypto_project.Base.{
  ℕ, ℤ, Bool, true, false, List, [], ◌∷◌, ◌++◌, some, if◌then◌else◌, ok, >>-eq-ok, if-eq-ok,
  if-eq-ok_then, value_error, ◌≡◌, refl, sym, ap, ◌∙◌, arith,
}
use crypto_project.Text.{Text}
use crypto_project.Server.Tables.{any, find, update_where}
use crypto_project.Server.Db.{
  ServerDb, UserRecord, DocumentRecord, ShareRecord, bind_nat, bind_int, bind_text, is_user,
  is_document, update_user_auth, create_document, get_document, create_or_replace_share,
}
use crypto_project.Server.Db.Invariant.{
  IsWellFormed, Statement, insert_user, update_auth, insert_document, replace_document, put_share,
  created-users, execute-IsWellFormed,
}
use crypto_project.Server.Db.Invariant as Db
use crypto_project.Server.Moves.{IsServed}

find-append_found :
    {R : Type 0} (test : R → Bool) (xs ys : List R) (x : R)
    → find test xs ≡ some x
    → find test (xs ++ ys) ≡ some x
unfolding find
find-append_found test [] ys x h = cc
find-append_found test (z ∷ zs) ys x h = ground (arith, find-append_found test zs ys x)

-- What an update does to the row that is found: nothing to its key.
find-update_where-some :
    {R : Type 0} (test hit : R → Bool) (f : R → R) (xs : List R) (x : R)
    → ((y : R) → test (f y) ≡ test y)
    → find test xs ≡ some x
    → find test (update_where hit f xs) ≡ some (if hit x then f x else x)
unfolding find update_where
find-update_where-some test hit f [] x keeps h = cc
find-update_where-some test hit f (y ∷ ys) x keeps h =
    ground (arith, keeps y, find-update_where-some test hit f ys x keeps)

pub created-documents :
    (d : DocumentRecord) (db db' : ServerDb)
    → create_document d db ≡ ok db'
    → (any (is_document d.doc_id) db.documents ≡ false)
      × (record db { documents = db.documents ++ (d ∷ []) } ≡ db')
unfolding create_document
created-documents d db db' h = if-eq-ok (any (is_document d.doc_id) db.documents) value_error _ (
    >>-eq-ok (bind_nat d.created_ms) _
      (>>-eq-ok (bind_nat d.version) _ (>>-eq-ok (bind_text d.owner) _ (>>-eq-ok _ _ h))))

updated-users :
    (username : Text) (salt : List ℕ) (t m p : ℤ) (auth_pub : List ℕ) (db db' : ServerDb)
    → update_user_auth username salt t m p auth_pub db ≡ ok db'
    → record db {
      users =
          update_where
            (is_user username)
            (λ u. record u {
              salt = salt;
              argon2_t = t;
              argon2_m = m;
              argon2_p = p;
              auth_pub = auth_pub;
            })
            db.users;
    }
      ≡ db'
unfolding update_user_auth
updated-users username salt t m p auth_pub db db' h =
    (if-eq-ok_then (any (is_user username) db.users) value_error _ (
      >>-eq-ok (bind_text username) _
        (>>-eq-ok (bind_int p) _ (>>-eq-ok (bind_int m) _ (>>-eq-ok (bind_int t) _ h))))).1

pub put-shares :
    (s : ShareRecord) (db db' : ServerDb)
    → create_or_replace_share s db ≡ ok db'
    → (db.users ≡ db'.users) × (db.documents ≡ db'.documents)
unfolding create_or_replace_share
put-shares s db db' h =
    let same = >>-eq-ok (bind_nat s.issued_ms) _ (>>-eq-ok (bind_text s.recipient) _ h) in
    (cc same, cc same)

-- The statements that handlers issue leave a stored document alone.
pub execute-document :
    (st : Statement) (id : List ℕ) (doc : DocumentRecord) (db db' : ServerDb)
    → IsServed st
    → Db.execute st db ≡ ok db'
    → get_document id db ≡ some doc
    → get_document id db' ≡ some doc
unfolding Db.execute get_document
execute-document (insert_user u) id doc db db' served h found =
    let (_, _, same) = created-users u db db' h in
    ap (λ x. find (is_document id) x.documents) (sym same) ∙ found
execute-document (update_auth name salt t m p auth_pub) id doc db db' served h found =
    ap (λ x. find (is_document id) x.documents)
      (sym (updated-users name salt t m p auth_pub db db' h))
    ∙ found
execute-document (insert_document d) id doc db db' served h found =
    let (_, same) = created-documents d db db' h in
    ap (λ x. find (is_document id) x.documents) (sym same)
    ∙ find-append_found (is_document id) db.documents (d ∷ []) doc found
execute-document (replace_document d) id doc db db' served h found = absurd served
execute-document (put_share s) id doc db db' served h found =
    ap (find (is_document id)) (sym (put-shares s db db' h).1) ∙ found

-- The user `name` has a row with these two keys.
pub record HasKeys (name : Text) (sig_pub dh_pub : List ℕ) (db : ServerDb) : Type 0 where
  pub row : UserRecord
  pub found : find (is_user name) db.users ≡ some row
  pub sig_same : row.sig_pub ≡ sig_pub
  pub dh_same : row.dh_pub ≡ dh_pub

HasKeys-users :
    (name : Text) (sig_pub dh_pub : List ℕ) (db db' : ServerDb)
    → db.users ≡ db'.users
    → HasKeys name sig_pub dh_pub db
    → HasKeys name sig_pub dh_pub db'
HasKeys-users name sig_pub dh_pub db db' same h = record {
  row = h.row;
  found = ap (find (is_user name)) (sym same) ∙ h.found;
  sig_same = h.sig_same;
  dh_same = h.dh_same;
}

pub execute-HasKeys :
    (st : Statement) (name : Text) (sig_pub dh_pub : List ℕ) (db db' : ServerDb)
    → Db.execute st db ≡ ok db'
    → IsServed st
    → HasKeys name sig_pub dh_pub db
    → HasKeys name sig_pub dh_pub db'
unfolding Db.execute
execute-HasKeys (insert_user u) name sig_pub dh_pub db db' h served k =
    let (_, _, same) = created-users u db db' h in
    record {
      row = k.row;
      found =
          ap (λ x. find (is_user name) x.users) (sym same)
          ∙ find-append_found (is_user name) db.users (u ∷ []) k.row k.found;
      sig_same = k.sig_same;
      dh_same = k.dh_same;
    }
execute-HasKeys (update_auth user salt t m p auth_pub) name sig_pub dh_pub db db' h served k =
    let same = updated-users user salt t m p auth_pub db db' h in
    let found' =
      find-update_where-some (is_user name) (is_user user)
        (λ u. record u {
          salt = salt;
          argon2_t = t;
          argon2_m = m;
          argon2_p = p;
          auth_pub = auth_pub;
        })
        db.users k.row (λ y. unfold is_user in refl) k.found in
    record {
      row = _;
      found = ap (λ x. find (is_user name) x.users) (sym same) ∙ found';
      sig_same = same_sig (is_user user k.row) k.row _ refl ∙ k.sig_same;
      dh_same = same_dh (is_user user k.row) k.row _ refl ∙ k.dh_same;
    }
  where
    same_sig :
        (b : Bool) (x y : UserRecord)
        → y.sig_pub ≡ x.sig_pub
        → (if b then y else x).sig_pub ≡ x.sig_pub
    same_sig true x y e = e
    same_sig false x y e = refl

    same_dh :
        (b : Bool) (x y : UserRecord) → y.dh_pub ≡ x.dh_pub → (if b then y else x).dh_pub ≡ x.dh_pub
    same_dh true x y e = e
    same_dh false x y e = refl
execute-HasKeys (insert_document d) name sig_pub dh_pub db db' h served k =
    let (_, same) = created-documents d db db' h in
    HasKeys-users name sig_pub dh_pub db db' (ap (λ x. x.users) same) k
execute-HasKeys (replace_document d) name sig_pub dh_pub db db' h served k = absurd served
execute-HasKeys (put_share s) name sig_pub dh_pub db db' h served k =
    HasKeys-users name sig_pub dh_pub db db' (put-shares s db db' h).0 k
