-- ===== src/Client/Documents/LoggedOut.antt =====
-- What a client of client/client.py without a user does.
use crypto_project.Base.{ℕ, List, none, raise, client_error, ◌≡◌, refl}
use crypto_project.Actions.{Action, ◌>>=◌, gets}
use crypto_project.Text.{Text}
use crypto_project.Client.Session.{
  Runtime, no_session, World, assign_fields, logged_in, require_login,
}
use crypto_project.Client.Account.{PasswordDraws, change_password, logout}
use crypto_project.Client.Contacts.{mark_contact_verified}
use crypto_project.Client.Sealing.{ShareDraws, UploadDraws}
use crypto_project.Client.Documents.{upload, share, download}

no_user :
    {A : Type 0} (k : Text → Action World A) (w : World)
    → w.client.username ≡ none
    → (gets require_login >>= k) w ≡ (raise client_error, w)
unfolding ◌>>=◌ gets require_login logged_in
no_user k w h = rw h refl

-- After `logout` the files and the requests sent are as they were, and upload, share, download,
-- change_password and mark_contact_verified each raise ClientError, send nothing and change nothing.
pub logout-refuses :
    (rt : Runtime) (w : World) (u : UploadDraws) (s : ShareDraws) (p : PasswordDraws)
    (nonce : List ℕ) (a b : Text)
    → ((logout w).1 ≡ record w { client = no_session })
      × (upload rt u a (logout w).1 ≡ (raise client_error, (logout w).1))
      × (share rt nonce s a b (logout w).1 ≡ (raise client_error, (logout w).1))
      × (download rt nonce a b (logout w).1 ≡ (raise client_error, (logout w).1))
      × (change_password rt p a b (logout w).1 ≡ (raise client_error, (logout w).1))
      × (mark_contact_verified rt a (logout w).1 ≡ (raise client_error, (logout w).1))
unfolding logout assign_fields no_session upload share download change_password
    mark_contact_verified
logout-refuses rt w u s p nonce a b =
    (refl, no_user _ _ refl, no_user _ _ refl, no_user _ _ refl, no_user _ _ refl, no_user _ _ refl)
