-- ===== src/Client/Account/Unconfirmed.antt =====
-- What change_password of client/client.py leaves when the server does not confirm the change.
use mathlib.Core.Path.{subst}
use crypto_project.Base.{
  List, some, Outcome, ok, raise, client_error, ◌==◌, [], ◌∷◌, ◌++◌, false, ◌≡◌, refl, sym, ap, ◌∙◌,
}
use crypto_project.Actions.{pure, bind_inv, gets_inv, lift_inv, gets_ok, lift_ok, bind_ok}
use crypto_project.Text.{Text}
use crypto_project.Wire.{MsgType, msg_code}
use crypto_project.Wire.Json.{Fields, Message}
use crypto_project.Client.Session.{
  Runtime, World, rpc, expect, received, require_login, logged_in, sign_bytes, sign_text,
}
use crypto_project.Client.Session.Steps.{write_files_inv, write_files_ok, refused_after, sent_after}
use crypto_project.Client.Account.{
  derive_master, load_identity, PasswordDraws, new_credentials, rewrap_identity, rewrap_and_tell,
  change_password, username_payload,
}
use crypto_project.Client.Account.Rekeyed.{username_of}

module _ (rt : Runtime) (draws : PasswordDraws) (username old_password new_password : Text)
    (salt_reply : Fields) (w : World) where
  rewrap_and_tell-refused :
      (u : Unit {0}) (t : World) (p : List Message → Outcome Message) (reply : Message)
      → (msg_code reply.0 == msg_code MsgType.ok_reply) ≡ false
      → ((request : Fields) → p (w.sent ++ ((MsgType.change_password, request) ∷ [])) ≡ ok reply)
      → rewrap_and_tell rt draws username old_password new_password salt_reply w ≡ (ok u, t)
      → rewrap_and_tell
          (record rt { peer = p })
          draws
          username
          old_password
          new_password
          salt_reply
          w
        ≡ (raise client_error, t)
  unfolding rewrap_and_tell pure new_credentials load_identity derive_master sign_text sign_bytes
      rewrap_identity
  rewrap_and_tell-refused u t p reply other answers h =
      let rt' : Runtime = record rt { peer = p } in
      let (change, e, h1) = gets_inv _ _ u w t h in
      let (d, e1, h2) = write_files_inv (rewrap_identity rt draws username change) _ u w t h1 in
      let (answer, v, asked, h3) =
        bind_inv (rpc rt MsgType.change_password change.request) _ u _ t h2 in
      let (_, _, h4) = lift_inv (expect MsgType.ok_reply answer) _ u v t h3 in
      gets_ok (new_credentials rt' draws username old_password new_password salt_reply) _ w change e
      ∙ write_files_ok (rewrap_identity rt' draws username change) _ w d e1
      ∙ refused_after rt p MsgType.change_password change.request reply (record w { disk = d })
          other (answers change.request)
      ∙ ap (λ x. (raise client_error, x))
          (sent_after rt MsgType.change_password change.request answer (record w { disk = d }) v
              asked
            ∙ ap (λ x. x.1) h4)

named_ok :
    (w : World) (username : Text)
    → w.client.username ≡ some username
    → require_login w ≡ ok username
unfolding require_login logged_in
named_ok w username there = rw there refl

-- The answer to the first request, from another peer that gives the same.
same_answer :
    (rt : Runtime) (p : List Message → Outcome Message) (m : MsgType) (payload : Fields)
    (answer : Message) (w v : World)
    → p (w.sent ++ ((m, payload) ∷ [])) ≡ rt.peer (w.sent ++ ((m, payload) ∷ []))
    → rpc rt m payload w ≡ (ok answer, v)
    → (rpc (record rt { peer = p }) m payload w ≡ (ok answer, v))
      × (v ≡ record w { sent = w.sent ++ ((m, payload) ∷ []) })
unfolding rpc
same_answer rt p m payload answer w v same h = (
  ap (λ r. (received r, record w { sent = w.sent ++ ((m, payload) ∷ []) })) same ∙ h,
  sym (ap (λ x. x.1) h),
)

module _ (rt : Runtime) (draws : PasswordDraws) (username old_password new_password : Text)
    (w : World) where
  -- Where change_password returns for a user that is logged in, a peer that gives the same salt but
  -- answers the change with anything but OK makes it raise ClientError and leaves the same files: the
  -- keystore is rewrapped already.
  pub change_password-refused :
      (u : Unit {0}) (t : World) (p : List Message → Outcome Message) (reply : Message)
      → w.client.username ≡ some username
      → p (w.sent ++ ((MsgType.get_salt, username_payload username) ∷ []))
        ≡ rt.peer (w.sent ++ ((MsgType.get_salt, username_payload username) ∷ []))
      → ((request : Fields)
          → p (
              (w.sent ++ ((MsgType.get_salt, username_payload username) ∷ []))
              ++ ((MsgType.change_password, request) ∷ []))
            ≡ ok reply)
      → (msg_code reply.0 == msg_code MsgType.ok_reply) ≡ false
      → change_password rt draws old_password new_password w ≡ (ok u, t)
      → change_password (record rt { peer = p }) draws old_password new_password w
        ≡ (raise client_error, t)
  unfolding change_password
  change_password-refused u t p reply there same answers other h =
      let (name, e, h1) = gets_inv require_login _ u w t h in
      let is_name : name ≡ username = username_of w username name there e in
      let (answer, v, asked, h2) =
        bind_inv (rpc rt MsgType.get_salt (username_payload name)) _ u w t h1 in
      let (salt_reply, good, h3) = lift_inv (expect MsgType.ok_reply answer) _ u v t h2 in
      let (again, is_v) =
        same_answer rt p MsgType.get_salt (username_payload username) answer w v same (
          subst (λ x. rpc rt MsgType.get_salt (username_payload x) w ≡ (ok answer, v)) is_name
            asked) in
      gets_ok require_login _ w username (named_ok w username there)
      ∙ bind_ok (rpc (record rt { peer = p }) MsgType.get_salt (username_payload username)) _ w v
          answer again
      ∙ lift_ok (expect MsgType.ok_reply answer) _ v salt_reply good
      ∙ rewrap_and_tell-refused rt draws username old_password new_password salt_reply v u t p reply
          other
          (λ request.
            ap (λ x. p (x.sent ++ ((MsgType.change_password, request) ∷ []))) is_v
            ∙ answers request)
          (subst
            (λ x. rewrap_and_tell rt draws x old_password new_password salt_reply v ≡ (ok u, t))
            is_name h3)
