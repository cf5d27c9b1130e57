-- ===== src/Client/Account/SignedUp.antt =====
-- What signup of client/client.py leaves of the keystore.
use crypto_project.Base.{
  List, [], ◌∷◌, ◌++◌, false, ◌==◌, Outcome, ok, raise, client_error, ◌≡◌, sym, ap, ◌∙◌, length,
}
use crypto_project.Actions.{pure, bind_inv, lift_inv, lift_ok}
use crypto_project.Text.{Text}
use crypto_project.Wire.{MsgType, msg_code}
use crypto_project.Wire.Json.{Fields, Message}
use crypto_project.Client.Paths.{keystore_path}
use crypto_project.Client.Keystore.{keys, save_keys, load_keys}
use crypto_project.Client.Keystore.RoundTrip.{load_keys-saved}
use crypto_project.Client.Requests.{register_payload}
use crypto_project.Client.Session.{Runtime, World, rpc, expect}
use crypto_project.Client.Session.Steps.{
  rpc_kept, write_files_inv, write_files_ok, refused_after, sent_after,
}
use crypto_project.Client.Account.{derive_master, SignupDraws, Identity, new_identity, signup}

module _ (rt : Runtime) (draws : SignupDraws) (username password : Text) (w t : World)
    (u : Unit {0}) where
  -- When signup returns, with a nonce of 12 bytes, the key that the password and the salt give opens the
  -- user's keystore to the two private keys that were drawn.
  pub signup-saves :
      length draws.keystore_nonce ≡ 12
      → signup rt draws username password w ≡ (ok u, t)
      → (new : Identity) × (new_identity rt draws password ≡ ok new)
        × (load_keys (keystore_path rt.storage_dir username) new.kek t.disk
            ≡ ok (keys new.sig.0 new.dh.0))
  unfolding signup pure
  signup-saves n h =
      let path = keystore_path rt.storage_dir username in
      let (new, made, h1) = lift_inv (new_identity rt draws password) _ u w t h in
      let (d, saved, h2) =
        write_files_inv (save_keys rt.faults draws.keystore_nonce path new.sig.0 new.dh.0 new.kek) _
          u w t h1 in
      let (reply, v, asked, h3) = bind_inv (rpc rt MsgType.register _) _ u _ t h2 in
      let (_, _, h4) = lift_inv (expect MsgType.ok_reply reply) _ u v t h3 in
      let last : t.disk ≡ d =
        ap (λ x. x.1.disk) (sym h4) ∙ (rpc_kept rt _ _ reply (record w { disk = d }) v asked).1 in
      (
        new,
        made,
        ap (load_keys path new.kek) last
            ∙ load_keys-saved rt.faults draws.keystore_nonce path new.sig.0 new.dh.0 new.kek w.disk
                d tt n saved,
      )

  -- Where signup returns, a peer that answers with anything but OK makes it raise ClientError and leaves
  -- the same files: the user's keystore is overwritten already.
  pub signup-refused :
      (p : List Message → Outcome Message) (reply : Message)
      → ((request : Fields) → p (w.sent ++ ((MsgType.register, request) ∷ [])) ≡ ok reply)
      → (msg_code reply.0 == msg_code MsgType.ok_reply) ≡ false
      → signup rt draws username password w ≡ (ok u, t)
      → signup (record rt { peer = p }) draws username password w ≡ (raise client_error, t)
  unfolding signup pure new_identity derive_master
  signup-refused p reply answers other h =
      let path = keystore_path rt.storage_dir username in
      let (new, made, h1) = lift_inv (new_identity rt draws password) _ u w t h in
      let (d, saved, h2) =
        write_files_inv (save_keys rt.faults draws.keystore_nonce path new.sig.0 new.dh.0 new.kek) _
          u w t h1 in
      let request = register_payload username draws.salt new.auth_pub new.sig.1 new.dh.1 in
      let (answer, v, asked, h3) = bind_inv (rpc rt MsgType.register request) _ u _ t h2 in
      let (_, _, h4) = lift_inv (expect MsgType.ok_reply answer) _ u v t h3 in
      lift_ok (new_identity (record rt { peer = p }) draws password) _ w new made
      ∙ write_files_ok (save_keys rt.faults draws.keystore_nonce path new.sig.0 new.dh.0 new.kek) _
          w d saved
      ∙ refused_after rt p MsgType.register request reply (record w { disk = d }) other
          (answers request)
      ∙ ap (λ x. (raise client_error, x))
          (sent_after rt MsgType.register request answer (record w { disk = d }) v asked
            ∙ ap (λ x. x.1) h4)
