-- ===== src/Client/Documents/Verified.antt =====
-- What `download` of client/client.py has verified when it returns, whatever the peer answers, and
-- what it leaves when it raises.
use mathlib.Core.Path.{subst}
use crypto_project.Base.{
  ℕ, inl, inr, List, Option, none, some, ok, >>=-eq-ok, ◌≡◌, refl, sym, ap, ◌∙◌,
}
use crypto_project.Actions.{
  Action, ◌>>=◌, pure, lift, gets, bind_inv, gets_inv, lift_inv, gets_both, lift_both,
}
use crypto_project.Text.{Text}
use crypto_project.Formats.Document.{ParsedDocument}
use crypto_project.Formats.Payload.{ParsedPayload}
use crypto_project.Formats.Share.{Share}
use crypto_project.Client.Disk.{Faults, write_file, write_file-eq-ok}
use crypto_project.Client.Session.{Runtime, World, rpc, holder, write_files}
use crypto_project.Client.Session.Steps.{holder_inv, write_files_inv}
use crypto_project.Client.TrustStore.{TrustStore}
use crypto_project.Client.Contacts.{is_self, get_verified_pubkey}
use crypto_project.Client.Contacts.Grows.{
  Extends, Grows, Grows-stay, Grows-trans, rpc-Grows, bind-Grows, get_verified_pubkey-Grows,
}
use crypto_project.Client.Contacts.Trusted.{IsTrusted, get_verified_pubkey-IsTrusted}
use crypto_project.Client.Opening.{check_share_sig, open_document, check_content_sig}
use crypto_project.Client.Opening.Checked.{
  IsDelivered, IsShareSigned, IsUnwrapped, IsOpened, IsContentSigned, check_delivery_inv,
  check_share_sig_inv, unwrap_with_inv, open_document_inv, check_content_sig_inv,
}
use crypto_project.Client.Documents.{fetch_doc, unwrap_fk, open_verified, download}

-- Keys that were trusted stay so while the store only gets entries.
IsTrusted-Grows :
    (username : Text) (keys : List ℕ × List ℕ) (w t : World)
    → Grows w t
    → IsTrusted username keys w.client
    → IsTrusted username keys t.client
IsTrusted-Grows username keys w t g (inl (own, sig_pub, dh_pub)) = inl (
  ap (λ c. is_self username c.username) g.session ∙ own,
  ap (λ c. c.sig_pub_bytes) g.session ∙ sig_pub,
  ap (λ c. c.dh_pub_bytes) g.session ∙ dh_pub,
)
IsTrusted-Grows username keys w t g (inr (store, e, other, there, entry, same)) =
    go t.client.trust refl (subst (λ s. Extends s t.client.trust) there g.store)
  where
    go :
        (after : Option TrustStore)
        → t.client.trust ≡ after
        → Extends (some store) after
        → IsTrusted username keys t.client
    go none q h = absurd h
    go (some s) q h = inr (
      s,
      e,
      ap (λ c. is_self username c.username) g.session ∙ other,
      q,
      h.1 username e entry,
      same,
    )

pub fetch_doc-Grows :
    (rt : Runtime) (nonce : List ℕ) (doc_id_hex : Text) (w : World)
    → Grows w (fetch_doc rt nonce doc_id_hex w).1
unfolding fetch_doc pure
fetch_doc-Grows rt nonce doc_id_hex w =
    gets_both (Grows w) _ _ w (Grows-stay w w refl refl) (λ me e.
      lift_both (Grows w) _ _ w (Grows-stay w w refl refl) (λ req_sig e1.
        bind-Grows (rpc rt _ _) _ w (rpc-Grows rt _ _ w) (λ answer e2.
          lift_both (Grows _) _ _ _ (Grows-stay _ _ refl refl) (λ reply e3.
            lift_both (Grows _) _ _ _ (Grows-stay _ _ refl refl) (λ doc_blob e4.
              lift_both (Grows _) _ _ _ (Grows-stay _ _ refl refl)
                (λ share_blob e5. Grows-stay _ _ refl refl))))))

unwrap_fk_inv :
    (share : Share) (w : World) (fk : List ℕ)
    → unwrap_fk share w ≡ ok fk
    → (me : Text × ℕ) × (holder w ≡ ok me) × IsUnwrapped me.1 share fk
unfolding unwrap_fk
unwrap_fk_inv share w fk h =
    let (me, e, h1) = >>=-eq-ok (holder w) _ h in (me, e, unwrap_with_inv me.1 share fk h1)

-- What was verified of a document and a share before the content is written.
pub record Verified (doc : ParsedDocument) (our_share : Share) (payload : ParsedPayload) (t : World)
    : Type 0 where
  pub dh_priv : ℕ
  pub sender : List ℕ × List ℕ
  pub fk : List ℕ
  pub owner : List ℕ × List ℕ
  pub our_key : t.client.dh_priv ≡ some dh_priv
  pub sender_known : IsTrusted our_share.sender sender t.client
  pub share_signed : IsShareSigned sender.0 our_share
  pub unwrapped : IsUnwrapped dh_priv our_share fk
  pub file_opened : IsOpened fk doc payload
  pub owner_known : IsTrusted doc.header.owner owner t.client
  pub content_signed : IsContentSigned owner.0 payload

-- It speaks of the client only.
Verified-client :
    (doc : ParsedDocument) (our_share : Share) (payload : ParsedPayload) (w t : World)
    → t.client ≡ w.client
    → Verified doc our_share payload w
    → Verified doc our_share payload t
Verified-client doc our_share payload w t same v = record {
  dh_priv = v.dh_priv;
  sender = v.sender;
  fk = v.fk;
  owner = v.owner;
  our_key = ap (λ c. c.dh_priv) same ∙ v.our_key;
  sender_known = subst (IsTrusted our_share.sender v.sender) (sym same) v.sender_known;
  share_signed = v.share_signed;
  unwrapped = v.unwrapped;
  file_opened = v.file_opened;
  owner_known = subst (IsTrusted doc.header.owner v.owner) (sym same) v.owner_known;
  content_signed = v.content_signed;
}

-- The content is written, and the client is as it was.
written_inv :
    (faults : Faults) (path : Text) (content : List ℕ) (name owner : Text) (w t : World)
    → (write_files (write_file faults path content) >>= λ u. pure owner) w ≡ (ok name, t)
    → (name ≡ owner) × (t.client ≡ w.client) × (t.disk path ≡ some content)
unfolding pure
written_inv faults path content name owner w t h =
    let (d, e, h1) =
      write_files_inv (write_file faults path content) (λ u. pure owner) name w t h in
    (
      cc (ap (λ x. x.0) h1),
      ap (λ x. x.1.client) (sym h1),
      ap (λ x. x.1.disk path) (sym h1) ∙ write_file-eq-ok faults path content w.disk d tt e,
    )

returned-Grows :
    {A : Type 0} (m : Action World A) (a : A) (w u : World)
    → m w ≡ (ok a, u)
    → Grows w (m w).1
    → Grows w u
returned-Grows m a w u h g = subst (λ x. Grows w x.1) h g

holder-dh_priv :
    (w t : World) (me : Text × ℕ) → Grows w t → holder w ≡ ok me → t.client.dh_priv ≡ some me.1
holder-dh_priv w t me g h = ap (λ c. c.dh_priv) g.session ∙ (holder_inv w me h).1

-- The second half of `open_verified`.
after_sender :
    (rt : Runtime) (doc : ParsedDocument) (share : Share) (sender : List ℕ × List ℕ) (w t : World)
    (payload : ParsedPayload)
    → IsTrusted share.sender sender w.client
    → (lift (check_share_sig sender.0 share) >>= λ _. gets (unwrap_fk share) >>= λ fk.
          lift (open_document fk doc) >>= λ payload.
          get_verified_pubkey rt doc.header.owner >>= λ owner.
          lift (check_content_sig owner.0 payload) >>= λ _. pure payload)
        w
      ≡ (ok payload, t)
    → Verified doc share payload t
unfolding pure
after_sender rt doc share sender w t payload known h =
    let (_, signed, h1) = lift_inv (check_share_sig sender.0 share) _ payload w t h in
    let (fk, unwrapped, h2) = gets_inv (unwrap_fk share) _ payload w t h1 in
    let (read, opened, h3) = lift_inv (open_document fk doc) _ payload w t h2 in
    let (owner, u, owned, h4) =
      bind_inv (get_verified_pubkey rt doc.header.owner) _ payload w t h3 in
    let (_, content, h5) = lift_inv (check_content_sig owner.0 read) _ payload u t h4 in
    let (me, held, wrapped) = unwrap_fk_inv share w fk unwrapped in
    let is_payload : read ≡ payload = cc (ap (λ x. x.0) h5) in
    let is_last : u ≡ t = ap (λ x. x.1) h5 in
    let g = subst (Grows w) is_last (
      returned-Grows (get_verified_pubkey rt doc.header.owner) owner w u owned
        (get_verified_pubkey-Grows rt doc.header.owner w)) in
    record {
      dh_priv = me.1;
      sender = sender;
      fk = fk;
      owner = owner;
      our_key = holder-dh_priv w t me g held;
      sender_known = IsTrusted-Grows share.sender sender w t g known;
      share_signed = check_share_sig_inv sender.0 share _ signed;
      unwrapped = wrapped;
      file_opened = subst (IsOpened fk doc) is_payload (open_document_inv fk doc read opened);
      owner_known =
          subst (λ x. IsTrusted doc.header.owner owner x.client) is_last
            (get_verified_pubkey-IsTrusted rt doc.header.owner w u owner owned);
      content_signed =
          subst (IsContentSigned owner.0) is_payload (check_content_sig_inv owner.0 read _ content);
    }

open_verified-Verified :
    (rt : Runtime) (doc : ParsedDocument) (share : Share) (w t : World) (payload : ParsedPayload)
    → open_verified rt doc share w ≡ (ok payload, t)
    → Verified doc share payload t
unfolding open_verified
open_verified-Verified rt doc share w t payload h =
    let (sender, u, sent, h1) = bind_inv (get_verified_pubkey rt share.sender) _ payload w t h in
    after_sender rt doc share sender u t payload
      (get_verified_pubkey-IsTrusted rt share.sender w u sender sent) h1

pub open_verified-Grows :
    (rt : Runtime) (doc : ParsedDocument) (our_share : Share) (w : World)
    → Grows w (open_verified rt doc our_share w).1
unfolding open_verified pure
open_verified-Grows rt doc our_share w =
    bind-Grows (get_verified_pubkey rt our_share.sender) _ w
      (get_verified_pubkey-Grows rt our_share.sender w)
      (λ sender e. lift_both (Grows _) _ _ _ (Grows-stay _ _ refl refl) (λ _ e1.
        gets_both (Grows _) _ _ _ (Grows-stay _ _ refl refl) (λ fk e2.
          lift_both (Grows _) _ _ _ (Grows-stay _ _ refl refl) (λ payload e3.
            bind-Grows (get_verified_pubkey rt doc.header.owner) _ _
              (get_verified_pubkey-Grows rt doc.header.owner _)
              (λ owner e4.
                lift_both (Grows _) _ _ _ (Grows-stay _ _ refl refl)
                  (λ _ e5. Grows-stay _ _ refl refl))))))

-- Whatever the peer answers, when `download` returns, the ciphertext has the hash in the share, the
-- share is for us and signed by keys trusted as the sender's, the file key that our private key
-- unwraps from it opens the document with its header, the content is signed by keys trusted as the
-- owner's, the file at the path is that content, and the name returned is the owner's.
pub download-Verified :
    (rt : Runtime) (nonce : List ℕ) (doc_id_hex save_path : Text) (w t : World) (name : Text)
    → download rt nonce doc_id_hex save_path w ≡ (ok name, t)
    → (username : Text) × (doc : ParsedDocument) × (our_share : Share) × (payload : ParsedPayload)
      × (t.client.username ≡ some username)
      × IsDelivered username doc our_share
      × Verified doc our_share payload t
      × (t.disk save_path ≡ some payload.content)
      × (name ≡ doc.header.owner)
unfolding download
download-Verified rt nonce doc_id_hex save_path w t name h =
    let (_, _, h1) = gets_inv _ _ name w t h in
    let (me, held, h2) = gets_inv holder _ name w t h1 in
    let (blobs, u, fetched, h3) = bind_inv (fetch_doc rt nonce doc_id_hex) _ name w t h2 in
    let (doc, _, h4) = lift_inv _ _ name u t h3 in
    let (our_share, _, h5) = lift_inv _ _ name u t h4 in
    let (_, delivered, h6) = lift_inv _ _ name u t h5 in
    let (payload, v, verified, h7) = bind_inv (open_verified rt doc our_share) _ name u t h6 in
    let (same, client, wrote) =
      written_inv rt.faults save_path payload.content name doc.header.owner v t h7 in
    let g =
      Grows-trans
        (returned-Grows (fetch_doc rt nonce doc_id_hex) blobs w u fetched
          (fetch_doc-Grows rt nonce doc_id_hex w))
        (returned-Grows (open_verified rt doc our_share) payload u v verified
          (open_verified-Grows rt doc our_share u)) in
    (
      me.0,
      doc,
      our_share,
      payload,
      ap (λ c. c.username) (client ∙ g.session) ∙ (holder_inv w me held).0,
      check_delivery_inv me.0 doc our_share _ delivered,
      Verified-client doc our_share payload v t client
          (open_verified-Verified rt doc our_share u v payload verified),
      wrote,
      same,
    )
