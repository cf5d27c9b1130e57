-- ===== src/Server/Replies.antt =====
-- The messages in which server/server.py sends its replies. The texts for people are parameters.
use crypto_project.Base.{ℤ, List, [], ◌∷◌, Option, none, some}
use crypto_project.Text.{Text, codes}
use crypto_project.Wire.{MsgType}
use crypto_project.Wire.Json.{Json, null, int, str, arr, obj, Items, nil, item, end, field, Message}
use crypto_project.Server.Service.{
  Problem, Reply, error, done, uploaded, salt_reply, challenge_reply, pubkey_reply, document_reply,
  list_reply,
}

-- `UserRecord.argon2_params`
unfoldable pub params_json : ℤ × ℤ × ℤ → Json
params_json (t, m, p) =
    obj (field (codes "t") (int t) (field (codes "m") (int m) (field (codes "p") (int p) end)))

unfoldable pub texts : List Text → Items
texts [] = nil
texts (t ∷ ts) = item (str t) (texts ts)

-- `... if share else None`
unfoldable pub or_null : Option Text → Json
or_null none = null
or_null (some t) = str t

unfoldable pub message_of : (Problem → Text) → Text → Reply → Message
message_of text_of success (error p) =
    (MsgType.error_reply, field (codes "message") (str (text_of p)) end)
message_of text_of success done = (MsgType.ok_reply, field (codes "message") (str success) end)
message_of text_of success (uploaded doc_id) =
    (MsgType.ok_reply, field (codes "doc_id") (str doc_id) end)
message_of text_of success (salt_reply salt params) = (
  MsgType.ok_reply,
  field (codes "salt") (str salt) (field (codes "argon2_params") (params_json params) end),
)
message_of text_of success (challenge_reply salt params challenge) = (
  MsgType.login_challenge,
  field (codes "salt") (str salt) (
      field (codes "argon2_params") (params_json params)
        (field (codes "challenge") (str challenge) end)),
)
message_of text_of success (pubkey_reply sig_pub dh_pub) = (
  MsgType.user_pubkey,
  field (codes "sig_pub") (str sig_pub) (field (codes "dh_pub") (str dh_pub) end),
)
message_of text_of success (document_reply document share) = (
  MsgType.doc,
  field (codes "document") (str document) (field (codes "share") (or_null share) end),
)
message_of text_of success (list_reply owned shared) = (
  MsgType.doc_list,
  field (codes "owned") (arr (texts owned)) (field (codes "shared") (arr (texts shared)) end),
)
