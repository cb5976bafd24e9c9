-- ===== src/Delivery/Arrival.antt =====
-- What is sent from one device of client/js/app.js and carried unchanged is shown on the other.
use lattix.Prelude.{
  ℕ, ◌<◌, ◌≡◌, refl, ap, ◌∙◌, Text, Bytes, codes, same, any, Bool, true, not, ◌&&◌, Option, some,
  List, [], ◌∷◌, ◌++◌, All, length, if◌then◌else◌,
}
use lattix.Prelude.Dict
use lattix.Crypto.Primitives.{Primitives, Laws, Fault, ok, IsDsaPair, RawMeta}
use lattix.Crypto.Encoding.{b64_to_bytes}
use lattix.Crypto.Wrap.{CanWrap}
use lattix.Crypto.Message.{Payload}
use lattix.Crypto.Message.Laws.{decrypt-encrypt_message}
use lattix.Crypto.File.{clean_meta}
use lattix.Crypto.File.Laws.{decrypt-encrypt_file}
use lattix.History.{
  is_file, Kind, message, file, Message, Peer, Convo, State, Envelope, opened, cid_of, ingest,
  ingest_all, decode_envelope, decode_answer, shown, add_some,
}
use lattix.History.Order.{Ascending}
use lattix.History.Races.{messages_in}
use lattix.History.Loading.{IsNew, ingest_all-shown}
use lattix.Trust
use lattix.Trust.{Self}
use lattix.Delivery.{
  ctx_for, prepared, UserFile, meta_of, FileBody, posted, sealed_text, sealed_file, send_text,
  send_file, octet_stream, decoded, fetch_decrypted_file,
}

-- The message that stands for an envelope whose content was opened and verified.
abbrev pub arrived : State → Envelope → Bool → Kind → Text → Message
arrived st env alerted kind text = record {
  id = env.id;
  sender = env.sender;
  ts = env.created_at;
  kind = kind;
  text = text;
  verified = not (not (same env.sender st.me) && alerted);
  key_alert = not (same env.sender st.me) && alerted;
  has_payload = is_file kind;
  expires_at = env.expires_at;
}

clean_name :
    (name : Text) (mime : Option Text) (size : Option ℕ)
    → (clean_meta (record { filename = some name; mime = mime; size = size })).filename
      ≡ (if same name [] then codes "file" else name)
unfolding clean_meta same
clean_name [] mime size = refl
clean_name (c ∷ name) mime size = refl

-- An envelope that reaches a conversation as its newest.
module _ (now : ℕ) (st : State) (peer : Peer) (c : Convo) (env : Envelope) (live alerted : Bool)
    (here : Dict.get st.convos (cid_of peer) ≡ some c) (ascending : Ascending c.messages)
    (newest : All (λ m. m.id < env.id) c.messages) (new : IsNew now st peer env) where
  decoded_message :
      (kind : Kind) (text : Text)
      → env.kind ≡ some kind
      → decode_envelope st env alerted (opened text true) ≡ some (arrived st env alerted kind text)
  unfolding decode_envelope
  decoded_message kind text e = rw (e, decode_envelope) refl

  ingest_shows :
      (kind : Kind) (text : Text)
      → env.kind ≡ some kind
      → messages_in (ingest now st env (some (alerted, opened text true)) live) peer
        ≡ c.messages ++ arrived st env alerted kind text ∷ []
  unfolding ingest_all shown add_some decode_answer
  ingest_shows kind text e =
      ingest_all-shown now (λ _. some (alerted, opened text true)) live peer (env ∷ []) st c here
        ascending (tt, tt) (newest, tt) (new, tt)
      ∙ ap (λ m. c.messages ++ add_some m []) (decoded_message kind text e)

  -- An honest exchange: the laws of the primitives, recipients whose keys decode and open with the
  -- receiver's secret key, and the sender's signature pair.
  module _ (p : Primitives) (laws : Laws p) (draw : ℕ → Bytes) (secret : Text)
      (recipients : List (Text × Text)) (can : All (CanWrap p st.me secret) recipients)
      (dsa_secret dsa_pub : Text) (sk pk : Bytes) (hsk : b64_to_bytes p dsa_secret ≡ ok sk)
      (hpk : b64_to_bytes p dsa_pub ≡ ok pk) (pair : IsDsaPair p pk sk)
      (addressed : any (λ r. same r.0 st.me) recipients ≡ true) (shows : Fault → Text) (to : Peer)
      (same_context : ctx_for to ≡ ctx_for peer) (trust : Trust.State) (self : Self)
      (convo : Trust.Convo) (allowed : prepared trust self convo ≡ some recipients) where
    -- Let nothing hold the sending back, the primitives satisfy their laws, the recipients' public
    -- keys be base64 and those under the receiver's name belong to the receiver's secret key, the
    -- receiver be among them, the sender's keys be a signature pair, and the conversation have one
    -- context on both devices. A text that survives UTF-8 is then posted, and where the relay hands
    -- its payload on in an envelope that is new to the receiver's device, newer than the messages of
    -- its conversation, not expired and from nobody blocked, the conversation shows what it showed
    -- and then that text, marked as verified unless an alert stands for the sender's keys.
    pub text_arrives :
        (text : Text)
        → p.decode (p.utf8 text) ≡ text
        → env.kind ≡ some message
        → (payload : Payload) × (send_text p draw text (prepared trust self convo) dsa_secret to
            ≡ posted payload)
          × (messages_in
                (ingest now st env
                  (some (
                    alerted,
                    decoded p shows st.me secret dsa_pub (ctx_for peer) (sealed_text payload),
                  ))
                  live)
                peer
              ≡ c.messages ++ arrived st env alerted message text ∷ [])
    unfolding send_text decoded
    text_arrives text survives kind =
        let (payload, sent, received) =
          decrypt-encrypt_message p laws draw st.me secret recipients can dsa_secret dsa_pub sk pk
            hsk hpk pair text (ctx_for peer) addressed survives in
        let opens : decoded p shows st.me secret dsa_pub (ctx_for peer) (sealed_text payload)
            ≡ opened text true =
          rw (received, decoded) refl in
        (
          payload,
          (rw (allowed, same_context, sent, send_text) refl),
          ap (λ d. messages_in (ingest now st env (some (alerted, d)) live) peer) opens
              ∙ ingest_shows message text kind,
        )

    -- Under the same conditions on the exchange and the envelope: a file whose upload succeeds is
    -- posted without its name and type. The conversation then shows the file's name, `file` standing
    -- for an empty one, marked as verified unless an alert stands for the sender's keys, and fetching
    -- the stored bytes and decrypting them gives the contents of the file.
    pub file_arrives :
        (sent_file : UserFile) (upload : Bytes → Option Text) (download : Text → Option Bytes)
        → (let meta = meta_of sent_file in
            let raw : RawMeta = record {
              filename = some meta.filename;
              mime = some meta.mime;
              size = some meta.size;
            } in
            p.decode (p.utf8 (p.stringify_meta raw)) ≡ p.stringify_meta raw)
        → ((b : Bytes) → (id : Text) × (upload b ≡ some id) × (download id ≡ some b))
        → env.kind ≡ some file
        → (body : FileBody) × (send_file p draw upload sent_file
              (prepared trust self convo)
              dsa_secret
              to
            ≡ posted body)
          × (body.filename ≡ codes "file")
          × (body.mime ≡ octet_stream)
          × (messages_in
                (ingest now st env
                  (some (
                    alerted,
                    decoded p shows st.me secret dsa_pub (ctx_for peer) (sealed_file body.payload),
                  ))
                  live)
                peer
              ≡ c.messages
                ++ arrived st env alerted file
                    (if same sent_file.filename [] then codes "file" else sent_file.filename)
                  ∷ [])
          × (fetch_decrypted_file p download body.file_id body.payload st.me secret dsa_pub
                (ctx_for peer)
              ≡ some (ok sent_file.bytes))
    unfolding send_file decoded fetch_decrypted_file meta_of
    file_arrives sent_file upload download survives stores kind =
        let (cipher, payload, sent, contents, opens) =
          decrypt-encrypt_file p laws draw st.me secret recipients can dsa_secret dsa_pub sk pk hsk
            hpk pair sent_file.bytes (meta_of sent_file) (ctx_for peer) addressed survives in
        let (id, stored, loaded) = stores cipher in
        let shown_name : decoded p shows st.me secret dsa_pub (ctx_for peer) (sealed_file payload)
            ≡ opened (if same sent_file.filename [] then codes "file" else sent_file.filename)
                true =
          rw (opens, decoded) (ap (λ name. opened name true) (clean_name sent_file.filename _ _)) in
        (
          (record {
            file_id = id;
            filename = codes "file";
            mime = octet_stream;
            size = length sent_file.bytes;
            payload = payload;
          }),
          (rw (allowed, same_context, sent, stored, send_file) refl),
          refl,
          refl,
          ap (λ d. messages_in (ingest now st env (some (alerted, d)) live) peer) shown_name
              ∙ ingest_shows file _ kind,
          (rw (loaded, fetch_decrypted_file) (ap some contents)),
        )
