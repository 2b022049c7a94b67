-- ===== src/System/Sending.antt =====
-- The tasks that send packets to a client queue well-formed ones, or remove the client.
use neutun.Base.{
  ℕ, Text, ◌≡◌, refl, subst, sym, Bool, true, false, some, Result, ok, err, arith, Bool-cases,
  Option-cases, inl, inr, length,
}
use neutun.Utf8.{IsUtf8}
use neutun.Codecs.{Codecs}
use neutun.Channel.{Channels, send}
use neutun.Protocol.{ControlPacket, init_stream, ping, ReconnectToken}
use neutun.Protocol.Wire.Laws.{IsWellFormed}
use neutun.Server.{ConnectedClient, ActiveStream, Server}
use neutun.Server.Connections.{remove}
use neutun.Auth.Key.{SigKey, sign}
use neutun.Auth.Token.{TokenJson, ReconnectTokenPayload, into_token, TokenError}
use neutun.Auth.Handshake.{Env}
use neutun.Control.Client.{after}
use neutun.Control.Ping.{
  payload_of, reconnect_token, ok_of, sent, init_sent, send_ping, send_client_stream_init,
}
use neutun.System.Edits.{removes, queues, Edits, one}

-- Tokens are base64, so they are texts.
abbrev pub TextTokens : Codecs → Type 0
TextTokens k = (t : Text) → IsUtf8 (k.base64_encode t)

ok_of-IsUtf8 :
    (r : Result ReconnectToken TokenError) (tok : ReconnectToken)
    → ((t : ReconnectToken) → r ≡ ok t → IsUtf8 t)
    → ok_of r ≡ some tok
    → IsUtf8 tok
ok_of-IsUtf8 (ok t) tok h e = subst IsUtf8 (ground arith) (h t refl)
ok_of-IsUtf8 (err _) tok h e = absurd (ground arith)

into_token-IsUtf8 :
    (k : Codecs) (j : TokenJson) (p : ReconnectTokenPayload) (key : SigKey) (tok : ReconnectToken)
    → TextTokens k
    → into_token k j p key ≡ ok tok
    → IsUtf8 tok
unfolding into_token
into_token-IsUtf8 k j p key tok texts e = elim (Option-cases (j.payload_to_string p)) [
  | inl n ↦ absurd (ground arith)
  | inr (body, q) ↦
      elim (Option-cases (j.inner_to_vec (record { signed = body; sig = sign k key body }))) [
        | inl n ↦ absurd (ground arith)
        | inr (inner, r) ↦ subst IsUtf8 (ground arith) (texts inner)
      ]
]

reconnect_token-IsUtf8 :
    (env : Env) (c : ConnectedClient) (now : ℕ) (tok : ReconnectToken)
    → TextTokens env.codecs
    → reconnect_token env c now ≡ some tok
    → IsUtf8 tok
unfolding reconnect_token
reconnect_token-IsUtf8 env c now tok texts e = elim (Bool-cases c.is_anonymous) [
  | inl a ↦
      ok_of-IsUtf8
        (into_token env.codecs env.token_json (payload_of c now) env.config.master_sig_key) tok
        (λ t q.
          into_token-IsUtf8 env.codecs env.token_json (payload_of c now) env.config.master_sig_key t
            texts q)
        (ground arith)
  | inr a ↦ absurd (ground arith)
]

ping-IsWellFormed :
    (env : Env) (c : ConnectedClient) (now : ℕ)
    → TextTokens env.codecs
    → IsWellFormed (ping (reconnect_token env c now))
ping-IsWellFormed env c now texts = elim (Option-cases (reconnect_token env c now)) [
  | inl e ↦ rw e tt
  | inr (tok, e) ↦ rw e (reconnect_token-IsUtf8 env c now tok texts e)
]

-- A task that sends a packet queues it, or removes the client.
pub send-Edits :
    (c : ConnectedClient) (p : ControlPacket) (s : Server)
    (f : Bool × Channels ControlPacket → Server)
    → IsWellFormed p
    → ((x : Channels ControlPacket) → f (true, x) ≡ record s { controls = x })
    → ((x : Channels ControlPacket) → f (false, x) ≡ remove c s)
    → Edits s (f (send c.tx p s.controls))
send-Edits c p s f w on off =
    let r = send c.tx p s.controls in
    elim (Bool-cases r.0) [
      | inl e ↦
          subst (λ x. Edits s (f x)) (λ i. (sym e i, r.1))
            (subst (Edits s) (sym (on r.1)) (one (queues c.tx p w refl)))
      | inr e ↦
          subst (λ x. Edits s (f x)) (λ i. (sym e i, r.1))
            (subst (Edits s) (sym (off r.1)) (one (removes c refl)))
    ]

pub send_ping-Edits :
    (env : Env) (c : ConnectedClient) (now : ℕ) (s : Server)
    → TextTokens env.codecs
    → Edits s (after (send_ping env c now s))
unfolding send_ping
send_ping-Edits env c now s texts =
    send-Edits c _ s (λ x. after (sent c x s)) (ping-IsWellFormed env c now texts) (λ _. refl)
      (λ _. refl)

pub send_client_stream_init-Edits :
    (st : ActiveStream) (s : Server) → length st.id ≡ 8 → Edits s (send_client_stream_init st s)
unfolding send_client_stream_init
send_client_stream_init-Edits st s l =
    send-Edits st.client (init_stream st.id) s (λ x. init_sent st.client x s) l (λ _. refl)
      (λ _. refl)
