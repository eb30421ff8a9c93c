-- ===== src/Forwarder/Start/Laws.antt =====
-- The life of the bot in `Run` of internal/forwarder/forwarder.go, and when it gets to its loop.
use at_message_forward.Prelude.{
  true, false, Option, none, some, List, [], ◌∷◌, ◌++◌, Result, ok, err, ℤ, ◌≡◌, refl, ◌∙◌, ◌⊎◌,
  inl, inr, Bool-cases, ok-injective, ap, >>=-eq-ok,
}
use at_message_forward.Text.{Text, trim_space, is_empty}
use at_message_forward.Config.{Config}
use at_message_forward.Transport.Select.{SelectError, Transport, new_transport}
use at_message_forward.Telegram.Notify.{SetupError, created, parse_chat_id, new_service}
use at_message_forward.Forwarder.Start.{
  Event, bot_created, polling_started, sender_started, watchdog_started, reconnect_loop_run,
  watchdog_cancelled, polling_cancelled, bot_closed, StartError, token_required, setup_failed,
  Started, refused, with_transport, initialized, with_bot, chat_checked, start,
}

-- The bot is not created, or it is created first and closed last.
abbrev pub ClosesBot : List Event → Type 0
ClosesBot events =
    (events ≡ [])
    ⊎ ((chat : ℤ) × (middle : List Event) × (events
          ≡ bot_created chat ∷ (middle ++ bot_closed ∷ [])))

-- Everything that the loop needs is there: a token that is not blank and that the client takes, a bot
-- that can be initialised, the chat, and the transport.
pub record IsReady (create : Text → Option Text) (initialize : Option Text) (cfg : Config)
    (t : Transport) : Type 0 where
  pub chat : ℤ
  pub token : is_empty (trim_space cfg.telegram_token) ≡ false
  pub is_chat : parse_chat_id cfg.telegram_chat ≡ ok chat
  pub is_created : create cfg.telegram_token ≡ none
  pub is_initialized : initialize ≡ none
  pub is_transport : new_transport cfg ≡ ok t

-- The transports that the loop is run with.
unfoldable pub loops : List Event → List Transport
loops [] = []
loops (reconnect_loop_run t ∷ events) = t ∷ loops events
loops (bot_created chat ∷ events) = loops events
loops (polling_started ∷ events) = loops events
loops (sender_started ∷ events) = loops events
loops (watchdog_started ∷ events) = loops events
loops (watchdog_cancelled ∷ events) = loops events
loops (polling_cancelled ∷ events) = loops events
loops (bot_closed ∷ events) = loops events

-- With an error the loop is not run, without one it is run once, with a transport that is `P`.
abbrev pub Reaches : (Transport → Type 0) → Option StartError → List Event → Type 0
Reaches P (some e) events = loops events ≡ []
Reaches P none events = (t : Transport) × P t × (loops events ≡ t ∷ [])

abbrev pub IsOrderly : (Transport → Type 0) → Started → Type 0
IsOrderly P s = ClosesBot s.events × Reaches P s.error s.events

refused-IsOrderly : (P : Transport → Type 0) (e : StartError) → IsOrderly P (refused e)
unfolding loops
refused-IsOrderly P e = (inl refl, refl)

with_transport-IsOrderly :
    (P : Transport → Type 0) (chat : ℤ) (r : Result SelectError Transport)
    → ((t : Transport) → r ≡ ok t → P t)
    → IsOrderly P (with_transport chat r)
unfolding loops
with_transport-IsOrderly P chat (err e) h =
    let middle : List Event =
      polling_started ∷ sender_started ∷ watchdog_started ∷ watchdog_cancelled ∷ polling_cancelled
      ∷ [] in
    (inr (chat, middle, refl), refl)
with_transport-IsOrderly P chat (ok t) h =
    let middle : List Event =
      polling_started
      ∷ sender_started
      ∷ watchdog_started
      ∷ reconnect_loop_run t
      ∷ watchdog_cancelled
      ∷ polling_cancelled
      ∷ [] in
    (inr (chat, middle, refl), (t, h t refl, refl))

initialized-IsOrderly :
    (P : Transport → Type 0) (chat : ℤ) (cfg : Config) (initialize : Option Text)
    → (initialize ≡ none → (t : Transport) → new_transport cfg ≡ ok t → P t)
    → IsOrderly P (initialized chat cfg initialize)
unfolding loops
initialized-IsOrderly P chat cfg (some e) h = (inr (chat, [], refl), refl)
initialized-IsOrderly P chat cfg none h =
    with_transport-IsOrderly P chat (new_transport cfg) (h refl)

with_bot-IsOrderly :
    (P : Transport → Type 0) (cfg : Config) (initialize : Option Text) (r : Result SetupError ℤ)
    → ((chat : ℤ)
        → r ≡ ok chat
        → initialize ≡ none
        → (t : Transport) → new_transport cfg ≡ ok t
        → P t)
    → IsOrderly P (with_bot initialize cfg r)
with_bot-IsOrderly P cfg initialize (err e) h = refused-IsOrderly P (setup_failed e)
with_bot-IsOrderly P cfg initialize (ok chat) h =
    initialized-IsOrderly P chat cfg initialize (h chat refl)

chat_checked-IsOrderly :
    (P : Transport → Type 0) (r : Result SetupError ℤ) (next : Started)
    → IsOrderly P next
    → IsOrderly P (chat_checked r next)
chat_checked-IsOrderly P (err e) next h = refused-IsOrderly P (setup_failed e)
chat_checked-IsOrderly P (ok chat) next h = h

created_ok :
    (chat chat' : ℤ) (o : Option Text) → created chat o ≡ ok chat' → (o ≡ none) × (chat ≡ chat')
created_ok chat chat' none h = (refl, ok-injective h)
created_ok chat chat' (some e) h = absurd (cc h)

new_service_ok :
    (create : Text → Option Text) (cfg : Config) (chat : ℤ)
    → new_service create true cfg ≡ ok chat
    → (is_empty (trim_space cfg.telegram_token) ≡ false)
      × (parse_chat_id cfg.telegram_chat ≡ ok chat)
      × (create cfg.telegram_token ≡ none)
unfolding new_service
new_service_ok create cfg chat h = elim (Bool-cases (is_empty (trim_space cfg.telegram_token))) [
  | inl blank ↦ absurd (cc (rw blank at h))
  | inr token ↦
      let (chat', parsed, made) =
        >>=-eq-ok (parse_chat_id cfg.telegram_chat) (λ c. created c (create cfg.telegram_token))
          (rw token at h) in
      let (is_created, same) = created_ok chat' chat (create cfg.telegram_token) made in
      (token, parsed ∙ ap ok same, is_created)
]

-- On every path of `Run` the bot is either not created or created first and closed last. Without an error
-- the reconnect loop is run once, with the transport that the configuration selects, and the token is
-- not blank, the chat is a number, and the client was created and initialised; with an error the
-- loop is not run.
pub start-IsOrderly :
    (create : Text → Option Text) (initialize : Option Text) (cfg : Config)
    → IsOrderly (IsReady create initialize cfg) (start create initialize cfg)
unfolding start
start-IsOrderly create initialize cfg = elim (Bool-cases (is_empty cfg.telegram_token)) [
  | inl missing ↦ rw missing (refused-IsOrderly (IsReady create initialize cfg) token_required)
  | inr given ↦ rw given (
      chat_checked-IsOrderly (IsReady create initialize cfg) (parse_chat_id cfg.telegram_chat)
        (with_bot initialize cfg (new_service create true cfg))
        (with_bot-IsOrderly (IsReady create initialize cfg) cfg initialize
          (new_service create true cfg)
          (λ chat made init t selected.
            let (token, is_chat, is_created) = new_service_ok create cfg chat made in
            record {
              chat = chat;
              token = token;
              is_chat = is_chat;
              is_created = is_created;
              is_initialized = init;
              is_transport = selected;
            })))
]
