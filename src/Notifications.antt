-- ===== src/Notifications.antt =====
-- ingestor/notifications.py: an event sent to some channels. `str.lower`, `str.upper` and the HTTP
-- client are parameters; the client by what a post ends with, none or the text of its exception. A
-- post is the request that is made, without its JSON encoding.
pub mod Dispatch
mod Examples
use data_pipeline_async.Base.{
  ℕ, Bool, true, false, ◌||◌, Option, none, some, List, [], ◌∷◌, ◌++◌, map, keep, count_if, Text,
  text_key, ◌==◌, if◌then◌else◌,
}
use data_pipeline_async.Base.Strings.{strip, split}

abbrev pub slack : Text
slack = b's' ∷ b'l' ∷ b'a' ∷ b'c' ∷ b'k' ∷ []

abbrev pub telegram : Text
telegram = b't' ∷ b'e' ∷ b'l' ∷ b'e' ∷ b'g' ∷ b'r' ∷ b'a' ∷ b'm' ∷ []

abbrev pub webhook : Text
webhook = b'w' ∷ b'e' ∷ b'b' ∷ b'h' ∷ b'o' ∷ b'o' ∷ b'k' ∷ []

abbrev pub email : Text
email = b'e' ∷ b'm' ∷ b'a' ∷ b'i' ∷ b'l' ∷ []

abbrev pub resend : Text
resend = b'r' ∷ b'e' ∷ b's' ∷ b'e' ∷ b'n' ∷ b'd' ∷ []

abbrev pub critical : Text
critical = b'c' ∷ b'r' ∷ b'i' ∷ b't' ∷ b'i' ∷ b'c' ∷ b'a' ∷ b'l' ∷ []

abbrev pub warning : Text
warning = b'w' ∷ b'a' ∷ b'r' ∷ b'n' ∷ b'i' ∷ b'n' ∷ b'g' ∷ []

abbrev pub Context : Type 0
Context = List (Text × Text)

-- The settings that the module reads; an unset text counts as an empty one.
pub record NotificationSettings : Type 0 where
  pub enabled : Bool
  pub default_channels : Text
  pub slack_webhook_url : Text
  pub telegram_bot_token : Text
  pub telegram_chat_id : Text
  pub webhook_url : Text
  pub email_provider : Text
  pub resend_api_key : Text
  pub email_from : Text
  pub email_to : Text

pub record Notice : Type 0 where
  pub event : Text
  pub message : Text
  pub severity : Text
  pub context : Context

pub data Color : Type 0 where
  danger amber good : Color

-- The posts of the four senders.
pub data Post : Type 0 where
  slack_post : (url : Text) → Color → Notice → Post
  telegram_post : (token chat_id : Text) → Notice → Post
  webhook_post : (url : Text) → Notice → Post
  email_post : (api_key sender : Text) → (recipients : List Text) → Notice → Post

-- What `_dispatch_to_channel` leads to: a ValueError before any post, or a post.
pub data Attempt : Type 0 where
  value_error : Attempt
  posts : Post → Attempt

pub data Status : Type 0 where
  sent : Status
  failed : Status

pub record ChannelResult : Type 0 where
  pub channel : Text
  pub status : Status

pub record Report : Type 0 where
  pub sent_count : ℕ
  pub failed_count : ℕ
  pub results : List ChannelResult

-- `color` of `_send_slack`: "danger", "warning" or "good".
abbrev pub color_of : Text → Color
color_of severity =
    if severity == critical then danger else if severity == warning then amber else good

abbrev pub is_empty {ℓ} : {A : Type ℓ} → List A → Bool
is_empty [] = true
is_empty (_ ∷ _) = false

-- The parts of a list separated by commas, stripped, without the blank ones.
abbrev pub parts_of : List Text → List Text
parts_of [] = []
parts_of (v ∷ vs) = let rest = parts_of vs in if is_empty (strip v) then rest else strip v ∷ rest

pub send_slack : NotificationSettings → Notice → Attempt
send_slack s n =
    if is_empty s.slack_webhook_url
    then value_error
    else posts (slack_post s.slack_webhook_url (color_of n.severity) n)

pub send_telegram : NotificationSettings → Notice → Attempt
send_telegram s n =
    if is_empty s.telegram_bot_token || is_empty s.telegram_chat_id
    then value_error
    else posts (telegram_post s.telegram_bot_token s.telegram_chat_id n)

pub send_webhook : NotificationSettings → Notice → Attempt
send_webhook s n =
    if is_empty s.webhook_url then value_error else posts (webhook_post s.webhook_url n)

pub email_recipients : NotificationSettings → List Text
email_recipients s = parts_of (split b',' s.email_to)

abbrev pub is_valid : Text → Bool
is_valid v = (v == slack) || ((v == telegram) || ((v == webhook) || (v == email)))

abbrev pub is_sent : ChannelResult → Bool
is_sent r = elim r.status [ sent ↦ true | failed ↦ false ]

abbrev pub is_failed : ChannelResult → Bool
is_failed r = elim r.status [ sent ↦ false | failed ↦ true ]

module _ (lower : Text → Text) where
  pub parse_channels : Text → List Text
  parse_channels raw = keep is_valid (map lower (parts_of (split b',' raw)))

  pub send_email : NotificationSettings → Notice → Attempt
  unfolding email_recipients
  send_email s n =
      if lower (strip s.email_provider) == resend
      then (if is_empty s.resend_api_key || (is_empty s.email_from || is_empty (email_recipients s))
          then value_error
          else posts (email_post s.resend_api_key s.email_from (email_recipients s) n))
      else value_error

  pub dispatch_to_channel : NotificationSettings → Notice → Text → Attempt
  dispatch_to_channel s n channel =
      if channel == slack
      then send_slack s n
      else if channel == telegram
      then send_telegram s n
      else if channel == webhook
      then send_webhook s n
      else if channel == email
      then send_email s n
      else value_error

  -- `channels or _default_channels()`
  abbrev pub selected : NotificationSettings → List Text → List Text
  selected s [] = parse_channels s.default_channels
  selected s (channel ∷ channels) = channel ∷ channels

  module _ (http : Post → Option Text) where
    abbrev pub ended : Option Text → Status
    ended none = sent
    ended (some error) = failed

    -- The posts made for a channel, and how the channel is reported.
    abbrev pub attempt : Text → Attempt → List Post × ChannelResult
    attempt channel value_error = ([], record { channel = channel; status = failed })
    attempt channel (posts p) = (p ∷ [], record { channel = channel; status = ended (http p) })

    -- The loop over the channels; no exception leaves it.
    abbrev pub dispatch_each :
        NotificationSettings → Notice → List Text → List Post × List ChannelResult
    dispatch_each s n [] = ([], [])
    dispatch_each s n (channel ∷ channels) =
        let (made, result) = attempt channel (dispatch_to_channel s n channel) in
        let (later, results) = dispatch_each s n channels in (made ++ later, result ∷ results)

    -- `dispatch_notification_event`: the posts made, and the report; no channels is an empty list.
    pub dispatch_notification_event : NotificationSettings → Notice → List Text → List Post × Report
    dispatch_notification_event s n channels =
        let (made, results) = dispatch_each s n (selected s channels) in
        if s.enabled
        then (
          made,
          record {
            sent_count = count_if is_sent results;
            failed_count = count_if is_failed results;
            results = results;
          },
        )
        else ([], record { sent_count = 0; failed_count = 0; results = [] })
