-- ===== src/Notifications/Examples.antt =====
-- Witnesses of the dispatch: Slack is configured and fails, the webhook is delivered, e-mail is not
-- configured.
use data_pipeline_async.Base.{
  ◌+◌, ◌≡◌, true, Option, none, some, List, [], ◌∷◌, map, length, Text, if◌then◌else◌,
}
use data_pipeline_async.Notifications.{
  NotificationSettings, Notice, Post, slack_post, telegram_post, webhook_post, email_post, slack,
  webhook, email, critical, selected, dispatch_notification_event,
}
use data_pipeline_async.Notifications.Dispatch.{asked_for, delivered, dispatch_isolated}

abbrev settings : NotificationSettings
settings = record {
  enabled = true;
  default_channels = slack;
  slack_webhook_url = b'u' ∷ [];
  telegram_bot_token = [];
  telegram_chat_id = [];
  webhook_url = b'w' ∷ [];
  email_provider = [];
  resend_api_key = [];
  email_from = [];
  email_to = [];
}

abbrev notice : Notice
notice = record { event = b'e' ∷ []; message = []; severity = critical; context = [] }

abbrev http : Post → Option Text
http (slack_post url color n) = some []
http (telegram_post token chat_id n) = none
http (webhook_post url n) = none
http (email_post api_key sender recipients n) = none

abbrev channels : List Text
channels = slack ∷ email ∷ webhook ∷ []

dispatch_isolated_example :
    let (made, report) = dispatch_notification_event (λ t. t) http settings notice channels in
    let chosen = if settings.enabled then selected (λ t. t) settings channels else [] in
    (made ≡ asked_for (λ t. t) http settings notice chosen)
    × (map (λ r. r.channel) report.results ≡ chosen)
    × (report.sent_count ≡ delivered (λ t. t) http settings notice made)
    × (report.sent_count + report.failed_count ≡ length chosen)
dispatch_isolated_example = dispatch_isolated (λ t. t) http settings notice channels
