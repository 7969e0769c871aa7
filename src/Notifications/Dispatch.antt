-- ===== src/Notifications/Dispatch.antt =====
-- What a notification reaches, over ingestor/notifications.py.
use data_pipeline_async.Base.{
  ℕ, ◌+◌, ◌≡◌, refl, ap, ◌∙◌, Bool, true, false, Option, none, some, List, [], ◌∷◌, ◌++◌, map,
  length, count_if, Text, if◌then◌else◌, arith,
}
use data_pipeline_async.Notifications.{
  NotificationSettings, Notice, Post, Attempt, value_error, posts, ChannelResult, Report, is_sent,
  is_failed, dispatch_to_channel, attempt, ended, dispatch_each, selected,
  dispatch_notification_event,
}

abbrev pub is_delivered : Option Text → Bool
is_delivered none = true
is_delivered (some error) = false

-- The posts that a channel asks for, however posts end.
abbrev pub posts_of : Attempt → List Post
posts_of value_error = []
posts_of (posts p) = p ∷ []

module _ (lower : Text → Text) (http : Post → Option Text) (s : NotificationSettings)
    (n : Notice) where
  abbrev pub asked_for : List Text → List Post
  asked_for [] = []
  asked_for (channel ∷ channels) =
      posts_of (dispatch_to_channel lower s n channel) ++ asked_for channels

  abbrev pub delivered : List Post → ℕ
  delivered made = count_if (λ p. is_delivered (http p)) made

  -- One attempt is reported once, and as sent exactly if it made a post that succeeded.
  attempt-counts :
      (channel : Text) (a : Attempt) (later : List Post) (results : List ChannelResult)
      → let (made, result) = attempt lower http channel a in
        (made ≡ posts_of a)
        × (result.channel ≡ channel)
        × (count_if is_sent (result ∷ results) + delivered later
            ≡ count_if is_sent results + delivered (made ++ later))
        × (count_if is_sent (result ∷ results) + count_if is_failed (result ∷ results)
            ≡ count_if is_sent results + count_if is_failed results + 1)
  attempt-counts channel value_error later results = (refl, refl, omega arith, omega arith)
  attempt-counts channel (posts p) later results =
      (refl, refl, ended_sent (http p) refl, ended_counted (http p))
    where
      ended_sent :
          (o : Option Text)
          → http p ≡ o
          → count_if is_sent (record { channel = channel; status = ended lower http o } ∷ results)
              + delivered later
            ≡ count_if is_sent results + delivered (p ∷ later)
      ended_sent none e = rw e (omega arith)
      ended_sent (some error) e = rw e (omega arith)

      ended_counted :
          (o : Option Text)
          → let r : ChannelResult = record { channel = channel; status = ended lower http o } in
            count_if is_sent (r ∷ results) + count_if is_failed (r ∷ results)
            ≡ count_if is_sent results + count_if is_failed results + 1
      ended_counted none = omega arith
      ended_counted (some error) = omega arith

  each_lem :
      (channels : List Text)
      → let (made, results) = dispatch_each lower http s n channels in
        (made ≡ asked_for channels)
        × (map (λ r. r.channel) results ≡ channels)
        × (count_if is_sent results ≡ delivered made)
        × (count_if is_sent results + count_if is_failed results ≡ length channels)
  each_lem [] = (refl, refl, refl, omega arith)
  each_lem (channel ∷ channels) =
      let (made, names, sent_ones, all_ones) = each_lem channels in
      let (later, results) = dispatch_each lower http s n channels in
      let a = dispatch_to_channel lower s n channel in
      let (first_made, first_name, first_sent, first_counted) =
        attempt-counts channel a later results in
      (
        ap (λ l. l ++ later) first_made ∙ ap (λ l. posts_of a ++ l) made,
        ap (λ c. c ∷ map (λ r. r.channel) results) first_name ∙ ap (λ l. channel ∷ l) names,
        omega (arith, first_sent, sent_ones),
        omega (arith, first_counted, all_ones),
      )

  -- Where notifications are enabled, each selected channel is reported once and in order, whatever
  -- becomes of the others: the posts are those that the channels ask for, however earlier ones end,
  -- the number sent is that of the posts that succeeded, and sent and failed are all of them. Where
  -- they are disabled, nothing is posted or reported.
  pub dispatch_isolated :
      (channels : List Text)
      → let (made, report) = dispatch_notification_event lower http s n channels in
        let chosen = if s.enabled then selected lower s channels else [] in
        (made ≡ asked_for chosen)
        × (map (λ r. r.channel) report.results ≡ chosen)
        × (report.sent_count ≡ delivered made)
        × (report.sent_count + report.failed_count ≡ length chosen)
  unfolding dispatch_notification_event
  dispatch_isolated channels = decided s.enabled
    where
      chosen : List Text
      chosen = selected lower s channels

      made : List Post
      made = (dispatch_each lower http s n chosen).0

      results : List ChannelResult
      results = (dispatch_each lower http s n chosen).1

      decided :
          (on : Bool)
          → let (posted, report) =
              if◌then◌else◌ {A = List Post × Report} on
                (
                  made,
                  record {
                    sent_count = count_if is_sent results;
                    failed_count = count_if is_failed results;
                    results = results;
                  },
                )
                ([], record { sent_count = 0; failed_count = 0; results = [] }) in
            let reached = if on then chosen else [] in
            (posted ≡ asked_for reached)
            × (map (λ r. r.channel) report.results ≡ reached)
            × (report.sent_count ≡ delivered posted)
            × (report.sent_count + report.failed_count ≡ length reached)
      decided true = each_lem chosen
      decided false = (refl, refl, refl, omega arith)
