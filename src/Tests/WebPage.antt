-- ===== src/Tests/WebPage.antt =====
-- A page of the web channel, from the start of the channel on.
use secnano.Prelude.{String, true, refl, ◌≡◌, Option, none, some, List, [], ◌∷◌}
use secnano.Types.{Json, text}
use secnano.WebChannel.{new_channel, connect, do_post, messages_since}
use secnano.WebChannel.Log.{ChannelStep, IsNumberedFrom}
use secnano.WebChannel.Polls.{View, Runs, opened, poll}
use secnano.WebChannel.Polls.Alone.{poll-Runs}
use secnano.Tests.Data.{test_message}

abbrev parse_hello : String → Option (List (String × Json))
parse_hello body = some (("text", text "hello") ∷ [])

-- The server starts with one message of the past, the page asks, and a text is sent.
abbrev started : View
unfolding connect
started = poll (record (opened (new_channel "web:team" "Team")) {
  channel =
      (connect "t0" (some (test_message "m1" "t" ∷ [])) none (new_channel "web:team" "Team")).1;
})

abbrev sent : View
unfolding connect do_post
sent = record started {
  channel = (do_post parse_hello "t1" "u1" "/api/send" "{}" started.channel).2;
}

sent-Runs : Runs true (opened (new_channel "web:team" "Team")) sent
unfolding sent messages_since
sent-Runs =
    Runs.runs
      (ChannelStep.connects "t0" (some (test_message "m1" "t" ∷ [])) none
        (new_channel "web:team" "Team"))
      (Runs.asks (λ e. refl)
        (Runs.answers [] [] 0 refl (
          Runs.renders [] [] _ refl (
            Runs.runs (ChannelStep.posts parse_hello "t1" "u1" "/api/send" "{}" started.channel)
              (Runs.idle sent)))))

poll-Runs_example :
    ((poll sent).received ≡ sent.channel.messages) × IsNumberedFrom 0 sent.channel.messages
poll-Runs_example = poll-Runs true "web:team" "Team" sent sent-Runs
