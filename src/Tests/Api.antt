-- ===== src/Tests/Api.antt =====
-- The theorems on the C interface at concrete inputs.
use voxtral_cpp.Prelude.{
  ℕ, ◌≡◌, refl, true, false, some, [], ◌∷◌, ◌++◌, List, arith, take, replicate,
}
use voxtral_cpp.Stream.State.{State, EventType, event_of, Message, Params, Stream}
use voxtral_cpp.Stream.Lifecycle.Create.{Environment, fresh_stream}
use voxtral_cpp.Stream.Lifecycle.Finish.Well.{IsWell, IsWell-IsSound}
use voxtral_cpp.Stream.Lifecycle.Runs.{fresh_stream-IsSound}
use voxtral_cpp.Api.Utf8.{utf8_prefix_at_most}
use voxtral_cpp.Api.Utf8.Longest.{IsLongest, utf8_prefix_at_most-IsLongest}
use voxtral_cpp.Api.Params.{
  VersionedHeader, read_header, stream_default_params, normalize_stream_params,
}
use voxtral_cpp.Api.Params.RoundTrip.{
  uint_bytes, stream_params_bytes, normalize_stream_params-stream_params_bytes,
}
use voxtral_cpp.Api.Params.Local.{normalize_stream_params_local}
use voxtral_cpp.Api.Calls.{copy_event_text, stream_feed_pcm16}
use voxtral_cpp.Api.Calls.Polling.{
  Copied, copy_event_text-Copied, poll_times, answers, after_polls, poll_times-answers,
}
use voxtral_cpp.Api.Calls.Reports.{Reported, stream_feed_pcm16-Reported}
use voxtral_cpp.Api.Calls.Well.{ApiCall, call_all, call_all-IsWell}
use voxtral_cpp.Tests.{counting}

-- "aé" and the first byte of a character that is cut.
abbrev cut_text : List ℕ
cut_text = 97 ∷ 195 ∷ 169 ∷ 226 ∷ []

utf8_prefix_at_most-IsLongest_example : IsLongest cut_text 4 (utf8_prefix_at_most cut_text 9)
utf8_prefix_at_most-IsLongest_example = utf8_prefix_at_most-IsLongest cut_text 9

utf8_prefix_test : utf8_prefix_at_most cut_text 9 ≡ 3
unfolding utf8_prefix_at_most
utf8_prefix_test = refl

copy_event_text-Copied_example : Copied cut_text 2 (copy_event_text cut_text 2)
copy_event_text-Copied_example = copy_event_text-Copied cut_text 2

normalize_stream_params-stream_params_bytes_example :
    normalize_stream_params (some (stream_params_bytes stream_default_params ++ (7 ∷ [])))
    ≡ (true, stream_default_params)
normalize_stream_params-stream_params_bytes_example =
    normalize_stream_params-stream_params_bytes stream_default_params (7 ∷ []) (omega arith)

-- A client that was compiled with a structure of 36 bytes.
abbrev short_params : List ℕ
short_params = uint_bytes 4 36 ++ (uint_bytes 4 16777216 ++ replicate 40 0)

abbrev short_header : VersionedHeader
short_header = record { struct_size = 36; version = 16777216 }

short_header_test : read_header (some short_params) ≡ some short_header
unfolding read_header
short_header_test = refl

normalize_stream_params_local_example :
    normalize_stream_params (some (take 36 short_params ++ (9 ∷ [])))
    ≡ normalize_stream_params (some short_params)
normalize_stream_params_local_example =
    normalize_stream_params_local short_params (9 ∷ []) short_header short_header_test (omega arith)

abbrev plain : Environment
plain = record { reference_decoder = false; capture_output_sha = false }

abbrev short_limit : Params
short_limit = record {
  sample_rate = 16000;
  channels = 1;
  max_tokens = 0;
  max_total_samples = 1000;
  retain_mel_history = false;
}

abbrev opened : Stream counting
opened = fresh_stream plain 0 short_limit

abbrev done : Stream counting
done = record opened {
  lifecycle = record (opened.lifecycle) { state = State.completed };
  decoder = record (opened.decoder) { transcript = 111 ∷ 107 ∷ [] };
  events = record (opened.events) {
    queue = event_of EventType.final_text ∷ event_of EventType.completed ∷ [];
  };
}

-- The memory for an event, its header filled in.
abbrev event_memory : List ℕ
event_memory = uint_bytes 4 4160 ++ uint_bytes 4 16777216

abbrev nothing_printed : Message → List ℕ
nothing_printed _ = []

event_memory_test :
    read_header (some event_memory) ≡ some (record { struct_size = 4160; version = 16777216 })
unfolding read_header
event_memory_test = refl

poll_times-answers_example : poll_times nothing_printed (some event_memory) 3 done ≡ (
  answers nothing_printed 0 done.events.queue 3,
  after_polls nothing_printed (some event_memory) done 3 0 done.events.queue,
)
unfolding read_header
poll_times-answers_example = poll_times-answers nothing_printed (some event_memory) 3 done refl

stream_feed_pcm16-Reported_example : Reported 0 2 (stream_feed_pcm16 opened (some (1 ∷ 2 ∷ [])) 2)
stream_feed_pcm16-Reported_example = stream_feed_pcm16-Reported opened (some (1 ∷ 2 ∷ [])) 2

abbrev three_calls : List ApiCall
three_calls =
    ApiCall.feed_pcm (some (1 ∷ 2 ∷ [])) 2 ∷ ApiCall.end ∷ ApiCall.poll (some event_memory) ∷ []

opened-IsWell : IsWell opened
opened-IsWell = IsWell-IsSound opened (fresh_stream-IsSound plain 0 short_limit)

call_all-IsWell_example : IsWell (call_all nothing_printed three_calls opened)
call_all-IsWell_example = call_all-IsWell nothing_printed three_calls opened opened-IsWell
