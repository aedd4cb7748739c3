-- ===== src/Scenarios/Server.antt =====
-- The configuration, the dead-letter producer and the metrics on concrete inputs.
use Prim.Native.Char.{char}
use distribuid_system_simula.Prelude.{
  ◌*◌, String, false, ◌==◌, Option, none, some, List, [], ◌∷◌, ◌≡◌, ◌↔◌, refl, sym, ap,
  if◌then◌else◌,
}
use distribuid_system_simula.Prelude.Int.{ℤ, pos}
use distribuid_system_simula.Exec.{◌>>=◌, ok}
use distribuid_system_simula.Dispatcher.Defaults.{second, with_defaults}
use distribuid_system_simula.Config.{
  Config, Environ, validate, env_or_default, env_or_default_int, env_or_default_duration, load_env,
  config_of, load,
}
use distribuid_system_simula.Config.Texts.{bytes, text, is_space, trim_start, trim_end}
use distribuid_system_simula.Config.Loaded.{IsValid, IsRead, validate-IsValid, load_ok}
use distribuid_system_simula.Config.Entries.{Entry, IsEntry, print_entries}
use distribuid_system_simula.Config.Environment.{
  load_env-keeps, first_value, load_env-print_entries,
}
use distribuid_system_simula.Server.{dispatcher_config}
use distribuid_system_simula.Server.Wiring.{with_defaults-dispatcher_config}
use distribuid_system_simula.Consumer.{Letter, of_event, consume, event_store}
use distribuid_system_simula.Metrics.Known.{IsKnown, consume-IsKnown}
use distribuid_system_simula.Dlq.{
  DlqMessage, KafkaRecord, Kafka, KafkaLaws, send, send_letter, produce_marshalled, event_record,
}
use distribuid_system_simula.Dlq.Producer.{IsSent, send_letter_ok}
use distribuid_system_simula.Scenarios.Setting.{platform, created}
use distribuid_system_simula.Scenarios.Records.{broker, start, decode, is_any, batch}

-- no variable is set
abbrev bare : Environ
bare name = ""

-- A reader of durations that knows one text.
abbrev parse : String → Option ℤ
parse t = if t == "5s" then some (pos (5 * second)) else none

abbrev defaults : Config
defaults = config_of parse bare

validate-IsValid_example : (validate defaults ≡ ok tt) ↔ IsValid defaults
validate-IsValid_example = validate-IsValid defaults

abbrev quick : Environ
quick name = if name == "WEBHOOK_TIMEOUT" then "5s" else ""

quick_loaded : load parse none quick ≡ (ok (config_of parse quick), quick)
unfolding load load_env config_of validate env_or_default env_or_default_int env_or_default_duration
quick_loaded = refl

load_ok_example :
    IsValid (config_of parse quick)
    × IsRead parse
        (quick "WEBHOOK_CB_OPEN_DURATION")
        (pos (30 * second))
        (config_of parse quick).webhook_cb_open_duration
    × IsRead parse
        (quick "WEBHOOK_TIMEOUT")
        (pos (10 * second))
        (config_of parse quick).webhook_timeout
load_ok_example = load_ok parse none quick quick (config_of parse quick) quick_loaded

with_defaults-dispatcher_config_example :
    (pos (with_defaults (dispatcher_config (config_of parse quick))).breaker.failure_threshold
      ≡ (config_of parse quick).webhook_cb_failure_threshold)
    × (pos (with_defaults (dispatcher_config (config_of parse quick))).breaker.success_threshold
        ≡ (config_of parse quick).webhook_cb_success_threshold)
    × ((with_defaults (dispatcher_config (config_of parse quick))).breaker.open_duration
        ≡ (config_of parse quick).webhook_cb_open_duration)
    × ((with_defaults (dispatcher_config (config_of parse quick))).breaker.request_timeout
        ≡ (config_of parse quick).webhook_timeout)
unfolding config_of env_or_default_int
with_defaults-dispatcher_config_example =
    with_defaults-dispatcher_config parse none quick quick (config_of parse quick) quick_loaded refl
      refl

load_env-keeps_example :
    load_env (some "WEBHOOK_TIMEOUT=1m") quick "WEBHOOK_TIMEOUT" ≡ quick "WEBHOOK_TIMEOUT"
load_env-keeps_example = load_env-keeps (some "WEBHOOK_TIMEOUT=1m") "WEBHOOK_TIMEOUT" quick refl

-- TOPIC=a b
abbrev topic_entry : Entry
topic_entry = record {
  first = char 84 tt;
  rest = char 79 tt ∷ char 80 tt ∷ char 73 tt ∷ char 67 tt ∷ [];
  value = char 97 tt ∷ char 32 tt ∷ char 98 tt ∷ [];
}

topic-IsEntry : IsEntry topic_entry
unfolding is_space trim_start trim_end bytes
topic-IsEntry = record {
  no_comment = refl;
  one_name = (refl, (refl, (refl, (refl, (refl, tt)))));
  name_line = (refl, (refl, (refl, (refl, (refl, tt)))));
  value_line = (refl, (refl, (refl, tt)));
  name_nul = (refl, (refl, (refl, (refl, (refl, tt)))));
  value_nul = (refl, (refl, (refl, tt)));
  name_trimmed = record { start = refl; end = refl };
  value_trimmed = record { start = refl; end = refl };
  short = refl;
}

load_env-print_entries_example :
    load_env (some (text (print_entries (topic_entry ∷ [])))) quick "TOP"
    ≡ (if quick "TOP" == "" then first_value (topic_entry ∷ []) "TOP" else quick "TOP")
load_env-print_entries_example =
    load_env-print_entries (topic_entry ∷ []) quick "TOP" (topic-IsEntry, tt)

-- A Kafka whose state is its topic, with messages as they are.
abbrev kafka : Kafka (List (KafkaRecord DlqMessage)) DlqMessage
kafka = record {
  produce_sync = λ r k. (ok tt, r ∷ k);
  topic = λ k. k;
  marshal = λ m. some m;
  unmarshal = λ b. some b;
  now = λ k. 7;
}

kafka-laws : KafkaLaws kafka
kafka-laws = record { acknowledged = λ r k k' h. sym (ap (λ x. x.1) h); read_back = λ m b h. sym h }

abbrev refused : Letter DlqMessage
refused = of_event created "order belongs to another plan" "PLAN_MISMATCH"

refused_sent : send_letter kafka refused [] ≡ (ok tt, (send_letter kafka refused []).1)
unfolding send_letter send produce_marshalled event_record ◌>>=◌
refused_sent = refl

send_letter_ok_example : IsSent kafka kafka-laws refused [] (send_letter kafka refused []).1
send_letter_ok_example =
    send_letter_ok kafka kafka-laws refused [] (send_letter kafka refused []).1 refused_sent

consume-IsKnown_example :
    IsKnown (consume (event_store platform (λ r. false)) broker is_any decode batch start).1
consume-IsKnown_example =
    consume-IsKnown (event_store platform (λ r. false)) broker is_any decode batch start
      (record { events = tt; letters = tt })
