-- ===== src/Scenario/Worker/Tests.antt =====
-- core/scenario/engine.cpp, a worker thread at concrete inputs.
use cppload_workflow.Prelude.{
  ℕ, ◌+◌, ◌-◌, ◌*◌, ◌≤◌, ◌≡◌, refl, true, false, none, some, List, [], ◌∷◌, map, length, bytes,
  Bytes, ok, nonneg,
}
use cppload_workflow.Prelude.Json.{Json}
use cppload_workflow.Core.TokenBucket.{TokenBucket, one, second_ns, try_consume, refill}
use cppload_workflow.Net.Network.{Network}
use cppload_workflow.Net.Network.Samples.{steady}
use cppload_workflow.Net.Protocol.{no_response}
use cppload_workflow.Scenario.Config.{HttpStep, Scenario}
use cppload_workflow.Scenario.Worker.{
  Turn, Sent, late, cut, work, slot_period, first_slot_of, next_slot, await_slot, is_over, wake,
  choose_step, step_of, sent,
}
use cppload_workflow.Scenario.Choice.{pick_weighted_scenario, pick_from}
use cppload_workflow.Scenario.Worker.Rate.{IsPaced, work-IsPaced, work_rate}

abbrev plain_json : Json Bytes
plain_json = record {
  parse = λ s. ok s;
  value = λ j k. ok j;
  expiry_value = λ j k. ok (nonneg 90);
  contains = λ j k. true;
  field = λ j k. ok j;
  is_object = λ j. true;
  get_text = λ j. ok j;
  items = λ j. [];
  text_json = λ s. s;
  number_json = λ n. [];
  array = λ js. [];
  object = λ fields. [];
  null = [];
  dump = λ j. ok j;
}

abbrev server : Network ℕ ℕ
server = steady (record { status = 200; fields = []; body = bytes "abc" })

abbrev ping : HttpStep
ping = record {
  method = bytes "GET";
  path = bytes "/ping";
  body = [];
  headers = [];
  use_tls = false;
  assertions = [];
}

abbrev shop : List Scenario
shop = record { name = bytes "shop"; weight = 1; steps = ping ∷ [] } ∷ []

abbrev full : TokenBucket
full = record { rate = 100 * second_ns; burst = 100 * one; tokens = 100 * one; last_refill = 0 }

-- Two rounds at 5 and 8, with slots at 7 and 17; the wait for the second ends one nanosecond late.
abbrev turns : List Turn
turns =
    record {
      stopped = false;
      now = 5;
      wait = late 0;
      bucket = full;
      pick = 0;
      answer = some (none, record no_response { status_code = 200 });
    }
    ∷ record { stopped = false; now = 8; wait = late 1; bucket = full; pick = 0; answer = none }
    ∷ []

-- The same, where `stopped_` is seen at 9 in the wait for the second slot.
abbrev cut_turns : List Turn
cut_turns =
    record {
      stopped = false;
      now = 5;
      wait = late 0;
      bucket = full;
      pick = 0;
      answer = some (none, record no_response { status_code = 200 });
    }
    ∷ record { stopped = false; now = 8; wait = cut 9; bucket = full; pick = 0; answer = none }
    ∷ []

-- The wait for the slot at 17 is cut, and the request is sent at 9 all the same.
sent_early :
    map {B = ℕ × ℕ}
      (λ (s : Sent). (s.slot, s.sent_at))
      (work server plain_json
        (bytes "http://h/")
        shop
        (some (nonneg 30))
        10
        cut_turns
        7
        true
        0
        none
        0)
    ≡ (7, 5) ∷ (17, 9) ∷ []
unfolding work next_slot await_slot is_over wake try_consume refill choose_step step_of
    pick_weighted_scenario pick_from sent
sent_early = refl

hundred_users : slot_period 100 1 ≡ 100_000_000_000
unfolding slot_period
hundred_users = refl

-- The product of the period and the number of the worker does not fit.
last_of_many : first_slot_of 0 (slot_period 100_000 1) 99_999 100_000 ≡ none
unfolding first_slot_of slot_period
last_of_many = refl

work-IsPaced_example : IsPaced (some (nonneg 30)) 10 true true (next_slot true 7 10) (
    work server plain_json (bytes "http://h/") shop (some (nonneg 30)) 10 cut_turns 7 true 0 none 0)
work-IsPaced_example =
    work-IsPaced server plain_json (bytes "http://h/") shop (some (nonneg 30)) 10 cut_turns 7 true 0
      none 0

work_rate_example :
    length (
        work server plain_json (bytes "http://h/") shop (some (nonneg 30)) 10 turns 7 true 0 none 0)
      * 10
    ≤ (30 - 7) + 2 * 10
work_rate_example = work_rate server plain_json (bytes "http://h/") shop 30 10 turns 7 0 none 0

-- The first request does not wait for its slot.
sent_times :
    map {B = ℕ × ℕ}
      (λ (s : Sent). (s.slot, s.sent_at))
      (work server plain_json (bytes "http://h/") shop (some (nonneg 30)) 10 turns 7 true 0 none 0)
    ≡ (7, 5) ∷ (17, 18) ∷ []
unfolding work next_slot await_slot is_over wake try_consume refill choose_step step_of
    pick_weighted_scenario pick_from sent
sent_times = refl
