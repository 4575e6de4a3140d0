-- ===== src/Otel/Tracer/Tests.antt =====
-- core/otel/otlp_exporter.cpp at concrete inputs.
use cppload_workflow.Prelude.{
  ℕ, suc, ◌≡◌, refl, true, false, some, List, [], ◌∷◌, ◌++◌, arith, length, Bytes, bytes, ok,
  nonneg, whole, eqb, starts_with, find,
}
use cppload_workflow.Prelude.Json.{Json}
use cppload_workflow.Net.Network.{Network}
use cppload_workflow.Net.Network.Samples.{steady}
use cppload_workflow.Core.Url.{parse_url}
use cppload_workflow.Otel.Tracer.{
  SpanData, Tracer, no_span, export_loop, parse_endpoint, start_span, open_span, close_span,
  enqueue, bounded, finished, should_sample_span,
}
use cppload_workflow.Otel.Tracer.Buffer.{
  newest, enqueue_all, enqueue_all-newest, IsDrained, export_loop_drains,
}

abbrev plain_json : Json Bytes
plain_json = record {
  parse = λ s. ok s;
  value = λ j k. ok j;
  expiry_value = λ j k. ok (nonneg 0);
  contains = λ j k. false;
  field = λ j k. ok j;
  is_object = λ j. false;
  get_text = λ j. ok j;
  items = λ j. [];
  text_json = λ s. s;
  number_json = λ n. [];
  array = λ js. [];
  object = λ fields. [];
  null = [];
  dump = λ j. ok j;
}

abbrev collector : Network ℕ ℕ
collector = steady (record { status = 200; fields = []; body = [] })

abbrev call : SpanData
call = record {
  name = bytes "a";
  trace_id = [];
  span_id = [];
  parent_span_id = [];
  start_time = 1;
  end_time = 2;
  attributes = [];
}

abbrev stopped : Tracer ℕ
stopped = record {
  config = record {
    endpoint = bytes "http://c";
    sample_rate = 1;
    service_name = [];
    service_version = [];
  };
  trace_id = [];
  span = no_span;
  completed_spans = call ∷ call ∷ [];
  stop = true;
  endpoint_host = bytes "c";
  endpoint_port = bytes "4318";
  endpoint_target = bytes "/v1/traces";
}

default_endpoint : parse_endpoint (bytes "http://c") ≡ (bytes "c", (bytes "80", bytes "/v1/traces"))
unfolding parse_endpoint parse_url starts_with find eqb bytes
default_endpoint = refl

-- A span that is opened while another is open ends it, and has it as parent.
nested :
    let t =
      start_span whole
        (start_span whole stopped (bytes "x") (bytes "1") 0 5 5)
        (bytes "y")
        (bytes "2")
        0
        7
        7 in
    (length t.completed_spans ≡ 3) × (t.span.parent_span_id ≡ bytes "1")
unfolding start_span open_span close_span enqueue bounded finished should_sample_span bytes
nested = (refl, refl)

enqueue_all-newest_example :
    (enqueue_all stopped (call ∷ [])).completed_spans
    ≡ newest (stopped.completed_spans ++ (call ∷ []))
enqueue_all-newest_example = enqueue_all-newest stopped (call ∷ []) (omega arith)

export_loop_drains_example :
    (r : List (List SpanData) × Tracer ℕ) × (w' : ℕ) × (export_loop collector plain_json
        (suc (length stopped.completed_spans))
        stopped
        200
        0
      ≡ some (ok r, w'))
    × IsDrained stopped.completed_spans r
export_loop_drains_example =
    export_loop_drains collector plain_json (λ j. (j, refl)) stopped 200 0 refl
