-- ===== src/Otel/Tracer.antt =====
-- include/cppload/otel/exporter.hpp and core/otel/otlp_exporter.cpp: `Tracer::Impl`. A call of the program
-- and a round of the exporting thread hold a mutex, so they are steps; the body of a request is written
-- out as a value, which the JSON library dumps.
pub mod Buffer
pub mod Tests
use cppload_workflow.Prelude.{
  ℕ, zero, suc, ◌+◌, ◌-◌, ◌*◌, Bool, true, false, not, ◌&&◌, ◌||◌, Option, none, some, List, [],
  ◌∷◌, ◌++◌, map, ltb, leb, if◌then◌else◌, length, take, drop, min, Bytes, bytes, eqb, is_empty,
  to_string, Dict, insert, Result, ok, err, Double,
}
use cppload_workflow.Prelude.Json.{Json, JsonException}
use cppload_workflow.Core.Url.{parse_url}
use cppload_workflow.Net.Network.{
  Io, done, end_of_stream, Message, Network, any_error, Exchange, check, ◌>>=◌, ◌>>◌, pure, perform,
}
use cppload_workflow.Core.Errors.{Err, dns_failure, connection_refused, write_error, read_error}
use cppload_workflow.Security.Post.{receive_error}

pub record SpanData : Type 0 where
  pub name : Bytes
  pub trace_id : Bytes
  pub span_id : Bytes
  pub parent_span_id : Bytes
  pub start_time : ℕ
  pub end_time : ℕ
  pub attributes : Dict Bytes

pub record TraceConfig (F : Type 0) : Type 0 where
  pub endpoint : Bytes
  pub sample_rate : F
  pub service_name : Bytes
  pub service_version : Bytes

-- The part that `span_mtx_` guards.
pub record SpanState : Type 0 where
  pub span_name : Bytes
  pub attributes : Dict Bytes
  pub span_active : Bool
  pub current_span_id : Bytes
  pub parent_span_id : Bytes
  pub last_span_id : Bytes
  pub span_start : ℕ

pub record Tracer (F : Type 0) : Type 0 where
  pub config : TraceConfig F
  pub trace_id : Bytes
  pub span : SpanState
  pub completed_spans : List SpanData
  pub stop : Bool
  pub endpoint_host : Bytes
  pub endpoint_port : Bytes
  pub endpoint_target : Bytes

abbrev pub batch_size : ℕ
batch_size = 64

abbrev pub max_buffered : ℕ
max_buffered = 4096

-- The host, the port and the target of an endpoint; all empty where there is none.
unfoldable pub parse_endpoint : Bytes → Bytes × (Bytes × Bytes)
parse_endpoint endpoint =
    if is_empty endpoint
    then ([], ([], []))
    else (let parts = parse_url endpoint in
        (
          parts.host,
          (
            if is_empty parts.port then bytes "4318" else parts.port,
            if eqb parts.path (bytes "/") || is_empty parts.path
                then bytes "/v1/traces"
                else parts.path,
          ),
        ))

abbrev pub no_span : SpanState
no_span = record {
  span_name = [];
  attributes = [];
  span_active = false;
  current_span_id = [];
  parent_span_id = [];
  last_span_id = [];
  span_start = 0;
}

-- The constructor; `trace_id` is the number that was drawn. The thread starts at once.
unfoldable pub create : {F : Type 0} → TraceConfig F → Bytes → Tracer F
create config trace_id =
    let (host, (port, target)) = parse_endpoint config.endpoint in
    record {
      config = config;
      trace_id = trace_id;
      span = no_span;
      completed_spans = [];
      stop = false;
      endpoint_host = host;
      endpoint_port = port;
      endpoint_target = target;
    }

-- The buffer after a span was added, without the oldest spans where there are too many.
unfoldable pub bounded : List SpanData → SpanData → List SpanData
bounded spans span =
    let spans' = spans ++ (span ∷ []) in
    if ltb max_buffered (length spans') then drop (length spans' - max_buffered) spans' else spans'

unfoldable pub enqueue : {F : Type 0} → Tracer F → SpanData → Tracer F
enqueue t span = record t { completed_spans = bounded t.completed_spans span }

-- The span that ends now.
unfoldable pub finished : {F : Type 0} → Tracer F → ℕ → SpanData
finished t now = record {
  name = t.span.span_name;
  trace_id = t.trace_id;
  span_id = t.span.current_span_id;
  parent_span_id = t.span.parent_span_id;
  start_time = t.span.span_start;
  end_time = now;
  attributes = t.span.attributes;
}

unfoldable pub close_span : {F : Type 0} → Tracer F → Tracer F
close_span t = record t {
  span = record t.span {
    last_span_id = t.span.current_span_id;
    attributes = [];
    span_active = false;
  };
}

module _ {F : Type 0} (D : Double F) where
  -- `drawn` is what the distribution over 0 to 1 gives.
  unfoldable pub should_sample_span : Tracer F → F → Bool
  should_sample_span t drawn = D.le drawn t.config.sample_rate

  unfoldable pub open_span : Tracer F → Bytes → Bytes → ℕ → Tracer F
  open_span t name span_id now = record t {
    span = record {
      span_name = name;
      attributes =
          insert (bytes "service.version") t.config.service_version
            (insert (bytes "service.name") t.config.service_name t.span.attributes);
      span_active = true;
      current_span_id = span_id;
      parent_span_id = t.span.last_span_id;
      last_span_id = t.span.last_span_id;
      span_start = now;
    };
  }

  -- A span that is open ends here; `ended` and `now` are the two readings of the clock.
  unfoldable pub start_span : Tracer F → Bytes → Bytes → F → ℕ → ℕ → Tracer F
  start_span t name span_id drawn ended now =
      if t.span.span_active
      then (let opened = open_span (close_span t) name span_id now in
          if D.le (D.ratio 1 1) t.config.sample_rate || should_sample_span t drawn
          then enqueue opened (finished t ended)
          else opened)
      else open_span t name span_id now

  unfoldable pub end_span : Tracer F → F → ℕ → Tracer F
  end_span t drawn now =
      if not t.span.span_active
      then t
      else if D.lt t.config.sample_rate (D.ratio 1 1) && not (should_sample_span t drawn)
      then close_span t
      else enqueue (close_span t) (finished t now)

  unfoldable pub add_attribute : Tracer F → Bytes → Bytes → Tracer F
  add_attribute t key value = record t {
    span = record t.span { attributes = insert key value t.span.attributes };
  }

module _ {J : Type 0} (L : Json J) where
  -- {"key": k, "value": ["stringValue", v]}: a braced pair of texts is an array, and a braced list of pairs that
  -- begin with a text is an object.
  unfoldable pub attribute : Bytes × Bytes → J
  attribute (k, v) = L.object (
      (bytes "key", L.text_json k)
      ∷ (bytes "value", L.array (L.text_json (bytes "stringValue") ∷ L.text_json v ∷ []))
      ∷ [])

  abbrev pub parent_field : Bytes → Dict J
  parent_field parent =
      if is_empty parent then [] else (bytes "parentSpanId", L.text_json parent) ∷ []

  abbrev pub attribute_field : Dict Bytes → Dict J
  attribute_field [] = []
  attribute_field (a ∷ attributes) =
      (bytes "attributes", L.array (map attribute (a ∷ attributes))) ∷ []

  unfoldable pub span_json : SpanData → J
  span_json span = L.object (
      (bytes "traceId", L.text_json span.trace_id)
      ∷ (bytes "spanId", L.text_json span.span_id)
      ∷ (parent_field span.parent_span_id
          ++ ((bytes "name", L.text_json span.name)
              ∷ (bytes "kind", L.number_json 2)
              ∷ (bytes "startTimeUnixNano", L.text_json (to_string span.start_time))
              ∷ (bytes "endTimeUnixNano", L.text_json (to_string span.end_time))
              ∷ (attribute_field span.attributes
                  ++ ((bytes "status", L.object ((bytes "code", L.number_json 1) ∷ [])) ∷ [])))))

  unfoldable pub payload : {F : Type 0} → TraceConfig F → List SpanData → J
  payload config spans =
      let service = L.array (
        attribute (bytes "service.name", config.service_name)
        ∷ attribute (bytes "service.version", config.service_version)
        ∷ []) in
      let scope_spans = L.object (
        (
          bytes "scope",
          L.object (
              (bytes "name", L.text_json (bytes "volley"))
              ∷ (bytes "version", L.text_json (bytes "1.1.0"))
              ∷ []),
        )
        ∷ (bytes "spans", L.array (map span_json spans))
        ∷ []) in
      let resource_spans = L.object (
        (bytes "resource", L.object ((bytes "attributes", service) ∷ []))
        ∷ (bytes "scopeSpans", L.array (scope_spans ∷ []))
        ∷ []) in
      L.object ((bytes "resourceSpans", L.array (resource_spans ∷ [])) ∷ [])

unfoldable pub otlp_message : Bytes → Bytes → Bytes → Message
otlp_message host target body = record {
  method = bytes "POST";
  target = target;
  fields =
      (bytes "Host", host)
      ∷ (bytes "User-Agent", bytes "volley/1.1.0")
      ∷ (bytes "Content-Type", bytes "application/json")
      ∷ [];
  body = body;
  prepared = true;
}

-- `backoff` in milliseconds after an export.
unfoldable pub next_backoff : Bool → ℕ → ℕ
next_backoff true backoff = 200
next_backoff false backoff = min (backoff * 2) 5000

-- The batch of a round, and the tracer without it.
unfoldable pub take_batch : {F : Type 0} → Tracer F → List SpanData × Tracer F
take_batch t =
    let n = min batch_size (length t.completed_spans) in
    (take n t.completed_spans, record t { completed_spans = drop n t.completed_spans })

module _ {W S J : Type 0} (N : Network W S) (L : Json J) where
  unfoldable pub open_connection : Bytes → Bytes → Exchange W S
  open_connection host port w =
      let (s, w') = N.create_stream false w in
      (check (any_error dns_failure) (N.resolve host port)
          >> check (any_error connection_refused) (N.connect s host port)
          >> pure s)
        w'

  unfoldable pub post_body : Message → S → Exchange W (Unit {0})
  post_body req s =
      check (any_error write_error) (N.write s req)
      >> (λ w. let ((ec, res), w') = N.read s w in check receive_error (λ v. (ec, v)) w')
      >> perform (N.close s)

  -- The body is dumped on an open connection, and may throw.
  unfoldable pub do_post_json : Bytes → Bytes → Bytes → J → W → Result Bool JsonException × W
  do_post_json host port target body w =
      let (r, w1) = open_connection host port w in
      elim r [
        | err e ↦ (ok false, w1)
        | ok s ↦ elim (L.dump body) [
          | err e ↦ (err e, w1)
          | ok body_str ↦
              let (r', w2) = post_body (otlp_message host target body_str) s w1 in
              (ok (elim r' [ ok _ ↦ true | err e ↦ false ]), w2)
        ]
      ]

  unfoldable pub do_export :
      {F : Type 0} → Tracer F → List SpanData → W → Result Bool JsonException × W
  do_export t [] w = (ok true, w)
  do_export t (span ∷ spans) w =
      if is_empty t.endpoint_host
      then (ok true, w)
      else do_post_json t.endpoint_host t.endpoint_port t.endpoint_target
          (payload L t.config (span ∷ spans)) w

  -- The loop of the exporting thread once it is told to stop, with the batches that it takes; `none` is a
  -- run without enough rounds. Left of the loop, nothing is there to drain.
  unfoldable pub export_loop :
      {F : Type 0}
      → ℕ
      → Tracer F
      → ℕ
      → W
      → Option (Result (List (List SpanData) × Tracer F) JsonException × W)
  export_loop zero t backoff w = none
  export_loop (suc fuel) t backoff w =
      if t.stop && is_empty t.completed_spans
      then some (ok ([], t), w)
      else (let (to_export, t') = take_batch t in
          let (r, w') = do_export t' to_export w in
          elim r [
            | err e ↦ some (err e, w')
            | ok sent ↦
                let backoff' =
                  if is_empty t.endpoint_host then backoff else next_backoff sent backoff in
                elim (export_loop fuel t' backoff' w') [
                  | none ↦ none
                  | some (err e, w'') ↦ some (err e, w'')
                  | some (ok (batches, t''), w'') ↦ some (ok (to_export ∷ batches, t''), w'')
                ]
          ])

  -- What the destructor sends of the buffer that is left.
  unfoldable pub flush : {F : Type 0} → Tracer F → W → (Result Bool JsonException × Tracer F) × W
  flush t w =
      let (r, w') = do_export t t.completed_spans w in ((r, record t { completed_spans = [] }), w')
