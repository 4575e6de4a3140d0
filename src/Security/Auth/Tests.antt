-- ===== src/Security/Auth/Tests.antt =====
-- core/security/auth_provider.cpp at concrete inputs: a server whose answer is the token itself.
use cppload_workflow.Prelude.{
  ℕ, ◌≡◌, refl, true, false, [], Bytes, bytes, ok, nonneg, eqb, starts_with,
}
use cppload_workflow.Prelude.Json.{Json}
use cppload_workflow.Core.Url.{parse_url}
use cppload_workflow.Net.Network.{Network, check, ◌>>=◌}
use cppload_workflow.Net.Network.Writes.{counted}
use cppload_workflow.Net.Network.Samples.{steady}
use cppload_workflow.Security.Post.{do_sync_post, with_stream, send_receive, receive}
use cppload_workflow.Security.Auth.{
  Auth, oauth2, fetch_token, read_reply, read_token, store_token, store_expiry, status_error,
  lifetime, apply_headers, is_expired, grant_body,
}
use cppload_workflow.Security.Auth.Refresh.{
  Refreshed, fetch_token-Refreshed, apply_headers_unexpired,
}

abbrev plain_json : Json Bytes
plain_json = record {
  parse = λ s. ok s;
  value = λ j k. ok j;
  expiry_value = λ j k. ok (nonneg 90);
  contains = λ j k. true;
  field = λ j k. ok j;
  is_object = λ j. true;
  get_text = λ j. ok j;
  items = λ j. [];
  text_json = λ s. s;
  number_json = λ n. [];
  array = λ js. [];
  object = λ fields. [];
  null = [];
  dump = λ j. ok j;
}

abbrev server : Network ℕ ℕ
server = steady (record { status = 200; fields = []; body = bytes "abc" })

-- Its token ran out at 3.
abbrev stale : Auth
stale = record {
  config = record {
    auth_type = oauth2;
    key = [];
    token = [];
    client_id = bytes "id";
    client_secret = bytes "s";
    token_endpoint = bytes "http://idp/token";
  };
  current_token = bytes "old";
  token_expiry = 3;
}

fetched :
    (fetch_token server plain_json stale 10).0
    ≡ (ok true, record stale { current_token = bytes "abc"; token_expiry = 30_000_000_015 })
unfolding fetch_token do_sync_post with_stream send_receive receive check ◌>>=◌ read_reply
    read_token store_token store_expiry status_error lifetime steady parse_url grant_body bytes eqb
    starts_with
fetched = refl

fetch_token-Refreshed_example :
    Refreshed server plain_json stale (fetch_token server plain_json stale 10)
fetch_token-Refreshed_example = fetch_token-Refreshed server plain_json stale 10

unexpired : (is_expired (counted server) plain_json stale (2, 0)).0 ≡ false
unfolding is_expired counted steady
unexpired = refl

apply_headers_unexpired_example :
    let ((_, a'), (_, m)) = apply_headers (counted server) plain_json stale [] (2, 0) in
    (a'.current_token ≡ stale.current_token) × (a'.token_expiry ≡ stale.token_expiry) × (m ≡ 0)
apply_headers_unexpired_example = apply_headers_unexpired server plain_json stale [] 2 0 unexpired
