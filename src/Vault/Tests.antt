-- ===== src/Vault/Tests.antt =====
-- core/vault/vault_client.cpp at concrete inputs.
use cppload_workflow.Prelude.{ℕ, ◌+◌, ◌≤◌, ◌≡◌, refl, false, [], Bytes, bytes, ok, err, ◌==◌}
use cppload_workflow.Core.Errors.{vault_server_error}
use cppload_workflow.Net.Network.{Reply, Network, check, ◌>>=◌}
use cppload_workflow.Net.Network.Writes.{counted}
use cppload_workflow.Net.Network.Samples.{steady}
use cppload_workflow.Vault.Requests.{do_request, do_request_once, attempts, request_plain, receive}
use cppload_workflow.Vault.Requests.Attempts.{do_request_bounded}
use cppload_workflow.Vault.Client.{VaultConfig, secret_path, creds_path}
use cppload_workflow.Vault.Client.Paths.{IsClean, secret_path-IsClean}

abbrev busy : Network ℕ ℕ
busy = steady (record { status = 429; fields = []; body = [] })

abbrev host : Bytes
host = bytes "v"

-- Three requests, 100 and 200 milliseconds apart, and an error.
throttled :
    do_request (counted busy) (bytes "GET") host (bytes "8200") (bytes "/") [] [] false (0, 0)
    ≡ (err vault_server_error, (315, 3))
unfolding do_request do_request_once attempts request_plain receive check ◌>>=◌ steady counted
throttled = refl

do_request_bounded_example :
    let (r, (_, m)) =
      do_request (counted busy) (bytes "GET") host (bytes "8200") (bytes "/") [] [] false (0, 0) in
    (m ≤ 0 + 3) × ((res : Reply) → r ≡ ok res → (res.status == 429) ≡ false)
do_request_bounded_example =
    do_request_bounded busy (bytes "GET") host (bytes "8200") (bytes "/") [] [] false 0 0

abbrev settings : VaultConfig
settings = record {
  address = bytes "http://v:8200";
  token = bytes "t";
  engine_path = bytes "secret";
}

secret_path-IsClean_example :
    IsClean (secret_path settings (bytes "../a")) × IsClean (creds_path (bytes ".."))
secret_path-IsClean_example = secret_path-IsClean settings (bytes "../a") (bytes "..")
