-- ===== src/Net/Pool/Tests.antt =====
-- core/net/connection_pool.cpp at concrete inputs.
use cppload_workflow.Prelude.{
  ℕ, ◌≡◌, refl, none, List, [], ◌∷◌, arith, Bytes, bytes, eqb, to_string, ◌*◌,
}
use cppload_workflow.Net.Pool.{
  PoolConfig, key_of, queue_at, set_queue, acquire, release, take_client,
}
use cppload_workflow.Net.Pool.Ownership.{
  System, Event, acquires, releases, drops, cleans, step, run, start, Inv, run-Inv, start-Inv,
}
use cppload_workflow.Net.Pool.Contract.{run-start-Inv, drops_exhaust}

abbrev config : PoolConfig
config = record { max_connections = 2; idle_timeout = 30 }

abbrev host : Bytes
host = 104 ∷ []

abbrev second : ℕ
second = 1_000_000_000

abbrev history : List (ℕ × Event)
history =
    (second, acquires host 80)
    ∷ (2 * second, acquires host 81)
    ∷ (3 * second, releases 0 host 80)
    ∷ []

abbrev destroying : List (ℕ × Event)
destroying = (1, acquires host 80) ∷ (2, acquires host 80) ∷ (3, drops 0) ∷ (4, drops 1) ∷ []

busy : System
unfolding run start step acquire release take_client queue_at set_queue key_of to_string eqb bytes
busy = run (start config) history

spent : System
unfolding run start step acquire take_client queue_at set_queue key_of to_string eqb bytes
spent = run (start config) destroying

busy_lent : busy.lent ≡ 1 ∷ []
unfolding busy
busy_lent = refl

busy-Inv : Inv busy
unfolding busy
busy-Inv = run-Inv (start config) history (start-Inv config)

spent-Inv : Inv spent
unfolding spent
spent-Inv = run-Inv (start config) destroying (start-Inv config)

run-start-Inv_example : Inv (run (start config) history)
run-start-Inv_example = run-start-Inv config history

drops_exhaust_example : (acquire (run spent ((9, cleans) ∷ [])).pool host 8080).0 ≡ none
unfolding spent
drops_exhaust_example = drops_exhaust spent ((9, cleans) ∷ []) host 8080 spent-Inv (omega arith)
