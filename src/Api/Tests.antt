-- ===== src/Api/Tests.antt =====
-- The theorems of the REST API at concrete inputs, and runs of the code.
use Prim.Native.String.{String}
use runixo_agent.Prelude.{
  ℕ, ◌≡◌, ◌≢◌, ◌⊎◌, refl, true, false, none, some, List, [], ◌∷◌, codes, lookup, insert, text_eq,
  has_prefix, ne_of_text_eq,
}
use runixo_agent.Auth.Token.{strip_bearer, constant_time_compare}
use runixo_agent.Api.{
  serve, Server, Request, Writer, Collector, data_of, error_of, new_server, is_locked, count_info,
  record_api_failed_attempt, json_error, set_header, handle_metrics, succeeded, collected,
  check_token, auth_middleware, new_writer, api_path,
}
use runixo_agent.Api.Gate.{
  Presents, Outcome, IsRefusal, auth_middleware_gate, statuses, all_unauthorized,
  new_ports_never_lock,
}

abbrev server : Server
server = new_server (codes "s3cret") (codes "1.0")

abbrev shows : String → String → Request
shows addr auth = record {
  remote_addr = codes addr;
  authorization = codes auth;
  path = api_path "metrics";
}

abbrev collector : Collector
collector = record {
  get_system_info = data_of (codes "{}");
  get_metrics = data_of (codes "[]");
  list_processes = error_of (codes "denied");
}

abbrev handler : Writer → Writer
handler w = handle_metrics collector w

abbrev alice : Request
alice = shows "10.0.0.1:4000" "Bearer s3cret"

abbrev guess : Request
guess = shows "10.0.0.9:1" "Bearer a"

abbrev second_guess : Request
second_guess = shows "10.0.0.9:2" "b"

abbrev guesses_of_one : List (ℕ × Request)
guesses_of_one = (1, guess) ∷ (2, guess) ∷ (3, guess) ∷ (4, guess) ∷ (5, guess) ∷ (6, guess) ∷ []

sixth_is_locked : statuses handler server guesses_of_one ≡ 401 ∷ 401 ∷ 401 ∷ 401 ∷ 401 ∷ 429 ∷ []
unfolding new_server auth_middleware is_locked check_token record_api_failed_attempt count_info
    json_error strip_bearer constant_time_compare has_prefix text_eq lookup insert
sixth_is_locked = refl

auth_middleware_gate_example :
    ((is_locked 7 alice.remote_addr server ≡ false)
      × Outcome handler 7 alice server new_writer
          (auth_middleware handler 7 alice server new_writer))
    ⊎ ((is_locked 7 alice.remote_addr server ≡ true)
        × (((auth_middleware handler 7 alice server new_writer).0 ≡ server)
            × IsRefusal 429
                (set_header "Retry-After" "900" new_writer)
                (auth_middleware handler 7 alice server new_writer).1))
auth_middleware_gate_example = auth_middleware_gate handler 7 alice server new_writer

guess_wrong : ¬ Presents guess server.token
unfolding new_server strip_bearer has_prefix
guess_wrong h = cc

second_guess_wrong : ¬ Presents second_guess server.token
unfolding new_server strip_bearer has_prefix
second_guess_wrong h = cc

guess_unknown : lookup guess.remote_addr server.failed_attempts ≡ none
unfolding new_server lookup
guess_unknown = refl

second_guess_unknown : lookup second_guess.remote_addr server.failed_attempts ≡ none
unfolding new_server lookup
second_guess_unknown = refl

ports_differ : guess.remote_addr ≢ second_guess.remote_addr
unfolding text_eq
ports_differ = ne_of_text_eq refl

new_ports_never_lock_example :
    statuses handler server ((1, guess) ∷ (2, second_guess) ∷ [])
    ≡ all_unauthorized ((1, guess) ∷ (2, second_guess) ∷ [])
new_ports_never_lock_example =
    new_ports_never_lock handler server ((1, guess) ∷ (2, second_guess) ∷ [])
      (guess_wrong, ((ports_differ, tt), (second_guess_wrong, (tt, tt))))
      (guess_unknown, (second_guess_unknown, tt))

metrics_served :
    elim (serve collector 7 alice server) [ none ↦ none | some (s, w) ↦ w.body ]
    ≡ some (succeeded (collected (codes "[]")))
unfolding serve new_server text_eq lookup has_prefix
metrics_served = refl
