-- ===== src/Control/Tests.antt =====
-- A response under a key, and the theorem there.
use evoagent_os.Base.{◌≡◌, refl, [], ◌∷◌, some, none}
use evoagent_os.Base.Rows.{find}
use evoagent_os.Base.Action.{ok}
use evoagent_os.Control.Store.{Store, idempotent_get, idempotent_put}
use evoagent_os.Control.Idempotency.{Put, put_all, idempotent_put-first}

abbrev nothing : Store
nothing = record {
  workspaces = [];
  agents = [];
  run_links = [];
  events = [];
  seq = 0;
  idempotency_keys = [];
}

abbrev second : Put
second = record { at = 2; scope = "runs"; key = some "k"; response = "{2}" }

no_response : (idempotent_get "runs" (some "k") nothing).0 ≡ ok none
unfolding idempotent_get find
no_response = refl

idempotent_put-first_example :
    (idempotent_get "runs"
      (some "k")
      (put_all (second ∷ []) (idempotent_put 1 "runs" (some "k") "{1}" nothing).1)).0
    ≡ ok (some "{1}")
idempotent_put-first_example =
    idempotent_put-first 1 "runs" "k" "{1}" (second ∷ []) nothing refl no_response
