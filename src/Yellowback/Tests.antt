-- ===== src/Yellowback/Tests.antt =====
-- Calls on a cache that keeps nothing, and the theorems at them.
use lightwalletd.Common.{[], ◌∷◌, ◌≡◌, refl, false, none, ok, All}
use lightwalletd.Common.Text.{codes}
use lightwalletd.Yellowback.Methods.{is_allowed, is_declined}
use lightwalletd.Yellowback.Calls.{
  Request, ReadCache, Server, slot, answered, call_all, call_yed, error_status, failed_precondition,
  unavailable, split_colon,
}
use lightwalletd.Yellowback.Gate.{allowed_not_declined, call_all-sent, IsOffered}

abbrev no_cache : ReadCache (Unit {0})
no_cache = record {
  key = λ method params. [];
  lookup = λ c key. (none, c);
  remember = λ c key raw. c;
}

abbrev idle : Server (Unit {0})
idle = record { cache = tt; sent = [] }

abbrev get_info : Request
get_info = record {
  method = "yed_getinfo";
  params = [];
  queue = slot;
  reply = answered (ok (codes "{}"));
}

abbrev mint : Request
mint = record { method = "yed_mint"; params = []; queue = slot; reply = answered (ok (codes "{}")) }

-- The node's own error, and a failed transport.
node_error :
    error_status (codes "-8: vault-not-found: no such vault")
    ≡ failed_precondition (codes "vault-not-found: no such vault")
unfolding error_status split_colon
node_error = refl

transport_error : error_status (codes "Post \"http: EOF") ≡ unavailable (codes "Post \"http: EOF")
unfolding error_status split_colon
transport_error = refl

two_calls : (call_all no_cache (mint ∷ get_info ∷ []) idle).sent ≡ ("yed_getinfo", []) ∷ []
unfolding call_all call_yed is_allowed
two_calls = refl

allowed_not_declined_example : is_declined "vault_list" ≡ false
allowed_not_declined_example = allowed_not_declined "vault_list" (unfold is_allowed in refl)

call_all-sent_example : All IsOffered (call_all no_cache (mint ∷ get_info ∷ []) idle).sent
call_all-sent_example = call_all-sent no_cache (mint ∷ get_info ∷ []) idle tt
