-- ===== src/MiniRpc/Future.antt =====
-- `RpcFuture` of code/MiniRPC/src/rpc_future.cpp and include/mini_rpc/rpc_future.h. `F` is the type of
-- the functions that cancel.
use unix_notes.Prelude.{
  ◌≡◌, refl, Bool, true, false, List, [], ◌∷◌, Option, none, some, if◌then◌else◌, pos, Outcome, ok,
  blocks, ◌>>◌, wait, wait_until,
}
use unix_notes.MiniRpc.Protocol.{RpcResponse, raw}

pub record State (F : Type 0) : Type 0 where
  pub completed : Bool
  pub response : RpcResponse
  pub cancel_function : Option F

-- `RpcResponse{}`
abbrev pub empty_response : RpcResponse
empty_response = record {
  request_id = 0;
  error_code = pos 0;
  error_message = [];
  payload = [];
  trace_id = [];
  server_cost_us = 0;
  serializer = raw;
}

module _ {F : Type 0} where
  unfoldable pub new : State F
  new = record { completed = false; response = empty_response; cancel_function = none }

  unfoldable pub get : State F → Outcome RpcResponse
  get s = wait s.completed >> ok s.response

  unfoldable pub wait_done : State F → Outcome Bool
  wait_done s = wait s.completed >> ok true

  unfoldable pub wait_for : (timed_out : Bool) → State F → Outcome Bool
  wait_for timed_out s = wait_until timed_out s.completed

  unfoldable pub is_ready : State F → Bool
  is_ready s = s.completed

  -- The function that is called.
  unfoldable pub cancel : State F → Option F
  cancel s = if s.completed then none else s.cancel_function

  unfoldable pub complete : RpcResponse → State F → State F
  complete response s =
      if s.completed
      then s
      else record { completed = true; response = response; cancel_function = none }

  unfoldable pub set_cancel : F → State F → State F
  set_cancel f s = if s.completed then s else record s { cancel_function = some f }

-- What the client does to the state of a future.
pub data Change (F : Type 0) : Type 0 where
  completes : RpcResponse → Change F
  sets_cancel : F → Change F

abbrev pub promised : Option RpcResponse → Outcome RpcResponse
promised none = blocks
promised (some response) = ok response

module _ {F : Type 0} where
  unfoldable pub change : Change F → State F → State F
  unfolding complete set_cancel
  change (completes response) s = complete response s
  change (sets_cancel f) s = set_cancel f s

  abbrev pub changes : List (Change F) → State F → State F
  changes [] s = s
  changes (c ∷ cs) s = changes cs (change c s)

  -- A future that is what it has been told first, and until then what was last told to cancel it.
  abbrev pub first_response : List (Change F) → Option RpcResponse
  first_response [] = none
  first_response (completes response ∷ cs) = some response
  first_response (sets_cancel f ∷ cs) = first_response cs

  abbrev pub last_function : Option F → List (Change F) → Option F
  last_function known [] = known
  last_function known (completes response ∷ cs) = none
  last_function known (sets_cancel f ∷ cs) = last_function (some f) cs

  -- A future that is completed stays as it is.
  changes_done :
      (cs : List (Change F)) (response : RpcResponse)
      → let s : State F = record {
        completed = true;
        response = response;
        cancel_function = none;
      } in
        changes cs s ≡ s
  unfolding change complete set_cancel
  changes_done [] response = refl
  changes_done (completes other ∷ cs) response = changes_done cs response
  changes_done (sets_cancel f ∷ cs) response = changes_done cs response

  changes_from :
      (cs : List (Change F)) (response : RpcResponse) (known : Option F)
      → let s : State F = record {
        completed = false;
        response = response;
        cancel_function = known;
      } in
        (get (changes cs s) ≡ promised (first_response cs))
        × (cancel (changes cs s) ≡ last_function known cs)
  unfolding change complete set_cancel get cancel
  changes_from [] response known = (refl, refl)
  changes_from (completes other ∷ cs) response known = rw (changes_done cs other) (refl, refl)
  changes_from (sets_cancel f ∷ cs) response known = changes_from cs response (some f)

  -- However often a future is completed, `get` gives the first response and waits until there is
  -- one; `cancel` calls the function that was set last, and none once there is a response.
  pub future_lem :
      (cs : List (Change F))
      → (get (changes cs new) ≡ promised (first_response cs))
        × (cancel (changes cs new) ≡ last_function none cs)
  unfolding new
  future_lem cs = changes_from cs empty_response none
