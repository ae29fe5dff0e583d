-- ===== src/Worker/Client.antt =====
-- `BrokerClient` of examples/16_worker_sdk_python/worker_sdk.py: one request on a connection of
-- its own, and the actions.
pub mod Roundtrip
use autonomic.Common.{
  ℕ, String, Bool, Option, none, some, List, ◌++◌, ltb, ◌&&◌, leb, length, if◌then◌else◌,
}
use autonomic.Worker.Socket.{
  Socket, pack, unpack, received, closed, unfinished, Received, recv_exact,
}

-- `PROTOCOL` and `MAX_FRAME`
abbrev pub protocol : ℕ
protocol = 1

abbrev pub max_frame : ℕ
max_frame = 1048576

-- What the actions put into a request, as the arguments of `_roundtrip`. A `Value` is a value of
-- JSON.
pub data Action (Value : Type 0) : Type 0 where
  prepare_request :
      (lease_id kind target_id : String) (target : Value) (payload_b64 : String) → Action Value
  evaluate_request commit_request abort_request status_request : String → Action Value
  fetch_request : (effect_id : String) (offset limit : ℕ) → Action Value

pub record Request (Value : Type 0) : Type 0 where
  pub protocol : ℕ
  pub request_id : String
  pub epoch : ℕ
  pub action : Action Value

-- What is read of a response: whether `ok` is there and true, the text of `error`, and `result`.
pub record Response (Value : Type 0) : Type 0 where
  pub ok : Bool
  pub error : Option String
  pub result : Option Value

-- The modules that the client calls, and the peer: what comes back on the connection `k` to the
-- socket at a path, on which the client has sent the given bytes. There is none where the
-- connection fails.
pub record Runtime (Value : Type 0) : Type 0 where
  pub uuid : ℕ → String
  pub dumps : Request Value → List ℕ
  pub loads : List ℕ → Option (Response Value)
  pub empty_dict : Value
  pub b64encode : List ℕ → String
  pub b64decode : String → Option (List ℕ)
  pub sha256 : List ℕ → String
  pub peer : String → ℕ → List ℕ → Option Socket

pub record BrokerClient : Type 0 where
  pub socket_path : String
  pub epoch : ℕ

-- The exceptions that are raised.
pub data Failure : Type 0 where
  request_out_of_bounds response_out_of_bounds no_connection socket_closed not_json : Failure
  broker_error : String → Failure
  no_chunk not_base64 contract_violated metadata_changed empty_chunk verification_failed : Failure
  out_of_fuel : Failure

pub data Answer (A : Type 0) : Type 0 where
  value : A → Answer A
  failure : Failure → Answer A

-- `0 < n <= MAX_FRAME`
abbrev pub in_bounds : ℕ → Bool
in_bounds n = ltb 0 n && leb n max_frame

abbrev pub or_default : Option String → String → String
or_default none s = s
or_default (some t) s = t

-- `struct.pack(">I", len(payload)) + payload`
unfoldable pub frame : List ℕ → List ℕ
unfolding pack
frame payload = pack (length payload) ++ payload

module _ {Value : Type 0} (rt : Runtime Value) where
  -- `if not response.get("ok")`
  abbrev pub respond : Option (Response Value) → Answer (Option Value)
  respond none = failure not_json
  respond (some r) =
      if r.ok then value r.result else failure (broker_error (or_default r.error "broker error"))

  abbrev pub receive_body : Received → Answer (Option Value)
  receive_body (received body rest) = respond (rt.loads body)
  receive_body closed = failure socket_closed
  receive_body unfinished = failure out_of_fuel

  abbrev pub receive_header : Received → Answer (Option Value)
  receive_header (received header rest) =
      if in_bounds (unpack header)
      then receive_body (recv_exact rest (unpack header))
      else failure response_out_of_bounds
  receive_header closed = failure socket_closed
  receive_header unfinished = failure out_of_fuel

  -- The exchange on a connection, from the answer's header on.
  unfoldable pub exchange : Option Socket → Answer (Option Value)
  exchange none = failure no_connection
  exchange (some sock) = receive_header (recv_exact sock 4)

  module _ (client : BrokerClient) where
    abbrev pub request_payload : ℕ → Action Value → List ℕ
    request_payload k action = rt.dumps (record {
      protocol = protocol;
      request_id = rt.uuid k;
      epoch = client.epoch;
      action = action;
    })

    -- `_roundtrip`, on the connection `k`.
    unfoldable pub roundtrip : ℕ → Action Value → Answer (Option Value)
    unfolding exchange
    roundtrip k action =
        let payload = request_payload k action in
        if in_bounds (length payload)
        then exchange (rt.peer client.socket_path k (frame payload))
        else failure request_out_of_bounds

    unfoldable pub prepare :
        ℕ → (lease_id kind target_id : String) → List ℕ → Option Value → Answer (Option Value)
    unfolding roundtrip
    prepare k lease_id kind target_id payload none =
        roundtrip k (prepare_request lease_id kind target_id rt.empty_dict (rt.b64encode payload))
    prepare k lease_id kind target_id payload (some target) =
        roundtrip k (prepare_request lease_id kind target_id target (rt.b64encode payload))

    unfoldable pub evaluate : ℕ → String → Answer (Option Value)
    unfolding roundtrip
    evaluate k effect_id = roundtrip k (evaluate_request effect_id)

    unfoldable pub commit : ℕ → String → Answer (Option Value)
    unfolding roundtrip
    commit k effect_id = roundtrip k (commit_request effect_id)

    unfoldable pub abort : ℕ → String → Answer (Option Value)
    unfolding roundtrip
    abort k effect_id = roundtrip k (abort_request effect_id)

    unfoldable pub status : ℕ → String → Answer (Option Value)
    unfolding roundtrip
    status k effect_id = roundtrip k (status_request effect_id)
