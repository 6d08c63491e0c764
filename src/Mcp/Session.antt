-- ===== src/Mcp/Session.antt =====
-- What the client keeps from request to request.
use Prim.Native.Nat.{◌%◌}
use edgeclaw.Prelude.{
  ◌+◌, ◌^◌, String, ◌≡◌, refl, Option, none, some, true, is_some, List, find_map,
}
use edgeclaw.Json.{Value}
use edgeclaw.Types.{AgentError, Result, ok, err}
use edgeclaw.Host.{Host, HttpResponse}
use edgeclaw.Mcp.{
  McpClient, Codec, send_request, receive_rpc, capture_session, session_header, take_id,
}

-- The address and the headers stay, and a session, once there, is not lost.
pub record Keeps (a b : McpClient) : Type 0 where
  pub server_url : b.server_url ≡ a.server_url
  pub extra_headers : b.extra_headers ≡ a.extra_headers
  pub next_id : b.next_id ≡ a.next_id
  pub session_id : is_some a.session_id ≡ true → is_some b.session_id ≡ true

abbrev same_client : (c : McpClient) → Keeps c c
same_client c = record {
  server_url = refl;
  extra_headers = refl;
  next_id = refl;
  session_id = λ h. h;
}

capture_session-Keeps :
    (client : McpClient) (headers : List (String × String))
    → Keeps client (capture_session client headers)
unfolding capture_session
capture_session-Keeps client headers =
    elim (find_map session_header headers)
      as (λ o.
        Keeps client (elim o [ none ↦ client | some v ↦ record client { session_id = some v } ])) [
          | none ↦ same_client client
          | some v ↦ record {
            server_url = refl;
            extra_headers = refl;
            next_id = refl;
            session_id = λ h. refl;
          }
        ]

module _ {W : Type 0} (host : Host W) (codec : Codec) where
  receive_rpc-Keeps :
      (client : McpClient) (r : Result HttpResponse AgentError × W)
      → Keeps client (receive_rpc host codec client r).1
  unfolding receive_rpc
  receive_rpc-Keeps client (err e, w) = same_client client
  receive_rpc-Keeps client (ok response, w) = capture_session-Keeps client response.headers

  -- However a request ends, the client is the one that took the request's id, with the same address and
  -- headers, and with a session if it had one.
  pub send_request-Keeps :
      (client : McpClient) (method : String) (params : Option Value) (w : W)
      → Keeps
          (record client { next_id = (client.next_id + 1) % 2 ^ 64 })
          (send_request host codec client method params w).1
  unfolding send_request take_id
  send_request-Keeps client method params w =
      go (codec.to_vec (record { id = client.next_id; method = method; params = params })) refl
    where
      go :
          (r : Result String String)
          → codec.to_vec (record { id = client.next_id; method = method; params = params }) ≡ r
          → Keeps
              (record client { next_id = (client.next_id + 1) % 2 ^ 64 })
              (send_request host codec client method params w).1
      go (err x) e = rw (e, send_request) (same_client _)
      go (ok body) e = rw (e, send_request) (receive_rpc-Keeps (take_id host codec client) _)
