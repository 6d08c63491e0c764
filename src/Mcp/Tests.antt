-- ===== src/Mcp/Tests.antt =====
-- Answers in both forms, and a request.
use Prim.Native.Nat.{◌%◌}
use edgeclaw.Prelude.{◌≡◌, refl, ◌+◌, ◌^◌, none, []}
use edgeclaw.Prelude.Text.{trim, lines, strip_prefix}
use edgeclaw.Fixtures.{host, codec, world}
use edgeclaw.Mcp.{McpClient, new_client, send_request, extract_json_from_response, data_line}
use edgeclaw.Mcp.Session.{Keeps, send_request-Keeps}

plain : extract_json_from_response " {\"id\":1} " ≡ "{\"id\":1}"
unfolding extract_json_from_response trim strip_prefix
plain = refl

event : extract_json_from_response "event: message\ndata: {\"id\":1}\n\n" ≡ "{\"id\":1}"
unfolding extract_json_from_response trim strip_prefix lines data_line
event = refl

abbrev client : McpClient
client = new_client "http://localhost" []

send_request-Keeps_test :
    Keeps
      (record client { next_id = (1 + 1) % 2 ^ 64 })
      (send_request host codec client "tools/list" none world).1
send_request-Keeps_test = send_request-Keeps host codec client "tools/list" none world
