-- ===== src/Abuse/Tests.antt =====
use meatvo_app.Base.{[], codes, err, false, refl, to_upper, true, ◌∷◌, ◌≡◌}
use meatvo_app.Abuse.Requests.{
  end, member, object, get_object_depth, deepest, Request, analyze_request_pattern,
  analyze_user_agent, assignment_to_constant, deepest, get_object_depth, is_private_ip,
}
use meatvo_app.Abuse.Blocks.{Service, analyze_request, block_ip, harmless, is_ip_blocked}
use meatvo_app.Abuse.Disarmed.{analyze_request_lem}

-- The abuse service on concrete inputs.

-- A request of a tool with a statement of SQL in its query.
abbrev attack : Request
attack = record {
  ip = codes "203.0.113.9";
  user_agent = codes "curl/8.4.0 (x86_64)";
  path = codes "/api/products";
  request_text = codes "{q:'1 union all select 2'}";
  has_forwarded_for = true;
  has_real_ip = false;
  body = object (member (codes "a") (object end) end);
  body_length = 8;
  query = codes "q" ∷ [];
}

abbrev quiet : Service
quiet = record { blocked_ips = []; abuse_attempts = [] }

-- The statement is found, and the score can not be raised.
sql_is_found : analyze_request_pattern attack ≡ err assignment_to_constant
unfolding analyze_request_pattern to_upper
sql_is_found = refl

tool_is_found : analyze_user_agent attack.user_agent ≡ err assignment_to_constant
unfolding analyze_user_agent to_upper
tool_is_found = refl

local_address : is_private_ip (codes "172.20.0.1") ≡ true
unfolding is_private_ip
local_address = refl

public_address : is_private_ip (codes "172.32.0.1") ≡ false
unfolding is_private_ip
public_address = refl

nested : get_object_depth attack.body ≡ 2
unfolding get_object_depth deepest
nested = refl

-- A blocked address is let through as any other.
analyze_request_lem_example :
    ((analyze_request 1000 attack (block_ip 0 attack.ip true 100 quiet)).1 ≡ harmless)
    × ((analyze_request 1000 attack (block_ip 0 attack.ip true 100 quiet)).0
        ≡ (is_ip_blocked 1000 attack.ip (block_ip 0 attack.ip true 100 quiet)).0)
analyze_request_lem_example = analyze_request_lem 1000 attack (block_ip 0 attack.ip true 100 quiet)
