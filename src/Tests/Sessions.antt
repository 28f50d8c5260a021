-- ===== src/Tests/Sessions.antt =====
-- Logins of one client, and a request with the session that a login made.
use flow_demo.Base.{
  filter, leb, ◌↔◌, ◌+◌, ℕ, ◌≤◌, String, false, some, List, [], ◌∷◌, ◌++◌, length, In, inl, inr,
  ◌≡◌, refl, arith, ◌==◌,
}
use flow_demo.Http.{Response, answer, http_error}
use flow_demo.Models.Identity.{User}
use flow_demo.Models.Admin.{AdminSession}
use flow_demo.Sessions.{
  Settings, House, Visit, Tokens, set_attempts, recent, login, require_user, logout,
}
use flow_demo.Sessions.Limits.{
  Attempt, IsLimited, logins, logins-IsLimited, login-records, login-refuses_iff, IsOrdered,
}
use flow_demo.Sessions.Known.{IsKnown, require_user-IsKnown, logout-ends}

abbrev settings : Settings
settings = record {
  admin_username = "admin";
  admin_password_hash = "#";
  default_group_name = "Default";
  session_ttl_hours = 1;
  hash_token = λ t. t;
  verify = λ hash password. password == "right";
}

abbrev tokens : Tokens
tokens = record {
  raw_token = "raw";
  csrf_token = "csrf";
  session_id = "s";
  user_id = "u";
  member_id = "m";
}

abbrev house : House
house = record { users = []; groups = []; members = []; sessions = []; attempts = λ k. [] }

abbrev try_at : ℕ → String → Attempt
try_at t password = record {
  time = t;
  client = "c";
  tokens = tokens;
  username = "admin";
  password = password;
}

abbrev tries : List Attempt
tries =
    try_at 1000 "a"
    ∷ try_at 1001 "b"
    ∷ try_at 1002 "c"
    ∷ try_at 1003 "d"
    ∷ try_at 1004 "e"
    ∷ try_at 1005 "right"
    ∷ []

empty-IsLimited : IsLimited house
unfolding IsLimited
empty-IsLimited client = omega arith

logins-IsLimited_example : IsLimited (logins settings tries house)
logins-IsLimited_example = logins-IsLimited settings tries house empty-IsLimited

computed : Unit {0}
unfolding login recent require_user logins logout
computed = tt

abbrev busy : House
busy = logins settings tries house

busy-IsOrdered : IsOrdered (busy.attempts "c")
unfolding computed IsOrdered
busy-IsOrdered = (
  (omega arith, (omega arith, (omega arith, (omega arith, tt)))),
  (
    (omega arith, (omega arith, (omega arith, tt))),
    ((omega arith, (omega arith, tt)), ((omega arith, tt), (tt, tt))),
  ),
)

login-refuses_iff_example :
    ((login settings 1006 "c" tokens "admin" "right" busy).0 ≡ http_error 429)
    ↔ (5 ≤ length (filter (λ t. leb 1006 (t + 300)) (busy.attempts "c")))
login-refuses_iff_example =
    login-refuses_iff settings 1006 "c" tokens "admin" "right" busy busy-IsOrdered

abbrev once : House
once = (login settings 1000 "c" tokens "admin" "wrong" house).1

refused : login settings 1000 "c" tokens "admin" "wrong" house ≡ (http_error 401, once)
unfolding computed
refused = refl

login-records_example :
    once ≡ set_attempts "c" (recent 1000 (house.attempts "c") ++ (1000 ∷ [])) house
login-records_example = login-records settings 1000 "c" tokens "admin" "wrong" house once refused

abbrev inside : House
inside = (login settings 1000 "c" tokens "admin" "right" house).1

abbrev user_of : Response User → User
user_of (answer u) = u
user_of (http_error e) = record {
  id = "";
  username = "";
  password_hash = "";
  display_name = "";
  is_super_admin = false;
  enabled = false;
  created_at = 0;
  updated_at = 0;
}

abbrev admin : User
admin = user_of (login settings 1000 "c" tokens "admin" "right" house).0

abbrev request : Visit
request = record { cookie = some "raw"; safe_method = false; csrf_header = some "csrf" }

admitted : (require_user settings 2000 request inside).0 ≡ answer admin
unfolding computed
admitted = refl

expired : (require_user settings 4600 request inside).0 ≡ http_error 401
unfolding computed
expired = refl

require_user-IsKnown_example : IsKnown settings 2000 request inside admin
require_user-IsKnown_example = require_user-IsKnown settings 2000 request inside admin admitted

abbrev house_of : Response House → House
house_of (answer h) = h
house_of (http_error e) = house

abbrev outside : House
outside = house_of (logout settings 2001 request inside)

left : logout settings 2001 request inside ≡ answer outside
unfolding computed
left = refl

one_session :
    (x y : AdminSession)
    → In x inside.sessions
    → In y inside.sessions
    → x.token_hash ≡ y.token_hash
    → x.id ≡ y.id
unfolding computed
one_session x y (inl a) (inl b) e = rw (a, b) refl
one_session x y (inr a) my e = absurd a
one_session x y mx (inr b) e = absurd b

logout-ends_example : (require_user settings 2002 request outside).0 ≡ http_error 401
logout-ends_example =
    logout-ends settings 2001 request request inside outside 2002 one_session left refl
