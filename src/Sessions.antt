-- ===== src/Sessions.antt =====
-- app/security/auth.py: the limit of login attempts, sessions, and who a request comes from.
pub mod Limits
pub mod Known
use flow_demo.Base.{
  ℕ, suc, ◌+◌, ◌*◌, String, Bool, true, false, not, ◌&&◌, ◌||◌, Option, none, some, List, [], ◌∷◌,
  ◌++◌, find?, filter, length, ◌==◌, ltb, leb, if◌then◌else◌,
}
use flow_demo.Enums.{GroupRole}
use flow_demo.Http.{Response, answer, http_error, require, found_or, ◌>>=◌, ◌>>◌}
use flow_demo.Models.Identity.{User, GroupMember}
use flow_demo.Models.Admin.{Group, AdminSession}
use flow_demo.Table.{row_at}
use flow_demo.Callback.Auth.{Checked, passed, value_error, crash, compare_digest}

-- the settings, `hash_token` (SHA-256), and whether `password_hasher.verify` takes a password
pub record Settings : Type 0 where
  pub admin_username : String
  pub admin_password_hash : String
  pub default_group_name : String
  pub session_ttl_hours : ℕ
  pub hash_token : String → String
  pub verify : String → String → Bool

-- the tables, and `login_attempts` by the client's host
pub record House : Type 0 where
  pub users : List User
  pub groups : List Group
  pub members : List GroupMember
  pub sessions : List AdminSession
  pub attempts : String → List ℕ

-- the part of a request that is read: the session's cookie, the method, the header X-CSRF-Token
pub record Visit : Type 0 where
  pub cookie : Option String
  pub safe_method : Bool
  pub csrf_header : Option String

-- the new keys and tokens of a login
pub record Tokens : Type 0 where
  pub raw_token : String
  pub csrf_token : String
  pub session_id : String
  pub user_id : String
  pub member_id : String

abbrev pub set_attempts : String → List ℕ → House → House
set_attempts key times h = record h { attempts = λ k. if k == key then times else h.attempts k }

-- `while attempts and attempts[0] < now - timedelta(minutes=5)`
unfoldable pub recent : ℕ → List ℕ → List ℕ
recent now [] = []
recent now (t ∷ ts) = if ltb (t + 300) now then recent now ts else t ∷ ts

-- `_check_rate_limit`
unfoldable pub check_rate_limit : ℕ → List ℕ → Response (List ℕ)
unfolding recent
check_rate_limit now times =
    require (ltb (length (recent now times)) 5) 429 >> answer (recent now times)

module _ (st : Settings) (now : ℕ) where
  abbrev pub session_of : List AdminSession → Option String → Option AdminSession
  session_of sessions none = none
  session_of sessions (some token) =
      if token == "" then none else find? (λ s. s.token_hash == st.hash_token token) sessions

  abbrev pub alive : Option AdminSession → Response AdminSession
  alive none = http_error 401
  alive (some s) = if ltb now s.expires_at then answer s else http_error 401

  -- `get_admin_session`
  unfoldable pub get_admin_session : Option String → House → Response AdminSession
  get_admin_session token h = alive (session_of h.sessions token)

  abbrev expired_out : Option AdminSession → List AdminSession → List AdminSession
  expired_out none sessions = sessions
  expired_out (some s) sessions =
      if ltb now s.expires_at then sessions else filter (λ x. not (x.id == s.id)) sessions

  -- the tables after `get_admin_session`, which deletes a session that has expired
  unfoldable pub after_lookup : Option String → House → House
  after_lookup token h = record h {
    sessions = expired_out (session_of h.sessions token) h.sessions;
  }

  abbrev pub user_at : List User → Option String → Option User
  user_at users none = none
  user_at users (some k) = if k == "" then none else row_at (λ u. u.id) k users

  -- `current_user_from_session`
  unfoldable pub current_user_from_session : House → AdminSession → Response User
  current_user_from_session h s = do
    u ← found_or 401 (user_at h.users s.user_id)
    require u.enabled 401
    answer u

  abbrev pub digest : Checked Bool → Response (Unit {0})
  digest (passed b) = require b 403
  digest (value_error e) = http_error 500
  digest crash = http_error 500

  abbrev pub csrf_matches : Option String → String → Response (Unit {0})
  csrf_matches none wanted = http_error 403
  csrf_matches (some token) wanted =
      if token == "" then http_error 403 else digest (compare_digest token wanted)

  unfoldable pub check_csrf : Visit → AdminSession → Response (Unit {0})
  unfolding compare_digest
  check_csrf v s = if v.safe_method then answer tt else csrf_matches v.csrf_header s.csrf_token

  -- the answer of `require_user`
  unfoldable pub checked_user : Visit → House → Response User
  unfolding get_admin_session check_csrf current_user_from_session
  checked_user v h = do
    s ← get_admin_session v.cookie h
    check_csrf v s
    current_user_from_session h s

  -- `require_user`, with the tables after it
  unfoldable pub require_user : Visit → House → Response User × House
  unfolding checked_user after_lookup
  require_user v h = (checked_user v h, after_lookup v.cookie h)

  abbrev pub admin_user : Tokens → User
  admin_user k = record {
    id = k.user_id;
    username = st.admin_username;
    password_hash = st.admin_password_hash;
    display_name = "";
    is_super_admin = true;
    enabled = true;
    created_at = now;
    updated_at = now;
  }

  default_group : List Group → List Group
  default_group groups = elim (row_at (λ g. g.id) "default" groups) [
    | some g ↦ groups
    | none ↦
        groups
        ++ (record {
          id = "default";
          name = st.default_group_name;
          description = "Default workspace";
          created_at = now;
          updated_at = now;
        }
            ∷ [])
  ]

  -- `_bootstrap_admin_user`
  unfoldable pub bootstrap_admin_user : Tokens → House → House
  unfolding default_group
  bootstrap_admin_user k h = record h {
    users = h.users ++ (admin_user k ∷ []);
    groups = default_group h.groups;
    members =
        h.members
        ++ (record {
          id = k.member_id;
          group_id = "default";
          user_id = k.user_id;
          role = GroupRole.group_admin;
          created_at = now;
        }
            ∷ []);
  }

  abbrev pub new_session : Tokens → User → AdminSession
  new_session k u = record {
    id = k.session_id;
    user_id = some u.id;
    token_hash = st.hash_token k.raw_token;
    csrf_token = k.csrf_token;
    expires_at = now + st.session_ttl_hours * 3600;
    created_at = now;
  }

  -- a login that failed, and one that succeeded
  abbrev pub failed : String → List ℕ → House → Response User × House
  failed client times h = (http_error 401, set_attempts client (times ++ (now ∷ [])) h)

  abbrev pub entered : String → Tokens → User → House → Response User × House
  entered client k u h = (
    answer u,
    set_attempts client [] (record h {
      sessions = filter (λ s. ltb now s.expires_at) h.sessions ++ (new_session k u ∷ []);
    }),
  )

  abbrev pub is_bootstrap : String → String → Bool
  is_bootstrap username password =
      username == st.admin_username
      && not (st.admin_password_hash == "")
      && st.verify st.admin_password_hash password

  abbrev pub by_user :
      String → Tokens → String → String → List ℕ → House → Option User → Response User × House
  by_user client k username password times h (some u) =
      if u.enabled && st.verify u.password_hash password
      then entered client k u h
      else failed client times h
  by_user client k username password times h none =
      if is_bootstrap username password
      then entered client k (admin_user k) (bootstrap_admin_user k h)
      else failed client times h

  abbrev pub limited :
      String → House → Response (List ℕ) → (List ℕ → Response User × House) → Response User × House
  limited client h (answer times) f = f times
  limited client h (http_error e) f =
      (http_error e, set_attempts client (recent now (h.attempts client)) h)

  -- `login`, by a client
  unfoldable pub login : String → Tokens → String → String → House → Response User × House
  unfolding check_rate_limit bootstrap_admin_user
  login client k username password h =
      limited client h (check_rate_limit now (h.attempts client)) (λ times.
        by_user client k username password times h (find? (λ u. u.username == username) h.users))

  -- `require_admin`
  unfoldable pub require_admin : Visit → House → Response AdminSession
  unfolding get_admin_session check_csrf
  require_admin v h = do s ← get_admin_session v.cookie h; check_csrf v s; answer s

  -- `logout`; where it raises, the tables are those of `after_lookup`
  unfoldable pub logout : Visit → House → Response House
  unfolding require_admin
  logout v h = do
    s ← require_admin v h
    answer (record h { sessions = filter (λ x. not (x.id == s.id)) h.sessions })
