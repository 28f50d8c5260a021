-- ===== src/Sessions/Known.antt =====
-- Who a request with a session comes from.
use flow_demo.Base.{
  ℕ, ◌<◌, String, Bool, true, false, not, Option, none, some, List, [], ◌∷◌, find?, find?-some,
  filter, In, In-of_filter, ◌≡◌, ◌≢◌, refl, sym, ap, ◌∙◌, inl, inr, ◌⊎◌, arith, ◌==◌, eq_iff, ltb,
  Bool-cases,
}
use flow_demo.Http.{
  answer, http_error, require, found_or, after, answer-inj, require-answer, found_or-answer,
}
use flow_demo.Models.Identity.{User}
use flow_demo.Models.Admin.{AdminSession}
use flow_demo.Callback.Auth.{Checked, passed, value_error, crash, compare_digest}
use flow_demo.Callback.Evidence.{compare_digest-true}
use flow_demo.Sessions.{
  Settings, House, Visit, session_of, alive, get_admin_session, user_at, digest, csrf_matches,
  current_user_from_session, check_csrf, checked_user, require_user, require_admin, logout,
}

-- the session that a request shows, and the user it is of
pub record IsKnown (st : Settings) (now : ℕ) (v : Visit) (h : House) (u : User) : Type 0 where
  pub token : String
  pub session : AdminSession
  pub cookie : v.cookie ≡ some token
  pub stored : In session h.sessions
  pub hashed : session.token_hash ≡ st.hash_token token
  pub alive : now < session.expires_at
  pub owner : session.user_id ≡ some u.id
  pub user : In u h.users
  pub enabled : u.enabled ≡ true
  pub csrf : (v.safe_method ≡ true) ⊎ (v.csrf_header ≡ some session.csrf_token)

module _ (st : Settings) (now : ℕ) where
  digest-answer : (m : Checked Bool) (x : Unit {0}) → digest st now m ≡ answer x → m ≡ passed true
  digest-answer (passed true) x h = refl
  digest-answer (passed false) x h = (let bad : http_error 403 ≡ answer x = h in cc)
  digest-answer (value_error e) x h = (let bad : http_error 500 ≡ answer x = h in cc)
  digest-answer crash x h = (let bad : http_error 500 ≡ answer x = h in cc)

  csrf-answer :
      (o : Option String) (wanted : String) (x : Unit {0})
      → csrf_matches st now o wanted ≡ answer x
      → o ≡ some wanted
  csrf-answer none wanted x h = (let bad : http_error 403 ≡ answer x = h in cc)
  csrf-answer (some token) wanted x h = elim (Bool-cases (token == "")) [
    | inl empty ↦ (let bad : http_error 403 ≡ answer x = rw empty at h in cc)
    | inr filled ↦ ap some (
        compare_digest-true token wanted
          (digest-answer (compare_digest token wanted) x (rw filled at h)))
  ]

  check_csrf-answer :
      (v : Visit) (s : AdminSession) (x : Unit {0}) (m : Bool)
      → v.safe_method ≡ m
      → check_csrf st now v s ≡ answer x
      → (v.safe_method ≡ true) ⊎ (v.csrf_header ≡ some s.csrf_token)
  unfolding check_csrf
  check_csrf-answer v s x true safe h = inl safe
  check_csrf-answer v s x false safe h =
      inr (csrf-answer v.csrf_header s.csrf_token x (rw safe at h))

  alive-answer :
      (o : Option AdminSession) (s : AdminSession)
      → alive st now o ≡ answer s
      → (o ≡ some s) × (now < s.expires_at)
  alive-answer none s h = (let bad : http_error 401 ≡ answer s = h in cc)
  alive-answer (some x) s h = elim (Bool-cases (ltb now x.expires_at)) [
    | inl on ↦
        let same : x ≡ s = answer-inj x s (rw on at h) in
        (
          ap some same,
          (let later : ltb now s.expires_at ≡ true = rw same at on in ground (arith, later)),
        )
    | inr over ↦ (let bad : http_error 401 ≡ answer s = rw over at h in cc)
  ]

  session_of-some :
      (sessions : List AdminSession) (o : Option String) (s : AdminSession)
      → session_of st now sessions o ≡ some s
      → (token : String) × (o ≡ some token) × In s sessions × (s.token_hash ≡ st.hash_token token)
  session_of-some sessions none s h = cc
  session_of-some sessions (some token) s h = elim (Bool-cases (token == "")) [
    | inl empty ↦ (let bad : none ≡ some s = rw empty at h in cc)
    | inr filled ↦
        let (i, fits) =
          find?-some (λ x. x.token_hash == st.hash_token token) s sessions (rw filled at h) in
        (token, refl, i, (eq_iff s.token_hash (st.hash_token token)).0 fits)
  ]

  user_at-some :
      (users : List User) (o : Option String) (u : User)
      → user_at st now users o ≡ some u
      → In u users × (o ≡ some u.id)
  user_at-some users none u h = cc
  user_at-some users (some k) u h = elim (Bool-cases (k == "")) [
    | inl empty ↦ (let bad : none ≡ some u = rw empty at h in cc)
    | inr filled ↦
        let (i, fits) = find?-some (λ (x : User). x.id == k) u users (rw filled at h) in
        (i, ap some (sym ((eq_iff u.id k).0 fits)))
  ]

  -- A user that `require_user` answers is one of the stored users and enabled, and the request shows the
  -- cookie of a session of that user, found by its hash, that has not expired; where the method may
  -- change something, the request's X-CSRF-Token is the session's.
  pub require_user-IsKnown :
      (v : Visit) (h : House) (u : User)
      → (require_user st now v h).0 ≡ answer u
      → IsKnown st now v h u
  unfolding require_user checked_user get_admin_session current_user_from_session
  require_user-IsKnown v h u e = after (get_admin_session st now v.cookie h) _ u e (λ s found e₁.
      after (check_csrf st now v s) _ u e₁ (λ x csrf e₂.
        after (found_or 401 (user_at st now h.users s.user_id)) _ u e₂ (λ w known e₃.
          after (require w.enabled 401) _ u e₃ (λ y on e₄.
            let (here, later) = alive-answer (session_of st now h.sessions v.cookie) s found in
            let (token, cookie, stored, hashed) = session_of-some h.sessions v.cookie s here in
            let (i, owner) = user_at-some h.users s.user_id w (found_or-answer 401 _ w known) in
            let same = answer-inj w u e₄ in
            record {
              token = token;
              session = s;
              cookie = cookie;
              stored = stored;
              hashed = hashed;
              alive = later;
              owner = owner ∙ ap (λ z. some z.id) same;
              user = rw (← same) i;
              enabled = rw (← same) (require-answer w.enabled 401 y on);
              csrf = check_csrf-answer v s x v.safe_method refl csrf;
            }))))

none_found :
    {A : Type 0} (p : A → Bool) (xs : List A)
    → ((x : A) → In x xs → p x ≡ false)
    → find? p xs ≡ none
none_found p [] miss = refl
none_found p (x ∷ xs) miss =
    (let out : p x ≡ false = miss x (inl refl) in rw out (none_found p xs (λ y m. miss y (inr m))))

module _ (st : Settings) (now : ℕ) where
  session_of-none :
      (sessions : List AdminSession) (o : Option String)
      → ((token : String)
          → o ≡ some token
          → (x : AdminSession) → In x sessions
          → x.token_hash ≢ st.hash_token token)
      → session_of st now sessions o ≡ none
  session_of-none sessions none miss = refl
  session_of-none sessions (some token) miss = elim (Bool-cases (token == "")) [
    | inl empty ↦ rw empty refl
    | inr filled ↦ rw filled (
        none_found (λ x. x.token_hash == st.hash_token token) sessions
          (λ x m. elim (Bool-cases (x.token_hash == st.hash_token token)) [
            | inl own ↦
                absurd (miss token refl x m ((eq_iff x.token_hash (st.hash_token token)).0 own))
            | inr other ↦ other
          ]))
  ]

  -- After a logout that is answered, the cookie of the request is refused at any time, as the hash of a
  -- token belongs to one session.
  pub logout-ends :
      (v w : Visit) (h g : House) (later : ℕ)
      → ((x y : AdminSession)
          → In x h.sessions
          → In y h.sessions
          → x.token_hash ≡ y.token_hash
          → x.id ≡ y.id)
      → logout st now v h ≡ answer g
      → w.cookie ≡ v.cookie
      → (require_user st later w g).0 ≡ http_error 401
  unfolding logout require_admin get_admin_session require_user checked_user
  logout-ends v w h g later unique e same = after (require_admin st now v h) _ g e (λ s admin e₁.
      after (get_admin_session st now v.cookie h) _ s admin (λ s' found e₂.
        after (check_csrf st now v s') _ s e₂ (λ x _ e₃.
          let own : s' ≡ s = answer-inj s' s e₃ in
          let (here, _) = alive-answer st now (session_of st now h.sessions v.cookie) s' found in
          let (token, cookie, stored, hashed) =
            session_of-some st now h.sessions v.cookie s' here in
          let left : g.sessions ≡ filter (λ x. not (x.id == s.id)) h.sessions =
            ap (λ z. z.sessions) (sym (answer-inj _ g e₁)) in
          let gone : session_of st later g.sessions w.cookie ≡ none =
            rw (same, left)
              (session_of-none (filter (λ x. not (x.id == s.id)) h.sessions) v.cookie
                (λ t t_is x m hash_is.
                  let (i, apart) = In-of_filter (λ x. not (x.id == s.id)) x h.sessions m in
                  let tokens : some token ≡ some t = sym cookie ∙ t_is in
                  let token_is : token ≡ t = cc in
                  let id_is =
                    unique x s' i stored
                      (hash_is ∙ ap (λ z. st.hash_token z) (sym token_is) ∙ sym hashed) in
                  let equal : (x.id == s.id) ≡ true =
                    (eq_iff x.id s.id).1 (id_is ∙ ap (λ z. z.id) own) in
                  cc (rw equal at apart))) in
          rw gone refl)))
