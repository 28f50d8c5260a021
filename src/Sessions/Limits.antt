-- ===== src/Sessions/Limits.antt =====
-- How many login attempts a client has.
use flow_demo.Base.{
  All, filter, leb, ◌↔◌, ◌+◌, ℕ, ◌≤◌, ◌<◌, String, Bool, true, false, ◌&&◌, Option, none, some,
  List, [], ◌∷◌, ◌++◌, find?, length, length-append, ◌≡◌, ◌≢◌, refl, sym, ap, inl, inr, arith, ◌==◌,
  ltb, Bool-cases,
}
use flow_demo.Http.{Response, answer, http_error}
use flow_demo.Models.Identity.{User}
use flow_demo.Sessions.{
  admin_user, Settings, House, Tokens, recent, check_rate_limit, login, by_user, is_bootstrap,
  failed, set_attempts, bootstrap_admin_user,
}

recent-le : (now : ℕ) (ts : List ℕ) → length (recent now ts) ≤ length ts
unfolding recent
recent-le now [] = omega arith
recent-le now (t ∷ ts) = ground (arith, recent-le now ts)

abbrev status_of : Response User → ℕ
status_of (answer u) = 200
status_of (http_error n) = n

too_many : ◌≢◌ {A = Response User} (http_error 429) (http_error 401)
too_many e = (let same : 429 ≡ 401 = ap status_of e in omega (arith, same))

-- every client has at most five attempts
unfoldable pub IsLimited : House → Type 0
IsLimited h = (client : String) → length (h.attempts client) ≤ 5

-- a login by a client
pub record Attempt : Type 0 where
  pub time : ℕ
  pub client : String
  pub tokens : Tokens
  pub username : String
  pub password : String

unfoldable pub logins : Settings → List Attempt → House → House
unfolding login
logins st [] h = h
logins st (a ∷ rest) h =
    logins st rest ((login st a.time a.client a.tokens a.username a.password h).1)

module _ (st : Settings) (now : ℕ) (client : String) (k : Tokens) (username password : String)
    (h : House) (low : IsLimited h) where
  set-IsLimited :
      (g : House) (ts : List ℕ)
      → length ts ≤ 5
      → ((c : String) → length (g.attempts c) ≤ 5)
      → (c : String) → length ((set_attempts client ts g).attempts c) ≤ 5
  set-IsLimited g ts few all c = elim (Bool-cases (c == client)) [
    | inl own ↦ rw own few
    | inr other ↦ rw other (all c)
  ]

  failed-IsLimited :
      (ts : List ℕ)
      → length ts < 5
      → (c : String) → length ((failed st now client ts h).1.attempts c) ≤ 5
  unfolding IsLimited
  failed-IsLimited ts few c =
      set-IsLimited h (ts ++ (now ∷ []))
        (let count = length-append ts (now ∷ []) in omega (arith, count, few)) low c

  by_user-IsLimited :
      (ts : List ℕ) (o : Option User)
      → length ts < 5
      → (c : String) → length ((by_user st now client k username password ts h o).1.attempts c) ≤ 5
  unfolding IsLimited bootstrap_admin_user
  by_user-IsLimited ts (some u) few c =
      elim (Bool-cases (u.enabled && st.verify u.password_hash password)) [
        | inl right ↦ rw right (set-IsLimited h [] (omega arith) low c)
        | inr wrong ↦ rw wrong (failed-IsLimited ts few c)
      ]
  by_user-IsLimited ts none few c = elim (Bool-cases (is_bootstrap st now username password)) [
    | inl right ↦ rw right (set-IsLimited (bootstrap_admin_user st now k h) [] (omega arith) low c)
    | inr wrong ↦ rw wrong (failed-IsLimited ts few c)
  ]

  pub login-IsLimited : IsLimited (login st now client k username password h).1
  unfolding login check_rate_limit IsLimited
  login-IsLimited c = elim (Bool-cases (ltb (length (recent now (h.attempts client))) 5)) [
    | inl few ↦ rw few (
        by_user-IsLimited (recent now (h.attempts client))
          (find? (λ u. u.username == username) h.users) (ground (arith, few)) c)
    | inr many ↦ rw many (
        set-IsLimited h (recent now (h.attempts client))
          (let less = recent-le now (h.attempts client) in
            let few = low client in omega (arith, less, few))
          low c)
  ]

-- Whatever logins are tried, in whatever order and from whatever clients, no client ever has more than
-- five attempts on record.
pub logins-IsLimited :
    (st : Settings) (attempts : List Attempt) (h : House)
    → IsLimited h
    → IsLimited (logins st attempts h)
unfolding logins
logins-IsLimited st [] h low = low
logins-IsLimited st (a ∷ rest) h low =
    logins-IsLimited st rest _
      (login-IsLimited st a.time a.client a.tokens a.username a.password h low)

module _ (st : Settings) (now : ℕ) (client : String) (k : Tokens) (username password : String)
    (h : House) where
  by_user-failed :
      (ts : List ℕ) (o : Option User) (g : House)
      → by_user st now client k username password ts h o ≡ (http_error 401, g)
      → g ≡ set_attempts client (ts ++ (now ∷ [])) h
  unfolding bootstrap_admin_user
  by_user-failed ts (some u) g e =
      elim (Bool-cases (u.enabled && st.verify u.password_hash password)) [
        | inl right ↦ (let bad : answer u ≡ http_error 401 = ap (λ x. x.0) (rw right at e) in cc)
        | inr wrong ↦ sym (ap (λ x. x.1) (rw wrong at e))
      ]
  by_user-failed ts none g e = elim (Bool-cases (is_bootstrap st now username password)) [
    | inl right ↦
        (let bad : answer (admin_user st now k) ≡ http_error 401 = ap (λ x. x.0) (rw right at e) in
          cc)
    | inr wrong ↦ sym (ap (λ x. x.1) (rw wrong at e))
  ]

  limited-failed :
      (m : Bool) (g : House)
      → ltb (length (recent now (h.attempts client))) 5 ≡ m
      → login st now client k username password h ≡ (http_error 401, g)
      → g ≡ set_attempts client (recent now (h.attempts client) ++ (now ∷ [])) h
  unfolding login check_rate_limit
  limited-failed true g few e =
      by_user-failed (recent now (h.attempts client)) (find? (λ u. u.username == username) h.users)
        g (rw few at e)
  limited-failed false g many e = absurd (too_many (ap (λ x. x.0) (rw many at e)))

-- A login with a wrong name or password, answered 401, changes nothing but that its time is recorded
-- for the client, after the attempts of the last five minutes.
pub login-records :
    (st : Settings) (now : ℕ) (client : String) (k : Tokens) (username password : String)
    (h g : House)
    → login st now client k username password h ≡ (http_error 401, g)
    → g ≡ set_attempts client (recent now (h.attempts client) ++ (now ∷ [])) h
login-records st now client k username password h g e =
    limited-failed st now client k username password h
      (ltb (length (recent now (h.attempts client))) 5) g refl e

ltb-lt : {a b : ℕ} → ltb a b ≡ true → a < b
ltb-lt h = ground (arith, h)

ltb-ge : {a b : ℕ} → ltb a b ≡ false → b ≤ a
ltb-ge h = ground (arith, h)

-- times in the order in which they were recorded
unfoldable pub IsOrdered : List ℕ → Type 0
IsOrdered [] = Unit {0}
IsOrdered (t ∷ ts) = All (λ u. t ≤ u) ts × IsOrdered ts

filter-All :
    (now t : ℕ) (ts : List ℕ)
    → now ≤ t + 300
    → All (λ u. t ≤ u) ts
    → filter (λ u. leb now (u + 300)) ts ≡ ts
filter-All now t [] late all = refl
filter-All now t (u ∷ ts) late (above, all) =
    let kept : leb now (u + 300) ≡ true = ground (arith, late, above) in
    rw kept (ap (λ x. u ∷ x) (filter-All now t ts late all))

-- what the loop drops from the front is what lies outside the window
recent-filter :
    (now : ℕ) (ts : List ℕ) → IsOrdered ts → recent now ts ≡ filter (λ t. leb now (t + 300)) ts
unfolding recent IsOrdered
recent-filter now [] h = refl
recent-filter now (t ∷ ts) (above, h) = elim (Bool-cases (ltb (t + 300) now)) [
  | inl old ↦
      let out : leb now (t + 300) ≡ false = ground (arith, old) in
      rw (old, out) (recent-filter now ts h)
  | inr new ↦
      let kept : leb now (t + 300) ≡ true = ground (arith, new) in
      rw (new, kept) (ap (λ x. t ∷ x) (sym (filter-All now t ts (ground (arith, new)) above)))
]

module _ (st : Settings) (now : ℕ) (client : String) (k : Tokens) (username password : String)
    (h : House) where
  by_user-not_refused :
      (ts : List ℕ) (o : Option User)
      → (by_user st now client k username password ts h o).0 ≢ http_error 429
  unfolding bootstrap_admin_user
  by_user-not_refused ts (some u) e =
      elim (Bool-cases (u.enabled && st.verify u.password_hash password)) [
        | inl right ↦ (let bad : answer u ≡ http_error 429 = rw right at e in cc)
        | inr wrong ↦ too_many (sym (rw wrong at e))
      ]
  by_user-not_refused ts none e = elim (Bool-cases (is_bootstrap st now username password)) [
    | inl right ↦ (let bad : answer (admin_user st now k) ≡ http_error 429 = rw right at e in cc)
    | inr wrong ↦ too_many (sym (rw wrong at e))
  ]

  -- A client is answered 429 exactly when at least five of its recorded attempts lie in the last five
  -- minutes, whatever the name and the password are; recorded times are in their order.
  pub login-refuses_iff :
      IsOrdered (h.attempts client)
      → ((login st now client k username password h).0 ≡ http_error 429)
        ↔ (5 ≤ length (filter (λ t. leb now (t + 300)) (h.attempts client)))
  unfolding login check_rate_limit
  login-refuses_iff ordered =
      let same = recent-filter now (h.attempts client) ordered in
      elim (Bool-cases (ltb (length (recent now (h.attempts client))) 5)) [
        | inl few ↦ (
          λ e. absurd (
              by_user-not_refused (recent now (h.attempts client))
                (find? (λ u. u.username == username) h.users) (rw few at e)),
          λ many. absurd (omega (arith, ltb-lt few, ap length same, many)),
        )
        | inr many ↦ (
          λ e. (let count = ap length same in omega (arith, ltb-ge many, count)),
          λ n. rw many refl,
        )
      ]
