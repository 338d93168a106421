-- ===== src/Access/Invitations.antt =====
-- access_code.go: what a second claim of the same code gets.
use gta.Base.{
  sym, ℕ, ◌≤◌, ◌≡◌, ◌≢◌, ◌∙◌, refl, ap, subst, true, not, Option, none, some, ltb, ◌||◌, if_elim,
  arith, String, ◌==◌, string_eq, eq_iff,
}
use gta.Base.Dict.{Dict, insert, lookup, lookup-insert_self}
use gta.Access.{
  List, AccessCode, User, Tables, create_user, is_there, valid_owner_name, token_taken,
}
use gta.Access.Later.{Later, run_later, Spent, run_later-Spent}
use gta.Access.Claims.{
  ClaimEnv, Claim, granted, conflict, no_session, mark_claimed, config_of, open_session, with_user,
  claim_as, claim_code, claim_found, access_claim,
}

-- The checks in front of a claim that pass: the code is known and lasts, and there is a pipeline.
pub record Passes (env : ClaimEnv) (code : String) (c : AccessCode) (s : Tables) : Type 0 where
  pub given : code ≢ ""
  pub known : lookup code s.codes ≡ some c
  pub lasts : env.now ≤ c.expires_at
  pub reached : env.has_pipeline ≡ true

abbrev Answer : Type 0
Answer = Tables × Claim

module _ (env : ClaimEnv) (code : String) (c : AccessCode) (s : Tables) where
  passed : Passes env code c s → access_claim env code s ≡ claim_as env code c s
  unfolding access_claim claim_found claim_code
  passed h =
      if_elim (λ (r : Answer). r ≡ claim_as env code c s) (code == "") _ _
        (λ e. absurd (h.given ((eq_iff code "").0 e)))
        (λ e.
          ap (λ o. claim_found env code o s) h.known
          ∙ if_elim (λ (r : Answer). r ≡ claim_as env code c s) (ltb c.expires_at env.now) _ _
              (λ e'. absurd (ground (arith, e', h.lasts)))
              (λ e'.
                if_elim (λ (r : Answer). r ≡ claim_as env code c s) (not env.has_pipeline) _ _
                  (λ e''. absurd (ground (arith, e'', h.reached))) (λ e''. refl)))

  lends :
      Passes env code c s
      → c.new_owner ≡ ""
      → access_claim env code s ≡ open_session env code c (env.owner_secret c.owner) env.session s
  unfolding claim_as
  lends h plain =
      passed h
      ∙ if_elim
          (λ (r : Answer). r ≡ open_session env code c (env.owner_secret c.owner) env.session s)
          (c.new_owner == "") _ _ (λ e. refl)
          (λ e. absurd (ground (arith, e, (eq_iff c.new_owner "").1 plain)))

  invites :
      Passes env code c s
      → c.new_owner ≢ ""
      → env.has_users ≡ true
      → access_claim env code s
        ≡ with_user env code c (create_user env.now env.token c.new_owner c.owner s.users) s
  unfolding claim_as
  invites h invitation ready =
      passed h
      ∙ if_elim
          (λ (r : Answer).
            r ≡ with_user env code c (create_user env.now env.token c.new_owner c.owner s.users) s)
          (c.new_owner == "") _ _ (λ e. absurd (invitation ((eq_iff c.new_owner "").0 e)))
          (λ e.
            if_elim
              (λ (r : Answer).
                r
                ≡ with_user env code c (create_user env.now env.token c.new_owner c.owner s.users)
                    s)
              (not env.has_users) _ _ (λ e'. absurd (ground (arith, e', ready))) (λ e'. refl))

-- A user that was created is there, and cannot be created again.
created_is_there :
    (now : ℕ) (token : Option String) (owner created_by : String) (users users' : Dict String User)
    (t : String)
    → create_user now token owner created_by users ≡ some (users', t)
    → is_there (lookup owner users') ≡ true
unfolding create_user
created_is_there now none owner created_by users users' t e = cc
created_is_there now (some token) owner created_by users users' t e =
    if_elim
      (λ (r : Option (Dict String User × String)).
        r ≡ some (users', t) → is_there (lookup owner users') ≡ true)
      (not (valid_owner_name owner) || (is_there (lookup owner users) || token_taken token users)) _
      _ (λ b bad. cc)
      (λ b good.
        let u : User = record { token = token; created_by = created_by; created_at = now } in
        let same : insert owner u users ≡ users' = cc in
        subst (λ z. is_there (lookup owner z) ≡ true) same
          (ap is_there (lookup-insert_self owner u users)))
      e

-- The row that a creation makes has the token that it answers with.
abbrev pub HasToken : String → String → Dict String User → Type 0
HasToken owner token users = (u : User) × (lookup owner users ≡ some u) × (u.token ≡ token)

created_row :
    (now : ℕ) (token : Option String) (owner created_by : String) (users users' : Dict String User)
    (t : String)
    → create_user now token owner created_by users ≡ some (users', t)
    → HasToken owner t users'
unfolding create_user
created_row now none owner created_by users users' t e = absurd cc
created_row now (some token) owner created_by users users' t e =
    if_elim
      (λ (r : Option (Dict String User × String)). r ≡ some (users', t) → HasToken owner t users')
      (not (valid_owner_name owner) || (is_there (lookup owner users) || token_taken token users)) _
      _ (λ b bad. absurd cc)
      (λ b good.
        let u : User = record { token = token; created_by = created_by; created_at = now } in
        let same : insert owner u users ≡ users' = cc in
        let told : token ≡ t = cc in
        (u, subst (λ z. lookup owner z ≡ some u) same (lookup-insert_self owner u users), told))
      e

there_is_no_second :
    (now : ℕ) (token : Option String) (owner created_by : String) (users : Dict String User)
    → is_there (lookup owner users) ≡ true
    → create_user now token owner created_by users ≡ none
unfolding create_user
there_is_no_second now none owner created_by users e = refl
there_is_no_second now (some token) owner created_by users e =
    if_elim (λ (r : Option (Dict String User × String)). r ≡ none)
      (not (valid_owner_name owner) || (is_there (lookup owner users) || token_taken token users)) _
      _ (λ b. refl) (λ b. absurd (ground (arith, b, e)))

conflicts :
    (env : ClaimEnv) (code : String) (c : AccessCode) (s : Tables)
    → Passes env code c s
    → c.new_owner ≢ ""
    → env.has_users ≡ true
    → is_there (lookup c.new_owner s.users) ≡ true
    → (access_claim env code s).1 ≡ conflict
unfolding with_user
conflicts env code c s h invitation ready there =
    ap (λ (r : Answer). r.1) (invites env code c s h invitation ready)
    ∙ ap (λ o. (with_user env code c o s).1)
        (there_is_no_second env.now env.token c.new_owner c.owner s.users there)

-- What a code that has been used for its user answers at any later time.
claim-Spent :
    (env : ClaimEnv) (code owner : String) (until : ℕ) (later : List Later) (s : Tables)
    → Spent code owner until s
    → code ≢ ""
    → owner ≢ ""
    → env.now ≤ until
    → env.has_pipeline ≡ true
    → env.has_users ≡ true
    → (access_claim env code (run_later later s)).1 ≡ conflict
claim-Spent env code owner until later s h given named lasts reached ready =
    let k = run_later-Spent code owner until later s h in
    let (c, known, owns, ends) = k.invitation in
    conflicts env code c (run_later later s)
      (record {
        given = given;
        known = known;
        lasts = subst (λ z. env.now ≤ z) (sym ends) lasts;
        reached = reached;
      })
      (subst (λ z. z ≢ "") (sym owns) named) ready
      (subst (λ z. is_there (lookup z (run_later later s).users) ≡ true) (sym owns) k.there)

-- An invitation is spent by a claim that passes the checks and makes the user but cannot open the
-- session: it answers that there is no session, and the user has a token that the answer does not
-- tell. After any claims and creations of codes, as long as the user is not revoked, a claim of the
-- code that comes before the code expires, with the pipeline and the users there, answers that the
-- user exists.
pub failed_claim_spends_invitation :
    (env env' : ClaimEnv) (code : String) (c : AccessCode) (s : Tables) (users : Dict String User)
    (token : String) (later : List Later)
    → Passes env code c s
    → c.new_owner ≢ ""
    → env.has_users ≡ true
    → create_user env.now env.token c.new_owner c.owner s.users ≡ some (users, token)
    → env.session ≡ none
    → env'.now ≤ c.expires_at
    → env'.has_pipeline ≡ true
    → env'.has_users ≡ true
    → ((access_claim env code s).1 ≡ no_session)
      × HasToken c.new_owner token (access_claim env code s).0.users
      × ((access_claim env' code (run_later later (access_claim env code s).0)).1 ≡ conflict)
unfolding with_user open_session
failed_claim_spends_invitation env env' code c s users token later h invitation ready creates fails
      lasts' reached' ready' =
    let t : Tables = record s { users = users } in
    let first =
      invites env code c s h invitation ready
      ∙ ap (λ o. with_user env code c o s) creates
      ∙ ap (λ o. open_session env code c token o t) fails in
    let spent : Spent code c.new_owner c.expires_at t = record {
      there = created_is_there env.now env.token c.new_owner c.owner s.users users token creates;
      invitation = (c, h.known, refl, refl);
    } in
    (
      ap (λ (r : Answer). r.1) first,
      subst (λ (z : Answer). HasToken c.new_owner token z.0.users) (sym first)
          (created_row env.now env.token c.new_owner c.owner s.users users token creates),
      ap (λ (r : Answer). (access_claim env' code (run_later later r.0)).1) first
          ∙ claim-Spent env' code c.new_owner c.expires_at later t spent h.given invitation lasts'
              reached' ready',
    )

abbrev pub after_claim : String → AccessCode → AccessCode
after_claim session c = record c { claimed = true; session_id = session }

opened :
    (env : ClaimEnv) (code session token : String) (c : AccessCode) (s : Tables)
    → lookup code s.codes ≡ some c
    → open_session env code c token (some session) s ≡ (
      record s { codes = insert code (after_claim session c) s.codes },
      granted (config_of env c token session),
    )
unfolding open_session mark_claimed
opened env code session token c s known =
    ap (λ o. (mark_claimed code session o s, granted (config_of env c token session))) known

-- A code that is no invitation is good for any number of claims until it expires: marking it claimed
-- keeps nobody out. Each claim opens a session and is told the static token of the owner.
pub lent_code_claims_again :
    (env env' : ClaimEnv) (code : String) (c : AccessCode) (s : Tables) (first second : String)
    → Passes env code c s
    → c.new_owner ≡ ""
    → env.session ≡ some first
    → env'.session ≡ some second
    → env'.now ≤ c.expires_at
    → env'.has_pipeline ≡ true
    → ((access_claim env code s).1 ≡ granted (config_of env c (env.owner_secret c.owner) first))
      × ((access_claim env' code (access_claim env code s).0).1
          ≡ granted (config_of env' c (env'.owner_secret c.owner) second))
unfolding config_of
lent_code_claims_again env env' code c s first second h plain opens opens' lasts' reached' =
    let s' : Tables = record s { codes = insert code (after_claim first c) s.codes } in
    let once =
      lends env code c s h plain
      ∙ ap (λ o. open_session env code c (env.owner_secret c.owner) o s) opens
      ∙ opened env code first (env.owner_secret c.owner) c s h.known in
    let known' : lookup code s'.codes ≡ some (after_claim first c) =
      lookup-insert_self code (after_claim first c) s.codes in
    let twice =
      lends env' code (after_claim first c) s'
        (record { given = h.given; known = known'; lasts = lasts'; reached = reached' }) plain
      ∙ ap (λ o. open_session env' code (after_claim first c) (env'.owner_secret c.owner) o s')
          opens'
      ∙ opened env' code second (env'.owner_secret c.owner) (after_claim first c) s' known' in
    (
      ap (λ (r : Answer). r.1) once,
      ap (λ (r : Answer). (access_claim env' code r.0).1) once ∙ ap (λ (r : Answer). r.1) twice,
    )

-- A claim of an invitation that passes the checks, makes the user and opens the session is granted
-- and tells the new token. After any claims and creations of codes, as long as the user is not revoked,
-- a claim of the code that comes before the code expires, with the pipeline and the users there,
-- answers that the user exists.
pub invitation_claims_once :
    (env env' : ClaimEnv) (code : String) (c : AccessCode) (s : Tables) (users : Dict String User)
    (token first : String) (later : List Later)
    → Passes env code c s
    → c.new_owner ≢ ""
    → env.has_users ≡ true
    → create_user env.now env.token c.new_owner c.owner s.users ≡ some (users, token)
    → env.session ≡ some first
    → env'.now ≤ c.expires_at
    → env'.has_pipeline ≡ true
    → env'.has_users ≡ true
    → ((access_claim env code s).1 ≡ granted (config_of env c token first))
      × HasToken c.new_owner token (access_claim env code s).0.users
      × ((access_claim env' code (run_later later (access_claim env code s).0)).1 ≡ conflict)
unfolding with_user
invitation_claims_once env env' code c s users token first later h invitation ready creates opens
      lasts' reached' ready' =
    let t : Tables = record s { users = users } in
    let t' : Tables = record t { codes = insert code (after_claim first c) t.codes } in
    let once =
      invites env code c s h invitation ready
      ∙ ap (λ o. with_user env code c o s) creates
      ∙ ap (λ o. open_session env code c token o t) opens
      ∙ opened env code first token c t h.known in
    let spent : Spent code c.new_owner c.expires_at t' = record {
      there = created_is_there env.now env.token c.new_owner c.owner s.users users token creates;
      invitation =
          (after_claim first c, lookup-insert_self code (after_claim first c) s.codes, refl, refl);
    } in
    (
      ap (λ (r : Answer). r.1) once,
      subst (λ (z : Answer). HasToken c.new_owner token z.0.users) (sym once)
          (created_row env.now env.token c.new_owner c.owner s.users users token creates),
      ap (λ (r : Answer). (access_claim env' code (run_later later r.0)).1) once
          ∙ claim-Spent env' code c.new_owner c.expires_at later t' spent h.given invitation lasts'
              reached' ready',
    )
