-- ===== src/Access/Later.antt =====
-- access_code.go: claims and creations of codes one after the other, which keep a user that there is
-- and what a code is for.
use gta.Base.{
  ℕ, ◌≡◌, ◌∙◌, refl, sym, ap, subst, Bool, true, not, Option, none, some, List, [], ◌∷◌, ltb, ◌&&◌,
  ◌||◌, if_elim, arith, String, ◌==◌, string_eq, eq_iff,
}
use gta.Base.Dict.{Dict, insert, lookup, lookup-insert}
use gta.Authz.{Principal, access_code_create, access_code_action_allowed}
use gta.Access.{
  AccessCode, User, Tables, Creation, Refusal, CodeRequest, create_user, create_access_code,
  checked, store_code, invitation_refused, is_there, valid_owner_name, token_taken,
}
use gta.Access.Claims.{
  ClaimEnv, Claim, mark_claimed, open_session, with_user, claim_as, claim_code, claim_found,
  access_claim,
}

-- A claim of a code, or the creation of one.
pub data Later : Type 0 where
  claims : ClaimEnv → String → Later
  creates : Principal → String → CodeRequest → Bool → ℕ → Later

unfoldable pub later_step : Later → Tables → Tables
unfolding access_claim create_access_code
later_step (claims env code) s = (access_claim env code s).0
later_step (creates p code req readable now) s = (create_access_code p code req readable now s).0

unfoldable pub run_later : List Later → Tables → Tables
unfolding later_step
run_later [] s = s
run_later (l ∷ later) s = run_later later (later_step l s)

-- The user is there, and the code is an invitation of that user until that time.
pub record Spent (code owner : String) (until : ℕ) (s : Tables) : Type 0 where
  pub there : is_there (lookup owner s.users) ≡ true
  pub invitation :
      (c : AccessCode) × (lookup code s.codes ≡ some c)
      × (c.new_owner ≡ owner)
      × (c.expires_at ≡ until)

only_code : (c d : AccessCode) → some c ≡ some d → c ≡ d
only_code c d e = cc

abbrev Answer : Type 0
Answer = Tables × Claim

module _ (code owner : String) (until : ℕ) where
  abbrev Kept : Tables → Type 0
  Kept s = Spent code owner until s

  new_users-Spent :
      (s : Tables) (users : Dict String User)
      → is_there (lookup owner users) ≡ true
      → Kept s
      → Kept (record s { users = users })
  new_users-Spent s users there h = record { there = there; invitation = h.invitation }

  insert_user :
      (other : String) (u : User) (users : Dict String User)
      → is_there (lookup owner users) ≡ true
      → is_there (lookup owner (insert other u users)) ≡ true
  insert_user other u users there =
      ap is_there (lookup-insert other owner u users)
      ∙ if_elim (λ z. is_there z ≡ true) (other == owner) (some u) (lookup owner users) (λ b. refl)
          (λ b. there)

  create_user-kept :
      (now : ℕ) (token : Option String) (other by : String) (users users' : Dict String User)
      (t : String)
      → is_there (lookup owner users) ≡ true
      → create_user now token other by users ≡ some (users', t)
      → is_there (lookup owner users') ≡ true
  unfolding create_user
  create_user-kept now none other by users users' t there e = absurd cc
  create_user-kept now (some token) other by users users' t there e =
      if_elim
        (λ (r : Option (Dict String User × String)).
          r ≡ some (users', t) → is_there (lookup owner users') ≡ true)
        (not (valid_owner_name other) || (is_there (lookup other users) || token_taken token users))
        _ _ (λ b bad. absurd cc)
        (λ b good.
          let u : User = record { token = token; created_by = by; created_at = now } in
          let same : insert other u users ≡ users' = cc in
          subst (λ z. is_there (lookup owner z) ≡ true) same (insert_user other u users there))
        e

  mark-Spent :
      (at session : String) (o : Option AccessCode) (s : Tables)
      → lookup at s.codes ≡ o
      → Kept s
      → Kept (mark_claimed at session o s)
  unfolding mark_claimed
  mark-Spent at session none s e h = h
  mark-Spent at session (some c) s e h =
      let (mine, known, owns, lasts) = h.invitation in
      let marked : AccessCode = record c { claimed = true; session_id = session } in
      record {
        there = h.there;
        invitation =
            subst
              (λ z.
                (d : AccessCode) × (z ≡ some d) × (d.new_owner ≡ owner) × (d.expires_at ≡ until))
              (sym (lookup-insert at code marked s.codes))
              (if_elim
                (λ z.
                  (d : AccessCode) × (z ≡ some d) × (d.new_owner ≡ owner) × (d.expires_at ≡ until))
                (at == code) (some marked) (lookup code s.codes)
                (λ b.
                  let same : some c ≡ some mine =
                    sym e ∙ ap (λ z. lookup z s.codes) ((eq_iff at code).0 b) ∙ known in
                  let eq : c ≡ mine = only_code c mine same in
                  (
                    marked,
                    refl,
                    ap (λ (z : AccessCode). z.new_owner) eq ∙ owns,
                    ap (λ (z : AccessCode). z.expires_at) eq ∙ lasts,
                  ))
                (λ b. (mine, known, owns, lasts)));
      }

  open-Spent :
      (env : ClaimEnv) (at : String) (c : AccessCode) (token : String) (session : Option String)
      (s : Tables)
      → Kept s
      → Kept (open_session env at c token session s).0
  unfolding open_session
  open-Spent env at c token none s h = h
  open-Spent env at c token (some session) s h = mark-Spent at session (lookup at s.codes) s refl h

  claim_as-Spent :
      (env : ClaimEnv) (at : String) (c : AccessCode) (s : Tables)
      → Kept s
      → Kept (claim_as env at c s).0
  unfolding claim_as with_user
  claim_as-Spent env at c s h =
      if_elim (λ (r : Answer). Kept r.0) (c.new_owner == "") _ _
        (λ b. open-Spent env at c (env.owner_secret c.owner) env.session s h)
        (λ b.
          if_elim (λ (r : Answer). Kept r.0) (not env.has_users) _ _ (λ b'. h)
            (λ b'. with_new (create_user env.now env.token c.new_owner c.owner s.users) refl))
    where
      with_new :
          (o : Option (Dict String User × String))
          → create_user env.now env.token c.new_owner c.owner s.users ≡ o
          → Kept (with_user env at c o s).0
      with_new none e = h
      with_new (some (users, token)) e =
          open-Spent env at c token env.session (record s { users = users })
            (new_users-Spent s users
              (create_user-kept env.now env.token c.new_owner c.owner s.users users token h.there e)
              h)

  access_claim-Spent :
      (env : ClaimEnv) (at : String) (s : Tables) → Kept s → Kept (access_claim env at s).0
  unfolding access_claim claim_found claim_code
  access_claim-Spent env at s h =
      if_elim (λ (r : Answer). Kept r.0) (at == "") _ _ (λ b. h) (λ b. found (lookup at s.codes))
    where
      found : (o : Option AccessCode) → Kept (claim_found env at o s).0
      found none = h
      found (some c) =
          if_elim (λ (r : Answer). Kept r.0) (ltb c.expires_at env.now) _ _ (λ b. h)
            (λ b.
              if_elim (λ (r : Answer). Kept r.0) (not env.has_pipeline) _ _ (λ b'. h)
                (λ b'. claim_as-Spent env at c s h))

  store_code-Spent : (c : AccessCode) (s : Tables) → Kept s → Kept (store_code c s).0
  unfolding store_code
  store_code-Spent c s h =
      let (mine, known, owns, lasts) = h.invitation in
      if_elim (λ (r : Tables × Creation). Kept r.0) (is_there (lookup c.code s.codes)) _ _ (λ b. h)
        (λ new. record {
          there = h.there;
          invitation = (
            mine,
            lookup-insert c.code code c s.codes
                ∙ if_elim (λ z. z ≡ some mine) (c.code == code) (some c) (lookup code s.codes)
                    (λ b. absurd (
                      let taken = ap is_there (
                        subst (λ z. lookup z s.codes ≡ some mine) (sym ((eq_iff c.code code).0 b))
                          known) in
                      ground (arith, taken, new)))
                    (λ b. known),
            owns,
            lasts,
          );
        })

  checked-Spent :
      (why : Option Refusal) (readable : Bool) (c : AccessCode) (s : Tables)
      → Kept s
      → Kept (checked why readable c s).0
  unfolding checked
  checked-Spent (some why) readable c s h = h
  checked-Spent none readable c s h =
      if_elim (λ (r : Tables × Creation). Kept r.0) (not (c.project_id == "") && not readable) _ _
        (λ b. h) (λ b. store_code-Spent c s h)

  create-Spent :
      (p : Principal) (at : String) (req : CodeRequest) (readable : Bool) (now : ℕ) (s : Tables)
      → Kept s
      → Kept (create_access_code p at req readable now s).0
  unfolding create_access_code
  create-Spent p at req readable now s h =
      if_elim (λ (r : Tables × Creation). Kept r.0)
        (not (access_code_action_allowed p access_code_create p.user)) _ _ (λ b. h)
        (λ b. checked-Spent (invitation_refused p req.new_owner s.users) readable _ s h)

  pub run_later-Spent : (later : List Later) (s : Tables) → Kept s → Kept (run_later later s)
  unfolding run_later later_step
  run_later-Spent [] s h = h
  run_later-Spent (claims env at ∷ later) s h =
      run_later-Spent later _ (access_claim-Spent env at s h)
  run_later-Spent (creates p at req readable now ∷ later) s h =
      run_later-Spent later _ (create-Spent p at req readable now s h)
