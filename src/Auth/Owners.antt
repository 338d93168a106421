-- ===== src/Auth/Owners.antt =====
-- token.go: whom the tokens of a table belong to.
use gta.Base.{
  ◌≡◌, ◌≢◌, ◌∙◌, refl, sym, ap, subst, Bool, true, false, some, List, [], ◌∷◌, All, arith,
  if◌then◌else◌, if_elim, ◌==◌, list_eq, nat_eq, Eq, eq_self,
}
use gta.Base.Dict.{Dict, insert, lookup, lookup-insert, lookup-insert_self}
use gta.Auth.{
  Text, static, Principal, StaticResolver, Segment, blank, bad, pair, Table, Parsed, parsed, failed,
  owner_twice, token_twice, is_known, is_empty, with_pair, trim_space, split_at, parse_segment,
  parse_segments, no_tokens, parse_tokens,
}

-- No two tokens belong to the same owner.
abbrev pub Single : Dict Text Principal → Type 0
Single by_token =
    (token token' : Text) (p p' : Principal)
    → lookup token by_token ≡ some p
    → lookup token' by_token ≡ some p'
    → p.owner ≡ p'.owner
    → token ≡ token'

abbrev text_eq : Eq Text
text_eq = list_eq

record Good (t : Table) : Type 0 where
  known :
      (token : Text) (p : Principal)
      → lookup token t.by_token ≡ some p
      → is_known (lookup p.owner t.owners) ≡ true
  single : Single t.by_token

module _ (seg owner token : Text) (is_admin : Bool) (t : Table)
    (new : is_known (lookup owner t.owners) ≡ false) (h : Good t) where
  mine : Principal
  mine = static owner is_admin

  -- A token of the new table is the new one or an old one.
  old_or_new :
      (at : Text) (p : Principal) (P : Type 0)
      → lookup at (insert token (static owner is_admin) t.by_token) ≡ some p
      → (token ≡ at → p.owner ≡ owner → P)
      → (lookup at t.by_token ≡ some p → P)
      → P
  old_or_new at p P e f g =
      if_elim (λ z. z ≡ some p → P) (token == at) (some (static owner is_admin))
        (lookup at t.by_token)
        (λ b e'.
          let same : static owner is_admin ≡ p = cc in
          f ((text_eq.beq_iff token at).0 b) (sym (ap (λ (q : Principal). q.owner) same)))
        (λ b e'. g e') (sym (lookup-insert token at (static owner is_admin) t.by_token) ∙ e)

  not_mine : (at : Text) (p : Principal) → lookup at t.by_token ≡ some p → p.owner ≢ owner
  not_mine at p e same =
      let yes = subst (λ z. is_known (lookup z t.owners) ≡ true) same (h.known at p e) in
      ground (arith, yes, new)

  still_known :
      (name : Text)
      → is_known (lookup name t.owners) ≡ true
      → is_known (lookup name (insert owner seg t.owners)) ≡ true
  still_known name e =
      ap is_known (lookup-insert owner name seg t.owners)
      ∙ if_elim (λ z. is_known z ≡ true) (owner == name) (some seg) (lookup name t.owners)
          (λ b. refl) (λ b. e)

  with_pair-Good : Good (with_pair seg owner token is_admin t)
  with_pair-Good = record {
    known = λ at p e.
        old_or_new at p _ e
          (λ same owns.
            subst (λ z. is_known (lookup z (insert owner seg t.owners)) ≡ true) (sym owns)
              (ap is_known (lookup-insert owner owner seg t.owners)
                ∙ subst
                    (λ (b : Bool). is_known (if b then some seg else lookup owner t.owners) ≡ true)
                    (sym (eq_self owner)) refl))
          (λ e'. still_known p.owner (h.known at p e'));
    single = λ at at' p p' e e' same.
        old_or_new at p _ e
          (λ new_at owns.
            old_or_new at' p' _ e' (λ new_at' owns'. sym new_at ∙ new_at')
              (λ old'. absurd (not_mine at' p' old' (sym same ∙ owns))))
          (λ old.
            old_or_new at' p' _ e' (λ new_at' owns'. absurd (not_mine at p old (same ∙ owns')))
              (λ old'. h.single at at' p p' old old' same));
  }

-- What parse_segments does with a segment.
abbrev pub go_on : Text → List Text → Table → Segment → Parsed
go_on seg segs t blank = parse_segments segs t
go_on seg segs t (bad e) = failed e
go_on seg segs t (pair owner token is_admin) =
    if is_known (lookup owner t.owners)
    then failed owner_twice
    else if is_known (lookup token t.by_token)
    then failed token_twice
    else parse_segments segs (with_pair (trim_space seg) owner token is_admin t)

-- What a segment tells, of a table that was read.
abbrev pub Told : Dict Text Principal → Segment → Type 0
Told by_token blank = Unit
Told by_token (bad e) = Unit
Told by_token (pair owner token is_admin) = lookup token by_token ≡ some (static owner is_admin)

-- What a table that was read of segments has.
record Reads (t : Table) (segs : List Text) (r : StaticResolver) : Type 0 where
  single : Single r.by_token
  kept : (at : Text) (p : Principal) → lookup at t.by_token ≡ some p → lookup at r.by_token ≡ some p
  told : All (λ seg. Told r.by_token (parse_segment seg)) segs

-- A new token leaves those that are there.
with_pair-kept :
    (seg owner token : Text) (is_admin : Bool) (t : Table) (at : Text) (p : Principal)
    → is_known (lookup token t.by_token) ≡ false
    → lookup at t.by_token ≡ some p
    → lookup at (with_pair seg owner token is_admin t).by_token ≡ some p
with_pair-kept seg owner token is_admin t at p new e =
    lookup-insert token at (static owner is_admin) t.by_token
    ∙ if_elim (λ z. z ≡ some p) (token == at) (some (static owner is_admin)) (lookup at t.by_token)
        (λ b. absurd (
          let there =
            ap is_known (
              subst (λ z. lookup z t.by_token ≡ some p) (sym ((text_eq.beq_iff token at).0 b)) e) in
          ground (arith, there, new)))
        (λ b. e)

-- What a segment does, with what the rest does of every good table.
after :
    (seg : Text) (segs : List Text) (t : Table) (r : StaticResolver) (x : Segment)
    → Good t
    → ((t' : Table) → Good t' → parse_segments segs t' ≡ parsed r → Reads t' segs r)
    → go_on seg segs t x ≡ parsed r
    → Reads t segs r × Told r.by_token x
after seg segs t r blank h next e = (next t h e, tt)
after seg segs t r (bad why) h next e = absurd cc
after seg segs t r (pair owner token is_admin) h next e =
    let P : Parsed → Type 0 = λ z.
      z ≡ parsed r → Reads t segs r × (lookup token r.by_token ≡ some (static owner is_admin)) in
    if_elim P (is_known (lookup owner t.owners)) _ _ (λ b e'. absurd cc)
      (λ new e'.
        if_elim P (is_known (lookup token t.by_token)) _ _ (λ b e''. absurd cc)
          (λ first e''.
            let rest = next _ (with_pair-Good (trim_space seg) owner token is_admin t new h) e'' in
            (
              record {
                single = rest.single;
                kept = λ at p e.
                    rest.kept at p
                      (with_pair-kept (trim_space seg) owner token is_admin t at p first e);
                told = rest.told;
              },
              rest.kept token (static owner is_admin)
                  (lookup-insert_self token (static owner is_admin) t.by_token),
            ))
          e')
      e

parse_segments-Reads :
    (segs : List Text) (t : Table) (r : StaticResolver)
    → Good t
    → parse_segments segs t ≡ parsed r
    → Reads t segs r
unfolding parse_segments
parse_segments-Reads [] t r h e =
    let same : record { by_token = t.by_token } ≡ r = cc in
    record {
      single = subst (λ (z : StaticResolver). Single z.by_token) same h.single;
      kept = λ at p e. subst (λ (z : StaticResolver). lookup at z.by_token ≡ some p) same e;
      told = tt;
    }
parse_segments-Reads (seg ∷ segs) t r h e =
    let (rest, here) =
      after seg segs t r (parse_segment seg) h (λ t' h' e'. parse_segments-Reads segs t' r h' e')
        e in
    record { single = rest.single; kept = rest.kept; told = (here, rest.told) }

nothing-Good : Good no_tokens
unfolding lookup
nothing-Good = record {
  known = λ token p e. absurd cc;
  single = λ token token' p p' e e' same. absurd cc;
}

-- A specification that is read, and is not blank, gives no owner two tokens, and each part between its
-- commas that names an owner and a token has that token belong to that owner, with the admin mark that
-- it has there.
pub parse_tokens-Single :
    (spec : Text) (r : StaticResolver)
    → is_empty (trim_space spec) ≡ false
    → parse_tokens spec ≡ parsed r
    → Single r.by_token × All (λ seg. Told r.by_token (parse_segment seg)) (split_at 44 spec)
unfolding parse_tokens
parse_tokens-Single spec r some_text e =
    if_elim
      (λ (z : Parsed).
        z ≡ parsed r
        → Single r.by_token × All (λ seg. Told r.by_token (parse_segment seg)) (split_at 44 spec))
      (is_empty (trim_space spec)) _ _ (λ b. absurd (ground (arith, b, some_text)))
      (λ b e'.
        let reads = parse_segments-Reads (split_at 44 spec) no_tokens r nothing-Good e' in
        (reads.single, reads.told))
      e
