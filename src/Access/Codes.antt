-- ===== src/Access/Codes.antt =====
-- access_code.go: the letters of a code, and what the creation of one does to the tables.
use gta.Base.{
  ℕ, ◌+◌, ◌≡◌, refl, Bool, true, false, not, Option, none, some, List, length, ◌&&◌, if◌then◌else◌,
  String, ◌==◌, string_eq,
}
use gta.Base.Dict.{lookup, lookup-insert_self}
use gta.Authz.{Principal, access_code_create, access_code_action_allowed}
use gta.Access.{
  AccessCode, Tables, nth_of, new_access_code, code_part, CodeRequest, Refusal, Creation, made,
  refused, invitation_refused, store_code, checked, create_access_code, day, is_there,
}

-- A code has twelve characters, and the last two letters of its first part are the first two of its
-- second part, whatever the random bytes are: six letters tell codes apart, not eight.
pub code_repeats_letters :
    (b : List ℕ)
    → (length (new_access_code (some b)) ≡ 12)
      × (nth_of (new_access_code (some b)) 5 ≡ nth_of (new_access_code (some b)) 8)
      × (nth_of (new_access_code (some b)) 6 ≡ nth_of (new_access_code (some b)) 9)
unfolding new_access_code code_part
code_repeats_letters b = (refl, refl, refl)

-- What a creation leaves: a code of the caller, for a day, that can be looked up, and all else as it
-- was.
abbrev pub Keeps : Principal → ℕ → Tables → Tables → AccessCode → Type 0
Keeps p now s t c =
    (c.owner ≡ p.user)
    × (c.expires_at ≡ now + day)
    × (lookup c.code t.codes ≡ some c)
    × (t.users ≡ s.users)

-- The answer of a creation, with the tables it leaves.
pub data Outcome (p : Principal) (now : ℕ) (s : Tables) : Tables × Creation → Type 0 where
  nothing : {why : Refusal} → Outcome p now s (s, refused why)
  own :
      {t : Tables} {c : AccessCode}
      → Keeps p now s t c
      → lookup c.code s.codes ≡ none
      → Outcome p now s (t, made c)

Outcome-if :
    {p : Principal} {now : ℕ} {s : Tables} (b : Bool) {x y : Tables × Creation}
    → (b ≡ true → Outcome p now s x)
    → (b ≡ false → Outcome p now s y)
    → Outcome p now s (if b then x else y)
Outcome-if true f g = f refl
Outcome-if false f g = g refl

absent {ℓ} : {A : Type ℓ} (o : Option A) → is_there o ≡ false → o ≡ none
absent none e = refl
absent (some x) e = cc

store_code-Outcome :
    (p : Principal) (now : ℕ) (c : AccessCode) (s : Tables)
    → c.owner ≡ p.user
    → c.expires_at ≡ now + day
    → Outcome p now s (store_code c s)
unfolding store_code
store_code-Outcome p now c s owns lasts =
    Outcome-if (is_there (lookup c.code s.codes)) (λ e. nothing)
      (λ e.
        own (owns, lasts, lookup-insert_self c.code c s.codes, refl)
          (absent (lookup c.code s.codes) e))

checked-Outcome :
    (p : Principal) (now : ℕ) (why : Option Refusal) (readable : Bool) (c : AccessCode) (s : Tables)
    → c.owner ≡ p.user
    → c.expires_at ≡ now + day
    → Outcome p now s (checked why readable c s)
unfolding checked
checked-Outcome p now (some why) readable c s owns lasts = nothing
checked-Outcome p now none readable c s owns lasts =
    Outcome-if (not (c.project_id == "") && not readable) (λ e. nothing)
      (λ e. store_code-Outcome p now c s owns lasts)

-- A creation either changes nothing and is refused, or it adds one code, which nobody had before:
-- it is the caller's own, it lasts a day, and no user is touched.
pub create_access_code-Outcome :
    (p : Principal) (code : String) (req : CodeRequest) (readable : Bool) (now : ℕ) (s : Tables)
    → Outcome p now s (create_access_code p code req readable now s)
unfolding create_access_code
create_access_code-Outcome p code req readable now s =
    Outcome-if (not (access_code_action_allowed p access_code_create p.user)) (λ e. nothing)
      (λ e.
        checked-Outcome p now (invitation_refused p req.new_owner s.users) readable _ s refl refl)
