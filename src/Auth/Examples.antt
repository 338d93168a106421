-- ===== src/Auth/Examples.antt =====
-- The theorems on tokens at a table of two owners and at a lone comma.
use gta.Base.{All, ◌≡◌, refl, true, false, some, [], ◌∷◌, ascii, list_eq, nat_eq, same_items}
use gta.Base.Dict.{lookup, insert}
use gta.Auth.{
  none, static, StaticResolver, parsed, parse_tokens, parse_segments, parse_segment, trim_space,
  trim_left, trim_right, split_at, cut_first, cut_last, equal_fold,
}
use gta.Auth.Owners.{Single, Told, parse_tokens-Single}
use gta.Auth.First.{
  UserRow, first_resolve, any_asks, try_extra, db_resolve, user_of, blank_parts_admit_anyone,
}

abbrev two : StaticResolver
two = record {
  by_token =
      (ascii "k1", static (ascii "al") false) ∷ ((ascii "k2", static (ascii "bo") true) ∷ []);
}

two_parsed : parse_tokens (ascii "al=k1, bo=k2:Admin,") ≡ parsed two
unfolding parse_tokens parse_segments parse_segment trim_space trim_left trim_right split_at
    cut_first cut_last equal_fold insert lookup ascii same_items
two_parsed = refl

parse_tokens-Single_example :
    Single two.by_token
    × All (λ seg. Told two.by_token (parse_segment seg)) (split_at 44 (ascii "al=k1, bo=k2:Admin,"))
unfolding trim_space trim_left trim_right ascii
parse_tokens-Single_example = parse_tokens-Single (ascii "al=k1, bo=k2:Admin,") two refl two_parsed

abbrev carol : UserRow
carol = record {
  owner = ascii "carol";
  token = ascii "k3";
  is_admin = false;
  tenant = ascii "default";
}

blank_parts_admit_anyone_example :
    (parse_tokens (44 ∷ (32 ∷ [])) ≡ parsed (record { by_token = [] }))
    × (first_resolve (record { by_token = [] }) [] [] (ascii "k9")
        ≡ some (static (ascii "local") false))
    × (first_resolve (record { by_token = [] }) (carol ∷ []) [] (ascii "k9") ≡ none)
unfolding trim_space trim_left trim_right split_at any_asks try_extra db_resolve user_of ascii
    same_items
blank_parts_admit_anyone_example =
    blank_parts_admit_anyone (44 ∷ (32 ∷ [])) carol [] [] (ascii "k9") refl (refl, (refl, tt)) refl
      refl refl
