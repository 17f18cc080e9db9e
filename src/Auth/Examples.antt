-- ===== src/Auth/Examples.antt =====
-- A node with the pairing code ABCD-EFGH, its token, and a sign-in link.
use capture_room.Prelude.{
  ◌+◌, ◌≡◌, ◌≤◌, refl, ap, arith, true, false, none, some, List, [], ◌∷◌, ◌++◌, length,
}
use capture_room.Auth.Utf8.{Text}
use capture_room.Auth.{
  AccessToken, Pairing, span, fresh, attempt, right, wrong, constant_time_eq, random_string,
  format_pairing_code, normalize_pairing_code, pairing_alphabet,
}
use capture_room.Auth.Codes.{
  IsCode, Typed, ended, lower, other, normalize_pairing_code-format_pairing_code,
}
use capture_room.Auth.Tries.{attempt_all, attempt_all-replies}
use capture_room.Auth.Requests.{validate, require, passed, presented, post_pair}
use capture_room.Auth.Pairs.{IsEarned, post_pair-IsEarned}
use capture_room.Auth.Random.{IsDrawn, random_string-IsDrawn, picks, count_below, pick-fair}
use capture_room.Auth.Carried.{by_header, by_cookie, require-carried}
use capture_room.Auth.Links.{make_sign_in_link, take_sign_in_link}
use capture_room.Auth.Used.{
  LinkStep, makes, opens, used, made, used-made, make_sign_in_link-take_sign_in_link,
}

-- ABCDEFGH
abbrev code : Text
code = span 65 8

-- "abcd efgh"
abbrev typed : Text
typed = span 97 4 ++ 32 ∷ span 101 4

-- "wrong"
abbrev guess : Text
guess = 119 ∷ 114 ∷ 111 ∷ 110 ∷ 103 ∷ []

-- Sixteen letters.
abbrev token : Text
token = span 97 16

abbrev node : AccessToken
node = record { token = some token; pairing = fresh code }

code-IsCode : IsCode code
code-IsCode = (refl, (refl, (refl, (refl, (refl, (refl, (refl, (refl, tt))))))))

typed-Typed : Typed typed code
typed-Typed = lower 65 refl (
    lower 66 refl (
      lower 67 refl (
        lower 68 refl
          (other 32 refl (lower 69 refl (lower 70 refl (lower 71 refl (lower 72 refl ended))))))))

normalize_pairing_code-format_pairing_code_example :
    (normalize_pairing_code (format_pairing_code code) ≡ code)
    × (normalize_pairing_code typed ≡ code)
normalize_pairing_code-format_pairing_code_example =
    normalize_pairing_code-format_pairing_code code typed code-IsCode typed-Typed

attempt_all-replies_example :
    ((attempt_all (guess ∷ []) (fresh code)).1 ≡ wrong ∷ [])
    × ((attempt typed (attempt_all (guess ∷ []) (fresh code)).0).1 ≡ right)
unfolding normalize_pairing_code
attempt_all-replies_example =
    attempt_all-replies code typed (guess ∷ []) refl code-IsCode ((λ e. absurd (not_code e)), tt)
      normalize_pairing_code-format_pairing_code_example.1
  where
    not_code : normalize_pairing_code guess ≡ code → ⊥
    not_code e = absurd (omega (arith, ap length e))

post_pair-IsEarned_example : IsEarned typed token node (post_pair typed token true none node)
post_pair-IsEarned_example = post_pair-IsEarned typed token true none node code-IsCode

random_string-IsDrawn_example :
    IsDrawn pairing_alphabet 2 (random_string pairing_alphabet 2 (255 ∷ 0 ∷ 32 ∷ []))
random_string-IsDrawn_example =
    random_string-IsDrawn pairing_alphabet 2 (255 ∷ 0 ∷ 32 ∷ []) (omega arith) (omega arith)

pick-fair_example : count_below 256 (picks 31 3) ≡ 8
pick-fair_example = pick-fair 31 3 (omega arith)

-- "/ws"
abbrev path : Text
path = 47 ∷ 119 ∷ 115 ∷ []

-- "c"
abbrev name : Text
name = 99 ∷ []

require-carried_example :
    (presented name (by_header token []) ≡ some token)
    × (presented name (by_cookie name token []) ≡ some token)
    × (require name path (by_header token []) node ≡ passed)
    × (require name path (by_cookie name token []) node ≡ passed)
unfolding validate
require-carried_example =
    require-carried token token name path [] node refl refl ((refl, refl, refl), tt)

abbrev steps : List LinkStep
steps = makes 60 (1 ∷ []) 100 ∷ opens (1 ∷ []) 130 ∷ opens (1 ∷ []) 131 ∷ []

used-made_example : used (1 ∷ []) steps [] ≤ made (1 ∷ []) steps + 0
used-made_example = used-made (1 ∷ []) steps []

make_sign_in_link-take_sign_in_link_example :
    let kept = make_sign_in_link 60 (1 ∷ []) 100 [] in
    (length kept ≤ 8)
    × ((take_sign_in_link (1 ∷ []) 159 kept).1 ≡ true)
    × ((take_sign_in_link (1 ∷ []) 159 (take_sign_in_link (1 ∷ []) 159 kept).0).1 ≡ false)
make_sign_in_link-take_sign_in_link_example =
    make_sign_in_link-take_sign_in_link 60 (1 ∷ []) 100 159 159 [] refl

-- The link signs in once.
used_once : used (1 ∷ []) steps [] ≡ 1
unfolding make_sign_in_link take_sign_in_link capture_room.Auth.Links.current constant_time_eq
used_once = refl
