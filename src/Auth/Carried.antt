-- ===== src/Auth/Carried.antt =====
-- A token that is accepted to be stored gets through every way of carrying it, and only the token does.
use capture_room.Prelude.{
  ℕ, ◌≡◌, refl, ◌↔◌, ap, subst, inl, inr, Bool, true, false, not, ◌&&◌, Option, none, some, List,
  [], ◌∷◌, ◌++◌, ◌==◌, ==_iff, if◌then◌else◌, All, All-append, All-mono, arith, Bool-cases,
  and_true,
}
use capture_room.Auth.Utf8.{
  Text, trim, trim_start, trim_end, before_white, is_white, len, all, split, split_once, same,
  as_bytes,
}
use capture_room.Auth.{AccessToken, accepts, accepts_with, is_empty}
use capture_room.Auth.Compare.{constant_time_eq_iff}
use capture_room.Auth.Requests.{
  valid, invalid, no_token, bad_length, bad_characters, validate, is_token_char, is_token_len,
  Headers, presented, bearer_prefix, cookie_pair, pairs_of, find_value, require, guarded, passed,
  unauthorized,
}

-- Neither white space nor a separator.
abbrev pub IsPlain : Text → Type 0
IsPlain t = All (λ (c : ℕ). (is_white c ≡ false) × ((c == 59) ≡ false) × ((c == 61) ≡ false)) t

plain_char :
    (c : ℕ)
    → is_token_char c ≡ true
    → (is_white c ≡ false) × ((c == 59) ≡ false) × ((c == 61) ≡ false)
plain_char c e = ground arith

all-IsPlain : (t : Text) → all is_token_char t ≡ true → IsPlain t
all-IsPlain [] e = tt
all-IsPlain (c ∷ t) e =
    let p = and_true (is_token_char c) (all is_token_char t) e in
    (plain_char c p.0, all-IsPlain t p.1)

-- Neither white space nor a semicolon.
abbrev pub IsWhole : Text → Type 0
IsWhole t = All (λ (c : ℕ). (is_white c ≡ false) × ((c == 59) ≡ false)) t

IsPlain-IsWhole : (t : Text) → IsPlain t → IsWhole t
IsPlain-IsWhole t h = All-mono (λ c k. (k.0, k.1)) t h

trim_end-IsWhole : (t : Text) → IsWhole t → trim_end t ≡ t
trim_end-IsWhole [] h = refl
trim_end-IsWhole (c ∷ t) h = rw (trim_end-IsWhole t h.1) (by_rest t)
  where
    by_rest : (t : Text) → before_white c t ≡ c ∷ t
    by_rest [] = rw (h.0.0) refl
    by_rest (d ∷ t) = refl

trim_start-IsWhole : (t : Text) → IsWhole t → trim_start t ≡ t
trim_start-IsWhole [] h = refl
trim_start-IsWhole (c ∷ t) h = rw (h.0.0) refl

trim-IsWhole : (t : Text) → IsWhole t → trim t ≡ t
trim-IsWhole t h = rw (trim_start-IsWhole t h) (trim_end-IsWhole t h)

split-IsWhole : (t : Text) → IsWhole t → split 59 t ≡ t ∷ []
split-IsWhole [] h = refl
split-IsWhole (c ∷ t) h = rw (h.0.1, split-IsWhole t h.1) refl

split_once-IsPlain :
    (name token : Text) → IsPlain name → split_once 61 (cookie_pair name token) ≡ some (name, token)
split_once-IsPlain [] token h = refl
split_once-IsPlain (c ∷ name) token h = rw (h.0.2, split_once-IsPlain name token h.1) refl

same_self : (t : Text) → same t t ≡ true
same_self [] = refl
same_self (c ∷ t) = rw ((==_iff c c).1 refl, same_self t) refl

find_value-cookie_pair :
    (name token : Text) (pairs : List Text)
    → IsPlain name
    → IsPlain token
    → find_value name (cookie_pair name token ∷ pairs) ≡ some token
find_value-cookie_pair name token pairs h k =
    rw
      (
        trim-IsWhole (cookie_pair name token) (
            All-append _ name (61 ∷ token) (IsPlain-IsWhole name h)
              ((refl, refl), IsPlain-IsWhole token k)),
        split_once-IsPlain name token h,
        same_self name,
      )
      refl

-- What validate accepts is the trimmed token, of 16 to 128 bytes, all of them token characters.
pub validate-valid :
    (token t : Text)
    → validate token ≡ valid t
    → (trim token ≡ t) × (is_token_len (len t) ≡ true) × (all is_token_char t ≡ true)
unfolding validate
validate-valid token t e = by_tests _ _ _ refl refl refl e
  where
    by_tests :
        (a b c : Bool)
        → is_empty (trim token) ≡ a
        → is_token_len (len (trim token)) ≡ b
        → all is_token_char (trim token) ≡ c
        → (if a
            then invalid no_token
            else if not b
            then invalid bad_length
            else if not c
            then invalid bad_characters
            else valid (trim token))
          ≡ valid t
        → (trim token ≡ t) × (is_token_len (len t) ≡ true) × (all is_token_char t ≡ true)
    by_tests true b c ea eb ec e = absurd (cc)
    by_tests false false c ea eb ec e = absurd (cc)
    by_tests false true false ea eb ec e = absurd (cc)
    by_tests false true true ea eb ec e =
        let k = inner e in
        (
          k,
          subst (λ t. is_token_len (len t) ≡ true) k eb,
          subst (λ t. all is_token_char t ≡ true) k ec,
        )
      where
        inner : valid (trim token) ≡ valid t → trim token ≡ t
        inner e = cc

-- The request carries the node's token, byte for byte.
abbrev pub Carries : Option Text → Option Text → Type 0
Carries none token = ⊥
Carries (some p) none = ⊥
Carries (some p) (some u) = as_bytes p ≡ as_bytes u

accepts-Carries : (o : Option Text) (a : AccessToken) → (accepts o a ≡ true) ↔ Carries o a.token
unfolding accepts
accepts-Carries o a = by_token a.token o
  where
    by_token : (u o : Option Text) → (accepts_with u o ≡ true) ↔ Carries o u
    by_token none none = (λ e. cc, λ h. absurd h)
    by_token none (some p) = (λ e. cc, λ h. absurd h)
    by_token (some u) none = (λ e. cc, λ h. absurd h)
    by_token (some u) (some p) = constant_time_eq_iff (as_bytes p) (as_bytes u)

gate :
    (g b : Bool) → g ≡ true → ((if g && not b then unauthorized else passed) ≡ passed) ↔ (b ≡ true)
gate true true e = (λ h. refl, λ h. refl)
gate true false e = (λ h. cc, λ h. cc)
gate false b e = absurd (cc)

-- A request to a guarded path passes exactly if what it presents, by its bearer header or else by its
-- cookie, is the node's token byte for byte.
pub require_iff :
    (name path : Text) (h : Headers) (a : AccessToken)
    → guarded path ≡ true
    → (require name path h a ≡ passed) ↔ Carries (presented name h) a.token
unfolding require
require_iff name path h a g =
    let k = gate (guarded path) (accepts (presented name h) a) g in
    let c = accepts-Carries (presented name h) a in (λ e. c.0 (k.0 e), λ e. k.1 (c.1 e))

require-Carries :
    (name path : Text) (h : Headers) (a : AccessToken)
    → Carries (presented name h) a.token
    → require name path h a ≡ passed
unfolding require
require-Carries name path h a c =
    rw ((accepts-Carries (presented name h) a).1 c)
      (elim (Bool-cases (guarded path)) [ inl e ↦ rw e refl | inr e ↦ rw e refl ])

abbrev pub by_header : Text → List Text → Headers
by_header t cookies = record { authorization = some (bearer_prefix ++ t); cookies = cookies }

abbrev pub by_cookie : Text → Text → List Text → Headers
by_cookie name t cookies = record { authorization = none; cookies = cookie_pair name t ∷ cookies }

presented-by_header :
    (name t : Text) (cookies : List Text)
    → IsPlain t
    → presented name (by_header t cookies) ≡ some t
unfolding presented
presented-by_header name t cookies h = ap some (trim-IsWhole t (IsPlain-IsWhole t h))

presented-by_cookie :
    (name t : Text) (cookies : List Text)
    → IsPlain name
    → IsPlain t
    → presented name (by_cookie name t cookies) ≡ some t
unfolding presented
presented-by_cookie name t cookies h k =
    rw
      (split-IsWhole (cookie_pair name t)
        (All-append _ name (61 ∷ t) (IsPlain-IsWhole name h) ((refl, refl), IsPlain-IsWhole t k)))
      (find_value-cookie_pair name t (pairs_of cookies) h k)

-- A token that validate lets a node store is carried unchanged by a bearer header, and by a cookie that is the
-- first in the first cookie header of a request without a bearer header, if its name has no white
-- space, semicolon or equals sign; and on a node whose token it is, either request passes on every path.
pub require-carried :
    (token t name path : Text) (cookies : List Text) (a : AccessToken)
    → validate token ≡ valid t
    → a.token ≡ some t
    → IsPlain name
    → (presented name (by_header t cookies) ≡ some t)
      × (presented name (by_cookie name t cookies) ≡ some t)
      × (require name path (by_header t cookies) a ≡ passed)
      × (require name path (by_cookie name t cookies) a ≡ passed)
require-carried token t name path cookies a e k h =
    let plain = all-IsPlain t (validate-valid token t e).2 in
    let header = presented-by_header name t cookies plain in
    let cookie = presented-by_cookie name t cookies h plain in
    (
      header,
      cookie,
      require-Carries name path (by_header t cookies) a (rw (header, k) refl),
      require-Carries name path (by_cookie name t cookies) a (rw (cookie, k) refl),
    )
