-- ===== src/Auth/Pairs.antt =====
-- Pairing changes a node's token only for a controller that has the code.
use capture_room.Prelude.{
  ◌+◌, ◌<◌, ◌≡◌, refl, ◌⊎◌, inl, inr, Bool, true, false, ◌||◌, Option, none, some, leb,
  if◌then◌else◌, arith, Bool-cases,
}
use capture_room.Auth.Utf8.{Text}
use capture_room.Auth.{
  AccessToken, Pairing, Attempt, right, wrong, exhausted, is_empty, attempt, count_failure,
  pairing_attempts, normalize_pairing_code,
}
use capture_room.Auth.Codes.{IsCode}
use capture_room.Auth.Tries.{is_code, is_code-≡}
use capture_room.Auth.Requests.{
  Validated, valid, invalid, validate, post_pair, pair_with, store_pair, renew_pairing_code, Paired,
  paired,
}

count_failure-right : (p : Pairing) → (count_failure p).1 ≡ right → ⊥
count_failure-right p e = elim (Bool-cases (leb pairing_attempts (p.failures + 1))) [
  | inl k ↦ on true k e
  | inr k ↦ on false k e
]
  where
    on :
        (b : Bool)
        → leb pairing_attempts (p.failures + 1) ≡ b
        → (if leb pairing_attempts (p.failures + 1) then exhausted else wrong) ≡ right
        → ⊥
    on true k = rw k (λ e. absurd (cc))
    on false k = rw k (λ e. absurd (cc))

abbrev pub HasCode : Text → Pairing → Type 0
HasCode presented p = (p.failures < 5) × (normalize_pairing_code presented ≡ p.code)

attempt-right_only :
    (presented : Text) (p : Pairing)
    → IsCode p.code
    → (attempt presented p).1 ≡ right
    → HasCode presented p
unfolding attempt
attempt-right_only presented p h =
    by_tests (is_empty p.code || leb pairing_attempts p.failures) (is_code presented p.code) refl
      refl
  where
    used_up : (e b : Bool) → (e || b) ≡ false → b ≡ false
    used_up true b k = absurd (cc)
    used_up false b k = k

    few : leb pairing_attempts p.failures ≡ false → p.failures < 5
    few k = ground arith

    by_tests :
        (a b : Bool)
        → (is_empty p.code || leb pairing_attempts p.failures) ≡ a
        → is_code presented p.code ≡ b
        → (if a then (p, wrong) else if b then (p, right) else count_failure p).1 ≡ right
        → HasCode presented p
    by_tests true b k l e = absurd (cc)
    by_tests false true k l e = (
      few (used_up (is_empty p.code) (leb pairing_attempts p.failures) k),
      is_code-≡ presented p.code h l,
    )
    by_tests false false k l e = absurd (count_failure-right p e)

-- The node's token is what it was, or its code was presented in time and the token is now the valid one that came
-- with it.
abbrev pub IsEarned : Text → Text → AccessToken → AccessToken × Paired → Type 0
IsEarned presented token a r =
    (r.0.token ≡ a.token)
    ⊎ (HasCode presented a.pairing
        × ((t : Text) × (validate token ≡ valid t) × (r.0.token ≡ some t) × (r.1 ≡ paired)))

renewed-token : (code : Option Text) (a : AccessToken) → (renew_pairing_code code a).token ≡ a.token
renewed-token none a = refl
renewed-token (some code) a = refl

-- A request to pair leaves the node's token as it is, unless it presents the node's code, a code of capitals and
-- digits, when fewer than five wrong ones were presented since it was made; and then the token is the
-- valid one that came with the request.
pub post_pair-IsEarned :
    (presented token : Text) (stored : Bool) (code : Option Text) (a : AccessToken)
    → IsCode a.pairing.code
    → IsEarned presented token a (post_pair presented token stored code a)
unfolding post_pair
post_pair-IsEarned presented token stored code a h = by_attempt (attempt presented a.pairing).1 refl
  where
    tried : AccessToken
    tried = record a { pairing = (attempt presented a.pairing).0 }

    by_token :
        HasCode presented a.pairing
        → (v : Validated) (b : Bool) → validate token ≡ v
        → IsEarned presented token a (store_pair v b code tried)
    by_token k (invalid e) b g = inl refl
    by_token k (valid t) false g = inl refl
    by_token k (valid t) true g = inr (k, (t, g, renewed-token code _, refl))

    by_attempt :
        (r : Attempt)
        → (attempt presented a.pairing).1 ≡ r
        → IsEarned presented token a (pair_with r token stored code tried)
    by_attempt right e =
        by_token (attempt-right_only presented a.pairing h e) (validate token) stored refl
    by_attempt wrong e = inl refl
    by_attempt exhausted e = inl (renewed-token code tried)
