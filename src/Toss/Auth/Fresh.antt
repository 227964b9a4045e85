-- ===== src/Toss/Auth/Fresh.antt =====
-- A token that is handed out is either well before its expiry or new, and an invalidated one is
-- never handed out again.
use toss_api_quant_trading.Toss.Errors.{TossError, from_response}
use toss_api_quant_trading.Prelude.{
  String, ◌≡◌, some, refl, ◌⊎◌, ◌+◌, Option, Option-cases, inr, inl, Bool-cases, str_eq, leb, none,
  arith, ℕ, ◌<◌, ◌≤◌, true, false, ap, eq_iff,
}
use toss_api_quant_trading.Decimal.{Decimal, nat, is_zero, ◌<ᵈ◌, ◌≤ᵈ◌, ◌⊖◌, ◌⊕◌, lt}
use toss_api_quant_trading.Toss.Auth.{
  token, invalidate, TokenReply, TokenManager, issued, issue, not_issued, Issued,
  bare_transport_error, usable, cached, keep, replied, lifetime, unreachable,
}

-- The call handed out the cached token, which had more than the margin to live.
abbrev pub Reused : Decimal → TokenManager → Issued → Type 0
Reused now m out =
    (t : String) × (out ≡ issued t m) × (m.token ≡ some t) × (now <ᵈ m.expires_at ⊖ m.margin)

-- The seconds that a token lives for the lifetime in the reply: an hour where it is missing or zero.
pub data Lives : Option Decimal → Decimal → Type 0 where
  by_default : Lives none (nat 3600)
  by_zero : (x : Decimal) → is_zero x ≡ true → Lives (some x) (nat 3600)
  as_said : (x : Decimal) → is_zero x ≡ false → Lives (some x) x

-- The call handed out the token of the reply, which is no error and whose token is not empty, with
-- its count and its expiry.
abbrev pub Renewed : TokenReply → Decimal → TokenManager → Issued → Type 0
Renewed r later m out =
    (status : ℕ) × (code : Option String) × (t : String) × (life : Option Decimal)
    × (secs : Decimal) × (m' : TokenManager) × (r ≡ replied status code (some t) life)
    × (status < 400)
    × (str_eq t "" ≡ false)
    × Lives life secs
    × (out ≡ issued t m')
    × (m'.token ≡ some t)
    × (m'.expires_at ≡ later ⊕ secs)
    × (m'.issued_count ≡ m.issued_count + 1)

-- A reply that brings no token: none at all, an error, or a payload without a token.
abbrev pub BringsNone : TokenReply → Type 0
BringsNone unreachable = Unit
BringsNone (replied status code access life) = (400 ≤ status) ⊎ (access ≡ none) ⊎ (access ≡ some "")

-- The call raised for a reply that brings no token, and changed nothing.
abbrev pub Failed : TokenReply → TokenManager → Issued → Type 0
Failed r m out = BringsNone r × ((e : TossError) × (out ≡ not_issued e m))

-- No token is at hand that has more than the margin to live.
abbrev pub Stale : Decimal → TokenManager → Type 0
Stale now m = (m.token ≡ none) ⊎ (m.token ≡ some "") ⊎ (m.expires_at ⊖ m.margin ≤ᵈ now)

lifetime-Lives : (life : Option Decimal) → Lives life (lifetime life)
lifetime-Lives none = by_default
lifetime-Lives (some x) = elim (Bool-cases (is_zero x)) [
  | inl e ↦ rw e (by_zero x e)
  | inr e ↦ rw e (as_said x e)
]

module _ (status : ℕ) (code : Option String) (life : Option Decimal) where
  keep-cases :
      (access : Option String) (later : Decimal) (m : TokenManager)
      → status < 400
      → let r = replied status code access life in
        let out = keep (usable access) life later m in Renewed r later m out ⊎ Failed r m out
  keep-cases none later m h = inr (inr (inl refl), (bare_transport_error, refl))
  keep-cases (some t) later m h = elim (Bool-cases (str_eq t "")) [
    | inl e ↦ rw e (inr (inr (inr (ap some ((eq_iff t "").0 e))), (bare_transport_error, refl)))
    | inr e ↦ rw e (
        inl (
          status,
          code,
          t,
          life,
          lifetime life,
          _,
          refl,
          h,
          e,
          lifetime-Lives life,
          refl,
          refl,
          refl,
          refl,
        ))
  ]

issue-cases :
    (r : TokenReply) (later : Decimal) (m : TokenManager)
    → Renewed r later m (issue r later m) ⊎ Failed r m (issue r later m)
unfolding issue
issue-cases unreachable later m = inr (tt, (bare_transport_error, refl))
issue-cases (replied status code access life) later m = elim (Bool-cases (leb 400 status)) [
  | inl e ↦ inr (inl (ground arith), (from_response status code none, rw e refl))
  | inr e ↦ rw e (keep-cases status code life access later m (ground arith))
]

usable-some : (o : Option String) (t : String) → usable o ≡ some t → o ≡ some t
usable-some none t e = absurd (cc)
usable-some (some u) t e = elim (Bool-cases (str_eq u "")) [
  | inl q ↦ let f = rw q at e in absurd (cc)
  | inr q ↦ rw q at e
]

cached-none :
    (o : Option String) (now : Decimal) (m : TokenManager)
    → cached (usable o) now m ≡ none
    → (o ≡ none) ⊎ (o ≡ some "") ⊎ (m.expires_at ⊖ m.margin ≤ᵈ now)
cached-none none now m e = inl refl
cached-none (some t) now m e = elim (Bool-cases (str_eq t "")) [
  | inl q ↦ inr (inl (ap some ((eq_iff t "").0 q)))
  | inr q ↦ elim (Bool-cases (lt now (m.expires_at ⊖ m.margin))) [
    | inl k ↦ let f : some t ≡ none = rw (q, k) at e in absurd (cc)
    | inr k ↦ inr (inr (ground arith))
  ]
]

cached-some :
    (o : Option String) (t : String) (now : Decimal) (m : TokenManager)
    → cached o now m ≡ some t
    → (o ≡ some t) × (now <ᵈ m.expires_at ⊖ m.margin)
cached-some none t now m e = absurd (cc)
cached-some (some u) t now m e = elim (Bool-cases (lt now (m.expires_at ⊖ m.margin))) [
  | inl q ↦ (rw q at e, ground arith)
  | inr q ↦ let f = rw q at e in absurd (cc)
]

-- Every call of `token` ends in one of three ways. It hands out the cached token, which had more
-- than the margin to live, and changes nothing. Or there is no such token, and it hands out the one
-- of the reply, which is no error, keeps it until the lifetime of the reply is over and counts it.
-- Or there is no such token, the reply brings none either, and it raises and changes nothing.
pub token-cases :
    (now later : Decimal) (r : TokenReply) (m : TokenManager)
    → let out = token now r later m in
      Reused now m out ⊎ (Stale now m × (Renewed r later m out ⊎ Failed r m out))
unfolding token
token-cases now later r m = elim (Option-cases (cached (usable m.token) now m)) [
  | inl e ↦ rw e (inr (cached-none m.token now m e, issue-cases r later m))
  | inr (t, e) ↦
      let (u, fresh) = cached-some (usable m.token) t now m e in
      rw e (inl (t, refl, usable-some m.token t u, fresh))
]

-- After `invalidate` no token is handed out without a request, whatever the clock says.
pub token-invalidate :
    (now later : Decimal) (r : TokenReply) (m : TokenManager)
    → (Renewed r later (invalidate m) (token now r later (invalidate m)))
      ⊎ Failed r (invalidate m) (token now r later (invalidate m))
unfolding token invalidate
token-invalidate now later r m = issue-cases r later (invalidate m)
