-- ===== src/App/Guard.antt =====
-- What the guard of ui/src/App.tsx lets through.
use drop_the_mic.Base.{
  ◌≡◌, ◌≢◌, ◌↔◌, ◌⊎◌, inl, inr, refl, Bool, true, false, Option, none, some, eqb, eqb_iff, sym, ◌∙◌,
  arith, Bool-cases,
}
use drop_the_mic.Client.{Browser, Response, Server, is_authenticated}
use drop_the_mic.App.{initial, check_call, turned_away, checked, effect, shows_pages}

-- The server accepts the stored token: it answers the check, and not with 401.
abbrev pub IsAccepted : Server → Browser → Type 0
IsAccepted server b =
    (b.token ≢ none)
    × ((resp : Response) × (server (check_call b) ≡ some resp) × (resp.status ≢ 401))

-- The answer to the check rejects the stored token.
abbrev pub IsRejected : Server → Browser → Type 0
IsRejected server b =
    (b.token ≢ none)
    × ((resp : Response) × (server (check_call b) ≡ some resp) × (resp.status ≡ 401))

false_is_not_true : ◌≡◌ {A = Bool} false true → ⊥
false_is_not_true e = cc

none_is_not_some : {r : Response} → ◌≡◌ {A = Option Response} none (some r) → ⊥
none_is_not_some e = cc

checked_pages_iff :
    (b : Browser) (reply : Option Response)
    → (shows_pages (checked b initial reply).state ≡ true)
      ↔ ((resp : Response) × (reply ≡ some resp) × (resp.status ≢ 401))
unfolding shows_pages checked
checked_pages_iff b none = (λ e. cc, λ k. absurd (none_is_not_some k.1))
checked_pages_iff b (some resp) =
    (λ e. (resp, refl, ground arith), λ k. let (resp', q, ne) = k in ground arith)

checked_sent_away :
    (b : Browser) (reply : Option Response)
    → shows_pages (checked b initial reply).state ≡ false
    → (checked b initial reply).navigate ≡ some "/login"
unfolding shows_pages checked
checked_sent_away b none h = refl
checked_sent_away b (some resp) h = ground arith

checked_stays :
    (b : Browser) (reply : Option Response)
    → shows_pages (checked b initial reply).state ≡ true
    → (checked b initial reply).navigate ≡ none
unfolding shows_pages checked
checked_stays b none h = cc
checked_stays b (some resp) h = ground arith

checked_token :
    (b : Browser) (reply : Option Response)
    → ((checked b initial reply).browser.token ≡ b.token)
      ⊎ (((checked b initial reply).browser.token ≡ none)
          × ((resp : Response) × (reply ≡ some resp) × (resp.status ≡ 401)))
unfolding checked
checked_token b none = inl refl
checked_token b (some resp) = elim (Bool-cases (eqb resp.status 401)) [
  | inl e ↦ inr (rw e, (resp, refl, (eqb_iff _ _).0 e))
  | inr e ↦ inl (rw e)
]

away_facts :
    (b : Browser)
    → (shows_pages (turned_away b initial).state ≡ false)
      × ((turned_away b initial).navigate ≡ some "/login")
      × ((turned_away b initial).browser.token ≡ b.token)
unfolding turned_away shows_pages
away_facts b = (refl, refl, refl)

module _ (server : Server) (b : Browser) where
  has_token_iff : (is_authenticated b ≡ true) ↔ (b.token ≢ none)
  unfolding is_authenticated
  has_token_iff = ground arith

  effect_known :
      is_authenticated b ≡ true
      → effect server b initial ≡ checked b initial (server (check_call b))
  unfolding effect
  effect_known e = rw e

  effect_unknown : is_authenticated b ≡ false → effect server b initial ≡ turned_away b initial
  unfolding effect
  effect_unknown e = rw e

  -- After the first check the pages are shown exactly if there is a token and the server, asked
  -- with it, answers with anything but 401. Otherwise the router is sent to the login page.
  pub effect_pages :
      ((shows_pages (effect server b initial).state ≡ true) ↔ IsAccepted server b)
      × (shows_pages (effect server b initial).state ≡ false
          → (effect server b initial).navigate ≡ some "/login")
  effect_pages = elim (Bool-cases (is_authenticated b)) [
    | inl e ↦ rw (effect_known e) (
      (
        λ s. (has_token_iff.0 e, (checked_pages_iff b (server (check_call b))).0 s),
        λ k. (checked_pages_iff b (server (check_call b))).1 k.1,
      ),
      checked_sent_away b (server (check_call b)),
    )
    | inr e ↦ rw (effect_unknown e) (
      (
        λ s. absurd (false_is_not_true (sym (away_facts b).0 ∙ s)),
        λ k. absurd (false_is_not_true (sym e ∙ has_token_iff.1 k.0)),
      ),
      λ s. (away_facts b).1,
    )
  ]

  -- Where the pages are shown, the router is not sent anywhere.
  pub effect_stays :
      shows_pages (effect server b initial).state ≡ true → (effect server b initial).navigate ≡ none
  effect_stays = elim (Bool-cases (is_authenticated b)) [
    | inl e ↦ rw (effect_known e) (checked_stays b (server (check_call b)))
    | inr e ↦ rw (effect_unknown e) (λ s. absurd (false_is_not_true (sym (away_facts b).0 ∙ s)))
  ]

  -- The check leaves the token as it is, or removes it because the server answered 401 to it.
  pub effect_token :
      ((effect server b initial).browser.token ≡ b.token)
      ⊎ (((effect server b initial).browser.token ≡ none) × IsRejected server b)
  effect_token = elim (Bool-cases (is_authenticated b)) [
    | inl e ↦ rw (effect_known e) (elim (checked_token b (server (check_call b))) [
      | inl k ↦ inl k
      | inr (t, r) ↦ inr (t, (has_token_iff.0 e, r))
    ])
    | inr e ↦ rw (effect_unknown e) (inl (away_facts b).2)
  ]
