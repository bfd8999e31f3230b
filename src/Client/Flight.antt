-- ===== src/Client/Flight.antt =====
-- The calls that a component has in flight, where its button is disabled while it waits for an answer.
use drop_the_mic.Base.{
  ◌≡◌, refl, sym, ◌∙◌, ◌≤◌, length, length-append, arith, Bool, true, false, Option, none, some,
  List, [], ◌∷◌, ◌++◌, ◌⊎◌, inl, inr,
}
use drop_the_mic.Client.Endpoints.{Endpoint}

abbrev pub add_call : Option Endpoint → List Endpoint → List Endpoint
add_call none calls = calls
add_call (some call) calls = calls ++ call ∷ []

-- Whether a click sent a call.
abbrev pub is_sent : Option Endpoint → Bool
is_sent none = false
is_sent (some call) = true

-- No call is in flight and the component does not wait, or exactly one is and it does.
abbrev pub IsSingle : (waiting : Bool) → List Endpoint → Type 0
IsSingle waiting calls =
    ((calls ≡ []) × (waiting ≡ false))
    ⊎ ((call : Endpoint) × (calls ≡ call ∷ []) × (waiting ≡ true))

pub IsSingle-start :
    (sent : Option Endpoint) (calls : List Endpoint)
    → IsSingle false calls
    → IsSingle (is_sent sent) (add_call sent calls)
IsSingle-start none calls h = h
IsSingle-start (some call) calls (inl (e, p)) = rw e (inr (call, refl, refl))
IsSingle-start (some call) calls (inr (one, e, p)) = cc

rest_nil :
    (before : List Endpoint) (call : Endpoint) (after : List Endpoint) (only : Endpoint)
    → before ++ call ∷ after ≡ only ∷ []
    → before ++ after ≡ []
rest_nil [] call [] only e = refl
rest_nil [] call (x ∷ after) only e = cc
rest_nil (b ∷ []) call after only e = cc
rest_nil (b ∷ c ∷ before) call after only e = cc

not_answered :
    (before : List Endpoint) (call : Endpoint) (after : List Endpoint)
    → before ++ call ∷ after ≡ []
    → before ++ after ≡ []
not_answered [] call after e = cc
not_answered (b ∷ before) call after e = cc

-- A call that is answered is the only one.
pub IsSingle-answer :
    (waiting : Bool) (before : List Endpoint) (call : Endpoint) (after calls : List Endpoint)
    → calls ≡ before ++ call ∷ after
    → IsSingle waiting calls
    → IsSingle false (before ++ after)
IsSingle-answer waiting before call after calls e (inl (nil, p)) =
    inl (not_answered before call after (sym e ∙ nil), refl)
IsSingle-answer waiting before call after calls e (inr (only, one, p)) =
    inl (rest_nil before call after only (sym e ∙ one), refl)

pub length-IsSingle :
    (waiting : Bool) (calls : List Endpoint) → IsSingle waiting calls → length calls ≤ 1
length-IsSingle waiting calls (inl (e, p)) = rw e (omega arith)
length-IsSingle waiting calls (inr (only, e, p)) = rw e (omega arith)

pub length-answer :
    (before : List Endpoint) (call : Endpoint) (after calls : List Endpoint)
    → calls ≡ before ++ call ∷ after
    → length (before ++ after) ≤ length calls
length-answer before call after calls e =
    rw e (omega (arith, length-append before after, length-append before (call ∷ after)))
