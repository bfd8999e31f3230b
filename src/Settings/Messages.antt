-- ===== src/Settings/Messages.antt =====
-- How long the message of the settings page stays.
use mathlib.Core.Option.{Option, none, some}
use mathlib.Core.List.{Memᴰ}
use mathlib.Core.List.Memᴰ
use drop_the_mic.Base.{
  ℕ, ◌+◌, ◌≤◌, ◌<◌, ◌≡◌, refl, String, Bool, true, false, not, List, [], ◌∷◌, ◌++◌, all,
  if◌then◌else◌, leb, leb→le, arith, Bool-cases, ◌⊎◌, inl, inr, Memᴰ-filter,
}
use drop_the_mic.Api.{Json, Members}
use drop_the_mic.Client.{Result, ok, err}
use drop_the_mic.Toast.{ToastType}
use drop_the_mic.Settings.{
  Mode, form, json, State, initial, seed, set_general, set_notif, set_mode, set_json_text,
  show_message, fire_timers, save_form, save_parsed, save_json, save_as, save, settled,
}

-- Not yet due at the time `now`.
abbrev is_ahead : ℕ → ℕ → Bool
is_ahead now d = not (leb d now)

all-is_ahead : (now d : ℕ) (l : List ℕ) → Memᴰ d l → d ≤ now → all (is_ahead now) l ≡ false
all-is_ahead now d [] m h = elim m [ ]
all-is_ahead now d (e ∷ l) (Memᴰ.head q) h = ground arith
all-is_ahead now d (e ∷ l) (Memᴰ.tail m) h = ground (arith, all-is_ahead now d l m h)

fired : (now d : ℕ) (st : State) → Memᴰ d st.timers → d ≤ now → (fire_timers now st).message ≡ none
unfolding fire_timers
fired now d st m h = rw (all-is_ahead now d st.timers m h)

-- A timer that is not due is kept.
kept : (now d : ℕ) (st : State) → Memᴰ d st.timers → now < d → Memᴰ d (fire_timers now st).timers
unfolding fire_timers
kept now d st m h = elim (Bool-cases (all (is_ahead now) st.timers)) [
  | inl e ↦ rw e m
  | inr e ↦ rw e ((Memᴰ-filter (is_ahead now) st.timers).1 (m, ahead))
]
  where
    ahead : is_ahead now d ≡ true
    ahead = ground arith

-- The message is gone, or one of the timers clears it within four seconds.
abbrev IsCovered : ℕ → State → Type 0
IsCovered now st = (st.message ≡ none) ⊎ ((d : ℕ) × Memᴰ d st.timers × (d ≤ now + 4000))

-- What happens on the page; `waits` is time that passes.
pub data Event : Type 0 where
  loads : Members → Event
  edits_general : String → Json → Event
  edits_service : String → String → Json → Event
  chooses : Mode → Event
  types : String → Event
  saves : Event
  answers : Result → Event
  waits : ℕ → Event

mem_last : (d : ℕ) (l : List ℕ) → Memᴰ d (l ++ d ∷ [])
mem_last d [] = Memᴰ.head refl
mem_last d (e ∷ l) = Memᴰ.tail (mem_last d l)

IsCovered-show_message :
    (now : ℕ) (kind : ToastType) (text : String) (st : State)
    → IsCovered now (show_message now kind text st)
unfolding show_message
IsCovered-show_message now kind text st =
    inr (now + 4000, mem_last (now + 4000) st.timers, omega arith)

still_none : (now : ℕ) (st : State) → st.message ≡ none → (fire_timers now st).message ≡ none
unfolding fire_timers
still_none now st e = elim (Bool-cases (all (is_ahead now) st.timers)) [
  | inl a ↦ rw a e
  | inr a ↦ rw a refl
]

-- After four seconds in which nothing happens, a message is gone.
gone : (now : ℕ) (st : State) → IsCovered now st → (fire_timers (now + 4000) st).message ≡ none
gone now st (inl e) = still_none (now + 4000) st e
gone now st (inr (d, m, h)) = fired (now + 4000) d st m h

IsCovered-fire_timers :
    (now k : ℕ) (st : State) → IsCovered now st → IsCovered (now + k) (fire_timers (now + k) st)
IsCovered-fire_timers now k st (inl e) = inl (still_none (now + k) st e)
IsCovered-fire_timers now k st (inr (d, m, h)) = elim (Bool-cases (leb d (now + k))) [
  | inl e ↦ inl (fired (now + k) d st m (leb→le d (now + k) e))
  | inr e ↦ inr (d, kept (now + k) d st m (ahead e), omega arith)
]
  where
    ahead : leb d (now + k) ≡ false → now + k < d
    ahead e = ground arith

module _ (stringify : Members → String) (parse_json : String → Option Json) where
  unfoldable pub handle : ℕ × State → Event → ℕ × State
  handle (now, st) (loads settings) = (now, seed stringify settings st)
  handle (now, st) (edits_general key value) = (now, set_general key value st)
  handle (now, st) (edits_service service key value) = (now, set_notif service key value st)
  handle (now, st) (chooses mode) = (now, set_mode mode st)
  handle (now, st) (types text) = (now, set_json_text text st)
  handle (now, st) saves = (now, (save parse_json now st).0)
  handle (now, st) (answers result) = (now, settled now result st)
  handle (now, st) (waits k) = (now + k, fire_timers (now + k) st)

  abbrev pub run : ℕ × State → List Event → ℕ × State
  run s [] = s
  run s (e ∷ rest) = run (handle s e) rest

  IsCovered-save_parsed :
      (now : ℕ) (st : State) (o : Option Json)
      → IsCovered now st
      → IsCovered now (save_parsed now st o).0
  unfolding save_parsed
  IsCovered-save_parsed now st none h =
      IsCovered-show_message now ToastType.error "Invalid JSON format." st
  IsCovered-save_parsed now st (some v) h = h

  IsCovered-save_as :
      (now : ℕ) (st : State) (mode : Mode)
      → IsCovered now st
      → IsCovered now (save_as parse_json now st mode).0
  unfolding save_as save_form save_json
  IsCovered-save_as now st form h = h
  IsCovered-save_as now st json h = IsCovered-save_parsed now st (parse_json st.json_text) h

  IsCovered-save :
      (now : ℕ) (st : State) → IsCovered now st → IsCovered now (save parse_json now st).0
  unfolding save
  IsCovered-save now st h = either st.pending
    where
      either :
          (b : Bool) → IsCovered now (if b then (st, none) else save_as parse_json now st st.mode).0
      either true = h
      either false = IsCovered-save_as now st st.mode h

  IsCovered-handle :
      (now : ℕ) (st : State) (e : Event)
      → IsCovered now st
      → IsCovered (handle (now, st) e).0 (handle (now, st) e).1
  unfolding handle seed set_general set_notif set_mode set_json_text settled
  IsCovered-handle now st (loads settings) h = h
  IsCovered-handle now st (edits_general key value) h = h
  IsCovered-handle now st (edits_service service key value) h = h
  IsCovered-handle now st (chooses mode) h = h
  IsCovered-handle now st (types text) h = h
  IsCovered-handle now st saves h = IsCovered-save now st h
  IsCovered-handle now st (answers (ok value)) h = IsCovered-show_message now _ _ _
  IsCovered-handle now st (answers (err message)) h = IsCovered-show_message now _ _ _
  IsCovered-handle now st (waits k) h = IsCovered-fire_timers now k st h

  IsCovered-run :
      (events : List Event) (now : ℕ) (st : State)
      → IsCovered now st
      → IsCovered (run (now, st) events).0 (run (now, st) events).1
  IsCovered-run [] now st h = h
  IsCovered-run (e ∷ rest) now st h =
      IsCovered-run rest (handle (now, st) e).0 (handle (now, st) e).1 (IsCovered-handle now st e h)

  -- After any session on the page, a message is gone four seconds later, if nothing else happens.
  pub run-fire_timers :
      (events : List Event)
      → (fire_timers ((run (0, initial) events).0 + 4000) (run (0, initial) events).1).message
        ≡ none
  unfolding initial
  run-fire_timers events = gone _ _ (IsCovered-run events 0 initial (inl refl))

-- A message that follows another one within four seconds does not stay for four seconds: it is cleared
-- four seconds after the first one.
pub message_cut_short :
    (now k : ℕ) (kind kind' : ToastType) (text text' : String) (st : State)
    → k < 4000
    → let second =
        show_message
          (now + k)
          kind'
          text'
          (fire_timers (now + k) (show_message now kind text st)) in
      (second.message ≡ some (record { kind = kind'; text = text' }))
      × ((fire_timers (now + 4000) second).message ≡ none)
unfolding show_message
message_cut_short now k kind kind' text text' st h =
    let first = show_message now kind text st in
    let still = kept (now + k) (now + 4000) first (mem_last (now + 4000) st.timers) (omega arith) in
    (
      refl,
      fired (now + 4000) (now + 4000)
          (show_message (now + k) kind' text' (fire_timers (now + k) first))
          (Memᴰ.append_left ((now + k + 4000) ∷ []) still) (omega arith),
    )
