-- ===== src/Backend/Settings/Laws.antt =====
-- Reading the settings after they were saved.
use mathlib.Core.Option.{Option, none, some}
use mathlib.Core.Option.{some-injective}
use drop_the_mic.Base.{
  ℕ, ◌≡◌, refl, ap, sym, ◌∙◌, String, Bool, true, false, [], ◌∷◌, if◌then◌else◌, arith, subst,
}
use drop_the_mic.Base.Maps.{store, lookup-store_same}
use drop_the_mic.Api.{Json}
use drop_the_mic.Client.{Response}
use drop_the_mic.Engine.{Answer, ok, failed}
use drop_the_mic.Controller.{Error, Reply, found, broken}
use drop_the_mic.Base.Text.{◌<>◌}
use drop_the_mic.Backend.{write_error}
use drop_the_mic.Backend.Settings.{
  ConfigMap, Store, settings_key, setting_text, parsed, shown, read_settings, get_settings, written,
  write_settings, marshaled, decoded, update_settings,
}

-- What is documented of the library: what was written is read, as long as nobody else writes, and a text that was made of settings reads back.
pub record IsStore {W : Type 0} (io : Store W) : Type 0 where
  pub created : (cm : ConfigMap) (w w' : W) → io.create cm w ≡ (none, w') → (io.get w').0 ≡ found cm
  pub updated : (cm : ConfigMap) (w w' : W) → io.update cm w ≡ (none, w') → (io.get w').0 ≡ found cm
  pub reads :
      (settings : Json) (text : String)
      → io.marshal settings ≡ ok text
      → io.unmarshal text ≡ ok settings

module _ {W : Type 0} (io : Store W) (h : IsStore io) where
  -- The outcome of a save: if it answers with 200, the next read gets this answer.
  abbrev Keeps : Json → Option Response × W → Type 0
  Keeps settings out =
      (resp : Response)
      → out.0 ≡ some resp
      → resp.status ≡ 200
      → ((get_settings io out.1).0 ≡ resp) × (resp.json ≡ some settings)

  refused :
      (settings : Json) (status : ℕ) (r : Response) (w : W)
      → r.status ≡ status
      → (status ≡ 200 → ⊥)
      → Keeps settings (some r, w)
  refused settings status r w e n resp q s =
      absurd (n (sym e ∙ ap (λ (x : Response). x.status) (some-injective r resp q) ∙ s))

  Keeps-written :
      (doing : String) (settings : Json) (text : String) (cm : ConfigMap) (reply : Option Error × W)
      → io.marshal settings ≡ ok text
      → setting_text cm ≡ some text
      → ((w' : W) → reply ≡ (none, w') → (io.get w').0 ≡ found cm)
      → Keeps settings (written io doing settings reply)
  unfolding get_settings
  Keeps-written doing settings text cm (some e, w) m t g resp q s =
      refused settings 500 _ w refl (λ k. omega arith) resp q s
  Keeps-written doing settings text cm (none, w) m t g resp q s = (
    ap (read_settings io) (g w refl)
        ∙ ap (shown io) t
        ∙ ap (parsed io) (h.reads settings text m)
        ∙ some-injective _ resp q,
    ap (λ (r : Response). r.json) (sym (some-injective _ resp q)),
  )

  Keeps-write_settings :
      (settings : Json) (text : String) (reply : Reply ConfigMap × W)
      → io.marshal settings ≡ ok text
      → Keeps settings (write_settings io settings text reply)
  Keeps-write_settings settings text (broken e, w) m resp q s = either e.not_found resp q s
    where
      either :
          (b : Bool)
          → Keeps settings (
              if b
              then written io "creating" settings (io.create (some ((settings_key, text) ∷ [])) w)
              else (some (write_error io.codec 500 ("getting settings: " <> e.text)), w))
      either true = Keeps-written "creating" settings text _ _ m refl (λ w' q. h.created _ w w' q)
      either false = refused settings 500 _ w refl (λ q. omega arith)
  Keeps-write_settings settings text (found none, w) m resp q s = cc
  Keeps-write_settings settings text (found (some d), w) m resp q s =
      Keeps-written "updating" settings text (some (store settings_key text d)) _ m
        (lookup-store_same settings_key text d) (λ w' k. h.updated _ w w' k) resp q s

  Keeps-marshaled :
      (settings : Json) (text : Answer String) (w : W)
      → io.marshal settings ≡ text
      → Keeps settings (marshaled io settings text w)
  Keeps-marshaled settings (failed e) w m = refused settings 500 _ w refl (λ q. omega arith)
  Keeps-marshaled settings (ok text) w m = Keeps-write_settings settings text (io.get w) m

-- Where the library does what is documented and nobody else writes the settings: if a save of settings is
-- answered with 200, the answer is these settings, and a read that follows has the same answer.
pub get_settings-update_settings :
    {W : Type 0} (io : Store W) (body : Option Json) (settings : Json) (w : W) (resp : Response)
    → IsStore io
    → io.decode body ≡ ok settings
    → (update_settings io body w).0 ≡ some resp
    → resp.status ≡ 200
    → ((get_settings io (update_settings io body w).1).0 ≡ resp) × (resp.json ≡ some settings)
unfolding update_settings
get_settings-update_settings io body settings w resp h d =
    subst (λ a. Keeps io h settings (decoded io a w)) (sym d)
      (Keeps-marshaled io h settings (io.marshal settings) w refl) resp
