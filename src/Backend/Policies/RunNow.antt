-- ===== src/Backend/Policies/RunNow.antt =====
-- From the request for a scan to the scan: the handler of the server, and `Reconcile` after it.
use mathlib.Core.Option.{Option, none, some}
use drop_the_mic.Base.{◌≡◌, refl, ap, ◌∙◌, String, Bool, true, false, not, List, ◌∷◌, if◌then◌else◌}
use drop_the_mic.Base.Sets.{has}
use drop_the_mic.Base.Text.{truthy}
use drop_the_mic.Base.Maps.{lookup, lookup-store_same}
use drop_the_mic.Engine.{text_or_empty}
use drop_the_mic.Controller.{
  Error, found, Policy, Kube, State, Effect, triggered, Outcome, done, finalizer_name,
  run_now_annotation, key_of,
}
use drop_the_mic.Controller.Loop.{
  reconcile, reconcile_reply, reconcile_found, triggered_of, updated,
}
use drop_the_mic.Backend.{write_json}
use drop_the_mic.Backend.Policies
use drop_the_mic.Backend.Policies.{Objects, with_run_now, run_now, run_found, status_json}

-- What Kubernetes and the clock do: an update that is accepted stores the annotations as they were sent,
-- and a time has a text that is not empty.
pub record IsDocumented {W Spec : Type 0} (io : Objects W Spec) : Type 0 where
  pub annotated :
      (p p' : Policy) (w w' : W) → io.update p w ≡ (found p', w') → p'.annotations ≡ p.annotations
  pub dated : (w : W) → truthy (io.time_text w).0 ≡ true

module _ {A : Type 0} (x y : A) where
  if_true : (b : Bool) → b ≡ true → (if b then x else y) ≡ x
  if_true b e = rw e refl

  if_false : (b : Bool) → b ≡ false → (if b then x else y) ≡ y
  if_false b e = rw e refl

module _ {W Spec : Type 0} (io : Objects W Spec) (kube : Kube W) where
  updated-effects :
      (outcome : Outcome) (st : State W) (reply : Option Error × W)
      → (updated kube outcome st reply).1.effects ≡ st.effects
  updated-effects outcome st (some e, w) = refl
  updated-effects outcome st (none, w) = refl

  -- What `Reconcile` does with a policy that has the annotation.
  reconcile_found-run_now :
      (key time : String) (p : Policy) (st : State W)
      → p.is_deleted ≡ false
      → has p.finalizers finalizer_name ≡ true
      → lookup run_now_annotation p.annotations ≡ some time
      → truthy time ≡ true
      → (reconcile_found kube key p st).1.effects
        ≡ (triggered_of kube key (lookup key st.schedulers) st).effects
  reconcile_found-run_now key time p st d f a t =
      ap effects_of (if_false _ _ p.is_deleted d)
      ∙ ap effects_of (if_false _ _ (not (has p.finalizers finalizer_name)) (ap not f))
      ∙ ap effects_of (if_true _ _ _ (ap (λ o. truthy (text_or_empty o)) a ∙ t))
      ∙ updated-effects done (triggered_of kube key (lookup key st.schedulers) st) _
    where
      effects_of : Outcome × State W → List Effect
      effects_of out = out.1.effects

  triggered_of-effects :
      (key : String) (s : Policy) (o : Option Policy) (st : State W)
      → o ≡ some s
      → (triggered_of kube key o st).effects ≡ triggered key ∷ st.effects
  triggered_of-effects key s o st e = rw e refl

  triggered_of-none :
      (key : String) (o : Option Policy) (st : State W)
      → o ≡ none
      → (triggered_of kube key o st).effects ≡ st.effects
  triggered_of-none key o st e = rw e refl

  -- The server stores the request for a scan of a policy: it answers that the scan is triggered. A later call
  -- of `Reconcile` gets the policy with the annotations of that update, not being deleted and with the
  -- finalizer: it starts a scan if a scheduler runs for the policy, and does not otherwise.
  pub run_now-reconcile :
      (p p' later : Policy) (st : State W) (w w₁ w₂ w₃ : W)
      → IsDocumented io
      → io.get p.namespace p.name w ≡ (found p, w₁)
      → io.update (with_run_now io (io.time_text w₁).0 p) (io.time_text w₁).1 ≡ (found p', w₂)
      → kube.get p.namespace p.name st.world ≡ (found later, w₃)
      → later.annotations ≡ p'.annotations
      → later.is_deleted ≡ false
      → has later.finalizers finalizer_name ≡ true
      → let key = key_of p.namespace p.name in
        (run_now io p.namespace p.name w
          ≡ (write_json io.codec 200 (status_json io "triggered"), w₂))
        × ((s : Policy)
            → lookup key st.schedulers ≡ some s
            → (reconcile kube p.namespace p.name st).1.effects ≡ triggered key ∷ st.effects)
        × (lookup key st.schedulers ≡ none
            → (reconcile kube p.namespace p.name st).1.effects ≡ st.effects)
  unfolding run_now reconcile
  run_now-reconcile p p' later st w w₁ w₂ w₃ h g u k a d f = (
    ap (run_found io) g ∙ ap (Policies.triggered io) u,
    λ s e. next ∙ triggered_of-effects _ s _ _ e,
    λ e. next ∙ triggered_of-none _ _ _ e,
  )
    where
      key : String
      key = key_of p.namespace p.name

      time : String
      time = (io.time_text w₁).0

      annotation : lookup run_now_annotation later.annotations ≡ some time
      annotation =
          ap (lookup run_now_annotation)
            (a ∙ h.annotated (with_run_now io time p) p' (io.time_text w₁).1 w₂ u)
          ∙ lookup-store_same run_now_annotation time p.annotations

      next :
          (reconcile_reply kube key st (kube.get p.namespace p.name st.world)).1.effects
          ≡ (triggered_of kube key (lookup key st.schedulers) (record st { world = w₃ })).effects
      next =
          ap (λ r. (reconcile_reply kube key st r).1.effects) k
          ∙ reconcile_found-run_now key time later (record st { world = w₃ }) d f annotation
              (h.dated w₁)
