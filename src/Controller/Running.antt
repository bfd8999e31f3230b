-- ===== src/Controller/Running.antt =====
-- Which schedulers run, after any calls of `Reconcile`.
use mathlib.Core.Option.{Option, none, some}
use drop_the_mic.Base.{
  ℕ, suc, ◌-◌, ◌≡◌, refl, sym, ap, ◌∙◌, String, Bool, true, false, not, List, [], ◌∷◌,
  if◌then◌else◌, ◌==◌, eq_iff, eq_refl, Bool-cases, inl, inr,
}
use drop_the_mic.Base.Sets.{has}
use drop_the_mic.Base.Text.{truthy}
use drop_the_mic.Base.Maps.{Map, lookup, store, remove_key, lookup-store, lookup-remove_key}
use drop_the_mic.Engine.{text_or_empty}
use drop_the_mic.Controller.{
  Kube, Error, Reply, found, broken, Policy, Adapter, Notifier, Effect, started, stopped, triggered,
  State, Outcome, done, requeue, fails, key_of, stop_scheduler, stop_found, finalizer_name,
  run_now_annotation,
}
use drop_the_mic.Controller.Loop.{
  put_scheduler, with_dispatcher, with_adapter, with_api_key, reconcile_scheduler, status_written,
  scheduler_built, updated, deletion, triggered_of, run_now, reconcile_found, reconcile_reply,
  reconcile,
}

-- How many schedulers of a key were started and not stopped.
abbrev pub running : String → List Effect → ℕ
running key [] = 0
running key (started k ∷ earlier) = let n = running key earlier in if k == key then suc n else n
running key (stopped k ∷ earlier) = let n = running key earlier in if k == key then n - 1 else n
running key (triggered k ∷ earlier) = running key earlier

abbrev pub one_if : Option Policy → ℕ
one_if none = 0
one_if (some p) = 1

-- The schedulers that run are those of the map, one for each key.
abbrev IsBalanced : Map Policy → List Effect → Type 0
IsBalanced schedulers effects =
    (key : String) → running key effects ≡ one_if (lookup key schedulers)

IsBalanced-stop :
    (key : String) (p : Policy) (schedulers : Map Policy) (effects : List Effect)
    → lookup key schedulers ≡ some p
    → IsBalanced schedulers effects
    → IsBalanced (remove_key key schedulers) (stopped key ∷ effects)
IsBalanced-stop key p schedulers effects e h other = elim (Bool-cases (key == other)) [
  | inl k ↦
      rw (lookup-remove_key key other schedulers, k)
        (ap (λ n. n - 1)
          (h other
            ∙ ap (λ x. one_if (lookup x schedulers)) (sym ((eq_iff key other).0 k))
            ∙ ap one_if e))
  | inr k ↦ rw (lookup-remove_key key other schedulers, k) (h other)
]

IsBalanced-start :
    (key : String) (p : Policy) (schedulers : Map Policy) (effects : List Effect)
    → lookup key schedulers ≡ none
    → IsBalanced schedulers effects
    → IsBalanced (store key p schedulers) (started key ∷ effects)
IsBalanced-start key p schedulers effects e h other = elim (Bool-cases (key == other)) [
  | inl k ↦
      rw (lookup-store key other p schedulers, k)
        (ap (λ n. suc n)
          (h other
            ∙ ap (λ x. one_if (lookup x schedulers)) (sym ((eq_iff key other).0 k))
            ∙ ap one_if e))
  | inr k ↦ rw (lookup-store key other p schedulers, k) (h other)
]

module _ {W : Type 0} where
  -- The same for a state; the world does not matter.
  abbrev Balanced : State W → Type 0
  Balanced st = IsBalanced st.schedulers st.effects

  Balanced-stop_scheduler :
      (key : String) (st : State W)
      → Balanced st
      → Balanced (stop_scheduler key st) × (lookup key (stop_scheduler key st).schedulers ≡ none)
  Balanced-stop_scheduler key st h = either (lookup key st.schedulers) refl
    where
      either :
          (o : Option Policy)
          → lookup key st.schedulers ≡ o
          → Balanced (stop_found key o st) × (lookup key (stop_found key o st).schedulers ≡ none)
      either none e = (h, e)
      either (some p) e = (
        IsBalanced-stop key p st.schedulers st.effects e h,
        lookup-remove_key key key st.schedulers ∙ rw (eq_refl key) refl,
      )

  Balanced-if :
      (b : Bool) (first second : Outcome × State W)
      → Balanced first.1
      → Balanced second.1
      → Balanced (if b then first else second).1
  Balanced-if true r r' h h' = h
  Balanced-if false r r' h h' = h'

module _ {W : Type 0} (kube : Kube W) where
  Balanced-put_scheduler :
      (policy : Policy) (st : State W) (reply : Option Error × W)
      → lookup (key_of policy.namespace policy.name) st.schedulers ≡ none
      → Balanced st
      → Balanced (put_scheduler kube policy st reply).1
  Balanced-put_scheduler policy st (some e, w) n h = h
  Balanced-put_scheduler policy st (none, w) n h =
      IsBalanced-start _ policy st.schedulers st.effects n h

  Balanced-with_dispatcher :
      (policy : Policy) (adapter : Adapter) (st : State W) (reply : Reply (List Notifier) × W)
      → lookup (key_of policy.namespace policy.name) st.schedulers ≡ none
      → Balanced st
      → Balanced (with_dispatcher kube policy adapter st reply).1
  Balanced-with_dispatcher policy adapter st (broken e, w) n h = h
  Balanced-with_dispatcher policy adapter st (found l, w) n h =
      Balanced-put_scheduler policy st _ n h

  Balanced-with_adapter :
      (policy : Policy) (st : State W) (reply : Reply Adapter)
      → lookup (key_of policy.namespace policy.name) st.schedulers ≡ none
      → Balanced st
      → Balanced (with_adapter kube policy st reply).1
  Balanced-with_adapter policy st (broken e) n h = h
  Balanced-with_adapter policy st (found a) n h = Balanced-with_dispatcher policy a st _ n h

  Balanced-with_api_key :
      (policy : Policy) (st : State W) (reply : Reply String × W)
      → lookup (key_of policy.namespace policy.name) st.schedulers ≡ none
      → Balanced st
      → Balanced (with_api_key kube policy st reply).1
  Balanced-with_api_key policy st (broken e, w) n h = h
  Balanced-with_api_key policy st (found k, w) n h =
      Balanced-with_adapter policy (record st { world = w }) _ n h

  Balanced-reconcile_scheduler :
      (policy : Policy) (st : State W)
      → Balanced st
      → Balanced (reconcile_scheduler kube policy st).1
  Balanced-reconcile_scheduler policy st h =
      let (b, n) = Balanced-stop_scheduler (key_of policy.namespace policy.name) st h in
      Balanced-with_api_key policy (stop_scheduler (key_of policy.namespace policy.name) st) _ n b

  Balanced-status_written :
      (st : State W) (reply : Option Error × W)
      → Balanced st
      → Balanced (status_written kube st reply).1
  Balanced-status_written st (some e, w) h = h
  Balanced-status_written st (none, w) h = h

  Balanced-scheduler_built :
      (policy : Policy) (built : Option Error × State W)
      → Balanced built.1
      → Balanced (scheduler_built kube policy built).1
  Balanced-scheduler_built policy (some e, st) h = h
  Balanced-scheduler_built policy (none, st) h = Balanced-status_written st _ h

  Balanced-updated :
      (outcome : Outcome) (st : State W) (reply : Option Error × W)
      → Balanced st
      → Balanced (updated kube outcome st reply).1
  Balanced-updated outcome st (some e, w) h = h
  Balanced-updated outcome st (none, w) h = h

  Balanced-deletion :
      (key : String) (policy : Policy) (st : State W)
      → Balanced st
      → Balanced (deletion kube key policy st).1
  Balanced-deletion key policy st h =
      Balanced-if (has policy.finalizers finalizer_name) _ (done, st)
        (Balanced-updated done (stop_scheduler key st) _ (Balanced-stop_scheduler key st h).0) h

  Balanced-triggered_of :
      (key : String) (o : Option Policy) (st : State W)
      → Balanced st
      → Balanced (triggered_of kube key o st)
  Balanced-triggered_of key none st h = h
  Balanced-triggered_of key (some p) st h = h

  Balanced-reconcile_found :
      (key : String) (policy : Policy) (st : State W)
      → Balanced st
      → Balanced (reconcile_found kube key policy st).1
  Balanced-reconcile_found key policy st h =
      Balanced-if policy.is_deleted (deletion kube key policy st) _
        (Balanced-deletion key policy st h)
        (Balanced-if (not (has policy.finalizers finalizer_name)) _ _
          (Balanced-updated requeue st _ h)
          (Balanced-if (truthy (text_or_empty (lookup run_now_annotation policy.annotations)))
            (run_now kube key policy st)
            (scheduler_built kube policy (reconcile_scheduler kube policy st))
            (Balanced-updated done (triggered_of kube key (lookup key st.schedulers) st) _
              (Balanced-triggered_of key (lookup key st.schedulers) st h))
            (Balanced-scheduler_built policy (reconcile_scheduler kube policy st)
              (Balanced-reconcile_scheduler policy st h))))

  Balanced-reconcile_reply :
      (key : String) (st : State W) (reply : Reply Policy × W)
      → Balanced st
      → Balanced (reconcile_reply kube key st reply).1
  Balanced-reconcile_reply key st (found p, w) h =
      Balanced-reconcile_found key p (record st { world = w }) h
  Balanced-reconcile_reply key st (broken e, w) h =
      Balanced-if e.not_found (done, stop_scheduler key (record st { world = w }))
        (fails e, record st { world = w })
        (Balanced-stop_scheduler key (record st { world = w }) h).0 h

  -- The calls of `Reconcile`, the last one first, by the namespaces and the names.
  abbrev pub after_calls : List (String × String) → State W → State W
  after_calls [] st = st
  after_calls ((namespace, name) ∷ earlier) st =
      (reconcile kube namespace name (after_calls earlier st)).1

  Balanced-after_calls :
      (calls : List (String × String)) (st : State W)
      → Balanced st
      → Balanced (after_calls calls st)
  unfolding reconcile
  Balanced-after_calls [] st h = h
  Balanced-after_calls ((namespace, name) ∷ earlier) st h =
      Balanced-reconcile_reply (key_of namespace name) (after_calls earlier st)
        (kube.get namespace name (after_calls earlier st).world) (Balanced-after_calls earlier st h)

  abbrev pub at_start : W → State W
  at_start w = record { schedulers = []; effects = []; world = w }

  -- Whatever the API answers: after any calls the schedulers that were started and not stopped are those of the
  -- map, one for each key; and after a further call for a policy that is gone none of its key runs.
  pub running-after_calls :
      (calls : List (String × String)) (w : W)
      → let st = after_calls calls (at_start w) in
        ((key : String) → running key st.effects ≡ one_if (lookup key st.schedulers))
        × ((namespace name : String) (e : Error) (w' : W)
            → kube.get namespace name st.world ≡ (broken e, w')
            → e.not_found ≡ true
            → running (key_of namespace name) (reconcile kube namespace name st).1.effects ≡ 0)
  unfolding reconcile
  running-after_calls calls w = (
    balanced,
    λ namespace name e w' gone n.
        let (b, none_left) =
          Balanced-stop_scheduler (key_of namespace name) (record st { world = w' }) balanced in
        rw (gone, n) (b (key_of namespace name) ∙ ap one_if none_left),
  )
    where
      st : State W
      st = after_calls calls (at_start w)

      balanced : Balanced st
      balanced = Balanced-after_calls calls (at_start w) (λ key. refl)
