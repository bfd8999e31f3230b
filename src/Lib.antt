-- ===== src/Lib.antt =====
-- Verification of Drop The Mic: the web client (ui/src), with the pages that show and edit the
-- checklist policies and scan results of a cluster, and of the operator and the server (operator) the
-- alert states, the scans, and the session.
--
-- The parts and where they are modelled:
--   Api, Client         ui/src/api/client.ts. `Client` has the stored token and `request`;
--                       `Client.Endpoints` the functions of `api`; `Client.Encode` the JSON bodies.
--   Login               ui/src/pages/Login.tsx: the form's state, `handleSubmit` as `handle_submit`.
--   App                 ui/src/App.tsx: `AuthGuard`, its effect as `effect`; `App.Routes` the routes,
--                       the layout and what an address shows.
--   Results             ui/src/pages/Results.tsx: filters, order, pages and the actions of the list;
--                       `Results.View` what is shown; `Results.Detail` the detail of one result.
--   PolicyForm          ui/src/pages/Policies.tsx, `PolicyFormModal`: `resetForm`, `buildCR`,
--                       `handleSubmit`, `addCheck`, `removeCheck`, `updateCheck`.
--   Policies            ui/src/pages/Policies.tsx, the list and the detail: `getLatestCondition`,
--                       `ConditionBadge`, the page's state and the calls that it makes;
--                       `Policies.View` what is shown;
--                       `Policies.Pending` the calls that the list has in flight, and the dialog of a
--                       deletion; `Policies.Opened` the detail while it is open;
--                       `PolicyForm.Modal` the policy form while it is used: its inputs,
--                       the call in flight, the errors, and the keys of its comboboxes.
--   Settings            ui/src/pages/Settings.tsx: the effect as `seed`, `handleSaveForm` and
--                       `handleSaveJson` as `save_form` and `save_json`, `showToast` as
--                       `show_message`; `Settings.Form` and `Settings.View` what is shown;
--                       `Api.Objects` the objects that it keeps.
--   Toast               ui/src/components/Toast.tsx: `showToast`, `removeToast` and the effect of a
--                       toast; `Step` is what may happen, `Quiet` what happens by itself.
--   Dialog, Tooltip     ui/src/components/Modal.tsx and ui/src/components/HelpTooltip.tsx.
--   ErrorBoundary       ui/src/components/ErrorBoundary.tsx, around the pages of ui/src/App.tsx.
--   HealthRing          ui/src/components/HealthRing.tsx, with exact fractions of the circle.
--   Dashboard           ui/src/pages/Dashboard.tsx: totals, ring, latest results, cards and
--                       bars.
--   Combobox            ui/src/components/Combobox.tsx: the events that change the selection.
--   Format, Badge       ui/src/utils/format.ts and ui/src/components/Badge.tsx.
--   Alerts              operator/internal/state/store.go: `RecordFail` and `RecordPass` as `record_fail`
--                       and `record_pass`, on a `Store`; `Alerts.History` a history of calls,
--                       `Alerts.States` the states after one, `Alerts.Lifecycle` what is sent.
--   Engine              operator/internal/engine/engine.go: `RunChecks` as `run_checks`
--                       of `Engine.Scan`.
--   Scheduler           operator/internal/scheduler/scheduler.go: `runFullScan` and `runRescan` as
--                       `run_full_scan` and `run_rescan`, of `Scheduler.Scans`; `Scheduler.Status` what they
--                       write to the cluster.
--   Controller          operator/internal/controller/checklistpolicy_controller.go: `Reconcile` as
--                       `Controller.Loop.reconcile`, with the schedulers that run.
--   Backend             operator/server/main.go and operator/server/handler/auth.go: tokens, login,
--                       middleware; `serve` is the server as the client calls it;
--                       `Backend.Settings` and `Backend.Policies` are the handlers of
--                       operator/server/handler/settings.go, policies.go and run.go.
--   Base                the built-ins that these use: arrays, sets, maps, numbers, strings, and a
--                       stable sort.
--   Tests               concrete inputs to which the theorems are applied.
--
-- How they interact: the pages call the client; a page that reads from the server is a function of
-- the query's data, which is `none` while it loads. The client is a function of the browser (token
-- and address) and of the server, a parameter of the type `Server`, which gives a response or
-- none. A state variable of a component is a field of its `State` or `Form`; an event handler is a
-- function on it. The router's `navigate` and the calls that are started are values. The server of
-- `Backend` is such a `Server`. A scheduler runs the engine, records its results in the store, and
-- writes the conditions of the policy, from which `Policies` shows the health.
--
-- Parameters stand for what the source only calls: `parse_date` for the parsing of a date,
-- `lower` and `upper` for the case of a text, `comes_after` for the built-in order of strings,
-- `query_string` for `URLSearchParams`, `token_of` for the field of an answer,
-- `stringify` and `parse_json` for those of `JSON`, `matches` for the router's matching of an address,
-- and an argument of the type `Rect` for `getBoundingClientRect`. In the operator `Adapter`,
-- `Cluster` and `Kube` are the operations on the world that it calls: the LLM, the tools, the clock, the API of
-- Kubernetes and the notifiers; `Codec` is what the server calls of Go's library. Numbers of the client
-- are natural or whole ones or NaN; magnitudes beyond 2^53 are left out. The counts of the operator are
-- of 32 bits and wrap around. The batches of a scan have as much fuel as there are checks, which is
-- enough since each batch takes one or more; every other function is structurally recursive. The times of
-- a token are of 64 bits in the source, in seconds; here they are natural numbers.
--
-- Time: the clock of the toasts counts milliseconds and stands still while a timer is due, so that
-- timers fire on time, in any order; animation frames run at any time. A component that waits for an
-- answer is a step relation with the list of its calls in flight; each may be answered at any time. Where
-- it can be left and come to again, it starts anew, and the calls that it left behind are a list of their own.
--
-- Not modelled: styling, the query cache of @tanstack/react-query, how react-router matches an
-- address (the parameter `matches`), and rounding in floating point. Of the operator: the cron loops and
-- their cancellation, the requests to the LLM and its tools, the notifiers, and the handlers of the server
-- for results and resources, which only pass objects on to Kubernetes.
pub mod Alerts
pub mod Api
pub mod App
pub mod Backend
pub mod Badge
pub mod Base
pub mod Client
pub mod Combobox
pub mod Controller
pub mod Dashboard
pub mod Dialog
pub mod Engine
pub mod ErrorBoundary
pub mod Format
pub mod HealthRing
pub mod Login
pub mod Policies
pub mod PolicyForm
pub mod Results
pub mod Scheduler
pub mod Settings
pub mod Tests
pub mod Toast
pub mod Tooltip
