-- ===== src/Controller/Channels.antt =====
-- operator/internal/controller/checklistpolicy_controller.go: the secrets of a policy, and the notifiers of its
-- channels.
use mathlib.Core.Option.{Option, none, some}
use drop_the_mic.Base.{String, List, [], ◌∷◌, ◌++◌, if◌then◌else◌, ◌==◌}
use drop_the_mic.Base.Maps.{Map, lookup}
use drop_the_mic.Base.Text.{◌<>◌}
use drop_the_mic.Engine.{text_or_empty}
use drop_the_mic.Controller.{
  Kube, Reply, found, broken, SecretReference, SlackNotification, GitHubNotification,
  JiraNotification, NotificationConfig, Notifier, slack, github, jira, wrap, plain, secret_value,
}

module _ {W : Type 0} (kube : Kube W) where
  abbrev pub resolve_secret : (namespace : String) → SecretReference → W → Reply String × W
  resolve_secret namespace ref w =
      let got = kube.get_secret namespace ref.name w in (secret_value ref got.0, got.1)

  -- `resolveJiraSecret`
  abbrev pub jira_values : SecretReference → Reply (Map String) → Reply (String × String)
  jira_values ref (broken e) = broken (wrap ("getting jira secret " <> ref.name <> ": ") e)
  jira_values ref (found data_of) =
      let token = text_or_empty (lookup "token" data_of) in
      if token == ""
      then broken (plain ("key \"token\" not found in jira secret " <> ref.name))
      else found (text_or_empty (lookup "email" data_of), token)

  -- `buildDispatcher`: the notifiers of the channels that are set, in this order.
  abbrev pub slack_of : SlackNotification → Reply String → Reply (List Notifier)
  slack_of s (broken e) = broken (wrap "resolving slack secret: " e)
  slack_of s (found url) = found (slack url s.channel ∷ [])

  abbrev pub github_of : GitHubNotification → Reply String → Reply (List Notifier)
  github_of g (broken e) = broken (wrap "resolving github secret: " e)
  github_of g (found token) = found (github token g.owner g.repo g.labels ∷ [])

  abbrev pub jira_of : JiraNotification → Reply (String × String) → Reply (List Notifier)
  jira_of j (broken e) = broken (wrap "resolving jira secret: " e)
  jira_of j (found (email, token)) = found (jira j.url email token j.project j.issue_type ∷ [])

  abbrev pub slack_channel :
      (namespace : String) → Option SlackNotification → W → Reply (List Notifier) × W
  slack_channel namespace none w = (found [], w)
  slack_channel namespace (some s) w =
      let got = resolve_secret namespace s.secret_ref w in (slack_of s got.0, got.1)

  abbrev pub github_channel :
      (namespace : String) → Option GitHubNotification → W → Reply (List Notifier) × W
  github_channel namespace none w = (found [], w)
  github_channel namespace (some g) w =
      let got = resolve_secret namespace g.secret_ref w in (github_of g got.0, got.1)

  abbrev pub jira_channel :
      (namespace : String) → Option JiraNotification → W → Reply (List Notifier) × W
  jira_channel namespace none w = (found [], w)
  jira_channel namespace (some j) w =
      let got = kube.get_secret namespace j.secret_ref.name w in
      (jira_of j (jira_values j.secret_ref got.0), got.1)

  abbrev pub with_more : List Notifier → Reply (List Notifier) × W → Reply (List Notifier) × W
  with_more l (broken e, w) = (broken e, w)
  with_more l (found more, w) = (found (l ++ more), w)

  -- The next channel is looked at only if there was no error.
  abbrev pub and_then :
      Reply (List Notifier) × W → (W → Reply (List Notifier) × W) → Reply (List Notifier) × W
  and_then (broken e, w) next = (broken e, w)
  and_then (found l, w) next = with_more l (next w)

  abbrev pub build_dispatcher :
      (namespace : String) → Option NotificationConfig → W → Reply (List Notifier) × W
  build_dispatcher namespace none w = (found [], w)
  build_dispatcher namespace (some n) w =
      and_then (slack_channel namespace n.slack w)
        (λ w'. and_then (github_channel namespace n.github w') (jira_channel namespace n.jira))
