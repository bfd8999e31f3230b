-- ===== src/Results/Names.antt =====
-- `policyNames` of ui/src/pages/Results.tsx, the choices of the policy filter: the policies of the
-- results, each once (`new Set`), in order (`sort()`). `comes_after` stands for the order of the
-- built-in `sort` on strings.

use drop_the_mic.Base.{◌≡◌, ◌∙◌, String, Bool, List, map}
use drop_the_mic.Base.Sets.{has, set_of, IsDistinct, has-set_of, set_of-IsDistinct}
use drop_the_mic.Base.Sort.{sort}
use drop_the_mic.Base.Sort.Distinct.{has-sort, IsDistinct-sort}
use drop_the_mic.Api.{ChecklistResult}

unfoldable pub policy_names : (String → String → Bool) → List ChecklistResult → List String
policy_names comes_after results = sort comes_after (set_of (map (λ r. r.spec.policy_ref) results))

-- The filter offers a name exactly if some result belongs to that policy, and offers no name twice.
pub policy_names_lem :
    (comes_after : String → String → Bool) (results : List ChecklistResult)
    → IsDistinct (policy_names comes_after results)
      × ((name : String)
          → has (policy_names comes_after results) name
            ≡ has (map (λ r. r.spec.policy_ref) results) name)
unfolding policy_names
policy_names_lem comes_after results = (
  IsDistinct-sort comes_after _ (set_of-IsDistinct (map (λ r. r.spec.policy_ref) results)),
  λ name. has-sort comes_after _ name ∙ has-set_of _ name,
)
